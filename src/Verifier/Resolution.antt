-- ===== src/Verifier/Resolution.antt =====
-- Stage 5 of onomancy_protocol/src/verifier/state.rs: which document a hostname is bound to.
pub mod Movement
pub mod Candidates
use onomancy.Prelude.{
  ℕ, ◌+◌, zero, suc, List, [], ◌∷◌, ◌++◌, map, Bool, true, false, not, ◌&&◌, ◌||◌, any, all, elem,
  filter, find, filter_map, first, last, last_or, length, ltb, Option, none, some, if◌then◌else◌,
  ◌==◌,
}
use onomancy.Prelude.Sort.{sort_by_key, dedup_by}
use onomancy.Core.{DocAnchor, UnixSeconds, Digest}
use onomancy.Dnssec.Freshness.{Freshness, is_fresh}
use onomancy.Dnssec.ZoneStateKey.{ZoneStateKey, words, eqb}
use onomancy.Dnssec.Units.{DnsName, GenerationKey, AuthorityVerifier}
use onomancy.Ladder.{Contender, Continuity, Verdict, compare}
use onomancy.Verifier.Evidence.{
  Evidence, BindingEvidence, SuccessorEvidence, freshness, is_certificate,
}
use onomancy.Verifier.Evidence.Extract.{sorted_documents}
use onomancy.Verifier.Lineage.{LineageView, descends}
use onomancy.Verifier.Succession.{ProofGraph, chain_from, proves}
use onomancy.Verifier.Decisions.{Decisions}
use onomancy.Verifier.Acceptances.{AcceptanceResolution, winning_acceptance}

-- binding_state.rs: `ContinuityGrade`
pub data ContinuityGrade : Type 0 where
  unmoved proven bridged unproven : ContinuityGrade

pub record DocumentResolution : Type 0 where
  pub accepted : Option (DocAnchor × GenerationKey)
  pub contested : Bool
  pub continuity : ContinuityGrade
  pub losing_acceptances : List DocAnchor
  pub pending : List DocAnchor

abbrev pub no_resolution : DocumentResolution
no_resolution = record {
  accepted = none;
  contested = false;
  continuity = unmoved;
  losing_acceptances = [];
  pending = [];
}

-- `LadderContext`
pub record LadderContext : Type 0 where
  pub authority : AuthorityVerifier
  pub graph : ProofGraph
  pub lineage : LineageView
  pub now : UnixSeconds

-- `as_contender`
unfoldable pub as_contender : BindingEvidence → UnixSeconds → Contender
as_contender r now = record { document = r.document; freshness = freshness r now; key = r.key }

-- Rung 1 from two directions of signed order.
unfoldable pub continuity_of : Bool → Bool → Continuity
continuity_of true true = Continuity.fork
continuity_of true false = Continuity.right_newer
continuity_of false true = Continuity.left_newer
continuity_of false false = Continuity.silent

-- Whether signed statements order `newer` after `older`: lineage descent within a document,
-- succession proofs across documents.
unfoldable pub is_signed_newer : LadderContext → BindingEvidence → BindingEvidence → Bool
is_signed_newer ctx older newer =
    if older.document == newer.document
    then descends ctx.lineage older.document older.generation newer.generation
    else proves ctx.graph older.document newer.document

-- `ladder_verdict`
unfoldable pub ladder_verdict : LadderContext → BindingEvidence → BindingEvidence → Verdict
unfolding as_contender continuity_of is_signed_newer
ladder_verdict ctx left right =
    compare (as_contender left ctx.now) (as_contender right ctx.now)
      (continuity_of (is_signed_newer ctx left right) (is_signed_newer ctx right left))

-- `== Verdict::Left`
abbrev pub is_left : Verdict → Bool
is_left Verdict.left = true
is_left _ = false

-- The winner of one document's ladder, and whether the choice is contested.
pub record BestOf : Type 0 where
  pub winner : Option BindingEvidence
  pub contested : Bool

-- `best_of_document`'s candidates: interchangeable spellings collapse to the smallest hash.
unfoldable pub spellings : List BindingEvidence → DocAnchor → List BindingEvidence
spellings surviving document =
    dedup_by (λ (a b : BindingEvidence). a.generation == b.generation && eqb a.key b.key)
      (sort_by_key (λ (r : BindingEvidence). words r.key ++ r.generation ∷ r.hash ∷ [])
        (filter (λ (r : BindingEvidence). r.document == document) surviving))

unfoldable pub beats_within : LadderContext → BindingEvidence → BindingEvidence → Bool
beats_within ctx candidate other =
    not (other.hash == candidate.hash) && is_left (ladder_verdict ctx other candidate)

-- The one undominated record, or else the highest key, contested.
unfoldable pub pick_undominated : List BindingEvidence → List BindingEvidence → BestOf
pick_undominated of_doc (winner ∷ []) = record { winner = some winner; contested = false }
pick_undominated [] _ = record { winner = none; contested = false }
pick_undominated (r ∷ rs) _ = record { winner = last (r ∷ rs); contested = true }

-- `best_of_document`
unfoldable pub best_of_document : LadderContext → List BindingEvidence → DocAnchor → BestOf
unfolding spellings beats_within pick_undominated
best_of_document ctx surviving document =
    let of_doc = spellings surviving document in
    pick_undominated of_doc (
      filter
        (λ (c : BindingEvidence). not (any (λ (o : BindingEvidence). beats_within ctx c o) of_doc))
        of_doc)

-- The documents of surviving certificate-attested records.
unfoldable pub candidate_documents : List BindingEvidence → List DocAnchor
candidate_documents surviving = sorted_documents (
    map (λ (r : BindingEvidence). r.document)
      (filter (λ (r : BindingEvidence). is_certificate r.attestation) surviving))

-- The best record of each candidate, and whether some choice was contested.
unfoldable pub best_records : LadderContext → List BindingEvidence → List BindingEvidence
unfolding candidate_documents
best_records ctx surviving =
    filter_map (λ d. (best_of_document ctx surviving d).winner) (candidate_documents surviving)

unfoldable pub internally_contested : LadderContext → List BindingEvidence → Bool
unfolding candidate_documents
internally_contested ctx surviving =
    any (λ d. (best_of_document ctx surviving d).contested) (candidate_documents surviving)

unfoldable pub is_dominated : LadderContext → List BindingEvidence → BindingEvidence → Bool
is_dominated ctx best candidate =
    any
      (λ (other : BindingEvidence).
        not (other.document == candidate.document) && is_left (ladder_verdict ctx other candidate))
      best

-- The document at which the accepted chain ends, or the ladder's choice where nothing is accepted.
unfoldable pub incumbent_of : LadderContext → Option DocAnchor → DocAnchor → DocAnchor
incumbent_of ctx none maximal = maximal
incumbent_of ctx (some document) maximal = last_or document (chain_from ctx.graph document)

unfoldable pub has_fresh : LadderContext → List BindingEvidence → DocAnchor → Bool
has_fresh ctx surviving document =
    any (λ (r : BindingEvidence). r.document == document && is_fresh (freshness r ctx.now))
      surviving

-- `fully_checked_departure`
unfoldable pub fully_checked_departure :
    LadderContext → List BindingEvidence → DocAnchor → DocAnchor → Bool
unfolding has_fresh
fully_checked_departure ctx surviving base next =
    if not (has_fresh ctx surviving base)
    then false
    else elim (best_of_document ctx surviving base).winner [
      | none ↦ false
      | some last_known ↦
          any (λ (s : SuccessorEvidence). ctx.authority.on_path s.carriage last_known.generation)
            (filter (λ (s : SuccessorEvidence). s.predecessor == base && s.successor == next)
              ctx.graph.statements)
    ]

-- `iter().position(|d| *d == target)`
unfoldable pub position : DocAnchor → List DocAnchor → Option ℕ
position target [] = none
position target (d ∷ ds) =
    if d == target
    then some 0
    else elim (position target ds) [ none ↦ none | some i ↦ some (i + 1) ]

-- The grade of the hop or hops from the accepted base to the document.
unfoldable pub continuity_grade :
    LadderContext → List BindingEvidence → Option DocAnchor → DocAnchor → ContinuityGrade
unfolding position fully_checked_departure
continuity_grade ctx surviving none accepted_document = unmoved
continuity_grade ctx surviving (some base) accepted_document =
    if base == accepted_document
    then unmoved
    else elim (position accepted_document (chain_from ctx.graph base)) [
      | none ↦ unproven
      | some i ↦
          if i == 1 && fully_checked_departure ctx surviving base accepted_document
          then proven
          else bridged
    ]

-- A candidate that may stand against the incumbent.
unfoldable pub is_eligible : LadderContext → DocAnchor → BindingEvidence → Bool
is_eligible ctx incumbent r =
    r.document == incumbent
    || is_fresh (freshness r ctx.now)
    || proves ctx.graph incumbent r.document

is_empty : List BindingEvidence → Bool
is_empty [] = true
is_empty (x ∷ xs) = false

-- Whether the undominated candidates contest one another.
unfoldable pub tie_contests :
    LadderContext → Option DocAnchor → DocAnchor → List BindingEvidence → Bool
unfolding is_eligible is_empty
tie_contests ctx none incumbent undominated = not (length undominated == 1)
tie_contests ctx (some _) incumbent undominated =
    if is_empty undominated
    then true
    else ltb 1 (
        length (
          sorted_documents (
            map (λ (r : BindingEvidence). r.document)
              (filter (is_eligible ctx incumbent) undominated))))

-- The document that the contest leaves accepted.
unfoldable pub settle : LadderContext → BindingEvidence → DocAnchor → Bool → DocAnchor
settle ctx maximal incumbent contested =
    if maximal.document == incumbent || contested
    then incumbent
    else if is_fresh (freshness maximal ctx.now) || proves ctx.graph incumbent maximal.document
    then maximal.document
    else incumbent

-- The stale, unproven candidates beside the accepted document and the incumbent.
unfoldable pub pending_among :
    LadderContext → DocAnchor → DocAnchor → List BindingEvidence → List DocAnchor
pending_among ctx accepted_document incumbent best = sorted_documents (
    map (λ (r : BindingEvidence). r.document)
      (filter
        (λ (r : BindingEvidence).
          not (proves ctx.graph accepted_document r.document)
          && not (proves ctx.graph r.document accepted_document))
        (filter (λ (r : BindingEvidence). not (is_fresh (freshness r ctx.now)))
          (filter
            (λ (r : BindingEvidence).
              not (r.document == accepted_document) && not (r.document == incumbent))
            best))))

-- The rest of `resolve_document`, once there is a candidate.
unfoldable pub resolve_among :
    LadderContext
    → List BindingEvidence
    → List BindingEvidence
    → BindingEvidence
    → AcceptanceResolution
    → DocumentResolution
unfolding is_dominated incumbent_of tie_contests settle continuity_grade pending_among
resolve_among ctx surviving best first_candidate acceptance =
    let undominated = filter (λ (c : BindingEvidence). not (is_dominated ctx best c)) best in
    let maximal : BindingEvidence = elim (first undominated) [
      | none ↦ first_candidate
      | some r ↦ r
    ] in
    let incumbent = incumbent_of ctx acceptance.winner maximal.document in
    let contested =
      (internally_contested ctx surviving || acceptance.tied)
      || tie_contests ctx acceptance.winner incumbent undominated in
    let accepted_document = settle ctx maximal incumbent contested in
    record {
      accepted = elim (find (λ (r : BindingEvidence). r.document == accepted_document) best) [
        | none ↦ none
        | some r ↦ some (accepted_document, r.generation)
      ];
      contested = contested;
      continuity = continuity_grade ctx surviving acceptance.winner accepted_document;
      losing_acceptances = acceptance.losers;
      pending = pending_among ctx accepted_document incumbent best;
    }

-- `resolve_document`
unfoldable pub resolve_document :
    LadderContext → List BindingEvidence → DnsName → Decisions → Evidence → DocumentResolution
unfolding resolve_among
resolve_document ctx surviving hostname decisions evidence =
    let best = best_records ctx surviving in
    elim (first best) [
      | none ↦ no_resolution
      | some first_candidate ↦
          resolve_among ctx surviving best first_candidate
            (winning_acceptance hostname decisions evidence)
    ]
