-- ===== src/Verifier/State.antt =====
-- `derive_host` and `VerifierState::compute` of onomancy_protocol/src/verifier/state.rs.
pub mod Masking
pub mod Certified
use onomancy.Prelude.{
  ℕ, List, [], ◌∷◌, ◌++◌, map, Bool, true, false, not, ◌&&◌, ◌||◌, any, elem, filter, Option, none,
  some, if◌then◌else◌, ◌==◌,
}
use onomancy.Prelude.Result.{ok, err}
use onomancy.Prelude.Sort.{sort_by_key, dedup_by}
use onomancy.Prelude.Extremes.{min_by_key, max_by_key}
use onomancy.Core.{DocAnchor, UnixSeconds, Digest}
use onomancy.Dnssec.Freshness.{ValidityWindow, new, is_fresh}
use onomancy.Dnssec.Serial.{Serial}
use onomancy.Dnssec.ZoneStateKey.{words}
use onomancy.Dnssec.Units.{DnsName, GenerationKey, ChainValidator, AuthorityVerifier}
use onomancy.Verifier.Store.{Hasher, Store}
use onomancy.Verifier.Evidence.{
  Evidence, BindingEvidence, SuccessorEvidence, is_certificate, is_deferred, freshness,
}
use onomancy.Verifier.Evidence.Extract.{validate_and_extract, sorted_documents}
use onomancy.Verifier.Lineage.{Fork, fork_key, build_lineage, sorted_keys}
use onomancy.Verifier.Succession.{SuccessionFork, for_hostname}
use onomancy.Verifier.Decisions.{Decisions, Claim, get_all}
use onomancy.Verifier.Rules.{apply_generation_rules}
use onomancy.Verifier.Resolution.{
  ContinuityGrade, bridged, unmoved, LadderContext, DocumentResolution, best_of_document,
  resolve_document,
}

-- binding_state.rs
pub data BindingGrade : Type 0 where
  confirmed provisional : BindingGrade

pub record AcceptedBinding : Type 0 where
  pub continuity : ContinuityGrade
  pub document : DocAnchor
  pub generation : GenerationKey
  pub grade : BindingGrade

pub data DivergenceSource : Type 0 where
  claim pin : DivergenceSource

pub record Divergence : Type 0 where
  pub alleged : DocAnchor
  pub source : DivergenceSource

pub record BindingState : Type 0 where
  pub accepted : Option AcceptedBinding
  pub contested : Bool
  pub divergence : List Divergence
  pub effective_serial : Option Serial
  pub forks : List Fork
  pub losing_acceptances : List DocAnchor
  pub pending : List DocAnchor
  pub succession_forks : List SuccessionFork
  pub tenure : Option ValidityWindow

-- `BindingState::default`
abbrev pub no_binding : BindingState
no_binding = record {
  accepted = none;
  contested = false;
  divergence = [];
  effective_serial = none;
  forks = [];
  losing_acceptances = [];
  pending = [];
  succession_forks = [];
  tenure = none;
}

-- Stage 2: not excluded and not deferred.
unfoldable pub admitted : Evidence → DnsName → List Digest → UnixSeconds → List BindingEvidence
admitted evidence hostname excluded now =
    filter (λ (r : BindingEvidence). not (is_deferred r now))
      (filter (λ (r : BindingEvidence). not (elem r.hash excluded))
        (filter (λ (r : BindingEvidence). r.hostname == hostname) evidence.records))

-- The documents that a certificate record attests.
unfoldable pub corroborated : List BindingEvidence → List DocAnchor
corroborated records =
    map (λ (r : BindingEvidence). r.document)
      (filter (λ (r : BindingEvidence). is_certificate r.attestation) records)

unfoldable pub considered : Evidence → DnsName → List Digest → UnixSeconds → List BindingEvidence
unfolding admitted corroborated
considered evidence hostname excluded now =
    let records = admitted evidence hostname excluded now in
    sort_by_key (λ (r : BindingEvidence). r.document ∷ (words r.key ++ r.hash ∷ []))
      (filter
        (λ (r : BindingEvidence).
          is_certificate r.attestation || elem r.document (corroborated records))
        records)

-- `global_rotation_exclusions`
unfoldable pub global_rotation_exclusions : List (DnsName × List Digest) → List Digest
global_rotation_exclusions [] = []
global_rotation_exclusions ((hostname, excluded) ∷ resets) =
    excluded ++ global_rotation_exclusions resets

-- The considered documents' forks with those of stage 4, in order and without repeats.
unfoldable pub all_forks : List BindingEvidence → List Fork → List Fork → List Fork
all_forks records lineage_forks graded_forks =
    dedup_by (λ (a b : Fork). a.document == b.document && a.at == b.at)
      (sort_by_key fork_key (
        filter (λ (f : Fork). any (λ (r : BindingEvidence). r.document == f.document) records)
          lineage_forks
        ++ graded_forks))

-- `tenure_span`
unfoldable pub tenure_span : List BindingEvidence → Option ValidityWindow
tenure_span records =
    elim (min_by_key (λ t. t ∷ []) (map (λ (r : BindingEvidence). r.window.inception) records)) [
      | none ↦ none
      | some inception ↦
          (elim (max_by_key (λ t. t ∷ [])
            (map (λ (r : BindingEvidence). r.window.expiration) records)) [
              | none ↦ none
              | some expiration ↦ (elim (new inception expiration) [ ok w ↦ some w | err _ ↦ none ])
            ])
    ]

source_rank : DivergenceSource → ℕ
source_rank claim = 0
source_rank pin = 1

-- `derive_divergence`
unfoldable pub derive_divergence :
    DnsName → Option AcceptedBinding → Decisions → List (DnsName × List DocAnchor) → List Divergence
unfolding source_rank
derive_divergence hostname none decisions pins = []
derive_divergence hostname (some binding) decisions pins =
    dedup_by
      (λ (a b : Divergence). a.alleged == b.alleged && source_rank a.source == source_rank b.source)
      (sort_by_key (λ (d : Divergence). d.alleged ∷ source_rank d.source ∷ [])
        (map (λ (c : Claim). record { alleged = c.document; source = claim })
            (filter (λ (c : Claim). not (c.document == binding.document))
              (filter (λ (c : Claim). c.hostname == hostname) decisions.claims))
          ++ map (λ p. record { alleged = p; source = pin })
              (filter (λ p. not (p == binding.document)) (get_all hostname pins))))

is_bridged : ContinuityGrade → Bool
is_bridged bridged = true
is_bridged _ = false

-- Stage 6.
unfoldable pub grade_binding :
    LadderContext → List BindingEvidence → DocumentResolution → Option AcceptedBinding
unfolding is_bridged
grade_binding ctx surviving resolution = elim resolution.accepted [
  | none ↦ none
  | some (document, generation) ↦
      let fresh_support =
        any (λ (r : BindingEvidence). r.document == document && is_fresh (freshness r ctx.now))
          surviving in
      some (record {
        continuity = resolution.continuity;
        document = document;
        generation = generation;
        grade =
            if fresh_support && not (is_bridged resolution.continuity)
            then confirmed
            else provisional;
      })
]

-- Stage 7: the ladder-winning record's serial.
unfoldable pub serial_of :
    LadderContext → List BindingEvidence → Option AcceptedBinding → Option Serial
serial_of ctx surviving none = none
serial_of ctx surviving (some binding) =
    elim (best_of_document ctx surviving binding.document).winner [
      | none ↦ none
      | some r ↦ some r.key.serial
    ]

unfoldable pub tenure_of : List BindingEvidence → Option AcceptedBinding → Option ValidityWindow
unfolding tenure_span
tenure_of surviving none = none
tenure_of surviving (some binding) =
    tenure_span (filter (λ (r : BindingEvidence). r.document == binding.document) surviving)

unfoldable pub is_contested_generation : List DocAnchor → Option AcceptedBinding → Bool
is_contested_generation contested none = false
is_contested_generation contested (some binding) = elem binding.document contested

-- Stages 5 to 8 over the surviving records.
unfoldable pub assemble :
    LadderContext
    → DnsName
    → Evidence
    → Decisions
    → List (DnsName × List DocAnchor)
    → List BindingEvidence
    → List Fork
    → List DocAnchor
    → BindingState
unfolding grade_binding serial_of tenure_of is_contested_generation derive_divergence
assemble ctx hostname evidence decisions pins surviving forks contested_documents =
    let resolution = resolve_document ctx surviving hostname decisions evidence in
    let accepted = grade_binding ctx surviving resolution in
    let contested = resolution.contested || is_contested_generation contested_documents accepted in
    let output = if contested then none else accepted in
    record {
      accepted = output;
      contested = contested;
      divergence = derive_divergence hostname output decisions pins;
      effective_serial = if contested then none else serial_of ctx surviving accepted;
      forks = forks;
      losing_acceptances = resolution.losing_acceptances;
      pending = resolution.pending;
      succession_forks = ctx.graph.forks;
      tenure = tenure_of surviving accepted;
    }

-- `derive_host`
unfoldable pub derive_host :
    AuthorityVerifier
    → DnsName
    → Evidence
    → UnixSeconds
    → Decisions
    → List (DnsName × List DocAnchor)
    → BindingState
unfolding considered global_rotation_exclusions all_forks assemble
derive_host authority hostname evidence now decisions pins =
    let excluded = get_all hostname decisions.resets in
    let lineage = build_lineage evidence (global_rotation_exclusions decisions.resets) in
    let records = considered evidence hostname excluded now in
    let graded = apply_generation_rules records now lineage in
    let ctx : LadderContext = record {
      authority = authority;
      graph = for_hostname evidence hostname excluded;
      lineage = lineage;
      now = now;
    } in
    assemble ctx hostname evidence decisions pins graded.surviving
      (all_forks records lineage.forks graded.forks) graded.contested_documents

-- Every hostname that some input mentions.
unfoldable pub hostnames : Evidence → Decisions → List (DnsName × List DocAnchor) → List DnsName
hostnames evidence decisions pins = sorted_keys (
    map (λ (r : BindingEvidence). r.hostname) evidence.records
    ++ (map (λ (s : SuccessorEvidence). s.hostname) evidence.successors
        ++ (map (λ (c : Claim). c.hostname) decisions.claims
            ++ (map (λ (e : DnsName × List onomancy.Verifier.Decisions.Acceptance). e.0)
                  decisions.acceptances
                ++ map (λ (e : DnsName × List DocAnchor). e.0) pins))))

-- `VerifierState::compute`
unfoldable pub compute :
    Hasher
    → ChainValidator
    → AuthorityVerifier
    → Store
    → UnixSeconds
    → Decisions
    → List (DnsName × List DocAnchor)
    → List (DnsName × BindingState)
unfolding hostnames derive_host
compute h validator authority store now decisions pins =
    let evidence = validate_and_extract h validator authority store in
    map (λ hostname. (hostname, derive_host authority hostname evidence now decisions pins))
      (hostnames evidence decisions pins)
