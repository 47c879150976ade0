-- ===== src/Verifier/Acceptances.antt =====
-- The receipts rule of onomancy_protocol/src/verifier/state.rs: `winning_acceptance`.
pub mod Receipts
use onomancy.Prelude.{
  ℕ, List, [], ◌∷◌, ◌++◌, map, Bool, true, false, not, ◌&&◌, ◌||◌, any, all, elem, filter,
  filter_map, last, Option, none, some, if◌then◌else◌, ◌==◌, Ordering,
}
use onomancy.Prelude.Lex.{lexb}
use onomancy.Prelude.Sort.{sort_by_key}
use onomancy.Prelude.Extremes.{max_by_key}
use onomancy.Core.{Digest, DocAnchor}
use onomancy.Dnssec.Units.{DnsName}
use onomancy.Dnssec.ZoneStateKey.{ZoneStateKey, words, cmp, eqb}
use onomancy.Verifier.Evidence.{Evidence, BindingEvidence}
use onomancy.Verifier.Evidence.Extract.{sorted_documents}
use onomancy.Verifier.Decisions.{Decisions, Acceptance, get, get_all}

pub record Ranked : Type 0 where
  pub key : ZoneStateKey
  pub document : DocAnchor

-- The outcome, and whether the receipts tie.
pub record AcceptanceResolution : Type 0 where
  pub winner : Option DocAnchor
  pub losers : List DocAnchor
  pub tied : Bool

abbrev pub no_acceptance : AcceptanceResolution
no_acceptance = record { winner = none; losers = []; tied = false }

-- The evidence rows of the cited items.
unfoldable pub cited_records : Evidence → Acceptance → List BindingEvidence
cited_records evidence acceptance =
    filter (λ (r : BindingEvidence). elem r.hash acceptance.cited) evidence.records

-- The receipt's shape: every cited item a record for this hostname, at least one for the document.
unfoldable pub is_well_formed : DnsName → Acceptance → List BindingEvidence → Bool
is_well_formed hostname acceptance rows =
    (all (λ h. any (λ (r : BindingEvidence). r.hash == h) rows) acceptance.cited
      && not (any (λ (r : BindingEvidence). not (r.hostname == hostname)) rows))
    && any (λ (r : BindingEvidence). r.document == acceptance.document) rows

-- An acceptance that counts, ranked by the greatest key that it cites.
unfoldable pub rank_acceptance : DnsName → List Digest → Evidence → Acceptance → Option Ranked
unfolding cited_records is_well_formed
rank_acceptance hostname excluded evidence acceptance =
    let rows = cited_records evidence acceptance in
    if any (λ h. elem h excluded) acceptance.cited
    then none
    else if not (all (λ h. elem h evidence.held) acceptance.cited)
    then none
    else if not (is_well_formed hostname acceptance rows)
    then none
    else elim (max_by_key words (map (λ (r : BindingEvidence). r.key) rows)) [
      | none ↦ none
      | some key ↦ some (record { key = key; document = acceptance.document })
    ]

abbrev pub ranked_key : Ranked → List ℕ
ranked_key r = words r.key ++ r.document ∷ []

-- `<` on keys
abbrev pub key_lt : ZoneStateKey → ZoneStateKey → Bool
key_lt a b = elim (cmp a b) [ Ordering.lt ↦ true | _ ↦ false ]

unfoldable pub losers_below : List Ranked → ZoneStateKey → List DocAnchor
losers_below ranked best_key = sorted_documents (
    filter
      (λ document. not (any (λ (r : Ranked). eqb r.key best_key && r.document == document) ranked))
      (map (λ (r : Ranked). r.document) (filter (λ (r : Ranked). key_lt r.key best_key) ranked)))

unfoldable pub ranked_acceptances : DnsName → List Digest → Evidence → List Acceptance → List Ranked
unfolding rank_acceptance
ranked_acceptances hostname excluded evidence acceptances =
    sort_by_key ranked_key (filter_map (rank_acceptance hostname excluded evidence) acceptances)

unfoldable pub winner_of : List Ranked → AcceptanceResolution
unfolding losers_below
winner_of ranked = elim (last ranked) [
  | none ↦ no_acceptance
  | some best ↦
      if any (λ (r : Ranked). eqb r.key best.key && not (r.document == best.document)) ranked
      then record { winner = none; losers = losers_below ranked best.key; tied = true }
      else record {
        winner = some best.document;
        losers = losers_below ranked best.key;
        tied = false;
      }
]

-- `winning_acceptance`
unfoldable pub winning_acceptance : DnsName → Decisions → Evidence → AcceptanceResolution
unfolding ranked_acceptances winner_of get get_all
winning_acceptance hostname decisions evidence = elim (get hostname decisions.acceptances) [
  | none ↦ no_acceptance
  | some acceptances ↦
      winner_of
        (ranked_acceptances hostname (get_all hostname decisions.resets) evidence acceptances)
]
