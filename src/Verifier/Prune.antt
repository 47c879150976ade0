-- ===== src/Verifier/Prune.antt =====
-- onomancy_protocol/src/verifier/state/prune.rs: which items of the store may be dropped.
pub mod Domination
pub mod Frontier
pub mod Keeps
mod Examples
use onomancy.Prelude.{
  ℕ, ◌*◌, List, [], ◌∷◌, ◌++◌, map, Bool, true, false, not, ◌&&◌, ◌||◌, any, elem, filter, leb, ltb,
  Option, none, some, if◌then◌else◌, ◌==◌,
}
use onomancy.Prelude.Sort.{sort_by_key, dedup_by}
use onomancy.Prelude.Extremes.{min_by_key}
use onomancy.Core.{Digest, DocAnchor, UnixSeconds, saturating_mul, saturating_add}
use onomancy.Dnssec.Units.{DnsName, ChainValidator, AuthorityVerifier}
use onomancy.Verifier.Store.{
  Hasher, Store, Item, chain_refresh, record_item, rotation, successor, content_hash, from_iter,
}
use onomancy.Verifier.Evidence.{Evidence, BindingEvidence, is_certificate}
use onomancy.Verifier.Evidence.Extract.{validate_and_extract}
use onomancy.Verifier.Decisions.{Decisions, Acceptance}

-- `DEFERRAL_HORIZON_MS`
abbrev pub deferral_horizon_ms : ℕ
deferral_horizon_ms = 365 * 24 * 60 * 60 * 1000

-- `dominates`
unfoldable pub dominates : BindingEvidence → BindingEvidence → Bool
dominates other r =
    let attestation_allows =
      not (not (is_certificate other.attestation) && is_certificate r.attestation) in
    let at_least_as_good =
      leb other.window.inception r.window.inception
      && leb r.window.expiration other.window.expiration
      && leb r.key.serial other.key.serial
      && leb r.key.issued_at other.key.issued_at in
    let strictly_better =
      ltb other.window.inception r.window.inception
      || ltb r.window.expiration other.window.expiration
      || ltb r.key.serial other.key.serial
      || ltb r.key.issued_at other.key.issued_at in
    not (other.hash == r.hash)
    && attestation_allows
    && other.document == r.document
    && other.generation == r.generation
    && at_least_as_good
    && strictly_better

-- The records of a group within the horizon that nothing in the group dominates.
unfoldable pub frontier : ℕ → List BindingEvidence → List BindingEvidence
frontier horizon group =
    filter
      (λ (r : BindingEvidence). not (any (λ (other : BindingEvidence). dominates other r) group))
      (filter (λ (r : BindingEvidence). leb r.key.serial horizon) group)

-- The record of earliest inception that tenure needs, if the frontier has none so early.
unfoldable pub endpoint : ℕ → List BindingEvidence → Option BindingEvidence
unfolding frontier
endpoint horizon group =
    elim (min_by_key (λ t. t ∷ []) (map (λ (r : BindingEvidence). r.window.inception) group)) [
      | none ↦ none
      | some earliest ↦
          if any (λ (r : BindingEvidence). r.window.inception == earliest) (frontier horizon group)
          then none
          else min_by_key (λ (r : BindingEvidence). r.hash ∷ [])
              (filter (λ (r : BindingEvidence). r.window.inception == earliest) group)
    ]

unfoldable pub kept_of_group : ℕ → List BindingEvidence → List Digest
unfolding frontier endpoint
kept_of_group horizon group =
    map (λ (r : BindingEvidence). r.hash) (frontier horizon group)
    ++ (elim (endpoint horizon group) [ none ↦ [] | some r ↦ r.hash ∷ [] ])

-- The records of one hostname and one document.
unfoldable pub group_of : List BindingEvidence → BindingEvidence → List BindingEvidence
group_of records like =
    filter (λ (r : BindingEvidence). r.hostname == like.hostname && r.document == like.document)
      records

-- One record for each group.
unfoldable pub representatives : List BindingEvidence → List BindingEvidence
representatives records =
    dedup_by (λ (a b : BindingEvidence). a.hostname == b.hostname && a.document == b.document)
      (sort_by_key (λ (r : BindingEvidence). r.hostname ∷ r.document ∷ []) records)

unfoldable pub kept_of_groups : ℕ → List BindingEvidence → List BindingEvidence → List Digest
unfolding kept_of_group group_of
kept_of_groups horizon records [] = []
kept_of_groups horizon records (like ∷ likes) =
    kept_of_group horizon (group_of records like) ++ kept_of_groups horizon records likes

-- Everything that an acceptance cites.
unfoldable pub cited_by : List Acceptance → List Digest
cited_by [] = []
cited_by (acceptance ∷ acceptances) = acceptance.cited ++ cited_by acceptances

unfoldable pub all_cited : List (DnsName × List Acceptance) → List Digest
unfolding cited_by
all_cited [] = []
all_cited ((hostname, acceptances) ∷ entries) = cited_by acceptances ++ all_cited entries

unfoldable pub horizon_at : UnixSeconds → ℕ
unfolding saturating_mul saturating_add
horizon_at now = saturating_add (saturating_mul now 1000) deferral_horizon_ms

unfoldable pub keep_set : Evidence → UnixSeconds → Decisions → List Digest
unfolding kept_of_groups representatives all_cited horizon_at
keep_set evidence now decisions =
    all_cited decisions.acceptances
    ++ kept_of_groups (horizon_at now) evidence.records (representatives evidence.records)

-- Whether an item stays.
unfoldable pub stays : Hasher → List Digest → Item → Bool
unfolding content_hash
stays h keep (rotation st) = true
stays h keep (successor st) = true
stays h keep (record_item c) = elem (content_hash h (record_item c)) keep
stays h keep (chain_refresh n c) = elem (content_hash h (chain_refresh n c)) keep

-- `prune`
unfoldable pub prune :
    Hasher → ChainValidator → AuthorityVerifier → Store → UnixSeconds → Decisions → Store
unfolding keep_set stays
prune h validator authority store now decisions = from_iter h (
    filter (stays h (keep_set (validate_and_extract h validator authority store) now decisions))
      store.items)
