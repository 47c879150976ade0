-- ===== src/Verifier/Decisions.antt =====
-- onomancy_protocol/src/verifier/state/decisions.rs: the user's decisions, as the derivation reads
-- them. A map is a list of entries with one entry for each key, and a set is a list.
use onomancy.Prelude.{ℕ, List, [], ◌∷◌, Option, none, some, if◌then◌else◌, ◌==◌}
use onomancy.Core.{Digest, DocAnchor}
use onomancy.Dnssec.Units.{DnsName}

pub record Acceptance : Type 0 where
  pub document : DocAnchor
  pub cited : List Digest

-- The optional free-form note is text that nothing reads.
pub record Claim : Type 0 where
  pub hostname : DnsName
  pub document : DocAnchor
  pub note : Option (List ℕ)

pub record Decisions : Type 0 where
  pub acceptances : List (DnsName × List Acceptance)
  pub claims : List Claim
  pub resets : List (DnsName × List Digest)

abbrev pub no_decisions : Decisions
no_decisions = record { acceptances = []; claims = []; resets = [] }

-- `Map::get`
unfoldable pub get {ℓ} : {V : Type ℓ} → DnsName → List (DnsName × V) → Option V
get hostname [] = none
get hostname ((k, v) ∷ entries) = if k == hostname then some v else get hostname entries

-- `unwrap_or(&empty)` on a map of lists.
unfoldable pub get_all {ℓ} : {V : Type ℓ} → DnsName → List (DnsName × List V) → List V
unfolding get
get_all hostname entries = elim (get hostname entries) [ none ↦ [] | some vs ↦ vs ]
