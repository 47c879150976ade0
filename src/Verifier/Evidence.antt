-- ===== src/Verifier/Evidence.antt =====
-- onomancy_protocol/src/verifier/state.rs: the evidence that stage 1 hands to the later stages.
pub mod Validate
pub mod Extract
pub mod Sound
use onomancy.Prelude.{
  ℕ, ◌+◌, ◌*◌, List, [], ◌∷◌, ◌++◌, Bool, true, false, not, ◌&&◌, ◌||◌, all, elem, ltb, Option,
  none, some, if◌then◌else◌, ◌==◌,
}
use onomancy.Core.{Digest, DocAnchor, UnixSeconds, DelegationChain, saturating_mul, saturating_add}
use onomancy.Dnssec.Freshness.{ValidityWindow, Grade, Freshness, grade}
use onomancy.Dnssec.Units.{DnsName, GenerationKey}
use onomancy.Dnssec.ZoneStateKey.{ZoneStateKey}

pub data Attestation : Type 0 where
  certificate : Attestation
  chain_only : Attestation

-- `== Attestation::Certificate`
abbrev pub is_certificate : Attestation → Bool
is_certificate certificate = true
is_certificate chain_only = false

pub record BindingEvidence : Type 0 where
  pub attestation : Attestation
  pub document : DocAnchor
  pub generation : GenerationKey
  pub hash : Digest
  pub hostname : DnsName
  pub key : ZoneStateKey
  pub generation_on_path : Bool
  pub window : ValidityWindow

-- Who carried a statement here.
pub record Provenance : Type 0 where
  pub carriers : List Digest
  pub standalone : Bool

abbrev pub no_provenance : Provenance
no_provenance = record { carriers = []; standalone = false }

-- `Provenance::record`
unfoldable pub record_carrier : Provenance → Option Digest → Provenance
record_carrier p none = record p { standalone = true }
record_carrier p (some hash) =
    if elem hash p.carriers then p else record p { carriers = p.carriers ++ hash ∷ [] }

is_empty : List Digest → Bool
is_empty [] = true
is_empty (x ∷ xs) = false

-- `Provenance::excluded`
unfoldable pub is_excluded : Provenance → Digest → List Digest → Bool
unfolding is_empty
is_excluded p own_hash excluded =
    if elem own_hash excluded
    then true
    else if p.standalone
    then false
    else not (is_empty p.carriers) && all (λ c. elem c excluded) p.carriers

pub record RotationEvidence : Type 0 where
  pub hash : Digest
  pub provenance : Provenance
  pub replaced : GenerationKey
  pub root_doc : DocAnchor
  pub successor : GenerationKey

pub record SuccessorEvidence : Type 0 where
  pub carriage : DelegationChain
  pub hash : Digest
  pub hostname : DnsName
  pub predecessor : DocAnchor
  pub provenance : Provenance
  pub successor : DocAnchor

pub record Evidence : Type 0 where
  pub held : List Digest
  pub records : List BindingEvidence
  pub rotations : List RotationEvidence
  pub successors : List SuccessorEvidence

abbrev pub no_evidence : Evidence
no_evidence = record { held = []; records = []; rotations = []; successors = [] }

-- `SKEW_MS`
abbrev pub skew_ms : ℕ
skew_ms = 5 * 60 * 1000

-- `is_deferred`
unfoldable pub is_deferred : BindingEvidence → UnixSeconds → Bool
unfolding grade saturating_mul saturating_add
is_deferred r now =
    let now_ms = saturating_mul now 1000 in
    let far_future = ltb (saturating_add now_ms skew_ms) r.key.serial in
    far_future || (elim (grade r.window now) [ Grade.not_yet_begun ↦ true | _ ↦ false ])

-- `freshness`
unfoldable pub freshness : BindingEvidence → UnixSeconds → Freshness
unfolding grade
freshness r now = elim (grade r.window now) [ Grade.fresh ↦ Freshness.fresh | _ ↦ Freshness.stale ]
