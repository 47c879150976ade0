-- ===== src/Dnssec/Units.antt =====
-- The units of onomancy_dnssec as their decoded fields: TXT records, chains and their proofs,
-- rotation and successor statements, certificates. A unit's digest is a stored field in the source
-- too, computed when the unit was decoded or signed.
use onomancy.Prelude.{ℕ, List, Option, Bool}
use onomancy.Core.{DocAnchor, VerifyingKey, Digest, UnixSeconds, Bytes, DelegationChain}
use onomancy.Dnssec.Freshness.{ValidityWindow}
use onomancy.Dnssec.Serial.{Serial}

-- dns_name.rs, by rank
abbrev pub DnsName : Type 0
DnsName = ℕ

-- txt/generation_key.rs
abbrev pub GenerationKey : Type 0
GenerationKey = ℕ

-- chain.rs: the links of a chain, as opaque bytes.
abbrev pub DnssecChain : Type 0
DnssecChain = List Bytes

-- txt/record.rs
pub record TxtRecord : Type 0 where
  pub serial : Serial
  pub generation : GenerationKey
  pub document : DocAnchor

-- chain_proof.rs
pub record ChainProof : Type 0 where
  pub records : List TxtRecord
  pub window : ValidityWindow

-- The seam to chain validation; `none` is `InvalidChain`.
pub record ChainValidator : Type 0 where
  pub validate : DnsName → DnssecChain → Option ChainProof

-- statement/rotation.rs
pub record RotationStatement : Type 0 where
  pub digest : Digest
  pub root_doc : DocAnchor
  pub replaced : GenerationKey
  pub successor : GenerationKey
  pub authority : DelegationChain

-- statement/successor.rs
pub record SuccessorStatement : Type 0 where
  pub digest : Digest
  pub predecessor_doc : DocAnchor
  pub successor_doc : DocAnchor
  pub signer : VerifyingKey
  pub hostname : DnsName
  pub authority : DelegationChain

-- certificate.rs and certificate/binding.rs
pub record Certificate : Type 0 where
  pub digest : Digest
  pub root_doc : DocAnchor
  pub signer : VerifyingKey
  pub issued_at : UnixSeconds
  pub hostname : DnsName
  pub heads : List Digest
  pub predecessor : Option SuccessorStatement
  pub delegation_chain : DelegationChain
  pub lineage : List RotationStatement
  pub dnssec_chain : DnssecChain

-- onomancy_protocol/src/verifier/state/authority_verifier.rs: the seam to delegation proofs.
pub record AuthorityVerifier : Type 0 where
  pub authorizes : DocAnchor → VerifyingKey → DelegationChain → Bool
  pub on_path : DelegationChain → GenerationKey → Bool
