-- ===== src/Certificate/Issue.antt =====
-- onomancy_dnssec/src/certificate.rs: decoding, signing and refreshing certificates.
use onomancy.Prelude.{
  ℕ, Bool, true, false, ◌&&◌, ◌==◌, Option, none, some, List, [], ◌∷◌, ◌++◌, length,
}
use onomancy.Prelude.Lex.{eq_bytes}
use onomancy.Prelude.Sort.{sort_by_key, dedup_by}
use onomancy.Prelude.Result.{Result, ok, ◌>>=◌, map_err}
use onomancy.Core.{Bytes, Digest, DelegationChain}
use onomancy.Dnssec.Units.{DnssecChain}
use onomancy.Wire.{Varint, OversizeUnit, new_reader, finish, check_unit_len}
use onomancy.Carriage.Delegations
use onomancy.Carriage.Links
use onomancy.Keys.{Ed25519}
use onomancy.Signed.{Malformed, Signed}
use onomancy.Statement.{SignFailure}
use onomancy.Statement.Rotation.{RotationStatement}
use onomancy.Statement.Successor.{SuccessorStatement}
use onomancy.Certificate.{DecodeCertificateError, wire, read_lineage, encode_attached}
use onomancy.Certificate.Binding.{Binding, binding_payload}

pub record Certificate : Type 0 where
  pub digest : Digest
  pub signed : Signed Binding
  pub delegation_chain : DelegationChain
  pub lineage : List RotationStatement
  pub chain : DnssecChain

pub record CertificateParams : Type 0 where
  pub root_doc : Bytes
  pub issued_at : ℕ
  pub hostname : Bytes
  pub heads : List Bytes
  pub predecessor : Option SuccessorStatement
  pub delegation_chain : DelegationChain
  pub lineage : List RotationStatement
  pub chain : DnssecChain

pub data AssembleError : Type 0 where
  invalid_signature : AssembleError
  oversize : OversizeUnit → AssembleError

-- The heads of a new certificate: sorted, without duplicates.
unfoldable pub canonical_heads : List Bytes → List Bytes
canonical_heads heads = dedup_by eq_bytes (sort_by_key (λ h. h) heads)

-- `Certificate::binding`
unfoldable pub binding : CertificateParams → (signer : Bytes) → Binding
unfolding canonical_heads
binding params signer = record {
  root_doc = params.root_doc;
  signer = signer;
  issued_at = params.issued_at;
  hostname = params.hostname;
  heads = canonical_heads params.heads;
  predecessor = params.predecessor;
}

-- The equality that Rust derives on the signed part of a certificate.
unfoldable pub eq_lists : List Bytes → List Bytes → Bool
eq_lists [] [] = true
eq_lists [] (y ∷ ys) = false
eq_lists (x ∷ xs) [] = false
eq_lists (x ∷ xs) (y ∷ ys) = eq_bytes x y && eq_lists xs ys

unfoldable pub eq_statement : SuccessorStatement → SuccessorStatement → Bool
unfolding eq_lists
eq_statement s t =
    (s.digest == t.digest)
    && (eq_bytes s.signed.payload.predecessor_doc t.signed.payload.predecessor_doc
        && (eq_bytes s.signed.payload.successor_doc t.signed.payload.successor_doc
            && (eq_bytes s.signed.payload.signer t.signed.payload.signer
                && (eq_bytes s.signed.payload.hostname t.signed.payload.hostname
                    && (eq_bytes s.signed.signature t.signed.signature
                        && eq_lists s.authority t.authority)))))

unfoldable pub eq_predecessor : Option SuccessorStatement → Option SuccessorStatement → Bool
unfolding eq_statement
eq_predecessor none none = true
eq_predecessor none (some t) = false
eq_predecessor (some s) none = false
eq_predecessor (some s) (some t) = eq_statement s t

unfoldable pub same_certificate : Certificate → Certificate → Bool
unfolding eq_lists eq_predecessor
same_certificate c d =
    let b = c.signed.payload in
    let a = d.signed.payload in
    eq_bytes b.root_doc a.root_doc
    && (eq_bytes b.signer a.signer
        && ((b.issued_at == a.issued_at)
            && (eq_bytes b.hostname a.hostname
                && (eq_lists b.heads a.heads
                    && (eq_predecessor b.predecessor a.predecessor
                        && eq_bytes c.signed.signature d.signed.signature)))))

module _ (v : Varint) (e : Ed25519) (hash : Bytes → Digest) where
  unfoldable pub decode : Bytes → Result DecodeCertificateError Certificate
  unfolding binding_payload
  decode bytes = do
    reader ← map_err wire (new_reader bytes)
    (signed, reader) ← onomancy.Signed.decode_from e (binding_payload v e hash) bytes reader
    (delegation_chain, reader) ← map_err wire (onomancy.Carriage.Delegations.decode v reader)
    (lineage, reader) ← read_lineage v e hash reader
    (chain, reader) ← map_err wire (onomancy.Carriage.Links.read v reader)
    _ ← map_err wire (finish reader)
    ok (record {
      digest = hash bytes;
      signed = signed;
      delegation_chain = delegation_chain;
      lineage = lineage;
      chain = chain;
    })

  -- `signed.encode_into` and `encode_attached`
  unfoldable pub unit_bytes :
      Signed Binding → DelegationChain → List RotationStatement → DnssecChain → Bytes
  unfolding binding_payload
  unit_bytes signed delegation_chain lineage chain =
      onomancy.Signed.encode_into (binding_payload v e hash) signed
      ++ encode_attached v e hash delegation_chain lineage chain

  unfoldable pub encode : Certificate → Bytes
  unfolding unit_bytes
  encode c = unit_bytes c.signed c.delegation_chain c.lineage c.chain

  -- The certificate of a signed binding and attachments, with the digest of its bytes.
  unfoldable pub assemble :
      Signed Binding → DelegationChain → List RotationStatement → DnssecChain → Certificate
  unfolding unit_bytes
  assemble signed delegation_chain lineage chain = record {
    digest = hash (unit_bytes signed delegation_chain lineage chain);
    signed = signed;
    delegation_chain = delegation_chain;
    lineage = lineage;
    chain = chain;
  }

  unfoldable pub sign : CertificateParams → (signer : Bytes) → Result SignFailure Certificate
  unfolding assemble binding
  sign params signer = do
    signed_unit ←
        map_err (λ (_ : Malformed). SignFailure.unreachable)
          (onomancy.Signed.sign e (binding_payload v e hash)
            (binding params (e.verifying_key signer)) signer)
    _ ← map_err SignFailure.oversize (
        check_unit_len
          (length (unit_bytes signed_unit params.delegation_chain params.lineage params.chain)))
    ok (assemble signed_unit params.delegation_chain params.lineage params.chain)

  unfoldable pub signable_bytes : CertificateParams → (signer : Bytes) → Bytes
  unfolding binding_payload binding
  signable_bytes params signer =
      onomancy.Signed.signable_region (binding_payload v e hash) (binding params signer)

  unfoldable pub from_parts :
      CertificateParams → (signer : Bytes) (signature : Bytes) → Result AssembleError Certificate
  unfolding assemble binding
  from_parts params signer signature = do
    signed_unit ←
        map_err (λ (_ : Malformed). AssembleError.invalid_signature)
          (onomancy.Signed.try_from_parts e (binding_payload v e hash) (binding params signer)
            signature)
    _ ← map_err AssembleError.oversize (
        check_unit_len
          (length (unit_bytes signed_unit params.delegation_chain params.lineage params.chain)))
    ok (assemble signed_unit params.delegation_chain params.lineage params.chain)

  unfoldable pub signed_bytes : Certificate → Bytes
  unfolding binding_payload
  signed_bytes c = onomancy.Signed.signed_region (binding_payload v e hash) c.signed

  unfoldable pub with_attachments :
      Certificate
      → DelegationChain
      → List RotationStatement
      → DnssecChain
      → Result OversizeUnit Certificate
  unfolding assemble
  with_attachments c delegation_chain lineage chain = do
    _ ← check_unit_len (length (unit_bytes c.signed delegation_chain lineage chain))
    ok (assemble c.signed delegation_chain lineage chain)
