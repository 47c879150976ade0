-- ===== src/Statement/Successor.antt =====
-- onomancy_dnssec/src/statement/successor.rs: the unit `ONS\x00`, a document that another one
-- continues under a hostname.
pub mod RoundTrip
use onomancy.Prelude.{ℕ, List, [], ◌∷◌, ◌++◌, length}
use onomancy.Prelude.Result.{Result, ok, err, ◌>>=◌, map_err}
use onomancy.Core.{Bytes, Digest, DelegationChain}
use onomancy.Wire.{
  Varint, Read, WireError, new_reader, read_bytes, finish, check_unit_len, put_varint, bounded_len,
}
use onomancy.Carriage.Delegations
use onomancy.Keys.{Ed25519}
use onomancy.Signed.{Malformed, Payload, Signed}
use onomancy.Names.{CanonicalDnsNameError, from_canonical}
use onomancy.Statement.{SignFailure}

pub data FieldName : Type 0 where
  predecessor_doc_field successor_doc_field signer_field : FieldName

pub data DecodeSuccessorError : Type 0 where
  hostname_error : CanonicalDnsNameError → DecodeSuccessorError
  malformed : Malformed → DecodeSuccessorError
  not_a_curve_point : FieldName → DecodeSuccessorError
  wire : WireError → DecodeSuccessorError

pub record Succession : Type 0 where
  pub predecessor_doc : Bytes
  pub successor_doc : Bytes
  pub signer : Bytes
  pub hostname : Bytes

-- `ONS\x00`
abbrev pub tag : Bytes
tag = 79 ∷ 78 ∷ 83 ∷ 0 ∷ []

unfoldable pub read_key : Ed25519 → FieldName → Read DecodeSuccessorError Bytes
read_key e field = onomancy.Signed.read_key e wire (not_a_curve_point field)

module _ (v : Varint) (e : Ed25519) where
  unfoldable pub encode_fields : Succession → Bytes
  encode_fields s =
      s.predecessor_doc
      ++ (s.successor_doc ++ (s.signer ++ (put_varint v (length s.hostname) ++ s.hostname)))

  unfoldable pub decode_fields : Read DecodeSuccessorError Succession
  unfolding read_key
  decode_fields reader = do
    (predecessor_doc, reader) ← read_key e predecessor_doc_field reader
    (successor_doc, reader) ← read_key e successor_doc_field reader
    (signer, reader) ← read_key e signer_field reader
    (hostname_len, reader) ← map_err wire (bounded_len v 1 reader)
    (raw, reader) ← map_err wire (read_bytes hostname_len reader)
    hostname ← map_err hostname_error (from_canonical raw)
    ok (
      record {
        predecessor_doc = predecessor_doc;
        successor_doc = successor_doc;
        signer = signer;
        hostname = hostname;
      },
      reader,
    )

  -- `impl Payload for Succession`
  unfoldable pub succession_payload : Payload DecodeSuccessorError Succession
  unfolding encode_fields decode_fields
  succession_payload = record {
    tag = tag;
    encode_fields = encode_fields;
    decode_fields = decode_fields;
    signer = λ s. s.signer;
    from_wire = wire;
    from_malformed = malformed;
  }

pub record SuccessorStatement : Type 0 where
  pub digest : Digest
  pub signed : Signed Succession
  pub authority : DelegationChain

module _ (v : Varint) (e : Ed25519) (hash : Bytes → Digest) where
  unfoldable pub decode : Bytes → Result DecodeSuccessorError SuccessorStatement
  unfolding succession_payload
  decode bytes = do
    reader ← map_err wire (new_reader bytes)
    (signed, reader) ← onomancy.Signed.decode_from e (succession_payload v e) bytes reader
    (authority, reader) ← map_err wire (onomancy.Carriage.Delegations.decode v reader)
    _ ← map_err wire (finish reader)
    ok (record { digest = hash bytes; signed = signed; authority = authority })

  unfoldable pub encode : SuccessorStatement → Bytes
  unfolding succession_payload
  encode s =
      onomancy.Signed.encode_into (succession_payload v e) s.signed
      ++ onomancy.Carriage.Delegations.encode_into v s.authority

  unfoldable pub sign :
      (predecessor_doc : Bytes) (successor_doc : Bytes) (hostname : Bytes) (signer : Bytes)
      → DelegationChain
      → Result SignFailure SuccessorStatement
  unfolding succession_payload
  sign predecessor_doc successor_doc hostname signer authority = do
    signed_unit ←
        map_err (λ (_ : Malformed). SignFailure.unreachable)
          (onomancy.Signed.sign e (succession_payload v e)
            (record {
              predecessor_doc = predecessor_doc;
              successor_doc = successor_doc;
              signer = e.verifying_key signer;
              hostname = hostname;
            })
            signer)
    let bytes =
        onomancy.Signed.encode_into (succession_payload v e) signed_unit
        ++ onomancy.Carriage.Delegations.encode_into v authority
    _ ← map_err SignFailure.oversize (check_unit_len (length bytes))
    ok (record { digest = hash bytes; signed = signed_unit; authority = authority })
