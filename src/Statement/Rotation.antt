-- ===== src/Statement/Rotation.antt =====
-- onomancy_dnssec/src/statement/rotation.rs: the unit `ONR\x00`, a generation key that replaces
-- another.
pub mod RoundTrip
use onomancy.Prelude.{ℕ, List, [], ◌∷◌, ◌++◌, length}
use onomancy.Prelude.Result.{Result, ok, err, ◌>>=◌, map_err}
use onomancy.Core.{Bytes, Digest, DelegationChain}
use onomancy.Wire.{Varint, Read, WireError, new_reader, finish, check_unit_len}
use onomancy.Carriage.Delegations
use onomancy.Keys.{Ed25519}
use onomancy.Signed.{Malformed, Payload, Signed}
use onomancy.Statement.{SignFailure}

pub data FieldName : Type 0 where
  root_doc_field replaced_field successor_field : FieldName

pub data DecodeRotationError : Type 0 where
  malformed : Malformed → DecodeRotationError
  not_a_curve_point : FieldName → DecodeRotationError
  wire : WireError → DecodeRotationError

pub record Rotation : Type 0 where
  pub root_doc : Bytes
  pub replaced : Bytes
  pub successor : Bytes

-- `ONR\x00`
abbrev pub tag : Bytes
tag = 79 ∷ 78 ∷ 82 ∷ 0 ∷ []

unfoldable pub read_key : Ed25519 → FieldName → Read DecodeRotationError Bytes
read_key e field = onomancy.Signed.read_key e wire (not_a_curve_point field)

unfoldable pub encode_fields : Rotation → Bytes
encode_fields r = r.root_doc ++ (r.replaced ++ r.successor)

unfoldable pub decode_fields : Ed25519 → Read DecodeRotationError Rotation
unfolding read_key
decode_fields e reader = do
  (root_doc, reader) ← read_key e root_doc_field reader
  (replaced, reader) ← read_key e replaced_field reader
  (successor, reader) ← read_key e successor_field reader
  ok (record { root_doc = root_doc; replaced = replaced; successor = successor }, reader)

-- `impl Payload for Rotation`
unfoldable pub rotation_payload : Ed25519 → Payload DecodeRotationError Rotation
unfolding encode_fields decode_fields
rotation_payload e = record {
  tag = tag;
  encode_fields = encode_fields;
  decode_fields = decode_fields e;
  signer = λ r. r.successor;
  from_wire = wire;
  from_malformed = malformed;
}

pub record RotationStatement : Type 0 where
  pub digest : Digest
  pub signed : Signed Rotation
  pub authority : DelegationChain

module _ (v : Varint) (e : Ed25519) (hash : Bytes → Digest) where
  unfoldable pub decode : Bytes → Result DecodeRotationError RotationStatement
  unfolding rotation_payload
  decode bytes = do
    reader ← map_err wire (new_reader bytes)
    (signed, reader) ← onomancy.Signed.decode_from e (rotation_payload e) bytes reader
    (authority, reader) ← map_err wire (onomancy.Carriage.Delegations.decode v reader)
    _ ← map_err wire (finish reader)
    ok (record { digest = hash bytes; signed = signed; authority = authority })

  unfoldable pub encode : RotationStatement → Bytes
  unfolding rotation_payload
  encode s =
      onomancy.Signed.encode_into (rotation_payload e) s.signed
      ++ onomancy.Carriage.Delegations.encode_into v s.authority

  unfoldable pub sign :
      (root_doc : Bytes) (replaced : Bytes) (successor : Bytes)
      → DelegationChain
      → Result SignFailure RotationStatement
  unfolding rotation_payload
  sign root_doc replaced successor authority = do
    signed ←
        map_err (λ (_ : Malformed). SignFailure.unreachable)
          (onomancy.Signed.sign e (rotation_payload e)
            (record {
              root_doc = root_doc;
              replaced = replaced;
              successor = e.verifying_key successor;
            })
            successor)
    let bytes =
        onomancy.Signed.encode_into (rotation_payload e) signed
        ++ onomancy.Carriage.Delegations.encode_into v authority
    _ ← map_err SignFailure.oversize (check_unit_len (length bytes))
    ok (record { digest = hash bytes; signed = signed; authority = authority })
