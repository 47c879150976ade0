-- ===== src/Signed.antt =====
-- onomancy_core/src/signed.rs and signed/payload.rs: a tag, the fields of a payload, and the signature
-- over both, checked when the unit is decoded.
pub mod RoundTrip
pub mod Unit
use onomancy.Prelude.{
  ℕ, ◌-◌, ◌≡◌, Bool, true, false, if◌then◌else◌, List, [], ◌∷◌, ◌++◌, length, take,
}
use onomancy.Prelude.Lex.{eq_bytes}
use onomancy.Prelude.Result.{Result, ok, err, ◌>>=◌, map_err}
use onomancy.Core.{Bytes}
use onomancy.Wire.{Read, WireError, read_bytes}
use onomancy.Keys.{Ed25519, NotCanonicalKey, decode_key}

pub data Malformed : Type 0 where
  invalid_signature : Malformed
  wrong_tag : (expected : Bytes) (got : Bytes) → Malformed

-- The trait `Payload`, with the conversions into its error.
pub record Payload (E P : Type 0) : Type 0 where
  pub tag : Bytes
  pub encode_fields : P → Bytes
  pub decode_fields : Read E P
  pub signer : P → Bytes
  pub from_wire : WireError → E
  pub from_malformed : Malformed → E

pub record Signed (P : Type 0) : Type 0 where
  pub payload : P
  pub signature : Bytes

module _ {E P : Type 0} where
  unfoldable pub signable_region : Payload E P → P → Bytes
  signable_region p payload = p.tag ++ p.encode_fields payload

  unfoldable pub try_from_parts : Ed25519 → Payload E P → P → Bytes → Result Malformed (Signed P)
  unfolding signable_region
  try_from_parts e p payload signature =
      if e.verify_strict (p.signer payload) (signable_region p payload) signature
      then ok (record { payload = payload; signature = signature })
      else err invalid_signature

  unfoldable pub sign : Ed25519 → Payload E P → P → (key : Bytes) → Result Malformed (Signed P)
  unfolding try_from_parts
  sign e p payload key = try_from_parts e p payload (e.sign key (signable_region p payload))

  -- The tag of the unit must be the payload's.
  unfoldable pub check_tag : Payload E P → Bytes → Result E Bool
  check_tag p tag =
      if eq_bytes tag p.tag then ok true else err (p.from_malformed (wrong_tag p.tag tag))

  -- The signature, checked over the bytes received before it.
  unfoldable pub check_signature : Ed25519 → Payload E P → P → Bytes → Bytes → Result E (Signed P)
  check_signature e p payload signed_region signature =
      if e.verify_strict (p.signer payload) signed_region signature
      then ok (record { payload = payload; signature = signature })
      else err (p.from_malformed invalid_signature)

  unfoldable pub decode_from : Ed25519 → Payload E P → (bytes : Bytes) → Read E (Signed P)
  unfolding check_tag check_signature
  decode_from e p bytes reader = do
    (tag, reader) ← map_err p.from_wire (read_bytes 4 reader)
    _ ← check_tag p tag
    (payload, fields_end) ← p.decode_fields reader
    (signature, reader) ← map_err p.from_wire (read_bytes 64 fields_end)
    signed ← check_signature e p payload (take (length bytes - length fields_end) bytes) signature
    ok (signed, reader)

  -- `Signed::encode_into` appends these bytes.
  unfoldable pub encode_into : Payload E P → Signed P → Bytes
  encode_into p signed = p.tag ++ (p.encode_fields signed.payload ++ signed.signature)

  unfoldable pub signed_region : Payload E P → Signed P → Bytes
  unfolding signable_region
  signed_region p signed = signable_region p signed.payload

-- One 32-byte field as a verifying key: the `read_key` of a unit, at its two errors.
unfoldable pub read_key : {E : Type 0} → Ed25519 → (WireError → E) → E → Read E Bytes
read_key e from_wire not_a_curve_point reader = do
  (bytes, reader) ← map_err from_wire (read_bytes 32 reader)
  key ← map_err (λ (_ : NotCanonicalKey). not_a_curve_point) (decode_key e bytes)
  ok (key, reader)
