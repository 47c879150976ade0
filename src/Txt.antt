-- ===== src/Txt.antt =====
-- onomancy_dnssec/src/txt: the TXT binding record, `v=ONO0;k=ed25519;n=…;g=…;p=…`, of record.rs, and the
-- generation key of generation_key.rs.
pub mod Decimal
pub mod Fields
pub mod RoundTrip
pub mod Dispositions
pub mod Bound
use onomancy.Prelude.{
  ℕ, suc, ◌≡◌, Bool, true, false, not, ◌||◌, ltb, ◌==◌, if◌then◌else◌, Option, none, some, List, [],
  ◌∷◌, ◌++◌, length, all, In,
}
use onomancy.Prelude.Lex.{eq_bytes}
use onomancy.Prelude.Result.{Result, ok, err, ◌>>=◌, map_err}
use onomancy.Core.{Bytes}
use onomancy.Keys.{Ed25519, NotCanonicalKey, decode_key}
use onomancy.Names.{is_ascii_digit}
use onomancy.Text.{codes, split_on, strip_prefix, Lacks}
use onomancy.Txt.Decimal.{ParseSerialError}

-- The standard alphabet of the `base64` crate: the text of some bytes, and the bytes of a text.
-- `none` is its `DecodeError`.
pub record Base64 : Type 0 where
  pub encode : Bytes → Bytes
  pub decode : Bytes → Option Bytes

-- The character `;`.
abbrev pub semicolon : ℕ
semicolon = 59

-- What the code relies on of it: bytes read back from their text, which is their only text; 32 bytes
-- take 44 characters; and `;` is not in the alphabet.
pub record IsBase64 (b : Base64) : Type 0 where
  pub reads_back : (bytes : Bytes) → b.decode (b.encode bytes) ≡ some bytes
  pub canonical : (text bytes : Bytes) → b.decode text ≡ some bytes → text ≡ b.encode bytes
  pub key_length : (bytes : Bytes) → length bytes ≡ 32 → length (b.encode bytes) ≡ 44
  pub no_semicolon : (bytes : Bytes) → Lacks semicolon (b.encode bytes)

abbrev pub max_record_len : ℕ
max_record_len = 133

abbrev pub key_base64_len : ℕ
key_base64_len = 44

abbrev pub key_len : ℕ
key_len = 32

abbrev pub format_tag : Bytes
format_tag = codes "v=ONO0"

abbrev pub key_algorithm : Bytes
key_algorithm = codes "k=ed25519"

pub data FieldName : Type 0 where
  key_algorithm_field serial_field generation_key_field document_id_field : FieldName

pub data ParseTxtRecordError : Type 0 where
  unknown_record_error unknown_version_error : ParseTxtRecordError
  record_too_long : (len : ℕ) (max : ℕ) → ParseTxtRecordError
  wrong_field_count : (got : ℕ) → ParseTxtRecordError
  wrong_field_prefix : FieldName → ParseTxtRecordError
  unknown_key_algorithm : (got : Bytes) → ParseTxtRecordError
  serial_error : ParseSerialError → ParseTxtRecordError
  wrong_base64_length : FieldName → (got : ℕ) → ParseTxtRecordError
  malformed_base64 : FieldName → ParseTxtRecordError
  wrong_key_length : FieldName → (got : ℕ) → ParseTxtRecordError
  not_a_curve_point : FieldName → ParseTxtRecordError

pub record TxtRecord : Type 0 where
  pub serial : ℕ
  pub generation : Bytes
  pub document : Bytes

pub data Classified : Type 0 where
  binding : TxtRecord → Classified
  unknown_record unknown_version : Classified

module _ (b : Base64) (e : Ed25519) where
  -- The bytes of a key field, once decoded.
  unfoldable pub decode_key_bytes : FieldName → Bytes → Result ParseTxtRecordError Bytes
  decode_key_bytes name bytes =
      if length bytes == key_len
      then map_err (λ (_ : NotCanonicalKey). not_a_curve_point name) (decode_key e bytes)
      else err (wrong_key_length name (length bytes))

  -- The text of a key field, once its prefix is gone.
  unfoldable pub decode_key_text : FieldName → Bytes → Result ParseTxtRecordError Bytes
  unfolding decode_key_bytes
  decode_key_text name encoded =
      if length encoded == key_base64_len
      then elim (b.decode encoded) [
        | none ↦ err (malformed_base64 name)
        | some bytes ↦ decode_key_bytes name bytes
      ]
      else err (wrong_base64_length name (length encoded))

  unfoldable pub decode_key_field :
      (field : Bytes) (prefix : Bytes) → FieldName → Result ParseTxtRecordError Bytes
  unfolding decode_key_text
  decode_key_field field prefix name = elim (strip_prefix prefix field) [
    | none ↦ err (wrong_field_prefix name)
    | some encoded ↦ decode_key_text name encoded
  ]

  -- The check of the field `k=`.
  unfoldable pub check_algorithm : Bytes → Result ParseTxtRecordError Bool
  check_algorithm field =
      if eq_bytes field key_algorithm then ok true else elim (strip_prefix (codes "k=") field) [
        | some algorithm ↦ err (unknown_key_algorithm algorithm)
        | none ↦ err (wrong_field_prefix key_algorithm_field)
      ]

  -- The field `n=`.
  unfoldable pub parse_serial_field : Bytes → Result ParseTxtRecordError ℕ
  parse_serial_field field = elim (strip_prefix (codes "n=") field) [
    | none ↦ err (wrong_field_prefix serial_field)
    | some digits ↦ map_err serial_error (onomancy.Txt.Decimal.parse digits)
  ]

  -- The fields of `parse_ono0`, once there are five.
  unfoldable pub parse_fields :
      (algorithm : Bytes) (serial : Bytes) (generation : Bytes) (document : Bytes)
      → Result ParseTxtRecordError TxtRecord
  unfolding check_algorithm parse_serial_field decode_key_field
  parse_fields algorithm serial generation document = do
    _ ← check_algorithm algorithm
    serial ← parse_serial_field serial
    generation ← decode_key_field generation (codes "g=") generation_key_field
    document ← decode_key_field document (codes "p=") document_id_field
    ok (record { serial = serial; generation = generation; document = document })

  -- The fields after the tag: there must be four.
  unfoldable pub parse_five : List Bytes → Result ParseTxtRecordError TxtRecord
  unfolding parse_fields
  parse_five (algorithm ∷ serial ∷ generation ∷ document ∷ []) =
      parse_fields algorithm serial generation document
  parse_five fields = err (wrong_field_count (suc (length fields)))

  unfoldable pub parse_ono0 : Bytes → Result ParseTxtRecordError TxtRecord
  unfolding parse_five
  parse_ono0 raw =
      if ltb max_record_len (length raw)
      then err (record_too_long (length raw) max_record_len)
      else parse_five (split_on semicolon raw).1

  -- What `classify` does with the digits of the version.
  unfoldable pub classify_version : Bytes → Bytes → Result ParseTxtRecordError Classified
  unfolding parse_ono0
  classify_version version_digits raw =
      if (length version_digits == 0) || not (all is_ascii_digit version_digits)
      then ok unknown_record
      else if not (eq_bytes version_digits (codes "0"))
      then ok unknown_version
      else (parse_ono0 raw >>= λ r. ok (binding r))

  -- `TxtRecord::classify`
  unfoldable pub classify : Bytes → Result ParseTxtRecordError Classified
  unfolding classify_version
  classify raw = elim (strip_prefix (codes "v=ONO") raw) [
    | none ↦ ok unknown_record
    | some version_onward ↦ classify_version (split_on semicolon version_onward).0 raw
  ]

  -- The record of a classification, or the error that `parse` makes of it.
  unfoldable pub expect_binding : Classified → Result ParseTxtRecordError TxtRecord
  expect_binding (binding r) = ok r
  expect_binding unknown_record = err unknown_record_error
  expect_binding unknown_version = err unknown_version_error

  -- `TxtRecord::parse`
  unfoldable pub parse : Bytes → Result ParseTxtRecordError TxtRecord
  unfolding classify expect_binding
  parse raw = classify raw >>= expect_binding

  -- `Display` of a record
  unfoldable pub display : TxtRecord → Bytes
  display r =
      format_tag
      ++ (semicolon
          ∷ (key_algorithm
              ++ (semicolon
                  ∷ ((codes "n=" ++ onomancy.Txt.Decimal.print r.serial)
                      ++ (semicolon
                          ∷ ((codes "g=" ++ b.encode r.generation)
                              ++ (semicolon ∷ (codes "p=" ++ b.encode r.document))))))))

pub data ParseGenerationKeyError : Type 0 where
  malformed_base64_key : ParseGenerationKeyError
  wrong_length : (got : ℕ) → ParseGenerationKeyError
  not_canonical : NotCanonicalKey → ParseGenerationKeyError

-- `GenerationKey::parse`
unfoldable pub parse_generation_key :
    Base64 → Ed25519 → Bytes → Result ParseGenerationKeyError Bytes
parse_generation_key b e text = elim (b.decode text) [
  | none ↦ err malformed_base64_key
  | some bytes ↦
      if length bytes == 32
      then map_err not_canonical (decode_key e bytes)
      else err (wrong_length (length bytes))
]
