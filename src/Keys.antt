-- ===== src/Keys.antt =====
-- onomancy_core/src/key.rs: strict decoding of ed25519 verifying keys.
--
-- A verifying key is the 32 bytes it was decoded from, which `VerifyingKey` retains.
use onomancy.Prelude.{◌≡◌, refl, arith, Bool, true, if◌then◌else◌, length}
use onomancy.Prelude.Lex.{eq_bytes, eq_bytes→eq, eq_bytes_refl}
use onomancy.Prelude.Result.{Result, ok, err}
use onomancy.Core.{Bytes}

-- What the code uses of `ed25519_dalek`: whether 32 bytes decompress to a point
-- (`VerifyingKey::from_bytes`), the compression of the point of a key
-- (`to_edwards().compress().to_bytes()`), the strict verification of a signature over a message, the
-- signature of a signing key and the key that verifies it.
pub record Ed25519 : Type 0 where
  pub from_bytes : Bytes → Bool
  pub compress : Bytes → Bytes
  pub verify_strict : (key : Bytes) (message : Bytes) (signature : Bytes) → Bool
  pub verifying_key : (signing_key : Bytes) → Bytes
  pub sign : (signing_key : Bytes) (message : Bytes) → Bytes

pub data NotCanonicalKey : Type 0 where
  not_canonical_key : NotCanonicalKey

-- `key::decode`
unfoldable pub decode_key : Ed25519 → Bytes → Result NotCanonicalKey Bytes
decode_key e bytes =
    if e.from_bytes bytes
    then (if eq_bytes (e.compress bytes) bytes then ok bytes else err not_canonical_key)
    else err not_canonical_key

-- A key in its one canonical spelling.
unfoldable pub IsKey : Ed25519 → Bytes → Type 0
IsKey e key = (length key ≡ 32) × ((e.from_bytes key ≡ true) × (e.compress key ≡ key))

-- What signing promises: the signing key's own key is a canonical key that verifies its signatures,
-- which have 64 bytes.
pub record IsSigner (e : Ed25519) (signing_key : Bytes) : Type 0 where
  pub names_key : IsKey e (e.verifying_key signing_key)
  pub signs :
      (message : Bytes)
      → e.verify_strict (e.verifying_key signing_key) message (e.sign signing_key message) ≡ true
  pub signature_length : (message : Bytes) → length (e.sign signing_key message) ≡ 64

pub decode_key-ok :
    (e : Ed25519) (bytes key : Bytes)
    → decode_key e bytes ≡ ok key
    → (key ≡ bytes) × ((e.from_bytes bytes ≡ true) × (e.compress bytes ≡ bytes))
unfolding decode_key
decode_key-ok e bytes key h = ground (arith, eq_bytes→eq (e.compress bytes) bytes)

pub decode_key-IsKey : (e : Ed25519) (key : Bytes) → IsKey e key → decode_key e key ≡ ok key
unfolding decode_key IsKey
decode_key-IsKey e key (l, (p, c)) = rw (p, c, eq_bytes_refl key) refl
