-- ===== src/Samples.antt =====
-- Instances of the code that the units are built over, small enough to compute with: an integer codec, a
-- signature scheme, a digest and a text encoding of bytes.
pub mod Texts
mod Examples
mod Verdicts
use onomancy.Prelude.{
  ℕ, zero, suc, ◌+◌, ◌≤◌, ◌≡◌, refl, sym, ap, ◌∙◌, subst, inl, inr, Bool, true, false, Bool-cases,
  leb, leb→le, ltb, ltb→lt, if◌then◌else◌, Option, none, some, List, [], ◌∷◌, ◌++◌, length,
  length-append, take, arith,
}
use onomancy.Prelude.Lex.{eq_bytes, eq_bytes_refl}
use onomancy.Core.{Bytes, Digest, u64_max}
use onomancy.Wire.{Varint}
use onomancy.Wire.Laws.{IsVarint}
use onomancy.Wire.Split.{length-take}
use onomancy.Keys.{Ed25519, IsKey, IsSigner}

-- An integer stands for itself.
abbrev pub one_word : Varint
one_word = record {
  encode = λ n. n ∷ [];
  decode = λ bs. elim bs [ [] ↦ none | n ∷ rest ↦ if leb n u64_max then some (n, 1) else none ];
}

pub one_word-IsVarint : IsVarint one_word
one_word-IsVarint = record {
  reads_back = λ n rest h. reads_back n h;
  canonical = canonical;
  occupies = λ n. omega arith;
}
  where
    reads_back :
        (n : ℕ)
        → n ≤ u64_max
        → ◌≡◌ {A = Option (ℕ × ℕ)} (if leb n u64_max then some (n, 1) else none) (some (n, 1))
    reads_back n h = ground arith

    canonical :
        (bs : Bytes) (n used : ℕ)
        → one_word.decode bs ≡ some (n, used)
        → (n ≤ u64_max) × ((used ≡ 1) × ((rest : Bytes) × (bs ≡ (n ∷ []) ++ rest)))
    canonical [] n used h = cc h
    canonical (m ∷ rest) n used h = split (leb m u64_max) refl h
      where
        split :
            (t : Bool)
            → leb m u64_max ≡ t
            → ◌≡◌ {A = Option (ℕ × ℕ)} (if t then some (m, 1) else none) (some (n, used))
            → (n ≤ u64_max) × ((used ≡ 1) × ((rest' : Bytes) × ((m ∷ rest) ≡ (n ∷ []) ++ rest')))
        split true e k =
            let q : m ≡ n = cc k in
            let u : used ≡ 1 = cc k in
            (subst (λ z. z ≤ u64_max) q (leb→le m u64_max e), (u, (rest, ap (λ z. z ∷ rest) q)))
        split false e k = cc k

abbrev pub repeat : ℕ → ℕ → Bytes
repeat zero x = []
repeat (suc n) x = x ∷ repeat n x

-- A signature is the key and the start of the message, filled up to 64 bytes.
abbrev pub signature_of : Bytes → Bytes → Bytes
signature_of key message = take 64 (key ++ (message ++ repeat 64 0))

-- Every 32 bytes are a key, and a key signs for itself.
abbrev pub plain_keys : Ed25519
plain_keys = record {
  from_bytes = λ bytes. true;
  compress = λ bytes. bytes;
  verify_strict = λ key message signature. eq_bytes signature (signature_of key message);
  verifying_key = λ key. key;
  sign = signature_of;
}

pub wide-IsKey : (key : Bytes) → length key ≡ 32 → IsKey plain_keys key
unfolding IsKey
wide-IsKey key h = (h, (refl, refl))

pub wide-IsSigner : (key : Bytes) → length key ≡ 32 → IsSigner plain_keys key
wide-IsSigner key h = record {
  names_key = wide-IsKey key h;
  signs = λ message. eq_bytes_refl (signature_of key message);
  signature_length = λ message. length-take 64 (key ++ (message ++ repeat 64 0)) (
      omega
        (arith, length-append key (message ++ repeat 64 0), length-append message (repeat 64 0)));
}

-- The digest of some bytes is their number.
abbrev pub counted : Bytes → Digest
counted bytes = length bytes
