-- ===== src/Names/Utf8.antt =====
-- `core::str::from_utf8`: which bytes are UTF-8 text.
use onomancy.Prelude.{
  ℕ, zero, suc, ◌≡◌, refl, Bool, true, false, ◌&&◌, ltb, leb, ◌==◌, if◌then◌else◌, Option, none,
  some, [], ◌∷◌, all, and-true,
}
use onomancy.Core.{Bytes}

-- What a leading byte announces: the number of bytes that continue it, and the range of the first
-- one, which rules out overlong forms, surrogates and code points past U+10FFFF.
unfoldable pub sequence : ℕ → Option (ℕ × (ℕ × ℕ))
sequence b =
    if ltb b 128
    then some (0, (128, 191))
    else if ltb b 194
    then none
    else if ltb b 224
    then some (1, (128, 191))
    else if b == 224
    then some (2, (160, 191))
    else if b == 237
    then some (2, (128, 159))
    else if ltb b 240
    then some (2, (128, 191))
    else if b == 240
    then some (3, (144, 191))
    else if ltb b 244
    then some (3, (128, 191))
    else if b == 244
    then some (3, (128, 143))
    else none

-- The text goes on after `need` more bytes, the first of which is in a range.
unfoldable pub utf8_from : (need : ℕ) (range : ℕ × ℕ) → Bytes → Bool
unfolding sequence
utf8_from zero range [] = true
utf8_from (suc need) range [] = false
utf8_from zero range (b ∷ bs) = elim (sequence b) [
  | none ↦ false
  | some (need, range) ↦ utf8_from need range bs
]
utf8_from (suc need) range (b ∷ bs) =
    (leb range.0 b && leb b range.1) && utf8_from need (128, 191) bs

unfoldable pub from_utf8 : Bytes → Bool
unfolding utf8_from
from_utf8 bs = utf8_from 0 (128, 191) bs

sequence-ascii : (b : ℕ) → ltb b 128 ≡ true → sequence b ≡ some (0, (128, 191))
unfolding sequence
sequence-ascii b h = rw (h) refl

-- ASCII text is UTF-8.
ascii-from : (bs : Bytes) → all (λ b. ltb b 128) bs ≡ true → utf8_from 0 (128, 191) bs ≡ true
unfolding utf8_from sequence
ascii-from [] h = refl
ascii-from (b ∷ bs) h =
    let (small, rest) = and-true (ltb b 128) (all (λ b. ltb b 128) bs) h in
    rw (utf8_from, sequence-ascii b small) (ascii-from bs rest)

pub from_utf8-ascii : (bs : Bytes) → all (λ b. ltb b 128) bs ≡ true → from_utf8 bs ≡ true
unfolding from_utf8
from_utf8-ascii bs h = ascii-from bs h
