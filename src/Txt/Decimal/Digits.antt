-- ===== src/Txt/Decimal/Digits.antt =====
-- The digits of a serial: what reading and printing them does to their value.
use onomancy.Prelude.{
  ℕ, zero, suc, ◌+◌, ◌-◌, ◌*◌, ◌/◌, ◌%◌, ◌≤◌, ◌<◌, ◌≡◌, refl, sym, ap, ◌∙◌, subst, inl, inr, Bool,
  true, false, not, ◌&&◌, Bool-cases, ltb, ◌==◌, eqb→eq, if◌then◌else◌, none, some, [], ◌∷◌, ◌++◌,
  length, all, and-true, arith,
}
use onomancy.Prelude.Result.{ok}
use onomancy.Core.{Bytes, u64_max}
use onomancy.Names.{is_ascii_digit, starts_with}
use onomancy.Txt.Decimal.{max_serial_digits, position_from, read_u64, parse_digits, emit, print}

-- The number that digits spell behind another, with no bound.
unfoldable pub value : ℕ → Bytes → ℕ
value n [] = n
value n (b ∷ bs) = value (n * 10 + (b - 48)) bs

pub le-value : (n : ℕ) (bs : Bytes) → n ≤ value n bs
unfolding value
le-value n [] = omega arith
le-value n (b ∷ bs) = omega (arith, le-value (n * 10 + (b - 48)) bs)

-- Digits below a power of ten.
abbrev pub room : ℕ → ℕ
room zero = 1
room (suc fuel) = 10 * room fuel

pub read_u64-value :
    (n : ℕ) (bs : Bytes) (r : ℕ)
    → n ≤ u64_max
    → read_u64 n bs ≡ some r
    → (r ≡ value n bs) × (r ≤ u64_max)
unfolding read_u64 value
read_u64-value n [] r fits h = ground arith
read_u64-value n (b ∷ bs) r fits h = ground (arith, read_u64-value (n * 10 + (b - 48)) bs r)

value-read_u64 : (n : ℕ) (bs : Bytes) → value n bs ≤ u64_max → read_u64 n bs ≡ some (value n bs)
unfolding read_u64 value
value-read_u64 n [] h = refl
value-read_u64 n (b ∷ bs) h =
    ground (arith, value-read_u64 (n * 10 + (b - 48)) bs h, le-value (n * 10 + (b - 48)) bs)

pub position-digits :
    (at : ℕ) (bs : Bytes) → all is_ascii_digit bs ≡ true → position_from at bs ≡ none
unfolding position_from
position-digits at [] h = refl
position-digits at (b ∷ bs) h =
    let (d, ds) = and-true (is_ascii_digit b) (all is_ascii_digit bs) h in
    rw (d) (position-digits (at + 1) bs ds)

pub digits-position :
    (at : ℕ) (bs : Bytes) → position_from at bs ≡ none → all is_ascii_digit bs ≡ true
unfolding position_from
digits-position at [] h = refl
digits-position at (b ∷ bs) h = split (is_ascii_digit b) refl h (digits-position (at + 1) bs)
  where
    split :
        (t : Bool)
        → is_ascii_digit b ≡ t
        → (if not t then some at else position_from (at + 1) bs) ≡ none
        → (position_from (at + 1) bs ≡ none → all is_ascii_digit bs ≡ true)
        → (is_ascii_digit b && all is_ascii_digit bs) ≡ true
    split true e k ih = rw (e) (ih k)
    split false e k ih = cc k

pub emit_step :
    (fuel n : ℕ) (out : Bytes)
    → 0 < n
    → emit (suc fuel) n out ≡ emit fuel (n / 10) ((48 + n % 10) ∷ out)
unfolding emit
emit_step fuel n out h = ground arith

pub emit_zero : (fuel : ℕ) (out : Bytes) → emit fuel 0 out ≡ out
unfolding emit
emit_zero zero out = refl
emit_zero (suc fuel) out = refl

pub digit_range : (b : ℕ) → is_ascii_digit b ≡ true → (48 ≤ b) × (b ≤ 57)
unfolding is_ascii_digit
digit_range b h = ground arith

-- Printing puts back the digits that were read.
pub emit-value :
    (fuel n : ℕ) (bs out : Bytes)
    → 0 < n
    → all is_ascii_digit bs ≡ true
    → emit (fuel + length bs) (value n bs) out ≡ emit fuel n (bs ++ out)
unfolding value
emit-value fuel n [] out pos h = ap (λ f. emit f n out) (omega arith)
emit-value fuel n (b ∷ bs) out pos h =
    let m = n * 10 + (b - 48) in
    let (d, ds) = and-true (is_ascii_digit b) (all is_ascii_digit bs) h in
    let (low, high) = digit_range b d in
    let q : m / 10 ≡ n = omega arith in
    let r : 48 + m % 10 ≡ b = omega arith in
    ap (λ f. emit f (value m bs) out) (omega arith)
    ∙ emit-value (suc fuel) m bs out (omega arith) ds
    ∙ emit_step fuel m (bs ++ out) (omega arith)
    ∙ ap (λ k. emit fuel k ((48 + m % 10) ∷ (bs ++ out))) q
    ∙ ap (λ c. emit fuel n (c ∷ (bs ++ out))) r

pub value-emit :
    (fuel n : ℕ) (out : Bytes) → n < room fuel → value 0 (emit fuel n out) ≡ value n out
unfolding value emit
value-emit zero n out h = ap (λ m. value m out) (omega arith)
value-emit (suc fuel) n out h = ground (arith, value-emit fuel (n / 10) ((48 + n % 10) ∷ out))

pub digits-emit :
    (fuel n : ℕ) (out : Bytes)
    → all is_ascii_digit out ≡ true
    → all is_ascii_digit (emit fuel n out) ≡ true
unfolding emit is_ascii_digit
digits-emit zero n out h = h
digits-emit (suc fuel) n out h = ground (arith, digits-emit fuel (n / 10) ((48 + n % 10) ∷ out))

pub length-emit : (fuel n : ℕ) (out : Bytes) → length (emit fuel n out) ≤ fuel + length out
unfolding emit
length-emit zero n out = omega arith
length-emit (suc fuel) n out = ground (arith, length-emit fuel (n / 10) ((48 + n % 10) ∷ out))

pub emit-first :
    (fuel n : ℕ) (out : Bytes)
    → 0 < n
    → n < room fuel
    → (starts_with 48 (emit fuel n out) ≡ false) × (1 ≤ length (emit fuel n out))
unfolding emit starts_with
emit-first zero n out pos h = absurd (omega arith)
emit-first (suc fuel) n out pos h =
    let step = emit_step fuel n out pos in
    elim (Bool-cases (n / 10 == 0)) [
      | inl e ↦
          let q : n / 10 ≡ 0 = eqb→eq (n / 10) 0 e in
          let done : emit (suc fuel) n out ≡ (48 + n % 10) ∷ out =
            step ∙ ap (λ k. emit fuel k ((48 + n % 10) ∷ out)) q ∙ emit_zero fuel _ in
          subst (λ z. (starts_with 48 z ≡ false) × (1 ≤ length z)) (sym done)
            (ground arith, omega arith)
      | inr e ↦
          subst (λ z. (starts_with 48 z ≡ false) × (1 ≤ length z)) (sym step)
            (emit-first fuel (n / 10) ((48 + n % 10) ∷ out) (ground arith) (ground arith))
    ]

-- The print of a positive number.
pub print-positive : (n : ℕ) → 0 < n → print n ≡ emit max_serial_digits n []
unfolding print
print-positive n h = ground arith

-- The last checks of `parse` on digits that they accept.
pub parse_digits-fits :
    (digits : Bytes)
    → (ltb 1 (length digits) && starts_with 48 digits) ≡ false
    → length digits ≤ max_serial_digits
    → value 0 digits ≤ u64_max
    → parse_digits digits ≡ ok (value 0 digits)
unfolding parse_digits
parse_digits-fits digits lead short fits =
    let s : ltb max_serial_digits (length digits) ≡ false = ground arith in
    rw (lead, s, value-read_u64 0 digits fits) refl

pub print_zero : print 0 ≡ 48 ∷ []
unfolding print
print_zero = refl
