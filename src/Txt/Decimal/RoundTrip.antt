-- ===== src/Txt/Decimal/RoundTrip.antt =====
-- A serial has one spelling: `Serial::parse` reads back what `Display` prints, and nothing else.
use onomancy.Prelude.{
  ℕ, suc, ◌+◌, ◌-◌, ◌*◌, ◌/◌, ◌%◌, ◌≤◌, ◌<◌, ◌≡◌, ◌↔◌, refl, sym, ap, ◌∙◌, subst, inl, inr, Bool,
  true, false, ◌&&◌, Bool-cases, ltb, ◌==◌, eqb→eq, if◌then◌else◌, Option, none, some, [], ◌∷◌,
  ◌++◌, length, all, and-true, arith,
}
use onomancy.Prelude.Result.{Result, ok, err}
use onomancy.Core.{Bytes, u64_max}
use onomancy.Wire.Split.{append_nil}
use onomancy.Names.{is_ascii_digit, starts_with}
use onomancy.Txt.Decimal.{
  ParseSerialError, max_serial_digits, position_from, read_u64, parse_digits, parse, emit, print,
}
use onomancy.Txt.Decimal.Digits.{
  value, le-value, room, read_u64-value, position-digits, digits-position, emit_step, emit_zero,
  digit_range, emit-value, value-emit, digits-emit, length-emit, emit-first, print-positive,
  parse_digits-fits, print_zero,
}

zero_prints : parse (print 0) ≡ ok 0
unfolding parse print
zero_prints = refl

parse-print : (n : ℕ) → n ≤ u64_max → parse (print n) ≡ ok n
unfolding parse value
parse-print n fits = elim (Bool-cases (n == 0)) [
  | inl e ↦ subst (λ m. parse (print m) ≡ ok m) (sym (eqb→eq n 0 e)) zero_prints
  | inr e ↦
      subst (λ z. parse z ≡ ok n) (sym (print-positive n (ground arith))) (positive (ground arith))
]
  where
    text : Bytes
    text = emit max_serial_digits n []

    positive : 0 < n → parse text ≡ ok n
    positive pos =
        let small : n < room 20 = omega arith in
        let (lead, long) = emit-first max_serial_digits n [] pos small in
        let exact : value 0 text ≡ n = value-emit max_serial_digits n [] small in
        let some_digits : (length text == 0) ≡ false = ground arith in
        let led : (ltb 1 (length text) && starts_with 48 text) ≡ false = ground arith in
        let bound : length text ≤ max_serial_digits + 0 = length-emit max_serial_digits n [] in
        let read = parse_digits-fits text led (omega (arith, bound)) (omega (arith, exact)) in
        rw (some_digits, position-digits 0 text (digits-emit max_serial_digits n [] refl))
          (read ∙ ap ok exact)

parse_digits-ok :
    (digits : Bytes) (n : ℕ)
    → parse_digits digits ≡ ok n
    → ((ltb 1 (length digits) && starts_with 48 digits) ≡ false)
      × ((length digits ≤ max_serial_digits) × ((n ≡ value 0 digits) × (n ≤ u64_max)))
unfolding parse_digits
parse_digits-ok digits n h =
    split (ltb 1 (length digits) && starts_with 48 digits) (ltb max_serial_digits (length digits))
      (read_u64 0 digits) refl refl refl h
  where
    split :
        (lead long : Bool) (o : Option ℕ)
        → (ltb 1 (length digits) && starts_with 48 digits) ≡ lead
        → ltb max_serial_digits (length digits) ≡ long
        → read_u64 0 digits ≡ o
        → ◌≡◌ {A = Result ParseSerialError ℕ}
            (if lead
              then err ParseSerialError.leading_zero
              else (if long
                  then err (ParseSerialError.too_many_digits (length digits))
                  else elim o [ none ↦ err ParseSerialError.overflow | some n ↦ ok n ]))
            (ok n)
        → ((ltb 1 (length digits) && starts_with 48 digits) ≡ false)
          × ((length digits ≤ max_serial_digits) × ((n ≡ value 0 digits) × (n ≤ u64_max)))
    split true long o a b c k = cc k
    split false true o a b c k = cc k
    split false false none a b c k = cc k
    split false false (some m) a b c k =
        let q : m ≡ n = cc k in
        let (exact, fits) = read_u64-value 0 digits m (omega arith) c in
        (a, (ground arith, (sym q ∙ exact, subst (λ z. z ≤ u64_max) q fits)))

-- What the checks of `parse` establish.
checked :
    (digits : Bytes) (n : ℕ)
    → parse digits ≡ ok n
    → (1 ≤ length digits)
      × ((all is_ascii_digit digits ≡ true)
          × (((ltb 1 (length digits) && starts_with 48 digits) ≡ false)
              × ((length digits ≤ max_serial_digits) × ((n ≡ value 0 digits) × (n ≤ u64_max)))))
unfolding parse
checked digits n h = split (length digits == 0) refl (position_from 0 digits) refl h
  where
    split :
        (t : Bool)
        → (length digits == 0) ≡ t
        → (o : Option ℕ) → position_from 0 digits ≡ o
        → ◌≡◌ {A = Result ParseSerialError ℕ}
            (if t then err ParseSerialError.empty else elim o [
              | some at ↦ err (ParseSerialError.not_a_digit at)
              | none ↦ parse_digits digits
            ])
            (ok n)
        → (1 ≤ length digits)
          × ((all is_ascii_digit digits ≡ true)
              × (((ltb 1 (length digits) && starts_with 48 digits) ≡ false)
                  × ((length digits ≤ max_serial_digits) × ((n ≡ value 0 digits) × (n ≤ u64_max)))))
    split true a o b k = cc k
    split false a (some at) b k = cc k
    split false a none b k =
        (ground arith, (digits-position 0 digits b, parse_digits-ok digits n k))

-- A digit string with no leading zero is the print of its value.
spelled_positive :
    (b : ℕ) (bs : Bytes)
    → is_ascii_digit b ≡ true
    → 0 < b - 48
    → all is_ascii_digit bs ≡ true
    → suc (length bs) ≤ max_serial_digits
    → print (value (b - 48) bs) ≡ b ∷ bs
spelled_positive b bs d pos ds short =
    let (low, high) = digit_range b d in
    let n = b - 48 in
    let fuel = 19 - length bs in
    let f : max_serial_digits ≡ suc fuel + length bs = omega arith in
    let q : n / 10 ≡ 0 = omega arith in
    let r : 48 + n % 10 ≡ b = omega arith in
    print-positive (value n bs) (omega (arith, le-value n bs))
    ∙ ap (λ k. emit k (value n bs) []) f
    ∙ emit-value (suc fuel) n bs [] pos ds
    ∙ emit_step fuel n (bs ++ []) pos
    ∙ ap (λ k. emit fuel k ((48 + n % 10) ∷ (bs ++ []))) q
    ∙ emit_zero fuel _
    ∙ ap (λ c. c ∷ (bs ++ [])) r
    ∙ ap (λ z. b ∷ z) (append_nil bs)

spelled :
    (digits : Bytes)
    → 1 ≤ length digits
    → all is_ascii_digit digits ≡ true
    → (ltb 1 (length digits) && starts_with 48 digits) ≡ false
    → length digits ≤ max_serial_digits
    → digits ≡ print (value 0 digits)
unfolding value starts_with
spelled [] long ds lead short = absurd (omega (arith, long))
spelled (b ∷ bs) long ds lead short =
    let (d, rest) = and-true (is_ascii_digit b) (all is_ascii_digit bs) ds in
    let (low, high) = digit_range b d in
    let start : b - 48 ≡ 0 * 10 + (b - 48) = omega arith in
    let spelling : b ∷ bs ≡ print (value (b - 48) bs) = elim (Bool-cases (b == 48)) [
      | inl e ↦ only (eqb→eq b 48 e) bs lead
      | inr e ↦ sym (spelled_positive b bs d (ground arith) rest short)
    ] in
    spelling ∙ ap (λ k. print (value k bs)) start
  where
    only :
        b ≡ 48
        → (bs : Bytes) → (ltb 1 (suc (length bs)) && (b == 48)) ≡ false
        → b ∷ bs ≡ print (value (b - 48) bs)
    only e [] lead = subst (λ c. c ∷ [] ≡ print (value (c - 48) [])) (sym e) (sym print_zero)
    only e (c ∷ cs) lead = absurd (ground arith)

forth : (digits : Bytes) (n : ℕ) → parse digits ≡ ok n → (n ≤ u64_max) × (digits ≡ print n)
forth digits n h =
    let (long, (ds, (lead, (short, (exact, fits))))) = checked digits n h in
    (fits, spelled digits long ds lead short ∙ ap print (sym exact))

-- A text is the decimal spelling of a 64-bit serial exactly when it parses to that serial: every
-- serial reads back from its print, and no other text reads as it.
pub serial-parse_iff :
    (digits : Bytes) (n : ℕ) → (parse digits ≡ ok n) ↔ ((n ≤ u64_max) × (digits ≡ print n))
serial-parse_iff digits n =
    (forth digits n, λ (fits, at). subst (λ z. parse z ≡ ok n) (sym at) (parse-print n fits))

-- A print is 1 to 20 digits.
zero_digits : all is_ascii_digit (48 ∷ []) ≡ true
unfolding is_ascii_digit
zero_digits = refl

pub print-digits : (n : ℕ) → all is_ascii_digit (print n) ≡ true
print-digits n = elim (Bool-cases (n == 0)) [
  | inl e ↦
      subst (λ m. all is_ascii_digit (print m) ≡ true) (sym (eqb→eq n 0 e))
        (subst (λ z. all is_ascii_digit z ≡ true) (sym print_zero) zero_digits)
  | inr e ↦
      subst (λ z. all is_ascii_digit z ≡ true) (sym (print-positive n (ground arith)))
        (digits-emit max_serial_digits n [] refl)
]

pub length-print : (n : ℕ) → length (print n) ≤ max_serial_digits
unfolding print
length-print n = ground (arith, length-emit max_serial_digits n [])
