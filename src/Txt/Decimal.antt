-- ===== src/Txt/Decimal.antt =====
-- onomancy_dnssec/src/txt/serial.rs: the decimal spelling of a serial, `Serial::parse` and its `Display`.
pub mod Digits
pub mod RoundTrip
use onomancy.Prelude.{
  ℕ, zero, suc, ◌+◌, ◌-◌, ◌*◌, ◌/◌, ◌%◌, Bool, true, false, not, ◌&&◌, ltb, leb, ◌==◌,
  if◌then◌else◌, Option, none, some, List, [], ◌∷◌, length,
}
use onomancy.Prelude.Result.{Result, ok, err}
use onomancy.Core.{Bytes, u64_max}
use onomancy.Names.{is_ascii_digit, starts_with}

abbrev pub max_serial_digits : ℕ
max_serial_digits = 20

pub data ParseSerialError : Type 0 where
  empty leading_zero overflow : ParseSerialError
  not_a_digit : (at : ℕ) → ParseSerialError
  too_many_digits : (got : ℕ) → ParseSerialError

-- `bytes().position(|b| !b.is_ascii_digit())`, from an offset on
unfoldable pub position_from : ℕ → Bytes → Option ℕ
unfolding is_ascii_digit
position_from at [] = none
position_from at (b ∷ bs) = if not (is_ascii_digit b) then some at else position_from (at + 1) bs

-- `parse::<u64>` of digits, after a value: `none` where it would pass `u64::MAX`.
unfoldable pub read_u64 : ℕ → Bytes → Option ℕ
read_u64 n [] = some n
read_u64 n (b ∷ bs) =
    let rest = read_u64 (n * 10 + (b - 48)) bs in
    if ltb u64_max (n * 10 + (b - 48)) then none else rest

-- `Serial::parse` from its second check on
unfoldable pub parse_digits : Bytes → Result ParseSerialError ℕ
unfolding starts_with read_u64
parse_digits digits =
    if ltb 1 (length digits) && starts_with 48 digits
    then err leading_zero
    else if ltb max_serial_digits (length digits)
    then err (too_many_digits (length digits))
    else elim (read_u64 0 digits) [ none ↦ err overflow | some n ↦ ok n ]

-- `Serial::parse`
unfoldable pub parse : Bytes → Result ParseSerialError ℕ
unfolding position_from parse_digits
parse digits = if length digits == 0 then err empty else elim (position_from 0 digits) [
  | some at ↦ err (not_a_digit at)
  | none ↦ parse_digits digits
]

-- The digits of a number before some text, at most as many as the fuel.
unfoldable pub emit : (fuel : ℕ) → ℕ → Bytes → Bytes
emit zero n out = out
emit (suc fuel) n out =
    let longer = emit fuel (n / 10) ((48 + n % 10) ∷ out) in if n == 0 then out else longer

-- `Display` of a serial: 20 digits are enough for 64 bits.
unfoldable pub print : ℕ → Bytes
unfolding emit
print n = if n == 0 then 48 ∷ [] else emit max_serial_digits n []
