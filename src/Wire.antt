-- ===== src/Wire.antt =====
-- onomancy_core/src/wire.rs: the strict reader, canonical integers and the cap on a unit.
--
-- A `Reader` is a cursor over the bytes of a unit. It is modelled as the bytes after the cursor, so
-- `remaining` is their number; a read returns its value with the bytes it leaves. `usize` has 64
-- bits.
pub mod Split
pub mod Laws
use onomancy.Prelude.{
  ℕ, ◌+◌, ◌*◌, ◌^◌, Bool, true, false, ◌&&◌, ltb, leb, ◌==◌, if◌then◌else◌, Option, none, some,
  List, [], ◌∷◌, ◌++◌, length, take, drop,
}
use onomancy.Prelude.Result.{Result, ok, err, ◌>>=◌}
use onomancy.Core.{Bytes, u64_max}

-- The codec of the `bijoux` crate (`bijoux::u64`): the bytes of an integer, and the integer that
-- leads some bytes with the number of bytes it takes. `none` is its `DecodeError`.
pub record Varint : Type 0 where
  pub encode : ℕ → Bytes
  pub decode : Bytes → Option (ℕ × ℕ)

abbrev pub max_unit_bytes : ℕ
max_unit_bytes = 2 ^ 20

pub data WireError : Type 0 where
  length_overrun : (declared : ℕ) (have : ℕ) → WireError
  oversize_unit : (len : ℕ) → WireError
  trailing_bytes : (extra : ℕ) → WireError
  truncated : (need : ℕ) (have : ℕ) → WireError
  varint_error : WireError

pub record OversizeUnit : Type 0 where
  pub len : ℕ

-- What a read of the source returns: a value, and the reader it leaves.
abbrev pub Read : (E : Type 0) → Type 0 → Type 0
Read E A = Bytes → Result E (A × Bytes)

-- `Reader::new`
unfoldable pub new_reader : Bytes → Result WireError Bytes
new_reader bytes =
    if ltb max_unit_bytes (length bytes) then err (oversize_unit (length bytes)) else ok bytes

-- `Reader::take`, and `Reader::take_array` at a width `need`
unfoldable pub read_bytes : ℕ → Read WireError Bytes
read_bytes need reader =
    if ltb (length reader) need
    then err (truncated need (length reader))
    else ok (take need reader, drop need reader)

-- `Reader::finish`
unfoldable pub finish : Bytes → Result WireError Bool
finish reader = if length reader == 0 then ok true else err (trailing_bytes (length reader))

unfoldable pub check_unit_len : ℕ → Result OversizeUnit Bool
check_unit_len len = if ltb max_unit_bytes len then err (record { len = len }) else ok true

-- `put_varint` appends these bytes.
unfoldable pub put_varint : Varint → ℕ → Bytes
put_varint v value = v.encode value

-- `Reader::varint`
unfoldable pub read_varint : Varint → Read WireError ℕ
read_varint v reader = elim (v.decode reader) [
  | none ↦ err varint_error
  | some decoded ↦ ok (decoded.0, drop decoded.1 reader)
]

-- `checked_mul` of `bounded_len`, with its filter.
unfoldable pub total_fits : ℕ → ℕ → ℕ → Bool
total_fits declared unit_width have =
    leb (declared * unit_width) u64_max && leb (declared * unit_width) have

-- `Reader::bounded_len`
unfoldable pub bounded_len : Varint → ℕ → Read WireError ℕ
unfolding total_fits
bounded_len v unit_width reader = do
  (declared, rest) ← read_varint v reader
  if total_fits declared unit_width (length rest)
      then ok (declared, rest)
      else err (length_overrun declared (length rest))
