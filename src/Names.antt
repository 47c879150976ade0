-- ===== src/Names.antt =====
-- onomancy_dnssec/src/dns_name.rs: parsing DNS names, and reading names that are canonical already.
--
-- A name is the bytes of its text here. `parse_display` calls the `idna` crate and is left out.
pub mod Utf8
pub mod Labels
pub mod Canonical
use onomancy.Prelude.{
  ℕ, ◌+◌, ◌≡◌, Bool, true, false, not, ◌&&◌, ◌||◌, ltb, leb, ◌==◌, if◌then◌else◌, List, [], ◌∷◌,
  map, length, all, last_or,
}
use onomancy.Prelude.Lex.{eq_bytes}
use onomancy.Prelude.Result.{Result, ok, err, ◌>>=◌, map_err}
use onomancy.Core.{Bytes}
use onomancy.Names.Utf8.{from_utf8}

abbrev pub max_name_len : ℕ
max_name_len = 253

abbrev pub max_label_len : ℕ
max_label_len = 63

pub data ParseDnsNameError : Type 0 where
  dotless empty_label hyphen_at_label_edge all_digit_tld : ParseDnsNameError
  label_too_long name_too_long not_a_label : ParseDnsNameError

pub data CanonicalDnsNameError : Type 0 where
  not_canonical not_utf8 : CanonicalDnsNameError
  parse_error : ParseDnsNameError → CanonicalDnsNameError

-- The characters `.` and `-`.
abbrev pub dot : ℕ
dot = 46

abbrev pub hyphen : ℕ
hyphen = 45

unfoldable pub is_ascii : ℕ → Bool
is_ascii b = ltb b 128

unfoldable pub is_ascii_digit : ℕ → Bool
is_ascii_digit b = leb 48 b && leb b 57

unfoldable pub is_ascii_lowercase : ℕ → Bool
is_ascii_lowercase b = leb 97 b && leb b 122

-- A letter, a digit or a hyphen.
unfoldable pub is_ldh : ℕ → Bool
unfolding is_ascii_digit is_ascii_lowercase
is_ldh b = (is_ascii_lowercase b || is_ascii_digit b) || (b == hyphen)

-- `to_ascii_lowercase` of one byte
unfoldable pub to_ascii_lowercase : ℕ → ℕ
to_ascii_lowercase b = if leb 65 b && leb b 90 then b + 32 else b

-- `strip_suffix('.')`, or the text itself
unfoldable pub strip_dot : Bytes → Bytes
strip_dot [] = []
strip_dot (b ∷ []) = if b == dot then [] else b ∷ []
strip_dot (b ∷ (c ∷ cs)) = b ∷ strip_dot (c ∷ cs)

-- `split('.')`: the first label, and the others.
unfoldable pub split : Bytes → Bytes × List Bytes
split [] = ([], [])
split (b ∷ bs) =
    let rest = split bs in if b == dot then ([], rest.0 ∷ rest.1) else (b ∷ rest.0, rest.1)

-- The labels before the last one.
unfoldable pub before_last : Bytes → List Bytes → List Bytes
before_last l [] = []
before_last l (m ∷ ms) = l ∷ before_last m ms

unfoldable pub starts_with : ℕ → Bytes → Bool
starts_with c [] = false
starts_with c (b ∷ bs) = b == c

unfoldable pub ends_with : ℕ → Bytes → Bool
ends_with c [] = false
ends_with c (b ∷ bs) = last_or b bs == c

unfoldable pub validate_label : Bytes → Result ParseDnsNameError Bool
unfolding is_ldh starts_with ends_with
validate_label label =
    if length label == 0
    then err empty_label
    else if ltb max_label_len (length label)
    then err label_too_long
    else if starts_with hyphen label || ends_with hyphen label
    then err hyphen_at_label_edge
    else if not (all is_ldh label)
    then err not_a_label
    else ok true

-- The loop over the labels before the last one, with its count.
unfoldable pub validate_labels : ℕ → List Bytes → Result ParseDnsNameError ℕ
unfolding validate_label
validate_labels label_count [] = ok label_count
validate_labels label_count (label ∷ labels) = do
  _ ← validate_label label
  validate_labels (label_count + 1) labels

-- `DnsName::parse` from the lowered text on
unfoldable pub parse_lowered : Bytes → Result ParseDnsNameError Bytes
unfolding split before_last validate_labels
parse_lowered lowered = do
  _ ← validate_label (last_or (split lowered).0 (split lowered).1)
  _ ←
      if all is_ascii_digit (last_or (split lowered).0 (split lowered).1)
      then err all_digit_tld
      else ok true
  label_count ← validate_labels 1 (before_last (split lowered).0 (split lowered).1)
  if ltb label_count 2 then err dotless else ok lowered

-- `DnsName::parse`
unfoldable pub parse : Bytes → Result ParseDnsNameError Bytes
unfolding is_ascii to_ascii_lowercase strip_dot parse_lowered
parse raw =
    if not (all is_ascii raw)
    then err not_a_label
    else if ltb max_name_len (length (strip_dot raw))
    then err name_too_long
    else parse_lowered (map to_ascii_lowercase (strip_dot raw))

-- `DnsName::from_canonical`
unfoldable pub from_canonical : Bytes → Result CanonicalDnsNameError Bytes
unfolding parse
from_canonical raw =
    if from_utf8 raw
    then (map_err parse_error (parse raw) >>= λ parsed.
        if eq_bytes parsed raw then ok parsed else err not_canonical)
    else err not_utf8
