-- ===== src/Names/Canonical.antt =====
-- What `DnsName::parse` and `DnsName::from_canonical` of dns_name.rs accept, and what they return.
use onomancy.Prelude.{
  ℕ, ◌+◌, ◌≤◌, ◌≡◌, refl, sym, ap, ◌∙◌, subst, ◌⊎◌, ◌↔◌, inl, inr, Bool, true, false, not,
  Bool-cases, ltb, if◌then◌else◌, List, [], ◌∷◌, map, length, all, last_or, In, arith,
}
use onomancy.Prelude.Lex.{eq_bytes, eq_bytes→eq, eq_bytes_refl}
use onomancy.Prelude.Result.{Result, ok, err, ◌>>=◌, map_err, bind-ok}
use onomancy.Core.{Bytes}
use onomancy.Names.{
  dot, is_ascii, is_ascii_digit, is_ascii_lowercase, is_ldh, to_ascii_lowercase, strip_dot, split,
  before_last, ends_with, validate_label, validate_labels, max_name_len, ParseDnsNameError,
  CanonicalDnsNameError, parse_lowered, parse, from_canonical,
}
use onomancy.Names.Utf8.{from_utf8, from_utf8-ascii}
use onomancy.Names.Labels.{
  IsLabel, all-of, validate_label-IsLabel, IsLabel-validate_label, last-In-labels, before_last-In,
  In-labels-cases, length-before_last, validate_labels-ok, validate_labels-valid, no_last_label,
  strip_dot-same, InLabel, In-split,
}

-- The rule for a name in its canonical spelling: at most 253 bytes, two labels at least, each by the
-- rule for labels, and a last label that is not all digits.
pub record IsName (n : Bytes) : Type 0 where
  pub fits : length n ≤ max_name_len
  pub labels : (l : Bytes) → In l ((split n).0 ∷ (split n).1) → IsLabel l
  pub two : 2 ≤ length ((split n).0 ∷ (split n).1)
  pub named_tld : all is_ascii_digit (last_or (split n).0 (split n).1) ≡ false

parse_lowered-ok :
    (n m : Bytes) → length n ≤ max_name_len → parse_lowered n ≡ ok m → (m ≡ n) × IsName n
unfolding parse_lowered
parse_lowered-ok n m fits h =
    let (b, v, k) = bind-ok (validate_label tld) _ m h in
    let (d, t, k1) = bind-ok tested _ m k in
    let (count, c, k2) = bind-ok (validate_labels 1 others) _ m k1 in
    let (counted, each) = validate_labels-ok 1 count others c in
    let (same, enough) = last_test count k2 in
    (
      same,
      record {
        fits = fits;
        labels = λ l m. pick each (validate_label-IsLabel tld b v) l (In-labels-cases l _ _ m);
        two = omega (arith, enough, counted, length-before_last (split n).0 (split n).1);
        named_tld = tld_test d t;
      },
    )
  where
    tld : Bytes
    tld = last_or (split n).0 (split n).1

    others : List Bytes
    others = before_last (split n).0 (split n).1

    tested : Result ParseDnsNameError Bool
    tested = if all is_ascii_digit tld then err ParseDnsNameError.all_digit_tld else ok true

    tld_test : (d : Bool) → tested ≡ ok d → all is_ascii_digit tld ≡ false
    tld_test d t = ground arith

    last_test :
        (count : ℕ)
        → (if ltb count 2 then err ParseDnsNameError.dotless else ok n) ≡ ok m
        → (m ≡ n) × (2 ≤ count)
    last_test count k = ground arith

    pick :
        ((l : Bytes) → In l others → IsLabel l)
        → IsLabel tld
        → (l : Bytes) → (l ≡ tld) ⊎ In l others
        → IsLabel l
    pick each valid l (inl e) = subst IsLabel (sym e) valid
    pick each valid l (inr m) = each l m

parse_lowered-valid : (n : Bytes) → IsName n → parse_lowered n ≡ ok n
unfolding parse_lowered
parse_lowered-valid n h =
    let many : ltb (1 + length (before_last (split n).0 (split n).1)) 2 ≡ false =
      (let t = h.two in let l = length-before_last (split n).0 (split n).1 in ground arith) in
    rw
      (
        IsLabel-validate_label _ (h.labels _ (last-In-labels (split n).0 (split n).1)),
        h.named_tld,
        validate_labels-valid 1 (before_last (split n).0 (split n).1)
            (λ l m. h.labels l (before_last-In l (split n).0 (split n).1 m)),
        many,
      )
      refl

-- A name in its canonical spelling is lowercase ASCII and does not end in a dot.
module _ (n : Bytes) (h : IsName n) where
  name_byte : (b : ℕ) → InLabel b (split n) → (is_ascii b ≡ true) × (to_ascii_lowercase b ≡ b)
  unfolding InLabel is_ascii to_ascii_lowercase is_ldh is_ascii_lowercase is_ascii_digit
  name_byte b (inl e) = (rw (e) refl, rw (e) refl)
  name_byte b (inr (l, m, k)) = let q = (h.labels l m).ldh b k in ground arith

  name-ascii : all is_ascii n ≡ true
  name-ascii = all-of is_ascii n (λ b m. (name_byte b (In-split b n m)).0)

  name-lowercase : map to_ascii_lowercase n ≡ n
  name-lowercase = map-same n (λ b m. (name_byte b (In-split b n m)).1)
    where
      map-same :
          (bs : Bytes)
          → ((b : ℕ) → In b bs → to_ascii_lowercase b ≡ b)
          → map to_ascii_lowercase bs ≡ bs
      map-same [] same = refl
      map-same (b ∷ bs) same = rw (same b (inl refl), map-same bs (λ c m. same c (inr m))) refl

  name-no_dot : strip_dot n ≡ n
  name-no_dot =
      strip_dot-same n
        (elim (Bool-cases (ends_with dot n)) [ inl e ↦ absurd (empty e) | inr e ↦ e ])
    where
      empty : ends_with dot n ≡ true → ⊥
      empty e =
          let tld = (h.labels _ (last-In-labels (split n).0 (split n).1)).nonempty in
          let gone : last_or (split n).0 (split n).1 ≡ [] = no_last_label n e (split n).0 in
          let none : 1 ≤ length {A = ℕ} [] = subst (λ z. 1 ≤ length z) gone tld in
          omega (arith, none)

length-map : (f : ℕ → ℕ) (bs : Bytes) → length (map f bs) ≡ length bs
length-map f [] = refl
length-map f (b ∷ bs) = omega (arith, length-map f bs)

-- The guards of `parse`, over the Boolean tests and the rest of the parse.
guards :
    (ascii long : Bool) (rest : Result ParseDnsNameError Bytes) (n : Bytes)
    → (if not ascii
        then err ParseDnsNameError.not_a_label
        else (if long then err ParseDnsNameError.name_too_long else rest))
      ≡ ok n
    → (ascii ≡ true) × ((long ≡ false) × (rest ≡ ok n))
guards true false rest n h = (refl, (refl, h))
guards true true rest n h = cc h
guards false long rest n h = cc h

-- A text parses to a name exactly when it is ASCII, its lowercase form less one trailing dot is that
-- name, and the name keeps the rules: at most 253 bytes, two labels at least, each of 1 to 63
-- letters, digits and inner hyphens, and a last label that is not all digits.
pub parse_iff :
    (raw n : Bytes)
    → (parse raw ≡ ok n)
      ↔ ((all is_ascii raw ≡ true) × ((n ≡ map to_ascii_lowercase (strip_dot raw)) × IsName n))
unfolding parse
parse_iff raw n = (forth, back)
  where
    lowered : Bytes
    lowered = map to_ascii_lowercase (strip_dot raw)

    same_length : length lowered ≡ length (strip_dot raw)
    same_length = length-map to_ascii_lowercase (strip_dot raw)

    forth : parse raw ≡ ok n → (all is_ascii raw ≡ true) × ((n ≡ lowered) × IsName n)
    forth h =
        let (ascii, (short, k)) = guards _ (ltb max_name_len (length (strip_dot raw))) _ n h in
        let fits : length lowered ≤ max_name_len = (let l = same_length in ground arith) in
        let (same, name) = parse_lowered-ok lowered n fits k in
        (ascii, (same, subst IsName (sym same) name))

    back : (all is_ascii raw ≡ true) × ((n ≡ lowered) × IsName n) → parse raw ≡ ok n
    back (ascii, (same, name)) =
        let name' = subst IsName same name in
        let short : ltb max_name_len (length (strip_dot raw)) ≡ false =
          (let f = name'.fits in let l = same_length in ground arith) in
        rw (parse, ascii, short) (parse_lowered-valid lowered name' ∙ ap ok (sym same))

-- A byte string is read as a name exactly when it is that name, in its canonical spelling already.
pub from_canonical_iff : (raw n : Bytes) → (from_canonical raw ≡ ok n) ↔ ((n ≡ raw) × IsName raw)
unfolding from_canonical
from_canonical_iff raw n = (λ h. forth (from_utf8 raw) (parse raw) refl h, back)
  where
    compared : Bytes → Result CanonicalDnsNameError Bytes
    compared parsed =
        if eq_bytes parsed raw then ok parsed else err CanonicalDnsNameError.not_canonical

    forth :
        (text : Bool) (o : Result ParseDnsNameError Bytes)
        → parse raw ≡ o
        → ◌≡◌ {A = Result CanonicalDnsNameError Bytes}
            (if text
              then (map_err CanonicalDnsNameError.parse_error o >>= compared)
              else err CanonicalDnsNameError.not_utf8)
            (ok n)
        → (n ≡ raw) × IsName raw
    forth true (ok m) e h =
        let (_, (_, name)) = (parse_iff raw m).0 e in
        let (same, found) : (m ≡ raw) × (n ≡ m) = ground (arith, eq_bytes→eq m raw) in
        (found ∙ same, subst IsName same name)
    forth true (err x) e h = cc h
    forth false o e h = cc h

    back : (n ≡ raw) × IsName raw → from_canonical raw ≡ ok n
    back (same, name) =
        let ascii = name-ascii raw name in
        let unchanged : raw ≡ map to_ascii_lowercase (strip_dot raw) =
          sym (ap (map to_ascii_lowercase) (name-no_dot raw name) ∙ name-lowercase raw name) in
        rw
          (
            from_canonical,
            from_utf8-ascii raw ascii,
            (parse_iff raw raw).1 (ascii, (unchanged, name)),
            eq_bytes_refl raw,
          )
          (ap ok (sym same))

-- What `parse` returns is its own canonical spelling: it parses to itself.
pub parse-parse : (raw n : Bytes) → parse raw ≡ ok n → (parse n ≡ ok n) × (from_canonical n ≡ ok n)
parse-parse raw n h =
    let (_, (_, name)) = (parse_iff raw n).0 h in
    let unchanged =
      sym (ap (map to_ascii_lowercase) (name-no_dot n name) ∙ name-lowercase n name) in
    (
      (parse_iff n n).1 (name-ascii n name, (unchanged, name)),
      (from_canonical_iff n n).1 (refl, name),
    )
