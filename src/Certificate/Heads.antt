-- ===== src/Certificate/Heads.antt =====
-- The heads of a certificate are read in strictly ascending order, and written so: `read_heads` and
-- `Certificate::binding` of certificate.rs.
use onomancy.Prelude.{
  ℕ, zero, suc, ◌*◌, ◌≤◌, ◌≡◌, refl, sym, ap, ◌∙◌, subst, ◌⊎◌, inl, inr, Bool, true, false, not,
  if◌then◌else◌, Option, none, some, List, [], ◌∷◌, ◌++◌, length, length-append, In, arith,
}
use onomancy.Prelude.Lex.{lexb, lexb_trans, lexb_total, eq_bytes, eq_of_lex, gt_of_lt, lt_of_gt}
use onomancy.Prelude.Sort.{insert, sort_by_key, dedup_from, dedup_by, In-sort, In-insert}
use onomancy.Prelude.Result.{Result, ok, err, map_err, after-ok, map_err-ok, ok-injective}
use onomancy.Core.{Bytes}
use onomancy.Wire.{Varint, max_unit_bytes, read_bytes, bounded_len, put_varint}
use onomancy.Wire.Laws.{IsVarint, read_bytes-ok, bounded_len-ok, bounded_len-append}
use onomancy.Wire.Split.{append_assoc}
use onomancy.Signed.RoundTrip.{read_at_width}
use onomancy.Certificate.{
  DecodeCertificateError, heads_not_canonical, wire, follows, read_heads_from, read_heads,
  write_heads,
}
use onomancy.Certificate.Issue.{canonical_heads}

-- 32 bytes each, strictly ascending, after a head if one is given.
unfoldable pub HeadsFrom : Option Bytes → List Bytes → Type 0
HeadsFrom previous [] = Unit
HeadsFrom previous (head ∷ heads) =
    (length head ≡ 32) × ((follows previous head ≡ true) × HeadsFrom (some head) heads)

follows-ok :
    (previous : Option Bytes) (head : Bytes) (b : Bool)
    → ◌≡◌ {A = Result DecodeCertificateError Bool}
        (if follows previous head then ok true else err heads_not_canonical)
        (ok b)
    → follows previous head ≡ true
follows-ok previous head b h = ground arith

read_heads_from-ok :
    (previous : Option Bytes) (count : ℕ) (bs : Bytes) (heads : List Bytes) (rest : Bytes)
    → read_heads_from previous count bs ≡ ok (heads, rest)
    → (length heads ≡ count) × (HeadsFrom previous heads × (bs ≡ write_heads heads ++ rest))
unfolding read_heads_from HeadsFrom write_heads
read_heads_from-ok previous zero bs heads rest h =
    subst
      (λ (z : List Bytes × Bytes).
        (length z.0 ≡ 0) × (HeadsFrom previous z.0 × (bs ≡ write_heads z.0 ++ z.1)))
      (ok-injective _ _ h) (refl, (tt, refl))
read_heads_from-ok previous (suc count) bs heads rest h =
    after-ok (map_err wire (read_bytes 32 bs)) _ (heads, rest) h
      (λ a pa k.
        after-ok (if follows previous a.0 then ok true else err heads_not_canonical) _ (heads, rest)
          k
          (λ b pb k.
            after-ok (read_heads_from (some a.0) count a.1) _ (heads, rest) k
              (λ c pc q.
                let (l, at) = read_bytes-ok 32 bs a.0 a.1 (map_err-ok _ _ _ pa) in
                let (n, (ascending, at')) = read_heads_from-ok (some a.0) count a.1 c.0 c.1 pc in
                subst
                  (λ (z : List Bytes × Bytes).
                    (length z.0 ≡ suc count)
                    × (HeadsFrom previous z.0 × (bs ≡ write_heads z.0 ++ z.1)))
                  (ok-injective _ _ q)
                  (
                    ap suc n,
                    (
                      (l, (follows-ok previous a.0 b pb, ascending)),
                      at ∙ ap (λ z. a.0 ++ z) at' ∙ sym (append_assoc a.0 (write_heads c.0) c.1),
                    ),
                  ))))

read_heads_from-append :
    (previous : Option Bytes) (heads : List Bytes) (rest : Bytes)
    → HeadsFrom previous heads
    → read_heads_from previous (length heads) (write_heads heads ++ rest) ≡ ok (heads, rest)
unfolding read_heads_from HeadsFrom write_heads
read_heads_from-append previous [] rest h = refl
read_heads_from-append previous (head ∷ heads) rest (l, (f, more)) =
    rw
      (
        append_assoc head (write_heads heads) rest,
        read_at_width wire head (write_heads heads ++ rest) 32 l,
        f,
        read_heads_from-append (some head) heads rest more,
      )
      refl

length-write_heads :
    (previous : Option Bytes) (heads : List Bytes)
    → HeadsFrom previous heads
    → length (write_heads heads) ≡ length heads * 32
unfolding HeadsFrom write_heads
length-write_heads previous [] h = refl
length-write_heads previous (head ∷ heads) (l, (f, more)) =
    omega
      (arith, l, length-append head (write_heads heads), length-write_heads (some head) heads more)

module _ (v : Varint) (varint : IsVarint v) where
  pub read_heads-ok :
      (bs : Bytes) (heads : List Bytes) (rest : Bytes)
      → read_heads v bs ≡ ok (heads, rest)
      → HeadsFrom none heads × (bs ≡ put_varint v (length heads) ++ (write_heads heads ++ rest))
  unfolding read_heads
  read_heads-ok bs heads rest h =
      after-ok (map_err wire (bounded_len v 32 bs)) _ (heads, rest) h
        (λ a pa k.
          let (_, (_, at)) = bounded_len-ok v varint 32 bs a.0 a.1 (map_err-ok _ _ _ pa) in
          let (n, (ascending, at')) = read_heads_from-ok none a.0 a.1 heads rest k in
          (
            ascending,
            at
                ∙ ap (λ z. put_varint v a.0 ++ z) at'
                ∙ ap (λ c. put_varint v c ++ (write_heads heads ++ rest)) (sym n),
          ))

  pub read_heads-append :
      (heads : List Bytes) (rest : Bytes)
      → HeadsFrom none heads
      → length (write_heads heads ++ rest) ≤ max_unit_bytes
      → read_heads v (put_varint v (length heads) ++ (write_heads heads ++ rest)) ≡ ok (heads, rest)
  unfolding read_heads
  read_heads-append heads rest h small =
      let width = length-write_heads none heads h in
      rw
        (bounded_len-append v varint 32 (length heads) (write_heads heads ++ rest)
          (omega (arith, width, small, length-append (write_heads heads) rest))
          (omega (arith, width, length-append (write_heads heads) rest)) small)
        (read_heads_from-append none heads rest h)

-- A list in ascending order.
Above : Bytes → List Bytes → Type 0
Above a xs = (x : Bytes) → In x xs → lexb a x ≡ true

Sorted : List Bytes → Type 0
Sorted [] = Unit
Sorted (x ∷ xs) = Above x xs × Sorted xs

insert-Sorted : (a : Bytes) (xs : List Bytes) → Sorted xs → Sorted (insert (λ h. h) a xs)
unfolding Sorted Above
insert-Sorted a [] h = (λ x m. elim m [ ], tt)
insert-Sorted a (x ∷ xs) (above, more) = split (insert-Sorted a xs more) (lexb a x) refl
  where
    under : lexb a x ≡ true → (y : Bytes) → (y ≡ x) ⊎ In y xs → lexb a y ≡ true
    under e y (inl q) = subst (λ z. lexb a z ≡ true) (sym q) e
    under e y (inr m) = lexb_trans a x y e (above y m)

    over : lexb a x ≡ false → (y : Bytes) → (y ≡ a) ⊎ In y xs → lexb x y ≡ true
    over e y (inl q) = subst (λ z. lexb x z ≡ true) (sym q) (lexb_total a x e)
    over e y (inr m) = above y m

    split :
        Sorted (insert (λ h. h) a xs)
        → (t : Bool) → lexb a x ≡ t
        → Sorted (if t then a ∷ x ∷ xs else x ∷ insert (λ h. h) a xs)
    split ih true e = (λ y m. under e y m, (above, more))
    split ih false e = (λ y m. over e y (In-insert (λ h. h) y a xs m), ih)

sort-Sorted : (xs : List Bytes) → Sorted (sort_by_key (λ h. h) xs)
unfolding sort_by_key Sorted
sort-Sorted [] = tt
sort-Sorted (x ∷ xs) = insert-Sorted x (sort_by_key (λ h. h) xs) (sort-Sorted xs)

-- An element that is not below another and is not it, is above it.
strictly : (a x : Bytes) → lexb a x ≡ true → eq_bytes x a ≡ false → not (lexb x a) ≡ true
strictly a x h k = ground (arith, gt_of_lt x a, lt_of_gt a x, eq_of_lex x a)

Wide : List Bytes → Type 0
Wide xs = (x : Bytes) → In x xs → length x ≡ 32

dedup_from-HeadsFrom :
    (a : Bytes) (xs : List Bytes)
    → Above a xs
    → Sorted xs
    → Wide xs
    → HeadsFrom (some a) (dedup_from eq_bytes a xs)
unfolding dedup_from HeadsFrom Above Sorted Wide follows
dedup_from-HeadsFrom a [] above sorted wide = tt
dedup_from-HeadsFrom a (x ∷ xs) above (next, sorted) wide =
    split (dedup_from-HeadsFrom a xs (λ y m. above y (inr m)) sorted (λ y m. wide y (inr m)))
      (dedup_from-HeadsFrom x xs next sorted (λ y m. wide y (inr m))) (eq_bytes x a) refl
  where
    split :
        HeadsFrom (some a) (dedup_from eq_bytes a xs)
        → HeadsFrom (some x) (dedup_from eq_bytes x xs)
        → (t : Bool) → eq_bytes x a ≡ t
        → HeadsFrom (some a) (if t then dedup_from eq_bytes a xs else x ∷ dedup_from eq_bytes x xs)
    split skip keep true e = skip
    split skip keep false e = (wide x (inl refl), (strictly a x (above x (inl refl)) e, keep))

dedup-HeadsFrom : (xs : List Bytes) → Sorted xs → Wide xs → HeadsFrom none (dedup_by eq_bytes xs)
unfolding dedup_by HeadsFrom Sorted Wide follows
dedup-HeadsFrom [] sorted wide = tt
dedup-HeadsFrom (x ∷ xs) (above, sorted) wide =
    (wide x (inl refl), (refl, dedup_from-HeadsFrom x xs above sorted (λ y m. wide y (inr m))))

pub canonical_heads-HeadsFrom :
    (heads : List Bytes)
    → ((h : Bytes) → In h heads → length h ≡ 32)
    → HeadsFrom none (canonical_heads heads)
unfolding canonical_heads Wide
canonical_heads-HeadsFrom heads wide =
    dedup-HeadsFrom (sort_by_key (λ h. h) heads) (sort-Sorted heads)
      (λ h m. wide h (In-sort (λ h. h) h heads m))
