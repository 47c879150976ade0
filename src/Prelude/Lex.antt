-- ===== src/Prelude/Lex.antt =====
-- The order that Rust derives on tuples, structs and slices: the first difference decides.
use Prim.Native.Nat.{ℕ, compare, Ordering}
use Prim.Native.Nat.Ordering.{lt, eq, gt}
use mathlib.Core.Path.{◌≡◌, refl}
use mathlib.Core.Bool.{Bool, true, false}
use mathlib.Core.List.{List, [], ◌∷◌}
use native.Mathlib.Omega.{arith}

-- `a.cmp(b)` of two slices.
abbrev pub lex : List ℕ → List ℕ → Ordering
lex [] [] = eq
lex [] (y ∷ ys) = lt
lex (x ∷ xs) [] = gt
lex (x ∷ xs) (y ∷ ys) = elim (compare x y) [ lt ↦ lt | eq ↦ lex xs ys | gt ↦ gt ]

pub lex_refl : (xs : List ℕ) → lex xs xs ≡ eq
lex_refl [] = refl
lex_refl (x ∷ xs) = ground (arith, lex_refl xs)

pub eq_of_lex : (xs ys : List ℕ) → lex xs ys ≡ eq → xs ≡ ys
eq_of_lex [] [] h = refl
eq_of_lex [] (y ∷ ys) h = cc
eq_of_lex (x ∷ xs) [] h = cc
eq_of_lex (x ∷ xs) (y ∷ ys) h = ground (arith, eq_of_lex xs ys)

pub gt_of_lt : (xs ys : List ℕ) → lex xs ys ≡ lt → lex ys xs ≡ gt
gt_of_lt [] [] h = cc
gt_of_lt [] (y ∷ ys) h = refl
gt_of_lt (x ∷ xs) [] h = cc
gt_of_lt (x ∷ xs) (y ∷ ys) h = ground (arith, gt_of_lt xs ys)

pub lt_of_gt : (xs ys : List ℕ) → lex xs ys ≡ gt → lex ys xs ≡ lt
lt_of_gt [] [] h = cc
lt_of_gt [] (y ∷ ys) h = cc
lt_of_gt (x ∷ xs) [] h = refl
lt_of_gt (x ∷ xs) (y ∷ ys) h = ground (arith, lt_of_gt xs ys)

pub lex_trans : (xs ys zs : List ℕ) → lex xs ys ≡ lt → lex ys zs ≡ lt → lex xs zs ≡ lt
lex_trans xs ys [] h k = no_lt_nil ys k
  where
    no_lt_nil : (l : List ℕ) → lex l [] ≡ lt → lex xs [] ≡ lt
    no_lt_nil [] e = cc
    no_lt_nil (l ∷ ls) e = cc
lex_trans [] ys (z ∷ zs) h k = refl
lex_trans (x ∷ xs) [] (z ∷ zs) h k = cc
lex_trans (x ∷ xs) (y ∷ ys) (z ∷ zs) h k = ground (arith, lex_trans xs ys zs)

-- `a <= b`
abbrev pub lexb : List ℕ → List ℕ → Bool
lexb xs ys = elim (lex xs ys) [ gt ↦ false | _ ↦ true ]

pub lexb_refl : (xs : List ℕ) → lexb xs xs ≡ true
lexb_refl xs = ground (arith, lex_refl xs)

pub lexb_total : (xs ys : List ℕ) → lexb xs ys ≡ false → lexb ys xs ≡ true
lexb_total xs ys h = ground (arith, lt_of_gt xs ys)

pub lexb_trans : (xs ys zs : List ℕ) → lexb xs ys ≡ true → lexb ys zs ≡ true → lexb xs zs ≡ true
lexb_trans xs ys zs h k =
    ground (arith, eq_of_lex xs ys, eq_of_lex ys zs, lex_trans xs ys zs, lex_refl xs)

pub lexb_antisymm : (xs ys : List ℕ) → lexb xs ys ≡ true → lexb ys xs ≡ true → xs ≡ ys
lexb_antisymm xs ys h k = ground (arith, eq_of_lex xs ys, gt_of_lt xs ys)

-- `==` on byte strings
abbrev pub eq_bytes : List ℕ → List ℕ → Bool
eq_bytes xs ys = elim (lex xs ys) [ eq ↦ true | _ ↦ false ]

pub eq_bytes→eq : (xs ys : List ℕ) → eq_bytes xs ys ≡ true → xs ≡ ys
eq_bytes→eq xs ys h = ground (arith, eq_of_lex xs ys)

pub eq_bytes_refl : (xs : List ℕ) → eq_bytes xs xs ≡ true
eq_bytes_refl xs = ground (arith, lex_refl xs)
