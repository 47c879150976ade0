-- ===== src/Prelude/Sorted.antt =====
-- The last element of a sorted list has the greatest key.
use Prim.Native.Nat.{ℕ}
use mathlib.Core.Path.{◌≡◌, refl, sym, subst}
use mathlib.Core.Logic.{inl, inr}
use mathlib.Core.Bool.{Bool, true, false}
use mathlib.Core.Option.{some, some-injective}
use mathlib.Core.List.{List, [], ◌∷◌}
use onomancy.Prelude.Tests.{if◌then◌else◌}
use onomancy.Prelude.Lists.{In, last, last_or, last_or-In}
use onomancy.Prelude.Lex.{lexb, lexb_refl, lexb_trans, lexb_total}
use onomancy.Prelude.Sort.{insert, sort_by_key, In-insert}

module _ {ℓ} {A : Type ℓ} (key : A → List ℕ) where
  abbrev Below : A → A → Type 0
  Below a b = lexb (key a) (key b) ≡ true

  -- Every element is below those that follow it.
  abbrev pub IsSorted : List A → Type ℓ
  IsSorted [] = Unit
  IsSorted (x ∷ xs) = ((y : A) → In y xs → Below x y) × IsSorted xs

  insert-IsSorted : (a : A) (xs : List A) → IsSorted xs → IsSorted (insert key a xs)
  insert-IsSorted a [] s = (λ y m. elim m [ ], tt)
  insert-IsSorted a (x ∷ xs) s = split (insert-IsSorted a xs s.1) (lexb (key a) (key x)) refl
    where
      above_all : Below a x → (y : A) → In y (x ∷ xs) → Below a y
      above_all e y (inl q) = subst (λ z. Below a z) (sym q) e
      above_all e y (inr m) = lexb_trans (key a) (key x) (key y) e (s.0 y m)

      split :
          IsSorted (insert key a xs)
          → (t : Bool) → lexb (key a) (key x) ≡ t
          → IsSorted (if t then a ∷ x ∷ xs else x ∷ insert key a xs)
      split ih true e = (above_all e, s)
      split ih false e = (
        λ y m. elim (In-insert key y a xs m) [
          | inl q ↦ subst (λ z. Below x z) (sym q) (lexb_total (key a) (key x) e)
          | inr k ↦ s.0 y k
        ],
        ih,
      )

  pub sort-IsSorted : (xs : List A) → IsSorted (sort_by_key key xs)
  unfolding sort_by_key
  sort-IsSorted [] = tt
  sort-IsSorted (x ∷ xs) = insert-IsSorted x (sort_by_key key xs) (sort-IsSorted xs)

  last_or-greatest :
      (d : A) (xs : List A) → IsSorted (d ∷ xs) → (y : A) → In y (d ∷ xs) → Below y (last_or d xs)
  last_or-greatest d [] s y (inl e) = subst (λ z. Below z d) (sym e) (lexb_refl (key d))
  last_or-greatest d [] s y (inr m) = elim m [ ]
  last_or-greatest d (x ∷ xs) s y (inl e) =
      subst (λ z. Below z (last_or x xs)) (sym e) (s.0 (last_or x xs) (last_or-In x xs))
  last_or-greatest d (x ∷ xs) s y (inr m) = last_or-greatest x xs s.1 y m

  -- The last of a sorted list is one of its elements, and none has a greater key.
  pub last-greatest :
      (xs : List A) (m : A)
      → IsSorted xs
      → last xs ≡ some m
      → In m xs × ((y : A) → In y xs → Below y m)
  last-greatest [] m s e = cc e
  last-greatest (x ∷ xs) m s e =
      let same : last_or x xs ≡ m = some-injective _ _ e in
      (
        subst (λ z. In z (x ∷ xs)) same (last_or-In x xs),
        λ y k. subst (λ z. Below y z) same (last_or-greatest x xs s y k),
      )
