-- ===== src/Prelude/Extremes.antt =====
-- `max_by_key`, `min_by_key`: of equal keys the last maximum and the first minimum win.
use onomancy.Prelude.Tests.{if◌then◌else◌}
use onomancy.Prelude.Lists.{In}
use onomancy.Prelude.Lex.{lexb, lexb_refl, lexb_trans, lexb_total}
use Prim.Native.Nat.{ℕ}
use mathlib.Core.Path.{◌≡◌, refl, subst}
use mathlib.Core.Logic.{inl, inr}
use mathlib.Core.Bool.{Bool, true, false}
use mathlib.Core.Option.{Option, none, some, some-injective}
use mathlib.Core.List.{List, [], ◌∷◌}

module _ {ℓ} {A : Type ℓ} (key : A → List ℕ) where
  max_from : A → List A → A
  max_from best [] = best
  max_from best (x ∷ xs) = max_from (if lexb (key best) (key x) then x else best) xs

  unfoldable pub max_by_key : List A → Option A
  unfolding max_from
  max_by_key [] = none
  max_by_key (x ∷ xs) = some (max_from x xs)

  min_from : A → List A → A
  min_from best [] = best
  min_from best (x ∷ xs) = min_from (if lexb (key best) (key x) then best else x) xs

  unfoldable pub min_by_key : List A → Option A
  unfolding min_from
  min_by_key [] = none
  min_by_key (x ∷ xs) = some (min_from x xs)

  max_from-In : (best : A) (xs : List A) → In (max_from best xs) (best ∷ xs)
  unfolding max_from
  max_from-In best [] = inl refl
  max_from-In best (x ∷ xs) =
      pick (lexb (key best) (key x)) (max_from-In (if lexb (key best) (key x) then x else best) xs)
    where
      pick :
          (t : Bool)
          → In (max_from (if t then x else best) xs) ((if t then x else best) ∷ xs)
          → In (max_from (if t then x else best) xs) (best ∷ x ∷ xs)
      pick true m = inr m
      pick false (inl e) = inl e
      pick false (inr m) = inr (inr m)

  max_from-ge :
      (best : A) (xs : List A) (a : A)
      → In a (best ∷ xs)
      → lexb (key a) (key (max_from best xs)) ≡ true
  unfolding max_from
  max_from-ge best [] a (inl e) = rw e (lexb_refl (key best))
  max_from-ge best [] a (inr m) = elim m [ ]
  max_from-ge best (x ∷ xs) a m =
      pick (lexb (key best) (key x)) refl
        (max_from-ge (if lexb (key best) (key x) then x else best) xs) m
    where
      pick :
          (t : Bool)
          → lexb (key best) (key x) ≡ t
          → ((b : A)
              → In b ((if t then x else best) ∷ xs)
              → lexb (key b) (key (max_from (if t then x else best) xs)) ≡ true)
          → In a (best ∷ x ∷ xs)
          → lexb (key a) (key (max_from (if t then x else best) xs)) ≡ true
      pick true e ih (inl q) =
          rw q (lexb_trans (key best) (key x) (key (max_from x xs)) e (ih x (inl refl)))
      pick true e ih (inr k) = ih a k
      pick false e ih (inl q) = ih a (inl q)
      pick false e ih (inr (inl q)) = rw q (
          lexb_trans (key x) (key best) (key (max_from best xs)) (lexb_total (key best) (key x) e)
            (ih best (inl refl)))
      pick false e ih (inr (inr k)) = ih a (inr k)

  -- The maximum is an element, and no element passes it.
  pub max_by_key-some :
      (xs : List A) (b : A)
      → max_by_key xs ≡ some b
      → In b xs × ((a : A) → In a xs → lexb (key a) (key b) ≡ true)
  unfolding max_by_key
  max_by_key-some [] b h = cc
  max_by_key-some (x ∷ xs) b h =
      let e = some-injective _ _ h in
      (subst (λ c. In c (x ∷ xs)) e (max_from-In x xs), λ a m. rw (← e) (max_from-ge x xs a m))

  pub max_by_key-none : (xs : List A) → max_by_key xs ≡ none → xs ≡ []
  unfolding max_by_key
  max_by_key-none [] h = refl
  max_by_key-none (x ∷ xs) h = cc

  min_from-In : (best : A) (xs : List A) → In (min_from best xs) (best ∷ xs)
  unfolding min_from
  min_from-In best [] = inl refl
  min_from-In best (x ∷ xs) =
      pick (lexb (key best) (key x)) (min_from-In (if lexb (key best) (key x) then best else x) xs)
    where
      pick :
          (t : Bool)
          → In (min_from (if t then best else x) xs) ((if t then best else x) ∷ xs)
          → In (min_from (if t then best else x) xs) (best ∷ x ∷ xs)
      pick false m = inr m
      pick true (inl e) = inl e
      pick true (inr m) = inr (inr m)

  min_from-le :
      (best : A) (xs : List A) (a : A)
      → In a (best ∷ xs)
      → lexb (key (min_from best xs)) (key a) ≡ true
  unfolding min_from
  min_from-le best [] a (inl e) = rw e (lexb_refl (key best))
  min_from-le best [] a (inr m) = elim m [ ]
  min_from-le best (x ∷ xs) a m =
      pick (lexb (key best) (key x)) refl
        (min_from-le (if lexb (key best) (key x) then best else x) xs) m
    where
      pick :
          (t : Bool)
          → lexb (key best) (key x) ≡ t
          → ((b : A)
              → In b ((if t then best else x) ∷ xs)
              → lexb (key (min_from (if t then best else x) xs)) (key b) ≡ true)
          → In a (best ∷ x ∷ xs)
          → lexb (key (min_from (if t then best else x) xs)) (key a) ≡ true
      pick true e ih (inl q) = ih a (inl q)
      pick true e ih (inr (inl q)) =
          rw q (lexb_trans (key (min_from best xs)) (key best) (key x) (ih best (inl refl)) e)
      pick true e ih (inr (inr k)) = ih a (inr k)
      pick false e ih (inl q) = rw q (
          lexb_trans (key (min_from x xs)) (key x) (key best) (ih x (inl refl))
            (lexb_total (key best) (key x) e))
      pick false e ih (inr k) = ih a k

  -- The minimum is an element, and passes no element.
  pub min_by_key-some :
      (xs : List A) (b : A)
      → min_by_key xs ≡ some b
      → In b xs × ((a : A) → In a xs → lexb (key b) (key a) ≡ true)
  unfolding min_by_key
  min_by_key-some [] b h = cc
  min_by_key-some (x ∷ xs) b h =
      let e = some-injective _ _ h in
      (subst (λ c. In c (x ∷ xs)) e (min_from-In x xs), λ a m. rw (← e) (min_from-le x xs a m))

  pub min_by_key-none : (xs : List A) → min_by_key xs ≡ none → xs ≡ []
  unfolding min_by_key
  min_by_key-none [] h = refl
  min_by_key-none (x ∷ xs) h = cc
