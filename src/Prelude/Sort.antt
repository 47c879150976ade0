-- ===== src/Prelude/Sort.antt =====
-- Sorting by a key of words, and what `sort_unstable` and `dedup` promise. The sort is written as
-- an insertion sort: what Rust leaves open, the order of equal keys, is fixed here by position.
use onomancy.Prelude.Tests.{if◌then◌else◌}
use onomancy.Prelude.Lists.{In}
use onomancy.Prelude.Lex.{lexb}
use Prim.Native.Nat.{ℕ}
use mathlib.Core.Path.{◌≡◌, refl}
use mathlib.Core.Logic.{◌⊎◌, inl, inr}
use mathlib.Core.Bool.{Bool, true, false}
use mathlib.Core.List.{List, [], ◌∷◌}

module _ {ℓ} {A : Type ℓ} where
  abbrev pub insert : (A → List ℕ) → A → List A → List A
  insert key a [] = a ∷ []
  insert key a (x ∷ xs) = if lexb (key a) (key x) then a ∷ x ∷ xs else x ∷ insert key a xs

  -- `sort_unstable_by_key`
  unfoldable pub sort_by_key : (A → List ℕ) → List A → List A
  sort_by_key key [] = []
  sort_by_key key (x ∷ xs) = insert key x (sort_by_key key xs)

  -- `dedup_by`: an element equal to the last one kept is dropped.
  unfoldable pub dedup_from : (A → A → Bool) → A → List A → List A
  dedup_from same a [] = []
  dedup_from same a (x ∷ xs) =
      let skip = dedup_from same a xs in
      let keep = x ∷ dedup_from same x xs in if same x a then skip else keep

  unfoldable pub dedup_by : (A → A → Bool) → List A → List A
  unfolding dedup_from
  dedup_by same [] = []
  dedup_by same (x ∷ xs) = x ∷ dedup_from same x xs

  pub In-insert :
      (key : A → List ℕ) (b a : A) (xs : List A) → In b (insert key a xs) → (b ≡ a) ⊎ In b xs
  In-insert key b a [] (inl e) = inl e
  In-insert key b a [] (inr m) = inr m
  In-insert key b a (x ∷ xs) m = split (In-insert key b a xs) (lexb (key a) (key x)) m
    where
      split :
          (In b (insert key a xs) → (b ≡ a) ⊎ In b xs)
          → (t : Bool) → In b (if t then a ∷ x ∷ xs else x ∷ insert key a xs)
          → (b ≡ a) ⊎ In b (x ∷ xs)
      split ih true k = k
      split ih false (inl e) = inr (inl e)
      split ih false (inr k) = elim (ih k) [ inl e ↦ inl e | inr n ↦ inr (inr n) ]

  insert-In :
      (key : A → List ℕ) (b a : A) (xs : List A) → (b ≡ a) ⊎ In b xs → In b (insert key a xs)
  insert-In key b a [] m = m
  insert-In key b a (x ∷ xs) m = split (insert-In key b a xs) (lexb (key a) (key x)) m
    where
      split :
          ((b ≡ a) ⊎ In b xs → In b (insert key a xs))
          → (t : Bool) → (b ≡ a) ⊎ In b (x ∷ xs)
          → In b (if t then a ∷ x ∷ xs else x ∷ insert key a xs)
      split ih true k = k
      split ih false (inl e) = inr (ih (inl e))
      split ih false (inr (inl e)) = inl e
      split ih false (inr (inr k)) = inr (ih (inr k))

  pub In-sort : (key : A → List ℕ) (b : A) (xs : List A) → In b (sort_by_key key xs) → In b xs
  unfolding sort_by_key
  In-sort key b [] m = m
  In-sort key b (x ∷ xs) m = elim (In-insert key b x (sort_by_key key xs) m) [
    | inl e ↦ inl e
    | inr k ↦ inr (In-sort key b xs k)
  ]

  pub sort-In : (key : A → List ℕ) (b : A) (xs : List A) → In b xs → In b (sort_by_key key xs)
  unfolding sort_by_key
  sort-In key b [] m = m
  sort-In key b (x ∷ xs) (inl e) = insert-In key b x (sort_by_key key xs) (inl e)
  sort-In key b (x ∷ xs) (inr k) = insert-In key b x (sort_by_key key xs) (inr (sort-In key b xs k))

  In-dedup_from :
      (same : A → A → Bool) (b a : A) (xs : List A) → In b (dedup_from same a xs) → In b xs
  unfolding dedup_from
  In-dedup_from same b a [] m = m
  In-dedup_from same b a (x ∷ xs) m =
      split (In-dedup_from same b a xs) (In-dedup_from same b x xs) (same x a) m
    where
      split :
          (In b (dedup_from same a xs) → In b xs)
          → (In b (dedup_from same x xs) → In b xs)
          → (t : Bool) → In b (if t then dedup_from same a xs else x ∷ dedup_from same x xs)
          → In b (x ∷ xs)
      split skip keep true k = inr (skip k)
      split skip keep false (inl e) = inl e
      split skip keep false (inr k) = inr (keep k)

  pub In-dedup : (same : A → A → Bool) (b : A) (xs : List A) → In b (dedup_by same xs) → In b xs
  unfolding dedup_by
  In-dedup same b [] m = m
  In-dedup same b (x ∷ xs) (inl e) = inl e
  In-dedup same b (x ∷ xs) (inr m) = inr (In-dedup_from same b x xs m)

  -- What `dedup` drops, it keeps in another element that it takes for the same.
  dedup_from-In :
      (same : A → A → Bool) (b a : A) (xs : List A)
      → In b xs
      → In b (dedup_from same a xs)
        ⊎ ((c : A) × In c (a ∷ dedup_from same a xs) × (same b c ≡ true))
  unfolding dedup_from
  dedup_from-In same b a [] m = elim m [ ]
  dedup_from-In same b a (x ∷ xs) m =
      split (dedup_from-In same b a xs) (dedup_from-In same b x xs) (same x a) refl m
    where
      split :
          (In b xs
            → In b (dedup_from same a xs)
              ⊎ ((c : A) × In c (a ∷ dedup_from same a xs) × (same b c ≡ true)))
          → (In b xs
              → In b (dedup_from same x xs)
                ⊎ ((c : A) × In c (x ∷ dedup_from same x xs) × (same b c ≡ true)))
          → (t : Bool) → same x a ≡ t
          → In b (x ∷ xs)
          → In b (if t then dedup_from same a xs else x ∷ dedup_from same x xs)
            ⊎ ((c : A) × In c (a ∷ (if t then dedup_from same a xs else x ∷ dedup_from same x xs))
                × (same b c ≡ true))
      split skip keep true e (inl q) = inr (a, inl refl, rw q e)
      split skip keep true e (inr k) = skip k
      split skip keep false e (inl q) = inl (inl q)
      split skip keep false e (inr k) = elim (keep k) [
        | inl n ↦ inl (inr n)
        | inr (c, n, s) ↦ inr (c, inr n, s)
      ]

  pub dedup-In :
      (same : A → A → Bool) (b : A) (xs : List A)
      → In b xs
      → In b (dedup_by same xs) ⊎ ((c : A) × In c (dedup_by same xs) × (same b c ≡ true))
  unfolding dedup_by
  dedup-In same b [] m = elim m [ ]
  dedup-In same b (x ∷ xs) (inl e) = inl (inl e)
  dedup-In same b (x ∷ xs) (inr m) = elim (dedup_from-In same b x xs m) [
    | inl n ↦ inl (inr n)
    | inr (c, n, s) ↦ inr (c, n, s)
  ]
