-- ===== src/Prelude/Maximal.antt =====
-- Under a strict order every element of a list is an undominated one or has one above it.
use Prim.Native.Nat.{ℕ, zero, suc, ◌≤◌, ◌<◌}
use mathlib.Core.Path.{◌≡◌, refl, sym, subst}
use mathlib.Core.Logic.{◌⊎◌, inl, inr}
use mathlib.Core.Bool.{Bool, true, false}
use mathlib.Core.List.{List, [], ◌∷◌}
use native.Mathlib.Omega.{arith}
use onomancy.Prelude.Tests.{Bool-cases}
use onomancy.Prelude.Lists.{In, length, filter, any, any-In}

module _ {ℓ} {A : Type ℓ} (p q : A → Bool) where
  length-filter_mono :
      (xs : List A)
      → ((a : A) → In a xs → p a ≡ true → q a ≡ true)
      → length (filter p xs) ≤ length (filter q xs)
  length-filter_mono [] h = omega arith
  length-filter_mono (x ∷ xs) h =
      let rest = length-filter_mono xs (λ a m. h a (inr m)) in
      let here = h x (inl refl) in
      elim (Bool-cases (p x)) [
        | inl e ↦ ground (arith, rest, here e)
        | inr e ↦ ground (arith, rest)
      ]

  -- A weaker test that also passes another element passes more of them.
  pub length-filter_lt :
      (xs : List A) (d : A)
      → ((a : A) → In a xs → p a ≡ true → q a ≡ true)
      → In d xs
      → p d ≡ false
      → q d ≡ true
      → length (filter p xs) < length (filter q xs)
  length-filter_lt [] d h m e f = elim m [ ]
  length-filter_lt (x ∷ xs) d h (inl k) e f =
      let rest = length-filter_mono xs (λ a m. h a (inr m)) in
      let e2 : p x ≡ false = subst (λ y. p y ≡ false) k e in
      let f2 : q x ≡ true = subst (λ y. q y ≡ true) k f in ground (arith, rest)
  length-filter_lt (x ∷ xs) d h (inr m) e f =
      let rest = length-filter_lt xs d (λ a n. h a (inr n)) m e f in
      let here = h x (inl refl) in
      elim (Bool-cases (p x)) [
        | inl e ↦ ground (arith, rest, here e)
        | inr e ↦ ground (arith, rest)
      ]

module _ {ℓ} {A : Type ℓ} (above : A → A → Bool) (xs : List A)
    (asym : (a b : A) → above a b ≡ true → above b a ≡ false)
    (trans : (a b c : A)
      → In a xs
      → In c xs
      → above a b ≡ true
      → above b c ≡ true
      → above a c ≡ true) where
  -- An element that nothing of the list is above, which is `a` or above `a`.
  pub record IsTop (a m : A) : Type ℓ where
    pub held : In m xs
    pub undominated : any (λ o. above o m) xs ≡ false
    pub reaches : (m ≡ a) ⊎ (above m a ≡ true)

  climb :
      (fuel : ℕ) (a : A)
      → In a xs
      → length (filter (λ o. above o a) xs) < fuel
      → (m : A) × IsTop a m
  climb zero a i lt = absurd (omega arith)
  climb (suc n) a i lt = elim (Bool-cases (any (λ o. above o a) xs)) [
    | inr e ↦ (a, record { held = i; undominated = e; reaches = inl refl })
    | inl e ↦
        let (d, m, q) = any-In (λ o. above o a) xs e in
        let fewer =
          length-filter_lt (λ o. above o d) (λ o. above o a) xs d (λ o k r. trans o d a k i r q) m
            (irrefl d) q in
        let (top, t) = climb n d m (omega (arith, fewer, lt)) in
        (
          top,
          record {
            held = t.held;
            undominated = t.undominated;
            reaches = inr (elim t.reaches [
              | inl same ↦ subst (λ y. above y a ≡ true) (sym same) q
              | inr r ↦ trans top d a t.held i r q
            ]);
          },
        )
  ]
    where
      irrefl : (d : A) → above d d ≡ false
      irrefl d = elim (Bool-cases (above d d)) [ inl e ↦ asym d d e | inr e ↦ e ]

  pub IsTop-above : (a : A) → In a xs → (m : A) × IsTop a m
  IsTop-above a i = climb (suc (length (filter (λ o. above o a) xs))) a i (omega arith)
