-- ===== src/Prelude/Lists.antt =====
-- Lists and iterator adaptors over Boolean tests, in the order in which Rust's iterators run.
use Prim.Native.Nat.{ℕ, zero, suc, ◌+◌, ◌≤◌}
use mathlib.Core.Path.{◌≡◌, refl, ap, sym, subst}
use mathlib.Core.Logic.{◌⊎◌, inl, inr}
use mathlib.Core.Bool.{Bool, true, false, ◌&&◌, ◌||◌}
use mathlib.Core.Option.{Option, none, some, some-injective}
use mathlib.Core.List.{List, [], ◌∷◌, ◌++◌, map}
use native.Mathlib.Omega.{arith}
use onomancy.Prelude.Tests.{◌==◌, if◌then◌else◌, Bool-cases, eqb→eq, eqb_refl, or-true, and-true}

-- The empty type at any level.
pub data Never {ℓ} : Type ℓ where

module _ {ℓ} {A : Type ℓ} where
  abbrev pub length : List A → ℕ
  length [] = 0
  length (x ∷ xs) = suc (length xs)

  -- `iter().filter(p)`
  abbrev pub filter : (A → Bool) → List A → List A
  filter p [] = []
  filter p (x ∷ xs) = if p x then x ∷ filter p xs else filter p xs

  -- `iter().any(p)`
  abbrev pub any : (A → Bool) → List A → Bool
  any p [] = false
  any p (x ∷ xs) = p x || any p xs

  -- `iter().all(p)`
  abbrev pub all : (A → Bool) → List A → Bool
  all p [] = true
  all p (x ∷ xs) = p x && all p xs

  -- `iter().find(p)`
  abbrev pub find : (A → Bool) → List A → Option A
  find p [] = none
  find p (x ∷ xs) = if p x then some x else find p xs

  -- `first()`
  abbrev pub first : List A → Option A
  first [] = none
  first (x ∷ xs) = some x

  -- `last()`, with a default
  abbrev pub last_or : A → List A → A
  last_or d [] = d
  last_or d (x ∷ xs) = last_or x xs

  -- `last()`
  abbrev pub last : List A → Option A
  last [] = none
  last (x ∷ xs) = some (last_or x xs)

  -- `get(..n)` and `get(n..)`
  abbrev pub take : ℕ → List A → List A
  take zero xs = []
  take (suc n) [] = []
  take (suc n) (x ∷ xs) = x ∷ take n xs

  abbrev pub drop : ℕ → List A → List A
  drop zero xs = xs
  drop (suc n) [] = []
  drop (suc n) (x ∷ xs) = drop n xs

  -- Membership that computes to a disjunction.
  abbrev pub In : A → List A → Type ℓ
  In a [] = Never
  In a (x ∷ xs) = (a ≡ x) ⊎ In a xs

  pub In-append_left : (a : A) (xs ys : List A) → In a xs → In a (xs ++ ys)
  In-append_left a [] ys h = elim h [ ]
  In-append_left a (x ∷ xs) ys (inl e) = inl e
  In-append_left a (x ∷ xs) ys (inr h) = inr (In-append_left a xs ys h)

  pub In-append_right : (a : A) (xs ys : List A) → In a ys → In a (xs ++ ys)
  In-append_right a [] ys h = h
  In-append_right a (x ∷ xs) ys h = inr (In-append_right a xs ys h)

  pub In-append : (a : A) (xs ys : List A) → In a (xs ++ ys) → In a xs ⊎ In a ys
  In-append a [] ys h = inr h
  In-append a (x ∷ xs) ys (inl e) = inl (inl e)
  In-append a (x ∷ xs) ys (inr h) = elim (In-append a xs ys h) [
    | inl l ↦ inl (inr l)
    | inr r ↦ inr r
  ]

  pub length-append : (xs ys : List A) → length (xs ++ ys) ≡ length xs + length ys
  length-append [] ys = omega arith
  length-append (x ∷ xs) ys = omega (arith, length-append xs ys)

  pub length-drop : (n : ℕ) (xs : List A) → n ≤ length xs → length (drop n xs) + n ≡ length xs
  length-drop zero xs h = omega arith
  length-drop (suc n) [] h = absurd (omega arith)
  length-drop (suc n) (x ∷ xs) h = omega (arith, length-drop n xs)

  pub length-filter : (p : A → Bool) (xs : List A) → length (filter p xs) ≤ length xs
  length-filter p [] = omega arith
  length-filter p (x ∷ xs) = ground (arith, length-filter p xs)

module _ {ℓ} {A : Type ℓ} where
  pub In-filter : (p : A → Bool) (a : A) (xs : List A) → In a (filter p xs) → In a xs × (p a ≡ true)
  In-filter p a [] h = elim h [ ]
  In-filter p a (x ∷ xs) h = split (In-filter p a xs) (p x) refl h
    where
      split :
          (In a (filter p xs) → In a xs × (p a ≡ true))
          → (b : Bool) → p x ≡ b
          → In a (if b then x ∷ filter p xs else filter p xs)
          → In a (x ∷ xs) × (p a ≡ true)
      split ih true e (inl q) = (inl q, rw q e)
      split ih true e (inr k) = (inr (ih k).0, (ih k).1)
      split ih false e k = (inr (ih k).0, (ih k).1)

  pub filter-In : (p : A → Bool) (a : A) (xs : List A) → In a xs → p a ≡ true → In a (filter p xs)
  filter-In p a [] h q = elim h [ ]
  filter-In p a (x ∷ xs) h q = split (λ k. filter-In p a xs k q) (p x) refl h
    where
      split :
          (In a xs → In a (filter p xs))
          → (b : Bool) → p x ≡ b
          → (a ≡ x) ⊎ In a xs
          → In a (if b then x ∷ filter p xs else filter p xs)
      split ih true e (inl r) = inl r
      split ih true e (inr k) = inr (ih k)
      split ih false e (inl r) = cc (ap p r)
      split ih false e (inr k) = ih k

  -- A passed `any` has a witness.
  pub any-In : (p : A → Bool) (xs : List A) → any p xs ≡ true → (a : A) × In a xs × (p a ≡ true)
  any-In p [] h = cc
  any-In p (x ∷ xs) h = elim (or-true (p x) (any p xs) h) [
    | inl e ↦ (x, inl refl, e)
    | inr k ↦ (let (a, m, q) = any-In p xs k in (a, inr m, q))
  ]

  pub In-any : (p : A → Bool) (a : A) (xs : List A) → In a xs → p a ≡ true → any p xs ≡ true
  In-any p a [] h q = elim h [ ]
  In-any p a (x ∷ xs) (inl e) q = let e' : p x ≡ true = rw (← e) q in rw e' refl
  In-any p a (x ∷ xs) (inr k) q = ground (arith, In-any p a xs k q)

  pub any-false : (p : A → Bool) (a : A) (xs : List A) → any p xs ≡ false → In a xs → p a ≡ false
  any-false p a xs h m = elim (Bool-cases (p a)) [ inl e ↦ cc (In-any p a xs m e) | inr e ↦ e ]

  pub all-In : (p : A → Bool) (a : A) (xs : List A) → all p xs ≡ true → In a xs → p a ≡ true
  all-In p a [] h m = elim m [ ]
  all-In p a (x ∷ xs) h (inl e) = rw e (and-true (p x) (all p xs) h).0
  all-In p a (x ∷ xs) h (inr k) = all-In p a xs (and-true (p x) (all p xs) h).1 k

  pub find-some : (p : A → Bool) (xs : List A) {a : A} → find p xs ≡ some a → In a xs × (p a ≡ true)
  find-some p [] h = cc
  find-some p (x ∷ xs) {a} h = split (λ k. find-some p xs {a = a} k) (p x) refl h
    where
      split :
          (find p xs ≡ some a → In a xs × (p a ≡ true))
          → (b : Bool) → p x ≡ b
          → (if b then some x else find p xs) ≡ some a
          → In a (x ∷ xs) × (p a ≡ true)
      split ih true e k = let q : x ≡ a = some-injective _ _ k in (inl (sym q), rw (← q) e)
      split ih false e k = (inr (ih k).0, (ih k).1)

  pub find-none : (p : A → Bool) (a : A) (xs : List A) → find p xs ≡ none → In a xs → p a ≡ false
  find-none p a [] h m = elim m [ ]
  find-none p a (x ∷ xs) h m = split (find-none p a xs) (p x) refl h m
    where
      split :
          (find p xs ≡ none → In a xs → p a ≡ false)
          → (b : Bool) → p x ≡ b
          → (if b then some x else find p xs) ≡ none
          → (a ≡ x) ⊎ In a xs
          → p a ≡ false
      split ih true e k n = cc k
      split ih false e k (inl q) = rw q e
      split ih false e k (inr n) = ih k n

  pub last_or-In : (d : A) (xs : List A) → In (last_or d xs) (d ∷ xs)
  last_or-In d [] = inl refl
  last_or-In d (x ∷ xs) = inr (last_or-In x xs)

-- Membership in a list of numbers, `contains`.
abbrev pub elem : ℕ → List ℕ → Bool
elem a xs = any (λ x. a == x) xs

pub elem-In : (a : ℕ) (xs : List ℕ) → elem a xs ≡ true → In a xs
elem-In a xs h = let (x, m, q) = any-In (λ x. a == x) xs h in rw (eqb→eq a x q) m

pub In-elem : (a : ℕ) (xs : List ℕ) → In a xs → elem a xs ≡ true
In-elem a xs m = In-any (λ x. a == x) a xs m (eqb_refl a)

pub In-map {ℓ κ} :
    {A : Type ℓ} {B : Type κ} (f : A → B) (a : A) (xs : List A) → In a xs → In (f a) (map f xs)
In-map f a [] m = elim m [ ]
In-map f a (x ∷ xs) (inl e) = inl (ap f e)
In-map f a (x ∷ xs) (inr k) = inr (In-map f a xs k)

pub map-In {ℓ κ} :
    {A : Type ℓ} {B : Type κ} (f : A → B) (b : B) (xs : List A)
    → In b (map f xs)
    → (a : A) × In a xs × (b ≡ f a)
map-In f b [] m = elim m [ ]
map-In f b (x ∷ xs) (inl e) = (x, inl refl, e)
map-In f b (x ∷ xs) (inr k) = let (a, m, q) = map-In f b xs k in (a, inr m, q)

-- `iter().filter_map(f)`
abbrev pub filter_map {ℓ κ} : {A : Type ℓ} {B : Type κ} → (A → Option B) → List A → List B
filter_map f [] = []
filter_map f (x ∷ xs) = elim (f x) [ none ↦ filter_map f xs | some y ↦ y ∷ filter_map f xs ]

pub filter_map-In {ℓ κ} :
    {A : Type ℓ} {B : Type κ} (f : A → Option B) (b : B) (xs : List A)
    → In b (filter_map f xs)
    → (a : A) × In a xs × (f a ≡ some b)
filter_map-In f b [] m = elim m [ ]
filter_map-In {A} {B} f b (x ∷ xs) m = split (filter_map-In f b xs) (f x) refl m
  where
    split :
        (In b (filter_map f xs) → (a : A) × In a xs × (f a ≡ some b))
        → (o : Option B) → f x ≡ o
        → In b (elim o [ none ↦ filter_map f xs | some y ↦ y ∷ filter_map f xs ])
        → (a : A) × In a (x ∷ xs) × (f a ≡ some b)
    split ih none e k = let (a, n, q) = ih k in (a, inr n, q)
    split ih (some y) e (inl q) = (x, inl refl, subst (λ z. f x ≡ some z) (sym q) e)
    split ih (some y) e (inr k) = let (a, n, q) = ih k in (a, inr n, q)

pub In-filter_map {ℓ κ} :
    {A : Type ℓ} {B : Type κ} (f : A → Option B) (a : A) (b : B) (xs : List A)
    → In a xs
    → f a ≡ some b
    → In b (filter_map f xs)
In-filter_map f a b [] m q = elim m [ ]
In-filter_map {A} {B} f a b (x ∷ xs) m q = split (λ k. In-filter_map f a b xs k q) (f x) refl m
  where
    split :
        (In a xs → In b (filter_map f xs))
        → (o : Option B) → f x ≡ o
        → (a ≡ x) ⊎ In a xs
        → In b (elim o [ none ↦ filter_map f xs | some y ↦ y ∷ filter_map f xs ])
    split ih none e (inl r) = cc (ap f r)
    split ih none e (inr k) = ih k
    split ih (some y) e (inl r) = inl (some-injective _ _ (cc (ap f r)))
    split ih (some y) e (inr k) = inr (ih k)
