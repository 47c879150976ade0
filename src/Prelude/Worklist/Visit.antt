-- ===== src/Prelude/Worklist/Visit.antt =====
-- One round of the walk.
use Prim.Native.Nat.{ℕ, ◌+◌, ◌≤◌}
use mathlib.Core.Path.{◌≡◌, refl, sym, ap, subst}
use mathlib.Core.Logic.{◌⊎◌, inl, inr}
use mathlib.Core.Bool.{Bool, true, false, not, ◌&&◌}
use mathlib.Core.Option.{Option, none, some, some-injective}
use mathlib.Core.List.{List, [], ◌∷◌}
use native.Mathlib.Omega.{arith}
use onomancy.Prelude.Tests.{◌==◌, if◌then◌else◌, eqb→eq, eqb_refl, and-true}
use onomancy.Prelude.Lists.{elem, length, In, elem-In}
use onomancy.Prelude.Worklist.{Walk, leaves, push, visit}

module _ {E : Type 0} (from to : E → ℕ) (live : E → Bool) where
  -- An edge of the list leads from one key to the other.
  pub record Hop (es : List E) (key end : ℕ) : Type 0 where
    pub edge : E
    pub held : In edge es
    pub is_live : live edge ≡ true
    pub leaves_key : from edge ≡ key
    pub arrives : to edge ≡ end

  pub Hop-weaken : (e : E) (es : List E) {k s : ℕ} → Hop es k s → Hop (e ∷ es) k s
  Hop-weaken e es hop = record {
    edge = hop.edge;
    held = inr hop.held;
    is_live = hop.is_live;
    leaves_key = hop.leaves_key;
    arrives = hop.arrives;
  }

  -- The edges whose end is not reached yet.
  abbrev pub unreached : List E → List ℕ → ℕ
  unreached [] reached = 0
  unreached (e ∷ es) reached = (if elem (to e) reached then 0 else 1) + unreached es reached

  unreached_mono :
      (es : List E) (reached : List ℕ) (s : ℕ) → unreached es (s ∷ reached) ≤ unreached es reached
  unreached_mono [] reached s = omega arith
  unreached_mono (e ∷ es) reached s = ground (arith, unreached_mono es reached s)

  unreached_drop :
      (es : List E) (reached : List ℕ) (e : E)
      → In e es
      → elem (to e) reached ≡ false
      → unreached es (to e ∷ reached) + 1 ≤ unreached es reached
  unreached_drop [] reached e m n = elim m [ ]
  unreached_drop (x ∷ es) reached e (inl q) n =
      ground (arith, ap to q, unreached_mono es reached (to e), eqb_refl (to e))
  unreached_drop (x ∷ es) reached e (inr k) n = ground (arith, unreached_drop es reached e k n)

  -- What a step or a pass over some of the edges leaves behind.
  pub record Visited (all : List E) (key : ℕ) (w w' : Walk) : Type 0 where
    pub keeps : (x : ℕ) → In x w.reached → In x w'.reached
    pub keeps_frontier : (x : ℕ) → In x w.frontier → In x w'.frontier
    pub adds : (x : ℕ) → In x w'.reached → In x w.reached ⊎ Hop all key x
    pub adds_frontier : (x : ℕ) → In x w'.frontier → In x w.frontier ⊎ Hop all key x
    pub queued : (x : ℕ) → In x w'.reached → In x w.reached ⊎ In x w'.frontier
    pub cost :
        length w'.frontier + unreached all w'.reached ≤ length w.frontier + unreached all w.reached

  Visited-refl : (all : List E) (key : ℕ) (w : Walk) → Visited all key w w
  Visited-refl all key w = record {
    keeps = λ x m. m;
    keeps_frontier = λ x m. m;
    adds = λ x m. inl m;
    adds_frontier = λ x m. inl m;
    queued = λ x m. inl m;
    cost = omega arith;
  }

  Visited-trans :
      (all : List E) (key : ℕ) (w w' w'' : Walk)
      → Visited all key w w'
      → Visited all key w' w''
      → Visited all key w w''
  Visited-trans all key w w' w'' p q = record {
    keeps = λ x m. q.keeps x (p.keeps x m);
    keeps_frontier = λ x m. q.keeps_frontier x (p.keeps_frontier x m);
    adds = λ x m. elim (q.adds x m) [ inl k ↦ p.adds x k | inr k ↦ inr k ];
    adds_frontier =
        λ x m. elim (q.adds_frontier x m) [ inl k ↦ p.adds_frontier x k | inr k ↦ inr k ];
    queued = λ x m. elim (q.queued x m) [
      | inl k ↦ (elim (p.queued x k) [ inl n ↦ inl n | inr n ↦ inr (q.keeps_frontier x n) ])
      | inr k ↦ inr k
    ];
    cost = omega (arith, p.cost, q.cost);
  }

  leaves-Hop :
      (all : List E) (key : ℕ) (e : E)
      → In e all
      → leaves from to live key e ≡ true
      → Hop all key (to e)
  leaves-Hop all key e m t =
      let (l, k) = and-true (live e) (from e == key) t in
      record { edge = e; held = m; is_live = l; leaves_key = eqb→eq (from e) key k; arrives = refl }

  push-Visited :
      (all : List E) (key : ℕ) (e : E) (w : Walk)
      → In e all
      → Visited all key w (push from to live key e w)
        × (leaves from to live key e ≡ true → In (to e) (push from to live key e w).reached)
  push-Visited all key e w m = split (leaves from to live key e) (elem (to e) w.reached) refl refl
    where
      after : Bool → Bool → Walk
      after l k =
          if l && not k
          then record { reached = to e ∷ w.reached; frontier = to e ∷ w.frontier }
          else w

      split :
          (l k : Bool)
          → leaves from to live key e ≡ l
          → elem (to e) w.reached ≡ k
          → Visited all key w (after l k) × (l ≡ true → In (to e) (after l k).reached)
      split false false el ek = (Visited-refl all key w, λ c. cc c)
      split false true el ek = (Visited-refl all key w, λ c. cc c)
      split true true el ek = (Visited-refl all key w, λ c. elem-In (to e) w.reached ek)
      split true false el ek = (
        record {
          keeps = λ x n. inr n;
          keeps_frontier = λ x n. inr n;
          adds = λ x n. elim n [
            | inl q ↦ inr (subst (Hop all key) (sym q) (leaves-Hop all key e m el))
            | inr k ↦ inl k
          ];
          adds_frontier = λ x n. elim n [
            | inl q ↦ inr (subst (Hop all key) (sym q) (leaves-Hop all key e m el))
            | inr k ↦ inl k
          ];
          queued = λ x n. elim n [ inl q ↦ inr (inl q) | inr k ↦ inl k ];
          cost = omega (arith, unreached_drop all w.reached e m ek);
        },
        λ c. inl refl,
      )

module _ {E : Type 0} (from to : E → ℕ) (live : E → Bool) (wanted : ℕ → Bool) where
  -- A pass that meets a wanted key has a hop to it.
  pub visit-none :
      (all es : List E) (key : ℕ) (w : Walk)
      → ((e : E) → In e es → In e all)
      → visit from to live wanted es key w ≡ none
      → (s : ℕ) × Hop from to live all key s × (wanted s ≡ true)
  unfolding visit
  visit-none all [] key w sub h = cc h
  visit-none all (e ∷ es) key w sub h =
      split (visit-none all es key (push from to live key e w) (λ x m. sub x (inr m)))
        (leaves from to live key e && wanted (to e)) refl h
    where
      next : Option Walk
      next = visit from to live wanted es key (push from to live key e w)

      split :
          (next ≡ none → (s : ℕ) × Hop from to live all key s × (wanted s ≡ true))
          → (b : Bool) → (leaves from to live key e && wanted (to e)) ≡ b
          → (if b then none else next) ≡ none
          → (s : ℕ) × Hop from to live all key s × (wanted s ≡ true)
      split ih true t k =
          let (l, wt) = and-true (leaves from to live key e) (wanted (to e)) t in
          (to e, leaves-Hop from to live all key e (sub e (inl refl)) l, wt)
      split ih false t k = ih k

  -- A pass that meets none has reached every end of a hop from the key, and none is wanted.
  pub visit-some :
      (all es : List E) (key : ℕ) (w w' : Walk)
      → ((e : E) → In e es → In e all)
      → visit from to live wanted es key w ≡ some w'
      → Visited from to live all key w w'
        × ((e : E)
            → In e es
            → leaves from to live key e ≡ true
            → In (to e) w'.reached × (wanted (to e) ≡ false))
  unfolding visit
  visit-some all [] key w w' sub h = (
    subst (Visited from to live all key w) (some-injective _ _ h)
        (Visited-refl from to live all key w),
    λ e m. elim m [ ],
  )
  visit-some all (e ∷ es) key w w' sub h =
      split (visit-some all es key (push from to live key e w) w' (λ x m. sub x (inr m)))
        (leaves from to live key e && wanted (to e)) refl h
    where
      mid : Walk
      mid = push from to live key e w

      next : Option Walk
      next = visit from to live wanted es key mid

      Good : List E → Walk → Type 0
      Good l v =
          Visited from to live all key v w'
          × ((x : E)
              → In x l
              → leaves from to live key x ≡ true
              → In (to x) w'.reached × (wanted (to x) ≡ false))

      split :
          (next ≡ some w' → Good es mid)
          → (b : Bool) → (leaves from to live key e && wanted (to e)) ≡ b
          → (if b then none else next) ≡ some w'
          → Good (e ∷ es) w
      split ih true t k = cc k
      split ih false t k =
          let (rest, all_done) = ih k in
          let (one, here) = push-Visited from to live all key e w (sub e (inl refl)) in
          (
            Visited-trans from to live all key w mid w' one rest,
            λ x m l. elim m [
              | inl q ↦
                  let l' : leaves from to live key e ≡ true =
                    subst (λ y. leaves from to live key y ≡ true) q l in
                  (
                    subst (λ y. In (to y) w'.reached) (sym q) (rest.keeps (to e) (here l')),
                    subst (λ y. wanted (to y) ≡ false) (sym q) (ground arith),
                  )
              | inr n ↦ all_done x n l
            ],
          )
