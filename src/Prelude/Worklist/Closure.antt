-- ===== src/Prelude/Worklist/Closure.antt =====
-- The whole walk: with enough fuel it stops at a wanted key exactly when one is ahead, and
-- otherwise reaches exactly the reachable keys.
use Prim.Native.Nat.{ℕ, zero, suc, ◌+◌, ◌≤◌, ◌<◌}
use mathlib.Core.Path.{◌≡◌, refl, sym, ap, subst}
use mathlib.Core.Logic.{◌⊎◌, ◌↔◌, inl, inr}
use mathlib.Core.Bool.{Bool, true, false}
use mathlib.Core.Option.{Option, none, some, some-injective}
use mathlib.Core.List.{List, [], ◌∷◌}
use native.Mathlib.Omega.{arith}
use onomancy.Prelude.Tests.{eqb_refl}
use onomancy.Prelude.Lists.{length, In}
use onomancy.Prelude.Worklist.{Walk, leaves, visit, drain, enough}
use onomancy.Prelude.Worklist.Visit.{Hop, unreached, visit-none, visit-some}

module _ {E : Type 0} (from to : E → ℕ) (live : E → Bool) where
  -- A key is reachable from the starts by hops along the edges.
  pub data Reachable (es : List E) (starts : List ℕ) : ℕ → Type 0 where
    start : {k : ℕ} → In k starts → Reachable es starts k
    hop : {k s : ℕ} → Reachable es starts k → Hop from to live es k s → Reachable es starts s

  pub unreached-le :
      (es : List E) (reached : List ℕ) → unreached from to live es reached ≤ length es
  unreached-le [] reached = omega arith
  unreached-le (e ∷ es) reached = ground (arith, unreached-le es reached)

module _ {E : Type 0} (from to : E → ℕ) (live : E → Bool) (wanted : ℕ → Bool) (es : List E) where
  -- A wanted key one hop beyond a reachable one.
  pub record Ahead (starts : List ℕ) : Type 0 where
    pub key : ℕ
    pub end : ℕ
    pub reachable : Reachable from to live es starts key
    pub last_hop : Hop from to live es key end
    pub is_wanted : wanted end ≡ true

  -- Every hop from the key ends at a reached key that is not wanted.
  abbrev IsDone : List ℕ → ℕ → Type 0
  IsDone reached key =
      (e : E)
      → In e es
      → leaves from to live key e ≡ true
      → In (to e) reached × (wanted (to e) ≡ false)

  module _ (starts : List ℕ) where
    drain-none :
        (fuel : ℕ) (reached frontier : List ℕ)
        → ((x : ℕ) → In x frontier → Reachable from to live es starts x)
        → drain from to live wanted fuel es reached frontier ≡ none
        → Ahead starts
    unfolding drain
    drain-none zero reached frontier r h = cc h
    drain-none (suc fuel) reached [] r h = cc h
    drain-none (suc fuel) reached (key ∷ frontier) r h =
        split (λ w g e. drain-none fuel w.reached w.frontier g e)
          (visit from to live wanted es key w₀) refl h
      where
        w₀ : Walk
        w₀ = record { reached = reached; frontier = frontier }

        split :
            ((w : Walk)
              → ((x : ℕ) → In x w.frontier → Reachable from to live es starts x)
              → drain from to live wanted fuel es w.reached w.frontier ≡ none
              → Ahead starts)
            → (o : Option Walk) → visit from to live wanted es key w₀ ≡ o
            → (elim o [
              | none ↦ none
              | some w ↦ drain from to live wanted fuel es w.reached w.frontier
            ])
              ≡ none
            → Ahead starts
        split ih none e k =
            let (s, hp, wt) = visit-none from to live wanted es es key w₀ (λ x m. m) e in
            record {
              key = key;
              end = s;
              reachable = r key (inl refl);
              last_hop = hp;
              is_wanted = wt;
            }
        split ih (some w) e k =
            let (v, _) = visit-some from to live wanted es es key w₀ w (λ x m. m) e in
            ih w
              (λ x m. elim (v.adds_frontier x m) [
                | inl n ↦ r x (inr n)
                | inr hp ↦ hop (r key (inl refl)) hp
              ])
              k

    -- What holds of the two vectors at the head of the loop.
    record Invariant (reached frontier : List ℕ) : Type 0 where
      sound : (x : ℕ) → In x reached → Reachable from to live es starts x
      queued : (x : ℕ) → In x frontier → In x reached
      closed : (x : ℕ) → In x reached → In x frontier ⊎ IsDone reached x

    -- What holds of the keys reached at the end.
    pub record IsClosure (reached : List ℕ) : Type 0 where
      pub sound : (x : ℕ) → In x reached → Reachable from to live es starts x
      pub closed : (x : ℕ) → In x reached → IsDone reached x

    visited-Invariant :
        (key : ℕ) (reached frontier : List ℕ) (w : Walk)
        → visit from to live wanted es key (record { reached = reached; frontier = frontier })
          ≡ some w
        → Invariant reached (key ∷ frontier)
        → Invariant w.reached w.frontier
          × (length w.frontier + unreached from to live es w.reached
              ≤ length frontier + unreached from to live es reached)
          × ((x : ℕ) → In x reached → In x w.reached)
    visited-Invariant key reached frontier w e i =
        let (v, fin) = visit-some from to live wanted es es key _ w (λ x m. m) e in
        (
          record {
            sound = λ x m. elim (v.adds x m) [
              | inl n ↦ i.sound x n
              | inr hp ↦ hop (i.sound key (i.queued key (inl refl))) hp
            ];
            queued = λ x m. elim (v.adds_frontier x m) [
              | inl n ↦ v.keeps x (i.queued x (inr n))
              | inr hp ↦ reached_hop fin hp
            ];
            closed = λ x m. elim (v.queued x m) [
              | inr n ↦ inl n
              | inl n ↦ (elim (i.closed x n) [
                | inl (inl q) ↦ inr (subst (IsDone w.reached) (sym q) fin)
                | inl (inr k) ↦ inl (v.keeps_frontier x k)
                | inr d ↦ inr (λ y ym l. (v.keeps (to y) (d y ym l).0, (d y ym l).1))
              ])
            ];
          },
          v.cost,
          v.keeps,
        )
      where
        reached_hop : {x : ℕ} → IsDone w.reached key → Hop from to live es key x → In x w.reached
        reached_hop fin hp =
            subst (λ y. In y w.reached) hp.arrives
              (fin hp.edge hp.held (rw (hp.is_live, hp.leaves_key) (eqb_refl key))).0

    drain-some :
        (fuel : ℕ) (reached frontier : List ℕ) (R : List ℕ)
        → length frontier + unreached from to live es reached < fuel
        → Invariant reached frontier
        → drain from to live wanted fuel es reached frontier ≡ some R
        → IsClosure R × ((x : ℕ) → In x reached → In x R)
    unfolding drain
    drain-some zero reached frontier R f i h = absurd (omega arith)
    drain-some (suc fuel) reached [] R f i h =
        subst (λ l. IsClosure l × ((x : ℕ) → In x reached → In x l)) (some-injective _ _ h)
          (
            record {
              sound = i.sound;
              closed = λ x m. elim (i.closed x m) [ inl k ↦ (elim k [ ]) | inr d ↦ d ];
            },
            λ x m. m,
          )
    drain-some (suc fuel) reached (key ∷ frontier) R f i h =
        split (λ w lt inv e. drain-some fuel w.reached w.frontier R lt inv e)
          (visit from to live wanted es key w₀) refl h
      where
        w₀ : Walk
        w₀ = record { reached = reached; frontier = frontier }

        split :
            ((w : Walk)
              → length w.frontier + unreached from to live es w.reached < fuel
              → Invariant w.reached w.frontier
              → drain from to live wanted fuel es w.reached w.frontier ≡ some R
              → IsClosure R × ((x : ℕ) → In x w.reached → In x R))
            → (o : Option Walk) → visit from to live wanted es key w₀ ≡ o
            → (elim o [
              | none ↦ none
              | some w ↦ drain from to live wanted fuel es w.reached w.frontier
            ])
              ≡ some R
            → IsClosure R × ((x : ℕ) → In x reached → In x R)
        split ih none e k = cc k
        split ih (some w) e k =
            let (inv, cost, keeps) = visited-Invariant key reached frontier w e i in
            let (c, sub) = ih w (omega (arith, cost, f)) inv k in (c, λ x m. sub x (keeps x m))

    start_Invariant : Invariant starts starts
    start_Invariant = record { sound = λ x m. start m; queued = λ x m. m; closed = λ x m. inl m }

    -- A closure that holds the starts holds every reachable key.
    pub IsClosure-complete :
        (R : List ℕ)
        → IsClosure R
        → ((x : ℕ) → In x starts → In x R)
        → {x : ℕ} → Reachable from to live es starts x
        → In x R
    IsClosure-complete R c s (start m) = s _ m
    IsClosure-complete R c s (hop {k = k} r hp) =
        let here = IsClosure-complete R c s r in
        subst (λ y. In y R) hp.arrives
          (c.closed k here hp.edge hp.held (rw (hp.is_live, hp.leaves_key) (eqb_refl k))).0

    -- The walk from the starts, by enough fuel, ends with `some` exactly the reachable keys, and
    -- then no wanted key is ahead; or it ends with `none`, and then one is.
    pub drain-some_lem :
        (R : List ℕ)
        → drain from to live wanted (enough es starts) es starts starts ≡ some R
        → ((x : ℕ) → In x R ↔ Reachable from to live es starts x) × ¬ Ahead starts
    drain-some_lem R h =
        let (c, sub) =
          drain-some (enough es starts) starts starts R
            (omega (arith, unreached-le from to live es starts)) start_Invariant h in
        (
          λ x. (c.sound x, λ r. IsClosure-complete R c sub r),
          λ ahead.
              let here = IsClosure-complete R c sub ahead.reachable in
              let wt =
                (c.closed ahead.key here ahead.last_hop.edge ahead.last_hop.held (
                  rw (ahead.last_hop.is_live, ahead.last_hop.leaves_key) (eqb_refl ahead.key))).1 in
              cc (wt, ahead.is_wanted, ap wanted ahead.last_hop.arrives),
        )

    pub drain-none_lem :
        drain from to live wanted (enough es starts) es starts starts ≡ none → Ahead starts
    drain-none_lem h = drain-none (enough es starts) starts starts (λ x m. start m) h
