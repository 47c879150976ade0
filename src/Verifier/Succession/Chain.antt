-- ===== src/Verifier/Succession/Chain.antt =====
-- What `chain_from` and `proves` of state.rs answer: the unforked paths of a hostname's migrations.
use onomancy.Prelude.{
  ℕ, zero, suc, ◌+◌, ◌<◌, List, [], ◌∷◌, ◌++◌, Bool, true, false, not, ◌&&◌, elem, filter, find,
  find-some, length, length-filter, none, some, some-injective, ◌==◌, ◌≡◌, ◌≢◌, ◌↔◌, ◌⊎◌, inl, inr,
  refl, sym, ap, ◌∙◌, subst, In, In-elem, elem-In, In-append, In-append_left, In-append_right,
  eqb→eq, eqb→ne, and-true, arith, Bool-cases, Option-cases,
}
use onomancy.Prelude.Maximal.{length-filter_lt}
use onomancy.Core.{DocAnchor}
use onomancy.Verifier.Succession.{
  Migration, ProofGraph, is_fork_point, next_hop, chain_loop, chain_from, proves,
}

module _ (graph : ProofGraph) where
  -- The edge that the walk takes from a document: its edge, unless the document is a fork point.
  pub record Hop (a b : DocAnchor) : Type 0 where
    pub unforked : is_fork_point graph a ≡ false
    pub edge : Migration
    pub found : find (λ (e : Migration). e.predecessor == a) graph.edges ≡ some edge
    pub leads : edge.successor ≡ b

  -- One hop or more.
  pub data PathOf : DocAnchor → DocAnchor → Type 0 where
    one : (a b : DocAnchor) → Hop a b → PathOf a b
    then_hop : (a b c : DocAnchor) → PathOf a b → Hop b c → PathOf a c

  -- What the next hop's answer says.
  next_hop-some :
      (chain : List DocAnchor) (a b : DocAnchor)
      → next_hop graph chain a ≡ some b
      → Hop a b × (elem b chain ≡ false)
  unfolding next_hop
  next_hop-some chain a b h = elim (Bool-cases (is_fork_point graph a)) [
    | inl f ↦ ground arith
    | inr f ↦ (elim (Option-cases (find (λ (e : Migration). e.predecessor == a) graph.edges)) [
      | inl g ↦ cc (rw (next_hop, f, g) at h)
      | inr (e, g) ↦ (elim (Bool-cases (elem e.successor chain)) [
        | inl k ↦ cc (rw (next_hop, f, g, k) at h)
        | inr k ↦
            let same : e.successor ≡ b = some-injective _ _ (rw (next_hop, f, g, k) at h) in
            (
              record { unforked = f; edge = e; found = g; leads = same },
              subst (λ x. elem x chain ≡ false) same k,
            )
      ])
    ])
  ]

  next_hop-none :
      (chain : List DocAnchor) (a b : DocAnchor)
      → next_hop graph chain a ≡ none
      → Hop a b
      → In b chain
  unfolding next_hop
  next_hop-none chain a b h w = elim (Bool-cases (elem w.edge.successor chain)) [
    | inl k ↦ subst (λ x. In x chain) w.leads (elem-In w.edge.successor chain k)
    | inr k ↦ cc (rw (next_hop, w.unforked, w.found, k) at h)
  ]

  abbrev unvisited : List DocAnchor → Migration → Bool
  unvisited chain e = not (elem e.successor chain)

  -- What the chain holds when the walk has ended.
  pub record IsWalked (chain : List DocAnchor) (current : DocAnchor) (result : List DocAnchor)
      : Type 0 where
    pub grows : (d : DocAnchor) → In d chain → In d result
    pub reached : (d : DocAnchor) → In d result → In d chain ⊎ PathOf current d
    pub closed :
        (a b : DocAnchor) → In a result → Hop a b → ((In a chain × (a ≢ current)) ⊎ In b result)

  extend-unvisited :
      (chain : List DocAnchor) (b : DocAnchor) (e : Migration)
      → unvisited (chain ++ b ∷ []) e ≡ true
      → unvisited chain e ≡ true
  extend-unvisited chain b e h = elim (Bool-cases (elem e.successor chain)) [
    | inl k ↦ cc (
      h,
      In-elem e.successor (chain ++ b ∷ [])
          (In-append_left e.successor chain (b ∷ []) (elem-In e.successor chain k)),
    )
    | inr k ↦ rw k refl
  ]

  fewer_unvisited :
      (chain : List DocAnchor) (a b : DocAnchor)
      → Hop a b
      → elem b chain ≡ false
      → length (filter (unvisited (chain ++ b ∷ [])) graph.edges)
        < length (filter (unvisited chain) graph.edges)
  fewer_unvisited chain a b w k =
      length-filter_lt (unvisited (chain ++ b ∷ [])) (unvisited chain) graph.edges w.edge
        (λ e m. extend-unvisited chain b e)
        (find-some (λ (e : Migration). e.predecessor == a) graph.edges w.found).0
        (rw (w.leads, In-elem b (chain ++ b ∷ []) (In-append_right b chain (b ∷ []) (inl refl)))
          refl)
        (rw (w.leads, k) refl)

  prepend : (a b c : DocAnchor) → Hop a b → PathOf b c → PathOf a c
  prepend a b c w (one x y v) = then_hop a x y (one a x w) v
  prepend a b c w (then_hop x y z p v) = then_hop a y z (prepend a x y w p) v

  walk_on :
      (chain : List DocAnchor) (a b : DocAnchor) (result : List DocAnchor)
      → Hop a b
      → IsWalked (chain ++ b ∷ []) b result
      → IsWalked chain a result
  walk_on chain a b result w r = record {
    grows = λ d m. r.grows d (In-append_left d chain (b ∷ []) m);
    reached = λ d m. elim (r.reached d m) [
      | inl k ↦ (elim (In-append d chain (b ∷ []) k) [
        | inl n ↦ inl n
        | inr (inl e) ↦ inr (one a d (subst (λ x. Hop a x) (sym e) w))
        | inr (inr n) ↦ (elim n [ ])
      ])
      | inr p ↦ inr (prepend a b d w p)
    ];
    closed = λ x y m v. elim (r.closed x y m v) [
      | inr k ↦ inr k
      | inl (k, n) ↦ (elim (In-append x chain (b ∷ []) k) [
        | inr (inl e) ↦ absurd (n e)
        | inr (inr z) ↦ (elim z [ ])
        | inl z ↦ (elim (Bool-cases (x == a)) [
          | inr q ↦ inl (z, eqb→ne x a q)
          | inl q ↦ inr (
              subst (λ t. In t result) (same_hop x y q v)
                (r.grows b (In-append_right b chain (b ∷ []) (inl refl))))
        ])
      ])
    ];
  }
    where
      same_hop : (x y : DocAnchor) → (x == a) ≡ true → Hop x y → b ≡ y
      same_hop x y q v =
          let v2 : Hop a y = subst (λ t. Hop t y) (eqb→eq x a q) v in
          let same : w.edge ≡ v2.edge = some-injective _ _ (sym w.found ∙ v2.found) in
          sym w.leads ∙ (ap (λ (e : Migration). e.successor) same ∙ v2.leads)

  chain_loop-IsWalked :
      (fuel : ℕ) (chain : List DocAnchor) (a : DocAnchor)
      → length (filter (unvisited chain) graph.edges) < fuel
      → IsWalked chain a (chain_loop fuel graph chain a)
  unfolding chain_loop
  chain_loop-IsWalked zero chain a lt = absurd (omega arith)
  chain_loop-IsWalked (suc n) chain a lt = elim (Option-cases (next_hop graph chain a)) [
    | inl h ↦
        rw (chain_loop, h)
          record {
            grows = λ d m. m;
            reached = λ d m. inl m;
            closed = λ x y m v. elim (Bool-cases (x == a)) [
              | inr q ↦ inl (m, eqb→ne x a q)
              | inl q ↦ inr (next_hop-none chain a y h (subst (λ t. Hop t y) (eqb→eq x a q) v))
            ];
          }
    | inr (b, h) ↦
        let (w, k) = next_hop-some chain a b h in
        rw (chain_loop, h)
          (walk_on chain a b (chain_loop n graph (chain ++ b ∷ []) b) w (
            chain_loop-IsWalked n (chain ++ b ∷ []) b
              (omega (arith, fewer_unvisited chain a b w k, lt))))
  ]

  -- The chain of a document holds it and exactly the documents on its unforked path.
  pub chain_from_iff :
      (from d : DocAnchor) → In d (chain_from graph from) ↔ ((d ≡ from) ⊎ PathOf from d)
  unfolding chain_from
  chain_from_iff from d = (
    λ m. elim (walked.reached d m) [
      | inl (inl e) ↦ inl e
      | inl (inr k) ↦ (elim k [ ])
      | inr p ↦ inr p
    ],
    λ o. elim o [
      | inl e ↦ walked.grows d (inl e)
      | inr p ↦ follow from d p (walked.grows from (inl refl))
    ],
  )
    where
      result : List DocAnchor
      result = chain_from graph from

      walked : IsWalked (from ∷ []) from result
      walked =
          chain_loop-IsWalked (length graph.edges + 1) (from ∷ []) from
            (omega (arith, length-filter (unvisited (from ∷ [])) graph.edges))

      next : (a b : DocAnchor) → In a result → Hop a b → In b result
      next a b m w = elim (walked.closed a b m w) [
        | inr k ↦ k
        | inl (inl e, n) ↦ absurd (n e)
        | inl (inr k, n) ↦ (elim k [ ])
      ]

      follow : (a b : DocAnchor) → PathOf a b → In a result → In b result
      follow a b (one x y w) m = next x y m w
      follow a b (then_hop x y z p w) m = next y z (follow x y p m) w

  -- A succession is proven exactly along a path of hops that crosses no fork, to another document.
  pub proves_iff :
      (from to : DocAnchor) → (proves graph from to ≡ true) ↔ ((from ≢ to) × PathOf from to)
  unfolding proves
  proves_iff from to = (
    λ h.
        let (n, m) = and-true (not (from == to)) (elem to (chain_from graph from)) h in
        let apart = differ from to n in
        (
          apart,
          (elim ((chain_from_iff from to).0 (elem-In to (chain_from graph from) m)) [
            | inl e ↦ absurd (apart (sym e))
            | inr p ↦ p
          ]),
        ),
    λ (n, p).
        meets (from == to) (elem to (chain_from graph from)) (apart_test from to n)
          (In-elem to (chain_from graph from) ((chain_from_iff from to).1 (inr p))),
  )
    where
      differ : (a b : ℕ) → not (a == b) ≡ true → a ≢ b
      differ a b h = ground arith

      apart_test : (a b : ℕ) → a ≢ b → (a == b) ≡ false
      apart_test a b n = ground arith

      meets : (a b : Bool) → a ≡ false → b ≡ true → (not a && b) ≡ true
      meets a b p q = ground arith
