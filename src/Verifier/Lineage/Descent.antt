-- ===== src/Verifier/Lineage/Descent.antt =====
-- `descends` and `forward_closure` of state.rs decide reachability in the statement graph.
use onomancy.Prelude.{
  ℕ, List, [], ◌∷◌, true, false, Option, none, some, ◌==◌, ◌≡◌, ◌↔◌, refl, In, eqb→eq, eqb_refl,
  inl, inr, subst,
}
use onomancy.Prelude.Sort.{sort_by_key, In-sort, sort-In}
use onomancy.Prelude.Worklist.{drain, enough}
use onomancy.Prelude.Worklist.Visit.{Hop}
use onomancy.Prelude.Worklist.Closure.{Reachable, start, hop, Ahead, drain-some_lem, drain-none_lem}
use onomancy.Core.{DocAnchor}
use onomancy.Dnssec.Units.{GenerationKey}
use onomancy.Verifier.Evidence.{RotationEvidence}
use onomancy.Verifier.Lineage.{Edge, LineageView, descends, forward_closure}

-- Signed descent: a chain of at least one statement of the document.
pub data Descent (edges : List Edge) (document : DocAnchor) (a : GenerationKey)
    : GenerationKey → Type 0 where
  one :
      {b : GenerationKey} (e : Edge)
      → In e edges
      → e.document ≡ document
      → e.replaced ≡ a
      → e.successor ≡ b
      → Descent edges document a b
  more :
      {b c : GenerationKey}
      → Descent edges document a b
      → (e : Edge) → In e edges
      → e.document ≡ document
      → e.replaced ≡ b
      → e.successor ≡ c
      → Descent edges document a c

module _ (edges : List Edge) (document : DocAnchor) (a : GenerationKey) where
  abbrev R : GenerationKey → Type 0
  R =
      Reachable (λ (e : Edge). e.replaced) (λ e. e.successor) (λ e. e.document == document) edges
        (a ∷ [])

  abbrev H : GenerationKey → GenerationKey → Type 0
  H = Hop (λ (e : Edge). e.replaced) (λ e. e.successor) (λ e. e.document == document) edges

  step_Descent : {k s : GenerationKey} → R k → H k s → Descent edges document a s
  step_Descent (start (inl q)) h =
      one h.edge h.held (eqb→eq h.edge.document document h.is_live)
        (subst (λ x. h.edge.replaced ≡ x) q h.leaves_key) h.arrives
  step_Descent (start (inr m)) h = elim m [ ]
  step_Descent (hop r g) h =
      more (step_Descent r g) h.edge h.held (eqb→eq h.edge.document document h.is_live) h.leaves_key
        h.arrives

  edge_Hop :
      {k s : GenerationKey} (e : Edge)
      → In e edges
      → e.document ≡ document
      → e.replaced ≡ k
      → e.successor ≡ s
      → H k s
  edge_Hop e m d r t = record {
    edge = e;
    held = m;
    is_live = subst (λ x. (e.document == x) ≡ true) d (eqb_refl e.document);
    leaves_key = r;
    arrives = t;
  }

  Descent-R : {s : GenerationKey} → Descent edges document a s → R s
  Descent-R (one e m d r t) = hop (start (inl refl)) (edge_Hop e m d r t)
  Descent-R (more p e m d r t) = hop (Descent-R p) (edge_Hop e m d r t)

  Descent-Ahead :
      {b : GenerationKey}
      → Descent edges document a b
      → Ahead
          (λ (e : Edge). e.replaced)
          (λ e. e.successor)
          (λ e. e.document == document)
          (λ s. s == b)
          edges
          (a ∷ [])
  Descent-Ahead {b} (one e m d r t) = record {
    key = a;
    end = b;
    reachable = start (inl refl);
    last_hop = edge_Hop e m d r t;
    is_wanted = eqb_refl b;
  }
  Descent-Ahead {b} (more {b = k} p e m d r t) = record {
    key = k;
    end = b;
    reachable = Descent-R p;
    last_hop = edge_Hop e m d r t;
    is_wanted = eqb_refl b;
  }

-- The walk answers `true` exactly when a chain of the document's statements leads from the one
-- generation to the other; it always has fuel enough to answer.
pub descends_iff :
    (view : LineageView) (document : DocAnchor) (a b : GenerationKey)
    → (descends view document a b ≡ true) ↔ Descent view.edges document a b
unfolding descends
descends_iff view document a b = (λ h. found (walk) refl h, λ d. complete walk refl d)
  where
    walk : Option (List ℕ)
    walk =
        drain (λ (e : Edge). e.replaced) (λ e. e.successor) (λ e. e.document == document)
          (λ s. s == b) (enough view.edges (a ∷ [])) view.edges (a ∷ []) (a ∷ [])

    found :
        (o : Option (List ℕ))
        → walk ≡ o
        → (elim o [ none ↦ true | some _ ↦ false ]) ≡ true
        → Descent view.edges document a b
    found none e h =
        let ahead =
          drain-none_lem (λ (e : Edge). e.replaced) (λ e. e.successor) (λ e. e.document == document)
            (λ s. s == b) view.edges (a ∷ []) e in
        subst (Descent view.edges document a) (eqb→eq ahead.end b ahead.is_wanted)
          (step_Descent view.edges document a ahead.reachable ahead.last_hop)
    found (some r) e h = cc h

    complete :
        (o : Option (List ℕ))
        → walk ≡ o
        → Descent view.edges document a b
        → (elim o [ none ↦ true | some _ ↦ false ]) ≡ true
    complete none e d = refl
    complete (some r) e d = absurd (
        (drain-some_lem (λ (e : Edge). e.replaced) (λ e. e.successor) (λ e. e.document == document)
            (λ s. s == b) view.edges (a ∷ []) r e).1
          (Descent-Ahead view.edges document a d))

-- The forward closure is exactly the set of generations reachable from the fork points.
pub forward_closure_iff :
    (fork_points : List GenerationKey) (rotations : List RotationEvidence) (k : GenerationKey)
    → In k (forward_closure fork_points rotations)
      ↔ Reachable
          (λ (r : RotationEvidence). r.replaced)
          (λ r. r.successor)
          (λ _. true)
          rotations
          fork_points
          k
unfolding forward_closure
forward_closure_iff fork_points rotations k = split walk refl
  where
    walk : Option (List ℕ)
    walk =
        drain (λ (r : RotationEvidence). r.replaced) (λ r. r.successor) (λ _. true) (λ _. false)
          (enough rotations fork_points) rotations fork_points fork_points

    split :
        (o : Option (List ℕ))
        → walk ≡ o
        → In k (elim o [ none ↦ [] | some reached ↦ sort_by_key (λ x. x ∷ []) reached ])
          ↔ Reachable
              (λ (r : RotationEvidence). r.replaced)
              (λ r. r.successor)
              (λ _. true)
              rotations
              fork_points
              k
    split none e =
        let ahead =
          drain-none_lem (λ (r : RotationEvidence). r.replaced) (λ r. r.successor) (λ _. true)
            (λ _. false) rotations fork_points e in
        cc ahead.is_wanted
    split (some reached) e =
        let all =
          (drain-some_lem (λ (r : RotationEvidence). r.replaced) (λ r. r.successor) (λ _. true)
            (λ _. false) rotations fork_points reached e).0 in
        (
          λ m. (all k).0 (In-sort (λ x. x ∷ []) k reached m),
          λ r. sort-In (λ x. x ∷ []) k reached ((all k).1 r),
        )
