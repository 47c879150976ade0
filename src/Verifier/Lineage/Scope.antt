-- ===== src/Verifier/Lineage/Scope.antt =====
-- The heads rule of `build_lineage` in state.rs: what is protected, and what a fork implicates.
use onomancy.Prelude.{
  List, ◌++◌, map, Bool, true, false, not, elem, filter, ◌≡◌, ◌↔◌, ◌⊎◌, inl, inr, sym, ap, In,
  In-map, map-In, In-filter, filter-In, In-append, In-append_right, elem-In, In-elem, Bool-cases,
  subst,
}
use onomancy.Prelude.Worklist.Closure.{Reachable}
use onomancy.Dnssec.Units.{GenerationKey}
use onomancy.Verifier.Evidence.{RotationEvidence}
use onomancy.Verifier.Lineage.{forward_closure, fork_points_of, settled, judge_document}
use onomancy.Verifier.Lineage.Descent.{forward_closure_iff}

-- Some statement of the list replaces the generation.
pub record IsReplaced (rotations : List RotationEvidence) (g : GenerationKey) : Type 0 where
  pub by : RotationEvidence
  pub held : In by rotations
  pub replaces : by.replaced ≡ g

-- A generation at a fork point or forward of one.
abbrev pub IsImplicated : List RotationEvidence → GenerationKey → Type 0
IsImplicated rotations g =
    Reachable (λ (r : RotationEvidence). r.replaced) (λ r. r.successor) (λ _. true) rotations
      (fork_points_of rotations) g

module _ (of_doc : List RotationEvidence) where
  replaced_by :
      (g : GenerationKey)
      → In g (map (λ (r : RotationEvidence). r.replaced) of_doc)
      → IsReplaced of_doc g
  replaced_by g m =
      let (r, k, e) = map-In (λ (r : RotationEvidence). r.replaced) g of_doc m in
      record { by = r; held = k; replaces = sym e }

  -- For one document: a settled lineage protects exactly the replaced generations and implicates
  -- none. An unsettled one implicates exactly what is reachable from its fork points, and protects
  -- exactly the replaced generations that are not.
  pub judge_document_iff :
      (g : GenerationKey)
      → (settled of_doc (fork_points_of of_doc) ≡ true
          → (In g (judge_document of_doc).protected ↔ IsReplaced of_doc g)
            × (¬ In g (judge_document of_doc).implicated))
        × (settled of_doc (fork_points_of of_doc) ≡ false
            → (In g (judge_document of_doc).protected
                ↔ (IsReplaced of_doc g × (¬ IsImplicated of_doc g)))
              × (In g (judge_document of_doc).implicated ↔ IsImplicated of_doc g))
  unfolding judge_document
  judge_document_iff g = (
    λ e. rw e (
      (
        λ m. replaced_by g m,
        λ r.
            subst (λ x. In x (map (λ (r : RotationEvidence). r.replaced) of_doc)) r.replaces
              (In-map (λ (r : RotationEvidence). r.replaced) r.by of_doc r.held),
      ),
      λ m. elim m [ ],
    ),
    λ e. rw e (
      (protected_only, protected_all),
      (
        implicated_only,
        λ i. In-append_right g _ suffix ((forward_closure_iff points of_doc g).1 i),
      ),
    ),
  )
    where
      points : List GenerationKey
      points = fork_points_of of_doc

      suffix : List GenerationKey
      suffix = forward_closure points of_doc

      out : RotationEvidence → Bool
      out r = not (elem r.replaced suffix)

      within : RotationEvidence → Bool
      within r = elem r.replaced suffix

      protected_only :
          In g (map (λ (r : RotationEvidence). r.replaced) (filter out of_doc))
          → IsReplaced of_doc g × (¬ IsImplicated of_doc g)
      protected_only m =
          let (r, k, e) = map-In (λ (r : RotationEvidence). r.replaced) g (filter out of_doc) m in
          let (held, o) = In-filter out r of_doc k in
          (
            record { by = r; held = held; replaces = sym e },
            λ i. cc (
              o,
              ap not (
                  In-elem r.replaced suffix
                    (subst (λ x. In x suffix) e ((forward_closure_iff points of_doc g).1 i))),
            ),
          )

      protected_all :
          IsReplaced of_doc g × (¬ IsImplicated of_doc g)
          → In g (map (λ (r : RotationEvidence). r.replaced) (filter out of_doc))
      protected_all (r, n) = elim (Bool-cases (elem r.by.replaced suffix)) [
        | inl e ↦ absurd (
            n (
              (forward_closure_iff points of_doc g).0
                (subst (λ x. In x suffix) r.replaces (elem-In r.by.replaced suffix e))))
        | inr e ↦
            subst (λ x. In x (map (λ (r : RotationEvidence). r.replaced) (filter out of_doc)))
              r.replaces
              (In-map (λ (r : RotationEvidence). r.replaced) r.by (filter out of_doc)
                (filter-In out r.by of_doc r.held (ap not e)))
      ]

      implicated_only :
          In g (map (λ (r : RotationEvidence). r.replaced) (filter within of_doc) ++ suffix)
          → IsImplicated of_doc g
      implicated_only m =
          elim (In-append g (map (λ (r : RotationEvidence). r.replaced) (filter within of_doc))
            suffix m) [
              | inl k ↦
                  (let (r, n, e) =
                      map-In (λ (r : RotationEvidence). r.replaced) g (filter within of_doc) k in
                    let (held, o) = In-filter within r of_doc n in
                    (forward_closure_iff points of_doc g).0
                      (subst (λ x. In x suffix) (sym e) (elem-In r.replaced suffix o)))
              | inr k ↦ (forward_closure_iff points of_doc g).0 k
            ]

  -- For one document: protected are exactly the replaced generations, of an unsettled lineage only
  -- those that no fork point reaches; implicated are exactly the generations that a fork point of an
  -- unsettled lineage reaches.
  pub judge_document-Scope :
      (g : GenerationKey)
      → (In g (judge_document of_doc).protected ↔ (
          IsReplaced of_doc g
          × ((settled of_doc (fork_points_of of_doc) ≡ true) ⊎ (¬ IsImplicated of_doc g))))
        × (In g (judge_document of_doc).implicated
            ↔ ((settled of_doc (fork_points_of of_doc) ≡ false) × IsImplicated of_doc g))
  judge_document-Scope g = elim (Bool-cases (settled of_doc (fork_points_of of_doc))) [
    | inl e ↦
        let (p, i) = (judge_document_iff g).0 e in
        ((λ m. (p.0 m, inl e), λ m. p.1 m.0), (λ m. absurd (i m), λ m. cc (e, m.0)))
    | inr e ↦
        let (p, i) = (judge_document_iff g).1 e in
        (
          (
            λ m. ((p.0 m).0, inr (p.0 m).1),
            λ m. p.1 (m.0, (elim m.1 [ inl t ↦ cc (e, t) | inr n ↦ n ])),
          ),
          (λ m. (e, i.0 m), λ m. i.1 m.1),
        )
  ]

  -- No generation is both.
  pub judge_document-disjoint :
      (g : GenerationKey)
      → In g (judge_document of_doc).protected
      → In g (judge_document of_doc).implicated
      → ⊥
  judge_document-disjoint g p i = elim (Bool-cases (settled of_doc (fork_points_of of_doc))) [
    | inl e ↦ ((judge_document_iff g).0 e).1 i
    | inr e ↦ (let both = (judge_document_iff g).1 e in (both.0.0 p).1 (both.1.0 i))
  ]
