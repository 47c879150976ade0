-- ===== src/Verifier/Lineage/View.antt =====
-- How `build_lineage` of state.rs divides the generations of all documents.
use onomancy.Prelude.{
  ℕ, List, [], ◌∷◌, map, true, false, ◌&&◌, elem, filter, ◌==◌, ◌≡◌, ◌↔◌, ◌⊎◌, inl, inr, refl, sym,
  ap, In, In-map, map-In, filter-In, In-append, In-append_left, In-append_right, elem-In, In-elem,
  any-In, In-any, and-true, eqb→eq, eqb_refl, Bool-cases, subst, arith,
}
use onomancy.Prelude.Sort.{sort_by_key, dedup_by, sort-In, dedup-In}
use onomancy.Core.{Digest, DocAnchor}
use onomancy.Dnssec.Units.{GenerationKey}
use onomancy.Verifier.Evidence.{Evidence, RotationEvidence}
use onomancy.Verifier.Lineage.{
  Slot, LineageView, has_slot, forward_closure, fork_points_of, settled, judge_document,
  judge_documents, slots_of, sorted_keys, lineage_of, considered_rotations, build_lineage,
}
use onomancy.Verifier.Lineage.Descent.{forward_closure_iff}
use onomancy.Verifier.Lineage.Scope.{IsReplaced, judge_document_iff, judge_document-disjoint}

abbrev pub of_document : List RotationEvidence → DocAnchor → List RotationEvidence
of_document rotations document = filter (λ (r : RotationEvidence). r.root_doc == document) rotations

-- A slot is in a view's set.
abbrev pub Holds : List Slot → DocAnchor → GenerationKey → Type 0
Holds slots document g = has_slot slots document g ≡ true

module _ (document : DocAnchor) (g : GenerationKey) where
  slot : Slot
  slot = record { document = document; generation = g }

  Holds-In :
      (slots : List Slot)
      → Holds slots document g ↔ In (record { document = document; generation = g }) slots
  unfolding has_slot
  Holds-In slots = (
    λ h.
        let (s, m, e) =
          any-In (λ (s : Slot). s.document == document && s.generation == g) slots h in
        let (ed, eg) = and-true (s.document == document) (s.generation == g) e in
        subst (λ (x : Slot). In x slots)
          (slot_eq s (eqb→eq s.document document ed) (eqb→eq s.generation g eg)) m,
    λ m.
        In-any (λ (s : Slot). s.document == document && s.generation == g)
          (record { document = document; generation = g }) slots m
          (ground (arith, eqb_refl document, eqb_refl g)),
  )
    where
      slot_eq :
          (s : Slot)
          → s.document ≡ document
          → s.generation ≡ g
          → s ≡ record { document = document; generation = g }
      slot_eq s ed eg = ground arith

  In-slots_of :
      (d : DocAnchor) (ks : List GenerationKey)
      → In (record { document = document; generation = g }) (slots_of d ks)
      → (d ≡ document) × In g ks
  unfolding slots_of
  In-slots_of d ks m =
      let (k, n, e) =
        map-In (λ (x : GenerationKey). record { document = d; generation = x })
          (record { document = document; generation = g }) ks m in
      (
        sym (ap (λ (s : Slot). s.document) e),
        subst (λ x. In x ks) (sym (ap (λ (s : Slot). s.generation) e)) n,
      )

  module _ (rotations : List RotationEvidence) where
    -- The view's sets hold of a document only what judging that document gave.
    record FromJudged (view : LineageView) : Type 0 where
      protected :
          In (record { document = document; generation = g }) view.protected
          → In g (judge_document (of_document rotations document)).protected
      implicated :
          In (record { document = document; generation = g }) view.implicated
          → In g (judge_document (of_document rotations document)).implicated

    judge_documents-FromJudged :
        (documents : List DocAnchor) (view : LineageView)
        → FromJudged view
        → FromJudged (judge_documents rotations documents view)
    unfolding judge_documents
    judge_documents-FromJudged [] view f = f
    judge_documents-FromJudged (d ∷ ds) view f = judge_documents-FromJudged ds _ (record {
      protected = λ m.
          elim (In-append (record { document = document; generation = g })
            (slots_of d (judge_document (of_document rotations d)).protected) view.protected m) [
              | inl k ↦
                  (let (e, n) =
                      In-slots_of d (judge_document (of_document rotations d)).protected k in
                    subst (λ x. In g (judge_document (of_document rotations x)).protected) e n)
              | inr k ↦ f.protected k
            ];
      implicated = λ m.
          elim (In-append (record { document = document; generation = g })
            (slots_of d (judge_document (of_document rotations d)).implicated) view.implicated m) [
              | inl k ↦
                  (let (e, n) =
                      In-slots_of d (judge_document (of_document rotations d)).implicated k in
                    subst (λ x. In g (judge_document (of_document rotations x)).implicated) e n)
              | inr k ↦ f.implicated k
            ];
    })

    -- What is entered stays, and a document of the list is entered.
    judge_documents-keeps :
        (documents : List DocAnchor) (view : LineageView)
        → In (record { document = document; generation = g }) view.protected
          ⊎ In (record { document = document; generation = g }) view.implicated
        → In
            (record { document = document; generation = g })
            (judge_documents rotations documents view).protected
          ⊎ In
              (record { document = document; generation = g })
              (judge_documents rotations documents view).implicated
    unfolding judge_documents
    judge_documents-keeps [] view m = m
    judge_documents-keeps (d ∷ ds) view m = judge_documents-keeps ds _ (elim m [
      | inl k ↦ inl (
          In-append_right _ (slots_of d (judge_document (of_document rotations d)).protected)
            view.protected k)
      | inr k ↦ inr (
          In-append_right _ (slots_of d (judge_document (of_document rotations d)).implicated)
            view.implicated k)
    ])

    judge_documents-covers :
        (documents : List DocAnchor) (view : LineageView)
        → In document documents
        → In g (judge_document (of_document rotations document)).protected
          ⊎ In g (judge_document (of_document rotations document)).implicated
        → In
            (record { document = document; generation = g })
            (judge_documents rotations documents view).protected
          ⊎ In
              (record { document = document; generation = g })
              (judge_documents rotations documents view).implicated
    unfolding judge_documents slots_of
    judge_documents-covers [] view m j = elim m [ ]
    judge_documents-covers (d ∷ ds) view (inr m) j = judge_documents-covers ds _ m j
    judge_documents-covers (d ∷ ds) view (inl q) j = judge_documents-keeps ds _ (elim j [
      | inl k ↦ inl (
          In-append_left _ (slots_of d (judge_document (of_document rotations d)).protected)
            view.protected
            (subst
              (λ x.
                In (record { document = document; generation = g })
                  (slots_of x (judge_document (of_document rotations x)).protected))
              q
              (In-map (λ (x : GenerationKey). record { document = document; generation = x }) g
                (judge_document (of_document rotations document)).protected k)))
      | inr k ↦ inr (
          In-append_left _ (slots_of d (judge_document (of_document rotations d)).implicated)
            view.implicated
            (subst
              (λ x.
                In (record { document = document; generation = g })
                  (slots_of x (judge_document (of_document rotations x)).implicated))
              q
              (In-map (λ (x : GenerationKey). record { document = document; generation = x }) g
                (judge_document (of_document rotations document)).implicated k)))
    ])

-- Over the whole view no generation of a document is both protected and implicated by a fork.
pub build_lineage-disjoint :
    (evidence : Evidence) (excluded : List Digest) (document : DocAnchor) (g : GenerationKey)
    → Holds (build_lineage evidence excluded).protected document g
    → has_slot (build_lineage evidence excluded).implicated document g ≡ false
unfolding build_lineage lineage_of
build_lineage-disjoint evidence excluded document g h =
    elim (Bool-cases (has_slot implicated document g)) [
      | inr e ↦ e
      | inl e ↦ absurd (
          judge_document-disjoint (of_document rotations document) g
            (from.protected ((Holds-In document g protected).0 h))
            (from.implicated ((Holds-In document g implicated).0 e)))
    ]
  where
    rotations : List RotationEvidence
    rotations = considered_rotations evidence excluded

    before : LineageView
    before = record {
      edges =
          map
            (λ (r : RotationEvidence). record {
              document = r.root_doc;
              replaced = r.replaced;
              successor = r.successor;
            })
            rotations;
      forks = [];
      implicated = [];
      protected = [];
    }

    documents : List DocAnchor
    documents = sorted_keys (map (λ (r : RotationEvidence). r.root_doc) rotations)

    protected : List Slot
    protected = (judge_documents rotations documents before).protected

    implicated : List Slot
    implicated = (judge_documents rotations documents before).implicated

    from : FromJudged document g rotations (judge_documents rotations documents before)
    from =
        judge_documents-FromJudged document g rotations documents before
          (record { protected = λ m. elim m [ ]; implicated = λ m. elim m [ ] })

In-sorted_keys : (k : ℕ) (ks : List ℕ) → In k ks → In k (sorted_keys ks)
unfolding sorted_keys
In-sorted_keys k ks m =
    elim (dedup-In (λ a b. a == b) k (sort_by_key (λ x. x ∷ []) ks)
      (sort-In (λ x. x ∷ []) k ks m)) [
        | inl n ↦ n
        | inr (c, n, e) ↦
            subst (λ x. In x (dedup_by (λ a b. a == b) (sort_by_key (λ y. y ∷ []) ks)))
              (sym (eqb→eq k c e)) n
      ]

-- Every generation that a considered statement replaces is protected or implicated.
pub build_lineage-covers :
    (evidence : Evidence) (excluded : List Digest) (r : RotationEvidence)
    → In r (considered_rotations evidence excluded)
    → Holds (build_lineage evidence excluded).protected r.root_doc r.replaced
      ⊎ Holds (build_lineage evidence excluded).implicated r.root_doc r.replaced
unfolding build_lineage lineage_of
build_lineage-covers evidence excluded r m =
    elim (judge_documents-covers r.root_doc r.replaced rotations documents _ here judged) [
      | inl k ↦ inl ((Holds-In r.root_doc r.replaced _).1 k)
      | inr k ↦ inr ((Holds-In r.root_doc r.replaced _).1 k)
    ]
  where
    rotations : List RotationEvidence
    rotations = considered_rotations evidence excluded

    documents : List DocAnchor
    documents = sorted_keys (map (λ (x : RotationEvidence). x.root_doc) rotations)

    here : In r.root_doc documents
    here = In-sorted_keys r.root_doc _ (In-map (λ (x : RotationEvidence). x.root_doc) r rotations m)

    mine : List RotationEvidence
    mine = of_document rotations r.root_doc

    replaced : IsReplaced mine r.replaced
    replaced = record {
      by = r;
      held =
          filter-In (λ (x : RotationEvidence). x.root_doc == r.root_doc) r rotations m
            (eqb_refl r.root_doc);
      replaces = refl;
    }

    judged :
        In r.replaced (judge_document mine).protected
        ⊎ In r.replaced (judge_document mine).implicated
    judged = elim (Bool-cases (settled mine (fork_points_of mine))) [
      | inl e ↦ inl (((judge_document_iff mine r.replaced).0 e).0.1 replaced)
      | inr e ↦ (elim (Bool-cases (elem r.replaced (forward_closure (fork_points_of mine) mine))) [
        | inl k ↦ inr (
            ((judge_document_iff mine r.replaced).1 e).1.1 (
              (forward_closure_iff (fork_points_of mine) mine r.replaced).0
                (elem-In r.replaced _ k)))
        | inr k ↦ inl (
            ((judge_document_iff mine r.replaced).1 e).0.1 (
              replaced,
              λ i. cc (
                k,
                In-elem r.replaced _
                    ((forward_closure_iff (fork_points_of mine) mine r.replaced).1 i),
              ),
            ))
      ])
    ]
