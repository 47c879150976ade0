-- ===== src/Verifier/Rules/Fate.antt =====
-- What the generation rules of state.rs let through, reject and contest.
use onomancy.Prelude.{
  List, [], ◌∷◌, Bool, true, false, ◌&&◌, ◌≡◌, ◌↔◌, ◌⊎◌, inl, inr, refl, sym, subst, In, any-In,
  In-any, and-true, eqb→eq, eqb_refl, ◌==◌, arith, Bool-cases,
}
use onomancy.Core.{UnixSeconds}
use onomancy.Dnssec.Freshness.{Freshness}
use onomancy.Verifier.Evidence.{BindingEvidence, freshness}
use onomancy.Verifier.Lineage.{LineageView, has_slot, descends}
use onomancy.Verifier.Lineage.Descent.{Descent, descends_iff}
use onomancy.Verifier.Rules.{
  Disposition, keep, keep_surfacing_fork, keep_contesting, reject, reject_surfacing_fork,
  GradedRecords, generation_rule, is_corroborated, apply_disposition, grade_each,
  apply_generation_rules,
}

-- The records that stay under consideration.
abbrev pub Survives : Disposition → Type 0
Survives keep = Unit
Survives keep_surfacing_fork = Unit
Survives keep_contesting = Unit
Survives reject = ⊥
Survives reject_surfacing_fork = ⊥

-- The fates that surface a fork.
abbrev pub Surfaces : Disposition → Type 0
Surfaces keep = ⊥
Surfaces keep_surfacing_fork = Unit
Surfaces keep_contesting = Unit
Surfaces reject = ⊥
Surfaces reject_surfacing_fork = Unit

-- A considered record of the same document attests a generation that descends from this one.
pub record IsRewind (r : BindingEvidence) (lineage : LineageView)
    (considered : List BindingEvidence) : Type 0 where
  pub witness : BindingEvidence
  pub held : In witness considered
  pub same : witness.document ≡ r.document
  pub later : Descent lineage.edges r.document r.generation witness.generation

pub is_corroborated_iff :
    (r : BindingEvidence) (lineage : LineageView) (considered : List BindingEvidence)
    → (is_corroborated r lineage considered ≡ true) ↔ IsRewind r lineage considered
unfolding is_corroborated
is_corroborated_iff r lineage considered = (
  λ h.
      let (w, m, e) =
        any-In
          (λ (other : BindingEvidence).
            other.document == r.document
            && descends lineage r.document r.generation other.generation)
          considered h in
      let (d, l) =
        and-true (w.document == r.document) (descends lineage r.document r.generation w.generation)
          e in
      record {
        witness = w;
        held = m;
        same = eqb→eq w.document r.document d;
        later = (descends_iff lineage r.document r.generation w.generation).0 l;
      },
  λ w.
      In-any
        (λ (other : BindingEvidence).
          other.document == r.document && descends lineage r.document r.generation other.generation)
        w.witness considered w.held
        (both (w.witness.document == r.document)
          (descends lineage r.document r.generation w.witness.generation)
          (subst (λ x. (w.witness.document == x) ≡ true) w.same (eqb_refl w.witness.document))
          ((descends_iff lineage r.document r.generation w.witness.generation).1 w.later)),
)
  where
    both : (a b : Bool) → a ≡ true → b ≡ true → (a && b) ≡ true
    both a b p q = ground arith

-- The fates that the specification gives a record, each under its own conditions.
pub data Fate (r : BindingEvidence) (now : UnixSeconds) (lineage : LineageView)
    (considered : List BindingEvidence) : Disposition → Type 0 where
  off_path :
      freshness r now ≡ Freshness.fresh
      → r.generation_on_path ≡ false
      → Fate r now lineage considered reject
  stale_protected :
      freshness r now ≡ Freshness.stale
      → has_slot lineage.protected r.document r.generation ≡ true
      → Fate r now lineage considered reject
  rewound :
      freshness r now ≡ Freshness.fresh
      → r.generation_on_path ≡ true
      → has_slot lineage.protected r.document r.generation ≡ true
      → IsRewind r lineage considered
      → Fate r now lineage considered reject_surfacing_fork
  contests :
      freshness r now ≡ Freshness.fresh
      → r.generation_on_path ≡ true
      → has_slot lineage.protected r.document r.generation ≡ true
      → ¬ IsRewind r lineage considered
      → Fate r now lineage considered keep_contesting
  implicated :
      (freshness r now ≡ Freshness.stale) ⊎ (r.generation_on_path ≡ true)
      → has_slot lineage.protected r.document r.generation ≡ false
      → has_slot lineage.implicated r.document r.generation ≡ true
      → Fate r now lineage considered keep_surfacing_fork
  untouched :
      (freshness r now ≡ Freshness.stale) ⊎ (r.generation_on_path ≡ true)
      → has_slot lineage.protected r.document r.generation ≡ false
      → has_slot lineage.implicated r.document r.generation ≡ false
      → Fate r now lineage considered keep

-- The rules give each record its fate. A fresh record off its delegation path is rejected.
-- Otherwise a record of a protected generation is rejected when stale; when fresh it is rejected
-- with its fork surfaced if the zone was seen further on, and contests its document if not.
-- Otherwise a record of an implicated generation stays and surfaces the fork, and any other stays.
pub generation_rule-Fate :
    (r : BindingEvidence) (now : UnixSeconds) (lineage : LineageView)
    (considered : List BindingEvidence)
    → Fate r now lineage considered (generation_rule r now lineage considered)
unfolding generation_rule
generation_rule-Fate r now lineage considered =
    by_freshness (freshness r now) refl (Bool-cases r.generation_on_path)
      (Bool-cases (has_slot lineage.protected r.document r.generation))
  where
    gives :
        (d : Disposition)
        → Fate r now lineage considered d
        → generation_rule r now lineage considered ≡ d
        → Fate r now lineage considered (generation_rule r now lineage considered)
    gives d f e = subst (Fate r now lineage considered) (sym e) f

    unprotected :
        (freshness r now ≡ Freshness.stale) ⊎ (r.generation_on_path ≡ true)
        → has_slot lineage.protected r.document r.generation ≡ false
        → Fate r now lineage considered (generation_rule r now lineage considered)
    unprotected o q = elim (Bool-cases (has_slot lineage.implicated r.document r.generation)) [
      | inl i ↦ gives keep_surfacing_fork (implicated o q i) (ground arith)
      | inr i ↦ gives keep (untouched o q i) (ground arith)
    ]

    by_freshness :
        (f : Freshness)
        → freshness r now ≡ f
        → (r.generation_on_path ≡ true) ⊎ (r.generation_on_path ≡ false)
        → (has_slot lineage.protected r.document r.generation ≡ true)
          ⊎ (has_slot lineage.protected r.document r.generation ≡ false)
        → Fate r now lineage considered (generation_rule r now lineage considered)
    by_freshness Freshness.fresh e (inr p) q = gives reject (off_path e p) (ground arith)
    by_freshness Freshness.fresh e (inl p) (inr q) = unprotected (inr p) q
    by_freshness Freshness.fresh e (inl p) (inl q) =
        elim (Bool-cases (is_corroborated r lineage considered)) [
          | inl c ↦
              gives reject_surfacing_fork
                (rewound e p q ((is_corroborated_iff r lineage considered).0 c)) (ground arith)
          | inr c ↦
              gives keep_contesting
                (contests e p q (λ w. cc (c, (is_corroborated_iff r lineage considered).1 w)))
                (ground arith)
        ]
    by_freshness Freshness.stale e p (inl q) = gives reject (stale_protected e q) (ground arith)
    by_freshness Freshness.stale e p (inr q) = unprotected (inl e) q

module _ (now : UnixSeconds) (lineage : LineageView) (all : List BindingEvidence) where
  abbrev fate : BindingEvidence → Disposition
  fate r = generation_rule r now lineage all

  In-apply :
      (d : Disposition) (x r : BindingEvidence) (g : GradedRecords)
      → (In x (apply_disposition d r g).surviving) ↔ (((x ≡ r) × Survives d) ⊎ In x g.surviving)
  unfolding apply_disposition
  In-apply keep x r g = (
    λ m. elim m [ inl e ↦ inl (e, tt) | inr k ↦ inr k ],
    λ m. elim m [ inl e ↦ inl e.0 | inr k ↦ inr k ],
  )
  In-apply keep_surfacing_fork x r g = (
    λ m. elim m [ inl e ↦ inl (e, tt) | inr k ↦ inr k ],
    λ m. elim m [ inl e ↦ inl e.0 | inr k ↦ inr k ],
  )
  In-apply keep_contesting x r g = (
    λ m. elim m [ inl e ↦ inl (e, tt) | inr k ↦ inr k ],
    λ m. elim m [ inl e ↦ inl e.0 | inr k ↦ inr k ],
  )
  In-apply reject x r g = (λ m. inr m, λ m. elim m [ inl e ↦ absurd e.1 | inr k ↦ k ])
  In-apply reject_surfacing_fork x r g =
      (λ m. inr m, λ m. elim m [ inl e ↦ absurd e.1 | inr k ↦ k ])

  grade_each_iff :
      (rs : List BindingEvidence) (x : BindingEvidence)
      → In x (grade_each now lineage all rs).surviving ↔ (In x rs × Survives (fate x))
  unfolding grade_each
  grade_each_iff [] x = (λ m. elim m [ ], λ m. elim m.0 [ ])
  grade_each_iff (r ∷ rs) x = (
    λ m. elim ((In-apply (fate r) x r (grade_each now lineage all rs)).0 m) [
      | inl (e, s) ↦ (inl e, subst (λ y. Survives (fate y)) (sym e) s)
      | inr k ↦ (let (n, s) = (grade_each_iff rs x).0 k in (inr n, s))
    ],
    λ m.
        (In-apply (fate r) x r (grade_each now lineage all rs)).1
          (split (grade_each_iff rs x).1 m.0 m.1),
  )
    where
      split :
          (In x rs × Survives (fate x) → In x (grade_each now lineage all rs).surviving)
          → In x (r ∷ rs)
          → Survives (fate x)
          → ((x ≡ r) × Survives (fate r)) ⊎ In x (grade_each now lineage all rs).surviving
      split ih (inl e) s = inl (e, subst (λ y. Survives (fate y)) e s)
      split ih (inr k) s = inr (ih (k, s))

-- Exactly the considered records that the generation rules keep, with or without a fork surfaced
-- or a contest, survive stage 4.
pub surviving_iff :
    (considered : List BindingEvidence) (now : UnixSeconds) (lineage : LineageView)
    (r : BindingEvidence)
    → In r (apply_generation_rules considered now lineage).surviving
      ↔ (In r considered × Survives (generation_rule r now lineage considered))
unfolding apply_generation_rules
surviving_iff considered now lineage r = grade_each_iff now lineage considered considered r
