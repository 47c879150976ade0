-- ===== src/Verifier/Rules/Grading.antt =====
-- The whole output of stage 4: `apply_generation_rules` of state.rs.
use onomancy.Prelude.{List, [], ◌∷◌, true, false, ◌≡◌, ◌↔◌, ◌⊎◌, inl, inr, refl, subst, In}
use onomancy.Core.{DocAnchor, UnixSeconds}
use onomancy.Dnssec.Freshness.{Freshness}
use onomancy.Verifier.Evidence.{BindingEvidence, freshness}
use onomancy.Verifier.Lineage.{Fork, LineageView, has_slot}
use onomancy.Verifier.Rules.{
  Disposition, keep, keep_surfacing_fork, keep_contesting, reject, reject_surfacing_fork,
  GradedRecords, generation_rule, apply_disposition, grade_each, apply_generation_rules,
}
use onomancy.Verifier.Rules.Fate.{
  Survives, Surfaces, IsRewind, Fate, off_path, stale_protected, rewound, contests, implicated,
  untouched, generation_rule-Fate, surviving_iff,
}

module _ (now : UnixSeconds) (lineage : LineageView) (considered : List BindingEvidence) where
  -- A record that is not fresh off its delegation path.
  abbrev pub IsOnPath : BindingEvidence → Type 0
  IsOnPath r = (freshness r now ≡ Freshness.stale) ⊎ (r.generation_on_path ≡ true)

  -- A fresh record on its path attests a generation that the lineage protects.
  pub record IsFreshProtected (r : BindingEvidence) : Type 0 where
    pub fresh : freshness r now ≡ Freshness.fresh
    pub on_path : r.generation_on_path ≡ true
    pub protected : has_slot lineage.protected r.document r.generation ≡ true

  -- And no considered record of the document attests a generation that descends from it.
  pub record IsContest (r : BindingEvidence) : Type 0 where
    pub attests : IsFreshProtected r
    pub unseen : ¬ IsRewind r lineage considered

  pub data Stays (r : BindingEvidence) : Type 0 where
    unprotected : IsOnPath r → has_slot lineage.protected r.document r.generation ≡ false → Stays r
    contesting : IsContest r → Stays r

  pub data Forks (r : BindingEvidence) : Type 0 where
    over_implicated :
        IsOnPath r
        → has_slot lineage.protected r.document r.generation ≡ false
        → has_slot lineage.implicated r.document r.generation ≡ true
        → Forks r
    over_protected : IsFreshProtected r → Forks r

  -- What a grading of the considered records holds.
  pub record IsGrading (g : GradedRecords) : Type 0 where
    pub surviving : (r : BindingEvidence) → In r g.surviving ↔ (In r considered × Stays r)
    pub forks :
        (f : Fork)
        → In f g.forks ↔ (
            (r : BindingEvidence) × In r considered
            × (f ≡ record { document = r.document; at = r.generation })
            × Forks r)
    pub contested_documents :
        (d : DocAnchor)
        → In d g.contested_documents
          ↔ ((r : BindingEvidence) × In r considered × (d ≡ r.document) × IsContest r)

  Contests : Disposition → Type 0
  Contests keep_contesting = Unit
  Contests _ = ⊥

  abbrev fate : BindingEvidence → Disposition
  fate r = generation_rule r now lineage considered

  off :
      (r : BindingEvidence)
      → freshness r now ≡ Freshness.fresh
      → r.generation_on_path ≡ false
      → ¬ IsOnPath r
  off r f p (inl s) = cc (f, s)
  off r f p (inr o) = cc (p, o)

  -- A fate decides whether the record stays.
  Fate-Stays :
      (r : BindingEvidence) (d : Disposition)
      → Fate r now lineage considered d
      → Survives d ↔ Stays r
  Fate-Stays r _ (off_path f p) = (λ s. absurd s, gone)
    where
      gone : Stays r → ⊥
      gone (unprotected o q) = off r f p o
      gone (contesting c) = cc (c.attests.on_path, p)
  Fate-Stays r _ (stale_protected f p) = (λ s. absurd s, gone)
    where
      gone : Stays r → ⊥
      gone (unprotected o q) = cc (p, q)
      gone (contesting c) = cc (c.attests.fresh, f)
  Fate-Stays r _ (rewound f o p w) = (λ s. absurd s, gone)
    where
      gone : Stays r → ⊥
      gone (unprotected _ q) = cc (p, q)
      gone (contesting c) = c.unseen w
  Fate-Stays r _ (contests f o p w) = (
    λ s.
        contesting
          (record { attests = record { fresh = f; on_path = o; protected = p }; unseen = w }),
    λ s. tt,
  )
  Fate-Stays r _ (implicated o p i) = (λ s. unprotected o p, λ s. tt)
  Fate-Stays r _ (untouched o p i) = (λ s. unprotected o p, λ s. tt)

  -- And whether it surfaces a fork.
  Fate-Forks :
      (r : BindingEvidence) (d : Disposition)
      → Fate r now lineage considered d
      → Surfaces d ↔ Forks r
  Fate-Forks r _ (off_path f p) = (λ s. absurd s, gone)
    where
      gone : Forks r → ⊥
      gone (over_implicated o q i) = off r f p o
      gone (over_protected c) = cc (c.on_path, p)
  Fate-Forks r _ (stale_protected f p) = (λ s. absurd s, gone)
    where
      gone : Forks r → ⊥
      gone (over_implicated o q i) = cc (p, q)
      gone (over_protected c) = cc (c.fresh, f)
  Fate-Forks r _ (rewound f o p w) =
      (λ s. over_protected (record { fresh = f; on_path = o; protected = p }), λ s. tt)
  Fate-Forks r _ (contests f o p w) =
      (λ s. over_protected (record { fresh = f; on_path = o; protected = p }), λ s. tt)
  Fate-Forks r _ (implicated o p i) = (λ s. over_implicated o p i, λ s. tt)
  Fate-Forks r _ (untouched o p i) = (λ s. absurd s, gone)
    where
      gone : Forks r → ⊥
      gone (over_implicated _ q j) = cc (i, j)
      gone (over_protected c) = cc (c.protected, p)

  -- And whether it contests its document.
  Fate-IsContest :
      (r : BindingEvidence) (d : Disposition)
      → Fate r now lineage considered d
      → Contests d ↔ IsContest r
  unfolding Contests
  Fate-IsContest r _ (off_path f p) = (λ s. absurd s, λ c. cc (c.attests.on_path, p))
  Fate-IsContest r _ (stale_protected f p) = (λ s. absurd s, λ c. cc (c.attests.fresh, f))
  Fate-IsContest r _ (rewound f o p w) = (λ s. absurd s, λ c. c.unseen w)
  Fate-IsContest r _ (contests f o p w) = (
    λ s. record { attests = record { fresh = f; on_path = o; protected = p }; unseen = w },
    λ s. tt,
  )
  Fate-IsContest r _ (implicated o p i) = (λ s. absurd s, λ c. cc (c.attests.protected, p))
  Fate-IsContest r _ (untouched o p i) = (λ s. absurd s, λ c. cc (c.attests.protected, p))

  -- A list that the fold adds an item of each record to, where its fate meets `P`.
  collected :
      {X : Type 0} (field : GradedRecords → List X) (item : BindingEvidence → X)
      (P : Disposition → Type 0)
      → ((x : X) → ¬ In x (field (grade_each now lineage considered [])))
      → ((d : Disposition) (r : BindingEvidence) (g : GradedRecords) (x : X)
          → In x (field (apply_disposition d r g)) ↔ (((x ≡ item r) × P d) ⊎ In x (field g)))
      → (rs : List BindingEvidence) (x : X)
      → In x (field (grade_each now lineage considered rs))
        ↔ ((r : BindingEvidence) × In r rs × (x ≡ item r) × P (fate r))
  unfolding grade_each
  collected field item P void step [] x = (λ m. absurd (void x m), λ (r, m, e, p). elim m [ ])
  collected field item P void step (r ∷ rs) x =
      let ih = collected field item P void step rs x in
      let here = step (fate r) r (grade_each now lineage considered rs) x in
      (
        λ m. elim (here.0 m) [
          | inl (e, p) ↦ (r, inl refl, e, p)
          | inr k ↦ (let (s, n, e, p) = ih.0 k in (s, inr n, e, p))
        ],
        λ (s, n, e, p). here.1 (elim n [
          | inl q ↦ inl (subst (λ z. (x ≡ item z) × P (fate z)) q (e, p))
          | inr k ↦ inr (ih.1 (s, k, e, p))
        ]),
      )

  given : (r : BindingEvidence) → Fate r now lineage considered (fate r)
  given r = generation_rule-Fate r now lineage considered

  fork_of : BindingEvidence → Fork
  fork_of r = record { document = r.document; at = r.generation }

  surfaced :
      (f : Fork) (r : BindingEvidence) (g : GradedRecords)
      → In f (record { document = r.document; at = r.generation } ∷ g.forks)
        ↔ (((f ≡ fork_of r) × Surfaces keep_contesting) ⊎ In f g.forks)
  unfolding fork_of
  surfaced f r g = (
    λ m. elim m [ inl e ↦ inl (e, tt) | inr k ↦ inr k ],
    λ m. elim m [ inl e ↦ inl e.0 | inr k ↦ inr k ],
  )

  forks_step :
      (d : Disposition) (r : BindingEvidence) (g : GradedRecords) (f : Fork)
      → In f (apply_disposition d r g).forks ↔ (((f ≡ fork_of r) × Surfaces d) ⊎ In f g.forks)
  unfolding apply_disposition fork_of
  forks_step keep r g f = (λ m. inr m, λ m. elim m [ inl e ↦ absurd e.1 | inr k ↦ k ])
  forks_step reject r g f = (λ m. inr m, λ m. elim m [ inl e ↦ absurd e.1 | inr k ↦ k ])
  forks_step keep_surfacing_fork r g f = surfaced f r g
  forks_step keep_contesting r g f = surfaced f r g
  forks_step reject_surfacing_fork r g f = surfaced f r g

  contested_step :
      (d : Disposition) (r : BindingEvidence) (g : GradedRecords) (x : DocAnchor)
      → In x (apply_disposition d r g).contested_documents
        ↔ (((x ≡ r.document) × Contests d) ⊎ In x g.contested_documents)
  unfolding apply_disposition Contests
  contested_step keep_contesting r g x = (
    λ m. elim m [ inl e ↦ inl (e, tt) | inr k ↦ inr k ],
    λ m. elim m [ inl e ↦ inl e.0 | inr k ↦ inr k ],
  )
  contested_step keep r g x = (λ m. inr m, λ m. elim m [ inl e ↦ absurd e.1 | inr k ↦ k ])
  contested_step reject r g x = (λ m. inr m, λ m. elim m [ inl e ↦ absurd e.1 | inr k ↦ k ])
  contested_step keep_surfacing_fork r g x =
      (λ m. inr m, λ m. elim m [ inl e ↦ absurd e.1 | inr k ↦ k ])
  contested_step reject_surfacing_fork r g x =
      (λ m. inr m, λ m. elim m [ inl e ↦ absurd e.1 | inr k ↦ k ])

-- Stage 4 keeps exactly the considered records of an unprotected generation that are stale or on their
-- delegation path, and those that contest: fresh, on their path, of a protected generation, where no
-- considered record of the document attests one that descends from it. It surfaces a fork exactly for
-- the records of the first kind whose generation is implicated, and for every fresh record on its path
-- of a protected generation. It contests exactly the documents of the records that contest.
pub apply_generation_rules-IsGrading :
    (considered : List BindingEvidence) (now : UnixSeconds) (lineage : LineageView)
    → IsGrading now lineage considered (apply_generation_rules considered now lineage)
unfolding apply_generation_rules grade_each fork_of
apply_generation_rules-IsGrading considered now lineage = record {
  surviving = λ r.
      let kept = surviving_iff considered now lineage r in
      let fate_of = Fate-Stays now lineage considered r _ (given now lineage considered r) in
      (λ m. let (n, s) = kept.0 m in (n, fate_of.0 s), λ (n, s). kept.1 (n, fate_of.1 s));
  forks = λ f.
      let found =
        collected now lineage considered (λ (g : GradedRecords). g.forks)
          (fork_of now lineage considered) Surfaces (λ x m. elim m [ ])
          (forks_step now lineage considered) considered f in
      (
        λ m.
            let (r, n, e, s) = found.0 m in
            (r, n, e, (Fate-Forks now lineage considered r _ (given now lineage considered r)).0 s),
        λ (r, n, e, s).
            found.1 (
              r,
              n,
              e,
              (Fate-Forks now lineage considered r _ (given now lineage considered r)).1 s,
            ),
      );
  contested_documents = λ d.
      let found =
        collected now lineage considered (λ (g : GradedRecords). g.contested_documents)
          (λ (r : BindingEvidence). r.document) (Contests now lineage considered)
          (λ x m. elim m [ ]) (contested_step now lineage considered) considered d in
      (
        λ m.
            let (r, n, e, s) = found.0 m in
            (
              r,
              n,
              e,
              (Fate-IsContest now lineage considered r _ (given now lineage considered r)).0 s,
            ),
        λ (r, n, e, s). found.1 (
          r,
          n,
          e,
          (Fate-IsContest now lineage considered r _ (given now lineage considered r)).1 s,
        ),
      );
}
