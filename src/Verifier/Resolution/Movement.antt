-- ===== src/Verifier/Resolution/Movement.antt =====
-- When stage 5 of state.rs moves a name away from its accepted document.
use onomancy.Prelude.{
  List, [], ◌∷◌, Bool, true, false, not, ◌||◌, Option, none, some, some-injective, ◌==◌, ◌≡◌, ◌⊎◌,
  inl, inr, refl, sym, ap, ◌∙◌, subst, In, In-filter, filter, find, first, last_or, or-true, arith,
  Bool-cases,
}
use onomancy.Core.{DocAnchor}
use onomancy.Dnssec.Freshness.{is_fresh}
use onomancy.Dnssec.Units.{DnsName, GenerationKey}
use onomancy.Verifier.Evidence.{Evidence, BindingEvidence, freshness}
use onomancy.Verifier.Succession.{proves, chain_from}
use onomancy.Verifier.Decisions.{Decisions}
use onomancy.Verifier.Acceptances.{AcceptanceResolution, winning_acceptance}
use onomancy.Verifier.Resolution.{
  LadderContext, DocumentResolution, best_records, is_dominated, incumbent_of, settle,
  resolve_among, resolve_document, no_resolution,
}

-- The licence to accept the document of a candidate in the place of the incumbent.
pub record IsMove (ctx : LadderContext) (best : List BindingEvidence) (incumbent d : DocAnchor)
    : Type 0 where
  pub challenger : BindingEvidence
  pub held : In challenger best
  pub names : challenger.document ≡ d
  pub licence :
      (is_fresh (freshness challenger ctx.now) ≡ true) ⊎ (proves ctx.graph incumbent d ≡ true)

settle-cases :
    (ctx : LadderContext) (maximal : BindingEvidence) (incumbent : DocAnchor) (contested : Bool)
    → (settle ctx maximal incumbent contested ≡ incumbent)
      ⊎ ((contested ≡ false)
          × ((maximal.document ≡ settle ctx maximal incumbent contested)
              × ((is_fresh (freshness maximal ctx.now) ≡ true)
                  ⊎ (proves ctx.graph incumbent maximal.document ≡ true))))
unfolding settle
settle-cases ctx maximal incumbent contested =
    elim (Bool-cases (maximal.document == incumbent || contested)) [
      | inl e ↦ inl (rw e refl)
      | inr e ↦
          (elim (Bool-cases
            (is_fresh (freshness maximal ctx.now) || proves ctx.graph incumbent maximal.document)) [
              | inl f ↦ inr (
                ground arith,
                (
                  rw (e, f) refl,
                  or-true (is_fresh (freshness maximal ctx.now))
                      (proves ctx.graph incumbent maximal.document) f,
                ),
              )
              | inr f ↦ inl (rw (e, f) refl)
            ])
    ]

first-In : (xs : List BindingEvidence) (r : BindingEvidence) → first xs ≡ some r → In r xs
first-In [] r e = cc e
first-In (x ∷ xs) r e = inl (sym (some-injective _ _ e))

found_document :
    (document d : DocAnchor) (g : GenerationKey) (o : Option BindingEvidence)
    → ◌≡◌ {A = Option (DocAnchor × GenerationKey)}
        (elim o [ none ↦ none | some r ↦ some (document, r.generation) ])
        (some (d, g))
    → document ≡ d
found_document document d g none k = cc k
found_document document d g (some r) k =
    ap (λ (p : DocAnchor × GenerationKey). p.0) (some-injective _ _ k)

module _ (ctx : LadderContext) (surviving best : List BindingEvidence) (f : BindingEvidence)
    (acceptance : AcceptanceResolution) (base d : DocAnchor) (g : GenerationKey) where
  undominated_among : List BindingEvidence
  undominated_among = filter (λ (c : BindingEvidence). not (is_dominated ctx best c)) best

  abbrev maximal_of : Option BindingEvidence → BindingEvidence
  maximal_of o = elim o [ none ↦ f | some r ↦ r ]

  maximal-In :
      In f best
      → (o : Option BindingEvidence) → first undominated_among ≡ o
      → In (maximal_of o) best
  unfolding undominated_among
  maximal-In m none e = m
  maximal-In m (some r) e =
      (In-filter (λ (c : BindingEvidence). not (is_dominated ctx best c)) r best
        (first-In undominated_among r e)).0

  -- What moves the accepted document in `resolve_among`.
  resolve_among-moves :
      In f best
      → acceptance.winner ≡ some base
      → (resolve_among ctx surviving best f acceptance).accepted ≡ some (d, g)
      → (d ≡ last_or base (chain_from ctx.graph base))
        ⊎ (((resolve_among ctx surviving best f acceptance).contested ≡ false)
            × IsMove ctx best (last_or base (chain_from ctx.graph base)) d)
  unfolding resolve_among incumbent_of undominated_among
  resolve_among-moves m w h = elim (settle-cases ctx maximal incumbent contested) [
    | inl e ↦ inl (sym name ∙ (e ∙ incumbent_is))
    | inr (c, (e, licence)) ↦ inr (
      c,
      record {
        challenger = maximal;
        held = maximal-In m (first undominated_among) refl;
        names = e ∙ name;
        licence = elim licence [
          | inl fresh_now ↦ inl fresh_now
          | inr p ↦ inr (
              subst (λ i. proves ctx.graph i d ≡ true) incumbent_is
                (subst (λ x. proves ctx.graph incumbent x ≡ true) (e ∙ name) p))
        ];
      },
    )
  ]
    where
      maximal : BindingEvidence
      maximal = maximal_of (first undominated_among)

      incumbent : DocAnchor
      incumbent = incumbent_of ctx acceptance.winner maximal.document

      contested : Bool
      contested = (resolve_among ctx surviving best f acceptance).contested

      incumbent_is : incumbent ≡ last_or base (chain_from ctx.graph base)
      incumbent_is = rw (incumbent_of, w) refl

      name : settle ctx maximal incumbent contested ≡ d
      name =
          found_document (settle ctx maximal incumbent contested) d g
            (find (λ (r : BindingEvidence). r.document == settle ctx maximal incumbent contested)
              best)
            h

-- Where an acceptance stands, a name moves off the end of its accepted chain only uncontested, and
-- only to a candidate that is fresh or that unforked succession proves from there: a stale and
-- unproven challenger never displaces an accepted document.
pub resolve_document-moves :
    (ctx : LadderContext) (surviving : List BindingEvidence) (hostname : DnsName)
    (decisions : Decisions) (evidence : Evidence) (base d : DocAnchor) (g : GenerationKey)
    → (winning_acceptance hostname decisions evidence).winner ≡ some base
    → (resolve_document ctx surviving hostname decisions evidence).accepted ≡ some (d, g)
    → (d ≡ last_or base (chain_from ctx.graph base))
      ⊎ (((resolve_document ctx surviving hostname decisions evidence).contested ≡ false)
          × IsMove ctx (best_records ctx surviving) (last_or base (chain_from ctx.graph base)) d)
unfolding resolve_document
resolve_document-moves ctx surviving hostname decisions evidence base d g w h =
    split (first best) refl h
  where
    best : List BindingEvidence
    best = best_records ctx surviving

    after : Option BindingEvidence → DocumentResolution
    after o = elim o [
      | none ↦ no_resolution
      | some f ↦ resolve_among ctx surviving best f (winning_acceptance hostname decisions evidence)
    ]

    split :
        (o : Option BindingEvidence)
        → first best ≡ o
        → (after o).accepted ≡ some (d, g)
        → (d ≡ last_or base (chain_from ctx.graph base))
          ⊎ (((after o).contested ≡ false)
              × IsMove ctx best (last_or base (chain_from ctx.graph base)) d)
    split none e k = cc k
    split (some f) e k =
        resolve_among-moves ctx surviving best f (winning_acceptance hostname decisions evidence)
          base d g (first-In best f e) w k
