-- ===== src/Verifier/State/Masking.antt =====
-- What `derive_host` and `compute` of state.rs promise of their output.
use onomancy.Prelude.{
  List, [], ◌∷◌, ◌++◌, Bool, true, false, not, ◌&&◌, ◌||◌, any, any-In, elem, filter, Option, none,
  some, ◌==◌, ◌≡◌, ◌≢◌, In, In-filter, and-true, eqb→eq, arith, if◌then◌else◌, Bool-cases, inl, inr,
  subst, sym, In-elem,
}
use onomancy.Prelude.Sort.{In-sort}
use onomancy.Core.{DocAnchor, UnixSeconds, Digest}
use onomancy.Dnssec.Freshness.{Freshness, is_fresh}
use onomancy.Dnssec.ZoneStateKey.{words}
use onomancy.Dnssec.Units.{DnsName, AuthorityVerifier}
use onomancy.Verifier.Evidence.{Evidence, BindingEvidence, is_certificate, is_deferred, freshness}
use onomancy.Verifier.Lineage.{LineageView, build_lineage}
use onomancy.Verifier.Succession.{for_hostname}
use onomancy.Verifier.Decisions.{Decisions, get_all}
use onomancy.Verifier.Rules.{GradedRecords, apply_generation_rules}
use onomancy.Verifier.Rules.Grading.{IsContest, apply_generation_rules-IsGrading}
use onomancy.Verifier.Resolution.{bridged, LadderContext, DocumentResolution, resolve_document}
use onomancy.Verifier.State.{
  AcceptedBinding, confirmed, admitted, corroborated, considered, global_rotation_exclusions,
  grade_binding, is_contested_generation, derive_host,
}

-- What a considered record of a hostname meets.
pub record IsAdmitted (evidence : Evidence) (hostname : DnsName) (excluded : List Digest)
    (now : UnixSeconds) (r : BindingEvidence) : Type 0 where
  pub held : In r evidence.records
  pub same_hostname : r.hostname ≡ hostname
  pub not_excluded : elem r.hash excluded ≡ false
  pub not_deferred : is_deferred r now ≡ false

not-true : (b : Bool) → not b ≡ true → b ≡ false
not-true b h = ground arith

pub considered-IsAdmitted :
    (evidence : Evidence) (hostname : DnsName) (excluded : List Digest) (now : UnixSeconds)
    (r : BindingEvidence)
    → In r (considered evidence hostname excluded now)
    → IsAdmitted evidence hostname excluded now r
unfolding considered
considered-IsAdmitted evidence hostname excluded now r m =
    let records = admitted evidence hostname excluded now in
    let rides = λ (x : BindingEvidence).
      is_certificate x.attestation || elem x.document (corroborated records) in
    let (a, _) = In-filter rides r records (
      In-sort (λ (x : BindingEvidence). x.document ∷ (words x.key ++ x.hash ∷ [])) r
        (filter rides records) m) in
    let here = λ (x : BindingEvidence). x.hostname == hostname in
    let kept = λ (x : BindingEvidence). not (elem x.hash excluded) in
    let begun = λ (x : BindingEvidence). not (is_deferred x now) in
    let (b, nd) = In-filter begun r (filter kept (filter here evidence.records)) a in
    let (c, ne) = In-filter kept r (filter here evidence.records) b in
    let (d, eh) = In-filter here r evidence.records c in
    record {
      held = d;
      same_hostname = eqb→eq r.hostname hostname eh;
      not_excluded = not-true _ ne;
      not_deferred = not-true _ nd;
    }

-- The records that stage 4 leaves for the hostname.
abbrev pub survivors : Evidence → DnsName → UnixSeconds → Decisions → List BindingEvidence
survivors evidence hostname now decisions =
    (apply_generation_rules (considered evidence hostname (get_all hostname decisions.resets) now)
      now (build_lineage evidence (global_rotation_exclusions decisions.resets))).surviving

abbrev pub context :
    AuthorityVerifier → DnsName → Evidence → UnixSeconds → Decisions → LadderContext
context authority hostname evidence now decisions = record {
  authority = authority;
  graph = for_hostname evidence hostname (get_all hostname decisions.resets);
  lineage = build_lineage evidence (global_rotation_exclusions decisions.resets);
  now = now;
}

-- The unmasked binding that stages 5 and 6 make.
unfoldable pub binding_of :
    AuthorityVerifier → DnsName → Evidence → UnixSeconds → Decisions → Option AcceptedBinding
binding_of authority hostname evidence now decisions =
    grade_binding (context authority hostname evidence now decisions)
      (survivors evidence hostname now decisions)
      (resolve_document (context authority hostname evidence now decisions)
        (survivors evidence hostname now decisions) hostname decisions evidence)

pub accepted-binding_of :
    (authority : AuthorityVerifier) (hostname : DnsName) (evidence : Evidence) (now : UnixSeconds)
    (decisions : Decisions) (pins : List (DnsName × List DocAnchor)) (b : AcceptedBinding)
    → (derive_host authority hostname evidence now decisions pins).accepted ≡ some b
    → binding_of authority hostname evidence now decisions ≡ some b
unfolding derive_host binding_of
accepted-binding_of authority hostname evidence now decisions pins b h =
    split (derive_host authority hostname evidence now decisions pins).contested h
  where
    split :
        (c : Bool)
        → (if c then none else binding_of authority hostname evidence now decisions) ≡ some b
        → binding_of authority hostname evidence now decisions ≡ some b
    split true k = cc k
    split false k = k

-- An accepted binding is of an uncontested document: no considered record of it is fresh and on its path
-- with a generation that the lineage protects, unless a considered record of the document attests
-- a generation that descends from it.
pub accepted-uncontested :
    (authority : AuthorityVerifier) (hostname : DnsName) (evidence : Evidence) (now : UnixSeconds)
    (decisions : Decisions) (pins : List (DnsName × List DocAnchor)) (b : AcceptedBinding)
    (r : BindingEvidence)
    → (derive_host authority hostname evidence now decisions pins).accepted ≡ some b
    → In r (considered evidence hostname (get_all hostname decisions.resets) now)
    → r.document ≡ b.document
    → ¬ IsContest now
        (build_lineage evidence (global_rotation_exclusions decisions.resets))
        (considered evidence hostname (get_all hostname decisions.resets) now)
        r
unfolding derive_host is_contested_generation
accepted-uncontested authority hostname evidence now decisions pins b r h m same contest =
    elim (Bool-cases chosen) [
      | inl e ↦ (let k = subst (λ c. (if c then none else binding) ≡ some b) e h in cc k)
      | inr e ↦
          let made : binding ≡ some b = subst (λ c. (if c then none else binding) ≡ some b) e h in
          let uncontested : is_contested_generation graded.contested_documents binding ≡ false =
            ground arith in
          let unlisted : elem b.document graded.contested_documents ≡ false =
            subst (λ o. is_contested_generation graded.contested_documents o ≡ false) made
              uncontested in
          cc (unlisted, In-elem b.document graded.contested_documents listed)
    ]
  where
    lineage : LineageView
    lineage = build_lineage evidence (global_rotation_exclusions decisions.resets)

    records : List BindingEvidence
    records = considered evidence hostname (get_all hostname decisions.resets) now

    graded : GradedRecords
    graded = apply_generation_rules records now lineage

    resolution : DocumentResolution
    resolution =
        resolve_document (context authority hostname evidence now decisions) graded.surviving
          hostname decisions evidence

    binding : Option AcceptedBinding
    binding =
        grade_binding (context authority hostname evidence now decisions) graded.surviving
          resolution

    chosen : Bool
    chosen = resolution.contested || is_contested_generation graded.contested_documents binding

    listed : In b.document graded.contested_documents
    listed =
        ((apply_generation_rules-IsGrading records now lineage).contested_documents b.document).1
          (r, m, sym same, contest)

-- A graded binding has the resolution's document and generation, and it is confirmed only on fresh
-- support that no bridge of provisional hops stands behind.
pub record IsGraded (ctx : LadderContext) (surviving : List BindingEvidence)
    (resolution : DocumentResolution) (b : AcceptedBinding) : Type 0 where
  pub resolved : resolution.accepted ≡ some (b.document, b.generation)
  pub fresh :
      b.grade ≡ confirmed
      → (r : BindingEvidence) × In r surviving
        × (r.document ≡ b.document)
        × (freshness r ctx.now ≡ Freshness.fresh)
  pub unbridged : b.grade ≡ confirmed → b.continuity ≢ bridged

abbrev supports : LadderContext → DocAnchor → BindingEvidence → Bool
supports ctx document r = r.document == document && is_fresh (freshness r ctx.now)

is_fresh-fresh : (f : Freshness) → is_fresh f ≡ true → f ≡ Freshness.fresh
is_fresh-fresh f h = ground arith

module _ (ctx : LadderContext) (surviving : List BindingEvidence) (resolution : DocumentResolution)
    (b : AcceptedBinding) where
  resolved_as :
      grade_binding ctx surviving resolution ≡ some b
      → resolution.accepted ≡ some (b.document, b.generation)
  unfolding grade_binding
  resolved_as h = ground arith

  confirmed_by :
      grade_binding ctx surviving resolution ≡ some b
      → b.grade ≡ confirmed
      → (any (supports ctx b.document) surviving ≡ true) × (b.continuity ≢ bridged)
  unfolding grade_binding
  confirmed_by h c = ground arith

  pub grade_binding-IsGraded :
      grade_binding ctx surviving resolution ≡ some b → IsGraded ctx surviving resolution b
  grade_binding-IsGraded h = record {
    resolved = resolved_as h;
    fresh = λ c.
        let (r, m, e) = any-In (supports ctx b.document) surviving (confirmed_by h c).0 in
        let (d, f) = and-true (r.document == b.document) (is_fresh (freshness r ctx.now)) e in
        (r, m, eqb→eq r.document b.document d, is_fresh-fresh (freshness r ctx.now) f);
    unbridged = λ c. (confirmed_by h c).1;
  }
