-- ===== src/Verifier/State/Certified.antt =====
-- A binding is accepted only with both directions proven: `derive_host` and `compute` of state.rs
-- over the whole pipeline from the store.
use onomancy.Prelude.{List, true, some, ◌≡◌, refl, sym, subst, ap, ◌∙◌, In, map-In}
use onomancy.Prelude.Result.{ok}
use onomancy.Core.{DocAnchor, UnixSeconds}
use onomancy.Dnssec.Freshness.{Freshness}
use onomancy.Dnssec.Units.{
  DnsName, Certificate, ChainProof, ChainValidator, AuthorityVerifier, TxtRecord,
}
use onomancy.Verifier.Store.{Hasher, Store, record_item}
use onomancy.Verifier.Evidence.{
  Evidence, BindingEvidence, Attestation, certificate, is_certificate, freshness,
}
use onomancy.Verifier.Evidence.Validate.{validate_record}
use onomancy.Verifier.Evidence.Sound.{validate_record-ok}
use onomancy.Verifier.Evidence.Extract.{validate_and_extract}
use onomancy.Verifier.Evidence.Extract.Origin.{
  Origin, of_certificate, of_refresh, validate_and_extract-Origin,
}
use onomancy.Verifier.Lineage.{build_lineage}
use onomancy.Verifier.Decisions.{Decisions, get_all}
use onomancy.Verifier.Rules.{generation_rule}
use onomancy.Verifier.Rules.Fate.{Survives, surviving_iff}
use onomancy.Verifier.Resolution.{bridged, resolve_document}
use onomancy.Verifier.Resolution.Candidates.{resolve_document-IsSupported}
use onomancy.Verifier.State.{
  AcceptedBinding, BindingState, confirmed, considered, global_rotation_exclusions, derive_host,
  hostnames, compute,
}
use onomancy.Verifier.State.Masking.{
  IsAdmitted, considered-IsAdmitted, survivors, context, binding_of, accepted-binding_of, IsGraded,
  grade_binding-IsGraded,
}

-- An admitted certificate record of the hostname that names the document and passed the generation
-- rules.
pub record HasCertificate (evidence : Evidence) (hostname : DnsName) (now : UnixSeconds)
    (decisions : Decisions) (document : DocAnchor) : Type 0 where
  pub by : BindingEvidence
  pub attested : by.attestation ≡ certificate
  pub names : by.document ≡ document
  pub admitted : IsAdmitted evidence hostname (get_all hostname decisions.resets) now by
  pub survives : Survives (
      generation_rule by now
        (build_lineage evidence (global_rotation_exclusions decisions.resets))
        (considered evidence hostname (get_all hostname decisions.resets) now))

is_certificate-certificate : (a : Attestation) → is_certificate a ≡ true → a ≡ certificate
is_certificate-certificate certificate h = refl
is_certificate-certificate onomancy.Verifier.Evidence.chain_only h = cc h

module _ (authority : AuthorityVerifier) (hostname : DnsName) (evidence : Evidence)
    (now : UnixSeconds) (decisions : Decisions) (pins : List (DnsName × List DocAnchor))
    (b : AcceptedBinding)
    (accepted : (derive_host authority hostname evidence now decisions pins).accepted
      ≡ some b) where
  graded :
      IsGraded
        (context authority hostname evidence now decisions)
        (survivors evidence hostname now decisions)
        (resolve_document
          (context authority hostname evidence now decisions)
          (survivors evidence hostname now decisions)
          hostname
          decisions
          evidence)
        b
  unfolding binding_of
  graded =
      grade_binding-IsGraded (context authority hostname evidence now decisions)
        (survivors evidence hostname now decisions)
        (resolve_document (context authority hostname evidence now decisions)
          (survivors evidence hostname now decisions) hostname decisions evidence)
        b (accepted-binding_of authority hostname evidence now decisions pins b accepted)

  -- An accepted document is named by a certificate record for this very hostname that no reset
  -- excludes, whose time has come, and that the generation rules let through.
  pub accepted-HasCertificate : HasCertificate evidence hostname now decisions b.document
  accepted-HasCertificate =
      let s =
        resolve_document-IsSupported (context authority hostname evidence now decisions)
          (survivors evidence hostname now decisions) hostname decisions evidence b.document
          b.generation graded.resolved in
      let (c, v) =
        (surviving_iff (considered evidence hostname (get_all hostname decisions.resets) now) now
            (build_lineage evidence (global_rotation_exclusions decisions.resets)) s.certified.by).0
          s.certified.held in
      record {
        by = s.certified.by;
        attested = is_certificate-certificate s.certified.by.attestation s.certified.attested;
        names = s.certified.names;
        admitted =
            considered-IsAdmitted evidence hostname (get_all hostname decisions.resets) now
              s.certified.by c;
        survives = v;
      }

  -- A confirmed binding has an admitted record of its document that is fresh at this clock
  -- reading, and its continuity is no bridge.
  pub confirmed-fresh :
      b.grade ≡ confirmed
      → ((r : BindingEvidence) × IsAdmitted evidence hostname
            (get_all hostname decisions.resets)
            now
            r
          × (r.document ≡ b.document)
          × (freshness r now ≡ Freshness.fresh))
        × (b.continuity ≡ bridged → ⊥)
  confirmed-fresh c =
      let (r, m, d, f) = graded.fresh c in
      let k =
        ((surviving_iff (considered evidence hostname (get_all hostname decisions.resets) now) now
            (build_lineage evidence (global_rotation_exclusions decisions.resets)) r).0
          m).0 in
      (
        (
          r,
          considered-IsAdmitted evidence hostname (get_all hostname decisions.resets) now r k,
          d,
          f,
        ),
        graded.unbridged c,
      )

-- A held certificate for the hostname and the document, the proof of its chain, and the TXT record
-- in it that names the document; the chain is proven and the signer authorized.
pub record IsBothWays (v : ChainValidator) (a : AuthorityVerifier) (store : Store)
    (hostname : DnsName) (document : DocAnchor) : Type 0 where
  pub by : Certificate
  pub proof : ChainProof
  pub word : TxtRecord
  pub held : In (record_item by) store.items
  pub hostname_eq : by.hostname ≡ hostname
  pub document_eq : by.root_doc ≡ document
  pub proven : v.validate hostname by.dnssec_chain ≡ some proof
  pub authorized : a.authorizes document by.signer by.delegation_chain ≡ true
  pub in_proof : In word proof.records
  pub names : word.document ≡ document

binding-IsBothWays :
    (v : ChainValidator) (a : AuthorityVerifier) (store : Store) (c : Certificate)
    (r : BindingEvidence)
    → In (record_item c) store.items
    → validate_record v a c c.digest ≡ ok r
    → IsBothWays v a store r.hostname r.document
binding-IsBothWays v a store c r held e =
    let (proof, t, i) = validate_record-ok v a c c.digest r e in
    record {
      by = c;
      proof = proof;
      word = t;
      held = held;
      hostname_eq = sym i.hostname;
      document_eq = sym i.document;
      proven = subst (λ x. v.validate x c.dnssec_chain ≡ some proof) (sym i.hostname) i.proven;
      authorized =
          subst (λ x. a.authorizes x c.signer c.delegation_chain ≡ true) (sym i.document)
            i.authorized;
      in_proof = i.word.held;
      names = i.word.names ∙ sym i.document;
    }

-- The whole verifier, from the store to the state: whatever hostname it lists with an accepted
-- binding, the store holds a certificate that binds exactly this hostname to exactly this document,
-- signed by a signer whom the document authorizes, with a chain that proves a TXT record of the
-- hostname that names the document. Bare chain refreshes, statements and decisions never suffice.
pub compute-IsBothWays :
    (h : Hasher) (v : ChainValidator) (a : AuthorityVerifier) (store : Store) (now : UnixSeconds)
    (decisions : Decisions) (pins : List (DnsName × List DocAnchor)) (hostname : DnsName)
    (s : BindingState) (b : AcceptedBinding)
    → In (hostname, s) (compute h v a store now decisions pins)
    → s.accepted ≡ some b
    → IsBothWays v a store hostname b.document
unfolding compute
compute-IsBothWays h v a store now decisions pins hostname s b m e =
    let evidence = validate_and_extract h v a store in
    let (n, _, q) =
      map-In (λ n. (n, derive_host a n evidence now decisions pins)) (hostname, s)
        (hostnames evidence decisions pins) m in
    let same : hostname ≡ n = ap (λ (p : DnsName × BindingState). p.0) q in
    let state : s ≡ derive_host a n evidence now decisions pins =
      ap (λ (p : DnsName × BindingState). p.1) q in
    let c =
      accepted-HasCertificate a n evidence now decisions pins b
        (subst (λ (x : BindingState). x.accepted ≡ some b) state e) in
    subst (λ x. IsBothWays v a store x b.document) (sym same)
      (subst (λ x. IsBothWays v a store n x) c.names
        (subst (λ x. IsBothWays v a store x c.by.document) c.admitted.same_hostname
          (by_origin c.by c.attested
            (validate_and_extract-Origin h v a store c.by c.admitted.held))))
  where
    by_origin :
        (r : BindingEvidence)
        → r.attestation ≡ certificate
        → Origin h v a store.items r
        → IsBothWays v a store r.hostname r.document
    by_origin r t (of_certificate x held ok_r) = binding-IsBothWays v a store x r held ok_r
    by_origin r t (of_refresh f) = cc (t, f.attestation)
