-- ===== src/Verifier/Verdict/Outcome.antt =====
-- Every answer of `verify` in verdict.rs, with what it stands on.
use onomancy.Prelude.{
  ◌≤◌, ◌<◌, ◌≡◌, ◌≢◌, ◌⊎◌, true, false, none, some, inl, inr, refl, sym, subst, In, ◌==◌, eqb→eq,
  eqb_refl, arith, Bool-cases, Option-cases, if◌then◌else◌,
}
use onomancy.Prelude.Result.{Result, ok, err, ◌>>=◌, map_err}
use onomancy.Core.{Bytes, UnixSeconds, saturating_add, saturating_mul}
use onomancy.Dnssec.Freshness.{Freshness, grade}
use onomancy.Dnssec.Units.{
  Certificate, DnsName, ChainProof, ChainValidator, AuthorityVerifier, TxtRecord,
}
use onomancy.Verifier.Evidence.{BindingEvidence, is_deferred, freshness, skew_ms}
use onomancy.Verifier.Evidence.Validate.{RecordRejected, chain, signer, unattested, validate_record}
use onomancy.Verifier.Evidence.Sound.{IsBinding, zone_word-none, validate_record-ok}
use onomancy.Verifier.Verdict.{
  GenerationCheck, on_path, provisional, Verdict, Rejection, chain_rejected, signer_not_authorized,
  document_not_attested, decode, deferred, generation_off_path, hostname_mismatch, rejection,
  generation_standing, judge, verify_certificate, verify,
}

-- A serial beyond the clock by more than the tolerated skew, or a window that has not begun.
abbrev pub IsEarly : BindingEvidence → UnixSeconds → Type 0
IsEarly r now =
    (saturating_add (saturating_mul now 1000) skew_ms < r.key.serial) ⊎ (now < r.window.inception)

-- A clock reading within the window.
abbrev pub IsWithin : BindingEvidence → UnixSeconds → Type 0
IsWithin r now = (r.window.inception ≤ now) × (now ≤ r.window.expiration)

module _ {DecodeError : Type 0} (decoder : Bytes → Result DecodeError Certificate)
    (validator : ChainValidator) (authority : AuthorityVerifier) (bytes : Bytes)
    (expected : DnsName) (now : UnixSeconds) where
  -- The bytes decode to a certificate for the expected hostname.
  pub record IsExpected (c : Certificate) : Type 0 where
    pub decoded : decoder bytes ≡ ok c
    pub hostname : c.hostname ≡ expected

  pub record IsProvenBy (c : Certificate) (proof : ChainProof) : Type 0 where
    pub expected_one : IsExpected c
    pub proven : validator.validate c.hostname c.dnssec_chain ≡ some proof

  -- A certificate for the hostname, and the binding record of its proof's word.
  pub record IsRecord (c : Certificate) (r : BindingEvidence) : Type 0 where
    pub expected_one : IsExpected c
    pub proof : ChainProof
    pub word : TxtRecord
    pub made : IsBinding validator authority c c.digest proof word r

  pub data Outcome : Result (Rejection DecodeError) Verdict → Type 0 where
    undecoded : (x : DecodeError) → decoder bytes ≡ err x → Outcome (err (decode x))
    misnamed :
        (c : Certificate)
        → decoder bytes ≡ ok c
        → c.hostname ≢ expected
        → Outcome (err (hostname_mismatch c.hostname))
    unproven :
        (c : Certificate)
        → IsExpected c
        → validator.validate c.hostname c.dnssec_chain ≡ none
        → Outcome (err chain_rejected)
    unauthorized :
        (c : Certificate) (proof : ChainProof)
        → IsProvenBy c proof
        → authority.authorizes c.root_doc c.signer c.delegation_chain ≡ false
        → Outcome (err signer_not_authorized)
    unnamed :
        (c : Certificate) (proof : ChainProof)
        → IsProvenBy c proof
        → authority.authorizes c.root_doc c.signer c.delegation_chain ≡ true
        → ((t : TxtRecord) → In t proof.records → t.document ≢ c.root_doc)
        → Outcome (err document_not_attested)
    early :
        (c : Certificate) (r : BindingEvidence)
        → IsRecord c r
        → IsEarly r now
        → Outcome (
            err
              (deferred record { document = r.document; serial = r.key.serial; window = r.window }))
    off_path :
        (c : Certificate) (r : BindingEvidence)
        → IsRecord c r
        → ¬ IsEarly r now
        → IsWithin r now
        → r.generation_on_path ≡ false
        → Outcome (err generation_off_path)
    fresh :
        (c : Certificate) (r : BindingEvidence)
        → IsRecord c r
        → ¬ IsEarly r now
        → IsWithin r now
        → r.generation_on_path ≡ true
        → Outcome (
            ok (record {
              certificate = c;
              document = r.document;
              freshness = Freshness.fresh;
              generation = r.generation;
              generation_check = on_path;
              serial = r.key.serial;
              window = r.window;
            }))
    stale :
        (c : Certificate) (r : BindingEvidence) (check : GenerationCheck)
        → IsRecord c r
        → ¬ IsEarly r now
        → r.window.expiration < now
        → check ≡ (if r.generation_on_path then on_path else provisional)
        → Outcome (
            ok (record {
              certificate = c;
              document = r.document;
              freshness = Freshness.stale;
              generation = r.generation;
              generation_check = check;
              serial = r.key.serial;
              window = r.window;
            }))

  abbrev answer : Result (Rejection DecodeError) Verdict
  answer = verify DecodeError decoder bytes expected now validator authority

  deferred-IsEarly : (r : BindingEvidence) → is_deferred r now ≡ true → IsEarly r now
  unfolding is_deferred grade
  deferred-IsEarly r h = ground arith

  begun : (r : BindingEvidence) → is_deferred r now ≡ false → ¬ IsEarly r now
  unfolding is_deferred grade
  begun r h e = ground arith

  fresh-IsWithin :
      (r : BindingEvidence) → ¬ IsEarly r now → freshness r now ≡ Freshness.fresh → IsWithin r now
  unfolding freshness grade
  fresh-IsWithin r b h = ground arith

  stale_past :
      (r : BindingEvidence)
      → ¬ IsEarly r now
      → freshness r now ≡ Freshness.stale
      → r.window.expiration < now
  unfolding freshness grade
  stale_past r b h = ground arith

  judged :
      (c : Certificate) (r : BindingEvidence)
      → IsRecord c r
      → (f : Freshness) → freshness r now ≡ f
      → Outcome (judge DecodeError c now r)
  unfolding judge generation_standing
  judged c r made f q = elim (Bool-cases (is_deferred r now)) [
    | inl e ↦ subst Outcome (sym (rw e refl)) (early c r made (deferred-IsEarly r e))
    | inr e ↦ timely f q e (begun r e) (Bool-cases r.generation_on_path)
  ]
    where
      timely :
          (f : Freshness)
          → freshness r now ≡ f
          → is_deferred r now ≡ false
          → ¬ IsEarly r now
          → (r.generation_on_path ≡ true) ⊎ (r.generation_on_path ≡ false)
          → Outcome (judge DecodeError c now r)
      timely Freshness.fresh q e b (inl p) =
          subst Outcome (sym (rw (judge, e, q, p) refl)) (fresh c r made b (fresh-IsWithin r b q) p)
      timely Freshness.fresh q e b (inr p) =
          subst Outcome (sym (rw (judge, e, q, p) refl))
            (off_path c r made b (fresh-IsWithin r b q) p)
      timely Freshness.stale q e b (inl p) =
          subst Outcome (sym (rw (judge, e, q, p) refl))
            (stale c r on_path made b (stale_past r b q) (rw p refl))
      timely Freshness.stale q e b (inr p) =
          subst Outcome (sym (rw (judge, e, q, p) refl))
            (stale c r provisional made b (stale_past r b q) (rw p refl))

  -- What a proof leads to: an authorized signer, then the word for the document.
  attested :
      (c : Certificate) (proof : ChainProof)
      → IsProvenBy c proof
      → (o : Result RecordRejected BindingEvidence)
      → validate_record validator authority c c.digest ≡ o
      → Outcome (map_err (rejection DecodeError) o >>= judge DecodeError c now)
  unfolding validate_record rejection
  attested c proof p (ok r) q =
      let (proof, t, made) = validate_record-ok validator authority c c.digest r q in
      judged c r (record { expected_one = p.expected_one; proof = proof; word = t; made = made })
        (freshness r now) refl
  attested c proof p (err chain) q = absurd (let v = p.proven in ground arith)
  attested c proof p (err signer) q = unauthorized c proof p (let v = p.proven in ground arith)
  attested c proof p (err unattested) q =
      unnamed c proof p (let v = p.proven in ground arith)
        (zone_word-none c.root_doc proof.records (let v = p.proven in ground arith))

  certified :
      (c : Certificate)
      → IsExpected c
      → Outcome (
          map_err (rejection DecodeError) (validate_record validator authority c c.digest)
          >>= judge DecodeError c now)
  unfolding validate_record rejection
  certified c x = elim (Option-cases (validator.validate c.hostname c.dnssec_chain)) [
    | inl e ↦ subst Outcome (sym (rw (validate_record, e) refl)) (unproven c x e)
    | inr (proof, e) ↦
        attested c proof (record { expected_one = x; proven = e })
          (validate_record validator authority c c.digest) refl
  ]

  -- Every answer of `verify`, under the conditions that it is given on: the bytes do not decode; the
  -- certificate is for another hostname; its chain proves nothing; its signer is not authorized; no
  -- proven record names its document; its serial or window lies ahead of the clock; it is fresh and its
  -- generation is off the path; or it has a verdict, graded by the window and the path.
  pub verify-Outcome : Outcome (verify DecodeError decoder bytes expected now validator authority)
  unfolding verify verify_certificate
  verify-Outcome = by_decode (decoder bytes) refl
    where
      by_decode : (o : Result DecodeError Certificate) → decoder bytes ≡ o → Outcome answer
      by_decode (err x) q = subst Outcome (sym (rw (verify, q) refl)) (undecoded x q)
      by_decode (ok c) q = elim (Bool-cases (c.hostname == expected)) [
        | inl e ↦
            subst Outcome (sym (rw (verify, q, e) refl))
              (certified c (record { decoded = q; hostname = eqb→eq c.hostname expected e }))
        | inr e ↦ subst Outcome (sym (rw (verify, q, e) refl)) (
            misnamed c q
              (λ n. cc (e, subst (λ z. (c.hostname == z) ≡ true) n (eqb_refl c.hostname))))
      ]
