-- ===== src/Verifier/Verdict/Pipeline.antt =====
-- What a verdict of verdict.rs stands on.
use onomancy.Prelude.{
  true, false, ◌≡◌, ◌⊎◌, ◌↔◌, inl, inr, refl, subst, ◌==◌, eqb→eq, arith, Bool-cases,
}
use onomancy.Prelude.Result.{Result, ok, err, ◌>>=◌, map_err}
use onomancy.Core.{Bytes, UnixSeconds}
use onomancy.Dnssec.Freshness.{Freshness, is_fresh}
use onomancy.Dnssec.Units.{Certificate, DnsName, ChainValidator, AuthorityVerifier}
use onomancy.Verifier.Evidence.{BindingEvidence, is_deferred, freshness}
use onomancy.Verifier.Evidence.Validate.{RecordRejected, validate_record}
use onomancy.Verifier.Verdict.{
  GenerationCheck, on_path, Verdict, Rejection, rejection, generation_standing, verdict_of, judge,
  verify_certificate, verify,
}

module _ {DecodeError : Type 0} (decoder : Bytes → Result DecodeError Certificate)
    (validator : ChainValidator) (authority : AuthorityVerifier) (bytes : Bytes)
    (expected : DnsName) (now : UnixSeconds) where
  -- Everything that was checked before the verdict was given.
  pub record IsVerified (verdict : Verdict) (evidence : BindingEvidence) : Type 0 where
    pub decoded : decoder bytes ≡ ok verdict.certificate
    pub hostname : verdict.certificate.hostname ≡ expected
    pub validated :
        validate_record validator authority verdict.certificate verdict.certificate.digest
        ≡ ok evidence
    pub in_force : is_deferred evidence now ≡ false
    pub graded : verdict.freshness ≡ freshness evidence now
    pub document : verdict.document ≡ evidence.document
    pub generation : verdict.generation ≡ evidence.generation
    pub serial : verdict.serial ≡ evidence.key.serial
    pub window : verdict.window ≡ evidence.window
    pub on_path_iff : (verdict.generation_check ≡ on_path) ↔ (evidence.generation_on_path ≡ true)
    pub provisional_stale :
        (verdict.generation_check ≡ on_path) ⊎ (verdict.freshness ≡ Freshness.stale)

  -- A verdict is given only for a certificate that decodes, is for the expected hostname, validates
  -- as a binding record and is not deferred. It says what that record says, graded at `now`, and its
  -- generation check is on-path exactly if the record is, which it is unless it is stale.
  pub verify-ok :
      (verdict : Verdict)
      → verify DecodeError decoder bytes expected now validator authority ≡ ok verdict
      → (evidence : BindingEvidence) × IsVerified verdict evidence
  unfolding verify verify_certificate judge generation_standing verdict_of
  verify-ok verdict h = by_decode (decoder bytes) refl h
    where
      stale_of : (f : Freshness) → is_fresh f ≡ false → f ≡ Freshness.stale
      stale_of f e = ground arith

      built :
          (c : Certificate) (evidence : BindingEvidence) (check : GenerationCheck)
          → decoder bytes ≡ ok c
          → c.hostname ≡ expected
          → validate_record validator authority c c.digest ≡ ok evidence
          → is_deferred evidence now ≡ false
          → generation_standing DecodeError evidence (freshness evidence now) ≡ ok check
          → IsVerified (verdict_of DecodeError c evidence (freshness evidence now) check) evidence
      built c evidence check d n v i g = record {
        decoded = d;
        hostname = n;
        validated = v;
        in_force = i;
        graded = refl;
        document = refl;
        generation = refl;
        serial = refl;
        window = refl;
        on_path_iff = ground (arith, g);
        provisional_stale = elim (Bool-cases (is_fresh (freshness evidence now))) [
          | inl f ↦ ground arith
          | inr f ↦ inr (stale_of (freshness evidence now) f)
        ];
      }

      by_standing :
          (c : Certificate) (evidence : BindingEvidence)
          → decoder bytes ≡ ok c
          → c.hostname ≡ expected
          → validate_record validator authority c c.digest ≡ ok evidence
          → is_deferred evidence now ≡ false
          → (o : Result (Rejection DecodeError) GenerationCheck)
          → generation_standing DecodeError evidence (freshness evidence now) ≡ o
          → (o >>= (λ check. ok (verdict_of DecodeError c evidence (freshness evidence now) check)))
            ≡ ok verdict
          → (evidence : BindingEvidence) × IsVerified verdict evidence
      by_standing c evidence d n v i (err e) g k = ground arith
      by_standing c evidence d n v i (ok check) g k =
          let same : verdict_of DecodeError c evidence (freshness evidence now) check ≡ verdict =
            cc k in
          (evidence, subst (λ w. IsVerified w evidence) same (built c evidence check d n v i g))

      conclude :
          (c : Certificate) (evidence : BindingEvidence)
          → decoder bytes ≡ ok c
          → c.hostname ≡ expected
          → validate_record validator authority c c.digest ≡ ok evidence
          → judge DecodeError c now evidence ≡ ok verdict
          → (evidence : BindingEvidence) × IsVerified verdict evidence
      conclude c evidence d n v k = elim (Bool-cases (is_deferred evidence now)) [
        | inl e ↦ ground arith
        | inr e ↦
            by_standing c evidence d n v e
              (generation_standing DecodeError evidence (freshness evidence now)) refl
              (rw (judge, e) at k)
      ]

      by_record :
          (c : Certificate)
          → decoder bytes ≡ ok c
          → c.hostname ≡ expected
          → (o : Result RecordRejected BindingEvidence)
          → validate_record validator authority c c.digest ≡ o
          → (map_err (rejection DecodeError) o >>= judge DecodeError c now) ≡ ok verdict
          → (evidence : BindingEvidence) × IsVerified verdict evidence
      by_record c d n (ok evidence) v k = conclude c evidence d n v k
      by_record c d n (err e) v k = ground arith

      by_decode :
          (o : Result DecodeError Certificate)
          → decoder bytes ≡ o
          → verify DecodeError decoder bytes expected now validator authority ≡ ok verdict
          → (evidence : BindingEvidence) × IsVerified verdict evidence
      by_decode (err e) d k = ground arith
      by_decode (ok c) d k = elim (Bool-cases (c.hostname == expected)) [
        | inl n ↦
            by_record c d (eqb→eq c.hostname expected n)
              (validate_record validator authority c c.digest) refl (rw n at (rw (d, verify) at k))
        | inr n ↦ ground arith
      ]
