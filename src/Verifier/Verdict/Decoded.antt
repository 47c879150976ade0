-- ===== src/Verifier/Verdict/Decoded.antt =====
-- verdict.rs with the decoder of certificate.rs: from the bytes of a certificate to its verdict.
use onomancy.Prelude.{ℕ, ◌≤◌, ◌≡◌, sym, length}
use onomancy.Prelude.Result.{Result, ok, ◌>>=◌, after-ok, ok-injective}
use onomancy.Core.{Bytes, Digest, UnixSeconds}
use onomancy.Dnssec.Units.{DnsName, ChainValidator, AuthorityVerifier}
use onomancy.Wire.{Varint, max_unit_bytes}
use onomancy.Wire.Laws.{IsVarint}
use onomancy.Keys.{Ed25519}
use onomancy.Certificate.{DecodeCertificateError}
use onomancy.Certificate.Issue.{Certificate, encode}
use onomancy.Certificate.Accessors.{certificate_view}
use onomancy.Certificate.RoundTrip.{IsCertificate, certificate-decode_iff}
use onomancy.Verifier.Evidence.{BindingEvidence}
use onomancy.Verifier.Verdict.{Verdict, verify}
use onomancy.Verifier.Verdict.Pipeline.{IsVerified, verify-ok}

module _ (rank : Bytes → ℕ) (v : Varint) (e : Ed25519) (hash : Bytes → Digest) where
  -- `Certificate::decode`, as the verifier reads its result.
  unfoldable pub decode_view :
      Bytes → Result DecodeCertificateError onomancy.Dnssec.Units.Certificate
  decode_view bytes =
      onomancy.Certificate.Issue.decode v e hash bytes >>= λ c. ok (certificate_view rank c)

module _ (rank : Bytes → ℕ) (v : Varint) (varint : IsVarint v) (e : Ed25519) (hash : Bytes → Digest)
    (validator : ChainValidator) (authority : AuthorityVerifier) (bytes : Bytes)
    (expected : DnsName) (now : UnixSeconds) where
  -- A certificate that the bytes encode, and what its verdict stands on.
  pub record IsProven (verdict : Verdict) : Type 0 where
    pub certificate : Certificate
    pub evidence : BindingEvidence
    pub fits : length bytes ≤ max_unit_bytes
    pub encoded : bytes ≡ encode v e hash certificate
    pub held : IsCertificate v e hash certificate
    pub viewed : verdict.certificate ≡ certificate_view rank certificate
    pub verified :
        IsVerified
          (decode_view rank v e hash)
          validator
          authority
          bytes
          expected
          now
          verdict
          evidence

  -- A verdict on bytes is given only if they are at most 1 MiB and the encoding of a certificate as
  -- its decoder holds it, with canonical fields under a signature that verifies. The verdict carries
  -- that certificate, which is for the expected hostname, validates as a binding record that is not
  -- deferred, and is what the verdict says, graded at `now`.
  pub verify-IsProven :
      (verdict : Verdict)
      → verify DecodeCertificateError
          (decode_view rank v e hash)
          bytes
          expected
          now
          validator
          authority
        ≡ ok verdict
      → IsProven verdict
  unfolding decode_view
  verify-IsProven verdict h =
      let (evidence, verified) =
        verify-ok (decode_view rank v e hash) validator authority bytes expected now verdict h in
      after-ok (onomancy.Certificate.Issue.decode v e hash bytes) _ verdict.certificate
        verified.decoded
        (λ c d k.
          let (fits, (encoded, held)) = (certificate-decode_iff v varint e hash bytes c).0 d in
          record {
            certificate = c;
            evidence = evidence;
            fits = fits;
            encoded = encoded;
            held = held;
            viewed = sym (ok-injective _ _ k);
            verified = verified;
          })
