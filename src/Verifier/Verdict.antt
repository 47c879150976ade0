-- ===== src/Verifier/Verdict.antt =====
-- onomancy_protocol/src/verifier/verdict.rs: one certificate against one clock reading.
pub mod Pipeline
pub mod Outcome
pub mod Decoded
mod Examples
use onomancy.Prelude.{ℕ, Bool, true, false, not, ◌==◌, if◌then◌else◌}
use onomancy.Prelude.Result.{Result, ok, err, ◌>>=◌, map_err}
use onomancy.Core.{Bytes, DocAnchor, UnixSeconds}
use onomancy.Dnssec.Freshness.{Freshness, ValidityWindow, is_fresh}
use onomancy.Dnssec.Serial.{Serial}
use onomancy.Dnssec.Units.{Certificate, DnsName, GenerationKey, ChainValidator, AuthorityVerifier}
use onomancy.Verifier.Evidence.{BindingEvidence, is_deferred, freshness}
use onomancy.Verifier.Evidence.Validate.{RecordRejected, chain, signer, unattested, validate_record}

pub data GenerationCheck : Type 0 where
  provisional on_path : GenerationCheck

pub record Verdict : Type 0 where
  pub certificate : Certificate
  pub document : DocAnchor
  pub freshness : Freshness
  pub generation : GenerationKey
  pub generation_check : GenerationCheck
  pub serial : Serial
  pub window : ValidityWindow

pub record DeferredEvidence : Type 0 where
  pub document : DocAnchor
  pub serial : Serial
  pub window : ValidityWindow

module _ (DecodeError : Type 0) where
  pub data Rejection : Type 0 where
    chain_rejected : Rejection
    signer_not_authorized : Rejection
    document_not_attested : Rejection
    decode : DecodeError → Rejection
    deferred : DeferredEvidence → Rejection
    generation_off_path : Rejection
    hostname_mismatch : DnsName → Rejection

  -- The answer of `validate_record`, as a rejection.
  rejection : RecordRejected → Rejection
  rejection chain = chain_rejected
  rejection signer = signer_not_authorized
  rejection unattested = document_not_attested

  -- The standing of the generation check, or the rejection of a fresh chain that is off the path.
  generation_standing : BindingEvidence → Freshness → Result Rejection GenerationCheck
  generation_standing evidence reading =
      if evidence.generation_on_path
      then ok on_path
      else if is_fresh reading
      then err generation_off_path
      else ok provisional

  verdict_of : Certificate → BindingEvidence → Freshness → GenerationCheck → Verdict
  verdict_of certificate evidence reading check = record {
    certificate = certificate;
    document = evidence.document;
    freshness = reading;
    generation = evidence.generation;
    generation_check = check;
    serial = evidence.key.serial;
    window = evidence.window;
  }

  -- What follows the validation of the record.
  judge : Certificate → UnixSeconds → BindingEvidence → Result Rejection Verdict
  unfolding generation_standing verdict_of
  judge certificate now evidence =
      if is_deferred evidence now
      then err (
          deferred record {
            document = evidence.document;
            serial = evidence.key.serial;
            window = evidence.window;
          })
      else generation_standing evidence (freshness evidence now)
        >>= (λ check. ok (verdict_of certificate evidence (freshness evidence now) check))

  -- What follows the decoding: the hostname, then the record, then the clock.
  verify_certificate :
      ChainValidator
      → AuthorityVerifier
      → DnsName
      → UnixSeconds
      → Certificate
      → Result Rejection Verdict
  unfolding rejection judge
  verify_certificate validator authority expected_hostname now certificate =
      if certificate.hostname == expected_hostname
      then map_err rejection (validate_record validator authority certificate certificate.digest)
        >>= judge certificate now
      else err (hostname_mismatch certificate.hostname)

  -- `verify`, over the decoder of certificates.
  unfoldable pub verify :
      (Bytes → Result DecodeError Certificate)
      → Bytes
      → DnsName
      → UnixSeconds
      → ChainValidator
      → AuthorityVerifier
      → Result Rejection Verdict
  unfolding verify_certificate
  verify decoder bytes expected_hostname now validator authority =
      map_err decode (decoder bytes)
      >>= verify_certificate validator authority expected_hostname now
