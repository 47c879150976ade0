-- ===== src/Verifier/Evidence/Validate.antt =====
-- `validate_record` of state.rs: one certificate into a binding record.
use onomancy.Prelude.{ℕ, List, [], ◌∷◌, Option, none, some, if◌then◌else◌, ◌==◌, filter}
use onomancy.Prelude.Result.{Result, ok, err}
use onomancy.Prelude.Extremes.{max_by_key}
use onomancy.Core.{Digest}
use onomancy.Dnssec.Units.{Certificate, ChainProof, ChainValidator, AuthorityVerifier, TxtRecord}
use onomancy.Verifier.Evidence.{BindingEvidence, Attestation}

pub data RecordRejected : Type 0 where
  chain signer unattested : RecordRejected

-- The highest serial among the records that name a document: the zone's word for it.
abbrev pub serial_key : TxtRecord → List ℕ
serial_key r = r.serial ∷ []

unfoldable pub zone_word : ℕ → List TxtRecord → Option TxtRecord
zone_word document records = max_by_key serial_key (filter (λ r. r.document == document) records)

module _ (validator : ChainValidator) (authority : AuthorityVerifier) where
  certificate_evidence : Certificate → Digest → ChainProof → TxtRecord → BindingEvidence
  certificate_evidence c hash proof r = record {
    attestation = Attestation.certificate;
    document = c.root_doc;
    generation = r.generation;
    hash = hash;
    hostname = c.hostname;
    key = record {
      window_end = proof.window.expiration;
      serial = r.serial;
      issued_at = c.issued_at;
    };
    generation_on_path = authority.on_path c.delegation_chain r.generation;
    window = proof.window;
  }

  -- What is left once the chain is proven.
  check_proof : Certificate → Digest → ChainProof → Result RecordRejected BindingEvidence
  unfolding certificate_evidence
  check_proof c hash proof =
      if authority.authorizes c.root_doc c.signer c.delegation_chain
      then (elim (zone_word c.root_doc proof.records) [
        | none ↦ err unattested
        | some r ↦ ok (certificate_evidence c hash proof r)
      ])
      else err signer

  unfoldable pub validate_record : Certificate → Digest → Result RecordRejected BindingEvidence
  unfolding check_proof
  validate_record c hash = elim (validator.validate c.hostname c.dnssec_chain) [
    | none ↦ err chain
    | some proof ↦ check_proof c hash proof
  ]
