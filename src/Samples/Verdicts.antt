-- ===== src/Samples/Verdicts.antt =====
-- A verdict on the bytes of a concrete certificate.
use onomancy.Prelude.{ℕ, ◌++◌, ◌≤◌, ◌≡◌, refl, true, none, some, [], ◌∷◌, length, arith, In, ◌==◌}
use onomancy.Prelude.Lex.{eq_bytes_refl}
use onomancy.Prelude.Result.{ok}
use onomancy.Core.{Bytes}
use onomancy.Dnssec.Freshness.{Freshness}
use onomancy.Dnssec.Units.{ChainValidator, AuthorityVerifier}
use onomancy.Wire.{max_unit_bytes}
use onomancy.Certificate.{DecodeCertificateError}
use onomancy.Certificate.Fields.{IsPredecessor}
use onomancy.Certificate.Lineage.{IsLineage}
use onomancy.Certificate.Issue.{Certificate, CertificateParams, signable_bytes, encode, assemble}
use onomancy.Certificate.Accessors.{certificate_view, spelled, spelled_from}
use onomancy.Certificate.Refresh.{IsParams, binding-IsBinding, certified}
use onomancy.Certificate.RoundTrip.{IsCertificate, certificate-decode_iff}
use onomancy.Verifier.Verdict.{Verdict, verify, on_path}
use onomancy.Verifier.Verdict.Decoded.{decode_view, IsProven, verify-IsProven}
use onomancy.Samples.{
  one_word, one_word-IsVarint, plain_keys, counted, repeat, signature_of, wide-IsKey, wide-IsSigner,
}
use onomancy.Samples.Examples.{host, host-IsName}

abbrev key : Bytes
key = repeat 31 0 ++ 7 ∷ []

abbrev params : CertificateParams
params = record {
  root_doc = key;
  issued_at = 60;
  hostname = host;
  heads = [];
  predecessor = none;
  delegation_chain = [];
  lineage = [];
  chain = [];
}

params-IsParams : IsParams one_word plain_keys counted params
unfolding IsPredecessor IsLineage
params-IsParams = record {
  root_key = wide-IsKey key refl;
  time = omega arith;
  name = host-IsName;
  wide_heads = λ h m. elim m [ ];
  held_predecessor = tt;
  held_lineage = tt;
}

abbrev signature : Bytes
signature = signature_of key (signable_bytes one_word plain_keys counted params key)

abbrev bare : Certificate
bare = certified one_word plain_keys counted params key signature

abbrev bare_bytes : Bytes
bare_bytes = encode one_word plain_keys counted bare

bare-IsCertificate : IsCertificate one_word plain_keys counted bare
unfolding IsCertificate IsLineage onomancy.Signed.RoundTrip.IsSigned certified encode assemble
    signable_bytes
bare-IsCertificate = (
  (
    binding-IsBinding one_word one_word-IsVarint plain_keys counted params key params-IsParams
        (wide-IsKey key refl),
    (
      (wide-IsSigner key refl).signature_length
          (signable_bytes one_word plain_keys counted params key),
      eq_bytes_refl signature,
    ),
  ),
  (tt, refl),
)

bare_length : length bare_bytes ≡ 144
unfolding encode certified signable_bytes assemble onomancy.Certificate.Issue.binding
    onomancy.Certificate.Issue.canonical_heads onomancy.Certificate.Issue.unit_bytes
    onomancy.Certificate.Binding.binding_payload onomancy.Certificate.Binding.encode_fields
    onomancy.Certificate.Binding.write_predecessor onomancy.Certificate.write_heads
    onomancy.Certificate.encode_attached onomancy.Certificate.write_lineage
    onomancy.Signed.encode_into onomancy.Signed.signed_region onomancy.Signed.signable_region
    onomancy.Carriage.write_entries onomancy.Carriage.Delegations.encode_into
    onomancy.Carriage.Links.write_framed_chain onomancy.Wire.put_varint
    onomancy.Prelude.Sort.sort_by_key onomancy.Prelude.Sort.dedup_by
bare_length = refl

bare_decodes : onomancy.Certificate.Issue.decode one_word plain_keys counted bare_bytes ≡ ok bare
bare_decodes =
    (certificate-decode_iff one_word one_word-IsVarint plain_keys counted bare_bytes bare).1
      (rw (bare_length) (omega arith), (refl, bare-IsCertificate))

-- The zone of the name with five letters attests document 7.
abbrev validator : ChainValidator
validator = record {
  validate = λ n c. some record {
    records = record { serial = 9; generation = 21; document = 7 } ∷ [];
    window = record { inception = 50; expiration = 150 };
  };
}

abbrev authority : AuthorityVerifier
authority = record { authorizes = λ d s c. d == s; on_path = λ c g. g == 21 }

abbrev verdict : Verdict
verdict = record {
  certificate = certificate_view length bare;
  document = 7;
  freshness = Freshness.fresh;
  generation = 21;
  generation_check = on_path;
  serial = 9;
  window = record { inception = 50; expiration = 150 };
}

bare_verifies :
    verify DecodeCertificateError
      (decode_view length one_word plain_keys counted)
      bare_bytes
      5
      100
      validator
      authority
    ≡ ok verdict
unfolding verify decode_view certificate_view spelled spelled_from certified assemble
    onomancy.Certificate.Issue.binding onomancy.Verifier.Evidence.Validate.validate_record
    onomancy.Verifier.Evidence.Validate.zone_word onomancy.Prelude.Extremes.max_by_key
    onomancy.Verifier.Evidence.is_deferred onomancy.Verifier.Evidence.freshness
bare_verifies = rw (bare_decodes) refl

verify-IsProven_example :
    IsProven length one_word one_word-IsVarint plain_keys counted validator authority bare_bytes 5
      100 verdict
verify-IsProven_example =
    verify-IsProven length one_word one_word-IsVarint plain_keys counted validator authority
      bare_bytes 5 100 verdict bare_verifies
