-- ===== src/Verifier/Fixtures.antt =====
-- A hostname, its zone and its certificate, for the examples of the verifier.
use onomancy.Prelude.{ℕ, [], ◌∷◌, true, ◌&&◌, none, some, if◌then◌else◌, ◌==◌}
use onomancy.Prelude.Result.{Result, ok, err}
use onomancy.Core.{Bytes}
use onomancy.Dnssec.Freshness.{ValidityWindow}
use onomancy.Dnssec.Units.{Certificate, ChainProof, ChainValidator, AuthorityVerifier, TxtRecord}
use onomancy.Verifier.Store.{Hasher, Store, record_item}
use onomancy.Verifier.Evidence.{BindingEvidence, Attestation, Evidence}
use onomancy.Verifier.Decisions.{Decisions}

abbrev pub hasher : Hasher
hasher = record { hash = λ b. 77; varint = λ n. n ∷ []; text = λ n. n ∷ [] }

abbrev pub window : ValidityWindow
window = record { inception = 50; expiration = 150 }

abbrev pub zone_record : TxtRecord
zone_record = record { serial = 9; generation = 21; document = 1 }

abbrev pub proof : ChainProof
proof = record { records = zone_record ∷ []; window = window }

abbrev pub validator : ChainValidator
validator = record { validate = λ n c. if n == 3 then some proof else none }

abbrev pub authority : AuthorityVerifier
authority = record { authorizes = λ d s c. d == 1 && s == 5; on_path = λ c g. g == 21 }

abbrev pub cert : Certificate
cert = record {
  digest = 11;
  root_doc = 1;
  signer = 5;
  issued_at = 100;
  hostname = 3;
  heads = [];
  predecessor = none;
  delegation_chain = [];
  lineage = [];
  dnssec_chain = [];
}

abbrev pub store : Store
store = record { items = record_item cert ∷ []; seen = 11 ∷ [] }

-- The record that the certificate yields.
abbrev pub binding : BindingEvidence
binding = record {
  attestation = Attestation.certificate;
  document = 1;
  generation = 21;
  hash = 11;
  hostname = 3;
  key = record { window_end = 150; serial = 9; issued_at = 100 };
  generation_on_path = true;
  window = window;
}

abbrev pub evidence : Evidence
evidence = record { held = 11 ∷ []; records = binding ∷ []; rotations = []; successors = [] }

-- The user accepted the document by its record.
abbrev pub decisions : Decisions
decisions = record {
  acceptances = (3, record { document = 1; cited = 11 ∷ [] } ∷ []) ∷ [];
  claims = [];
  resets = [];
}

-- The decoder of the examples knows one byte string.
abbrev pub decoder : Bytes → Result ℕ Certificate
decoder [] = err 1
decoder (b ∷ bs) = ok cert
