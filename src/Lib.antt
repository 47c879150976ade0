-- ===== src/Lib.antt =====
-- Onomancy: which document a DNS hostname is bound to, on what evidence, and how names resolve
-- through replicated namestores.
--
-- The program. A verifier holds a grow-only store of items: certificates, bare DNSSEC chain
-- refreshes, rotation statements and successor statements. From the store, a clock reading, the
-- user's decisions and the pins, `VerifierState::compute` derives for each hostname a binding state.
-- Its stages: (1) validate every item against two seams, the chain validator and the authority
-- verifier; (2) admit the records of a hostname that are neither excluded nor deferred; (3) build
-- the lineage of generation keys from the rotations, with what each statement protects or
-- implicates; (4) grade the records by the generation rules; (5) choose a document by the ladder,
-- the succession proofs and the user's acceptances; (6) assemble the state. `prune` drops items
-- from the store, `diff` compares two derived states, `verify` judges one certificate alone, and
-- `resolve` walks a name's segments through namestores.
--
-- The files, with the code of each (paths from the repository's root):
--   Core: onomancy_core/src/time.rs, delegation_chain.rs, and the identifiers.
--   Dnssec/Freshness, Serial, ZoneStateKey, Units: onomancy_dnssec/src/freshness.rs, txt/serial.rs,
--     zone_state_key.rs, and the decoded fields of chain_proof.rs, chain.rs, certificate.rs,
--     statement/rotation.rs, statement/successor.rs and txt/record.rs.
--   Ladder: onomancy_protocol/src/ladder.rs, `compare`.
--   Verifier/Store: onomancy_protocol/src/verifier/state/store.rs and store/item.rs.
--   Verifier/Evidence, Lineage, Succession, Acceptances, Rules, Resolution, State:
--     onomancy_protocol/src/verifier/state.rs, a file for each stage or part. Evidence/Validate has
--     `validate_record`, Evidence/Extract `validate_and_extract`; Lineage has `build_lineage` and
--     `descends`; Succession has `ProofGraph`; Acceptances has `winning_acceptance`; Rules has
--     `generation_rule`; Resolution has `resolve_document`; State has `derive_host` and `compute`.
--   Verifier/Decisions: onomancy_protocol/src/verifier/state/decisions.rs.
--   Verifier/Prune, Diff, Verdict: verifier/state/prune.rs, verifier/state/diff.rs (and
--     `VerifierState::diff`), verifier/verdict.rs.
--   Wire, Carriage, Keys, Signed: onomancy_core/src/wire.rs, delegation_chain.rs (with the framing of
--     onomancy_dnssec/src/chain.rs), key.rs, and signed.rs with signed/payload.rs.
--   Names: onomancy_dnssec/src/dns_name.rs, `parse` and `from_canonical`.
--   Statement: onomancy_dnssec/src/statement/rotation.rs and successor.rs.
--   Certificate: onomancy_dnssec/src/certificate.rs and certificate/binding.rs. Certificate/Issue has
--     `decode`, `sign`, `from_parts` and `with_attachments`, Certificate/Accessors the accessors.
--   Txt, Text: onomancy_dnssec/src/txt/record.rs, generation_key.rs and the decimal text of serial.rs,
--     over the operations of `str` that they use.
--   Samples: instances of the parameters, and the tests of the wire forms and texts.
--   Resolve: onomancy_protocol/src/resolve.rs with resolve/namestore.rs and resolve/resolution.rs.
--   Prelude: tests, lists, lexicographic keys, sorting, extremes, the worklist search, results.
-- Below a component stand the modules of its theorems and, as Examples, its tests.
--
-- Conventions. An identifier (document, generation key, signer, digest) is the number that its 32
-- bytes spell, which keeps equality and order; a hostname is its rank in the byte order. Clocks and
-- serials are numbers, with the saturation at 64 bits written out. Maps are lists of entries with
-- one entry for each key, sets are lists that are only tested for membership or are sorted and
-- deduplicated as the code does. The unstable sorts of the code are insertion sorts; their keys tell
-- apart the records that the code tells apart.
--
-- The modules of the wire forms and texts (Wire to Txt) have the bytes themselves: a key is 32 bytes, a
-- signature 64, a name or a text its bytes, a digest the number that the hash gives. Their units are
-- records of their own beside the decoded fields of Dnssec/Units: Certificate/Accessors reads the first
-- as the second, the hostname's rank being a parameter, and Verifier/Verdict/Decoded puts the decoder
-- of certificate.rs in the place of the verifier's parameter. A reader is the bytes after its cursor;
-- encoders return the bytes that the code appends. `usize` has 64 bits. A byte is a number, with no bound where the code needs none.
--
-- Parameters. The chain validator, the authority verifier, Blake3, the varint, the certificate's
-- decoder and the namestores are arguments of the definitions that use them; so are, for the wire forms
-- and texts, the integers of `bijoux`, the signatures of `ed25519_dalek` and the text of `base64`. The
-- laws that the theorems take of these three are IsVarint, IsSigner and IsBase64.
--
-- Bounds. `descends` and `forward_closure` are a worklist search whose fuel is above the number of
-- edges and start keys, and the search is shown never to run out. `chain_from` has one round more
-- than there are edges, since each hop adds an edge's target that the chain lacked. `find_cycle`
-- follows as many hops as there are statements, as in the code. `resolve` has one round more than
-- there are segments, since each round consumes one. Printing a serial has 20 rounds, a round for each
-- digit of the greatest number of 64 bits. The loops of the decoders run on the count that they read.
--
-- Not modelled: DNSSEC validation and the DNS wire forms below it, the paths of anchored names, the
-- conversion of Unicode names by the `idna` crate, the CLI, the publisher and the adapters to Automerge,
-- Keyhive, Hickory and WebAssembly. Derived formatting and hashing of the units are left out.
pub mod Prelude
pub mod Core
pub mod Dnssec
pub mod Ladder
pub mod Verifier
pub mod Wire
pub mod Carriage
pub mod Certificate
pub mod Keys
pub mod Names
pub mod Signed
pub mod Statement
pub mod Text
pub mod Txt
pub mod Resolve
pub mod Samples
