-- ===== src/Certificate.antt =====
-- onomancy_dnssec/src/certificate.rs: the fields of the unit `ONC\x00` that have a reader of their own,
-- the heads and the attached lineage.
pub mod Binding
pub mod Heads
pub mod Lineage
pub mod Fields
pub mod Issue
pub mod Accessors
pub mod RoundTrip
pub mod Refresh
pub mod Same
use onomancy.Prelude.{
  ℕ, zero, suc, ◌+◌, Bool, true, false, not, if◌then◌else◌, Option, none, some, List, [], ◌∷◌, ◌++◌,
  length,
}
use onomancy.Prelude.Lex.{lexb}
use onomancy.Prelude.Result.{Result, ok, err, ◌>>=◌, map_err}
use onomancy.Core.{Bytes, Digest, DelegationChain}
use onomancy.Dnssec.Units.{DnssecChain}
use onomancy.Wire.{Varint, Read, WireError, read_bytes, bounded_len, put_varint}
use onomancy.Carriage.Delegations
use onomancy.Carriage.Links
use onomancy.Keys.{Ed25519}
use onomancy.Signed.{Malformed}
use onomancy.Names.{CanonicalDnsNameError}
use onomancy.Statement.Rotation.{RotationStatement, DecodeRotationError}
use onomancy.Statement.Successor.{DecodeSuccessorError}

pub data FieldName : Type 0 where
  root_doc_field signer_field : FieldName

pub data DecodeCertificateError : Type 0 where
  heads_not_canonical : DecodeCertificateError
  hostname_error : CanonicalDnsNameError → DecodeCertificateError
  lineage_error : (index : ℕ) (source : DecodeRotationError) → DecodeCertificateError
  malformed : Malformed → DecodeCertificateError
  not_a_curve_point : FieldName → DecodeCertificateError
  predecessor_error : DecodeSuccessorError → DecodeCertificateError
  wire : WireError → DecodeCertificateError

unfoldable pub read_key : Ed25519 → FieldName → Read DecodeCertificateError Bytes
read_key e field = onomancy.Signed.read_key e wire (not_a_curve_point field)

-- The test of a head against the last one read: it must be greater.
unfoldable pub follows : Option Bytes → Bytes → Bool
follows none head = true
follows (some previous) head = not (lexb head previous)

-- The loop of `read_heads`, with the last head read.
unfoldable pub read_heads_from :
    (previous : Option Bytes) (count : ℕ) → Read DecodeCertificateError (List Bytes)
unfolding follows
read_heads_from previous zero reader = ok ([], reader)
read_heads_from previous (suc count) reader = do
  (head, reader) ← map_err wire (read_bytes 32 reader)
  _ ← if follows previous head then ok true else err heads_not_canonical
  (heads, reader) ← read_heads_from (some head) count reader
  ok (head ∷ heads, reader)

-- `MIN_LINEAGE_ENTRY`
abbrev pub min_lineage_entry : ℕ
min_lineage_entry = 1 + (4 + 96 + 64 + 1)

unfoldable pub write_heads : List Bytes → Bytes
write_heads [] = []
write_heads (head ∷ heads) = head ++ write_heads heads

unfoldable pub read_heads : Varint → Read DecodeCertificateError (List Bytes)
unfolding read_heads_from
read_heads v reader = do
  (count, reader) ← map_err wire (bounded_len v 32 reader)
  read_heads_from none count reader

module _ (v : Varint) (e : Ed25519) (hash : Bytes → Digest) where
  -- The loop of `read_lineage`, from an index on.
  unfoldable pub read_lineage_from :
      (index : ℕ) (count : ℕ) → Read DecodeCertificateError (List RotationStatement)
  read_lineage_from index zero reader = ok ([], reader)
  read_lineage_from index (suc count) reader = do
    (len, reader) ← map_err wire (bounded_len v 1 reader)
    (unit, reader) ← map_err wire (read_bytes len reader)
    statement ← map_err (lineage_error index) (onomancy.Statement.Rotation.decode v e hash unit)
    (lineage, reader) ← read_lineage_from (index + 1) count reader
    ok (statement ∷ lineage, reader)

  unfoldable pub read_lineage : Read DecodeCertificateError (List RotationStatement)
  unfolding read_lineage_from
  read_lineage reader = do
    (count, reader) ← map_err wire (bounded_len v min_lineage_entry reader)
    read_lineage_from 0 count reader

  -- The loop of `encode_attached`
  unfoldable pub write_lineage : List RotationStatement → Bytes
  write_lineage [] = []
  write_lineage (statement ∷ lineage) =
      let unit = onomancy.Statement.Rotation.encode v e hash statement in
      (put_varint v (length unit) ++ unit) ++ write_lineage lineage

  -- `encode_attached` appends these bytes.
  unfoldable pub encode_attached : DelegationChain → List RotationStatement → DnssecChain → Bytes
  unfolding write_lineage
  encode_attached delegation_chain lineage chain =
      onomancy.Carriage.Delegations.encode_into v delegation_chain
      ++ ((put_varint v (length lineage) ++ write_lineage lineage)
          ++ onomancy.Carriage.Links.write_framed_chain v chain)
