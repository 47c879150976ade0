-- ===== src/Certificate/Binding.antt =====
-- onomancy_dnssec/src/certificate/binding.rs: the signed fields of a certificate.
use onomancy.Prelude.{ℕ, ◌==◌, if◌then◌else◌, Option, none, some, List, [], ◌∷◌, ◌++◌, length}
use onomancy.Prelude.Result.{ok, ◌>>=◌, map_err}
use onomancy.Core.{Bytes, Digest}
use onomancy.Wire.{Varint, Read, read_bytes, read_varint, bounded_len, put_varint}
use onomancy.Keys.{Ed25519}
use onomancy.Signed.{Payload}
use onomancy.Names.{from_canonical}
use onomancy.Statement.Successor.{SuccessorStatement}
use onomancy.Certificate.{
  DecodeCertificateError, root_doc_field, signer_field, hostname_error, malformed,
  predecessor_error, wire, read_key, read_heads, write_heads,
}

-- Heads are 32 bytes each.
pub record Binding : Type 0 where
  pub root_doc : Bytes
  pub signer : Bytes
  pub issued_at : ℕ
  pub hostname : Bytes
  pub heads : List Bytes
  pub predecessor : Option SuccessorStatement

-- `ONC\x00`
abbrev pub tag : Bytes
tag = 79 ∷ 78 ∷ 67 ∷ 0 ∷ []

module _ (v : Varint) (e : Ed25519) (hash : Bytes → Digest) where
  unfoldable pub write_predecessor : Option SuccessorStatement → Bytes
  write_predecessor none = put_varint v 0
  write_predecessor (some statement) =
      let unit = onomancy.Statement.Successor.encode v e hash statement in
      put_varint v (length unit) ++ unit

  unfoldable pub encode_fields : Binding → Bytes
  unfolding write_predecessor
  encode_fields b =
      b.root_doc
      ++ (b.signer
          ++ (put_varint v b.issued_at
              ++ (put_varint v (length b.hostname)
                  ++ (b.hostname
                      ++ (put_varint v (length b.heads)
                          ++ (write_heads b.heads ++ write_predecessor b.predecessor))))))

  -- The unit of the predecessor, when its length is not 0.
  unfoldable pub read_predecessor :
      (predecessor_len : ℕ) → Read DecodeCertificateError (Option SuccessorStatement)
  read_predecessor predecessor_len reader = if predecessor_len == 0 then ok (none, reader) else do
    (unit, reader) ← map_err wire (read_bytes predecessor_len reader)
    statement ← map_err predecessor_error (onomancy.Statement.Successor.decode v e hash unit)
    ok (some statement, reader)

  unfoldable pub decode_fields : Read DecodeCertificateError Binding
  unfolding read_predecessor
  decode_fields reader = do
    (root_doc, reader) ← read_key e root_doc_field reader
    (signer, reader) ← read_key e signer_field reader
    (issued_at, reader) ← map_err wire (read_varint v reader)
    (hostname_len, reader) ← map_err wire (bounded_len v 1 reader)
    (raw, reader) ← map_err wire (read_bytes hostname_len reader)
    hostname ← map_err hostname_error (from_canonical raw)
    (heads, reader) ← read_heads v reader
    (predecessor_len, reader) ← map_err wire (bounded_len v 1 reader)
    (predecessor, reader) ← read_predecessor predecessor_len reader
    ok (
      record {
        root_doc = root_doc;
        signer = signer;
        issued_at = issued_at;
        hostname = hostname;
        heads = heads;
        predecessor = predecessor;
      },
      reader,
    )

  -- `impl Payload for Binding`
  unfoldable pub binding_payload : Payload DecodeCertificateError Binding
  unfolding encode_fields decode_fields
  binding_payload = record {
    tag = tag;
    encode_fields = encode_fields;
    decode_fields = decode_fields;
    signer = λ b. b.signer;
    from_wire = wire;
    from_malformed = malformed;
  }
