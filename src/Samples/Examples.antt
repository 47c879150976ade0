-- ===== src/Samples/Examples.antt =====
-- The theorems on the wire forms and the texts, at concrete units.
use onomancy.Prelude.{
  ◌≤◌, ◌<◌, ◌≡◌, ◌↔◌, ◌⊎◌, refl, inl, inr, true, false, none, List, [], ◌∷◌, ◌++◌, length, map, all,
  In, arith,
}
use onomancy.Prelude.Lex.{eq_bytes_refl}
use onomancy.Prelude.Result.{ok, err, map_err}
use onomancy.Core.{Bytes, DelegationChain, u64_max}
use onomancy.Dnssec.Units.{DnssecChain}
use onomancy.Wire.{max_unit_bytes}
use onomancy.Carriage.Delegations.{read_framed, write_framed}
use onomancy.Carriage.RoundTrip.{read_framed_iff}
use onomancy.Names.{parse, from_canonical, is_ascii, to_ascii_lowercase, strip_dot}
use onomancy.Names.Canonical.{IsName, parse_iff, from_canonical_iff}
use onomancy.Signed.{Signed}
use onomancy.Statement.{SignFailure}
use onomancy.Statement.Rotation.{Rotation, RotationStatement}
use onomancy.Statement.Rotation.RoundTrip.{
  IsRotationStatement, rotation-decode_iff, rotation-sign_decode,
}
use onomancy.Statement.Successor.{Succession, SuccessorStatement}
use onomancy.Statement.Successor.RoundTrip.{IsSuccessorStatement, successor-decode_iff}
use onomancy.Certificate.Lineage.{IsLineage}
use onomancy.Certificate.Fields.{IsPredecessor}
use onomancy.Certificate.Issue.{
  Certificate, CertificateParams, AssembleError, binding, assemble, unit_bytes, signable_bytes,
  from_parts, sign, with_attachments, same_certificate, signed_bytes,
}
use onomancy.Certificate.RoundTrip.{IsCertificate, certificate-decode_iff}
use onomancy.Certificate.Refresh.{
  IsParams, binding-IsBinding, certified, sign_failure, from_parts-decode, sign-from_parts,
  with_attachments-decode,
}
use onomancy.Text.{codes, split_on}
use onomancy.Txt.{TxtRecord, parse_ono0, wrong_field_count, record_too_long, format_tag, semicolon}
use onomancy.Txt.Dispositions.{classify-err_iff}
use onomancy.Txt.Decimal.{print}
use onomancy.Txt.Decimal.RoundTrip.{serial-parse_iff}
use onomancy.Txt.Fields.{IsTxtRecord}
use onomancy.Txt.RoundTrip.{record-parse_iff}
use onomancy.Samples.{
  one_word, one_word-IsVarint, repeat, signature_of, plain_keys, wide-IsKey, wide-IsSigner, counted,
}
use onomancy.Samples.Texts.{moved_up, moved_up-IsBase64}

abbrev document : Bytes
document = repeat 32 1

abbrev old_key : Bytes
old_key = repeat 32 2

abbrev new_key : Bytes
new_key = repeat 32 3

abbrev carriage : DelegationChain
carriage = (7 ∷ 8 ∷ []) ∷ [] ∷ []

abbrev carriage_bytes : Bytes
carriage_bytes = 2 ∷ 2 ∷ 7 ∷ 8 ∷ 0 ∷ []

read_framed_iff_example :
    (read_framed one_word carriage_bytes ≡ ok carriage)
    ↔ ((length carriage_bytes ≤ max_unit_bytes) × (carriage_bytes ≡ write_framed one_word carriage))
read_framed_iff_example = read_framed_iff one_word one_word-IsVarint carriage_bytes carriage

carriage_reads : read_framed one_word carriage_bytes ≡ ok carriage
unfolding read_framed onomancy.Wire.new_reader onomancy.Wire.bounded_len onomancy.Wire.read_varint
    onomancy.Wire.read_bytes onomancy.Wire.finish
carriage_reads = refl

abbrev pub host : Bytes
host = codes "ab.cd"

abbrev typed_host : Bytes
typed_host = codes "Ab.CD."

parse_iff_example : (parse typed_host ≡ ok host) ↔ (
    (all is_ascii typed_host ≡ true)
    × ((host ≡ map to_ascii_lowercase (strip_dot typed_host)) × IsName host))
parse_iff_example = parse_iff typed_host host

host_parses : parse typed_host ≡ ok host
unfolding parse
host_parses = refl

pub host-IsName : IsName host
host-IsName = ((parse_iff typed_host host).0 host_parses).1.1

from_canonical_iff_example : (from_canonical host ≡ ok host) ↔ ((host ≡ host) × IsName host)
from_canonical_iff_example = from_canonical_iff host host

serial-parse_iff_example :
    (onomancy.Txt.Decimal.parse (codes "4096") ≡ ok 4096)
    ↔ ((4096 ≤ u64_max) × (codes "4096" ≡ print 4096))
serial-parse_iff_example = serial-parse_iff (codes "4096") 4096

serial_reads :
    (onomancy.Txt.Decimal.parse (codes "4096") ≡ ok 4096)
    × (onomancy.Txt.Decimal.parse (codes "007") ≡ err onomancy.Txt.Decimal.leading_zero)
unfolding onomancy.Txt.Decimal.parse
serial_reads = (refl, refl)

abbrev txt : TxtRecord
txt = record { serial = 42; generation = new_key; document = document }

abbrev txt_text : Bytes
txt_text =
    codes "v=ONO0;k=ed25519;n=42;g="
    ++ (moved_up.encode new_key ++ (codes ";p=" ++ moved_up.encode document))

record-parse_iff_example :
    ((onomancy.Txt.parse moved_up plain_keys txt_text ≡ ok txt)
      ↔ ((txt_text ≡ onomancy.Txt.display moved_up plain_keys txt) × IsTxtRecord plain_keys txt))
    × ((((txt_text ≡ onomancy.Txt.display moved_up plain_keys txt) × IsTxtRecord plain_keys txt) ↔ (
          (length txt_text ≤ 133)
          × ((txt_text ≡ onomancy.Txt.display moved_up plain_keys txt)
              × IsTxtRecord plain_keys txt)))
        × ((onomancy.Txt.parse moved_up plain_keys txt_text
              ≡ err (record_too_long (length txt_text) 133))
            ↔ (((split_on semicolon txt_text).0 ≡ format_tag) × (133 < length txt_text))))
record-parse_iff_example = record-parse_iff moved_up moved_up-IsBase64 plain_keys txt_text txt

record_reads : onomancy.Txt.parse moved_up plain_keys txt_text ≡ ok txt
unfolding onomancy.Txt.display print IsTxtRecord
record_reads =
    (record-parse_iff moved_up moved_up-IsBase64 plain_keys txt_text txt).0.1
      (refl, (omega arith, (wide-IsKey new_key refl, wide-IsKey document refl)))

abbrev two_fields : Bytes
two_fields = codes "v=ONO0;k=ed25519"

classify-err_iff_example :
    (onomancy.Txt.classify moved_up plain_keys two_fields ≡ err (wrong_field_count 2)) ↔ (
      ((split_on semicolon two_fields).0 ≡ format_tag)
      × (parse_ono0 moved_up plain_keys two_fields ≡ err (wrong_field_count 2)))
classify-err_iff_example = classify-err_iff moved_up plain_keys two_fields (wrong_field_count 2)

classify_fails : onomancy.Txt.classify moved_up plain_keys two_fields ≡ err (wrong_field_count 2)
unfolding onomancy.Txt.classify onomancy.Text.strip_prefix split_on onomancy.Names.is_ascii_digit
classify_fails = refl

abbrev rotated : RotationStatement
rotated =
    onomancy.Statement.Rotation.RoundTrip.signed_statement one_word plain_keys counted document
      old_key new_key carriage

abbrev rotated_bytes : Bytes
rotated_bytes = onomancy.Statement.Rotation.encode one_word plain_keys counted rotated

rotation-decode_iff_example :
    (onomancy.Statement.Rotation.decode one_word plain_keys counted rotated_bytes ≡ ok rotated) ↔ (
      (length rotated_bytes ≤ max_unit_bytes)
      × ((rotated_bytes ≡ onomancy.Statement.Rotation.encode one_word plain_keys counted rotated)
          × IsRotationStatement one_word plain_keys counted rotated))
rotation-decode_iff_example =
    rotation-decode_iff one_word one_word-IsVarint plain_keys counted rotated_bytes rotated

rotation-sign_decode_example :
    ((onomancy.Statement.Rotation.sign one_word plain_keys counted document old_key new_key carriage
        ≡ ok rotated)
      × (onomancy.Statement.Rotation.decode one_word plain_keys counted rotated_bytes ≡ ok rotated))
    ⊎ ((max_unit_bytes < length rotated_bytes)
        × (onomancy.Statement.Rotation.sign one_word plain_keys counted document old_key new_key
              carriage
            ≡ err (SignFailure.oversize (record { len = length rotated_bytes }))))
rotation-sign_decode_example =
    rotation-sign_decode one_word one_word-IsVarint plain_keys counted document old_key new_key
      carriage (wide-IsKey document refl) (wide-IsKey old_key refl) (wide-IsSigner new_key refl)

abbrev moved : SuccessorStatement
moved =
    onomancy.Statement.Successor.RoundTrip.signed_statement one_word plain_keys counted old_key
      document host new_key carriage

abbrev moved_bytes : Bytes
moved_bytes = onomancy.Statement.Successor.encode one_word plain_keys counted moved

successor-decode_iff_example :
    (onomancy.Statement.Successor.decode one_word plain_keys counted moved_bytes ≡ ok moved) ↔ (
      (length moved_bytes ≤ max_unit_bytes)
      × ((moved_bytes ≡ onomancy.Statement.Successor.encode one_word plain_keys counted moved)
          × IsSuccessorStatement one_word plain_keys counted moved))
successor-decode_iff_example =
    successor-decode_iff one_word one_word-IsVarint plain_keys counted moved_bytes moved

abbrev params : CertificateParams
params = record {
  root_doc = document;
  issued_at = 1700000000;
  hostname = host;
  heads = repeat 32 9 ∷ repeat 32 4 ∷ repeat 32 9 ∷ [];
  predecessor = none;
  delegation_chain = carriage;
  lineage = [];
  chain = (1 ∷ 2 ∷ []) ∷ [];
}

params-IsParams : IsParams one_word plain_keys counted params
unfolding IsPredecessor IsLineage
params-IsParams = record {
  root_key = wide-IsKey document refl;
  time = omega arith;
  name = host-IsName;
  wide_heads = wide;
  held_predecessor = tt;
  held_lineage = tt;
}
  where
    wide : (h : Bytes) → In h params.heads → length h ≡ 32
    wide h (inl q) = rw (q) refl
    wide h (inr (inl q)) = rw (q) refl
    wide h (inr (inr (inl q))) = rw (q) refl
    wide h (inr (inr (inr m))) = elim m [ ]

abbrev signature : Bytes
signature = signature_of new_key (signable_bytes one_word plain_keys counted params new_key)

abbrev made : Certificate
made = certified one_word plain_keys counted params new_key signature

abbrev made_bytes : Bytes
made_bytes = onomancy.Certificate.Issue.encode one_word plain_keys counted made

from_parts-decode_example :
    ((plain_keys.verify_strict new_key
          (signable_bytes one_word plain_keys counted params new_key)
          signature
        ≡ false)
      × (from_parts one_word plain_keys counted params new_key signature
          ≡ err AssembleError.invalid_signature))
    ⊎ (((max_unit_bytes < length made_bytes)
          × (from_parts one_word plain_keys counted params new_key signature
              ≡ err (AssembleError.oversize (record { len = length made_bytes }))))
        ⊎ ((from_parts one_word plain_keys counted params new_key signature ≡ ok made)
            × (onomancy.Certificate.Issue.decode one_word plain_keys counted made_bytes ≡ ok made)))
from_parts-decode_example =
    from_parts-decode one_word one_word-IsVarint plain_keys counted params new_key signature
      params-IsParams (wide-IsKey new_key refl)
      ((wide-IsSigner new_key refl).signature_length
        (signable_bytes one_word plain_keys counted params new_key))

sign-from_parts_example :
    sign one_word plain_keys counted params new_key
    ≡ map_err sign_failure (
        from_parts one_word plain_keys counted params (plain_keys.verifying_key new_key) (
          plain_keys.sign new_key
            (signable_bytes one_word plain_keys counted params (plain_keys.verifying_key new_key))))
sign-from_parts_example =
    sign-from_parts one_word one_word-IsVarint plain_keys counted params new_key

certificate-decode_iff_example :
    (onomancy.Certificate.Issue.decode one_word plain_keys counted made_bytes ≡ ok made) ↔ (
      (length made_bytes ≤ max_unit_bytes)
      × ((made_bytes ≡ onomancy.Certificate.Issue.encode one_word plain_keys counted made)
          × IsCertificate one_word plain_keys counted made))
certificate-decode_iff_example =
    certificate-decode_iff one_word one_word-IsVarint plain_keys counted made_bytes made

made-IsCertificate : IsCertificate one_word plain_keys counted made
unfolding IsCertificate IsLineage onomancy.Signed.RoundTrip.IsSigned certified
    onomancy.Certificate.Issue.encode assemble signable_bytes
made-IsCertificate = (
  (
    binding-IsBinding one_word one_word-IsVarint plain_keys counted params new_key params-IsParams
        (wide-IsKey new_key refl),
    (
      (wide-IsSigner new_key refl).signature_length
          (signable_bytes one_word plain_keys counted params new_key),
      eq_bytes_refl signature,
    ),
  ),
  (tt, refl),
)

abbrev refreshed_chain : DnssecChain
refreshed_chain = (5 ∷ []) ∷ []

no_lineage : IsLineage one_word plain_keys counted []
unfolding IsLineage
no_lineage = tt

with_attachments-decode_example :
    ((max_unit_bytes
        < length (unit_bytes one_word plain_keys counted made.signed [] [] refreshed_chain))
      × (with_attachments one_word plain_keys counted made [] [] refreshed_chain
          ≡ err (record {
            len = length (unit_bytes one_word plain_keys counted made.signed [] [] refreshed_chain);
          })))
    ⊎ ((r : Certificate) × (with_attachments one_word plain_keys counted made [] [] refreshed_chain
          ≡ ok r)
        × (same_certificate made r ≡ true)
        × (signed_bytes one_word plain_keys counted r
            ≡ signed_bytes one_word plain_keys counted made)
        × (onomancy.Certificate.Issue.decode one_word plain_keys counted
              (onomancy.Certificate.Issue.encode one_word plain_keys counted r)
            ≡ ok r)
        × (◌≡◌ {A = DelegationChain × (List RotationStatement × DnssecChain)}
            (r.delegation_chain, (r.lineage, r.chain))
            ([], ([], refreshed_chain))))
with_attachments-decode_example =
    with_attachments-decode one_word one_word-IsVarint plain_keys counted made [] [] refreshed_chain
      made-IsCertificate no_lineage
