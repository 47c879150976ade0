-- ===== src/Certificate/Refresh.antt =====
-- What signing, assembling and refreshing a certificate return: certificate.rs.
use onomancy.Prelude.{
  ◌≤◌, ◌<◌, ◌≡◌, refl, ◌⊎◌, inl, inr, Bool, true, false, Bool-cases, ltb, ltb→lt, List, length, In,
  arith,
}
use onomancy.Prelude.Result.{Result, ok, err, ◌>>=◌, map_err}
use onomancy.Core.{Bytes, Digest, DelegationChain, u64_max}
use onomancy.Dnssec.Units.{DnssecChain}
use onomancy.Wire.{Varint, OversizeUnit, max_unit_bytes, check_unit_len}
use onomancy.Wire.Laws.{IsVarint}
use onomancy.Keys.{Ed25519, IsKey}
use onomancy.Signed.{Signed, Malformed, signable_region, signed_region, try_from_parts}
use onomancy.Signed.RoundTrip.{IsSigned}
use onomancy.Names.Canonical.{IsName}
use onomancy.Statement.{SignFailure}
use onomancy.Statement.Rotation.{RotationStatement}
use onomancy.Certificate.Binding.{Binding, binding_payload}
use onomancy.Certificate.Heads.{canonical_heads-HeadsFrom}
use onomancy.Certificate.Lineage.{IsLineage}
use onomancy.Certificate.Fields.{IsPredecessor, IsBinding}
use onomancy.Certificate.RoundTrip.{IsCertificate, certificate-decode_iff}
use onomancy.Certificate.Same.{same_certificate_iff}
use onomancy.Certificate.Issue.{
  Certificate, CertificateParams, AssembleError, binding, decode, unit_bytes, encode, assemble,
  sign, signable_bytes, from_parts, signed_bytes, with_attachments, same_certificate,
}

-- How a failure to assemble reads as a failure to sign.
unfoldable pub sign_failure : AssembleError → SignFailure
sign_failure AssembleError.invalid_signature = SignFailure.unreachable
sign_failure (AssembleError.oversize e) = SignFailure.oversize e

-- Parameters whose parts are canonical, and whose heads have 32 bytes in any order.
pub record IsParams (v : Varint) (e : Ed25519) (hash : Bytes → Digest) (params : CertificateParams)
    : Type 0 where
  pub root_key : IsKey e params.root_doc
  pub time : params.issued_at ≤ u64_max
  pub name : IsName params.hostname
  pub wide_heads : (h : Bytes) → In h params.heads → length h ≡ 32
  pub held_predecessor : IsPredecessor v e hash params.predecessor
  pub held_lineage : IsLineage v e hash params.lineage

module _ (v : Varint) (e : Ed25519) (hash : Bytes → Digest) where
  -- The certificate of parameters and a signature.
  unfoldable pub certified : CertificateParams → (signer signature : Bytes) → Certificate
  unfolding assemble binding
  certified params signer signature =
      assemble v e hash (record { payload = binding params signer; signature = signature })
        params.delegation_chain params.lineage params.chain

module _ (v : Varint) (varint : IsVarint v) (e : Ed25519) (hash : Bytes → Digest) where
  pub binding-IsBinding :
      (params : CertificateParams) (signer : Bytes)
      → IsParams v e hash params
      → IsKey e signer
      → IsBinding v e hash (binding params signer)
  unfolding binding IsBinding
  binding-IsBinding params signer p key = (
    p.root_key,
    (
      key,
      (p.time, (p.name, (canonical_heads-HeadsFrom params.heads p.wide_heads, p.held_predecessor))),
    ),
  )

  -- What is assembled within the cap decodes back.
  assemble_decodes :
      (s : Signed Binding) (d : DelegationChain) (l : List RotationStatement) (c : DnssecChain)
      → IsSigned e (binding_payload v e hash) (IsBinding v e hash) s
      → IsLineage v e hash l
      → ltb max_unit_bytes (length (unit_bytes v e hash s d l c)) ≡ false
      → decode v e hash (encode v e hash (assemble v e hash s d l c))
        ≡ ok (assemble v e hash s d l c)
  unfolding encode assemble IsCertificate
  assemble_decodes s d l c signed lineage fits =
      (certificate-decode_iff v varint e hash (unit_bytes v e hash s d l c)
          (assemble v e hash s d l c)).1
        (ground arith, (refl, (signed, (lineage, refl))))

  -- Assembling from canonical parameters and a 64-byte signature refuses a signature that does not
  -- verify over the signable bytes, reports a unit over 1 MiB, and otherwise returns a certificate
  -- that decodes back from its encoding.
  pub from_parts-decode :
      (params : CertificateParams) (signer signature : Bytes)
      → IsParams v e hash params
      → IsKey e signer
      → length signature ≡ 64
      → ((e.verify_strict signer (signable_bytes v e hash params signer) signature ≡ false)
          × (from_parts v e hash params signer signature ≡ err AssembleError.invalid_signature))
        ⊎ (((max_unit_bytes < length (encode v e hash (certified v e hash params signer signature)))
              × (from_parts v e hash params signer signature
                  ≡ err (
                      AssembleError.oversize (record {
                        len = length (encode v e hash (certified v e hash params signer signature));
                      }))))
            ⊎ ((from_parts v e hash params signer signature
                  ≡ ok (certified v e hash params signer signature))
                × (decode v e hash (encode v e hash (certified v e hash params signer signature))
                    ≡ ok (certified v e hash params signer signature))))
  unfolding from_parts certified encode assemble signable_bytes try_from_parts check_unit_len
      IsSigned
  from_parts-decode params signer signature p key l =
      elim (Bool-cases (e.verify_strict signer (signable_bytes v e hash params signer) signature)) [
        | inr bad ↦ inl (bad, rw (bad) refl)
        | inl good ↦ elim (Bool-cases (ltb max_unit_bytes (length (encode v e hash made)))) [
          | inl over ↦ inr (inl (ltb→lt _ _ over, rw (good, over) refl))
          | inr fits ↦ inr (
              inr (
                rw (good, fits) refl,
                assemble_decodes _ _ _ _ (binding-IsBinding params signer p key, (l, good))
                    p.held_lineage fits,
              ))
        ]
      ]
    where
      made : Certificate
      made = certified v e hash params signer signature

  -- Signing is assembling with the signature that the key makes over the signable bytes.
  pub sign-from_parts :
      (params : CertificateParams) (signer : Bytes)
      → sign v e hash params signer
        ≡ map_err sign_failure (
            from_parts v e hash params
              (e.verifying_key signer)
              (e.sign signer (signable_bytes v e hash params (e.verifying_key signer))))
  unfolding sign from_parts onomancy.Signed.sign signable_bytes sign_failure
  sign-from_parts params signer = routes (
      onomancy.Signed.try_from_parts e (binding_payload v e hash)
        (binding params (e.verifying_key signer))
        (e.sign signer
          (signable_region (binding_payload v e hash) (binding params (e.verifying_key signer)))))
    where
      fitting :
          (s : Signed Binding) (m : Result OversizeUnit Bool)
          → (map_err SignFailure.oversize m >>= λ _.
              ok (assemble v e hash s params.delegation_chain params.lineage params.chain))
            ≡ map_err sign_failure (
                map_err AssembleError.oversize m >>= λ _.
                ok (assemble v e hash s params.delegation_chain params.lineage params.chain))
      fitting s (ok b) = refl
      fitting s (err x) = refl

      routes :
          (m : Result Malformed (Signed Binding))
          → (map_err (λ (_ : Malformed). SignFailure.unreachable) m >>= λ s.
              (map_err SignFailure.oversize (
                  check_unit_len (
                    length
                      (unit_bytes v e hash s params.delegation_chain params.lineage params.chain)))
                >>= λ _.
                    ok (assemble v e hash s params.delegation_chain params.lineage params.chain)))
            ≡ map_err sign_failure (
                map_err (λ (_ : Malformed). AssembleError.invalid_signature) m >>= λ s.
                (map_err AssembleError.oversize (
                    check_unit_len (
                      length (
                        unit_bytes v e hash s params.delegation_chain params.lineage params.chain)))
                  >>= λ _.
                      ok (assemble v e hash s params.delegation_chain params.lineage params.chain)))
      routes (ok s) = fitting s (
          check_unit_len
            (length (unit_bytes v e hash s params.delegation_chain params.lineage params.chain)))
      routes (err x) = refl

  -- Refreshing replaces the attachments alone: within the cap it returns the same certificate, with
  -- the same signed bytes, which decodes back from its encoding with the attachments given; over the
  -- cap it reports the length.
  pub with_attachments-decode :
      (c : Certificate) (d : DelegationChain) (l : List RotationStatement) (chain : DnssecChain)
      → IsCertificate v e hash c
      → IsLineage v e hash l
      → ((max_unit_bytes < length (unit_bytes v e hash c.signed d l chain))
          × (with_attachments v e hash c d l chain
              ≡ err (record { len = length (unit_bytes v e hash c.signed d l chain) })))
        ⊎ ((r : Certificate) × (with_attachments v e hash c d l chain ≡ ok r)
            × (same_certificate c r ≡ true)
            × (signed_bytes v e hash r ≡ signed_bytes v e hash c)
            × (decode v e hash (encode v e hash r) ≡ ok r)
            × (◌≡◌ {A = DelegationChain × (List RotationStatement × DnssecChain)}
                (r.delegation_chain, (r.lineage, r.chain))
                (d, (l, chain))))
  unfolding with_attachments assemble check_unit_len IsCertificate signed_bytes
  with_attachments-decode c d l chain (signed, _) lineage =
      elim (Bool-cases (ltb max_unit_bytes (length (unit_bytes v e hash c.signed d l chain)))) [
        | inl over ↦ inl (ltb→lt _ _ over, rw (over) refl)
        | inr fits ↦ inr (
          assemble v e hash c.signed d l chain,
          rw (fits) refl,
          (same_certificate_iff c (assemble v e hash c.signed d l chain)).1 refl,
          refl,
          assemble_decodes c.signed d l chain signed lineage fits,
          refl,
        )
      ]
