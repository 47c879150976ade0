-- ===== src/Certificate/Lineage.antt =====
-- The attached lineage reads back: `read_lineage` and `encode_attached` of certificate.rs.
use onomancy.Prelude.{
  ℕ, zero, suc, ◌+◌, ◌*◌, ◌≤◌, ◌≡◌, refl, sym, ap, ◌∙◌, subst, List, [], ◌∷◌, ◌++◌, length,
  length-append, arith,
}
use onomancy.Prelude.Result.{ok, map_err, after-ok, map_err-ok, ok-injective}
use onomancy.Core.{Bytes, Digest}
use onomancy.Wire.{Varint, max_unit_bytes, read_bytes, bounded_len, put_varint}
use onomancy.Wire.Laws.{
  IsVarint, IsCodec, length_right, read_bytes-append, bounded_len-ok, bounded_len-append,
  length-put_varint, counted_bytes-ok, counted_bytes-append,
}
use onomancy.Wire.Split.{append_assoc}
use onomancy.Keys.{Ed25519}
use onomancy.Statement.Rotation.{RotationStatement, decode, encode}
use onomancy.Statement.Rotation.RoundTrip.{IsRotationStatement, rotation-decode_iff, length-encode}
use onomancy.Certificate.{
  lineage_error, wire, min_lineage_entry, read_lineage_from, read_lineage, write_lineage,
}

module _ (v : Varint) (e : Ed25519) (hash : Bytes → Digest) where
  -- Each entry is as the decoder of rotation statements holds it.
  unfoldable pub IsLineage : List RotationStatement → Type 0
  IsLineage [] = Unit
  IsLineage (s ∷ lineage) = IsRotationStatement v e hash s × IsLineage lineage

module _ (v : Varint) (varint : IsVarint v) (e : Ed25519) (hash : Bytes → Digest) where
  read_lineage_from-ok :
      (index count : ℕ) (bs : Bytes) (lineage : List RotationStatement) (rest : Bytes)
      → read_lineage_from v e hash index count bs ≡ ok (lineage, rest)
      → (length lineage ≡ count)
        × (IsLineage v e hash lineage × (bs ≡ write_lineage v e hash lineage ++ rest))
  unfolding read_lineage_from write_lineage IsLineage
  read_lineage_from-ok index zero bs lineage rest h =
      subst
        (λ (z : List RotationStatement × Bytes).
          (length z.0 ≡ 0) × (IsLineage v e hash z.0 × (bs ≡ write_lineage v e hash z.0 ++ z.1)))
        (ok-injective _ _ h) (refl, (tt, refl))
  read_lineage_from-ok index (suc count) bs lineage rest h =
      after-ok (map_err wire (bounded_len v 1 bs)) _ (lineage, rest) h
        (λ l pl k.
          after-ok (map_err wire (read_bytes l.0 l.1)) _ (lineage, rest) k
            (λ u pu k.
              after-ok (map_err (lineage_error index) (decode v e hash u.0)) _ (lineage, rest) k
                (λ s ps k.
                  after-ok (read_lineage_from v e hash (index + 1) count u.1) _ (lineage, rest) k
                    (λ t pt q.
                      let (_, at) =
                        counted_bytes-ok v varint bs l.0 l.1 u.0 u.1 (map_err-ok _ _ _ pl)
                          (map_err-ok _ _ _ pu) in
                      let (_, (same, valid)) =
                        (rotation-decode_iff v varint e hash u.0 s).0 (map_err-ok _ _ _ ps) in
                      let (n, (each, at')) =
                        read_lineage_from-ok (index + 1) count u.1 t.0 t.1 pt in
                      let unit = encode v e hash s in
                      let front : bs ≡ put_varint v (length unit) ++ (unit ++ u.1) =
                        subst (λ z. bs ≡ put_varint v (length z) ++ (z ++ u.1)) same at in
                      subst
                        (λ (z : List RotationStatement × Bytes).
                          (length z.0 ≡ suc count)
                          × (IsLineage v e hash z.0 × (bs ≡ write_lineage v e hash z.0 ++ z.1)))
                        (ok-injective _ _ q)
                        (
                          ap suc n,
                          (
                            (valid, each),
                            front
                                ∙ sym (append_assoc (put_varint v (length unit)) unit u.1)
                                ∙ ap (λ z. (put_varint v (length unit) ++ unit) ++ z) at'
                                ∙ sym (
                                    append_assoc (put_varint v (length unit) ++ unit)
                                      (write_lineage v e hash t.0) t.1),
                          ),
                        )))))

  read_lineage_from-append :
      (index : ℕ) (lineage : List RotationStatement) (rest : Bytes)
      → IsLineage v e hash lineage
      → length (write_lineage v e hash lineage ++ rest) ≤ max_unit_bytes
      → read_lineage_from v e hash index (length lineage) (write_lineage v e hash lineage ++ rest)
        ≡ ok (lineage, rest)
  unfolding read_lineage_from write_lineage IsLineage
  read_lineage_from-append index [] rest h small = refl
  read_lineage_from-append index (s ∷ lineage) rest (valid, more) small =
      let unit = encode v e hash s in
      let tail = write_lineage v e hash lineage ++ rest in
      let at : write_lineage v e hash (s ∷ lineage) ++ rest
          ≡ put_varint v (length unit) ++ (unit ++ tail) =
        append_assoc (put_varint v (length unit) ++ unit) (write_lineage v e hash lineage) rest
        ∙ append_assoc (put_varint v (length unit)) unit tail in
      let fits =
        length_right (put_varint v (length unit)) (unit ++ tail) max_unit_bytes
          (subst (λ z. length z ≤ max_unit_bytes) at small) in
      let unit_fits : length unit ≤ max_unit_bytes = omega (arith, fits, length-append unit tail) in
      rw
        (
          at,
          counted_bytes-append v varint unit tail fits,
          read_bytes-append unit tail,
          (rotation-decode_iff v varint e hash unit s).1 (unit_fits, (refl, valid)),
          read_lineage_from-append (index + 1) lineage rest more
              (length_right unit tail max_unit_bytes fits),
        )
        refl

  length-write_lineage :
      (lineage : List RotationStatement)
      → IsLineage v e hash lineage
      → length lineage * min_lineage_entry ≤ length (write_lineage v e hash lineage)
  unfolding write_lineage IsLineage
  length-write_lineage [] h = omega arith
  length-write_lineage (s ∷ lineage) (valid, more) =
      let unit = encode v e hash s in
      omega (
        arith,
        length-encode v varint e hash s valid,
        length-put_varint v varint (length unit),
        length-append (put_varint v (length unit)) unit,
        length-append (put_varint v (length unit) ++ unit) (write_lineage v e hash lineage),
        length-write_lineage lineage more,
      )

  read_lineage-ok :
      (bs : Bytes) (lineage : List RotationStatement) (rest : Bytes)
      → read_lineage v e hash bs ≡ ok (lineage, rest)
      → IsLineage v e hash lineage
        × (bs ≡ (put_varint v (length lineage) ++ write_lineage v e hash lineage) ++ rest)
  unfolding read_lineage
  read_lineage-ok bs lineage rest h =
      after-ok (map_err wire (bounded_len v min_lineage_entry bs)) _ (lineage, rest) h
        (λ a pa k.
          let (_, (_, at)) =
            bounded_len-ok v varint min_lineage_entry bs a.0 a.1 (map_err-ok _ _ _ pa) in
          let (n, (each, at')) = read_lineage_from-ok 0 a.0 a.1 lineage rest k in
          (
            each,
            at
                ∙ ap (λ z. put_varint v a.0 ++ z) at'
                ∙ ap (λ c. put_varint v c ++ (write_lineage v e hash lineage ++ rest)) (sym n)
                ∙ sym (
                    append_assoc (put_varint v (length lineage)) (write_lineage v e hash lineage)
                      rest),
          ))

  read_lineage-append :
      (lineage : List RotationStatement) (rest : Bytes)
      → IsLineage v e hash lineage
      → length ((put_varint v (length lineage) ++ write_lineage v e hash lineage) ++ rest)
        ≤ max_unit_bytes
      → read_lineage v e hash
          ((put_varint v (length lineage) ++ write_lineage v e hash lineage) ++ rest)
        ≡ ok (lineage, rest)
  unfolding read_lineage
  read_lineage-append lineage rest h small =
      let written = write_lineage v e hash lineage in
      let at = append_assoc (put_varint v (length lineage)) written rest in
      let fits =
        length_right (put_varint v (length lineage)) (written ++ rest) max_unit_bytes
          (subst (λ z. length z ≤ max_unit_bytes) at small) in
      let enough = length-write_lineage lineage h in
      rw
        (
          at,
          bounded_len-append v varint min_lineage_entry (length lineage) (written ++ rest)
              (omega (arith, enough, fits, length-append written rest))
              (omega (arith, enough, length-append written rest)) fits,
        )
        (read_lineage_from-append 0 lineage rest h fits)

  pub read_lineage-IsCodec :
      IsCodec
        (read_lineage v e hash)
        (λ lineage. put_varint v (length lineage) ++ write_lineage v e hash lineage)
        (IsLineage v e hash)
  read_lineage-IsCodec = record { sound = read_lineage-ok; complete = read_lineage-append }
