-- ===== src/Carriage/RoundTrip.antt =====
-- The framed lists read back: delegation_chain.rs and chain.rs.
use onomancy.Prelude.{
  ℕ, zero, suc, ◌≤◌, ◌≡◌, refl, sym, ap, ◌∙◌, subst, List, [], ◌∷◌, ◌++◌, length, length-append,
  ◌↔◌, arith,
}
use onomancy.Prelude.Result.{ok, ◌>>=◌, bind-ok, ok-injective}
use onomancy.Core.{Bytes, DelegationChain}
use onomancy.Dnssec.Units.{DnssecChain}
use onomancy.Wire.{Varint, max_unit_bytes, new_reader, finish, put_varint, bounded_len}
use onomancy.Wire.Laws.{
  IsVarint, IsCodec, length_right, read_bytes-ok, read_bytes-append, new_reader-fits, whole-ok,
  whole-append, bounded_len-ok, bounded_len-append, length-put_varint,
}
use onomancy.Wire.Split.{append_assoc}
use onomancy.Carriage.{read_entry, read_entries, write_entry, write_entries}
use onomancy.Carriage.Delegations.{decode, encode_into, read_framed, write_framed}
use onomancy.Carriage.Links.{read, read_framed_chain, write_framed_chain}

module _ (v : Varint) (laws : IsVarint v) where
  read_entry-ok :
      (bs e rest : Bytes) → read_entry v bs ≡ ok (e, rest) → bs ≡ write_entry v e ++ rest
  unfolding read_entry write_entry
  read_entry-ok bs e rest h =
      let (d, p, k) = bind-ok (bounded_len v 1 bs) _ (e, rest) h in
      let (_, (_, at)) = bounded_len-ok v laws 1 bs d.0 d.1 p in
      let (l, q) = read_bytes-ok d.0 d.1 e rest k in
      at
      ∙ ap (λ z. put_varint v d.0 ++ z) q
      ∙ ap (λ n. put_varint v n ++ (e ++ rest)) (sym l)
      ∙ sym (append_assoc (put_varint v (length e)) e rest)

  read_entry-append :
      (e rest : Bytes)
      → length (write_entry v e ++ rest) ≤ max_unit_bytes
      → read_entry v (write_entry v e ++ rest) ≡ ok (e, rest)
  unfolding read_entry write_entry
  read_entry-append e rest h =
      let cap : length (e ++ rest) ≤ max_unit_bytes =
        length_right (put_varint v (length e)) (e ++ rest) max_unit_bytes (
          subst (λ z. length z ≤ max_unit_bytes) (append_assoc (put_varint v (length e)) e rest)
            h) in
      rw
        (
          append_assoc (put_varint v (length e)) e rest,
          bounded_len-append v laws 1 (length e) (e ++ rest) (omega (arith, length-append e rest))
              (omega (arith, length-append e rest)) cap,
        )
        (read_bytes-append e rest)

  read_entries-ok :
      (count : ℕ) (bs : Bytes) (es : List Bytes) (rest : Bytes)
      → read_entries v count bs ≡ ok (es, rest)
      → (length es ≡ count) × (bs ≡ write_entries v es ++ rest)
  unfolding read_entries write_entries
  read_entries-ok zero bs es rest h =
      let q = ok-injective _ _ h in
      (
        subst (λ (z : List Bytes × Bytes). length z.0 ≡ 0) q refl,
        subst (λ (z : List Bytes × Bytes). bs ≡ write_entries v z.0 ++ z.1) q refl,
      )
  read_entries-ok (suc count) bs es rest h =
      let (d, p, k) = bind-ok (read_entry v bs) _ (es, rest) h in
      let (t, p', k') = bind-ok (read_entries v count d.1) _ (es, rest) k in
      let at = read_entry-ok bs d.0 d.1 p in
      let (l, at') = read_entries-ok count d.1 t.0 t.1 p' in
      let q = ok-injective _ _ k' in
      (
        subst (λ (z : List Bytes × Bytes). length z.0 ≡ suc count) q (ap suc l),
        subst (λ (z : List Bytes × Bytes). bs ≡ write_entries v z.0 ++ z.1) q
            (at
              ∙ ap (λ z. write_entry v d.0 ++ z) at'
              ∙ sym (append_assoc (write_entry v d.0) (write_entries v t.0) t.1)),
      )

  read_entries-append :
      (es : List Bytes) (rest : Bytes)
      → length (write_entries v es ++ rest) ≤ max_unit_bytes
      → read_entries v (length es) (write_entries v es ++ rest) ≡ ok (es, rest)
  unfolding read_entries write_entries
  read_entries-append [] rest h = refl
  read_entries-append (e ∷ es) rest h =
      let h' =
        subst (λ z. length z ≤ max_unit_bytes)
          (append_assoc (write_entry v e) (write_entries v es) rest) h in
      let ih = read_entries-append es rest (length_right (write_entry v e) _ max_unit_bytes h') in
      rw
        (
          append_assoc (write_entry v e) (write_entries v es) rest,
          read_entry-append e (write_entries v es ++ rest) h',
          ih,
        )
        refl

  -- Each entry takes a byte at least.
  length-write_entries : (es : List Bytes) → length es ≤ length (write_entries v es)
  unfolding write_entries write_entry
  length-write_entries [] = omega arith
  length-write_entries (e ∷ es) = omega (
    arith,
    length-write_entries es,
    length-append (put_varint v (length e) ++ e) (write_entries v es),
    length-append (put_varint v (length e)) e,
    length-put_varint v laws (length e),
  )

  counted-ok :
      (bs : Bytes) (es : List Bytes) (rest : Bytes)
      → (bounded_len v 1 bs >>= λ (count, reader). read_entries v count reader) ≡ ok (es, rest)
      → bs ≡ (put_varint v (length es) ++ write_entries v es) ++ rest
  counted-ok bs es rest h =
      let (d, p, k) = bind-ok (bounded_len v 1 bs) _ (es, rest) h in
      let (_, (_, at)) = bounded_len-ok v laws 1 bs d.0 d.1 p in
      let (l, q) = read_entries-ok d.0 d.1 es rest k in
      at
      ∙ ap (λ z. put_varint v d.0 ++ z) q
      ∙ ap (λ n. put_varint v n ++ (write_entries v es ++ rest)) (sym l)
      ∙ sym (append_assoc (put_varint v (length es)) (write_entries v es) rest)

  counted-append :
      (es : List Bytes) (rest : Bytes)
      → length ((put_varint v (length es) ++ write_entries v es) ++ rest) ≤ max_unit_bytes
      → (bounded_len v 1 ((put_varint v (length es) ++ write_entries v es) ++ rest)
          >>= λ (count, reader). read_entries v count reader)
        ≡ ok (es, rest)
  counted-append es rest h =
      let h' =
        subst (λ z. length z ≤ max_unit_bytes)
          (append_assoc (put_varint v (length es)) (write_entries v es) rest) h in
      let cap = length_right (put_varint v (length es)) _ max_unit_bytes h' in
      let few : length es ≤ length (write_entries v es ++ rest) =
        omega (arith, length-write_entries es, length-append (write_entries v es) rest) in
      rw
        (
          append_assoc (put_varint v (length es)) (write_entries v es) rest,
          bounded_len-append v laws 1 (length es) (write_entries v es ++ rest)
              (omega (arith, few, cap)) (omega (arith, few)) cap,
        )
        (read_entries-append es rest cap)

  pub decode-IsCodec : IsCodec (decode v) (encode_into v) (λ chain. Unit)
  unfolding decode encode_into
  decode-IsCodec = record {
    sound = λ bs es rest h. (tt, counted-ok bs es rest h);
    complete = λ es rest _ h. counted-append es rest h;
  }

  pub read-IsCodec : IsCodec (read v) (write_framed_chain v) (λ chain. Unit)
  unfolding read write_framed_chain
  read-IsCodec = record {
    sound = λ bs es rest h. (tt, counted-ok bs es rest h);
    complete = λ es rest _ h. counted-append es rest h;
  }

  -- The count takes a byte at least.
  pub length-encode_into : (chain : DelegationChain) → 1 ≤ length (encode_into v chain)
  unfolding encode_into
  length-encode_into chain = omega (
    arith,
    length-put_varint v laws (length chain),
    length-append (put_varint v (length chain)) (write_entries v chain),
  )

  -- A standalone carriage of at most 1 MiB decodes to a chain exactly when it is the framing of that
  -- chain: every chain reads back, and no two byte strings read as one chain.
  pub read_framed_iff :
      (bs : Bytes) (chain : DelegationChain)
      → (read_framed v bs ≡ ok chain) ↔ ((length bs ≤ max_unit_bytes) × (bs ≡ write_framed v chain))
  unfolding read_framed write_framed finish
  read_framed_iff bs chain = (forth, back)
    where
      forth :
          read_framed v bs ≡ ok chain → (length bs ≤ max_unit_bytes) × (bs ≡ write_framed v chain)
      forth h =
          let (reader, n, k) = bind-ok (new_reader bs) _ chain h in
          let (d, p, k') = bind-ok (decode v reader) _ chain k in
          let (done, f, q) = bind-ok (finish d.1) _ chain k' in
          let (cap, (_, at)) =
            whole-ok (decode v) (encode_into v) _ decode-IsCodec bs reader d.0 d.1 done n p f in
          (cap, at ∙ ap (encode_into v) (ok-injective _ _ q))

      back :
          (length bs ≤ max_unit_bytes) × (bs ≡ write_framed v chain) → read_framed v bs ≡ ok chain
      back (cap, at) =
          let cap' = subst (λ z. length z ≤ max_unit_bytes) at cap in
          subst (λ z. read_framed v z ≡ ok chain) (sym at)
            (rw
              (
                read_framed,
                new_reader-fits (encode_into v chain) cap',
                whole-append (decode v) (encode_into v) _ decode-IsCodec chain tt cap',
              )
              refl)

  -- A standalone DNSSEC chain of at most 1 MiB decodes to a chain exactly when it is the framing of
  -- that chain.
  pub read_framed_chain_iff :
      (bs : Bytes) (chain : DnssecChain)
      → (read_framed_chain v bs ≡ ok chain)
        ↔ ((length bs ≤ max_unit_bytes) × (bs ≡ write_framed_chain v chain))
  unfolding read_framed_chain finish
  read_framed_chain_iff bs chain = (forth, back)
    where
      forth :
          read_framed_chain v bs ≡ ok chain
          → (length bs ≤ max_unit_bytes) × (bs ≡ write_framed_chain v chain)
      forth h =
          let (reader, n, k) = bind-ok (new_reader bs) _ chain h in
          let (d, p, k') = bind-ok (read v reader) _ chain k in
          let (done, f, q) = bind-ok (finish d.1) _ chain k' in
          let (fits, (_, at)) =
            whole-ok (read v) (write_framed_chain v) _ read-IsCodec bs reader d.0 d.1 done n p f in
          (fits, at ∙ ap (write_framed_chain v) (ok-injective _ _ q))

      back :
          (length bs ≤ max_unit_bytes) × (bs ≡ write_framed_chain v chain)
          → read_framed_chain v bs ≡ ok chain
      back (fits, at) =
          let small = subst (λ z. length z ≤ max_unit_bytes) at fits in
          subst (λ z. read_framed_chain v z ≡ ok chain) (sym at)
            (rw
              (
                read_framed_chain,
                new_reader-fits (write_framed_chain v chain) small,
                whole-append (read v) (write_framed_chain v) _ read-IsCodec chain tt small,
              )
              refl)
