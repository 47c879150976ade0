-- ===== src/Signed/Unit.antt =====
-- A signed skeleton with a carriage after it, as a whole unit: the shape of a rotation statement and
-- of a successor statement.
use onomancy.Prelude.{◌≤◌, ◌≡◌, ap, ◌∙◌, subst, Bool, [], ◌++◌, length}
use onomancy.Prelude.Result.{ok}
use onomancy.Core.{Bytes, DelegationChain}
use onomancy.Wire.{Varint, max_unit_bytes, new_reader, finish}
use onomancy.Wire.Laws.{
  IsVarint, length_right, new_reader-ok, new_reader-fits, finish-ok, whole-append,
}
use onomancy.Wire.Split.{append_nil}
use onomancy.Carriage.Delegations.{decode}
use onomancy.Carriage.RoundTrip.{decode-IsCodec}
use onomancy.Keys.{Ed25519}
use onomancy.Signed.{Payload, Signed, decode_from, encode_into}
use onomancy.Signed.RoundTrip.{IsPayload, IsSigned, decode_from-IsCodec}

module _ {E P : Type 0} (v : Varint) (p : Payload E P) where
  unfoldable pub unit_bytes : Signed P → DelegationChain → Bytes
  unit_bytes s authority = encode_into p s ++ onomancy.Carriage.Delegations.encode_into v authority

module _ {E P : Type 0} (v : Varint) (varint : IsVarint v) (e : Ed25519) (p : Payload E P)
    (Valid : P → Type 0) (laws : IsPayload p Valid) where
  pub unit-ok :
      (bs reader : Bytes) (s : Signed P) (r1 : Bytes) (authority : DelegationChain) (r2 : Bytes)
      (done : Bool)
      → new_reader bs ≡ ok reader
      → decode_from e p bs reader ≡ ok (s, r1)
      → decode v r1 ≡ ok (authority, r2)
      → finish r2 ≡ ok done
      → (length bs ≤ max_unit_bytes) × (IsSigned e p Valid s × (bs ≡ unit_bytes v p s authority))
  unfolding unit_bytes
  unit-ok bs reader s r1 authority r2 done n d a f =
      let (same, small) = new_reader-ok bs reader n in
      let front =
        (decode_from-IsCodec e p Valid laws).sound bs s r1
          (subst (λ z. decode_from e p bs z ≡ ok (s, r1)) same d) in
      let (_, at) = (decode-IsCodec v varint).sound r1 authority r2 a in
      let whole = onomancy.Carriage.Delegations.encode_into v authority in
      let end : whole ++ r2 ≡ whole =
        ap (λ z. whole ++ z) (finish-ok r2 done f) ∙ append_nil whole in
      (small, (front.0, front.1 ∙ ap (λ z. encode_into p s ++ z) (at ∙ end)))

  pub unit-append :
      (s : Signed P) (authority : DelegationChain)
      → IsSigned e p Valid s
      → length (unit_bytes v p s authority) ≤ max_unit_bytes
      → (new_reader (unit_bytes v p s authority) ≡ ok (unit_bytes v p s authority))
        × ((decode_from e p (unit_bytes v p s authority) (unit_bytes v p s authority)
              ≡ ok (s, onomancy.Carriage.Delegations.encode_into v authority))
            × (decode v (onomancy.Carriage.Delegations.encode_into v authority)
                ≡ ok (authority, [])))
  unfolding unit_bytes
  unit-append s authority signed small =
      let whole = onomancy.Carriage.Delegations.encode_into v authority in
      (
        new_reader-fits _ small,
        (
          (decode_from-IsCodec e p Valid laws).complete s whole signed small,
          whole-append (decode v) (onomancy.Carriage.Delegations.encode_into v) _
              (decode-IsCodec v varint) authority tt
              (length_right (encode_into p s) whole max_unit_bytes small),
        ),
      )
