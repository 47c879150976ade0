-- ===== src/Dnssec/ZoneStateKey.antt =====
-- onomancy_dnssec/src/zone_state_key.rs: a record's sort key, in the derived order.
use onomancy.Prelude.{List, [], ◌∷◌, ◌≡◌, Ordering, arith, ℕ, Bool, true, false}
use onomancy.Prelude.Lex.{lex}
use onomancy.Core.{UnixSeconds}
use onomancy.Dnssec.Serial.{Serial}

pub record ZoneStateKey : Type 0 where
  pub window_end : UnixSeconds
  pub serial : Serial
  pub issued_at : UnixSeconds

-- The fields in declaration order, by which the derived `Ord` compares.
abbrev pub words : ZoneStateKey → List ℕ
words k = k.window_end ∷ k.serial ∷ k.issued_at ∷ []

-- `zone_vouched`: the key without its signer-claimed part.
abbrev pub zone_vouched : ZoneStateKey → List ℕ
zone_vouched k = k.window_end ∷ k.serial ∷ []

-- `Ord::cmp`
abbrev pub cmp : ZoneStateKey → ZoneStateKey → Ordering
cmp a b = lex (words a) (words b)

-- `==`
abbrev pub eqb : ZoneStateKey → ZoneStateKey → Bool
eqb a b = elim (cmp a b) [ Ordering.eq ↦ true | _ ↦ false ]

pub eq_of_cmp : (a b : ZoneStateKey) → cmp a b ≡ Ordering.eq → a ≡ b
eq_of_cmp a b h = ground arith
