-- ===== src/Resolve/Examples.antt =====
-- A root that maps a two-segment prefix to document 7, and 7's own store, which maps the rest to 8.
use onomancy.Prelude.{
  ℕ, zero, suc, List, [], ◌∷◌, length, Option, none, some, ◌≡◌, ◌==◌, if◌then◌else◌,
}
use onomancy.Core.{DocAnchor}
use onomancy.Resolve.{
  Segment, Vouched, Namestores, Resolution, trusted_substrate, carriage_verified, resolve,
}
use onomancy.Resolve.Walk.{Walk, resolve-Walk}

abbrev reference : ℕ → List Segment → Option DocAnchor
reference zero (a ∷ b ∷ []) = some 7
reference (suc n) (c ∷ []) = some 8
reference _ _ = none

abbrev stores : Namestores ℕ
stores = record {
  reference = reference;
  replica =
      λ d. if d == 7 then some record { namestore = 7; authority = trusted_substrate } else none;
}

abbrev root : Vouched ℕ
root = record { namestore = 0; authority = carriage_verified }

abbrev path : List Segment
path = (1 ∷ []) ∷ (2 ∷ []) ∷ (3 ∷ []) ∷ []

resolve-Walk_example :
    (result : Resolution ℕ) × ((resolve stores root path ≡ some result)
      × Walk stores (length path) root.namestore root.authority path result)
resolve-Walk_example = resolve-Walk stores root path
