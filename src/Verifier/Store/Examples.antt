-- ===== src/Verifier/Store/Examples.antt =====
-- The union of a store with itself.
use onomancy.Prelude.{◌≡◌, ◌↔◌, ◌⊎◌, In}
use onomancy.Core.{Digest}
use onomancy.Verifier.Store.{record_item, insert, union, empty}
use onomancy.Verifier.Store.Union.{IsValid, hashes, empty-IsValid, union-IsValid, insert_idem}
use onomancy.Verifier.Fixtures.{hasher, cert, store}

union-IsValid_example :
    IsValid hasher (union hasher empty store)
    × ((d : Digest)
        → In d (hashes hasher (union hasher empty store))
          ↔ (In d (hashes hasher empty) ⊎ In d (hashes hasher store)))
union-IsValid_example = union-IsValid hasher empty store (empty-IsValid hasher)

insert_idem_example :
    insert hasher (insert hasher store (record_item cert)) (record_item cert)
    ≡ insert hasher store (record_item cert)
insert_idem_example = insert_idem hasher store (record_item cert)
