-- ===== src/Verifier/Store/Union.antt =====
-- The store is a set of items by content hash: `insert` and `union` of store.rs.
use onomancy.Prelude.{
  ℕ, List, [], ◌∷◌, ◌++◌, map, elem, elem-In, In-elem, In, In-append, In-append_left,
  In-append_right, ◌≡◌, ◌↔◌, ◌⊎◌, inl, inr, refl, sym, ap, true, false, subst, eqb_refl,
  if◌then◌else◌, Bool,
}
use onomancy.Core.{Digest}
use onomancy.Verifier.Store.{
  Hasher, Item, Store, empty, content_hash, insert, insert_all, union, from_iter,
}

abbrev pub Distinct : List ℕ → Type 0
Distinct [] = Unit
Distinct (x ∷ xs) = (¬ In x xs) × Distinct xs

Distinct-push : (xs : List ℕ) (a : ℕ) → Distinct xs → ¬ In a xs → Distinct (xs ++ a ∷ [])
Distinct-push [] a d n = (λ m. elim m [ ], tt)
Distinct-push (x ∷ xs) a d n = (
  λ m. elim (In-append x xs (a ∷ []) m) [
    | inl k ↦ d.0 k
    | inr (inl e) ↦ n (inl (sym e))
    | inr (inr k) ↦ (elim k [ ])
  ],
  Distinct-push xs a d.1 (λ m. n (inr m)),
)

map-append_one :
    {A : Type 0} (f : A → ℕ) (xs : List A) (a : A) → map f (xs ++ a ∷ []) ≡ map f xs ++ f a ∷ []
map-append_one f [] a = refl
map-append_one f (x ∷ xs) a = ap (λ l. f x ∷ l) (map-append_one f xs a)

module _ (h : Hasher) where
  -- The hashes of the held items, in order.
  abbrev pub hashes : Store → List Digest
  hashes s = map (content_hash h) s.items

  -- `seen` is the set of the items' hashes, and no two items have one hash.
  pub record IsValid (s : Store) : Type 0 where
    pub seen_iff : (d : Digest) → In d s.seen ↔ In d (hashes s)
    pub distinct : Distinct (hashes s)

  pub empty-IsValid : IsValid empty
  empty-IsValid = record { seen_iff = λ d. (λ m. m, λ m. m); distinct = tt }

  hashes_push :
      (s : Store) (item : Item) (d : Digest)
      → In d (map (content_hash h) (s.items ++ item ∷ []))
        ↔ ((d ≡ content_hash h item) ⊎ In d (hashes s))
  hashes_push s item d = (
    λ m.
        elim (In-append d (hashes s) (content_hash h item ∷ [])
          (subst (λ l. In d l) (map-append_one (content_hash h) s.items item) m)) [
            | inl k ↦ inr k
            | inr (inl e) ↦ inl e
            | inr (inr k) ↦ (elim k [ ])
          ],
    λ m. subst (λ l. In d l) (sym (map-append_one (content_hash h) s.items item)) (back m),
  )
    where
      back :
          (d ≡ content_hash h item) ⊎ In d (hashes s) → In d (hashes s ++ content_hash h item ∷ [])
      back (inl e) = In-append_right d (hashes s) (content_hash h item ∷ []) (inl e)
      back (inr k) = In-append_left d (hashes s) (content_hash h item ∷ []) k

  -- `insert` keeps a valid store valid, and afterwards exactly the old hashes and the item's are
  -- held.
  pub insert-IsValid :
      (s : Store) (item : Item)
      → IsValid s
      → IsValid (insert h s item)
        × ((d : Digest)
            → In d (hashes (insert h s item)) ↔ ((d ≡ content_hash h item) ⊎ In d (hashes s)))
  unfolding insert
  insert-IsValid s item v = split (elem (content_hash h item) s.seen) refl
    where
      c : Digest
      c = content_hash h item

      fresh : Store
      fresh = record { items = s.items ++ item ∷ []; seen = c ∷ s.seen }

      split :
          (t : Bool)
          → elem c s.seen ≡ t
          → IsValid (if t then s else fresh)
            × ((d : Digest) → In d (hashes (if t then s else fresh)) ↔ ((d ≡ c) ⊎ In d (hashes s)))
      split true e =
          let here = (v.seen_iff c).0 (elem-In c s.seen e) in
          (
            v,
            λ d. (
              λ m. inr m,
              λ m. elim m [ inl q ↦ subst (λ x. In x (hashes s)) (sym q) here | inr k ↦ k ],
            ),
          )
      split false e = (
        record {
          seen_iff = λ d. (
            λ m.
                (hashes_push s item d).1
                  (elim m [ inl q ↦ inl q | inr k ↦ inr ((v.seen_iff d).0 k) ]),
            λ m. elim ((hashes_push s item d).0 m) [
              | inl q ↦ inl q
              | inr k ↦ inr ((v.seen_iff d).1 k)
            ],
          );
          distinct = subst Distinct (sym (map-append_one (content_hash h) s.items item)) (
              Distinct-push (hashes s) c v.distinct
                (λ m. cc (e, In-elem c s.seen ((v.seen_iff c).1 m))));
        },
        λ d. hashes_push s item d,
      )

  insert_all-IsValid :
      (s : Store) (items : List Item)
      → IsValid s
      → IsValid (insert_all h s items)
        × ((d : Digest)
            → In d (hashes (insert_all h s items))
              ↔ (In d (hashes s) ⊎ In d (map (content_hash h) items)))
  unfolding insert_all
  insert_all-IsValid s [] v =
      (v, λ d. (λ m. inl m, λ m. elim m [ inl k ↦ k | inr k ↦ (elim k [ ]) ]))
  insert_all-IsValid s (item ∷ items) v =
      let one = insert-IsValid s item v in
      let rest = insert_all-IsValid (insert h s item) items one.0 in
      (
        rest.0,
        λ d. (
          λ m. elim ((rest.1 d).0 m) [
            | inl k ↦ (elim ((one.1 d).0 k) [ inl q ↦ inr (inl q) | inr n ↦ inl n ])
            | inr k ↦ inr (inr k)
          ],
          λ m. (rest.1 d).1 (elim m [
            | inl k ↦ inl ((one.1 d).1 (inr k))
            | inr (inl q) ↦ inl ((one.1 d).1 (inl q))
            | inr (inr k) ↦ inr k
          ]),
        ),
      )

  -- `union` keeps a valid store valid, and holds exactly the hashes that at least one of the two
  -- stores holds.
  pub union-IsValid :
      (s other : Store)
      → IsValid s
      → IsValid (union h s other)
        × ((d : Digest) → In d (hashes (union h s other)) ↔ (In d (hashes s) ⊎ In d (hashes other)))
  unfolding union
  union-IsValid s other v = insert_all-IsValid s other.items v

  -- A store that `from_iter` builds is valid and holds exactly the hashes of the items given.
  pub from_iter-IsValid :
      (items : List Item)
      → IsValid (from_iter h items)
        × ((d : Digest) → In d (hashes (from_iter h items)) ↔ In d (map (content_hash h) items))
  unfolding from_iter
  from_iter-IsValid items =
      let all = insert_all-IsValid empty items empty-IsValid in
      (
        all.0,
        λ d. (
          λ m. elim ((all.1 d).0 m) [ inl k ↦ (elim k [ ]) | inr k ↦ k ],
          λ m. (all.1 d).1 (inr m),
        ),
      )

  -- Inserting an item again changes nothing.
  pub insert_idem : (s : Store) (item : Item) → insert h (insert h s item) item ≡ insert h s item
  unfolding insert
  insert_idem s item = split (elem (content_hash h item) s.seen) refl
    where
      c : Digest
      c = content_hash h item

      fresh : Store
      fresh = record { items = s.items ++ item ∷ []; seen = c ∷ s.seen }

      split :
          (t : Bool)
          → elem c s.seen ≡ t
          → insert h (if t then s else fresh) item ≡ (if t then s else fresh)
      split true e = rw e
      split false e = rw (eqb_refl c)
