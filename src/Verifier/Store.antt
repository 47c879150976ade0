-- ===== src/Verifier/Store.antt =====
-- onomancy_protocol/src/verifier/state/store.rs and store/item.rs: the grow-only item store.
pub mod Union
mod Examples
use mathlib.Core.List.{foldl}
use onomancy.Prelude.{ℕ, List, [], ◌∷◌, ◌++◌, map, elem, if◌then◌else◌}
use onomancy.Core.{Digest, Bytes}
use onomancy.Dnssec.Units.{DnsName, DnssecChain, Certificate, RotationStatement, SuccessorStatement}

pub data Item : Type 0 where
  chain_refresh : DnsName → DnssecChain → Item
  record_item : Certificate → Item
  rotation : RotationStatement → Item
  successor : SuccessorStatement → Item

-- What hashing takes from elsewhere: Blake3, the bijou64 varint, and a hostname's text.
pub record Hasher : Type 0 where
  pub hash : Bytes → Digest
  pub varint : ℕ → Bytes
  pub text : DnsName → Bytes

module _ (h : Hasher) where
  -- `DnssecChain::write_framed`: the count, then each link behind its length.
  links_framed : DnssecChain → Bytes
  links_framed [] = []
  links_framed (link ∷ links) =
      h.varint (onomancy.Prelude.length link) ++ (link ++ links_framed links)

  pub chain_framed : DnssecChain → Bytes
  unfolding links_framed
  chain_framed chain = h.varint (onomancy.Prelude.length chain) ++ links_framed chain

  -- The bytes that `chain_item_hash` hashes: `ono-chain-item/`, the kind, and the hostname between
  -- zeros.
  unfoldable pub chain_item_bytes : ℕ → DnsName → DnssecChain → Bytes
  unfolding chain_framed
  chain_item_bytes kind hostname chain =
      (b'o' ∷ b'n' ∷ b'o' ∷ b'-' ∷ b'c' ∷ b'h' ∷ b'a' ∷ b'i' ∷ b'n' ∷ b'-' ∷ b'i' ∷ b't' ∷ b'e'
        ∷ b'm' ∷ b'/' ∷ [])
      ++ (kind ∷ 0 ∷ (h.text hostname ++ (0 ∷ chain_framed chain)))

  -- `Item::content_hash`
  unfoldable pub content_hash : Item → Digest
  unfolding chain_item_bytes
  content_hash (record_item certificate) = certificate.digest
  content_hash (rotation statement) = statement.digest
  content_hash (successor statement) = statement.digest
  content_hash (chain_refresh hostname chain) = h.hash (chain_item_bytes b'R' hostname chain)

-- The store: the items in order of arrival, and the set of their hashes.
pub record Store : Type 0 where
  pub items : List Item
  pub seen : List Digest

abbrev pub empty : Store
empty = record { items = []; seen = [] }

module _ (h : Hasher) where
  -- `Store::insert`
  pub insert : Store → Item → Store
  insert s item =
      if elem (content_hash h item) s.seen
      then s
      else record { items = s.items ++ item ∷ []; seen = content_hash h item ∷ s.seen }

  -- `Store::from_iter` with a store to begin with, and `Store::union`.
  pub insert_all : Store → List Item → Store
  insert_all s [] = s
  insert_all s (item ∷ items) = insert_all (insert s item) items

  pub union : Store → Store → Store
  unfolding insert_all
  union s other = insert_all s other.items

  pub from_iter : List Item → Store
  unfolding insert_all
  from_iter items = insert_all empty items
