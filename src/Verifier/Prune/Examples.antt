-- ===== src/Verifier/Prune/Examples.antt =====
-- Pruning a store of one certificate.
use onomancy.Prelude.{
  ℕ, ◌≤◌, ◌≢◌, List, [], ◌∷◌, Bool, true, false, some, ◌≡◌, refl, sym, subst, In, inl, inr, arith,
}
use onomancy.Verifier.Store.{record_item, rotation}
use onomancy.Verifier.Store.Union.{hashes}
use onomancy.Verifier.Evidence.{BindingEvidence}
use onomancy.Verifier.Evidence.Extract.{validate_and_extract}
use onomancy.Verifier.Prune.{dominates, horizon_at, prune}
use onomancy.Verifier.Prune.Keeps.{prune-keeps, IsCovered, prune-IsCovered}
use onomancy.Verifier.Fixtures.{hasher, validator, authority, cert, store, binding, decisions}

-- The binding renewed once, and once more.
abbrev renewed : BindingEvidence
renewed = record binding {
  hash = 12;
  key = record { window_end = 250; serial = 10; issued_at = 200 };
}

abbrev renewed_again : BindingEvidence
renewed_again = record binding {
  hash = 13;
  key = record { window_end = 350; serial = 11; issued_at = 300 };
}

prune-keeps_example : In 11 (hashes hasher (prune hasher validator authority store 100 decisions))
unfolding onomancy.Verifier.Store.content_hash onomancy.Verifier.Prune.all_cited
    onomancy.Verifier.Prune.cited_by
prune-keeps_example =
    prune-keeps hasher validator authority store 100 decisions (record_item cert) (inl refl)
      (inl refl)

prune-IsCovered_example :
    (kept : BindingEvidence) × IsCovered hasher validator authority store 100 decisions binding kept
unfolding validate_and_extract horizon_at onomancy.Verifier.Evidence.Validate.validate_record
    onomancy.Verifier.Evidence.Validate.zone_word onomancy.Prelude.Extremes.max_by_key
    onomancy.Verifier.Store.content_hash
prune-IsCovered_example =
    prune-IsCovered hasher validator authority store 100 decisions one_row near binding (inl refl)
  where
    one_row :
        (a b : BindingEvidence)
        → In a (binding ∷ [])
        → In b (binding ∷ [])
        → a.hash ≡ b.hash
        → a.hostname ≡ b.hostname
        → a.document ≡ b.document
        → a ≡ b
    one_row a b (inl p) (inl q) e f g = cc (p, q)
    one_row a b (inr m) q e f g = elim m [ ]
    one_row a b (inl p) (inr m) e f g = elim m [ ]

    near : (x : BindingEvidence) → In x (binding ∷ []) → x.key.serial ≤ horizon_at 100
    near x (inl p) =
        subst (λ (y : BindingEvidence). y.key.serial ≤ horizon_at 100) (sym p) (omega arith)
    near x (inr m) = elim m [ ]
