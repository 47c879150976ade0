-- ===== src/Verifier/Lineage/Examples.antt =====
-- One rotation of document 1, and two ways to fork.
use onomancy.Prelude.{
  ℕ, List, [], ◌∷◌, Bool, true, false, Option, none, some, ◌≡◌, ◌↔◌, ◌⊎◌, refl, In, inl, inr,
}
use onomancy.Verifier.Evidence.{Evidence, RotationEvidence, no_evidence}
use onomancy.Verifier.Lineage.{
  LineageView, Edge, has_slot, descends, find_cycle, fork_points_of, settled, judge_document,
  considered_rotations, build_lineage, judge_documents,
}
use onomancy.Verifier.Lineage.Descent.{Descent, descends_iff}
use onomancy.Verifier.Lineage.Cycle.{IsCycle, find_cycle-IsCycle}
use onomancy.Verifier.Lineage.Scope.{IsReplaced, IsImplicated, judge_document-Scope}
use onomancy.Verifier.Lineage.View.{Holds, build_lineage-disjoint, build_lineage-covers}

abbrev rotated : ℕ → ℕ → ℕ → RotationEvidence
rotated hash a b = record {
  hash = hash;
  provenance = record { carriers = []; standalone = true };
  replaced = a;
  root_doc = 1;
  successor = b;
}

abbrev straight : Evidence
straight = record no_evidence { rotations = rotated 31 21 22 ∷ [] }

-- 21 and 22 replace each other.
abbrev circle : List RotationEvidence
circle = rotated 31 21 22 ∷ rotated 32 22 21 ∷ []

-- 22 and 23 replace each other, and each is also replaced by 21, which sorts first.
abbrev hidden_circle : List RotationEvidence
hidden_circle = rotated 31 22 21 ∷ rotated 32 22 23 ∷ rotated 33 23 21 ∷ rotated 34 23 22 ∷ []

descends_iff_example :
    (descends (build_lineage straight []) 1 21 22 ≡ true)
    ↔ Descent (build_lineage straight []).edges 1 21 22
descends_iff_example = descends_iff (build_lineage straight []) 1 21 22

find_cycle-IsCycle_example : IsCycle circle 21
unfolding find_cycle
find_cycle-IsCycle_example = find_cycle-IsCycle circle 21 refl

judge_document-Scope_example :
    (In 21 (judge_document circle).protected ↔ (
      IsReplaced circle 21
      × ((settled circle (fork_points_of circle) ≡ true) ⊎ (¬ IsImplicated circle 21))))
    × (In 21 (judge_document circle).implicated
        ↔ ((settled circle (fork_points_of circle) ≡ false) × IsImplicated circle 21))
judge_document-Scope_example = judge_document-Scope circle 21

build_lineage-disjoint_example : has_slot (build_lineage straight []).implicated 1 21 ≡ false
unfolding build_lineage has_slot considered_rotations judge_documents
    onomancy.Verifier.Lineage.sorted_keys onomancy.Prelude.Sort.dedup_by
    onomancy.Prelude.Sort.sort_by_key onomancy.Verifier.Evidence.is_excluded judge_document
    fork_points_of settled find_cycle
build_lineage-disjoint_example = build_lineage-disjoint straight [] 1 21 refl

build_lineage-covers_example :
    Holds (build_lineage straight []).protected 1 21
    ⊎ Holds (build_lineage straight []).implicated 1 21
unfolding considered_rotations onomancy.Prelude.Sort.dedup_by onomancy.Prelude.Sort.sort_by_key
    onomancy.Verifier.Evidence.is_excluded
build_lineage-covers_example = build_lineage-covers straight [] (rotated 31 21 22) (inl refl)

-- The walk for a cycle follows the first statement of each key, and misses this one.
missed_cycle : find_cycle hidden_circle ≡ none
unfolding find_cycle
missed_cycle = refl
