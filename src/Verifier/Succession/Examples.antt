-- ===== src/Verifier/Succession/Examples.antt =====
-- Document 1 migrates to 2, and 2 to 3.
use onomancy.Prelude.{ℕ, [], ◌∷◌, true, ◌≡◌, ◌≢◌, ◌↔◌, refl}
use onomancy.Verifier.Succession.{Migration, ProofGraph, chain_from, proves}
use onomancy.Verifier.Succession.Chain.{PathOf, proves_iff}

abbrev graph : ProofGraph
graph = record {
  edges =
      record { predecessor = 1; successor = 2 } ∷ record { predecessor = 2; successor = 3 } ∷ [];
  forks = [];
  statements = [];
}

proves_iff_example : (proves graph 1 3 ≡ true) ↔ ((◌≢◌ {A = ℕ} 1 3) × PathOf graph 1 3)
proves_iff_example = proves_iff graph 1 3

two_hops : proves graph 1 3 ≡ true
unfolding proves chain_from onomancy.Verifier.Succession.chain_loop
    onomancy.Verifier.Succession.next_hop onomancy.Verifier.Succession.is_fork_point
two_hops = refl
