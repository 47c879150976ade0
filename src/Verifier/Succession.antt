-- ===== src/Verifier/Succession.antt =====
-- `ProofGraph` of onomancy_protocol/src/verifier/state.rs: a hostname's succession proofs, with
-- forks that the walk never crosses.
pub mod Chain
mod Examples
use onomancy.Prelude.{
  ℕ, zero, suc, ◌+◌, List, [], ◌∷◌, ◌++◌, map, Bool, true, false, not, ◌&&◌, any, elem, filter,
  find, length, ltb, Option, none, some, if◌then◌else◌, ◌==◌,
}
use onomancy.Prelude.Sort.{sort_by_key, dedup_by}
use onomancy.Core.{Digest, DocAnchor}
use onomancy.Dnssec.Units.{DnsName}
use onomancy.Verifier.Evidence.{Evidence, SuccessorEvidence, is_excluded}
use onomancy.Verifier.Evidence.Extract.{sorted_documents}

-- A predecessor → successor edge.
pub record Migration : Type 0 where
  pub predecessor : DocAnchor
  pub successor : DocAnchor

-- binding_state.rs: `SuccessionFork`
pub record SuccessionFork : Type 0 where
  pub predecessor : DocAnchor
  pub successors : List DocAnchor

pub record ProofGraph : Type 0 where
  pub edges : List Migration
  pub forks : List SuccessionFork
  pub statements : List SuccessorEvidence

abbrev pub same_edge : Migration → Migration → Bool
same_edge a b = a.predecessor == b.predecessor && a.successor == b.successor

abbrev pub edge_key : Migration → List ℕ
edge_key e = e.predecessor ∷ e.successor ∷ []

unfoldable pub edges_of : List SuccessorEvidence → List Migration
edges_of statements = dedup_by same_edge (
    sort_by_key edge_key (
      map
        (λ (s : SuccessorEvidence). record { predecessor = s.predecessor; successor = s.successor })
        statements))

unfoldable pub successors_of : List Migration → DocAnchor → List DocAnchor
successors_of edges predecessor =
    map (λ (e : Migration). e.successor)
      (filter (λ (e : Migration). e.predecessor == predecessor) edges)

unfoldable pub forks_among : List Migration → List DocAnchor → List SuccessionFork
unfolding successors_of
forks_among edges [] = []
forks_among edges (predecessor ∷ predecessors) =
    let rest = forks_among edges predecessors in
    let successors = successors_of edges predecessor in
    if ltb 1 (length successors)
    then record { predecessor = predecessor; successors = successors } ∷ rest
    else rest

-- `ProofGraph::for_hostname`
unfoldable pub for_hostname : Evidence → DnsName → List Digest → ProofGraph
unfolding edges_of forks_among
for_hostname evidence hostname excluded =
    let statements =
      sort_by_key (λ (s : SuccessorEvidence). s.hash ∷ [])
        (filter (λ (s : SuccessorEvidence). not (is_excluded s.provenance s.hash excluded))
          (filter (λ (s : SuccessorEvidence). s.hostname == hostname) evidence.successors)) in
    let edges = edges_of statements in
    record {
      edges = edges;
      forks = forks_among edges (sorted_documents (map (λ (e : Migration). e.predecessor) edges));
      statements = statements;
    }

-- `is_fork_point`
unfoldable pub is_fork_point : ProofGraph → DocAnchor → Bool
is_fork_point graph document = any (λ (f : SuccessionFork). f.predecessor == document) graph.forks

-- The next document of the chain, if the walk goes on.
unfoldable pub next_hop : ProofGraph → List DocAnchor → DocAnchor → Option DocAnchor
unfolding is_fork_point
next_hop graph chain current =
    if is_fork_point graph current
    then none
    else elim (find (λ (e : Migration). e.predecessor == current) graph.edges) [
      | none ↦ none
      | some e ↦ if elem e.successor chain then none else some e.successor
    ]

-- The loop of `chain_from`, which the fuel bounds.
unfoldable pub chain_loop : ℕ → ProofGraph → List DocAnchor → DocAnchor → List DocAnchor
unfolding next_hop
chain_loop zero graph chain current = chain
chain_loop (suc fuel) graph chain current = elim (next_hop graph chain current) [
  | none ↦ chain
  | some successor ↦ chain_loop fuel graph (chain ++ successor ∷ []) successor
]

-- `chain_from`: each hop adds a document that some edge leads to, so there are no more hops than
-- edges.
unfoldable pub chain_from : ProofGraph → DocAnchor → List DocAnchor
unfolding chain_loop
chain_from graph from = chain_loop (length graph.edges + 1) graph (from ∷ []) from

-- `proves`
unfoldable pub proves : ProofGraph → DocAnchor → DocAnchor → Bool
unfolding chain_from
proves graph from to = not (from == to) && elem to (chain_from graph from)
