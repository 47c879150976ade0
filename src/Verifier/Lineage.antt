-- ===== src/Verifier/Lineage.antt =====
-- Stage 3 of onomancy_protocol/src/verifier/state.rs: per-document generation history from the
-- rotation statements, its forks, and which generations the heads rule protects.
pub mod Cycle
pub mod Descent
pub mod Scope
pub mod View
mod Examples
use onomancy.Prelude.{
  ℕ, zero, suc, ◌+◌, List, [], ◌∷◌, ◌++◌, map, Bool, true, false, not, ◌&&◌, ◌||◌, any, all, elem,
  filter, find, length, leb, Option, none, some, if◌then◌else◌, ◌==◌,
}
use onomancy.Prelude.Sort.{sort_by_key, dedup_by}
use onomancy.Prelude.Worklist.{drain, enough}
use onomancy.Core.{Digest, DocAnchor}
use onomancy.Dnssec.Units.{GenerationKey}
use onomancy.Verifier.Evidence.{Evidence, RotationEvidence, is_excluded}

-- binding_state.rs: `Fork`
pub record Fork : Type 0 where
  pub document : DocAnchor
  pub at : GenerationKey

-- A replaced → successor edge.
pub record Edge : Type 0 where
  pub document : DocAnchor
  pub replaced : GenerationKey
  pub successor : GenerationKey

-- A generation of a document.
pub record Slot : Type 0 where
  pub document : DocAnchor
  pub generation : GenerationKey

pub record LineageView : Type 0 where
  pub edges : List Edge
  pub forks : List Fork
  pub implicated : List Slot
  pub protected : List Slot

-- `contains` on a set of slots.
unfoldable pub has_slot : List Slot → DocAnchor → GenerationKey → Bool
has_slot slots document generation =
    any (λ s. s.document == document && s.generation == generation) slots

-- `LineageView::descends`: signed descent by at least one edge of the document.
unfoldable pub descends : LineageView → DocAnchor → GenerationKey → GenerationKey → Bool
descends view document ancestor descendant =
    elim (drain (λ (e : Edge). e.replaced) (λ e. e.successor) (λ e. e.document == document)
      (λ s. s == descendant) (enough view.edges (ancestor ∷ [])) view.edges (ancestor ∷ [])
      (ancestor ∷ [])) [ none ↦ true | some _ ↦ false ]

-- `sort_unstable` and `dedup` on a list of keys.
unfoldable pub sorted_keys : List ℕ → List ℕ
sorted_keys ks = dedup_by (λ a b. a == b) (sort_by_key (λ k. k ∷ []) ks)

-- `lineage_heads`: the successors that no statement replaces.
pub lineage_heads : List RotationEvidence → List GenerationKey
lineage_heads rotations = sorted_keys (
    filter (λ s. all (λ (r : RotationEvidence). not (r.replaced == s)) rotations)
      (map (λ (r : RotationEvidence). r.successor) rotations))

-- `forward_closure`: the fork points and all that is reachable from them.
pub forward_closure : List GenerationKey → List RotationEvidence → List GenerationKey
forward_closure fork_points rotations =
    elim (drain (λ (r : RotationEvidence). r.replaced) (λ r. r.successor) (λ _. true) (λ _. false)
      (enough rotations fork_points) rotations fork_points fork_points) [
        | none ↦ []
        | some reached ↦ sort_by_key (λ k. k ∷ []) reached
      ]

-- The inner loop of `find_cycle`: whether following first matches from `current` returns to
-- `target` within the rounds left.
pub returns_to : ℕ → List RotationEvidence → GenerationKey → GenerationKey → Bool
returns_to zero rotations target current = false
returns_to (suc rounds) rotations target current =
    elim (find (λ (r : RotationEvidence). r.replaced == current) rotations) [
      | none ↦ false
      | some next ↦
          if next.successor == target
          then true
          else returns_to rounds rotations target next.successor
    ]

find_cycle_from : List RotationEvidence → List RotationEvidence → Option GenerationKey
unfolding returns_to
find_cycle_from rotations [] = none
find_cycle_from rotations (start ∷ starts) =
    if returns_to (length rotations) rotations start.replaced start.successor
    then some start.replaced
    else find_cycle_from rotations starts

-- `find_cycle`
pub find_cycle : List RotationEvidence → Option GenerationKey
unfolding find_cycle_from
find_cycle rotations = find_cycle_from rotations rotations

-- A key for every pair of statements that replace one generation.
pub double_replaced : List RotationEvidence → List GenerationKey
double_replaced [] = []
double_replaced (r ∷ rs) =
    map (λ _. r.replaced) (filter (λ (other : RotationEvidence). r.replaced == other.replaced) rs)
    ++ double_replaced rs

-- The keys at which one document's lineage is out of shape.
pub fork_points_of : List RotationEvidence → List GenerationKey
unfolding double_replaced find_cycle
fork_points_of of_doc =
    sorted_keys
      (double_replaced of_doc ++ (elim (find_cycle of_doc) [ none ↦ [] | some k ↦ k ∷ [] ]))

is_none : Option GenerationKey → Bool
is_none none = true
is_none (some k) = false

no_keys : List GenerationKey → Bool
no_keys [] = true
no_keys (k ∷ ks) = false

-- One document's share of the view.
pub record DocumentLineage : Type 0 where
  pub protected : List GenerationKey
  pub implicated : List GenerationKey
  pub fork_points : List GenerationKey

pub settled : List RotationEvidence → List GenerationKey → Bool
unfolding lineage_heads find_cycle is_none no_keys
settled of_doc fork_points =
    (leb (length (lineage_heads of_doc)) 1 && is_none (find_cycle of_doc)) || no_keys fork_points

pub judge_document : List RotationEvidence → DocumentLineage
unfolding fork_points_of settled forward_closure
judge_document of_doc =
    let fork_points = fork_points_of of_doc in
    let suffix = forward_closure fork_points of_doc in
    if settled of_doc fork_points
    then record {
      protected = map (λ (r : RotationEvidence). r.replaced) of_doc;
      implicated = [];
      fork_points = fork_points;
    }
    else record {
      protected =
          map (λ (r : RotationEvidence). r.replaced)
            (filter (λ (r : RotationEvidence). not (elem r.replaced suffix)) of_doc);
      implicated =
          map (λ (r : RotationEvidence). r.replaced)
            (filter (λ (r : RotationEvidence). elem r.replaced suffix) of_doc)
          ++ suffix;
      fork_points = fork_points;
    }

slots_of : DocAnchor → List GenerationKey → List Slot
slots_of document = map (λ g. record { document = document; generation = g })

-- The loop over the documents.
judge_documents : List RotationEvidence → List DocAnchor → LineageView → LineageView
unfolding judge_document slots_of
judge_documents rotations [] view = view
judge_documents rotations (document ∷ documents) view =
    let judged =
      judge_document (filter (λ (r : RotationEvidence). r.root_doc == document) rotations) in
    judge_documents rotations documents (record view {
      forks = view.forks ++ map (λ k. record { document = document; at = k }) judged.fork_points;
      implicated = slots_of document judged.implicated ++ view.implicated;
      protected = slots_of document judged.protected ++ view.protected;
    })

-- The statements that count, one for each edge.
pub considered_rotations : Evidence → List Digest → List RotationEvidence
considered_rotations evidence excluded =
    dedup_by
      (λ (a b : RotationEvidence).
        a.root_doc == b.root_doc && a.replaced == b.replaced && a.successor == b.successor)
      (sort_by_key (λ (r : RotationEvidence). r.root_doc ∷ r.replaced ∷ r.successor ∷ r.hash ∷ [])
        (filter (λ (r : RotationEvidence). not (is_excluded r.provenance r.hash excluded))
          evidence.rotations))

abbrev pub fork_key : Fork → List ℕ
fork_key f = f.document ∷ f.at ∷ []

pub lineage_of : List RotationEvidence → LineageView
unfolding judge_documents
lineage_of rotations =
    let view =
      judge_documents rotations (sorted_keys (map (λ (r : RotationEvidence). r.root_doc) rotations))
        (record {
          edges =
              map
                (λ (r : RotationEvidence). record {
                  document = r.root_doc;
                  replaced = r.replaced;
                  successor = r.successor;
                })
                rotations;
          forks = [];
          implicated = [];
          protected = [];
        }) in
    record view { forks = sort_by_key fork_key view.forks }

-- `build_lineage`
unfoldable pub build_lineage : Evidence → List Digest → LineageView
unfolding considered_rotations lineage_of
build_lineage evidence excluded = lineage_of (considered_rotations evidence excluded)
