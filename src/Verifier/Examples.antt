-- ===== src/Verifier/Examples.antt =====
-- The verifier on one small store: a certificate of hostname 3 for document 1.
use onomancy.Prelude.{
  ℕ, ◌≤◌, List, [], ◌∷◌, Bool, true, false, Option, none, some, ◌≡◌, ◌↔◌, ◌⊎◌, refl, In, inl, inr,
  arith,
}
use onomancy.Dnssec.Freshness.{Freshness}
use onomancy.Dnssec.Units.{ChainProof, TxtRecord}
use onomancy.Verifier.Evidence.{BindingEvidence, Evidence, freshness, is_deferred}
use onomancy.Verifier.Evidence.Validate.{zone_word, validate_record}
use onomancy.Verifier.Evidence.Sound.{IsBinding, validate_record-ok}
use onomancy.Verifier.Evidence.Extract.{validate_and_extract}
use onomancy.Verifier.Evidence.Extract.Origin.{Origin, validate_and_extract-Origin}
use onomancy.Verifier.Lineage.{LineageView, build_lineage}
use onomancy.Verifier.Succession.{ProofGraph, chain_from}
use onomancy.Verifier.Acceptances.{winning_acceptance}
use onomancy.Verifier.Acceptances.Receipts.{IsWinner, winning_acceptance-IsWinner}
use onomancy.Verifier.Decisions.{Acceptance, get, get_all}
use onomancy.Verifier.Rules.{generation_rule, apply_generation_rules}
use onomancy.Verifier.Rules.Fate.{Fate, generation_rule-Fate}
use onomancy.Verifier.Rules.Grading.{IsGrading, IsContest, apply_generation_rules-IsGrading}
use onomancy.Verifier.Resolution.{LadderContext, best_records, resolve_document, unmoved, bridged}
use onomancy.Verifier.Resolution.Movement.{IsMove, resolve_document-moves}
use onomancy.Verifier.Resolution.Candidates.{IsSupported, resolve_document-IsSupported}
use onomancy.Verifier.State.{BindingState, AcceptedBinding, confirmed, derive_host, compute}
use onomancy.Verifier.State.Masking.{IsAdmitted, accepted-uncontested}
use onomancy.Verifier.State.Certified.{
  HasCertificate, accepted-HasCertificate, confirmed-fresh, IsBothWays, compute-IsBothWays,
}
use onomancy.Verifier.Fixtures.{
  hasher, window, validator, authority, cert, store, binding, evidence, decisions,
}

abbrev accepted : AcceptedBinding
accepted = record { continuity = unmoved; document = 1; generation = 21; grade = confirmed }

abbrev derived : BindingState
derived = record {
  accepted = some accepted;
  contested = false;
  divergence = [];
  effective_serial = some 9;
  forks = [];
  losing_acceptances = [];
  pending = [];
  succession_forks = [];
  tenure = some window;
}

compute-IsBothWays_example : IsBothWays validator authority store 3 1
unfolding compute onomancy.Verifier.Lineage.sorted_keys onomancy.Prelude.Sort.dedup_by
    onomancy.Prelude.Sort.sort_by_key validate_and_extract validate_record zone_word
    onomancy.Prelude.Extremes.max_by_key resolve_document build_lineage
    onomancy.Verifier.Succession.for_hostname best_records
    onomancy.Verifier.Evidence.Extract.sorted_documents apply_generation_rules get_all is_deferred
    generation_rule freshness onomancy.Verifier.Lineage.has_slot
    onomancy.Verifier.Resolution.best_of_document onomancy.Verifier.Store.content_hash
    onomancy.Core.saturating_add onomancy.Core.saturating_mul onomancy.Dnssec.Freshness.grade
    onomancy.Dnssec.Freshness.new onomancy.Ladder.compare onomancy.Prelude.Extremes.min_by_key
    onomancy.Prelude.Worklist.drain onomancy.Prelude.Worklist.visit
    onomancy.Verifier.Acceptances.cited_records onomancy.Verifier.Acceptances.is_well_formed
    onomancy.Verifier.Acceptances.losers_below onomancy.Verifier.Acceptances.rank_acceptance
    onomancy.Verifier.Acceptances.ranked_acceptances onomancy.Verifier.Acceptances.winner_of
    winning_acceptance get onomancy.Verifier.Evidence.is_excluded onomancy.Verifier.Lineage.descends
    onomancy.Verifier.Resolution.as_contender onomancy.Verifier.Resolution.beats_within
    onomancy.Verifier.Resolution.candidate_documents onomancy.Verifier.Resolution.continuity_grade
    onomancy.Verifier.Resolution.continuity_of onomancy.Verifier.Resolution.fully_checked_departure
    onomancy.Verifier.Resolution.has_fresh onomancy.Verifier.Resolution.incumbent_of
    onomancy.Verifier.Resolution.internally_contested onomancy.Verifier.Resolution.is_dominated
    onomancy.Verifier.Resolution.is_eligible onomancy.Verifier.Resolution.is_signed_newer
    onomancy.Verifier.Resolution.ladder_verdict onomancy.Verifier.Resolution.pending_among
    onomancy.Verifier.Resolution.pick_undominated onomancy.Verifier.Resolution.position
    onomancy.Verifier.Resolution.resolve_among onomancy.Verifier.Resolution.settle
    onomancy.Verifier.Resolution.spellings onomancy.Verifier.Resolution.tie_contests
    onomancy.Verifier.Rules.apply_disposition onomancy.Verifier.Rules.is_corroborated
    onomancy.Verifier.State.admitted onomancy.Verifier.State.all_forks
    onomancy.Verifier.State.assemble onomancy.Verifier.State.considered
    onomancy.Verifier.State.corroborated onomancy.Verifier.State.derive_divergence derive_host
    onomancy.Verifier.State.global_rotation_exclusions onomancy.Verifier.State.grade_binding
    onomancy.Verifier.State.hostnames onomancy.Verifier.State.serial_of
    onomancy.Verifier.State.tenure_of onomancy.Verifier.State.tenure_span
    onomancy.Verifier.Store.chain_item_bytes chain_from onomancy.Verifier.Succession.chain_loop
    onomancy.Verifier.Succession.edges_of onomancy.Verifier.Succession.forks_among
    onomancy.Verifier.Succession.is_fork_point onomancy.Verifier.Succession.next_hop
    onomancy.Verifier.Succession.proves onomancy.Verifier.Succession.successors_of
compute-IsBothWays_example =
    compute-IsBothWays hasher validator authority store 100 decisions [] 3 derived accepted
      (inl refl) refl

validate_and_extract-Origin_example : Origin hasher validator authority store.items binding
unfolding validate_and_extract validate_record zone_word onomancy.Prelude.Extremes.max_by_key
    onomancy.Verifier.Store.content_hash
validate_and_extract-Origin_example =
    validate_and_extract-Origin hasher validator authority store binding (inl refl)

validate_record-ok_example :
    (proof : ChainProof) × (t : TxtRecord) × IsBinding validator authority cert 11 proof t binding
unfolding validate_record zone_word onomancy.Prelude.Extremes.max_by_key
validate_record-ok_example = validate_record-ok validator authority cert 11 binding refl

accepted-HasCertificate_example : HasCertificate evidence 3 100 decisions 1
unfolding onomancy.Verifier.Lineage.sorted_keys onomancy.Prelude.Sort.dedup_by
    onomancy.Prelude.Sort.sort_by_key validate_and_extract validate_record zone_word
    onomancy.Prelude.Extremes.max_by_key resolve_document build_lineage
    onomancy.Verifier.Succession.for_hostname best_records
    onomancy.Verifier.Evidence.Extract.sorted_documents apply_generation_rules get_all is_deferred
    generation_rule freshness onomancy.Verifier.Lineage.has_slot
    onomancy.Verifier.Resolution.best_of_document onomancy.Verifier.Store.content_hash
    onomancy.Core.saturating_add onomancy.Core.saturating_mul onomancy.Dnssec.Freshness.grade
    onomancy.Dnssec.Freshness.new onomancy.Ladder.compare onomancy.Prelude.Extremes.min_by_key
    onomancy.Prelude.Worklist.drain onomancy.Prelude.Worklist.visit
    onomancy.Verifier.Acceptances.cited_records onomancy.Verifier.Acceptances.is_well_formed
    onomancy.Verifier.Acceptances.losers_below onomancy.Verifier.Acceptances.rank_acceptance
    onomancy.Verifier.Acceptances.ranked_acceptances onomancy.Verifier.Acceptances.winner_of
    winning_acceptance get onomancy.Verifier.Evidence.is_excluded onomancy.Verifier.Lineage.descends
    onomancy.Verifier.Resolution.as_contender onomancy.Verifier.Resolution.beats_within
    onomancy.Verifier.Resolution.candidate_documents onomancy.Verifier.Resolution.continuity_grade
    onomancy.Verifier.Resolution.continuity_of onomancy.Verifier.Resolution.fully_checked_departure
    onomancy.Verifier.Resolution.has_fresh onomancy.Verifier.Resolution.incumbent_of
    onomancy.Verifier.Resolution.internally_contested onomancy.Verifier.Resolution.is_dominated
    onomancy.Verifier.Resolution.is_eligible onomancy.Verifier.Resolution.is_signed_newer
    onomancy.Verifier.Resolution.ladder_verdict onomancy.Verifier.Resolution.pending_among
    onomancy.Verifier.Resolution.pick_undominated onomancy.Verifier.Resolution.position
    onomancy.Verifier.Resolution.resolve_among onomancy.Verifier.Resolution.settle
    onomancy.Verifier.Resolution.spellings onomancy.Verifier.Resolution.tie_contests
    onomancy.Verifier.Rules.apply_disposition onomancy.Verifier.Rules.is_corroborated
    onomancy.Verifier.State.admitted onomancy.Verifier.State.all_forks
    onomancy.Verifier.State.assemble onomancy.Verifier.State.considered
    onomancy.Verifier.State.corroborated onomancy.Verifier.State.derive_divergence derive_host
    onomancy.Verifier.State.global_rotation_exclusions onomancy.Verifier.State.grade_binding
    onomancy.Verifier.State.hostnames onomancy.Verifier.State.serial_of
    onomancy.Verifier.State.tenure_of onomancy.Verifier.State.tenure_span
    onomancy.Verifier.Store.chain_item_bytes chain_from onomancy.Verifier.Succession.chain_loop
    onomancy.Verifier.Succession.edges_of onomancy.Verifier.Succession.forks_among
    onomancy.Verifier.Succession.is_fork_point onomancy.Verifier.Succession.next_hop
    onomancy.Verifier.Succession.proves onomancy.Verifier.Succession.successors_of
accepted-HasCertificate_example =
    accepted-HasCertificate authority 3 evidence 100 decisions [] accepted refl

confirmed-fresh_example :
    ((r : BindingEvidence) × IsAdmitted evidence 3 (get_all 3 decisions.resets) 100 r
      × (r.document ≡ 1)
      × (freshness r 100 ≡ Freshness.fresh))
    × (unmoved ≡ bridged → ⊥)
unfolding onomancy.Verifier.Lineage.sorted_keys onomancy.Prelude.Sort.dedup_by
    onomancy.Prelude.Sort.sort_by_key validate_and_extract validate_record zone_word
    onomancy.Prelude.Extremes.max_by_key resolve_document build_lineage
    onomancy.Verifier.Succession.for_hostname best_records
    onomancy.Verifier.Evidence.Extract.sorted_documents apply_generation_rules get_all is_deferred
    generation_rule freshness onomancy.Verifier.Lineage.has_slot
    onomancy.Verifier.Resolution.best_of_document onomancy.Verifier.Store.content_hash
    onomancy.Core.saturating_add onomancy.Core.saturating_mul onomancy.Dnssec.Freshness.grade
    onomancy.Dnssec.Freshness.new onomancy.Ladder.compare onomancy.Prelude.Extremes.min_by_key
    onomancy.Prelude.Worklist.drain onomancy.Prelude.Worklist.visit
    onomancy.Verifier.Acceptances.cited_records onomancy.Verifier.Acceptances.is_well_formed
    onomancy.Verifier.Acceptances.losers_below onomancy.Verifier.Acceptances.rank_acceptance
    onomancy.Verifier.Acceptances.ranked_acceptances onomancy.Verifier.Acceptances.winner_of
    winning_acceptance get onomancy.Verifier.Evidence.is_excluded onomancy.Verifier.Lineage.descends
    onomancy.Verifier.Resolution.as_contender onomancy.Verifier.Resolution.beats_within
    onomancy.Verifier.Resolution.candidate_documents onomancy.Verifier.Resolution.continuity_grade
    onomancy.Verifier.Resolution.continuity_of onomancy.Verifier.Resolution.fully_checked_departure
    onomancy.Verifier.Resolution.has_fresh onomancy.Verifier.Resolution.incumbent_of
    onomancy.Verifier.Resolution.internally_contested onomancy.Verifier.Resolution.is_dominated
    onomancy.Verifier.Resolution.is_eligible onomancy.Verifier.Resolution.is_signed_newer
    onomancy.Verifier.Resolution.ladder_verdict onomancy.Verifier.Resolution.pending_among
    onomancy.Verifier.Resolution.pick_undominated onomancy.Verifier.Resolution.position
    onomancy.Verifier.Resolution.resolve_among onomancy.Verifier.Resolution.settle
    onomancy.Verifier.Resolution.spellings onomancy.Verifier.Resolution.tie_contests
    onomancy.Verifier.Rules.apply_disposition onomancy.Verifier.Rules.is_corroborated
    onomancy.Verifier.State.admitted onomancy.Verifier.State.all_forks
    onomancy.Verifier.State.assemble onomancy.Verifier.State.considered
    onomancy.Verifier.State.corroborated onomancy.Verifier.State.derive_divergence derive_host
    onomancy.Verifier.State.global_rotation_exclusions onomancy.Verifier.State.grade_binding
    onomancy.Verifier.State.hostnames onomancy.Verifier.State.serial_of
    onomancy.Verifier.State.tenure_of onomancy.Verifier.State.tenure_span
    onomancy.Verifier.Store.chain_item_bytes chain_from onomancy.Verifier.Succession.chain_loop
    onomancy.Verifier.Succession.edges_of onomancy.Verifier.Succession.forks_among
    onomancy.Verifier.Succession.is_fork_point onomancy.Verifier.Succession.next_hop
    onomancy.Verifier.Succession.proves onomancy.Verifier.Succession.successors_of
confirmed-fresh_example = confirmed-fresh authority 3 evidence 100 decisions [] accepted refl refl

abbrev no_graph : ProofGraph
no_graph = record { edges = []; forks = []; statements = [] }

abbrev no_lineage : LineageView
no_lineage = build_lineage evidence []

abbrev ctx : LadderContext
ctx = record { authority = authority; graph = no_graph; lineage = no_lineage; now = 100 }

resolve_document-moves_example :
    (◌≡◌ {A = ℕ} 1 1)
    ⊎ (((resolve_document ctx (binding ∷ []) 3 decisions evidence).contested ≡ false)
        × IsMove ctx (best_records ctx (binding ∷ [])) 1 1)
unfolding onomancy.Verifier.Lineage.sorted_keys onomancy.Prelude.Sort.dedup_by
    onomancy.Prelude.Sort.sort_by_key validate_and_extract validate_record zone_word
    onomancy.Prelude.Extremes.max_by_key resolve_document build_lineage
    onomancy.Verifier.Succession.for_hostname best_records
    onomancy.Verifier.Evidence.Extract.sorted_documents apply_generation_rules get_all is_deferred
    generation_rule freshness onomancy.Verifier.Lineage.has_slot
    onomancy.Verifier.Resolution.best_of_document onomancy.Verifier.Store.content_hash
    onomancy.Core.saturating_add onomancy.Core.saturating_mul onomancy.Dnssec.Freshness.grade
    onomancy.Dnssec.Freshness.new onomancy.Ladder.compare onomancy.Prelude.Extremes.min_by_key
    onomancy.Prelude.Worklist.drain onomancy.Prelude.Worklist.visit
    onomancy.Verifier.Acceptances.cited_records onomancy.Verifier.Acceptances.is_well_formed
    onomancy.Verifier.Acceptances.losers_below onomancy.Verifier.Acceptances.rank_acceptance
    onomancy.Verifier.Acceptances.ranked_acceptances onomancy.Verifier.Acceptances.winner_of
    winning_acceptance get onomancy.Verifier.Evidence.is_excluded onomancy.Verifier.Lineage.descends
    onomancy.Verifier.Resolution.as_contender onomancy.Verifier.Resolution.beats_within
    onomancy.Verifier.Resolution.candidate_documents onomancy.Verifier.Resolution.continuity_grade
    onomancy.Verifier.Resolution.continuity_of onomancy.Verifier.Resolution.fully_checked_departure
    onomancy.Verifier.Resolution.has_fresh onomancy.Verifier.Resolution.incumbent_of
    onomancy.Verifier.Resolution.internally_contested onomancy.Verifier.Resolution.is_dominated
    onomancy.Verifier.Resolution.is_eligible onomancy.Verifier.Resolution.is_signed_newer
    onomancy.Verifier.Resolution.ladder_verdict onomancy.Verifier.Resolution.pending_among
    onomancy.Verifier.Resolution.pick_undominated onomancy.Verifier.Resolution.position
    onomancy.Verifier.Resolution.resolve_among onomancy.Verifier.Resolution.settle
    onomancy.Verifier.Resolution.spellings onomancy.Verifier.Resolution.tie_contests
    onomancy.Verifier.Rules.apply_disposition onomancy.Verifier.Rules.is_corroborated
    onomancy.Verifier.State.admitted onomancy.Verifier.State.all_forks
    onomancy.Verifier.State.assemble onomancy.Verifier.State.considered
    onomancy.Verifier.State.corroborated onomancy.Verifier.State.derive_divergence derive_host
    onomancy.Verifier.State.global_rotation_exclusions onomancy.Verifier.State.grade_binding
    onomancy.Verifier.State.hostnames onomancy.Verifier.State.serial_of
    onomancy.Verifier.State.tenure_of onomancy.Verifier.State.tenure_span
    onomancy.Verifier.Store.chain_item_bytes chain_from onomancy.Verifier.Succession.chain_loop
    onomancy.Verifier.Succession.edges_of onomancy.Verifier.Succession.forks_among
    onomancy.Verifier.Succession.is_fork_point onomancy.Verifier.Succession.next_hop
    onomancy.Verifier.Succession.proves onomancy.Verifier.Succession.successors_of
resolve_document-moves_example =
    resolve_document-moves ctx (binding ∷ []) 3 decisions evidence 1 1 21 refl refl

resolve_document-IsSupported_example : IsSupported ctx (binding ∷ []) 1 21
unfolding resolve_document best_records onomancy.Verifier.Evidence.Extract.sorted_documents
    onomancy.Prelude.Sort.dedup_by onomancy.Prelude.Sort.sort_by_key
    onomancy.Verifier.Resolution.best_of_document winning_acceptance
    onomancy.Prelude.Extremes.max_by_key chain_from
resolve_document-IsSupported_example =
    resolve_document-IsSupported ctx (binding ∷ []) 3 decisions evidence 1 21 refl

generation_rule-Fate_example :
    Fate binding 100 no_lineage
      (binding ∷ [])
      (generation_rule binding 100 no_lineage (binding ∷ []))
generation_rule-Fate_example = generation_rule-Fate binding 100 no_lineage (binding ∷ [])

apply_generation_rules-IsGrading_example :
    IsGrading 100 no_lineage (binding ∷ []) (apply_generation_rules (binding ∷ []) 100 no_lineage)
apply_generation_rules-IsGrading_example =
    apply_generation_rules-IsGrading (binding ∷ []) 100 no_lineage

winning_acceptance-IsWinner_example :
    (acceptances : List Acceptance) × ((get 3 decisions.acceptances ≡ some acceptances)
      × IsWinner 3 (get_all 3 decisions.resets) evidence acceptances 1)
unfolding winning_acceptance onomancy.Prelude.Sort.sort_by_key onomancy.Prelude.Extremes.max_by_key
winning_acceptance-IsWinner_example = winning_acceptance-IsWinner 3 decisions evidence 1 refl

accepted-uncontested_example :
    ¬ IsContest 100 no_lineage
      (onomancy.Verifier.State.considered evidence 3 (get_all 3 decisions.resets) 100)
      binding
unfolding onomancy.Verifier.Lineage.sorted_keys onomancy.Prelude.Sort.dedup_by
    onomancy.Prelude.Sort.sort_by_key validate_and_extract validate_record zone_word
    onomancy.Prelude.Extremes.max_by_key resolve_document build_lineage
    onomancy.Verifier.Succession.for_hostname best_records
    onomancy.Verifier.Evidence.Extract.sorted_documents apply_generation_rules get_all is_deferred
    generation_rule freshness onomancy.Verifier.Lineage.has_slot
    onomancy.Verifier.Resolution.best_of_document onomancy.Verifier.Store.content_hash
    onomancy.Core.saturating_add onomancy.Core.saturating_mul onomancy.Dnssec.Freshness.grade
    onomancy.Dnssec.Freshness.new onomancy.Ladder.compare onomancy.Prelude.Extremes.min_by_key
    onomancy.Prelude.Worklist.drain onomancy.Prelude.Worklist.visit
    onomancy.Verifier.Acceptances.cited_records onomancy.Verifier.Acceptances.is_well_formed
    onomancy.Verifier.Acceptances.losers_below onomancy.Verifier.Acceptances.rank_acceptance
    onomancy.Verifier.Acceptances.ranked_acceptances onomancy.Verifier.Acceptances.winner_of
    winning_acceptance get onomancy.Verifier.Evidence.is_excluded onomancy.Verifier.Lineage.descends
    onomancy.Verifier.Resolution.as_contender onomancy.Verifier.Resolution.beats_within
    onomancy.Verifier.Resolution.candidate_documents onomancy.Verifier.Resolution.continuity_grade
    onomancy.Verifier.Resolution.continuity_of onomancy.Verifier.Resolution.fully_checked_departure
    onomancy.Verifier.Resolution.has_fresh onomancy.Verifier.Resolution.incumbent_of
    onomancy.Verifier.Resolution.internally_contested onomancy.Verifier.Resolution.is_dominated
    onomancy.Verifier.Resolution.is_eligible onomancy.Verifier.Resolution.is_signed_newer
    onomancy.Verifier.Resolution.ladder_verdict onomancy.Verifier.Resolution.pending_among
    onomancy.Verifier.Resolution.pick_undominated onomancy.Verifier.Resolution.position
    onomancy.Verifier.Resolution.resolve_among onomancy.Verifier.Resolution.settle
    onomancy.Verifier.Resolution.spellings onomancy.Verifier.Resolution.tie_contests
    onomancy.Verifier.Rules.apply_disposition onomancy.Verifier.Rules.is_corroborated
    onomancy.Verifier.State.admitted onomancy.Verifier.State.all_forks
    onomancy.Verifier.State.assemble onomancy.Verifier.State.considered
    onomancy.Verifier.State.corroborated onomancy.Verifier.State.derive_divergence derive_host
    onomancy.Verifier.State.global_rotation_exclusions onomancy.Verifier.State.grade_binding
    onomancy.Verifier.State.hostnames onomancy.Verifier.State.serial_of
    onomancy.Verifier.State.tenure_of onomancy.Verifier.State.tenure_span
    onomancy.Verifier.Store.chain_item_bytes chain_from onomancy.Verifier.Succession.chain_loop
    onomancy.Verifier.Succession.edges_of onomancy.Verifier.Succession.forks_among
    onomancy.Verifier.Succession.is_fork_point onomancy.Verifier.Succession.next_hop
    onomancy.Verifier.Succession.proves onomancy.Verifier.Succession.successors_of
accepted-uncontested_example =
    accepted-uncontested authority 3 evidence 100 decisions [] accepted binding refl (inl refl) refl
