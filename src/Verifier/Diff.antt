-- ===== src/Verifier/Diff.antt =====
-- onomancy_protocol/src/verifier/state/diff.rs: the changes between two derived states.
pub mod Stillness
pub mod Surfacing
pub mod Interrupts
mod Examples
use onomancy.Prelude.{
  ℕ, List, [], ◌∷◌, ◌++◌, map, Bool, true, false, not, ◌&&◌, any, all, elem, filter, ltb, Option,
  none, some, if◌then◌else◌, ◌==◌,
}
use onomancy.Core.{DocAnchor}
use onomancy.Dnssec.Serial.{Serial}
use onomancy.Dnssec.Units.{DnsName}
use onomancy.Verifier.Lineage.{Fork, sorted_keys}
use onomancy.Verifier.Succession.{SuccessionFork}
use onomancy.Verifier.Decisions.{get}
use onomancy.Verifier.State.{
  AcceptedBinding, BindingState, BindingGrade, confirmed, provisional, Divergence, DivergenceSource,
  claim, pin, no_binding,
}

pub data EventKind : Type 0 where
  binding_changed : Option DocAnchor → Option DocAnchor → EventKind
  lineage_fork_surfaced : Fork → EventKind
  serial_regression : Serial → Serial → EventKind
  succession_fork_surfaced : SuccessionFork → EventKind
  contested_cleared : EventKind
  contested_entered : EventKind
  divergence_cleared : Divergence → EventKind
  divergence_surfaced : Divergence → EventKind
  grade_changed : BindingGrade → BindingGrade → EventKind
  losing_acceptance_cleared : DocAnchor → EventKind
  losing_acceptance_surfaced : DocAnchor → EventKind
  pending_cleared : DocAnchor → EventKind
  pending_surfaced : DocAnchor → EventKind

-- `may_prompt`
unfoldable pub may_prompt : EventKind → Bool
may_prompt (binding_changed _ _) = true
may_prompt (lineage_fork_surfaced _) = true
may_prompt (serial_regression _ _) = true
may_prompt (succession_fork_surfaced _) = true
may_prompt _ = false

-- The derived `==` of the compared types.
abbrev pub document_eqb : Option DocAnchor → Option DocAnchor → Bool
document_eqb none none = true
document_eqb none (some b) = false
document_eqb (some a) none = false
document_eqb (some a) (some b) = a == b

abbrev pub grade_eqb : BindingGrade → BindingGrade → Bool
grade_eqb confirmed confirmed = true
grade_eqb provisional provisional = true
grade_eqb _ _ = false

abbrev pub fork_eqb : Fork → Fork → Bool
fork_eqb a b = a.document == b.document && a.at == b.at

abbrev pub source_eqb : DivergenceSource → DivergenceSource → Bool
source_eqb claim claim = true
source_eqb pin pin = true
source_eqb _ _ = false

abbrev pub divergence_eqb : Divergence → Divergence → Bool
divergence_eqb a b = a.alleged == b.alleged && source_eqb a.source b.source

abbrev pub list_eqb : List ℕ → List ℕ → Bool
list_eqb [] [] = true
list_eqb [] (y ∷ ys) = false
list_eqb (x ∷ xs) [] = false
list_eqb (x ∷ xs) (y ∷ ys) = x == y && list_eqb xs ys

abbrev pub succession_fork_eqb : SuccessionFork → SuccessionFork → Bool
succession_fork_eqb a b = a.predecessor == b.predecessor && list_eqb a.successors b.successors

-- `new_items`, over the element type's `==`.
unfoldable pub new_items : {A : Type 0} → (A → A → Bool) → List A → List A → List A
new_items eqb before after = filter (λ item. not (any (λ old. eqb item old) before)) after

abbrev pub document_of : Option AcceptedBinding → Option DocAnchor
document_of none = none
document_of (some b) = some b.document

-- Binding movement: the document's identity, not the grade.
unfoldable pub movement : Option AcceptedBinding → Option AcceptedBinding → List EventKind
movement before after =
    if document_eqb (document_of before) (document_of after)
    then []
    else binding_changed (document_of before) (document_of after) ∷ []

-- A serial that moved down.
unfoldable pub regressed : Option Serial → Option Serial → List EventKind
regressed (some old) (some new) = if ltb new old then serial_regression old new ∷ [] else []
regressed _ _ = []

unfoldable pub regression :
    BindingState → BindingState → Option AcceptedBinding → Option AcceptedBinding → List EventKind
unfolding regressed
regression before after (some prior) (some current) =
    if prior.document == current.document
    then regressed before.effective_serial after.effective_serial
    else []
regression before after _ _ = []

grade_movement : Option AcceptedBinding → Option AcceptedBinding → List EventKind
grade_movement (some prior) (some current) =
    if prior.document == current.document && not (grade_eqb prior.grade current.grade)
    then grade_changed prior.grade current.grade ∷ []
    else []
grade_movement _ _ = []

contest_movement : Bool → Bool → List EventKind
contest_movement false true = contested_entered ∷ []
contest_movement true false = contested_cleared ∷ []
contest_movement _ _ = []

document_eq : ℕ → ℕ → Bool
document_eq a b = a == b

-- `host_diff`
unfoldable pub host_diff : BindingState → BindingState → List EventKind
unfolding movement regression grade_movement contest_movement new_items document_eq
host_diff before after =
    movement before.accepted after.accepted
    ++ (regression before after before.accepted after.accepted
        ++ (grade_movement before.accepted after.accepted
            ++ (map lineage_fork_surfaced (new_items fork_eqb before.forks after.forks)
                ++ (map succession_fork_surfaced
                      (new_items succession_fork_eqb before.succession_forks after.succession_forks)
                    ++ (contest_movement before.contested after.contested
                        ++ (map pending_surfaced
                              (new_items document_eq before.pending after.pending)
                            ++ (map pending_cleared
                                  (new_items document_eq after.pending before.pending)
                                ++ (map losing_acceptance_surfaced (
                                      new_items document_eq before.losing_acceptances
                                        after.losing_acceptances)
                                    ++ (map losing_acceptance_cleared (
                                          new_items document_eq after.losing_acceptances
                                            before.losing_acceptances)
                                        ++ (map divergence_surfaced (
                                              new_items divergence_eqb before.divergence
                                                after.divergence)
                                            ++ map divergence_cleared (
                                                new_items divergence_eqb after.divergence
                                                  before.divergence)))))))))))

pub record Event : Type 0 where
  pub hostname : DnsName
  pub kind : EventKind

state_at : DnsName → List (DnsName × BindingState) → BindingState
state_at hostname bindings = elim (get hostname bindings) [ none ↦ no_binding | some s ↦ s ]

diff_hosts :
    List (DnsName × BindingState) → List (DnsName × BindingState) → List DnsName → List Event
unfolding host_diff state_at get
diff_hosts before after [] = []
diff_hosts before after (hostname ∷ hostnames) =
    map (λ k. record { hostname = hostname; kind = k })
      (host_diff (state_at hostname before) (state_at hostname after))
    ++ diff_hosts before after hostnames

-- `VerifierState::diff`, from the previous bindings to these.
unfoldable pub diff : List (DnsName × BindingState) → List (DnsName × BindingState) → List Event
unfolding diff_hosts
diff after before = diff_hosts before after (
    sorted_keys (
      map (λ (e : DnsName × BindingState). e.0) after
      ++ map (λ (e : DnsName × BindingState). e.0) before))
