-- ===== src/Verifier/Diff/Interrupts.antt =====
-- Which changes of a hostname may prompt: `may_prompt` of diff.rs over `host_diff`.
use onomancy.Prelude.{ℕ, ◌<◌, List, ◌++◌, map, Option, some, ◌≡◌, ◌≢◌, In}
use onomancy.Core.{DocAnchor}
use onomancy.Verifier.Lineage.{Fork}
use onomancy.Verifier.Succession.{SuccessionFork}
use onomancy.Verifier.State.{AcceptedBinding, BindingState}
use onomancy.Verifier.Diff.{
  EventKind, binding_changed, lineage_fork_surfaced, serial_regression, succession_fork_surfaced,
  fork_eqb, succession_fork_eqb, new_items, document_of, movement, regression,
}

-- The changes from one state to the next that may interrupt the user, and the event of each.
pub data Interrupts (before after : BindingState) : EventKind → Type 0 where
  moved :
      (a b : Option DocAnchor)
      → a ≡ document_of before.accepted
      → b ≡ document_of after.accepted
      → a ≢ b
      → Interrupts before after (binding_changed a b)
  fell :
      (prior current : AcceptedBinding) (old new : ℕ)
      → before.accepted ≡ some prior
      → after.accepted ≡ some current
      → prior.document ≡ current.document
      → before.effective_serial ≡ some old
      → after.effective_serial ≡ some new
      → new < old
      → Interrupts before after (serial_regression old new)
  forked :
      (f : Fork)
      → In f after.forks
      → ¬ In f before.forks
      → Interrupts before after (lineage_fork_surfaced f)
  split :
      (f : SuccessionFork)
      → In f after.succession_forks
      → ¬ In f before.succession_forks
      → Interrupts before after (succession_fork_surfaced f)

module _ (before after : BindingState) where
  forks : List Fork
  forks = new_items fork_eqb before.forks after.forks

  splits : List SuccessionFork
  splits = new_items succession_fork_eqb before.succession_forks after.succession_forks

  abbrev moves : List EventKind
  moves = movement before.accepted after.accepted

  abbrev falls : List EventKind
  falls = regression before after before.accepted after.accepted

  abbrev fork_events : List EventKind
  fork_events = map lineage_fork_surfaced forks

  abbrev split_events : List EventKind
  split_events = map succession_fork_surfaced splits

  -- The events that prompt, in their order.
  prompts : List EventKind
  prompts = moves ++ (falls ++ (fork_events ++ split_events))
