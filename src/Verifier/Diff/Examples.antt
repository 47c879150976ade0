-- ===== src/Verifier/Diff/Examples.antt =====
-- A hostname that moves from document 1 to document 2.
use onomancy.Prelude.{[], ◌∷◌, none, some, true, ◌≡◌, refl}
use onomancy.Verifier.Resolution.{unmoved, bridged}
use onomancy.Verifier.State.{BindingState, confirmed, provisional, no_binding}
use onomancy.Verifier.Diff.{
  host_diff, movement, regression, new_items, binding_changed, contested_entered,
}
use onomancy.Verifier.Diff.Interrupts.{Interrupts}

abbrev before : BindingState
before = record no_binding {
  accepted = some record { continuity = unmoved; document = 1; generation = 21; grade = confirmed };
  effective_serial = some 9;
  pending = 2 ∷ [];
}

abbrev after : BindingState
after = record no_binding {
  accepted =
      some record { continuity = bridged; document = 2; generation = 22; grade = provisional };
  effective_serial = some 12;
}

-- The same document under a contest: the mask alone reports a change of document, which may prompt.
abbrev masked : BindingState
masked = record before { accepted = none; contested = true; effective_serial = none }

mask_prompts : host_diff before masked ≡ binding_changed (some 1) none ∷ contested_entered ∷ []
unfolding host_diff movement regression new_items
mask_prompts = refl
