-- ===== src/Verifier/Diff/Stillness.antt =====
-- No difference of diff.rs arises without a change.
use onomancy.Prelude.{
  ℕ, List, [], ◌∷◌, Bool, true, any, Option, none, some, ◌≡◌, inl, inr, refl, arith, In, In-any,
  eqb_refl,
}
use onomancy.Verifier.Lineage.{Fork}
use onomancy.Verifier.Succession.{SuccessionFork}
use onomancy.Verifier.State.{AcceptedBinding, BindingState, Divergence}
use onomancy.Verifier.Diff.{
  fork_eqb, divergence_eqb, list_eqb, succession_fork_eqb, new_items, movement, regressed,
  regression, grade_movement, contest_movement, document_eq, host_diff,
}

-- An item that is new is one that nothing before equals.
new_items_old :
    {A : Type 0} (eqb : A → A → Bool)
    → ((x : A) → eqb x x ≡ true)
    → (old xs : List A) → ((x : A) → In x xs → In x old)
    → new_items eqb old xs ≡ []
unfolding new_items
new_items_old eqb same old [] h = refl
new_items_old eqb same old (x ∷ xs) h =
    let here : any (λ o. eqb x o) old ≡ true =
      In-any (λ o. eqb x o) x old (h x (inl refl)) (same x) in
    rw here (new_items_old eqb same old xs (λ y m. h y (inr m)))

new_items_same :
    {A : Type 0} (eqb : A → A → Bool)
    → ((x : A) → eqb x x ≡ true)
    → (xs : List A) → new_items eqb xs xs ≡ []
new_items_same eqb same xs = new_items_old eqb same xs xs (λ x m. m)

pub list_eqb_refl : (xs : List ℕ) → list_eqb xs xs ≡ true
list_eqb_refl [] = refl
list_eqb_refl (x ∷ xs) = ground (arith, list_eqb_refl xs)

pub fork_eqb_refl : (f : Fork) → fork_eqb f f ≡ true
fork_eqb_refl f = ground arith

pub succession_fork_eqb_refl : (f : SuccessionFork) → succession_fork_eqb f f ≡ true
succession_fork_eqb_refl f = ground (arith, list_eqb_refl f.successors)

divergence_eqb_refl : (d : Divergence) → divergence_eqb d d ≡ true
divergence_eqb_refl d = ground arith

document_eq_refl : (d : ℕ) → document_eq d d ≡ true
unfolding document_eq
document_eq_refl d = eqb_refl d

movement_same : (a : Option AcceptedBinding) → movement a a ≡ []
unfolding movement
movement_same none = refl
movement_same (some b) = rw (eqb_refl b.document) refl

regression_same : (s : BindingState) (a : Option AcceptedBinding) → regression s s a a ≡ []
unfolding regression regressed
regression_same s none = refl
regression_same s (some b) = by_serial s.effective_serial refl
  where
    by_serial : (o : Option ℕ) → s.effective_serial ≡ o → regression s s (some b) (some b) ≡ []
    by_serial none e = rw (e, eqb_refl b.document) refl
    by_serial (some n) e = rw (e, eqb_refl b.document) (ground arith)

grade_movement_same : (a : Option AcceptedBinding) → grade_movement a a ≡ []
unfolding grade_movement
grade_movement_same none = refl
grade_movement_same (some b) = ground arith

contest_movement_same : (b : Bool) → contest_movement b b ≡ []
unfolding contest_movement
contest_movement_same b = ground arith

-- A state does not differ from itself.
pub host_diff_same : (s : BindingState) → host_diff s s ≡ []
unfolding host_diff
host_diff_same s =
    rw
      (
        movement_same s.accepted,
        regression_same s s.accepted,
        grade_movement_same s.accepted,
        new_items_same fork_eqb fork_eqb_refl s.forks,
        new_items_same succession_fork_eqb succession_fork_eqb_refl s.succession_forks,
        contest_movement_same s.contested,
        new_items_same document_eq document_eq_refl s.pending,
        new_items_same document_eq document_eq_refl s.losing_acceptances,
        new_items_same divergence_eqb divergence_eqb_refl s.divergence,
      )
      refl
