-- ===== src/Verifier/Diff/Surfacing.antt =====
-- Which events a difference of diff.rs reports.
use onomancy.Prelude.{
  ℕ, List, [], ◌∷◌, ◌++◌, map, Bool, true, false, not, ◌&&◌, filter, ltb, Option, none, some, ◌==◌,
  ◌≡◌, inl, inr, refl, ap, arith, Bool-cases,
}
use onomancy.Verifier.State.{AcceptedBinding, BindingState}
use onomancy.Verifier.Diff.{
  lineage_fork_surfaced, succession_fork_surfaced, divergence_cleared, divergence_surfaced,
  losing_acceptance_cleared, losing_acceptance_surfaced, pending_cleared, pending_surfaced,
  may_prompt, document_eqb, grade_eqb, fork_eqb, divergence_eqb, succession_fork_eqb, new_items,
  document_of, movement, regressed, regression, grade_movement, contest_movement, document_eq,
  host_diff,
}

filter-append :
    {A : Type 0} (p : A → Bool) (xs ys : List A) → filter p (xs ++ ys) ≡ filter p xs ++ filter p ys
filter-append p [] ys = refl
filter-append p (x ∷ xs) ys = elim (Bool-cases (p x)) [
  | inl e ↦ rw (e, filter-append p xs ys) refl
  | inr e ↦ rw (e, filter-append p xs ys) refl
]

filter_all :
    {A B : Type 0} (p : B → Bool) (f : A → B)
    → ((a : A) → p (f a) ≡ true)
    → (xs : List A) → filter p (map f xs) ≡ map f xs
filter_all p f h [] = refl
filter_all p f h (x ∷ xs) = rw (h x, filter_all p f h xs) refl

filter_none :
    {A B : Type 0} (p : B → Bool) (f : A → B)
    → ((a : A) → p (f a) ≡ false)
    → (xs : List A) → filter p (map f xs) ≡ []
filter_none p f h [] = refl
filter_none p f h (x ∷ xs) = rw (h x) (filter_none p f h xs)

append_nil : {A : Type 0} (xs : List A) → xs ++ [] ≡ xs
append_nil [] = refl
append_nil (x ∷ xs) = ap (λ l. x ∷ l) (append_nil xs)

-- A test that four of twelve lists pass and the others fail.
filter_four :
    {A : Type 0} (p : A → Bool) (a b c d e f g h i j k l : List A)
    → filter p a ≡ a
    → filter p b ≡ b
    → filter p c ≡ []
    → filter p d ≡ d
    → filter p e ≡ e
    → filter p f ≡ []
    → filter p g ≡ []
    → filter p h ≡ []
    → filter p i ≡ []
    → filter p j ≡ []
    → filter p k ≡ []
    → filter p l ≡ []
    → filter p (a ++ (b ++ (c ++ (d ++ (e ++ (f ++ (g ++ (h ++ (i ++ (j ++ (k ++ l)))))))))))
      ≡ a ++ (b ++ (d ++ e))
filter_four p a b c d e f g h i j k l ea eb ec ed ee ef eg eh ei ej ek el =
    simp (filter-append, ea, eb, ec, ed, ee, ef, eg, eh, ei, ej, ek, el, append_nil)

prompts-movement : (a b : Option AcceptedBinding) → filter may_prompt (movement a b) ≡ movement a b
unfolding movement may_prompt
prompts-movement a b = elim (Bool-cases (document_eqb (document_of a) (document_of b))) [
  | inl e ↦ rw e refl
  | inr e ↦ rw e refl
]

prompts-regressed : (a b : Option ℕ) → filter may_prompt (regressed a b) ≡ regressed a b
unfolding regressed may_prompt
prompts-regressed none b = refl
prompts-regressed (some a) none = refl
prompts-regressed (some a) (some b) = elim (Bool-cases (ltb b a)) [
  | inl e ↦ rw e refl
  | inr e ↦ rw e refl
]

prompts-regression :
    (s t : BindingState) (a b : Option AcceptedBinding)
    → filter may_prompt (regression s t a b) ≡ regression s t a b
unfolding regression
prompts-regression s t none b = refl
prompts-regression s t (some a) none = refl
prompts-regression s t (some a) (some b) = elim (Bool-cases (a.document == b.document)) [
  | inl e ↦ rw e (prompts-regressed s.effective_serial t.effective_serial)
  | inr e ↦ rw e refl
]

prompts-grade : (a b : Option AcceptedBinding) → filter may_prompt (grade_movement a b) ≡ []
unfolding grade_movement may_prompt
prompts-grade none b = refl
prompts-grade (some a) none = refl
prompts-grade (some a) (some b) =
    elim (Bool-cases (a.document == b.document && not (grade_eqb a.grade b.grade))) [
      | inl e ↦ rw e refl
      | inr e ↦ rw e refl
    ]

prompts-contest : (a b : Bool) → filter may_prompt (contest_movement a b) ≡ []
unfolding contest_movement may_prompt
prompts-contest a b = ground arith

-- The events that prompt are the change of document, the regression of the serial, and the new
-- forks of lineage and of succession: no other difference prompts.
pub host_diff-prompts :
    (before after : BindingState)
    → filter may_prompt (host_diff before after)
      ≡ movement before.accepted after.accepted
        ++ (regression before after before.accepted after.accepted
            ++ (map lineage_fork_surfaced (new_items fork_eqb before.forks after.forks)
                ++ map succession_fork_surfaced
                    (new_items succession_fork_eqb before.succession_forks after.succession_forks)))
unfolding host_diff may_prompt
host_diff-prompts before after =
    filter_four may_prompt (movement before.accepted after.accepted)
      (regression before after before.accepted after.accepted)
      (grade_movement before.accepted after.accepted)
      (map lineage_fork_surfaced (new_items fork_eqb before.forks after.forks))
      (map succession_fork_surfaced
        (new_items succession_fork_eqb before.succession_forks after.succession_forks))
      (contest_movement before.contested after.contested)
      (map pending_surfaced (news before.pending after.pending))
      (map pending_cleared (news after.pending before.pending))
      (map losing_acceptance_surfaced (news before.losing_acceptances after.losing_acceptances))
      (map losing_acceptance_cleared (news after.losing_acceptances before.losing_acceptances))
      (map divergence_surfaced (new_items divergence_eqb before.divergence after.divergence))
      (map divergence_cleared (new_items divergence_eqb after.divergence before.divergence))
      (prompts-movement before.accepted after.accepted)
      (prompts-regression before after before.accepted after.accepted)
      (prompts-grade before.accepted after.accepted)
      (filter_all may_prompt lineage_fork_surfaced (λ x. refl)
        (new_items fork_eqb before.forks after.forks))
      (filter_all may_prompt succession_fork_surfaced (λ x. refl)
        (new_items succession_fork_eqb before.succession_forks after.succession_forks))
      (prompts-contest before.contested after.contested)
      (filter_none may_prompt pending_surfaced (λ x. refl) (news before.pending after.pending))
      (filter_none may_prompt pending_cleared (λ x. refl) (news after.pending before.pending))
      (filter_none may_prompt losing_acceptance_surfaced (λ x. refl)
        (news before.losing_acceptances after.losing_acceptances))
      (filter_none may_prompt losing_acceptance_cleared (λ x. refl)
        (news after.losing_acceptances before.losing_acceptances))
      (filter_none may_prompt divergence_surfaced (λ x. refl)
        (new_items divergence_eqb before.divergence after.divergence))
      (filter_none may_prompt divergence_cleared (λ x. refl)
        (new_items divergence_eqb after.divergence before.divergence))
  where
    news : List ℕ → List ℕ → List ℕ
    news xs ys = new_items document_eq xs ys
