-- ===== src/Verifier/Prune/Frontier.antt =====
-- What the frontier of prune.rs leaves out is dominated by a record that it keeps.
use onomancy.Prelude.{
  ℕ, ◌≤◌, List, true, not, ◌≡◌, ◌≢◌, ◌⊎◌, inl, inr, refl, sym, subst, In, any, filter, leb,
  filter-In, arith,
}
use onomancy.Prelude.Maximal.{IsTop-above}
use onomancy.Verifier.Evidence.{BindingEvidence}
use onomancy.Verifier.Prune.{dominates, frontier}
use onomancy.Verifier.Prune.Domination.{dominates_asym, dominates_trans, dominates_iff, IsBetter}

-- Records of one item are one record.
abbrev pub OnePerItem : List BindingEvidence → Type 0
OnePerItem group = (a b : BindingEvidence) → In a group → In b group → a.hash ≡ b.hash → a ≡ b

-- A kept record that makes `r` superfluous: it is `r`, or is at least as good in each dimension.
pub record IsKeptFor (horizon : ℕ) (group : List BindingEvidence) (r kept : BindingEvidence)
    : Type 0 where
  pub held : In kept (frontier horizon group)
  pub covers : (kept ≡ r) ⊎ (IsBetter kept r)

trans_In :
    (group : List BindingEvidence)
    → OnePerItem group
    → (a b c : BindingEvidence) → In a group
    → In c group
    → dominates a b ≡ true
    → dominates b c ≡ true
    → dominates a c ≡ true
trans_In group one a b c i k p q = dominates_trans a b c apart p q
  where
    apart : a.hash ≢ c.hash
    apart e =
        let back : dominates b a ≡ true =
          subst (λ x. dominates b x ≡ true) (sym (one a c i k e)) q in
        cc (back, dominates_asym a b p)

pub frontier-IsKeptFor :
    (horizon : ℕ) (group : List BindingEvidence)
    → OnePerItem group
    → ((x : BindingEvidence) → In x group → x.key.serial ≤ horizon)
    → (r : BindingEvidence) → In r group
    → (kept : BindingEvidence) × IsKeptFor horizon group r kept
unfolding frontier
frontier-IsKeptFor horizon group one near r m =
    let (top, t) = IsTop-above dominates group dominates_asym (trans_In group one) r m in
    (
      top,
      record {
        held =
            filter-In
              (λ (r : BindingEvidence).
                not (any (λ (other : BindingEvidence). dominates other r) group))
              top (filter (λ (r : BindingEvidence). leb r.key.serial horizon) group)
              (filter-In (λ (r : BindingEvidence). leb r.key.serial horizon) top group t.held
                (within top.key.serial (near top t.held)))
              (rw t.undominated refl);
        covers = elim t.reaches [ inl e ↦ inl e | inr d ↦ inr ((dominates_iff top r).0 d) ];
      },
    )
  where
    within : (n : ℕ) → n ≤ horizon → leb n horizon ≡ true
    within n h = ground arith
