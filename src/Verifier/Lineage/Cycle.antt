-- ===== src/Verifier/Lineage/Cycle.antt =====
-- `find_cycle` of state.rs: what it finds is a cycle.
use onomancy.Prelude.{
  ℕ, zero, suc, List, [], ◌∷◌, Bool, true, false, Option, none, some, some-injective, ◌==◌, ◌≡◌,
  refl, In, find, find-some, length, eqb→eq, inl, inr, subst, if◌then◌else◌,
}
use onomancy.Prelude.Worklist.Visit.{Hop}
use onomancy.Prelude.Worklist.Closure.{Reachable, start, hop}
use onomancy.Dnssec.Units.{GenerationKey}
use onomancy.Verifier.Evidence.{RotationEvidence}
use onomancy.Verifier.Lineage.{returns_to, find_cycle, find_cycle_from}

-- Following statements from the key leads back to it.
pub record IsCycle (rotations : List RotationEvidence) (k : GenerationKey) : Type 0 where
  pub last : GenerationKey
  pub around :
      Reachable
        (λ (r : RotationEvidence). r.replaced)
        (λ r. r.successor)
        (λ _. true)
        rotations
        (k ∷ [])
        last
  pub back :
      Hop (λ (r : RotationEvidence). r.replaced) (λ r. r.successor) (λ _. true) rotations last k

module _ (rotations : List RotationEvidence) where
  abbrev H : GenerationKey → GenerationKey → Type 0
  H = Hop (λ (r : RotationEvidence). r.replaced) (λ r. r.successor) (λ _. true) rotations

  abbrev R : GenerationKey → GenerationKey → Type 0
  R k =
      Reachable (λ (r : RotationEvidence). r.replaced) (λ r. r.successor) (λ _. true) rotations
        (k ∷ [])

  rotation_Hop : (r : RotationEvidence) → In r rotations → H r.replaced r.successor
  rotation_Hop r m = record {
    edge = r;
    held = m;
    is_live = refl;
    leaves_key = refl;
    arrives = refl;
  }

  returns_to-IsCycle :
      (rounds : ℕ) (target current : GenerationKey)
      → R target current
      → returns_to rounds rotations target current ≡ true
      → IsCycle rotations target
  unfolding returns_to
  returns_to-IsCycle zero target current r h = cc h
  returns_to-IsCycle (suc rounds) target current r h =
      split (λ c rc e. returns_to-IsCycle rounds target c rc e)
        (find (λ (x : RotationEvidence). x.replaced == current) rotations) refl h
    where
      at_next :
          (next : RotationEvidence)
          → H current next.successor
          → ((c : GenerationKey)
              → R target c
              → returns_to rounds rotations target c ≡ true
              → IsCycle rotations target)
          → (b : Bool) → (next.successor == target) ≡ b
          → (if b then true else returns_to rounds rotations target next.successor) ≡ true
          → IsCycle rotations target
      at_next next here ih true e k = record {
        last = current;
        around = r;
        back = subst (H current) (eqb→eq next.successor target e) here;
      }
      at_next next here ih false e k = ih next.successor (hop r here) k

      split :
          ((c : GenerationKey)
            → R target c
            → returns_to rounds rotations target c ≡ true
            → IsCycle rotations target)
          → (o : Option RotationEvidence)
          → find (λ (x : RotationEvidence). x.replaced == current) rotations ≡ o
          → (elim o [
            | none ↦ false
            | some next ↦
                if next.successor == target
                then true
                else returns_to rounds rotations target next.successor
          ])
            ≡ true
          → IsCycle rotations target
      split ih none e k = cc k
      split ih (some next) e k =
          let (m, q) = find-some (λ (x : RotationEvidence). x.replaced == current) rotations e in
          at_next next
            (subst (λ x. H x next.successor) (eqb→eq next.replaced current q) (rotation_Hop next m))
            ih (next.successor == target) refl k

  find_cycle_from-IsCycle :
      (starts : List RotationEvidence) (k : GenerationKey)
      → ((r : RotationEvidence) → In r starts → In r rotations)
      → find_cycle_from rotations starts ≡ some k
      → IsCycle rotations k
  unfolding find_cycle_from
  find_cycle_from-IsCycle [] k sub h = cc h
  find_cycle_from-IsCycle (s ∷ starts) k sub h =
      split (find_cycle_from-IsCycle starts k (λ r m. sub r (inr m)))
        (returns_to (length rotations) rotations s.replaced s.successor) refl h
    where
      split :
          (find_cycle_from rotations starts ≡ some k → IsCycle rotations k)
          → (b : Bool) → returns_to (length rotations) rotations s.replaced s.successor ≡ b
          → (if b then some s.replaced else find_cycle_from rotations starts) ≡ some k
          → IsCycle rotations k
      split ih true e q = subst (IsCycle rotations) (some-injective _ _ q) (
          returns_to-IsCycle (length rotations) s.replaced s.successor
            (hop (start (inl refl)) (rotation_Hop s (sub s (inl refl)))) e)
      split ih false e q = ih q

-- A key that `find_cycle` returns lies on a cycle of the statements: following them leads from the
-- key back to it.
pub find_cycle-IsCycle :
    (rotations : List RotationEvidence) (k : GenerationKey)
    → find_cycle rotations ≡ some k
    → IsCycle rotations k
unfolding find_cycle
find_cycle-IsCycle rotations k h = find_cycle_from-IsCycle rotations rotations k (λ r m. m) h
