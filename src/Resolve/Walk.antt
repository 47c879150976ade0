-- ===== src/Resolve/Walk.antt =====
-- What resolve.rs promises: the walk ends, follows longest matches, and weakens its authority.
use onomancy.Prelude.{
  ℕ, zero, suc, ◌+◌, ◌-◌, ◌≤◌, ◌<◌, List, [], ◌∷◌, length, length-drop, take, drop, none, some,
  some-injective, ◌≡◌, refl, ap, eqb→eq, ◌==◌, subst, ◌⊎◌, inl, inr, arith, Bool-cases,
  Option-cases,
}
use onomancy.Core.{DocAnchor}
use onomancy.Resolve.{
  Segment, Authority, min, Vouched, Namestores, dangling_segment, unsynced_target, Resolution,
  resolved, partial, longest_match, walk, resolve,
}

last : (m n : ℕ) → m ≤ suc n → (m ≤ n) ⊎ (m ≡ suc n)
last m n h = elim (Bool-cases (m == suc n)) [
  | inl e ↦ inr (eqb→eq m (suc n) e)
  | inr e ↦ inl (ground arith)
]

module _ {N : Type 0} (stores : Namestores N) where
  -- The longest prefix of at most `bound` segments that is mapped: no longer one is.
  pub record IsLongest (current : N) (remaining : List Segment) (bound matched : ℕ)
      (target : DocAnchor) : Type 0 where
    pub positive : 1 ≤ matched
    pub within : matched ≤ bound
    pub maps : stores.reference current (take matched remaining) ≡ some target
    pub longer :
        (n : ℕ) → matched < n → n ≤ bound → stores.reference current (take n remaining) ≡ none

  pub longest_match-some :
      (current : N) (remaining : List Segment) (bound matched : ℕ) (target : DocAnchor)
      → longest_match stores current remaining bound ≡ some (matched, target)
      → IsLongest current remaining bound matched target
  unfolding longest_match
  longest_match-some current remaining zero matched target h = ground arith
  longest_match-some current remaining (suc n) matched target h =
      elim (Option-cases (stores.reference current (take (suc n) remaining))) [
        | inl e ↦
            let w =
              longest_match-some current remaining n matched target (rw (longest_match, e) at h) in
            record {
              positive = w.positive;
              within = omega (arith, w.within);
              maps = w.maps;
              longer = λ m p q. elim (last m n q) [ inl l ↦ w.longer m p l | inr g ↦ rw g e ];
            }
        | inr (found, e) ↦
            let k : some (suc n, found) ≡ some (matched, target) = rw (longest_match, e) at h in
            let same : ◌≡◌ {A = ℕ × DocAnchor} (suc n, found) (matched, target) =
              some-injective _ _ k in
            let width : suc n ≡ matched = ap (λ (x : ℕ × DocAnchor). x.0) same in
            let aim : found ≡ target = ap (λ (x : ℕ × DocAnchor). x.1) same in
            record {
              positive = omega arith;
              within = omega arith;
              maps =
                  subst (λ m. stores.reference current (take m remaining) ≡ some target) width
                    (subst (λ t. stores.reference current (take (suc n) remaining) ≡ some t) aim e);
              longer = λ m p q. absurd (omega arith);
            }
      ]

  pub longest_match-none :
      (current : N) (remaining : List Segment) (bound : ℕ)
      → longest_match stores current remaining bound ≡ none
      → (n : ℕ) → 1 ≤ n
      → n ≤ bound
      → stores.reference current (take n remaining) ≡ none
  unfolding longest_match
  longest_match-none current remaining zero h n p q = ground arith
  longest_match-none current remaining (suc m) h n p q =
      elim (Option-cases (stores.reference current (take (suc m) remaining))) [
        | inl e ↦ elim (last n m q) [
          | inl l ↦ longest_match-none current remaining m (rw (longest_match, e) at h) n p l
          | inr g ↦ rw g e
        ]
        | inr (found, e) ↦ ground arith
      ]

  -- Which results a walk may have, step by step.
  pub data Walk (total : ℕ) : N → Authority → List Segment → Resolution N → Type 0 where
    ends :
        (current : N) (authority : Authority)
        → Walk total current authority [] (resolved current authority)
    dangles :
        (current : N) (authority : Authority) (remaining : List Segment)
        → 1 ≤ length remaining
        → ((n : ℕ)
            → 1 ≤ n
            → n ≤ length remaining
            → stores.reference current (take n remaining) ≡ none)
        → Walk total current authority remaining
            (partial (total - length remaining) dangling_segment)
    unsynced :
        (current : N) (authority : Authority) (remaining : List Segment) (matched : ℕ)
        (target : DocAnchor)
        → IsLongest current remaining (length remaining) matched target
        → stores.replica target ≡ none
        → Walk total current authority remaining
            (partial (total - length (drop matched remaining)) (unsynced_target target))
    steps :
        (current : N) (authority : Authority) (remaining : List Segment) (matched : ℕ)
        (target : DocAnchor) (vouched : Vouched N) (result : Resolution N)
        → IsLongest current remaining (length remaining) matched target
        → stores.replica target ≡ some vouched
        → Walk total vouched.namestore
            (min authority vouched.authority)
            (drop matched remaining)
            result
        → Walk total current authority remaining result

  pub walk-Walk :
      (fuel total : ℕ) (current : N) (authority : Authority) (remaining : List Segment)
      → length remaining < fuel
      → (result : Resolution N) × ((walk stores fuel total current authority remaining
            ≡ some result)
          × Walk total current authority remaining result)
  unfolding walk
  walk-Walk zero total current authority remaining le = ground arith
  walk-Walk (suc fuel) total current authority [] le =
      (resolved current authority, (refl, ends current authority))
  walk-Walk (suc fuel) total current authority (s ∷ ss) le =
      elim (Option-cases (longest_match stores current (s ∷ ss) (length (s ∷ ss)))) [
        | inl e ↦ (
          partial (total - length (s ∷ ss)) dangling_segment,
          (
            rw (walk, e) refl,
            dangles current authority (s ∷ ss) (omega arith)
                (longest_match-none current (s ∷ ss) (length (s ∷ ss)) e),
          ),
        )
        | inr ((matched, target), e) ↦ follow matched target e (λ vouched le2.
            walk-Walk fuel total vouched.namestore (min authority vouched.authority)
              (drop matched (s ∷ ss)) le2)
      ]
    where
      follow :
          (matched : ℕ) (target : DocAnchor)
          → longest_match stores current (s ∷ ss) (length (s ∷ ss)) ≡ some (matched, target)
          → ((vouched : Vouched N)
              → length (drop matched (s ∷ ss)) < fuel
              → (result : Resolution N) × ((walk stores fuel total vouched.namestore
                      (min authority vouched.authority)
                      (drop matched (s ∷ ss))
                    ≡ some result)
                  × Walk total vouched.namestore
                      (min authority vouched.authority)
                      (drop matched (s ∷ ss))
                      result))
          → (result : Resolution N) × ((walk stores (suc fuel) total current authority (s ∷ ss)
                ≡ some result)
              × Walk total current authority (s ∷ ss) result)
      follow matched target e ih =
          let w = longest_match-some current (s ∷ ss) (length (s ∷ ss)) matched target e in
          elim (Option-cases (stores.replica target)) [
            | inl g ↦ (
              partial (total - length (drop matched (s ∷ ss))) (unsynced_target target),
              (rw (walk, e, g) refl, unsynced current authority (s ∷ ss) matched target w g),
            )
            | inr (vouched, g) ↦
                let shorter : length (drop matched (s ∷ ss)) < fuel =
                  omega (arith, length-drop matched (s ∷ ss) w.within, le, w.positive) in
                let (result, (runs, rest)) = ih vouched shorter in
                (
                  result,
                  (
                    rw (walk, e, g) runs,
                    steps current authority (s ∷ ss) matched target vouched result w g rest,
                  ),
                )
          ]

  -- Every resolution ends in a result to which steps along longest matches lead: the namestore
  -- where no segment is left, with the least authority met on the way, or a partial result where
  -- nothing matches or the replica is not at hand, with the segments consumed by then.
  pub resolve-Walk :
      (root : Vouched N) (segments : List Segment)
      → (result : Resolution N) × ((resolve stores root segments ≡ some result)
          × Walk (length segments) root.namestore root.authority segments result)
  unfolding resolve
  resolve-Walk root segments =
      walk-Walk (length segments + 1) (length segments) root.namestore root.authority segments
        (omega arith)
