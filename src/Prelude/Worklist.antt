-- ===== src/Prelude/Worklist.antt =====
-- The work-list walk over edges that the lineage code writes twice: a stack of keys to visit, a
-- set of keys reached, and an exit as soon as a wanted key turns up. Both vectors are kept newest
-- first, so that `pop` takes the head.
pub mod Visit
pub mod Closure
use Prim.Native.Nat.{ℕ, zero, suc, ◌+◌}
use mathlib.Core.Bool.{Bool, true, false, not, ◌&&◌}
use mathlib.Core.Option.{Option, none, some}
use mathlib.Core.List.{List, [], ◌∷◌}
use onomancy.Prelude.Tests.{◌==◌, if◌then◌else◌}
use onomancy.Prelude.Lists.{elem, length}

pub record Walk : Type 0 where
  pub reached : List ℕ
  pub frontier : List ℕ

module _ {E : Type 0} (from to : E → ℕ) (live : E → Bool) where
  -- Whether the edge leaves the key.
  abbrev pub leaves : ℕ → E → Bool
  leaves key e = live e && from e == key

  -- The edge's end, if it is new, is reached and put on the stack.
  abbrev pub push : ℕ → E → Walk → Walk
  push key e w =
      if leaves key e && not (elem (to e) w.reached)
      then record { reached = to e ∷ w.reached; frontier = to e ∷ w.frontier }
      else w

module _ {E : Type 0} (from to : E → ℕ) (live : E → Bool) (wanted : ℕ → Bool) where
  -- One pass over the edges for one key; `none` when a wanted key turned up.
  unfoldable pub visit : List E → ℕ → Walk → Option Walk
  visit [] key w = some w
  visit (e ∷ es) key w =
      let rest = visit es key (push from to live key e w) in
      if leaves from to live key e && wanted (to e) then none else rest

  -- `while let Some(key) = frontier.pop()`
  unfoldable pub drain : ℕ → List E → List ℕ → List ℕ → Option (List ℕ)
  unfolding visit
  drain zero es reached frontier = some reached
  drain (suc fuel) es reached [] = some reached
  drain (suc fuel) es reached (key ∷ frontier) =
      elim (visit es key (record { reached = reached; frontier = frontier })) [
        | none ↦ none
        | some w ↦ drain fuel es w.reached w.frontier
      ]

-- Enough fuel for a walk from these keys: each round takes a key off the stack, and each edge puts
-- one there at most once.
abbrev pub enough {ℓ} : {E : Type ℓ} → List E → List ℕ → ℕ
enough es frontier = length es + length frontier + 1
