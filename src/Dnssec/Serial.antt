-- ===== src/Dnssec/Serial.antt =====
-- onomancy_dnssec/src/txt/serial.rs: the publisher's serial rule.
use onomancy.Prelude.{
  ℕ, ◌+◌, ◌≤◌, ◌<◌, ◌≡◌, ◌↔◌, Option, none, some, arith, ltb, if◌then◌else◌, max,
}
use onomancy.Prelude.Result.{Result, ok, err}
use onomancy.Core.{u64_max}

abbrev pub Serial : Type 0
Serial = ℕ

pub data SerialExhausted : Type 0 where
  serial_exhausted : SerialExhausted

-- `last.0.checked_add(1)`
checked_succ : ℕ → Option ℕ
checked_succ n = if ltb u64_max (n + 1) then none else some (n + 1)

-- `Serial::next`: `max(now_ms, last + 1)`.
unfoldable pub next : Option Serial → ℕ → Result SerialExhausted Serial
unfolding checked_succ
next none now_ms = ok now_ms
next (some last) now_ms = elim (checked_succ last) [
  | none ↦ err serial_exhausted
  | some bumped ↦ ok (max now_ms bumped)
]

-- A serial that `next` returns passes the last one, is no earlier than the clock, is the least
-- such number, and fits 64 bits when its arguments do.
pub next-ok :
    (last now_ms s : ℕ)
    → last ≤ u64_max
    → now_ms ≤ u64_max
    → next (some last) now_ms ≡ ok s
    → (last < s) × (now_ms ≤ s) × (s ≤ u64_max) × ((t : ℕ) → last < t → now_ms ≤ t → s ≤ t)
unfolding next
next-ok last now_ms s hl hn h = (ground arith, ground arith, ground arith, λ t p q. ground arith)

-- `next` refuses exactly when no 64-bit serial follows the last one.
pub next-err :
    (last now_ms : ℕ)
    → last ≤ u64_max
    → (next (some last) now_ms ≡ err serial_exhausted) ↔ (last ≡ u64_max)
unfolding next
next-err last now_ms hl = (λ h. ground arith, λ h. ground arith)
