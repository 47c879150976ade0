-- ===== src/Dnssec/Examples.antt =====
-- A window of ten seconds, and the serial after a serial.
use onomancy.Prelude.{ℕ, ◌≤◌, ◌<◌, ◌≡◌, ◌↔◌, arith, refl}
use onomancy.Core.{u64_max}
use onomancy.Dnssec.Freshness.{ValidityWindow, grade, Grade, grade-fresh}
use onomancy.Dnssec.Serial.{next, next-ok}

abbrev ten_seconds : ValidityWindow
ten_seconds = record { inception = 10; expiration = 20 }

grade-fresh_example : (grade ten_seconds 15 ≡ Grade.fresh) ↔ ((10 ≤ 15) × (15 ≤ 20))
grade-fresh_example = grade-fresh ten_seconds 15

next-ok_example : (7 < 100) × (100 ≤ 100) × (100 ≤ u64_max) × ((t : ℕ) → 7 < t → 100 ≤ t → 100 ≤ t)
unfolding next
next-ok_example = next-ok 7 100 100 (omega arith) (omega arith) refl
