-- ===== src/Dnssec/Freshness.antt =====
-- onomancy_dnssec/src/freshness.rs: a chain's validity window and its grade at a clock reading.
use onomancy.Prelude.{ℕ, ◌≤◌, ◌≡◌, ◌↔◌, true, arith, ltb, leb, if◌then◌else◌, refl}
use onomancy.Prelude.Result.{Result, ok, err}
use onomancy.Core.{UnixSeconds}

pub record ValidityWindow : Type 0 where
  pub inception : UnixSeconds
  pub expiration : UnixSeconds

pub record EmptyWindow : Type 0 where
  pub inception : UnixSeconds
  pub expiration : UnixSeconds

-- `ValidityWindow::new`
unfoldable pub new : UnixSeconds → UnixSeconds → Result EmptyWindow ValidityWindow
new inception expiration =
    if ltb expiration inception
    then err (record { inception = inception; expiration = expiration })
    else ok (record { inception = inception; expiration = expiration })

pub data Grade : Type 0 where
  fresh : Grade
  not_yet_begun : Grade
  stale : Grade

pub data Freshness : Type 0 where
  fresh : Freshness
  stale : Freshness

-- `ValidityWindow::grade`
unfoldable pub grade : ValidityWindow → UnixSeconds → Grade
grade w now =
    if ltb now w.inception
    then Grade.not_yet_begun
    else if leb now w.expiration
    then Grade.fresh
    else Grade.stale

-- `==` on `Freshness`
abbrev pub is_fresh : Freshness → onomancy.Prelude.Bool
is_fresh Freshness.fresh = true
is_fresh Freshness.stale = onomancy.Prelude.false

-- A window whose endpoints are in order, as every window that `new` returns.
abbrev pub IsOrdered : ValidityWindow → Type 0
IsOrdered w = w.inception ≤ w.expiration

-- The order of the standings in time.
abbrev pub rank : Grade → ℕ
rank Grade.not_yet_begun = 0
rank Grade.fresh = 1
rank Grade.stale = 2

-- `new` accepts exactly the ordered endpoints, and returns them unchanged.
pub new_iff :
    (i e : UnixSeconds) (w : ValidityWindow)
    → (new i e ≡ ok w) ↔ ((w ≡ record { inception = i; expiration = e }) × (i ≤ e))
unfolding new
new_iff i e w = (λ h. ground arith, λ h. ground arith)

-- Grading never goes back as the clock advances.
pub grade_mono :
    (w : ValidityWindow) (t t' : UnixSeconds) → t ≤ t' → rank (grade w t) ≤ rank (grade w t')
unfolding grade
grade_mono w t t' h = ground arith

-- A window grades fresh exactly at the clock readings that it covers.
pub grade-fresh :
    (w : ValidityWindow) (t : UnixSeconds)
    → (grade w t ≡ Grade.fresh) ↔ ((w.inception ≤ t) × (t ≤ w.expiration))
unfolding grade
grade-fresh w t = (λ h. ground arith, λ h. ground arith)
