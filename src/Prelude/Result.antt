-- ===== src/Prelude/Result.antt =====
-- `Result<A, E>`, with the error first.
use mathlib.Core.Path.{◌≡◌, refl}

pub data Result {ℓ κ} (E : Type ℓ) (A : Type κ) : Type (ℓ ⊔ κ) where
  ok : A → Result E A
  err : E → Result E A

-- The `?` operator.
infixl 5 ◌>>=◌
abbrev pub ◌>>=◌ {ℓ κ μ} :
    {E : Type ℓ} {A : Type κ} {B : Type μ} → Result E A → (A → Result E B) → Result E B
ok a >>= f = f a
err e >>= f = err e

-- `map_err`
abbrev pub map_err {ℓ κ μ} :
    {E : Type ℓ} {F : Type κ} {A : Type μ} → (E → F) → Result E A → Result F A
map_err f (ok a) = ok a
map_err f (err e) = err (f e)

-- The `?` operator went on.
pub bind-ok {ℓ κ μ} :
    {E : Type ℓ} {A : Type κ} {B : Type μ} (m : Result E A) (f : A → Result E B) (b : B)
    → (m >>= f) ≡ ok b
    → (a : A) × (m ≡ ok a) × (f a ≡ ok b)
bind-ok (ok a) f b h = (a, refl, h)
bind-ok (err e) f b h = cc h

pub map_err-ok {ℓ κ μ} :
    {E : Type ℓ} {F : Type κ} {A : Type μ} (g : E → F) (m : Result E A) (a : A)
    → map_err g m ≡ ok a
    → m ≡ ok a
map_err-ok g (ok x) a h = cc h
map_err-ok g (err e) a h = cc h

pub ok-injective {ℓ κ} :
    {E : Type ℓ} {A : Type κ} (a b : A) → ◌≡◌ {A = Result E A} (ok a) (ok b) → a ≡ b
ok-injective a b h = cc h

-- The same, for a proof that goes on with the value as a variable.
pub after-ok {ℓ κ μ ν} :
    {E : Type ℓ} {A : Type κ} {B : Type μ} {G : Type ν} (m : Result E A) (f : A → Result E B)
    (b : B)
    → (m >>= f) ≡ ok b
    → ((a : A) → m ≡ ok a → f a ≡ ok b → G)
    → G
after-ok (ok a) f b h go = go a refl h
after-ok (err e) f b h go = cc h
