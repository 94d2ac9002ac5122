-- ===== src/Filesystem.antt =====
-- internal/filesystem: the server of file tools, with its roots, its paths and its patches.
pub mod Patch
pub mod Roots
pub mod Paths
pub mod Tools
use agent_stop_and_go.Prelude.{◌≡◌, refl, ap, ◌⊎◌, inl, inr}
use agent_stop_and_go.Mcp.{Error}

-- What a Go function with an error returns.
pub data Checked {ℓ} (A : Type ℓ) : Type ℓ where
  ok : A → Checked A
  err : Error → Checked A

infixl 5 ◌>>=◌
abbrev pub ◌>>=◌ {ℓ κ} : {A : Type ℓ} {B : Type κ} → Checked A → (A → Checked B) → Checked B
ok a >>= f = f a
err e >>= f = err e

-- fmt.Errorf with %w
abbrev pub map_err {ℓ} : {A : Type ℓ} → (Error → Error) → Checked A → Checked A
map_err f (ok a) = ok a
map_err f (err e) = err (f e)

module _ {ℓ} {A : Type ℓ} where
  pub Checked-cases : (c : Checked A) → ((a : A) × (c ≡ ok a)) ⊎ ((e : Error) × (c ≡ err e))
  Checked-cases (ok a) = inl (a, refl)
  Checked-cases (err e) = inr (e, refl)

  value_or : A → Checked A → A
  value_or d (ok a) = a
  value_or d (err e) = d

  pub ok-injective : (a b : A) → Path (Checked A) (ok a) (ok b) → a ≡ b
  unfolding value_or
  ok-injective a b h = ap (value_or a) h

pub bind-ok {ℓ κ} :
    {A : Type ℓ} {B : Type κ} (c : Checked A) (f : A → Checked B) (b : B)
    → (c >>= f) ≡ ok b
    → (a : A) × (c ≡ ok a) × (f a ≡ ok b)
bind-ok (ok a) f b h = (a, refl, h)
bind-ok (err e) f b h = cc
