-- ===== src/Agent/Exec.antt =====
-- Methods of the agent as actions: they change the state, and return a value or a Go error, or panic.
-- What was done before an error stays done, so the state comes back beside it.
pub mod Keeps
use agent_stop_and_go.Prelude.{Option, none, some}
use agent_stop_and_go.Mcp.{Error}

pub data Result {ℓ} (A : Type ℓ) : Type ℓ where
  ok : A → Result A
  err : Error → Result A
  -- an index out of range
  panic : Result A

abbrev pub Exec {ℓ} : Type ℓ → Type ℓ → Type ℓ
Exec S A = S → Result A × S

module _ {ℓ} {S A : Type ℓ} where
  unfoldable pub pure : A → Exec S A
  pure a s = (ok a, s)

  unfoldable pub throw : Error → Exec S A
  throw e s = (err e, s)

  unfoldable pub panics : Exec S A
  panics s = (panic, s)

  -- Reads the state.
  unfoldable pub reads : (S → A) → Exec S A
  reads f s = (ok (f s), s)

module _ {ℓ} {S A B : Type ℓ} where
  -- How an action goes on from the result of the one before it.
  unfoldable pub resume_with : (A → Exec S B) → Result A → Exec S B
  resume_with f (ok a) s = f a s
  resume_with f (err e) s = (err e, s)
  resume_with f panic s = (panic, s)

  infixl 10 ◌>>=◌ ◌>>◌
  unfoldable pub ◌>>=◌ : Exec S A → (A → Exec S B) → Exec S B
  unfolding resume_with
  ◌>>=◌ m f s = let (r, t) = m s in resume_with f r t

  abbrev pub ◌>>◌ : Exec S A → Exec S B → Exec S B
  m >> n = m >>= λ _. n

  -- `if err != nil { ... }` behind a call: the second function handles the error.
  unfoldable pub handle : (A → Exec S B) → (Error → Exec S B) → Result A → Exec S B
  handle f h (ok a) s = f a s
  handle f h (err e) s = h e s
  handle f h panic s = (panic, s)

  unfoldable pub try : Exec S A → (A → Exec S B) → (Error → Exec S B) → Exec S B
  unfolding handle
  try m f h s = let (r, t) = m s in handle f h r t

-- A pointer or a map entry that may be missing.
unfoldable pub when_some {ℓ κ} : {A : Type ℓ} {B : Type κ} → Option A → (A → B) → B → B
when_some none f b = b
when_some (some a) f b = f a
