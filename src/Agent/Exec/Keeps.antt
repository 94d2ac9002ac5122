-- ===== src/Agent/Exec/Keeps.antt =====
-- Rules for what every run of an action keeps, whether it returns, fails or panics: a relation
-- between the state before and the state after that is reflexive and transitive.
use agent_stop_and_go.Prelude.{◌≡◌, refl, Bool, true, false, Option, none, some, if◌then◌else◌}
use agent_stop_and_go.Mcp.{Error}
use agent_stop_and_go.Agent.Exec.{
  Result, ok, err, panic, Exec, pure, throw, panics, reads, ◌>>=◌, try, handle, resume_with,
  when_some,
}

pub record Keeps {ℓ} {S A : Type ℓ} (R : S → S → Type ℓ) (m : Exec S A) : Type ℓ where
  pub at : (s : S) → R s (m s).1

pub record IsPreorder {ℓ} {S : Type ℓ} (R : S → S → Type ℓ) : Type ℓ where
  pub reflexive : (s : S) → R s s
  pub transitive : (s t u : S) → R s t → R t u → R s u

module _ {ℓ} {S A : Type ℓ} {R : S → S → Type ℓ} (o : IsPreorder R) where
  pub Keeps-pure : (a : A) → Keeps R (pure a)
  unfolding pure
  Keeps-pure a = record { at = λ s. o.reflexive s }

  pub Keeps-throw : (e : Error) → Keeps R (throw {A = A} e)
  unfolding throw
  Keeps-throw e = record { at = λ s. o.reflexive s }

  pub Keeps-panics : Keeps R (panics {A = A})
  unfolding panics
  Keeps-panics = record { at = λ s. o.reflexive s }

  pub Keeps-reads : (f : S → A) → Keeps R (reads f)
  unfolding reads
  Keeps-reads f = record { at = λ s. o.reflexive s }

module _ {ℓ} {S A : Type ℓ} {R : S → S → Type ℓ} where
  pub Keeps-if :
      (b : Bool) (m n : Exec S A)
      → (b ≡ true → Keeps R m)
      → (b ≡ false → Keeps R n)
      → Keeps R (if b then m else n)
  Keeps-if true m n km kn = km refl
  Keeps-if false m n km kn = kn refl

  pub Keeps-when_some {κ} :
      {B : Type κ} (p : Option B) (f : B → Exec S A) (n : Exec S A)
      → ((b : B) → p ≡ some b → Keeps R (f b))
      → (p ≡ none → Keeps R n)
      → Keeps R (when_some p f n)
  unfolding when_some
  Keeps-when_some none f n kf kn = kn refl
  Keeps-when_some (some b) f n kf kn = kf b refl

module _ {ℓ} {S A B : Type ℓ} {R : S → S → Type ℓ} (o : IsPreorder R) where
  keeps_resume :
      (f : A → Exec S B) (r : Result A) (s : S)
      → ((a : A) → Keeps R (f a))
      → R s (resume_with f r s).1
  unfolding resume_with
  keeps_resume f (ok a) s k = (k a).at s
  keeps_resume f (err e) s k = o.reflexive s
  keeps_resume f panic s k = o.reflexive s

  pub Keeps-bind :
      (m : Exec S A) (f : A → Exec S B) → Keeps R m → ((a : A) → Keeps R (f a)) → Keeps R (m >>= f)
  unfolding ◌>>=◌
  Keeps-bind m f km kf = record {
    at = λ s.
        let (r, t) = m s in
        o.transitive s t (resume_with f r t).1 (km.at s) (keeps_resume f r t kf);
  }

  keeps_handle :
      (f : A → Exec S B) (h : Error → Exec S B) (r : Result A) (s : S)
      → ((a : A) → Keeps R (f a))
      → ((e : Error) → Keeps R (h e))
      → R s (handle f h r s).1
  unfolding handle
  keeps_handle f h (ok a) s k j = (k a).at s
  keeps_handle f h (err e) s k j = (j e).at s
  keeps_handle f h panic s k j = o.reflexive s

  pub Keeps-try :
      (m : Exec S A) (f : A → Exec S B) (h : Error → Exec S B)
      → Keeps R m
      → ((a : A) → Keeps R (f a))
      → ((e : Error) → Keeps R (h e))
      → Keeps R (try m f h)
  unfolding try
  Keeps-try m f h km kf kh = record {
    at = λ s.
        let (r, t) = m s in
        o.transitive s t (handle f h r t).1 (km.at s) (keeps_handle f h r t kf kh);
  }

-- A first part that keeps R and a second that keeps Q, where the whole is to keep T.
module _ {ℓ} {S A B : Type ℓ} {R Q T : S → S → Type ℓ} (join : (s t u : S) → R s t → Q t u → T s u)
    (stop : (s t : S) → R s t → T s t) where
  keeps_resume_then :
      (f : A → Exec S B) (r : Result A) (s t : S)
      → R s t
      → ((a : A) → Keeps Q (f a))
      → T s (resume_with f r t).1
  unfolding resume_with
  keeps_resume_then f (ok a) s t h k = join s t _ h ((k a).at t)
  keeps_resume_then f (err e) s t h k = stop s t h
  keeps_resume_then f panic s t h k = stop s t h

  pub Keeps-then :
      (m : Exec S A) (f : A → Exec S B) → Keeps R m → ((a : A) → Keeps Q (f a)) → Keeps T (m >>= f)
  unfolding ◌>>=◌
  Keeps-then m f km kf = record {
    at = λ s. let (r, t) = m s in keeps_resume_then f r s t (km.at s) kf;
  }

  keeps_handle_then :
      (f : A → Exec S B) (h : Error → Exec S B) (r : Result A) (s t : S)
      → R s t
      → ((a : A) → Keeps Q (f a))
      → ((e : Error) → Keeps Q (h e))
      → T s (handle f h r t).1
  unfolding handle
  keeps_handle_then f h (ok a) s t g k j = join s t _ g ((k a).at t)
  keeps_handle_then f h (err e) s t g k j = join s t _ g ((j e).at t)
  keeps_handle_then f h panic s t g k j = stop s t g

  pub Keeps-try_then :
      (m : Exec S A) (f : A → Exec S B) (h : Error → Exec S B)
      → Keeps R m
      → ((a : A) → Keeps Q (f a))
      → ((e : Error) → Keeps Q (h e))
      → Keeps T (try m f h)
  unfolding try
  Keeps-try_then m f h km kf kh = record {
    at = λ s. let (r, t) = m s in keeps_handle_then f h r s t (km.at s) kf kh;
  }

pub ruleset keeps_rules = (
  Keeps-pure, Keeps-throw, Keeps-panics, Keeps-reads, Keeps-if, Keeps-when_some, Keeps-bind,
  Keeps-try,
)
