-- ===== src/Agent/Gate/Single.antt =====
-- At most one call that is set apart, among calls that all satisfy a predicate.
use agent_stop_and_go.Prelude.{
  ◌≡◌, refl, sym, ap, ◌∙◌, List, [], ◌∷◌, ◌++◌, All, All-append, append_assoc,
}
use agent_stop_and_go.Mcp.{Error}
use agent_stop_and_go.Agent.Exec.{Exec, try, ◌>>=◌}
use agent_stop_and_go.Agent.Exec.Keeps.{Keeps, Keeps-then, Keeps-try_then}
use agent_stop_and_go.Agent.World.{Env, State, Event, Outcome}
use agent_stop_and_go.Agent.Trace.{Adds}
use agent_stop_and_go.Agent.Effects.{ask}

abbrev pub One : (Event → Type 0) → List Event → Type 0
One A [] = Unit
One A (e ∷ []) = A e
One A (e ∷ f ∷ rest) = ⊥

-- The calls between two states satisfy P, but for at most one, which satisfies A.
pub record AllButOne (A P : Event → Type 0) (s t : State) : Type 0 where
  pub before : List Event
  pub one : List Event
  pub after : List Event
  pub trace : t.trace ≡ after ++ (one ++ (before ++ s.trace))
  pub all_before : All P before
  pub single : One A one
  pub all_after : All P after

module _ {A P : Event → Type 0} where
  none_authorised : (s t : State) → Adds P s t → AllButOne A P s t
  none_authorised s t h = record {
    before = h.new;
    one = [];
    after = [];
    trace = h.trace;
    all_before = h.all;
    single = tt;
    all_after = tt;
  }

  then_after : (s t u : State) → AllButOne A P s t → Adds P t u → AllButOne A P s u
  then_after s t u h k = record {
    before = h.before;
    one = h.one;
    after = k.new ++ h.after;
    trace = k.trace ∙ ap (λ l. k.new ++ l) h.trace ∙ sym (append_assoc k.new h.after _);
    all_before = h.all_before;
    single = h.single;
    all_after = All-append P k.new h.after k.all h.all_after;
  }

  after_then : (s t u : State) → Adds P s t → AllButOne A P t u → AllButOne A P s u
  after_then s t u h k = record {
    before = k.before ++ h.new;
    one = k.one;
    after = k.after;
    trace =
        k.trace
        ∙ ap (λ l. k.after ++ (k.one ++ l))
            (ap (λ l. k.before ++ l) h.trace ∙ sym (append_assoc k.before h.new s.trace));
    all_before = All-append P k.before h.new k.all_before h.all;
    single = k.single;
    all_after = k.all_after;
  }

  pub weaken : {V : Type 0} {m : Exec State V} → Keeps (Adds P) m → Keeps (AllButOne A P) m
  weaken k = record { at = λ s. none_authorised s _ (k.at s) }

  pub ask-One :
      {V : Type 0} (env : Env) (e : Event) (answer : List Event → Outcome V)
      → A e
      → Keeps (AllButOne A P) (ask env e answer)
  unfolding ask
  ask-One env e answer h = record {
    at = λ s. record {
      before = [];
      one = e ∷ [];
      after = [];
      trace = refl;
      all_before = tt;
      single = h;
      all_after = tt;
    };
  }

  -- The authorised call, and what comes after it.
  pub One-try :
      {V W : Type 0} (m : Exec State V) (f : V → Exec State W) (h : Error → Exec State W)
      → Keeps (AllButOne A P) m
      → ((v : V) → Keeps (Adds P) (f v))
      → ((e : Error) → Keeps (Adds P) (h e))
      → Keeps (AllButOne A P) (try m f h)
  One-try m f h km kf kh = Keeps-try_then then_after (λ s t k. k) m f h km kf kh

  pub One-bind :
      {V W : Type 0} (m : Exec State V) (f : V → Exec State W)
      → Keeps (AllButOne A P) m
      → ((v : V) → Keeps (Adds P) (f v))
      → Keeps (AllButOne A P) (m >>= f)
  One-bind m f km kf = Keeps-then then_after (λ s t k. k) m f km kf

  -- What comes before the authorised call.
  pub bind-One :
      {V W : Type 0} (m : Exec State V) (f : V → Exec State W)
      → Keeps (Adds P) m
      → ((v : V) → Keeps (AllButOne A P) (f v))
      → Keeps (AllButOne A P) (m >>= f)
  bind-One m f km kf = Keeps-then after_then (λ s t k. none_authorised s t k) m f km kf
