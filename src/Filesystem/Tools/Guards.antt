-- ===== src/Filesystem/Tools/Guards.antt =====
-- Rules for what an action of the tools calls and returns: every call satisfies P, and a result Q.
use agent_stop_and_go.Prelude.{
  ◌≡◌, refl, sym, ap, ◌∙◌, subst, String, Bool, true, false, List, [], ◌∷◌, ◌++◌, ◌==◌,
  if◌then◌else◌, All, All-append, append_assoc,
}
use agent_stop_and_go.Mcp.{Error, errorf}
use agent_stop_and_go.Agent.Exec.{
  Result, ok, err, panic, pure, throw, panics, reads, ◌>>=◌, resume_with, try, handle,
}
use agent_stop_and_go.Filesystem.{Checked}
use agent_stop_and_go.Filesystem.Paths.{Walk, ended, unfinished}
use agent_stop_and_go.Filesystem.Tools.{
  Call, Action, Disk, Server, Request, lift, walked, call, or_fail, fail_if, req_string, done_or,
  perform,
}

-- The calls between two histories all satisfy P.
pub record Grows (P : Call → Type 0) (s t : List Call) : Type 0 where
  pub new : List Call
  pub history : t ≡ new ++ s
  pub all : All P new

-- Every call of an action satisfies P, whether it returns, fails or panics, and what it returns
-- satisfies Q.
pub record Guards (P : Call → Type 0) {A : Type 0} (Q : A → Type 0) (m : Action A) : Type 0 where
  pub calls : (s : List Call) → Grows P s (m s).1
  pub result : (s : List Call) (a : A) → (m s).0 ≡ ok a → Q a

module _ {P : Call → Type 0} where
  none_new : (s : List Call) → Grows P s s
  none_new s = record { new = []; history = refl; all = tt }

  Grows-transitive : (s t u : List Call) → Grows P s t → Grows P t u → Grows P s u
  Grows-transitive s t u h k = record {
    new = k.new ++ h.new;
    history = k.history ∙ ap (λ l. k.new ++ l) h.history ∙ sym (append_assoc k.new h.new s);
    all = All-append P k.new h.new k.all h.all;
  }

module _ {A : Type 0} where
  value_of : A → Result A → A
  value_of d (ok a) = a
  value_of d (err e) = d
  value_of d panic = d

  pub ok_value : (a b : A) → Path (Result A) (ok a) (ok b) → a ≡ b
  unfolding value_of
  ok_value a b h = ap (value_of a) h

module _ {P : Call → Type 0} {A : Type 0} {Q : A → Type 0} where
  pub Guards-pure : (a : A) → Q a → Guards P Q (pure a)
  unfolding pure
  Guards-pure a q = record { calls = λ s. none_new s; result = λ s b e. subst Q (ok_value a b e) q }

  pub Guards-throw : (e : Error) → Guards P Q (throw e)
  unfolding throw
  Guards-throw e = record { calls = λ s. none_new s; result = λ s b h. cc }

  pub Guards-panics : Guards P Q panics
  unfolding panics
  Guards-panics = record { calls = λ s. none_new s; result = λ s b h. cc }

  pub Guards-if :
      (b : Bool) (m n : Action A)
      → (b ≡ true → Guards P Q m)
      → (b ≡ false → Guards P Q n)
      → Guards P Q (if b then m else n)
  Guards-if true m n k l = k refl
  Guards-if false m n k l = l refl

module _ {P : Call → Type 0} {A B : Type 0} {R : B → Type 0} where
  resumed :
      (f : A → Action B) (r : Result A) (s : List Call)
      → ((a : A) → r ≡ ok a → Guards P R (f a))
      → Grows P s (resume_with f r s).1 × ((b : B) → (resume_with f r s).0 ≡ ok b → R b)
  unfolding resume_with
  resumed f (ok a) s k = ((k a refl).calls s, (k a refl).result s)
  resumed f (err e) s k = (none_new s, λ b h. cc)
  resumed f panic s k = (none_new s, λ b h. cc)

  handled :
      (f : A → Action B) (h : Error → Action B) (r : Result A) (s : List Call)
      → ((a : A) → r ≡ ok a → Guards P R (f a))
      → ((e : Error) → Guards P R (h e))
      → Grows P s (handle f h r s).1 × ((b : B) → (handle f h r s).0 ≡ ok b → R b)
  unfolding handle
  handled f h (ok a) s k j = ((k a refl).calls s, (k a refl).result s)
  handled f h (err e) s k j = ((j e).calls s, (j e).result s)
  handled f h panic s k j = (none_new s, λ b g. cc)

module _ {P : Call → Type 0} {A B : Type 0} {Q : A → Type 0} {R : B → Type 0} where
  pub Guards-bind :
      (m : Action A) (f : A → Action B)
      → Guards P Q m
      → ((a : A) → Q a → Guards P R (f a))
      → Guards P R (m >>= f)
  unfolding ◌>>=◌
  Guards-bind m f g k = record {
    calls = λ s.
        let (r, t) = m s in
        let (c, v) = resumed f r t (λ a e. k a (g.result s a e)) in
        Grows-transitive s t _ (g.calls s) c;
    result = λ s b h.
        let (r, t) = m s in let (c, v) = resumed f r t (λ a e. k a (g.result s a e)) in v b h;
  }

  pub Guards-try :
      (m : Action A) (f : A → Action B) (h : Error → Action B)
      → Guards P Q m
      → ((a : A) → Q a → Guards P R (f a))
      → ((e : Error) → Guards P R (h e))
      → Guards P R (try m f h)
  unfolding try
  Guards-try m f h g k j = record {
    calls = λ s.
        let (r, t) = m s in
        let (c, v) = handled f h r t (λ a e. k a (g.result s a e)) j in
        Grows-transitive s t _ (g.calls s) c;
    result = λ s b e.
        let (r, t) = m s in let (c, v) = handled f h r t (λ a i. k a (g.result s a i)) j in v b e;
  }

-- The actions that the handlers are made of. An action of which the result does not matter has the
-- predicate that always holds.
abbrev pub Any : {A : Type 0} → A → Type 0
Any a = Unit

module _ {P : Call → Type 0} {A : Type 0} where
  pub lift-Guards : (c : Checked A) → Guards P Any (lift c)
  unfolding lift
  lift-Guards (Checked.ok a) = Guards-pure a tt
  lift-Guards (Checked.err e) = Guards-throw e

  pub lifted : (c : Checked A) → Guards P (λ a. c ≡ Checked.ok a) (lift c)
  unfolding lift
  lifted (Checked.ok a) = Guards-pure a refl
  lifted (Checked.err e) = Guards-throw e

  pub walked-Guards :
      {Q : A → Type 0} (w : Walk) (m : Action A) (f : String → Action A)
      → Guards P Q m
      → ((path : String) → w ≡ ended (Checked.ok path) → Guards P Q (f path))
      → Guards P Q (walked w m f)
  unfolding walked
  walked-Guards unfinished m f g k = g
  walked-Guards (ended (Checked.ok path)) m f g k = k path refl
  walked-Guards (ended (Checked.err e)) m f g k = Guards-throw e

  pub call-Guards :
      (c : Call) (answer : List Call → Call → Checked A) → P c → Guards P Any (call c answer)
  unfolding call
  call-Guards c answer p = record {
    calls = λ s.
        Grows-transitive s (c ∷ s) _ (record { new = c ∷ []; history = refl; all = (p, tt) })
          ((lift-Guards (answer s c)).calls (c ∷ s));
    result = λ s a h. tt;
  }

  -- A call of which the answers are known to satisfy Q.
  pub answered-Guards :
      {Q : A → Type 0} (c : Call) (answer : List Call → Call → Checked A)
      → P c
      → ((s : List Call) (a : A) → answer s c ≡ Checked.ok a → Q a)
      → Guards P Q (call c answer)
  unfolding call
  answered-Guards c answer p q = record {
    calls = (call-Guards c answer p).calls;
    result = λ s a h. q s a ((lifted (answer s c)).result (c ∷ s) a h);
  }

  pub or_fail-Guards :
      {Q : A → Type 0} (f : Error → Error) (m : Action A) → Guards P Q m → Guards P Q (or_fail f m)
  unfolding or_fail
  or_fail-Guards f m g =
      Guards-try m pure (λ e. throw (f e)) g Guards-pure (λ e. Guards-throw (f e))

module _ {P : Call → Type 0} where
  pub fail_if-Guards : (test : Bool) (e : Error) → Guards P Any (fail_if test e)
  unfolding fail_if
  fail_if-Guards test e =
      Guards-if test (throw e) (pure true) (λ _. Guards-throw e) (λ _. Guards-pure true tt)

  pub req_string-Guards : (req : Request) (key : String) → Guards P Any (req_string req key)
  unfolding req_string
  req_string-Guards req key =
      Guards-if (req.get_string key "" == "") (throw (errorf (key ∷ " is required" ∷ [])))
        (pure (req.get_string key "")) (λ _. Guards-throw _)
        (λ _. Guards-pure (req.get_string key "") tt)

  pub perform-Guards :
      (disk : Disk) (server : Server) (req : Request) (c : Call)
      → P c
      → Guards P Any (perform disk server req c)
  unfolding perform
  perform-Guards disk server req c p = call-Guards c (λ calls d. done_or (disk.does calls d)) p

pub reads-Guards : {P : Call → Type 0} {A : Type 0} (f : List Call → A) → Guards P Any (reads f)
unfolding reads
reads-Guards f = record { calls = λ s. none_new s; result = λ s a h. tt }

-- The rules where the result of the first action does not matter.
module _ {P : Call → Type 0} {A B : Type 0} {R : B → Type 0} where
  pub Guards-then :
      (m : Action A) (f : A → Action B)
      → Guards P Any m
      → ((a : A) → Guards P R (f a))
      → Guards P R (m >>= f)
  Guards-then m f g k = Guards-bind m f g (λ a _. k a)

  pub Guards-try_then :
      (m : Action A) (f : A → Action B) (h : Error → Action B)
      → Guards P Any m
      → ((a : A) → Guards P R (f a))
      → ((e : Error) → Guards P R (h e))
      → Guards P R (try m f h)
  Guards-try_then m f h g k j = Guards-try m f h g (λ a _. k a) j

pub Guards-end : {P : Call → Type 0} {A : Type 0} (a : A) → Guards P Any (pure a)
Guards-end a = Guards-pure a tt

pub ruleset guards_rules = (
  Guards-then, Guards-try_then, Guards-end, Guards-throw, Guards-panics, Guards-if, lift-Guards,
  call-Guards, or_fail-Guards, fail_if-Guards, req_string-Guards, perform-Guards, reads-Guards,
)
