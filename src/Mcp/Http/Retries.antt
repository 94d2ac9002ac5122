-- ===== src/Mcp/Http/Retries.antt =====
-- How often Start tries, and how often it sleeps.
use agent_stop_and_go.Prelude.{
  ℕ, zero, suc, ◌+◌, ◌≤◌, ◌≡◌, ◌⊎◌, inl, inr, refl, sym, subst, false, Option, none, some, List, [],
  ◌∷◌, if-false, arith,
}
use agent_stop_and_go.Mcp.{Error}
use agent_stop_and_go.Filesystem.{Checked, ok, err}
use agent_stop_and_go.Mcp.Http.{
  SdkTool, Event, transports, sleeps, opens, greets, lists, closes, asks, Link, HttpClient, log,
  closed_with, load_tools_from, initialized, opened_by, transported, connect, attempts, tried,
  paused, connect_max_retries, reported, start,
}

unfoldable pub tries : List Event → ℕ
tries [] = 0
tries (transports ∷ es) = suc (tries es)
tries (sleeps ∷ es) = tries es
tries (opens n ∷ es) = tries es
tries (closes n ∷ es) = tries es
tries (greets n ∷ es) = tries es
tries (lists n ∷ es) = tries es
tries (asks c name args headers ∷ es) = tries es

unfoldable pub rests : List Event → ℕ
rests [] = 0
rests (transports ∷ es) = rests es
rests (sleeps ∷ es) = suc (rests es)
rests (opens n ∷ es) = rests es
rests (closes n ∷ es) = rests es
rests (greets n ∷ es) = rests es
rests (lists n ∷ es) = rests es
rests (asks c name args headers ∷ es) = rests es

abbrev Counts : ℕ → ℕ → Option Error × HttpClient → Type 0
Counts t s r = (tries r.1.events ≡ t) × (rests r.1.events ≡ s)

-- A Start behind `k` attempts: it sleeps between them, and gives up only behind the last one.
abbrev pub Tried : (most tried_before slept_before : ℕ) → Option Error × HttpClient → Type 0
Tried most t s r =
    (k : ℕ) × (k ≤ most)
    × (tries r.1.events ≡ t + k)
    × (rests r.1.events + 1 ≡ s + k)
    × ((r.0 ≡ none) ⊎ (k ≡ most))

module _ (link : Link) where
  listed-Counts :
      (n : ℕ) (r : Checked (List SdkTool)) (c : HttpClient)
      → Counts (tries c.events) (rests c.events) (load_tools_from link n r c)
  unfolding load_tools_from closed_with tries rests
  listed-Counts n (ok ts) c = (refl, refl)
  listed-Counts n (err e) c = (refl, refl)

  initialized-Counts :
      (n : ℕ) (o : Option Error) (c : HttpClient)
      → Counts (tries c.events) (rests c.events) (initialized link n o c)
  unfolding initialized closed_with tries rests
  initialized-Counts n (some e) c = (refl, refl)
  initialized-Counts n none c = listed-Counts n (link.list_tools c.events) (log (lists n) c)

  transported-Counts :
      (o : Option Error) (c : HttpClient)
      → Counts (tries c.events) (rests c.events) (transported link o c)
  unfolding transported opened_by tries rests
  transported-Counts (some e) c = (refl, refl)
  transported-Counts none c =
      let d = opened_by link c in
      initialized-Counts c.opened (link.greet d.events) (log (greets c.opened) d)

  connect-Counts :
      (c : HttpClient) → Counts (suc (tries c.events)) (rests c.events) (connect link c)
  unfolding connect tries rests
  connect-Counts c = transported-Counts (link.transport c.events) (log transports c)

  paused-Counts :
      (left : ℕ) (c : HttpClient)
      → (tries (paused link (suc left) c).events ≡ tries c.events)
        × (rests (paused link (suc left) c).events ≡ suc (rests c.events))
  unfolding paused tries rests
  paused-Counts left c = (refl, refl)

  tried-once :
      (left t s : ℕ) (r : Option Error × HttpClient)
      → Counts (suc t) s r
      → ((e : Error) (d : HttpClient)
          → tries d.events ≡ suc t
          → rests d.events ≡ s
          → Tried (suc left) t s (attempts link left (some e) (paused link left d)))
      → Tried
          (suc left)
          t
          s
          (tried link (λ e d. attempts link left (some e) (paused link left d)) r)
  unfolding tried
  tried-once left t s (none, d) (h, k) next =
      (1, omega arith, omega (arith, h), omega (arith, k), inl refl)
  tried-once left t s (some e, d) (h, k) next = next e d h k

  once_more :
      (most t s t' s' : ℕ) (r : Option Error × HttpClient)
      → t' ≡ suc t
      → s' ≡ suc s
      → Tried most t' s' r
      → Tried (suc most) t s r
  once_more most t s t' s' r h k (n, small, a, b, why) = (
    suc n,
    omega arith,
    omega (arith, a, h),
    omega (arith, b, k),
    elim why [ inl e ↦ inl e | inr e ↦ inr (omega (arith, e)) ],
  )

  attempts-Tried :
      (left : ℕ) (last : Option Error) (c : HttpClient)
      → Tried (suc left) (tries c.events) (rests c.events) (attempts link (suc left) last c)
  unfolding attempts
  attempts-Tried zero last c =
      tried-once zero (tries c.events) (rests c.events) (connect link c) (connect-Counts c)
        (λ e d h k. unfold paused in (1, omega arith, omega (arith, h), omega (arith, k), inr refl))
  attempts-Tried (suc left) last c =
      tried-once (suc left) (tries c.events) (rests c.events) (connect link c) (connect-Counts c)
        (λ e d h k.
          let (t, s) = paused-Counts left d in
          once_more (suc left) (tries c.events) (rests c.events)
            (tries (paused link (suc left) d).events) (rests (paused link (suc left) d).events)
            (attempts link (suc left) (some e) (paused link (suc left) d)) (omega (arith, t, h))
            (omega (arith, s, k)) (attempts-Tried left (some e) (paused link (suc left) d)))

  reported-Tried :
      (most t s : ℕ) (r : Option Error × HttpClient)
      → Tried most t s r
      → Tried most t s (reported link r)
  unfolding reported
  reported-Tried most t s (none, d) h = h
  reported-Tried most t s (some e, d) (k, small, a, b, inl h) = cc
  reported-Tried most t s (some e, d) (k, small, a, b, inr h) = (k, small, a, b, inr h)

  -- Start of a client that is not started tries to connect at most 20 times, and sleeps once between
  -- two attempts and not behind the last one. It returns an error only where all 20 attempts failed.
  pub start_retries :
      (c : HttpClient)
      → c.started ≡ false
      → Tried 20 (tries c.events) (rests c.events) (start link c)
  unfolding start
  start_retries c h =
      subst (Tried 20 (tries c.events) (rests c.events))
        (sym (
          if-false c.started _ (reported link (attempts link (connect_max_retries link) none c)) h))
        (reported-Tried 20 (tries c.events) (rests c.events) _ (attempts-Tried 19 none c))
