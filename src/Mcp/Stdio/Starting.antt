-- ===== src/Mcp/Stdio/Starting.antt =====
-- How Start ends, and the lock that Stop waits for.
use agent_stop_and_go.Prelude.{
  ◌≡◌, refl, ap, sym, subst, find, ◌==◌, ◌∙◌, String, Bool, true, false, Option, none, some, ◌∷◌,
  if-false, arith,
}
use agent_stop_and_go.Mcp.{Tool, Error, wrap}
use agent_stop_and_go.Filesystem.{ok, err}
use agent_stop_and_go.Mcp.Stdio.Running.{Same, Same-trans, Ran, initialize-Runs, load_tools-Runs}
use agent_stop_and_go.Mcp.Stdio.{
  StdioClient, Process, Method, Outcome, returned, panicked, blocked, Use, stdin_pipe, stdout_pipe,
  launch, pure, throw, unlocked, locking, go_on, try, ◌>>=◌, done, does, initialize, load_tools,
  stop, stop_locked, get_tool, stop_with, handshake, use_or_fail, launched, set_stdin, set_started,
  start_locked, start, tools,
}

-- How Start ends: with a client that is started, or with an error before the process runs, or blocked
-- with the process running and the lock held.
abbrev pub Ended : Outcome Bool × StdioClient → Type 0
Ended (returned (ok b), d) = (d.started ≡ true) × (d.process ≡ true) × (d.locked ≡ false)
Ended (returned (err e), d) = (d.started ≡ false) × (d.locked ≡ false)
Ended (panicked, d) = ⊥
Ended (blocked, d) = (d.started ≡ true) × (d.process ≡ true) × (d.locked ≡ true)

-- Every method that takes the lock waits for it.
abbrev pub AllBlocked : Process → StdioClient → Type 0
AllBlocked proc c =
    (start proc c ≡ (blocked, c))
    × (stop proc c ≡ (blocked, c))
    × (tools proc c ≡ (blocked, c))
    × ((name : String) → get_tool proc name c ≡ (blocked, c))

locking-blocked :
    {A : Type 0} (m : Method A) (c : StdioClient) → c.locked ≡ true → locking m c ≡ (blocked, c)
unfolding locking
locking-blocked m c h = ground arith

pub locked-AllBlocked : (proc : Process) (c : StdioClient) → c.locked ≡ true → AllBlocked proc c
unfolding start stop tools get_tool
locked-AllBlocked proc c h = (
  locking-blocked (start_locked proc) c h,
  locking-blocked (stop_locked proc) c h,
  locking-blocked (λ d. pure d.tools d) c h,
  λ name. locking-blocked (λ d. pure (find (λ (t : Tool). t.name == name) d.tools) d) c h,
)

-- c.mu.Lock()
abbrev pub holding : StdioClient → StdioClient
holding c = record c { locked = true }

module _ (proc : Process) where
  pub stop_with-blocks :
      (what : String) (e : Error) (c : StdioClient)
      → c.locked ≡ true
      → stop_with proc what e c ≡ (blocked, c)
  unfolding stop_with stop try go_on
  stop_with-blocks what e c h = rw (locking-blocked (stop_locked proc) c h)

  -- How the handshake ends, where the process runs and Start holds the lock.
  abbrev Greeted : StdioClient → Outcome Bool × StdioClient → Type 0
  Greeted c (returned (ok b), d) = Same c d
  Greeted c (returned (err e), d) = ⊥
  Greeted c (panicked, d) = ⊥
  Greeted c (blocked, d) = Same c d

  abbrev pub IsRunning : StdioClient → Type 0
  IsRunning c = (c.stdin ≡ true) × (c.process ≡ true) × (c.started ≡ true) × (c.locked ≡ true)

  stopped-Greeted :
      (what : String) (e : Error) (c d : StdioClient)
      → c.locked ≡ true
      → Same c d
      → Greeted c (stop_with proc what e d)
  stopped-Greeted what e c d h k =
      subst (Greeted c) (sym (stop_with-blocks what e d (k.locked ∙ h))) k

  listed-Greeted :
      (c : StdioClient) (r : Outcome Bool × StdioClient)
      → c.locked ≡ true
      → Ran c r
      → Greeted c (go_on pure (stop_with proc "failed to load MCP tools") r)
  unfolding go_on pure
  listed-Greeted c (returned (ok b), d) h k = k
  listed-Greeted c (returned (err e), d) h k = stopped-Greeted "failed to load MCP tools" e c d h k
  listed-Greeted c (panicked, d) h k = k
  listed-Greeted c (blocked, d) h k = absurd k

  abbrev pub list_or_stop : Bool → Method Bool
  list_or_stop _ = try (load_tools proc) pure (stop_with proc "failed to load MCP tools")

  Greeted-trans :
      (c d : StdioClient) (r : Outcome Bool × StdioClient) → Same c d → Greeted d r → Greeted c r
  Greeted-trans c d (returned (ok b), e) h k = Same-trans c d e h k
  Greeted-trans c d (returned (err x), e) h k = k
  Greeted-trans c d (panicked, e) h k = k
  Greeted-trans c d (blocked, e) h k = Same-trans c d e h k

  initialized-Greeted :
      (c : StdioClient) (r : Outcome Bool × StdioClient)
      → IsRunning c
      → Ran c r
      → Greeted c (go_on list_or_stop (stop_with proc "failed to initialize MCP connection") r)
  unfolding go_on try
  initialized-Greeted c (returned (ok b), d) (s, p, t, l) k =
      Greeted-trans c d (go_on pure _ (load_tools proc d)) k
        (listed-Greeted d (load_tools proc d) (k.locked ∙ l) (load_tools-Runs proc d (k.stdin ∙ s)))
  initialized-Greeted c (returned (err e), d) (s, p, t, l) k =
      stopped-Greeted "failed to initialize MCP connection" e c d l k
  initialized-Greeted c (panicked, d) h k = k
  initialized-Greeted c (blocked, d) h k = absurd k

  pub handshake-Greeted : (c : StdioClient) → IsRunning c → Greeted c (handshake proc c)
  unfolding handshake try
  handshake-Greeted c h = initialized-Greeted c (initialize proc c) h (initialize-Runs proc c h.0)

  -- How the launch ends: with the process running, or with an error.
  abbrev pub Launched : Bool → Outcome Bool × StdioClient → Type 0
  Launched l (returned (ok b), d) =
      (d.stdin ≡ true) × (d.process ≡ true) × (d.started ≡ true) × (d.locked ≡ l)
  Launched l (returned (err e), d) = (d.started ≡ false) × (d.locked ≡ l)
  Launched l (panicked, d) = ⊥
  Launched l (blocked, d) = ⊥

  used-Launched :
      (u : Use) (what : String) (f : Bool → Method Bool) (l : Bool) (c : StdioClient)
      → c.started ≡ false
      → c.locked ≡ l
      → ((b : Bool) → Launched l (f b (record c { uses = u ∷ c.uses })))
      → Launched l ((use_or_fail proc u what >>= f) c)
  unfolding use_or_fail ◌>>=◌ try go_on does
  used-Launched u what f l c t h k = used (proc.fails c.uses u)
    where
      used :
          (o : Option Error)
          → Launched l (
              go_on f throw (
                go_on pure
                  (λ e. throw (wrap what e))
                  (done proc o, record c { uses = u ∷ c.uses })))
      used none = k true
      used (some e) = (t, h)

  pub launched-Launched :
      (c : StdioClient) → c.started ≡ false → Launched c.locked (launched proc c)
  unfolding launched set_stdin set_started ◌>>=◌ try go_on
  launched-Launched c t =
      used-Launched stdin_pipe "failed to get stdin pipe" _ c.locked c t refl (λ _.
        used-Launched stdout_pipe "failed to get stdout pipe" _ c.locked _ t refl (λ _.
          used-Launched launch "failed to start MCP server" _ c.locked _ t refl
            (λ _. (refl, refl, refl, refl))))

  Greeted-Ended :
      (c : StdioClient) (r : Outcome Bool × StdioClient)
      → IsRunning c
      → Greeted c r
      → Ended (unlocked r)
  unfolding unlocked
  Greeted-Ended c (returned (ok b), d) (s, p, t, l) k = (k.started ∙ t, k.process ∙ p, refl)
  Greeted-Ended c (returned (err e), d) h k = absurd k
  Greeted-Ended c (panicked, d) h k = absurd k
  Greeted-Ended c (blocked, d) (s, p, t, l) k = (k.started ∙ t, k.process ∙ p, k.locked ∙ l)

  Launched-Ended :
      (r : Outcome Bool × StdioClient)
      → Launched true r
      → Ended (unlocked (go_on (λ _. handshake proc) throw r))
  unfolding go_on throw unlocked
  Launched-Ended (returned (ok b), d) h =
      Greeted-Ended d (handshake proc d) h (handshake-Greeted d h)
  Launched-Ended (returned (err e), d) (t, l) = (t, refl)
  Launched-Ended (panicked, d) h = absurd h
  Launched-Ended (blocked, d) h = absurd h

  pub start-begins :
      (c : StdioClient)
      → c.locked ≡ false
      → c.started ≡ false
      → start proc c ≡ unlocked (go_on (λ _. handshake proc) throw (launched proc (holding c)))
  unfolding start locking start_locked ◌>>=◌ try
  start-begins c h t = if-false c.locked _ _ h ∙ ap unlocked (if-false c.started _ _ t)

  -- Start of a client that is neither started nor locked, whatever the process answers: it returns with
  -- the process running and the client started, or it returns an error with the client not started; in
  -- both cases the lock is free. Or it never returns: the process runs, the client counts as started
  -- and the lock is held. It does not panic.
  pub start_ends : (c : StdioClient) → c.locked ≡ false → c.started ≡ false → Ended (start proc c)
  start_ends c h t =
      subst Ended (sym (start-begins c h t))
        (Launched-Ended (launched proc (holding c)) (launched-Launched (holding c) t))
