-- ===== src/Mcp/Stdio/Refusing.antt =====
-- Start where the process refuses the connection: Stop waits for the lock that Start holds.
use agent_stop_and_go.Prelude.{◌≡◌, ◌⊎◌, inl, inr, ap, subst, ◌∙◌, String, Bool, true, false}
use agent_stop_and_go.Mcp.{Error}
use agent_stop_and_go.Filesystem.{Checked, ok, err}
use agent_stop_and_go.Mcp.Stdio.Running.{Same, Ran, initialize-Runs, load_tools-Runs}
use agent_stop_and_go.Mcp.Stdio.{
  StdioClient, Process, Outcome, returned, blocked, pure, throw, unlocked, go_on, try, initialize,
  load_tools, stop_with, handshake, launched, start,
}
use agent_stop_and_go.Mcp.Stdio.Starting.{
  Ended, AllBlocked, locked-AllBlocked, holding, stop_with-blocks, Launched, launched-Launched,
  list_or_stop, IsRunning, start-begins, start_ends,
}

-- The process refuses the connection, or the list of its tools.
abbrev pub Refuses : Process → StdioClient → Type 0
Refuses proc c =
    ((e : Error) × ((initialize proc c).0 ≡ returned (err e)))
    ⊎ ((b : Bool) × (e : Error) × ((initialize proc c).0 ≡ returned (ok b))
        × ((load_tools proc (initialize proc c).1).0 ≡ returned (err e)))

unlocked-blocked :
    {A : Type 0} (r : Outcome A × StdioClient) → r.0 ≡ blocked → (unlocked r).0 ≡ blocked
unfolding unlocked
unlocked-blocked r h = ap (λ o. (unlocked (o, r.1)).0) h

module _ (proc : Process) where
  -- What is known of a client that a message left behind, once its outcome is known.
  kept :
      (c : StdioClient) (r : Outcome Bool × StdioClient) (x : Checked Bool)
      → r.0 ≡ returned x
      → Ran c r
      → Same c r.1
  kept c r x k h = subst (λ o. Ran c (o, r.1)) k h

  unlisted-blocks :
      (c : StdioClient) (e : Error)
      → c.stdin ≡ true
      → c.locked ≡ true
      → (load_tools proc c).0 ≡ returned (err e)
      → (try (load_tools proc) pure (stop_with proc "failed to load MCP tools") c).0 ≡ blocked
  unfolding try go_on
  unlisted-blocks c e s l k =
      let r = load_tools proc c in
      let same = kept c r (err e) k (load_tools-Runs proc c s) in
      ap (λ o. (go_on pure (stop_with proc "failed to load MCP tools") (o, r.1)).0) k
      ∙ ap (λ p. p.0) (stop_with-blocks proc "failed to load MCP tools" e r.1 (same.locked ∙ l))

  refused-blocks :
      (c : StdioClient) → IsRunning proc c → Refuses proc c → (handshake proc c).0 ≡ blocked
  unfolding handshake try go_on
  refused-blocks c (s, p, t, l) (inl (e, k)) =
      let what : String = "failed to initialize MCP connection" in
      let r = initialize proc c in
      let same = kept c r (err e) k (initialize-Runs proc c s) in
      ap (λ o. (go_on (list_or_stop proc) (stop_with proc what) (o, r.1)).0) k
      ∙ ap (λ p. p.0) (stop_with-blocks proc what e r.1 (same.locked ∙ l))
  refused-blocks c (s, p, t, l) (inr (b, e, k, m)) =
      let what : String = "failed to initialize MCP connection" in
      let r = initialize proc c in
      let same = kept c r (ok b) k (initialize-Runs proc c s) in
      ap (λ o. (go_on (list_or_stop proc) (stop_with proc what) (o, r.1)).0) k
      ∙ unlisted-blocks r.1 e (same.stdin ∙ s) (same.locked ∙ l) m

  blocked-kept : (r : Outcome Bool × StdioClient) → r.0 ≡ blocked → Ended r → r.1.locked ≡ true
  blocked-kept r h k = (subst (λ o. Ended (o, r.1)) h k).2

  -- Where the process of a client that is neither started nor locked starts, but answers the
  -- initialisation or the list of tools with an error, Start never returns: Stop waits for the lock
  -- that Start holds. From then on Start, Stop, Tools and GetTool never return either.
  pub refused_start_blocks :
      (c : StdioClient) (b : Bool)
      → c.locked ≡ false
      → c.started ≡ false
      → (launched proc (holding c)).0 ≡ returned (ok b)
      → Refuses proc (launched proc (holding c)).1
      → ((start proc c).0 ≡ blocked) × AllBlocked proc (start proc c).1
  unfolding go_on
  refused_start_blocks c b h t k refuses =
      let r = launched proc (holding c) in
      let running : IsRunning proc r.1 =
        subst (λ o. Launched proc true (o, r.1)) k (launched-Launched proc (holding c) t) in
      let shut : (unlocked (handshake proc r.1)).0 ≡ blocked =
        unlocked-blocked (handshake proc r.1) (refused-blocks r.1 running refuses) in
      let stuck : (start proc c).0 ≡ blocked =
        ap (λ p. p.0) (start-begins proc c h t)
        ∙ ap (λ o. (unlocked (go_on (λ _. handshake proc) throw (o, r.1))).0) k
        ∙ shut in
      (
        stuck,
        locked-AllBlocked proc (start proc c).1
            (blocked-kept (start proc c) stuck (start_ends proc c h t)),
      )
