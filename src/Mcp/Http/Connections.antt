-- ===== src/Mcp/Http/Connections.antt =====
-- Which connections a client over HTTP holds, and how often it tries.
use agent_stop_and_go.Prelude.{
  ℕ, zero, suc, ◌≡◌, ◌⊎◌, inl, inr, refl, sym, ap, ◌∙◌, subst, String, Bool, true, false, Option,
  none, some, List, [], ◌∷◌, nat_eq, if◌then◌else◌, arith, if-true, if-false,
}
use agent_stop_and_go.Json.{Args}
use agent_stop_and_go.Mcp.{Error}
use agent_stop_and_go.Filesystem.{Checked, ok, err}
use agent_stop_and_go.Mcp.Http.{
  SdkTool, Event, transports, sleeps, opens, greets, lists, closes, asks, Link, HttpClient, log,
  closed_with, load_tools_from, initialized, opened_by, transported, connect, attempts, tried,
  paused, reported, start, close_client, stop, bearer_header, call_tool, new_http_client,
}

remove : ℕ → List ℕ → List ℕ
remove n [] = []
remove n (m ∷ ms) = let rest = remove n ms in if nat_eq m n then rest else m ∷ rest

-- The connections that were made and not closed.
pub live : List Event → List ℕ
unfolding remove
live [] = []
live (opens n ∷ es) = n ∷ live es
live (closes n ∷ es) = remove n (live es)
live (transports ∷ es) = live es
live (sleeps ∷ es) = live es
live (greets n ∷ es) = live es
live (lists n ∷ es) = live es
live (asks c name args headers ∷ es) = live es

-- A client that is started holds just the connection that it uses; another holds none.
pub record IsTidy (c : HttpClient) : Type 0 where
  pub holds :
      ((c.started ≡ false) × (live c.events ≡ []))
      ⊎ ((n : ℕ) × (c.started ≡ true) × (c.client ≡ some n) × (live c.events ≡ n ∷ []))

abbrev Connected : Bool → Option Error × HttpClient → Type 0
Connected b (none, d) = (n : ℕ) × (d.client ≡ some n) × (live d.events ≡ n ∷ []) × (d.started ≡ b)
Connected b (some e, d) = (live d.events ≡ []) × (d.started ≡ b)

closed_one : (n : ℕ) (es : List Event) → live es ≡ n ∷ [] → live (closes n ∷ es) ≡ []
unfolding live remove
closed_one n es h = ground arith

module _ (link : Link) where
  listed-Connected :
      (n : ℕ) (r : Checked (List SdkTool)) (c : HttpClient)
      → live c.events ≡ n ∷ []
      → Connected c.started (load_tools_from link n r c)
  unfolding load_tools_from closed_with
  listed-Connected n (ok ts) c h = (n, refl, h, refl)
  listed-Connected n (err e) c h = (closed_one n c.events h, refl)

  initialized-Connected :
      (n : ℕ) (o : Option Error) (c : HttpClient)
      → live c.events ≡ n ∷ []
      → Connected c.started (initialized link n o c)
  unfolding initialized closed_with live
  initialized-Connected n (some e) c h = (closed_one n c.events h, refl)
  initialized-Connected n none c h =
      listed-Connected n (link.list_tools c.events) (log (lists n) c) h

  transported-Connected :
      (o : Option Error) (c : HttpClient)
      → live c.events ≡ []
      → Connected c.started (transported link o c)
  unfolding transported opened_by live
  transported-Connected (some e) c h = (h, refl)
  transported-Connected none c h =
      let d = opened_by link c in
      initialized-Connected c.opened (link.greet d.events) (log (greets c.opened) d)
        (ap (λ l. c.opened ∷ l) h)

  connect-Connected : (c : HttpClient) → live c.events ≡ [] → Connected c.started (connect link c)
  unfolding connect live
  connect-Connected c h = transported-Connected (link.transport c.events) (log transports c) h

  -- How the loop of Start ends, from a client that is not started.
  abbrev Tried : Option Error × HttpClient → Type 0
  Tried (none, d) = (d.started ≡ true) × IsTidy d
  Tried (some e, d) = (d.started ≡ false) × IsTidy d

  tried-Tried :
      (again : Error → HttpClient → Option Error × HttpClient) (r : Option Error × HttpClient)
      → Connected false r
      → ((e : Error) (d : HttpClient) → live d.events ≡ [] → d.started ≡ false → Tried (again e d))
      → Tried (tried link again r)
  unfolding tried
  tried-Tried again (none, d) (n, held, one, b) k =
      (refl, record { holds = inr (n, refl, held, one) })
  tried-Tried again (some e, d) (h, b) k = k e d h b

  paused-live : (left : ℕ) (c : HttpClient) → live (paused link left c).events ≡ live c.events
  unfolding paused live
  paused-live zero c = refl
  paused-live (suc left) c = refl

  paused-started : (left : ℕ) (c : HttpClient) → (paused link left c).started ≡ c.started
  unfolding paused
  paused-started zero c = refl
  paused-started (suc left) c = refl

  attempts-Tried :
      (left : ℕ) (e : Error) (c : HttpClient)
      → live c.events ≡ []
      → c.started ≡ false
      → Tried (attempts link left (some e) c)
  unfolding attempts
  attempts-Tried zero e c h b = (b, record { holds = inl (b, h) })
  attempts-Tried (suc left) e c h b =
      tried-Tried (λ x d. attempts link left (some x) (paused link left d)) (connect link c)
        (subst (λ s. Connected s (connect link c)) b (connect-Connected c h))
        (λ x d l t.
          attempts-Tried left x (paused link left d) (paused-live left d ∙ l)
            (paused-started left d ∙ t))

  reported-Tried : (r : Option Error × HttpClient) → Tried r → Tried (reported link r)
  unfolding reported
  reported-Tried (none, d) h = h
  reported-Tried (some e, d) h = h

  Tried-IsTidy : (r : Option Error × HttpClient) → Tried r → IsTidy r.1
  Tried-IsTidy (none, d) h = h.1
  Tried-IsTidy (some e, d) h = h.1

  start-IsTidy : (c : HttpClient) → IsTidy c → IsTidy (start link c).1
  unfolding start attempts
  start-IsTidy c h = elim h.holds [
    | inl (b, l) ↦
        subst IsTidy (sym (ap (λ (r : Option Error × HttpClient). r.1) (if-false c.started _ _ b)))
          (Tried-IsTidy _ (
            reported-Tried _ (
              tried-Tried (λ x d. attempts link 19 (some x) (paused link 19 d)) (connect link c)
                (subst (λ s. Connected s (connect link c)) b (connect-Connected c l))
                (λ x d k t.
                  attempts-Tried 19 x (paused link 19 d) (paused-live 19 d ∙ k)
                    (paused-started 19 d ∙ t)))))
    | inr (n, b, held, one) ↦
        subst IsTidy (sym (ap (λ (r : Option Error × HttpClient). r.1) (if-true c.started _ _ b))) h
  ]

  stop-IsTidy : (c : HttpClient) → IsTidy c → IsTidy (stop link c).1
  unfolding stop close_client
  stop-IsTidy c h = elim h.holds [
    | inl (b, l) ↦
        subst IsTidy (sym (ap (λ (r : Option Error × HttpClient). r.1) (if-false c.started _ _ b)))
          h
    | inr (n, b, held, one) ↦
        let shut : HttpClient = record c { started = false } in
        subst (λ (r : Option Error × HttpClient). IsTidy r.1)
          (sym (if-true c.started _ _ b ∙ ap (λ o. close_client link o shut) held))
          (record { holds = inl (refl, closed_one n c.events one) })
  ]

-- A call of one of the methods that change a client.
pub data MethodCall : Type 0 where
  starts stops : MethodCall
  calls : (token name : String) → Args → MethodCall

module _ (link : Link) where
  -- What a call leaves of the client.
  pub after : MethodCall → HttpClient → HttpClient
  after starts c = (start link c).1
  after stops c = (stop link c).1
  after (calls token name args) c = (call_tool link token name args c).1

  -- A new client behind a sequence of calls, the last one first.
  pub session : String → List MethodCall → HttpClient
  unfolding after
  session url [] = new_http_client url
  session url (m ∷ ms) = after m (session url ms)

  call-IsTidy :
      (token name : String) (args : Args) (c : HttpClient)
      → IsTidy c
      → IsTidy (call_tool link token name args c).1
  unfolding call_tool log live
  call-IsTidy token name args c h = asked_only c.client
    where
      asked_only :
          (o : Option ℕ)
          → IsTidy (elim o [ none ↦ c | some i ↦ log (asks i name args (bearer_header token)) c ])
      asked_only none = h
      asked_only (some i) = record { holds = h.holds }

  -- In every sequence of Start, Stop and CallTool on a new client, whatever the server answers: a
  -- client that is started holds just one open connection, which is the one that it uses, and a
  -- client that is not started holds none.
  pub connections-IsTidy : (url : String) (ms : List MethodCall) → IsTidy (session url ms)
  unfolding session live after
  connections-IsTidy url [] = record { holds = inl (refl, refl) }
  connections-IsTidy url (starts ∷ ms) =
      start-IsTidy link (session url ms) (connections-IsTidy url ms)
  connections-IsTidy url (stops ∷ ms) =
      stop-IsTidy link (session url ms) (connections-IsTidy url ms)
  connections-IsTidy url (calls token name args ∷ ms) =
      call-IsTidy token name args (session url ms) (connections-IsTidy url ms)
