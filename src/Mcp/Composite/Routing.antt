-- ===== src/Mcp/Composite/Routing.antt =====
-- Where the composite client finds a tool, and to which client it routes a call of it.
pub mod Merging
use agent_stop_and_go.Prelude.{
  ℕ, zero, suc, ◌+◌, ◌≡◌, refl, subst, String, true, false, none, some, List, [], ◌∷◌, ◌++◌, ◌==◌,
  eq_iff, lookup, insert, lookup-insert, get_elem?, is_some, if◌then◌else◌, arith, Option-cases,
  inl, inr,
}
use agent_stop_and_go.Mcp.{Tool}
use agent_stop_and_go.Mcp.Composite.{
  Action, NamedClient, CompositeClient, Merged, merge_tools, merge_clients, start_all, aggregate,
  start, find_tool, get_tool, route,
}
use agent_stop_and_go.Mcp.Composite.Routing.Merging.{
  IsHeld, Agrees, IsGrown, merge_tools-IsGrown, merge_tools_holds,
}

merge_clients-IsGrown :
    (i : ℕ) (l : List NamedClient) (done : List Action) (m : Merged)
    → (merge_clients i l done m).0 ≡ none
    → IsGrown m (merge_clients i l done m).1
unfolding merge_clients
merge_clients-IsGrown i [] done m ok = record { keeps = λ name t j h. h; agrees = λ h. h }
merge_clients-IsGrown i (nc ∷ l) done m ok =
    elim (Option-cases (merge_tools i nc.name (nc.tools done) m).0) [
      | inl fine ↦
          let first = merge_tools-IsGrown i nc.name (nc.tools done) m fine in
          let rest =
            merge_clients-IsGrown (suc i) l done (merge_tools i nc.name (nc.tools done) m).1
              (ground arith) in
          rw (fine, merge_clients)
            (record {
              keeps = λ name t j h. rest.keeps name t j (first.keeps name t j h);
              agrees = λ h. rest.agrees (first.agrees h);
            })
      | inr (e, bad) ↦ absurd (ground arith)
    ]

-- The tools of the client that the loop is at.
first_client :
    (i : ℕ) (c : NamedClient) (l : List NamedClient) (done : List Action) (m : Merged) (k : ℕ)
    (nc : NamedClient) (t : Tool)
    → (merge_tools i c.name (c.tools done) m).0 ≡ none
    → (merge_clients (suc i) l done (merge_tools i c.name (c.tools done) m).1).0 ≡ none
    → Agrees m
    → c ≡ nc
    → get_elem? (nc.tools done) k ≡ some t
    → IsHeld
        (merge_clients (suc i) l done (merge_tools i c.name (c.tools done) m).1).1
        t.name
        (record t { server = nc.name })
        i
first_client i c l done m k nc t fine ok h same =
    let rest = merge_clients-IsGrown (suc i) l done (merge_tools i c.name (c.tools done) m).1 ok in
    subst
      (λ d.
        get_elem? (d.tools done) k ≡ some t
        → IsHeld (merge_clients (suc i) l done (merge_tools i c.name (c.tools done) m).1).1 t.name
            (record t { server = d.name }) i)
      same (λ g. rest.keeps _ _ _ (merge_tools_holds i c.name (c.tools done) m k t fine h g))

merge_clients_holds :
    (i : ℕ) (l : List NamedClient) (done : List Action) (m : Merged) (j k : ℕ) (nc : NamedClient)
    (t : Tool)
    → (merge_clients i l done m).0 ≡ none
    → Agrees m
    → get_elem? l j ≡ some nc
    → get_elem? (nc.tools done) k ≡ some t
    → IsHeld (merge_clients i l done m).1 t.name (record t { server = nc.name }) (i + j)
unfolding merge_clients
merge_clients_holds i [] done m j k nc t ok h e f = absurd (ground arith)
merge_clients_holds i (c ∷ l) done m zero k nc t ok h e f =
    elim (Option-cases (merge_tools i c.name (c.tools done) m).0) [
      | inl fine ↦
          rw (fine, merge_clients)
            (subst
              (λ n.
                IsHeld (merge_clients (suc i) l done (merge_tools i c.name (c.tools done) m).1).1
                  t.name (record t { server = nc.name }) n)
              (omega arith)
              (first_client i c l done m k nc t fine (ground arith) h (ground arith) f))
      | inr (bad, why) ↦ absurd (ground arith)
    ]
merge_clients_holds i (c ∷ l) done m (suc j) k nc t ok h e f =
    elim (Option-cases (merge_tools i c.name (c.tools done) m).0) [
      | inl fine ↦
          rw (fine, merge_clients)
            (subst
              (λ n.
                IsHeld (merge_clients (suc i) l done (merge_tools i c.name (c.tools done) m).1).1
                  t.name (record t { server = nc.name }) n)
              (omega arith)
              (merge_clients_holds (suc i) l done _ j k nc t (ground arith)
                ((merge_tools-IsGrown i c.name (c.tools done) m fine).agrees h) e f))
      | inr (bad, why) ↦ absurd (ground arith)
    ]

-- The tools of the clients that Start merges are those after the clients have started.
aggregate_routes :
    (c : CompositeClient) (done : List Action) (i k : ℕ) (nc : NamedClient) (t : Tool)
    → (aggregate (c, done)).0 ≡ none
    → get_elem? c.clients i ≡ some nc
    → get_elem? (nc.tools (aggregate (c, done)).1.1) k ≡ some t
    → (get_tool (aggregate (c, done)).1.0 t.name ≡ some (record t { server = nc.name }))
      × (route (aggregate (c, done)).1.0 t.name ≡ some i)
unfolding aggregate route
aggregate_routes c done i k nc t ok e f =
    elim (Option-cases
      (merge_clients 0 c.clients done
        (record { tools = []; owner = []; tool_map = c.tool_map })).0) [
          | inl fine ↦
              let held =
                merge_clients_holds 0 c.clients done _ i k nc t fine
                  (λ name h. unfold find_tool in refl) e (ground arith) in
              (ground (arith, held.found), ground (arith, held.routed))
          | inr (error, bad) ↦ absurd (ground arith)
        ]

-- After a Start that succeeds, each tool of each client is found by its name, with the client's name
-- as its server, and a call of it is routed to that client. So the tools of two clients never share a
-- name.
pub start_routes_each_tool :
    (c : CompositeClient) (done : List Action) (i k : ℕ) (nc : NamedClient) (t : Tool)
    → c.started ≡ false
    → (start (c, done)).0 ≡ none
    → get_elem? c.clients i ≡ some nc
    → get_elem? (nc.tools (start (c, done)).1.1) k ≡ some t
    → (get_tool (start (c, done)).1.0 t.name ≡ some (record t { server = nc.name }))
      × (route (start (c, done)).1.0 t.name ≡ some i)
unfolding start
start_routes_each_tool c done i k nc t idle ok e f =
    elim (Option-cases (start_all 0 c.clients done).0) [
      | inl fine ↦
          let routes =
            aggregate_routes c (start_all 0 c.clients done).1 i k nc t (ground arith) e
              (ground arith) in
          (ground (arith, routes), ground (arith, routes))
      | inr (error, bad) ↦ absurd (ground arith)
    ]
