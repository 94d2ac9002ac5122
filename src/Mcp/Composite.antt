-- ===== src/Mcp/Composite.antt =====
-- internal/mcp/client_composite.go. The sub-clients are the environment: what a call of Start, Stop
-- or Tools returns depends on all that was done to the clients before. The lock only serialises the
-- methods, and each method here is one step.
pub mod Starting
pub mod Routing
use agent_stop_and_go.Prelude.{
  ℕ, suc, ◌+◌, String, Bool, true, false, Option, none, some, List, [], ◌∷◌, ◌++◌, Assoc, lookup,
  insert, ◌==◌, concat, join, if◌then◌else◌,
}
use agent_stop_and_go.Mcp.{Tool, Error, errorf, wrap}

-- What was done to the sub-clients, by their index, the last thing first: a Start that succeeded, a
-- Start that failed, a Stop.
pub data Action : Type 0 where
  starts fails stops : ℕ → Action

-- A named client: `%q` of its name, and the answers of its methods after a history.
pub record NamedClient : Type 0 where
  pub name : String
  pub start : List Action → Option Error
  pub stop : List Action → Option Error
  pub tools : List Action → List Tool

pub record CompositeClient : Type 0 where
  pub clients : List NamedClient
  pub tools : List Tool
  pub tool_map : Assoc ℕ
  pub started : Bool

unfoldable pub new_composite_client : List NamedClient → CompositeClient
new_composite_client clients = record {
  clients = clients;
  tools = [];
  tool_map = [];
  started = false;
}

-- The rollback of Start: clients i - 1 down to 0.
unfoldable pub stop_back : ℕ → List Action → List Action
stop_back ℕ.zero done = done
stop_back (suc i) done = stop_back i (stops i ∷ done)

-- The first loop of Start, from client i on: the error of the client that failed.
unfoldable pub start_all : ℕ → List NamedClient → List Action → Option Error × List Action
unfolding stop_back
start_all i [] done = (none, done)
start_all i (nc ∷ rest) done = elim (nc.start done) [
  | none ↦ start_all (suc i) rest (starts i ∷ done)
  | some e ↦ (
    some (wrap (concat ("failed to start MCP server " ∷ nc.name ∷ [])) e),
    stop_back i (fails i ∷ done),
  )
]

-- stopAllLocked: each client is stopped, and the errors are joined.
unfoldable pub stop_errors : ℕ → List NamedClient → List Action → List String × List Action
stop_errors i [] done = ([], done)
stop_errors i (nc ∷ rest) done =
    let (errs, after) = stop_errors (suc i) rest (stops i ∷ done) in
    elim (nc.stop done) [
      | none ↦ (errs, after)
      | some e ↦ (concat (nc.name ∷ ": " ∷ e.text ∷ []) ∷ errs, after)
    ]

unfoldable pub stop_all_locked : List NamedClient → List Action → Option Error × List Action
unfolding stop_errors join
stop_all_locked clients done =
    let (errs, after) = stop_errors 0 clients done in
    elim errs [
      | [] ↦ (none, after)
      | e ∷ es ↦ (some (errorf ("errors stopping MCP clients: " ∷ join "; " (e ∷ es) ∷ [])), after)
    ]

-- What the second loop of Start builds: the tools, their owners' names, and the tool map.
pub record Merged : Type 0 where
  pub tools : List Tool
  pub owner : Assoc String
  pub tool_map : Assoc ℕ

-- The loop over one client's tools. On a duplicate it stops with the map filled so far.
unfoldable pub merge_tools : ℕ → String → List Tool → Merged → Option Error × Merged
merge_tools i server [] m = (none, m)
merge_tools i server (tool ∷ rest) m = elim (lookup tool.name m.owner) [
  | some existing ↦ (
    some (
        errorf (
          "duplicate tool name " ∷ tool.name ∷ " found in MCP servers " ∷ existing ∷ " and "
          ∷ server ∷ [])),
    m,
  )
  | none ↦ merge_tools i server rest (record m {
    tools = m.tools ++ record tool { server = server } ∷ [];
    owner = insert tool.name server m.owner;
    tool_map = insert tool.name i m.tool_map;
  })
]

-- The loop over the clients, from client i on.
unfoldable pub merge_clients : ℕ → List NamedClient → List Action → Merged → Option Error × Merged
unfolding merge_tools
merge_clients i [] done m = (none, m)
merge_clients i (nc ∷ rest) done m =
    let (e, m') = merge_tools i nc.name (nc.tools done) m in
    elim e [ some error ↦ (some error, m') | none ↦ merge_clients (suc i) rest done m' ]

-- The state of a composite client and the history of its clients.
abbrev pub World : Type 0
World = CompositeClient × List Action

-- The second half of Start, after every client has started.
unfoldable pub aggregate : World → Option Error × World
unfolding merge_clients stop_all_locked
aggregate (c, done) =
    let (e, m) =
      merge_clients 0 c.clients done (record { tools = []; owner = []; tool_map = c.tool_map }) in
    elim e [
      | some error ↦
          (some error, (record c { tool_map = m.tool_map }, (stop_all_locked c.clients done).1))
      | none ↦ (none, (record c { tools = m.tools; tool_map = m.tool_map; started = true }, done))
    ]

unfoldable pub start : World → Option Error × World
unfolding start_all aggregate
start (c, done) =
    if c.started
    then (none, (c, done))
    else (let (e, after) = start_all 0 c.clients done in
        elim e [ some error ↦ (some error, (c, after)) | none ↦ aggregate (c, after) ])

unfoldable pub stop : World → Option Error × World
unfolding stop_all_locked
stop (c, done) =
    if c.started
    then (let (e, after) = stop_all_locked c.clients done in
        (e, (record c { started = false }, after)))
    else (none, (c, done))

-- GetTool: the first of the merged tools with the name.
unfoldable pub find_tool : String → List Tool → Option Tool
find_tool name [] = none
find_tool name (tool ∷ rest) = if tool.name == name then some tool else find_tool name rest

abbrev pub get_tool : CompositeClient → String → Option Tool
get_tool c name = find_tool name c.tools

-- The routing of CallTool: the client at the tool's index. An index is always that of a client, so
-- `none` stands for the error "tool not found".
unfoldable pub route : CompositeClient → String → Option ℕ
route c name = lookup name c.tool_map
