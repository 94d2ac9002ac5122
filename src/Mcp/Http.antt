-- ===== src/Mcp/Http.antt =====
-- internal/mcp/client_http.go: the client that talks to a server over HTTP, through a library for MCP. The
-- library and the server answer as they like, depending on what was done before. The lock only
-- serialises the methods, and each method here is one step; it is free whenever one returns. Logs and
-- the timeouts of contexts are left out.
pub mod Adapting
pub mod Connections
pub mod Retries
use agent_stop_and_go.Prelude.{
  ℕ, zero, suc, ◌+◌, String, Bool, true, false, Option, none, some, List, [], ◌∷◌, ◌==◌, Assoc,
  has_substring, concat, find, if◌then◌else◌, map,
}
use agent_stop_and_go.Json.{Value, Members, Args, str, object, member, no_members}
use agent_stop_and_go.Mcp.{
  Tool, InputSchema, Property, ContentBlock, CallToolResult, Error, wrap, auth_required_error,
}
use agent_stop_and_go.Agent.Exec.{Result}
use agent_stop_and_go.Filesystem.{Checked, ok, err}
pub use Adapting.*
unfoldable pub use Adapting.{adapt_tool, adapt_call_tool_result}

-- What is done to the server: a connection is made, used and closed, by its number.
pub data Event : Type 0 where
  transports sleeps : Event
  opens greets lists closes : ℕ → Event
  asks : ℕ → (name : String) → Args → (headers : Assoc String) → Event

pub record Link : Type 0 where
  pub transport : List Event → Option Error
  pub greet : List Event → Option Error
  pub list_tools : List Event → Checked (List SdkTool)
  pub close : List Event → Option Error
  pub call : List Event → Checked SdkResult

pub record HttpClient : Type 0 where
  pub url : String
  pub client : Option ℕ
  pub tools : List Tool
  pub started : Bool
  pub events : List Event
  -- the number of the next connection
  pub opened : ℕ

-- NewHTTPClient
abbrev pub new_http_client : String → HttpClient
new_http_client url = record {
  url = url;
  client = none;
  tools = [];
  started = false;
  events = [];
  opened = 0;
}

-- isHTTP401Error
unfoldable pub is_http_401_error : Error → Bool
unfolding has_substring
is_http_401_error e = has_substring "status 401" e.text

-- bearerHeaderFunc, on the token of the context
unfoldable pub bearer_header : String → Assoc String
unfolding concat
bearer_header token =
    if token == "" then [] else ("Authorization", concat ("Bearer " ∷ token ∷ [])) ∷ []

-- The state behind an event.
unfoldable pub log : Event → HttpClient → HttpClient
log e c = record c { events = e ∷ c.events }

module _ (link : Link) where
  -- Close, whose error connect does not look at.
  unfoldable pub closed_with : ℕ → String → Error → HttpClient → Option Error × HttpClient
  unfolding log
  closed_with n what e c = (some (wrap what e), log (closes n) c)

  unfoldable pub load_tools_from :
      ℕ → Checked (List SdkTool) → HttpClient → Option Error × HttpClient
  unfolding closed_with adapt_tool
  load_tools_from n (err e) c = closed_with n "failed to load tools" e c
  load_tools_from n (ok tools) c =
      (none, record c { tools = map adapt_tool tools; client = some n })

  unfoldable pub initialized : ℕ → Option Error → HttpClient → Option Error × HttpClient
  unfolding closed_with load_tools_from log
  initialized n (some e) c = closed_with n "failed to send request" e c
  initialized n none c = load_tools_from n (link.list_tools c.events) (log (lists n) c)

  unfoldable pub opened_by : HttpClient → HttpClient
  unfolding log
  opened_by c = log (opens c.opened) (record c { opened = suc c.opened })

  unfoldable pub transported : Option Error → HttpClient → Option Error × HttpClient
  unfolding initialized opened_by log
  transported (some e) c = (some (wrap "transport error" e), c)
  transported none c =
      let d = opened_by c in initialized c.opened (link.greet d.events) (log (greets c.opened) d)

  -- connect
  unfoldable pub connect : HttpClient → Option Error × HttpClient
  unfolding transported log
  connect c = transported (link.transport c.events) (log transports c)

  -- time.Sleep, unless no attempt is left
  unfoldable pub paused : ℕ → HttpClient → HttpClient
  unfolding log
  paused zero c = c
  paused (suc left) c = log sleeps c

  -- What the loop of Start does with the result of connect: it ends, or goes on.
  unfoldable pub tried :
      (Error → HttpClient → Option Error × HttpClient)
      → Option Error × HttpClient
      → Option Error × HttpClient
  tried again (none, c) = (none, record c { started = true })
  tried again (some e, c) = again e c

  -- The loop of Start, by the attempts that are left: the last error, if all failed.
  unfoldable pub attempts : ℕ → Option Error → HttpClient → Option Error × HttpClient
  unfolding connect tried paused
  attempts zero last c = (last, c)
  attempts (suc left) last c = tried (λ e d. attempts left (some e) (paused left d)) (connect c)

  abbrev pub connect_max_retries : ℕ
  connect_max_retries = 20

  unfoldable pub reported : Option Error × HttpClient → Option Error × HttpClient
  reported (none, c) = (none, c)
  reported (some e, c) = (some (wrap "failed to connect to MCP server after 20 attempts" e), c)

  -- Start
  unfoldable pub start : HttpClient → Option Error × HttpClient
  unfolding attempts reported
  start c = if c.started then (none, c) else reported (attempts connect_max_retries none c)

  -- Stop: with c.started, c.client is the open connection.
  unfoldable pub close_client : Option ℕ → HttpClient → Option Error × HttpClient
  unfolding log
  close_client none c = (none, c)
  close_client (some n) c = (link.close c.events, log (closes n) c)

  unfoldable pub stop : HttpClient → Option Error × HttpClient
  unfolding close_client
  stop c =
      let stopped = close_client c.client (record c { started = false }) in
      if c.started then stopped else (none, c)

  -- Tools
  abbrev pub tools : HttpClient → List Tool
  tools c = c.tools

  unfoldable pub get_tool : String → HttpClient → Option Tool
  get_tool name c = find (λ (t : Tool). t.name == name) c.tools

  -- CallTool: without a connection, that is before Start, c.client is nil and the call panics
  unfoldable pub call_tool :
      (token name : String) → Args → HttpClient → Result CallToolResult × HttpClient
  unfolding is_http_401_error auth_required_error bearer_header adapt_call_tool_result log
  call_tool token name args c = (
    elim c.client [
      | none ↦ Result.panic
      | some i ↦ elim (link.call c.events) [
        | ok result ↦ Result.ok (adapt_call_tool_result result)
        | err e ↦
            if is_http_401_error e
            then Result.err (auth_required_error c.url name)
            else Result.err (wrap "MCP tool call failed" e)
      ]
    ],
    elim c.client [ none ↦ c | some i ↦ log (asks i name args (bearer_header token)) c ],
  )
