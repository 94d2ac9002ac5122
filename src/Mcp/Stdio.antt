-- ===== src/Mcp/Stdio.antt =====
-- internal/mcp/client.go: the client that talks to a server over the pipes of a subprocess. Methods are
-- actions on the client. The process answers each use of it as it likes, depending on the uses before.
-- A mutex that is taken twice by the same call blocks it for ever; a call of a method of a nil pipe
-- panics. What encoding/json makes of a result is a function of its text.
mod Client
pub mod Requests
pub mod Sessions
pub mod Running
pub mod Starting
pub mod Refusing
use agent_stop_and_go.Prelude.{
  ℕ, ◌+◌, String, Bool, true, false, Option, none, some, List, [], ◌∷◌, ◌==◌, if◌then◌else◌, find,
}
use agent_stop_and_go.Json.{Args}
use agent_stop_and_go.Mcp.{Tool, CallToolResult, Error, errorf, wrap}
use agent_stop_and_go.Filesystem.{Checked, ok, err}
use Client.{
  Params, initialize_params, call_tool_params, Request, RpcError, Response, Use, stdin_pipe,
  stdout_pipe, launch, read_bytes, close_stdin, kill, wait, write, Process, StdioClient, Method,
  Outcome, returned, panicked, blocked, pure, throw, locking, try, ◌>>=◌,
}
pub use Client.*
unfoldable pub use Client.{pure, throw, unlocked, locking, go_on, try, ◌>>=◌}

module _ (proc : Process) where
  unfoldable pub done : Option Error → Outcome Bool
  done none = returned (ok true)
  done (some e) = returned (err e)

  -- A use of the process that returns nothing but an error.
  unfoldable pub does : Use → Method Bool
  unfolding done
  does u c = (done (proc.fails c.uses u), record c { uses = u ∷ c.uses })

  unfoldable pub write_line : Request → Method Bool
  unfolding does try pure throw
  write_line req c =
      if c.stdin
      then try (does (write req)) pure (λ e. throw (wrap "failed to write to MCP server" e)) c
      else (panicked, c)

  -- `if err != nil { return fmt.Errorf("...: %w", err) }`, before the rest.
  unfoldable pub unless_error : {A : Type 0} → Option Error → String → Method A → Method A
  unfolding throw
  unless_error none what m = m
  unless_error (some e) what m = throw (wrap what e)

  unfoldable pub send : Request → Method Bool
  unfolding unless_error write_line
  send req = unless_error (proc.marshal_error req) "failed to marshal message" (write_line req)

  -- ReadBytes and Unmarshal: their errors say which of the two failed.
  unfoldable pub receive : Method Response
  receive c = (returned (proc.reads c.uses), record c { uses = read_bytes ∷ c.uses })

  unfoldable pub or_throw : {A : Type 0} → Checked A → String → Method A
  unfolding pure throw
  or_throw (ok a) what = pure a
  or_throw (err e) what = throw (wrap what e)

  -- `if result != nil && resp.Result != nil`: a result that is left out leaves the zero value.
  unfoldable pub decoded : {A : Type 0} → A → (String → Checked A) → Option String → Method A
  unfolding pure or_throw
  decoded zero decode none = pure zero
  decoded zero decode (some raw) = or_throw (decode raw) "failed to unmarshal result"

  unfoldable pub answered : {A : Type 0} → Option RpcError → Method A → Method A
  unfolding throw
  answered none m = m
  answered (some e) m = throw (errorf ("MCP error " ∷ e.code ∷ ": " ∷ e.message ∷ []))

  -- What call makes of a response; it does not look at its identifier.
  unfoldable pub result_of : {A : Type 0} → A → (String → Checked A) → Response → Method A
  unfolding decoded answered
  result_of zero decode resp = answered resp.error (decoded zero decode resp.result)

  -- c.nextID++, as long as the counter is below the largest int
  unfoldable pub next : Method ℕ
  next c = (returned (ok c.next_id), record c { next_id = c.next_id + 1 })

  abbrev pub request : ℕ → String → Option Params → Request
  request id method params = record { jsonrpc = "2.0"; id = id; method = method; params = params }

  -- call
  unfoldable pub call : {A : Type 0} → A → (String → Checked A) → String → Option Params → Method A
  unfolding next send receive result_of ◌>>=◌
  call zero decode method params = do
    id ← next
    _ ← send (request id method params)
    resp ← receive
    result_of zero decode resp

  unfoldable pub notify : String → Option Params → Method Bool
  unfolding send
  notify method params = send (request 0 method params)

  unfoldable pub initialize : Method Bool
  unfolding call notify ◌>>=◌
  initialize = do
    _ ←
        call true proc.decode_initialize "initialize"
          (some (initialize_params "2024-11-05" "agent" "1.0.0"))
    notify "notifications/initialized" none

  unfoldable pub set_tools : List Tool → Method Bool
  set_tools tools c = (returned (ok true), record c { tools = tools })

  unfoldable pub load_tools : Method Bool
  unfolding call set_tools ◌>>=◌
  load_tools = do tools ← call [] proc.decode_tools "tools/list" none; set_tools tools

  -- Errors of Close, Kill and Wait are not looked at.
  unfoldable pub ignoring : Use → Method Bool
  unfolding does try pure
  ignoring u = try (does u) pure (λ _. pure true)

  unfoldable pub end_process : Method Bool
  unfolding ignoring ◌>>=◌ pure
  end_process c = if c.process then (ignoring kill >>= λ _. ignoring wait) c else pure true c

  unfoldable pub close_pipe : Method Bool
  unfolding ignoring pure
  close_pipe c = if c.stdin then ignoring close_stdin c else pure true c

  unfoldable pub stop_locked : Method Bool
  unfolding close_pipe end_process ◌>>=◌ pure
  stop_locked c =
      if c.started
      then (close_pipe >>= λ _. end_process) (record c { started = false })
      else pure true c

  -- Stop
  unfoldable pub stop : Method Bool
  unfolding locking stop_locked
  stop = locking stop_locked

  unfoldable pub set_stdin : Method Bool
  set_stdin c = (returned (ok true), record c { stdin = true })

  unfoldable pub set_started : Method Bool
  set_started c = (returned (ok true), record c { process = true; started = true })

  -- `c.Stop(); return fmt.Errorf(...)`: Stop is called with the lock held by Start.
  unfoldable pub stop_with : String → Error → Method Bool
  unfolding stop try throw
  stop_with what e = try stop (λ _. throw (wrap what e)) (λ _. throw (wrap what e))

  -- What Start does behind the launch of the process.
  unfoldable pub handshake : Method Bool
  unfolding initialize load_tools try pure stop_with
  handshake =
      try initialize (λ _. try load_tools pure (stop_with "failed to load MCP tools"))
        (stop_with "failed to initialize MCP connection")

  unfoldable pub use_or_fail : Use → String → Method Bool
  unfolding does try pure throw
  use_or_fail u what = try (does u) pure (λ e. throw (wrap what e))

  unfoldable pub launched : Method Bool
  unfolding use_or_fail set_stdin set_started ◌>>=◌
  launched = do
    _ ← use_or_fail stdin_pipe "failed to get stdin pipe"
    _ ← set_stdin
    _ ← use_or_fail stdout_pipe "failed to get stdout pipe"
    _ ← use_or_fail launch "failed to start MCP server"
    set_started

  unfoldable pub start_locked : Method Bool
  unfolding launched handshake ◌>>=◌ pure
  start_locked c = if c.started then pure true c else (launched >>= λ _. handshake) c

  -- Start
  unfoldable pub start : Method Bool
  unfolding locking start_locked
  start = locking start_locked

  unfoldable pub tools : Method (List Tool)
  unfolding locking pure
  tools = locking (λ c. pure c.tools c)

  unfoldable pub get_tool : String → Method (Option Tool)
  unfolding locking pure
  get_tool name = locking (λ c. pure (find (λ (t : Tool). t.name == name) c.tools) c)

  -- CallTool
  unfoldable pub call_tool : String → Args → Method CallToolResult
  unfolding call
  call_tool name args =
      call proc.no_result proc.decode_result "tools/call" (some (call_tool_params name args))
