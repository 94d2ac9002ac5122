-- ===== src/Mcp/Stdio/Client.antt =====
-- What a client over pipes and its process are, and the methods of the client as actions on it.
use agent_stop_and_go.Prelude.{ℕ, String, Bool, true, false, Option, List, [], if◌then◌else◌}
use agent_stop_and_go.Json.{Args}
use agent_stop_and_go.Mcp.{Tool, CallToolResult, Error}
use agent_stop_and_go.Filesystem.{Checked, ok, err}

pub data Params : Type 0 where
  initialize_params : (protocol_version name version : String) → Params
  call_tool_params : (name : String) (arguments : Args) → Params

pub record Request : Type 0 where
  pub jsonrpc : String
  pub id : ℕ
  pub method : String
  pub params : Option Params

pub record RpcError : Type 0 where
  pub code : String
  pub message : String

pub record Response : Type 0 where
  pub id : ℕ
  pub result : Option String
  pub error : Option RpcError

-- What is done with the process: its pipes, its start, messages, and its end.
pub data Use : Type 0 where
  stdin_pipe stdout_pipe launch read_bytes close_stdin kill wait : Use
  write : Request → Use

pub record Process : Type 0 where
  -- the error of a use, if it has one
  pub fails : List Use → Use → Option Error
  -- the line that ReadBytes gives, as far as it is a response
  pub reads : List Use → Checked Response
  pub marshal_error : Request → Option Error
  pub decode_initialize : String → Checked Bool
  pub decode_tools : String → Checked (List Tool)
  pub decode_result : String → Checked CallToolResult
  pub no_result : CallToolResult

pub record StdioClient : Type 0 where
  pub stdin : Bool
  pub process : Bool
  pub tools : List Tool
  pub next_id : ℕ
  pub started : Bool
  pub locked : Bool
  pub uses : List Use

pub data Outcome (A : Type 0) : Type 0 where
  returned : Checked A → Outcome A
  panicked : Outcome A
  blocked : Outcome A

abbrev pub Method : Type 0 → Type 0
Method A = StdioClient → Outcome A × StdioClient

module _ {A : Type 0} where
  unfoldable pub pure : A → Method A
  pure a c = (returned (ok a), c)

  unfoldable pub throw : Error → Method A
  throw e c = (returned (err e), c)

  -- defer c.mu.Unlock(): a call that blocks keeps the lock, one that panics releases it.
  unfoldable pub unlocked : Outcome A × StdioClient → Outcome A × StdioClient
  unlocked (returned r, c) = (returned r, record c { locked = false })
  unlocked (panicked, c) = (panicked, record c { locked = false })
  unlocked (blocked, c) = (blocked, c)

  -- c.mu.Lock(), and its release at the end
  unfoldable pub locking : Method A → Method A
  unfolding unlocked
  locking m c = if c.locked then (blocked, c) else unlocked (m (record c { locked = true }))

module _ {A B : Type 0} where
  -- How a method goes on from the result of a call: the second function handles an error.
  unfoldable pub go_on :
      (A → Method B) → (Error → Method B) → Outcome A × StdioClient → Outcome B × StdioClient
  go_on f h (returned (ok a), c) = f a c
  go_on f h (returned (err e), c) = h e c
  go_on f h (panicked, c) = (panicked, c)
  go_on f h (blocked, c) = (blocked, c)

  unfoldable pub try : Method A → (A → Method B) → (Error → Method B) → Method B
  unfolding go_on
  try m f h c = go_on f h (m c)

  infixl 10 ◌>>=◌
  unfoldable pub ◌>>=◌ : Method A → (A → Method B) → Method B
  unfolding try throw
  ◌>>=◌ m f = try m f throw

-- NewStdioClient
abbrev pub new_stdio_client : StdioClient
new_stdio_client = record {
  stdin = false;
  process = false;
  tools = [];
  next_id = 1;
  started = false;
  locked = false;
  uses = [];
}
