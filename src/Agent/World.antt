-- ===== src/Agent/World.antt =====
-- What the agent is made of, its state, and the environment: the answers of the LLM, of the MCP
-- servers, of the other agents and of the disk, each of which may depend on everything that was asked
-- before.
use agent_stop_and_go.Prelude.{ℕ, String, Option, List, Assoc}
use agent_stop_and_go.Json.{Args, Value}
use agent_stop_and_go.Conversation.{Conversation, Draw}
use agent_stop_and_go.Mcp.{Error, Tool, CallToolResult}
use agent_stop_and_go.Mcp.Composite.{CompositeClient}
use agent_stop_and_go.Config.{Config}
use agent_stop_and_go.A2a.{Client, Task}
use agent_stop_and_go.Llm.{LlmClient, LlmMessage, Response}
use agent_stop_and_go.Session.{SessionState}

-- internal/auth: what a request's context carries to every call downstream.
pub record Context : Type 0 where
  pub bearer_token : String
  pub session_id : String

-- A call that leaves the agent, with its arguments.
pub data Event : Type 0 where
  generated : Context → LlmClient → String → List LlmMessage → List Tool → Event
  tool_called : Context → ℕ → String → Args → Event
  message_sent : Context → Client → String → Event
  task_continued : Context → Client → String → String → Event
  saved : Conversation → Event

pub data Outcome (A : Type 0) : Type 0 where
  returned : A → Outcome A
  failed : Error → Outcome A

-- A write of a conversation's file: a failed one leaves what can then be read of it, if anything.
pub data Write : Type 0 where
  written : Write
  write_failed : Error → Option Conversation → Write

-- The answers to the call at the head of a history; the supply of identifiers and times; the
-- package os; and the formatting of values by fmt and encoding/json.
pub record Env : Type 0 where
  pub draw : ℕ → Draw
  pub getenv : String → String
  pub generate : List Event → Outcome Response
  pub call_tool : List Event → Outcome CallToolResult
  pub send_message : List Event → Outcome Task
  pub continue_task : List Event → Outcome Task
  pub write : List Event → Write
  -- the order in which the goroutines of a parallel node with so many children run
  pub schedule : List Event → ℕ → List ℕ
  pub show_value : Option Value → String  -- %v
  pub show_args : Args → String  -- %v
  pub marshal_args : Args → Option String  -- json.MarshalIndent
  pub quote : String → String  -- %q
  pub to_upper : String → String  -- strings.ToUpper

-- The fields of Agent that do not change once it is started.
pub record Agent : Type 0 where
  pub config : Config
  pub mcp_client : CompositeClient
  pub llm_client : LlmClient
  pub a2a_clients : Assoc Client

pub record State : Type 0 where
  pub conv : Conversation
  -- the files of the storage, in the order of filepath.Glob
  pub files : Assoc Conversation
  pub session : SessionState
  pub llm_clients : Assoc LlmClient
  -- the calls so far, the last one first
  pub trace : List Event
  -- how many identifiers were drawn
  pub draws : ℕ
