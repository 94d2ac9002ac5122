-- ===== src/Tests.antt =====
-- A small agent with a tree, its environment and its conversations, on which the theorems are run.
pub mod Approvals
pub mod Parts
pub mod Files
pub mod Tools
pub mod Handlers
pub mod Resources
pub mod Clients
pub mod Fronts
pub mod Providers
pub mod Remotes
use agent_stop_and_go.Prelude.{
  ℕ, ◌≡◌, ap, subst, String, Bool, true, false, Option, none, some, List, [], ◌∷◌, concat,
}
use agent_stop_and_go.Json.{str}
use agent_stop_and_go.Conversation.{
  Conversation, Draw, new, set_waiting_approval, PendingApproval, PipelineState, waiting_approval,
}
use agent_stop_and_go.Mcp.{Tool, Error, errorf}
use agent_stop_and_go.Mcp.Composite.{CompositeClient, NamedClient}
use agent_stop_and_go.Config.{
  Config, McpServerConfig, NodeInfo, AgentNode, AgentNodes, node, nil, cons,
}
use agent_stop_and_go.A2a.{Client, Task}
use agent_stop_and_go.Llm.{LlmClient, gemini, Response}
use agent_stop_and_go.Agent.World.{
  Env, Agent, State, Context, Event, Outcome, returned, failed, Write, written,
}
use agent_stop_and_go.Agent.Gate.Messages.{OnTree}

abbrev pub remove_tool : Tool
remove_tool = record {
  name = "resources_remove";
  description = "Removes resources.";
  input_schema = record { type = "object"; properties = none; required = none };
  destructive_hint = true;
  server = "resources";
}

abbrev pub list_tool : Tool
list_tool = record remove_tool {
  name = "resources_list";
  description = "Lists resources.";
  destructive_hint = false;
}

abbrev pub named_client : String → List Tool → NamedClient
named_client name tools = record {
  name = name;
  start = λ _. none;
  stop = λ _. none;
  tools = λ _. tools;
}

abbrev pub composite : CompositeClient
composite = record {
  clients =
      named_client "resources" (remove_tool ∷ []) ∷ named_client "lists" (list_tool ∷ []) ∷ [];
  tools = remove_tool ∷ record list_tool { server = "lists" } ∷ [];
  tool_map = ("resources_remove", 0) ∷ ("resources_list", 1) ∷ [];
  started = true;
}

abbrev pub helper : Client
helper = record {
  name = "helper";
  url = "http://helper";
  description = "Helps.";
  destructive_hint = false;
}

abbrev pub plain_node : NodeInfo
plain_node = record {
  name = "planner";
  type = "llm";
  model = "";
  prompt = "Plan.";
  output_key = "plan";
  can_exit_loop = false;
  max_iterations = 0;
  url = "";
  description = "";
  destructive_hint = false;
  a2a = [];
}

abbrev pub tree : AgentNode
tree =
    node (record plain_node { name = "pipeline"; type = "sequential" })
      (cons (node plain_node nil) (
        cons (node (record plain_node { name = "helper"; type = "a2a"; url = "http://helper" }) nil)
          nil))

abbrev pub configuration : Config
configuration = record {
  name = "agent";
  description = "";
  prompt = "Help.";
  host = "";
  port = 0;
  data_dir = "";
  model = "";
  mcp_servers = record { name = "resources"; url = ""; command = "r"; args = [] } ∷ [];
  a2a = [];
  agent = some tree;
}

abbrev pub agent : Agent
agent = record {
  config = configuration;
  mcp_client = composite;
  llm_client = gemini "flash" "key";
  a2a_clients = ("helper", helper) ∷ [];
}

abbrev pub ctx : Context
ctx = record { bearer_token = "token"; session_id = "" }

-- The model always wants to remove resources, and the other agent always wants an approval.
abbrev pub env : Env
env = record {
  draw = λ n. record { id = "id"; created = n; updated = n };
  getenv = λ _. "";
  generate = λ _. returned (record {
    text = "";
    tool_call = some (record { name = "resources_remove"; arguments = ("id", str "7") ∷ [] });
  });
  call_tool = λ _. failed (errorf ("no server" ∷ []));
  send_message = λ _. failed (errorf ("no agent" ∷ []));
  continue_task = λ _.
      returned (record {
        id = "task";
        state = "input-required";
        message = some "Really?";
        artifact = none;
      });
  write = λ _. written;
  schedule = λ _ n. 0 ∷ [];
  show_value = λ _. "value";
  show_args = λ _. "args";
  marshal_args = λ _. none;
  quote = λ s. s;
  to_upper = λ s. s;
}

abbrev pub draw : Draw
draw = record { id = "c1"; created = 1; updated = 2 }

abbrev pub fresh : Conversation
fresh = new draw "m1" "Help." "session"

-- The approval of a tool here, and one that stands for a remote agent's.
abbrev pub approval : PendingApproval
approval = record {
  uuid = "a1";
  conversation_id = "c1";
  tool_name = "resources_remove";
  tool_args = ("id", str "7") ∷ [];
  description = "Remove 7?";
  remote_task_id = "";
  remote_agent_name = "";
  created_at = 3;
}

abbrev pub remote : PendingApproval
remote = record approval { remote_task_id = "task"; remote_agent_name = "helper" }

abbrev pub paused : PipelineState
paused = record {
  paused_node_path = 0 ∷ [];
  paused_node_output_key = "plan";
  session_state = [];
  user_message = "Remove 7.";
}

abbrev pub waiting : PendingApproval → Conversation
waiting a = record {
  id = "c1";
  session_id = "session";
  status = waiting_approval;
  messages = [];
  pending_approval = some a;
  pipeline_state = some paused;
  created_at = 1;
  updated_at = 2;
}

abbrev pub state_of : Conversation → State
state_of c = record {
  conv = c;
  files = ("c1", c) ∷ [];
  session = [];
  llm_clients = [];
  trace = [];
  draws = 0;
}

the_root : Option AgentNode → AgentNode
the_root none = tree
the_root (some root) = root

pub on_tree : (Q : AgentNode → Type 0) → Q tree → OnTree agent Q
unfolding the_root
on_tree Q q root e = subst Q (ap the_root e) q
