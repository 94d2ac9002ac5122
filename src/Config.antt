-- ===== src/Config.antt =====
-- internal/config/config.go: the parsed agent.yaml, and what Load does to it after the parse.
pub mod Loading
use agent_stop_and_go.Prelude.{
  ℕ, zero, suc, String, Bool, true, false, Option, none, some, List, [], ◌∷◌, Assoc, lookup, insert,
  ◌==◌, nat_eq, if◌then◌else◌, concat,
}
use agent_stop_and_go.Mcp.{Error, errorf}

pub record McpServerConfig : Type 0 where
  pub name : String
  pub url : String
  pub command : String
  pub args : List String

pub record A2aAgent : Type 0 where
  pub name : String
  pub url : String
  pub description : String
  pub destructive_hint : Bool

-- The fields of an AgentNode but for its children.
pub record NodeInfo : Type 0 where
  pub name : String
  pub type : String
  pub model : String
  pub prompt : String
  pub output_key : String
  pub can_exit_loop : Bool
  pub max_iterations : ℕ
  pub url : String
  pub description : String
  pub destructive_hint : Bool
  pub a2a : List A2aAgent

mutual
  pub data AgentNode : Type 0 where
    node : NodeInfo → AgentNodes → AgentNode

  pub data AgentNodes : Type 0 where
    nil : AgentNodes
    cons : AgentNode → AgentNodes → AgentNodes

pub record Config : Type 0 where
  pub name : String
  pub description : String
  pub prompt : String
  pub host : String
  pub port : ℕ
  pub data_dir : String
  pub model : String  -- llm.model
  pub mcp_servers : List McpServerConfig
  pub a2a : List A2aAgent
  pub agent : Option AgentNode

-- validateMCPServers, from entry i on; `show` is `%d`, and `%q` is left as the name.
unfoldable pub validate_from : (ℕ → String) → ℕ → Assoc Bool → List McpServerConfig → Option Error
unfolding lookup
validate_from show i seen [] = none
validate_from show i seen (s ∷ rest) =
    let continue = validate_from show (suc i) (insert s.name true seen) rest in
    if s.name == ""
    then some (errorf ("mcp_servers[" ∷ show i ∷ "]: name is required" ∷ []))
    else elim (lookup s.name seen) [
      | some _ ↦ some (errorf ("mcp_servers: duplicate name " ∷ s.name ∷ []))
      | none ↦ continue
    ]

unfoldable pub validate_mcp_servers : (ℕ → String) → List McpServerConfig → Option Error
unfolding validate_from
validate_mcp_servers show servers = validate_from show 0 [] servers

abbrev or_default : String → String → String
or_default s d = if s == "" then d else s

-- The defaults of Load.
unfoldable pub with_defaults : Config → Config
with_defaults cfg = record cfg {
  name = or_default cfg.name "agent";
  host = or_default cfg.host "0.0.0.0";
  port = if nat_eq cfg.port 0 then 8080 else cfg.port;
  data_dir = or_default cfg.data_dir "./data";
  model = or_default cfg.model "google:gemini-2.5-flash";
}

-- The agent node that Load makes of the top-level fields.
unfoldable pub default_node : Config → AgentNode
default_node cfg =
    node
      (record {
        name = cfg.name;
        type = "llm";
        model = cfg.model;
        prompt = cfg.prompt;
        output_key = "";
        can_exit_loop = false;
        max_iterations = 0;
        url = "";
        description = "";
        destructive_hint = false;
        a2a = cfg.a2a;
      })
      nil

-- Load, behind the read and the parse of the file.
unfoldable pub load : (ℕ → String) → Config → Option Error × Config
unfolding validate_mcp_servers with_defaults default_node
load show parsed =
    let cfg = with_defaults parsed in
    elim (validate_mcp_servers show cfg.mcp_servers) [
      | some e ↦ (some e, cfg)
      | none ↦ (
        none,
        record cfg { agent = elim cfg.agent [ none ↦ some (default_node cfg) | some n ↦ some n ] },
      )
    ]
