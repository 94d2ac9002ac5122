-- ===== src/Agent/Node.antt =====
-- What the leaves of the agent tree share: executeLLMNode and executeA2ANode of
-- internal/agent/orchestrator.go are the modules below.
pub mod LlmNode
pub mod RemoteNode
use agent_stop_and_go.Prelude.{
  ℕ, String, Bool, true, false, not, ◌&&◌, Option, none, some, List, [], ◌∷◌, ◌==◌, concat, lookup,
  insert, has_prefix, trim_prefix, if◌then◌else◌,
}
use agent_stop_and_go.Json.{Args, str, string_arg}
use agent_stop_and_go.Conversation.{PendingApproval, assistant}
use agent_stop_and_go.Mcp.{errorf, wrap, Tool, first_text}
use agent_stop_and_go.Mcp.Composite.{get_tool}
use agent_stop_and_go.Config.{NodeInfo}
use agent_stop_and_go.A2a.{Client, Task, extract_task_text}
use agent_stop_and_go.Llm.{LlmClient, LlmToolCall, made, failed, new_client}
use agent_stop_and_go.Session
use agent_stop_and_go.Session.{snapshot}
use agent_stop_and_go.Session.Template.{resolve_template}
use agent_stop_and_go.Agent.Exec.{Exec, ok, pure, throw, panics, reads, ◌>>=◌, ◌>>◌, try, when_some}
use agent_stop_and_go.Agent.World.{Env, Agent, State, Context}
use agent_stop_and_go.Agent.Effects.{
  add_message, add_tool_call, add_tool_result, set_waiting_approval, set_remote, set_pipeline_state,
  save, generate_with_tools, call_tool, send_message, set_session,
}
use agent_stop_and_go.Agent.Messages.{a2a_tool_prefix, get_node_tools, format_approval_description}
use agent_stop_and_go.Agent.Simple.{or_text}

pub record ResumeInfo : Type 0 where
  pub path : List ℕ
  pub tool_result : String
  pub paused_node_output_key : String

pub record NodeResult : Type 0 where
  pub response : String
  pub waiting_approval : Bool
  pub approval : Option PendingApproval
  pub exit_loop : Bool
  pub auth_required : Bool

-- &NodeResult{Response: text}
abbrev pub responds : String → NodeResult
responds text = record {
  response = text;
  waiting_approval = false;
  approval = none;
  exit_loop = false;
  auth_required = false;
}

-- resume != nil && len(resume.Path) == 0: the node at hand is the paused one.
unfoldable pub paused_here : Option ResumeInfo → Option ResumeInfo
paused_here none = none
paused_here (some r) = elim r.path [ [] ↦ some r | i ∷ rest ↦ none ]

-- if key != "" { state.Set(key, value) }
unfoldable pub set_output : String → String → Exec State (Unit {0})
set_output key value =
    if key == "" then pure tt else set_session (λ state. Session.set state key value)

-- "[name] ..."
abbrev pub tagged : String → List String → String
tagged name pieces = concat ("[" ∷ name ∷ "] " ∷ pieces)

-- The resumed node stores the tool's result and returns it.
unfoldable pub resume_node : Env → NodeInfo → ResumeInfo → Exec State NodeResult
resume_node env n r = do
  set_output r.paused_node_output_key r.tool_result
  add_message env assistant (tagged n.name ("Operation completed: " ∷ r.tool_result ∷ []))
  pure (responds r.tool_result)

-- getLLMClient
unfoldable pub get_llm_client : Env → Agent → String → Exec State LlmClient
get_llm_client env agent model s =
    let name = if model == "" then agent.config.model else model in
    elim (lookup name s.llm_clients) [
      | some client ↦ (ok client, s)
      | none ↦ elim (new_client env.getenv name) [
        | failed e ↦ throw e s
        | made client ↦ (ok client, record s { llm_clients = insert name client s.llm_clients })
      ]
    ]

-- The fixed data of one call of executeNode.
pub record Call : Type 0 where
  pub ctx : Context
  pub user_message : String

module _ (env : Env) (agent : Agent) (call : Call) where
  -- The assistant says the text, which is the node's response.
  unfoldable pub say : String → Exec State NodeResult
  say text = do add_message env assistant text; pure (responds text)

  unfoldable pub say_auth : String → Exec State NodeResult
  say_auth text = do
    add_message env assistant text
    pure (record {
      response = text;
      waiting_approval = false;
      approval = none;
      exit_loop = false;
      auth_required = true;
    })

  unfoldable pub pause_for_approval :
      NodeInfo → List ℕ → String → Args → String → Exec State NodeResult
  pause_for_approval n path name args description = do
    approval ← set_waiting_approval env name args description
    session ← reads (λ s. snapshot s.session)
    set_pipeline_state env (
        some (record {
          paused_node_path = path;
          paused_node_output_key = n.output_key;
          session_state = session;
          user_message = call.user_message;
        }))
    let response = concat (
        "This action requires approval:\n\n" ∷ description ∷ "\n\nApproval UUID: " ∷ approval.uuid
        ∷ [])
    add_message env assistant response
    save env
    pure (record {
      response = response;
      waiting_approval = true;
      approval = some approval;
      exit_loop = false;
      auth_required = false;
    })

  -- The pause for a sub-agent's approval, saved once more with the remote task in it.
  unfoldable pub proxy_for_approval :
      NodeInfo → List ℕ → String → Args → String → Client → Task → Exec State NodeResult
  proxy_for_approval n path name args description client task = do
    result ← pause_for_approval n path name args description
    when_some result.approval
        (λ opened. do
          approval ← set_remote env opened task.id client.name
          save env
          pure (record result { approval = some approval }))
        panics

  -- The tail that an LLM node and an A2A node share: `describe` is the text of a proxy approval, and
  -- `done` what the node does with the text of a task that has ended.
  unfoldable pub node_task :
      NodeInfo
      → List ℕ
      → String
      → Args
      → String
      → Client
      → (String → Exec State NodeResult)
      → Task
      → Exec State NodeResult
  node_task n path name args agent_name client done task =
      if task.state == "input-required"
      then proxy_for_approval n path name args
          (tagged n.name ("Proxy approval for A2A agent: " ∷ agent_name ∷ [])) client task
      else if task.state == "auth-required"
      then say_auth (
          or_text task.message
            (tagged n.name ("Authentication required by A2A agent " ∷ agent_name ∷ "." ∷ [])))
      else (do
        let result_text = extract_task_text task
        add_tool_result env name result_text (task.state == "failed")
        done result_text)

  -- A failed call that the LLM does not see again: its text is the node's response.
  unfoldable pub node_error : String → String → Exec State NodeResult
  node_error name text = do add_tool_result env name text true; pure (responds text)
