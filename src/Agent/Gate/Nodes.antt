-- ===== src/Agent/Gate/Nodes.antt =====
-- The calls of the leaves of the agent tree.
use agent_stop_and_go.Prelude.{ℕ, String, ◌≡◌, Bool, false, not, ◌&&◌, Option, some, List, lookup}
use agent_stop_and_go.Json.{Args}
use agent_stop_and_go.Mcp.{Tool}
use agent_stop_and_go.Mcp.Composite.{get_tool}
use agent_stop_and_go.Config.{NodeInfo}
use agent_stop_and_go.A2a.{Client, Task}
use agent_stop_and_go.Llm.{LlmToolCall}
use agent_stop_and_go.Agent.Exec.{Exec}
use agent_stop_and_go.Agent.Exec.Keeps.{
  Keeps, keeps_rules, Keeps-if, Keeps-when_some, Keeps-bind, Keeps-try, Keeps-pure, Keeps-throw,
}
use agent_stop_and_go.Agent.World.{Env, Agent, State, Event, message_sent}
use agent_stop_and_go.Agent.Trace.{
  Adds, Adds-IsPreorder, add_message-Adds, add_tool_call-Adds, add_tool_result-Adds,
  set_waiting_approval-Adds, set_remote-Adds, set_pipeline_state-Adds, ask-Adds, save-Adds,
  call_tool-Adds, set_session-Adds, get_llm_client-Adds,
}
use agent_stop_and_go.Agent.Effects.{generate_with_tools, send_message}
use agent_stop_and_go.Agent.Node.{
  ResumeInfo, NodeResult, Call, set_output, resume_node, say, say_auth, pause_for_approval,
  proxy_for_approval, node_task, node_error,
}
use agent_stop_and_go.Agent.Node.LlmNode.{
  llm_a2a, run_node_tool, llm_mcp, llm_tool, llm_text, llm_call, execute_llm_node,
}
use agent_stop_and_go.Agent.Node.RemoteNode.{a2a_call, execute_a2a_node}
use agent_stop_and_go.Agent.Gate.{Permits}

pub set_output-Adds :
    {P : Event → Type 0} (key value : String) → Keeps (Adds P) (set_output key value)
unfolding set_output
set_output-Adds {P} key value = search (Keeps-if, Keeps-pure (Adds-IsPreorder P), set_session-Adds)

module _ (env : Env) (agent : Agent) (call : Call) {allow : Bool} {P : Event → Type 0}
    (p : Permits agent call.ctx allow P) where
  resume_node-Adds : (n : NodeInfo) (r : ResumeInfo) → Keeps (Adds P) (resume_node env n r)
  unfolding resume_node
  resume_node-Adds n r = search (keeps_rules, Adds-IsPreorder, set_output-Adds, add_message-Adds)

  say-Adds : (text : String) → Keeps (Adds P) (say env agent call text)
  unfolding say
  say-Adds text = search (keeps_rules, Adds-IsPreorder, add_message-Adds)

  say_auth-Adds : (text : String) → Keeps (Adds P) (say_auth env agent call text)
  unfolding say_auth
  say_auth-Adds text = search (keeps_rules, Adds-IsPreorder, add_message-Adds)

  pause_for_approval-Adds :
      (n : NodeInfo) (path : List ℕ) (name : String) (args : Args) (description : String)
      → Keeps (Adds P) (pause_for_approval env agent call n path name args description)
  unfolding pause_for_approval
  pause_for_approval-Adds n path name args description =
      search
        (
          keeps_rules, Adds-IsPreorder, set_waiting_approval-Adds, set_pipeline_state-Adds,
          add_message-Adds, save-Adds, p.saves,
        )
        depth 8

  proxy_for_approval-Adds :
      (n : NodeInfo) (path : List ℕ) (name : String) (args : Args) (description : String)
      (client : Client) (task : Task)
      → Keeps (Adds P) (proxy_for_approval env agent call n path name args description client task)
  unfolding proxy_for_approval
  proxy_for_approval-Adds n path name args description client task =
      search
        (keeps_rules, Adds-IsPreorder, pause_for_approval-Adds, set_remote-Adds, save-Adds, p.saves)
        depth 7

  node_task-Adds :
      (n : NodeInfo) (path : List ℕ) (name : String) (args : Args) (agent_name : String)
      (client : Client) (done : String → Exec State NodeResult) (task : Task)
      → ((text : String) → Keeps (Adds P) (done text))
      → Keeps (Adds P) (node_task env agent call n path name args agent_name client done task)
  unfolding node_task
  node_task-Adds n path name args agent_name client done task d = search (
    keeps_rules, Adds-IsPreorder, proxy_for_approval-Adds, say_auth-Adds, add_tool_result-Adds, d,
  )

  node_error-Adds : (name text : String) → Keeps (Adds P) (node_error env agent call name text)
  unfolding node_error
  node_error-Adds name text = search (keeps_rules, Adds-IsPreorder, add_tool_result-Adds)

  send_message-Adds :
      (key : String) (client : Client) (message : String)
      → lookup key agent.a2a_clients ≡ some client
      → (client.destructive_hint && not allow) ≡ false
      → Keeps (Adds P) (send_message env call.ctx client message)
  unfolding send_message
  send_message-Adds key client message found safe =
      ask-Adds env _ _ (p.sends key client message found safe)

  llm_a2a-Adds :
      (n : NodeInfo) (path : List ℕ) (name : String) (args : Args)
      → Keeps (Adds P) (llm_a2a env agent call n path allow name args)
  unfolding llm_a2a
  llm_a2a-Adds n path name args =
      Keeps-when_some _ _ _
        (λ client found.
          Keeps-if (client.destructive_hint && not allow) _ _
            (λ _. pause_for_approval-Adds _ _ _ _ _)
            (λ safe.
              search
                (
                  keeps_rules,
                  Adds-IsPreorder,
                  add_tool_call-Adds,
                  send_message-Adds _ client _ found safe,
                  node_task-Adds,
                  node_error-Adds,
                  set_output-Adds,
                )
                depth 7))
        (λ _. say-Adds _)

  run_node_tool-Adds :
      (n : NodeInfo) (name : String) (args : Args) (tool : Tool)
      → get_tool agent.mcp_client name ≡ some tool
      → (tool.destructive_hint && not allow) ≡ false
      → Keeps (Adds P) (run_node_tool env agent call n name args tool)
  unfolding run_node_tool
  run_node_tool-Adds n name args tool found safe =
      search
        (
          keeps_rules,
          Adds-IsPreorder,
          add_tool_call-Adds,
          call_tool-Adds,
          add_tool_result-Adds,
          add_message-Adds,
          set_output-Adds,
          say_auth-Adds,
          node_error-Adds,
          λ (i : ℕ). p.calls name args tool i found safe,
        )
        depth 8

  llm_mcp-Adds :
      (n : NodeInfo) (path : List ℕ) (name : String) (args : Args)
      → Keeps (Adds P) (llm_mcp env agent call n path allow name args)
  unfolding llm_mcp
  llm_mcp-Adds n path name args =
      Keeps-when_some _ _ _
        (λ tool found.
          Keeps-if (tool.destructive_hint && not allow) _ _
            (λ _.
              search (keeps_rules, Adds-IsPreorder, add_tool_call-Adds, pause_for_approval-Adds))
            (λ safe. run_node_tool-Adds n _ _ tool found safe))
        (λ _. say-Adds _)

  llm_tool-Adds :
      (n : NodeInfo) (path : List ℕ) (tool_call : LlmToolCall)
      → Keeps (Adds P) (llm_tool env agent call n path allow tool_call)
  unfolding llm_tool
  llm_tool-Adds n path tool_call =
      search (keeps_rules, Adds-IsPreorder, add_message-Adds, llm_a2a-Adds, llm_mcp-Adds)

  llm_text-Adds : (n : NodeInfo) (text : String) → Keeps (Adds P) (llm_text env agent call n text)
  unfolding llm_text
  llm_text-Adds n text = search (keeps_rules, Adds-IsPreorder, add_message-Adds, set_output-Adds)

  llm_call-Adds :
      (n : NodeInfo) (path : List ℕ) → Keeps (Adds P) (llm_call env agent call n path allow)
  unfolding llm_call generate_with_tools
  llm_call-Adds n path =
      search
        (
          keeps_rules, Adds-IsPreorder, get_llm_client-Adds, ask-Adds, p.generates, llm_tool-Adds,
          llm_text-Adds, say-Adds,
        )
        depth 7

  pub execute_llm_node-Adds :
      (n : NodeInfo) (path : List ℕ) (resume : Option ResumeInfo)
      → Keeps (Adds P) (execute_llm_node env agent call n path allow resume)
  unfolding execute_llm_node
  execute_llm_node-Adds n path resume = search (keeps_rules, resume_node-Adds, llm_call-Adds)

  node_message-Adds :
      (client : Client) (message : String)
      → P (message_sent call.ctx client message)
      → Keeps (Adds P) (send_message env call.ctx client message)
  unfolding send_message
  node_message-Adds client message h = ask-Adds env _ _ h

  a2a_call-Adds :
      (n : NodeInfo) (path : List ℕ) (message : String)
      → ((c : Client) (m : String)
          → lookup n.name agent.a2a_clients ≡ some c
          → (n.destructive_hint && not allow) ≡ false
          → P (message_sent call.ctx c m))
      → Keeps (Adds P) (a2a_call env agent call n path allow message)
  unfolding a2a_call
  a2a_call-Adds n path message agrees =
      Keeps-when_some _ _ _
        (λ client found. Keeps-bind (Adds-IsPreorder P) _ _ (add_tool_call-Adds _ _ _) (λ _.
          Keeps-if (n.destructive_hint && not allow) _ _ (λ _. pause_for_approval-Adds _ _ _ _ _)
            (λ safe.
              Keeps-try (Adds-IsPreorder P) _ _ _
                (node_message-Adds client message (agrees client message found safe))
                (λ task. node_task-Adds _ _ _ _ _ _ _ _ (λ text.
                  search (keeps_rules, Adds-IsPreorder, set_output-Adds, add_message-Adds)))
                (λ e. node_error-Adds _ _))))
        (λ _. Keeps-throw (Adds-IsPreorder P) _)

  pub execute_a2a_node-Adds :
      (n : NodeInfo) (path : List ℕ) (resume : Option ResumeInfo)
      → ((c : Client) (m : String)
          → lookup n.name agent.a2a_clients ≡ some c
          → (n.destructive_hint && not allow) ≡ false
          → P (message_sent call.ctx c m))
      → Keeps (Adds P) (execute_a2a_node env agent call n path allow resume)
  unfolding execute_a2a_node
  execute_a2a_node-Adds n path resume agrees = search (
    keeps_rules,
    Adds-IsPreorder,
    resume_node-Adds,
    λ (m : String). a2a_call-Adds n path m agrees,
  )
