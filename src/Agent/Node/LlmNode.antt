-- ===== src/Agent/Node/LlmNode.antt =====
-- executeLLMNode of internal/agent/orchestrator.go.
use agent_stop_and_go.Prelude.{
  ℕ, String, Bool, true, not, ◌&&◌, Option, List, [], ◌∷◌, ◌==◌, concat, lookup, has_prefix,
  trim_prefix, if◌then◌else◌,
}
use agent_stop_and_go.Json.{Args, string_arg}
use agent_stop_and_go.Conversation.{assistant}
use agent_stop_and_go.Mcp.{wrap, Tool, first_text}
use agent_stop_and_go.Mcp.Composite.{get_tool}
use agent_stop_and_go.Config.{NodeInfo}
use agent_stop_and_go.Llm.{LlmToolCall}
use agent_stop_and_go.Session.Template.{resolve_template}
use agent_stop_and_go.Agent.Exec.{Exec, pure, throw, reads, ◌>>=◌, ◌>>◌, try, when_some}
use agent_stop_and_go.Agent.World.{Env, Agent, State}
use agent_stop_and_go.Agent.Effects.{
  add_message, add_tool_call, add_tool_result, generate_with_tools, call_tool, send_message,
}
use agent_stop_and_go.Agent.Messages.{a2a_tool_prefix, get_node_tools, format_approval_description}
use agent_stop_and_go.Agent.Node.{
  ResumeInfo, NodeResult, responds, paused_here, set_output, tagged, resume_node, get_llm_client,
  Call, say, say_auth, pause_for_approval, node_task, node_error,
}

module _ (env : Env) (agent : Agent) (call : Call) where
  -- The A2A branch of executeLLMNode.
  unfoldable pub llm_a2a : NodeInfo → List ℕ → Bool → String → Args → Exec State NodeResult
  llm_a2a n path allow name args =
      let agent_name = trim_prefix name a2a_tool_prefix in
      when_some (lookup agent_name agent.a2a_clients)
        (λ client.
          if client.destructive_hint && not allow
          then pause_for_approval env agent call n path name args
              (tagged n.name ("Delegate to A2A agent: " ∷ agent_name ∷ []))
          else (do
            add_tool_call env name args
            try (send_message env call.ctx client (string_arg args "message"))
                (λ task.
                  node_task env agent call n path name args agent_name client
                    (λ text. do set_output n.output_key text; pure (responds text)) task)
                (λ e.
                  node_error env agent call name (tagged n.name ("A2A error: " ∷ e.text ∷ [])))))
        (say env agent call (tagged n.name ("A2A agent not found: " ∷ agent_name ∷ [])))

  unfoldable pub run_node_tool : NodeInfo → String → Args → Tool → Exec State NodeResult
  run_node_tool n name args tool = do
    add_tool_call env name args
    try (call_tool env call.ctx agent.mcp_client name args)
        (λ result. do
          let text = first_text result.content
          add_tool_result env name text result.is_error
          add_message env assistant (tagged n.name (text ∷ []))
          set_output n.output_key text
          pure (responds text))
        (λ e.
          if e.auth_required
          then say_auth env agent call (
              tagged n.name
                ("Authentication required to access the " ∷ tool.server ∷ " server." ∷ []))
          else node_error env agent call name
              (tagged n.name ("Tool execution failed: " ∷ e.text ∷ [])))

  -- The MCP branch of executeLLMNode.
  unfoldable pub llm_mcp : NodeInfo → List ℕ → Bool → String → Args → Exec State NodeResult
  llm_mcp n path allow name args =
      when_some (get_tool agent.mcp_client name)
        (λ tool.
          if tool.destructive_hint && not allow
          then (do
            add_tool_call env tool.name args
            pause_for_approval env agent call n path tool.name args
                (format_approval_description env tool.name args))
          else run_node_tool n name args tool)
        (say env agent call (tagged n.name ("Tool not found: " ∷ name ∷ [])))

  unfoldable pub llm_tool : NodeInfo → List ℕ → Bool → LlmToolCall → Exec State NodeResult
  llm_tool n path allow tool_call =
      if tool_call.name == "exit_loop"
      then (do
        add_message env assistant (tagged n.name ("exit_loop called" ∷ []))
        pure (record (responds "") { exit_loop = true }))
      else if has_prefix tool_call.name a2a_tool_prefix
      then llm_a2a n path allow tool_call.name tool_call.arguments
      else llm_mcp n path allow tool_call.name tool_call.arguments

  unfoldable pub llm_text : NodeInfo → String → Exec State NodeResult
  llm_text n text = do
    add_message env assistant (tagged n.name (text ∷ []))
    set_output n.output_key text
    pure (responds text)

  -- executeLLMNode where it does not resume
  unfoldable pub llm_call : NodeInfo → List ℕ → Bool → Exec State NodeResult
  llm_call n path allow = do
    prompt ← reads (λ s. resolve_template n.prompt s.session)
    try (get_llm_client env agent n.model)
        (λ client.
          try
            (generate_with_tools env call.ctx client prompt
              (record { role = "user"; content = call.user_message } ∷ []) (get_node_tools agent n))
            (λ response.
              when_some response.tool_call (λ tool_call. llm_tool n path allow tool_call)
                (llm_text n response.text))
            (λ e. say env agent call (tagged n.name ("LLM error: " ∷ e.text ∷ []))))
        (λ e. throw (wrap (concat ("LLM client error for node " ∷ n.name ∷ [])) e))

  unfoldable pub execute_llm_node :
      NodeInfo → List ℕ → Bool → Option ResumeInfo → Exec State NodeResult
  execute_llm_node n path allow resume =
      when_some (paused_here resume) (λ r. resume_node env n r) (llm_call n path allow)
