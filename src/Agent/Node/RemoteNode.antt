-- ===== src/Agent/Node/RemoteNode.antt =====
-- executeA2ANode of internal/agent/orchestrator.go.
use agent_stop_and_go.Prelude.{
  ℕ, String, Bool, not, ◌&&◌, Option, List, [], ◌∷◌, ◌==◌, concat, lookup, if◌then◌else◌,
}
use agent_stop_and_go.Json.{str}
use agent_stop_and_go.Conversation.{assistant}
use agent_stop_and_go.Mcp.{errorf}
use agent_stop_and_go.Config.{NodeInfo}
use agent_stop_and_go.Session.Template.{resolve_template}
use agent_stop_and_go.Agent.Exec.{Exec, pure, throw, reads, ◌>>=◌, ◌>>◌, try, when_some}
use agent_stop_and_go.Agent.World.{Env, Agent, State}
use agent_stop_and_go.Agent.Effects.{add_message, add_tool_call, send_message}
use agent_stop_and_go.Agent.Messages.{a2a_tool_prefix}
use agent_stop_and_go.Agent.Node.{
  ResumeInfo, NodeResult, responds, paused_here, set_output, tagged, resume_node, Call,
  pause_for_approval, node_task, node_error,
}

module _ (env : Env) (agent : Agent) (call : Call) where
  -- executeA2ANode where it does not resume, with its message
  unfoldable pub a2a_call : NodeInfo → List ℕ → Bool → String → Exec State NodeResult
  a2a_call n path allow message =
      let name = concat (a2a_tool_prefix ∷ n.name ∷ []) in
      let args = ("message", str message) ∷ [] in
      when_some (lookup n.name agent.a2a_clients)
        (λ client. do
          add_tool_call env name args
          if n.destructive_hint && not allow
              then pause_for_approval env agent call n path name args (
                  tagged n.name
                    ("Delegate to A2A agent: " ∷ n.name ∷ "\n\nMessage: " ∷ message ∷ []))
              else try (send_message env call.ctx client message)
                  (λ task.
                    node_task env agent call n path name args n.name client
                      (λ text. do
                        add_message env assistant (tagged n.name (text ∷ []))
                        set_output n.output_key text
                        pure (responds text))
                      task)
                  (λ e.
                    node_error env agent call name (tagged n.name ("A2A error: " ∷ e.text ∷ []))))
        (throw (errorf ("A2A agent not found: " ∷ n.name ∷ [])))

  unfoldable pub execute_a2a_node :
      NodeInfo → List ℕ → Bool → Option ResumeInfo → Exec State NodeResult
  execute_a2a_node n path allow resume =
      when_some (paused_here resume) (λ r. resume_node env n r)
        (do
          resolved ← reads (λ s. resolve_template n.prompt s.session)
          a2a_call n path allow (if n.prompt == "" then call.user_message else resolved))
