-- ===== src/Agent/Approval.antt =====
-- ResolveApproval of internal/agent/agent.go, a branch at a time.
pub mod Pauses
use agent_stop_and_go.Prelude.{
  String, Bool, true, false, not, ◌&&◌, Option, none, some, [], ◌∷◌, ◌==◌, concat, lookup,
  has_prefix, trim_prefix, if◌then◌else◌,
}
use agent_stop_and_go.Json.{string_arg}
use agent_stop_and_go.Conversation.{Conversation, PendingApproval, PipelineState, user, assistant}
use agent_stop_and_go.Mcp.{Error, errorf, wrap, first_text}
use agent_stop_and_go.Mcp.Composite.{get_tool}
use agent_stop_and_go.A2a.{Client, Task, extract_task_text}
use agent_stop_and_go.Session
use agent_stop_and_go.Session.{new_session_state}
use agent_stop_and_go.Storage.{Found, found, missing, find_conversation_by_approval_uuid}
use agent_stop_and_go.Agent.Exec.{Exec, err, pure, throw, reads, ◌>>=◌, ◌>>◌, try, when_some}
use agent_stop_and_go.Agent.World.{Env, Agent, State, Context}
use agent_stop_and_go.Agent.Effects.{
  add_message, add_tool_result, set_waiting_approval, set_remote, resolve_approval,
  set_pipeline_state, save, save_or_not, call_tool, send_message, continue_task, set_session,
}
use agent_stop_and_go.Agent.Messages.{a2a_tool_prefix, approval_request}
use agent_stop_and_go.Agent.Simple.{
  ProcessResult, answer, waiting, needs_auth, or_text, proxy_description, process_simple_message,
}
use agent_stop_and_go.Agent.Node.{set_output}
use agent_stop_and_go.Agent.Process.{enrich, execute_root, process_result}

-- remoteTaskID != "" && remoteAgentName != ""
abbrev pub is_proxy : PendingApproval → Bool
is_proxy a = not (a.remote_task_id == "") && not (a.remote_agent_name == "")

module _ (env : Env) (agent : Agent) (ctx : Context) where
  -- The rejection is forwarded to the remote agent; what comes back is not looked at.
  unfoldable pub forward_rejection : PendingApproval → Exec State (Unit {0})
  forward_rejection a =
      if is_proxy a
      then when_some (lookup a.remote_agent_name agent.a2a_clients)
          (λ client.
            try (continue_task env ctx client a.remote_task_id "rejected") (λ _. pure tt)
              (λ _. pure tt))
          (pure tt)
      else pure tt

  unfoldable pub reject : PendingApproval → Exec State ProcessResult
  reject a = do
    add_message env user "[APPROVAL]: Rejected"
    add_message env assistant "Operation cancelled by user."
    save env
    forward_rejection a
    pure (answer "Operation cancelled by user.")

  -- The remote agent asks for another approval.
  unfoldable pub proxy_again : PendingApproval → Client → Task → Exec State ProcessResult
  proxy_again a client task = do
    opened ← set_waiting_approval env a.tool_name a.tool_args (proxy_description client task)
    approval ← set_remote env opened task.id client.name
    let response = approval_request (proxy_description client task) approval.uuid
    add_message env assistant response
    save env
    pure (waiting response approval)

  -- The end of a request that needs a token: the save may fail.
  unfoldable pub ask_for_auth : String → Exec State ProcessResult
  ask_for_auth text = do add_message env assistant text; save_or_not env; pure (needs_auth text)

  -- executeNode from the paused node on, with the pipeline's own session state.
  unfoldable pub resume_pipeline : PipelineState → String → Exec State ProcessResult
  resume_pipeline p result = do
    node_result ←
        execute_root env agent (record { ctx = ctx; user_message = p.user_message })
          (some (record {
            path = p.paused_node_path;
            tool_result = result;
            paused_node_output_key = p.paused_node_output_key;
          }))
    save env
    pure (process_result node_result)

  -- The remote task has ended: its text is the tool's result.
  unfoldable pub proxy_done :
      PendingApproval → Option PipelineState → Task → Exec State ProcessResult
  proxy_done a pipeline task = do
    let text = extract_task_text task
    add_tool_result env a.tool_name text (task.state == "failed")
    when_some pipeline
        (λ p. do
          set_session (λ _. Session.load new_session_state p.session_state)
          set_output p.paused_node_output_key text
          resume_pipeline p text)
        (process_simple_message env agent ctx)

  unfoldable pub after_proxy :
      PendingApproval → Option PipelineState → Client → Task → Exec State ProcessResult
  after_proxy a pipeline client task =
      if task.state == "input-required"
      then proxy_again a client task
      else if task.state == "auth-required"
      then ask_for_auth (
          or_text task.message
            (concat ("Authentication required by A2A agent " ∷ client.name ∷ "." ∷ [])))
      else proxy_done a pipeline task

  -- The approval is forwarded to the remote agent.
  unfoldable pub approve_proxy : PendingApproval → Option PipelineState → Exec State ProcessResult
  approve_proxy a pipeline =
      when_some (lookup a.remote_agent_name agent.a2a_clients)
        (λ client.
          try (continue_task env ctx client a.remote_task_id "approved")
            (λ task. after_proxy a pipeline client task)
            (λ e. throw (wrap "proxy approval failed" e)))
        (throw (errorf ("A2A agent not found for proxy approval: " ∷ a.remote_agent_name ∷ [])))

  -- The server that a tool belongs to, or the tool's own name.
  abbrev server_of : String → String
  server_of name = when_some (get_tool agent.mcp_client name) (λ tool. tool.server) name

  unfoldable pub no_access : String → Exec State ProcessResult
  no_access name =
      ask_for_auth
        (concat ("Authentication required to access the " ∷ server_of name ∷ " server." ∷ []))

  -- No pipeline: the approved A2A call, and the loop goes on.
  unfoldable pub simple_a2a : PendingApproval → Exec State ProcessResult
  simple_a2a a =
      let agent_name = trim_prefix a.tool_name a2a_tool_prefix in
      when_some (lookup agent_name agent.a2a_clients)
        (λ client. do
          try (send_message env ctx client (string_arg a.tool_args "message"))
              (λ task.
                add_tool_result env a.tool_name (extract_task_text task) (task.state == "failed"))
              (λ e. add_tool_result env a.tool_name (concat ("A2A error: " ∷ e.text ∷ [])) true)
          process_simple_message env agent ctx)
        (throw (errorf ("A2A agent not found: " ∷ agent_name ∷ [])))

  -- No pipeline: the approved MCP call, and the loop goes on unless a token is needed.
  unfoldable pub simple_mcp : PendingApproval → Exec State ProcessResult
  simple_mcp a =
      try (call_tool env ctx agent.mcp_client a.tool_name a.tool_args)
        (λ result. do
          add_tool_result env a.tool_name (first_text result.content) result.is_error
          process_simple_message env agent ctx)
        (λ e. if e.auth_required then no_access a.tool_name else (do
          add_tool_result env a.tool_name (concat ("Tool execution failed: " ∷ e.text ∷ [])) true
          process_simple_message env agent ctx))

  -- The result of the approved tool goes into the pipeline, which resumes.
  unfoldable pub pipeline_result :
      PendingApproval → PipelineState → String → Bool → Exec State ProcessResult
  pipeline_result a p text is_error = do
    add_tool_result env a.tool_name text is_error
    set_session (λ _. Session.load new_session_state p.session_state)
    resume_pipeline p text

  unfoldable pub pipeline_a2a : PendingApproval → PipelineState → Exec State ProcessResult
  pipeline_a2a a p =
      let agent_name = trim_prefix a.tool_name a2a_tool_prefix in
      when_some (lookup agent_name agent.a2a_clients)
        (λ client.
          try (send_message env ctx client (string_arg a.tool_args "message"))
            (λ task. pipeline_result a p (extract_task_text task) (task.state == "failed"))
            (λ e. throw (wrap "A2A execution failed" e)))
        (throw (errorf ("A2A agent not found: " ∷ agent_name ∷ [])))

  unfoldable pub pipeline_mcp : PendingApproval → PipelineState → Exec State ProcessResult
  pipeline_mcp a p =
      try (call_tool env ctx agent.mcp_client a.tool_name a.tool_args)
        (λ result. pipeline_result a p (first_text result.content) result.is_error)
        (λ e.
          if e.auth_required then no_access a.tool_name else throw (wrap "tool execution failed" e))

  unfoldable pub approve_direct : PendingApproval → Option PipelineState → Exec State ProcessResult
  approve_direct a pipeline =
      if has_prefix a.tool_name a2a_tool_prefix
      then when_some pipeline (λ p. pipeline_a2a a p) (simple_a2a a)
      else when_some pipeline (λ p. pipeline_mcp a p) (simple_mcp a)

  unfoldable pub approve : PendingApproval → Option PipelineState → Exec State ProcessResult
  approve a pipeline = do
    add_message env user "[APPROVAL]: Approved"
    if is_proxy a then approve_proxy a pipeline else approve_direct a pipeline

  -- The decision, for the approval and the pipeline that the conversation held.
  unfoldable pub decide : Bool → PendingApproval → Option PipelineState → Exec State ProcessResult
  decide approved a pipeline = do
    resolve_approval env
    set_pipeline_state env none
    if approved then approve a pipeline else reject a

-- ResolveApproval: the conversation that holds the approval becomes the one at hand.
unfoldable pub resolve : Env → Agent → Context → String → Bool → Exec State ProcessResult
resolve env agent ctx uuid approved s = elim (find_conversation_by_approval_uuid s.files uuid) [
  | missing e ↦ (err e, s)
  | found c ↦
      when_some c.pending_approval
        (λ a. decide env agent (enrich ctx c) approved a c.pipeline_state)
        (throw (errorf ("no pending approval found" ∷ []))) (record s { conv = c })
]
