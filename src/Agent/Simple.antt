-- ===== src/Agent/Simple.antt =====
-- processSimpleMessage of internal/agent/agent.go: LLM, tool, LLM, ... until a text or a pause.
use agent_stop_and_go.Prelude.{
  ℕ, zero, suc, String, Bool, true, false, Option, none, some, [], ◌∷◌, ◌==◌, concat, lookup,
  has_prefix, trim_prefix, if◌then◌else◌,
}
use agent_stop_and_go.Json.{Args, string_arg}
use agent_stop_and_go.Conversation.{PendingApproval, assistant}
use agent_stop_and_go.Mcp.{Tool, first_text}
use agent_stop_and_go.Mcp.Composite.{get_tool}
use agent_stop_and_go.A2a.{Client, Task, extract_task_text}
use agent_stop_and_go.Llm.{LlmToolCall}
use agent_stop_and_go.Agent.Exec.{Exec, pure, reads, ◌>>=◌, ◌>>◌, try, when_some}
use agent_stop_and_go.Agent.World.{Env, Agent, State, Context}
use agent_stop_and_go.Agent.Effects
use agent_stop_and_go.Agent.Effects.{
  add_message, add_tool_call, add_tool_result, set_waiting_approval, set_remote, save_or_not,
  generate_with_tools, call_tool, send_message,
}
use agent_stop_and_go.Agent.Messages.{
  a2a_tool_prefix, convert_to_llm_messages, get_all_tools, format_approval_description,
  approval_request,
}

pub record ProcessResult : Type 0 where
  pub response : String
  pub waiting_approval : Bool
  pub approval : Option PendingApproval
  pub auth_required : Bool

-- &ProcessResult{Response: text}
abbrev pub answer : String → ProcessResult
answer text = record {
  response = text;
  waiting_approval = false;
  approval = none;
  auth_required = false;
}

abbrev pub waiting : String → PendingApproval → ProcessResult
waiting text a = record {
  response = text;
  waiting_approval = true;
  approval = some a;
  auth_required = false;
}

abbrev pub needs_auth : String → ProcessResult
needs_auth text = record {
  response = text;
  waiting_approval = false;
  approval = none;
  auth_required = true;
}

abbrev pub or_text : Option String → String → String
or_text none d = d
or_text (some t) d = t

abbrev pub max_tool_iterations : ℕ
max_tool_iterations = 10

-- The description of a proxy approval.
unfoldable pub proxy_description : Client → Task → String
proxy_description client task =
    concat
      ("**PROXY APPROVAL — A2A Agent: " ∷ client.name ∷ "**\n\n" ∷ or_text task.message "" ∷ [])

module _ (env : Env) (agent : Agent) where
  -- The assistant says the response, the conversation is saved if it can be, and the loop ends.
  unfoldable pub end_with : ProcessResult → Exec State (Option ProcessResult)
  end_with r = do add_message env assistant r.response; save_or_not env; pure (some r)

  -- A destructive tool: the call is recorded and waits.
  unfoldable pub pause : String → Args → String → Exec State (Option ProcessResult)
  pause name args description = do
    approval ← set_waiting_approval env name args description
    add_tool_call env name args
    end_with (waiting (approval_request description approval.uuid) approval)

  -- A sub-agent that needs an approval: the approval stands for the one over there.
  unfoldable pub proxy_pause : String → Args → Client → Task → Exec State (Option ProcessResult)
  proxy_pause name args client task = do
    opened ← set_waiting_approval env name args (proxy_description client task)
    approval ← set_remote env opened task.id client.name
    end_with (waiting (approval_request (proxy_description client task) approval.uuid) approval)

  -- A result that the LLM sees in the next round: the loop continues.
  unfoldable pub tool_result : String → String → Bool → Exec State (Option ProcessResult)
  tool_result name text is_error = do add_tool_result env name text is_error; pure none

  unfoldable pub after_task : String → Args → Client → Task → Exec State (Option ProcessResult)
  after_task name args client task =
      if task.state == "input-required"
      then proxy_pause name args client task
      else if task.state == "auth-required"
      then end_with (
          needs_auth (
            or_text task.message
              (concat ("Authentication required by A2A agent " ∷ client.name ∷ "." ∷ []))))
      else tool_result name (extract_task_text task) (task.state == "failed")

  module _ (ctx : Context) where
    -- An agent that needs no approval.
    unfoldable pub delegate : String → Args → Client → Exec State (Option ProcessResult)
    delegate name args client = do
      add_tool_call env name args
      try (send_message env ctx client (string_arg args "message"))
          (λ task. after_task name args client task)
          (λ e. tool_result name (concat ("A2A error: " ∷ e.text ∷ [])) true)

    unfoldable pub a2a_turn : String → Args → Exec State (Option ProcessResult)
    a2a_turn name args =
        let agent_name = trim_prefix name a2a_tool_prefix in
        when_some (lookup agent_name agent.a2a_clients)
          (λ client.
            if client.destructive_hint
            then pause name args (
                concat (
                  "**DELEGATE to A2A Agent: "
                  ∷ agent_name
                  ∷ "**\n\nMessage: "
                  ∷ env.show_value (lookup "message" args)
                  ∷ []))
            else delegate name args client)
          (end_with (answer (concat ("A2A agent not found: " ∷ agent_name ∷ []))))

    -- A tool that needs no approval.
    unfoldable pub run_tool : String → Args → Tool → Exec State (Option ProcessResult)
    run_tool name args tool = do
      add_tool_call env name args
      try (call_tool env ctx agent.mcp_client name args)
          (λ result. tool_result name (first_text result.content) result.is_error)
          (λ e.
            if e.auth_required
            then end_with (
                needs_auth (
                  concat
                    ("Authentication required to access the " ∷ tool.server ∷ " server." ∷ [])))
            else tool_result name (concat ("Tool execution failed: " ∷ e.text ∷ [])) true)

    unfoldable pub mcp_turn : String → Args → Exec State (Option ProcessResult)
    mcp_turn name args =
        when_some (get_tool agent.mcp_client name)
          (λ tool.
            if tool.destructive_hint
            then pause tool.name args (format_approval_description env tool.name args)
            else run_tool name args tool)
          (end_with (answer (concat ("Tool not found: " ∷ name ∷ []))))

    unfoldable pub tool_turn : LlmToolCall → Exec State (Option ProcessResult)
    tool_turn call =
        if has_prefix call.name a2a_tool_prefix
        then a2a_turn call.name call.arguments
        else mcp_turn call.name call.arguments

    -- The answer of the LLM in text: the one end of the loop that reports a failed save.
    unfoldable pub text_turn : String → Exec State (Option ProcessResult)
    text_turn text = do add_message env assistant text; Effects.save env; pure (some (answer text))

    -- The body of the loop: `none` where it continues.
    unfoldable pub turn : Exec State (Option ProcessResult)
    turn = do
      messages ← reads (λ s. convert_to_llm_messages env s.conv.messages)
      try
          (generate_with_tools env ctx agent.llm_client agent.config.prompt messages
            (get_all_tools agent))
          (λ response.
            when_some response.tool_call (λ call. tool_turn call) (text_turn response.text))
          (λ e. end_with (answer (concat ("LLM error: " ∷ e.text ∷ []))))

    -- What follows the loop when no round has ended it.
    unfoldable pub cap_reached : Exec State ProcessResult
    cap_reached = do
      add_message env assistant "Maximum tool call iterations reached."
      save_or_not env
      pure (answer "Maximum tool call iterations reached.")

    -- The loop, with so many rounds left.
    unfoldable pub rounds : ℕ → Exec State ProcessResult
    rounds zero = cap_reached
    rounds (suc n) = do ended ← turn; when_some ended (λ r. pure r) (rounds n)

    unfoldable pub process_simple_message : Exec State ProcessResult
    process_simple_message = rounds max_tool_iterations
