-- ===== src/Agent/Approval/Pauses.antt =====
-- What the state is behind a pause, and what a chain of remote approvals does to a pipeline.
use agent_stop_and_go.Prelude.{
  ◌≡◌, refl, ap, true, Option, none, some, List, ◌∷◌, arith, lookup, ◌==◌,
}
use agent_stop_and_go.Conversation
use agent_stop_and_go.Conversation.{
  Conversation, PendingApproval, PipelineState, Status, waiting_approval, user,
}
use agent_stop_and_go.A2a.{Client, Task}
use agent_stop_and_go.Agent.Exec.{
  Result, ok, err, panic, pure, ◌>>=◌, resume_with, try, handle, when_some,
}
use agent_stop_and_go.Agent.World.{Env, Agent, State, Context, Event, returned, saved, generated}
use agent_stop_and_go.Agent.Effects.{
  on_conv, add_message, set_waiting_approval, set_remote, resolve_approval, set_pipeline_state,
  save, after_write, ask, outcome, continue_task,
}
use agent_stop_and_go.Agent.Messages.{
  approval_request, format_approval_description, convert_to_llm_messages, get_all_tools,
}
use agent_stop_and_go.Mcp.{Tool}
use agent_stop_and_go.Llm.{LlmToolCall}
use agent_stop_and_go.Agent.Simple.{pause, waiting, ProcessResult}
use agent_stop_and_go.Agent.Approval.{
  is_proxy, proxy_again, after_proxy, approve_proxy, approve, decide,
}

-- The conversation waits, and holds the approval.
abbrev Waits : Conversation → PendingApproval → Type 0
Waits c a = (c.status ≡ waiting_approval) × (c.pending_approval ≡ some a)

-- The approval for a call of a tool, in a state.
abbrev pub approval_for : Env → Tool → LlmToolCall → State → PendingApproval
approval_for env tool call s = record {
  uuid = (env.draw s.draws).id;
  conversation_id = s.conv.id;
  tool_name = tool.name;
  tool_args = call.arguments;
  description = format_approval_description env tool.name call.arguments;
  remote_task_id = "";
  remote_agent_name = "";
  created_at = (env.draw s.draws).created;
}

-- The question to the LLM with which a round begins.
abbrev pub question : Env → Agent → Context → State → Event
question env agent ctx s =
    generated ctx agent.llm_client agent.config.prompt (convert_to_llm_messages env s.conv.messages)
      (get_all_tools agent)

-- The loop stopped at an approval: it returns the approval, the conversation waits for it, and nothing
-- but the question left the agent in this round before the conversation was saved.
pub record StopsAt (e : Event) (a : PendingApproval) (s : State) (r : Result ProcessResult × State)
    : Type 0 where
  pub returned : r.0 ≡ ok (waiting (approval_request a.description a.uuid) a)
  pub waits : r.1.conv.status ≡ waiting_approval
  pub holds : r.1.conv.pending_approval ≡ some a
  pub calls : r.1.trace ≡ saved r.1.conv ∷ e ∷ s.trace

module _ (env : Env) (agent : Agent) (ctx : Context) (call : LlmToolCall) (tool : Tool) where
  asked : State → State
  asked s = record s { trace = question env agent ctx s ∷ s.trace }

  paused : State → Result (Option ProcessResult) × State
  unfolding asked
  paused s =
      pause env agent tool.name call.arguments
        (format_approval_description env tool.name call.arguments) (asked s)

save_conv : (env : Env) (s : State) → (save env s).1.conv ≡ s.conv
unfolding save after_write
save_conv env s = ground arith

resume_pure :
    {A B : Type 0} (b : B) (r : Result A) (s : State) → (resume_with (λ _. pure b) r s).1 ≡ s
unfolding resume_with pure
resume_pure b (ok a) s = refl
resume_pure b (err e) s = refl
resume_pure b panic s = refl

save_last :
    {B : Type 0} (b : B) (env : Env) (s : State)
    → (resume_with (λ _. pure b) (save env s).0 (save env s).1).1.conv ≡ s.conv
save_last b env s = rw (resume_pure b) (save_conv env s)

proxy_again_waits :
    (env : Env) (agent : Agent) (ctx : Context) (a : PendingApproval) (client : Client)
    (task : Task) (s : State)
    → ((proxy_again env agent ctx a client task s).1.conv.pipeline_state ≡ s.conv.pipeline_state)
      × ((proxy_again env agent ctx a client task s).1.conv.status ≡ waiting_approval)
unfolding proxy_again set_waiting_approval set_remote add_message on_conv ◌>>=◌
    Conversation.set_waiting_approval Conversation.add_message
proxy_again_waits env agent ctx a client task s =
    (ap (λ c. c.pipeline_state) (save_last _ env _), ap (λ c. c.status) (save_last _ env _))

-- Where the remote agent answers an approval with another one, the conversation waits for that, and
-- the pipeline that was paused is gone: none is left to resume when that approval is given.
pub chained_proxy_drops_pipeline :
    (env : Env) (agent : Agent) (ctx : Context) (a : PendingApproval) (p : PipelineState)
    (s : State) (client : Client) (task : Task)
    → is_proxy a ≡ true
    → lookup a.remote_agent_name agent.a2a_clients ≡ some client
    → ((trace : List Event) → env.continue_task trace ≡ returned task)
    → (task.state == "input-required") ≡ true
    → ((decide env agent ctx true a (some p) s).1.conv.pipeline_state ≡ none)
      × ((decide env agent ctx true a (some p) s).1.conv.status ≡ waiting_approval)
unfolding decide approve resolve_approval set_pipeline_state add_message on_conv ◌>>=◌ resume_with
    approve_proxy try handle continue_task ask outcome when_some after_proxy
    Conversation.add_message
chained_proxy_drops_pipeline env agent ctx a p s client task remote found answers again =
    rw (remote) (
      rw (found, when_some)
        (rw answers (rw again (proxy_again_waits env agent ctx a client task _))))
