-- ===== src/Agent/Effects.antt =====
-- The steps that the agent's methods are made of: the methods of the conversation at hand, the write
-- of its file, and the calls to the LLM, the MCP servers and the other agents.
use agent_stop_and_go.Prelude.{suc, String, Bool, Option, none, some, List, [], ◌∷◌}
use agent_stop_and_go.Json.{Args}
use agent_stop_and_go.Conversation
use agent_stop_and_go.Conversation.{
  Conversation, Draw, Role, PendingApproval, PipelineState, approval_of,
}
use agent_stop_and_go.Mcp.{errorf, Tool, CallToolResult}
use agent_stop_and_go.Mcp.Composite.{CompositeClient, route}
use agent_stop_and_go.A2a.{Client, Task}
use agent_stop_and_go.Llm.{LlmClient, LlmMessage, Response}
use agent_stop_and_go.Session.{SessionState}
use agent_stop_and_go.Storage.{Files, put_file, remove_file}
use agent_stop_and_go.Agent.Exec.{Result, ok, err, Exec, pure, throw, try, when_some}
use agent_stop_and_go.Agent.World.{
  Env, State, Context, Event, generated, tool_called, message_sent, task_continued, saved, Outcome,
  returned, failed, Write, written, write_failed,
}

-- What an answer of the environment is as the result of a call.
unfoldable pub outcome : {A : Type 0} → Outcome A → Result A
outcome (returned a) = ok a
outcome (failed e) = err e

-- The files after a write, and its error.
unfoldable pub after_write : Write → Conversation → Files → Result (Unit {0}) × Files
after_write written c files = (ok tt, put_file c.id c files)
after_write (write_failed e none) c files = (err e, remove_file c.id files)
after_write (write_failed e (some left)) c files = (err e, put_file c.id left files)

module _ (env : Env) where
  -- A method of the conversation that draws an identifier and the time.
  unfoldable pub on_conv : (Draw → Conversation → Conversation) → Exec State (Unit {0})
  on_conv f s = (ok tt, record s { conv = f (env.draw s.draws) s.conv; draws = suc s.draws })

  unfoldable pub add_message : Role → String → Exec State (Unit {0})
  add_message role content = on_conv (λ d c. Conversation.add_message d role content c)

  unfoldable pub add_tool_call : String → Args → Exec State (Unit {0})
  add_tool_call name args = on_conv (λ d c. Conversation.add_tool_call d name args c)

  unfoldable pub add_tool_result : String → String → Bool → Exec State (Unit {0})
  add_tool_result name result is_error =
      on_conv (λ d c. Conversation.add_tool_result d name result is_error c)

  -- SetWaitingApproval, with the approval that it returns
  unfoldable pub set_waiting_approval : String → Args → String → Exec State PendingApproval
  set_waiting_approval name args description s =
      let d = env.draw s.draws in
      (
        ok (approval_of d name args description s.conv),
        record s {
          conv = Conversation.set_waiting_approval d name args description s.conv;
          draws = suc s.draws;
        },
      )

  -- `approval.RemoteTaskID = task; approval.RemoteAgentName = agent`: the approval that was returned
  -- is the one that the conversation holds.
  unfoldable pub set_remote : PendingApproval → String → String → Exec State PendingApproval
  set_remote a task agent s =
      let b = record a { remote_task_id = task; remote_agent_name = agent } in
      (ok b, record s { conv = record s.conv { pending_approval = some b } })

  unfoldable pub resolve_approval : Exec State (Unit {0})
  resolve_approval = on_conv (λ d c. Conversation.resolve_approval d.updated c)

  -- conv.PipelineState = p
  unfoldable pub set_pipeline_state : Option PipelineState → Exec State (Unit {0})
  set_pipeline_state p s = (ok tt, record s { conv = record s.conv { pipeline_state = p } })

  -- SaveConversation of the conversation at hand
  unfoldable pub save : Exec State (Unit {0})
  save s =
      let trace = saved s.conv ∷ s.trace in
      let (r, files) = after_write (env.write trace) s.conv s.files in
      (r, record s { trace = trace; files = files })

  -- _ = SaveConversation
  unfoldable pub save_or_not : Exec State (Unit {0})
  save_or_not = try save (λ _. pure tt) (λ _. pure tt)

  -- A call: it goes on the history, and the environment answers.
  unfoldable pub ask : {A : Type 0} → Event → (List Event → Outcome A) → Exec State A
  ask e answer s = (outcome (answer (e ∷ s.trace)), record s { trace = e ∷ s.trace })

  module _ (ctx : Context) where
    unfoldable pub generate_with_tools :
        LlmClient → String → List LlmMessage → List Tool → Exec State Response
    generate_with_tools client prompt messages tools =
        ask (generated ctx client prompt messages tools) env.generate

    -- CallTool of the composite client
    unfoldable pub call_tool : CompositeClient → String → Args → Exec State CallToolResult
    call_tool c name args =
        when_some (route c name) (λ index. ask (tool_called ctx index name args) env.call_tool)
          (throw (errorf ("tool not found: " ∷ name ∷ [])))

    unfoldable pub send_message : Client → String → Exec State Task
    send_message client message = ask (message_sent ctx client message) env.send_message

    unfoldable pub continue_task : Client → String → String → Exec State Task
    continue_task client task message =
        ask (task_continued ctx client task message) env.continue_task

-- state.Set, state.Load on the pipeline's session state
unfoldable pub set_session : (SessionState → SessionState) → Exec State (Unit {0})
set_session f s = (ok tt, record s { session = f s.session })
