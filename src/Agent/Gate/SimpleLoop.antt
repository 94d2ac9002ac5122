-- ===== src/Agent/Gate/SimpleLoop.antt =====
-- The calls of processSimpleMessage.
use agent_stop_and_go.Prelude.{ℕ, zero, suc, String, ◌≡◌, Bool, false, not, ◌&&◌, some, lookup}
use agent_stop_and_go.Json.{Args}
use agent_stop_and_go.Mcp.{Tool}
use agent_stop_and_go.Mcp.Composite.{get_tool}
use agent_stop_and_go.A2a.{Client, Task}
use agent_stop_and_go.Llm.{LlmToolCall}
use agent_stop_and_go.Agent.Exec.Keeps.{
  Keeps, keeps_rules, Keeps-if, Keeps-when_some, Keeps-bind, Keeps-pure,
}
use agent_stop_and_go.Agent.World.{Env, Agent, Context, Event}
use agent_stop_and_go.Agent.Trace.{
  Adds, Adds-IsPreorder, add_message-Adds, add_tool_call-Adds, add_tool_result-Adds,
  set_waiting_approval-Adds, set_remote-Adds, ask-Adds, save-Adds, save_or_not-Adds, call_tool-Adds,
}
use agent_stop_and_go.Agent.Effects.{generate_with_tools, send_message}
use agent_stop_and_go.Agent.Simple.{
  ProcessResult, end_with, pause, proxy_pause, tool_result, after_task, delegate, a2a_turn,
  run_tool, mcp_turn, tool_turn, text_turn, turn, cap_reached, rounds, process_simple_message,
}
use agent_stop_and_go.Agent.Gate.{Permits, and_not}

module _ (env : Env) (agent : Agent) (ctx : Context) {allow : Bool} {P : Event → Type 0}
    (p : Permits agent ctx allow P) where
  end_with-Adds : (r : ProcessResult) → Keeps (Adds P) (end_with env agent r)
  unfolding end_with
  end_with-Adds r =
      search (keeps_rules, Adds-IsPreorder, add_message-Adds, save_or_not-Adds, p.saves)

  pause-Adds :
      (name : String) (args : Args) (description : String)
      → Keeps (Adds P) (pause env agent name args description)
  unfolding pause
  pause-Adds name args description =
      search
        (keeps_rules, Adds-IsPreorder, set_waiting_approval-Adds, add_tool_call-Adds, end_with-Adds)

  proxy_pause-Adds :
      (name : String) (args : Args) (client : Client) (task : Task)
      → Keeps (Adds P) (proxy_pause env agent name args client task)
  unfolding proxy_pause
  proxy_pause-Adds name args client task =
      search
        (keeps_rules, Adds-IsPreorder, set_waiting_approval-Adds, set_remote-Adds, end_with-Adds)

  tool_result-Adds :
      (name text : String) (is_error : Bool)
      → Keeps (Adds P) (tool_result env agent name text is_error)
  unfolding tool_result
  tool_result-Adds name text is_error = search (keeps_rules, Adds-IsPreorder, add_tool_result-Adds)

  after_task-Adds :
      (name : String) (args : Args) (client : Client) (task : Task)
      → Keeps (Adds P) (after_task env agent name args client task)
  unfolding after_task
  after_task-Adds name args client task =
      search (keeps_rules, proxy_pause-Adds, end_with-Adds, tool_result-Adds)

  send_message-Adds :
      (key : String) (client : Client) (message : String)
      → lookup key agent.a2a_clients ≡ some client
      → (client.destructive_hint && not allow) ≡ false
      → Keeps (Adds P) (send_message env ctx client message)
  unfolding send_message
  send_message-Adds key client message found safe =
      ask-Adds env _ _ (p.sends key client message found safe)

  delegate-Adds :
      (key name : String) (args : Args) (client : Client)
      → lookup key agent.a2a_clients ≡ some client
      → (client.destructive_hint && not allow) ≡ false
      → Keeps (Adds P) (delegate env agent ctx name args client)
  unfolding delegate
  delegate-Adds key name args client found safe = search (
    keeps_rules,
    Adds-IsPreorder,
    add_tool_call-Adds,
    send_message-Adds key client _ found safe,
    after_task-Adds,
    tool_result-Adds,
  )

  a2a_turn-Adds : (name : String) (args : Args) → Keeps (Adds P) (a2a_turn env agent ctx name args)
  unfolding a2a_turn
  a2a_turn-Adds name args =
      Keeps-when_some _ _ _
        (λ client found.
          Keeps-if client.destructive_hint _ _ (λ _. pause-Adds _ _ _)
            (λ safe. delegate-Adds _ _ _ client found (and_not _ _ safe)))
        (λ _. end_with-Adds _)

  run_tool-Adds :
      (name : String) (args : Args) (tool : Tool)
      → get_tool agent.mcp_client name ≡ some tool
      → (tool.destructive_hint && not allow) ≡ false
      → Keeps (Adds P) (run_tool env agent ctx name args tool)
  unfolding run_tool
  run_tool-Adds name args tool found safe = search (
    keeps_rules,
    Adds-IsPreorder,
    add_tool_call-Adds,
    call_tool-Adds,
    tool_result-Adds,
    end_with-Adds,
    λ (i : ℕ). p.calls name args tool i found safe,
  )

  mcp_turn-Adds : (name : String) (args : Args) → Keeps (Adds P) (mcp_turn env agent ctx name args)
  unfolding mcp_turn
  mcp_turn-Adds name args =
      Keeps-when_some _ _ _
        (λ tool found.
          Keeps-if tool.destructive_hint _ _ (λ _. pause-Adds _ _ _)
            (λ safe. run_tool-Adds _ _ tool found (and_not _ _ safe)))
        (λ _. end_with-Adds _)

  tool_turn-Adds : (call : LlmToolCall) → Keeps (Adds P) (tool_turn env agent ctx call)
  unfolding tool_turn
  tool_turn-Adds call = search (keeps_rules, a2a_turn-Adds, mcp_turn-Adds)

  text_turn-Adds : (text : String) → Keeps (Adds P) (text_turn env agent ctx text)
  unfolding text_turn
  text_turn-Adds text = search (keeps_rules, Adds-IsPreorder, add_message-Adds, save-Adds, p.saves)

  turn-Adds : Keeps (Adds P) (turn env agent ctx)
  unfolding turn generate_with_tools
  turn-Adds = search (
    keeps_rules, Adds-IsPreorder, ask-Adds, p.generates, tool_turn-Adds, text_turn-Adds,
    end_with-Adds,
  )

  cap_reached-Adds : Keeps (Adds P) (cap_reached env agent ctx)
  unfolding cap_reached
  cap_reached-Adds =
      search (keeps_rules, Adds-IsPreorder, add_message-Adds, save_or_not-Adds, p.saves)

  rounds-Adds : (n : ℕ) → Keeps (Adds P) (rounds env agent ctx n)
  unfolding rounds
  rounds-Adds zero = cap_reached-Adds
  rounds-Adds (suc n) = Keeps-bind (Adds-IsPreorder P) (turn env agent ctx) _ turn-Adds (λ ended.
      Keeps-when_some ended _ _ (λ r _. Keeps-pure (Adds-IsPreorder P) r) (λ _. rounds-Adds n))

  pub process_simple_message-Adds : Keeps (Adds P) (process_simple_message env agent ctx)
  unfolding process_simple_message
  process_simple_message-Adds = rounds-Adds _
