-- ===== src/Agent/Gate/Approvals.antt =====
-- The branches of ResolveApproval that follow an approval.
use agent_stop_and_go.Prelude.{
  ℕ, ◌≡◌, String, Bool, true, false, Option, some, lookup, trim_prefix, has_prefix,
}
use agent_stop_and_go.Json.{string_arg}
use agent_stop_and_go.Conversation.{PendingApproval, PipelineState}
use agent_stop_and_go.Mcp.Composite.{route}
use agent_stop_and_go.Agent.Simple.{process_simple_message}
use agent_stop_and_go.A2a.{Client, Task}
use agent_stop_and_go.Agent.Exec.Keeps.{Keeps, keeps_rules, Keeps-if, Keeps-when_some, Keeps-throw}
use agent_stop_and_go.Agent.World.{
  Env, Agent, Context, Event, tool_called, message_sent, task_continued,
}
use agent_stop_and_go.Agent.Trace.{
  Adds, Adds-IsPreorder, add_message-Adds, add_tool_result-Adds, set_waiting_approval-Adds,
  set_remote-Adds, save-Adds, save_or_not-Adds, set_session-Adds,
}
use agent_stop_and_go.Agent.Effects.{call_tool, send_message, continue_task}
use agent_stop_and_go.Agent.Messages.{a2a_tool_prefix}
use agent_stop_and_go.Agent.Approval.{
  proxy_again, ask_for_auth, resume_pipeline, proxy_done, after_proxy, approve_proxy, no_access,
  simple_a2a, simple_mcp, pipeline_result, pipeline_a2a, pipeline_mcp, approve_direct,
}
use agent_stop_and_go.Agent.Gate.{Permits}
use agent_stop_and_go.Agent.Gate.SimpleLoop.{process_simple_message-Adds}
use agent_stop_and_go.Agent.Gate.Nodes.{set_output-Adds}
use agent_stop_and_go.Agent.Gate.Trees.{opens, TreeSends}
use agent_stop_and_go.Agent.Gate.Messages.{OnTree, execute_root-Adds}
use agent_stop_and_go.Agent.Gate.Single.{AllButOne, weaken, ask-One, One-try, One-bind}

module _ (env : Env) (agent : Agent) (ctx : Context) {P : Event → Type 0}
    (p : Permits agent ctx false P)
    (unlocked : OnTree agent (λ root. opens root ≡ true → Permits agent ctx true P))
    (sends : OnTree agent (λ root. TreeSends agent ctx P root)) (a : PendingApproval) where
  resume_pipeline-Adds :
      (s : PipelineState) (result : String)
      → Keeps (Adds P) (resume_pipeline env agent ctx s result)
  unfolding resume_pipeline
  resume_pipeline-Adds s result = search (
    keeps_rules,
    Adds-IsPreorder,
    execute_root-Adds env agent ctx p unlocked sends,
    save-Adds,
    p.saves,
  )

  proxy_again-Adds :
      (client : Client) (task : Task) → Keeps (Adds P) (proxy_again env agent ctx a client task)
  unfolding proxy_again
  proxy_again-Adds client task =
      search
        (
          keeps_rules, Adds-IsPreorder, set_waiting_approval-Adds, set_remote-Adds,
          add_message-Adds, save-Adds, p.saves,
        )
        depth 7

  ask_for_auth-Adds : (text : String) → Keeps (Adds P) (ask_for_auth env agent ctx text)
  unfolding ask_for_auth
  ask_for_auth-Adds text =
      search (keeps_rules, Adds-IsPreorder, add_message-Adds, save_or_not-Adds, p.saves)

  pub no_access-Adds : (name : String) → Keeps (Adds P) (no_access env agent ctx name)
  unfolding no_access
  no_access-Adds name = ask_for_auth-Adds _

  loop-Adds : Keeps (Adds P) (process_simple_message env agent ctx)
  loop-Adds = process_simple_message-Adds env agent ctx p

  proxy_done-Adds :
      (pipeline : Option PipelineState) (task : Task)
      → Keeps (Adds P) (proxy_done env agent ctx a pipeline task)
  unfolding proxy_done
  proxy_done-Adds pipeline task =
      search
        (
          keeps_rules, Adds-IsPreorder, add_tool_result-Adds, set_session-Adds, set_output-Adds,
          resume_pipeline-Adds, loop-Adds,
        )
        depth 7

  pub after_proxy-Adds :
      (pipeline : Option PipelineState) (client : Client) (task : Task)
      → Keeps (Adds P) (after_proxy env agent ctx a pipeline client task)
  unfolding after_proxy
  after_proxy-Adds pipeline client task =
      search (keeps_rules, proxy_again-Adds, ask_for_auth-Adds, proxy_done-Adds)

  pub pipeline_result-Adds :
      (s : PipelineState) (text : String) (is_error : Bool)
      → Keeps (Adds P) (pipeline_result env agent ctx a s text is_error)
  unfolding pipeline_result
  pipeline_result-Adds s text is_error =
      search
        (keeps_rules, Adds-IsPreorder, add_tool_result-Adds, set_session-Adds, resume_pipeline-Adds)

  module _ (A : Event → Type 0) where
    pub approve_proxy-One :
        (pipeline : Option PipelineState)
        → ((c : Client)
            → lookup a.remote_agent_name agent.a2a_clients ≡ some c
            → A (task_continued ctx c a.remote_task_id "approved"))
        → Keeps (AllButOne A P) (approve_proxy env agent ctx a pipeline)
    unfolding approve_proxy continue_task
    approve_proxy-One pipeline h =
        Keeps-when_some _ _ _
          (λ client found.
            One-try _ _ _ (ask-One env _ _ (h client found))
              (λ task. after_proxy-Adds pipeline client task)
              (λ e. Keeps-throw (Adds-IsPreorder P) _))
          (λ _. weaken (Keeps-throw (Adds-IsPreorder P) _))

    call_tool-One :
        ((i : ℕ) → A (tool_called ctx i a.tool_name a.tool_args))
        → Keeps (AllButOne A P) (call_tool env ctx agent.mcp_client a.tool_name a.tool_args)
    unfolding call_tool
    call_tool-One h =
        Keeps-when_some (route agent.mcp_client a.tool_name) _ _
          (λ i found. ask-One env _ env.call_tool (h i))
          (λ _. weaken (Keeps-throw (Adds-IsPreorder P) _))

    simple_mcp-One :
        ((i : ℕ) → A (tool_called ctx i a.tool_name a.tool_args))
        → Keeps (AllButOne A P) (simple_mcp env agent ctx a)
    unfolding simple_mcp
    simple_mcp-One h =
        One-try _ _ _ (call_tool-One h)
          (λ result. search (keeps_rules, Adds-IsPreorder, add_tool_result-Adds, loop-Adds))
          (λ e.
            search (keeps_rules, Adds-IsPreorder, no_access-Adds, add_tool_result-Adds, loop-Adds))

    pipeline_mcp-One :
        (s : PipelineState)
        → ((i : ℕ) → A (tool_called ctx i a.tool_name a.tool_args))
        → Keeps (AllButOne A P) (pipeline_mcp env agent ctx a s)
    unfolding pipeline_mcp
    pipeline_mcp-One s h =
        One-try _ _ _ (call_tool-One h) (λ result. pipeline_result-Adds s _ _)
          (λ e. search (keeps_rules, Adds-IsPreorder, no_access-Adds))

    abbrev pub SendsApproved : Type 0
    SendsApproved =
        (c : Client)
        → lookup (trim_prefix a.tool_name a2a_tool_prefix) agent.a2a_clients ≡ some c
        → A (message_sent ctx c (string_arg a.tool_args "message"))

    simple_a2a-One : SendsApproved → Keeps (AllButOne A P) (simple_a2a env agent ctx a)
    unfolding simple_a2a send_message
    simple_a2a-One h =
        Keeps-when_some _ _ _
          (λ client found.
            One-bind _ _
              (One-try _ _ _ (ask-One env _ _ (h client found))
                (λ task. add_tool_result-Adds env _ _ _) (λ e. add_tool_result-Adds env _ _ _))
              (λ _. loop-Adds))
          (λ _. weaken (Keeps-throw (Adds-IsPreorder P) _))

    pipeline_a2a-One :
        (s : PipelineState) → SendsApproved → Keeps (AllButOne A P) (pipeline_a2a env agent ctx a s)
    unfolding pipeline_a2a send_message
    pipeline_a2a-One s h =
        Keeps-when_some _ _ _
          (λ client found.
            One-try _ _ _ (ask-One env _ _ (h client found)) (λ task. pipeline_result-Adds s _ _)
              (λ e. Keeps-throw (Adds-IsPreorder P) _))
          (λ _. weaken (Keeps-throw (Adds-IsPreorder P) _))

    pub approve_direct-One :
        (pipeline : Option PipelineState)
        → ((i : ℕ) → A (tool_called ctx i a.tool_name a.tool_args))
        → SendsApproved
        → Keeps (AllButOne A P) (approve_direct env agent ctx a pipeline)
    unfolding approve_direct
    approve_direct-One pipeline h k =
        Keeps-if (has_prefix a.tool_name a2a_tool_prefix) _ _
          (λ _. Keeps-when_some pipeline _ _ (λ s _. pipeline_a2a-One s k) (λ _. simple_a2a-One k))
          (λ _. Keeps-when_some pipeline _ _ (λ s _. pipeline_mcp-One s h) (λ _. simple_mcp-One h))
