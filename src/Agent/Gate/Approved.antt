-- ===== src/Agent/Gate/Approved.antt =====
-- What an approval leads to: the call that was approved is made, before any other.
use agent_stop_and_go.Prelude.{
  String, ◌≡◌, ap, ◌∙◌, sym, subst, Bool, true, false, Option, none, some, List, [], ◌∷◌, ◌++◌,
  append_assoc, lookup, if◌then◌else◌, has_prefix, trim_prefix, arith,
}
use agent_stop_and_go.Json.{string_arg}
use agent_stop_and_go.Conversation.{Conversation, PendingApproval, PipelineState}
use agent_stop_and_go.Mcp.{Error, errorf}
use agent_stop_and_go.Mcp.Composite.{route}
use agent_stop_and_go.Storage.{find_conversation_by_approval_uuid, found}
use agent_stop_and_go.Agent.Exec.{Exec, ◌>>=◌, resume_with, try, when_some, throw}
use agent_stop_and_go.Agent.Exec.Keeps.{
  Keeps, keeps_rules, Keeps-try_then, Keeps-then, Keeps-when_some, Keeps-if, Keeps-throw,
}
use agent_stop_and_go.Agent.World.{
  Env, Agent, Context, State, Event, Outcome, tool_called, message_sent, task_continued,
}
use agent_stop_and_go.Agent.Effects.{
  ask, call_tool, send_message, continue_task, resolve_approval, set_pipeline_state, add_message,
  on_conv,
}
use agent_stop_and_go.Agent.Messages.{a2a_tool_prefix}
use agent_stop_and_go.Agent.Process.{enrich}
use agent_stop_and_go.Agent.Simple.{process_simple_message}
use agent_stop_and_go.Agent.Gate.SimpleLoop.{process_simple_message-Adds}
use agent_stop_and_go.Agent.Approval.{
  is_proxy, approve_proxy, approve_direct, simple_a2a, simple_mcp, pipeline_a2a, pipeline_mcp,
  approve, decide, resolve,
}
use agent_stop_and_go.Agent.Trace.{Adds, Adds-IsPreorder, add_tool_result-Adds}
use agent_stop_and_go.Agent.Gate.{Permits}
use agent_stop_and_go.Agent.Gate.Trees.{opens, TreeSends, every-TreeSends}
use agent_stop_and_go.Agent.Gate.Messages.{OnTree}
use agent_stop_and_go.Agent.Gate.Approvals.{after_proxy-Adds, pipeline_result-Adds, no_access-Adds}

-- The call that an approval is for: the decision passed on to the remote agent that has the task, the
-- message to the agent that a tool's name stands for, or the tool here. There is none if the agent or
-- the tool is gone.
abbrev pub approved_call : Agent → Context → PendingApproval → Option Event
approved_call agent ctx a =
    if is_proxy a
    then elim (lookup a.remote_agent_name agent.a2a_clients) [
      | none ↦ none
      | some c ↦ some (task_continued ctx c a.remote_task_id "approved")
    ]
    else if has_prefix a.tool_name a2a_tool_prefix
    then elim (lookup (trim_prefix a.tool_name a2a_tool_prefix) agent.a2a_clients) [
      | none ↦ none
      | some c ↦ some (message_sent ctx c (string_arg a.tool_args "message"))
    ]
    else elim (route agent.mcp_client a.tool_name) [
      | none ↦ none
      | some i ↦ some (tool_called ctx i a.tool_name a.tool_args)
    ]

-- Between two states a call was made, and it was the first one.
pub record Makes (e : Event) (s t : State) : Type 0 where
  pub later : List Event
  pub trace : t.trace ≡ later ++ e ∷ s.trace

abbrev Any : Event → Type 0
Any e = Unit

Any-Permits : (agent : Agent) (ctx : Context) (allow : Bool) → Permits agent ctx allow Any
Any-Permits agent ctx allow = record {
  saves = λ c. tt;
  generates = λ client prompt messages tools. tt;
  calls = λ name args t i found safe. tt;
  sends = λ key c message found safe. tt;
}

module _ {e : Event} where
  Makes-then : (s t u : State) → Makes e s t → Adds Any t u → Makes e s u
  Makes-then s t u h k = record {
    later = k.new ++ h.later;
    trace = k.trace ∙ ap (λ l. k.new ++ l) h.trace ∙ sym (append_assoc k.new h.later _);
  }

  ask-Makes :
      {V : Type 0} (env : Env) (d : Event) (answer : List Event → Outcome V)
      → d ≡ e
      → Keeps (Makes e) (ask env d answer)
  unfolding ask
  ask-Makes env d answer same = record {
    at = λ s. record { later = []; trace = ap (λ x. x ∷ s.trace) same };
  }

  Makes-bind :
      {V W : Type 0} (m : Exec State V) (f : V → Exec State W)
      → Keeps (Makes e) m
      → ((v : V) → Keeps (Adds Any) (f v))
      → Keeps (Makes e) (m >>= f)
  Makes-bind m f km kf = Keeps-then Makes-then (λ s t k. k) m f km kf

  Makes-try :
      {V W : Type 0} (m : Exec State V) (f : V → Exec State W) (h : Error → Exec State W)
      → Keeps (Makes e) m
      → ((v : V) → Keeps (Adds Any) (f v))
      → ((x : Error) → Keeps (Adds Any) (h x))
      → Keeps (Makes e) (try m f h)
  Makes-try m f h km kf kh = Keeps-try_then Makes-then (λ s t k. k) m f h km kf kh

module _ (env : Env) (agent : Agent) (ctx : Context) (p : Permits agent ctx false Any)
    (unlocked : OnTree agent (λ root. opens root ≡ true → Permits agent ctx true Any))
    (sends : OnTree agent (λ root. TreeSends agent ctx Any root)) (a : PendingApproval) (e : Event)
    (approved : approved_call agent ctx a ≡ some e) where
  approve_proxy-Makes :
      (pipeline : Option PipelineState)
      → is_proxy a ≡ true
      → Keeps (Makes e) (approve_proxy env agent ctx a pipeline)
  unfolding approve_proxy continue_task
  approve_proxy-Makes pipeline remote =
      Keeps-when_some _ _ _
        (λ client found.
          Makes-try _ _ _ (ask-Makes env _ _ (ground arith))
            (λ task. after_proxy-Adds env agent ctx p unlocked sends a pipeline client task)
            (λ x. Keeps-throw (Adds-IsPreorder Any) _))
        (λ gone. absurd (ground arith))

  module _ (here : is_proxy a ≡ false) where
    call_tool-Makes :
        has_prefix a.tool_name a2a_tool_prefix ≡ false
        → Keeps (Makes e) (call_tool env ctx agent.mcp_client a.tool_name a.tool_args)
    unfolding call_tool
    call_tool-Makes mcp =
        Keeps-when_some (route agent.mcp_client a.tool_name) _ _
          (λ i found. ask-Makes env _ env.call_tool (ground arith)) (λ gone. absurd (ground arith))

    loops : Keeps (Adds Any) (process_simple_message env agent ctx)
    loops = process_simple_message-Adds env agent ctx p

    simple_mcp-Makes :
        has_prefix a.tool_name a2a_tool_prefix ≡ false
        → Keeps (Makes e) (simple_mcp env agent ctx a)
    unfolding simple_mcp
    simple_mcp-Makes mcp =
        Makes-try _ _ _ (call_tool-Makes mcp)
          (λ result. search (keeps_rules, Adds-IsPreorder, add_tool_result-Adds, loops))
          (λ x. search (
            keeps_rules,
            Adds-IsPreorder,
            no_access-Adds env agent ctx p unlocked sends a,
            add_tool_result-Adds,
            loops,
          ))

    pipeline_mcp-Makes :
        (s : PipelineState)
        → has_prefix a.tool_name a2a_tool_prefix ≡ false
        → Keeps (Makes e) (pipeline_mcp env agent ctx a s)
    unfolding pipeline_mcp
    pipeline_mcp-Makes s mcp =
        Makes-try _ _ _ (call_tool-Makes mcp)
          (λ result. pipeline_result-Adds env agent ctx p unlocked sends a s _ _)
          (λ x.
            search (keeps_rules, Adds-IsPreorder, no_access-Adds env agent ctx p unlocked sends a))

    simple_a2a-Makes :
        has_prefix a.tool_name a2a_tool_prefix ≡ true → Keeps (Makes e) (simple_a2a env agent ctx a)
    unfolding simple_a2a send_message
    simple_a2a-Makes delegated =
        Keeps-when_some _ _ _
          (λ client found.
            Makes-bind _ _
              (Makes-try _ _ _ (ask-Makes env _ _ (ground arith))
                (λ task. add_tool_result-Adds env _ _ _) (λ x. add_tool_result-Adds env _ _ _))
              (λ _. loops))
          (λ gone. absurd (ground arith))

    pipeline_a2a-Makes :
        (s : PipelineState)
        → has_prefix a.tool_name a2a_tool_prefix ≡ true
        → Keeps (Makes e) (pipeline_a2a env agent ctx a s)
    unfolding pipeline_a2a send_message
    pipeline_a2a-Makes s delegated =
        Keeps-when_some _ _ _
          (λ client found.
            Makes-try _ _ _ (ask-Makes env _ _ (ground arith))
              (λ task. pipeline_result-Adds env agent ctx p unlocked sends a s _ _)
              (λ x. Keeps-throw (Adds-IsPreorder Any) _))
          (λ gone. absurd (ground arith))

    approve_direct-Makes :
        (pipeline : Option PipelineState)
        → Keeps (Makes e) (approve_direct env agent ctx a pipeline)
    unfolding approve_direct
    approve_direct-Makes pipeline =
        Keeps-if (has_prefix a.tool_name a2a_tool_prefix) _ _
          (λ delegated.
            Keeps-when_some pipeline _ _ (λ s _. pipeline_a2a-Makes s delegated)
              (λ _. simple_a2a-Makes delegated))
          (λ mcp.
            Keeps-when_some pipeline _ _ (λ s _. pipeline_mcp-Makes s mcp)
              (λ _. simple_mcp-Makes mcp))

  decide-Makes :
      (pipeline : Option PipelineState) (s : State)
      → Makes e s (decide env agent ctx true a pipeline s).1
  unfolding decide approve resolve_approval set_pipeline_state add_message on_conv ◌>>=◌ resume_with
  decide-Makes pipeline s =
      let k =
        (Keeps-if (is_proxy a) (approve_proxy env agent ctx a pipeline)
            (approve_direct env agent ctx a pipeline) (approve_proxy-Makes pipeline)
            (λ here. approve_direct-Makes here pipeline)).at
          _ in
      record { later = k.later; trace = k.trace }

-- An approval is carried out: where the agent or the tool that it is for is still there, the call
-- that was approved is made, with what was approved, and it is the first call that leaves the agent.
pub approval_is_carried_out :
    (env : Env) (agent : Agent) (ctx : Context) (s : State) (uuid : String) (c : Conversation)
    (a : PendingApproval) (e : Event)
    → find_conversation_by_approval_uuid s.files uuid ≡ found c
    → c.pending_approval ≡ some a
    → approved_call agent (enrich ctx c) a ≡ some e
    → Makes e s (resolve env agent ctx uuid true s).1
unfolding resolve when_some
approval_is_carried_out env agent ctx s uuid c a e stored held approved =
    rw (stored, resolve)
      (subst
        (λ (o : Option PendingApproval).
          Makes e s
            (when_some o (λ b. decide env agent (enrich ctx c) true b c.pipeline_state)
              (throw (errorf ("no pending approval found" ∷ []))) (record s { conv = c })).1)
        (sym held)
        (from_here (
          decide-Makes env agent (enrich ctx c) (Any-Permits agent _ false)
            (λ root q h. Any-Permits agent _ true)
            (λ root q. every-TreeSends agent _ _ root (λ d m. tt)) a e approved c.pipeline_state
            (record s { conv = c }))))
  where
    from_here : {t : State} → Makes e (record s { conv = c }) t → Makes e s t
    from_here k = record { later = k.later; trace = k.trace }
