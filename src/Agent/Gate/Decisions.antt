-- ===== src/Agent/Gate/Decisions.antt =====
-- The calls of ResolveApproval: at most one that the decision authorises, among calls that need no
-- approval.
use agent_stop_and_go.Prelude.{
  ◌≡◌, refl, sym, String, Bool, true, false, Option, none, some, [], ◌∷◌, lookup, trim_prefix,
  if◌then◌else◌, subst,
}
use agent_stop_and_go.Json.{string_arg}
use agent_stop_and_go.Conversation.{Conversation, PendingApproval, PipelineState}
use agent_stop_and_go.Mcp.{errorf}
use agent_stop_and_go.Agent.Exec.{when_some, throw}
use agent_stop_and_go.Agent.Exec.Keeps.{Keeps, Keeps-if, Keeps-when_some, Keeps-pure}
use agent_stop_and_go.Agent.World.{
  Env, Agent, State, Context, Event, generated, tool_called, message_sent, task_continued, saved,
}
use agent_stop_and_go.Agent.Trace.{
  Adds-IsPreorder, add_message-Adds, resolve_approval-Adds, set_pipeline_state-Adds, save-Adds,
}
use agent_stop_and_go.Agent.Effects.{continue_task}
use agent_stop_and_go.Agent.Messages.{a2a_tool_prefix}
use agent_stop_and_go.Agent.Approval.{is_proxy, forward_rejection, reject, approve, decide, resolve}
use agent_stop_and_go.Agent.Process.{enrich}
use agent_stop_and_go.Storage.{found, find_conversation_by_approval_uuid}
use agent_stop_and_go.Agent.Gate.{Permits, IsHarmless, IsHarmless-Permits}
use agent_stop_and_go.Agent.Gate.Trees.{opens, Agrees, TreeSends, Agrees-TreeSends}
use agent_stop_and_go.Agent.Gate.Messages.{OnTree}
use agent_stop_and_go.Agent.Gate.Single.{AllButOne, weaken, ask-One, One-try, One-bind, bind-One}
use agent_stop_and_go.Agent.Gate.Approvals.{approve_proxy-One, approve_direct-One}

-- A call that a decision authorises. An approval of a tool here is for that tool and its arguments; a
-- decision on a remote task is passed on to the agent that has the task, and nothing else.
abbrev pub IsAuthorised : Agent → Context → PendingApproval → Bool → Event → Type 0
IsAuthorised agent ctx a approved (saved c) = ⊥
IsAuthorised agent ctx a approved (generated d client prompt messages tools) = ⊥
IsAuthorised agent ctx a approved (tool_called d i name args) =
    (approved ≡ true)
    × (is_proxy a ≡ false)
    × (name ≡ a.tool_name)
    × (args ≡ a.tool_args)
    × (d ≡ ctx)
IsAuthorised agent ctx a approved (message_sent d c message) =
    (approved ≡ true)
    × (is_proxy a ≡ false)
    × (lookup (trim_prefix a.tool_name a2a_tool_prefix) agent.a2a_clients ≡ some c)
    × (message ≡ string_arg a.tool_args "message")
    × (d ≡ ctx)
IsAuthorised agent ctx a approved (task_continued d c task message) =
    (is_proxy a ≡ true)
    × (lookup a.remote_agent_name agent.a2a_clients ≡ some c)
    × (task ≡ a.remote_task_id)
    × (message ≡ (if approved then "approved" else "rejected"))
    × (d ≡ ctx)

module _ (env : Env) (agent : Agent) (ctx : Context) {P : Event → Type 0}
    (p : Permits agent ctx false P)
    (unlocked : OnTree agent (λ root. opens root ≡ true → Permits agent ctx true P))
    (sends : OnTree agent (λ root. TreeSends agent ctx P root)) (a : PendingApproval) where
  approve-One :
      (pipeline : Option PipelineState)
      → Keeps (AllButOne (IsAuthorised agent ctx a true) P) (approve env agent ctx a pipeline)
  unfolding approve
  approve-One pipeline = bind-One _ _ (add_message-Adds env _ _) (λ _.
      Keeps-if (is_proxy a) _ _
        (λ remote.
          approve_proxy-One env agent ctx p unlocked sends a _ pipeline
            (λ c found. (remote, found, refl, refl, refl)))
        (λ here.
          approve_direct-One env agent ctx p unlocked sends a _ pipeline
            (λ i. (refl, here, refl, refl, refl)) (λ c found. (refl, here, found, refl, refl))))

  forward_rejection-One :
      Keeps (AllButOne (IsAuthorised agent ctx a false) P) (forward_rejection env agent ctx a)
  unfolding forward_rejection continue_task
  forward_rejection-One =
      Keeps-if (is_proxy a) _ _
        (λ remote.
          Keeps-when_some _ _ _
            (λ client found.
              One-try _ _ _ (ask-One env _ _ (remote, found, refl, refl, refl))
                (λ _. Keeps-pure (Adds-IsPreorder P) _) (λ _. Keeps-pure (Adds-IsPreorder P) _))
            (λ _. weaken (Keeps-pure (Adds-IsPreorder P) _)))
        (λ _. weaken (Keeps-pure (Adds-IsPreorder P) _))

  reject-One : Keeps (AllButOne (IsAuthorised agent ctx a false) P) (reject env agent ctx a)
  unfolding reject
  reject-One = bind-One _ _ (add_message-Adds env _ _) (λ _.
      bind-One _ _ (add_message-Adds env _ _) (λ _.
        bind-One _ _ (save-Adds env p.saves)
          (λ _. One-bind _ _ forward_rejection-One (λ _. Keeps-pure (Adds-IsPreorder P) _))))

  pub decide-One :
      (approved : Bool) (pipeline : Option PipelineState)
      → Keeps
          (AllButOne (IsAuthorised agent ctx a approved) P)
          (decide env agent ctx approved a pipeline)
  unfolding decide
  decide-One true pipeline =
      bind-One _ _ (resolve_approval-Adds env)
        (λ _. bind-One _ _ (set_pipeline_state-Adds env none) (λ _. approve-One pipeline))
  decide-One false pipeline =
      bind-One _ _ (resolve_approval-Adds env)
        (λ _. bind-One _ _ (set_pipeline_state-Adds env none) (λ _. reject-One))

-- A decision on a pending approval leads to at most one call that it authorises: if it approves a
-- tool here, that tool with the arguments that were shown, and if the approval stands for one of a
-- remote agent, the decision itself, to that agent and for that task. Every other call needs no
-- approval, for an agent without parallel nodes and loops in which each remote node has the hint of
-- its client. So a rejection leads to no destructive tool or agent, and to no remote task but the
-- one it rejects.
pub decision_gate :
    (env : Env) (agent : Agent) (ctx : Context) (s : State) (uuid : String) (approved : Bool)
    (c : Conversation) (a : PendingApproval)
    → find_conversation_by_approval_uuid s.files uuid ≡ found c
    → c.pending_approval ≡ some a
    → OnTree agent (λ root. opens root ≡ false)
    → OnTree agent (λ root. Agrees agent root)
    → AllButOne
        (IsAuthorised agent (enrich ctx c) a approved)
        (IsHarmless agent (enrich ctx c))
        s
        (resolve env agent ctx uuid approved s).1
unfolding resolve when_some
decision_gate env agent ctx s uuid approved c a e h locked agrees =
    rw (e, resolve)
      (subst
        (λ (o : Option PendingApproval).
          AllButOne (IsAuthorised agent (enrich ctx c) a approved) (IsHarmless agent (enrich ctx c))
            s
            (when_some o (λ b. decide env agent (enrich ctx c) approved b c.pipeline_state)
              (throw (errorf ("no pending approval found" ∷ []))) (record s { conv = c })).1)
        (sym h)
        (with_trace (
          (decide-One env agent (enrich ctx c) (IsHarmless-Permits agent (enrich ctx c))
              (λ root q l. cc (locked root q))
              (λ root q. Agrees-TreeSends agent _ _ root (agrees root q)) a approved
              c.pipeline_state).at
            (record s { conv = c }))))
  where
    with_trace :
        {t : State}
        → AllButOne
            (IsAuthorised agent (enrich ctx c) a approved)
            (IsHarmless agent (enrich ctx c))
            (record s { conv = c })
            t
        → AllButOne
            (IsAuthorised agent (enrich ctx c) a approved)
            (IsHarmless agent (enrich ctx c))
            s
            t
    with_trace k = record {
      before = k.before;
      one = k.one;
      after = k.after;
      trace = k.trace;
      all_before = k.all_before;
      single = k.single;
      all_after = k.all_after;
    }
