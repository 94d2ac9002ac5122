-- ===== src/Agent/Gate/Messages.antt =====
-- The calls of ProcessMessage.
use agent_stop_and_go.Prelude.{
  ◌≡◌, refl, ap, subst, not, ◌&&◌, ◌==◌, if◌then◌else◌, eq_iff, String, Bool, true, false, Option,
  some, arith, Bool-cases, inl, inr,
}
use agent_stop_and_go.Config.{AgentNode}
use agent_stop_and_go.Agent.Exec.Keeps.{
  Keeps, keeps_rules, Keeps-when_some, Keeps-panics, Keeps-bind, Keeps-if,
}
use agent_stop_and_go.Conversation.{Conversation, user}
use agent_stop_and_go.Agent.World.{
  Env, Agent, State, Context, Event, generated, tool_called, message_sent, task_continued, saved,
}
use agent_stop_and_go.Agent.Trace.{
  Adds, Adds-IsPreorder, Adds-nothing, add_message-Adds, save-Adds, set_session-Adds,
}
use agent_stop_and_go.Agent.Node.{ResumeInfo}
use agent_stop_and_go.Agent.Process.{
  enrich, is_simple_agent, execute_root, process_orchestrated, process_new, process_message,
}
use agent_stop_and_go.Conversation.{is_waiting}
use agent_stop_and_go.Agent.Gate.{Permits, IsHarmless, IsHarmless-Permits}
use agent_stop_and_go.Agent.Gate.SimpleLoop.{process_simple_message-Adds}
use agent_stop_and_go.Agent.Gate.Trees.{
  opens, Agrees, TreeSends, Agrees-TreeSends, every-TreeSends, execute_node-Adds,
}

-- A condition on the tree of an agent, where it has one.
abbrev pub OnTree : Agent → (AgentNode → Type 0) → Type 0
OnTree agent Q = (root : AgentNode) → agent.config.agent ≡ some root → Q root

module _ (env : Env) (agent : Agent) (ctx : Context) {P : Event → Type 0}
    (p : Permits agent ctx false P)
    (unlocked : OnTree agent (λ root. opens root ≡ true → Permits agent ctx true P))
    (sends : OnTree agent (λ root. TreeSends agent ctx P root)) where
  pub execute_root-Adds :
      (message : String) (resume : Option ResumeInfo)
      → Keeps
          (Adds P)
          (execute_root env agent (record { ctx = ctx; user_message = message }) resume)
  unfolding execute_root
  execute_root-Adds message resume =
      Keeps-when_some _ _ _
        (λ root e.
          execute_node-Adds env agent _ P root _ false resume p (unlocked root e) (sends root e))
        (λ _. Keeps-panics (Adds-IsPreorder P))

  process_orchestrated-Adds :
      (message : String) → Keeps (Adds P) (process_orchestrated env agent ctx message)
  unfolding process_orchestrated
  process_orchestrated-Adds message =
      search
        (
          keeps_rules, Adds-IsPreorder, set_session-Adds, execute_root-Adds, save-Adds,
          add_message-Adds, p.saves,
        )
        depth 7

  pub process_new-Adds : (message : String) → Keeps (Adds P) (process_new env agent ctx message)
  unfolding process_new
  process_new-Adds message =
      Keeps-bind (Adds-IsPreorder P) _ _ (add_message-Adds env user message) (λ _.
        Keeps-if (is_simple_agent agent.config) _ _
          (λ _. process_simple_message-Adds env agent ctx p)
          (λ _. process_orchestrated-Adds message))

module _ (env : Env) (agent : Agent) (ctx : Context) {P : Event → Type 0} where
  -- ProcessMessage, under the conditions on its tree.
  pub process_message-Adds :
      (s : State) (message : String)
      → Permits agent (enrich ctx s.conv) false P
      → OnTree agent (λ root. opens root ≡ true → Permits agent (enrich ctx s.conv) true P)
      → OnTree agent (λ root. TreeSends agent (enrich ctx s.conv) P root)
      → Adds P s (process_message env agent ctx message s).1
  unfolding process_message
  process_message-Adds s message p unlocked sends = elim (Bool-cases (is_waiting s.conv.status)) [
    | inl waits ↦ rw waits (Adds-nothing P s s refl)
    | inr free ↦
        rw free ((process_new-Adds env agent (enrich ctx s.conv) p unlocked sends message).at s)
  ]

-- Every call that ProcessMessage makes for an agent without parallel nodes and loops, in which each
-- remote node has the hint of its client, needs no approval: no tool and no agent with a destructive
-- hint is called, and no remote task is continued.
pub message_gate :
    (env : Env) (agent : Agent) (ctx : Context) (s : State) (message : String)
    → OnTree agent (λ root. opens root ≡ false)
    → OnTree agent (λ root. Agrees agent root)
    → Adds (IsHarmless agent (enrich ctx s.conv)) s (process_message env agent ctx message s).1
message_gate env agent ctx s message locked agrees =
    process_message-Adds env agent ctx s message (IsHarmless-Permits agent (enrich ctx s.conv))
      (λ root e h. cc (locked root e)) (λ root e. Agrees-TreeSends agent _ _ root (agrees root e))

-- The context of a call; a save has none.
abbrev pub Carries : Context → Event → Type 0
Carries ctx (saved c) = Unit
Carries ctx (generated d client prompt messages tools) = d ≡ ctx
Carries ctx (tool_called d i name args) = d ≡ ctx
Carries ctx (message_sent d c message) = d ≡ ctx
Carries ctx (task_continued d c task message) = d ≡ ctx

pub Carries-Permits :
    (agent : Agent) (ctx : Context) (allow : Bool) → Permits agent ctx allow (Carries ctx)
Carries-Permits agent ctx allow = record {
  saves = λ c. tt;
  generates = λ client prompt messages tools. refl;
  calls = λ name args t i found safe. refl;
  sends = λ key c message found safe. refl;
}

-- The context that a request is to have on a conversation.
abbrev pub on_conversation : Context → Conversation → Context
on_conversation ctx c = record {
  bearer_token = ctx.bearer_token;
  session_id = if ctx.session_id == "" then c.session_id else ctx.session_id;
}

enrich_lem : (ctx : Context) (c : Conversation) → enrich ctx c ≡ on_conversation ctx c
unfolding enrich
enrich_lem ctx c = enriched (c.session_id == "") (ctx.session_id == "") refl refl
  where
    enriched :
        (blank own : Bool)
        → (c.session_id == "") ≡ blank
        → (ctx.session_id == "") ≡ own
        → (if not blank && own then record ctx { session_id = c.session_id } else ctx) ≡ record {
          bearer_token = ctx.bearer_token;
          session_id = if own then c.session_id else ctx.session_id;
        }
    enriched true true e f =
        ap (λ (x : String). record ctx { session_id = x })
          (ground (arith, eq_iff c.session_id "", eq_iff ctx.session_id "", e, f))
    enriched true false e f = refl
    enriched false true e f = refl
    enriched false false e f = refl

-- Whatever tree the agent has, every call to an LLM, a tool or another agent that ProcessMessage makes
-- carries the bearer token of the request, and its session, or the conversation's where the request
-- has none.
pub message_context :
    (env : Env) (agent : Agent) (ctx : Context) (s : State) (message : String)
    → Adds (Carries (on_conversation ctx s.conv)) s (process_message env agent ctx message s).1
message_context env agent ctx s message =
    subst (λ d. Adds (Carries d) s (process_message env agent ctx message s).1)
      (enrich_lem ctx s.conv)
      (process_message-Adds env agent ctx s message (Carries-Permits agent _ false)
        (λ root e h. Carries-Permits agent _ true)
        (λ root e. every-TreeSends agent _ _ root (λ c m. refl)))
