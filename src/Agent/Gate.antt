-- ===== src/Agent/Gate.antt =====
-- Which calls the agent makes: a predicate that permits the calls which need no approval holds of
-- every call.
pub mod SimpleLoop
pub mod Nodes
pub mod Trees
pub mod Messages
pub mod Single
pub mod Approvals
pub mod Decisions
pub mod Approved
use agent_stop_and_go.Prelude.{
  ℕ, String, ◌≡◌, refl, Bool, true, false, not, ◌&&◌, Option, none, some, List, lookup, arith,
}
use agent_stop_and_go.Json.{Args}
use agent_stop_and_go.Conversation.{Conversation}
use agent_stop_and_go.Mcp.{Tool}
use agent_stop_and_go.Mcp.Composite.{get_tool}
use agent_stop_and_go.A2a.{Client}
use agent_stop_and_go.Llm.{LlmClient, LlmMessage}
use agent_stop_and_go.Agent.World.{
  Agent, Context, Event, generated, tool_called, message_sent, task_continued, saved,
}

-- P permits the calls of the agent in a context: all saves and questions to the LLM, and the tools and
-- agents that are not destructive, or all of them where `allow` is set.
pub record Permits (agent : Agent) (ctx : Context) (allow : Bool) (P : Event → Type 0)
    : Type 0 where
  pub saves : (c : Conversation) → P (saved c)
  pub generates :
      (client : LlmClient) (prompt : String) (messages : List LlmMessage) (tools : List Tool)
      → P (generated ctx client prompt messages tools)
  pub calls :
      (name : String) (args : Args) (t : Tool) (i : ℕ)
      → get_tool agent.mcp_client name ≡ some t
      → (t.destructive_hint && not allow) ≡ false
      → P (tool_called ctx i name args)
  pub sends :
      (key : String) (c : Client) (message : String)
      → lookup key agent.a2a_clients ≡ some c
      → (c.destructive_hint && not allow) ≡ false
      → P (message_sent ctx c message)

pub and_not : (b allow : Bool) → b ≡ false → (b && not allow) ≡ false
and_not b allow h = ground arith

-- An event that needs no approval: no tool or agent with a destructive hint is called, no message
-- continues a task of another agent, and every call carries the context.
abbrev pub IsHarmless : Agent → Context → Event → Type 0
IsHarmless agent ctx (saved c) = Unit
IsHarmless agent ctx (generated d client prompt messages tools) = d ≡ ctx
IsHarmless agent ctx (tool_called d i name args) =
    (t : Tool) × (get_tool agent.mcp_client name ≡ some t)
    × (t.destructive_hint ≡ false)
    × (d ≡ ctx)
IsHarmless agent ctx (message_sent d c message) = (c.destructive_hint ≡ false) × (d ≡ ctx)
IsHarmless agent ctx (task_continued d c task message) = ⊥

pub IsHarmless-Permits :
    (agent : Agent) (ctx : Context) → Permits agent ctx false (IsHarmless agent ctx)
IsHarmless-Permits agent ctx = record {
  saves = λ c. tt;
  generates = λ client prompt messages tools. refl;
  calls = λ name args t i found safe. (t, found, ground arith, refl);
  sends = λ key c message found safe. (ground arith, refl);
}
