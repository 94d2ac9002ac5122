-- ===== src/Tests/Approvals.antt =====
-- The theorems on approvals and pauses, at the small agent.
use agent_stop_and_go.Prelude.{
  ◌≡◌, refl, ap, sym, true, false, none, some, [], ◌∷◌, lookup, has_prefix, arith, join,
}
use agent_stop_and_go.Conversation.{waiting_approval}
use agent_stop_and_go.Storage.{
  find_conversation_by_approval_uuid, list_conversations, find_approval, holds_approval,
}
use agent_stop_and_go.A2a.{Client}
use agent_stop_and_go.Agent.Exec.{try, pure, ◌>>=◌, resume_with, reads, when_some}
use agent_stop_and_go.Agent.World.{tool_called}
use agent_stop_and_go.Agent.Simple.{waiting}
use agent_stop_and_go.Agent.Node.{responds}
use agent_stop_and_go.Agent.Tree.{
  node_type, Branch, stops, execute_parallel, execute_loop, run_scheduled, first_error, responses,
  sent_by,
}
use agent_stop_and_go.Agent.Process.{process_message, enrich}
use agent_stop_and_go.Agent.Approval.{resolve, decide}
use agent_stop_and_go.Agent.Trace.{Adds}
use agent_stop_and_go.Agent.Gate.{IsHarmless}
use agent_stop_and_go.Agent.Gate.Single.{AllButOne}
use agent_stop_and_go.Agent.Gate.Trees.{opens, Agrees}
use agent_stop_and_go.Agent.Gate.Messages.{message_gate, message_context, Carries, on_conversation}
use agent_stop_and_go.Agent.Gate.Approved.{approval_is_carried_out, Makes}
use agent_stop_and_go.Agent.Gate.Decisions.{decision_gate, IsAuthorised}
use agent_stop_and_go.Agent.Approval.Pauses.{chained_proxy_drops_pipeline}
use agent_stop_and_go.Agent.Tree.Pauses.{parallel_never_stops, loop_ignores_pause, iterate}
use agent_stop_and_go.Json.{str}
use agent_stop_and_go.Llm.{LlmToolCall}
use agent_stop_and_go.Mcp.Composite.{route}
use agent_stop_and_go.Tests.{
  waiting as waiting_on, env, agent, ctx, fresh, approval, remote, paused, state_of, tree, on_tree,
  helper, plain_node,
}

pub tree_closed : opens tree ≡ false
unfolding opens node_type
tree_closed = refl

hint_of : (c : Client) → helper ≡ c → c.destructive_hint ≡ false
hint_of c e = ap (λ (d : Client). d.destructive_hint) (sym e)

pub tree-Agrees : Agrees agent tree
unfolding Agrees lookup
tree-Agrees = (
  λ c e. absurd (ground arith),
  ((λ c e. absurd (ground arith), tt), ((λ c e. hint_of c (ground arith), tt), tt)),
)

message_gate_example :
    Adds
      (IsHarmless agent (enrich ctx fresh))
      (state_of fresh)
      (process_message env agent ctx "Remove 7." (state_of fresh)).1
message_gate_example =
    message_gate env agent ctx (state_of fresh) "Remove 7." (on_tree _ tree_closed)
      (on_tree _ tree-Agrees)

message_context_example :
    Adds
      (Carries (on_conversation ctx fresh))
      (state_of fresh)
      (process_message env agent ctx "Remove 7." (state_of fresh)).1
message_context_example = message_context env agent ctx (state_of fresh) "Remove 7."

decision_gate_example :
    AllButOne
      (IsAuthorised agent (enrich ctx (waiting_on remote)) remote true)
      (IsHarmless agent (enrich ctx (waiting_on remote)))
      (state_of (waiting_on remote))
      (resolve env agent ctx "a1" true (state_of (waiting_on remote))).1
unfolding find_conversation_by_approval_uuid list_conversations find_approval holds_approval
decision_gate_example =
    decision_gate env agent ctx (state_of (waiting_on remote)) "a1" true (waiting_on remote) remote
      refl refl (on_tree _ tree_closed) (on_tree _ tree-Agrees)

approval_is_carried_out_example :
    Makes
      (tool_called (enrich ctx (waiting_on approval)) 0 "resources_remove" (("id", str "7") ∷ []))
      (state_of (waiting_on approval))
      (resolve env agent ctx "a1" true (state_of (waiting_on approval))).1
unfolding find_conversation_by_approval_uuid list_conversations find_approval holds_approval lookup
    has_prefix route
approval_is_carried_out_example =
    approval_is_carried_out env agent ctx (state_of (waiting_on approval)) "a1"
      (waiting_on approval) approval _ refl refl refl

abbrev removal : LlmToolCall
removal = record { name = "resources_remove"; arguments = ("id", str "7") ∷ [] }

chained_proxy_drops_pipeline_example :
    ((decide env agent ctx true remote
        (some paused)
        (state_of (waiting_on remote))).1.conv.pipeline_state
      ≡ none)
    × ((decide env agent ctx true remote (some paused) (state_of (waiting_on remote))).1.conv.status
        ≡ waiting_approval)
unfolding lookup
chained_proxy_drops_pipeline_example =
    chained_proxy_drops_pipeline env agent ctx remote paused (state_of (waiting_on remote)) helper _
      refl refl (λ trace. refl) refl

-- A child that responds to everything.
abbrev talks : Branch
talks resume = pure (responds "done")

-- A child that pauses.
abbrev pauses : Branch
pauses resume =
    pure (record (responds "Approve?") { waiting_approval = true; approval = some approval })

parallel_never_stops_example : stops (responds "Approve?") ≡ false
unfolding execute_parallel run_scheduled first_error responses reads ◌>>=◌ resume_with pure
    when_some try join sent_by
parallel_never_stops_example =
    parallel_never_stops env (pauses ∷ []) (state_of fresh) (state_of fresh) (responds "Approve?")
      refl

loop_ignores_pause_example :
    (execute_loop plain_node (pauses ∷ []) (state_of fresh)).1
    ≡ iterate 10 (λ u. (pauses none u).1) (state_of fresh)
unfolding pure
loop_ignores_pause_example =
    loop_ignores_pause plain_node pauses (state_of fresh) (λ s. (_, s, refl, refl))
