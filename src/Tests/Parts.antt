-- ===== src/Tests/Parts.antt =====
-- The theorems on the parts of the agent, at small data.
use agent_stop_and_go.Prelude.{
  ℕ, ◌≡◌, refl, String, true, some, List, [], ◌∷◌, get_elem?, All, lookup, insert, is_some, arith,
}
use agent_stop_and_go.Conversation.{new, user, assistant, PendingApproval}
use agent_stop_and_go.Conversation.Lifecycle.{
  all_said, lifecycle, Operation, IsConsistent, Extends, operate_all, adds_message, waits_for,
  resolves,
}
use agent_stop_and_go.Mcp.Composite.{
  CompositeClient, new_composite_client, start, start_all, aggregate, merge_clients, merge_tools,
  get_tool, route,
}
use agent_stop_and_go.Mcp.Composite.Starting.{start-IsAllOrNothing, IsAllOrNothing, is_running}
use agent_stop_and_go.Mcp.Composite.Routing.{start_routes_each_tool}
use agent_stop_and_go.Storage.{
  Files, find_conversation_by_approval_uuid, list_conversations, find_approval, holds_approval,
}
use agent_stop_and_go.Storage.Finding.{approval_found}
use agent_stop_and_go.Config.{
  Config, McpServerConfig, load, validate_mcp_servers, validate_from, with_defaults,
}
use agent_stop_and_go.Config.Loading.{AreNamed, loaded_names}
use agent_stop_and_go.Agent.Messages.{convert_to_llm_messages}
use agent_stop_and_go.Agent.Messages.Alternation.{alternation, Alternates, IsSpoken}
use agent_stop_and_go.Tests.{
  draw, env, fresh, approval, waiting, remove_tool, list_tool, named_client, configuration,
}

abbrev history : List Operation
history =
    adds_message draw user "Remove 7."
    ∷ waits_for draw "resources_remove" [] "Remove?"
    ∷ resolves 9
    ∷ adds_message draw assistant "Removed."
    ∷ []

lifecycle_example :
    IsConsistent (operate_all (new draw "m1" "Help." "session") history)
    × Extends
        (new draw "m1" "Help." "session")
        (all_said history)
        (operate_all (new draw "m1" "Help." "session") history)
lifecycle_example = lifecycle draw "m1" "Help." "session" history

abbrev client : CompositeClient
client =
    new_composite_client
      (named_client "resources" (remove_tool ∷ []) ∷ named_client "lists" (list_tool ∷ []) ∷ [])

start-IsAllOrNothing_example : IsAllOrNothing 2 (start (client, []))
unfolding new_composite_client is_running
start-IsAllOrNothing_example = start-IsAllOrNothing client [] refl (λ j. ground arith)

start_routes_each_tool_example :
    (get_tool (start (client, [])).1.0 "resources_list"
      ≡ some (record list_tool { server = "lists" }))
    × (route (start (client, [])).1.0 "resources_list" ≡ some 1)
unfolding new_composite_client start start_all aggregate merge_clients merge_tools lookup insert
start_routes_each_tool_example =
    start_routes_each_tool client [] 1 0 (named_client "lists" (list_tool ∷ [])) list_tool refl refl
      refl refl

alternation_example :
    Alternates (convert_to_llm_messages env (operate_all fresh history).messages)
    × All IsSpoken (convert_to_llm_messages env (operate_all fresh history).messages)
alternation_example = alternation env (operate_all fresh history).messages

abbrev the_files : Files
the_files = ("c1", waiting approval) ∷ []

approval_found_example :
    ((a : PendingApproval) × ((waiting approval).pending_approval ≡ some a) × (a.uuid ≡ "a1"))
    × (i : ℕ) × (id : String) × (get_elem? the_files i ≡ some (id, waiting approval))
unfolding find_conversation_by_approval_uuid list_conversations find_approval holds_approval
approval_found_example = approval_found the_files "a1" (waiting approval) refl

abbrev server : McpServerConfig
server = record { name = "resources"; url = ""; command = "r"; args = [] }

abbrev configured : Config
configured = record configuration { mcp_servers = server ∷ record server { name = "files" } ∷ [] }

loaded_names_example :
    (is_some (load (λ n. "i") configured).1.agent ≡ true)
    × AreNamed (load (λ n. "i") configured).1.mcp_servers
unfolding load validate_mcp_servers validate_from with_defaults lookup insert
loaded_names_example = loaded_names (λ n. "i") configured refl
