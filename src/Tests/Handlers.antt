-- ===== src/Tests/Handlers.antt =====
-- The theorems on the HTTP handlers, with the small agent.
use agent_stop_and_go.Prelude.{refl, lookup}
use agent_stop_and_go.Conversation.{Conversation, new}
use agent_stop_and_go.Storage.{load_conversation}
use agent_stop_and_go.Agent.Process.{enrich}
use agent_stop_and_go.Agent.Trace.{Adds}
use agent_stop_and_go.Agent.Gate.{IsHarmless}
use agent_stop_and_go.Api.{Texts, Headers, extract_context}
use agent_stop_and_go.Api.Rpc.{send_text}
use agent_stop_and_go.Api.Rpc.Gate.{text_needs_no_approval}
use agent_stop_and_go.Tests.{env, agent, waiting, remote, fresh, state_of, on_tree}
use agent_stop_and_go.Tests.Approvals.{tree_closed, tree-Agrees}

abbrev texts : Texts
texts = record { to_lower = λ s. s; trim_space = λ s. s }

abbrev headers : Headers
headers = record { authorization = "Bearer token"; session_id = "" }

abbrev held : Conversation
held = waiting remote

text_needs_no_approval_example :
    Adds
      (IsHarmless agent (enrich (extract_context headers) fresh))
      (state_of fresh)
      (send_text env agent texts headers "c1" "Remove 7." (state_of fresh)).1
unfolding load_conversation lookup new
text_needs_no_approval_example =
    text_needs_no_approval env agent texts headers "c1" "Remove 7." (state_of fresh) fresh refl refl
      refl refl (on_tree _ tree_closed) (on_tree _ tree-Agrees)
