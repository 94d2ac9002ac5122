-- ===== src/Agent/Process.antt =====
-- StartConversation, ProcessMessage and processOrchestrated of internal/agent/agent.go, and what Start
-- makes of the configured A2A agents.
use agent_stop_and_go.Prelude.{
  suc, ◌+◌, String, Bool, true, false, not, ◌&&◌, Option, none, some, List, [], ◌∷◌, ◌==◌, concat,
  lookup, insert, Assoc, is_some, if◌then◌else◌,
}
use agent_stop_and_go.Conversation
use agent_stop_and_go.Conversation.{is_waiting}
use agent_stop_and_go.Conversation.{
  Conversation, Status, active, waiting_approval, completed, user, assistant,
}
use agent_stop_and_go.Config.{Config, A2aAgent, NodeInfo, AgentNode, AgentNodes, node, nil, cons}
use agent_stop_and_go.A2a.{Client}
use agent_stop_and_go.Session.{new_session_state}
use agent_stop_and_go.Agent.Exec.{Exec, ok, pure, panics, ◌>>◌, try, when_some}
use agent_stop_and_go.Agent.World.{Env, Agent, State, Context}
use agent_stop_and_go.Agent.Effects.{add_message, save, set_session}
use agent_stop_and_go.Agent.Simple.{ProcessResult, answer, process_simple_message}
use agent_stop_and_go.Agent.Node.{NodeResult, ResumeInfo, Call}
use agent_stop_and_go.Agent.Tree.{execute_node}

-- a2a.NewClient
abbrev pub new_client : String → String → String → Bool → Client
new_client name url description hint = record {
  name = name;
  url = url;
  description = description;
  destructive_hint = hint;
}

abbrev client_of : A2aAgent → Client
client_of c = new_client c.name c.url c.description c.destructive_hint

-- The loop of Start over the top-level A2A agents.
unfoldable pub a2a_clients_of : List A2aAgent → Assoc Client → Assoc Client
a2a_clients_of [] clients = clients
a2a_clients_of (c ∷ rest) clients = a2a_clients_of rest (insert c.name (client_of c) clients)

-- if _, exists := clients[c.Name]; !exists { clients[c.Name] = c }
unfoldable pub add_client : Client → Assoc Client → Assoc Client
add_client c clients = if is_some (lookup c.name clients) then clients else insert c.name c clients

unfoldable pub add_clients : List A2aAgent → Assoc Client → Assoc Client
add_clients [] clients = clients
add_clients (c ∷ rest) clients = add_clients rest (add_client (client_of c) clients)

-- The clients of one node: those of an LLM node, and the node itself if it is a remote agent.
unfoldable pub node_clients : NodeInfo → Assoc Client → Assoc Client
node_clients n clients =
    let own = add_clients n.a2a clients in
    if n.type == "a2a" && not (n.url == "")
    then add_client (new_client n.name n.url n.description n.destructive_hint) own
    else own

-- initA2AFromTree
unfoldable mutual
  pub init_a2a_from_tree : AgentNode → Assoc Client → Assoc Client
  init_a2a_from_tree (node n agents) clients = init_a2a_from_trees agents (node_clients n clients)

  pub init_a2a_from_trees : AgentNodes → Assoc Client → Assoc Client
  init_a2a_from_trees nil clients = clients
  init_a2a_from_trees (cons child rest) clients =
      init_a2a_from_trees rest (init_a2a_from_tree child clients)

-- The A2A clients of an agent that Start has started.
unfoldable pub start_a2a_clients : Config → Assoc Client
start_a2a_clients cfg =
    let top = a2a_clients_of cfg.a2a [] in
    elim cfg.agent [ none ↦ top | some n ↦ init_a2a_from_tree n top ]

-- len(node.Agents) == 0
abbrev no_children : AgentNodes → Bool
no_children nil = true
no_children (cons child rest) = false

-- a.config.Agent.Type == "llm" && len(a.config.Agent.Agents) == 0
abbrev is_leaf : AgentNode → Bool
is_leaf (node n agents) = n.type == "llm" && no_children agents

unfoldable pub is_simple_agent : Config → Bool
is_simple_agent cfg = elim cfg.agent [ none ↦ true | some n ↦ is_leaf n ]

-- ctx = auth.WithSessionID(ctx, conv.SessionID), where the request carries none
unfoldable pub enrich : Context → Conversation → Context
enrich ctx c =
    if not (c.session_id == "") && ctx.session_id == ""
    then record ctx { session_id = c.session_id }
    else ctx

-- What ProcessMessage and ResolveApproval return of a node's result.
abbrev pub process_result : NodeResult → ProcessResult
process_result r = record {
  response = r.response;
  waiting_approval = r.waiting_approval;
  approval = r.approval;
  auth_required = r.auth_required;
}

module _ (env : Env) (agent : Agent) where
  -- executeNode of the root; a root that is nil is dereferenced.
  unfoldable pub execute_root : Call → Option ResumeInfo → Exec State NodeResult
  execute_root call resume =
      when_some agent.config.agent (λ root. execute_node env agent call root [] false resume) panics

  unfoldable pub process_orchestrated : Context → String → Exec State ProcessResult
  process_orchestrated ctx user_message = do
    set_session (λ _. new_session_state)
    try (execute_root (record { ctx = ctx; user_message = user_message }) none)
        (λ result. do save env; pure (process_result result))
        (λ e. do
          let message = concat ("Pipeline error: " ∷ e.text ∷ [])
          add_message env assistant message
          save env
          pure (answer message))

  unfoldable pub process_new : Context → String → Exec State ProcessResult
  process_new ctx user_message = do
    add_message env user user_message
    if is_simple_agent agent.config
        then process_simple_message env agent ctx
        else process_orchestrated ctx user_message

  -- ProcessMessage
  unfoldable pub process_message : Context → String → Exec State ProcessResult
  process_message ctx user_message s =
      if is_waiting s.conv.status
      then (
        ok (record {
          response =
              "Conversation is waiting for approval. Please respond to the pending approval first.";
          waiting_approval = true;
          approval = s.conv.pending_approval;
          auth_required = false;
        }),
        s,
      )
      else process_new (enrich ctx s.conv) user_message s

  -- StartConversation: the new conversation becomes the one at hand, and is saved.
  unfoldable pub start_conversation : Context → Exec State (Unit {0})
  start_conversation ctx s =
      let c =
        Conversation.new (env.draw s.draws) (env.draw (suc s.draws)).id agent.config.prompt
          ctx.session_id in
      save env (record s { conv = c; draws = s.draws + 2 })
