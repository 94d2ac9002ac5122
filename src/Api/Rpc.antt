-- ===== src/Api/Rpc.antt =====
-- The A2A server of internal/api/handlers.go: a conversation as a task of other agents.
pub mod Gate
use agent_stop_and_go.Prelude.{
  String, Bool, true, false, not, ◌&&◌, Option, none, some, List, [], ◌∷◌, ◌==◌, if◌then◌else◌,
  concat, is_some,
}
use agent_stop_and_go.Conversation.{
  Conversation, Message, Role, assistant, system, user, tool, PendingApproval, is_waiting,
}
use agent_stop_and_go.Mcp.{Error}
use agent_stop_and_go.A2a.{Task, Part}
use agent_stop_and_go.Storage.{Found, found, missing, load_conversation}
use agent_stop_and_go.Agent.Exec.{Exec, pure, throw, reads, ◌>>=◌, try}
use agent_stop_and_go.Agent.World.{Env, Agent, State, Context}
use agent_stop_and_go.Agent.Simple.{ProcessResult}
use agent_stop_and_go.Agent.Process.{start_conversation}
use agent_stop_and_go.Agent.Approval.{resolve}
use agent_stop_and_go.Api.{
  Texts, Headers, Parsed, parsed, malformed, is_one_of, extract_context, get_conversation,
  process_on,
}

-- The codes of a JSON-RPC error: -32601, -32602 and -32603.
pub data Code : Type 0 where
  method_not_found invalid_params internal_error : Code

pub data Response : Type 0 where
  result : Task → Response
  rpc_error : Code → String → Response

-- The last answer that has a text.
unfoldable pub last_answer : List Message → String
last_answer [] = ""
last_answer (m ∷ ms) =
    let later = last_answer ms in
    if not (later == "") then later else elim m.role [ assistant ↦ m.content | _ ↦ "" ]

abbrev pub artifact_of : String → Option (List Part)
artifact_of text = if text == "" then none else some (record { type = "text"; text = text } ∷ [])

abbrev pub or_text : String → String → String
or_text text other = if text == "" then other else text

-- What a task that waits says of its approval.
abbrev pub waiting_text : Option PendingApproval → String
waiting_text none = "Waiting for approval"
waiting_text (some a) = concat ("Approval required (id: " ∷ a.uuid ∷ "): " ∷ a.description ∷ [])

-- conversationToTask
unfoldable pub conversation_to_task : Conversation → String → Bool → Task
unfolding last_answer
conversation_to_task c response auth_required =
    let artifact = artifact_of (or_text response (last_answer c.messages)) in
    if auth_required
    then record {
      id = c.id;
      state = "auth-required";
      message = some (or_text response "Authentication required");
      artifact = artifact;
    }
    else if is_waiting c.status
    then record {
      id = c.id;
      state = "input-required";
      message = some (waiting_text c.pending_approval);
      artifact = artifact;
    }
    else record { id = c.id; state = "completed"; message = none; artifact = artifact }

-- isApprovalMessage
unfoldable pub is_approval_message : Texts → String → Bool
unfolding is_one_of
is_approval_message texts text =
    is_one_of (texts.to_lower (texts.trim_space text))
      ("yes" ∷ "y" ∷ "true" ∷ "approve" ∷ "approved" ∷ "ok" ∷ "confirm" ∷ [])

-- The first text of a message.
unfoldable pub first_text : List Part → String
first_text [] = ""
first_text (p ∷ ps) =
    let later = first_text ps in if p.type == "text" && not (p.text == "") then p.text else later

pub record MessageSendParams : Type 0 where
  pub task_id : String
  pub parts : List Part

module _ (env : Env) (agent : Agent) (texts : Texts) (headers : Headers) where
  abbrev pub internal : Error → Exec State Response
  internal e = pure (rpc_error internal_error e.text)

  abbrev pub answer_task : Conversation → ProcessResult → Exec State Response
  answer_task c r = pure (result (conversation_to_task c r.response r.auth_required))

  -- A message to a conversation that waits: the text is the decision.
  unfoldable pub decide_by_text : PendingApproval → String → Exec State Response
  unfolding resolve extract_context is_approval_message reads try ◌>>=◌ pure conversation_to_task
  decide_by_text a text =
      try (resolve env agent (extract_context headers) a.uuid (is_approval_message texts text))
        (λ r. reads (λ s. s.conv) >>= λ c. answer_task c r) internal

  -- A message to any other conversation, which is read again behind it.
  unfoldable pub answer_message : Conversation → String → Exec State Response
  unfolding process_on extract_context get_conversation try pure conversation_to_task
  answer_message c text =
      try (process_on env agent (extract_context headers) c text)
        (λ r. try (get_conversation c.id) (λ updated. answer_task updated r) internal) internal

  abbrev pub approval_awaited : Conversation → Option PendingApproval
  approval_awaited c = if is_waiting c.status then c.pending_approval else none

  unfoldable pub continue_by : Option PendingApproval → Conversation → String → Exec State Response
  unfolding decide_by_text answer_message
  continue_by none c text = answer_message c text
  continue_by (some a) c text = decide_by_text a text

  unfoldable pub continue_conversation : String → String → Exec State Response
  unfolding get_conversation continue_by try pure
  continue_conversation task_id text =
      try (get_conversation task_id) (λ c. continue_by (approval_awaited c) c text)
        (λ e. pure (rpc_error invalid_params (concat ("Task not found: " ∷ task_id ∷ []))))

  unfoldable pub new_conversation : String → Exec State Response
  unfolding start_conversation extract_context answer_message reads try ◌>>=◌ pure
  new_conversation text =
      try (start_conversation env agent (extract_context headers))
        (λ _. reads (λ s. s.conv) >>= λ c. answer_message c text) internal

  unfoldable pub send_text : String → String → Exec State Response
  unfolding continue_conversation new_conversation pure
  send_text task_id text =
      if text == ""
      then pure (rpc_error invalid_params "No text part in message")
      else if task_id == ""
      then new_conversation text
      else continue_conversation task_id text

  -- a2aMessageSend
  unfoldable pub a2a_message_send : Parsed MessageSendParams → Exec State Response
  unfolding first_text send_text pure
  a2a_message_send (malformed e) = pure (rpc_error invalid_params "Invalid params")
  a2a_message_send (parsed params) = send_text params.task_id (first_text params.parts)

  -- a2aTasksGet
  unfoldable pub a2a_tasks_get : Parsed String → Exec State Response
  unfolding get_conversation conversation_to_task try pure
  a2a_tasks_get (malformed e) = pure (rpc_error invalid_params "Invalid params")
  a2a_tasks_get (parsed id) =
      try (get_conversation id) (λ c. pure (result (conversation_to_task c "" false)))
        (λ e. pure (rpc_error invalid_params (concat ("Task not found: " ∷ id ∷ []))))

  -- The switch of a2aHandler, with the parameters as each method decodes them.
  unfoldable pub a2a_handler :
      String → Parsed MessageSendParams → Parsed String → Exec State Response
  unfolding a2a_message_send a2a_tasks_get pure
  a2a_handler method params query =
      if method == "message/send"
      then a2a_message_send params
      else if method == "tasks/get"
      then a2a_tasks_get query
      else pure (rpc_error method_not_found "Method not found")
