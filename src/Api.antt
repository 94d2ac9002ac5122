-- ===== src/Api.antt =====
-- internal/api/handlers.go: the handlers in front of the agent. A request is what fiber gives of it,
-- with its body as encoding/json decodes it, and a reply is its status and its body as a value;
-- that the reply is written as JSON is left out.
pub mod Rpc
pub mod Replies
use agent_stop_and_go.Prelude.{
  ℕ, suc, String, Bool, true, false, ◌||◌, Option, none, some, List, [], ◌∷◌, ◌==◌, if◌then◌else◌,
  concat, has_prefix, trim_prefix, length,
}
use agent_stop_and_go.Conversation.{Conversation, Status, active, waiting_approval, completed}
use agent_stop_and_go.Mcp.{Error}
use agent_stop_and_go.Storage.{Found, found, missing, load_conversation, list_conversations}
use agent_stop_and_go.Agent.Exec.{Exec, pure, throw, reads, ◌>>=◌, try}
use agent_stop_and_go.Agent.World.{Env, Agent, State, Context}
use agent_stop_and_go.Agent.Simple.{ProcessResult}
use agent_stop_and_go.Agent.Process.{process_message, start_conversation}
use agent_stop_and_go.Agent.Approval.{resolve}

-- A body that encoding/json decodes, or its error.
pub data Parsed {ℓ} (A : Type ℓ) : Type ℓ where
  parsed : A → Parsed A
  malformed : Error → Parsed A

-- The header and the local that extractContext reads; "" where they are missing.
pub record Headers : Type 0 where
  pub authorization : String
  pub session_id : String

-- strings.ToLower and strings.TrimSpace
pub record Texts : Type 0 where
  pub to_lower : String → String
  pub trim_space : String → String

pub record Summary : Type 0 where
  pub total : ℕ
  pub active_count : ℕ
  pub waiting_count : ℕ
  pub completed_count : ℕ

pub data Body : Type 0 where
  failure : String → Body
  conversation : Conversation → Option ProcessResult → Body
  conversations : List Conversation → Summary → Body

pub record Reply : Type 0 where
  pub status : ℕ
  pub body : Body

abbrev pub reply : ℕ → Body → Reply
reply status body = record { status = status; body = body }

unfoldable pub extract_context : Headers → Context
unfolding has_prefix trim_prefix
extract_context h = record {
  bearer_token =
      if has_prefix h.authorization "Bearer " then trim_prefix h.authorization "Bearer " else "";
  session_id = h.session_id;
}

unfoldable pub loaded : Found Conversation → Exec State Conversation
unfolding pure throw
loaded (found c) = pure c
loaded (missing e) = throw e

-- GetConversation
unfoldable pub get_conversation : String → Exec State Conversation
unfolding load_conversation loaded
get_conversation id s = loaded (load_conversation s.files id) s

-- ProcessMessage on a conversation, which becomes the one at hand.
unfoldable pub process_on : Env → Agent → Context → Conversation → String → Exec State ProcessResult
unfolding process_message
process_on env agent ctx c message s = process_message env agent ctx message (record s { conv = c })

unfoldable pub counted : Status → Summary → Summary
counted active others = record others {
  total = suc others.total;
  active_count = suc others.active_count;
}
counted waiting_approval others = record others {
  total = suc others.total;
  waiting_count = suc others.waiting_count;
}
counted completed others = record others {
  total = suc others.total;
  completed_count = suc others.completed_count;
}

-- The numbers of the conversations in each state.
unfoldable pub summarize : List Conversation → Summary
unfolding counted
summarize [] = record { total = 0; active_count = 0; waiting_count = 0; completed_count = 0 }
summarize (c ∷ cs) = counted c.status (summarize cs)

-- The body of resolveApprovalHandler.
pub record ResolveApprovalRequest : Type 0 where
  pub approved : Bool
  pub action : String
  pub answer : String

unfoldable pub is_one_of : String → List String → Bool
is_one_of word [] = false
is_one_of word (w ∷ words) = let later = is_one_of word words in word == w || later

-- What the three ways of an answer come to: the answer goes before the action, and that before the
-- Boolean.
unfoldable pub decision : Texts → ResolveApprovalRequest → Bool
unfolding is_one_of
decision texts req =
    if req.answer == ""
    then (if req.action == ""
        then req.approved
        else is_one_of (texts.to_lower req.action) ("approve" ∷ "approved" ∷ "yes" ∷ []))
    else is_one_of (texts.to_lower req.answer) ("yes" ∷ "y" ∷ "true" ∷ "approve" ∷ "approved" ∷ [])

module _ (env : Env) (agent : Agent) (headers : Headers) where
  abbrev pub failed_with : ℕ → Error → Exec State Reply
  failed_with status e = pure (reply status (failure e.text))

  -- ProcessMessage, and the conversation as it is stored then.
  unfoldable pub process_and_reload : ℕ → Conversation → String → Exec State Reply
  unfolding process_on get_conversation extract_context try pure
  process_and_reload status c message =
      try (process_on env agent (extract_context headers) c message)
        (λ result.
          try (get_conversation c.id)
            (λ updated. pure (reply status (conversation updated (some result))))
            (λ e. failed_with 500 e))
        (λ e. failed_with 500 e)

  -- The message of a new conversation, where the body has one.
  unfoldable pub first_message : Conversation → Parsed String → Exec State Reply
  unfolding process_and_reload pure
  first_message c (malformed e) = pure (reply 201 (conversation c none))
  first_message c (parsed message) =
      if message == ""
      then pure (reply 201 (conversation c none))
      else process_and_reload 201 c message

  unfoldable pub create_conversation_handler : Parsed String → Exec State Reply
  unfolding start_conversation extract_context reads first_message try ◌>>=◌ pure
  create_conversation_handler body =
      try (start_conversation env agent (extract_context headers))
        (λ _. reads (λ s. s.conv) >>= λ c. first_message c body) (λ e. failed_with 500 e)

  unfoldable pub list_conversations_handler : Exec State Reply
  unfolding list_conversations summarize reads
  list_conversations_handler =
      reads
        (λ s. let all = list_conversations s.files in reply 200 (conversations all (summarize all)))

  unfoldable pub get_conversation_handler : String → Exec State Reply
  unfolding get_conversation try pure
  get_conversation_handler id =
      try (get_conversation id) (λ c. pure (reply 200 (conversation c none)))
        (λ e. failed_with 404 e)

  unfoldable pub send_message_handler : String → Parsed String → Exec State Reply
  unfolding get_conversation process_and_reload try pure
  send_message_handler id (malformed e) =
      pure (reply 400 (failure (concat ("invalid request body: " ∷ e.text ∷ []))))
  send_message_handler id (parsed message) =
      if message == ""
      then pure (reply 400 (failure "message is required"))
      else try (get_conversation id) (λ c. process_and_reload 200 c message)
          (λ e. failed_with 404 e)

  unfoldable pub resolve_approval_handler :
      Texts → String → Parsed ResolveApprovalRequest → Exec State Reply
  unfolding resolve extract_context decision reads try ◌>>=◌ pure
  resolve_approval_handler texts uuid (malformed e) =
      pure (reply 400 (failure (concat ("invalid request body: " ∷ e.text ∷ []))))
  resolve_approval_handler texts uuid (parsed req) =
      try (resolve env agent (extract_context headers) uuid (decision texts req))
        (λ result. reads (λ s. s.conv) >>= λ c. pure (reply 200 (conversation c (some result))))
        (λ e. failed_with 404 e)
