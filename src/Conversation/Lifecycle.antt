-- ===== src/Conversation/Lifecycle.antt =====
-- The states of a conversation: what its operations keep, and what each does to the approval.
use agent_stop_and_go.Prelude.{
  ℕ, ◌≡◌, refl, String, Bool, false, Option, none, some, List, [], ◌∷◌, ◌++◌, arith, is_some,
  append_assoc, append-nil, sym, ap, ◌∙◌,
}
use agent_stop_and_go.Json.{Args}
use agent_stop_and_go.Conversation.{
  is_waiting, Conversation, Draw, Message, Role, PendingApproval, new, assistant, tool, add_message,
  add_tool_call, add_tool_result, set_waiting_approval, resolve_approval,
}

abbrev pub OwnedBy : String → Option PendingApproval → Type 0
OwnedBy id none = Unit
OwnedBy id (some a) = a.conversation_id ≡ id

-- A conversation waits exactly while it holds a pending approval, which names it.
pub record IsConsistent (c : Conversation) : Type 0 where
  pub waits : is_waiting c.status ≡ is_some c.pending_approval
  pub own : OwnedBy c.id c.pending_approval

-- The operations of a conversation but for Complete, with what they draw.
pub data Operation : Type 0 where
  adds_message : Draw → Role → String → Operation
  adds_tool_call : Draw → String → Args → Operation
  adds_tool_result : Draw → String → String → Bool → Operation
  waits_for : Draw → String → Args → String → Operation
  resolves : ℕ → Operation

pub operate : Conversation → Operation → Conversation
operate c (adds_message d role content) = add_message d role content c
operate c (adds_tool_call d name args) = add_tool_call d name args c
operate c (adds_tool_result d name result is_error) = add_tool_result d name result is_error c
operate c (waits_for d name args description) = set_waiting_approval d name args description c
operate c (resolves now) = resolve_approval now c

pub operate_all : Conversation → List Operation → Conversation
operate_all c [] = c
operate_all c (o ∷ os) = operate_all (operate c o) os

pub new-IsConsistent :
    (d : Draw) (message_id prompt session : String) → IsConsistent (new d message_id prompt session)
unfolding new
new-IsConsistent d message_id prompt session = ground arith

pub add_message-IsConsistent :
    (d : Draw) (role : Role) (content : String) (c : Conversation)
    → IsConsistent c
    → IsConsistent (add_message d role content c)
unfolding add_message
add_message-IsConsistent d role content c h = ground arith

pub operate-IsConsistent :
    (c : Conversation) (o : Operation) → IsConsistent c → IsConsistent (operate c o)
unfolding operate add_message add_tool_call add_tool_result set_waiting_approval resolve_approval
operate-IsConsistent c (adds_message d role content) h = ground arith
operate-IsConsistent c _ h = ground arith

operate_all-IsConsistent :
    (c : Conversation) (os : List Operation) → IsConsistent c → IsConsistent (operate_all c os)
unfolding operate_all
operate_all-IsConsistent c [] h = h
operate_all-IsConsistent c (o ∷ os) h =
    operate_all-IsConsistent (operate c o) os (operate-IsConsistent c o h)

-- The messages that an operation is to add.
abbrev said : Operation → List Message
said (adds_message d role content) =
    record { id = d.id; role = role; content = content; tool_call = none; created_at = d.created }
    ∷ []
said (adds_tool_call d name args) =
    record {
      id = d.id;
      role = assistant;
      content = "";
      tool_call = some (record { name = name; arguments = args; result = ""; is_error = false });
      created_at = d.created;
    }
    ∷ []
said (adds_tool_result d name result is_error) =
    record {
      id = d.id;
      role = tool;
      content = "";
      tool_call =
          some (record { name = name; arguments = []; result = result; is_error = is_error });
      created_at = d.created;
    }
    ∷ []
said (waits_for d name args description) = []
said (resolves now) = []

abbrev pub all_said : List Operation → List Message
all_said [] = []
all_said (o ∷ os) = said o ++ all_said os

-- What a history adds to the messages, and that it keeps the identity of the conversation.
pub record Extends (c : Conversation) (added : List Message) (d : Conversation) : Type 0 where
  pub messages : d.messages ≡ c.messages ++ added
  pub id : d.id ≡ c.id
  pub session : d.session_id ≡ c.session_id

Extends-refl : (c : Conversation) → Extends c [] c
Extends-refl c = record { messages = sym (append-nil c.messages); id = refl; session = refl }

Extends-trans :
    (c d e : Conversation) (l m : List Message)
    → Extends c l d
    → Extends d m e
    → Extends c (l ++ m) e
Extends-trans c d e l m h k = record {
  messages = k.messages ∙ ap (λ n. n ++ m) h.messages ∙ append_assoc c.messages l m;
  id = k.id ∙ h.id;
  session = k.session ∙ h.session;
}

Extends-one :
    (c d : Conversation) (m : Message)
    → d.messages ≡ c.messages ++ m ∷ []
    → d.id ≡ c.id
    → d.session_id ≡ c.session_id
    → Extends c (m ∷ []) d
Extends-one c d m e i s = record { messages = e; id = i; session = s }

resolve_approval-Extends : (now : ℕ) (c : Conversation) → Extends c [] (resolve_approval now c)
unfolding resolve_approval
resolve_approval-Extends now c = record {
  messages = ground (arith, append-nil c.messages);
  id = ground arith;
  session = ground arith;
}

operate-Extends : (c : Conversation) (o : Operation) → Extends c (said o) (operate c o)
unfolding operate add_message add_tool_call add_tool_result set_waiting_approval
operate-Extends c (adds_message d role content) = Extends-one c _ _ refl refl refl
operate-Extends c (adds_tool_call d name args) = Extends-one c _ _ refl refl refl
operate-Extends c (adds_tool_result d name result is_error) = Extends-one c _ _ refl refl refl
operate-Extends c (waits_for d name args description) = record {
  messages = sym (append-nil c.messages);
  id = refl;
  session = refl;
}
operate-Extends c (resolves now) = resolve_approval-Extends now c

operate_all-Extends :
    (c : Conversation) (os : List Operation) → Extends c (all_said os) (operate_all c os)
unfolding operate_all
operate_all-Extends c [] = Extends-refl c
operate_all-Extends c (o ∷ os) =
    Extends-trans c _ _ (said o) (all_said os) (operate-Extends c o)
      (operate_all-Extends (operate c o) os)

-- Whatever operations other than Complete a new conversation goes through, it waits for an approval
-- exactly while it holds one, the approval that it holds names it, and its messages are those that
-- it was made with followed by one for each operation that adds a message, a tool call or a tool
-- result, as it was given, in their order: none is changed or lost, and neither the identifier nor
-- the session changes.
pub lifecycle :
    (d : Draw) (message_id prompt session : String) (os : List Operation)
    → IsConsistent (operate_all (new d message_id prompt session) os)
      × Extends
          (new d message_id prompt session)
          (all_said os)
          (operate_all (new d message_id prompt session) os)
lifecycle d message_id prompt session os = (
  operate_all-IsConsistent _ os (new-IsConsistent d message_id prompt session),
  operate_all-Extends _ os,
)
