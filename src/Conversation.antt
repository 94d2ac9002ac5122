-- ===== src/Conversation.antt =====
-- internal/conversation/conversation.go. Each method returns the new record. What it draws from
-- uuid.New and time.Now is its argument: the identifier, and the times of its two clock reads.
pub mod Lifecycle
use agent_stop_and_go.Prelude.{
  ℕ, String, Bool, true, false, Option, none, some, List, [], ◌∷◌, ◌++◌, Assoc, ◌==◌, if◌then◌else◌,
}
use agent_stop_and_go.Json.{Args}

pub data Status : Type 0 where
  active waiting_approval completed : Status

-- status == StatusWaitingApproval
abbrev pub is_waiting : Status → Bool
is_waiting waiting_approval = true
is_waiting active = false
is_waiting completed = false

pub data Role : Type 0 where
  system user assistant tool : Role

pub record ToolCall : Type 0 where
  pub name : String
  pub arguments : Args
  pub result : String
  pub is_error : Bool

pub record Message : Type 0 where
  pub id : String
  pub role : Role
  pub content : String
  pub tool_call : Option ToolCall
  pub created_at : ℕ

pub record PendingApproval : Type 0 where
  pub uuid : String
  pub conversation_id : String
  pub tool_name : String
  pub tool_args : Args
  pub description : String
  pub remote_task_id : String
  pub remote_agent_name : String
  pub created_at : ℕ

pub record PipelineState : Type 0 where
  pub paused_node_path : List ℕ
  pub paused_node_output_key : String
  pub session_state : Assoc String
  pub user_message : String

pub record Conversation : Type 0 where
  pub id : String
  pub session_id : String
  pub status : Status
  pub messages : List Message
  pub pending_approval : Option PendingApproval
  pub pipeline_state : Option PipelineState
  pub created_at : ℕ
  pub updated_at : ℕ

-- What one operation draws: an identifier, and the clock at its first and at its last read.
pub record Draw : Type 0 where
  pub id : String
  pub created : ℕ
  pub updated : ℕ

-- New; the system message, where there is one, has an identifier of its own.
unfoldable pub new : Draw → String → String → String → Conversation
new d message_id system_prompt session_id = record {
  id = d.id;
  session_id = session_id;
  status = active;
  messages =
      if system_prompt == ""
      then []
      else record {
        id = message_id;
        role = system;
        content = system_prompt;
        tool_call = none;
        created_at = d.created;
      }
        ∷ [];
  pending_approval = none;
  pipeline_state = none;
  created_at = d.created;
  updated_at = d.created;
}

append : Message → ℕ → Conversation → Conversation
append m now c = record c { messages = c.messages ++ m ∷ []; updated_at = now }

unfoldable pub add_message : Draw → Role → String → Conversation → Conversation
unfolding append
add_message d role content c =
    append
      (record {
        id = d.id;
        role = role;
        content = content;
        tool_call = none;
        created_at = d.created;
      })
      d.updated c

unfoldable pub add_tool_call : Draw → String → Args → Conversation → Conversation
unfolding append
add_tool_call d name args c =
    append
      (record {
        id = d.id;
        role = assistant;
        content = "";
        tool_call = some (record { name = name; arguments = args; result = ""; is_error = false });
        created_at = d.created;
      })
      d.updated c

unfoldable pub add_tool_result : Draw → String → String → Bool → Conversation → Conversation
unfolding append
add_tool_result d name result is_error c =
    append
      (record {
        id = d.id;
        role = tool;
        content = "";
        tool_call =
            some (record { name = name; arguments = []; result = result; is_error = is_error });
        created_at = d.created;
      })
      d.updated c

unfoldable pub approval_of : Draw → String → Args → String → Conversation → PendingApproval
approval_of d tool_name tool_args description c = record {
  uuid = d.id;
  conversation_id = c.id;
  tool_name = tool_name;
  tool_args = tool_args;
  description = description;
  remote_task_id = "";
  remote_agent_name = "";
  created_at = d.created;
}

-- SetWaitingApproval; the approval that it returns is the one in the record.
unfoldable pub set_waiting_approval : Draw → String → Args → String → Conversation → Conversation
unfolding approval_of
set_waiting_approval d tool_name tool_args description c = record c {
  status = waiting_approval;
  pending_approval = some (approval_of d tool_name tool_args description c);
  updated_at = d.updated;
}

-- ResolveApproval
unfoldable pub resolve_approval : ℕ → Conversation → Conversation
resolve_approval now c = elim c.pending_approval [
  | none ↦ c
  | some a ↦ record c { pending_approval = none; status = active; updated_at = now }
]

unfoldable pub complete : ℕ → Conversation → Conversation
complete now c = record c { status = completed; updated_at = now }
