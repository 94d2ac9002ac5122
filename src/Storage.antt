-- ===== src/Storage.antt =====
-- internal/storage/storage.go: a directory with one file for each conversation. A file holds the
-- conversation itself: encoding/json writes and reads back every field, and a file that is there is
-- taken to be readable. The files stand in the order of filepath.Glob.
pub mod Finding
use Prim.Native.Nat.{Ordering}
use Prim.Native.String.{compare}
use agent_stop_and_go.Prelude.{
  String, Bool, true, false, ◌&&◌, Option, none, some, List, [], ◌∷◌, Assoc, lookup, map, ◌==◌,
  if◌then◌else◌, concat,
}
use agent_stop_and_go.Mcp.{Error, errorf}
use agent_stop_and_go.Conversation.{Conversation, PendingApproval}

abbrev pub Files : Type 0
Files = Assoc Conversation

-- os.WriteFile: the file is replaced, or added in its place in the order.
unfoldable pub put_file : String → Conversation → Files → Files
put_file id c [] = (id, c) ∷ []
put_file id c ((j, d) ∷ rest) =
    let later = put_file id c rest in
    if j == id
    then (id, c) ∷ rest
    else elim (compare id j) [ Ordering.lt ↦ (id, c) ∷ (j, d) ∷ rest | _ ↦ (j, d) ∷ later ]

-- os.Remove
unfoldable pub remove_file : String → Files → Files
remove_file id [] = []
remove_file id ((j, d) ∷ rest) =
    let later = remove_file id rest in if j == id then later else (j, d) ∷ later

pub data Found (A : Type 0) : Type 0 where
  found : A → Found A
  missing : Error → Found A

-- LoadConversation
unfoldable pub load_conversation : Files → String → Found Conversation
unfolding lookup
load_conversation files id = elim (lookup id files) [
  | none ↦ missing (errorf ("conversation not found: " ∷ id ∷ []))
  | some c ↦ found c
]

-- ListConversations
unfoldable pub list_conversations : Files → List Conversation
list_conversations [] = []
list_conversations ((id, c) ∷ rest) = c ∷ list_conversations rest

-- conv.PendingApproval != nil && conv.PendingApproval.UUID == uuid
unfoldable pub holds_approval : String → Conversation → Bool
holds_approval uuid c = elim c.pending_approval [ none ↦ false | some a ↦ a.uuid == uuid ]

unfoldable pub find_approval : String → List Conversation → Option Conversation
unfolding holds_approval
find_approval uuid [] = none
find_approval uuid (c ∷ cs) = if holds_approval uuid c then some c else find_approval uuid cs

-- FindConversationByApprovalUUID
unfoldable pub find_conversation_by_approval_uuid : Files → String → Found Conversation
unfolding list_conversations find_approval
find_conversation_by_approval_uuid files uuid =
    elim (find_approval uuid (list_conversations files)) [
      | none ↦ missing (errorf ("no conversation found with approval UUID: " ∷ uuid ∷ []))
      | some c ↦ found c
    ]

-- DeleteConversation, where the removal of a file that is there succeeds
unfoldable pub delete_conversation : Files → String → Found Files
unfolding remove_file lookup
delete_conversation files id = elim (lookup id files) [
  | none ↦ missing (errorf ("conversation not found: " ∷ id ∷ []))
  | some c ↦ found (remove_file id files)
]
