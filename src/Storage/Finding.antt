-- ===== src/Storage/Finding.antt =====
-- What the directory of conversations gives back: files after a write or a removal, and the search by
-- the identifier of an approval.
use agent_stop_and_go.Prelude.{
  ℕ, zero, suc, ◌≡◌, refl, inl, inr, String, true, none, some, List, [], ◌∷◌, lookup, ◌==◌,
  if◌then◌else◌, eq_iff, arith, get_elem?, is_some, Bool-cases, Option-cases,
}
use agent_stop_and_go.Mcp.{errorf}
use agent_stop_and_go.Conversation.{Conversation, PendingApproval}
use agent_stop_and_go.Storage.{
  Files, put_file, remove_file, found, missing, load_conversation, list_conversations,
  holds_approval, find_approval, find_conversation_by_approval_uuid, delete_conversation,
}

lookup-put_file :
    (j id : String) (c : Conversation) (files : Files)
    → lookup j (put_file id c files) ≡ (if id == j then some c else lookup j files)
unfolding lookup put_file
lookup-put_file j id c [] = refl
lookup-put_file j id c ((i, d) ∷ files) =
    ground (arith, eq_iff id j, eq_iff i id, eq_iff i j, lookup-put_file j id c files)

lookup-remove_file :
    (j id : String) (files : Files)
    → lookup j (remove_file id files) ≡ (if id == j then none else lookup j files)
unfolding lookup remove_file
lookup-remove_file j id [] = ground arith
lookup-remove_file j id ((i, d) ∷ files) =
    ground (arith, eq_iff id j, eq_iff i id, eq_iff i j, lookup-remove_file j id files)

-- After a removal that succeeds, the conversation is not found under its identifier, and every other
-- one is loaded as before.
delete_load :
    (id j : String) (files rest : Files)
    → delete_conversation files id ≡ found rest
    → load_conversation rest j ≡ (
        if id == j
        then missing (errorf ("conversation not found: " ∷ j ∷ []))
        else load_conversation files j)
unfolding delete_conversation load_conversation
delete_load id j files rest h = ground (arith, lookup-remove_file j id files)

find_approval_holds :
    (uuid : String) (cs : List Conversation) (c : Conversation)
    → find_approval uuid cs ≡ some c
    → (holds_approval uuid c ≡ true) × (i : ℕ) × (get_elem? cs i ≡ some c)
unfolding find_approval
find_approval_holds uuid [] c h = ground arith
find_approval_holds uuid (d ∷ cs) c h = elim (Bool-cases (holds_approval uuid d)) [
  | inl it ↦ (ground arith, zero, ground arith)
  | inr other ↦
      let (holds, i, e) = find_approval_holds uuid cs c (ground arith) in (holds, suc i, e)
]

list_conversations_at :
    (files : Files) (i : ℕ) (c : Conversation)
    → get_elem? (list_conversations files) i ≡ some c
    → (id : String) × (get_elem? files i ≡ some (id, c))
unfolding list_conversations
list_conversations_at [] i c h = ground arith
list_conversations_at ((id, d) ∷ files) zero c h = (id, ground arith)
list_conversations_at ((id, d) ∷ files) (suc i) c h = list_conversations_at files i c h

find_approval_finds :
    (uuid : String) (cs : List Conversation) (i : ℕ) (c : Conversation)
    → get_elem? cs i ≡ some c
    → holds_approval uuid c ≡ true
    → is_some (find_approval uuid cs) ≡ true
unfolding find_approval
find_approval_finds uuid [] i c h holds = ground arith
find_approval_finds uuid (d ∷ cs) zero c h holds = ground arith
find_approval_finds uuid (d ∷ cs) (suc i) c h holds =
    ground (arith, find_approval_finds uuid cs i c h holds)

held :
    (uuid : String) (c : Conversation)
    → holds_approval uuid c ≡ true
    → (a : PendingApproval) × (c.pending_approval ≡ some a) × (a.uuid ≡ uuid)
unfolding holds_approval
held uuid c holds = elim (Option-cases c.pending_approval) [
  | inl e ↦ absurd (ground arith)
  | inr (a, e) ↦ (a, e, ground (arith, eq_iff a.uuid uuid))
]

-- The conversation that the search by an approval's identifier finds is in one of the files, and it
-- holds a pending approval with just that identifier.
pub approval_found :
    (files : Files) (uuid : String) (c : Conversation)
    → find_conversation_by_approval_uuid files uuid ≡ found c
    → ((a : PendingApproval) × (c.pending_approval ≡ some a) × (a.uuid ≡ uuid))
      × (i : ℕ) × (id : String) × (get_elem? files i ≡ some (id, c))
unfolding find_conversation_by_approval_uuid
approval_found files uuid c h =
    let (holds, i, e) = find_approval_holds uuid (list_conversations files) c (ground arith) in
    let (id, at) = list_conversations_at files i c e in (held uuid c holds, i, id, at)
