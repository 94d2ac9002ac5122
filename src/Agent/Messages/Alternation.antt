-- ===== src/Agent/Messages/Alternation.antt =====
-- What the LLM is given: the shape of the messages that the conversion makes.
use Prim.Native.String.append.{cons}
use Prim.Native.Char.{Char}
use agent_stop_and_go.Prelude.{
  ◌≡◌, refl, ap, inl, inr, String, Bool, true, false, Option, none, some, List, [], ◌∷◌, ◌==◌,
  eq_iff, concat, All, arith, Bool-cases,
}
use agent_stop_and_go.Conversation.{Message, Role, system, user, assistant, tool, ToolCall}
use agent_stop_and_go.Llm.{LlmMessage}
use agent_stop_and_go.Agent.World.{Env}
use agent_stop_and_go.Agent.Messages.{
  view_fields, push, push_view, convert_from, convert_to_llm_messages,
}

-- No two neighbours have the same role.
abbrev pub Alternates : List LlmMessage → Type 0
Alternates [] = Unit
Alternates (m ∷ []) = Unit
Alternates (m ∷ n ∷ rest) = ((m.role == n.role) ≡ false) × Alternates (n ∷ rest)

-- A message that is not empty, and not the system's.
abbrev pub IsSpoken : LlmMessage → Type 0
IsSpoken m = ((m.role == "system") ≡ false) × ((m.content == "") ≡ false)

abbrev IsSpokenOption : Option LlmMessage → Type 0
IsSpokenOption none = Unit
IsSpokenOption (some m) = IsSpoken m

push-Alternates : (m : LlmMessage) (l : List LlmMessage) → Alternates l → Alternates (push m l)
unfolding push
push-Alternates m [] h = tt
push-Alternates m (k ∷ []) h = elim (Bool-cases (k.role == m.role)) [
  | inl same ↦ rw same tt
  | inr differs ↦ rw differs (differs, tt)
]
push-Alternates m (j ∷ k ∷ []) h = elim (Bool-cases (k.role == m.role)) [
  | inl same ↦ rw same (h.0, tt)
  | inr differs ↦ rw differs (h.0, (differs, tt))
]
push-Alternates m (j ∷ k ∷ l ∷ rest) h = (h.0, push-Alternates m (k ∷ l ∷ rest) h.1)

is_empty : String → Bool
is_empty String.[] = true
is_empty (String.◌∷◌ c s) = false

cons-nonempty : (c : Char) (s : String) → (String.◌∷◌ c s == "") ≡ false
unfolding is_empty
cons-nonempty c s = elim (Bool-cases (String.◌∷◌ c s == "")) [
  | inl same ↦ absurd (ground (arith, ap is_empty ((eq_iff (String.◌∷◌ c s) "").0 same)))
  | inr differs ↦ differs
]

concat-nonempty :
    (s : String) (l : List String) → (s == "") ≡ false → (concat (s ∷ l) == "") ≡ false
unfolding concat
concat-nonempty String.[] l h = ground arith
concat-nonempty (String.◌∷◌ c s) l h = rw (cons c s (concat l)) (cons-nonempty c _)

push-IsSpoken :
    (m : LlmMessage) (l : List LlmMessage) → IsSpoken m → All IsSpoken l → All IsSpoken (push m l)
unfolding push
push-IsSpoken m [] h all = (h, tt)
push-IsSpoken m (k ∷ []) h all = elim (Bool-cases (k.role == m.role)) [
  | inl same ↦ rw same ((all.0.0, concat-nonempty k.content _ all.0.1), tt)
  | inr differs ↦ rw differs (all.0, (h, tt))
]
push-IsSpoken m (j ∷ k ∷ rest) h all = (all.0, push-IsSpoken m (k ∷ rest) h all.1)

view_fields-IsSpoken :
    (env : Env) (role : Role) (content : String) (call : Option ToolCall)
    → IsSpokenOption (view_fields env role content call)
unfolding view_fields
view_fields-IsSpoken env system content call = tt
view_fields-IsSpoken env assistant content none = elim (Bool-cases (content == "")) [
  | inl empty ↦ rw empty tt
  | inr full ↦ rw full (refl, full)
]
view_fields-IsSpoken env assistant content (some call) = elim (Bool-cases (content == "")) [
  | inl empty ↦ rw empty tt
  | inr full ↦ rw full (refl, full)
]
view_fields-IsSpoken env tool content (some call) = (refl, concat-nonempty "Tool " _ refl)
view_fields-IsSpoken env tool content none = elim (Bool-cases (content == "")) [
  | inl empty ↦ rw empty tt
  | inr full ↦ rw full (refl, full)
]
view_fields-IsSpoken env user content call = elim (Bool-cases (content == "")) [
  | inl empty ↦ rw empty tt
  | inr full ↦ rw full (refl, full)
]

push_view-holds :
    (o : Option LlmMessage) (l : List LlmMessage)
    → IsSpokenOption o
    → Alternates l × All IsSpoken l
    → Alternates (push_view o l) × All IsSpoken (push_view o l)
unfolding push_view
push_view-holds none l h k = k
push_view-holds (some m) l h (alternates, spoken) =
    (push-Alternates m l alternates, push-IsSpoken m l h spoken)

convert_from-holds :
    (env : Env) (ms : List Message) (l : List LlmMessage)
    → Alternates l × All IsSpoken l
    → Alternates (convert_from env l ms) × All IsSpoken (convert_from env l ms)
unfolding convert_from
convert_from-holds env [] l h = h
convert_from-holds env (m ∷ ms) l h =
    convert_from-holds env ms _
      (push_view-holds _ l (view_fields-IsSpoken env m.role m.content m.tool_call) h)

-- Whatever the messages of a conversation are, those that the LLM is given alternate: no two that
-- follow each other have the same role, none is empty, and none has the role of the system.
pub alternation :
    (env : Env) (ms : List Message)
    → Alternates (convert_to_llm_messages env ms) × All IsSpoken (convert_to_llm_messages env ms)
unfolding convert_to_llm_messages
alternation env ms = convert_from-holds env ms [] (tt, tt)
