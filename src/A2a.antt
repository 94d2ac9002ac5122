-- ===== src/A2a.antt =====
-- internal/a2a: the description of a client and the tasks that an agent answers with. The calls stand in
-- Calls.
pub mod Calls
use agent_stop_and_go.Prelude.{
  String, Bool, Option, none, some, List, [], ◌∷◌, ◌==◌, concat, if◌then◌else◌,
}

-- The fields of Client that the agent reads.
pub record Client : Type 0 where
  pub name : String
  pub url : String
  pub description : String
  pub destructive_hint : Bool

pub record Part : Type 0 where
  pub type : String
  pub text : String

pub record Task : Type 0 where
  pub id : String
  pub state : String  -- status.state
  pub message : Option String  -- status.message
  pub artifact : Option (List Part)

-- The texts of the parts that have one.
unfoldable pub part_texts : List Part → List String
part_texts [] = []
part_texts (p ∷ ps) = let rest = part_texts ps in if p.text == "" then rest else p.text ∷ rest

-- "Task <id>: <state>"
abbrev task_line : Task → String
task_line task = concat ("Task " ∷ task.id ∷ ": " ∷ task.state ∷ [])

-- extractTaskText of internal/agent/orchestrator.go
unfoldable pub extract_task_text : Task → String
unfolding part_texts
extract_task_text task = elim task.artifact [
  | none ↦ task_line task
  | some parts ↦ elim (part_texts parts) [ [] ↦ task_line task | t ∷ ts ↦ concat (t ∷ ts) ]
]
