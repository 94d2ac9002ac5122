-- ===== src/Tests/Resources.antt =====
-- The theorems on the resources server, at a table that is a list.
use agent_stop_and_go.Prelude.{
  ◌≡◌, refl, String, true, some, List, [], ◌∷◌, ◌++◌, ◌==◌, count, map, arith, ap,
}
use agent_stop_and_go.Filesystem.{ok}
use agent_stop_and_go.Resources.{
  Resource, Database, Regexp, answered, remove_by_id, delete_each, remove_by_pattern, removal,
  finished, then_by_pattern, tool_remove, matching_ids, matching, tool_add,
}
use agent_stop_and_go.Resources.Removing.{
  DeleteLaws, others, has_id, Reported, remove_answers_truly,
}
use agent_stop_and_go.Resources.Clearing.{QueryLaws, named}

abbrev resource : String → String → Resource
resource id name = record {
  id = id;
  name = name;
  value = "v";
  created_at = "2024-01-01T00:00:00Z";
  updated_at = "2024-01-01T00:00:00Z";
}

abbrev two : List Resource
two = resource "1" "a" ∷ resource "2" "b" ∷ []

abbrev table : Database (List Resource)
table = record {
  insert = λ r d. (d ++ r ∷ [], ok true);
  delete = λ id d. (others (id ∷ []) d, ok (ok (count (has_id id) d)));
  select_names = λ d. ok (map named d);
  select_by_name = λ d. ok (map some d);
}

abbrev exactly : Regexp
exactly pattern = ok (λ name. name == pattern)

all_scanned : (d : List Resource) → matching (λ name. true) (map some d) ≡ d
unfolding matching
all_scanned [] = refl
all_scanned (r ∷ d) = ap (λ rest. r ∷ rest) (all_scanned d)

table_deletes : DeleteLaws table (λ d. d)
table_deletes = record {
  failed = λ id d e h. ground arith;
  deleted = λ id d a h. refl;
  affected = λ id d n h. ground arith;
}

table_queries : QueryLaws table (λ d. d)
table_queries = record {
  names = λ d xs h. ground arith;
  by_name = λ d xs test h. ground (arith, all_scanned d);
}

added :
    (tool_add table exactly "3" "now" "c" "v" []).0
    ≡ record { id = "3"; name = "c"; value = "v"; created_at = "now"; updated_at = "now" } ∷ []
unfolding tool_add
added = refl

remove_answers_truly_example :
    Reported "1" (answered (record { removed_count = 2; removed_ids = "1" ∷ "2" ∷ [] })) two []
unfolding tool_remove remove_by_id then_by_pattern remove_by_pattern finished removal matching_ids
    delete_each others
remove_answers_truly_example = remove_answers_truly table exactly (λ d. d) table_deletes "1" "b" two
