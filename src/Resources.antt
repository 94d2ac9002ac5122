-- ===== src/Resources.antt =====
-- cmd/mcp-resources/main.go: the tools of the resources server. The database and the regular
-- expressions are parameters; every statement gives back the database that it leaves. A row that Scan
-- does not read is `none`. A reply is the value that json.MarshalIndent writes: values of texts and
-- numbers are always written.
pub mod Removing
pub mod Clearing
use agent_stop_and_go.Prelude.{
  ℕ, String, Bool, true, ◌&&◌, Option, none, some, List, [], ◌∷◌, ◌++◌, ◌==◌, if◌then◌else◌, nat_eq,
  length, concat,
}
use agent_stop_and_go.Mcp.{Error, errorf}
use agent_stop_and_go.Filesystem.{Checked, ok, err}

pub record Resource : Type 0 where
  pub id : String
  pub name : String
  pub value : String
  pub created_at : String
  pub updated_at : String

pub record Database (D : Type 0) : Type 0 where
  pub insert : Resource → D → D × Checked Bool
  pub delete : String → D → D × Checked (Checked ℕ)
  pub select_names : D → Checked (List (Option (String × String)))
  pub select_by_name : D → Checked (List (Option Resource))

-- regexp.Compile
abbrev pub Regexp : Type 0
Regexp = String → Checked (String → Bool)

pub data Reply (A : Type 0) : Type 0 where
  refused : Error → Reply A
  answered : A → Reply A

pub record Removal : Type 0 where
  pub removed_count : ℕ
  pub removed_ids : List String

pub record Listing : Type 0 where
  pub resources : List Resource
  pub count : ℕ

-- fmt.Sprintf("...: %v", err)
unfoldable pub because : String → Error → Error
because what e = errorf (what ∷ ": " ∷ e.text ∷ [])

unfoldable pub matching_ids : (String → Bool) → List (Option (String × String)) → List String
matching_ids re [] = []
matching_ids re (none ∷ rows) = matching_ids re rows
matching_ids re (some (id, name) ∷ rows) =
    let rest = matching_ids re rows in if re name then id ∷ rest else rest

unfoldable pub matching : (String → Bool) → List (Option Resource) → List Resource
matching re [] = []
matching re (none ∷ rows) = matching re rows
matching re (some r ∷ rows) = let rest = matching re rows in if re r.name then r ∷ rest else rest

module _ {D : Type 0} (db : Database D) (regexp : Regexp) where
  -- makeToolAdd, at the time `now` in RFC 3339 and with the identifier `id` of generateID.
  unfoldable pub tool_add : (id now name value : String) → D → D × Reply Resource
  unfolding because
  tool_add id now name value d =
      let r : Resource = record {
        id = id;
        name = name;
        value = value;
        created_at = now;
        updated_at = now;
      } in
      let (after, outcome) = db.insert r d in
      if name == "" then (d, refused (errorf ("name is required" ∷ []))) else elim outcome [
        | err e ↦ (after, refused (because "failed to add resource" e))
        | ok done ↦ (after, answered r)
      ]

  -- The part of makeToolRemove that removes the resource with the identifier of the request.
  unfoldable pub remove_by_id : String → D → D × Checked (List String)
  unfolding because
  remove_by_id id d =
      let (after, outcome) = db.delete id d in
      if id == "" then (d, ok []) else elim outcome [
        | err e ↦ (after, err (because "failed to remove resource" e))
        | ok (err e) ↦ (after, err (because "failed to get rows affected" e))
        | ok (ok affected) ↦ (after, ok (if nat_eq affected 0 then [] else id ∷ []))
      ]

  -- The loop over toRemove: an identifier counts as removed where its statement did not fail.
  unfoldable pub delete_each : List String → D → D × List String
  delete_each [] d = (d, [])
  delete_each (id ∷ ids) d =
      let (next, outcome) = db.delete id d in
      let (after, removed) = delete_each ids next in
      (after, elim outcome [ ok affected ↦ id ∷ removed | err e ↦ removed ])

  -- The part of makeToolRemove that removes the resources whose names match the pattern.
  unfoldable pub remove_by_pattern : String → D → D × Checked (List String)
  unfolding because matching_ids delete_each
  remove_by_pattern pattern d = if pattern == "" then (d, ok []) else elim (regexp pattern) [
    | err e ↦ (d, err (because "invalid pattern" e))
    | ok re ↦ elim (db.select_names d) [
      | err e ↦ (d, err (because "failed to query resources" e))
      | ok rows ↦ let (after, removed) = delete_each (matching_ids re rows) d in (after, ok removed)
    ]
  ]

  unfoldable pub removal : List String → Removal
  removal ids = record { removed_count = length ids; removed_ids = ids }

  unfoldable pub finished : List String → D × Checked (List String) → D × Reply Removal
  unfolding removal
  finished by_id (d, err e) = (d, refused e)
  finished by_id (d, ok ids) = (d, answered (removal (by_id ++ ids)))

  unfoldable pub then_by_pattern : String → D × Checked (List String) → D × Reply Removal
  unfolding remove_by_pattern finished
  then_by_pattern pattern (d, err e) = (d, refused e)
  then_by_pattern pattern (d, ok by_id) = finished by_id (remove_by_pattern pattern d)

  -- makeToolRemove
  unfoldable pub tool_remove : (id pattern : String) → D → D × Reply Removal
  unfolding remove_by_id then_by_pattern
  tool_remove id pattern d =
      if (id == "") && (pattern == "")
      then (d, refused (errorf ("either id or pattern is required" ∷ [])))
      else then_by_pattern pattern (remove_by_id id d)

  unfoldable pub listing : List Resource → Listing
  listing rs = record { resources = rs; count = length rs }

  -- makeToolList
  unfoldable pub tool_list : (pattern : String) → D → Reply Listing
  unfolding because matching listing
  tool_list pattern d = elim (db.select_by_name d) [
    | err e ↦ refused (because "failed to query resources" e)
    | ok rows ↦
        if pattern == ""
        then answered (listing (matching (λ name. true) rows))
        else elim (regexp pattern) [
          | err e ↦ refused (because "invalid pattern" e)
          | ok re ↦ answered (listing (matching re rows))
        ]
  ]
