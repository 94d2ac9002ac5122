-- ===== src/Resources/Clearing.antt =====
-- resources_remove by a pattern, followed by resources_list with the same pattern.
use agent_stop_and_go.Prelude.{
  ℕ, ◌≡◌, inl, inr, refl, ap, ◌∙◌, subst, String, Bool, true, false, ◌&&◌, Option, none, some, List,
  [], ◌∷◌, ◌==◌, count, length, map, arith, Bool-cases, eq_iff,
}
use agent_stop_and_go.Filesystem.{Checked, ok, err, Checked-cases}
use agent_stop_and_go.Resources.{
  Resource, Database, Regexp, Reply, refused, answered, Removal, Listing, remove_by_id, delete_each,
  remove_by_pattern, finished, then_by_pattern, tool_remove, matching_ids, matching, listing,
  tool_list,
}
use agent_stop_and_go.Resources.Removing.{DeleteLaws, others, listed, delete_each-Step}

abbrev pub named : Resource → Option (String × String)
named r = some (r.id, r.name)

-- What the two queries give of the resources that the table holds: the names of all of them, and all
-- of them in some order.
pub record QueryLaws {D : Type 0} (db : Database D) (rows : D → List Resource) : Type 0 where
  pub names :
      (d : D) (xs : List (Option (String × String)))
      → db.select_names d ≡ ok xs
      → xs ≡ map named (rows d)
  pub by_name :
      (d : D) (xs : List (Option Resource)) (test : Resource → Bool)
      → db.select_by_name d ≡ ok xs
      → count test (matching (λ name. true) xs) ≡ count test (rows d)

abbrev has_name : (String → Bool) → Resource → Bool
has_name re r = re r.name

length-matching :
    (re : String → Bool) (xs : List (Option Resource))
    → length (matching re xs) ≡ count (has_name re) (matching (λ name. true) xs)
unfolding matching
length-matching re [] = refl
length-matching re (none ∷ xs) = length-matching re xs
length-matching re (some r ∷ xs) = ground (arith, length-matching re xs)

others-covered :
    (re : String → Bool) (ids : List String) (rs : List Resource)
    → ((x : String) → listed x (matching_ids re (map named rs)) ≡ true → listed x ids ≡ true)
    → count (has_name re) (others ids rs) ≡ 0
unfolding others matching_ids
others-covered re ids [] h = refl
others-covered re ids (r ∷ rs) h = elim (Bool-cases (re r.name)) [
  | inl e ↦
      let own : listed r.id ids ≡ true = h r.id (ground (arith, eq_iff r.id r.id)) in
      let ih = others-covered re ids rs (λ x k. h x (ground arith)) in ground arith
  | inr e ↦ let ih = others-covered re ids rs (λ x k. h x (ground arith)) in ground arith
]

-- A removal by a pattern that is answered: the pattern is valid, and no resource that is left has a
-- name that it matches.
abbrev Cleared : Checked (String → Bool) → List Resource → Type 0
Cleared (err e) rs = ⊥
Cleared (ok re) rs = count (has_name re) rs ≡ 0

abbrev ByPattern : Checked (List String) → Checked (String → Bool) → List Resource → Type 0
ByPattern (err e) c rs = Unit
ByPattern (ok ids) c rs = Cleared c rs

abbrev Answered : Reply Removal → Checked (String → Bool) → List Resource → Type 0
Answered (refused e) c rs = Unit
Answered (answered r) c rs = Cleared c rs

abbrev IsShown : Reply Listing → Type 0
IsShown (refused e) = Unit
IsShown (answered l) = (l.resources ≡ []) × (l.count ≡ 0)

length-zero : (rs : List Resource) → length rs ≡ 0 → rs ≡ []
length-zero [] h = refl
length-zero (r ∷ rs) h = ground arith

module _ {D : Type 0} (db : Database D) (regexp : Regexp) (rows : D → List Resource)
    (deletes : DeleteLaws db rows) (queries : QueryLaws db rows)
    (works : (id : String) (d : D) → (a : Checked ℕ) × ((db.delete id d).1 ≡ ok a)) where
  delete_each-all : (ids : List String) (d : D) → (delete_each db regexp ids d).1 ≡ ids
  unfolding delete_each
  delete_each-all [] d = refl
  delete_each-all (id ∷ ids) d =
      let (a, e) = works id d in rw e (ap (λ l. id ∷ l) (delete_each-all ids (db.delete id d).0))

  delete_each-clears :
      (re : String → Bool) (names : List (Option (String × String))) (d : D)
      → names ≡ map named (rows d)
      → count (has_name re) (rows (delete_each db regexp (matching_ids re names) d).0) ≡ 0
  delete_each-clears re names d h =
      let ids = matching_ids re names in
      ap (count (has_name re)) (
        delete_each-Step db regexp rows deletes ids d
        ∙ ap (λ l. others l (rows d)) (delete_each-all ids d ∙ ap (matching_ids re) h))
      ∙ others-covered re (matching_ids re (map named (rows d))) (rows d) (λ x k. k)

  remove_by_pattern-clears :
      (pattern : String) (d : D)
      → (pattern == "") ≡ false
      → ByPattern
          (remove_by_pattern db regexp pattern d).1
          (regexp pattern)
          (rows (remove_by_pattern db regexp pattern d).0)
  unfolding remove_by_pattern
  remove_by_pattern-clears pattern d given = elim (Checked-cases (regexp pattern)) [
    | inr (x, e) ↦ rw (given, e) tt
    | inl (re, e) ↦ elim (Checked-cases (db.select_names d)) [
      | inr (x, f) ↦ rw (given, e, f) tt
      | inl (names, f) ↦ rw (given, e, f) (delete_each-clears re names d (queries.names d names f))
    ]
  ]

  finished-clears :
      (by_id : List String) (c : Checked (String → Bool)) (d : D) (o : Checked (List String))
      → ByPattern o c (rows d)
      → Answered (finished db regexp by_id (d, o)).1 c (rows (finished db regexp by_id (d, o)).0)
  unfolding finished
  finished-clears by_id c d (err e) h = tt
  finished-clears by_id c d (ok ids) h = h

  then_by_pattern-clears :
      (pattern : String) (d : D) (o : Checked (List String))
      → (pattern == "") ≡ false
      → Answered
          (then_by_pattern db regexp pattern (d, o)).1
          (regexp pattern)
          (rows (then_by_pattern db regexp pattern (d, o)).0)
  unfolding then_by_pattern
  then_by_pattern-clears pattern d (err e) given = tt
  then_by_pattern-clears pattern d (ok by_id) given =
      let step = remove_by_pattern db regexp pattern d in
      finished-clears by_id (regexp pattern) step.0 step.1
        (remove_by_pattern-clears pattern d given)

  tool_remove-clears :
      (id pattern : String) (d : D)
      → (pattern == "") ≡ false
      → Answered
          (tool_remove db regexp id pattern d).1
          (regexp pattern)
          (rows (tool_remove db regexp id pattern d).0)
  unfolding tool_remove
  tool_remove-clears id pattern d given =
      let by_id = remove_by_id db regexp id d in
      let clears = then_by_pattern-clears pattern by_id.0 by_id.1 given in
      elim (Bool-cases ((id == "") && (pattern == ""))) [
        | inl e ↦ ground arith
        | inr e ↦ rw e clears
      ]

  tool_list-IsShown :
      (pattern : String) (d : D)
      → (pattern == "") ≡ false
      → Cleared (regexp pattern) (rows d)
      → IsShown (tool_list db regexp pattern d)
  unfolding tool_list listing
  tool_list-IsShown pattern d given h = elim (Checked-cases (db.select_by_name d)) [
    | inr (x, e) ↦ rw (tool_list, e) tt
    | inl (xs, e) ↦ elim (Checked-cases (regexp pattern)) [
      | inr (x, f) ↦ rw (tool_list, e, given, f) tt
      | inl (re, f) ↦
          let none_left : count (has_name re) (rows d) ≡ 0 = subst (λ c. Cleared c (rows d)) f h in
          let empty = length-matching re xs ∙ queries.by_name d xs (has_name re) e ∙ none_left in
          rw (tool_list, e, given, f) (length-zero (matching re xs) empty, empty)
    ]
  ]

  -- Where the queries give all resources, a DELETE statement does what it says and none of them
  -- fails: after resources_remove with a pattern has answered, resources_list with the same pattern,
  -- where it answers, lists no resource and counts none.
  removed_pattern_lists_nothing :
      (id pattern : String) (d : D) (r : Removal) (l : Listing)
      → (pattern == "") ≡ false
      → (tool_remove db regexp id pattern d).1 ≡ answered r
      → tool_list db regexp pattern (tool_remove db regexp id pattern d).0 ≡ answered l
      → (l.resources ≡ []) × (l.count ≡ 0)
  removed_pattern_lists_nothing id pattern d r l given h k =
      let after = rows (tool_remove db regexp id pattern d).0 in
      let cleared =
        subst (λ a. Answered a (regexp pattern) after) h (tool_remove-clears id pattern d given) in
      subst IsShown k
        (tool_list-IsShown pattern (tool_remove db regexp id pattern d).0 given cleared)
