-- ===== src/Resources/Removing.antt =====
-- What the removal of resources reports, and what it leaves in the database.
use agent_stop_and_go.Prelude.{
  ℕ, ◌≡◌, ◌⊎◌, inl, inr, refl, sym, ap, ◌∙◌, String, Bool, true, false, ◌||◌, ◌&&◌, List, [], ◌∷◌,
  ◌++◌, ◌==◌, if◌then◌else◌, nat_eq, count, length, arith, Bool-cases,
}
use agent_stop_and_go.Mcp.{Error}
use agent_stop_and_go.Filesystem.{Checked, ok, err, Checked-cases}
use agent_stop_and_go.Resources.{
  Resource, Database, Regexp, Reply, refused, answered, Removal, remove_by_id, delete_each,
  remove_by_pattern, removal, finished, then_by_pattern, tool_remove, matching_ids,
}

abbrev pub listed : String → List String → Bool
listed id [] = false
listed id (i ∷ ids) = (i == id) || listed id ids

-- The resources whose identifiers are not in a list.
unfoldable pub others : List String → List Resource → List Resource
others ids [] = []
others ids (r ∷ rs) = let rest = others ids rs in if listed r.id ids then rest else r ∷ rest

abbrev pub has_id : String → Resource → Bool
has_id id r = id == r.id

pub others-none : (rs : List Resource) → others [] rs ≡ rs
unfolding others
others-none [] = refl
others-none (r ∷ rs) = ap (λ xs. r ∷ xs) (others-none rs)

others-cons :
    (id : String) (ids : List String) (rs : List Resource)
    → others (id ∷ ids) rs ≡ others ids (others (id ∷ []) rs)
unfolding others
others-cons id ids [] = refl
others-cons id ids (r ∷ rs) = ground (arith, others-cons id ids rs)

others-absent :
    (id : String) (rs : List Resource) → count (has_id id) rs ≡ 0 → others (id ∷ []) rs ≡ rs
unfolding others
others-absent id [] h = refl
others-absent id (r ∷ rs) h = ground (arith, others-absent id rs)

others-append :
    (xs ys : List String) (rs : List Resource) → others (xs ++ ys) rs ≡ others ys (others xs rs)
others-append [] ys rs = ap (others ys) (sym (others-none rs))
others-append (x ∷ xs) ys rs =
    others-cons x (xs ++ ys) rs
    ∙ others-append xs ys (others (x ∷ []) rs)
    ∙ ap (others ys) (sym (others-cons x xs rs))

-- What DELETE FROM resources WHERE id = ? does to the resources that the table holds.
pub record DeleteLaws {D : Type 0} (db : Database D) (rows : D → List Resource) : Type 0 where
  pub failed :
      (id : String) (d : D) (e : Error)
      → (db.delete id d).1 ≡ err e
      → rows (db.delete id d).0 ≡ rows d
  pub deleted :
      (id : String) (d : D) (a : Checked ℕ)
      → (db.delete id d).1 ≡ ok a
      → rows (db.delete id d).0 ≡ others (id ∷ []) (rows d)
  pub affected :
      (id : String) (d : D) (n : ℕ)
      → (db.delete id d).1 ≡ ok (ok n)
      → n ≡ count (has_id id) (rows d)

nat_eq-zero : (n : ℕ) → nat_eq n 0 ≡ true → n ≡ 0
nat_eq-zero n h = ground arith

-- What a reply to resources_remove says of the resources before and after it.
pub Reported : String → Reply Removal → (before after : List Resource) → Type 0
Reported id (refused e) before after = (after ≡ before) ⊎ (after ≡ others (id ∷ []) before)
Reported id (answered r) before after =
    (after ≡ others r.removed_ids before) × (r.removed_count ≡ length r.removed_ids)

abbrev ById : String → Checked (List String) → (before after : List Resource) → Type 0
ById id (err e) before after = (after ≡ before) ⊎ (after ≡ others (id ∷ []) before)
ById id (ok ids) before after = (after ≡ others ids before) × ((ids ≡ []) ⊎ (ids ≡ id ∷ []))

abbrev ByPattern : Checked (List String) → (before after : List Resource) → Type 0
ByPattern (err e) before after = after ≡ before
ByPattern (ok ids) before after = after ≡ others ids before

refused-Reported :
    (id : String) (ids : List String) (e : Error) (before after : List Resource)
    → (ids ≡ []) ⊎ (ids ≡ id ∷ [])
    → after ≡ others ids before
    → Reported id (refused e) before after
unfolding Reported
refused-Reported id ids e before after (inl h) k =
    inl (k ∙ ap (λ l. others l before) h ∙ others-none before)
refused-Reported id ids e before after (inr h) k = inr (k ∙ ap (λ l. others l before) h)

module _ {D : Type 0} (db : Database D) (regexp : Regexp) (rows : D → List Resource)
    (laws : DeleteLaws db rows) where
  pub delete_each-Step :
      (ids : List String) (d : D)
      → rows (delete_each db regexp ids d).0 ≡ others (delete_each db regexp ids d).1 (rows d)
  unfolding delete_each
  delete_each-Step [] d = sym (others-none (rows d))
  delete_each-Step (id ∷ ids) d = elim (Checked-cases (db.delete id d).1) [
    | inl (a, e) ↦
        let rest = delete_each db regexp ids (db.delete id d).0 in
        let ih = delete_each-Step ids (db.delete id d).0 in
        rw (e, others-cons id rest.1 (rows d), sym (laws.deleted id d a e)) ih
    | inr (x, e) ↦
        let ih = delete_each-Step ids (db.delete id d).0 in rw (e, sym (laws.failed id d x e)) ih
  ]

  remove_by_id-ById :
      (id : String) (d : D)
      → ById id (remove_by_id db regexp id d).1 (rows d) (rows (remove_by_id db regexp id d).0)
  unfolding remove_by_id
  remove_by_id-ById id d = elim (Bool-cases (id == "")) [
    | inl e ↦ rw e (sym (others-none (rows d)), inl refl)
    | inr some_id ↦ elim (Checked-cases (db.delete id d).1) [
      | inl (ok n, e) ↦ elim (Bool-cases (nat_eq n 0)) [
        | inl z ↦
            rw (some_id, e, z)
              (
                laws.deleted id d (ok n) e
                    ∙ others-absent id (rows d) (sym (laws.affected id d n e) ∙ nat_eq-zero n z)
                    ∙ sym (others-none (rows d)),
                inl refl,
              )
        | inr nz ↦ rw (some_id, e, nz) (laws.deleted id d (ok n) e, inr refl)
      ]
      | inl (err x, e) ↦ rw (some_id, e) (inr (laws.deleted id d (err x) e))
      | inr (x, e) ↦ rw (some_id, e) (inl (laws.failed id d x e))
    ]
  ]

  remove_by_pattern-ByPattern :
      (pattern : String) (d : D)
      → ByPattern
          (remove_by_pattern db regexp pattern d).1
          (rows d)
          (rows (remove_by_pattern db regexp pattern d).0)
  unfolding remove_by_pattern
  remove_by_pattern-ByPattern pattern d = elim (Bool-cases (pattern == "")) [
    | inl e ↦ rw e (sym (others-none (rows d)))
    | inr some_pattern ↦ elim (Checked-cases (regexp pattern)) [
      | inr (x, e) ↦ rw (some_pattern, e) (refl)
      | inl (re, e) ↦ elim (Checked-cases (db.select_names d)) [
        | inr (x, f) ↦ rw (some_pattern, e, f) (refl)
        | inl (names, f) ↦ rw (some_pattern, e, f) (delete_each-Step (matching_ids re names) d)
      ]
    ]
  ]

  finished-Reported :
      (id : String) (by_id : List String) (before middle : List Resource) (d : D)
      (o : Checked (List String))
      → middle ≡ others by_id before
      → (by_id ≡ []) ⊎ (by_id ≡ id ∷ [])
      → ByPattern o middle (rows d)
      → Reported id
          (finished db regexp by_id (d, o)).1
          before
          (rows (finished db regexp by_id (d, o)).0)
  unfolding finished Reported removal
  finished-Reported id by_id before middle d (err e) h which k =
      refused-Reported id by_id e before (rows d) which (k ∙ h)
  finished-Reported id by_id before middle d (ok ids) h which k =
      (k ∙ ap (others ids) h ∙ sym (others-append by_id ids before), refl)

  then_by_pattern-Reported :
      (id pattern : String) (before : List Resource) (d : D) (o : Checked (List String))
      → ById id o before (rows d)
      → Reported id
          (then_by_pattern db regexp pattern (d, o)).1
          before
          (rows (then_by_pattern db regexp pattern (d, o)).0)
  unfolding then_by_pattern Reported
  then_by_pattern-Reported id pattern before d (err e) h = h
  then_by_pattern-Reported id pattern before d (ok by_id) (h, which) =
      let step = remove_by_pattern db regexp pattern d in
      finished-Reported id by_id before (rows d) step.0 step.1 h which
        (remove_by_pattern-ByPattern pattern d)

  -- Where a DELETE statement that does not fail removes the resources with its identifier, one that
  -- fails removes none, and the number of affected rows is the number of these resources: after
  -- resources_remove, the resources that are left are those whose identifiers are not among the
  -- reported ones, and the reported count is the number of these; where it answers an error, all
  -- resources are left, or all but those with the identifier of the request.
  pub remove_answers_truly :
      (id pattern : String) (d : D)
      → Reported id
          (tool_remove db regexp id pattern d).1
          (rows d)
          (rows (tool_remove db regexp id pattern d).0)
  unfolding tool_remove Reported
  remove_answers_truly id pattern d = elim (Bool-cases ((id == "") && (pattern == ""))) [
    | inl e ↦ rw e (inl refl)
    | inr given ↦
        let by_id = remove_by_id db regexp id d in
        rw given
          (then_by_pattern-Reported id pattern (rows d) by_id.0 by_id.1 (remove_by_id-ById id d))
  ]
