-- ===== src/Filesystem/Paths.antt =====
-- internal/filesystem/security.go: the path of a request, resolved and kept within its root. What
-- path/filepath computes and what os answers are parameters.
pub mod Inside
pub mod Walking
use Prim.Native.Char.{code}
use agent_stop_and_go.Prelude.{
  ℕ, zero, suc, String, Bool, true, false, ◌||◌, nat_eq, ◌==◌, if◌then◌else◌, concat, has_prefix,
  List, [], ◌∷◌,
}
use agent_stop_and_go.Mcp.{Error, errorf, wrap}
use agent_stop_and_go.Filesystem.{Checked, ok, err}
use agent_stop_and_go.Filesystem.Roots.{ResolvedRoot}

pub record Filepath : Type 0 where
  pub clean : String → String
  pub join : String → String → String
  pub dir : String → String
  pub rel : String → String → Checked String
  pub eval_symlinks : String → Checked String
  pub abs : String → Checked String

-- strings.ContainsRune(path, 0)
unfoldable pub contains_null : String → Bool
contains_null String.[] = false
contains_null (String.◌∷◌ c s) = let more = contains_null s in nat_eq (code c) 0 || more

unfoldable pub is_within_root : String → String → Bool
unfolding concat has_prefix
is_within_root resolved root_path =
    resolved == root_path || has_prefix resolved (concat (root_path ∷ "/" ∷ []))

abbrev pub outside : Error
outside = errorf ("path resolves outside root boundary" ∷ [])

-- How long a text is, in characters.
abbrev pub size : String → ℕ
size String.[] = 0
size (String.◌∷◌ c s) = suc (size s)

-- How the walk up ends: with a path or an error, or it has not ended.
pub data Walk : Type 0 where
  ended : Checked String → Walk
  unfinished : Walk

module _ (filepath : Filepath) (root : ResolvedRoot) where
  -- What is returned at an ancestor that resolves.
  unfoldable pub at_ancestor : String → String → String → Checked String
  unfolding is_within_root
  at_ancestor target dir followed = elim (filepath.abs followed) [
    | err e ↦ err (wrap "abs path" e)
    | ok resolved ↦
        if is_within_root resolved root.real_path
        then elim (filepath.rel dir target) [
          | err e ↦ err (wrap "compute relative path" e)
          | ok remainder ↦ ok (filepath.join resolved remainder)
        ]
        else err outside
  ]

  -- The loop of validateAncestor, in so many rounds.
  unfoldable pub walk_up : ℕ → String → String → Walk
  unfolding at_ancestor
  walk_up zero target dir = unfinished
  walk_up (suc rounds) target dir =
      let parent = filepath.dir dir in
      let higher = walk_up rounds target parent in
      if parent == dir
      then ended (err (errorf ("cannot resolve path: no valid ancestor found" ∷ [])))
      else elim (filepath.eval_symlinks parent) [
        | err e ↦ higher
        | ok followed ↦ ended (at_ancestor target parent followed)
      ]

  unfoldable pub validate_ancestor : String → Walk
  unfolding walk_up
  validate_ancestor target = walk_up (suc (size target)) target target

  -- What is returned where the whole path resolves.
  unfoldable pub at_existing : String → Checked String
  unfolding is_within_root
  at_existing followed = elim (filepath.abs followed) [
    | err e ↦ err (wrap "abs path" e)
    | ok resolved ↦ if is_within_root resolved root.real_path then ok resolved else err outside
  ]

  unfoldable pub validate_target : String → Walk
  unfolding validate_ancestor at_existing
  validate_target target = elim (filepath.eval_symlinks target) [
    | err e ↦ validate_ancestor target
    | ok followed ↦ ended (at_existing followed)
  ]

  -- ValidatePath
  unfoldable pub validate_path : String → Walk
  unfolding contains_null validate_target
  validate_path rel_path =
      let cleaned = filepath.clean rel_path in
      if contains_null rel_path
      then ended (err (errorf ("path contains null bytes" ∷ [])))
      else if (cleaned == "." || cleaned == "")
      then ended (ok root.real_path)
      else validate_target (filepath.join root.real_path cleaned)
