-- ===== src/Filesystem/Tools/Searching.antt =====
-- What Grep and Glob of internal/filesystem/tools.go share: filepath.WalkDir on the folders that the
-- disk lists, and what a search takes from its request and from other packages. A folder that is not
-- read is walked as an empty one, since the functions that are walked with skip errors.
use Prim.Native.Char.{code}
use agent_stop_and_go.Prelude.{ℕ, zero, suc, String, Bool, List, [], ◌∷◌, nat_eq, if◌then◌else◌}
use agent_stop_and_go.Agent.Exec.{pure, panics, ◌>>=◌, try}
use agent_stop_and_go.Filesystem.{Checked}
use agent_stop_and_go.Filesystem.Tools.{Call, lstat, read_dir, FileInfo, Disk, Action, call}

-- Integers of a request that are negative are 0 here: no limit on results and no count of lines
-- tells them apart.
pub record Search : Type 0 where
  pub opt_int : (key : String) (def : ℕ) → ℕ
  pub opt_bool : (key : String) (def : Bool) → Bool
  -- time.Now().After(deadline)
  pub expired : List Call → Bool
  pub compile : String → Checked (String → Bool)
  -- filepath.Match, false for a bad pattern
  pub matches : (pattern name : String) → Bool
  -- filepath.Rel, "" where it fails
  pub rel : (base path : String) → String
  -- filepath.Base
  pub base : String → String

-- What the function of a walk returns: nil, filepath.SkipDir for a folder, or filepath.SkipAll.
pub data Step : Type 0 where
  go skip_dir skip_all : Step

-- strings.Count(path, "/")
unfoldable pub separators : String → ℕ
separators String.[] = 0
separators (String.◌∷◌ c s) =
    let rest = separators s in if nat_eq (code c) b'/' then suc rest else rest

module _ (disk : Disk) {S : Type 0} (visit : String → FileInfo → S → Action (Step × S)) where
  -- What a walk does behind the visit of an entry.
  unfoldable pub go_on : Step → Action (Step × S) → S → Action (Step × S)
  unfolding pure
  go_on go more s = more
  go_on skip_dir more s = pure (go, s)
  go_on skip_all more s = pure (skip_all, s)

  -- The entries of a folder, with what walks one of them.
  unfoldable pub walk_entries :
      (String → FileInfo → S → Action (Step × S)) → String → List FileInfo → S → Action (Step × S)
  unfolding go_on ◌>>=◌ pure
  walk_entries walk folder [] s = pure (go, s)
  walk_entries walk folder (fi ∷ rest) s =
      walk (disk.filepath.join folder fi.name) fi s >>= λ (step, t).
      go_on step (walk_entries walk folder rest t) t

  unfoldable pub read_entries : String → Action (List FileInfo)
  unfolding try call pure
  read_entries folder = try (call (read_dir folder) disk.entries) pure (λ _. pure [])

  -- A folder that is nested more deeply than `depth` overflows the stack.
  unfoldable pub walk_from : ℕ → String → FileInfo → S → Action (Step × S)
  unfolding go_on walk_entries read_entries panics ◌>>=◌ pure
  walk_from zero path fi s = panics
  walk_from (suc depth) path fi s = visit path fi s >>= λ (step, t).
      go_on step
        (if fi.is_dir
          then read_entries path >>= (λ infos. walk_entries (walk_from depth) path infos t)
          else pure (go, t))
        t

  -- filepath.WalkDir, with what the walk leaves of the state.
  unfoldable pub walk_dir : String → S → Action S
  unfolding try call walk_from ◌>>=◌ pure
  walk_dir root s =
      try (call (lstat root) disk.info)
        (λ fi. walk_from disk.depth root fi s >>= λ (step, t). pure t) (λ _. pure s)
