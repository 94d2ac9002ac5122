-- ===== src/Filesystem/Tools/Folders.antt =====
-- ListFolder, CreateFolder and RemoveFolder of internal/filesystem/tools.go.
use agent_stop_and_go.Prelude.{ℕ, String, true, not, List, [], ◌∷◌, ◌==◌, if◌then◌else◌, length}
use agent_stop_and_go.Json.{str, bool}
use agent_stop_and_go.Mcp.{errorf}
use agent_stop_and_go.Agent.Exec.{pure, ◌>>=◌, try}
use agent_stop_and_go.Filesystem.{Checked, ok, err}
use agent_stop_and_go.Filesystem.Roots.{ResolvedRoot}
use agent_stop_and_go.Filesystem.Paths.{is_within_root}
use agent_stop_and_go.Filesystem.Tools.{
  stat, lstat, read_dir, make_all, remove_all, FileInfo, Disk, Request, Server, Action, Fields,
  call, or_fail, because, fail_if, perform, resolve_and_validate, path_arg,
}

-- An entry of list_folder, with the kind of what a link leads to.
pub record Entry : Type 0 where
  pub name : String
  pub type : String
  pub size : ℕ
  pub modified_at : String
  pub target_type : String

module _ (disk : Disk) (root : ResolvedRoot) (resolved : String) where
  -- The kind of what a link leads to. It is left out where the link does not resolve, and where
  -- the target is gone. An error of Abs leaves the empty path, which is outside.
  unfoldable pub type_of_target : Checked String → Action String
  unfolding is_within_root try pure call
  type_of_target (err e) = pure ""
  type_of_target (ok followed) =
      let target : String = elim (disk.filepath.abs followed) [ err e ↦ "" | ok t ↦ t ] in
      if is_within_root target root.real_path
      then try (call (stat target) disk.info)
          (λ info. pure (if info.is_dir then "directory" else "file")) (λ e. pure "")
      else pure "external"

  unfoldable pub target_type : String → Action String
  unfolding type_of_target
  target_type name = type_of_target (disk.filepath.eval_symlinks (disk.filepath.join resolved name))

  abbrev entry : FileInfo → String → String → Entry
  entry fi kind target = record {
    name = fi.name;
    type = kind;
    size = fi.size;
    modified_at = fi.mod_time;
    target_type = target;
  }

  unfoldable pub entry_of : FileInfo → Action Entry
  unfolding target_type ◌>>=◌ pure
  entry_of fi =
      if fi.is_symlink
      then (target_type fi.name >>= λ t. pure (entry fi "symlink" t))
      else pure (entry fi (if fi.is_dir then "directory" else "file") "")

  unfoldable pub entries_of : List FileInfo → Action (List Entry)
  unfolding entry_of ◌>>=◌ pure
  entries_of [] = pure []
  entries_of (fi ∷ rest) = do entry ← entry_of fi; others ← entries_of rest; pure (entry ∷ others)

module _ (disk : Disk) (server : Server) (req : Request) where
  unfoldable pub list_folder : Action (List Entry × ℕ)
  unfolding resolve_and_validate or_fail call fail_if entries_of ◌>>=◌ pure
  list_folder = do
    (root, resolved) ← resolve_and_validate disk server req "list_folder"
    info ←
        or_fail (λ _. errorf ("path not found: " ∷ path_arg disk server req ∷ []))
          (call (stat resolved) disk.info)
    _ ←
        fail_if (not info.is_dir)
          (errorf ("path is not a directory: " ∷ path_arg disk server req ∷ []))
    infos ← or_fail (because "read directory") (call (read_dir resolved) disk.entries)
    listed ← entries_of disk root resolved infos
    pure (listed, length listed)

  abbrev created : Fields
  created = ("path", str (path_arg disk server req)) ∷ ("created", bool true) ∷ []

  unfoldable pub create_folder : Action Fields
  unfolding resolve_and_validate try call fail_if or_fail perform ◌>>=◌ pure
  create_folder = do
    (root, resolved) ← resolve_and_validate disk server req "create_folder"
    try (call (stat resolved) disk.info)
        (λ info.
          fail_if (not info.is_dir)
            (errorf ("path exists as a file: " ∷ path_arg disk server req ∷ []))
          >>= λ _. pure created)
        (λ _.
          or_fail (because "create directory") (perform disk server req (make_all resolved))
          >>= λ _. pure created)

  unfoldable pub remove_folder : Action Fields
  unfolding resolve_and_validate call fail_if or_fail perform ◌>>=◌ pure
  remove_folder = do
    (root, resolved) ← resolve_and_validate disk server req "remove_folder"
    _ ← fail_if (resolved == root.real_path) (errorf ("cannot remove root directory" ∷ []))
    info ←
        or_fail (λ _. errorf ("directory not found: " ∷ path_arg disk server req ∷ []))
          (call (lstat resolved) disk.info)
    _ ←
        fail_if (not info.is_dir)
          (errorf ("path is a file, use remove_file instead: " ∷ path_arg disk server req ∷ []))
    _ ← or_fail (because "remove") (perform disk server req (remove_all resolved))
    pure (("path", str (path_arg disk server req)) ∷ ("removed", bool true) ∷ [])
