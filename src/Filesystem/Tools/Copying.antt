-- ===== src/Filesystem/Tools/Copying.antt =====
-- Copy, Move, copyFile and copyDir of internal/filesystem/tools.go.
use agent_stop_and_go.Prelude.{
  ℕ, zero, suc, String, Bool, true, false, not, Option, none, some, List, [], ◌∷◌, ◌++◌,
  if◌then◌else◌,
}
use agent_stop_and_go.Json.{str, number, bool}
use agent_stop_and_go.Mcp.{Error, errorf, wrap}
use agent_stop_and_go.Agent.Exec.{pure, panics, ◌>>=◌, try}
use agent_stop_and_go.Filesystem.Roots.{ResolvedRoot}
use agent_stop_and_go.Filesystem.Paths.{is_within_root}
use agent_stop_and_go.Filesystem.Tools.{
  stat, opens, create, chmod, make_all, read_dir, remove_all, rename, FileInfo, Disk, Request,
  Server, Action, Fields, lift, call, or_fail, because, req_string, perform, allowed_root,
  validated,
}
use agent_stop_and_go.Filesystem.Tools.Files.{make_parents}

-- io.Copy from one file to the other.
unfoldable pub copied : Disk → Action ℕ
unfolding lift
copied disk calls = lift (disk.copied calls) calls

module _ (disk : Disk) (server : Server) (req : Request) where
  unfoldable pub copy_file : String → String → Action ℕ
  unfolding call copied perform or_fail try ◌>>=◌ pure
  copy_file src dst = do
    _ ← call (opens src) disk.handle
    _ ← call (create dst) disk.handle
    n ← copied disk
    try (call (stat src) disk.info)
        (λ _. or_fail (wrap "chmod") (perform disk server req (chmod dst)) >>= λ _. pure n)
        (λ _. pure n)

  -- The loop over the entries of a folder, with what copies a folder in it.
  unfoldable pub copy_entries :
      ResolvedRoot → (String → String → Action Bool) → String → String → List FileInfo → Action Bool
  unfolding copy_file ◌>>=◌ pure is_within_root
  copy_entries src_root copy_folder src dst [] = pure true
  copy_entries src_root copy_folder src dst (fi ∷ rest) =
      let from = disk.filepath.join src fi.name in
      let to = disk.filepath.join dst fi.name in
      let others = copy_entries src_root copy_folder src dst rest in
      if not (is_within_root from src_root.real_path)
      then others
      else if fi.is_dir
      then copy_folder from to >>= (λ _. others)
      else copy_file from to >>= (λ _. others)

  -- A folder that is nested more deeply than `depth` overflows the stack.
  unfoldable pub copy_dir : ResolvedRoot → ℕ → String → String → Action Bool
  unfolding call perform copy_entries panics ◌>>=◌
  copy_dir src_root zero src dst = panics
  copy_dir src_root (suc depth) src dst = do
    _ ← call (stat src) disk.info
    _ ← perform disk server req (make_all dst)
    infos ← call (read_dir src) disk.entries
    copy_entries src_root (copy_dir src_root depth) src dst infos

  -- Whether it is a folder decides how it is copied; the result is the size of a file.
  unfoldable pub copy_any : ResolvedRoot → FileInfo → String → String → Action (Option ℕ)
  unfolding copy_dir copy_file ◌>>=◌ pure
  copy_any src_root info src dst =
      if info.is_dir
      then copy_dir src_root disk.depth src dst >>= (λ _. pure none)
      else copy_file src dst >>= (λ n. pure (some n))

  -- The roots and the paths of both sides, with what Copy and Move check alike.
  unfoldable pub both_sides : String → Action (ResolvedRoot × String × String)
  unfolding allowed_root req_string validated ◌>>=◌ pure
  both_sides tool_name = do
    src_root ← allowed_root disk server req "source_root" tool_name
    dest_root ← allowed_root disk server req "dest_root" tool_name
    src_path ← req_string req "source_path"
    src ← validated disk server req src_root src_path
    dest_path ← req_string req "dest_path"
    dest ← validated disk server req dest_root dest_path
    pure (src_root, src, dest)

  abbrev sides : Fields
  sides =
      ("source", str (req.get_string "source_path" ""))
      ∷ ("destination", str (req.get_string "dest_path" ""))
      ∷ []

  abbrev copied_fields : Option ℕ → Fields
  copied_fields none = sides ++ ("is_directory", bool true) ∷ []
  copied_fields (some n) =
      sides ++ ("is_directory", bool false) ∷ ("size", number (disk.show n)) ∷ []

  abbrev copy_error : FileInfo → Error → Error
  copy_error info = because (if info.is_dir then "copy directory" else "copy")

  unfoldable pub copy : Action Fields
  unfolding both_sides or_fail call make_parents copy_any ◌>>=◌ pure
  copy = do
    (src_root, src, dest) ← both_sides "copy"
    info ← or_fail (λ _. errorf ("source file not found" ∷ [])) (call (stat src) disk.info)
    _ ← make_parents disk server req dest
    size ← or_fail (copy_error info) (copy_any src_root info src dest)
    pure (copied_fields size)

  -- What Move does where the rename fails, as between two devices.
  unfoldable pub copy_and_remove : ResolvedRoot → String → String → Action Bool
  unfolding or_fail call copy_any perform ◌>>=◌
  copy_and_remove src_root src dest = do
    info ← or_fail (because "stat source") (call (stat src) disk.info)
    _ ← or_fail (because "copy for move") (copy_any src_root info src dest)
    or_fail (because "remove source after move") (perform disk server req (remove_all src))

  unfoldable pub move : Action Fields
  unfolding both_sides or_fail call make_parents try perform copy_and_remove ◌>>=◌ pure
  move = do
    (src_root, src, dest) ← both_sides "move"
    _ ← or_fail (λ _. errorf ("source file not found" ∷ [])) (call (stat src) disk.info)
    _ ← make_parents disk server req dest
    _ ←
        try (perform disk server req (rename src dest)) pure
          (λ _. copy_and_remove src_root src dest)
    pure sides
