-- ===== src/Filesystem/Tools/Files.antt =====
-- WriteFile, RemoveFile and PatchFile of internal/filesystem/tools.go.
use agent_stop_and_go.Prelude.{
  String, Bool, true, Option, none, some, List, [], ◌∷◌, ◌++◌, ◌==◌, if◌then◌else◌, length,
}
use agent_stop_and_go.Json.{str, number, bool}
use agent_stop_and_go.Mcp.{Error, errorf}
use agent_stop_and_go.Agent.Exec.{pure, throw, panics, ◌>>=◌, try}
use agent_stop_and_go.Filesystem.Patch.{
  Hunk, parse_patch, apply_patch, Patched, done, mismatch, joined,
}
use agent_stop_and_go.Filesystem.Tools.{
  stat, lstat, read_file, make_all, remove, Flag, truncate, append, exclusive, open_file,
  write_file, Disk, Request, Server, Action, Fields, lift, call, or_fail, because, fail_if,
  req_string, perform, resolve_and_validate, path_arg,
}

-- The modes of write_file, with the flags of each.
unfoldable pub mode_flag : String → Option Flag
mode_flag mode =
    if mode == "overwrite"
    then some truncate
    else if mode == "append"
    then some append
    else if mode == "create_only"
    then some exclusive
    else none

module _ (disk : Disk) (server : Server) (req : Request) where
  abbrev pub with_path : List String → Error
  with_path what = errorf (what ++ path_arg disk server req ∷ [])

  unfoldable pub make_parents : String → Action Bool
  unfolding or_fail perform
  make_parents resolved =
      or_fail (because "create parent directories")
        (perform disk server req (make_all (disk.filepath.dir resolved)))

  -- `create_only` refuses a file that is there.
  unfoldable pub refuse_existing : String → String → Action Bool
  unfolding try call throw pure
  refuse_existing mode resolved =
      if mode == "create_only"
      then try (call (stat resolved) disk.info)
          (λ _. throw (
            errorf (
              "file already exists: "
              ∷ path_arg disk server req
              ∷ "; use overwrite mode to replace"
              ∷ [])))
          (λ _. pure true)
      else pure true

  unfoldable pub write_with : String → String → String → Flag → Action Fields
  unfolding make_parents refuse_existing or_fail call lift ◌>>=◌ pure
  write_with resolved content mode flag = do
    _ ← make_parents resolved
    _ ← refuse_existing mode resolved
    file ← or_fail (because "open file") (call (open_file resolved flag) disk.handle)
    n ← or_fail (because "write") (lift (file.write content))
    pure (
        ("path", str (path_arg disk server req))
        ∷ ("size", number (disk.show n))
        ∷ ("mode", str mode)
        ∷ [])

  unfoldable pub write_in_mode : String → String → String → Option Flag → Action Fields
  unfolding write_with throw
  write_in_mode resolved content mode (some flag) = write_with resolved content mode flag
  write_in_mode resolved content mode none = throw (
      errorf ("invalid write mode: " ∷ mode ∷ "; valid modes: overwrite, append, create_only" ∷ []))

  unfoldable pub write_to_file : Action Fields
  unfolding resolve_and_validate req_string mode_flag write_in_mode ◌>>=◌
  write_to_file = do
    (root, resolved) ← resolve_and_validate disk server req "write_file"
    content ← req_string req "content"
    write_in_mode resolved content (req.get_string "mode" "overwrite")
        (mode_flag (req.get_string "mode" "overwrite"))

  unfoldable pub remove_a_file : Action Fields
  unfolding resolve_and_validate or_fail call fail_if perform ◌>>=◌ pure
  remove_a_file = do
    (root, resolved) ← resolve_and_validate disk server req "remove_file"
    info ← or_fail (λ _. with_path ("file not found: " ∷ [])) (call (lstat resolved) disk.info)
    _ ← fail_if info.is_dir (with_path ("path is a directory, use remove_folder instead: " ∷ []))
    _ ← or_fail (because "remove") (perform disk server req (remove resolved))
    pure (("path", str (path_arg disk server req)) ∷ ("removed", bool true) ∷ [])

  -- What ApplyPatch returns, with the text of its error.
  unfoldable pub patched_text : Patched → Action String
  unfolding pure throw panics
  patched_text (done lines) = pure (joined lines)
  patched_text (mismatch hunk line expected actual) = throw (
      errorf (
        "patch failed: hunk "
        ∷ disk.show hunk
        ∷ " does not match at line "
        ∷ disk.show line
        ∷ " (expected "
        ∷ expected
        ∷ ", got "
        ∷ elim actual [ none ↦ "<EOF>" | some text ↦ text ]
        ∷ ")"
        ∷ []))
  patched_text Patched.panics = panics

  -- What ParsePatch returns.
  unfoldable pub parsed_hunks : Option (List Hunk) → Action (List Hunk)
  unfolding pure throw
  parsed_hunks none = throw (errorf ("parse patch: no hunks found in patch" ∷ []))
  parsed_hunks (some hunks) = pure hunks

  unfoldable pub patch_file : Action Fields
  unfolding resolve_and_validate req_string parse_patch parsed_hunks apply_patch patched_text try
      call make_parents or_fail perform ◌>>=◌ pure
  patch_file = do
    (root, resolved) ← resolve_and_validate disk server req "patch_file"
    patch ← req_string req "patch"
    hunks ← parsed_hunks (parse_patch patch)
    original ← try (call (read_file resolved) disk.text) pure (λ _. pure "")
    patched ← patched_text (apply_patch original hunks)
    _ ← make_parents resolved
    _ ←
        or_fail (because "write patched file")
          (perform disk server req (write_file resolved patched))
    pure (
        ("path", str (path_arg disk server req))
        ∷ ("hunks_applied", number (disk.show (length hunks)))
        ∷ [])
