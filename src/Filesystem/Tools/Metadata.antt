-- ===== src/Filesystem/Tools/Metadata.antt =====
-- StatFile, HashFile and PermissionsFile of internal/filesystem/tools.go.
use agent_stop_and_go.Prelude.{
  ℕ, String, Bool, not, ◌||◌, Option, none, some, [], ◌∷◌, ◌==◌, if◌then◌else◌,
}
use agent_stop_and_go.Json.{str, number, bool}
use agent_stop_and_go.Mcp.{errorf}
use agent_stop_and_go.Agent.Exec.{pure, ◌>>=◌, try}
use agent_stop_and_go.Filesystem.Tools.{
  stat, lstat, opens, FileInfo, Disk, Request, Server, Action, Fields, lift, call, or_fail, because,
  fail_if, req_string, resolve_and_validate, path_arg,
}

-- The hashes that hash_file has.
unfoldable pub is_algorithm : String → Bool
is_algorithm name = name == "md5" || (name == "sha1" || name == "sha256")

module _ (disk : Disk) (server : Server) (req : Request) where
  abbrev stat_fields : FileInfo → ℕ → Bool → Fields
  stat_fields info size is_dir =
      ("name", str info.name)
      ∷ ("path", str (path_arg disk server req))
      ∷ ("size", number (disk.show size))
      ∷ ("is_directory", bool is_dir)
      ∷ ("is_symlink", bool info.is_symlink)
      ∷ ("modified_at", str info.mod_time)
      ∷ []

  -- The size and the kind of what a link leads to.
  unfoldable pub follow_link : FileInfo → String → Action Fields
  unfolding try call pure
  follow_link info resolved =
      if info.is_symlink
      then try (call (stat resolved) disk.info)
          (λ target. pure (stat_fields info target.size target.is_dir))
          (λ _. pure (stat_fields info info.size info.is_dir))
      else pure (stat_fields info info.size info.is_dir)

  unfoldable pub stat_file : Action Fields
  unfolding resolve_and_validate or_fail call follow_link ◌>>=◌
  stat_file = do
    (root, resolved) ← resolve_and_validate disk server req "stat_file"
    info ←
        or_fail (λ _. errorf ("not found: " ∷ path_arg disk server req ∷ []))
          (call (lstat resolved) disk.info)
    follow_link info resolved

  unfoldable pub hash_file : Action Fields
  unfolding resolve_and_validate req_string is_algorithm fail_if or_fail call lift ◌>>=◌ pure
  hash_file = do
    (root, resolved) ← resolve_and_validate disk server req "hash_file"
    algorithm ← req_string req "algorithm"
    _ ← fail_if (not (is_algorithm algorithm)) (
        errorf ("unsupported hash algorithm: " ∷ algorithm ∷ "; supported: md5, sha1, sha256" ∷ []))
    info ←
        or_fail (λ _. errorf ("file not found: " ∷ path_arg disk server req ∷ []))
          (call (stat resolved) disk.info)
    _ ← fail_if info.is_dir (errorf ("cannot hash a directory: " ∷ path_arg disk server req ∷ []))
    file ← or_fail (because "open") (call (opens resolved) disk.handle)
    sum ← or_fail (because "hash") (lift (file.sum algorithm))
    pure (
        ("path", str (path_arg disk server req))
        ∷ ("algorithm", str algorithm)
        ∷ ("hash", str sum)
        ∷ ("size", number (disk.show info.size))
        ∷ [])

  abbrev owner_fields : Option (String × String) → Fields
  owner_fields none = []
  owner_fields (some (owner, group)) = ("owner", str owner) ∷ ("group", str group) ∷ []

  unfoldable pub permissions_file : Action Fields
  unfolding resolve_and_validate or_fail call ◌>>=◌ pure
  permissions_file = do
    (root, resolved) ← resolve_and_validate disk server req "permissions_file"
    info ←
        or_fail (λ _. errorf ("not found: " ∷ path_arg disk server req ∷ []))
          (call (lstat resolved) disk.info)
    pure (
        ("path", str (path_arg disk server req))
        ∷ ("mode", str info.permissions)
        ∷ ("mode_string", str info.mode_string)
        ∷ owner_fields info.owner)
