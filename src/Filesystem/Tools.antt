-- ===== src/Filesystem/Tools.antt =====
-- internal/filesystem/tools.go: the handlers of the tools as actions on a history of the calls of os. A
-- result that is an error of the tool is the error of the action; no handler returns a Go error.
-- The environment answers each call as it likes, depending on the calls before it. Integers of a
-- request that are negative count as absent, as the handlers treat them. Logs are left out.
pub mod Reading
pub mod Files
pub mod Metadata
pub mod Folders
pub mod Copying
pub mod Listing
pub mod Searching
pub mod Grep
pub mod Glob
pub mod Guards
pub mod Touching
pub mod Paging
pub mod Searches
pub mod Readers
pub mod Changes
pub mod Copies
pub mod Writers
use agent_stop_and_go.Prelude.{
  ℕ, String, Bool, true, false, Option, none, some, List, [], ◌∷◌, ◌==◌, if◌then◌else◌, Assoc,
}
use agent_stop_and_go.Json.{Value}
use agent_stop_and_go.Mcp.{Error, errorf}
use agent_stop_and_go.Agent.Exec.{Exec, pure, throw, panics, ◌>>=◌, try}
use agent_stop_and_go.Filesystem.{Checked, ok, err}
use agent_stop_and_go.Filesystem.Roots.{ResolvedRoot, get_root, check_allowlist}
use agent_stop_and_go.Filesystem.Paths.{Filepath, Walk, ended, unfinished, validate_path}

-- The flags of os.OpenFile that write_file uses.
pub data Flag : Type 0 where
  truncate append exclusive : Flag

-- The calls of os, with their paths.
pub data Call : Type 0 where
  stat lstat read_dir opens read_file make_all remove remove_all create chmod : String → Call
  open_file : String → Flag → Call
  write_file : String → String → Call
  rename : String → String → Call

pub record FileInfo : Type 0 where
  pub name : String
  pub is_dir : Bool
  pub is_symlink : Bool
  pub size : ℕ
  pub mod_time : String
  pub permissions : String
  pub mode_string : String
  -- the user and the group of a syscall.Stat_t
  pub owner : Option (String × String)

-- A file that was opened: what the first read gives, and what the whole of it is.
pub record Handle : Type 0 where
  pub header : List ℕ
  pub seek : ℕ → Checked ℕ
  pub content : Checked String
  -- io.ReadFull at an offset: the text, and how many bytes it has
  pub read_full : (offset limit : ℕ) → Checked (String × ℕ)
  -- the hash of the content, by the name of the algorithm
  pub sum : String → Checked String
  pub write : String → Checked ℕ

pub record Disk : Type 0 where
  pub info : List Call → Call → Checked FileInfo
  pub entries : List Call → Call → Checked (List FileInfo)
  pub handle : List Call → Call → Checked Handle
  pub text : List Call → Call → Checked String
  -- calls that return nothing but an error
  pub does : List Call → Call → Option Error
  -- io.Copy, and then how deep folders are nested: copyDir recurses into each
  pub copied : List Call → Checked ℕ
  pub depth : ℕ
  pub filepath : Filepath
  pub show : ℕ → String
  pub format_size : ℕ → String

-- The arguments of a request, as mcp-go reads them.
pub record Request : Type 0 where
  pub get_string : (key def : String) → String
  pub get_count : (key : String) → Option ℕ

pub record Server : Type 0 where
  pub roots : Assoc ResolvedRoot
  pub max_full_read_size : ℕ

abbrev pub Action : Type 0 → Type 0
Action A = Exec (List Call) A

abbrev pub Fields : Type 0
Fields = Assoc Value

module _ {A : Type 0} where
  -- An answer, as the result of an action.
  unfoldable pub lift : Checked A → Action A
  unfolding pure throw
  lift (ok a) = pure a
  lift (err e) = throw e

  -- Makes a call.
  unfoldable pub call : Call → (List Call → Call → Checked A) → Action A
  unfolding lift
  call c answer calls = lift (answer calls c) (c ∷ calls)

  -- An error with another text.
  unfoldable pub or_fail : (Error → Error) → Action A → Action A
  unfolding try pure throw
  or_fail f m = try m pure (λ e. throw (f e))

  unfoldable pub walked : Walk → Action A → (String → Action A) → Action A
  unfolding throw
  walked unfinished m f = m
  walked (ended (ok path)) m f = f path
  walked (ended (err e)) m f = throw e

-- fmt.Sprintf("...: %v", err)
abbrev pub because : String → Error → Error
because what e = errorf (what ∷ ": " ∷ e.text ∷ [])

unfoldable pub done_or : Option Error → Checked Bool
done_or none = ok true
done_or (some e) = err e

-- `if test { return an error }`
unfoldable pub fail_if : Bool → Error → Action Bool
unfolding pure throw
fail_if test e = if test then throw e else pure true

-- reqString
unfoldable pub req_string : Request → String → Action String
unfolding pure throw
req_string req key =
    let v = req.get_string key "" in
    if v == "" then throw (errorf (key ∷ " is required" ∷ [])) else pure v

module _ (disk : Disk) (server : Server) (req : Request) where
  -- A call that answers nothing but an error.
  unfoldable pub perform : Call → Action Bool
  unfolding call done_or
  perform c = call c (λ calls d. done_or (disk.does calls d))

  -- GetRoot and CheckAllowlist, on the root of an argument.
  unfoldable pub allowed_root : (key tool_name : String) → Action ResolvedRoot
  unfolding req_string lift ◌>>=◌ pure throw
  allowed_root key tool_name = do
    name ← req_string req key
    root ← lift (get_root server.roots name)
    elim (check_allowlist root tool_name) [ some e ↦ throw e | none ↦ pure root ]

  unfoldable pub validated : ResolvedRoot → String → Action String
  unfolding walked panics pure
  validated root path = walked (validate_path disk.filepath root path) panics pure

  -- resolveAndValidate
  unfoldable pub resolve_and_validate : String → Action (ResolvedRoot × String)
  unfolding allowed_root req_string validated ◌>>=◌ pure
  resolve_and_validate tool_name = do
    root ← allowed_root "root" tool_name
    path ← req_string req "path"
    resolved ← validated root path
    pure (root, resolved)

  -- req.GetString("path", "")
  abbrev pub path_arg : String
  path_arg = req.get_string "path" ""
