-- ===== src/Filesystem/Roots.antt =====
-- internal/filesystem/config.go and the checks of security.go on a root and a tool. The calls of os and
-- path/filepath are parameters; `%q` leaves the text as it is.
pub mod Allowlist
pub mod Resolving
use agent_stop_and_go.Prelude.{
  ℕ, suc, String, Bool, true, false, Option, none, some, List, [], ◌∷◌, nat_eq, ◌==◌, if◌then◌else◌,
  is_some, Assoc, lookup, insert,
}
use agent_stop_and_go.Mcp.{Error, errorf, wrap}
use agent_stop_and_go.Filesystem.{Checked, ok, err, ◌>>=◌, map_err}

abbrev pub valid_tool_names : List String
valid_tool_names =
    "list_folder" ∷ "read_file" ∷ "write_file" ∷ "remove_file" ∷ "patch_file" ∷ "create_folder"
    ∷ "remove_folder" ∷ "stat_file" ∷ "hash_file" ∷ "permissions_file" ∷ "copy" ∷ "move" ∷ "grep"
    ∷ "glob" ∷ []

pub record Root : Type 0 where
  pub name : String
  pub path : String
  pub allowed_tools : List String

pub record Config : Type 0 where
  pub host : String
  pub port : ℕ
  pub max_full_read_size : ℕ
  pub roots : List Root

pub record ResolvedRoot : Type 0 where
  pub name : String
  pub real_path : String
  pub allowed_tools : Assoc Bool

abbrev or_default : String → String → String
or_default s d = if s == "" then d else s

-- The defaults of LoadConfig, behind the read and the parse.
unfoldable pub with_defaults : Config → Config
with_defaults cfg = record cfg {
  host = or_default cfg.host "0.0.0.0";
  port = if nat_eq cfg.port 0 then 8091 else cfg.port;
  max_full_read_size = if nat_eq cfg.max_full_read_size 0 then 1048576 else cfg.max_full_read_size;
}

unfoldable pub contains : String → List String → Bool
contains name [] = false
contains name (other ∷ rest) =
    let later = contains name rest in if other == name then true else later

-- `allowed[name] = true` for every valid name
unfoldable pub allow_all : List String → Assoc Bool → Assoc Bool
unfolding insert
allow_all [] allowed = allowed
allow_all (name ∷ rest) allowed = allow_all rest (insert name true allowed)

-- `ValidToolNames[name]`
unfoldable pub is_valid_tool : String → Bool
unfolding contains
is_valid_tool name = contains name valid_tool_names

-- A map of Booleans, read.
abbrev pub or_false : Option Bool → Bool
or_false none = false
or_false (some b) = b

unfoldable pub is_allowed : Assoc Bool → String → Bool
unfolding lookup
is_allowed allowed name = or_false (lookup name allowed)

-- The loop that builds the set of a root: `"*"` allows every tool and ends it.
unfoldable pub allow : (String → Error) → List String → Assoc Bool → Checked (Assoc Bool)
unfolding allow_all is_valid_tool
allow unknown [] allowed = ok allowed
allow unknown (tool ∷ rest) allowed =
    let more = allow unknown rest (insert tool true allowed) in
    if tool == "*"
    then ok (allow_all valid_tool_names allowed)
    else if is_valid_tool tool
    then more
    else err (unknown tool)

-- os.Stat
pub data Info : Type 0 where
  directory : Info
  other_file : Info

-- What a root's path is resolved with.
pub record System : Type 0 where
  pub eval_symlinks : String → Checked String
  pub abs : String → Checked String
  pub stat : String → Checked Info
  pub show : ℕ → String

module _ (system : System) where
  -- `roots[%d] %q: ` and what follows
  abbrev pub at_root : ℕ → Root → List String → Error
  at_root i r rest = errorf ("roots[" ∷ system.show i ∷ "] " ∷ r.name ∷ ": " ∷ rest)

  abbrev pub at_path : ℕ → Root → Error → Error
  at_path i r e = at_root i r ("path " ∷ r.path ∷ ": " ∷ e.text ∷ [])

  abbrev pub unknown_tool : ℕ → Root → String → Error
  unknown_tool i r tool = at_root i r ("unknown tool " ∷ tool ∷ " in allowed_tools" ∷ [])

  -- The path of a root, resolved, and that it is a directory.
  unfoldable pub resolve_path : ℕ → Root → Checked String
  resolve_path i r = do
    followed ←
        map_err (λ e. at_root i r ("resolve path " ∷ r.path ∷ ": " ∷ e.text ∷ []))
          (system.eval_symlinks r.path)
    real_path ← map_err (λ e. at_root i r ("abs path: " ∷ e.text ∷ [])) (system.abs followed)
    info ← map_err (at_path i r) (system.stat real_path)
    elim info [
      | directory ↦ ok real_path
      | other_file ↦ err (at_root i r ("path " ∷ r.path ∷ " is not a directory" ∷ []))
    ]

  -- What a root with a name and a path becomes.
  unfoldable pub build_root : ℕ → Root → Checked ResolvedRoot
  unfolding resolve_path allow
  build_root i r = do
    real_path ← resolve_path i r
    allowed ← allow (unknown_tool i r) r.allowed_tools []
    ok (record { name = r.name; real_path = real_path; allowed_tools = allowed })

  -- One round of the loop of ResolveRoots.
  unfoldable pub resolve_root : ℕ → Root → Assoc ResolvedRoot → Checked ResolvedRoot
  unfolding lookup build_root
  resolve_root i r roots =
      if r.name == ""
      then err (errorf ("roots[" ∷ system.show i ∷ "]: name is required" ∷ []))
      else if is_some (lookup r.name roots)
      then err (errorf ("duplicate root name: " ∷ r.name ∷ []))
      else if r.path == ""
      then err (at_root i r ("path is required" ∷ []))
      else build_root i r

  unfoldable pub resolve_from : ℕ → List Root → Assoc ResolvedRoot → Checked (Assoc ResolvedRoot)
  unfolding resolve_root insert
  resolve_from i [] roots = ok roots
  resolve_from i (r ∷ rest) roots =
      resolve_root i r roots >>= λ root. resolve_from (suc i) rest (insert r.name root roots)

  unfoldable pub resolve_entries : List Root → Checked (Assoc ResolvedRoot)
  unfolding resolve_from
  resolve_entries [] = err (errorf ("no roots configured" ∷ []))
  resolve_entries (r ∷ rest) = resolve_from 0 (r ∷ rest) []

  unfoldable pub resolve_roots : Config → Checked (Assoc ResolvedRoot)
  unfolding resolve_entries
  resolve_roots cfg = resolve_entries cfg.roots

-- CheckAllowlist
unfoldable pub check_allowlist : ResolvedRoot → String → Option Error
unfolding is_allowed
check_allowlist root tool_name =
    if is_allowed root.allowed_tools tool_name
    then none
    else some (errorf ("tool " ∷ tool_name ∷ " not allowed on root " ∷ root.name ∷ []))

-- GetRoot
unfoldable pub get_root : Assoc ResolvedRoot → String → Checked ResolvedRoot
unfolding lookup
get_root roots name = elim (lookup name roots) [
  | none ↦ err (errorf ("unknown root: " ∷ name ∷ []))
  | some root ↦ ok root
]
