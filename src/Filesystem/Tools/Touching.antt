-- ===== src/Filesystem/Tools/Touching.antt =====
-- Which paths a tool may touch, and that what the handlers share keeps to them.
use agent_stop_and_go.Prelude.{
  ◌≡◌, refl, ◌⊎◌, String, Bool, true, false, Option, none, some, List, All, has_substring, ◌==◌,
}
use agent_stop_and_go.Mcp.{Error}
use agent_stop_and_go.Agent.Exec.{pure, throw, panics, ◌>>=◌}
use agent_stop_and_go.Filesystem.{ok}
use agent_stop_and_go.Filesystem.Roots.{ResolvedRoot, get_root, check_allowlist}
use agent_stop_and_go.Filesystem.Paths.{is_within_root, validate_path}
use agent_stop_and_go.Filesystem.Paths.Inside.{PathLaws, IsProper, validated_is_inside}
use agent_stop_and_go.Filesystem.Tools.{
  Call, stat, lstat, read_dir, opens, read_file, make_all, remove, remove_all, create, chmod,
  open_file, write_file, rename, Disk, Server, Request, Action, FileInfo, lift, req_string,
  allowed_root, validated, resolve_and_validate,
}
use agent_stop_and_go.Filesystem.Tools.Guards.{
  Guards, Guards-pure, Guards-throw, Guards-panics, Guards-bind, req_string-Guards, lifted,
  walked-Guards,
}

-- The name of an entry of a folder: not blank, not the folder itself or the one above it, and without a
-- separator.
pub record IsBaseName (name : String) : Type 0 where
  pub not_blank : (name == "") ≡ false
  pub not_itself : (name == ".") ≡ false
  pub not_parent : (name == "..") ≡ false
  pub no_separator : has_substring "/" name ≡ false

abbrev pub AreListed : List FileInfo → Type 0
AreListed infos = All (λ (fi : FileInfo). IsBaseName fi.name) infos

-- What os.ReadDir documents: the entries of a folder have base names.
abbrev pub ListsNames : Disk → Type 0
ListsNames disk =
    (history : List Call) (c : Call) (infos : List FileInfo)
    → disk.entries history c ≡ ok infos
    → AreListed infos

module _ (disk : Disk) (server : Server) (tool : String) where
  -- A root of the server on which the tool is allowed.
  abbrev pub AllowsTool : ResolvedRoot → Type 0
  AllowsTool root =
      (name : String) × (get_root server.roots name ≡ ok root) × (check_allowlist root tool ≡ none)

  -- A path within such a root, or an entry of a folder that is one, by its base name.
  pub data Reached : String → Type 0 where
    within :
        (root : ResolvedRoot) (path : String)
        → AllowsTool root
        → is_within_root path root.real_path ≡ true
        → Reached path
    entry :
        (folder name : String)
        → IsBaseName name
        → Reached folder
        → Reached (disk.filepath.join folder name)

  -- What a tool may call; only one that writes may change files, and make the folder above a path.
  abbrev pub May : Bool → Call → Type 0
  May writes (stat p) = Reached p
  May writes (lstat p) = Reached p
  May writes (read_dir p) = Reached p
  May writes (opens p) = Reached p
  May writes (read_file p) = Reached p
  May writes (make_all p) =
      (writes ≡ true) × (Reached p ⊎ ((q : String) × Reached q × (p ≡ disk.filepath.dir q)))
  May writes (remove p) = (writes ≡ true) × Reached p
  May writes (remove_all p) = (writes ≡ true) × Reached p
  May writes (create p) = (writes ≡ true) × Reached p
  May writes (chmod p) = (writes ≡ true) × Reached p
  May writes (open_file p flag) = (writes ≡ true) × Reached p
  May writes (write_file p content) = (writes ≡ true) × Reached p
  May writes (rename p q) = (writes ≡ true) × Reached p × Reached q

-- The server as it is started: path/filepath and os.ReadDir keep to their documentation, and the paths
-- of the roots are absolute and not `/`.
pub record IsSettled (disk : Disk) (server : Server) : Type 0 where
  pub laws : PathLaws disk.filepath
  pub names : ListsNames disk
  pub proper :
      (name : String) (root : ResolvedRoot)
      → get_root server.roots name ≡ ok root
      → IsProper root.real_path × (laws.is_abs root.real_path ≡ true)

module _ (disk : Disk) (server : Server) (req : Request) {P : Call → Type 0} (tool : String) where
  pub checked_root :
      (root : ResolvedRoot) (name : String)
      → get_root server.roots name ≡ ok root
      → (o : Option Error) → check_allowlist root tool ≡ o
      → Guards P (AllowsTool disk server tool) (elim o [ some e ↦ throw e | none ↦ pure root ])
  checked_root root name found none h = Guards-pure root (name, found, h)
  checked_root root name found (some e) h = Guards-throw e

  pub allowed_root-Guards :
      (key : String)
      → Guards P (AllowsTool disk server tool) (allowed_root disk server req key tool)
  unfolding allowed_root
  allowed_root-Guards key =
      Guards-bind (req_string req key) _ (req_string-Guards req key) (λ name _.
        Guards-bind (lift (get_root server.roots name)) _ (lifted (get_root server.roots name))
          (λ root found. checked_root root name found (check_allowlist root tool) refl))

  pub validated-Guards :
      IsSettled disk server
      → (root : ResolvedRoot) (path : String) → AllowsTool disk server tool root
      → Guards P (Reached disk server tool) (validated disk server req root path)
  unfolding validated
  validated-Guards settled root path (name, found, allows) =
      walked-Guards (validate_path disk.filepath root path) panics pure Guards-panics (λ resolved e.
        let (proper, absolute) = settled.proper name root found in
        Guards-pure resolved (
          within root resolved (name, found, allows)
            (validated_is_inside disk.filepath root path resolved settled.laws proper absolute e)))

  -- The root and the path that resolveAndValidate returns.
  pub resolve_and_validate-Guards :
      IsSettled disk server
      → Guards P
          (λ (root, path). AllowsTool disk server tool root × Reached disk server tool path)
          (resolve_and_validate disk server req tool)
  unfolding resolve_and_validate
  resolve_and_validate-Guards settled =
      Guards-bind (allowed_root disk server req "root" tool) _ (allowed_root-Guards "root")
        (λ root allows.
          Guards-bind (req_string req "path") _ (req_string-Guards req "path") (λ path _.
            Guards-bind (validated disk server req root path) _
              (validated-Guards settled root path allows)
              (λ resolved reached. Guards-pure (root, resolved) (allows, reached))))

  -- A handler goes on with a root that allows its tool, and a path within it.
  pub Guards-resolved :
      {B : Type 0} {R : B → Type 0} (f : ResolvedRoot × String → Action B)
      → IsSettled disk server
      → ((root : ResolvedRoot) (path : String)
          → AllowsTool disk server tool root
          → Reached disk server tool path
          → Guards P R (f (root, path)))
      → Guards P R (resolve_and_validate disk server req tool >>= f)
  Guards-resolved f settled k =
      Guards-bind (resolve_and_validate disk server req tool) f
        (resolve_and_validate-Guards settled)
        (λ (root, path) (allows, reached). k root path allows reached)
