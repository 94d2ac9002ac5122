-- ===== src/Tests/Files.antt =====
-- The theorems on the file tools, at small files, patches and roots.
use agent_stop_and_go.Prelude.{
  ℕ, ◌≡◌, ◌⊎◌, ◌<◌, refl, inl, inr, String, true, some, List, [], ◌∷◌, ◌==◌, if◌then◌else◌, concat,
  get_elem?, join, lookup, insert, Bool-cases, subst, sym, eq_iff, arith, length,
}
use agent_stop_and_go.Mcp.{errorf}
use agent_stop_and_go.Filesystem.{Checked, ok, err}
use agent_stop_and_go.Filesystem.Patch.{
  context, add, delete, DiffLine, done, replaced, apply_hunk, apply_patch, original_lines,
  split_lines, without_last_empty,
}
use agent_stop_and_go.Filesystem.Patch.Replacing.{hunk_applies}
use agent_stop_and_go.Filesystem.Patch.Checking.{old_side}
use agent_stop_and_go.Filesystem.Patch.Edits.{Edit, hunks_of, patch_makes_edits}
use agent_stop_and_go.Filesystem.Patch.Reading.{Written}
use agent_stop_and_go.Filesystem.Roots.{
  Root, Config, ResolvedRoot, System, directory, resolve_roots, resolve_entries, resolve_from,
  resolve_root, build_root, resolve_path, allow, is_valid_tool, contains, get_root, check_allowlist,
}
use agent_stop_and_go.Filesystem.Roots.Resolving.{
  granted, found_roots_are_configured, configured_roots_are_found,
}
use agent_stop_and_go.Filesystem.Paths.{Filepath, size, ended, validate_path}
use agent_stop_and_go.Filesystem.Paths.Walking.{DirLaws, validate_path_ends}
use agent_stop_and_go.Filesystem.Paths.Inside.{PathLaws}

abbrev change : List DiffLine
change =
    record { op = context; text = "a" }
    ∷ record { op = delete; text = "b" }
    ∷ record { op = add; text = "B" }
    ∷ []

abbrev file : List String
file = "z" ∷ "a" ∷ "b" ∷ "c" ∷ []

hunk_applies_example : apply_hunk file 1 change ≡ replaced ("z" ∷ "a" ∷ "B" ∷ "c" ∷ []) 2 2
hunk_applies_example = hunk_applies ("z" ∷ []) ("c" ∷ []) change

abbrev edit : (gap : List String) → (lines : List DiffLine) → 0 < length (old_side lines) → Edit
edit gap lines h = record {
  gap = gap;
  lines = lines;
  old_count = 1;
  new_start = 1;
  new_count = 1;
  replaces = h;
}

abbrev edits : List Edit
edits =
    edit ("z" ∷ []) change (omega arith)
    ∷ edit ("c" ∷ []) (record { op = delete; text = "d" } ∷ []) (omega arith)
    ∷ []

patch_makes_edits_example :
    apply_patch "z\na\nb\nc\nd\ne\n" (hunks_of 0 edits) ≡ done ("z" ∷ "a" ∷ "B" ∷ "c" ∷ "e" ∷ [])
unfolding original_lines split_lines without_last_empty
patch_makes_edits_example =
    patch_makes_edits "z\na\nb\nc\nd\ne\n" edits ("e" ∷ []) refl (omega arith)

abbrev written : Written
written = record {
  ranges = "@@ -2,2 +2,2 @@ here";
  hunk = record {
    header = record { old_start = 2; old_count = 2; new_start = 2; new_count = 2 };
    lines = change;
  };
}

abbrev entry : Root
entry = record { name = "work"; path = "/w"; allowed_tools = "read_file" ∷ "grep" ∷ [] }

abbrev settings : Config
settings = record { host = ""; port = 0; max_full_read_size = 0; roots = entry ∷ [] }

abbrev system : System
system = record {
  eval_symlinks = λ p. ok p;
  abs = λ p. ok p;
  stat = λ p. ok directory;
  show = λ i. "0";
}

abbrev pub root : ResolvedRoot
root = record {
  name = "work";
  real_path = "/w";
  allowed_tools = ("read_file", true) ∷ ("grep", true) ∷ [];
}

found_roots_are_configured_example :
    (k : ℕ) × (r : Root) × (get_elem? settings.roots k ≡ some r)
    × (r.name ≡ "work")
    × (check_allowlist root "write_file" ≡ granted r "write_file")
unfolding resolve_roots insert lookup resolve_entries resolve_from resolve_root build_root
    resolve_path allow is_valid_tool contains get_root
found_roots_are_configured_example =
    found_roots_are_configured system settings (("work", root) ∷ []) "work" "write_file" root refl
      refl

configured_roots_are_found_example :
    (found : ResolvedRoot) × (get_root (("work", root) ∷ []) "work" ≡ ok found)
    × (check_allowlist found "grep" ≡ granted entry "grep")
unfolding resolve_roots insert lookup resolve_entries resolve_from resolve_root build_root
    resolve_path allow is_valid_tool contains get_root
configured_roots_are_found_example =
    configured_roots_are_found system settings (("work", root) ∷ []) 0 entry "grep" refl refl

-- Files below one directory, of which only `/w` is there.
abbrev pub paths : Filepath
paths = record {
  clean = λ p. p;
  join = λ p q. concat (p ∷ "/" ∷ q ∷ []);
  dir = λ p. if p == "/w/new" then "/w" else p;
  rel = λ p q. ok "new";
  eval_symlinks = λ p. if p == "/w" then ok "/w" else err (errorf ("not there" ∷ []));
  abs = λ p. ok p;
}

dir_shortens : (p : String) → ((paths.dir p == p) ≡ true) ⊎ (size (paths.dir p) < size p)
dir_shortens p = elim (Bool-cases (p == "/w/new")) [
  | inl e ↦
      let same : p ≡ "/w/new" = ground (arith, eq_iff p "/w/new") in
      subst (λ q. ((paths.dir q == q) ≡ true) ⊎ (size (paths.dir q) < size q)) (sym same)
        (inr (omega arith))
  | inr e ↦ inl (rw e (ground (arith, eq_iff p p)))
]

abbrev dir_laws : DirLaws paths
dir_laws = record {
  is_abs = λ p. true;
  join-IsAbs = λ p q h. refl;
  dir-IsAbs = λ p h. refl;
  dir_shortens = λ p h. dir_shortens p;
}

validate_path_ends_example :
    (result : Checked String) × (validate_path paths root "new" ≡ ended result)
validate_path_ends_example = validate_path_ends paths root "new" dir_laws refl

abbrev pub path_laws : PathLaws paths
path_laws = record {
  is_abs = λ p. true;
  is_local = λ p. true;
  abs-IsAbs = λ p q h. (refl, refl);
  join-IsAbs = λ p q h. refl;
  rel-IsLocal = λ n p r a h. refl;
  join-below = λ p r a c s l. inr (r, refl);
}
