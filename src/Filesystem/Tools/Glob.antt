-- ===== src/Filesystem/Tools/Glob.antt =====
-- Glob of internal/filesystem/tools.go, and the patterns with ** that it matches.
pub mod Patterns
use Prim.Native.Nat.{Ordering}
use Prim.Native.String.{compare}
use agent_stop_and_go.Prelude.{
  ℕ, zero, suc, String, Bool, true, false, not, ◌||◌, ◌&&◌, Option, none, some, List, [], ◌∷◌, ◌++◌,
  ◌==◌, leb, if◌then◌else◌, concat, join, length, has_prefix, has_substring, trim_prefix,
  trim_last_slash, split_from,
}
use agent_stop_and_go.Agent.Exec.{pure, throw, reads, ◌>>=◌, try}
use agent_stop_and_go.Mcp.{errorf}
use agent_stop_and_go.Filesystem.Roots.{ResolvedRoot}
use agent_stop_and_go.Filesystem.Paths.{is_within_root}
use agent_stop_and_go.Filesystem.Tools.{
  lstat, FileInfo, Disk, Server, Request, Action, call, lift, or_fail, because, fail_if,
  allowed_root, validated,
}
use agent_stop_and_go.Filesystem.Tools.Searching.{Search, Step, go, skip_dir, skip_all, walk_dir}
use agent_stop_and_go.Filesystem.Tools.Grep.{too_deep}

-- strings.Split(s, "/") and strings.Split(s, "**")
unfoldable pub segments_of : String → List String
unfolding split_from
segments_of path = let (first, others) = split_from 0 0 "/" path in first ∷ others

unfoldable pub stars_of : String → List String
unfolding split_from
stars_of pattern = let (first, others) = split_from 1 0 "**" pattern in first ∷ others

module _ (search : Search) where
  -- The loop over the tails of the segments.
  unfoldable pub any_tail : String → List String → Bool
  unfolding join
  any_tail suffix [] = false
  any_tail suffix (segment ∷ rest) =
      let later = any_tail suffix rest in search.matches suffix (join "/" (segment ∷ rest)) || later

  -- A pattern with one **, by what stands before and behind it.
  unfoldable pub match_around : (prefix suffix path : String) → Bool
  unfolding any_tail segments_of has_prefix trim_prefix concat
  match_around prefix suffix path =
      if prefix == ""
      then any_tail suffix (segments_of path) || search.matches suffix (search.base path)
      else if not (has_prefix path (concat (prefix ∷ "/" ∷ []))) && not (path == prefix)
      then false
      else if suffix == ""
      then true
      else any_tail suffix (segments_of (trim_prefix path (concat (prefix ∷ "/" ∷ []))))

  unfoldable pub match_parts : List String → (pattern path : String) → Bool
  unfolding match_around trim_last_slash trim_prefix
  match_parts (before ∷ behind ∷ []) pattern path =
      match_around (trim_last_slash before) (trim_prefix behind "/") path
  match_parts [] pattern path = search.matches pattern (search.base path)
  match_parts (one ∷ []) pattern path = search.matches pattern (search.base path)
  match_parts (one ∷ two ∷ three ∷ more) pattern path = search.matches pattern (search.base path)

  -- matchDoublestar
  unfoldable pub match_doublestar : (pattern path : String) → Bool
  unfolding has_substring match_parts stars_of
  match_doublestar pattern path =
      if has_substring "**" pattern
      then match_parts (stars_of pattern) pattern path
      else search.matches pattern (search.base path)

pub record GlobMatch : Type 0 where
  pub path : String
  pub type : String
  pub size : ℕ
  pub modified_at : String

pub record Globbed : Type 0 where
  pub matches : List GlobMatch
  pub truncated : Bool
  pub timed_out : Bool

-- What the search is for: a pattern, or else a regular expression.
pub record Query : Type 0 where
  pub matched : String → Bool
  pub max_results : ℕ
  pub max_depth : Option ℕ
  pub type_filter : String

unfoldable pub entry_type : FileInfo → String
entry_type fi = if fi.is_symlink then "symlink" else if fi.is_dir then "directory" else "file"

-- sort.Slice by the path
unfoldable pub insert_match : GlobMatch → List GlobMatch → List GlobMatch
insert_match m [] = m ∷ []
insert_match m (n ∷ ns) =
    let later = insert_match m ns in
    elim (compare n.path m.path) [ Ordering.gt ↦ m ∷ n ∷ ns | _ ↦ n ∷ later ]

unfoldable pub sort_matches : List GlobMatch → List GlobMatch
unfolding insert_match
sort_matches [] = []
sort_matches (m ∷ ms) = insert_match m (sort_matches ms)

module _ (disk : Disk) (search : Search) (root : ResolvedRoot) (base : String) (q : Query) where
  -- An entry that is tested against the type and the pattern.
  unfoldable pub glob_match : String → FileInfo → Globbed → Action (Step × Globbed)
  unfolding try call pure entry_type
  glob_match path fi s =
      let rel_path = search.rel base path in
      let kind = entry_type fi in
      if not (q.type_filter == "all") && not (kind == q.type_filter)
      then pure (go, s)
      else if not (q.matched rel_path)
      then pure (go, s)
      else try (call (lstat path) disk.info)
          (λ info.
            let m : GlobMatch = record {
              path = rel_path;
              type = kind;
              size = info.size;
              modified_at = info.mod_time;
            } in
            pure (go, record s { matches = s.matches ++ m ∷ [] }))
          (λ _. pure (go, s))

  -- The function that the walk calls for each entry.
  unfoldable pub glob_entry : String → FileInfo → Globbed → Action (Step × Globbed)
  unfolding glob_match too_deep pure reads is_within_root ◌>>=◌
  glob_entry path fi s = reads search.expired >>= λ late.
      if late
      then pure (skip_all, record s { timed_out = true })
      else if leb q.max_results (length s.matches)
      then pure (skip_all, record s { truncated = true })
      else if path == base
      then pure (go, s)
      else if not (is_within_root path root.real_path)
      then pure (go, s)
      else if fi.is_dir && too_deep q.max_depth search base path
      then pure (skip_dir, s)
      else glob_match path fi s

module _ (disk : Disk) (server : Server) (search : Search) (req : Request) where
  -- What a path is matched against; a regular expression is compiled.
  unfoldable pub matcher : (pattern regex : String) → Action (String → Bool)
  unfolding or_fail lift pure match_doublestar
  matcher pattern regex =
      if regex == ""
      then pure (match_doublestar search pattern)
      else or_fail (because "invalid regex") (lift (search.compile regex))

  unfoldable pub globbed : Globbed → Action Globbed
  unfolding pure sort_matches
  globbed s = pure (record s { matches = sort_matches s.matches })

  unfoldable pub glob : Action Globbed
  unfolding allowed_root fail_if validated matcher walk_dir glob_entry globbed ◌>>=◌
  glob = do
    root ← allowed_root disk server req "root" "glob"
    let pattern = req.get_string "pattern" ""
    let regex = req.get_string "regex" ""
    _ ←
        fail_if (((pattern == "") && (regex == "")) || (not (pattern == "") && not (regex == "")))
          (errorf ("exactly one of pattern or regex must be provided" ∷ []))
    base ← validated disk server req root (req.get_string "path" ".")
    matched ← matcher pattern regex
    s ←
        walk_dir disk
          (glob_entry disk search root base (record {
            matched = matched;
            max_results = search.opt_int "max_results" 100;
            max_depth = req.get_count "max_depth";
            type_filter = req.get_string "type_filter" "all";
          }))
          base (record { matches = []; truncated = false; timed_out = false })
    globbed s
