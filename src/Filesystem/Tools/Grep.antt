-- ===== src/Filesystem/Tools/Grep.antt =====
-- Grep of internal/filesystem/tools.go.
pub mod Matches
use agent_stop_and_go.Prelude.{
  ℕ, suc, ◌+◌, ◌-◌, String, Bool, true, false, not, ◌||◌, ◌&&◌, Option, none, some, List, [], ◌∷◌,
  ◌++◌, ◌==◌, nat_eq, leb, ltb, if◌then◌else◌, concat, length, take, drop,
}
use agent_stop_and_go.Agent.Exec.{pure, reads, ◌>>=◌, try}
use agent_stop_and_go.Mcp.{errorf}
use agent_stop_and_go.Filesystem.{Checked}
use agent_stop_and_go.Filesystem.Roots.{ResolvedRoot}
use agent_stop_and_go.Filesystem.Paths.{is_within_root}
use agent_stop_and_go.Filesystem.Patch.{split_lines}
use agent_stop_and_go.Filesystem.Tools.{
  opens, FileInfo, Handle, Disk, Server, Request, Action, call, lift, or_fail, because, req_string,
  allowed_root, validated,
}
use agent_stop_and_go.Filesystem.Tools.Searching.{
  Search, Step, go, skip_dir, skip_all, separators, walk_dir,
}

pub record GrepMatch : Type 0 where
  pub file : String
  pub line_number : ℕ
  pub line_content : String
  pub context_before : List String
  pub context_after : List String

-- What the walk keeps, and what Grep answers.
pub record Grepped : Type 0 where
  pub matches : List GrepMatch
  pub truncated : Bool
  pub timed_out : Bool

-- What the search is for.
pub record Query : Type 0 where
  pub regexp : String → Bool
  pub glob_filter : String
  pub context_lines : ℕ
  pub max_results : ℕ
  pub max_depth : Option ℕ

-- The match at a line of a file, with its context: `i` counts the lines before it.
unfoldable pub match_at : Query → String → List String → ℕ → String → GrepMatch
match_at q file lines i line = record {
  file = file;
  line_number = i + 1;
  line_content = line;
  context_before =
      if ltb 0 q.context_lines
      then take (i - (i - q.context_lines)) (drop (i - q.context_lines) lines)
      else [];
  context_after = if ltb 0 q.context_lines then take q.context_lines (drop (i + 1) lines) else [];
}

-- The loop over the lines, from line `i` on: the matches, and whether it was cut short.
unfoldable pub scan_lines :
    Query → String → List String → ℕ → List String → List GrepMatch → List GrepMatch × Bool
unfolding match_at
scan_lines q file lines i [] found = (found, false)
scan_lines q file lines i (line ∷ rest) found =
    let more = found ++ match_at q file lines i line ∷ [] in
    let hit = q.regexp line in
    let full = hit && leb q.max_results (length more) in
    let later = scan_lines q file lines (i + 1) rest (if hit then more else found) in
    if full then (more, true) else later

unfoldable pub has_zero : List ℕ → Bool
has_zero [] = false
has_zero (b ∷ bs) = nat_eq b 0 || has_zero bs

unfoldable pub too_deep : Option ℕ → Search → String → String → Bool
unfolding separators
too_deep none search base path = false
too_deep (some depth) search base path = ltb depth (separators (search.rel base path))

-- The state behind the lines of a file, and whether the walk goes on.
unfoldable pub scanned : Grepped → List GrepMatch × Bool → Step × Grepped
scanned s (found, full) =
    ((if full then skip_all else go), record s { matches = found; truncated = s.truncated || full })

module _ (disk : Disk) (search : Search) (root : ResolvedRoot) (base : String) (q : Query) where
  -- A file that was opened: one with a zero byte at its start is skipped.
  unfoldable pub grep_content : String → Grepped → Handle → Action (Step × Grepped)
  unfolding lift scan_lines scanned has_zero try pure split_lines
  grep_content path s file =
      if has_zero file.header
      then pure (go, s)
      else try (lift (file.seek 0))
          (λ _.
            try (lift file.content)
              (λ content.
                let lines = split_lines content in
                pure (scanned s (scan_lines q (search.rel base path) lines 0 lines s.matches)))
              (λ _. pure (go, s)))
          (λ _. pure (go, s))

  unfoldable pub grep_file : String → FileInfo → Grepped → Action (Step × Grepped)
  unfolding try call grep_content pure is_within_root
  grep_file path fi s =
      if not (is_within_root path root.real_path)
      then pure (go, s)
      else if not (q.glob_filter == "") && not (search.matches q.glob_filter fi.name)
      then pure (go, s)
      else try (call (opens path) disk.handle) (grep_content path s) (λ _. pure (go, s))

  -- The function that the walk calls for each entry.
  unfoldable pub grep_entry : String → FileInfo → Grepped → Action (Step × Grepped)
  unfolding grep_file too_deep pure reads ◌>>=◌
  grep_entry path fi s = reads search.expired >>= λ late.
      if late
      then pure (skip_all, record s { timed_out = true })
      else if s.truncated
      then pure (skip_all, s)
      else if fi.is_dir
      then pure ((if too_deep q.max_depth search base path then skip_dir else go), s)
      else grep_file path fi s

module _ (disk : Disk) (server : Server) (search : Search) (req : Request) where
  -- req.GetString("path", ".")
  abbrev pub search_path : String
  search_path = req.get_string "path" "."

  unfoldable pub grep : Action Grepped
  unfolding allowed_root req_string or_fail lift validated walk_dir grep_entry ◌>>=◌ concat
  grep = do
    root ← allowed_root disk server req "root" "grep"
    pattern ← req_string req "pattern"
    regexp ← or_fail (because "invalid pattern") (
        lift (
          search.compile (
            if search.opt_bool "case_insensitive" false
            then concat ("(?i)" ∷ pattern ∷ [])
            else pattern)))
    base ← validated disk server req root search_path
    walk_dir disk
        (grep_entry disk search root base (record {
          regexp = regexp;
          glob_filter = req.get_string "glob_filter" "";
          context_lines = search.opt_int "context_lines" 0;
          max_results = search.opt_int "max_results" 100;
          max_depth = req.get_count "max_depth";
        }))
        base (record { matches = []; truncated = false; timed_out = false })
