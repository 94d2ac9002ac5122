-- ===== src/Tests/Tools.antt =====
-- The theorems on the handlers of the file tools, on a disk with one folder.
use agent_stop_and_go.Prelude.{
  ◌==◌, if◌then◌else◌, ◌≡◌, refl, String, Bool, true, false, none, some, List, [], ◌∷◌, ◌++◌,
  length, map, arith, ◌↔◌, ◌⊎◌, has_substring,
}
use agent_stop_and_go.Filesystem.{ok}
use agent_stop_and_go.Filesystem.Roots.{ResolvedRoot, valid_tool_names}
use agent_stop_and_go.Filesystem.Paths.Inside.{IsProper}
use agent_stop_and_go.Filesystem.Tools.{FileInfo, Handle, Disk, Request, Server}
use agent_stop_and_go.Filesystem.Tools.Reading.{ReadResult, select_lines}
use agent_stop_and_go.Filesystem.Tools.Searching.{Search}
use agent_stop_and_go.Filesystem.Tools.Grep
use agent_stop_and_go.Filesystem.Tools.Glob.{match_doublestar, segments_of}
use agent_stop_and_go.Filesystem.Tools.Glob.Patterns.{
  at_any_depth, TailMatches, doublestar_matches_tails,
}
use agent_stop_and_go.Filesystem.Tools.Paging.{pages_join}
use agent_stop_and_go.Tests.Files.{root, paths}

abbrev info : FileInfo
info = record {
  name = "new";
  is_dir = false;
  is_symlink = false;
  size = 3;
  mod_time = "";
  permissions = "0644";
  mode_string = "-rw-r--r--";
  owner = none;
}

abbrev handle : Handle
handle = record {
  header = [];
  seek = λ n. ok n;
  content = ok "a\nb";
  read_full = λ n m. ok ("a\nb", 3);
  sum = λ name. ok "hash";
  write = λ text. ok 3;
}

abbrev disk : Disk
disk = record {
  info = λ calls c. ok info;
  entries = λ calls c. ok (info ∷ []);
  handle = λ calls c. ok handle;
  text = λ calls c. ok "a\nb\n";
  does = λ calls c. none;
  copied = λ calls. ok 3;
  depth = 2;
  filepath = paths;
  show = λ n. "n";
  format_size = λ n. "n";
}

-- Every tool is allowed.
abbrev open_root : ResolvedRoot
open_root = record root { allowed_tools = map (λ name. (name, true)) valid_tool_names }

abbrev server : Server
server = record { roots = ("work", open_root) ∷ []; max_full_read_size = 100 }

abbrev request : Request
request = record {
  get_string = λ key def. if key == "path" then "new" else "work";
  get_count = λ key. none;
}

abbrev proper : IsProper "/w"
proper = record { not_empty = refl; not_slash = refl }

abbrev search_for : Search
search_for = record {
  opt_int = λ key def. def;
  opt_bool = λ key def. def;
  expired = λ calls. false;
  compile = λ pattern. ok (λ line. line == pattern);
  matches = λ pattern name. pattern == name;
  rel = λ base path. path;
  base = λ path. path;
}

abbrev lines : List String
lines = "a" ∷ "b" ∷ "c" ∷ "d" ∷ []

pages_join_example :
    (first second : List String) × (more : Bool) × (select_lines lines (some 2) (some 1)
      ≡ some (first, true))
    × (length first ≡ 1)
    × (select_lines lines (some 3) (some 1) ≡ some (second, more))
    × (select_lines lines (some 2) (some 2) ≡ some (first ++ second, more))
pages_join_example = pages_join lines 1 1 1 (omega arith) (omega arith)

abbrev empty : ReadResult
empty = record { size = 3; binary = false; lines_total = none; content = ""; truncated = false }

abbrev query : Grep.Query
query = record {
  regexp = λ line. line == "b";
  glob_filter = "";
  context_lines = 1;
  max_results = 2;
  max_depth = none;
}

doublestar_matches_tails_example :
    (match_doublestar search_for (at_any_depth "b.go") "a/b.go" ≡ true) ↔ (
      TailMatches search_for "b.go" ("a" ∷ "b.go" ∷ [])
      ⊎ (search_for.matches "b.go" "a/b.go" ≡ true))
unfolding segments_of has_substring
doublestar_matches_tails_example = doublestar_matches_tails search_for "b.go" "a/b.go" refl
