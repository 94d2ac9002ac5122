-- ===== src/Filesystem/Tools/Searches.antt =====
-- The calls of Grep and Glob, and of the walk through folders.
use agent_stop_and_go.Prelude.{ℕ, zero, suc, String, false, List, [], ◌∷◌}
use agent_stop_and_go.Agent.Exec.{◌>>=◌}
use agent_stop_and_go.Filesystem.Roots.{ResolvedRoot}
use agent_stop_and_go.Filesystem.Tools.{
  read_dir, lstat, FileInfo, Disk, Server, Request, Action, call, allowed_root, validated,
}
use agent_stop_and_go.Filesystem.Tools.Searching.{
  Search, Step, go, skip_dir, skip_all, go_on, walk_entries, read_entries, walk_from, walk_dir,
}
use agent_stop_and_go.Filesystem.Tools.Grep.{Grepped, grep_content, grep_file, grep_entry, grep}
use agent_stop_and_go.Filesystem.Tools.Grep
use agent_stop_and_go.Filesystem.Tools.Glob
use agent_stop_and_go.Filesystem.Tools.Glob.{
  Globbed, glob_match, glob_entry, matcher, globbed, glob,
}
use agent_stop_and_go.Filesystem.Tools.Guards.{
  Guards, Any, Guards-panics, Guards-if, Guards-bind, guards_rules, Guards-end, Guards-then,
  Guards-try, Guards-pure, answered-Guards, call-Guards, Guards-try_then,
}
use agent_stop_and_go.Filesystem.Tools.Touching.{
  AllowsTool, Reached, entry, ListsNames, AreListed, May, IsSettled, allowed_root-Guards,
  validated-Guards,
}

-- A walk calls only what its function calls and reads the folders that it finds.
module _ (disk : Disk) (server : Server) (names : ListsNames disk) {tool : String} {S : Type 0}
    (visit : String → FileInfo → S → Action (Step × S))
    (visits : (path : String) (fi : FileInfo) (s : S)
      → Reached disk server tool path
      → Guards (May disk server tool false) Any (visit path fi s)) where
  go_on-Guards :
      (step : Step) (more : Action (Step × S)) (s : S)
      → Guards (May disk server tool false) Any more
      → Guards (May disk server tool false) Any (go_on disk visit step more s)
  unfolding go_on
  go_on-Guards go more s k = k
  go_on-Guards skip_dir more s k = Guards-end (go, s)
  go_on-Guards skip_all more s k = Guards-end (skip_all, s)

  walk_entries-Guards :
      (walk : String → FileInfo → S → Action (Step × S)) (folder : String) (infos : List FileInfo)
      (s : S)
      → ((path : String) (fi : FileInfo) (t : S)
          → Reached disk server tool path
          → Guards (May disk server tool false) Any (walk path fi t))
      → AreListed infos
      → Reached disk server tool folder
      → Guards (May disk server tool false) Any (walk_entries disk visit walk folder infos s)
  unfolding walk_entries
  walk_entries-Guards walk folder [] s k tt reached = Guards-end (go, s)
  walk_entries-Guards walk folder (fi ∷ infos) s k (named, listed) reached =
      let path = disk.filepath.join folder fi.name in
      Guards-then (walk path fi s) _ (k path fi s (entry folder fi.name named reached))
        (λ (step, t).
          go_on-Guards step (walk_entries disk visit walk folder infos t) t
            (walk_entries-Guards walk folder infos t k listed reached))

  read_entries-Guards :
      (folder : String)
      → Reached disk server tool folder
      → Guards (May disk server tool false) AreListed (read_entries disk visit folder)
  unfolding read_entries
  read_entries-Guards folder reached =
      Guards-try (call (read_dir folder) disk.entries) _ _
        (answered-Guards (read_dir folder) disk.entries reached
          (λ s infos h. names s (read_dir folder) infos h))
        (λ infos listed. Guards-pure infos listed) (λ e. Guards-pure [] tt)

  walk_from-Guards :
      (depth : ℕ) (path : String) (fi : FileInfo) (s : S)
      → Reached disk server tool path
      → Guards (May disk server tool false) Any (walk_from disk visit depth path fi s)
  unfolding walk_from
  walk_from-Guards zero path fi s reached = Guards-panics
  walk_from-Guards (suc depth) path fi s reached =
      Guards-then (visit path fi s) _ (visits path fi s reached) (λ (step, t).
        go_on-Guards step _ t (
          Guards-if fi.is_dir _ _
            (λ _.
              Guards-bind (read_entries disk visit path) _ (read_entries-Guards path reached)
                (λ infos listed.
                  walk_entries-Guards (walk_from disk visit depth) path infos t
                    (walk_from-Guards depth) listed reached))
            (λ _. Guards-end (go, t))))

  walk_dir-Guards :
      (root : String) (s : S)
      → Reached disk server tool root
      → Guards (May disk server tool false) Any (walk_dir disk visit root s)
  unfolding walk_dir
  walk_dir-Guards root s reached =
      Guards-try_then (call (lstat root) disk.info) _ _ (call-Guards (lstat root) disk.info reached)
        (λ fi.
          Guards-then (walk_from disk visit disk.depth root fi s) _
            (walk_from-Guards disk.depth root fi s reached) (λ (step, t). Guards-end t))
        (λ e. Guards-end s)

module _ (disk : Disk) (server : Server) (search_for : Search) (root : ResolvedRoot)
    (base : String) where
  grep_file-Guards :
      (q : Grep.Query) (path : String) (fi : FileInfo) (s : Grepped)
      → Reached disk server "grep" path
      → Guards (May disk server "grep" false) Any (grep_file disk search_for root base q path fi s)
  unfolding grep_file grep_content
  grep_file-Guards q path fi s reached = search guards_rules depth 12

  grep_entry-Guards :
      (q : Grep.Query) (path : String) (fi : FileInfo) (s : Grepped)
      → Reached disk server "grep" path
      → Guards (May disk server "grep" false) Any (grep_entry disk search_for root base q path fi s)
  unfolding grep_entry
  grep_entry-Guards q path fi s reached = search (guards_rules, grep_file-Guards) depth 12

  glob_match-Guards :
      (q : Glob.Query) (path : String) (fi : FileInfo) (s : Globbed)
      → Reached disk server "glob" path
      → Guards (May disk server "glob" false) Any (glob_match disk search_for root base q path fi s)
  unfolding glob_match
  glob_match-Guards q path fi s reached = search guards_rules depth 12

  glob_entry-Guards :
      (q : Glob.Query) (path : String) (fi : FileInfo) (s : Globbed)
      → Reached disk server "glob" path
      → Guards (May disk server "glob" false) Any (glob_entry disk search_for root base q path fi s)
  unfolding glob_entry
  glob_entry-Guards q path fi s reached = search (guards_rules, glob_match-Guards) depth 16

module _ (disk : Disk) (server : Server) (search_for : Search) (req : Request)
    (settled : IsSettled disk server) where
  grep_walk-Guards :
      (root : ResolvedRoot) (base : String) (q : Grep.Query) (s : Grepped)
      → Reached disk server "grep" base
      → Guards
          (May disk server "grep" false)
          Any
          (walk_dir disk (grep_entry disk search_for root base q) base s)
  grep_walk-Guards root base q s reached =
      walk_dir-Guards disk server settled.names (grep_entry disk search_for root base q)
        (grep_entry-Guards disk server search_for root base q) base s reached

  glob_walk-Guards :
      (root : ResolvedRoot) (base : String) (q : Glob.Query) (s : Globbed)
      → Reached disk server "glob" base
      → Guards
          (May disk server "glob" false)
          Any
          (walk_dir disk (glob_entry disk search_for root base q) base s)
  glob_walk-Guards root base q s reached =
      walk_dir-Guards disk server settled.names (glob_entry disk search_for root base q)
        (glob_entry-Guards disk server search_for root base q) base s reached

  -- Both go on from a root that allows them, and a path that is validated.
  Guards-validated :
      {tool : String} {B : Type 0} {R : B → Type 0} (root : ResolvedRoot) (path : String)
      (f : String → Action B)
      → AllowsTool disk server tool root
      → ((base : String)
          → Reached disk server tool base
          → Guards (May disk server tool false) R (f base))
      → Guards (May disk server tool false) R (validated disk server req root path >>= f)
  Guards-validated {tool} root path f allows k =
      Guards-bind (validated disk server req root path) f
        (validated-Guards disk server req tool settled root path allows) k

  pub grep-Guards : Guards (May disk server "grep" false) Any (grep disk server search_for req)
  unfolding grep
  grep-Guards =
      Guards-bind (allowed_root disk server req "root" "grep") _
        (allowed_root-Guards disk server req "grep" "root")
        (λ root allows. search (guards_rules, Guards-validated, grep_walk-Guards) depth 12)

  matcher-Guards :
      (pattern regex : String)
      → Guards (May disk server "glob" false) Any (matcher disk server search_for req pattern regex)
  unfolding matcher
  matcher-Guards pattern regex = search guards_rules

  globbed-Guards :
      (s : Globbed)
      → Guards (May disk server "glob" false) Any (globbed disk server search_for req s)
  unfolding globbed
  globbed-Guards s = search guards_rules

  pub glob-Guards : Guards (May disk server "glob" false) Any (glob disk server search_for req)
  unfolding glob
  glob-Guards =
      Guards-bind (allowed_root disk server req "root" "glob") _
        (allowed_root-Guards disk server req "glob" "root")
        (λ root allows.
          search (guards_rules, Guards-validated, matcher-Guards, glob_walk-Guards, globbed-Guards)
            depth 12)
