-- ===== src/Filesystem/Tools/Copies.antt =====
-- The calls of Copy and Move, and of the copying of files and folders.
use agent_stop_and_go.Prelude.{ℕ, zero, suc, refl, inl, String, Bool, true, List, [], ◌∷◌}
use agent_stop_and_go.Filesystem.Roots.{ResolvedRoot}
use agent_stop_and_go.Filesystem.Tools.{
  stat, read_dir, opens, make_all, remove_all, create, chmod, rename, FileInfo, Disk, Server,
  Request, Action, call, req_string, perform, allowed_root, validated,
}
use agent_stop_and_go.Filesystem.Tools.Copying.{
  copied, copy_file, copy_entries, copy_dir, copy_any, both_sides, copy, copy_and_remove, move,
}
use agent_stop_and_go.Filesystem.Tools.Guards.{
  answered-Guards, Guards, Any, Guards-pure, Guards-panics, Guards-bind, Guards-if, lift-Guards,
  req_string-Guards, call-Guards, perform-Guards, guards_rules, Guards-end, Guards-then,
}
use agent_stop_and_go.Filesystem.Tools.Touching.{
  Reached, entry, ListsNames, AreListed, May, IsSettled, allowed_root-Guards, validated-Guards,
}
use agent_stop_and_go.Filesystem.Tools.Changes.{make_parents-Guards}

module _ (disk : Disk) (server : Server) (req : Request) {tool : String} where
  pub copied-Guards : Guards (May disk server tool true) Any (copied disk)
  unfolding copied
  copied-Guards = record {
    calls = λ s. (lift-Guards (disk.copied s)).calls s;
    result = λ s a h. tt;
  }

  pub copy_file-Guards :
      (src dst : String)
      → Reached disk server tool src
      → Reached disk server tool dst
      → Guards (May disk server tool true) Any (copy_file disk server req src dst)
  unfolding copy_file
  copy_file-Guards src dst reached to =
      let created : May disk server tool true (create dst) = (refl, to) in
      let modes : May disk server tool true (chmod dst) = (refl, to) in
      Guards-then (call (opens src) disk.handle) _ (call-Guards (opens src) disk.handle reached)
        (λ _.
          Guards-then (call (create dst) disk.handle) _
            (call-Guards (create dst) disk.handle created)
            (λ _. Guards-then (copied disk) _ copied-Guards (λ n. search guards_rules)))

  pub copy_entries-Guards :
      (src_root : ResolvedRoot) (copy_folder : String → String → Action Bool) (src dst : String)
      (infos : List FileInfo)
      → ((from to : String)
          → Reached disk server tool from
          → Reached disk server tool to
          → Guards (May disk server tool true) Any (copy_folder from to))
      → AreListed infos
      → Reached disk server tool src
      → Reached disk server tool dst
      → Guards
          (May disk server tool true)
          Any
          (copy_entries disk server req src_root copy_folder src dst infos)
  unfolding copy_entries
  copy_entries-Guards src_root copy_folder src dst [] k tt reached to = Guards-end true
  copy_entries-Guards src_root copy_folder src dst (fi ∷ infos) k (named, listed) reached to =
      let others = copy_entries-Guards src_root copy_folder src dst infos k listed reached to in
      let from_entry : Reached disk server tool (disk.filepath.join src fi.name) =
        entry src fi.name named reached in
      let to_entry : Reached disk server tool (disk.filepath.join dst fi.name) =
        entry dst fi.name named to in
      Guards-if _ _ _ (λ _. others)
        (λ _.
          Guards-if fi.is_dir _ _
            (λ _. Guards-then (copy_folder _ _) _ (k _ _ from_entry to_entry) (λ _. others))
            (λ _.
              Guards-then (copy_file disk server req _ _) _
                (copy_file-Guards _ _ from_entry to_entry) (λ _. others)))

  pub copy_dir-Guards :
      (names : ListsNames disk) (src_root : ResolvedRoot) (depth : ℕ) (src dst : String)
      → Reached disk server tool src
      → Reached disk server tool dst
      → Guards (May disk server tool true) Any (copy_dir disk server req src_root depth src dst)
  unfolding copy_dir
  copy_dir-Guards names src_root zero src dst reached to = Guards-panics
  copy_dir-Guards names src_root (suc depth) src dst reached to =
      let made : May disk server tool true (make_all dst) = (refl, inl to) in
      Guards-then (call (stat src) disk.info) _ (call-Guards (stat src) disk.info reached) (λ _.
        Guards-then (perform disk server req (make_all dst)) _
          (perform-Guards disk server req (make_all dst) made)
          (λ _.
            Guards-bind (call (read_dir src) disk.entries) _
              (answered-Guards (read_dir src) disk.entries reached
                (λ s infos h. names s (read_dir src) infos h))
              (λ infos listed.
                copy_entries-Guards src_root (copy_dir disk server req src_root depth) src dst infos
                  (copy_dir-Guards names src_root depth) listed reached to)))

  pub copy_any-Guards :
      (names : ListsNames disk) (src_root : ResolvedRoot) (info : FileInfo) (src dst : String)
      → Reached disk server tool src
      → Reached disk server tool dst
      → Guards (May disk server tool true) Any (copy_any disk server req src_root info src dst)
  unfolding copy_any
  copy_any-Guards names src_root info src dst reached to =
      search (guards_rules, copy_dir-Guards names, copy_file-Guards)

  pub both_sides-Guards :
      IsSettled disk server
      → Guards
          (May disk server tool true)
          (λ (root, src, dst). Reached disk server tool src × Reached disk server tool dst)
          (both_sides disk server req tool)
  unfolding both_sides
  both_sides-Guards settled =
      Guards-bind (allowed_root disk server req "source_root" tool) _
        (allowed_root-Guards disk server req tool "source_root")
        (λ src_root from.
          Guards-bind (allowed_root disk server req "dest_root" tool) _
            (allowed_root-Guards disk server req tool "dest_root")
            (λ dest_root to.
              Guards-then (req_string req "source_path") _ (req_string-Guards req "source_path")
                (λ src_path.
                  Guards-bind (validated disk server req src_root src_path) _
                    (validated-Guards disk server req tool settled src_root src_path from)
                    (λ src reached.
                      Guards-then (req_string req "dest_path") _ (req_string-Guards req "dest_path")
                        (λ dest_path.
                          Guards-bind (validated disk server req dest_root dest_path) _
                            (validated-Guards disk server req tool settled dest_root dest_path to)
                            (λ dest made. Guards-pure (src_root, src, dest) (reached, made)))))))

module _ (disk : Disk) (server : Server) (req : Request) (settled : IsSettled disk server) where
  pub copy-Guards : Guards (May disk server "copy" true) Any (copy disk server req)
  unfolding copy
  copy-Guards =
      Guards-bind (both_sides disk server req "copy") _ (both_sides-Guards disk server req settled)
        (λ (root, src, dest) (reached, to).
          search
            (
              guards_rules,
              make_parents-Guards disk server req,
              copy_any-Guards disk server req settled.names,
            )
            depth 12)

  pub copy_and_remove-Guards :
      (src_root : ResolvedRoot) (src dest : String)
      → Reached disk server "move" src
      → Reached disk server "move" dest
      → Guards (May disk server "move" true) Any (copy_and_remove disk server req src_root src dest)
  unfolding copy_and_remove
  copy_and_remove-Guards src_root src dest reached to =
      let removed : May disk server "move" true (remove_all src) = (refl, reached) in
      search (guards_rules, copy_any-Guards disk server req settled.names) depth 12

  pub move-Guards : Guards (May disk server "move" true) Any (move disk server req)
  unfolding move
  move-Guards =
      Guards-bind (both_sides disk server req "move") _ (both_sides-Guards disk server req settled)
        (λ (root, src, dest) (reached, to).
          let renamed : May disk server "move" true (rename src dest) = (refl, reached, to) in
          search (guards_rules, make_parents-Guards disk server req, copy_and_remove-Guards) depth
            12)
