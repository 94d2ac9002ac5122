-- ===== src/Filesystem/Tools/Changes.antt =====
-- The calls of the tools that change one file or folder.
use agent_stop_and_go.Prelude.{refl, inl, inr, String, true, Option, none, some, List}
use agent_stop_and_go.Agent.Exec.{pure, try}
use agent_stop_and_go.Filesystem.Tools.{
  read_file, make_all, remove, remove_all, open_file, write_file, Flag, Disk, Server, Request, call,
  req_string,
}
use agent_stop_and_go.Filesystem.Patch.{Hunk, Patched, done, mismatch, parse_patch, apply_patch}
use agent_stop_and_go.Filesystem.Tools.Folders.{create_folder, remove_folder}
use agent_stop_and_go.Filesystem.Tools.Files.{
  make_parents, refuse_existing, write_with, write_in_mode, write_to_file, parsed_hunks,
  remove_a_file, patched_text, patch_file,
}
use agent_stop_and_go.Filesystem.Tools.Guards.{
  Guards, Any, Guards-throw, Guards-panics, req_string-Guards, guards_rules, Guards-end,
  Guards-then,
}
use agent_stop_and_go.Filesystem.Tools.Touching.{Reached, May, IsSettled, Guards-resolved}

module _ (disk : Disk) (server : Server) (req : Request) {tool : String} where
  pub make_parents-Guards :
      (path : String)
      → Reached disk server tool path
      → Guards (May disk server tool true) Any (make_parents disk server req path)
  unfolding make_parents
  make_parents-Guards path reached =
      let above : May disk server tool true (make_all (disk.filepath.dir path)) =
        (refl, inr (path, reached, refl)) in
      search guards_rules

  pub refuse_existing-Guards :
      (mode path : String)
      → Reached disk server tool path
      → Guards (May disk server tool true) Any (refuse_existing disk server req mode path)
  unfolding refuse_existing
  refuse_existing-Guards mode path reached = search guards_rules depth 8

  pub write_with-Guards :
      (path content mode : String) (flag : Flag)
      → Reached disk server tool path
      → Guards (May disk server tool true) Any (write_with disk server req path content mode flag)
  unfolding write_with
  write_with-Guards path content mode flag reached =
      let opened : May disk server tool true (open_file path flag) = (refl, reached) in
      search (guards_rules, make_parents-Guards, refuse_existing-Guards) depth 12

  pub write_in_mode-Guards :
      (path content mode : String) (o : Option Flag)
      → Reached disk server tool path
      → Guards (May disk server tool true) Any (write_in_mode disk server req path content mode o)
  unfolding write_in_mode
  write_in_mode-Guards path content mode none reached = Guards-throw _
  write_in_mode-Guards path content mode (some flag) reached =
      write_with-Guards path content mode flag reached

  pub parsed_hunks-Guards :
      (o : Option (List Hunk))
      → Guards (May disk server tool true) Any (parsed_hunks disk server req o)
  unfolding parsed_hunks
  parsed_hunks-Guards none = Guards-throw _
  parsed_hunks-Guards (some hunks) = Guards-end hunks

  pub patched_text-Guards :
      (p : Patched) → Guards (May disk server tool true) Any (patched_text disk server req p)
  unfolding patched_text
  patched_text-Guards (done lines) = Guards-end _
  patched_text-Guards (mismatch hunk line expected actual) = Guards-throw _
  patched_text-Guards Patched.panics = Guards-panics

module _ (disk : Disk) (server : Server) (req : Request) (settled : IsSettled disk server) where
  pub write_to_file-Guards :
      Guards (May disk server "write_file" true) Any (write_to_file disk server req)
  unfolding write_to_file
  write_to_file-Guards =
      search (guards_rules, Guards-resolved, settled, write_in_mode-Guards) depth 12

  pub patch_file-Guards :
      Guards (May disk server "patch_file" true) Any (patch_file disk server req)
  unfolding patch_file
  patch_file-Guards =
      Guards-resolved disk server req "patch_file" _ settled (λ root path allows reached.
        Guards-then (req_string req "patch") _ (req_string-Guards req "patch") (λ patch.
          Guards-then (parsed_hunks disk server req (parse_patch patch)) _
            (parsed_hunks-Guards disk server req (parse_patch patch))
            (λ hunks.
              Guards-then (try (call (read_file path) disk.text) pure (λ _. pure "")) _
                (search guards_rules)
                (λ original.
                  Guards-then (patched_text disk server req (apply_patch original hunks)) _
                    (patched_text-Guards disk server req (apply_patch original hunks))
                    (λ patched.
                      let written : May disk server "patch_file" true (write_file path patched) =
                        (refl, reached) in
                      search (guards_rules, make_parents-Guards disk server req) depth 8)))))

  pub remove_a_file-Guards :
      Guards (May disk server "remove_file" true) Any (remove_a_file disk server req)
  unfolding remove_a_file
  remove_a_file-Guards =
      Guards-resolved disk server req "remove_file" _ settled (λ root path allows reached.
        let removed : May disk server "remove_file" true (remove path) = (refl, reached) in
        search guards_rules depth 12)

  pub create_folder-Guards :
      Guards (May disk server "create_folder" true) Any (create_folder disk server req)
  unfolding create_folder
  create_folder-Guards =
      Guards-resolved disk server req "create_folder" _ settled (λ root path allows reached.
        let made : May disk server "create_folder" true (make_all path) = (refl, inl reached) in
        search guards_rules depth 12)

  pub remove_folder-Guards :
      Guards (May disk server "remove_folder" true) Any (remove_folder disk server req)
  unfolding remove_folder
  remove_folder-Guards =
      Guards-resolved disk server req "remove_folder" _ settled (λ root path allows reached.
        let removed : May disk server "remove_folder" true (remove_all path) = (refl, reached) in
        search guards_rules depth 12)
