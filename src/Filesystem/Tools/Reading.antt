-- ===== src/Filesystem/Tools/Reading.antt =====
-- ReadFile of internal/filesystem/tools.go.
use agent_stop_and_go.Prelude.{
  ℕ, ◌+◌, ◌-◌, String, Bool, false, not, ◌||◌, ◌&&◌, Option, none, some, is_some, List, [], ◌∷◌,
  if◌then◌else◌, ltb, leb, nat_eq, length, take, drop, join,
}
use agent_stop_and_go.Mcp.{errorf}
use agent_stop_and_go.Agent.Exec.{pure, panics, ◌>>=◌}
use agent_stop_and_go.Filesystem.Patch.{split_lines, without_last_empty, int_limit}
use agent_stop_and_go.Filesystem.Tools.{
  stat, opens, Handle, Disk, Request, Server, Action, lift, call, or_fail, because, fail_if,
  resolve_and_validate, path_arg,
}

pub record ReadResult : Type 0 where
  pub size : ℕ
  pub binary : Bool
  pub lines_total : Option ℕ
  pub content : String
  pub truncated : Bool

unfoldable pub has_zero : List ℕ → Bool
has_zero [] = false
has_zero (b ∷ bytes) = let more = has_zero bytes in nat_eq b 0 || more

abbrev pub or_else : Option ℕ → ℕ → ℕ
or_else none d = d
or_else (some n) d = n

-- The lines from `start` up to `stop`, and whether others follow; `none` where the end is beyond the
-- largest int, so that the slice is out of range.
unfoldable pub window : List String → ℕ → ℕ → Option (List String × Bool)
window lines start stop =
    if leb (length lines) start
    then some ([], false)
    else if leb int_limit stop
    then none
    else if ltb (length lines) stop
    then some (drop start lines, false)
    else some (take (stop - start) (drop start lines), ltb stop (length lines))

-- The lines of an offset, which counts from 1, and a limit.
unfoldable pub select_lines : List String → Option ℕ → Option ℕ → Option (List String × Bool)
unfolding window
select_lines lines offset limit =
    let start = or_else offset 1 - 1 in window lines start (start + or_else limit (length lines))

module _ (disk : Disk) (server : Server) (req : Request) where
  -- The bytes from an offset on: the buffer has `limit` bytes, or what the size leaves behind the
  -- offset, and making one with a negative length panics.
  unfoldable pub read_bytes : Handle → ReadResult → Option ℕ → Option ℕ → Action ReadResult
  unfolding or_fail lift pure panics ◌>>=◌
  read_bytes file result offset limit =
      let from = or_else offset 0 in
      let wanted = or_else limit (result.size - from) in
      or_fail (because "seek") (lift (file.seek from)) >>= λ _.
      if (not (is_some limit) && ltb result.size from)
      then panics
      else (or_fail (because "read") (lift (file.read_full from wanted)) >>= λ (text, n).
          pure (record result { content = text; truncated = ltb n wanted }))

  unfoldable pub answer_lines : ReadResult → ℕ → Option (List String × Bool) → Action ReadResult
  unfolding pure panics
  answer_lines result total none = panics
  answer_lines result total (some (selected, more)) =
      pure
        (record result { lines_total = some total; content = join "\n" selected; truncated = more })

  unfoldable pub read_lines : Handle → ReadResult → Option ℕ → Option ℕ → Action ReadResult
  unfolding or_fail lift select_lines answer_lines ◌>>=◌
  read_lines file result offset limit = do
    content ← or_fail (because "read") (lift file.content)
    let lines = without_last_empty (split_lines content)
    answer_lines result (length lines) (select_lines lines offset limit)

  unfoldable pub read_all : Handle → ReadResult → Action ReadResult
  unfolding or_fail lift pure ◌>>=◌
  read_all file result = do
    content ← or_fail (because "read") (lift file.content)
    pure (record result { content = content })

  abbrev by_bytes : Bool
  by_bytes = is_some (req.get_count "offset_bytes") || is_some (req.get_count "limit_bytes")

  abbrev by_lines : Bool
  by_lines = is_some (req.get_count "offset_lines") || is_some (req.get_count "limit_lines")

  -- The switch on the kind of the range.
  unfoldable pub read_range : Handle → ReadResult → Action ReadResult
  unfolding read_bytes read_lines read_all
  read_range file result =
      if by_bytes
      then read_bytes file result (req.get_count "offset_bytes") (req.get_count "limit_bytes")
      else if by_lines
      then read_lines file result (req.get_count "offset_lines") (req.get_count "limit_lines")
      else read_all file result

  unfoldable pub read_file_range : Action ReadResult
  unfolding resolve_and_validate fail_if or_fail call lift has_zero read_range ◌>>=◌
  read_file_range = do
    (root, resolved) ← resolve_and_validate disk server req "read_file"
    _ ←
        fail_if (by_bytes && by_lines)
          (errorf ("byte-based and line-based parameters are mutually exclusive" ∷ []))
    info ←
        or_fail (λ _. errorf ("file not found: " ∷ path_arg disk server req ∷ []))
          (call (stat resolved) disk.info)
    _ ←
        fail_if info.is_dir
          (errorf ("path is a directory, not a file: " ∷ path_arg disk server req ∷ []))
    _ ← fail_if (not (by_bytes || by_lines) && ltb server.max_full_read_size info.size) (
        errorf (
          "file too large for full read (size: "
          ∷ disk.format_size info.size
          ∷ ", limit: "
          ∷ disk.format_size server.max_full_read_size
          ∷ "); use offset/limit parameters"
          ∷ []))
    file ← or_fail (because "open file") (call (opens resolved) disk.handle)
    _ ← or_fail (because "seek file") (lift (file.seek 0))
    read_range file (record {
      size = info.size;
      binary = has_zero file.header;
      lines_total = none;
      content = "";
      truncated = false;
    })
