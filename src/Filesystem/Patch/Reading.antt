-- ===== src/Filesystem/Patch/Reading.antt =====
-- ParsePatch reads back the patches that are written in the format of unified diffs.
use Prim.Native.Char.{Char}
use agent_stop_and_go.Prelude.{
  strip_prefix, ◌≡◌, refl, sym, ap, ◌∙◌, String, false, some, List, [], ◌∷◌, ◌++◌, map, All,
  append-nil, append_assoc,
}
use agent_stop_and_go.Filesystem.Patch.Lines.{has_newline}
use agent_stop_and_go.Filesystem.Patch.HunkHeader.{parse_header}
use agent_stop_and_go.Filesystem.Patch.{
  Op, context, add, delete, DiffLine, Hunk, diff_line, is_file_header, parse_line, parse_lines,
}

abbrev pub sign : Op → Char
sign context = " "
sign add = "+"
sign delete = "-"

-- A line of a hunk as it is written, and a hunk below its line of ranges.
abbrev pub written_line : DiffLine → String
written_line d = String.◌∷◌ (sign d.op) d.text

pub record Written : Type 0 where
  pub ranges : String
  pub hunk : Hunk

abbrev pub written_lines : List Written → List String
written_lines [] = []
written_lines (w ∷ ws) = w.ranges ∷ map written_line w.hunk.lines ++ written_lines ws

-- A line that is written is one line, and not taken for the header of a file.
abbrev pub IsLine : String → Type 0
IsLine line = (has_newline line ≡ false) × (is_file_header line ≡ false)

abbrev pub IsWritten : Written → Type 0
IsWritten w =
    IsLine w.ranges
    × (parse_header w.ranges ≡ some w.hunk.header)
    × All (λ d. IsLine (written_line d)) w.hunk.lines

read_line :
    (hs : List Hunk) (h : Hunk) (op : Op) (t : String)
    → is_file_header (String.◌∷◌ (sign op) t) ≡ false
    → parse_line (record { hunks = hs; current = some h }) (String.◌∷◌ (sign op) t) ≡ record {
      hunks = hs;
      current = some (record h { lines = h.lines ++ record { op = op; text = t } ∷ [] });
    }
unfolding parse_line diff_line parse_header strip_prefix
read_line hs h context t e = rw e refl
read_line hs h add t e = rw e refl
read_line hs h delete t e = rw e refl

read_lines :
    (hs : List Hunk) (h : Hunk) (ls : List DiffLine)
    → All (λ d. IsLine (written_line d)) ls
    → parse_lines (record { hunks = hs; current = some h }) (map written_line ls)
      ≡ record { hunks = hs; current = some (record h { lines = h.lines ++ ls }) }
unfolding parse_lines
read_lines hs h [] k =
    ap (λ l. record { hunks = hs; current = some (record h { lines = l }) })
      (sym (append-nil h.lines))
read_lines hs h (d ∷ ls) ((one, other), k) =
    let longer : Hunk = record h { lines = h.lines ++ d ∷ [] } in
    ap (λ p. parse_lines p (map written_line ls)) (read_line hs h d.op d.text other)
    ∙ read_lines hs longer ls k
    ∙ ap (λ l. record { hunks = hs; current = some (record h { lines = l }) })
        (append_assoc h.lines (d ∷ []) ls)

abbrev pub hunks_read : List Written → List Hunk
hunks_read ws = map (λ w. w.hunk) ws
