-- ===== src/Filesystem/Patch.antt =====
-- internal/filesystem/patch.go: unified diffs. A file and a patch are texts; the loops run over their
-- lines. A number of the header stops at the largest int, as strconv.Atoi does, and the offset of
-- later hunks is kept as what was added and what was removed, so that it needs no sign.
pub mod HunkHeader
pub mod Checking
pub mod Replacing
pub mod Edits
pub mod Lines
pub mod Reading
use Prim.Native.Char.{Char, code}
use agent_stop_and_go.Prelude.{
  ℕ, zero, suc, ◌+◌, ◌-◌, String, Bool, true, false, ◌||◌, Option, none, some, List, [], ◌∷◌, ◌++◌,
  leb, ltb, nat_eq, ◌==◌, if◌then◌else◌, length, get_elem?, take, drop, concat, join, has_prefix,
}
use agent_stop_and_go.Filesystem.Patch.HunkHeader.{Header, parse_header}

pub data Op : Type 0 where
  context add delete : Op

pub record DiffLine : Type 0 where
  pub op : Op
  pub text : String

pub record Hunk : Type 0 where
  pub header : Header
  pub lines : List DiffLine

abbrev pub put_front : Char → List String → List String
put_front c [] = String.◌∷◌ c String.[] ∷ []
put_front c (l ∷ ls) = String.◌∷◌ c l ∷ ls

-- strings.Split at newlines
unfoldable pub split_lines : String → List String
split_lines String.[] = "" ∷ []
split_lines (String.◌∷◌ c s) =
    let rest = split_lines s in if nat_eq (code c) b'\n' then "" ∷ rest else put_front c rest

-- The switch on a line's first byte: the lines that it adds to the hunk.
unfoldable pub diff_line : String → List DiffLine
diff_line String.[] = record { op = context; text = "" } ∷ []
diff_line (String.◌∷◌ c s) =
    if nat_eq (code c) b' '
    then record { op = context; text = s } ∷ []
    else if nat_eq (code c) b'+'
    then record { op = add; text = s } ∷ []
    else if nat_eq (code c) b'-'
    then record { op = delete; text = s } ∷ []
    else if nat_eq (code c) b'\\'
    then []
    else record { op = context; text = String.◌∷◌ c s } ∷ []

-- `hunks` and `current`
pub record Parser : Type 0 where
  pub hunks : List Hunk
  pub current : Option Hunk

abbrev pub close : Parser → List Hunk
close p = elim p.current [ none ↦ p.hunks | some h ↦ p.hunks ++ h ∷ [] ]

abbrev pub is_file_header : String → Bool
is_file_header line = has_prefix line "---" || has_prefix line "+++"

-- The body of the loop of ParsePatch.
unfoldable pub parse_line : Parser → String → Parser
unfolding diff_line
parse_line p line = if is_file_header line then p else elim (parse_header line) [
  | some h ↦ record { hunks = close p; current = some (record { header = h; lines = [] }) }
  | none ↦ record p {
    current = elim p.current [
      | none ↦ none
      | some h ↦ some (record h { lines = h.lines ++ diff_line line })
    ];
  }
]

unfoldable pub parse_lines : Parser → List String → Parser
unfolding parse_line
parse_lines p [] = p
parse_lines p (line ∷ rest) = parse_lines (parse_line p line) rest

abbrev pub start_parser : Parser
start_parser = record { hunks = []; current = none }

abbrev pub all_found : List Hunk → Option (List Hunk)
all_found [] = none
all_found (h ∷ hs) = some (h ∷ hs)

-- ParsePatch; `none` is the error "no hunks found in patch".
unfoldable pub parse_patch : String → Option (List Hunk)
unfolding split_lines parse_lines
parse_patch patch = all_found (close (parse_lines start_parser (split_lines patch)))

-- How an application ends: with the new lines, with the error of a hunk at a line (both counted from
-- 1) that has another text or is not there, or with a slice out of range.
pub data Patched : Type 0 where
  done : List String → Patched
  mismatch : (hunk line : ℕ) → (expected : String) → (actual : Option String) → Patched
  panics : Patched

-- Where the line after a hunk's line is compared.
unfoldable pub next_index : Op → ℕ → ℕ
next_index context i = suc i
next_index delete i = suc i
next_index add i = i

abbrev pub has_line : Option String → String → Bool
has_line none text = false
has_line (some t) text = t == text

unfoldable pub agrees : List String → ℕ → Op → String → Bool
agrees orig i add text = true
agrees orig i context text = has_line (get_elem? orig i) text
agrees orig i delete text = has_line (get_elem? orig i) text

pub data Check : Type 0 where
  verified : ℕ → Check
  differs : ℕ → String → Option String → Check

-- The loop that compares the context and the deletions, from checkIdx on.
unfoldable pub check_lines : List String → ℕ → List DiffLine → Check
unfolding next_index agrees
check_lines orig i [] = verified i
check_lines orig i (d ∷ ds) =
    let rest = check_lines orig (next_index d.op i) ds in
    if agrees orig i d.op d.text then rest else differs i d.text (get_elem? orig i)

abbrev pub line_at : List String → ℕ → String
line_at orig i = elim (get_elem? orig i) [ none ↦ "" | some t ↦ t ]

abbrev pub emit : List String → ℕ → Op → String → List String → List String
emit orig i context text rest = line_at orig i ∷ rest
emit orig i delete text rest = rest
emit orig i add text rest = text ∷ rest

-- The loop that builds newLines, from applyIdx on.
unfoldable pub new_lines : List String → ℕ → List DiffLine → List String
unfolding next_index
new_lines orig i [] = []
new_lines orig i (d ∷ ds) = emit orig i d.op d.text (new_lines orig (next_index d.op i) ds)

-- What one hunk makes of the lines, with the length of its new and of its old part.
pub data Step : Type 0 where
  replaced : (lines : List String) → (new old : ℕ) → Step
  failed : ℕ → String → Option String → Step
  out_of_range : Step

abbrev pub replace : List String → ℕ → ℕ → List String → Step
replace orig start stop new =
    if leb stop (length orig)
    then replaced (take start orig ++ (new ++ drop stop orig)) (length new) (stop - start)
    else out_of_range

unfoldable pub apply_hunk : List String → ℕ → List DiffLine → Step
unfolding check_lines new_lines
apply_hunk orig start lines = elim (check_lines orig start lines) [
  | differs i text actual ↦ failed i text actual
  | verified stop ↦ replace orig start stop (new_lines orig start lines)
]

abbrev pub int_limit : ℕ
int_limit = 9223372036854775808

-- startIdx: `none` where it is negative, an overflow included.
unfoldable pub start_index : ℕ → ℕ → ℕ → Option ℕ
start_index old_start added removed =
    let from = (if nat_eq old_start 0 then 0 else old_start - 1) + added in
    if ltb from removed
    then none
    else if leb int_limit (from - removed)
    then none
    else some (from - removed)

-- The loop of ApplyPatch, from hunk i on.
unfoldable pub apply_hunks : ℕ → ℕ → ℕ → List String → List Hunk → Patched
unfolding apply_hunk start_index
apply_hunks i added removed orig [] = done orig
apply_hunks i added removed orig (h ∷ hs) = elim (start_index h.header.old_start added removed) [
  | none ↦ panics
  | some start ↦ elim (apply_hunk orig start h.lines) [
    | failed at text actual ↦ mismatch (i + 1) (at + 1) text actual
    | out_of_range ↦ panics
    | replaced lines new old ↦ apply_hunks (suc i) (added + new) (removed + old) lines hs
  ]
]

-- The lines of a text, without the empty piece behind its last newline.
unfoldable pub without_last_empty : List String → List String
without_last_empty [] = []
without_last_empty (l ∷ []) = if l == "" then [] else l ∷ []
without_last_empty (l ∷ k ∷ ls) = l ∷ without_last_empty (k ∷ ls)

unfoldable pub original_lines : String → List String
unfolding split_lines without_last_empty
original_lines original = if original == "" then [] else without_last_empty (split_lines original)

-- ApplyPatch, up to the join of the lines
unfoldable pub apply_patch : String → List Hunk → Patched
unfolding original_lines apply_hunks
apply_patch original hunks = apply_hunks 0 0 0 (original_lines original) hunks

unfoldable pub joined : List String → String
joined [] = ""
joined (l ∷ ls) = concat (join "\n" (l ∷ ls) ∷ "\n" ∷ [])
