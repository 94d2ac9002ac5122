-- ===== src/Filesystem/Patch/HunkHeader.antt =====
-- hunkHeaderRe of internal/filesystem/patch.go, `@@ -1,2 +3,4 @@`, and the numbers that it finds.
use Prim.Native.Char.{Char, code}
use agent_stop_and_go.Prelude.{
  ℕ, ◌+◌, ◌-◌, ◌*◌, String, Bool, ◌&&◌, ◌||◌, Option, none, some, leb, nat_eq, if◌then◌else◌,
  strip_prefix,
}

pub record Header : Type 0 where
  pub old_start : ℕ
  pub old_count : ℕ
  pub new_start : ℕ
  pub new_count : ℕ

-- `\d`
unfoldable pub is_digit : Char → Bool
is_digit c = leb b'0' (code c) && leb (code c) b'9'

-- `\s`
unfoldable pub is_space : Char → Bool
is_space c =
    nat_eq (code c) b' '
    || nat_eq (code c) b'\t'
    || nat_eq (code c) b'\n'
    || nat_eq (code c) 12
    || nat_eq (code c) b'\r'

-- The digits ahead, behind those that make up `n`, and what follows them.
unfoldable pub scan_digits : ℕ → String → ℕ × String
unfolding is_digit
scan_digits n String.[] = (n, String.[])
scan_digits n (String.◌∷◌ c s) =
    let more = scan_digits (10 * n + (code c - b'0')) s in
    if is_digit c then more else (n, String.◌∷◌ c s)

-- `(\d+)`
unfoldable pub number : String → Option (ℕ × String)
unfolding scan_digits
number String.[] = none
number (String.◌∷◌ c s) = if is_digit c then some (scan_digits 0 (String.◌∷◌ c s)) else none

-- `(?:,(\d+))?`, where a count that is left out is 1
unfoldable pub count : String → Option (ℕ × String)
unfolding number strip_prefix
count s = elim (strip_prefix "," s) [ none ↦ some (1, s) | some rest ↦ number rest ]

unfoldable pub skip_spaces : String → String
unfolding is_space
skip_spaces String.[] = String.[]
skip_spaces (String.◌∷◌ c s) =
    let rest = skip_spaces s in if is_space c then rest else String.◌∷◌ c s

-- `\s+`
unfoldable pub spaces : String → Option String
unfolding skip_spaces
spaces String.[] = none
spaces (String.◌∷◌ c s) = if is_space c then some (skip_spaces s) else none

-- strconv.Atoi on digits
abbrev pub atoi : ℕ → ℕ
atoi n = if leb 9223372036854775807 n then 9223372036854775807 else n

infixl 5 ◌>>=◌
abbrev ◌>>=◌ : {A B : Type 0} → Option A → (A → Option B) → Option B
none >>= f = none
some a >>= f = f a

-- A start and its count.
unfoldable pub range : String → String → Option ((ℕ × ℕ) × String)
unfolding count strip_prefix
range sign s = do
  unsigned ← strip_prefix sign s
  start ← number unsigned
  lines ← count start.1
  some ((atoi start.0, atoi lines.0), lines.1)

unfoldable pub parse_header : String → Option Header
unfolding range spaces strip_prefix
parse_header line = do
  opened ← strip_prefix "@@" line
  before ← spaces opened
  old ← range "-" before
  between ← spaces old.1
  new ← range "+" between
  behind ← spaces new.1
  closed ← strip_prefix "@@" behind
  some (record {
    old_start = old.0.0;
    old_count = old.0.1;
    new_start = new.0.0;
    new_count = new.0.1;
  })
