-- ===== src/Session/Template.antt =====
-- resolveTemplate of internal/agent/orchestrator.go: the regular expression \{(\w+)\} is searched
-- from the left, and a match is replaced by the value of its key, or left as it is.
pub mod Placeholders
use Prim.Native.Char.{Char, code}
use agent_stop_and_go.Prelude.{
  String, Bool, true, false, ◌&&◌, ◌||◌, Option, none, some, List, [], ◌∷◌, ◌++◌, leb, nat_eq, ◌==◌,
  if◌then◌else◌,
}
use agent_stop_and_go.Session.{SessionState, get}

-- The characters of a text, and back.
abbrev pub chars : String → List Char
chars String.[] = []
chars (String.◌∷◌ c s) = c ∷ chars s

abbrev pub text : List Char → String
text [] = String.[]
text (c ∷ cs) = String.◌∷◌ c (text cs)

-- `\w`: [0-9A-Za-z_]
unfoldable pub is_word : Char → Bool
is_word c =
    (leb b'0' (code c) && leb (code c) b'9')
    || (leb b'A' (code c) && leb (code c) b'Z')
    || (leb b'a' (code c) && leb (code c) b'z')
    || nat_eq (code c) b'_'

abbrev pub is_open : Char → Bool
is_open c = nat_eq (code c) b'{'

abbrev pub is_close : Char → Bool
is_close c = nat_eq (code c) b'}'

abbrev pub is_empty : List Char → Bool
is_empty [] = true
is_empty (c ∷ cs) = false

-- What a match is replaced by: its value, or the match itself where the value is "".
unfoldable pub replacement : SessionState → List Char → List Char
unfolding get
replacement state key =
    let value = get state (text key) in if value == "" then "{" ∷ key ++ "}" ∷ [] else chars value

-- The search from the left. `some key` means that the last `{` is followed by the word characters
-- `key` so far; it begins a match exactly if key is not empty and `}` comes next.
unfoldable pub scan : SessionState → Option (List Char) → List Char → List Char
unfolding replacement is_word
scan state none [] = []
scan state (some key) [] = "{" ∷ key
scan state none (c ∷ cs) =
    let inside = scan state (some []) cs in
    let outside = scan state none cs in if is_open c then inside else c ∷ outside
scan state (some key) (c ∷ cs) =
    let longer = scan state (some (key ++ c ∷ [])) cs in
    let again = scan state (some []) cs in
    let outside = scan state none cs in
    if is_word c
    then longer
    else if is_open c
    then "{" ∷ key ++ again
    else if is_close c
    then (if is_empty key then "{" ∷ "}" ∷ outside else replacement state key ++ outside)
    else "{" ∷ key ++ c ∷ outside

unfoldable pub resolve_template : String → SessionState → String
unfolding scan
resolve_template tmpl state = text (scan state none (chars tmpl))
