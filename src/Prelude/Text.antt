-- ===== src/Prelude/Text.antt =====
-- What the program uses of the package strings.
use Prim.Native.Nat.{ℕ, zero, suc, compare, Ordering}
use Prim.Native.Char.{code}
use Prim.Native.String.{String, ◌++◌}
use mathlib.Core.Bool.{Bool, true, false}
use mathlib.Core.Option.{Option, none, some}
use mathlib.Core.List.{List}

-- Pieces of text one after the other: `+`, and `fmt.Sprintf` with its verbs filled in.
unfoldable pub concat : List String → String
concat List.[] = ""
concat (List.◌∷◌ s l) = s ++ concat l

-- strings.Join
unfoldable pub join : String → List String → String
join sep List.[] = ""
join sep (List.◌∷◌ s List.[]) = s
join sep (List.◌∷◌ s (List.◌∷◌ t rest)) = s ++ sep ++ join sep (List.◌∷◌ t rest)

-- The rest of a text behind a prefix, if it has that prefix.
unfoldable pub strip_prefix : String → String → Option String
strip_prefix String.[] s = some s
strip_prefix (String.◌∷◌ c p) String.[] = none
strip_prefix (String.◌∷◌ c p) (String.◌∷◌ d s) = elim (compare (code c) (code d)) [
  | Ordering.eq ↦ strip_prefix p s
  | _ ↦ none
]

-- strings.HasPrefix(s, prefix)
unfoldable pub has_prefix : String → String → Bool
unfolding strip_prefix
has_prefix s prefix = elim (strip_prefix prefix s) [ none ↦ false | some rest ↦ true ]

-- strings.TrimPrefix(s, prefix)
unfoldable pub trim_prefix : String → String → String
unfolding strip_prefix
trim_prefix s prefix = elim (strip_prefix prefix s) [ none ↦ s | some rest ↦ rest ]

-- strings.Cut(s, ":") at a separator of one character: what stands before the first one and behind
-- it.
unfoldable pub cut : String → String → Option (String × String)
cut sep String.[] = none
cut sep (String.◌∷◌ c s) = elim (strip_prefix sep (String.◌∷◌ c String.[])) [
  | some _ ↦ some ("", s)
  | none ↦ elim (cut sep s) [
    | none ↦ none
    | some (before, after) ↦ some (String.◌∷◌ c before, after)
  ]
]

-- strings.Contains, with what is sought first
unfoldable pub has_substring : String → String → Bool
unfolding has_prefix
has_substring sought String.[] = has_prefix "" sought
has_substring sought (String.◌∷◌ c s) =
    let later = has_substring sought s in
    elim (has_prefix (String.◌∷◌ c s) sought) [ true ↦ true | false ↦ later ]

-- strings.TrimSuffix(s, "/")
unfoldable pub trim_last_slash : String → String
trim_last_slash String.[] = ""
trim_last_slash (String.◌∷◌ c String.[]) = elim (compare (code c) b'/') [
  | Ordering.eq ↦ ""
  | _ ↦ String.◌∷◌ c String.[]
]
trim_last_slash (String.◌∷◌ c (String.◌∷◌ d s)) = String.◌∷◌ c (trim_last_slash (String.◌∷◌ d s))

abbrev new_piece : String × List String → String × List String
new_piece (piece, pieces) = ("", List.◌∷◌ piece pieces)

-- strings.Split at a separator of `suc skip` characters: the first piece, and the others. `left`
-- characters of a separator that was found are still to be passed over.
unfoldable pub split_from : (skip left : ℕ) → String → String → String × List String
unfolding has_prefix
split_from skip left sep String.[] = ("", List.[])
split_from skip (suc left) sep (String.◌∷◌ c s) = split_from skip left sep s
split_from skip zero sep (String.◌∷◌ c s) =
    let found = new_piece (split_from skip skip sep s) in
    let (piece, pieces) = split_from skip zero sep s in
    elim (has_prefix (String.◌∷◌ c s) sep) [ true ↦ found | false ↦ (String.◌∷◌ c piece, pieces) ]
