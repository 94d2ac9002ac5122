-- ===== src/Filesystem/Tools/Glob/Patterns.antt =====
-- What a pattern that begins with ** matches.
use agent_stop_and_go.Prelude.{
  ℕ, zero, suc, ◌<◌, ◌≡◌, ◌⊎◌, inl, inr, ◌↔◌, refl, sym, ap, ◌∙◌, String, true, false, ◌||◌, List,
  [], ◌∷◌, join, length, drop, trim_last_slash, trim_prefix, has_prefix, has_substring, split_from,
  arith, Bool-cases,
}
use agent_stop_and_go.Filesystem.Tools.Searching.{Search}
use agent_stop_and_go.Filesystem.Tools.Glob.{
  segments_of, stars_of, any_tail, match_around, match_parts, match_doublestar,
}

-- Some last segments of a path match.
abbrev pub TailMatches : Search → String → List String → Type 0
TailMatches search suffix segments =
    (i : ℕ) × (i < length segments) × (search.matches suffix (join "/" (drop i segments)) ≡ true)

tail_found :
    (search : Search) (suffix : String) (segments : List String)
    → any_tail search suffix segments ≡ true
    → TailMatches search suffix segments
unfolding any_tail
tail_found search suffix [] h = cc
tail_found search suffix (s ∷ rest) h =
    elim (Bool-cases (search.matches suffix (join "/" (s ∷ rest)))) [
      | inl e ↦ (0, omega arith, e)
      | inr e ↦
          let (i, l, k) = tail_found search suffix rest (ground arith) in (suc i, omega arith, k)
    ]

found_tail :
    (search : Search) (suffix : String) (segments : List String) (i : ℕ)
    → i < length segments
    → search.matches suffix (join "/" (drop i segments)) ≡ true
    → any_tail search suffix segments ≡ true
unfolding any_tail
found_tail search suffix [] i l h = absurd (omega arith)
found_tail search suffix (s ∷ rest) zero l h = ground arith
found_tail search suffix (s ∷ rest) (suc i) l h =
    ground (arith, found_tail search suffix rest i (omega arith) h)

-- A text without the separator is one piece.
split-none :
    (skip : ℕ) (sep s : String) → has_substring sep s ≡ false → split_from skip 0 sep s ≡ (s, [])
unfolding split_from has_substring
split-none skip sep String.[] h = refl
split-none skip sep (String.◌∷◌ c s) h = elim (Bool-cases (has_prefix (String.◌∷◌ c s) sep)) [
  | inl e ↦ ground arith
  | inr e ↦
      let ih = split-none skip sep s (ground arith) in
      rw (split_from, e) (ap (λ (p : String × List String). (String.◌∷◌ c p.0, p.1)) ih)
]

-- **/suffix
abbrev pub at_any_depth : String → String
at_any_depth suffix = String.◌∷◌ "*" (String.◌∷◌ "*" (String.◌∷◌ "/" suffix))

stars_of_depth :
    (suffix : String)
    → has_substring "**" suffix ≡ false
    → stars_of (at_any_depth suffix) ≡ "" ∷ String.◌∷◌ "/" suffix ∷ []
unfolding stars_of split_from has_prefix
stars_of_depth suffix h =
    ap (λ (p : String × List String). "" ∷ String.◌∷◌ "/" p.0 ∷ p.1) (split-none 1 "**" suffix h)

around :
    (search : Search) (suffix path : String)
    → has_substring "**" suffix ≡ false
    → match_doublestar search (at_any_depth suffix) path
      ≡ (any_tail search suffix (segments_of path) || search.matches suffix (search.base path))
unfolding match_doublestar match_parts match_around trim_last_slash trim_prefix has_substring
    has_prefix
around search suffix path h =
    ap (λ l. match_parts search l (at_any_depth suffix) path) (stars_of_depth suffix h)

-- A pattern **/suffix, whose suffix has no further **, matches a path exactly where the suffix
-- matches some last segments of the path, or its base name.
pub doublestar_matches_tails :
    (search : Search) (suffix path : String)
    → has_substring "**" suffix ≡ false
    → (match_doublestar search (at_any_depth suffix) path ≡ true) ↔ (
        TailMatches search suffix (segments_of path)
        ⊎ (search.matches suffix (search.base path) ≡ true))
doublestar_matches_tails search suffix path h = (
  λ m. tail_or_base (sym (around search suffix path h) ∙ m),
  λ (t : TailMatches search suffix (segments_of path)
        ⊎ (search.matches suffix (search.base path) ≡ true)).
      around search suffix path h ∙ matched t,
)
  where
    tail_or_base :
        (any_tail search suffix (segments_of path) || search.matches suffix (search.base path))
          ≡ true
        → TailMatches search suffix (segments_of path)
          ⊎ (search.matches suffix (search.base path) ≡ true)
    tail_or_base m = elim (Bool-cases (any_tail search suffix (segments_of path))) [
      | inl e ↦ inl (tail_found search suffix (segments_of path) e)
      | inr e ↦ inr (ground arith)
    ]

    matched :
        TailMatches search suffix (segments_of path)
          ⊎ (search.matches suffix (search.base path) ≡ true)
        → (any_tail search suffix (segments_of path) || search.matches suffix (search.base path))
          ≡ true
    matched (inl (i, l, e)) =
        let found = found_tail search suffix (segments_of path) i l e in ground arith
    matched (inr e) = ground arith
