-- ===== src/Filesystem/Roots/Allowlist.antt =====
-- What the resolved roots allow: the tools that the configuration names.
use agent_stop_and_go.Prelude.{
  ◌≡◌, refl, sym, ap, ◌∙◌, inl, inr, String, Bool, true, false, ◌&&◌, ◌||◌, Bool-cases, List, [],
  ◌∷◌, ◌==◌, if◌then◌else◌, Assoc, insert, lookup-insert, subst, arith, eq_iff,
}
use agent_stop_and_go.Mcp.{Error}
use agent_stop_and_go.Filesystem.{Checked, ok, err}
use agent_stop_and_go.Filesystem.Roots.{
  valid_tool_names, contains, allow_all, or_false, is_valid_tool, is_allowed, allow,
}

-- What an entry of the configuration grants: a tool that the server has, and that is listed or
-- covered by the star.
abbrev pub grants : List String → String → Bool
grants listed tool = is_valid_tool tool && (contains tool listed || contains "*" listed)

is_allowed-insert :
    (name wanted : String) (allowed : Assoc Bool)
    → is_allowed (insert name true allowed) wanted
      ≡ (if name == wanted then true else is_allowed allowed wanted)
unfolding is_allowed
is_allowed-insert name wanted allowed =
    ap or_false (lookup-insert name wanted true allowed) ∙ ground arith

is_allowed-allow_all :
    (names : List String) (allowed : Assoc Bool) (wanted : String)
    → is_allowed (allow_all names allowed) wanted
      ≡ (is_allowed allowed wanted || contains wanted names)
unfolding allow_all contains
is_allowed-allow_all [] allowed wanted = ground arith
is_allowed-allow_all (name ∷ names) allowed wanted = ground (
  arith,
  is_allowed-allow_all names (insert name true allowed) wanted,
  is_allowed-insert name wanted allowed,
)

allowed_of : Checked (Assoc Bool) → Assoc Bool
allowed_of (ok a) = a
allowed_of (err e) = []

nothing_more : (a v : Bool) → a ≡ (a || (v && (false || false)))
nothing_more a v = ground arith

star_grants : (a v c : Bool) → (a || v) ≡ (a || (v && (c || true)))
star_grants a v c = ground arith

valid_if_same :
    (t tool : String)
    → is_valid_tool t ≡ true
    → (if t == tool then is_valid_tool tool else true) ≡ true
valid_if_same t tool f = elim (Bool-cases (t == tool)) [
  | inr e ↦ rw e refl
  | inl e ↦
      let same : t ≡ tool = ground (arith, eq_iff t tool) in
      rw e (subst (λ name. is_valid_tool name ≡ true) same f)
]

one_more :
    (same a v c s : Bool)
    → (if same then v else true) ≡ true
    → ((if same then true else a) || (v && (c || s)))
      ≡ (a || (v && ((if same then true else c) || s)))
one_more same a v c s h = ground arith

-- The set that is built of a root allows what it allowed before, and what is granted.
pub allow-grants :
    (unknown : String → Error) (listed : List String) (start allowed : Assoc Bool) (tool : String)
    → allow unknown listed start ≡ ok allowed
    → is_allowed allowed tool ≡ (is_allowed start tool || grants listed tool)
unfolding allow allowed_of contains is_valid_tool
allow-grants unknown [] start allowed tool h =
    ap (λ a. is_allowed a tool) (sym (ap allowed_of h))
    ∙ nothing_more (is_allowed start tool) (is_valid_tool tool)
allow-grants unknown (t ∷ listed) start allowed tool h = elim (Bool-cases (t == "*")) [
  | inl e ↦
      ap (λ a. is_allowed a tool) (sym (ap allowed_of (rw e at h)))
      ∙ is_allowed-allow_all valid_tool_names start tool
      ∙ rw e (star_grants (is_allowed start tool) (is_valid_tool tool) (contains tool (t ∷ listed)))
  | inr e ↦ elim (Bool-cases (is_valid_tool t)) [
    | inr f ↦ cc (rw (e, f) at h)
    | inl f ↦
        let i = allow-grants unknown listed (insert t true start) allowed tool (rw (e, f) at h) in
        i
        ∙ ap (λ b. b || grants listed tool) (is_allowed-insert t tool start)
        ∙ rw e (
            one_more (t == tool) (is_allowed start tool) (is_valid_tool tool) (contains tool listed)
              (contains "*" listed) (valid_if_same t tool f))
  ]
]
