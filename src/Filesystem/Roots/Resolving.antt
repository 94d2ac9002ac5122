-- ===== src/Filesystem/Roots/Resolving.antt =====
-- The roots that ResolveRoots makes are those of the configuration, each with what it grants.
use agent_stop_and_go.Prelude.{
  ℕ, zero, suc, ◌≡◌, refl, sym, ap, ◌∙◌, inl, inr, String, Bool, true, false, Bool-cases, Option,
  Option-cases, none, some, List, [], ◌∷◌, ◌==◌, if◌then◌else◌, Assoc, lookup, insert,
  lookup-insert, get_elem?, drop, subst, arith, eq_iff,
}
use mathlib.Core.Option.{some-injective}
use agent_stop_and_go.Prelude.Places.{drop-head, drop-tail}
use agent_stop_and_go.Mcp.{Error, errorf}
use agent_stop_and_go.Filesystem.{ok, ◌>>=◌, bind-ok, ok-injective}
use agent_stop_and_go.Filesystem.Roots.{
  Root, Config, ResolvedRoot, is_allowed, allow, System, unknown_tool, resolve_path, build_root,
  resolve_root, resolve_from, resolve_entries, resolve_roots, check_allowlist, get_root,
}
use agent_stop_and_go.Filesystem.Roots.Allowlist.{grants, allow-grants}

-- A resolved root as the entry of the configuration asks for it.
abbrev pub StandsFor : Root → ResolvedRoot → Type 0
StandsFor r root =
    (root.name ≡ r.name)
    × ((tool : String) → is_allowed root.allowed_tools tool ≡ grants r.allowed_tools tool)

-- A root is backed by an entry of the configuration.
abbrev pub Backed : List Root → String → ResolvedRoot → Type 0
Backed entries name root =
    (k : ℕ) × (r : Root) × (get_elem? entries k ≡ some r) × (r.name ≡ name) × StandsFor r root

differ_when_absent :
    (a b : String) (roots : Assoc ResolvedRoot) (root : ResolvedRoot)
    → lookup a roots ≡ none
    → lookup b roots ≡ some root
    → (a == b) ≡ false
differ_when_absent a b roots root h k = elim (Bool-cases (a == b)) [
  | inr e ↦ e
  | inl e ↦
      let same : a ≡ b = ground (arith, eq_iff a b) in
      cc (subst (λ x. lookup x roots ≡ none) same h)
]

text_refl : (s : String) → (s == s) ≡ true
text_refl s = ground (arith, eq_iff s s)

module _ (system : System) where
  build_root-StandsFor :
      (i : ℕ) (r : Root) (root : ResolvedRoot) → build_root system i r ≡ ok root → StandsFor r root
  unfolding build_root is_allowed
  build_root-StandsFor i r root h =
      let (path, found, g) =
        bind-ok (resolve_path system i r)
          (λ p. allow (unknown_tool system i r) r.allowed_tools [] >>= λ a. ok (made p a)) root h in
      let (tools, set, made_it) =
        bind-ok (allow (unknown_tool system i r) r.allowed_tools []) (λ a. ok (made path a)) root
          g in
      let same : made path tools ≡ root = ok-injective (made path tools) root made_it in
      subst (StandsFor r) same
        (refl, λ tool. allow-grants (unknown_tool system i r) r.allowed_tools [] tools tool set)
    where
      made : String → Assoc Bool → ResolvedRoot
      made p a = record { name = r.name; real_path = p; allowed_tools = a }

  resolve_root-StandsFor :
      (i : ℕ) (r : Root) (roots : Assoc ResolvedRoot) (root : ResolvedRoot)
      → resolve_root system i r roots ≡ ok root
      → (lookup r.name roots ≡ none) × StandsFor r root
  unfolding resolve_root
  resolve_root-StandsFor i r roots root h = elim (Bool-cases (r.name == "")) [
    | inl e ↦ cc (rw e at h)
    | inr e ↦ elim (Option-cases (lookup r.name roots)) [
      | inr (old, f) ↦ cc (rw (e, f) at h)
      | inl f ↦ elim (Bool-cases (r.path == "")) [
        | inl g ↦ cc (rw (e, f, g) at h)
        | inr g ↦ (f, build_root-StandsFor i r root (rw (e, f, g) at h))
      ]
    ]
  ]

  entry_resolved :
      (i : ℕ) (r : Root) (rest : List Root) (acc roots : Assoc ResolvedRoot)
      → resolve_from system i (r ∷ rest) acc ≡ ok roots
      → (root : ResolvedRoot) × (lookup r.name acc ≡ none)
        × StandsFor r root
        × (resolve_from system (suc i) rest (insert r.name root acc) ≡ ok roots)
  unfolding resolve_from
  entry_resolved i r rest acc roots h =
      let (root, found, g) =
        bind-ok (resolve_root system i r acc)
          (λ root. resolve_from system (suc i) rest (insert r.name root acc)) roots h in
      let (new, stands) = resolve_root-StandsFor i r acc root found in (root, new, stands, g)

  inserted :
      (i : ℕ) (r : Root) (all : List Root) (acc : Assoc ResolvedRoot) (made : ResolvedRoot)
      → get_elem? all i ≡ some r
      → StandsFor r made
      → ((name : String) (root : ResolvedRoot) → lookup name acc ≡ some root → Backed all name root)
      → (name : String) (root : ResolvedRoot) → lookup name (insert r.name made acc) ≡ some root
      → Backed all name root
  inserted i r all acc made e stands old name root h = elim (Bool-cases (r.name == name)) [
    | inl f ↦
        let same : r.name ≡ name = ground (arith, eq_iff r.name name) in
        let it : made ≡ root =
          some-injective made root (sym (rw f at (lookup-insert r.name name made acc)) ∙ h) in
        (i, r, e, same, subst (StandsFor r) it stands)
    | inr f ↦ old name root (sym (rw f at (lookup-insert r.name name made acc)) ∙ h)
  ]

  roots-Backed :
      (all : List Root) (i : ℕ) (rest : List Root) (acc roots : Assoc ResolvedRoot)
      → drop i all ≡ rest
      → ((name : String) (root : ResolvedRoot) → lookup name acc ≡ some root → Backed all name root)
      → resolve_from system i rest acc ≡ ok roots
      → (name : String) (root : ResolvedRoot) → lookup name roots ≡ some root
      → Backed all name root
  unfolding resolve_from
  roots-Backed all i [] acc roots d old h name root found =
      old name root (ap (lookup name) (ok-injective acc roots h) ∙ found)
  roots-Backed all i (r ∷ rest) acc roots d old h name root found =
      let (made, new, stands, g) = entry_resolved i r rest acc roots h in
      roots-Backed all (suc i) rest (insert r.name made acc) roots (drop-tail all i r rest d)
        (inserted i r all acc made (drop-head all i r rest d) stands old) g name root found

  roots_are_kept :
      (i : ℕ) (rest : List Root) (acc roots : Assoc ResolvedRoot) (name : String)
      (root : ResolvedRoot)
      → resolve_from system i rest acc ≡ ok roots
      → lookup name acc ≡ some root
      → lookup name roots ≡ some root
  unfolding resolve_from
  roots_are_kept i [] acc roots name root h found =
      ap (lookup name) (sym (ok-injective acc roots h)) ∙ found
  roots_are_kept i (r ∷ rest) acc roots name root h found =
      let (made, new, stands, g) = entry_resolved i r rest acc roots h in
      let other = differ_when_absent r.name name acc root new found in
      roots_are_kept (suc i) rest (insert r.name made acc) roots name root g
        (lookup-insert r.name name made acc ∙ rw other found)

  entries_are_resolved :
      (i k : ℕ) (rest : List Root) (acc roots : Assoc ResolvedRoot) (r : Root)
      → resolve_from system i rest acc ≡ ok roots
      → get_elem? rest k ≡ some r
      → (root : ResolvedRoot) × (lookup r.name roots ≡ some root) × StandsFor r root
  entries_are_resolved i k [] acc roots r h e = cc
  entries_are_resolved i zero (s ∷ rest) acc roots r h e =
      let (made, new, stands, g) = entry_resolved i s rest acc roots h in
      let same : s ≡ r = some-injective s r e in
      subst (λ x. (root : ResolvedRoot) × (lookup x.name roots ≡ some root) × StandsFor x root) same
        (
          made,
          roots_are_kept (suc i) rest (insert s.name made acc) roots s.name made g
              (lookup-insert s.name s.name made acc ∙ rw (text_refl s.name) refl),
          stands,
        )
  entries_are_resolved i (suc k) (s ∷ rest) acc roots r h e =
      let (made, new, stands, g) = entry_resolved i s rest acc roots h in
      entries_are_resolved (suc i) k rest (insert s.name made acc) roots r g e

  resolved_from_start :
      (rs : List Root) (roots : Assoc ResolvedRoot)
      → resolve_entries system rs ≡ ok roots
      → resolve_from system 0 rs [] ≡ ok roots
  unfolding resolve_entries
  resolved_from_start [] roots h = cc
  resolved_from_start (r ∷ rs) roots h = h

get_root-lookup :
    (roots : Assoc ResolvedRoot) (name : String) (root : ResolvedRoot)
    → get_root roots name ≡ ok root
    → lookup name roots ≡ some root
unfolding get_root
get_root-lookup roots name root h = elim (Option-cases (lookup name roots)) [
  | inl e ↦ cc (rw (get_root, e) at h)
  | inr (found, e) ↦ e ∙ ap some (ok-injective found root (rw (get_root, e) at h))
]

-- The answer of CheckAllowlist that the configuration asks for.
abbrev pub granted : Root → String → Option Error
granted r tool =
    if grants r.allowed_tools tool
    then none
    else some (errorf ("tool " ∷ tool ∷ " not allowed on root " ∷ r.name ∷ []))

checked_as_granted :
    (r : Root) (root : ResolvedRoot) (tool : String)
    → StandsFor r root
    → check_allowlist root tool ≡ granted r tool
unfolding check_allowlist
checked_as_granted r root tool (same, allows) = rw (allows tool, same) refl

-- Where the roots resolve, each root that is found by a name is an entry of the configuration with
-- that name, and a tool is allowed on it exactly if it is a tool of the server that the entry lists,
-- or covers by the star.
pub found_roots_are_configured :
    (system : System) (cfg : Config) (roots : Assoc ResolvedRoot) (name tool : String)
    (root : ResolvedRoot)
    → resolve_roots system cfg ≡ ok roots
    → get_root roots name ≡ ok root
    → (k : ℕ) × (r : Root) × (get_elem? cfg.roots k ≡ some r)
      × (r.name ≡ name)
      × (check_allowlist root tool ≡ granted r tool)
unfolding resolve_roots
found_roots_are_configured system cfg roots name tool root h found =
    let (k, r, at, same, stands) =
      roots-Backed system cfg.roots 0 cfg.roots [] roots refl (λ n o e. cc)
        (resolved_from_start system cfg.roots roots h) name root
        (get_root-lookup roots name root found) in
    (k, r, at, same, checked_as_granted r root tool stands)

-- Where the roots resolve, every entry of the configuration is found by its name, also where another
-- entry follows it: no two have the same name. A tool is allowed on it exactly if the entry grants
-- it.
pub configured_roots_are_found :
    (system : System) (cfg : Config) (roots : Assoc ResolvedRoot) (k : ℕ) (r : Root) (tool : String)
    → resolve_roots system cfg ≡ ok roots
    → get_elem? cfg.roots k ≡ some r
    → (root : ResolvedRoot) × (get_root roots r.name ≡ ok root)
      × (check_allowlist root tool ≡ granted r tool)
unfolding get_root resolve_roots
configured_roots_are_found system cfg roots k r tool h at =
    let (root, found, stands) =
      entries_are_resolved system 0 k cfg.roots [] roots r
        (resolved_from_start system cfg.roots roots h) at in
    (root, rw (get_root, found) refl, checked_as_granted r root tool stands)
