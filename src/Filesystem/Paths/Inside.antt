-- ===== src/Filesystem/Paths/Inside.antt =====
-- A path that ValidatePath returns is within the root of the request.
use agent_stop_and_go.Prelude.{
  ℕ, zero, suc, ◌≡◌, refl, ap, ◌⊎◌, inl, inr, String, Bool, true, false, Bool-cases, ◌==◌, ◌||◌, [],
  ◌∷◌, concat, has_prefix, subst, arith, eq_iff,
}
use agent_stop_and_go.Prelude.Prefixes.{slash_is_short, has_prefix-behind_slash, has_prefix-below}
use agent_stop_and_go.Filesystem.{Checked, ok, err, Checked-cases, ok-injective}
use agent_stop_and_go.Filesystem.Roots.{ResolvedRoot}
use agent_stop_and_go.Filesystem.Paths.{
  Filepath, contains_null, size, outside, is_within_root, Walk, ended, unfinished, at_ancestor,
  at_existing, walk_up, validate_ancestor, validate_target, validate_path,
}

-- The ancestors of a path, itself first.
abbrev pub up : Filepath → ℕ → String → String
up filepath zero path = path
up filepath (suc n) path = filepath.dir (up filepath n path)

-- What path/filepath documents: which paths are absolute, and which relative ones stay below the
-- directory where they are read (filepath.IsLocal); that Abs gives clean absolute paths and Join
-- keeps a path absolute; that a path relative to one of its ancestors stays below it; and that a
-- join with such a path is the directory itself, or stands behind it and a separator.
pub record PathLaws (filepath : Filepath) : Type 0 where
  pub is_abs : String → Bool
  pub is_local : String → Bool
  pub abs-IsAbs :
      (p q : String) → filepath.abs p ≡ ok q → (is_abs q ≡ true) × (filepath.clean q ≡ q)
  pub join-IsAbs : (p q : String) → is_abs p ≡ true → is_abs (filepath.join p q) ≡ true
  pub rel-IsLocal :
      (n : ℕ) (path r : String)
      → is_abs path ≡ true
      → filepath.rel (up filepath n path) path ≡ ok r
      → is_local r ≡ true
  pub join-below :
      (p r : String)
      → is_abs p ≡ true
      → filepath.clean p ≡ p
      → (p == "/") ≡ false
      → is_local r ≡ true
      → (filepath.join p r ≡ p) ⊎ ((s : String) × (filepath.join p r ≡ concat (p ∷ "/" ∷ s ∷ [])))

within_itself : (p : String) → is_within_root p p ≡ true
unfolding is_within_root
within_itself p = ground (arith, eq_iff p p)

or-right : (a : Bool) {b : Bool} → b ≡ true → (a || b) ≡ true
or-right a h = ground arith

below_within :
    (p s root : String)
    → is_within_root p root ≡ true
    → is_within_root (concat (p ∷ "/" ∷ s ∷ [])) root ≡ true
unfolding is_within_root
below_within p s root h = elim (Bool-cases (p == root)) [
  | inl e ↦
      let same : p ≡ root = ground (arith, eq_iff p root) in
      subst (λ r. is_within_root (concat (p ∷ "/" ∷ s ∷ [])) r ≡ true) same
        (or-right (concat (p ∷ "/" ∷ s ∷ []) == p) (has_prefix-behind_slash p s))
  | inr e ↦
      or-right (concat (p ∷ "/" ∷ s ∷ []) == root)
        (has_prefix-below (concat (root ∷ "/" ∷ [])) p s (rw (is_within_root, e) at h))
]

not_slash :
    (p root : String)
    → (root == "") ≡ false
    → (root == "/") ≡ false
    → is_within_root p root ≡ true
    → (p == "/") ≡ false
unfolding is_within_root
not_slash p root h k w = elim (Bool-cases (p == "/")) [
  | inr e ↦ e
  | inl e ↦
      let same : p ≡ "/" = ground (arith, eq_iff p "/") in
      let other : ("/" == root) ≡ false = ground (arith, eq_iff "/" root, eq_iff root "/") in
      cc (
        rw (is_within_root, other, slash_is_short root h) at
          (subst (λ q. is_within_root q root ≡ true) same w))
]

-- What the root of a request has from ResolveRoots: an absolute path, and not that of the whole
-- file system.
pub record IsProper (real_path : String) : Type 0 where
  pub not_empty : (real_path == "") ≡ false
  pub not_slash : (real_path == "/") ≡ false

result_of : Walk → Checked String
result_of (ended c) = c
result_of unfinished = ok ""

ended-injective : (a b : Checked String) → Path Walk (ended a) (ended b) → a ≡ b
unfolding result_of
ended-injective a b h = ap result_of h

module _ (filepath : Filepath) (root : ResolvedRoot) (laws : PathLaws filepath)
    (proper : IsProper root.real_path) where
  existing_inside :
      (followed path : String)
      → at_existing filepath root followed ≡ ok path
      → is_within_root path root.real_path ≡ true
  unfolding at_existing
  existing_inside followed path h = elim (Checked-cases (filepath.abs followed)) [
    | inr (e, f) ↦ cc (rw (at_existing, f) at h)
    | inl (resolved, f) ↦ elim (Bool-cases (is_within_root resolved root.real_path)) [
      | inr g ↦ cc (rw (at_existing, f, g) at h)
      | inl g ↦
          subst (λ p. is_within_root p root.real_path ≡ true)
            (ok-injective resolved path (rw (at_existing, f, g) at h)) g
    ]
  ]

  ancestor_inside :
      (n : ℕ) (target followed path : String)
      → laws.is_abs target ≡ true
      → at_ancestor filepath root target (up filepath n target) followed ≡ ok path
      → is_within_root path root.real_path ≡ true
  unfolding at_ancestor
  ancestor_inside n target followed path a h = elim (Checked-cases (filepath.abs followed)) [
    | inr (e, f) ↦ cc (rw (at_ancestor, f) at h)
    | inl (resolved, f) ↦ elim (Bool-cases (is_within_root resolved root.real_path)) [
      | inr g ↦ cc (rw (at_ancestor, f, g) at h)
      | inl g ↦ elim (Checked-cases (filepath.rel (up filepath n target) target)) [
        | inr (e, k) ↦ cc (rw (at_ancestor, f, g, k) at h)
        | inl (remainder, k) ↦
            let (absolute, clean) = laws.abs-IsAbs followed resolved f in
            subst (λ p. is_within_root p root.real_path ≡ true)
              (ok-injective (filepath.join resolved remainder) path
                (rw (at_ancestor, f, g, k) at h))
              (elim (laws.join-below resolved remainder absolute clean
                (not_slash resolved root.real_path proper.not_empty proper.not_slash g)
                (laws.rel-IsLocal n target remainder a k)) [
                  | inl e ↦ rw e g
                  | inr (s, e) ↦ rw e (below_within resolved s root.real_path g)
                ])
      ]
    ]
  ]

  walk_inside :
      (rounds n : ℕ) (target path : String)
      → laws.is_abs target ≡ true
      → walk_up filepath root rounds target (up filepath n target) ≡ ended (ok path)
      → is_within_root path root.real_path ≡ true
  unfolding walk_up
  walk_inside zero n target path a h = cc
  walk_inside (suc rounds) n target path a h =
      elim (Bool-cases (filepath.dir (up filepath n target) == up filepath n target)) [
        | inl e ↦ cc (ended-injective _ (ok path) (rw (walk_up, e) at h))
        | inr e ↦
            elim (Checked-cases (filepath.eval_symlinks (filepath.dir (up filepath n target)))) [
              | inr (error, f) ↦ walk_inside rounds (suc n) target path a (rw (walk_up, e, f) at h)
              | inl (followed, f) ↦ ancestor_inside (suc n) target followed path a (
                  ended-injective
                    (at_ancestor filepath root target (up filepath (suc n) target) followed)
                    (ok path) (rw (walk_up, e, f) at h))
            ]
      ]

  target_inside :
      (target path : String)
      → laws.is_abs target ≡ true
      → validate_target filepath root target ≡ ended (ok path)
      → is_within_root path root.real_path ≡ true
  unfolding validate_target validate_ancestor
  target_inside target path a h = elim (Checked-cases (filepath.eval_symlinks target)) [
    | inl (followed, f) ↦ existing_inside followed path (
        ended-injective (at_existing filepath root followed) (ok path)
          (rw (validate_target, f) at h))
    | inr (error, f) ↦
        walk_inside (suc (size target)) 0 target path a (rw (validate_target, f) at h)
  ]

pub validated_is_inside :
    (filepath : Filepath) (root : ResolvedRoot) (rel_path path : String) (laws : PathLaws filepath)
    → IsProper root.real_path
    → laws.is_abs root.real_path ≡ true
    → validate_path filepath root rel_path ≡ ended (ok path)
    → is_within_root path root.real_path ≡ true
unfolding validate_path
validated_is_inside filepath root rel_path path laws proper a h =
    elim (Bool-cases (contains_null rel_path)) [
      | inl e ↦ cc (ended-injective _ (ok path) (rw (validate_path, e) at h))
      | inr e ↦
          elim (Bool-cases (filepath.clean rel_path == "." || filepath.clean rel_path == "")) [
            | inl f ↦
                subst (λ p. is_within_root p root.real_path ≡ true)
                  (ok-injective root.real_path path
                    (ended-injective (ok root.real_path) (ok path) (rw (validate_path, e, f) at h)))
                  (within_itself root.real_path)
            | inr f ↦
                target_inside filepath root laws proper
                  (filepath.join root.real_path (filepath.clean rel_path)) path
                  (laws.join-IsAbs root.real_path (filepath.clean rel_path) a)
                  (rw (validate_path, e, f) at h)
          ]
    ]

-- A server whose root is `/` refuses every other path that exists: one that is resolved is taken for
-- outside of the root.
slash_root_refuses :
    (filepath : Filepath) (root : ResolvedRoot) (target followed resolved : String)
    → root.real_path ≡ "/"
    → filepath.eval_symlinks target ≡ ok followed
    → filepath.abs followed ≡ ok resolved
    → (resolved == "/") ≡ false
    → has_prefix resolved "//" ≡ false
    → validate_target filepath root target ≡ ended (err outside)
unfolding validate_target at_existing is_within_root
slash_root_refuses filepath root target followed resolved r f g h k =
    rw (validate_target, f) (rw (at_existing, g) (rw (is_within_root, r) (rw (h, k) refl)))
