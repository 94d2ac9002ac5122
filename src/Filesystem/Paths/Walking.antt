-- ===== src/Filesystem/Paths/Walking.antt =====
-- The walk of validateAncestor comes to an end.
use agent_stop_and_go.Prelude.{
  ℕ, zero, suc, ◌<◌, ◌≡◌, refl, ◌⊎◌, inl, inr, String, Bool, true, Bool-cases, ◌==◌, ◌||◌, [], ◌∷◌,
  arith,
}
use agent_stop_and_go.Mcp.{errorf}
use agent_stop_and_go.Filesystem.{Checked, err, Checked-cases}
use agent_stop_and_go.Filesystem.Roots.{ResolvedRoot}
use agent_stop_and_go.Filesystem.Paths.{
  Filepath, size, ended, at_ancestor, at_existing, walk_up, validate_ancestor, validate_target,
  contains_null, validate_path,
}

-- What filepath documents of absolute paths: Join keeps a path absolute, and Dir leaves all but its
-- last element, so it is absolute too and shorter, or the path itself, as for a root.
pub record DirLaws (filepath : Filepath) : Type 0 where
  pub is_abs : String → Bool
  pub join-IsAbs : (p q : String) → is_abs p ≡ true → is_abs (filepath.join p q) ≡ true
  pub dir-IsAbs : (p : String) → is_abs p ≡ true → is_abs (filepath.dir p) ≡ true
  pub dir_shortens :
      (p : String)
      → is_abs p ≡ true
      → ((filepath.dir p == p) ≡ true) ⊎ (size (filepath.dir p) < size p)

module _ (filepath : Filepath) (root : ResolvedRoot) (laws : DirLaws filepath) where
  walk_ends :
      (rounds : ℕ) (target dir : String)
      → laws.is_abs dir ≡ true
      → size dir < rounds
      → (result : Checked String) × (walk_up filepath root rounds target dir ≡ ended result)
  unfolding walk_up
  walk_ends zero target dir a h = let impossible : ⊥ = omega arith in absurd impossible
  walk_ends (suc rounds) target dir a h = elim (Bool-cases (filepath.dir dir == dir)) [
    | inl e ↦ (err (errorf ("cannot resolve path: no valid ancestor found" ∷ [])), rw e refl)
    | inr e ↦ elim (laws.dir_shortens dir a) [
      | inl same ↦ cc
      | inr less ↦ elim (Checked-cases (filepath.eval_symlinks (filepath.dir dir))) [
        | inl (followed, f) ↦
            (at_ancestor filepath root target (filepath.dir dir) followed, rw (e, f) refl)
        | inr (error, f) ↦
            rw (e, f)
              (walk_ends rounds target (filepath.dir dir) (laws.dir-IsAbs dir a) (omega arith))
      ]
    ]
  ]

  target_ends :
      (target : String)
      → laws.is_abs target ≡ true
      → (result : Checked String) × (validate_target filepath root target ≡ ended result)
  unfolding validate_target validate_ancestor
  target_ends target a = elim (Checked-cases (filepath.eval_symlinks target)) [
    | inr (error, f) ↦
        rw (validate_target, f) (walk_ends (suc (size target)) target target a (omega arith))
    | inl (followed, f) ↦ (at_existing filepath root followed, rw (validate_target, f) refl)
  ]

-- With an absolute root, ValidatePath comes to an end, with a path or an error: the walk up to the
-- nearest ancestor needs at most one round for each character of the path, and one more.
pub validate_path_ends :
    (filepath : Filepath) (root : ResolvedRoot) (rel_path : String)
    → (laws : DirLaws filepath) → laws.is_abs root.real_path ≡ true
    → (result : Checked String) × (validate_path filepath root rel_path ≡ ended result)
unfolding validate_path
validate_path_ends filepath root rel_path laws a = elim (Bool-cases (contains_null rel_path)) [
  | inl e ↦ rw e (_, refl)
  | inr e ↦ elim (Bool-cases (filepath.clean rel_path == "." || filepath.clean rel_path == "")) [
    | inl f ↦ rw (e, f) (_, refl)
    | inr f ↦
        rw (e, f)
          (target_ends filepath root laws (filepath.join root.real_path (filepath.clean rel_path))
            (laws.join-IsAbs root.real_path (filepath.clean rel_path) a))
  ]
]
