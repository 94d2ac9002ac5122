-- ===== src/Prelude/Places.antt =====
-- A place in a list: what is taken and dropped there.
use agent_stop_and_go.Prelude.{
  ℕ, zero, suc, ◌+◌, ◌≤◌, ◌≡◌, refl, sym, ap, ◌∙◌, some, List, [], ◌∷◌, ◌++◌, length, get_elem?,
  take, drop, arith,
}

module _ {ℓ} {A : Type ℓ} where
  pub drop-length : (xs ys : List A) → drop (length xs) (xs ++ ys) ≡ ys
  drop-length [] ys = refl
  drop-length (x ∷ xs) ys = drop-length xs ys

  pub take-length : (xs ys : List A) → take (length xs) (xs ++ ys) ≡ xs
  take-length [] ys = refl
  take-length (x ∷ xs) ys = ap (λ l. x ∷ l) (take-length xs ys)

  pub drop-head :
      (xs : List A) (i : ℕ) (y : A) (ys : List A) → drop i xs ≡ y ∷ ys → get_elem? xs i ≡ some y
  drop-head [] zero y ys h = cc
  drop-head [] (suc i) y ys h = cc
  drop-head (x ∷ xs) zero y ys h = cc
  drop-head (x ∷ xs) (suc i) y ys h = drop-head xs i y ys h

  pub drop-tail :
      (xs : List A) (i : ℕ) (y : A) (ys : List A) → drop i xs ≡ y ∷ ys → drop (suc i) xs ≡ ys
  drop-tail [] zero y ys h = cc
  drop-tail [] (suc i) y ys h = cc
  drop-tail (x ∷ xs) zero y ys h = cc
  drop-tail (x ∷ xs) (suc i) y ys h = drop-tail xs i y ys h

  pub drop-get_elem :
      (xs : List A) (i : ℕ) (y : A) → get_elem? xs i ≡ some y → drop i xs ≡ y ∷ drop (suc i) xs
  drop-get_elem [] i y h = cc
  drop-get_elem (x ∷ xs) zero y h = cc
  drop-get_elem (x ∷ xs) (suc i) y h = drop-get_elem xs i y h

  pub take-drop : (n : ℕ) (xs : List A) → take n xs ++ drop n xs ≡ xs
  take-drop zero xs = refl
  take-drop (suc n) [] = refl
  take-drop (suc n) (x ∷ xs) = ap (λ l. x ∷ l) (take-drop n xs)

  pub length-take : (n : ℕ) (xs : List A) → n ≤ length xs → length (take n xs) ≡ n
  length-take zero xs h = refl
  length-take (suc n) [] h = omega arith
  length-take (suc n) (x ∷ xs) h = ap suc (length-take n xs (omega arith))

  drop-nil : (n : ℕ) → drop {A = A} n [] ≡ []
  drop-nil zero = refl
  drop-nil (suc n) = refl

  pub drop-drop : (n m : ℕ) (xs : List A) → drop (n + m) xs ≡ drop m (drop n xs)
  drop-drop zero m xs = ap (λ k. drop k xs) (omega arith)
  drop-drop (suc n) m [] = drop-nil (suc n + m) ∙ sym (drop-nil m)
  drop-drop (suc n) m (x ∷ xs) =
      ap (λ k. drop k (x ∷ xs)) {y = suc (n + m)} (omega arith) ∙ drop-drop n m xs
