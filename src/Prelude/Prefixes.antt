-- ===== src/Prelude/Prefixes.antt =====
-- Prefixes of texts.
use Prim.Native.Nat.{compare, Ordering}
use Prim.Native.Char.{code}
use Prim.Native.String.{◌++◌}
use Prim.Native.String.append.{nil, cons}
use text.Mathlib.TextPositions.{compare_self}
use agent_stop_and_go.Prelude.{
  ◌≡◌, refl, ap, ◌∙◌, ◌⊎◌, inl, inr, String, true, false, strip_prefix, has_prefix, concat, [], ◌∷◌,
  ◌==◌,
}

Ordering-cases : (o : Ordering) → (o ≡ Ordering.eq) ⊎ ((o ≡ Ordering.lt) ⊎ (o ≡ Ordering.gt))
Ordering-cases Ordering.eq = inl refl
Ordering-cases Ordering.lt = inr (inl refl)
Ordering-cases Ordering.gt = inr (inr refl)

-- A prefix of a text is one of every text that goes on behind it.
pub has_prefix-longer : (q s t : String) → has_prefix s q ≡ true → has_prefix (s ++ t) q ≡ true
unfolding has_prefix strip_prefix
has_prefix-longer String.[] s t h = refl
has_prefix-longer (String.◌∷◌ c q) String.[] t h = cc
has_prefix-longer (String.◌∷◌ c q) (String.◌∷◌ d s) t h =
    elim (Ordering-cases (compare (code c) (code d))) [
      | inl e ↦
          ap (λ x. has_prefix x (String.◌∷◌ c q)) (cons d s t)
          ∙ rw (has_prefix, strip_prefix, e)
              (has_prefix-longer q s t (rw (has_prefix, strip_prefix, e) at h))
      | inr (inl e) ↦ cc (rw (has_prefix, strip_prefix, e) at h)
      | inr (inr e) ↦ cc (rw (has_prefix, strip_prefix, e) at h)
    ]

-- Before a common beginning, it makes no difference.
pub has_prefix-append : (c x y : String) → has_prefix (c ++ x) (c ++ y) ≡ has_prefix x y
unfolding has_prefix strip_prefix
has_prefix-append String.[] x y =
    ap (λ z. has_prefix z ("" ++ y)) (nil x) ∙ ap (has_prefix x) (nil y)
has_prefix-append (String.◌∷◌ c s) x y =
    ap (λ z. has_prefix z (String.◌∷◌ c s ++ y)) (cons c s x)
    ∙ ap (has_prefix (String.◌∷◌ c (s ++ x))) (cons c s y)
    ∙ rw (has_prefix, strip_prefix, compare_self (code c)) (has_prefix-append s x y)

slash_is_not_prefix : (s : String) → has_prefix "" (s ++ ("/" ++ "")) ≡ false
unfolding has_prefix strip_prefix
slash_is_not_prefix String.[] = ap (has_prefix "") (nil ("/" ++ ""))
slash_is_not_prefix (String.◌∷◌ c s) = ap (has_prefix "") (cons c s ("/" ++ ""))

-- A slash alone does not begin with a text and a slash.
pub slash_is_short :
    (s : String) → (s == "") ≡ false → has_prefix "/" (concat (s ∷ "/" ∷ [])) ≡ false
unfolding has_prefix strip_prefix concat
slash_is_short String.[] h = cc
slash_is_short (String.◌∷◌ c s) h =
    ap (has_prefix "/") (cons c s ("/" ++ "")) ∙ elim (Ordering-cases (compare (code c) b'/')) [
      | inl e ↦ rw (has_prefix, strip_prefix, e) (slash_is_not_prefix s)
      | inr (inl e) ↦ rw (has_prefix, strip_prefix, e) refl
      | inr (inr e) ↦ rw (has_prefix, strip_prefix, e) refl
    ]

-- What stands behind a text and a slash begins with both.
pub has_prefix-behind_slash :
    (p s : String) → has_prefix (concat (p ∷ "/" ∷ s ∷ [])) (concat (p ∷ "/" ∷ [])) ≡ true
unfolding has_prefix strip_prefix concat
has_prefix-behind_slash p s =
    has_prefix-append p ("/" ++ (s ++ "")) ("/" ++ "")
    ∙ ap (λ z. has_prefix z "/") (cons "/" "" (s ++ ""))

-- A beginning of a text is one of what stands behind it and a slash.
pub has_prefix-below :
    (q p s : String) → has_prefix p q ≡ true → has_prefix (concat (p ∷ "/" ∷ s ∷ [])) q ≡ true
unfolding concat
has_prefix-below q p s h = has_prefix-longer q p ("/" ++ (s ++ "")) h
