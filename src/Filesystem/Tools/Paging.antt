-- ===== src/Filesystem/Tools/Paging.antt =====
-- The pages of a file that read_file gives.
use agent_stop_and_go.Prelude.{
  ℕ, zero, suc, ◌+◌, ◌-◌, ◌≤◌, ◌<◌, ◌≡◌, refl, sym, ap, ◌∙◌, inl, inr, String, Bool, true, false,
  Bool-cases, none, some, List, [], ◌∷◌, ◌++◌, ltb, leb, length, take, drop, arith,
}
use agent_stop_and_go.Prelude.Places.{drop-drop, length-take}
use agent_stop_and_go.Agent.Exec.{panic, ◌>>=◌, pure, panics, try, handle, resume_with}
use agent_stop_and_go.Filesystem.{ok}
use agent_stop_and_go.Filesystem.Patch.{int_limit}
use agent_stop_and_go.Filesystem.Tools.{Call, Disk, Server, Request, Handle, lift, or_fail}
use agent_stop_and_go.Filesystem.Tools.Reading.{ReadResult, window, select_lines, read_bytes}

module _ {ℓ} {A : Type ℓ} where
  take-all : (n : ℕ) (xs : List A) → length xs ≤ n → take n xs ≡ xs
  take-all zero [] h = refl
  take-all zero (x ∷ xs) h = let impossible : ⊥ = omega arith in absurd impossible
  take-all (suc n) [] h = refl
  take-all (suc n) (x ∷ xs) h = ap (λ l. x ∷ l) (take-all n xs (omega arith))

  take-none : (n : ℕ) → take {A = A} n [] ≡ []
  take-none zero = refl
  take-none (suc n) = refl

  take-add : (n m : ℕ) (xs : List A) → take (n + m) xs ≡ take n xs ++ take m (drop n xs)
  take-add zero m xs = ap (λ k. take k xs) (omega arith)
  take-add (suc n) m [] = take-none (suc n + m) ∙ sym (take-none m)
  take-add (suc n) m (x ∷ xs) =
      ap (λ k. take k (x ∷ xs)) {y = suc (n + m)} (omega arith) ∙ ap (λ l. x ∷ l) (take-add n m xs)

  length-drop : (n : ℕ) (xs : List A) → length (drop n xs) ≡ length xs - n
  length-drop zero xs = omega arith
  length-drop (suc n) [] = omega arith
  length-drop (suc n) (x ∷ xs) = length-drop n xs ∙ omega arith

window_page :
    (lines : List String) (k n : ℕ)
    → k < length lines
    → k + n < int_limit
    → window lines k (k + n) ≡ some (take n (drop k lines), ltb (k + n) (length lines))
unfolding window
window_page lines k n h b =
    let inside : leb (length lines) k ≡ false = ground arith in
    let fits : leb int_limit (k + n) ≡ false = ground arith in
    let count : k + n - k ≡ n = omega arith in
    elim (Bool-cases (ltb (length lines) (k + n))) [
      | inl e ↦
          let short = length-drop k lines in
          let last : ltb (k + n) (length lines) ≡ false = ground arith in
          rw (window, inside, fits, e) (rw (last, take-all n (drop k lines) (ground arith)) refl)
      | inr e ↦ rw (window, inside, fits, e) (rw count refl)
    ]

page :
    (lines : List String) (k n : ℕ)
    → k < length lines
    → k + n < int_limit
    → select_lines lines (some (suc k)) (some n)
      ≡ some (take n (drop k lines), ltb (k + n) (length lines))
unfolding select_lines
page lines k n h b =
    ap (λ s. window lines s (s + n)) {y = k} (omega arith) ∙ window_page lines k n h b

-- A page of lines that is cut off goes on in the page that begins at its next line: it has as many
-- lines as were asked for, and with those of the next page it is what one page of both lengths has.
-- The ends are below the largest int.
pub pages_join :
    (lines : List String) (k n m : ℕ)
    → k + n < length lines
    → k + (n + m) < int_limit
    → (first second : List String) × (more : Bool) × (select_lines lines (some (suc k)) (some n)
        ≡ some (first, true))
      × (length first ≡ n)
      × (select_lines lines (some (suc (k + n))) (some m) ≡ some (second, more))
      × (select_lines lines (some (suc k)) (some (n + m)) ≡ some (first ++ second, more))
pages_join lines k n m h b =
    let cut : ltb (k + n) (length lines) ≡ true = ground arith in
    (
      take n (drop k lines),
      take m (drop (k + n) lines),
      ltb (k + n + m) (length lines),
      page lines k n (omega arith) (omega arith) ∙ ap (λ c. some (take n (drop k lines), c)) cut,
      length-take n (drop k lines) (omega (arith, length-drop k lines)),
      page lines (k + n) m h (omega arith),
      page lines k (n + m) (omega arith) b
          ∙ ap (λ c. some (take (n + m) (drop k lines), ltb c (length lines))) {y = k + n + m}
              (omega arith)
          ∙ ap (λ l. some (l, ltb (k + n + m) (length lines)))
              (take-add n m (drop k lines)
                ∙ ap (λ l. take n (drop k lines) ++ take m l) (sym (drop-drop k n lines))),
    )

-- Reading bytes from an offset behind the end of the file, without a limit, panics: the buffer would
-- have a negative length.
offset_past_end_panics :
    (disk : Disk) (server : Server) (req : Request) (file : Handle) (result : ReadResult)
    (offset position : ℕ) (calls : List Call)
    → result.size < offset
    → file.seek offset ≡ ok position
    → read_bytes disk server req file result (some offset) none calls ≡ (panic, calls)
unfolding read_bytes or_fail try handle lift pure panics ◌>>=◌ resume_with
offset_past_end_panics disk server req file result offset position calls h s =
    let past : ltb result.size offset ≡ true = ground arith in rw (s, past) refl
