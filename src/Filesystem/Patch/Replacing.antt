-- ===== src/Filesystem/Patch/Replacing.antt =====
-- What one hunk of ApplyPatch does to the lines of a file: it finds its old side and puts its new side
-- in its place.
use agent_stop_and_go.Prelude.{
  ℕ, ◌+◌, ◌-◌, ◌≤◌, ◌≡◌, refl, sym, ap, ◌∙◌, ◌⊎◌, String, true, Bool-cases, inl, inr, Option, List,
  [], ◌∷◌, ◌++◌, leb, length, take, drop, map, arith, length-append,
}
use agent_stop_and_go.Prelude.Places.{drop-length, take-length, take-drop, length-take, drop-drop}
use agent_stop_and_go.Filesystem.Patch.{
  Op, context, add, delete, DiffLine, Check, verified, differs, check_lines, Step, replaced, failed,
  out_of_range, replace, apply_hunk,
}
use agent_stop_and_go.Filesystem.Patch.Checking.{
  old_line, old_side, new_side, reverse_op, reverse_line, check_finds, new_lines-new_side,
}

-- Where a hunk stands in a file, and what comes out.
pub data Applies (orig : List String) (start : ℕ) (ls : List DiffLine) (out : List String)
    : Type 0 where
  between :
      (before after : List String)
      → orig ≡ before ++ (old_side ls ++ after)
      → length before ≡ start
      → out ≡ before ++ (new_side ls ++ after)
      → Applies orig start ls out

Check-cases :
    (c : Check)
    → ((stop : ℕ) × (c ≡ verified stop))
      ⊎ ((i : ℕ) × (text : String) × (actual : Option String) × (c ≡ differs i text actual))
Check-cases (verified stop) = inl (stop, refl)
Check-cases (differs i text actual) = inr (i, text, actual, refl)

module _ (orig : List String) (start : ℕ) (ls : List DiffLine) where
  apply_checked :
      (stop : ℕ)
      → check_lines orig start ls ≡ verified stop
      → apply_hunk orig start ls ≡ replace orig start stop (new_side ls)
  unfolding apply_hunk
  apply_checked stop e =
      let (new, old, end) = new_lines-new_side orig start ls stop e in
      rw (apply_hunk, e) (rw new refl)

  replace_inside :
      (before after : List String) (stop : ℕ) (new : List String)
      → stop ≤ length orig
      → take start orig ≡ before
      → drop stop orig ≡ after
      → replace orig start stop new
        ≡ replaced (before ++ (new ++ after)) (length new) (stop - start)
  replace_inside before after stop new h t d =
      let inside : leb stop (length orig) ≡ true = ground arith in rw (inside, t, d) refl

-- Where the old side of a hunk stands at its start, what stands before it and what stands behind
-- it stay, and the new side comes in its place: no line of the file is lost.
pub hunk_applies :
    (before after : List String) (ls : List DiffLine)
    → apply_hunk (before ++ (old_side ls ++ after)) (length before) ls
      ≡ replaced (before ++ (new_side ls ++ after)) (length (new_side ls)) (length (old_side ls))
hunk_applies before after ls =
    let orig : List String = before ++ (old_side ls ++ after) in
    let stop : ℕ = length before + length (old_side ls) in
    let behind : drop (length before) orig ≡ old_side ls ++ after =
      drop-length before (old_side ls ++ after) in
    let checked = check_finds orig after (length before) ls behind in
    apply_checked orig (length before) ls stop checked
    ∙ replace_inside orig (length before) ls before after stop (new_side ls)
        (omega
          (arith, length-append before (old_side ls ++ after), length-append (old_side ls) after))
        (take-length before (old_side ls ++ after))
        (drop-drop (length before) (length (old_side ls)) orig
          ∙ ap (drop (length (old_side ls))) behind
          ∙ drop-length (old_side ls) after)
    ∙ ap (replaced (before ++ (new_side ls ++ after)) (length (new_side ls))) (omega arith)

lines_of : Step → List String
lines_of (replaced lines new old) = lines
lines_of (failed at text actual) = []
lines_of out_of_range = []

-- A hunk that is applied stands in the file: its old side is at its start, and the lines that come out
-- are those before, its new side and those behind.
hunk_sound :
    (orig out : List String) (start new old : ℕ) (ls : List DiffLine)
    → apply_hunk orig start ls ≡ replaced out new old
    → Applies orig start ls out
unfolding lines_of apply_hunk
hunk_sound orig out start new old ls h = elim (Check-cases (check_lines orig start ls)) [
  | inr (i, text, actual, e) ↦ cc (rw (apply_hunk, e) at h)
  | inl (stop, e) ↦
      let (emitted_all, stands, end) = new_lines-new_side orig start ls stop e in
      let g = sym (apply_checked orig start ls stop e) ∙ h in
      elim (Bool-cases (leb stop (length orig))) [
        | inr f ↦ cc (rw f at g)
        | inl f ↦
            between (take start orig) (drop stop orig)
              (sym (take-drop start orig) ∙ ap (λ r. take start orig ++ r) stands)
              (length-take start orig (ground arith)) (sym (ap lines_of (rw f at g)))
      ]
]

old_side-reverse : (ls : List DiffLine) → old_side (map reverse_line ls) ≡ new_side ls
old_side-reverse [] = refl
old_side-reverse (d ∷ ls) = ap (old_line (reverse_op d.op) d.text) (old_side-reverse ls)

reverse_op-reverse_op : (op : Op) → reverse_op (reverse_op op) ≡ op
reverse_op-reverse_op context = refl
reverse_op-reverse_op add = refl
reverse_op-reverse_op delete = refl

new_side-reverse : (ls : List DiffLine) → new_side (map reverse_line ls) ≡ old_side ls
new_side-reverse [] = refl
new_side-reverse (d ∷ ls) =
    rw (reverse_op-reverse_op d.op) (ap (old_line d.op d.text) (new_side-reverse ls))

undone :
    (orig out : List String) (start : ℕ) (ls : List DiffLine)
    → Applies orig start ls out
    → apply_hunk out start (map reverse_line ls)
      ≡ replaced orig (length (old_side ls)) (length (new_side ls))
undone orig out start ls (between before after o l r) =
    rw (r, o, sym l, sym (old_side-reverse ls), sym (new_side-reverse ls))
      (hunk_applies before after (map reverse_line ls))

-- A hunk that was applied is undone by the hunk with its additions and its deletions exchanged, at
-- the same start.
hunk_undone :
    (orig out : List String) (start new old : ℕ) (ls : List DiffLine)
    → apply_hunk orig start ls ≡ replaced out new old
    → apply_hunk out start (map reverse_line ls)
      ≡ replaced orig (length (old_side ls)) (length (new_side ls))
hunk_undone orig out start new old ls h =
    undone orig out start ls (hunk_sound orig out start new old ls h)
