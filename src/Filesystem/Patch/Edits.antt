-- ===== src/Filesystem/Patch/Edits.antt =====
-- All hunks of a patch: ApplyPatch makes the edits that the hunks stand for, at the places of the
-- file that they have in the file as it was.
use agent_stop_and_go.Prelude.{
  ℕ, suc, ◌+◌, ◌<◌, ◌≡◌, refl, sym, ap, ◌∙◌, String, some, List, [], ◌∷◌, ◌++◌, length, arith,
  length-append, append_assoc,
}
use agent_stop_and_go.Filesystem.Patch.{
  DiffLine, Hunk, done, start_index, apply_hunk, replaced, apply_hunks, apply_patch, original_lines,
  int_limit,
}
use agent_stop_and_go.Filesystem.Patch.Checking.{old_side, new_side}
use agent_stop_and_go.Filesystem.Patch.Replacing.{hunk_applies}

-- The lines that stay before an edit, the edit, which keeps or removes some line, and the numbers of
-- its header that are not read.
pub record Edit : Type 0 where
  pub gap : List String
  pub lines : List DiffLine
  pub old_count : ℕ
  pub new_start : ℕ
  pub new_count : ℕ
  pub replaces : 0 < length (old_side lines)

-- The file before the edits and after them, with the lines behind the last one.
abbrev pub before_edits : List Edit → List String → List String
before_edits [] tail = tail
before_edits (e ∷ es) tail = e.gap ++ (old_side e.lines ++ before_edits es tail)

abbrev pub after_edits : List Edit → List String → List String
after_edits [] tail = tail
after_edits (e ∷ es) tail = e.gap ++ (new_side e.lines ++ after_edits es tail)

abbrev pub hunk_at : ℕ → Edit → Hunk
hunk_at line e = record {
  header = record {
    old_start = suc (line + length e.gap);
    old_count = e.old_count;
    new_start = e.new_start;
    new_count = e.new_count;
  };
  lines = e.lines;
}

-- The hunks of the edits of a file of which `line` lines have gone before.
abbrev pub hunks_of : ℕ → List Edit → List Hunk
hunks_of line [] = []
hunks_of line (e ∷ es) =
    hunk_at line e ∷ hunks_of (line + (length e.gap + length (old_side e.lines))) es

start_index-suc :
    (n added removed at : ℕ)
    → n + added ≡ at + removed
    → at < int_limit
    → start_index (suc n) added removed ≡ some at
unfolding start_index
start_index-suc n added removed at h k = ground arith

hunk_step :
    (i added removed at new old : ℕ) (orig lines : List String) (h : Hunk) (hs : List Hunk)
    → start_index h.header.old_start added removed ≡ some at
    → apply_hunk orig at h.lines ≡ replaced lines new old
    → apply_hunks i added removed orig (h ∷ hs)
      ≡ apply_hunks (suc i) (added + new) (removed + old) lines hs
unfolding apply_hunks
hunk_step i added removed at new old orig lines h hs f g = rw (apply_hunks, f) (rw g refl)

module _ (front gap : List String) where
  regroup : (rest : List String) → front ++ (gap ++ rest) ≡ (front ++ gap) ++ rest
  regroup rest = sym (append_assoc front gap rest)

edits_from :
    (i added removed line : ℕ) (front tail : List String) (es : List Edit)
    → length front + removed ≡ line + added
    → length front + length (after_edits es tail) < int_limit
    → apply_hunks i added removed (front ++ before_edits es tail) (hunks_of line es)
      ≡ done (front ++ after_edits es tail)
unfolding apply_hunks
edits_from i added removed line front tail [] h k = refl
edits_from i added removed line front tail (e ∷ es) h k =
    let old : List String = old_side e.lines in
    let new : List String = new_side e.lines in
    let before : List String = front ++ e.gap in
    let next : List String = before ++ new in
    let n = length-append front e.gap in
    let m = length-append before new in
    let g = length-append e.gap (new ++ after_edits es tail) in
    let w = length-append new (after_edits es tail) in
    let found =
      start_index-suc (line + length e.gap) added removed (length before) (omega arith)
        (omega arith) in
    ap (λ o. apply_hunks i added removed o (hunks_of line (e ∷ es)))
      (regroup front e.gap (old ++ before_edits es tail))
    ∙ hunk_step i added removed (length before) (length new) (length old)
        (before ++ (old ++ before_edits es tail)) (before ++ (new ++ before_edits es tail))
        (hunk_at line e) (hunks_of (line + (length e.gap + length old)) es) found
        (hunk_applies before (before_edits es tail) e.lines)
    ∙ ap
        (λ o.
          apply_hunks (suc i) (added + length new) (removed + length old) o
            (hunks_of (line + (length e.gap + length old)) es))
        (regroup before new (before_edits es tail))
    ∙ edits_from (suc i) (added + length new) (removed + length old)
        (line + (length e.gap + length old)) next tail es (omega arith) (omega arith)
    ∙ ap done (
        sym (regroup before new (after_edits es tail))
        ∙ sym (regroup front e.gap (new ++ after_edits es tail)))

-- ApplyPatch makes the edits of a patch, whatever their number: where the lines of a file are the
-- gaps with the old sides of the hunks between them, and each hunk is at the line that it has in
-- this file and has at least one old line, the result has the new sides in their places, and no
-- other line has changed. The result has fewer lines than the largest int.
pub patch_makes_edits :
    (original : String) (es : List Edit) (tail : List String)
    → original_lines original ≡ before_edits es tail
    → length (after_edits es tail) < int_limit
    → apply_patch original (hunks_of 0 es) ≡ done (after_edits es tail)
unfolding apply_patch
patch_makes_edits original es tail h k = rw h (edits_from 0 0 0 0 [] tail es refl (omega arith))
