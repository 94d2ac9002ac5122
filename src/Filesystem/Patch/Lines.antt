-- ===== src/Filesystem/Patch/Lines.antt =====
-- The lines of a text that was joined from lines.
use Prim.Native.Char.{code}
use Prim.Native.String.{◌++◌}
use Prim.Native.String.append.{nil, cons}
use agent_stop_and_go.Prelude.{
  ◌≡◌, refl, ap, ◌∙◌, String, Bool, true, false, ◌||◌, List, [], ◌∷◌, nat_eq, join, All,
}
use agent_stop_and_go.Filesystem.Patch.{put_front, split_lines}

abbrev pub has_newline : String → Bool
has_newline String.[] = false
has_newline (String.◌∷◌ c s) = let more = has_newline s in nat_eq (code c) b'\n' || more

or-false : (a b : Bool) → (a || b) ≡ false → (a ≡ false) × (b ≡ false)
or-false true b h = cc
or-false false b h = (refl, h)

split_last : (line : String) → has_newline line ≡ false → split_lines line ≡ line ∷ []
unfolding split_lines
split_last String.[] h = refl
split_last (String.◌∷◌ c s) h =
    let (other, rest) = or-false (nat_eq (code c) b'\n') (has_newline s) h in
    rw other (ap (put_front c) (split_last s rest))

split_first :
    (line rest : String)
    → has_newline line ≡ false
    → split_lines (line ++ ("\n" ++ rest)) ≡ line ∷ split_lines rest
unfolding split_lines
split_first String.[] rest h =
    ap split_lines (nil ("\n" ++ rest) ∙ cons "\n" "" rest ∙ ap (λ t. String.◌∷◌ "\n" t) (nil rest))
split_first (String.◌∷◌ c s) rest h =
    let (other, more) = or-false (nat_eq (code c) b'\n') (has_newline s) h in
    ap split_lines (cons c s ("\n" ++ rest)) ∙ rw other (ap (put_front c) (split_first s rest more))

pub split-join :
    (line : String) (lines : List String)
    → All (λ l. has_newline l ≡ false) (line ∷ lines)
    → split_lines (join "\n" (line ∷ lines)) ≡ line ∷ lines
unfolding join
split-join line [] (h, k) = split_last line h
split-join line (l ∷ ls) (h, k) =
    split_first line (join "\n" (l ∷ ls)) h ∙ ap (λ r. line ∷ r) (split-join l ls k)
