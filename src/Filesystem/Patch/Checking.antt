-- ===== src/Filesystem/Patch/Checking.antt =====
-- The two sides of a hunk, and what the loops of ApplyPatch over its lines find in a file.
use agent_stop_and_go.Prelude.{
  ℕ, ◌+◌, ◌≡◌, refl, sym, ap, ◌∙◌, String, true, Bool-cases, inl, inr, Option, none, some, List, [],
  ◌∷◌, ◌++◌, length, get_elem?, drop, arith, eq_iff,
}
use agent_stop_and_go.Prelude.Places.{drop-head, drop-tail, drop-get_elem}
use agent_stop_and_go.Filesystem.Patch.{
  Op, context, add, delete, DiffLine, next_index, agrees, Check, verified, differs, has_line,
  check_lines, emit, new_lines,
}

-- The lines that a hunk expects, and those that it leaves.
abbrev pub old_line : Op → String → List String → List String
old_line add text rest = rest
old_line context text rest = text ∷ rest
old_line delete text rest = text ∷ rest

abbrev pub old_side : List DiffLine → List String
old_side [] = []
old_side (d ∷ ds) = old_line d.op d.text (old_side ds)

abbrev pub reverse_op : Op → Op
reverse_op context = context
reverse_op add = delete
reverse_op delete = add

abbrev pub reverse_line : DiffLine → DiffLine
reverse_line d = record d { op = reverse_op d.op }

abbrev pub new_side : List DiffLine → List String
new_side [] = []
new_side (d ∷ ds) = old_line (reverse_op d.op) d.text (new_side ds)

pub old_line-append :
    (op : Op) (t : String) (xs ys : List String) → old_line op t xs ++ ys ≡ old_line op t (xs ++ ys)
old_line-append add t xs ys = refl
old_line-append context t xs ys = refl
old_line-append delete t xs ys = refl

has_line-some : (o : Option String) (t : String) → has_line o t ≡ true → o ≡ some t
has_line-some none t h = cc
has_line-some (some s) t h = ap some (ground (arith, eq_iff s t))

has_itself : (t : String) → has_line (some t) t ≡ true
has_itself t = ground (arith, eq_iff t t)

stop_of : Check → ℕ
stop_of (verified stop) = stop
stop_of (differs i text actual) = 0

module _ (orig : List String) where
  line_stands :
      (op : Op) (i : ℕ) (t : String) (rest : List String)
      → drop i orig ≡ old_line op t rest
      → (agrees orig i op t ≡ true) × (drop (next_index op i) orig ≡ rest)
  unfolding agrees next_index
  line_stands add i t rest h = (refl, h)
  line_stands context i t rest h =
      (ap (λ o. has_line o t) (drop-head orig i t rest h) ∙ has_itself t, drop-tail orig i t rest h)
  line_stands delete i t rest h =
      (ap (λ o. has_line o t) (drop-head orig i t rest h) ∙ has_itself t, drop-tail orig i t rest h)

  length-next :
      (op : Op) (i : ℕ) (t : String) (rest : List String)
      → next_index op i + length rest ≡ i + length (old_line op t rest)
  unfolding next_index
  length-next add i t rest = refl
  length-next context i t rest = omega arith
  length-next delete i t rest = omega arith

  agreed_line :
      (op : Op) (i : ℕ) (t : String)
      → agrees orig i op t ≡ true
      → drop i orig ≡ old_line op t (drop (next_index op i) orig)
  unfolding agrees next_index
  agreed_line add i t h = refl
  agreed_line context i t h = drop-get_elem orig i t (has_line-some (get_elem? orig i) t h)
  agreed_line delete i t h = drop-get_elem orig i t (has_line-some (get_elem? orig i) t h)

  emitted :
      (op : Op) (i : ℕ) (t : String) (rest : List String)
      → agrees orig i op t ≡ true
      → emit orig i op t rest ≡ old_line (reverse_op op) t rest
  unfolding agrees
  emitted add i t rest h = refl
  emitted context i t rest h =
      ap (λ o. elim o [ none ↦ "" | some s ↦ s ] ∷ rest) (has_line-some (get_elem? orig i) t h)
  emitted delete i t rest h = refl

  pub check_finds :
      (after : List String) (i : ℕ) (ls : List DiffLine)
      → drop i orig ≡ old_side ls ++ after
      → check_lines orig i ls ≡ verified (i + length (old_side ls))
  unfolding check_lines
  check_finds after i [] h = ap verified (omega arith)
  check_finds after i (d ∷ ls) h =
      let (agreed, behind) =
        line_stands d.op i d.text (old_side ls ++ after)
          (h ∙ old_line-append d.op d.text (old_side ls) after) in
      rw agreed (
        check_finds after (next_index d.op i) ls behind
        ∙ ap verified (length-next d.op i d.text (old_side ls)))

  pub new_lines-new_side :
      (i : ℕ) (ls : List DiffLine) (stop : ℕ)
      → check_lines orig i ls ≡ verified stop
      → (new_lines orig i ls ≡ new_side ls)
        × (drop i orig ≡ old_side ls ++ drop stop orig)
        × (i + length (old_side ls) ≡ stop)
  unfolding check_lines new_lines stop_of
  new_lines-new_side i [] stop h =
      let same : Path ℕ i stop = ap stop_of h in (refl, ap (λ k. drop k orig) same, omega arith)
  new_lines-new_side i (d ∷ ls) stop h = elim (Bool-cases (agrees orig i d.op d.text)) [
    | inr e ↦ cc (rw e at h)
    | inl e ↦
        let goes : check_lines orig (next_index d.op i) ls ≡ verified stop = rw e at h in
        let (new, old, end) = new_lines-new_side (next_index d.op i) ls stop goes in
        (
          emitted d.op i d.text (new_lines orig (next_index d.op i) ls) e
              ∙ ap (old_line (reverse_op d.op) d.text) new,
          agreed_line d.op i d.text e
              ∙ ap (old_line d.op d.text) old
              ∙ sym (old_line-append d.op d.text (old_side ls) (drop stop orig)),
          sym (length-next d.op i d.text (old_side ls)) ∙ end,
        )
  ]
