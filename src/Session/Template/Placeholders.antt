-- ===== src/Session/Template/Placeholders.antt =====
-- What the search for placeholders does to a template.
use Prim.Native.Char.{Char}
use agent_stop_and_go.Prelude.{
  ◌≡◌, refl, ap, ◌∙◌, sym, true, false, none, some, List, [], ◌∷◌, ◌++◌, append_assoc, append-nil,
  All,
}
use agent_stop_and_go.Session.{SessionState}
use agent_stop_and_go.Session.Template.{
  chars, text, is_word, is_open, replacement, scan, resolve_template,
}

chars-text : (cs : List Char) → chars (text cs) ≡ cs
chars-text [] = refl
chars-text (c ∷ cs) = ap (λ ds. c ∷ ds) (chars-text cs)

scan_plain :
    (state : SessionState) (plain rest : List Char)
    → All (λ c. is_open c ≡ false) plain
    → scan state none (plain ++ rest) ≡ plain ++ scan state none rest
unfolding scan
scan_plain state [] rest h = refl
scan_plain state (c ∷ plain) rest (closed, h) =
    rw closed (ap (λ ds. c ∷ ds) (scan_plain state plain rest h))

scan_key :
    (state : SessionState) (ks rest key : List Char)
    → All (λ c. is_word c ≡ true) ks
    → scan state (some key) (ks ++ rest) ≡ scan state (some (key ++ ks)) rest
unfolding scan
scan_key state [] rest key h = ap (λ k. scan state (some k) rest) (sym (append-nil key))
scan_key state (c ∷ ks) rest key (word, h) = rw word (
    scan_key state ks rest (key ++ c ∷ []) h
    ∙ ap (λ k. scan state (some k) rest) (append_assoc key (c ∷ []) ks))

scan_first :
    (state : SessionState) (plain key rest : List Char) (k : Char)
    → All (λ c. is_open c ≡ false) plain
    → All (λ c. is_word c ≡ true) (k ∷ key)
    → scan state none (plain ++ ("{" ∷ ((k ∷ key) ++ ("}" ∷ rest))))
      ≡ plain ++ (replacement state (k ∷ key) ++ scan state none rest)
scan_first state plain key rest k closed words =
    scan_plain state plain ("{" ∷ ((k ∷ key) ++ ("}" ∷ rest))) closed
    ∙ ap (λ ds. plain ++ ds) (unfold scan in scan_key state (k ∷ key) ("}" ∷ rest) [] words)

-- Where no brace opens before the first placeholder of a template, the placeholder becomes its
-- replacement, the text before it stays as it is, and the search goes on behind it: the replacement
-- is not searched for placeholders again.
first_placeholder :
    (state : SessionState) (plain key rest : List Char) (k : Char)
    → All (λ c. is_open c ≡ false) plain
    → All (λ c. is_word c ≡ true) (k ∷ key)
    → resolve_template (text (plain ++ ("{" ∷ ((k ∷ key) ++ ("}" ∷ rest))))) state
      ≡ text (plain ++ (replacement state (k ∷ key) ++ chars (resolve_template (text rest) state)))
unfolding resolve_template
first_placeholder state plain key rest k closed words =
    ap (λ cs. text (scan state none cs)) (chars-text (plain ++ ("{" ∷ ((k ∷ key) ++ ("}" ∷ rest)))))
    ∙ ap text (scan_first state plain key rest k closed words)
    ∙ ap (λ cs. text (plain ++ (replacement state (k ∷ key) ++ scan state none cs)))
        (sym (chars-text rest))
    ∙ ap (λ ds. text (plain ++ (replacement state (k ∷ key) ++ ds)))
        (sym (chars-text (scan state none (chars (text rest)))))
