-- ===== src/Llm/Claude/Reading.antt =====
-- The loop over the blocks of Claude's answer against a description of what it is to find.
use agent_stop_and_go.Prelude.{
  String, Bool, true, false, not, ◌&&◌, Option, none, some, List, [], ◌∷◌, ◌==◌, if◌then◌else◌,
  concat, ◌≡◌, refl, sym, ap, ◌∙◌, eq_iff, arith,
}
use Prim.Native.String.{◌++◌}
use text.Mathlib.TextLemmas.{nil-append, append-nil, append_assoc}
use agent_stop_and_go.Filesystem.{Checked, ok, err, map_err, ◌>>=◌}
use agent_stop_and_go.Mcp.{wrap}
use agent_stop_and_go.Json.{Args}
use agent_stop_and_go.Llm.{Response}
use agent_stop_and_go.Llm.Claude.{ClaudeContentBlock, Codec, tool_used, add_text, read_blocks}

-- The texts of the blocks ahead of the first use of a tool.
abbrev pub texts_ahead : List ClaudeContentBlock → List String
texts_ahead [] = []
texts_ahead (block ∷ rest) =
    let later = texts_ahead rest in
    if block.type == "tool_use"
    then []
    else if block.type == "text"
    then block.text ∷ later
    else later

abbrev pub first_use : List ClaudeContentBlock → Option ClaudeContentBlock
first_use [] = none
first_use (block ∷ rest) =
    let later = first_use rest in if block.type == "tool_use" then some block else later

with_text : String → Response → Response
with_text text r = record r { text = r.text ++ text }

-- A call of the tool that a block names, beside the text, or the error of arguments that do not parse.
abbrev pub with_arguments : ClaudeContentBlock → Response → Checked Args → Checked Response
with_arguments block r (err e) = err (wrap "failed to parse tool arguments" e)
with_arguments block r (ok args) =
    ok (record { text = r.text; tool_call = some (record { name = block.name; arguments = args }) })

module _ (codec : Codec) where
  -- The answer with the use of a tool, if there is one.
  abbrev pub using : Option ClaudeContentBlock → Response → Checked Response
  using none r = ok r
  using (some block) r = with_arguments block r (codec.arguments block.input)

  used :
      (block : ClaudeContentBlock) (r : Response) (c : Checked Args)
      → (map_err (wrap "failed to parse tool arguments") c >>= λ args.
          ok (record r { tool_call = some (record { name = block.name; arguments = args }) }))
        ≡ with_arguments block r c
  used block r (ok args) = refl
  used block r (err e) = refl

  module _ (block : ClaudeContentBlock) (r : Response) (later : List String) where
    is_blank : (block.text == "") ≡ true → block.text ≡ ""
    is_blank h = ground (arith, eq_iff block.text "", h)

    blank_ahead : (s : String) → (block.text == "") ≡ true → s ≡ block.text ++ s
    blank_ahead s h = sym (ap (λ (x : String). x ++ s) (is_blank h) ∙ nil-append s)

    added_if :
        (t e : Bool)
        → (block.text == "") ≡ e
        → with_text
            (concat later)
            (if t && not e then record r { text = concat (r.text ∷ block.text ∷ []) } else r)
          ≡ with_text (concat (if t then block.text ∷ later else later)) r
    unfolding with_text concat
    added_if false e h = refl
    added_if true false h =
        ap (λ (x : String). record r { text = x })
          (ap (λ (x : String). (r.text ++ x) ++ concat later) (append-nil block.text)
            ∙ append_assoc r.text block.text (concat later))
    added_if true true h =
        ap (λ (x : String). record r { text = r.text ++ x }) (blank_ahead (concat later) h)

    added :
        with_text (concat later) (add_text codec block r)
        ≡ with_text (concat (if block.type == "text" then block.text ∷ later else later)) r
    unfolding add_text
    added = added_if (block.type == "text") (block.text == "") refl

  block_read :
      (uses : Bool) (block : ClaudeContentBlock) (rest : List ClaudeContentBlock) (r : Response)
      → read_blocks codec rest (add_text codec block r)
        ≡ using (first_use rest) (with_text (concat (texts_ahead rest)) (add_text codec block r))
      → (if uses then tool_used codec block r else read_blocks codec rest (add_text codec block r))
        ≡ using (if uses then some block else first_use rest) (
            with_text
              (concat (
                if uses
                then []
                else if block.type == "text"
                then block.text ∷ texts_ahead rest
                else texts_ahead rest))
              r)
  unfolding with_text concat tool_used
  block_read true block rest r h =
      used block r (codec.arguments block.input)
      ∙ ap (λ (x : String). using (some block) (record r { text = x })) (sym (append-nil r.text))
  block_read false block rest r h =
      h ∙ ap (using (first_use rest)) (added block r (texts_ahead rest))

  blocks_read :
      (bs : List ClaudeContentBlock) (r : Response)
      → read_blocks codec bs r ≡ using (first_use bs) (with_text (concat (texts_ahead bs)) r)
  unfolding read_blocks with_text concat
  blocks_read [] r = ap (λ (x : String). ok (record r { text = x })) (sym (append-nil r.text))
  blocks_read (block ∷ rest) r =
      block_read (block.type == "tool_use") block rest r (blocks_read rest (add_text codec block r))

  -- From the blocks of an answer the client takes the first use of a tool, and as the text those of
  -- the text blocks ahead of it, one after the other, or of all text blocks where no tool is used.
  pub blocks_are_read :
      (bs : List ClaudeContentBlock)
      → read_blocks codec bs (record { text = ""; tool_call = none })
        ≡ using (first_use bs) (record { text = concat (texts_ahead bs); tool_call = none })
  unfolding with_text
  blocks_are_read bs =
      blocks_read bs (record { text = ""; tool_call = none })
      ∙ ap (λ (x : String). using (first_use bs) (record { text = x; tool_call = none }))
          (nil-append (concat (texts_ahead bs)))
