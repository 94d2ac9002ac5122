-- ===== src/Llm/Coercion/Typing.antt =====
-- What the arguments of a tool call are after CoerceToolCallArgs.
use agent_stop_and_go.Prelude.{
  String, Bool, true, false, Option, none, some, List, [], ◌∷◌, Assoc, lookup, lookup-insert, ◌==◌,
  if◌then◌else◌, ◌≡◌, refl, ap, ◌∙◌, if-true, if-false, eq_iff, arith, ◌⊎◌, inl, inr,
}
use agent_stop_and_go.Json.{Value, str, number, bool, null, object, array, Args}
use agent_stop_and_go.Mcp.{Tool, Property}
use agent_stop_and_go.Llm.{LlmToolCall}
use agent_stop_and_go.Llm.Coercion.{
  Formats, text_of, replaced, coerce_found, coerce_properties, coerce_declared, coerce_call,
}

-- The keys of a map are different.
abbrev pub IsMap : Assoc Property → Type 0
IsMap [] = Unit
IsMap ((name, schema) ∷ rest) = (lookup name rest ≡ none) × IsMap rest

module _ (formats : Formats) where
  abbrev or_text : Value → Option String → Value
  or_text v none = v
  or_text v (some text) = str text

  -- A number or a Boolean in text; everything else is left alone.
  abbrev pub spelled : Value → Value
  spelled (number n) = str (if formats.is_whole n then formats.whole n else formats.general n)
  spelled (bool true) = str "true"
  spelled (bool false) = str "false"
  spelled (str s) = str s
  spelled null = null
  spelled (object ms) = object ms
  spelled (array es) = array es

  -- What becomes of an argument, by its declaration.
  abbrev pub as_declared : Option Property → Option Value → Option Value
  as_declared none v = v
  as_declared (some schema) none = none
  as_declared (some schema) (some v) = if schema.type == "string" then some (spelled v) else some v

  spelled_lem : (v : Value) → or_text v (text_of formats v) ≡ spelled v
  unfolding text_of
  spelled_lem (str s) = refl
  spelled_lem (number n) = refl
  spelled_lem (bool true) = refl
  spelled_lem (bool false) = refl
  spelled_lem null = refl
  spelled_lem (object ms) = refl
  spelled_lem (array es) = refl

  same_key :
      (key wanted : String) (v : Value) (args : Args)
      → lookup key args ≡ some v
      → lookup wanted args ≡ (if key == wanted then some v else lookup wanted args)
  same_key key wanted v args h = ground (arith, eq_iff key wanted, h)

  replaced-lookup :
      (key wanted : String) (v : Value) (args : Args) (text : Option String)
      → lookup key args ≡ some v
      → lookup wanted (replaced formats key text args)
        ≡ (if key == wanted then some (or_text v text) else lookup wanted args)
  unfolding replaced
  replaced-lookup key wanted v args none h = same_key key wanted v args h
  replaced-lookup key wanted v args (some text) h = lookup-insert key wanted (str text) args

  found-lookup :
      (key wanted : String) (schema : Property) (args : Args) (v : Option Value)
      → lookup key args ≡ v
      → lookup wanted (coerce_found formats key schema v args)
        ≡ (if key == wanted then as_declared (some schema) v else lookup wanted args)
  unfolding coerce_found
  found-lookup key wanted schema args none h = ground (arith, eq_iff key wanted, h)
  found-lookup key wanted schema args (some v) h =
      typed (schema.type == "string")
      ∙ ap
          (λ (w : Value).
            if key == wanted
            then (if schema.type == "string" then some w else some v)
            else lookup wanted args)
          (spelled_lem v)
    where
      typed :
          (b : Bool)
          → lookup wanted (if b then replaced formats key (text_of formats v) args else args) ≡ (
              if key == wanted
              then (if b then some (or_text v (text_of formats v)) else some v)
              else lookup wanted args)
      typed true = replaced-lookup key wanted v args (text_of formats v) h
      typed false = same_key key wanted v args h

  one-lookup :
      (key wanted : String) (schema : Property) (args : Args)
      → lookup wanted (coerce_found formats key schema (lookup key args) args) ≡ (
          if key == wanted
          then as_declared (some schema) (lookup wanted args)
          else lookup wanted args)
  one-lookup key wanted schema args =
      found-lookup key wanted schema args (lookup key args) refl ∙ ground (arith, eq_iff key wanted)

  -- An argument that one round left, in the rounds behind it.
  joined :
      (declared : Option Property) (schema : Property) (same : Bool) (before found : Option Value)
      → (same ≡ true → declared ≡ none)
      → found ≡ (if same then as_declared (some schema) before else before)
      → as_declared declared found ≡ as_declared (if same then some schema else declared) before
  joined declared schema true before found new h =
      ap (λ (d : Option Property). as_declared d found) (new refl) ∙ h
  joined declared schema false before found new h = ap (as_declared declared) h

  none_for :
      (key wanted : String) (props : Assoc Property)
      → lookup key props ≡ none
      → (key == wanted) ≡ true
      → lookup wanted props ≡ none
  none_for key wanted props new e = ground (arith, eq_iff key wanted, new, e)

  properties-lookup :
      (props : Assoc Property) (wanted : String) (args : Args)
      → IsMap props
      → lookup wanted (coerce_properties formats props args)
        ≡ as_declared (lookup wanted props) (lookup wanted args)
  unfolding coerce_properties lookup
  properties-lookup [] wanted args m = refl
  properties-lookup ((key, schema) ∷ rest) wanted args (new, m) =
      let first = one-lookup key wanted schema args in
      let later =
        properties-lookup rest wanted (coerce_found formats key schema (lookup key args) args) m in
      later
      ∙ joined (lookup wanted rest) schema (key == wanted) (lookup wanted args) _
          (none_for key wanted rest new) first

  -- The call is for this tool, the first one of its name.
  abbrev pub IsFor : List Tool → String → Tool → Type 0
  IsFor [] name tool = false ≡ true
  IsFor (other ∷ rest) name tool =
      ((other.name == name) ≡ true × (other ≡ tool))
      ⊎ ((other.name == name) ≡ false × IsFor rest name tool)

  call-lookup :
      (tools : List Tool) (tc : LlmToolCall) (tool : Tool)
      → IsFor tools tc.name tool
      → coerce_call formats tools tc ≡ record tc {
        arguments = coerce_declared formats tool.input_schema.properties tc.arguments;
      }
  unfolding coerce_call
  call-lookup [] tc tool h = cc
  call-lookup (other ∷ rest) tc tool (inl (e, same)) =
      if-true (other.name == tc.name) _ _ e
      ∙ ap
          (λ (u : Tool). record tc {
            arguments = coerce_declared formats u.input_schema.properties tc.arguments;
          })
          same
  call-lookup (other ∷ rest) tc tool (inr (e, h)) =
      if-false (other.name == tc.name) _ _ e ∙ call-lookup rest tc tool h

  -- After the coercion by the first tool of its name, an argument of a call that the schema declares
  -- to be a text is a text where it was a number or a Boolean, and every other argument is as it was.
  pub arguments_are_as_declared :
      (tools : List Tool) (tc : LlmToolCall) (tool : Tool) (props : Assoc Property) (name : String)
      → IsFor tools tc.name tool
      → tool.input_schema.properties ≡ some props
      → IsMap props
      → lookup name (coerce_call formats tools tc).arguments
        ≡ as_declared (lookup name props) (lookup name tc.arguments)
  unfolding coerce_declared
  arguments_are_as_declared tools tc tool props name h p m =
      ap (λ (u : LlmToolCall). lookup name u.arguments) (call-lookup tools tc tool h)
      ∙ ap (λ (q : Option (Assoc Property)). lookup name (coerce_declared formats q tc.arguments)) p
      ∙ properties-lookup props name tc.arguments m
