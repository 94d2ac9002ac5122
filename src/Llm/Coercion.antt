-- ===== src/Llm/Coercion.antt =====
-- CoerceToolCallArgs of internal/llm/client.go: numbers and Booleans become texts where the schema of the
-- tool declares a text.
pub mod Typing
use agent_stop_and_go.Prelude.{
  String, Bool, true, false, Option, none, some, List, [], ◌∷◌, Assoc, lookup, insert, ◌==◌,
  if◌then◌else◌,
}
use agent_stop_and_go.Json.{Value, str, number, bool, null, object, array, Args}
use agent_stop_and_go.Mcp.{Tool, Property}
use agent_stop_and_go.Llm.{LlmToolCall}

-- How fmt and math spell a number.
pub record Formats : Type 0 where
  -- v == math.Trunc(v) && !math.IsInf(v, 0)
  pub is_whole : String → Bool
  -- %.0f
  pub whole : String → String
  -- %g
  pub general : String → String

module _ (formats : Formats) where
  -- The text for a value that is to be replaced.
  unfoldable pub text_of : Value → Option String
  text_of (str s) = none
  text_of (number n) = some (if formats.is_whole n then formats.whole n else formats.general n)
  text_of (bool b) = some (if b then "true" else "false")
  text_of null = none
  text_of (object ms) = none
  text_of (array es) = none

  unfoldable pub replaced : String → Option String → Args → Args
  unfolding insert
  replaced name none args = args
  replaced name (some text) args = insert name (str text) args

  unfoldable pub coerce_found : String → Property → Option Value → Args → Args
  unfolding replaced text_of
  coerce_found name schema none args = args
  coerce_found name schema (some v) args =
      if schema.type == "string" then replaced name (text_of v) args else args

  -- The loop over the properties, in the order in which the map is gone through.
  unfoldable pub coerce_properties : Assoc Property → Args → Args
  unfolding coerce_found lookup
  coerce_properties [] args = args
  coerce_properties ((name, schema) ∷ rest) args =
      coerce_properties rest (coerce_found name schema (lookup name args) args)

  -- A nil map has no properties.
  unfoldable pub coerce_declared : Option (Assoc Property) → Args → Args
  unfolding coerce_properties
  coerce_declared none args = args
  coerce_declared (some props) args = coerce_properties props args

  -- The loop over the tools, which ends at the first one with the name of the call.
  unfoldable pub coerce_call : List Tool → LlmToolCall → LlmToolCall
  unfolding coerce_declared
  coerce_call [] tc = tc
  coerce_call (tool ∷ rest) tc =
      let later = coerce_call rest tc in
      if tool.name == tc.name
      then record tc { arguments = coerce_declared tool.input_schema.properties tc.arguments }
      else later

  unfoldable pub coerce_tool_call_args : List Tool → Option LlmToolCall → Option LlmToolCall
  unfolding coerce_call
  coerce_tool_call_args tools none = none
  coerce_tool_call_args tools (some tc) = some (coerce_call tools tc)
