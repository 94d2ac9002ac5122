-- ===== src/Mcp/Http/Adapting.antt =====
-- The tools and the results of the library for MCP as those of the program: adaptTool and
-- adaptCallToolResult of internal/mcp/client_http.go.
use agent_stop_and_go.Prelude.{
  String, Bool, true, false, Option, none, some, List, [], ◌∷◌, ◌==◌, Assoc, if◌then◌else◌,
}
use agent_stop_and_go.Json.{Value, Members, str, object, member, no_members}
use agent_stop_and_go.Mcp.{Tool, InputSchema, Property, ContentBlock, CallToolResult}

-- The types of the library, as far as the client reads them.
pub record SdkSchema : Type 0 where
  pub type : String
  pub properties : Option (Assoc Value)
  pub required : Option (List String)

pub record SdkTool : Type 0 where
  pub name : String
  pub description : String
  pub input_schema : SdkSchema
  pub read_only_hint : Option Bool
  pub destructive_hint : Option Bool

pub data SdkContent : Type 0 where
  text_content : String → SdkContent
  other_content : SdkContent

pub record SdkResult : Type 0 where
  pub is_error : Bool
  pub content : List SdkContent

-- propMap[key].(string), with "" where there is none
unfoldable pub string_member : String → Members → String
string_member key no_members = ""
string_member key (member k v ms) =
    let rest = string_member key ms in if k == key then elim v [ str s ↦ s | _ ↦ "" ] else rest

unfoldable pub adapt_property : Value → Property
unfolding string_member
adapt_property v = elim v [
  | object ms ↦ record {
    type = string_member "type" ms;
    description = string_member "description" ms;
  }
  | _ ↦ record { type = ""; description = "" }
]

unfoldable pub adapt_properties : Assoc Value → Assoc Property
unfolding adapt_property
adapt_properties [] = []
adapt_properties ((name, prop) ∷ rest) = (name, adapt_property prop) ∷ adapt_properties rest

unfoldable pub adapt_input_schema : SdkSchema → InputSchema
unfolding adapt_properties
adapt_input_schema schema = record {
  type = schema.type;
  properties = elim schema.properties [ none ↦ none | some props ↦ some (adapt_properties props) ];
  required = schema.required;
}

unfoldable pub adapt_hint : Option Bool → Option Bool → Bool
adapt_hint (some true) destructive = false
adapt_hint (some false) none = false
adapt_hint (some false) (some hint) = hint
adapt_hint none none = false
adapt_hint none (some hint) = hint

unfoldable pub adapt_tool : SdkTool → Tool
unfolding adapt_input_schema adapt_hint
adapt_tool t = record {
  name = t.name;
  description = t.description;
  input_schema = adapt_input_schema t.input_schema;
  destructive_hint = adapt_hint t.read_only_hint t.destructive_hint;
  server = "";
}

unfoldable pub adapt_content : List SdkContent → List ContentBlock
adapt_content [] = []
adapt_content (text_content text ∷ rest) =
    record { type = "text"; text = text } ∷ adapt_content rest
adapt_content (other_content ∷ rest) = adapt_content rest

unfoldable pub adapt_call_tool_result : SdkResult → CallToolResult
unfolding adapt_content
adapt_call_tool_result result = record {
  content = adapt_content result.content;
  is_error = result.is_error;
}
