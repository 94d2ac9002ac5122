-- ===== src/Mcp.antt =====
-- internal/mcp/protocol.go: tools, results, and the errors of a call.
pub mod Composite
pub mod Stdio
pub mod Http
pub mod Clients
use agent_stop_and_go.Prelude.{String, Bool, Option, List, Assoc, concat, [], ◌∷◌, true, false}
use agent_stop_and_go.Json.{Args}

pub record Property : Type 0 where
  pub type : String
  pub description : String

pub record InputSchema : Type 0 where
  pub type : String
  -- none for a nil map and a nil slice
  pub properties : Option (Assoc Property)
  pub required : Option (List String)

pub record Tool : Type 0 where
  pub name : String
  pub description : String
  pub input_schema : InputSchema
  pub destructive_hint : Bool
  pub server : String

pub record ContentBlock : Type 0 where
  pub type : String
  pub text : String

pub record CallToolResult : Type 0 where
  pub content : List ContentBlock
  pub is_error : Bool

-- A Go error: its text, and whether errors.As finds an AuthRequiredError in its chain.
pub record Error : Type 0 where
  pub text : String
  pub auth_required : Bool

-- fmt.Errorf with no %w
abbrev pub errorf : List String → Error
errorf pieces = record { text = concat pieces; auth_required = false }

-- fmt.Errorf("...: %w", err) keeps the chain of what it wraps.
abbrev pub wrap : String → Error → Error
wrap prefix e = record {
  text = concat (prefix ∷ ": " ∷ e.text ∷ []);
  auth_required = e.auth_required;
}

-- AuthRequiredError.Error
unfoldable pub auth_required_error : String → String → Error
auth_required_error server tool = record {
  text =
      concat
        ("authentication required: MCP server " ∷ server ∷ " returned 401 for tool " ∷ tool ∷ []);
  auth_required = true;
}

-- The text of the first block, "" if there is none.
abbrev pub first_text : List ContentBlock → String
first_text [] = ""
first_text (block ∷ rest) = block.text
