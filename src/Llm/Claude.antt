-- ===== src/Llm/Claude.antt =====
-- internal/llm/claude.go: the request to the Messages API of Anthropic, and what is read of its answer.
pub mod Reading
use agent_stop_and_go.Prelude.{
  ℕ, String, Bool, true, false, not, ◌&&◌, Option, none, some, List, [], ◌∷◌, Assoc, ◌==◌,
  if◌then◌else◌, concat,
}
use agent_stop_and_go.Json.{Args}
use agent_stop_and_go.Mcp.{Tool, InputSchema, Property, Error, errorf, wrap}
use agent_stop_and_go.Filesystem.{Checked, ok, err, ◌>>=◌, map_err}
use agent_stop_and_go.Llm.{LlmMessage, LlmToolCall, Response}
use agent_stop_and_go.Llm.Coercion.{Formats, coerce_tool_call_args}
use agent_stop_and_go.Llm.Exchange.{Http, Received, post}

pub record ClaudeProperty : Type 0 where
  pub type : String
  pub description : String

pub record ClaudeInputSchema : Type 0 where
  pub type : String
  pub properties : Assoc ClaudeProperty
  pub required : Option (List String)

pub record ClaudeTool : Type 0 where
  pub name : String
  pub description : String
  -- as it was marshalled
  pub input_schema : String

pub record ClaudeMessage : Type 0 where
  pub role : String
  pub content : String

pub record ClaudeRequest : Type 0 where
  pub model : String
  pub max_tokens : ℕ
  pub system : String
  pub messages : List ClaudeMessage
  pub tools : List ClaudeTool

pub record ClaudeContentBlock : Type 0 where
  pub type : String
  pub text : String
  pub id : String
  pub name : String
  -- as it was sent
  pub input : String

pub record ClaudeError : Type 0 where
  pub type : String
  pub message : String

pub record ClaudeResponse : Type 0 where
  pub id : String
  pub type : String
  pub role : String
  pub content : List ClaudeContentBlock
  pub stop_reason : String
  pub error : Option ClaudeError

-- encoding/json at the types of claude.go
pub record Codec : Type 0 where
  pub schema : ClaudeInputSchema → Checked String
  pub request : ClaudeRequest → Checked String
  pub response : String → Checked ClaudeResponse
  pub arguments : String → Checked Args

-- ToClaudeRole
unfoldable pub to_claude_role : String → String
to_claude_role role = if role == "model" then "assistant" else role

unfoldable pub claude_messages : List LlmMessage → List ClaudeMessage
unfolding to_claude_role
claude_messages [] = []
claude_messages (msg ∷ rest) =
    record { role = to_claude_role msg.role; content = msg.content } ∷ claude_messages rest

unfoldable pub claude_properties : Assoc Property → Assoc ClaudeProperty
claude_properties [] = []
claude_properties ((name, schema) ∷ rest) =
    (name, record { type = schema.type; description = schema.description }) ∷ claude_properties rest

unfoldable pub claude_schema : InputSchema → ClaudeInputSchema
unfolding claude_properties
claude_schema schema = record {
  type = "object";
  properties = elim schema.properties [ none ↦ [] | some props ↦ claude_properties props ];
  required = schema.required;
}

abbrev empty_response : Response
empty_response = record { text = ""; tool_call = none }

module _ (codec : Codec) where
  unfoldable pub claude_tools : List Tool → Checked (List ClaudeTool)
  unfolding claude_schema
  claude_tools [] = ok []
  claude_tools (tool ∷ rest) = do
    schema ←
        map_err (wrap "failed to marshal tool schema")
          (codec.schema (claude_schema tool.input_schema))
    others ← claude_tools rest
    ok (record { name = tool.name; description = tool.description; input_schema = schema } ∷ others)

  unfoldable pub tool_used : ClaudeContentBlock → Response → Checked Response
  tool_used block response =
      map_err (wrap "failed to parse tool arguments") (codec.arguments block.input) >>= λ args.
      ok (record response { tool_call = some (record { name = block.name; arguments = args }) })

  unfoldable pub add_text : ClaudeContentBlock → Response → Response
  unfolding concat
  add_text block response =
      if block.type == "text" && not (block.text == "")
      then record response { text = concat (response.text ∷ block.text ∷ []) }
      else response

  -- The loop over the blocks, which ends at the first use of a tool.
  unfoldable pub read_blocks : List ClaudeContentBlock → Response → Checked Response
  unfolding tool_used add_text
  read_blocks [] response = ok response
  read_blocks (block ∷ rest) response =
      let later = read_blocks rest (add_text block response) in
      if block.type == "tool_use" then tool_used block response else later

  unfoldable pub read_response : Formats → List Tool → ClaudeResponse → Checked Response
  unfolding read_blocks coerce_tool_call_args
  read_response formats tools resp = elim resp.error [
    | some e ↦ err (errorf ("Claude API error: " ∷ e.message ∷ []))
    | none ↦ read_blocks resp.content empty_response >>= λ r.
        ok (record r { tool_call = coerce_tool_call_args formats tools r.tool_call })
  ]

  -- GenerateWithTools of a ClaudeClient
  unfoldable pub generate_with_tools :
      Http
      → Formats
      → (model api_key system_prompt : String) → List LlmMessage
      → List Tool
      → Checked Response
  unfolding claude_tools claude_messages post read_response
  generate_with_tools http formats model api_key system_prompt messages tools = do
    claude_tools ← claude_tools tools
    received ←
        post http "https://api.anthropic.com/v1/messages"
          (("Content-Type", "application/json")
            ∷ ("x-api-key", api_key)
            ∷ ("anthropic-version", "2023-06-01")
            ∷ [])
          (codec.request (record {
            model = model;
            max_tokens = 4096;
            system = system_prompt;
            messages = claude_messages messages;
            tools = claude_tools;
          }))
    resp ← map_err (wrap "failed to parse response") (codec.response received.text)
    read_response formats tools resp
