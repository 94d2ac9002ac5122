-- ===== src/Llm/Gemini.antt =====
-- internal/llm/gemini.go: the request to the Gemini API, and what is read of its answer.
use agent_stop_and_go.Prelude.{
  ℕ, String, not, Option, none, some, List, [], ◌∷◌, Assoc, ◌==◌, if◌then◌else◌, concat,
}
use agent_stop_and_go.Json.{Args}
use agent_stop_and_go.Mcp.{Tool, InputSchema, Property, errorf, wrap}
use agent_stop_and_go.Filesystem.{Checked, ok, err, ◌>>=◌, map_err}
use agent_stop_and_go.Llm.{LlmMessage, Response}
use agent_stop_and_go.Llm.Coercion.{Formats, coerce_tool_call_args}
use agent_stop_and_go.Llm.Exchange.{Http, post}

pub record GeminiFunctionCall : Type 0 where
  pub name : String
  pub args : Args

pub record GeminiPart : Type 0 where
  pub text : String
  pub function_call : Option GeminiFunctionCall

pub record GeminiContent : Type 0 where
  pub role : String
  pub parts : List GeminiPart

pub record GeminiProperty : Type 0 where
  pub type : String
  pub description : String

pub record GeminiParameters : Type 0 where
  pub type : String
  pub properties : Assoc GeminiProperty
  pub required : Option (List String)

pub record GeminiFunctionDecl : Type 0 where
  pub name : String
  pub description : String
  pub parameters : Option GeminiParameters

pub record GeminiRequest : Type 0 where
  pub contents : List GeminiContent
  -- the declarations of each element of `tools`
  pub tools : List (List GeminiFunctionDecl)
  pub system_instruction : Option GeminiContent
  -- the mode of the function calls
  pub tool_config : String

pub record GeminiError : Type 0 where
  pub code : ℕ
  pub message : String

pub record GeminiResponse : Type 0 where
  -- the content of each candidate
  pub candidates : List GeminiContent
  pub error : Option GeminiError

-- encoding/json at the types of gemini.go
pub record Codec : Type 0 where
  pub request : GeminiRequest → Checked String
  pub response : String → Checked GeminiResponse

unfoldable pub gemini_properties : Assoc Property → Assoc GeminiProperty
gemini_properties [] = []
gemini_properties ((name, schema) ∷ rest) =
    (name, record { type = schema.type; description = schema.description }) ∷ gemini_properties rest

unfoldable pub gemini_parameters : InputSchema → Option GeminiParameters
unfolding gemini_properties
gemini_parameters schema = elim schema.properties [
  | none ↦ none
  | some props ↦
      some (record {
        type = "object";
        properties = gemini_properties props;
        required = schema.required;
      })
]

unfoldable pub function_decls : List Tool → List GeminiFunctionDecl
unfolding gemini_parameters
function_decls [] = []
function_decls (tool ∷ rest) =
    record {
      name = tool.name;
      description = tool.description;
      parameters = gemini_parameters tool.input_schema;
    }
    ∷ function_decls rest

abbrev text_part : String → GeminiPart
text_part text = record { text = text; function_call = none }

unfoldable pub gemini_contents : List LlmMessage → List GeminiContent
gemini_contents [] = []
gemini_contents (msg ∷ rest) =
    record {
      role = if msg.role == "assistant" then "model" else msg.role;
      parts = text_part msg.content ∷ [];
    }
    ∷ gemini_contents rest

abbrev in_one : List GeminiFunctionDecl → List (List GeminiFunctionDecl)
in_one [] = []
in_one (decl ∷ rest) = (decl ∷ rest) ∷ []

unfoldable pub gemini_request : String → List LlmMessage → List Tool → GeminiRequest
unfolding gemini_contents function_decls
gemini_request system_prompt messages tools = record {
  contents = gemini_contents messages;
  tools = in_one (function_decls tools);
  system_instruction =
      if system_prompt == ""
      then none
      else some (record { role = ""; parts = text_part system_prompt ∷ [] });
  tool_config = "AUTO";
}

unfoldable pub set_text : GeminiPart → Response → Response
set_text part response =
    if not (part.text == "") then record response { text = part.text } else response

-- The loop over the parts, which ends at the first call of a function.
unfoldable pub read_parts : List GeminiPart → Response → Response
unfolding set_text
read_parts [] response = response
read_parts (part ∷ rest) response =
    let later = read_parts rest (set_text part response) in
    elim part.function_call [
      | some f ↦ record response { tool_call = some (record { name = f.name; arguments = f.args }) }
      | none ↦ later
    ]

unfoldable pub read_candidates : Formats → List Tool → List GeminiContent → Checked Response
unfolding read_parts coerce_tool_call_args
read_candidates formats tools [] = err (errorf ("no candidates in response" ∷ []))
read_candidates formats tools (candidate ∷ rest) =
    let r = read_parts candidate.parts (record { text = ""; tool_call = none }) in
    ok (record r { tool_call = coerce_tool_call_args formats tools r.tool_call })

unfoldable pub read_response : Formats → List Tool → GeminiResponse → Checked Response
unfolding read_candidates
read_response formats tools resp = elim resp.error [
  | some e ↦ err (errorf ("Gemini API error: " ∷ e.message ∷ []))
  | none ↦ read_candidates formats tools resp.candidates
]

-- GenerateWithTools of a GeminiClient
unfoldable pub generate_with_tools :
    Codec
    → Http
    → Formats
    → (model api_key system_prompt : String) → List LlmMessage
    → List Tool
    → Checked Response
unfolding gemini_request post read_response concat
generate_with_tools codec http formats model api_key system_prompt messages tools = do
  received ←
      post http
        (concat (
          "https://generativelanguage.googleapis.com/v1beta/models/" ∷ model
          ∷ ":generateContent?key=" ∷ api_key ∷ []))
        (("Content-Type", "application/json") ∷ [])
        (codec.request (gemini_request system_prompt messages tools))
  resp ← map_err (wrap "failed to parse response") (codec.response received.text)
  read_response formats tools resp
