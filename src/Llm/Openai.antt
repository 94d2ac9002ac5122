-- ===== src/Llm/Openai.antt =====
-- internal/llm/openai.go: the request to the chat completions of a provider, and what is read of its
-- answer.
use agent_stop_and_go.Prelude.{
  ℕ, String, ◌||◌, ltb, leb, Option, none, some, List, [], ◌∷◌, Assoc, ◌==◌, if◌then◌else◌, concat,
}
use agent_stop_and_go.Json.{Args}
use agent_stop_and_go.Mcp.{Tool, InputSchema, Property, Error, errorf, wrap}
use agent_stop_and_go.Filesystem.{Checked, ok, err, ◌>>=◌, map_err}
use agent_stop_and_go.Llm.{LlmMessage, Response, ProviderConfig}
use agent_stop_and_go.Llm.Coercion.{Formats, coerce_tool_call_args}
use agent_stop_and_go.Llm.Exchange.{Http, Received, post, set_headers}

pub record OpenaiMessage : Type 0 where
  pub role : String
  pub content : String

-- A property among the parameters, with its description where the map has one.
pub record OpenaiProperty : Type 0 where
  pub type : String
  pub description : Option String

-- The map of parameters, with its optional keys.
pub record OpenaiParameters : Type 0 where
  pub type : String
  pub properties : Option (Assoc OpenaiProperty)
  pub required : Option (List String)

pub record OpenaiFunction : Type 0 where
  pub name : String
  pub description : String
  pub parameters : OpenaiParameters

pub record OpenaiTool : Type 0 where
  pub type : String
  pub function : OpenaiFunction

pub record OpenaiRequest : Type 0 where
  pub model : String
  pub messages : List OpenaiMessage
  pub tools : List OpenaiTool

pub record OpenaiToolCall : Type 0 where
  pub id : String
  pub type : String
  -- the function
  pub name : String
  pub arguments : String

pub record OpenaiChoiceMessage : Type 0 where
  pub role : String
  pub content : String
  pub tool_calls : List OpenaiToolCall

-- encoding/json at the types of openai.go, and the texts of fmt and net/http.
pub record Codec : Type 0 where
  pub request : OpenaiRequest → Checked String
  -- the messages of the choices
  pub response : String → Checked (List OpenaiChoiceMessage)
  -- the message of the error in a body, if there is one
  pub error_message : String → Checked (Option String)
  pub arguments : String → Checked Args
  -- %d
  pub decimal : ℕ → String
  pub status_text : ℕ → String

unfoldable pub openai_messages : List LlmMessage → List OpenaiMessage
openai_messages [] = []
openai_messages (msg ∷ rest) =
    record { role = if msg.role == "model" then "assistant" else msg.role; content = msg.content }
    ∷ openai_messages rest

unfoldable pub with_system : String → List OpenaiMessage → List OpenaiMessage
with_system system_prompt msgs =
    if system_prompt == "" then msgs else record { role = "system"; content = system_prompt } ∷ msgs

unfoldable pub openai_properties : Assoc Property → Assoc OpenaiProperty
openai_properties [] = []
openai_properties ((name, schema) ∷ rest) =
    (
      name,
      record {
        type = schema.type;
        description = if schema.description == "" then none else some schema.description;
      },
    )
    ∷ openai_properties rest

unfoldable pub openai_parameters : InputSchema → OpenaiParameters
unfolding openai_properties
openai_parameters schema = record {
  type = "object";
  properties = elim schema.properties [ none ↦ none | some props ↦ some (openai_properties props) ];
  required = schema.required;
}

unfoldable pub openai_tools : List Tool → List OpenaiTool
unfolding openai_parameters
openai_tools [] = []
openai_tools (tool ∷ rest) =
    record {
      type = "function";
      function = record {
        name = tool.name;
        description = tool.description;
        parameters = openai_parameters tool.input_schema;
      };
    }
    ∷ openai_tools rest

-- `getenv` is os.Getenv.
module _ (codec : Codec) (getenv : String → String) where
  -- The conditional Authorization header.
  unfoldable pub authorization : ProviderConfig → Assoc String
  unfolding concat
  authorization config =
      let api_key = getenv config.api_key_env in
      if (config.api_key_env == "") || (api_key == "")
      then []
      else ("Authorization", concat ("Bearer " ∷ api_key ∷ [])) ∷ []

  unfoldable pub headers_for : ProviderConfig → Assoc String
  unfolding set_headers authorization
  headers_for config =
      set_headers config.headers
        (set_headers (authorization config) (("Content-Type", "application/json") ∷ []))

  unfoldable pub api_error : ProviderConfig → ℕ → String → Error
  api_error config status what =
      errorf (config.name ∷ " API error (" ∷ codec.decimal status ∷ "): " ∷ what ∷ [])

  -- The text for a response that is not 2xx: the body's message where it has one.
  unfoldable pub message_of : ℕ → Checked (Option String) → String
  message_of status (ok (some message)) = message
  message_of status (ok none) = codec.status_text status
  message_of status (err e) = codec.status_text status

  -- A tool call takes precedence over the text.
  unfoldable pub read_message : OpenaiChoiceMessage → Checked Response
  read_message message = elim message.tool_calls [
    | [] ↦ ok (record { text = message.content; tool_call = none })
    | tc ∷ others ↦
        map_err (wrap "failed to parse tool arguments") (codec.arguments tc.arguments) >>= λ args.
        ok (record { text = ""; tool_call = some (record { name = tc.name; arguments = args }) })
  ]

  unfoldable pub read_choices : Formats → List Tool → List OpenaiChoiceMessage → Checked Response
  unfolding read_message coerce_tool_call_args
  read_choices formats tools [] = err (errorf ("no choices in response" ∷ []))
  read_choices formats tools (choice ∷ others) = read_message choice >>= λ r.
      ok (record r { tool_call = coerce_tool_call_args formats tools r.tool_call })

  unfoldable pub read_received : ProviderConfig → Formats → List Tool → Received → Checked Response
  unfolding api_error message_of read_choices
  read_received config formats tools received =
      if ltb received.status 200 || leb 300 received.status
      then err (
          api_error config received.status
            (message_of received.status (codec.error_message received.text)))
      else map_err (wrap "failed to parse response") (codec.response received.text)
        >>= read_choices formats tools

  -- GenerateWithTools of an OpenAICompatibleClient
  unfoldable pub generate_with_tools :
      Http
      → Formats
      → ProviderConfig
      → (model system_prompt : String) → List LlmMessage
      → List Tool
      → Checked Response
  unfolding post with_system openai_messages openai_tools headers_for read_received concat
  generate_with_tools http formats config model system_prompt messages tools =
      post http (concat (config.base_url ∷ "/chat/completions" ∷ [])) (headers_for config) (
        codec.request (record {
          model = model;
          messages = with_system system_prompt (openai_messages messages);
          tools = openai_tools tools;
        }))
      >>= read_received config formats tools
