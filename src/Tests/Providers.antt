-- ===== src/Tests/Providers.antt =====
-- The theorems on the clients of LLMs, at a call with a number for a text and at an answer in two texts.
use agent_stop_and_go.Prelude.{
  ◌≡◌, refl, inl, String, true, false, none, some, List, [], ◌∷◌, lookup, Assoc, concat,
}
use agent_stop_and_go.Json.{number}
use agent_stop_and_go.Mcp.{Tool, Property}
use agent_stop_and_go.Filesystem.{ok}
use agent_stop_and_go.Llm.{LlmToolCall}
use agent_stop_and_go.Llm.Coercion.{Formats, coerce_call}
use agent_stop_and_go.Llm.Coercion.Typing.{as_declared, arguments_are_as_declared}
use agent_stop_and_go.Llm.Claude.{ClaudeContentBlock, Codec, read_blocks}
use agent_stop_and_go.Llm.Claude.Reading.{first_use, using, blocks_are_read}

abbrev formats : Formats
formats = record { is_whole = λ n. true; whole = λ n. n; general = λ n. n }

abbrev address : Assoc Property
address = ("ip", record { type = "string"; description = "" }) ∷ []

abbrev add_tool : Tool
add_tool = record {
  name = "resources_add";
  description = "";
  input_schema = record { type = "object"; properties = some address; required = none };
  destructive_hint = false;
  server = "resources";
}

abbrev add_call : LlmToolCall
add_call = record { name = "resources_add"; arguments = ("ip", number "3232235876") ∷ [] }

arguments_are_as_declared_example :
    lookup "ip" (coerce_call formats (add_tool ∷ []) add_call).arguments
    ≡ as_declared formats (lookup "ip" address) (lookup "ip" add_call.arguments)
unfolding lookup
arguments_are_as_declared_example =
    arguments_are_as_declared formats (add_tool ∷ []) add_call add_tool address "ip"
      (inl (refl, refl)) refl (refl, tt)

abbrev codec : Codec
codec = record {
  schema = λ s. ok "{}";
  request = λ r. ok "{}";
  response = λ t. ok (record {
    id = "";
    type = "message";
    role = "assistant";
    content = [];
    stop_reason = "";
    error = none;
  });
  arguments = λ t. ok [];
}

abbrev block : String → String → ClaudeContentBlock
block type text = record { type = type; text = text; id = ""; name = ""; input = "" }

abbrev spoken : List ClaudeContentBlock
spoken = block "text" "I add " ∷ block "text" "it." ∷ block "tool_use" "" ∷ block "text" "late" ∷ []

blocks_are_read_example :
    read_blocks codec spoken (record { text = ""; tool_call = none })
    ≡ using codec (first_use spoken) (record { text = "I add it."; tool_call = none })
unfolding concat
blocks_are_read_example = blocks_are_read codec spoken
