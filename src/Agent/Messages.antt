-- ===== src/Agent/Messages.antt =====
-- What the agent tells the LLM and the user: the messages, the tools, and the text of an approval.
pub mod Alternation
use agent_stop_and_go.Prelude.{
  String, Bool, true, false, Option, none, some, List, [], ◌∷◌, ◌++◌, Assoc, lookup, ◌==◌, concat,
  if◌then◌else◌, map,
}
use agent_stop_and_go.Json.{Args, Value, str}
use agent_stop_and_go.Conversation.{Message, Role, system, user, assistant, tool, ToolCall}
use agent_stop_and_go.Mcp.{Tool}
use agent_stop_and_go.Config.{NodeInfo, A2aAgent}
use agent_stop_and_go.A2a.{Client}
use agent_stop_and_go.Llm.{LlmMessage}
use agent_stop_and_go.Agent.World.{Env, Agent}

abbrev pub a2a_tool_prefix : String
a2a_tool_prefix = "a2a_"

-- string(msg.Role), but "model" for the assistant
abbrev pub role_name : Role → String
role_name system = "system"
role_name user = "user"
role_name assistant = "model"
role_name tool = "tool"

abbrev by_content : Role → String → Option LlmMessage
by_content role content =
    if content == "" then none else some (record { role = role_name role; content = content })

-- The body of the loop of convertToLLMMessages up to the merge, by the fields of the message: `none`
-- where it continues.
unfoldable pub view_fields : Env → Role → String → Option ToolCall → Option LlmMessage
view_fields env system content call = none
view_fields env assistant content none = by_content assistant content
view_fields env assistant content (some call) =
    if content == "" then none else by_content assistant content
view_fields env tool content (some call) = some (record {
  role = "user";
  content = concat ("Tool " ∷ env.quote call.name ∷ " returned:\n" ∷ call.result ∷ []);
})
view_fields env tool content none = by_content tool content
view_fields env user content call = by_content user content

abbrev pub llm_view : Env → Message → Option LlmMessage
llm_view env m = view_fields env m.role m.content m.tool_call

-- The merge of consecutive messages of one role, at the end of the list.
unfoldable pub push : LlmMessage → List LlmMessage → List LlmMessage
push m [] = m ∷ []
push m (l ∷ []) =
    if l.role == m.role
    then record l { content = concat (l.content ∷ "\n\n" ∷ m.content ∷ []) } ∷ []
    else l ∷ m ∷ []
push m (k ∷ l ∷ rest) = k ∷ push m (l ∷ rest)

unfoldable pub push_view : Option LlmMessage → List LlmMessage → List LlmMessage
unfolding push
push_view none messages = messages
push_view (some m) messages = push m messages

-- The loop of convertToLLMMessages.
unfoldable pub convert_from : Env → List LlmMessage → List Message → List LlmMessage
unfolding view_fields push_view
convert_from env messages [] = messages
convert_from env messages (m ∷ ms) = convert_from env (push_view (llm_view env m) messages) ms

unfoldable pub convert_to_llm_messages : Env → List Message → List LlmMessage
unfolding convert_from
convert_to_llm_messages env ms = convert_from env [] ms

-- A synthetic tool for an A2A agent.
abbrev a2a_tool : String → String → String → Bool → Tool
a2a_tool name description message hint = record {
  name = concat (a2a_tool_prefix ∷ name ∷ []);
  description = description;
  input_schema = record {
    type = "object";
    properties = some (("message", record { type = "string"; description = message }) ∷ []);
    required = some ("message" ∷ []);
  };
  destructive_hint = hint;
  server = "";
}

-- The loop of getAllTools over the map a2aClients.
unfoldable pub a2a_tools : Assoc Client → List Tool
a2a_tools [] = []
a2a_tools ((key, c) ∷ rest) =
    a2a_tool c.name (concat ("Delegate task to A2A agent '" ∷ c.name ∷ "'. " ∷ c.description ∷ []))
      "The message/task to send to the agent" c.destructive_hint
    ∷ a2a_tools rest

unfoldable pub get_all_tools : Agent → List Tool
unfolding a2a_tools
get_all_tools agent = agent.mcp_client.tools ++ a2a_tools agent.a2a_clients

-- The loop of getNodeTools over the node's own A2A agents.
unfoldable pub node_a2a_tools : List A2aAgent → List Tool
node_a2a_tools [] = []
node_a2a_tools (c ∷ rest) =
    a2a_tool c.name (concat ("Delegate to A2A agent '" ∷ c.name ∷ "'. " ∷ c.description ∷ []))
      "The message/task to send" c.destructive_hint
    ∷ node_a2a_tools rest

abbrev exit_loop_tool : Tool
exit_loop_tool = record {
  name = "exit_loop";
  description = "Exit the current loop. Call this only when instructed to do so.";
  input_schema = record { type = "object"; properties = some []; required = none };
  destructive_hint = false;
  server = "";
}

unfoldable pub get_node_tools : Agent → NodeInfo → List Tool
unfolding node_a2a_tools
get_node_tools agent n =
    agent.mcp_client.tools
    ++ node_a2a_tools n.a2a
    ++ (if n.can_exit_loop then exit_loop_tool ∷ [] else [])

-- args[key], and whether it is there and is not ""
abbrev present : Args → String → Option Value
present args key = elim (lookup key args) [
  | none ↦ none
  | some v ↦ elim v [ str s ↦ if s == "" then none else some (str s) | w ↦ some w ]
]

-- formatApprovalDescription
unfoldable pub format_approval_description : Env → String → Args → String
unfolding lookup
format_approval_description env tool_name args =
    let args_json : String = elim (env.marshal_args args) [
      | none ↦ env.show_args args
      | some json ↦ json
    ] in
    if tool_name == "resources_add"
    then concat (
        "**ADD Resource**\n\nName: "
        ∷ env.show_value (lookup "name" args)
        ∷ "\nValue: "
        ∷ env.show_value (lookup "value" args)
        ∷ [])
    else if tool_name == "resources_remove"
    then elim (present args "id") [
      | some id ↦ concat ("**REMOVE Resource**\n\nID: " ∷ env.show_value (some id) ∷ [])
      | none ↦ elim (present args "pattern") [
        | some pattern ↦ concat (
            "**REMOVE Resources**\n\nPattern: "
            ∷ env.show_value (some pattern)
            ∷ "\n\n⚠\u{fe0f} This will remove ALL resources matching this pattern!"
            ∷ [])
        | none ↦ concat ("**REMOVE Resource**\n\nArgs: " ∷ args_json ∷ [])
      ]
    ]
    else concat ("**" ∷ env.to_upper tool_name ∷ "**\n\nArgs: " ∷ args_json ∷ [])

-- The response that asks for an approval.
unfoldable pub approval_request : String → String → String
approval_request description uuid = concat (
    "This action requires approval:\n\n" ∷ description
    ∷ "\n\nPlease approve or reject using the approval UUID: " ∷ uuid ∷ [])
