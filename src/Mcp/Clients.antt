-- ===== src/Mcp/Clients.antt =====
-- NewClient of internal/mcp/client.go, and the client without a server.
use agent_stop_and_go.Prelude.{String, not, List, [], ◌∷◌, ◌==◌, if◌then◌else◌}
use agent_stop_and_go.Json.{Args}
use agent_stop_and_go.Mcp.{CallToolResult, errorf}
use agent_stop_and_go.Filesystem.{Checked, err}

pub record ClientConfig : Type 0 where
  pub url : String
  pub command : String
  pub args : List String

-- What NewClient makes, with the arguments of its constructor.
pub data Client : Type 0 where
  http : (url : String) → Client
  stdio : (command : String) → (args : List String) → Client
  nop : Client

unfoldable new_client : ClientConfig → Client
new_client cfg =
    if not (cfg.url == "")
    then http cfg.url
    else if not (cfg.command == "")
    then stdio cfg.command cfg.args
    else nop

-- CallTool of a NopClient, whose other methods return their zero values.
unfoldable no_call_tool : String → Args → Checked CallToolResult
no_call_tool name args = err (errorf ("no MCP server configured" ∷ []))
