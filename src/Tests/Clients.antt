-- ===== src/Tests/Clients.antt =====
-- The theorems on the clients of MCP servers, at servers that answer little.
use agent_stop_and_go.Prelude.{
  ◌<◌, All, arith, ◌≡◌, refl, inl, nat_eq, if◌then◌else◌, true, none, some, [], ◌∷◌,
}
use agent_stop_and_go.Mcp.{errorf}
use agent_stop_and_go.Filesystem.{ok, err}
use agent_stop_and_go.Mcp.Stdio.{
  Use, start_locked, handshake, stop_with, stop, locking, unlocked, tools, call_tool, Process,
  blocked, new_stdio_client, start, launched, initialize, use_or_fail, does, done, try, go_on,
  ◌>>=◌, pure, throw, set_stdin, set_started, call, send, unless_error, write_line, receive, next,
}
use agent_stop_and_go.Mcp.Http.{Link, new_http_client, SdkTool}
use agent_stop_and_go.Mcp.Http
use agent_stop_and_go.Mcp.Http.Connections
use agent_stop_and_go.Mcp.Http.Connections.{IsTidy, connections-IsTidy}
use agent_stop_and_go.Mcp.Http.Retries.{Tried, tries, rests, start_retries}
use agent_stop_and_go.Mcp.Stdio.Starting.{AllBlocked}
use agent_stop_and_go.Mcp.Stdio.Refusing.{refused_start_blocks}
use agent_stop_and_go.Mcp.Stdio.Requests.{IsNumbered, id_of}
use agent_stop_and_go.Filesystem.Patch.{int_limit}
use agent_stop_and_go.Mcp.Stdio.Sessions.{session, after, lists, starts, calls, request_ids_ascend}

-- A process that starts, and closes its output.
abbrev silent : Process
silent = record {
  fails = λ _ _. none;
  reads = λ _. err (errorf ("EOF" ∷ []));
  marshal_error = λ _. none;
  decode_initialize = λ _. ok true;
  decode_tools = λ _. ok [];
  decode_result = λ _. ok (record { content = []; is_error = true });
  no_result = record { content = []; is_error = true };
}

refused_start_blocks_example :
    ((start silent new_stdio_client).0 ≡ blocked)
    × AllBlocked silent (start silent new_stdio_client).1
unfolding launched initialize use_or_fail does done try go_on ◌>>=◌ pure throw set_stdin set_started
refused_start_blocks_example =
    refused_start_blocks silent new_stdio_client true refl refl refl
      (unfold call send unless_error write_line receive next in inl (errorf ("EOF" ∷ []), refl))

request_ids_ascend_example :
    IsNumbered (session silent (calls "list" [] ∷ lists ∷ starts ∷ []))
    × All
        (λ (u : Use). id_of u < int_limit)
        (session silent (calls "list" [] ∷ lists ∷ starts ∷ [])).uses
unfolding session after launched initialize use_or_fail does done try go_on ◌>>=◌ pure throw
    set_stdin set_started start start_locked handshake stop_with stop locking unlocked tools
    call_tool call send unless_error write_line receive next
request_ids_ascend_example =
    request_ids_ascend silent (calls "list" [] ∷ lists ∷ starts ∷ []) (omega arith)

-- A server that answers the second attempt.
abbrev late : Link
late = record {
  transport = λ _. none;
  greet = λ es. if nat_eq (tries es) 1 then some (errorf ("refused" ∷ [])) else none;
  list_tools = λ _. ok [];
  close = λ _. none;
  call = λ _. err (errorf ("status 401" ∷ []));
}

start_retries_example : Tried 20 0 0 (Http.start late (new_http_client "http://tools"))
unfolding tries rests
start_retries_example = start_retries late (new_http_client "http://tools") refl

connections-IsTidy_example :
    IsTidy (Connections.session late "http://tools" (Connections.stops ∷ Connections.starts ∷ []))
connections-IsTidy_example =
    connections-IsTidy late "http://tools" (Connections.stops ∷ Connections.starts ∷ [])
