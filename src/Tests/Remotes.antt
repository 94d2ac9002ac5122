-- ===== src/Tests/Remotes.antt =====
-- The theorem on the client of another agent, at a context with a token only.
use agent_stop_and_go.Prelude.{none, []}
use agent_stop_and_go.Filesystem.{ok}
use agent_stop_and_go.A2a.Calls.{
  Net, State, send_message, continue_task, get_task, fetch_agent_card,
}
use agent_stop_and_go.A2a.Calls.Headers.{Bears, calls_carry_context}

abbrev peer : Net
peer = record {
  marshal = λ r. ok "{}";
  new_request = λ m u. none;
  do_request = λ sent. ok (record { status = 200; body = ok "{}" });
  response = λ t. ok (record { result = none; error = none });
  task = λ t. ok (record { id = "1"; state = "completed"; message = none; artifact = none });
  card = λ t. ok (record { name = "helper"; description = ""; url = ""; skills = [] });
  decimal = λ n. "200";
}

abbrev idle : State
idle = record { next_id = 1; sent = [] }

calls_carry_context_example :
    Bears "secret" "" idle (send_message peer "http://helper" "secret" "" "hello" idle).1
    × Bears "secret" "" idle (continue_task peer "http://helper" "secret" "" "7" "hello" idle).1
    × Bears "secret" "" idle (get_task peer "http://helper" "secret" "" "7" idle).1
    × Bears "secret" "" idle (fetch_agent_card peer "http://helper" "secret" "" idle).1
calls_carry_context_example = calls_carry_context "secret" "" peer "http://helper" idle "hello" "7"
