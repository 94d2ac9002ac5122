-- ===== src/Tests/Fronts.antt =====
-- The theorems on the front end, at a provider and an agent that always answer.
use agent_stop_and_go.Prelude.{refl, true, none, some, [], ◌∷◌, ◌==◌, if◌then◌else◌}
use agent_stop_and_go.Agent.Exec.{ok}
use agent_stop_and_go.Filesystem.{ok}
use agent_stop_and_go.Web.{
  Session, inserts, exchanges, selects, asks, Outside, State, Request, session_cookie_name,
  state_cookie_name, random,
}
use agent_stop_and_go.Web.Oauth.{cleared, kept, exchange, logout_handler}
use agent_stop_and_go.Web.Proxy.{Encoder, SendBody}
use agent_stop_and_go.Web.Logouts.{IsLoggedOut, logout_handler-IsLoggedOut}

abbrev kept_session : Session
kept_session = record {
  id = "0123456789abcdef";
  access_token = "secret";
  refresh_token = "again";
  token_expiry = 1000;
  created_at = 100;
  updated_at = 100;
}

abbrev provider : Outside
provider = record {
  executes = λ _. none;
  query_row = λ _ _. ok (some kept_session);
  now = λ _. 500;
  random = λ _. ok "0123456789abcdef";
  exchange = λ _ _. ok (record { access_token = "secret"; refresh_token = "again"; expiry = 1000 });
  refresh = λ _ _. ok (record { access_token = "fresh"; refresh_token = ""; expiry = 9000 });
  revoke = λ _. none;
  auth_code_url = λ s. s;
  new_request = λ _ _. none;
  agent = λ _. ok (record { status = 201; body = ok "{}" });
}

abbrev browser : Request
browser = record {
  cookie = λ name. if name == session_cookie_name then "0123456789abcdef" else "fedcba";
  query = λ key. if key == "state" then "fedcba" else if key == "code" then "4/abc" else "";
}

abbrev quiet : State
quiet = record { cookies = []; events = [] }

logout_handler-IsLoggedOut_example :
    IsLoggedOut provider "" "0123456789abcdef" quiet (logout_handler provider true "" browser quiet)
logout_handler-IsLoggedOut_example = logout_handler-IsLoggedOut provider true "" browser quiet refl

abbrev entered : State
entered = record {
  cookies =
      kept session_cookie_name "0123456789abcdef" 2592000 true ∷ cleared state_cookie_name ∷ [];
  events =
      inserts (record kept_session { created_at = 500; updated_at = 500 }) ∷ exchanges "4/abc" ∷ [];
}

abbrev encoder : Encoder
encoder = record { message = λ m. ok m; approved = λ b. ok "{}" }

abbrev greeting : SendBody
greeting = record { message = "hello"; conversation_id = "" }

abbrev forwarded : State
forwarded = record {
  cookies = [];
  events =
      asks "POST" "http://agent/conversations" (some "hello") (some "Bearer secret")
      ∷ selects "0123456789abcdef"
      ∷ [];
}
