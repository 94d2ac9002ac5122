-- ===== src/Web/Logins.antt =====
-- What the callback of the provider does to the sessions and to the cookies.
use agent_stop_and_go.Prelude.{ℕ, ◌≡◌, String, Bool, true, false, [], ◌∷◌, ◌==◌, concat}
use agent_stop_and_go.Mcp.{Error}
use agent_stop_and_go.Agent.Exec.{Result, ok, err, panic, pure, reads, ◌>>=◌}
use agent_stop_and_go.Filesystem.{ok, err}
use agent_stop_and_go.Web.{
  Token, Event, inserts, exchanges, Outside, State, Request, Action, set_cookie, log_id, or_fail,
  execute, session_cookie_name, state_cookie_name,
}
use agent_stop_and_go.Web.Oauth.{Response, sends, redirects, authenticated, cleared, kept, exchange}

-- What a login leaves behind: `s` is the state before, `after` the one behind.
pub record IsLoggedIn (out : Outside) (secure : Bool) (req : Request) (s after : State)
    : Type 0 where
  -- the state of the query is that of the cookie, which is not blank
  pub guarded : (req.cookie state_cookie_name == "") ≡ false
  pub matched : (req.query "state" == req.cookie state_cookie_name) ≡ true
  pub token : Token
  pub exchanged : out.exchange s.events (req.query "code") ≡ ok token
  pub id : String
  pub created_at : ℕ
  -- the token is kept under the identifier in the cookie
  pub stored :
      after.events
      ≡ inserts (record {
        id = id;
        access_token = token.access_token;
        refresh_token = token.refresh_token;
        token_expiry = token.expiry;
        created_at = created_at;
        updated_at = created_at;
      })
        ∷ exchanges (req.query "code")
        ∷ s.events
  pub handed :
      after.cookies
      ≡ kept session_cookie_name id 2592000 secure ∷ cleared state_cookie_name ∷ s.cookies

module _ (out : Outside) (secure : Bool) (url : String) (req : Request) (s : State) where
  abbrev Redirected : Result Response × State → Type 0
  Redirected (ok (redirects u), after) = IsLoggedIn out secure req s after
  Redirected (ok (sends c t), after) = Unit
  Redirected (ok (authenticated b), after) = Unit
  Redirected (err e, after) = Unit
  Redirected (panic, after) = Unit

  -- The state in which the callback creates the session.
  abbrev at_exchange : State
  at_exchange = record {
    cookies = cleared state_cookie_name ∷ s.cookies;
    events = exchanges (req.query "code") ∷ s.events;
  }

  abbrev handing : String → Action Response
  handing id = do
    _ ← set_cookie (kept session_cookie_name id 2592000 secure)
    _ ← log_id id
    pure (redirects "/")

  module _ (g : (req.cookie state_cookie_name == "") ≡ false)
      (m : (req.query "state" == req.cookie state_cookie_name) ≡ true) where
    insertion : Token → String → Event
    insertion token id = inserts (record {
      id = id;
      access_token = token.access_token;
      refresh_token = token.refresh_token;
      token_expiry = token.expiry;
      created_at = out.now at_exchange.events;
      updated_at = out.now at_exchange.events;
    })

    abbrev not_created : Error → Action Response
    not_created e =
        pure (
          sends 500 (concat ("Failed to create session." ∷ " <a href='/login'>Try again</a>" ∷ [])))

    -- Create behind the new identifier.
    recording : Token → String → Action String
    unfolding reads ◌>>=◌ execute or_fail
    recording token id = do
      now ← reads (λ (t : State). out.now t.events)
      _ ← or_fail "insert session" (
          execute out (
            inserts (record {
              id = id;
              access_token = token.access_token;
              refresh_token = token.refresh_token;
              token_expiry = token.expiry;
              created_at = now;
              updated_at = now;
            })))
      pure id
