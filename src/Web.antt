-- ===== src/Web.antt =====
-- cmd/web/session.go, and what the handlers of the front end are made of: actions on the cookies of
-- the response and on the history of what leaves the server. The database, the provider and the agent
-- answer as they like, depending on that history.
pub mod Oauth
pub mod Proxy
pub mod Config
pub mod Forwarding
pub mod Logins
pub mod Logouts
pub mod Tokens
use agent_stop_and_go.Prelude.{
  ℕ, ◌+◌, String, Bool, true, false, Option, none, some, List, [], ◌∷◌, nat_eq, ltb, ◌==◌,
  if◌then◌else◌,
}
use agent_stop_and_go.Mcp.{Error, errorf, wrap}
use agent_stop_and_go.Agent.Exec.{Exec, pure, throw, panics, reads, ◌>>=◌, try}
use agent_stop_and_go.Filesystem.{Checked, ok, err}
use agent_stop_and_go.Filesystem.Paths.{size}

-- A row of the table of sessions. Times are in seconds.
pub record Session : Type 0 where
  pub id : String
  pub access_token : String
  pub refresh_token : String
  pub token_expiry : ℕ
  pub created_at : ℕ
  pub updated_at : ℕ

-- IsExpired: now lies behind the expiry less the 60 seconds of tokenRefreshBuffer.
unfoldable pub is_expired : ℕ → Session → Bool
is_expired now sess = ltb sess.token_expiry (now + 60)

pub record Token : Type 0 where
  pub access_token : String
  pub refresh_token : String
  pub expiry : ℕ

pub record Cookie : Type 0 where
  pub name : String
  pub value : String
  -- none for MaxAge -1
  pub max_age : Option ℕ
  pub http_only : Bool
  pub secure : Bool

-- What leaves the server, with the statements of session.go.
pub data Event : Type 0 where
  inserts : Session → Event
  selects deletes : String → Event
  updates : (id access_token refresh_token : String) → (token_expiry updated_at : ℕ) → Event
  exchanges refreshes : String → Event
  revokes : (url token : String) → Event
  -- a request to the agent: method, URL, body, and the bearer token of its header
  asks : (method url : String) → (body bearer : Option String) → Event

pub record Reply : Type 0 where
  pub status : ℕ
  -- io.ReadAll of the body
  pub body : Checked String

pub record Outside : Type 0 where
  -- the error of a statement that changes the table
  pub executes : List Event → Option Error
  -- the row of an identifier, if there is one
  pub query_row : List Event → String → Checked (Option Session)
  pub now : List Event → ℕ
  -- 32 or 16 random bytes in hexadecimal digits
  pub random : List Event → Checked String
  pub exchange : List Event → String → Checked Token
  pub refresh : List Event → String → Checked Token
  pub revoke : List Event → Option Error
  -- http.NewRequestWithContext, by the method and the URL
  pub new_request : (method url : String) → Option Error
  pub agent : List Event → Checked Reply
  -- AuthCodeURL
  pub auth_code_url : String → String

pub record State : Type 0 where
  pub cookies : List Cookie
  pub events : List Event

-- What a request brings.
pub record Request : Type 0 where
  pub cookie : String → String
  pub query : String → String

abbrev pub session_cookie_name : String
session_cookie_name = "asg_session"

abbrev pub state_cookie_name : String
state_cookie_name = "asg_oauth_state"

abbrev pub Action : Type 0 → Type 0
Action A = Exec State A

unfoldable pub set_cookie : Cookie → Action Bool
unfolding pure
set_cookie c s = pure true (record s { cookies = c ∷ s.cookies })

-- The first eight and the last four characters of an identifier, as they are logged: slices that are
-- out of range for a shorter one.
unfoldable pub log_id : String → Action Bool
unfolding pure panics
log_id id = if ltb (size id) 8 then panics else pure true

module _ {A : Type 0} where
  -- An event and its answer.
  unfoldable pub does : Event → (List Event → Checked A) → Action A
  unfolding pure throw
  does e answer s =
      let after = record s { events = e ∷ s.events } in
      elim (answer s.events) [ ok a ↦ pure a after | err x ↦ throw x after ]

  -- An error that is only logged.
  unfoldable pub ignoring : Action A → Action Bool
  unfolding try pure
  ignoring m = try m (λ _. pure true) (λ _. pure true)

  -- return ..., fmt.Errorf("...: %w", err)
  unfoldable pub or_fail : String → Action A → Action A
  unfolding try pure throw
  or_fail what m = try m pure (λ e. throw (wrap what e))

unfoldable pub done_or : Option Error → Checked Bool
done_or none = ok true
done_or (some e) = err e

module _ (out : Outside) where
  unfoldable pub execute : Event → Action Bool
  unfolding does done_or
  execute e = does e (λ es. done_or (out.executes es))

  unfoldable pub random : Action String
  unfolding pure throw
  random s = elim (out.random s.events) [ ok id ↦ pure id s | err e ↦ throw e s ]

  -- Create: the identifier of the new session.
  unfoldable pub create : (access_token refresh_token : String) → (expiry : ℕ) → Action String
  unfolding or_fail random reads execute pure ◌>>=◌
  create access refresh expiry = do
    id ← or_fail "generate session id" random
    now ← reads (λ (s : State). out.now s.events)
    _ ← or_fail "insert session" (
        execute (
          inserts (record {
            id = id;
            access_token = access;
            refresh_token = refresh;
            token_expiry = expiry;
            created_at = now;
            updated_at = now;
          })))
    pure id

  -- Get
  unfoldable pub get : String → Action (Option Session)
  unfolding or_fail does
  get id = or_fail "query session" (does (selects id) (λ es. out.query_row es id))

  -- Update
  unfoldable pub update : (id access_token refresh_token : String) → (expiry : ℕ) → Action Bool
  unfolding or_fail reads execute ◌>>=◌
  update id access refresh expiry = reads (λ (s : State). out.now s.events) >>= λ now.
      or_fail "update session" (execute (updates id access refresh expiry now))

  -- Delete
  unfoldable pub delete : String → Action Bool
  unfolding or_fail execute
  delete id = or_fail "delete session" (execute (deletes id))
