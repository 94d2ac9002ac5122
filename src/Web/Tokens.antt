-- ===== src/Web/Tokens.antt =====
-- What a session of the front end is worth: the bearer token that goes to the agent.
use agent_stop_and_go.Prelude.{
  ◌≡◌, ◌⊎◌, refl, String, Bool, true, false, Option, none, some, ◌∷◌, ltb, ◌==◌, if◌then◌else◌,
}
use agent_stop_and_go.Mcp.{Error}
use agent_stop_and_go.Agent.Exec.{Result, ok, err, panic, pure, throw, try, handle}
use agent_stop_and_go.Filesystem.{Checked, ok, err}
use agent_stop_and_go.Filesystem.Paths.{size}
use agent_stop_and_go.Web.{
  Session, Token, Event, selects, deletes, updates, refreshes, Outside, State, is_expired, does,
  ignoring, or_fail, done_or, execute, get, delete,
}
use agent_stop_and_go.Web.Oauth.{found, refresh_token}

abbrev pub event : Event → State → State
event e s = record s { events = e ∷ s.events }

-- A statement whose error is only logged.
pub forgiven :
    (what : String) (e : Event) (o : Option Error) (s : State)
    → ignoring {A = Bool}
        (or_fail what
          (λ t. elim (done_or o) [ ok a ↦ pure a (event e t) | err x ↦ throw x (event e t) ]))
        s
      ≡ (ok true, event e s)
unfolding ignoring try or_fail done_or handle pure throw
forgiven what e none s = refl
forgiven what e (some x) s = refl

module _ (out : Outside) where
  pub ignoring-delete :
      (id : String) (s : State) → ignoring (delete out id) s ≡ (ok true, event (deletes id) s)
  unfolding ignoring try delete or_fail execute does
  ignoring-delete id s = forgiven "delete session" (deletes id) (out.executes s.events) s

  -- The row of an identifier, where the table gives one.
  row_of : Checked (Option Session) → Option Session
  row_of (ok r) = r
  row_of (err e) = none

  pub row : String → State → Option Session
  unfolding row_of
  row id s = row_of (out.query_row s.events id)

  module _ (secure : Bool) (revoke_url : String) where
    found_row :
        (r : Checked (Option Session)) (e : Event) (s : State)
        → try
            (or_fail "query session"
              (λ t. elim r [ ok a ↦ pure a (event e t) | err x ↦ throw x (event e t) ]))
            pure
            (λ _. pure none)
            s
          ≡ (ok (row_of r), event e s)
    unfolding try or_fail row_of handle pure throw
    found_row (ok r) e s = refl
    found_row (err x) e s = refl

    pub found_lem :
        (id : String) (s : State)
        → found out secure revoke_url id s ≡ (ok (row id s), event (selects id) s)
    unfolding found get row or_fail does try
    found_lem id s = found_row (out.query_row s.events id) (selects id) s

-- The state behind the request for a new token.
abbrev asked : String → Session → State → State
asked id sess s = event (refreshes sess.refresh_token) (event (selects id) s)

-- The statement that keeps a new token, with the old refresh token where there is no new one.
abbrev renewal : Outside → String → Session → Token → State → Event
renewal out id sess token s =
    updates id token.access_token
      (if token.refresh_token == "" then sess.refresh_token else token.refresh_token) token.expiry
      (out.now s.events)

-- Where the token that goes to the agent comes from. `s` is the state before, `after` the one behind.
pub data TokenFor (out : Outside) (id : String) (s : State) (t : String) (after : State)
    : Type 0 where
  -- there is no session: the request goes without a token
  signed_out : ((id == "") ≡ true) ⊎ (row out id s ≡ none) → t ≡ "" → TokenFor out id s t after
  -- the token of the table, where it is good for another minute
  stored :
      (sess : Session)
      → row out id s ≡ some sess
      → is_expired (out.now (selects id ∷ s.events)) sess ≡ false
      → t ≡ sess.access_token
      → after ≡ event (selects id) s
      → TokenFor out id s t after
  -- a new one, for the refresh token of the table
  renewed :
      (sess : Session) (token : Token)
      → row out id s ≡ some sess
      → is_expired (out.now (selects id ∷ s.events)) sess ≡ true
      → (sess.refresh_token == "") ≡ false
      → out.refresh (selects id ∷ s.events) sess.refresh_token ≡ ok token
      → t ≡ token.access_token
      → after ≡ event (renewal out id sess token (asked id sess s)) (asked id sess s)
      → TokenFor out id s t after
  -- none, without a refresh token, and the session is deleted
  ended :
      (sess : Session)
      → row out id s ≡ some sess
      → is_expired (out.now (selects id ∷ s.events)) sess ≡ true
      → (sess.refresh_token == "") ≡ true
      → t ≡ ""
      → after ≡ event (deletes id) (event (selects id) s)
      → TokenFor out id s t after
  -- none, where the provider refuses the refresh token, and the session is deleted
  refused :
      (sess : Session) (e : Error)
      → row out id s ≡ some sess
      → is_expired (out.now (selects id ∷ s.events)) sess ≡ true
      → (sess.refresh_token == "") ≡ false
      → out.refresh (selects id ∷ s.events) sess.refresh_token ≡ err e
      → t ≡ ""
      → after ≡ event (deletes id) (asked id sess s)
      → TokenFor out id s t after

-- An outcome of GetBearerToken, which has no error: a token, or a panic on a slice of a short identifier.
abbrev pub IsToken : Outside → String → State → Result String × State → Type 0
IsToken out id s (ok t, after) = TokenFor out id s t after
IsToken out id s (err e, after) = false ≡ true
IsToken out id s (panic, after) = ltb (size id) 8 ≡ true
