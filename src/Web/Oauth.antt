-- ===== src/Web/Oauth.antt =====
-- cmd/web/oauth.go: the handlers of the login, and the token that goes to the agent.
use agent_stop_and_go.Prelude.{
  ℕ, String, Bool, true, false, not, ◌||◌, ◌&&◌, has_prefix, Option, none, some, [], ◌∷◌, ◌==◌,
  if◌then◌else◌, concat,
}
use agent_stop_and_go.Agent.Exec.{pure, reads, ◌>>=◌, try, when_some}
use agent_stop_and_go.Web.{
  Session, Token, Cookie, exchanges, refreshes, revokes, Outside, State, Request, Action,
  is_expired, set_cookie, log_id, does, done_or, ignoring, random, create, get, update, delete,
  session_cookie_name, state_cookie_name,
}

-- The secure flag of NewOAuthHandler.
unfoldable pub secure_for : String → Bool
unfolding has_prefix
secure_for host =
    not (has_prefix "localhost" host)
    && not (has_prefix "127.0.0.1" host)
    && not (host == "0.0.0.0")

-- What a handler answers.
pub data Response : Type 0 where
  sends : (status : ℕ) → String → Response
  redirects : String → Response
  authenticated : Bool → Response

abbrev try_again : String
try_again = " <a href='/login'>Try again</a>"

-- The cookie that clears another one.
abbrev pub cleared : String → Cookie
cleared name = record { name = name; value = ""; max_age = none; http_only = false; secure = false }

abbrev pub kept : String → String → ℕ → Bool → Cookie
kept name value max_age secure = record {
  name = name;
  value = value;
  max_age = some max_age;
  http_only = true;
  secure = secure;
}

-- `secure` is h.secure and `revoke_url` h.revoke.
module _ (out : Outside) (secure : Bool) (revoke_url : String) where
  abbrev try_again_with : ℕ → String → Action Response
  try_again_with status text = pure (sends status (concat (text ∷ try_again ∷ [])))

  unfoldable pub login_handler : Action Response
  unfolding try random set_cookie pure ◌>>=◌
  login_handler =
      try (random out)
        (λ state. set_cookie (kept state_cookie_name state 300 secure) >>= λ _.
          pure (redirects (out.auth_code_url state)))
        (λ _. pure (sends 500 "Internal server error"))

  unfoldable pub exchange : String → Action Token
  unfolding does
  exchange code = does (exchanges code) (λ es. out.exchange es code)

  -- What callbackHandler does with the token.
  unfoldable pub open_session : Token → Action Response
  unfolding try create set_cookie log_id pure ◌>>=◌ concat
  open_session token =
      try (create out token.access_token token.refresh_token token.expiry)
        (λ id. do
          _ ← set_cookie (kept session_cookie_name id 2592000 secure)
          _ ← log_id id
          pure (redirects "/"))
        (λ _. try_again_with 500 "Failed to create session.")

  -- callbackHandler behind the test of the state.
  unfoldable pub accepted : Request → Action Response
  unfolding set_cookie exchange try open_session pure ◌>>=◌ concat
  accepted req = do
    _ ← set_cookie (cleared state_cookie_name)
    if not (req.query "error" == "")
        then try_again_with 400
            (concat ("Authorization failed: " ∷ req.query "error_description" ∷ "." ∷ []))
        else if req.query "code" == ""
        then try_again_with 400 "Missing authorization code."
        else try (exchange (req.query "code")) open_session
            (λ _. try_again_with 500 "Token exchange failed.")

  unfoldable pub callback_handler : Request → Action Response
  unfolding accepted pure concat
  callback_handler req =
      let expected = req.cookie state_cookie_name in
      if (expected == "") || not (req.query "state" == expected)
      then try_again_with 400 "Invalid state parameter."
      else accepted req

  -- revokeToken, where the provider has a URL for it
  unfoldable pub revoke : Session → Action Bool
  unfolding pure ignoring does done_or
  revoke sess =
      if revoke_url == ""
      then pure true
      else ignoring (does (revokes revoke_url sess.access_token) (λ es. done_or (out.revoke es)))

  -- The session of an identifier; an error counts as none.
  unfoldable pub found : String → Action (Option Session)
  unfolding try get pure
  found id = try (get out id) pure (λ _. pure none)

  unfoldable pub logout_handler : Request → Action Response
  unfolding found when_some revoke ignoring delete set_cookie log_id pure ◌>>=◌
  logout_handler req =
      let id = req.cookie session_cookie_name in
      if id == "" then pure (redirects "/") else do
        sess ← found id
        _ ← when_some sess revoke (pure true)
        _ ← ignoring (delete out id)
        _ ← set_cookie (cleared session_cookie_name)
        _ ← log_id id
        pure (redirects "/")

  unfoldable pub session_handler : Request → Action Response
  unfolding found when_some pure ◌>>=◌
  session_handler req =
      let id = req.cookie session_cookie_name in
      if id == ""
      then pure (authenticated false)
      else found id >>= λ sess.
          when_some sess (λ _. pure (authenticated true)) (pure (authenticated false))

  -- refreshToken
  unfoldable pub refresh_token : String → Action Token
  unfolding does
  refresh_token token = does (refreshes token) (λ es. out.refresh es token)

  -- A session that cannot be refreshed is deleted.
  unfoldable pub give_up : String → Action String
  unfolding log_id ignoring delete pure ◌>>=◌
  give_up id = do _ ← log_id id; _ ← ignoring (delete out id); pure ""

  unfoldable pub store_token : String → Session → Token → Action String
  unfolding ignoring update log_id pure ◌>>=◌
  store_token id sess token = do
    _ ← ignoring (
        update out id token.access_token
          (if token.refresh_token == "" then sess.refresh_token else token.refresh_token)
          token.expiry)
    _ ← log_id id
    pure token.access_token

  -- GetBearerToken of a session that is found.
  unfoldable pub token_of : String → Session → Action String
  unfolding is_expired give_up try refresh_token store_token pure reads ◌>>=◌
  token_of id sess = reads (λ (s : State). out.now s.events) >>= λ now.
      if not (is_expired now sess)
      then pure sess.access_token
      else if sess.refresh_token == ""
      then give_up id
      else try (refresh_token sess.refresh_token) (store_token id sess) (λ _. give_up id)

  unfoldable pub get_bearer_token : String → Action String
  unfolding found when_some token_of pure ◌>>=◌
  get_bearer_token id =
      if id == "" then pure "" else found id >>= λ sess. when_some sess (token_of id) (pure "")

  unfoldable pub clear_session : Request → Action Bool
  unfolding ignoring delete set_cookie pure ◌>>=◌
  clear_session req =
      let id = req.cookie session_cookie_name in
      if id == ""
      then pure true
      else ignoring (delete out id) >>= λ _. set_cookie (cleared session_cookie_name)
