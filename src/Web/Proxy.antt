-- ===== src/Web/Proxy.antt =====
-- The proxy of cmd/web/main.go: how the front end passes requests on to the REST API of the agent.
use agent_stop_and_go.Prelude.{
  String, Bool, Option, none, some, [], ◌∷◌, ◌==◌, if◌then◌else◌, concat, ℕ, nat_eq, ◌&&◌,
}
use Prim.Native.Char.{code}
use agent_stop_and_go.Mcp.{Error}
use agent_stop_and_go.Agent.Exec.{ok, err, pure, throw, ◌>>=◌, try}
use agent_stop_and_go.Filesystem.{Checked, ok, err}
use agent_stop_and_go.Web.{asks, Reply, Outside, Request, Action, does, session_cookie_name}
use agent_stop_and_go.Web.Oauth.{get_bearer_token}

-- What a handler of the proxy answers: an error of its own, or what the agent answered.
pub data Answer : Type 0 where
  fails : (status : ℕ) → (error : String) → Answer
  passes : (status : ℕ) → (body : String) → Answer

-- strings.TrimRight(s, "/")
unfoldable pub trim_right_slashes : String → String
trim_right_slashes String.[] = ""
trim_right_slashes (String.◌∷◌ c s) =
    let rest = trim_right_slashes s in
    if nat_eq (code c) b'/' && rest == "" then "" else String.◌∷◌ c rest

-- The bodies of the requests to the front end.
pub record SendBody : Type 0 where
  pub message : String
  pub conversation_id : String

pub record ApproveBody : Type 0 where
  pub uuid : String
  pub approved : Bool

-- json.Marshal of the bodies to the agent
pub record Encoder : Type 0 where
  pub message : String → Checked String
  pub approved : Bool → Checked String

-- The Authorization header for a token.
unfoldable pub bearer : String → Option String
bearer token = if token == "" then none else some (concat ("Bearer " ∷ token ∷ []))

-- `oauth` says whether there is an OAuthHandler, `secure` and `revoke_url` are its fields.
module _ (out : Outside) (oauth secure : Bool) (revoke_url : String) (req : Request) where
  -- getBearerToken of main
  unfoldable pub token : Action String
  unfolding get_bearer_token pure
  token =
      if oauth
      then get_bearer_token out secure revoke_url (req.cookie session_cookie_name)
      else pure ""

  -- proxyRequest, behind the test of the method and the URL. A body goes as application/json.
  unfoldable pub requested : (method url : String) → Option String → Option Error → Action Reply
  unfolding token bearer does throw ◌>>=◌
  requested method url body (some e) = throw e
  requested method url body none =
      token >>= λ t. does (asks method url body (bearer t)) (λ es. out.agent es)

  unfoldable pub proxy_request : (method url : String) → Option String → Action Reply
  unfolding requested
  proxy_request method url body = requested method url body (out.new_request method url)

  unfoldable pub read_body : ℕ → Checked String → Action Answer
  unfolding pure concat
  read_body status (ok text) = pure (passes status text)
  read_body status (err e) = pure (fails 502 (concat ("failed to read response: " ∷ e.text ∷ [])))

  -- What the three handlers do with the request to the agent.
  unfoldable pub forward : (method url : String) → Option String → Action Answer
  unfolding try proxy_request read_body pure
  forward method url body =
      try (proxy_request method url body) (λ reply. read_body reply.status reply.body)
        (λ e. pure (fails 502 e.text))

  unfoldable pub post : String → Checked String → Action Answer
  unfolding forward pure concat
  post url (ok body) = forward "POST" url (some body)
  post url (err e) = pure (fails 500 (concat ("failed to marshal request: " ∷ e.text ∷ [])))

  module _ (agent_url : String) (encode : Encoder) where
    unfoldable pub send_url : String → String
    unfolding trim_right_slashes concat
    send_url conversation_id =
        if conversation_id == ""
        then concat (trim_right_slashes agent_url ∷ "/conversations" ∷ [])
        else concat
            (trim_right_slashes agent_url ∷ "/conversations/" ∷ conversation_id ∷ "/messages" ∷ [])

    -- POST /api/send, whose body may not parse
    unfoldable pub send : Checked SendBody → Action Answer
    unfolding post send_url pure
    send (err e) = pure (fails 400 "invalid request")
    send (ok body) =
        if body.message == ""
        then pure (fails 400 "message is required")
        else post (send_url body.conversation_id) (encode.message body.message)

    -- POST /api/approve
    unfoldable pub approve : Checked ApproveBody → Action Answer
    unfolding post trim_right_slashes concat pure
    approve (err e) = pure (fails 400 "invalid request")
    approve (ok body) =
        if body.uuid == ""
        then pure (fails 400 "uuid is required")
        else post (concat (trim_right_slashes agent_url ∷ "/approvals/" ∷ body.uuid ∷ []))
            (encode.approved body.approved)

    -- GET /api/conversation/:id
    unfoldable pub conversation : String → Action Answer
    unfolding forward trim_right_slashes concat
    conversation conv_id =
        forward "GET" (concat (trim_right_slashes agent_url ∷ "/conversations/" ∷ conv_id ∷ []))
          none
