-- ===== src/Web/Forwarding.antt =====
-- What the proxy of the front end makes of a request.
use agent_stop_and_go.Prelude.{ℕ, String, Bool, true, false, Option, none, some, ◌∷◌, ◌≡◌}
use agent_stop_and_go.Mcp.{Error}
use agent_stop_and_go.Agent.Exec.{Result, ok, err, panic, pure}
use agent_stop_and_go.Filesystem.{ok, err}
use agent_stop_and_go.Web.{asks, Reply, Outside, State, Request, Action}
use agent_stop_and_go.Web.Proxy.{
  Answer, fails, passes, bearer, token, read_body, SendBody, Encoder, send_url,
}

module _ (out : Outside) (oauth secure : Bool) (revoke_url : String) (req : Request)
    (s : State) where
  -- The answer (status, text) of the proxy is that of the agent to one request, which bears the token of
  -- the session.
  pub record IsForwarded (method url : String) (body : Option String) (status : ℕ) (text : String)
      (after : State) : Type 0 where
    pub credential : String
    pub between : State
    pub given : token out oauth secure revoke_url req s ≡ (ok credential, between)
    pub accepted : out.new_request method url ≡ none
    pub asked : after.events ≡ asks method url body (bearer credential) ∷ between.events
    pub reply : Reply
    pub answered : out.agent between.events ≡ ok reply
    pub same_status : reply.status ≡ status
    pub same_body : reply.body ≡ ok text

  module _ (method url : String) (body : Option String) where
    abbrev Passed : Result Answer × State → Type 0
    Passed (ok (passes status text), after) = IsForwarded method url body status text after
    Passed (ok (fails status text), after) = Unit
    Passed (err e, after) = false ≡ true
    Passed (panic, after) = Unit

    abbrev bad_gateway : Error → Action Answer
    bad_gateway e = pure (fails 502 e.text)

    abbrev reading : Reply → Action Answer
    reading reply = read_body out oauth secure revoke_url req reply.status reply.body

  module _ (agent_url : String) (encode : Encoder) (body : SendBody) where
    abbrev target : String
    target = send_url out oauth secure revoke_url req agent_url encode body.conversation_id

    abbrev Sent : Result Answer × State → Type 0
    Sent (ok (passes status text), after) =
        (encoded : String) × (encode.message body.message ≡ ok encoded)
        × IsForwarded "POST" target (some encoded) status text after
    Sent (ok (fails status text), after) = Unit
    Sent (err e, after) = Unit
    Sent (panic, after) = Unit
