-- ===== src/A2a/Calls.antt =====
-- internal/a2a/client.go: the calls of a client as actions on its counter and on the requests it sent.
-- The other agent answers as it likes, depending on those requests.
pub mod Headers
use agent_stop_and_go.Prelude.{
  ℕ, ◌+◌, nat_eq, String, Bool, true, false, Option, none, some, List, [], ◌∷◌, Assoc, insert, ◌==◌,
  if◌then◌else◌, concat,
}
use agent_stop_and_go.Mcp.{Error, errorf, wrap}
use agent_stop_and_go.Filesystem.{Checked, ok, err}
use agent_stop_and_go.Agent.Exec.{Exec, ok, err, pure, throw, ◌>>=◌}
use agent_stop_and_go.A2a.{Part, Task}

pub record Skill : Type 0 where
  pub id : String
  pub name : String
  pub description : String

pub record AgentCard : Type 0 where
  pub name : String
  pub description : String
  pub url : String
  pub skills : List Skill

pub record Message : Type 0 where
  pub role : String
  pub parts : List Part

-- The parameters of the two methods.
pub data Params : Type 0 where
  message_send : (task_id : String) → Message → Params
  task_get : (id : String) → Params

pub record RpcRequest : Type 0 where
  pub id : ℕ
  pub method : String
  pub params : Params

pub record RpcError : Type 0 where
  -- as %d prints it
  pub code : String
  pub message : String

pub record RpcResponse : Type 0 where
  -- as it was sent, none if it is missing
  pub result : Option String
  pub error : Option RpcError

pub record HttpRequest : Type 0 where
  pub method : String
  pub url : String
  pub headers : Assoc String
  pub body : Option String

pub record HttpReply : Type 0 where
  pub status : ℕ
  -- io.ReadAll of the body
  pub body : Checked String

-- encoding/json, net/http and the other agent
pub record Net : Type 0 where
  pub marshal : RpcRequest → Checked String
  pub new_request : (method url : String) → Option Error
  pub do_request : List HttpRequest → Checked HttpReply
  pub response : String → Checked RpcResponse
  pub task : String → Checked Task
  pub card : String → Checked AgentCard
  -- %d
  pub decimal : ℕ → String

pub record State : Type 0 where
  pub next_id : ℕ
  -- the last one first
  pub sent : List HttpRequest

abbrev pub Action : Type 0 → Type 0
Action A = Exec State A

abbrev zero_task : Task
zero_task = record { id = ""; state = ""; message = none; artifact = none }

-- `if token != "" { Header.Set(...) }`
unfoldable pub set_unless_blank : (name value shown : String) → Assoc String → Assoc String
unfolding insert
set_unless_blank name value shown headers =
    if value == "" then headers else insert name shown headers

-- `url` is the client's, `bearer_token` and `session_id` are those of the context.
module _ (net : Net) (url bearer_token session_id : String) where
  unfoldable pub with_credentials : Assoc String → Assoc String
  unfolding set_unless_blank concat
  with_credentials headers = set_unless_blank "X-Session-ID" session_id session_id (
      set_unless_blank "Authorization" bearer_token (concat ("Bearer " ∷ bearer_token ∷ []))
        headers)

  module _ {A : Type 0} where
    unfoldable pub or_fail : String → Checked A → Action A
    unfolding pure throw
    or_fail what (ok a) = pure a
    or_fail what (err e) = throw (wrap what e)

  unfoldable pub do_request : String → HttpRequest → Action HttpReply
  unfolding or_fail
  do_request what req s =
      or_fail what (net.do_request (req ∷ s.sent)) (record s { sent = req ∷ s.sent })

  unfoldable pub created : String → Option Error → Action Bool
  unfolding pure throw
  created what none = pure true
  created what (some e) = throw (wrap what e)

  -- A missing result leaves the zero value.
  unfoldable pub task_of : Option String → Action Task
  unfolding or_fail pure
  task_of none = pure zero_task
  task_of (some raw) = or_fail "failed to unmarshal A2A result" (net.task raw)

  unfoldable pub result_of : Option RpcError → Option String → Action Task
  unfolding task_of throw
  result_of none result = task_of result
  result_of (some e) result = throw (errorf ("A2A error " ∷ e.code ∷ ": " ∷ e.message ∷ []))

  -- c.nextID++, as long as the counter is below the largest int
  unfoldable pub next : Action ℕ
  next s = pure s.next_id (record s { next_id = s.next_id + 1 })

  unfoldable pub call : String → Params → Action Task
  unfolding next or_fail created with_credentials do_request result_of insert ◌>>=◌
  call method params = do
    id ← next
    body ←
        or_fail "failed to marshal A2A request"
          (net.marshal (record { id = id; method = method; params = params }))
    _ ← created "failed to create A2A request" (net.new_request "POST" url)
    reply ← do_request "failed to send A2A request" (record {
      method = "POST";
      url = url;
      headers = with_credentials (("Content-Type", "application/json") ∷ []);
      body = some body;
    })
    text ← or_fail "failed to read A2A response" reply.body
    resp ← or_fail "failed to parse A2A response" (net.response text)
    result_of resp.error resp.result

  abbrev spoken : String → Message
  spoken message = record { role = "user"; parts = record { type = "text"; text = message } ∷ [] }

  unfoldable pub send_message : String → Action Task
  unfolding call
  send_message message = call "message/send" (message_send "" (spoken message))

  unfoldable pub get_task : String → Action Task
  unfolding call
  get_task task_id = call "tasks/get" (task_get task_id)

  unfoldable pub continue_task : (task_id message : String) → Action Task
  unfolding call
  continue_task task_id message = call "message/send" (message_send task_id (spoken message))

  unfoldable pub checked_card : HttpReply → String → Action AgentCard
  unfolding or_fail throw
  checked_card reply body =
      if nat_eq reply.status 200
      then or_fail "failed to parse agent card" (net.card body)
      else throw (
          errorf (
            "agent card request failed with status " ∷ net.decimal reply.status ∷ ": " ∷ body ∷ []))

  unfoldable pub fetch_agent_card : Action AgentCard
  unfolding created with_credentials do_request or_fail checked_card ◌>>=◌ concat
  fetch_agent_card = do
    _ ←
        created "failed to create agent card request"
          (net.new_request "GET" (concat (url ∷ "/.well-known/agent.json" ∷ [])))
    reply ← do_request "failed to fetch agent card" (record {
      method = "GET";
      url = concat (url ∷ "/.well-known/agent.json" ∷ []);
      headers = with_credentials [];
      body = none;
    })
    body ← or_fail "failed to read agent card response" reply.body
    checked_card reply body
