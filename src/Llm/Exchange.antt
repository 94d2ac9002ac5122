-- ===== src/Llm/Exchange.antt =====
-- What the three clients of internal/llm share: one POST, and the reading of its reply.
use agent_stop_and_go.Prelude.{ℕ, String, Option, none, some, [], ◌∷◌, Assoc, insert}
use agent_stop_and_go.Mcp.{Error, wrap}
use agent_stop_and_go.Filesystem.{Checked, ok, err, ◌>>=◌, map_err}

pub record HttpRequest : Type 0 where
  pub url : String
  pub headers : Assoc String
  pub body : String

pub record HttpReply : Type 0 where
  pub status : ℕ
  -- io.ReadAll of the body
  pub body : Checked String

-- net/http
pub record Http : Type 0 where
  pub new_request : String → Option Error
  pub do_request : HttpRequest → Checked HttpReply

-- What is read of a reply.
pub record Received : Type 0 where
  pub status : ℕ
  pub text : String

-- Header.Set for each of the headers
unfoldable pub set_headers : Assoc String → Assoc String → Assoc String
unfolding insert
set_headers [] headers = headers
set_headers ((name, value) ∷ rest) headers = set_headers rest (insert name value headers)

module _ (http : Http) where
  unfoldable pub created : Option Error → HttpRequest → Checked HttpReply
  created (some e) req = err (wrap "failed to create request" e)
  created none req = map_err (wrap "failed to send request") (http.do_request req)

  unfoldable pub read_reply : HttpReply → Checked Received
  read_reply reply = map_err (wrap "failed to read response") reply.body >>= λ text.
      ok (record { status = reply.status; text = text })

  unfoldable pub post : String → Assoc String → Checked String → Checked Received
  unfolding created read_reply
  post url headers encoded = do
    body ← map_err (wrap "failed to marshal request") encoded
    reply ← created (http.new_request url) (record { url = url; headers = headers; body = body })
    read_reply reply
