-- ===== src/Mcp/Stdio/Running.antt =====
-- What a message to the process keeps of the client.
use agent_stop_and_go.Prelude.{
  ◌≡◌, refl, ◌∙◌, String, Bool, true, false, Option, none, some, List, [], ◌∷◌, if◌then◌else◌,
}
use agent_stop_and_go.Mcp.{Tool, Error, wrap, errorf}
use agent_stop_and_go.Filesystem.{Checked, ok, err}
use agent_stop_and_go.Mcp.Stdio.{
  StdioClient, Process, Method, Outcome, returned, panicked, blocked, Params, Request, Response,
  Use, write, pure, throw, go_on, try, ◌>>=◌, done, does, send, receive, decoded, result_of,
  RpcError, write_line, unless_error, or_throw, answered, next, call, notify, initialize, set_tools,
  load_tools,
}

-- The fields that no message changes.
pub record Same (c d : StdioClient) : Type 0 where
  pub stdin : d.stdin ≡ c.stdin
  pub process : d.process ≡ c.process
  pub started : d.started ≡ c.started
  pub locked : d.locked ≡ c.locked

abbrev pub Ran : {A : Type 0} → StdioClient → Outcome A × StdioClient → Type 0
Ran c (returned r, d) = Same c d
Ran c (panicked, d) = ⊥
Ran c (blocked, d) = ⊥

-- A method returns, and keeps those fields, where the client has a pipe to the process.
abbrev pub Runs : {A : Type 0} → Method A → Type 0
Runs m = (c : StdioClient) → c.stdin ≡ true → Ran c (m c)

pub Same-trans : (c d e : StdioClient) → Same c d → Same d e → Same c e
Same-trans c d e h k = record {
  stdin = k.stdin ∙ h.stdin;
  process = k.process ∙ h.process;
  started = k.started ∙ h.started;
  locked = k.locked ∙ h.locked;
}

pub Same-refl : (c : StdioClient) → Same c c
Same-refl c = record { stdin = refl; process = refl; started = refl; locked = refl }

Ran-trans :
    {A : Type 0} (c d : StdioClient) (r : Outcome A × StdioClient) → Same c d → Ran d r → Ran c r
Ran-trans c d (returned r, e) h k = Same-trans c d e h k
Ran-trans c d (panicked, e) h k = k
Ran-trans c d (blocked, e) h k = k

throw-Runs : (A : Type 0) (e : Error) → Runs (throw {A = A} e)
unfolding throw
throw-Runs A e c h = Same-refl c

module _ {A : Type 0} where
  received-Ran : (r : Checked A) (c d : StdioClient) → Same c d → Ran c (returned r, d)
  received-Ran r c d h = h

  if-Ran :
      (c : StdioClient) (b : Bool) (x y : Outcome A × StdioClient)
      → b ≡ true
      → Ran c x
      → Ran c (if b then x else y)
  if-Ran c true x y h k = k
  if-Ran c false x y h k = cc

  pure-Runs : (a : A) → Runs (pure a)
  unfolding pure
  pure-Runs a c h = Same-refl c

module _ {A B : Type 0} where
  go_on-Runs :
      (f : A → Method B) (h : Error → Method B) (c : StdioClient) (r : Outcome A × StdioClient)
      → c.stdin ≡ true
      → Ran c r
      → ((a : A) → Runs (f a))
      → ((e : Error) → Runs (h e))
      → Ran c (go_on f h r)
  unfolding go_on
  go_on-Runs f h c (returned (ok a), d) s k m n = Ran-trans c d (f a d) k (m a d (k.stdin ∙ s))
  go_on-Runs f h c (returned (err e), d) s k m n = Ran-trans c d (h e d) k (n e d (k.stdin ∙ s))
  go_on-Runs f h c (panicked, d) s k m n = k
  go_on-Runs f h c (blocked, d) s k m n = k

  try-Runs :
      (m : Method A) (f : A → Method B) (h : Error → Method B)
      → Runs m
      → ((a : A) → Runs (f a))
      → ((e : Error) → Runs (h e))
      → Runs (try m f h)
  unfolding try
  try-Runs m f h k l n c s = go_on-Runs f h c (m c) s (k c s) l n

  bind-Runs : (m : Method A) (f : A → Method B) → Runs m → ((a : A) → Runs (f a)) → Runs (m >>= f)
  unfolding ◌>>=◌
  bind-Runs m f k l = try-Runs m f throw k l (throw-Runs B)

module _ (proc : Process) where
  done-Ran : (o : Option Error) (c d : StdioClient) → Same c d → Ran c (done proc o, d)
  unfolding done
  done-Ran none c d h = h
  done-Ran (some e) c d h = h

  does-Runs : (u : Use) → Runs (does proc u)
  unfolding does
  does-Runs u c h =
      done-Ran (proc.fails c.uses u) c _
        (record { stdin = refl; process = refl; started = refl; locked = refl })

  write_line-Runs : (req : Request) → Runs (write_line proc req)
  unfolding write_line
  write_line-Runs req c h = if-Ran c c.stdin _ _ h (
      try-Runs (does proc (write req)) pure _ (does-Runs (write req)) pure-Runs
        (λ x. throw-Runs Bool (wrap "failed to write to MCP server" x)) c h)

  unless_error-Runs :
      {A : Type 0} (o : Option Error) (what : String) (m : Method A)
      → Runs m
      → Runs (unless_error proc o what m)
  unfolding unless_error
  unless_error-Runs none what m k = k
  unless_error-Runs {A} (some e) what m k = throw-Runs A (wrap what e)

  send-Runs : (req : Request) → Runs (send proc req)
  unfolding send
  send-Runs req =
      unless_error-Runs (proc.marshal_error req) "failed to marshal message" (write_line proc req)
        (write_line-Runs req)

  receive-Runs : Runs (receive proc)
  unfolding receive
  receive-Runs c h =
      received-Ran (proc.reads c.uses) c _
        (record { stdin = refl; process = refl; started = refl; locked = refl })

  next-Runs : Runs (next proc)
  unfolding next
  next-Runs c h = record { stdin = refl; process = refl; started = refl; locked = refl }

  set_tools-Runs : (ts : List Tool) → Runs (set_tools proc ts)
  unfolding set_tools
  set_tools-Runs ts c h = record { stdin = refl; process = refl; started = refl; locked = refl }

  or_throw-Runs : {A : Type 0} (r : Checked A) (what : String) → Runs (or_throw proc r what)
  unfolding or_throw
  or_throw-Runs (ok a) what = pure-Runs a
  or_throw-Runs {A} (err e) what = throw-Runs A (wrap what e)

  answered-Runs :
      {A : Type 0} (o : Option RpcError) (m : Method A) → Runs m → Runs (answered proc o m)
  unfolding answered
  answered-Runs none m k = k
  answered-Runs {A} (some e) m k =
      throw-Runs A (errorf ("MCP error " ∷ e.code ∷ ": " ∷ e.message ∷ []))

  module _ {A : Type 0} (zero : A) (decode : String → Checked A) where
    decoded-Runs : (raw : Option String) → Runs (decoded proc zero decode raw)
    unfolding decoded
    decoded-Runs none = pure-Runs zero
    decoded-Runs (some raw) = or_throw-Runs (decode raw) "failed to unmarshal result"

    result_of-Runs : (resp : Response) → Runs (result_of proc zero decode resp)
    unfolding result_of
    result_of-Runs resp =
        answered-Runs resp.error (decoded proc zero decode resp.result) (decoded-Runs resp.result)

    pub call-Runs :
        (method : String) (params : Option Params) → Runs (call proc zero decode method params)
    unfolding call
    call-Runs method params = search (bind-Runs, next-Runs, send-Runs, receive-Runs, result_of-Runs)

  pub initialize-Runs : Runs (initialize proc)
  unfolding initialize notify
  initialize-Runs = search (bind-Runs, call-Runs, send-Runs)

  pub load_tools-Runs : Runs (load_tools proc)
  unfolding load_tools
  load_tools-Runs = search (bind-Runs, call-Runs, set_tools-Runs)
