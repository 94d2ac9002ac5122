-- ===== src/Mcp/Stdio/Sessions.antt =====
-- The identifiers of requests through every sequence of calls of a client's methods.
use agent_stop_and_go.Prelude.{
  ℕ, ◌<◌, All, inl, inr, ◌+◌, ◌≡◌, refl, String, true, false, Option, none, some, List, [], ◌∷◌,
  ◌==◌, find, arith,
}
use agent_stop_and_go.Json.{Args}
use agent_stop_and_go.Mcp.{Tool, Error, wrap}
use agent_stop_and_go.Filesystem.{Checked, ok, err}
use agent_stop_and_go.Mcp.Stdio.{
  StdioClient, Process, Method, Params, RpcError, Response, Use, stdin_pipe, stdout_pipe, launch,
  close_stdin, kill, wait, pure, throw, go_on, try, ◌>>=◌, send, receive, or_throw, decoded,
  answered, result_of, next, request, call, notify, initialize, set_tools, load_tools, ignoring,
  close_pipe, end_process, stop_locked, stop, stop_with, handshake, use_or_fail, launched,
  set_stdin, set_started, start_locked, start, tools, get_tool, call_tool, call_tool_params,
  new_stdio_client,
}
use agent_stop_and_go.Filesystem.Patch.{int_limit}
use agent_stop_and_go.Mcp.Stdio.Requests.{
  id_of, Ascending, IsNumbered, Numbers, Ascending-weaken, pure-Numbers, locking-Numbers,
  throw-Numbers, go_on-IsNumbered, try-Numbers, bind-Numbers, does-Numbers, receive-Numbers,
  send-IsNumbered, if-IsNumbered,
}

module _ (proc : Process) where
  module _ {A : Type 0} where
    or_throw-Numbers : (r : Checked A) (what : String) → Numbers (or_throw proc r what)
    unfolding or_throw
    or_throw-Numbers (ok a) what = pure-Numbers a
    or_throw-Numbers (err e) what = throw-Numbers A (wrap what e)

    answered-Numbers :
        (o : Option RpcError) (m : Method A) → Numbers m → Numbers (answered proc o m)
    unfolding answered throw
    answered-Numbers none m k c h = k c h
    answered-Numbers (some e) m k c h = h

    decoded-Numbers :
        (zero : A) (decode : String → Checked A) (raw : Option String)
        → Numbers (decoded proc zero decode raw)
    unfolding decoded
    decoded-Numbers zero decode none = pure-Numbers zero
    decoded-Numbers zero decode (some raw) =
        or_throw-Numbers (decode raw) "failed to unmarshal result"

    result_of-Numbers :
        (zero : A) (decode : String → Checked A) (resp : Response)
        → Numbers (result_of proc zero decode resp)
    unfolding result_of
    result_of-Numbers zero decode resp =
        answered-Numbers resp.error (decoded proc zero decode resp.result)
          (decoded-Numbers zero decode resp.result)

    call-Numbers :
        (zero : A) (decode : String → Checked A) (method : String) (params : Option Params)
        → Numbers (call proc zero decode method params)
    unfolding call ◌>>=◌ try next go_on
    call-Numbers zero decode method params c h =
        let raised : StdioClient = record c { next_id = c.next_id + 1 } in
        let req = request proc c.next_id method params in
        go_on-IsNumbered _ throw (send proc req raised)
          (send-IsNumbered proc req raised
            (record {
              positive = omega arith;
              ascending =
                  Ascending-weaken c.next_id (c.next_id + 1) c.uses (omega arith) h.ascending;
            })
            (inr (h.positive, omega arith, h.ascending)))
          (λ sent.
            bind-Numbers (receive proc) _ (receive-Numbers proc) (result_of-Numbers zero decode))
          (throw-Numbers A)

  notify-Numbers : (method : String) (params : Option Params) → Numbers (notify proc method params)
  unfolding notify
  notify-Numbers method params c h =
      send-IsNumbered proc (request proc 0 method params) c h (inl refl)

  initialize-Numbers : Numbers (initialize proc)
  unfolding initialize
  initialize-Numbers = search (bind-Numbers, call-Numbers, notify-Numbers)

  set_tools-Numbers : (ts : List Tool) → Numbers (set_tools proc ts)
  unfolding set_tools
  set_tools-Numbers ts c h = record { positive = h.positive; ascending = h.ascending }

  load_tools-Numbers : Numbers (load_tools proc)
  unfolding load_tools
  load_tools-Numbers = search (bind-Numbers, call-Numbers, set_tools-Numbers)

  ignoring-Numbers : (u : Use) → id_of u ≡ 0 → Numbers (ignoring proc u)
  unfolding ignoring
  ignoring-Numbers u z = search (try-Numbers, does-Numbers, pure-Numbers, z)

  close_pipe-Numbers : Numbers (close_pipe proc)
  unfolding close_pipe
  close_pipe-Numbers c h =
      if-IsNumbered c.stdin (ignoring proc close_stdin c) (pure true c)
        (ignoring-Numbers close_stdin refl c h) (pure-Numbers true c h)

  ended-Numbers : Numbers (ignoring proc kill >>= λ _. ignoring proc wait)
  ended-Numbers =
      bind-Numbers (ignoring proc kill) (λ _. ignoring proc wait) (ignoring-Numbers kill refl)
        (λ _. ignoring-Numbers wait refl)

  end_process-Numbers : Numbers (end_process proc)
  unfolding end_process
  end_process-Numbers c h =
      if-IsNumbered c.process ((ignoring proc kill >>= λ _. ignoring proc wait) c) (pure true c)
        (ended-Numbers c h) (pure-Numbers true c h)

  stop_locked-Numbers : Numbers (stop_locked proc)
  unfolding stop_locked
  stop_locked-Numbers c h =
      let d : StdioClient = record c { started = false } in
      if-IsNumbered c.started ((close_pipe proc >>= λ _. end_process proc) d) (pure true c)
        (bind-Numbers (close_pipe proc) (λ _. end_process proc) close_pipe-Numbers
          (λ _. end_process-Numbers) d (record { positive = h.positive; ascending = h.ascending }))
        (pure-Numbers true c h)

  stop-Numbers : Numbers (stop proc)
  unfolding stop
  stop-Numbers = locking-Numbers (stop_locked proc) stop_locked-Numbers

  stop_with-Numbers : (what : String) (e : Error) → Numbers (stop_with proc what e)
  unfolding stop_with
  stop_with-Numbers what e = search (try-Numbers, stop-Numbers, throw-Numbers)

  handshake-Numbers : Numbers (handshake proc)
  unfolding handshake
  handshake-Numbers =
      search (try-Numbers, initialize-Numbers, load_tools-Numbers, stop_with-Numbers, pure-Numbers)

  use_or_fail-Numbers : (u : Use) (what : String) → id_of u ≡ 0 → Numbers (use_or_fail proc u what)
  unfolding use_or_fail
  use_or_fail-Numbers u what z = search (try-Numbers, does-Numbers, pure-Numbers, throw-Numbers, z)

  set_stdin-Numbers : Numbers (set_stdin proc)
  unfolding set_stdin
  set_stdin-Numbers c h = record { positive = h.positive; ascending = h.ascending }

  set_started-Numbers : Numbers (set_started proc)
  unfolding set_started
  set_started-Numbers c h = record { positive = h.positive; ascending = h.ascending }

  launched-Numbers : Numbers (launched proc)
  unfolding launched
  launched-Numbers =
      let stdin = use_or_fail-Numbers stdin_pipe "failed to get stdin pipe" refl in
      let stdout = use_or_fail-Numbers stdout_pipe "failed to get stdout pipe" refl in
      let process = use_or_fail-Numbers launch "failed to start MCP server" refl in
      search (bind-Numbers, stdin, stdout, process, set_stdin-Numbers, set_started-Numbers)

  start_locked-Numbers : Numbers (start_locked proc)
  unfolding start_locked
  start_locked-Numbers c h =
      if-IsNumbered c.started (pure true c) ((launched proc >>= λ _. handshake proc) c)
        (pure-Numbers true c h)
        (bind-Numbers (launched proc) (λ _. handshake proc) launched-Numbers
          (λ _. handshake-Numbers) c h)

  pub start-Numbers : Numbers (start proc)
  unfolding start
  start-Numbers = locking-Numbers (start_locked proc) start_locked-Numbers

Ascending-below :
    (n : ℕ) (us : List Use)
    → n < int_limit
    → Ascending n us
    → All (λ (u : Use). id_of u < int_limit) us
Ascending-below n [] h k = tt
Ascending-below n (u ∷ us) h (inl (z, k)) =
    let below : id_of u < int_limit = omega arith in (below, Ascending-below n us h k)
Ascending-below n (u ∷ us) h (inr (p, l, k)) =
    let below : id_of u < int_limit = omega arith in (below, Ascending-below (id_of u) us below k)

-- A call of one of the client's methods.
pub data MethodCall : Type 0 where
  starts stops lists : MethodCall
  gets : String → MethodCall
  calls : String → Args → MethodCall

module _ (proc : Process) where
  -- What a call leaves of the client.
  unfoldable pub after : MethodCall → StdioClient → StdioClient
  unfolding start stop tools get_tool call_tool
  after starts c = (start proc c).1
  after stops c = (stop proc c).1
  after lists c = (tools proc c).1
  after (gets name) c = (get_tool proc name c).1
  after (calls name args) c = (call_tool proc name args c).1

  -- A new client behind a sequence of calls, the last one first.
  unfoldable pub session : List MethodCall → StdioClient
  unfolding after
  session [] = new_stdio_client
  session (m ∷ ms) = after m (session ms)

  after-IsNumbered : (m : MethodCall) (c : StdioClient) → IsNumbered c → IsNumbered (after m c)
  unfolding after tools get_tool call_tool pure
  after-IsNumbered starts = start-Numbers proc
  after-IsNumbered stops = stop-Numbers proc
  after-IsNumbered lists = locking-Numbers (λ c. pure c.tools c) (λ c h. h)
  after-IsNumbered (gets name) =
      locking-Numbers (λ c. pure (find (λ (t : Tool). t.name == name) c.tools) c) (λ c h. h)
  after-IsNumbered (calls name args) =
      call-Numbers proc proc.no_result proc.decode_result "tools/call"
        (some (call_tool_params name args))

  session-IsNumbered : (ms : List MethodCall) → IsNumbered (session ms)
  unfolding session
  session-IsNumbered [] = record { positive = omega arith; ascending = tt }
  session-IsNumbered (m ∷ ms) = after-IsNumbered m (session ms) (session-IsNumbered ms)

  -- In every sequence of calls of the methods of a new client behind which the next identifier is still
  -- an int, whatever the process answers and however the calls end, the identifiers of the requests
  -- that are written are ints and ascend strictly, besides the 0 of notifications, and the next
  -- identifier lies above all of them.
  pub request_ids_ascend :
      (ms : List MethodCall)
      → (session ms).next_id < int_limit
      → IsNumbered (session ms) × All (λ (u : Use). id_of u < int_limit) (session ms).uses
  request_ids_ascend ms h =
      let numbered = session-IsNumbered ms in
      (numbered, Ascending-below (session ms).next_id (session ms).uses h numbered.ascending)
