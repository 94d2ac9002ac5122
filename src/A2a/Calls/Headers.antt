-- ===== src/A2a/Calls/Headers.antt =====
-- Which requests a client of another agent sends, and what their headers say.
use agent_stop_and_go.Prelude.{
  String, Bool, true, false, Option, none, some, List, [], ◌∷◌, ◌++◌, Assoc, insert, lookup,
  lookup-insert, ◌==◌, if◌then◌else◌, concat, ◌≡◌, refl, ap, sym, ◌∙◌, All, All-append,
  append_assoc,
}
use agent_stop_and_go.Mcp.{Error, wrap}
use agent_stop_and_go.Filesystem.{Checked, ok, err}
use agent_stop_and_go.Agent.Exec.{ok, err, pure}
use agent_stop_and_go.Agent.Exec.Keeps.{Keeps, IsPreorder, Keeps-pure, Keeps-throw, keeps_rules}
use agent_stop_and_go.A2a.Calls.{
  Params, HttpRequest, HttpReply, Net, State, set_unless_blank, with_credentials, or_fail,
  do_request, created, result_of, task_of, RpcError, next, call, send_message, get_task,
  continue_task, checked_card, fetch_agent_card,
}

module _ (bearer_token session_id : String) where
  -- The headers carry the token and the session of a context, where it has them, and no others.
  pub record IsBearing (headers : Assoc String) : Type 0 where
    pub authorization :
        lookup "Authorization" headers
        ≡ (if bearer_token == "" then none else some (concat ("Bearer " ∷ bearer_token ∷ [])))
    pub session :
        lookup "X-Session-ID" headers ≡ (if session_id == "" then none else some session_id)

  abbrev BearsContext : HttpRequest → Type 0
  BearsContext req = IsBearing req.headers

  -- The requests sent between two states all bear the context.
  pub record Bears (s t : State) : Type 0 where
    pub new : List HttpRequest
    pub history : t.sent ≡ new ++ s.sent
    pub all : All BearsContext new

  none_new : (s t : State) → t.sent ≡ s.sent → Bears s t
  none_new s t e = record { new = []; history = e; all = tt }

  Bears-transitive : (s t u : State) → Bears s t → Bears t u → Bears s u
  Bears-transitive s t u h k = record {
    new = k.new ++ h.new;
    history = k.history ∙ ap (λ l. k.new ++ l) h.history ∙ sym (append_assoc k.new h.new s.sent);
    all = All-append BearsContext k.new h.new k.all h.all;
  }

  Bears-IsPreorder : IsPreorder Bears
  Bears-IsPreorder = record { reflexive = λ s. none_new s s refl; transitive = Bears-transitive }

  set_if-lookup :
      (blank : Bool) (name wanted shown : String) (headers : Assoc String)
      → lookup wanted (if blank then headers else insert name shown headers) ≡ (
          if blank
          then lookup wanted headers
          else if name == wanted
          then some shown
          else lookup wanted headers)
  set_if-lookup true name wanted shown headers = refl
  set_if-lookup false name wanted shown headers = lookup-insert name wanted shown headers

  set-lookup :
      (name value wanted shown : String) (headers : Assoc String)
      → lookup wanted (set_unless_blank name value shown headers) ≡ (
          if value == ""
          then lookup wanted headers
          else if name == wanted
          then some shown
          else lookup wanted headers)
  unfolding set_unless_blank
  set-lookup name value wanted shown headers = set_if-lookup (value == "") name wanted shown headers

  module _ (net : Net) (url : String) where
    same_either : {A : Type 0} (b : Bool) (x : A) → (if b then x else x) ≡ x
    same_either true x = refl
    same_either false x = refl

    with_credentials-IsBearing :
        (headers : Assoc String)
        → lookup "Authorization" headers ≡ none
        → lookup "X-Session-ID" headers ≡ none
        → IsBearing (with_credentials net url bearer_token session_id headers)
    unfolding with_credentials
    with_credentials-IsBearing headers a x =
        let text = concat ("Bearer " ∷ bearer_token ∷ []) in
        let inner = set_unless_blank "Authorization" bearer_token text headers in
        record {
          authorization =
              set-lookup "X-Session-ID" session_id "Authorization" session_id inner
              ∙ same_either (session_id == "") (lookup "Authorization" inner)
              ∙ set-lookup "Authorization" bearer_token "Authorization" text headers
              ∙ ap (λ (o : Option String). if bearer_token == "" then o else some text) a;
          session =
              set-lookup "X-Session-ID" session_id "X-Session-ID" session_id inner
              ∙ ap (λ (o : Option String). if session_id == "" then o else some session_id)
                  (set-lookup "Authorization" bearer_token "X-Session-ID" text headers
                    ∙ same_either (bearer_token == "") (lookup "X-Session-ID" headers)
                    ∙ x);
        }

    module _ {A : Type 0} where
      or_fail-Bears :
          (what : String) (c : Checked A)
          → Keeps Bears (or_fail net url bearer_token session_id what c)
      unfolding or_fail
      or_fail-Bears what (ok a) = Keeps-pure Bears-IsPreorder a
      or_fail-Bears what (err e) = Keeps-throw Bears-IsPreorder (wrap what e)

    do_request-Bears :
        (what : String) (req : HttpRequest)
        → IsBearing req.headers
        → Keeps Bears (do_request net url bearer_token session_id what req)
    unfolding do_request
    do_request-Bears what req b = record {
      at = λ s.
          let t : State = record s { sent = req ∷ s.sent } in
          Bears-transitive s t _ (record { new = req ∷ []; history = refl; all = (b, tt) })
            ((or_fail-Bears what (net.do_request (req ∷ s.sent))).at t);
    }

    created-Bears :
        (what : String) (o : Option Error)
        → Keeps Bears (created net url bearer_token session_id what o)
    unfolding created
    created-Bears what none = Keeps-pure Bears-IsPreorder true
    created-Bears what (some e) = Keeps-throw Bears-IsPreorder (wrap what e)

    task_of-Bears :
        (result : Option String) → Keeps Bears (task_of net url bearer_token session_id result)
    unfolding task_of
    task_of-Bears none = Keeps-pure Bears-IsPreorder _
    task_of-Bears (some raw) = or_fail-Bears "failed to unmarshal A2A result" (net.task raw)

    result_of-Bears :
        (error : Option RpcError) (result : Option String)
        → Keeps Bears (result_of net url bearer_token session_id error result)
    unfolding result_of
    result_of-Bears none result = task_of-Bears result
    result_of-Bears (some e) result = Keeps-throw Bears-IsPreorder _

    next-Bears : Keeps Bears (next net url bearer_token session_id)
    unfolding next pure
    next-Bears = record { at = λ s. none_new s _ refl }

    pub call-Bears :
        (method : String) (params : Params)
        → Keeps Bears (call net url bearer_token session_id method params)
    unfolding call lookup
    call-Bears method params =
        let b = with_credentials-IsBearing (("Content-Type", "application/json") ∷ []) refl refl in
        search
          (
            keeps_rules, Bears-IsPreorder, next-Bears, or_fail-Bears, created-Bears,
            do_request-Bears, b, result_of-Bears,
          )
          depth 12 fits 5000

    checked_card-Bears :
        (reply : HttpReply) (body : String)
        → Keeps Bears (checked_card net url bearer_token session_id reply body)
    unfolding checked_card
    checked_card-Bears reply body = search (keeps_rules, Bears-IsPreorder, or_fail-Bears)

    fetch_agent_card-Bears : Keeps Bears (fetch_agent_card net url bearer_token session_id)
    unfolding fetch_agent_card lookup
    fetch_agent_card-Bears =
        let b = with_credentials-IsBearing [] refl refl in
        search (
          keeps_rules, Bears-IsPreorder, or_fail-Bears, created-Bears, do_request-Bears, b,
          checked_card-Bears,
        )

    -- Every request that a client sends for a message, for the continuation of a task, for the state of
    -- a task or for the card of its agent carries the token and the session of the context, where they are
    -- not blank, and neither header otherwise.
    pub calls_carry_context :
        (s : State) (message task_id : String)
        → Bears s (send_message net url bearer_token session_id message s).1
          × Bears s (continue_task net url bearer_token session_id task_id message s).1
          × Bears s (get_task net url bearer_token session_id task_id s).1
          × Bears s (fetch_agent_card net url bearer_token session_id s).1
    unfolding send_message continue_task get_task
    calls_carry_context s message task_id = (
      (call-Bears _ _).at s,
      (call-Bears _ _).at s,
      (call-Bears _ _).at s,
      fetch_agent_card-Bears.at s,
    )
