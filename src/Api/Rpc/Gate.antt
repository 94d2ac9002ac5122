-- ===== src/Api/Rpc/Gate.antt =====
-- What a message of another agent may lead to.
use agent_stop_and_go.Prelude.{
  ◌≡◌, refl, sym, ap, ◌∙◌, subst, String, Bool, true, false, none, ◌==◌, if◌then◌else◌,
}
use agent_stop_and_go.Conversation.{Conversation}
use agent_stop_and_go.Mcp.{Error}
use agent_stop_and_go.Storage.{Found, found, missing, load_conversation}
use agent_stop_and_go.Agent.Exec.{Exec, Result, ok, err, panic, pure, throw, try, handle}
use agent_stop_and_go.Agent.World.{Env, Agent, State}
use agent_stop_and_go.Agent.Process.{process_message, enrich}
use agent_stop_and_go.Agent.Trace.{Adds}
use agent_stop_and_go.Agent.Gate.{IsHarmless}
use agent_stop_and_go.Agent.Gate.Trees.{opens, Agrees}
use agent_stop_and_go.Agent.Gate.Messages.{OnTree, message_gate}
use agent_stop_and_go.Api.{
  Texts, Headers, is_one_of, extract_context, loaded, get_conversation, process_on,
}
use agent_stop_and_go.Api.Rpc.{
  Response, answer_task, internal, is_approval_message, answer_message, approval_awaited,
  continue_by, continue_conversation, send_text,
}

-- An action that only reads the state.
abbrev IsReading : {A : Type 0} → Exec State A → Type 0
IsReading m = (s : State) → (m s).1 ≡ s

handle-IsReading :
    {A B : Type 0} (f : A → Exec State B) (h : Error → Exec State B) (r : Result A) (s : State)
    → ((a : A) → IsReading (f a))
    → ((e : Error) → IsReading (h e))
    → (handle f h r s).1 ≡ s
unfolding handle
handle-IsReading f h (ok a) s k j = k a s
handle-IsReading f h (err e) s k j = j e s
handle-IsReading f h panic s k j = refl

try-IsReading :
    {A B : Type 0} (m : Exec State A) (f : A → Exec State B) (h : Error → Exec State B) (s : State)
    → ((a : A) → IsReading (f a))
    → ((e : Error) → IsReading (h e))
    → (try m f h s).1 ≡ (m s).1
unfolding try
try-IsReading m f h s k j = handle-IsReading f h (m s).0 (m s).1 k j

loaded-IsReading : (o : Found Conversation) → IsReading (loaded o)
unfolding loaded pure throw
loaded-IsReading (found c) s = refl
loaded-IsReading (missing e) s = refl

get_conversation-IsReading : (id : String) → IsReading (get_conversation id)
unfolding get_conversation
get_conversation-IsReading id s = loaded-IsReading (load_conversation s.files id) s

module _ (env : Env) (agent : Agent) (texts : Texts) (headers : Headers) where
  answer_message-process :
      (c : Conversation) (text : String) (s : State)
      → (answer_message env agent texts headers c text s).1
        ≡ (process_message env agent (extract_context headers) text (record s { conv = c })).1
  unfolding answer_message process_on pure
  answer_message-process c text s =
      try-IsReading (process_on env agent (extract_context headers) c text)
        (λ r.
          try (get_conversation c.id) (λ u. answer_task env agent texts headers u r)
            (internal env agent texts headers))
        (internal env agent texts headers) s
        (λ r t.
          try-IsReading (get_conversation c.id) (λ u. answer_task env agent texts headers u r)
            (internal env agent texts headers) t (λ u v. refl) (λ e v. refl)
          ∙ get_conversation-IsReading c.id t)
        (λ e t. refl)

  send_text-continues :
      (task_id text : String) (c : Conversation) (s : State)
      → (text == "") ≡ false
      → (task_id == "") ≡ false
      → load_conversation s.files task_id ≡ found c
      → send_text env agent texts headers task_id text s
        ≡ continue_by env agent texts headers (approval_awaited env agent texts headers c) c text s
  unfolding send_text continue_conversation get_conversation loaded try pure throw handle
  send_text-continues task_id text c s t i e =
      rw (send_text, t, i) (rw (continue_conversation, get_conversation, e) refl)

-- A message of another agent to a task that does not wait for an approval leads to no call that needs
-- one. The agent has no parallel nodes and loops, and each remote node the hint of its client.
pub text_needs_no_approval :
    (env : Env) (agent : Agent) (texts : Texts) (headers : Headers) (task_id text : String)
    (s : State) (c : Conversation)
    → (text == "") ≡ false
    → (task_id == "") ≡ false
    → load_conversation s.files task_id ≡ found c
    → approval_awaited env agent texts headers c ≡ none
    → OnTree agent (λ root. opens root ≡ false)
    → OnTree agent (λ root. Agrees agent root)
    → Adds
        (IsHarmless agent (enrich (extract_context headers) c))
        s
        (send_text env agent texts headers task_id text s).1
unfolding continue_by
text_needs_no_approval env agent texts headers task_id text s c t i e w locked agrees =
    let at_hand : State = record s { conv = c } in
    let calls = message_gate env agent (extract_context headers) at_hand text locked agrees in
    subst (λ u. Adds (IsHarmless agent (enrich (extract_context headers) c)) s u)
      (sym (
        ap (λ (r : Result Response × State). r.1)
          (send_text-continues env agent texts headers task_id text c s t i e)
        ∙ ap (λ o. (continue_by env agent texts headers o c text s).1) w
        ∙ answer_message-process env agent texts headers c text s))
      (record { new = calls.new; trace = calls.trace; all = calls.all })

-- A decision that an agent passes on to another one is understood there as it was meant: the words
-- "approved" and "rejected", which have no capitals and no spaces around them.
forwarded_decision_is_understood :
    (texts : Texts) (approved : Bool)
    → texts.trim_space (if approved then "approved" else "rejected")
      ≡ (if approved then "approved" else "rejected")
    → texts.to_lower (if approved then "approved" else "rejected")
      ≡ (if approved then "approved" else "rejected")
    → is_approval_message texts (if approved then "approved" else "rejected") ≡ approved
unfolding is_approval_message is_one_of
forwarded_decision_is_understood texts true t l = rw (t, l) refl
forwarded_decision_is_understood texts false t l = rw (t, l) refl
