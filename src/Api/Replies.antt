-- ===== src/Api/Replies.antt =====
-- What the handlers of internal/api/handlers.go reply.
use agent_stop_and_go.Prelude.{
  ℕ, suc, ◌+◌, ◌≡◌, refl, String, true, false, some, List, [], ◌∷◌, ◌==◌, length, arith,
}
use agent_stop_and_go.Conversation.{
  Conversation, Status, active, waiting_approval, completed, is_waiting,
}
use agent_stop_and_go.Storage.{found, load_conversation}
use agent_stop_and_go.Agent.Exec.{ok, pure, try, handle}
use agent_stop_and_go.Agent.World.{Env, Agent, State}
use agent_stop_and_go.Agent.Process.{process_message}
use agent_stop_and_go.Api.{
  Headers, parsed, Summary, counted, conversation, reply, loaded, get_conversation, process_on,
  summarize, process_and_reload, send_message_handler,
}

-- A message to a conversation that waits for an approval is answered with the conversation and its
-- approval as they are stored, whatever it says. No call is made and no file changes.
waiting_is_answered :
    (env : Env) (agent : Agent) (headers : Headers) (message : String) (c : Conversation)
    (s : State)
    → (message == "") ≡ false
    → load_conversation s.files c.id ≡ found c
    → is_waiting c.status ≡ true
    → send_message_handler env agent headers c.id (parsed message) s ≡ (
      ok (
          reply 200 (
            conversation c (
              some (record {
                response =
                    "Conversation is waiting for approval. Please respond to the pending approval first.";
                waiting_approval = true;
                approval = c.pending_approval;
                auth_required = false;
              })))),
      record s { conv = c },
    )
unfolding send_message_handler process_and_reload process_on process_message get_conversation loaded
    try handle pure
waiting_is_answered env agent headers message c s m found_it waits =
    rw (send_message_handler, m)
      (rw (get_conversation, found_it)
        (rw (process_on, process_message, waits) (rw (get_conversation, found_it) refl)))

abbrev pub AddsUp : Summary → ℕ → Type 0
AddsUp s n = (s.total ≡ n) × (s.active_count + s.waiting_count + s.completed_count ≡ n)

counted-AddsUp :
    (status : Status) (s : Summary) (n : ℕ) → AddsUp s n → AddsUp (counted status s) (suc n)
unfolding counted
counted-AddsUp active s n (t, a) = (omega arith, omega arith)
counted-AddsUp waiting_approval s n (t, a) = (omega arith, omega arith)
counted-AddsUp completed s n (t, a) = (omega arith, omega arith)

-- Every conversation is counted once: as active, as waiting or as completed.
summarize-AddsUp : (cs : List Conversation) → AddsUp (summarize cs) (length cs)
unfolding summarize
summarize-AddsUp [] = (refl, refl)
summarize-AddsUp (c ∷ cs) = counted-AddsUp c.status (summarize cs) (length cs) (summarize-AddsUp cs)
