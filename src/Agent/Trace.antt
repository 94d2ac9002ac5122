-- ===== src/Agent/Trace.antt =====
-- What an action adds to the history of calls: rules for a predicate on events, and the events that
-- each step of the agent adds.
use agent_stop_and_go.Prelude.{
  ℕ, String, ◌≡◌, refl, ap, ◌∙◌, sym, Bool, Option, List, [], ◌∷◌, ◌++◌, All, All-append,
  append_assoc, arith,
}
use agent_stop_and_go.Json.{Args}
use agent_stop_and_go.Conversation.{Conversation, Role, PendingApproval, PipelineState}
use agent_stop_and_go.Mcp.Composite.{CompositeClient}
use agent_stop_and_go.Session.{SessionState}
use agent_stop_and_go.Agent.Exec.{throw}
use agent_stop_and_go.Agent.Exec.Keeps.{
  Keeps, IsPreorder, Keeps-when_some, Keeps-throw, Keeps-try, Keeps-pure,
}
use agent_stop_and_go.Agent.World.{Env, Agent, State, Context, Event, tool_called, saved, Outcome}
use agent_stop_and_go.Agent.Effects.{
  on_conv, add_message, add_tool_call, add_tool_result, set_waiting_approval, set_remote,
  resolve_approval, set_pipeline_state, save, save_or_not, ask, call_tool, set_session,
}
use agent_stop_and_go.Agent.Node.{get_llm_client}

-- The calls between two states all satisfy P.
pub record Adds (P : Event → Type 0) (s t : State) : Type 0 where
  pub new : List Event
  pub trace : t.trace ≡ new ++ s.trace
  pub all : All P new

module _ (P : Event → Type 0) where
  pub Adds-nothing : (s t : State) → t.trace ≡ s.trace → Adds P s t
  Adds-nothing s t e = record { new = []; trace = e; all = tt }

  Adds-transitive : (s t u : State) → Adds P s t → Adds P t u → Adds P s u
  Adds-transitive s t u h k = record {
    new = k.new ++ h.new;
    trace = k.trace ∙ ap (λ l. k.new ++ l) h.trace ∙ sym (append_assoc k.new h.new s.trace);
    all = All-append P k.new h.new k.all h.all;
  }

  pub Adds-IsPreorder : IsPreorder (Adds P)
  Adds-IsPreorder = record { reflexive = λ s. Adds-nothing s s refl; transitive = Adds-transitive }

module _ {P : Event → Type 0} (env : Env) where
  pub add_message-Adds :
      (role : Role) (content : String) → Keeps (Adds P) (add_message env role content)
  unfolding add_message on_conv
  add_message-Adds role content = record { at = λ s. Adds-nothing P s _ refl }

  pub add_tool_call-Adds :
      (name : String) (args : Args) → Keeps (Adds P) (add_tool_call env name args)
  unfolding add_tool_call on_conv
  add_tool_call-Adds name args = record { at = λ s. Adds-nothing P s _ refl }

  pub add_tool_result-Adds :
      (name result : String) (is_error : Bool)
      → Keeps (Adds P) (add_tool_result env name result is_error)
  unfolding add_tool_result on_conv
  add_tool_result-Adds name result is_error = record { at = λ s. Adds-nothing P s _ refl }

  pub set_waiting_approval-Adds :
      (name : String) (args : Args) (description : String)
      → Keeps (Adds P) (set_waiting_approval env name args description)
  unfolding set_waiting_approval
  set_waiting_approval-Adds name args description = record { at = λ s. Adds-nothing P s _ refl }

  pub set_remote-Adds :
      (a : PendingApproval) (task agent : String) → Keeps (Adds P) (set_remote env a task agent)
  unfolding set_remote
  set_remote-Adds a task agent = record { at = λ s. Adds-nothing P s _ refl }

  pub resolve_approval-Adds : Keeps (Adds P) (resolve_approval env)
  unfolding resolve_approval on_conv
  resolve_approval-Adds = record { at = λ s. Adds-nothing P s _ refl }

  pub set_pipeline_state-Adds :
      (p : Option PipelineState) → Keeps (Adds P) (set_pipeline_state env p)
  unfolding set_pipeline_state
  set_pipeline_state-Adds p = record { at = λ s. Adds-nothing P s _ refl }

  pub ask-Adds :
      {A : Type 0} (e : Event) (answer : List Event → Outcome A)
      → P e
      → Keeps (Adds P) (ask env e answer)
  unfolding ask
  ask-Adds e answer p = record { at = λ s. record { new = e ∷ []; trace = refl; all = (p, tt) } }

  pub save-Adds : ((c : Conversation) → P (saved c)) → Keeps (Adds P) (save env)
  unfolding save
  save-Adds p = record {
    at = λ s. record { new = saved s.conv ∷ []; trace = refl; all = (p s.conv, tt) };
  }

  pub save_or_not-Adds : ((c : Conversation) → P (saved c)) → Keeps (Adds P) (save_or_not env)
  unfolding save_or_not
  save_or_not-Adds p =
      search (Keeps-try (Adds-IsPreorder P), Keeps-pure (Adds-IsPreorder P), save-Adds, p)

  pub call_tool-Adds :
      (ctx : Context) (c : CompositeClient) (name : String) (args : Args)
      → ((i : ℕ) → P (tool_called ctx i name args))
      → Keeps (Adds P) (call_tool env ctx c name args)
  unfolding call_tool
  call_tool-Adds ctx c name args p =
      search (Keeps-when_some, Keeps-throw (Adds-IsPreorder P), ask-Adds, p)

pub set_session-Adds :
    {P : Event → Type 0} (f : SessionState → SessionState) → Keeps (Adds P) (set_session f)
unfolding set_session
set_session-Adds {P} f = record { at = λ s. Adds-nothing P s _ refl }

pub get_llm_client-Adds :
    {P : Event → Type 0} (env : Env) (agent : Agent) (model : String)
    → Keeps (Adds P) (get_llm_client env agent model)
unfolding get_llm_client throw
get_llm_client-Adds {P} env agent model = record { at = λ s. Adds-nothing P s _ (ground arith) }
