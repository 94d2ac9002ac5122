-- ===== src/Agent/Tree.antt =====
-- The inner nodes of the agent tree: executeNode, executeSequential, executeParallel and executeLoop
-- of internal/agent/orchestrator.go. A child is the action that executes it, which takes the resume
-- information; the recursion over the tree makes these actions, and a node runs those of its children.
pub mod Rules
pub mod Pauses
use agent_stop_and_go.Prelude.{
  ℕ, zero, suc, ◌+◌, String, Bool, true, false, ◌||◌, Option, none, some, List, [], ◌∷◌, ◌++◌, ◌==◌,
  nat_eq, join, get_elem?, drop, length, if◌then◌else◌,
}
use agent_stop_and_go.Mcp.{Error}
use agent_stop_and_go.Config.{NodeInfo, AgentNode, AgentNodes, node, nil, cons}
use agent_stop_and_go.Agent.Exec.{Exec, pure, throw, panics, reads, ◌>>=◌, ◌>>◌, try, when_some}
use agent_stop_and_go.Agent.World.{Env, Agent, State}
use agent_stop_and_go.Agent.Node.{ResumeInfo, NodeResult, responds, Call}
use agent_stop_and_go.Agent.Node.LlmNode.{execute_llm_node}
use agent_stop_and_go.Agent.Node.RemoteNode.{execute_a2a_node}

-- The execution of a child, once it is known whether and where it resumes.
abbrev pub Branch : Type 0
Branch = Option ResumeInfo → Exec State NodeResult

-- result.WaitingApproval || result.ExitLoop || result.AuthRequired
abbrev pub stops : NodeResult → Bool
stops r = r.waiting_approval || r.exit_loop || r.auth_required

-- The result of a node with the last result of its children, which may be none.
abbrev pub or_empty : Option NodeResult → NodeResult
or_empty none = responds ""
or_empty (some r) = r

-- The loop of executeSequential over the remaining children.
unfoldable pub run_remaining : List Branch → Option NodeResult → Exec State NodeResult
run_remaining [] last = pure (or_empty last)
run_remaining (b ∷ bs) last = do
  result ← b none
  if stops result then pure result else run_remaining bs (some result)

-- resume != nil && len(resume.Path) > 0: the index of the paused child, and what it resumes with.
unfoldable pub paused_child : Option ResumeInfo → Option (ℕ × ResumeInfo)
paused_child none = none
paused_child (some r) = elim r.path [ [] ↦ none | i ∷ rest ↦ some (i, record r { path = rest }) ]

unfoldable pub resume_child : List Branch → ℕ → ResumeInfo → Exec State NodeResult
resume_child bs i r =
    when_some (get_elem? bs i)
      (λ b. do
        result ← b (some r)
        if stops result then pure result else run_remaining (drop (suc i) bs) none)
      panics

unfoldable pub execute_sequential : List Branch → Option ResumeInfo → Exec State NodeResult
execute_sequential bs resume =
    when_some (paused_child resume) (λ (i, r). resume_child bs i r) (run_remaining bs none)

-- What a goroutine of executeParallel sends: its index, and its result or its error.
pub data Sent : Type 0 where
  sends : ℕ → NodeResult → Sent
  fails : ℕ → Error → Sent

-- The goroutines, each as a whole, in the order in which they run.
unfoldable pub run_scheduled : List Branch → List ℕ → Exec State (List Sent)
run_scheduled bs [] = pure []
run_scheduled bs (i ∷ is) =
    when_some (get_elem? bs i)
      (λ b. do
        sent ← try (b none) (λ r. pure (sends i r)) (λ e. pure (fails i e))
        rest ← run_scheduled bs is
        pure (sent ∷ rest))
      (run_scheduled bs is)

-- The first error that was sent.
unfoldable pub first_error : List Sent → Option Error
first_error [] = none
first_error (sends i r ∷ rest) = first_error rest
first_error (fails i e ∷ rest) = some e

-- ordered[i]
unfoldable pub sent_by : ℕ → List Sent → Option NodeResult
sent_by i [] = none
sent_by i (sends j r ∷ rest) = if nat_eq j i then some r else sent_by i rest
sent_by i (fails j e ∷ rest) = sent_by i rest

-- The responses that are not empty, by the children from i on; the first argument counts them down.
unfoldable pub responses : ℕ → ℕ → List Sent → List String
responses zero i sent = []
responses (suc n) i sent =
    let rest = responses n (suc i) sent in
    elim (sent_by i sent) [
      | none ↦ rest
      | some r ↦ if r.response == "" then rest else r.response ∷ rest
    ]

unfoldable pub execute_parallel : Env → List Branch → Exec State NodeResult
execute_parallel env bs = do
  order ← reads (λ s. env.schedule s.trace (length bs))
  sent ← run_scheduled bs order
  when_some (first_error sent) (λ e. throw e)
      (pure (responds (join "\n" (responses (length bs) 0 sent))))

-- How a round of a loop ends: by exit_loop, or with the last result.
pub data Round : Type 0 where
  exits : NodeResult → Round
  goes_on : Option NodeResult → Round

unfoldable pub run_round : List Branch → Option NodeResult → Exec State Round
run_round [] last = pure (goes_on last)
run_round (b ∷ bs) last = do
  result ← b none
  if result.exit_loop then pure (exits result) else run_round bs (some result)

unfoldable pub after_round :
    (Option NodeResult → Exec State NodeResult) → Round → Exec State NodeResult
after_round continue (exits r) = pure (responds r.response)
after_round continue (goes_on last) = continue last

unfoldable pub run_rounds : List Branch → ℕ → Option NodeResult → Exec State NodeResult
run_rounds bs zero last = pure (or_empty last)
run_rounds bs (suc n) last = do
  round ← run_round bs last
  after_round (λ l. run_rounds bs n l) round

abbrev pub default_loop_max_iterations : ℕ
default_loop_max_iterations = 10

unfoldable pub max_rounds : NodeInfo → ℕ
max_rounds n = if nat_eq n.max_iterations 0 then default_loop_max_iterations else n.max_iterations

unfoldable pub execute_loop : NodeInfo → List Branch → Exec State NodeResult
execute_loop n bs = run_rounds bs (max_rounds n) none

-- appendPath
abbrev pub append_path : List ℕ → ℕ → List ℕ
append_path path i = path ++ i ∷ []

-- The switch of executeNode, by the type of the node.
pub data NodeType : Type 0 where
  sequential parallel loop a2a llm : NodeType

unfoldable pub node_type : String → NodeType
node_type type =
    if type == "sequential"
    then sequential
    else if type == "parallel"
    then parallel
    else if type == "loop"
    then loop
    else if type == "a2a"
    then a2a
    else llm

module _ (env : Env) (agent : Agent) (call : Call) where
  -- The cases of the switch; the children of a sequential node inherit whether destructive tools are
  -- allowed, and those of a parallel node or a loop are allowed them.
  unfoldable pub run_node :
      NodeType
      → NodeInfo
      → (Bool → List Branch)
      → List ℕ
      → Bool
      → Option ResumeInfo
      → Exec State NodeResult
  run_node sequential n children path allow resume = execute_sequential (children allow) resume
  run_node parallel n children path allow resume = execute_parallel env (children true)
  run_node loop n children path allow resume = execute_loop n (children true)
  run_node a2a n children path allow resume = execute_a2a_node env agent call n path allow resume
  run_node llm n children path allow resume = execute_llm_node env agent call n path allow resume

unfoldable mutual
  pub execute_node :
      Env → Agent → Call → AgentNode → List ℕ → Bool → Option ResumeInfo → Exec State NodeResult
  execute_node env agent call (node n agents) path allow resume =
      run_node env agent call (node_type n.type) n
        (λ allowed. branches env agent call agents path 0 allowed) path allow resume

  pub branches : Env → Agent → Call → AgentNodes → List ℕ → ℕ → Bool → List Branch
  branches env agent call nil path i allow = []
  branches env agent call (cons child rest) path i allow =
      (λ resume. execute_node env agent call child (append_path path i) allow resume)
      ∷ branches env agent call rest path (suc i) allow
