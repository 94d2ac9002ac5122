-- ===== src/Agent/Gate/Trees.antt =====
-- The calls of the whole agent tree.
use agent_stop_and_go.Prelude.{
  ℕ, suc, ◌≡◌, refl, Bool, true, false, not, ◌&&◌, ◌||◌, String, ap, ◌∙◌, Option, some, List, All,
  lookup, arith,
}
use agent_stop_and_go.Config.{NodeInfo, AgentNode, AgentNodes, node, nil, cons}
use agent_stop_and_go.A2a.{Client}
use agent_stop_and_go.Agent.Exec.Keeps.{Keeps}
use agent_stop_and_go.Agent.World.{Env, Agent, Event, message_sent, Context}
use agent_stop_and_go.Agent.Trace.{Adds, Adds-IsPreorder}
use agent_stop_and_go.Agent.Node.{Call, ResumeInfo}
use agent_stop_and_go.Agent.Tree.{
  NodeType, sequential, parallel, loop, a2a, llm, node_type, Branch, run_node, execute_node,
  branches, append_path,
}
use agent_stop_and_go.Agent.Tree.Rules.{
  Runs, execute_sequential-Keeps, execute_parallel-Keeps, execute_loop-Keeps,
}
use agent_stop_and_go.Agent.Gate.{Permits}
use agent_stop_and_go.Agent.Gate.Nodes.{execute_llm_node-Adds, execute_a2a_node-Adds}

abbrev pub is_open : NodeType → Bool
is_open sequential = false
is_open parallel = true
is_open loop = true
is_open a2a = false
is_open llm = false

-- Whether the tree has a parallel node or a loop, in which destructive tools execute immediately.
unfoldable mutual
  pub opens : AgentNode → Bool
  opens (node n agents) = is_open (node_type n.type) || opens_any agents

  pub opens_any : AgentNodes → Bool
  opens_any nil = false
  opens_any (cons child rest) = opens child || opens_any rest

-- The hint of every node is that of the client which its name leads to, as it is where the names of
-- remote agents are unique in the configuration.
unfoldable mutual
  pub Agrees : Agent → AgentNode → Type 0
  Agrees agent (node n agents) =
      ((c : Client)
        → lookup n.name agent.a2a_clients ≡ some c
        → c.destructive_hint ≡ n.destructive_hint)
      × AgreesAll agent agents

  pub AgreesAll : Agent → AgentNodes → Type 0
  AgreesAll agent nil = Unit
  AgreesAll agent (cons child rest) = Agrees agent child × AgreesAll agent rest

-- P permits the message of a node as a remote agent, where it permits what needs no approval.
abbrev pub Sends : Agent → Context → (Event → Type 0) → NodeInfo → Type 0
Sends agent ctx P n =
    (allow : Bool)
    → Permits agent ctx allow P
    → (c : Client) (message : String) → lookup n.name agent.a2a_clients ≡ some c
    → (n.destructive_hint && not allow) ≡ false
    → P (message_sent ctx c message)

unfoldable mutual
  pub TreeSends : Agent → Context → (Event → Type 0) → AgentNode → Type 0
  TreeSends agent ctx P (node n agents) = Sends agent ctx P n × TreesSend agent ctx P agents

  pub TreesSend : Agent → Context → (Event → Type 0) → AgentNodes → Type 0
  TreesSend agent ctx P nil = Unit
  TreesSend agent ctx P (cons child rest) = TreeSends agent ctx P child × TreesSend agent ctx P rest

mutual
  unfolding Agrees TreeSends

  pub Agrees-TreeSends :
      (agent : Agent) (ctx : Context) (P : Event → Type 0) (root : AgentNode)
      → Agrees agent root
      → TreeSends agent ctx P root
  Agrees-TreeSends agent ctx P (node n agents) a = (
    λ allow p c message found safe.
        p.sends n.name c message found (ap (λ b. b && not allow) (a.0 c found) ∙ safe),
    AgreesAll-TreesSend agent ctx P agents a.1,
  )

  AgreesAll-TreesSend :
      (agent : Agent) (ctx : Context) (P : Event → Type 0) (agents : AgentNodes)
      → AgreesAll agent agents
      → TreesSend agent ctx P agents
  AgreesAll-TreesSend agent ctx P nil a = tt
  AgreesAll-TreesSend agent ctx P (cons child rest) a =
      (Agrees-TreeSends agent ctx P child a.0, AgreesAll-TreesSend agent ctx P rest a.1)

mutual
  unfolding TreeSends

  -- A predicate that holds of every message holds of those of a tree.
  pub every-TreeSends :
      (agent : Agent) (ctx : Context) (P : Event → Type 0) (root : AgentNode)
      → ((c : Client) (message : String) → P (message_sent ctx c message))
      → TreeSends agent ctx P root
  every-TreeSends agent ctx P (node n agents) h =
      (λ allow p c message found safe. h c message, every-TreesSend agent ctx P agents h)

  every-TreesSend :
      (agent : Agent) (ctx : Context) (P : Event → Type 0) (agents : AgentNodes)
      → ((c : Client) (message : String) → P (message_sent ctx c message))
      → TreesSend agent ctx P agents
  every-TreesSend agent ctx P nil h = tt
  every-TreesSend agent ctx P (cons child rest) h =
      (every-TreeSends agent ctx P child h, every-TreesSend agent ctx P rest h)

module _ (env : Env) (agent : Agent) (call : Call) {P : Event → Type 0} where
  run_node-Adds :
      (t : NodeType) (n : NodeInfo) (children : Bool → List Branch) (path : List ℕ) (allow : Bool)
      (resume : Option ResumeInfo)
      → Permits agent call.ctx allow P
      → (is_open t ≡ true → Permits agent call.ctx true P)
      → Sends agent call.ctx P n
      → ((allowed : Bool)
          → Permits agent call.ctx allowed P
          → All (Runs (Adds P)) (children allowed))
      → Keeps (Adds P) (run_node env agent call t n children path allow resume)
  unfolding run_node
  run_node-Adds sequential n children path allow resume p unlocked a cs =
      execute_sequential-Keeps (Adds-IsPreorder P) _ resume (cs allow p)
  run_node-Adds parallel n children path allow resume p unlocked a cs =
      execute_parallel-Keeps (Adds-IsPreorder P) env _ (cs true (unlocked refl))
  run_node-Adds loop n children path allow resume p unlocked a cs =
      execute_loop-Keeps (Adds-IsPreorder P) n _ (cs true (unlocked refl))
  run_node-Adds a2a n children path allow resume p unlocked a cs =
      execute_a2a_node-Adds env agent call p n path resume (a allow p)
  run_node-Adds llm n children path allow resume p unlocked a cs =
      execute_llm_node-Adds env agent call p n path resume

or_left : (a b : Bool) → a ≡ true → (a || b) ≡ true
or_left a b h = ground arith

or_right : (a b : Bool) → b ≡ true → (a || b) ≡ true
or_right a b h = ground arith

mutual
  unfolding execute_node opens TreeSends

  pub execute_node-Adds :
      (env : Env) (agent : Agent) (call : Call) (P : Event → Type 0) (root : AgentNode)
      (path : List ℕ) (allow : Bool) (resume : Option ResumeInfo)
      → Permits agent call.ctx allow P
      → (opens root ≡ true → Permits agent call.ctx true P)
      → TreeSends agent call.ctx P root
      → Keeps (Adds P) (execute_node env agent call root path allow resume)
  execute_node-Adds env agent call P (node n agents) path allow resume p unlocked a =
      run_node-Adds env agent call (node_type n.type) n _ path allow resume p
        (λ h. unlocked (or_left _ (opens_any agents) h)) a.0
        (λ allowed q.
          branches-Adds env agent call P agents path 0 allowed q
            (λ h. unlocked (or_right (is_open (node_type n.type)) _ h)) a.1)

  branches-Adds :
      (env : Env) (agent : Agent) (call : Call) (P : Event → Type 0) (agents : AgentNodes)
      (path : List ℕ) (i : ℕ) (allow : Bool)
      → Permits agent call.ctx allow P
      → (opens_any agents ≡ true → Permits agent call.ctx true P)
      → TreesSend agent call.ctx P agents
      → All (Runs (Adds P)) (branches env agent call agents path i allow)
  branches-Adds env agent call P nil path i allow p unlocked a = tt
  branches-Adds env agent call P (cons child rest) path i allow p unlocked a = (
    λ resume.
        execute_node-Adds env agent call P child (append_path path i) allow resume p
          (λ h. unlocked (or_left _ (opens_any rest) h)) a.0,
    branches-Adds env agent call P rest path (suc i) allow p
        (λ h. unlocked (or_right (opens child) _ h)) a.1,
  )
