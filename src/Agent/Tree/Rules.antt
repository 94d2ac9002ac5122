-- ===== src/Agent/Tree/Rules.antt =====
-- What every child keeps, the inner nodes keep: sequences, parallel nodes and loops.
use agent_stop_and_go.Prelude.{
  ℕ, zero, suc, ◌≡◌, Option, none, some, List, [], ◌∷◌, get_elem?, drop, All, subst,
}
use mathlib.Core.Option.{some-injective}
use agent_stop_and_go.Config.{NodeInfo}
use agent_stop_and_go.Agent.Exec.{Exec}
use agent_stop_and_go.Agent.Exec.Keeps.{
  Keeps, IsPreorder, keeps_rules, Keeps-if, Keeps-when_some, Keeps-bind, Keeps-try, Keeps-pure,
  Keeps-panics,
}
use agent_stop_and_go.Agent.World.{Env, State}
use agent_stop_and_go.Agent.Node.{ResumeInfo, NodeResult}
use agent_stop_and_go.Agent.Tree.{
  Branch, stops, run_remaining, paused_child, resume_child, execute_sequential, run_scheduled,
  execute_parallel, Round, exits, goes_on, run_round, after_round, run_rounds, execute_loop,
}

abbrev pub Runs : (State → State → Type 0) → Branch → Type 0
Runs R b = (resume : Option ResumeInfo) → Keeps R (b resume)

module _ {R : State → State → Type 0} (o : IsPreorder R) where
  nth-Runs :
      (bs : List Branch) (i : ℕ) (b : Branch) → All (Runs R) bs → get_elem? bs i ≡ some b → Runs R b
  nth-Runs [] i b h e = cc
  nth-Runs (c ∷ bs) zero b h e = subst (Runs R) (some-injective _ _ e) h.0
  nth-Runs (c ∷ bs) (suc i) b h e = nth-Runs bs i b h.1 e

  drop-Runs : (n : ℕ) (bs : List Branch) → All (Runs R) bs → All (Runs R) (drop n bs)
  drop-Runs zero bs h = h
  drop-Runs (suc n) [] h = tt
  drop-Runs (suc n) (b ∷ bs) h = drop-Runs n bs h.1

  run_remaining-Keeps :
      (bs : List Branch) (last : Option NodeResult)
      → All (Runs R) bs
      → Keeps R (run_remaining bs last)
  unfolding run_remaining
  run_remaining-Keeps [] last h = Keeps-pure o _
  run_remaining-Keeps (b ∷ bs) last h =
      Keeps-bind o (b none) _ (h.0 none) (λ r.
        Keeps-if (stops r) _ _ (λ _. Keeps-pure o r) (λ _. run_remaining-Keeps bs (some r) h.1))

  resume_child-Keeps :
      (bs : List Branch) (i : ℕ) (r : ResumeInfo) → All (Runs R) bs → Keeps R (resume_child bs i r)
  unfolding resume_child
  resume_child-Keeps bs i r h =
      Keeps-when_some (get_elem? bs i) _ _
        (λ b found. Keeps-bind o (b (some r)) _ (nth-Runs bs i b h found (some r)) (λ result.
          Keeps-if (stops result) _ _ (λ _. Keeps-pure o result)
            (λ _. run_remaining-Keeps (drop (suc i) bs) none (drop-Runs (suc i) bs h))))
        (λ _. Keeps-panics o)

  pub execute_sequential-Keeps :
      (bs : List Branch) (resume : Option ResumeInfo)
      → All (Runs R) bs
      → Keeps R (execute_sequential bs resume)
  unfolding execute_sequential
  execute_sequential-Keeps bs resume h =
      Keeps-when_some (paused_child resume) _ _ (λ (i, r) _. resume_child-Keeps bs i r h)
        (λ _. run_remaining-Keeps bs none h)

  run_scheduled-Keeps :
      (bs : List Branch) (is : List ℕ) → All (Runs R) bs → Keeps R (run_scheduled bs is)
  unfolding run_scheduled
  run_scheduled-Keeps bs [] h = Keeps-pure o _
  run_scheduled-Keeps bs (i ∷ is) h =
      Keeps-when_some (get_elem? bs i) _ _
        (λ b found.
          Keeps-bind o _ _
            (Keeps-try o (b none) _ _ (nth-Runs bs i b h found none) (λ _. Keeps-pure o _)
              (λ _. Keeps-pure o _))
            (λ sent. Keeps-bind o _ _ (run_scheduled-Keeps bs is h) (λ rest. Keeps-pure o _)))
        (λ _. run_scheduled-Keeps bs is h)

  pub execute_parallel-Keeps :
      (env : Env) (bs : List Branch) → All (Runs R) bs → Keeps R (execute_parallel env bs)
  unfolding execute_parallel
  execute_parallel-Keeps env bs h =
      search (keeps_rules, o, λ (order : List ℕ). run_scheduled-Keeps bs order h)

  run_round-Keeps :
      (bs : List Branch) (last : Option NodeResult) → All (Runs R) bs → Keeps R (run_round bs last)
  unfolding run_round
  run_round-Keeps [] last h = Keeps-pure o _
  run_round-Keeps (b ∷ bs) last h =
      Keeps-bind o (b none) _ (h.0 none)
        (λ r. Keeps-if r.exit_loop _ _ (λ _. Keeps-pure o _) (λ _. run_round-Keeps bs (some r) h.1))

  after_round-Keeps :
      (k : Option NodeResult → Exec State NodeResult) (r : Round)
      → ((last : Option NodeResult) → Keeps R (k last))
      → Keeps R (after_round k r)
  unfolding after_round
  after_round-Keeps k (exits r) h = Keeps-pure o _
  after_round-Keeps k (goes_on last) h = h last

  run_rounds-Keeps :
      (bs : List Branch) (n : ℕ) (last : Option NodeResult)
      → All (Runs R) bs
      → Keeps R (run_rounds bs n last)
  unfolding run_rounds
  run_rounds-Keeps bs zero last h = Keeps-pure o _
  run_rounds-Keeps bs (suc n) last h =
      Keeps-bind o (run_round bs last) _ (run_round-Keeps bs last h)
        (λ round. after_round-Keeps _ round (λ l. run_rounds-Keeps bs n l h))

  pub execute_loop-Keeps :
      (n : NodeInfo) (bs : List Branch) → All (Runs R) bs → Keeps R (execute_loop n bs)
  unfolding execute_loop
  execute_loop-Keeps n bs h = run_rounds-Keeps bs _ none h
