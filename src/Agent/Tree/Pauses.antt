-- ===== src/Agent/Tree/Pauses.antt =====
-- What the inner nodes make of a child that pauses or resumes.
use agent_stop_and_go.Prelude.{
  ℕ, zero, suc, ◌≡◌, refl, false, String, Option, none, some, List, [], ◌∷◌, get_elem?, drop,
  nat_eq, if◌then◌else◌, length, arith,
}
use agent_stop_and_go.Config.{NodeInfo}
use agent_stop_and_go.Agent.Exec.{ok, pure, throw, reads, ◌>>=◌, resume_with, when_some}
use agent_stop_and_go.Agent.World.{Env, State}
use agent_stop_and_go.Agent.Node.{NodeResult, responds}
use agent_stop_and_go.Agent.Tree.{
  Branch, stops, run_remaining, paused_child, resume_child, execute_sequential, execute_parallel,
  run_round, after_round, run_rounds, max_rounds, execute_loop,
}

drop-length : (bs : List Branch) (i : ℕ) → suc i ≡ length bs → drop (suc i) bs ≡ []
drop-length [] i h = refl
drop-length (b ∷ []) zero h = refl
drop-length (b ∷ c ∷ bs) zero h = absurd (omega arith)
drop-length (b ∷ bs) (suc i) h = drop-length bs i (omega arith)

-- A sequential node that resumes in its last child, where that child neither pauses nor stops the
-- pipeline, responds with the empty text, whatever the child has responded.
resume_last_is_empty :
    (bs : List Branch) (i : ℕ) (rest : List ℕ) (result key : String) (b : Branch) (s t : State)
    (x : NodeResult)
    → get_elem? bs i ≡ some b
    → suc i ≡ length bs
    → b (some (record { path = rest; tool_result = result; paused_node_output_key = key })) s
      ≡ (ok x, t)
    → stops x ≡ false
    → execute_sequential bs
        (some (record { path = i ∷ rest; tool_result = result; paused_node_output_key = key }))
        s
      ≡ (ok (responds ""), t)
unfolding execute_sequential paused_child resume_child when_some run_remaining ◌>>=◌ pure
resume_last_is_empty bs i rest result key b s t x found last ran goes =
    rw (found, when_some) (rw (ran, ◌>>=◌) (rw (goes) (rw (drop-length bs i last))))

-- The result of a parallel node never pauses, exits a loop or asks for a token, whatever its children
-- did, so a pause of a child is reported to nobody.
pub parallel_never_stops :
    (env : Env) (bs : List Branch) (s t : State) (x : NodeResult)
    → execute_parallel env bs s ≡ (ok x, t)
    → stops x ≡ false
unfolding execute_parallel reads ◌>>=◌ resume_with pure throw when_some
parallel_never_stops env bs s t x h = ground arith

-- A step, so many times.
abbrev pub iterate : ℕ → (State → State) → State → State
iterate zero f s = s
iterate (suc n) f s = iterate n f (f s)

-- A child that always ends well and never exits the loop.
abbrev pub GoesOn : Branch → Type 0
GoesOn b =
    (s : State) → (x : NodeResult) × (t : State) × (b none s ≡ (ok x, t)) × (x.exit_loop ≡ false)

loop_rounds :
    (b : Branch) (n : ℕ) (last : Option NodeResult) (s : State)
    → GoesOn b
    → (run_rounds (b ∷ []) n last s).1 ≡ iterate n (λ u. (b none u).1) s
unfolding run_rounds run_round after_round ◌>>=◌ pure
loop_rounds b zero last s h = refl
loop_rounds b (suc n) last s h =
    let (x, t, ran, goes) = h s in rw (ran, ◌>>=◌) (simp goes (loop_rounds b n (some x) t h))

-- A loop over one child that never fails and never calls exit_loop runs it in as many rounds as the
-- node's maximum says, or ten without one, also where the child pauses for an approval or asks for
-- a token.
pub loop_ignores_pause :
    (n : NodeInfo) (b : Branch) (s : State)
    → GoesOn b
    → (execute_loop n (b ∷ []) s).1
      ≡ iterate (if nat_eq n.max_iterations 0 then 10 else n.max_iterations) (λ u. (b none u).1) s
unfolding execute_loop max_rounds
loop_ignores_pause n b s h = loop_rounds b (max_rounds n) none s h
