-- ===== src/Mcp/Composite/Starting.antt =====
-- Which of the sub-clients run after a Start of the composite client.
use agent_stop_and_go.Prelude.{
  ℕ, ltb, zero, suc, ◌+◌, ◌≤◌, ◌<◌, ◌≡◌, refl, subst, Bool, true, false, Option, none, some, List,
  [], ◌∷◌, nat_eq, length, arith, Option-cases, inl, inr, if◌then◌else◌,
}
use agent_stop_and_go.Mcp.{Error}
use agent_stop_and_go.Mcp.Composite.{
  Action, starts, fails, stops, NamedClient, CompositeClient, stop_back, start_all, stop_errors,
  stop_all_locked, merge_clients, aggregate, World, start,
}

-- Whether a client runs: the last thing done to it was a Start that succeeded.
unfoldable pub is_running : ℕ → List Action → Bool
is_running i [] = false
is_running i (starts j ∷ done) = if nat_eq i j then true else is_running i done
is_running i (fails j ∷ done) = if nat_eq i j then false else is_running i done
is_running i (stops j ∷ done) = if nat_eq i j then false else is_running i done

-- Exactly the clients below n run.
abbrev RunsBelow : ℕ → List Action → Type 0
RunsBelow n done =
    ((j : ℕ) → j < n → is_running j done ≡ true) × ((j : ℕ) → n ≤ j → is_running j done ≡ false)

stop_back-RunsBelow :
    (i : ℕ) (done : List Action) → RunsBelow i done → RunsBelow 0 (stop_back i done)
unfolding stop_back is_running
stop_back-RunsBelow zero done h = h
stop_back-RunsBelow (suc i) done (below, above) =
    stop_back-RunsBelow i (stops i ∷ done)
      ((λ j l. ground (arith, below j (omega arith))), (λ j l. ground (arith, above j)))

start_all-fails :
    (i : ℕ) (l : List NamedClient) (done : List Action) (e : Error)
    → RunsBelow i done
    → (start_all i l done).0 ≡ some e
    → RunsBelow 0 (start_all i l done).1
unfolding start_all is_running
start_all-fails i [] done e h failed = ground arith
start_all-fails i (nc ∷ l) done e (below, above) failed = elim (Option-cases (nc.start done)) [
  | inl ok ↦
      rw (ok, start_all)
        (start_all-fails (suc i) l (starts i ∷ done) e
          ((λ j k. ground (arith, below j)), (λ j k. ground (arith, above j))) (ground arith))
  | inr (bad, why) ↦
      rw (why, start_all)
        (stop_back-RunsBelow i (fails i ∷ done)
          ((λ j k. ground (arith, below j)), (λ j k. ground (arith, above j))))
]

start_all-runs :
    (i : ℕ) (l : List NamedClient) (done : List Action)
    → RunsBelow i done
    → (start_all i l done).0 ≡ none
    → RunsBelow (i + length l) (start_all i l done).1
unfolding start_all is_running
start_all-runs i [] done h ok = subst (λ n. RunsBelow n done) (omega arith) h
start_all-runs i (nc ∷ l) done (below, above) ok = elim (Option-cases (nc.start done)) [
  | inl fine ↦
      rw (fine, start_all)
        (subst (λ n. RunsBelow n (start_all (suc i) l (starts i ∷ done)).1) (omega arith)
          (start_all-runs (suc i) l (starts i ∷ done)
            ((λ j k. ground (arith, below j)), (λ j k. ground (arith, above j))) (ground arith)))
  | inr (bad, why) ↦ absurd (ground arith)
]

-- stopAllLocked stops the clients from i on.
stop_errors-RunsBelow :
    (i : ℕ) (l : List NamedClient) (done : List Action)
    → ((j : ℕ) → j < i → is_running j done ≡ false)
    → ((j : ℕ) → i + length l ≤ j → is_running j done ≡ false)
    → (j : ℕ) → is_running j (stop_errors i l done).1 ≡ false
unfolding stop_errors is_running
stop_errors-RunsBelow i [] done below above j = ground (arith, below j, above j)
stop_errors-RunsBelow i (nc ∷ l) done below above j =
    let rest =
      stop_errors-RunsBelow (suc i) l (stops i ∷ done) (λ k h. ground (arith, below k))
        (λ k h. ground (arith, above k)) j in
    elim (Option-cases (nc.stop done)) [
      | inl fine ↦ ground (arith, rest)
      | inr (e, bad) ↦ ground (arith, rest)
    ]

stop_all_locked-after :
    (l : List NamedClient) (done : List Action)
    → (stop_all_locked l done).1 ≡ (stop_errors 0 l done).1
unfolding stop_all_locked
stop_all_locked-after l done = ground arith

pub empty-RunsBelow : RunsBelow 0 []
unfolding is_running
empty-RunsBelow = ((λ j l. absurd (omega arith)), (λ j l. refl))

stop_all_locked-stops :
    (l : List NamedClient) (done : List Action)
    → RunsBelow (length l) done
    → (j : ℕ) → is_running j (stop_all_locked l done).1 ≡ false
stop_all_locked-stops l done h j =
    rw (stop_all_locked-after l done)
      (stop_errors-RunsBelow 0 l done (λ k m. absurd (omega arith)) (λ k m. h.1 k (omega arith)) j)

-- Exactly the clients below n run, as one equation.
abbrev pub Runs : ℕ → List Action → Type 0
Runs n done = (j : ℕ) → is_running j done ≡ ltb j n

RunsBelow-Runs : (n : ℕ) (done : List Action) → RunsBelow n done → Runs n done
RunsBelow-Runs n done h j = ground (arith, h.0 j, h.1 j)

Runs-RunsBelow : (n : ℕ) (done : List Action) → Runs n done → RunsBelow n done
Runs-RunsBelow n done h = ((λ j l. ground (arith, h j)), (λ j l. ground (arith, h j)))

-- What is left after Start and after the aggregation: nothing runs, or everything does.
abbrev pub IsAllOrNothing : ℕ → Option Error × World → Type 0
IsAllOrNothing n (some e, (c, done)) = Runs 0 done × (c.started ≡ false)
IsAllOrNothing n (none, (c, done)) = Runs n done × (c.started ≡ true)

aggregate-IsAllOrNothing :
    (c : CompositeClient) (done : List Action)
    → c.started ≡ false
    → RunsBelow (length c.clients) done
    → IsAllOrNothing (length c.clients) (aggregate (c, done))
unfolding aggregate
aggregate-IsAllOrNothing c done idle h =
    elim (Option-cases
      (merge_clients 0 c.clients done
        (record { tools = []; owner = []; tool_map = c.tool_map })).0) [
          | inl fine ↦ rw (fine, aggregate) (RunsBelow-Runs _ done h, refl)
          | inr (e, bad) ↦
              rw (bad, aggregate)
                (
                  RunsBelow-Runs 0 _ (
                    (λ j l. absurd (omega arith)),
                    (λ j l. stop_all_locked-stops c.clients done h j),
                  ),
                  idle,
                )
        ]

-- Where no client runs, a Start that fails leaves none running, whether a client failed to start or two
-- clients have a tool of one name, and the composite is not started. One that succeeds leaves all of
-- the clients running, and the composite started.
pub start-IsAllOrNothing :
    (c : CompositeClient) (done : List Action)
    → c.started ≡ false
    → Runs 0 done
    → IsAllOrNothing (length c.clients) (start (c, done))
unfolding start
start-IsAllOrNothing c done idle h = elim (Option-cases (start_all 0 c.clients done).0) [
  | inl fine ↦ simp (idle) (
      rw (fine, start)
        (aggregate-IsAllOrNothing c (start_all 0 c.clients done).1 idle (
          subst (λ n. RunsBelow n (start_all 0 c.clients done).1) (omega arith)
            (start_all-runs 0 c.clients done (Runs-RunsBelow 0 done h) fine))))
  | inr (e, bad) ↦ simp (idle) (
      rw (bad, start)
        (
          RunsBelow-Runs 0 _ (start_all-fails 0 c.clients done e (Runs-RunsBelow 0 done h) bad),
          idle,
        ))
]
