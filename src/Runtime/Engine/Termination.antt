-- ===== src/Runtime/Engine/Termination.antt =====
-- The loop of `execute_until_blocked` ends: each of its rounds uses up some of the run's work.
use workcore.Prelude.{
  ℕ, zero, suc, ◌≤◌, ◌<◌, ◌≡◌, refl, sym, ap, ◌∙◌, subst, ◌⊎◌, inl, inr, true, false, some, List,
  [], ◌∷◌, ◌++◌, arith, Bool-cases, Option-cases, List-cases,
}
use workcore.Dict.{get}
use workcore.Dict.Laws.{get-put_self}
use workcore.Runtime.Models.{Node, Run, Event, Workflow, is_running}
use workcore.Runtime.Env.{Env, State}
use workcore.Runtime.Execute.{execute_node, enter, finished, fresh_node_run}
use workcore.Runtime.Schedule.{runnable_nodes}
use workcore.Runtime.Schedule.Ready.{
  All, IsReady, ready_unfinished, runnable_nodes-IsReady, runnable_nodes-some, Sourced,
}
use workcore.Runtime.Work.{IsKeyed, work}
use workcore.Runtime.Work.Execute.{execute_node-work}
use workcore.Runtime.Engine.{
  Outcome, blocked, execute_round, execute_loop, execute_until_blocked, opening_events,
  closing_events, close,
}

-- A node of the workflow, under its own id.
abbrev IsKnown : Workflow → Node → Type 0
IsKnown w n = get n.id w.nodes ≡ some n

All-IsKnown : (w : Workflow) (r : Run) (l : List Node) → All (IsReady w r) l → All (IsKnown w) l
All-IsKnown w r [] h = tt
All-IsKnown w r (n ∷ l) ((known, free), h) = (known, All-IsKnown w r l h)

module _ (env : Env) (w : Workflow) where
  -- The run is left with less than `b` to do, or it has stopped.
  abbrev Within : ℕ → Run → Type 0
  Within b r = (work env w r < b) ⊎ (is_running r.status ≡ false)

  Within-weaken : {a b : ℕ} (r : Run) → a ≤ b → Within a r → Within b r
  Within-weaken r le (inl less) = inl (omega (arith, less, le))
  Within-weaken r le (inr off) = inr off

  finished-run :
      (n : Node) (s : State)
      → finished env w n (enter env w n s.run) ≡ true
      → (execute_node env w n s).1.run ≡ s.run
  unfolding execute_node finished enter
  finished-run n s h = elim (Option-cases (get n.id s.run.node_runs)) [
    | inl absent ↦ absurd (ground (arith, get-put_self n.id (fresh_node_run n.id) s.run.node_runs))
    | inr (nr, e) ↦ ground arith
  ]

  -- A call of `_execute_node` never adds work, whether or not it returns at once.
  execute_node-Within :
      (n : Node) (s : State)
      → IsKnown w n
      → Within (suc (work env w s.run)) (execute_node env w n s).1.run
  execute_node-Within n s known = elim (Bool-cases (finished env w n (enter env w n s.run))) [
    | inl over ↦ inl (omega (arith, ap (work env w) (finished-run n s over)))
    | inr open_ ↦ Within-weaken _ (omega arith) (execute_node-work env w n s known open_)
  ]

  -- Nor does the rest of a round.
  rest-Within :
      (b : ℕ) (n : Node) (l : List Node) (s : State)
      → Within b (execute_node env w n s).1.run
      → ((t : State) → Within (suc (work env w t.run)) (execute_round env w l t).1.run)
      → Within b (execute_round env w (n ∷ l) s).1.run
  unfolding execute_round
  rest-Within b n l s h next =
      let s' = (execute_node env w n s).1 in
      elim (Bool-cases (is_running s'.run.status)) [
        | inl on ↦ rw on (elim h [
          | inl less ↦ Within-weaken _ (omega (arith, less)) (next s')
          | inr off ↦ absurd (cc)
        ])
        | inr off ↦ rw off (inr off)
      ]

  execute_round-Within :
      (l : List Node) (s : State)
      → All (IsKnown w) l
      → Within (suc (work env w s.run)) (execute_round env w l s).1.run
  execute_round-Within [] s known = inl (unfold execute_round in omega arith)
  execute_round-Within (n ∷ l) s (here, known) =
      rest-Within _ n l s (execute_node-Within n s here) (λ t. execute_round-Within l t known)

  -- The first node of a round uses up work.
  execute_round-work :
      (n : Node) (l : List Node) (s : State)
      → All (IsReady w s.run) (n ∷ l)
      → Within (work env w s.run) (execute_round env w (n ∷ l) s).1.run
  execute_round-work n l s ((known, free), rest) =
      rest-Within _ n l s (execute_node-work env w n s known (ready_unfinished env w s.run n free))
        (λ t. execute_round-Within l t (All-IsKnown w s.run l rest))

  -- Either the run stopped, or nothing of it can be run.
  abbrev IsBlocked : Run → Type 0
  IsBlocked r = (is_running r.status ≡ false) ⊎ (runnable_nodes w r ≡ some [])

  abbrev Blocks : Outcome → Type 0
  Blocks o = (events : List Event) × (t : State) × (o ≡ blocked events t) × IsBlocked t.run

  looked-Blocks :
      (fuel : ℕ) (events : List Event) (s : State)
      → is_running s.run.status ≡ false
      → Blocks (execute_loop env w (suc fuel) events s)
  unfolding execute_loop
  looked-Blocks fuel events s off = (events, s, rw off refl, inl off)

  loop_stuck :
      (fuel : ℕ) (events : List Event) (s : State)
      → is_running s.run.status ≡ true
      → runnable_nodes w s.run ≡ some []
      → execute_loop env w (suc fuel) events s ≡ blocked events s
  unfolding execute_loop
  loop_stuck fuel events s on e = rw (on, e) refl

  loop_round :
      (fuel : ℕ) (events : List Event) (s : State) (n : Node) (l : List Node)
      → is_running s.run.status ≡ true
      → runnable_nodes w s.run ≡ some (n ∷ l)
      → let round = execute_round env w (n ∷ l) s in
        execute_loop env w (suc fuel) events s ≡ execute_loop env w fuel (events ++ round.0) round.1
  unfolding execute_loop
  loop_round fuel events s n l on e = rw (on, e) refl

  execute_loop-Blocks :
      (fuel : ℕ) (events : List Event) (s : State)
      → IsKeyed w
      → Sourced w.edges w
      → Within fuel s.run
      → Blocks (execute_loop env w (suc fuel) events s)
  execute_loop-Blocks fuel events s keyed sourced (inr off) = looked-Blocks fuel events s off
  execute_loop-Blocks zero events s keyed sourced (inl less) = absurd (omega (arith, less))
  execute_loop-Blocks (suc fuel) events s keyed sourced (inl less) =
      let go = execute_loop-Blocks fuel in
      elim (Bool-cases (is_running s.run.status)) [
        | inr off ↦ looked-Blocks (suc fuel) events s off
        | inl on ↦ elim (Option-cases (runnable_nodes w s.run)) [
          | inl stuck ↦ absurd (runnable_nodes-some w s.run sourced stuck)
          | inr (l, e) ↦ elim (List-cases l) [
            | inl nothing ↦
                let e' = e ∙ ap some nothing in
                (events, s, loop_stuck (suc fuel) events s on e', inr e')
            | inr (n, rest, more) ↦
                let e' = e ∙ ap some more in
                let ready = runnable_nodes-IsReady w s.run (n ∷ rest) keyed e' in
                subst Blocks (sym (loop_round (suc fuel) events s n rest on e')) (
                  go _ _ keyed sourced
                    (Within-weaken _ (omega (arith, less)) (execute_round-work n rest s ready)))
          ]
        ]
      ]

  -- With more fuel than the run has work, `execute_until_blocked` comes back, without an exception:
  -- its events are those of a loop followed by the closing ones, and at its end the run is not
  -- running or no node of it can be run. The hypotheses are that the nodes are stored each under
  -- its own id, and that every edge leaves a node of the workflow.
  pub execute_until_blocked-IsBlocked :
      (fuel : ℕ) (s : State)
      → IsKeyed w
      → Sourced w.edges w
      → suc (work env w s.run) < fuel
      → (events : List Event) × (t : State) × (execute_until_blocked env w fuel s
          ≡ blocked (events ++ closing_events t.run) t)
        × ((is_running t.run.status ≡ false) ⊎ (runnable_nodes w t.run ≡ some []))
  unfolding execute_until_blocked
  execute_until_blocked-IsBlocked zero s keyed sourced enough = absurd (omega (arith, enough))
  execute_until_blocked-IsBlocked (suc fuel) s keyed sourced enough =
      let (events, t, e, blocks) =
        execute_loop-Blocks fuel (opening_events s.run) s keyed sourced
          (inl (omega (arith, enough))) in
      (events, t, ap (close env w) e, blocks)
