-- ===== src/Runtime/Work/Execute.antt =====
-- One call of `_execute_node` uses up some of the work that is left, or stops the run.
use workcore.Prelude.{
  ℕ, ◌<◌, String, ◌≡◌, ◌≢◌, refl, ap, ap₂, ◌∙◌, ◌⊎◌, inl, inr, true, false, some, List, arith,
  eq_iff, eq_refl, ◌==◌, Bool-cases, Option-cases,
}
use workcore.Prelude.Int.{leb_ℤ, pos}
use workcore.Dict.{get, put}
use workcore.Dict.Laws.{get-put, get-put_self}
use workcore.Runtime.Models.{Node, NodeRun, Run, Event, Workflow, resolved, in_progress, is_running}
use workcore.Runtime.Config.{text, same_text, max_retries}
use workcore.Runtime.Env.{Result, ok, raise, Env, State}
use workcore.Runtime.Writes.{edit_node_run, with_status}
use workcore.Runtime.Schedule.{is_while}
use workcore.Runtime.Execute.{
  enter, finished, settle, conclude, recover, run_attempt, execute_node, fresh_node_run,
  retry_node_run, node_run_or,
}
use workcore.Runtime.Frame.{Same, progress, progress_at}
use workcore.Runtime.Work.{remaining, pending, work}
use workcore.Runtime.Work.Attempt.{Tried, same, more, attempt-Tried}
use workcore.Runtime.Work.Step.{Spent, Spent-work, Entered-work}

module _ (env : Env) (w : Workflow) (n : Node) where
  -- The run in which the attempt is made: the node is in progress, and has the attempts left that
  -- were pending before.
  record Begun (r q : Run) : Type 0 where
    attempt_no : ℕ
    own : progress_at n.id q ≡ some (in_progress, attempt_no)
    left :
        pending env n (get n.id r.branch_selection) (progress_at n.id r)
        ≡ remaining env n attempt_no
    others : (k : String) → n.id ≢ k → progress_at k q ≡ progress_at k r
    branches : q.branch_selection ≡ r.branch_selection
    loops : q.loop_state ≡ r.loop_state

  abbrev begin : Run → Run
  begin r = edit_node_run n.id (with_status in_progress) (enter env w n r)

  Begun-begin : (r : Run) → finished env w n (enter env w n r) ≡ false → Begun r (begin r)
  unfolding finished enter
  Begun-begin r h = elim (Option-cases (get n.id r.node_runs)) [
    | inl absent ↦
        let twice = λ (k : String).
          get-put k n.id (with_status in_progress (fresh_node_run n.id))
            (put n.id (fresh_node_run n.id) r.node_runs) in
        let once = λ (k : String). get-put k n.id (fresh_node_run n.id) r.node_runs in
        record {
          attempt_no = 1;
          own = ground (arith, twice n.id, once n.id, eq_refl n.id);
          left = ground arith;
          others = λ k ne. ground (arith, twice k, once k, once n.id, eq_refl n.id, eq_iff n.id k);
          branches = ground (arith, once n.id, eq_refl n.id);
          loops = ground (arith, once n.id, eq_refl n.id);
        }
    | inr (nr, e) ↦
        let once = λ (k : String). get-put k n.id (with_status in_progress nr) r.node_runs in
        record {
          attempt_no = nr.attempt;
          own = ground (arith, once n.id, eq_refl n.id);
          left = ground arith;
          others = λ k ne. ground (arith, once k, eq_iff n.id k);
          branches = ground arith;
          loops = ground arith;
        }
  ]

  conclude-running :
      (started emitted : List Event) (r : Run)
      → is_running r.status ≡ true
      → (conclude env w n started emitted r).1 ≡ edit_node_run n.id (with_status resolved) r
  unfolding conclude
  conclude-running started emitted r h = ground arith

  status-conclude :
      (started emitted : List Event) (r : Run)
      → (conclude env w n started emitted r).1.status ≡ r.status
  unfolding conclude
  status-conclude started emitted r = ground arith

  loops-settle :
      (started : List Event) (res : Result (Unit {0})) (s : State)
      → (settle env w n started res s).1.loop_state ≡ s.run.loop_state
  unfolding conclude recover
  loops-settle started (ok u) s = ground arith
  loops-settle started (raise e) s = ground arith

  -- A new node run with fewer attempts left, and nothing else that the scheduler sees.
  put-Spent :
      (r r₁ q p : Run) (nr : NodeRun) (b : Begun r r₁)
      → Same n.id r₁ q
      → p.node_runs ≡ put n.id nr q.node_runs
      → p.branch_selection ≡ q.branch_selection
      → p.loop_state ≡ q.loop_state
      → pending env n (get n.id q.branch_selection) (some (nr.status, nr.attempt))
        < remaining env n b.attempt_no
      → Spent env w n r p
  put-Spent r r₁ q p nr b f e₀ e₁ e₂ h = record {
    others = λ k ne.
        let seen : progress_at k p ≡ progress_at k q =
          ap (λ d. progress (get k d)) e₀
          ∙ ground (arith, get-put k n.id nr q.node_runs, eq_iff n.id k) in
        (
          seen ∙ (f.progressed k ∙ b.others k ne),
          ap (get k) e₁ ∙ (f.branches k ne ∙ ap (get k) b.branches),
        );
    loops = e₂ ∙ (f.loops ∙ b.loops);
    fewer =
        let seen : progress_at n.id p ≡ some (nr.status, nr.attempt) =
          ap (λ d. progress (get n.id d)) e₀ ∙ ap progress (get-put_self n.id nr q.node_runs) in
        omega (arith, b.left, ap₂ (pending env n) (ap (get n.id) e₁) seen);
  }

  -- The node has its run still, at the attempt that was begun.
  own-Begun :
      (r r₁ q : Run) (b : Begun r r₁)
      → Same n.id r₁ q
      → (nr : NodeRun) × (get n.id q.node_runs ≡ some nr) × (nr.attempt ≡ b.attempt_no)
  own-Begun r r₁ q b f =
      let seen : progress_at n.id q ≡ some (in_progress, b.attempt_no) =
        f.progressed n.id ∙ b.own in
      elim (Option-cases (get n.id q.node_runs)) [
        | inl absent ↦ absurd (cc)
        | inr (nr, e) ↦ (nr, e, ground arith)
      ]

  edit-Spent :
      (r r₁ q : Run) (b : Begun r r₁)
      → Same n.id r₁ q
      → ((n.kind == "while") ≡ true
          → same_text (get n.id q.branch_selection) (text n "exit_target") ≡ true)
      → Spent env w n r (edit_node_run n.id (with_status resolved) q)
  edit-Spent r r₁ q b f x =
      let (nr, e, a) = own-Begun r r₁ q b f in
      put-Spent r r₁ q _ (with_status resolved nr) b f (ground arith) (ground arith) (ground arith)
        (elim (Bool-cases (is_while n)) [
          | inl loop ↦ ground (arith, x loop)
          | inr other ↦ ground arith
        ])

  recover-Spent :
      (r r₁ q : Run) (b : Begun r r₁) (e : String) (started : List Event)
      → Same n.id r₁ q
      → let p = (recover env w n e started (node_run_or env w n (get n.id q.node_runs)) q).1 in
        Spent env w n r p ⊎ (is_running p.status ≡ false)
  recover-Spent r r₁ q b e started f =
      let (nr, found, a) = own-Begun r r₁ q b f in
      elim (Bool-cases (leb_ℤ (pos nr.attempt) (max_retries env n))) [
        | inl again ↦ inl (
            put-Spent r r₁ q _ (retry_node_run env w e nr) b f (unfold recover in ground arith)
              (unfold recover in ground arith) (unfold recover in ground arith) (ground arith))
        | inr last ↦ inr (unfold recover in ground arith)
      ]

  -- After the attempt: the work is less, or the run has stopped.
  settle-work :
      (r r₁ : Run) (res : Result (Unit {0})) (s : State) (started : List Event)
      → get n.id w.nodes ≡ some n
      → Begun r r₁
      → Tried n r₁ res s.run
      → let p = (settle env w n started res s).1 in
        (work env w p < work env w r) ⊎ (is_running p.status ≡ false)
  settle-work r r₁ res s started known b (more loop h) =
      inl (Entered-work env w n r r₁ s.run _ known loop h b.loops (loops-settle started res s))
  settle-work r r₁ (ok u) s started known b (same f x) =
      elim (Bool-cases (is_running s.run.status)) [
        | inl on ↦ inl (
            rw (conclude-running started s.emitted s.run on)
              (Spent-work env w n r _ known (edit-Spent r r₁ s.run b f (λ l. x l refl))))
        | inr off ↦ inr (rw status-conclude off)
      ]
  settle-work r r₁ (raise e) s started known b (same f x) =
      elim (recover-Spent r r₁ s.run b e started f) [
        | inl less ↦ inl (Spent-work env w n r _ known less)
        | inr off ↦ inr off
      ]

  -- A call that does not return at once uses up work, or stops the run.
  pub execute_node-work :
      (s : State)
      → get n.id w.nodes ≡ some n
      → finished env w n (enter env w n s.run) ≡ false
      → let t = (execute_node env w n s).1 in
        (work env w t.run < work env w s.run) ⊎ (is_running t.run.status ≡ false)
  unfolding execute_node run_attempt
  execute_node-work s known open_ = rw open_ (
      settle-work s.run (begin s.run) _ _ _ known (Begun-begin s.run open_)
        (attempt-Tried env w n _))
