-- ===== src/Runtime/Engine/Resume.antt =====
-- What `resume_interrupt` of runtime/engine.py writes before the run goes on, and what
-- `execute_until_blocked` does with a run that is not running.
use workcore.Prelude.{
  ℕ, suc, String, ◌≡◌, ◌≢◌, map, refl, sym, ap, ◌∙◌, subst, ◌⊎◌, inl, inr, true, false, Option,
  none, some, List, [], ◌∷◌, arith, Option-cases, eq_iff,
}
use workcore.Dict.{get, put}
use workcore.Dict.Laws.{get-put_self, get-put}
use workcore.Value.{Value, Fields, end, field}
use workcore.Runtime.Models.{
  Run, RunStatus, Event, Interrupt, Workflow, is_running, is_open, running, waiting, completed,
  failed, cancelled,
}
use workcore.Runtime.Env.{Env, State, Result, ok, raise, set_run, event}
use workcore.Value.Object
use workcore.Runtime.Engine.{
  note_input, target_input, answer, input_or, files_or, Outcome, blocked, raised,
  execute_until_blocked, resume_interrupt, reopen, apply_input, settle_interrupt, closing_events,
  execute_loop, opening_events, failure_event,
}

-- The kinds of the events that tell how a run stands.
abbrev pub kinds_of : RunStatus → List String
kinds_of running = []
kinds_of waiting = "run_waiting_for_input" ∷ []
kinds_of completed = "run_completed" ∷ []
kinds_of failed = "run_failed" ∷ []
kinds_of cancelled = []

Result-cases : (res : Result (Unit {0})) → ((e : String) × (res ≡ raise e)) ⊎ (res ≡ ok tt)
Result-cases (raise e) = inl (e, refl)
Result-cases (ok tt) = inr refl

module _ (env : Env) (w : Workflow) where
  closing_kinds_by :
      (st : RunStatus) (r : Run)
      → r.status ≡ st
      → is_running st ≡ false
      → (map (λ e. e.kind) (closing_events r) ≡ kinds_of st)
        × (map (λ e. e.run_id) (closing_events r) ≡ map (λ _. r.id) (kinds_of st))
  unfolding closing_events failure_event event
  closing_kinds_by running r e off = absurd (ground (arith, off))
  closing_kinds_by waiting r e off = simp (e) (refl, refl)
  closing_kinds_by completed r e off = simp (e) (refl, refl)
  closing_kinds_by failed r e off = simp (e) (refl, refl)
  closing_kinds_by cancelled r e off = simp (e) (refl, refl)

  -- A run that is not running is not taken up by `execute_until_blocked`: nothing in it changes, and
  -- what is emitted is one event of the run, of the kind "run_completed", "run_failed" or
  -- "run_waiting_for_input" as it is completed, failed or waiting, and none where it is cancelled.
  pub execute_until_blocked-stopped :
      (fuel : ℕ) (s : State)
      → is_running s.run.status ≡ false
      → (events : List Event) × (execute_until_blocked env w (suc fuel) s ≡ blocked events s)
        × (map (λ e. e.kind) events ≡ kinds_of s.run.status)
        × (map (λ e. e.run_id) events ≡ map (λ _. s.run.id) (kinds_of s.run.status))
  unfolding execute_until_blocked execute_loop opening_events
  execute_until_blocked-stopped fuel s off = (
    closing_events s.run,
    ground arith,
    (closing_kinds_by s.run.status s.run refl off).0,
    (closing_kinds_by s.run.status s.run refl off).1,
  )

  apply_input-keeps :
      (i : Interrupt) (input : Fields) (r : Run)
      → let q = (apply_input env w i input r).1 in
        (q.interrupts ≡ r.interrupts) × (q.status ≡ r.status)
  unfolding apply_input
  apply_input-keeps i end r = (refl, refl)
  apply_input-keeps i (field k v d) r =
      let input = field k v d in
      elim (Option-cases (note_input env w i.id input (Object.get "interrupts" r.state) r.state)) [
        | inl bad ↦ rw (bad, apply_input) (refl, refl)
        | inr (noted, e) ↦ elim (Option-cases (target_input env w i.state_target input noted)) [
          | inl bad ↦ rw (e, bad, apply_input) (refl, refl)
          | inr (state, e') ↦ rw (e, e', apply_input) (refl, refl)
        ]
      ]

  status-reopen : (i : Interrupt) (r : Run) → (reopen env w i r).status ≡ running
  unfolding reopen
  status-reopen i r = refl

  interrupts-reopen : (i : Interrupt) (r : Run) → (reopen env w i r).interrupts ≡ r.interrupts
  unfolding reopen
  interrupts-reopen i r = ground arith

  -- An interrupt but for its input, which may share an object with the state.
  abbrev pub but_input : Interrupt → Interrupt
  but_input i = record i { input = none }

  abbrev pub other_parts : Option Interrupt → Option Interrupt
  other_parts none = none
  other_parts (some i) = some (but_input i)

  -- The interrupts of a run after the writes, and a second answer to the same one.
  abbrev pub Settled : State → String → Interrupt → Fields → List Value → Run → Type 0
  Settled s id i input files q =
      (other_parts (get id q.interrupts) ≡ some (but_input (answer env w input files i)))
      × (i.state_target ≡ none → get id q.interrupts ≡ some (answer env w input files i))
      × ((k : String)
          → id ≢ k
          → other_parts (get k q.interrupts) ≡ other_parts (get k s.run.interrupts))
      × ((fuel : ℕ) (next : Option Fields) (more : Option (List Value))
          → resume_interrupt env w fuel id next more (set_run s q)
            ≡ raised "Interrupt not found or not open" (set_run s q))

  Settled-put :
      (s : State) (id : String) (i : Interrupt) (input : Fields) (files : List Value) (q : Run)
      → q.interrupts ≡ put id (answer env w input files i) s.run.interrupts
      → Settled s id i input files q
  unfolding resume_interrupt
  Settled-put s id i input files q e =
      let found : get id q.interrupts ≡ some (answer env w input files i) =
        ap (get id) e ∙ get-put_self id (answer env w input files i) s.run.interrupts in
      (
        ap other_parts found,
        (λ _. found),
        (λ k ne. ap other_parts (
            ap (get k) e
            ∙ ground
                (arith, get-put k id (answer env w input files i) s.run.interrupts, eq_iff id k))),
        (λ fuel next more. rw (found, resume_interrupt) refl),
      )

  -- The end of the call, by the result of the writes.
  abbrev ends : ℕ → State → Interrupt → Result (Unit {0}) → Run → Outcome
  ends fuel s i (raise e) q = raised e (set_run s q)
  ends fuel s i (ok done) q = execute_until_blocked env w fuel (set_run s (reopen env w i q))

  -- What `o` comes to: the run goes on, or an exception leaves it.
  abbrev pub GoesOn : ℕ → State → Outcome → Run → Type 0
  GoesOn fuel s o q =
      ((o ≡ execute_until_blocked env w fuel (set_run s q)) × (q.status ≡ running))
      ⊎ ((e : String) × (o ≡ raised e (set_run s q)) × (q.status ≡ s.run.status))

  ends-GoesOn :
      (fuel : ℕ) (s : State) (id : String) (i : Interrupt) (input : Fields) (files : List Value)
      (res : Result (Unit {0})) (q : Run)
      → q.interrupts ≡ put id (answer env w input files i) s.run.interrupts
      → q.status ≡ s.run.status
      → (p : Run) × GoesOn fuel s (ends fuel s i res q) p × Settled s id i input files p
  ends-GoesOn fuel s id i input files (raise e) q h k =
      (q, inr (e, refl, k), Settled-put s id i input files q h)
  ends-GoesOn fuel s id i input files (ok done) q h k = (
    reopen env w i q,
    inl (refl, status-reopen i q),
    Settled-put s id i input files (reopen env w i q) (interrupts-reopen i q ∙ h),
  )

  abbrev written : State → String → Interrupt → Option Fields → Option (List Value) → Run
  written s id i input files =
      settle_interrupt env w id i (input_or env w input) (files_or env w files) s.run

  resume-ends :
      (fuel : ℕ) (s : State) (id : String) (input : Option Fields) (files : Option (List Value))
      (i : Interrupt)
      → get id s.run.interrupts ≡ some i
      → is_open i.status ≡ true
      → let tried = apply_input env w i (input_or env w input) (written s id i input files) in
        resume_interrupt env w fuel id input files s ≡ ends fuel s i tried.0 tried.1
  unfolding resume_interrupt
  resume-ends fuel s id input files i found open_ =
      let tried = apply_input env w i (input_or env w input) (written s id i input files) in
      elim (Result-cases tried.0) [ inl (e, h) ↦ ground arith | inr h ↦ ground arith ]

  -- An open interrupt is answered once, whatever the status of the run. The call ends in one of two
  -- ways: the loop is entered with a run that is set to running, or an exception leaves a run with the
  -- status it had. In the run that the loop is entered with, or that the exception leaves, the
  -- interrupt is resolved and has the files that were given, and the input where it has no state
  -- target; every other interrupt is there as it was, but perhaps for its input; and to answer the
  -- interrupt again is an error that changes nothing in that run.
  pub resume_interrupt-once :
      (fuel : ℕ) (s : State) (id : String) (input : Option Fields) (files : Option (List Value))
      (i : Interrupt)
      → get id s.run.interrupts ≡ some i
      → is_open i.status ≡ true
      → (q : Run) × GoesOn fuel s (resume_interrupt env w fuel id input files s) q
        × Settled s id i (input_or env w input) (files_or env w files) q
  unfolding settle_interrupt
  resume_interrupt-once fuel s id input files i found open_ =
      let d = input_or env w input in
      let l = files_or env w files in
      let tried = apply_input env w i d (written s id i input files) in
      let kept = apply_input-keeps i d (written s id i input files) in
      let (p, on, settled) = ends-GoesOn fuel s id i d l tried.0 tried.1 kept.0 kept.1 in
      (
        p,
        subst (λ o. GoesOn fuel s o p) (sym (resume-ends fuel s id input files i found open_)) on,
        settled,
      )
