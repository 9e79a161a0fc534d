-- ===== src/Orchestrator/Replay/Laws.antt =====
-- A replay decides as the live handler does.
use workcore.Prelude.{
  ℕ, suc, String, ◌≡◌, refl, List, Bool, true, false, ◌&&◌, Option, none, some, arith, ◌==◌, ltb,
  Bool-cases, inl, inr, if◌then◌else◌,
}
use workcore.Orchestrator.Records.{SessionStateRecord, OrchestrationDecisionRecord}
use workcore.Orchestrator.Store.Sessions.{save_session_state, append_stack_entry}
use workcore.Orchestrator.Policy.{
  latest_switch, switch_policy_error_code, switch_retry_after_seconds, is_explicit_switch_request,
}
use workcore.Orchestrator.Candidates.{given, resolve_target_workflow}
use workcore.Orchestrator.World.{
  WorkflowEngineStateSnapshot, Outcome, ok, raise, Services, World, ◌>>=◌,
}
use workcore.Orchestrator.Handler.{push_run, user_turn}
use workcore.Orchestrator.Turn.{
  Turn, Setting, is_unclear, is_decisive, cancel_turn, clarify_turn, switch_turn, resume_turn,
  start_turn, other_turn, operator_turn, elsewhere_turn, target_turn, route_turn, retry_after,
  start_action, act,
}
use workcore.Orchestrator.Turn.Safety.{Outcome-cases}
use workcore.Orchestrator.Replay.{
  ReplayState, Replayed, Case, replayed, replay_other, replay_target, replay_clarify, replay_cancel,
  replay_case,
}

-- The live turn and the replayed case agree, where the turn comes to an end.
pub record Agree (route_type : String) (t : Turn) (r : Replayed) : Type 0 where
  pub same_action : t.action ≡ r.action
  pub same_error : t.error_code ≡ r.error_code
  pub same_wait : t.retry_after_s ≡ r.retry_after_s
  pub same_workflow : (route_type == "CANCEL") ≡ false → t.chosen_workflow_id ≡ r.chosen_workflow_id
  pub same_turns :
      (route_type == "CANCEL") ≡ false
      → (route_type == "OPERATOR") ≡ false
      → (t.state.disambiguation_turns ≡ r.after.disambiguation_turns)
        × (t.state.pending_disambiguation ≡ r.after.pending_disambiguation)

module _ {E : Type 0} (services : Services E) (g : Setting) where
  abbrev pub AgreeEnd : Outcome Turn × World E → Replayed → Type 0
  AgreeEnd (ok t, w) r = Agree g.decision.route_type t r
  AgreeEnd (raise e, w) r = Unit

  -- The case that the live handler would meet in this world, with the decisions that a replay keeps.
  abbrev pub case_of : List OrchestrationDecisionRecord → World E → Case
  case_of recent w = record {
    lower = services.texts.lower;
    add = services.texts.add;
    policy = g.policy;
    recent_decisions = recent;
    message_text = g.request.message_text;
    decision = g.decision;
    now = services.clock w.tick;
    later = services.clock (suc w.tick);
  }

module _ {E : Type 0} (services : Services E) (g : Setting)
    (recent : List OrchestrationDecisionRecord)
    (same_switch : latest_switch recent ≡ latest_switch g.recent_decisions) where
  same_code :
      (now : ℕ) (asked : Bool)
      → switch_policy_error_code now g.policy recent asked
        ≡ switch_policy_error_code now g.policy g.recent_decisions asked
  unfolding switch_policy_error_code
  same_code now asked = rw same_switch refl

  same_retry :
      (now : ℕ) (code : String)
      → switch_retry_after_seconds now code g.policy g.recent_decisions
        ≡ switch_retry_after_seconds now code g.policy recent
  unfolding switch_retry_after_seconds
  same_retry now code = rw same_switch refl

  same_turn :
      (t : Turn) (r : Replayed)
      → t.action ≡ r.action
      → t.error_code ≡ r.error_code
      → t.retry_after_s ≡ r.retry_after_s
      → t.chosen_workflow_id ≡ r.chosen_workflow_id
      → t.state.disambiguation_turns ≡ r.after.disambiguation_turns
      → t.state.pending_disambiguation ≡ r.after.pending_disambiguation
      → Agree g.decision.route_type t r
  same_turn t r a e s c n p = record {
    same_action = a;
    same_error = e;
    same_wait = s;
    same_workflow = λ _. c;
    same_turns = λ _ _. (n, p);
  }

  wait_of :
      (w : World E) (refused : Option String)
      → retry_after services g (services.clock (suc w.tick)) refused ≡ elim refused [
        | none ↦ none
        | some code ↦
            switch_retry_after_seconds
              (case_of services g recent w).later
              code
              (case_of services g recent w).policy
              (case_of services g recent w).recent_decisions
      ]
  wait_of w none = refl
  wait_of w (some code) = same_retry (services.clock (suc w.tick)) code

  module _ (a : WorkflowEngineStateSnapshot) (state : SessionStateRecord) where
    resume_turn-Agree :
        (refused : Option String) (retry : Option ℕ) (w : World E)
        → AgreeEnd services g
            (resume_turn services g a refused retry state w)
            (replayed "RESUME_CURRENT" (some a.workflow_id) refused retry (some a.workflow_id))
    unfolding resume_turn ◌>>=◌
    resume_turn-Agree refused retry w =
        elim (Outcome-cases
          (services.adapter.resume a.run_id (user_turn services g.request g.tenant_id g.metadata)
            w.engine).0) [
              | inl (r, e) ↦ rw e (same_turn _ _ refl refl refl refl refl refl)
              | inr (x, e) ↦ rw e tt
            ]

    switch_turn-Agree :
        (target : String) (w : World E)
        → AgreeEnd services g
            (switch_turn services g a target state w)
            (replayed "SWITCH_WORKFLOW" (some target) none none (some target))
    unfolding switch_turn ◌>>=◌ push_run append_stack_entry
    switch_turn-Agree target w =
        elim (Outcome-cases
          (services.adapter.cancel a.run_id "switch_workflow" g.tenant_id w.engine).0) [
            | inr (x, e) ↦ rw e tt
            | inl (c, e) ↦
                elim (Outcome-cases
                  (services.adapter.start g.request.project_id target
                    (user_turn services g.request g.tenant_id g.metadata)
                    (services.adapter.cancel a.run_id "switch_workflow" g.tenant_id
                      w.engine).1).0) [
                        | inr (x, f) ↦ rw (e, f) tt
                        | inl (r, f) ↦ rw (e, f) (same_turn _ _ refl refl refl refl refl refl)
                      ]
          ]

    other_turn-Agree :
        (target : String) (refused : Option String) (retry : Option ℕ) (w : World E) (c : Case)
        → a.cancellable ≡ true
        → is_decisive services.texts.add g.policy g.decision ≡ is_decisive c.add c.policy c.decision
        → retry ≡ elim refused [
          | none ↦ none
          | some code ↦ switch_retry_after_seconds c.later code c.policy c.recent_decisions
        ]
        → AgreeEnd services g
            (other_turn services g a target refused retry state w)
            (replay_other c a.workflow_id target refused)
    unfolding other_turn replay_other
    other_turn-Agree target (some code) retry w c can sure wait =
        rw wait (resume_turn-Agree (some code) _ w)
    other_turn-Agree target none retry w c can sure wait =
        elim (Bool-cases (is_decisive services.texts.add g.policy g.decision)) [
          | inl strong ↦ simp (← sure, strong, can) (switch_turn-Agree target w)
          | inr weak ↦ simp (← sure, weak) (resume_turn-Agree none none w)
        ]

    elsewhere_turn-Agree :
        (target : String) (w : World E)
        → a.cancellable ≡ true
        → AgreeEnd services g (elsewhere_turn services g a target state w) (
            replay_other (case_of services g recent w) a.workflow_id target (
              switch_policy_error_code
                (services.clock w.tick)
                g.policy
                recent
                (is_explicit_switch_request services.texts.lower g.request.message_text)))
    unfolding elsewhere_turn ◌>>=◌
    elsewhere_turn-Agree target w can =
        rw
          (same_code (services.clock w.tick)
            (is_explicit_switch_request services.texts.lower g.request.message_text))
          (other_turn-Agree target _ _ _ (case_of services g recent w) can refl (wait_of w _))

  module _ (state : SessionStateRecord) (before : ReplayState)
      (same_turns : before.disambiguation_turns ≡ state.disambiguation_turns) where
    -- What a replay knows of the run that is active: its workflow, with an id that is not empty. The
    -- run can be cancelled.
    abbrev pub Known : Option WorkflowEngineStateSnapshot → Type 0
    Known none = before.active_workflow_id ≡ none
    Known (some a) =
        (before.active_workflow_id ≡ some a.workflow_id)
        × ((a.workflow_id == "") ≡ false)
        × (a.cancellable ≡ true)

    start_turn-Agree :
        (kept : Option String) (target : String) (w : World E)
        → AgreeEnd services g
            (start_turn services g none target state w)
            (replay_target (case_of services g recent w) kept none (some target))
    unfolding start_turn start_action ◌>>=◌ push_run append_stack_entry replay_target
    start_turn-Agree kept target w =
        elim (Outcome-cases
          (services.adapter.start g.request.project_id target
            (user_turn services g.request g.tenant_id g.metadata) w.engine).0) [
              | inr (x, e) ↦ rw e tt
              | inl (r, e) ↦ rw e (same_turn _ _ refl refl refl refl refl refl)
            ]

    target_turn-Agree :
        (active : Option WorkflowEngineStateSnapshot) (target : Option String) (w : World E)
        → Known active
        → AgreeEnd services g (target_turn services g active target state w) (
            replay_target
              (case_of services g recent w)
              before.active_workflow_id
              (given before.active_workflow_id)
              target)
    unfolding target_turn replay_target
    target_turn-Agree active none w k = unfold ◌>>=◌ in same_turn _ _ refl refl refl refl refl refl
    target_turn-Agree none (some target) w k =
        rw k (unfold replay_target in start_turn-Agree none target w)
    target_turn-Agree (some a) (some target) w (k, named, can) =
        elim (Bool-cases (target == a.workflow_id)) [
          | inl same ↦ rw (k, named, same) (resume_turn-Agree a state none none w)
          | inr other ↦ rw (k, named, other) (elsewhere_turn-Agree a state target w can)
        ]

    clarify_turn-Agree :
        (w : World E)
        → AgreeEnd services g
            (clarify_turn services g state w)
            (replay_clarify (case_of services g recent w) before)
    unfolding clarify_turn ◌>>=◌ save_session_state
    clarify_turn-Agree w = same_turn _ _ refl refl refl refl (omega (arith, same_turns)) refl

    same_cancelled :
        (t : Turn) (r : Replayed)
        → (g.decision.route_type == "CANCEL") ≡ true
        → t.action ≡ r.action
        → t.error_code ≡ r.error_code
        → t.retry_after_s ≡ r.retry_after_s
        → Agree g.decision.route_type t r
    same_cancelled t r is a e s = record {
      same_action = a;
      same_error = e;
      same_wait = s;
      same_workflow = λ no. absurd (ground (arith, is, no));
      same_turns = λ no _. absurd (ground (arith, is, no));
    }

    cancel_turn-Agree :
        (active : Option WorkflowEngineStateSnapshot) (w : World E)
        → (g.decision.route_type == "CANCEL") ≡ true
        → Known active
        → AgreeEnd services g
            (cancel_turn services g active state w)
            (replay_cancel (case_of services g recent w) before.active_workflow_id)
    unfolding cancel_turn ◌>>=◌
    cancel_turn-Agree none w is k = rw k (same_cancelled _ _ is refl refl refl)
    cancel_turn-Agree (some a) w is (k, named, can) =
        elim (Outcome-cases
          (services.adapter.cancel a.run_id "user_cancel" g.tenant_id w.engine).0) [
            | inl (r, e) ↦ rw (k, can, e) (same_cancelled _ _ is refl refl refl)
            | inr (x, e) ↦ rw (k, can, e) tt
          ]

    operator_turn-Agree :
        (w : World E)
        → (g.decision.route_type == "OPERATOR") ≡ true
        → AgreeEnd services g
            (operator_turn services g state w)
            (replayed "OPERATOR" none none none before.active_workflow_id)
    unfolding ◌>>=◌
    operator_turn-Agree w is = record {
      same_action = refl;
      same_error = refl;
      same_wait = refl;
      same_workflow = λ _. refl;
      same_turns = λ _ no. absurd (ground (arith, is, no));
    }

    asks_too :
        (b : Bool)
        → (is_unclear g.policy g.decision
            && ltb before.disambiguation_turns g.policy.max_disambiguation_turns)
          ≡ b
        → (is_unclear g.policy g.decision
            && ltb state.disambiguation_turns g.policy.max_disambiguation_turns)
          ≡ b
    asks_too b h = rw⁻¹ same_turns h

    route_turn-Agree :
        (active : Option WorkflowEngineStateSnapshot) (w : World E)
        → Known active
        → AgreeEnd services g (route_turn services g active state w) (
            if is_unclear g.policy g.decision
              && ltb before.disambiguation_turns g.policy.max_disambiguation_turns
            then replay_clarify (case_of services g recent w) before
            else replay_target
                (case_of services g recent w)
                before.active_workflow_id
                (given before.active_workflow_id)
                (resolve_target_workflow g.request.project_id g.tenant_id w.store g.decision
                  g.candidates g.orchestrator.fallback_workflow_id))
    unfolding route_turn
    route_turn-Agree active w k =
        elim (Bool-cases (
          is_unclear g.policy g.decision
          && ltb before.disambiguation_turns g.policy.max_disambiguation_turns)) [
            | inl ask ↦ rw (ask, asks_too true ask) (clarify_turn-Agree w)
            | inr go ↦ rw (go, asks_too false go) (unfold ◌>>=◌ in target_turn-Agree active _ w k)
          ]

    -- A replay decides as the live handler does, where both know the same latest switch: where the
    -- handler's turn comes to an end, the action, the error code and the wait are those that the replay
    -- gives for the same policy, message, decision, target and times; so are the chosen workflow, unless
    -- the decision is to cancel, and the count of clarifications, unless it is to cancel or to call an
    -- operator. The decisions that the replay keeps may be others than the handler reads, but the latest
    -- switch among them, if any, is the same. The replay has the same number of clarifications behind it
    -- and knows the workflow of the active run, which can be cancelled and has an id that is not empty.
    pub replay_case-Agree :
        (active : Option WorkflowEngineStateSnapshot) (w : World E)
        → Known active
        → AgreeEnd services g (act services g active state w) (
            replay_case (case_of services g recent w) before (
              resolve_target_workflow g.request.project_id g.tenant_id w.store g.decision
                g.candidates g.orchestrator.fallback_workflow_id))
    unfolding act replay_case
    replay_case-Agree active w k = elim (Bool-cases (g.decision.route_type == "OPERATOR")) [
      | inl operator ↦ rw operator (operator_turn-Agree w operator)
      | inr routed ↦ elim (Bool-cases (g.decision.route_type == "CANCEL")) [
        | inl cancel ↦ rw (routed, cancel) (cancel_turn-Agree active w cancel k)
        | inr other ↦ rw (routed, other) (route_turn-Agree active w k)
      ]
    ]
