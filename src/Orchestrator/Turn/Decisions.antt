-- ===== src/Orchestrator/Turn/Decisions.antt =====
-- Until a message's decision is saved, the log of the decisions stands as it is.
use workcore.Prelude.{ℕ, String, ◌≡◌, refl, Bool, true, false, Option, none, some, if◌then◌else◌}
use workcore.Table.{Table}
use workcore.Router.{RoutingRequest}
use workcore.Orchestrator.Records.{SessionStateRecord, OrchestrationDecisionRecord}
use workcore.Orchestrator.Store.{OrchestrationStore}
use workcore.Orchestrator.Store.Sessions.{save_session_state, append_stack_entry}
use workcore.Orchestrator.World.{WorkflowEngineStateSnapshot, Services, stored}
use workcore.Orchestrator.World.Rules.{Keeps, Keeps-stored, keep_rules}
use workcore.Orchestrator.Handler.{push_run}
use workcore.Orchestrator.Turn.{
  Setting, cancel_turn, clarify_turn, switch_turn, resume_turn, start_turn, other_turn,
  elsewhere_turn, target_turn, route_turn, act,
}

abbrev pub decisions :
    OrchestrationStore → Table (workcore.Prelude.List OrchestrationDecisionRecord)
decisions s = s.decisions

module _ {E : Type 0} where
  append-Keeps :
      (at : ℕ) (id project session tenant run reason : String) (from : Option String)
      → Keeps {E = E} decisions
          (stored (append_stack_entry at id project session tenant run reason from))
  unfolding append_stack_entry
  append-Keeps at id project session tenant run reason from =
      Keeps-stored decisions (append_stack_entry at id project session tenant run reason from)
        (λ s. refl)

  pub save-Keeps :
      (at : ℕ) (state : SessionStateRecord)
      → Keeps {E = E} decisions (stored (save_session_state at state))
  unfolding save_session_state
  save-Keeps at state = Keeps-stored decisions (save_session_state at state) (λ s. refl)

ruleset writes = (keep_rules, append-Keeps, save-Keeps)

module _ {E : Type 0} (services : Services E) where
  pub push_run-Keeps :
      (request : RoutingRequest) (tenant_id run_id reason : String) (from : Option String)
      → Keeps decisions (push_run services request tenant_id run_id reason from)
  unfolding push_run
  push_run-Keeps request tenant_id run_id reason from = search writes

  module _ (g : Setting) where
    cancel_turn-Keeps :
        (active : Option WorkflowEngineStateSnapshot) (state : SessionStateRecord)
        → Keeps decisions (cancel_turn services g active state)
    unfolding cancel_turn
    cancel_turn-Keeps none state = search writes
    cancel_turn-Keeps (some a) state = search writes

    clarify_turn-Keeps :
        (state : SessionStateRecord) → Keeps decisions (clarify_turn services g state)
    unfolding clarify_turn
    clarify_turn-Keeps state = search writes

    switch_turn-Keeps :
        (active : WorkflowEngineStateSnapshot) (target : String) (state : SessionStateRecord)
        → Keeps decisions (switch_turn services g active target state)
    unfolding switch_turn
    switch_turn-Keeps active target state = search (writes, push_run-Keeps) depth 12

    resume_turn-Keeps :
        (active : WorkflowEngineStateSnapshot) (refused : Option String) (retry : Option ℕ)
        (state : SessionStateRecord)
        → Keeps decisions (resume_turn services g active refused retry state)
    unfolding resume_turn
    resume_turn-Keeps active refused retry state = search writes

    start_turn-Keeps :
        (active : Option WorkflowEngineStateSnapshot) (target : String) (state : SessionStateRecord)
        → Keeps decisions (start_turn services g active target state)
    unfolding start_turn
    start_turn-Keeps active target state = search (writes, push_run-Keeps) depth 12

    other_turn-Keeps :
        (active : WorkflowEngineStateSnapshot) (target : String) (refused : Option String)
        (retry : Option ℕ) (state : SessionStateRecord)
        → Keeps decisions (other_turn services g active target refused retry state)
    unfolding other_turn
    other_turn-Keeps active target (some code) retry state = search resume_turn-Keeps
    other_turn-Keeps active target none retry state =
        search (writes, resume_turn-Keeps, switch_turn-Keeps)

    elsewhere_turn-Keeps :
        (active : WorkflowEngineStateSnapshot) (target : String) (state : SessionStateRecord)
        → Keeps decisions (elsewhere_turn services g active target state)
    unfolding elsewhere_turn
    elsewhere_turn-Keeps active target state = search (writes, other_turn-Keeps)

    target_turn-Keeps :
        (active : Option WorkflowEngineStateSnapshot) (target : Option String)
        (state : SessionStateRecord)
        → Keeps decisions (target_turn services g active target state)
    unfolding target_turn
    target_turn-Keeps active none state = search writes
    target_turn-Keeps none (some target) state = search start_turn-Keeps
    target_turn-Keeps (some active) (some target) state =
        search (writes, resume_turn-Keeps, elsewhere_turn-Keeps)

    route_turn-Keeps :
        (active : Option WorkflowEngineStateSnapshot) (state : SessionStateRecord)
        → Keeps decisions (route_turn services g active state)
    unfolding route_turn
    route_turn-Keeps active state = search (writes, clarify_turn-Keeps, target_turn-Keeps)

    pub act-Keeps :
        (active : Option WorkflowEngineStateSnapshot) (state : SessionStateRecord)
        → Keeps decisions (act services g active state)
    unfolding act
    act-Keeps active state = search (writes, cancel_turn-Keeps, route_turn-Keeps)
