-- ===== src/Orchestrator/Turn/Soundness.antt =====
-- A turn keeps the invariant of the store.
use workcore.Prelude.{ℕ, String, Option, none, some}
use workcore.Router.{RoutingRequest}
use workcore.Orchestrator.Records.{SessionStateRecord}
use workcore.Orchestrator.Store.Invariants.{
  Sound, append_stack_entry-Sound, save_session_state-Sound,
}
use workcore.Orchestrator.Store.Sessions.{save_session_state, append_stack_entry}
use workcore.Orchestrator.World.{WorkflowEngineStateSnapshot, Services, stored}
use workcore.Orchestrator.World.Invariant.{Preserves, Preserves-stored, preserve_rules}
use workcore.Orchestrator.Handler.{push_run}
use workcore.Orchestrator.Turn.{
  Setting, cancel_turn, clarify_turn, switch_turn, resume_turn, start_turn, other_turn,
  elsewhere_turn, target_turn, route_turn, act,
}

module _ {E : Type 0} where
  append-Preserves :
      (at : ℕ) (id project session tenant run reason : String) (from : Option String)
      → Preserves {E = E} Sound
          (stored (append_stack_entry at id project session tenant run reason from))
  append-Preserves at id project session tenant run reason from =
      Preserves-stored Sound (append_stack_entry at id project session tenant run reason from)
        (λ s sound. append_stack_entry-Sound at id project session tenant run reason from s sound)

  pub save-Preserves :
      (at : ℕ) (state : SessionStateRecord)
      → Preserves {E = E} Sound (stored (save_session_state at state))
  save-Preserves at state =
      Preserves-stored Sound (save_session_state at state)
        (λ s sound. save_session_state-Sound at state s sound)

ruleset writes = (preserve_rules, append-Preserves, save-Preserves)

module _ {E : Type 0} (services : Services E) where
  pub push_run-Preserves :
      (request : RoutingRequest) (tenant_id run_id reason : String) (from : Option String)
      → Preserves Sound (push_run services request tenant_id run_id reason from)
  unfolding push_run
  push_run-Preserves request tenant_id run_id reason from = search writes

  module _ (g : Setting) where
    cancel_turn-Preserves :
        (active : Option WorkflowEngineStateSnapshot) (state : SessionStateRecord)
        → Preserves Sound (cancel_turn services g active state)
    unfolding cancel_turn
    cancel_turn-Preserves none state = search writes
    cancel_turn-Preserves (some a) state = search writes

    clarify_turn-Preserves :
        (state : SessionStateRecord) → Preserves Sound (clarify_turn services g state)
    unfolding clarify_turn
    clarify_turn-Preserves state = search writes

    switch_turn-Preserves :
        (active : WorkflowEngineStateSnapshot) (target : String) (state : SessionStateRecord)
        → Preserves Sound (switch_turn services g active target state)
    unfolding switch_turn
    switch_turn-Preserves active target state = search (writes, push_run-Preserves) depth 12

    resume_turn-Preserves :
        (active : WorkflowEngineStateSnapshot) (refused : Option String) (retry : Option ℕ)
        (state : SessionStateRecord)
        → Preserves Sound (resume_turn services g active refused retry state)
    unfolding resume_turn
    resume_turn-Preserves active refused retry state = search writes

    start_turn-Preserves :
        (active : Option WorkflowEngineStateSnapshot) (target : String) (state : SessionStateRecord)
        → Preserves Sound (start_turn services g active target state)
    unfolding start_turn
    start_turn-Preserves active target state = search (writes, push_run-Preserves) depth 12

    other_turn-Preserves :
        (active : WorkflowEngineStateSnapshot) (target : String) (refused : Option String)
        (retry : Option ℕ) (state : SessionStateRecord)
        → Preserves Sound (other_turn services g active target refused retry state)
    unfolding other_turn
    other_turn-Preserves active target (some code) retry state = search resume_turn-Preserves
    other_turn-Preserves active target none retry state =
        search (writes, resume_turn-Preserves, switch_turn-Preserves)

    elsewhere_turn-Preserves :
        (active : WorkflowEngineStateSnapshot) (target : String) (state : SessionStateRecord)
        → Preserves Sound (elsewhere_turn services g active target state)
    unfolding elsewhere_turn
    elsewhere_turn-Preserves active target state = search (writes, other_turn-Preserves)

    target_turn-Preserves :
        (active : Option WorkflowEngineStateSnapshot) (target : Option String)
        (state : SessionStateRecord)
        → Preserves Sound (target_turn services g active target state)
    unfolding target_turn
    target_turn-Preserves active none state = search writes
    target_turn-Preserves none (some target) state = search start_turn-Preserves
    target_turn-Preserves (some active) (some target) state =
        search (writes, resume_turn-Preserves, elsewhere_turn-Preserves)

    route_turn-Preserves :
        (active : Option WorkflowEngineStateSnapshot) (state : SessionStateRecord)
        → Preserves Sound (route_turn services g active state)
    unfolding route_turn
    route_turn-Preserves active state =
        search (writes, clarify_turn-Preserves, target_turn-Preserves)

    pub act-Preserves :
        (active : Option WorkflowEngineStateSnapshot) (state : SessionStateRecord)
        → Preserves Sound (act services g active state)
    unfolding act
    act-Preserves active state = search (writes, cancel_turn-Preserves, route_turn-Preserves)
