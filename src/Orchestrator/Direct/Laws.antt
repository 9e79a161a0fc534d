-- ===== src/Orchestrator/Direct/Laws.antt =====
-- A direct message is answered exactly if its decision is logged, and so is any message.
use workcore.Prelude.{suc, ◌<>◌, String, ◌≡◌, refl, Option, none, some}
use workcore.Value.{Fields}
use workcore.Router.{RoutingRequest, Routed, direct, orchestrated, refused}
use workcore.Orchestrator.Records.{
  SessionStateRecord, WorkflowDefinitionRecord, OrchestrationDecisionRecord,
}
use workcore.Orchestrator.Store.Sessions.{save_session_state, save_decision, get_session_state}
use workcore.Orchestrator.World.{
  WorkflowEngineStateSnapshot, WorkflowEngineResult, Services, World, ◌>>=◌, reads, fail,
}
use workcore.Orchestrator.World.Rules.{Keeps, keep_rules}
use workcore.Orchestrator.Turn.Decisions.{decisions, push_run-Keeps}
use workcore.Orchestrator.Orchestrated.Laws.{
  Logs, Keyed, Holds-any, log_key, saved-session, Logs-next, load_session-Keeps, load_session-Keyed,
  handle_orchestrated-Logs,
}
use workcore.Orchestrator.Direct.{
  after_direct, direct_record, look_up, direct_run, finish_direct, handle_direct, handle_message,
}

module _ {E : Type 0} (services : Services E) (request : RoutingRequest) (tenant_id : String) where
  module _ (d : WorkflowDefinitionRecord) where
    abbrev saved_of : SessionStateRecord → WorkflowEngineResult → World E → SessionStateRecord
    saved_of state result w =
        (save_session_state (services.clock w.tick) (after_direct request result state) w.store).0

    abbrev decision_of : SessionStateRecord → String → World E → OrchestrationDecisionRecord
    decision_of state action w =
        direct_record request tenant_id d ("dec_" <> services.hex_ten (suc w.tick)) action
          (services.clock (suc (suc w.tick))) state.active_run_id

    finish_direct-Logs :
        (state : SessionStateRecord) (active : Option WorkflowEngineStateSnapshot) (action : String)
        (result : WorkflowEngineResult) (w : World E)
        → Keyed services request tenant_id state
        → Logs
            (log_key request tenant_id)
            w.store.decisions
            (finish_direct services request tenant_id d state active (action, result) w)
    unfolding finish_direct ◌>>=◌ save_decision save_session_state
    finish_direct-Logs state active action result w key = record {
      decision = decision_of state action w;
      is_last = refl;
      same_id = refl;
      same_action = refl;
      same_workflow = refl;
      session = saved_of state result w;
      is_saved =
          rw⁻¹ key
            (saved-session (services.clock w.tick) (after_direct request result state) w.store);
      same_run = refl;
    }

    look_up-Keeps : (o : Option String) → Keeps decisions (look_up services tenant_id o)
    look_up-Keeps none = search keep_rules
    look_up-Keeps (some id) = search keep_rules

    direct_run-Keeps :
        (metadata : Fields) (state : SessionStateRecord)
        (active : Option WorkflowEngineStateSnapshot)
        → Keeps decisions (direct_run services request tenant_id d metadata state active)
    unfolding direct_run
    direct_run-Keeps metadata state active = search (keep_rules, push_run-Keeps) depth 12

    handle_direct-Logs :
        (metadata : Fields) (w : World E)
        → ((old : SessionStateRecord)
            → get_session_state request.project_id request.session_id tenant_id w.store ≡ some old
            → Keyed services request tenant_id old)
        → Logs
            (log_key request tenant_id)
            w.store.decisions
            (handle_direct services request d tenant_id metadata w)
    unfolding handle_direct reads
    handle_direct-Logs metadata w keyed =
        Logs-next services _ (Keyed services request tenant_id) _ _ w
          (load_session-Keeps services request tenant_id _)
          (load_session-Keyed services request tenant_id _ w keyed)
          (λ state w1 k.
            Logs-next services _ (λ a. Unit) _ _ w1 (search keep_rules) tt
              (λ prefill w2 _.
                Logs-next services _ (λ a. Unit) _ _ w2 (look_up-Keeps _) (Holds-any services _)
                  (λ active w3 _.
                    Logs-next services _ (λ a. Unit) _ _ w3 (direct_run-Keeps prefill state active)
                      (Holds-any services _)
                      (λ (action, result) w4 _.
                        finish_direct-Logs state active action result w4 k))))

  -- A message is answered exactly if its decision is logged, whichever way it goes. Where the handler
  -- raises, the log of every session is what it was; where it answers, the session's log has one
  -- decision more, with the id, the action and the workflow of the answer, and the stored session has
  -- the active run of the answer. The session, if there is one before, is stored under its own key.
  pub handle_message-Logs :
      (route : Routed) (metadata : Fields) (w : World E)
      → ((old : SessionStateRecord)
          → get_session_state request.project_id request.session_id tenant_id w.store ≡ some old
          → Keyed services request tenant_id old)
      → Logs
          (log_key request tenant_id)
          w.store.decisions
          (handle_message services request route tenant_id metadata w)
  unfolding handle_message fail
  handle_message-Logs (direct p d) metadata w keyed = handle_direct-Logs d metadata w keyed
  handle_message-Logs (orchestrated p c) metadata w keyed =
      handle_orchestrated-Logs services request c tenant_id metadata p w keyed
  handle_message-Logs (refused code) metadata w keyed = refl
