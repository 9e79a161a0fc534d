-- ===== src/Orchestrator/Direct.antt =====
-- `_handle_direct` of orchestrator_runtime/runtime.py, and `handle_message`, which chooses between
-- the two handlers.
pub mod Laws
use workcore.Prelude.{
  ℕ, String, Bool, true, false, ◌&&◌, Option, none, some, List, [], ◌∷◌, ◌==◌, ◌<>◌, if◌then◌else◌,
}
use workcore.Prelude.Int.{pos, of_int}
use workcore.Value.{str, Fields, end, field}
use workcore.Router.{RoutingRequest, Routed, direct, orchestrated, refused}
use workcore.Orchestrator.Records.{
  SessionStateRecord, WorkflowDefinitionRecord, ScoredCandidate, OrchestrationDecisionRecord,
}
use workcore.Orchestrator.Store.Sessions.{save_session_state, save_decision}
use workcore.Orchestrator.Candidates.{RoutingDecision}
use workcore.Orchestrator.Messages.{build_decision_trace, response_message_from_events}
use workcore.Orchestrator.World.{
  WorkflowEngineStateSnapshot, WorkflowEngineResult, runtime_error, Outcome, Services, World, ◌>>=◌,
  ◌>>◌, pure, fail, stored, reads, engine, observe,
}
use workcore.Orchestrator.Handler.{
  Response, active_run, settled, open_run, user_turn, push_run, load_session,
  metadata_with_session_context, stack_view,
}
use workcore.Orchestrator.Orchestrated.{workflow_of, handle_orchestrated}

-- A run of this workflow that waits for its user.
abbrev pub is_resumable : WorkflowDefinitionRecord → Option WorkflowEngineStateSnapshot → Bool
is_resumable d none = false
is_resumable d (some active) =
    active.workflow_id == d.workflow_id && active.status == "WAITING_FOR_INPUT"

abbrev pub direct_candidates : WorkflowDefinitionRecord → List ScoredCandidate
direct_candidates d =
    record {
      workflow_id = d.workflow_id;
      score = of_int (pos 1);
      reason_codes = "DIRECT_HINT" ∷ [];
    }
    ∷ []

abbrev pub direct_decision : WorkflowDefinitionRecord → String → RoutingDecision
direct_decision d action = record {
  route_type = action;
  workflow_id = some d.workflow_id;
  tags = d.tags;
  confidence = of_int (pos 1);
  switch_margin = of_int (pos 1);
  reason_codes = "HIGH_CONFIDENCE_MATCH" ∷ [];
  clarifying_question = none;
  clarifying_options = [];
  model_id = some "direct";
}

abbrev pub direct_record :
    RoutingRequest
    → String
    → WorkflowDefinitionRecord
    → String
    → String
    → ℕ
    → Option String
    → OrchestrationDecisionRecord
direct_record request tenant_id d decision_id action created from_run_id = record {
  decision_id = decision_id;
  tenant_id = tenant_id;
  project_id = request.project_id;
  orchestrator_id = none;
  session_id = request.session_id;
  message_id = request.message_id;
  mode = "direct";
  active_run_id = from_run_id;
  context_ref = field "source" (str "direct_workflow_mode") end;
  candidates = direct_candidates d;
  chosen_action = action;
  chosen_workflow_id = some d.workflow_id;
  confidence = of_int (pos 1);
  latency_ms = 0;
  model_id = some "direct";
  error_code = none;
  created_at = created;
}

abbrev pub after_direct :
    RoutingRequest → WorkflowEngineResult → SessionStateRecord → SessionStateRecord
after_direct request result state = record (settled state) {
  active_run_id = open_run result;
  last_user_message_id = some request.message_id;
}

module _ {E : Type 0} (services : Services E) where
  abbrev pub look_up :
      String → Option String → World E → Outcome (Option WorkflowEngineStateSnapshot) × World E
  look_up tenant_id none = pure none
  look_up tenant_id (some run_id) =
      reads (λ w. services.adapter.get_state run_id tenant_id w.engine)

  abbrev pub run_of : Option String → String
  run_of none = ""
  run_of (some id) = id

  abbrev pub resumed_run :
      RoutingRequest
      → String
      → Fields
      → SessionStateRecord
      → World E
      → Outcome (String × WorkflowEngineResult) × World E
  resumed_run request tenant_id metadata state = do
    resumed ← engine (
        services.adapter.resume (run_of state.active_run_id)
          (user_turn services request tenant_id metadata))
    pure ("RESUME_CURRENT", resumed)

  -- The waiting run is resumed, or a run is started and put on the stack.
  unfoldable pub direct_run :
      RoutingRequest
      → String
      → WorkflowDefinitionRecord
      → Fields
      → SessionStateRecord
      → Option WorkflowEngineStateSnapshot
      → World E
      → Outcome (String × WorkflowEngineResult) × World E
  direct_run request tenant_id d metadata state active =
      if is_resumable d active then resumed_run request tenant_id metadata state else do
        started ← engine (
            services.adapter.start request.project_id d.workflow_id
              (user_turn services request tenant_id metadata))
        entry ←
            push_run services request tenant_id started.run_id "direct_start" state.active_run_id
        pure ("START_WORKFLOW", started)

  abbrev pub direct_response :
      RoutingRequest
      → String
      → WorkflowDefinitionRecord
      → Option WorkflowEngineStateSnapshot
      → String
      → String
      → WorkflowEngineResult
      → SessionStateRecord
      → World E
      → Response
  direct_response request tenant_id d active decision_id action result saved w = record {
    decision_id = decision_id;
    mode = "direct";
    orchestrator_id = none;
    chosen_action = action;
    chosen_workflow_id = some d.workflow_id;
    run_id = some result.run_id;
    active_run_id = saved.active_run_id;
    confidence = of_int (pos 1);
    decision = direct_decision d action;
    decision_trace =
        build_decision_trace "direct" action (some d.workflow_id) (direct_candidates d)
          ("HIGH_CONFIDENCE_MATCH" ∷ []) (workflow_of active);
    action_error = none;
    message = response_message_from_events services.text_of result.events;
    events = result.events;
    stack = stack_view services request.project_id request.session_id tenant_id w;
  }

  unfoldable pub finish_direct :
      RoutingRequest
      → String
      → WorkflowDefinitionRecord
      → SessionStateRecord
      → Option WorkflowEngineStateSnapshot
      → String × WorkflowEngineResult
      → World E
      → Outcome Response × World E
  finish_direct request tenant_id d state active (action, result) = do
    at ← observe
    saved ← stored (save_session_state (services.clock at) (after_direct request result state))
    id ← observe
    let decision_id = "dec_" <> services.hex_ten id
    created ← observe
    logged_decision ← stored (λ s. (
      tt,
      save_decision
          (direct_record request tenant_id d decision_id action (services.clock created)
            state.active_run_id)
          s,
    ))
    reads (λ w. direct_response request tenant_id d active decision_id action result saved w)

  unfoldable pub handle_direct :
      RoutingRequest
      → WorkflowDefinitionRecord
      → String
      → Fields
      → World E
      → Outcome Response × World E
  handle_direct request d tenant_id metadata = do
    state ← load_session services request tenant_id none
    with_prefill ← reads (λ w.
        metadata_with_session_context services metadata request.project_id request.session_id
          tenant_id w.store)
    active ← look_up tenant_id (active_run state.active_run_id)
    ran ← direct_run request tenant_id d with_prefill state active
    finish_direct request tenant_id d state active ran

  -- A refusal of the project router, of which the code and the status are kept, stands in place of
  -- a route.
  unfoldable pub handle_message :
      RoutingRequest → Routed → String → Fields → World E → Outcome Response × World E
  handle_message request (direct project d) tenant_id metadata =
      handle_direct request d tenant_id metadata
  handle_message request (orchestrated project c) tenant_id metadata =
      handle_orchestrated services request project c tenant_id metadata
  handle_message request (refused code) tenant_id metadata =
      fail (runtime_error code "" (if code == "ERR_PROJECT_NOT_FOUND" then 404 else 409))
