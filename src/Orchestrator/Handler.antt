-- ===== src/Orchestrator/Handler.antt =====
-- What the two handlers of orchestrator_runtime/runtime.py share: the session that they work on, the
-- context that goes along, the view of the stack, and the response.
use workcore.Prelude.{
  ℕ, String, false, Option, none, some, List, [], ◌∷◌, ◌==◌, ◌<>◌, contains, if◌then◌else◌,
}
use workcore.Prelude.Int.{Float}
use workcore.Value.{Fields, obj}
use workcore.Value.Object
use workcore.Router.{RoutingRequest}
use workcore.Orchestrator.Records.{SessionStateRecord, WorkflowStackEntryRecord}
use workcore.Orchestrator.Store.{OrchestrationStore, get_project}
use workcore.Orchestrator.Store.Sessions.{get_session_state, append_stack_entry, list_stack}
use workcore.Orchestrator.Store.Contexts.{get_context_values}
use workcore.Orchestrator.Candidates.{RoutingDecision}
use workcore.Orchestrator.Messages.{Message, ActionError, DecisionTrace}
use workcore.Orchestrator.World.{
  EngineEvent, WorkflowEngineResult, runtime_error, Outcome, UserTurn, Services, World, ◌>>=◌, pure,
  fail, stored, reads, observe,
}

pub record StackItem : Type 0 where
  pub run_id : String
  pub workflow_id : String
  pub status : String
  pub transition_reason : String
  pub created_at : String

pub record Response : Type 0 where
  pub decision_id : String
  pub mode : String
  pub orchestrator_id : Option String
  pub chosen_action : String
  pub chosen_workflow_id : Option String
  pub run_id : Option String
  pub active_run_id : Option String
  pub confidence : Float
  pub decision : RoutingDecision
  pub decision_trace : DecisionTrace
  pub action_error : Option ActionError
  pub message : Message
  pub events : List EngineEvent
  pub stack : List StackItem

-- `None if status in TERMINAL_STATUSES else run_id`
unfoldable pub open_run : WorkflowEngineResult → Option String
open_run result =
    if contains result.state_snapshot.status ("COMPLETED" ∷ "FAILED" ∷ "CANCELLED" ∷ "TIMEOUT" ∷ [])
    then none
    else some result.run_id

abbrev pub new_session : RoutingRequest → String → Option String → ℕ → ℕ → SessionStateRecord
new_session request tenant_id orchestrator_id created updated = record {
  tenant_id = tenant_id;
  project_id = request.project_id;
  session_id = request.session_id;
  orchestrator_id = orchestrator_id;
  active_run_id = none;
  pending_disambiguation = false;
  pending_question = none;
  pending_options = [];
  disambiguation_turns = 0;
  last_user_message_id = none;
  created_at = created;
  updated_at = updated;
}

-- No clarification is pending.
abbrev pub settled : SessionStateRecord → SessionStateRecord
settled state = record state {
  pending_disambiguation = false;
  pending_question = none;
  pending_options = [];
  disambiguation_turns = 0;
}

abbrev pub with_context : Fields → Fields → Fields
with_context metadata context =
    if Object.is_empty context
    then metadata
    else Object.put "context_prefill" (obj context) metadata

-- The run that a session says is active; an empty text is none.
abbrev pub active_run : Option String → Option String
active_run none = none
active_run (some id) = if id == "" then none else some id

module _ {E : Type 0} (services : Services E) where
  abbrev pub now : World E → Outcome ℕ × World E
  now = do at ← observe; pure (services.clock at)

  -- The stored session, or a new one.
  abbrev pub session_or :
      RoutingRequest
      → String
      → Option String
      → Option SessionStateRecord
      → World E
      → Outcome SessionStateRecord × World E
  session_or request tenant_id orchestrator_id (some state) = pure state
  session_or request tenant_id orchestrator_id none = do
    created ← now
    updated ← now
    pure (new_session request tenant_id orchestrator_id created updated)

  unfoldable pub load_session :
      RoutingRequest → String → Option String → World E → Outcome SessionStateRecord × World E
  load_session request tenant_id orchestrator_id = do
    found ← reads (λ w. get_session_state request.project_id request.session_id tenant_id w.store)
    session_or request tenant_id orchestrator_id found

  -- `_metadata_with_session_context`
  unfoldable pub metadata_with_session_context :
      Fields → String → String → String → OrchestrationStore → Fields
  metadata_with_session_context metadata project_id session_id tenant_id store =
      with_context metadata (
        get_context_values services.texts.lower "session" session_id tenant_id (some project_id)
          none store)

  abbrev pub user_turn : RoutingRequest → String → Fields → UserTurn
  user_turn request tenant_id metadata = record {
    session_id = request.session_id;
    user_input = request.message_text;
    metadata = metadata;
    tenant_id = tenant_id;
    action_type = request.action_type;
    action_payload = request.action_payload;
  }

  -- `append_stack_entry` for a run that has started
  unfoldable pub push_run :
      RoutingRequest
      → String
      → String
      → String
      → Option String
      → World E
      → Outcome WorkflowStackEntryRecord × World E
  push_run request tenant_id run_id reason from_run_id = do
    at ← now
    id ← observe
    stored (
        append_stack_entry at ("wstk_" <> services.hex_ten id) request.project_id request.session_id
          tenant_id run_id reason from_run_id)

  abbrev pub run_or_unknown : Option (String × String) → String × String
  run_or_unknown none = ("", "UNKNOWN")
  run_or_unknown (some run) = run

  abbrev pub stack_item : String → WorkflowStackEntryRecord → E → StackItem
  stack_item tenant_id entry e =
      let (workflow_id, status) =
        run_or_unknown (services.adapter.get_run entry.run_id tenant_id e) in
      record {
        run_id = entry.run_id;
        workflow_id = workflow_id;
        status = status;
        transition_reason = entry.transition_reason;
        created_at = services.isoformat entry.created_at;
      }

  abbrev pub stack_items : String → List WorkflowStackEntryRecord → E → List StackItem
  stack_items tenant_id [] e = []
  stack_items tenant_id (entry ∷ entries) e =
      stack_item tenant_id entry e ∷ stack_items tenant_id entries e

  -- `_stack_view`
  unfoldable pub stack_view : String → String → String → World E → List StackItem
  stack_view project_id session_id tenant_id w =
      stack_items tenant_id (list_stack project_id session_id tenant_id w.store) w.engine

  -- `get_stack`: its items
  unfoldable pub get_stack : String → String → String → World E → Outcome (List StackItem) × World E
  get_stack project_id session_id tenant_id = do
    project ← reads (λ w. get_project project_id tenant_id w.store)
    elim project [
      | none ↦ fail (runtime_error "ERR_PROJECT_NOT_FOUND" "project not found" 404)
      | some p ↦ reads (λ w. stack_view project_id session_id tenant_id w)
    ]
