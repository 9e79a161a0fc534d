-- ===== src/Orchestrator/Orchestrated.antt =====
-- `_handle_orchestrated` of orchestrator_runtime/runtime.py, around the turn that carries the
-- decision out.
pub mod Laws
use workcore.Prelude.{
  ℕ, String, Bool, true, false, not, ◌&&◌, ◌||◌, Option, none, some, List, [], ◌∷◌, ◌==◌, ◌<>◌,
  contains, length, if◌then◌else◌,
}
use workcore.Prelude.Int.{pos, Float, of_int}
use workcore.Table.{find, insert}
use workcore.Text.{strip}
use workcore.Value.{
  Value, boolean, int, str, arr, obj, Fields, Items, nil, cons, end, field, truthy, as_text,
}
use workcore.Value.Object
use workcore.Router.{RoutingRequest}
use workcore.Orchestrator.Records.{
  ProjectRecord, SessionStateRecord, OrchestratorConfigRecord, OrchestrationDecisionRecord,
}
use workcore.Orchestrator.Store.{OrchestrationStore}
use workcore.Orchestrator.Store.Sessions.{
  session_key, save_session_state, save_decision, list_recent_decisions,
}
use workcore.Orchestrator.Policy.{RoutingPolicy, from_dict}
use workcore.Orchestrator.Candidates.{Candidate, RoutingDecision, candidate_shortlist, logged}
use workcore.Orchestrator.Messages.{action_error_payload, build_decision_trace, context_summary}
use workcore.Orchestrator.World.{
  WorkflowEngineStateSnapshot, Failure, runtime_error, Outcome, Routing, decided, failed,
  RouteQuery, Services, World, ◌>>=◌, ◌>>◌, pure, fail, stored, reads, observe,
}
use workcore.Orchestrator.Handler.{
  Response, active_run, load_session, metadata_with_session_context, stack_view,
}
use workcore.Orchestrator.Turn.{Turn, Setting, with_run, act}

abbrev pub forget_stored :
    SessionStateRecord → OrchestrationStore → Option SessionStateRecord → OrchestrationStore
forget_stored state s none = s
forget_stored state s (some old) = record s {
  session_states = insert (session_key state) (with_run none old) s.session_states;
}

-- The session has no run any more. In the store's memory it is the stored object itself.
unfoldable pub forget_run :
    SessionStateRecord → OrchestrationStore → SessionStateRecord × OrchestrationStore
forget_run state s =
    (with_run none state, forget_stored state s (find (session_key state) s.session_states))

-- What is decided where there is no candidate.
abbrev pub no_candidates : RoutingDecision
no_candidates = record {
  route_type = "FALLBACK";
  workflow_id = none;
  tags = [];
  confidence = of_int (pos 0);
  switch_margin = of_int (pos 0);
  reason_codes = "NO_CANDIDATES" ∷ [];
  clarifying_question = none;
  clarifying_options = [];
  model_id = some "fallback";
}

abbrev pub ids_of : List OrchestrationDecisionRecord → Items
ids_of [] = nil
ids_of (d ∷ ds) = cons (str d.decision_id) (ids_of ds)

abbrev pub count_fields : Fields → ℕ
count_fields end = 0
count_fields (field k v d) = workcore.Prelude.suc (count_fields d)

abbrev pub prefill_keys : Option Value → ℕ
prefill_keys (some (obj d)) = count_fields d
prefill_keys _ = 0

abbrev pub workflow_of : Option WorkflowEngineStateSnapshot → Option String
workflow_of none = none
workflow_of (some active) = some active.workflow_id

-- `correlation_id` where it is a text that is not blank
abbrev pub correlation_of : Option String → Option String
correlation_of none = none
correlation_of (some id) = if strip id == "" then none else some id

-- What the handler writes to the session before it is saved. A turn that ran nothing and neither
-- cancels nor asks goes on with the active run.
unfoldable pub closing :
    RoutingRequest
    → OrchestratorConfigRecord
    → Option WorkflowEngineStateSnapshot
    → Turn
    → SessionStateRecord
closing request orchestrator active turn =
    let state = record turn.state {
      orchestrator_id = some orchestrator.orchestrator_id;
      last_user_message_id = some request.message_id;
    } in
    elim turn.run_id [
      | some id ↦ state
      | none ↦ elim active [
        | none ↦ state
        | some a ↦
            if contains turn.action ("CANCEL" ∷ "DISAMBIGUATE" ∷ [])
            then state
            else with_run (some a.run_id) state
      ]
    ]

module _ {E : Type 0} (services : Services E) where
  -- The session goes with the run that the engine knows, or forgets it.
  abbrev pub known :
      SessionStateRecord
      → Option WorkflowEngineStateSnapshot
      → World E
      → Outcome (Option WorkflowEngineStateSnapshot × SessionStateRecord) × World E
  known state (some active) = pure (some active, state)
  known state none = do forgotten ← stored (forget_run state); pure (none, forgotten)

  abbrev pub look_for :
      String
      → SessionStateRecord
      → Option String
      → World E
      → Outcome (Option WorkflowEngineStateSnapshot × SessionStateRecord) × World E
  look_for tenant_id state none = pure (none, state)
  look_for tenant_id state (some run_id) = do
    found ← reads (λ w. services.adapter.get_state run_id tenant_id w.engine)
    known state found

  -- The run of the session, if the engine knows it, with the session.
  unfoldable pub load_active :
      String
      → SessionStateRecord
      → World E
      → Outcome (Option WorkflowEngineStateSnapshot × SessionStateRecord) × World E
  load_active tenant_id state = look_for tenant_id state (active_run state.active_run_id)

  abbrev pub locale_of : Option Value → String
  locale_of none = ""
  locale_of (some v) = if truthy v then services.text_of v else ""

  abbrev pub or_unavailable : Routing → World E → Outcome RoutingDecision × World E
  or_unavailable (decided decision) = pure decision
  or_unavailable (failed code message) = fail (runtime_error code message 503)

  -- The model's router is asked where there are candidates.
  unfoldable pub decide : List Candidate → RouteQuery → World E → Outcome RoutingDecision × World E
  decide [] query = pure no_candidates
  decide (c ∷ cs) query = do at ← observe; or_unavailable (services.route at query)

  abbrev pub query_of :
      RoutingRequest
      → RoutingPolicy
      → List Candidate
      → Option WorkflowEngineStateSnapshot
      → SessionStateRecord
      → List OrchestrationDecisionRecord
      → RouteQuery
  query_of request policy candidates active state recent = record {
    message_text = request.message_text;
    candidates = candidates;
    active_workflow_id = workflow_of active;
    confidence_threshold = policy.confidence_threshold;
    switch_margin_threshold = policy.switch_margin;
    context_summary = context_summary recent;
    locale = locale_of (Object.get "locale" request.metadata);
    pending_disambiguation = state.pending_disambiguation;
  }

  abbrev pub decision_record :
      Setting
      → String
      → ℕ
      → ℕ
      → Option String
      → Turn
      → SessionStateRecord
      → OrchestrationDecisionRecord
  decision_record g decision_id latency created active_before turn saved = record {
    decision_id = decision_id;
    tenant_id = g.tenant_id;
    project_id = g.request.project_id;
    orchestrator_id = some g.orchestrator.orchestrator_id;
    session_id = g.request.session_id;
    message_id = g.request.message_id;
    mode = "orchestrated";
    active_run_id = active_before;
    context_ref = field "recent_decisions" (arr (ids_of g.recent_decisions)) (
        field "candidate_count" (int (pos (length g.candidates))) (
          field "pending_disambiguation" (boolean saved.pending_disambiguation) (
            field "context_prefill_keys"
              (int (pos (prefill_keys (Object.get "context_prefill" g.metadata)))) end)));
    candidates = logged g.candidates;
    chosen_action = turn.action;
    chosen_workflow_id = turn.chosen_workflow_id;
    confidence = g.decision.confidence;
    latency_ms = latency;
    model_id = g.decision.model_id;
    error_code = turn.error_code;
    created_at = created;
  }

  abbrev pub response_of :
      Setting
      → Option WorkflowEngineStateSnapshot
      → String
      → Turn
      → SessionStateRecord
      → World E
      → Response
  response_of g active decision_id turn saved w = record {
    decision_id = decision_id;
    mode = "orchestrated";
    orchestrator_id = some g.orchestrator.orchestrator_id;
    chosen_action = turn.action;
    chosen_workflow_id = turn.chosen_workflow_id;
    run_id = turn.run_id;
    active_run_id = saved.active_run_id;
    confidence = g.decision.confidence;
    decision = g.decision;
    decision_trace =
        build_decision_trace "orchestrated" turn.action turn.chosen_workflow_id
          (logged g.candidates) g.decision.reason_codes (workflow_of active);
    action_error =
        action_error_payload turn.error_code turn.message.text turn.action turn.retry_after_s
          (correlation_of (as_text (Object.get "correlation_id" g.metadata)));
    message = turn.message;
    events = turn.events;
    stack = stack_view services g.request.project_id g.request.session_id g.tenant_id w;
  }

  -- The session and the decision are saved, and the answer is put together.
  unfoldable pub finish :
      Setting
      → Option WorkflowEngineStateSnapshot
      → Option String
      → ℕ
      → Turn
      → World E
      → Outcome Response × World E
  finish g active active_before latency turn = do
    at ← observe
    saved ←
        stored
          (save_session_state (services.clock at) (closing g.request g.orchestrator active turn))
    id ← observe
    let decision_id = "dec_" <> services.hex_ten id
    created ← observe
    logged_decision ← stored (λ s. (
      tt,
      save_decision
          (decision_record g decision_id latency (services.clock created) active_before turn saved)
          s,
    ))
    reads (λ w. response_of g active decision_id turn saved w)

  -- What follows the session: the decision, its turn, and the end.
  unfoldable pub decide_and_act :
      RoutingRequest
      → OrchestratorConfigRecord
      → String
      → Fields
      → SessionStateRecord
      → Option WorkflowEngineStateSnapshot × SessionStateRecord
      → World E
      → Outcome Response × World E
  decide_and_act request orchestrator tenant_id metadata loaded (active, state) = do
    let policy = from_dict services.numbers orchestrator.routing_policy
    candidates ← reads (λ w.
        candidate_shortlist services.texts request.project_id tenant_id request.message_text
          policy.top_k_candidates w.store)
    with_prefill ← reads (λ w.
        metadata_with_session_context services metadata request.project_id request.session_id
          tenant_id w.store)
    recent ←
        reads (λ w. list_recent_decisions request.project_id request.session_id tenant_id 5 w.store)
    decision ← decide candidates (query_of request policy candidates active state recent)
    at ← observe
    let g : Setting = record {
      request = request;
      tenant_id = tenant_id;
      orchestrator = orchestrator;
      policy = policy;
      metadata = with_prefill;
      recent_decisions = recent;
      candidates = candidates;
      decision = decision;
    }
    turn ← act services g active state
    finish g active loaded.active_run_id (services.milliseconds at) turn

  abbrev pub is_off : Option Value → Bool
  is_off (some (boolean b)) = not b
  is_off _ = false

  unfoldable pub handle_orchestrated :
      RoutingRequest
      → ProjectRecord
      → OrchestratorConfigRecord
      → String
      → Fields
      → World E
      → Outcome Response × World E
  handle_orchestrated request project orchestrator tenant_id metadata =
      if is_off (Object.get "orchestrator_enabled" project.settings)
      then fail (runtime_error "PRECONDITION_FAILED" "orchestrator is disabled for project" 409)
      else do
        loaded ← load_session services request tenant_id (some orchestrator.orchestrator_id)
        active ← load_active tenant_id loaded
        decide_and_act request orchestrator tenant_id metadata loaded active
