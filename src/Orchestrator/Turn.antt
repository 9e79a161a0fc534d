-- ===== src/Orchestrator/Turn.antt =====
-- The part of `_handle_orchestrated` that carries a decision out: what each action does to the
-- engine, to the stack and to the session.
pub mod Decisions
pub mod Soundness
pub mod Safety
use workcore.Prelude.{
  ℕ, suc, ◌+◌, String, Bool, true, false, not, ◌&&◌, ◌||◌, Option, none, some, List, [], ◌∷◌, ◌++◌,
  ◌==◌, ltb, take, if◌then◌else◌,
}
use workcore.Prelude.Int.{pos, Float, of_int, ltb_float}
use workcore.Value.{Value, Fields}
use workcore.Router.{RoutingRequest}
use workcore.Orchestrator.Records.{
  SessionStateRecord, OrchestratorConfigRecord, OrchestrationDecisionRecord,
}
use workcore.Orchestrator.Store.Sessions.{save_session_state}
use workcore.Orchestrator.Policy.{
  RoutingPolicy, switch_policy_error_code, switch_retry_after_seconds, is_explicit_switch_request,
}
use workcore.Orchestrator.Candidates.{Candidate, RoutingDecision, resolve_target_workflow}
use workcore.Orchestrator.Messages.{
  Message, assistant, switch_policy_message, response_message_from_events,
}
use workcore.Orchestrator.World.{
  EngineEvent, WorkflowEngineStateSnapshot, WorkflowEngineResult, Outcome, Services, World, ◌>>=◌,
  ◌>>◌, pure, stored, reads, engine, observe,
}
use workcore.Orchestrator.Handler.{open_run, settled, user_turn, push_run}

-- The local variables of the handler once the action is carried out.
pub record Turn : Type 0 where
  pub action : String
  pub chosen_workflow_id : Option String
  pub run_id : Option String
  pub events : List EngineEvent
  pub error_code : Option String
  pub retry_after_s : Option ℕ
  pub message : Message
  pub state : SessionStateRecord

-- A turn that calls no engine.
abbrev pub said :
    String → Option String → Option String → Option ℕ → Message → SessionStateRecord → Turn
said action chosen error_code retry_after_s message state = record {
  action = action;
  chosen_workflow_id = chosen;
  run_id = none;
  events = [];
  error_code = error_code;
  retry_after_s = retry_after_s;
  message = message;
  state = state;
}

abbrev pub ran :
    String
    → Option String
    → WorkflowEngineResult
    → List EngineEvent
    → Option String
    → Option ℕ
    → Message
    → SessionStateRecord
    → Turn
ran action chosen result events error_code retry_after_s message state = record {
  action = action;
  chosen_workflow_id = chosen;
  run_id = some result.run_id;
  events = events;
  error_code = error_code;
  retry_after_s = retry_after_s;
  message = message;
  state = state;
}

abbrev pub with_run : Option String → SessionStateRecord → SessionStateRecord
with_run run state = record state { active_run_id = run }

abbrev pub question_of : Option String → String
question_of none = "Уточните, пожалуйста, какой процесс вам нужен?"
question_of (some q) = if q == "" then "Уточните, пожалуйста, какой процесс вам нужен?" else q

abbrev pub asking : RoutingRequest → RoutingDecision → SessionStateRecord → SessionStateRecord
asking request decision state = record state {
  pending_disambiguation = true;
  pending_question = some (question_of decision.clarifying_question);
  pending_options = take 3 decision.clarifying_options;
  disambiguation_turns = state.disambiguation_turns + 1;
  last_user_message_id = some request.message_id;
}

abbrev pub or_policy_message : Option String → Message → Message
or_policy_message none message = message
or_policy_message (some code) message = switch_policy_message code

-- The action that the decision names is carried out on the request, in the tenant, with the policy
-- and the fallback of the orchestrator, and the metadata with its context.
pub record Setting : Type 0 where
  pub request : RoutingRequest
  pub tenant_id : String
  pub orchestrator : OrchestratorConfigRecord
  pub policy : RoutingPolicy
  pub metadata : Fields
  pub recent_decisions : List OrchestrationDecisionRecord
  pub candidates : List Candidate
  pub decision : RoutingDecision

-- `decision.route_type == "DISAMBIGUATE" or decision.confidence < policy.confidence_threshold`
unfoldable pub is_unclear : RoutingPolicy → RoutingDecision → Bool
is_unclear policy decision =
    decision.route_type == "DISAMBIGUATE"
    || ltb_float decision.confidence policy.confidence_threshold

-- `decision.confidence >= threshold and decision.switch_margin >= required`
unfoldable pub is_decisive : (Float → Float → Float) → RoutingPolicy → RoutingDecision → Bool
is_decisive add policy decision =
    let sum = add policy.switch_margin policy.hysteresis_margin in
    let required = if ltb_float sum (of_int (pos 1)) then sum else of_int (pos 1) in
    not (ltb_float decision.confidence policy.confidence_threshold)
    && not (ltb_float decision.switch_margin required)

module _ {E : Type 0} (services : Services E) (g : Setting) where
  abbrev pub said_from : List EngineEvent → Message
  said_from = response_message_from_events services.text_of

  -- `action == "CANCEL"`
  unfoldable pub cancel_turn :
      Option WorkflowEngineStateSnapshot → SessionStateRecord → World E → Outcome Turn × World E
  cancel_turn none state = pure (
      said "CANCEL" g.decision.workflow_id (some "ERR_NO_ACTIVE_WORKFLOW") none
        (assistant "Сейчас нет активного workflow для отмены.") state)
  cancel_turn (some active) state =
      if not active.cancellable
      then pure (
          said "CANCEL" g.decision.workflow_id (some "ERR_CANCEL_NOT_ALLOWED") none
            (assistant "Нельзя отменить workflow на текущем шаге.") state)
      else do
        result ← engine (services.adapter.cancel active.run_id "user_cancel" g.tenant_id)
        pure (
            ran "CANCEL" g.decision.workflow_id result result.events none none
              (said_from result.events) (with_run none state))

  -- A clarification, which is saved at once.
  unfoldable pub clarify_turn : SessionStateRecord → World E → Outcome Turn × World E
  clarify_turn state = do
    at ← observe
    saved ← stored (save_session_state (services.clock at) (asking g.request g.decision state))
    pure (
        said "DISAMBIGUATE" none none none
          (record {
            kind = "clarification";
            text = question_of g.decision.clarifying_question;
            options = take 3 g.decision.clarifying_options;
          })
          (asking g.request g.decision state))

  -- The active run is cancelled, and the target is started in its place.
  unfoldable pub switch_turn :
      WorkflowEngineStateSnapshot → String → SessionStateRecord → World E → Outcome Turn × World E
  switch_turn active target state = do
    cancelled ← engine (services.adapter.cancel active.run_id "switch_workflow" g.tenant_id)
    started ← engine (
        services.adapter.start g.request.project_id target
          (user_turn services g.request g.tenant_id g.metadata))
    entry ←
        push_run services g.request g.tenant_id started.run_id "switch_workflow"
          (some active.run_id)
    pure (
        ran "SWITCH_WORKFLOW" (some target) started (cancelled.events ++ started.events) none none
          (said_from (cancelled.events ++ started.events))
          (with_run (open_run started) (settled state)))

  -- The active run goes on; the switch may have been refused with a code.
  unfoldable pub resume_turn :
      WorkflowEngineStateSnapshot
      → Option String
      → Option ℕ
      → SessionStateRecord
      → World E
      → Outcome Turn × World E
  resume_turn active refused retry_after_s state = do
    resumed ← engine (
        services.adapter.resume active.run_id (user_turn services g.request g.tenant_id g.metadata))
    pure (
        ran "RESUME_CURRENT" (some active.workflow_id) resumed resumed.events refused retry_after_s
          (or_policy_message refused (said_from resumed.events))
          (with_run (open_run resumed) (settled state)))

  -- `FALLBACK` where the decision was one, else `START_WORKFLOW`
  unfoldable pub start_action : String
  start_action = if g.decision.route_type == "FALLBACK" then "FALLBACK" else "START_WORKFLOW"

  unfoldable pub start_turn :
      Option WorkflowEngineStateSnapshot
      → String
      → SessionStateRecord
      → World E
      → Outcome Turn × World E
  start_turn active target state = do
    started ← engine (
        services.adapter.start g.request.project_id target
          (user_turn services g.request g.tenant_id g.metadata))
    entry ←
        push_run services g.request g.tenant_id started.run_id
          (if g.decision.route_type == "FALLBACK" then "fallback_start" else "orchestrator_start")
          (elim active [ none ↦ none | some a ↦ some a.run_id ])
    pure (
        ran start_action (some target) started started.events none none (said_from started.events)
          (with_run (open_run started) (settled state)))

  -- The tests of a switch to another workflow, once the policy has or has not refused it.
  unfoldable pub other_turn :
      WorkflowEngineStateSnapshot
      → String
      → Option String
      → Option ℕ
      → SessionStateRecord
      → World E
      → Outcome Turn × World E
  other_turn active target (some code) retry_after_s state =
      resume_turn active (some code) retry_after_s state
  other_turn active target none retry_after_s state =
      if is_decisive services.texts.add g.policy g.decision
      then if not active.cancellable
        then pure (
            said "RESUME_CURRENT" (some active.workflow_id) (some "ERR_CANCEL_NOT_ALLOWED") none
              (assistant "Сейчас нельзя переключить workflow: текущий шаг не допускает отмену.")
              (settled state))
        else switch_turn active target state
      else resume_turn active none none state

  abbrev pub retry_after : ℕ → Option String → Option ℕ
  retry_after at none = none
  retry_after at (some code) = switch_retry_after_seconds at code g.policy g.recent_decisions

  -- The clock is read for the policy, and once more for the wait.
  unfoldable pub elsewhere_turn :
      WorkflowEngineStateSnapshot → String → SessionStateRecord → World E → Outcome Turn × World E
  elsewhere_turn active target state = do
    at ← observe
    let refused =
        switch_policy_error_code (services.clock at) g.policy g.recent_decisions
          (is_explicit_switch_request services.texts.lower g.request.message_text)
    later ← observe
    other_turn active target refused (retry_after (services.clock later) refused) state

  -- A target, or none, beside the run that is active, if one is.
  unfoldable pub target_turn :
      Option WorkflowEngineStateSnapshot
      → Option String
      → SessionStateRecord
      → World E
      → Outcome Turn × World E
  target_turn active none state = pure (
      said "FALLBACK" none (some "ERR_FALLBACK_NOT_AVAILABLE") none
        (assistant "Не удалось определить подходящий workflow. Опишите задачу подробнее.")
        (settled state))
  target_turn none (some target) state = start_turn none target state
  target_turn (some active) (some target) state =
      if target == active.workflow_id
      then resume_turn active none none state
      else elsewhere_turn active target state

  unfoldable pub route_turn :
      Option WorkflowEngineStateSnapshot → SessionStateRecord → World E → Outcome Turn × World E
  route_turn active state =
      if is_unclear g.policy g.decision
        && ltb state.disambiguation_turns g.policy.max_disambiguation_turns
      then clarify_turn state
      else do
        target ← reads (λ w.
            resolve_target_workflow g.request.project_id g.tenant_id w.store g.decision g.candidates
              g.orchestrator.fallback_workflow_id)
        target_turn active target state

  abbrev pub operator_turn : SessionStateRecord → World E → Outcome Turn × World E
  operator_turn state = pure (
      said "OPERATOR" none none none
        (assistant "Передаю запрос оператору. Опишите, пожалуйста, задачу подробнее.") state)

  unfoldable pub act :
      Option WorkflowEngineStateSnapshot → SessionStateRecord → World E → Outcome Turn × World E
  act active state =
      if g.decision.route_type == "OPERATOR"
      then operator_turn state
      else if g.decision.route_type == "CANCEL"
      then cancel_turn active state
      else route_turn active state
