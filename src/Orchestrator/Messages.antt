-- ===== src/Orchestrator/Messages.antt =====
-- The texts that orchestrator_runtime/runtime.py answers with, the errors that it reports beside a
-- message, and the trace of a decision.
use workcore.Prelude.{
  ℕ, String, Bool, Option, none, some, List, [], ◌∷◌, ◌==◌, ◌<>◌, map, any, take, contains,
  if◌then◌else◌,
}
use workcore.Text.{strip}
use workcore.Value.{Value, truthy}
use workcore.Value.Object
use workcore.Orchestrator.Records.{OrchestrationDecisionRecord, ScoredCandidate}
use workcore.Orchestrator.World.{EngineEvent}

pub record Message : Type 0 where
  pub kind : String
  pub text : String
  pub options : List String

abbrev pub assistant : String → Message
assistant text = record { kind = "assistant_message"; text = text; options = [] }

-- `_switch_policy_message`
unfoldable pub switch_policy_message : String → Message
switch_policy_message code = assistant (
    if code == "ERR_SWITCH_DISABLED"
    then "Переключение workflow отключено политикой маршрутизации."
    else if code == "ERR_SWITCH_COOLDOWN_ACTIVE"
    then "Переключение временно недоступно: действует cooldown после предыдущего переключения."
    else if code == "ERR_SWITCH_EXPLICIT_REQUIRED"
    then "Для переключения workflow укажите явную команду на смену сценария."
    else if code == "ERR_STICKY_POLICY_ACTIVE"
    then "Сохраняем текущий workflow по sticky-политике."
    else "Переключение workflow недоступно из-за политики маршрутизации.")

-- `str(d.get(key) or "").strip()`
abbrev pub text_under : (Value → String) → Option Value → String
text_under text_of none = ""
text_under text_of (some v) = if truthy v then strip (text_of v) else ""

-- The first assistant's text that is not blank.
unfoldable pub spoken : (Value → String) → List EngineEvent → Option String
spoken text_of [] = none
spoken text_of (e ∷ es) =
    let rest = spoken text_of es in
    let text = text_under text_of (Object.get "text" e.payload) in
    if e.kind == "assistant_message" then (if text == "" then rest else some text) else rest

abbrev pub any_kind : String → List EngineEvent → Bool
any_kind kind events = any (λ e. e.kind == kind) events

abbrev pub status_text : List EngineEvent → String
status_text events =
    if any_kind "request_user_input" events
    then "Нужны дополнительные данные для продолжения workflow."
    else if any_kind "completed" events
    then "Workflow завершен."
    else if any_kind "failed" events
    then "Workflow завершился с ошибкой."
    else "Запрос обработан."

abbrev pub text_or_status : Option String → List EngineEvent → String
text_or_status none events = status_text events
text_or_status (some text) events = text

-- `_response_message_from_events`
unfoldable pub response_message_from_events : (Value → String) → List EngineEvent → Message
response_message_from_events text_of events =
    assistant (text_or_status (spoken text_of events) events)

-- `_action_error_default_message`
unfoldable pub action_error_default_message : String → Option String
action_error_default_message code =
    if code == "ERR_NO_ACTIVE_WORKFLOW"
    then some "Сейчас нет активного workflow для отмены."
    else if code == "ERR_FALLBACK_NOT_AVAILABLE"
    then some "Не удалось определить подходящий workflow. Опишите задачу подробнее."
    else if contains code (
        "ERR_SWITCH_DISABLED" ∷ "ERR_SWITCH_COOLDOWN_ACTIVE" ∷ "ERR_SWITCH_EXPLICIT_REQUIRED"
        ∷ "ERR_STICKY_POLICY_ACTIVE" ∷ [])
    then some (switch_policy_message code).text
    else if code == "ERR_CANCEL_NOT_ALLOWED"
    then some "Нельзя отменить workflow на текущем шаге."
    else none

-- What is reported beside a message; its other keys are always `None`.
pub record ActionError : Type 0 where
  pub code : String
  pub message : String
  pub category : String
  pub retryable : Bool
  pub retry_after_s : Option ℕ
  pub correlation_id : Option String
  pub action : String

abbrev pub action_error_of : String → String → String → Option ℕ → Option String → ActionError
action_error_of code text action retry_after_s correlation_id = record {
  code = code;
  message = if strip text == "" then "Routing action error." else strip text;
  category = if code == "ERR_FALLBACK_NOT_AVAILABLE" then "route" else "action";
  retryable = contains code (
      "ERR_NO_ACTIVE_WORKFLOW" ∷ "ERR_FALLBACK_NOT_AVAILABLE" ∷ "ERR_SWITCH_COOLDOWN_ACTIVE"
      ∷ "ERR_SWITCH_EXPLICIT_REQUIRED" ∷ "ERR_STICKY_POLICY_ACTIVE" ∷ []);
  retry_after_s = retry_after_s;
  correlation_id = correlation_id;
  action = action;
}

-- `_action_error_payload`
unfoldable pub action_error_payload :
    Option String → String → String → Option ℕ → Option String → Option ActionError
action_error_payload none text action retry_after_s correlation_id = none
action_error_payload (some error_code) text action retry_after_s correlation_id =
    let code = strip error_code in
    if code == ""
    then none
    else some (action_error_of code text action retry_after_s correlation_id)

abbrev pub or_dash : Option String → String
or_dash none = "-"
or_dash (some s) = if s == "" then "-" else s

abbrev pub joined : List String → String
joined [] = ""
joined (s ∷ []) = s
joined (s ∷ t ∷ rest) = s <> " | " <> joined (t ∷ rest)

abbrev pub summary_part : OrchestrationDecisionRecord → String
summary_part d = d.message_id <> ":" <> d.chosen_action <> ":" <> or_dash d.chosen_workflow_id

-- `_context_summary`
unfoldable pub context_summary : List OrchestrationDecisionRecord → String
context_summary decisions = joined (map summary_part (take 5 decisions))

pub record DecisionTrace : Type 0 where
  pub mode : String
  pub candidates : List ScoredCandidate
  pub selected_action : String
  pub selected_workflow_id : Option String
  pub reason_codes : List String
  pub selection_reason : String
  pub switch_from_workflow_id : Option String
  pub switch_to_workflow_id : Option String
  pub switch_reason : Option String

-- The texts that are not blank, stripped.
abbrev pub nonblank_codes : List String → List String
nonblank_codes [] = []
nonblank_codes (c ∷ cs) =
    let rest = nonblank_codes cs in if strip c == "" then rest else strip c ∷ rest

abbrev pub normalized_candidates : List ScoredCandidate → List ScoredCandidate
normalized_candidates [] = []
normalized_candidates (c ∷ cs) =
    let rest = normalized_candidates cs in
    if strip c.workflow_id == ""
    then rest
    else record {
      workflow_id = strip c.workflow_id;
      score = c.score;
      reason_codes = nonblank_codes c.reason_codes;
    }
      ∷ rest

abbrev pub first_or : List String → String → String
first_or [] other = other
first_or (x ∷ xs) other = x

-- `_build_decision_trace`
unfoldable pub build_decision_trace :
    String
    → String
    → Option String
    → List ScoredCandidate
    → List String
    → Option String
    → DecisionTrace
build_decision_trace mode action chosen candidates reason_codes active_before =
    let codes = nonblank_codes reason_codes in
    let switched = action == "SWITCH_WORKFLOW" in
    record {
      mode = mode;
      candidates = normalized_candidates candidates;
      selected_action = action;
      selected_workflow_id = chosen;
      reason_codes = codes;
      selection_reason = first_or codes action;
      switch_from_workflow_id = if switched then active_before else none;
      switch_to_workflow_id = if switched then chosen else none;
      switch_reason = if switched then some (first_or codes action) else none;
    }
