-- ===== src/Orchestrator/Replay.antt =====
-- `evaluate_routing_replay` of orchestrator_runtime/runtime.py: what one case of a replay decides,
-- over the routing of the messages before it.
pub mod Reading
pub mod Cases
pub mod Counts
pub mod Laws
use workcore.Prelude.{
  ℕ, suc, ◌+◌, String, Bool, true, false, not, ◌&&◌, ◌||◌, Option, none, some, List, [], ◌∷◌, ◌==◌,
  ltb, if◌then◌else◌,
}
use workcore.Prelude.Int.{Float}
use workcore.Orchestrator.Records.{OrchestratorConfigRecord, OrchestrationDecisionRecord}
use workcore.Orchestrator.Store.{
  OrchestrationStore, get_project, get_orchestrator_config, list_orchestrator_configs,
}
use workcore.Orchestrator.Policy.{
  RoutingPolicy, switch_policy_error_code, switch_retry_after_seconds, is_explicit_switch_request,
}
use workcore.Orchestrator.Candidates.{Candidate, RoutingDecision, given, resolve_target_workflow}
use workcore.Orchestrator.World.{runtime_error, Outcome, ok, raise}
use workcore.Orchestrator.Turn.{is_unclear, is_decisive}

-- The routing as it stands between two cases.
pub record ReplayState : Type 0 where
  pub active_workflow_id : Option String
  pub pending_disambiguation : Bool
  pub disambiguation_turns : ℕ

-- What a case decides, and the routing after it.
pub record Replayed : Type 0 where
  pub action : String
  pub chosen_workflow_id : Option String
  pub error_code : Option String
  pub retry_after_s : Option ℕ
  pub after : ReplayState

abbrev pub replayed : String → Option String → Option String → Option ℕ → Option String → Replayed
replayed action chosen error_code retry_after_s active = record {
  action = action;
  chosen_workflow_id = chosen;
  error_code = error_code;
  retry_after_s = retry_after_s;
  after = record {
    active_workflow_id = active;
    pending_disambiguation = false;
    disambiguation_turns = 0;
  };
}

-- The parameters of a case: the texts' functions, the policy, the decisions so far, the message and
-- what the model's router decides about it, with the two times at which the clock is read.
pub record Case : Type 0 where
  pub lower : String → String
  pub add : Float → Float → Float
  pub policy : RoutingPolicy
  pub recent_decisions : List OrchestrationDecisionRecord
  pub message_text : String
  pub decision : RoutingDecision
  pub now : ℕ
  pub later : ℕ

module _ (c : Case) where
  -- The switch has been refused by the policy with a code, or has not.
  unfoldable pub replay_other : String → String → Option String → Replayed
  replay_other active target (some code) =
      replayed "RESUME_CURRENT" (some active) (some code)
        (switch_retry_after_seconds c.later code c.policy c.recent_decisions) (some active)
  replay_other active target none =
      if is_decisive c.add c.policy c.decision
      then replayed "SWITCH_WORKFLOW" (some target) none none (some target)
      else replayed "RESUME_CURRENT" (some active) none none (some active)

  -- The first argument is the active workflow as it is kept, the second one as it is tested.
  unfoldable pub replay_target : Option String → Option String → Option String → Replayed
  replay_target kept active none =
      replayed "FALLBACK" none (some "ERR_FALLBACK_NOT_AVAILABLE") none kept
  replay_target kept none (some target) =
      replayed (if c.decision.route_type == "FALLBACK" then "FALLBACK" else "START_WORKFLOW")
        (some target) none none (some target)
  replay_target kept (some active) (some target) =
      if target == active
      then replayed "RESUME_CURRENT" (some active) none none (some active)
      else replay_other active target (
          switch_policy_error_code c.now c.policy c.recent_decisions
            (is_explicit_switch_request c.lower c.message_text))

  abbrev pub replay_clarify : ReplayState → Replayed
  replay_clarify before = record {
    action = "DISAMBIGUATE";
    chosen_workflow_id = none;
    error_code = none;
    retry_after_s = none;
    after = record before {
      pending_disambiguation = true;
      disambiguation_turns = before.disambiguation_turns + 1;
    };
  }

  abbrev pub replay_cancel : Option String → Replayed
  replay_cancel none = replayed "CANCEL" none (some "ERR_NO_ACTIVE_WORKFLOW") none none
  replay_cancel (some active) = replayed "CANCEL" (some active) none none none

  -- One case, with the target that the message would have. An empty id of an active workflow counts
  -- as none.
  unfoldable pub replay_case : ReplayState → Option String → Replayed
  replay_case before target =
      if c.decision.route_type == "OPERATOR"
      then replayed "OPERATOR" none none none before.active_workflow_id
      else if c.decision.route_type == "CANCEL"
      then replay_cancel before.active_workflow_id
      else if is_unclear c.policy c.decision
          && ltb before.disambiguation_turns c.policy.max_disambiguation_turns
      then replay_clarify before
      else replay_target before.active_workflow_id (given before.active_workflow_id) target

-- `_resolve_orchestrator_for_eval`: the configuration, where one is chosen and there
module _ (project_id tenant_id : String) (store : OrchestrationStore) where
  abbrev pub first_config : List OrchestratorConfigRecord → Option String
  first_config [] = none
  first_config (c ∷ cs) = given (some c.orchestrator_id)

  abbrev pub default_config : Option String → Option String
  default_config (some id) = some id
  default_config none = first_config (list_orchestrator_configs project_id tenant_id store)

  abbrev pub of_project : Option String → Option String
  of_project (some id) = some id
  of_project none = elim (get_project project_id tenant_id store) [
    | none ↦ none
    | some p ↦ given p.default_orchestrator_id
  ]

  abbrev pub config_or_fail : Option OrchestratorConfigRecord → Outcome OrchestratorConfigRecord
  config_or_fail (some c) = ok c
  config_or_fail none = raise (
      runtime_error "ERR_ORCHESTRATOR_NOT_IN_PROJECT" "orchestrator does not belong to project" 409)

  unfoldable pub resolve_orchestrator_for_eval : Option String → Outcome OrchestratorConfigRecord
  resolve_orchestrator_for_eval asked = elim (default_config (of_project (given asked))) [
    | none ↦ raise (
        runtime_error "ERR_ORCHESTRATOR_NOT_IN_PROJECT" "orchestrator is not configured for project"
          409)
    | some id ↦ config_or_fail (get_orchestrator_config project_id id tenant_id store)
  ]
