-- ===== src/Orchestrator/Replay/Cases.antt =====
-- The cases of `evaluate_routing_replay`: how one is read, the loop over them, and the metrics. The
-- quotients that are rounded to six digits are parameters.
use workcore.Prelude.{
  ℕ, suc, ◌+◌, String, Bool, true, false, ◌&&◌, Option, none, some, List, [], ◌∷◌, ◌++◌, ◌==◌, ◌=ℕ◌,
  ◌<>◌, length, take, if◌then◌else◌,
}
use workcore.Prelude.Int.{pos, Float, of_int}
use workcore.Value.{boolean, int, Items, nil, cons, end, field}
use workcore.Value.Object
use workcore.Orchestrator.Records.{
  ProjectRecord, OrchestratorConfigRecord, OrchestrationDecisionRecord,
}
use workcore.Orchestrator.Store.{get_project}
use workcore.Orchestrator.Policy.{RoutingPolicy, from_dict}
use workcore.Orchestrator.Candidates.{
  Candidate, RoutingDecision, candidate_shortlist, logged, resolve_target_workflow,
}
use workcore.Orchestrator.Messages.{
  ActionError, DecisionTrace, action_error_default_message, action_error_payload,
  build_decision_trace, context_summary,
}
use workcore.Orchestrator.World.{
  runtime_error, Outcome, ok, raise, RouteQuery, Services, World, ◌>>=◌, pure, fail, reads, observe,
}
use workcore.Orchestrator.Orchestrated.{locale_of, or_unavailable}
use workcore.Orchestrator.Replay.Reading.{ReadCase, read_case}
use workcore.Orchestrator.Replay.{ReplayState, Replayed, replay_case, resolve_orchestrator_for_eval}

pub record ReplayItem : Type 0 where
  pub case_id : String
  pub message_text : String
  pub expected_action : Option String
  pub expected_workflow_id : Option String
  pub chosen_action : String
  pub chosen_workflow_id : Option String
  pub confidence : Float
  pub decision : RoutingDecision
  pub decision_trace : DecisionTrace
  pub action_error : Option ActionError
  pub matched_action : Option Bool
  pub matched_workflow_id : Option Bool
  pub matched_exact : Option Bool
  pub latency_ms : ℕ

-- How many cases expect something, and how many of them have it.
pub record Tally : Type 0 where
  pub expected : ℕ
  pub matched : ℕ

-- The loop's variables.
pub record Progress : Type 0 where
  pub decisions : List OrchestrationDecisionRecord
  pub routed : ReplayState
  pub items : List ReplayItem
  pub actions : Tally
  pub workflows : Tally
  pub exact : Tally
  pub confidence_sum : Float

-- The counter after one more case, which matches, does not, or expects nothing.
unfoldable pub count_case : Option Bool → Tally → Tally
count_case none t = t
count_case (some matched) t = record {
  expected = t.expected + 1;
  matched = t.matched + (if matched then 1 else 0);
}

abbrev pub expects : Option String → Option String → Option Bool
expects none actual = none
expects (some e) none = some false
expects (some e) (some a) = some (a == e)

abbrev pub both : Option Bool → Option Bool → Option Bool
both none other = none
both (some a) none = none
both (some a) (some b) = some (a && b)

abbrev pub text_or_empty : Option String → String
text_or_empty none = ""
text_or_empty (some s) = s

abbrev pub default_message : Option String → Option String
default_message none = none
default_message (some code) = action_error_default_message code

module _ {E : Type 0} (services : Services E) where
  abbrev pub now_routed : ReadCase → ReplayState → ReplayState
  now_routed c r = record r { active_workflow_id = c.active_workflow_id }

  module _ (project_id session_id tenant_id : String) (orchestrator : OrchestratorConfigRecord)
      (policy : RoutingPolicy) where
    abbrev pub eval_query : ReadCase → List Candidate → Progress → RouteQuery
    eval_query c candidates p = record {
      message_text = c.message_text;
      candidates = candidates;
      active_workflow_id = c.active_workflow_id;
      confidence_threshold = policy.confidence_threshold;
      switch_margin_threshold = policy.switch_margin;
      context_summary = context_summary p.decisions;
      locale = locale_of services (Object.get "locale" c.metadata);
      pending_disambiguation = p.routed.pending_disambiguation;
    }

    abbrev pub eval_record :
        ℕ
        → ReadCase
        → List Candidate
        → RoutingDecision
        → Replayed
        → ℕ
        → ℕ
        → OrchestrationDecisionRecord
    eval_record at c candidates decision r latency created = record {
      decision_id = "eval_" <> c.case_id;
      tenant_id = tenant_id;
      project_id = project_id;
      orchestrator_id = some orchestrator.orchestrator_id;
      session_id = session_id;
      message_id = "eval_msg_" <> services.text_of (int (pos (suc at)));
      mode = "orchestrated_eval";
      active_run_id = none;
      context_ref = field "eval" (boolean true) end;
      candidates = logged candidates;
      chosen_action = r.action;
      chosen_workflow_id = r.chosen_workflow_id;
      confidence = decision.confidence;
      latency_ms = latency;
      model_id = decision.model_id;
      error_code = r.error_code;
      created_at = created;
    }

    abbrev pub item_of : ReadCase → List Candidate → RoutingDecision → Replayed → ℕ → ReplayItem
    item_of c candidates decision r latency =
        let action = expects c.expected_action (some r.action) in
        let workflow = expects c.expected_workflow_id r.chosen_workflow_id in
        record {
          case_id = c.case_id;
          message_text = c.message_text;
          expected_action = c.expected_action;
          expected_workflow_id = c.expected_workflow_id;
          chosen_action = r.action;
          chosen_workflow_id = r.chosen_workflow_id;
          confidence = decision.confidence;
          decision = decision;
          decision_trace =
              build_decision_trace "orchestrated" r.action r.chosen_workflow_id (logged candidates)
                decision.reason_codes c.active_workflow_id;
          action_error =
              action_error_payload r.error_code (text_or_empty (default_message r.error_code))
                r.action r.retry_after_s none;
          matched_action = action;
          matched_workflow_id = workflow;
          matched_exact = both action workflow;
          latency_ms = latency;
        }

    -- The counters, the item and the decision after one case.
    unfoldable pub record_case :
        ReplayItem → OrchestrationDecisionRecord → ReplayState → Progress → Progress
    record_case item d routed p = record {
      decisions = take 20 (d ∷ p.decisions);
      routed = routed;
      items = p.items ++ (item ∷ []);
      actions = count_case item.matched_action p.actions;
      workflows = count_case item.matched_workflow_id p.workflows;
      exact = count_case item.matched_exact p.exact;
      confidence_sum = services.texts.add p.confidence_sum item.confidence;
    }

    -- The body of the loop, for a case that has been read.
    unfoldable pub run_case : ℕ → ReadCase → Progress → World E → Outcome Progress × World E
    run_case at c p = do
      candidates ← reads (λ w.
          candidate_shortlist services.texts project_id tenant_id c.message_text
            policy.top_k_candidates w.store)
      asked ← observe
      decision ← or_unavailable services (services.route asked (eval_query c candidates p))
      latency ← observe
      target ← reads (λ w.
          resolve_target_workflow project_id tenant_id w.store decision candidates
            orchestrator.fallback_workflow_id)
      now ← observe
      later ← observe
      created ← observe
      let r =
          replay_case
            (record {
              lower = services.texts.lower;
              add = services.texts.add;
              policy = policy;
              recent_decisions = p.decisions;
              message_text = c.message_text;
              decision = decision;
              now = services.clock now;
              later = services.clock later;
            })
            (now_routed c p.routed) target
      pure (
          record_case (item_of c candidates decision r (services.milliseconds latency))
            (eval_record at c candidates decision r (services.milliseconds latency)
              (services.clock created))
            r.after p)

    abbrev pub read_or_fail : Outcome ReadCase → World E → Outcome ReadCase × World E
    read_or_fail (ok c) = pure c
    read_or_fail (raise e) = fail e

    -- The loop, from the case at a position on.
    unfoldable pub run_cases : ℕ → Items → Progress → World E → Outcome Progress × World E
    run_cases at nil p = pure p
    run_cases at (cons v vs) p = do
      c ← read_or_fail (read_case services at p.routed.active_workflow_id v)
      p' ← run_case at c p
      run_cases (suc at) vs p'

abbrev pub nothing_counted : Tally
nothing_counted = record { expected = 0; matched = 0 }

abbrev pub at_start : Progress
at_start = record {
  decisions = [];
  routed = record {
    active_workflow_id = none;
    pending_disambiguation = false;
    disambiguation_turns = 0;
  };
  items = [];
  actions = nothing_counted;
  workflows = nothing_counted;
  exact = nothing_counted;
  confidence_sum = of_int (pos 0);
}

pub record Metrics : Type 0 where
  pub actions : Tally
  pub workflows : Tally
  pub exact : Tally
  pub action_accuracy : Option Float
  pub workflow_accuracy : Option Float
  pub exact_match_rate : Option Float
  pub average_confidence : Float

pub record Evaluation : Type 0 where
  pub orchestrator_id : String
  pub total_cases : ℕ
  pub metrics : Metrics
  pub items : List ReplayItem

module _ (quotient : ℕ → ℕ → Float) (mean : Float → ℕ → Float) where
  -- `_ratio`
  abbrev pub ratio : Tally → Option Float
  ratio t = if t.expected =ℕ 0 then none else some (quotient t.matched t.expected)

  abbrev pub evaluation_of : OrchestratorConfigRecord → Progress → Evaluation
  evaluation_of orchestrator p = record {
    orchestrator_id = orchestrator.orchestrator_id;
    total_cases = length p.items;
    metrics = record {
      actions = p.actions;
      workflows = p.workflows;
      exact = p.exact;
      action_accuracy = ratio p.actions;
      workflow_accuracy = ratio p.workflows;
      exact_match_rate = ratio p.exact;
      average_confidence =
          if length p.items =ℕ 0 then of_int (pos 0) else mean p.confidence_sum (length p.items);
    };
    items = p.items;
  }

  module _ {E : Type 0} (services : Services E) (project_id session_id tenant_id : String) where
    abbrev pub evaluate_with :
        Items → Outcome OrchestratorConfigRecord → World E → Outcome Evaluation × World E
    evaluate_with cases (raise e) = fail e
    evaluate_with nil (ok orchestrator) =
        fail (runtime_error "INVALID_ARGUMENT" "cases must be a non-empty array" 400)
    evaluate_with (cons v vs) (ok orchestrator) = do
      p ←
          run_cases services project_id session_id tenant_id orchestrator
            (from_dict services.numbers orchestrator.routing_policy) 0 (cons v vs) at_start
      pure (evaluation_of orchestrator p)

    abbrev pub evaluate_in :
        Option String → Items → Option ProjectRecord → World E → Outcome Evaluation × World E
    evaluate_in asked cases none =
        fail (runtime_error "ERR_PROJECT_NOT_FOUND" "project not found" 404)
    evaluate_in asked cases (some project) = do
      found ← reads (λ w. resolve_orchestrator_for_eval project_id tenant_id w.store asked)
      evaluate_with cases found

    unfoldable pub evaluate_routing_replay :
        Option String → Items → World E → Outcome Evaluation × World E
    evaluate_routing_replay asked cases = do
      project ← reads (λ w. get_project project_id tenant_id w.store)
      evaluate_in asked cases project
