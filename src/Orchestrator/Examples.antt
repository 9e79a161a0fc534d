-- ===== src/Orchestrator/Examples.antt =====
-- The theorems on the orchestrator at a shop with one workflow.
use workcore.Prelude.{◌+◌, ◌≤◌, ◌≡◌, ◌≢◌, refl, true, false, none, some, [], ◌∷◌, arith}
use workcore.Prelude.Int.{pos}
use workcore.Value.{str, obj, end, field, nil, cons, int}
use workcore.Router.{orchestrated}
use workcore.Orchestrator.Records.{SessionStateRecord, OrchestrationDecisionRecord}
use workcore.Orchestrator.Store.{get_project, delete_project}
use workcore.Orchestrator.Store.Sessions.{
  upsert_workflow_definition, get_session_state, get_workflow_definition,
}
use workcore.Orchestrator.Store.Laws.{Deleted, delete_project-Deleted}
use workcore.Orchestrator.Store.Invariants.{Sound, upsert_workflow_definition-Sound}
use workcore.Orchestrator.Policy.{
  Numbers, RoutingPolicy, from_dict, microseconds, latest_switch, switch_policy_error_code,
  switch_retry_after_seconds,
}
use workcore.Orchestrator.Policy.Laws.{Bounded, from_dict-Bounded, Told, or_now, cooldown_ends}
use workcore.Orchestrator.Candidates.{candidate_shortlist, resolve_target_workflow}
use workcore.Orchestrator.Candidates.Laws.{Offered, resolve_target_workflow-Offered}
use workcore.Orchestrator.Turn.{act}
use workcore.Orchestrator.Turn.Safety.{Ends, act-Ends}
use workcore.Orchestrator.Orchestrated.Laws.{Logs, Holds, log_key}
use workcore.Orchestrator.Direct.{handle_message}
use workcore.Orchestrator.Direct.Laws.{handle_message-Logs}
use workcore.Orchestrator.Soundness.{handle_message-Sound}
use workcore.Orchestrator.Replay.{replay_case}
use workcore.Orchestrator.Replay.Laws.{AgreeEnd, case_of, replay_case-Agree}
use workcore.Orchestrator.Replay.Cases.{evaluate_routing_replay}
use workcore.Orchestrator.Replay.Counts.{Tallied, evaluate_routing_replay-Tallied}
use workcore.Orchestrator.Samples.{
  half, snapshot, texts, numbers, to_orders, services, helper, shop, bare, shop_store, world,
  question, session, policy, setting, switched, resumed,
}

bare-Sound : Sound bare
unfolding workcore.Table.find
bare-Sound = record {
  sessions = λ k v h. absurd (ground (arith, h));
  definitions = λ k v h. absurd (ground (arith, h));
  stacks = λ k. tt;
}

shop-Sound : Sound shop_store
shop-Sound =
    upsert_workflow_definition-Sound 1 "shop" "orders" "local" "Orders" "" none none true false bare
      bare-Sound

no_session :
    {A : Type 0} (old : SessionStateRecord)
    → get_session_state "shop" "s1" "local" shop_store ≡ some old
    → A
unfolding get_session_state upsert_workflow_definition workcore.Table.find
no_session old h = absurd (ground (arith, h))

target_is_orders :
    resolve_target_workflow "shop" "local" shop_store to_orders
      (candidate_shortlist texts "shop" "local" "where are my orders" 20 shop_store)
      none
    ≡ some "orders"
unfolding resolve_target_workflow upsert_workflow_definition workcore.Table.find
    workcore.Table.insert get_workflow_definition
target_is_orders = refl

switched_before :
    (d : OrchestrationDecisionRecord) → latest_switch (switched ∷ []) ≡ some d → d.created_at ≤ 30
unfolding latest_switch
switched_before d h = ground (arith, h)

told_in_time :
    30
      + microseconds (
          or_now policy
            (switched ∷ [])
            (switch_retry_after_seconds 30 "ERR_SWITCH_COOLDOWN_ACTIVE" policy (switched ∷ [])))
    ≤ 60000030
unfolding switch_retry_after_seconds latest_switch workcore.Orchestrator.Policy.ceil_seconds
told_in_time = omega arith

shop_is_there : get_project "shop" "local" bare ≡ some shop
unfolding get_project workcore.Table.find
shop_is_there = refl

handle_message-Logs_example :
    Logs
      (log_key question "local")
      shop_store.decisions
      (handle_message services question (orchestrated shop helper) "local" end world)
handle_message-Logs_example =
    handle_message-Logs services question "local" (orchestrated shop helper) end world
      (λ old h. no_session old h)

handle_message-Sound_example :
    Sound (handle_message services question (orchestrated shop helper) "local" end world).1.store
handle_message-Sound_example =
    handle_message-Sound services question (orchestrated shop helper) "local" end world shop-Sound

act-Ends_example :
    Ends services setting
      (some (snapshot "run_a" "WAITING_FOR_INPUT"))
      session
      world
      (act services setting (some (snapshot "run_a" "WAITING_FOR_INPUT")) session world)
act-Ends_example =
    act-Ends services setting (some (snapshot "run_a" "WAITING_FOR_INPUT")) session world

replay_case-Agree_example :
    AgreeEnd services setting
      (act services setting (some (snapshot "run_a" "WAITING_FOR_INPUT")) session world)
      (replay_case
        (case_of services setting (resumed ∷ []) world)
        (record {
          active_workflow_id = some "orders";
          pending_disambiguation = false;
          disambiguation_turns = 0;
        })
        (resolve_target_workflow "shop" "local" shop_store to_orders [] none))
unfolding latest_switch
replay_case-Agree_example =
    replay_case-Agree services setting (resumed ∷ []) refl session
      (record {
        active_workflow_id = some "orders";
        pending_disambiguation = false;
        disambiguation_turns = 0;
      })
      refl (some (snapshot "run_a" "WAITING_FOR_INPUT")) world (refl, refl, refl)

resolve_target_workflow-Offered_example : Offered "shop" "local" shop_store "orders"
resolve_target_workflow-Offered_example =
    resolve_target_workflow-Offered "shop" "local" shop_store texts "where are my orders" 20
      to_orders none "orders" shop-Sound target_is_orders

from_dict-Bounded_example :
    Bounded (from_dict numbers (field "top_k_candidates" (int (pos 500)) end))
from_dict-Bounded_example = from_dict-Bounded numbers (field "top_k_candidates" (int (pos 500)) end)

cooldown_ends_example :
    Told policy
      (switched ∷ [])
      30
      (switch_retry_after_seconds 30 "ERR_SWITCH_COOLDOWN_ACTIVE" policy (switched ∷ []))
    × (switch_policy_error_code 60000030 policy (switched ∷ []) false
        ≢ some "ERR_SWITCH_COOLDOWN_ACTIVE")
cooldown_ends_example =
    cooldown_ends policy (switched ∷ []) 30 60000030 false switched_before told_in_time

delete_project-Deleted_example :
    ((delete_project "shop" "local" bare).0 ≡ true)
    × Deleted "shop" "local" bare (delete_project "shop" "local" bare).1
delete_project-Deleted_example = delete_project-Deleted "shop" "local" shop bare shop_is_there

evaluate_routing_replay-Tallied_example :
    Holds services
      (Tallied 1)
      (evaluate_routing_replay
        (λ m n. half)
        (λ s n. half)
        services
        "shop"
        "s1"
        "local"
        none
        (cons (obj (field "message_text" (str "orders") end)) nil)
        world).0
evaluate_routing_replay-Tallied_example =
    evaluate_routing_replay-Tallied (λ m n. half) (λ s n. half) services "shop" "s1" "local" none
      (cons (obj (field "message_text" (str "orders") end)) nil) world
