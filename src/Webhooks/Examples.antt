-- ===== src/Webhooks/Examples.antt =====
-- The theorems on webhooks at one subscription with one delivery.
use text.Mathlib.TextLemmas.{length-nil, length-append}
use Prim.Native.String.{count}
use workcore.Prelude.{
  ℕ, zero, ◌+◌, length, Bool-cases, inl, inr, ap, suc, String, ◌<◌, ◌<>◌, false, ◌==◌, eq_iff, ◌≡◌,
  refl, true, none, some, [], ◌∷◌, ltb, arith, if◌then◌else◌,
}
use workcore.Dict.{get, keys}
use workcore.Value.{end}
use workcore.Runtime.Models.{Run, Event, running}
use workcore.Webhooks.{
  WebhookDelivery, WebhookStore, Service, Net, broken, pending, IdempotencyRecord,
  process_due_deliveries, handle_events, list_subscriptions, delete_subscription, attempt_each,
  get_idempotency, set_idempotency,
}
use workcore.Webhooks.Attempts.{Accounted, process_due_deliveries-Accounted}
use workcore.Webhooks.Attempts.Handed.{delivery_id, due_calls, handle_events-Accounted}
use workcore.Webhooks.Closing.{delete_subscription-stops, get_idempotency-set_idempotency}

-- A receiver that cannot be reached.
abbrev down : Net
down = record {
  max_attempts = 5;
  base_backoff_s = 2;
  now = λ n. n;
  hex = λ n. "00";
  send = λ n url payload secret. broken "unreachable";
  number_text = λ n. "";
}

abbrev delivery : WebhookDelivery
delivery = record {
  id = "whd_1";
  subscription_id = "whsub_1";
  event_type = "run_completed";
  payload = end;
  status = pending;
  attempt_count = 1;
  next_retry_at = 0;
  last_error = none;
}

abbrev store : WebhookStore
store = record {
  subscriptions =
      (
        "whsub_1",
        record {
          id = "whsub_1";
          url = "http://localhost";
          event_types = "run_completed" ∷ [];
          secret = "s";
          is_active = true;
        },
      )
      ∷ [];
  deliveries = ("whd_1", delivery) ∷ [];
  inbound_keys = [];
  idempotency = [];
}

abbrev service : Service
service = record { store = store; tick = 0; calls = "whd_1" ∷ [] }

service-Accounted : Accounted down service
unfolding get keys
service-Accounted = record {
  keyed = (refl, refl, tt);
  counts = λ id d h. ground (arith, h, eq_iff "whd_1" id);
  bounded = λ id. ground (arith, eq_iff "whd_1" id);
}

dispatch_example : Accounted down (process_due_deliveries down service)
dispatch_example = process_due_deliveries-Accounted down service service-Accounted

abbrev ended : Run
ended = record {
  id = "run_1";
  workflow_id = "wf";
  version_id = "v1";
  status = running;
  inputs = end;
  state = end;
  mode = "live";
  outputs = none;
  node_runs = [];
  node_outputs = [];
  interrupts = [];
  branch_selection = [];
  loop_state = [];
  skipped_nodes = [];
  metadata = end;
}

abbrev completed_event : Event
completed_event = record {
  kind = "run_completed";
  run_id = "run_1";
  workflow_id = "wf";
  version_id = "v1";
  node_id = none;
  payload = none;
  metadata = end;
}

-- Ids of growing length.
abbrev marks : ℕ → String
marks zero = ""
marks (suc n) = "0" <> marks n

length-marks : (n : ℕ) → count (marks n) ≡ n
length-marks zero = length-nil
length-marks (suc n) = omega (arith, length-append "0" (marks n), length-marks n)

abbrev counting : Net
counting = record {
  max_attempts = 5;
  base_backoff_s = 2;
  now = λ n. n;
  hex = marks;
  send = λ n url payload secret. broken "unreachable";
  number_text = λ n. "";
}

counting_unique : (i j : ℕ) → i < j → (delivery_id counting i == delivery_id counting j) ≡ false
counting_unique i j h = elim (Bool-cases (delivery_id counting i == delivery_id counting j)) [
  | inr differ ↦ differ
  | inl same ↦
      let e = ap count ((eq_iff (delivery_id counting i) (delivery_id counting j)).0 same) in
      absurd (
        omega (
          arith,
          e,
          h,
          length-append "whd_" (marks i),
          length-append "whd_" (marks j),
          length-marks i,
          length-marks j,
        ))
]

abbrev quiet : Service
quiet = record { store = record store { deliveries = [] }; tick = 0; calls = [] }

handed_example :
    (length (handle_events counting ended (completed_event ∷ []) quiet).calls
      ≡ due_calls counting ended (completed_event ∷ []) (list_subscriptions quiet.store) + 0)
    × Accounted counting (handle_events counting ended (completed_event ∷ []) quiet)
unfolding get keys
handed_example =
    handle_events-Accounted counting (omega arith) ended (completed_event ∷ []) quiet
      (λ i j h below. counting_unique i j h) (λ t later below. refl)
      (record {
        keyed = tt;
        counts = λ id d h. absurd (ground (arith, h));
        bounded = λ id. omega arith;
      })

deleted_example :
    attempt_each down
      (delivery ∷ [])
      (record { store = (delete_subscription "whsub_1" store).1; tick = 0; calls = [] })
    ≡ record { store = (delete_subscription "whsub_1" store).1; tick = 0; calls = [] }
deleted_example = delete_subscription-stops down "whsub_1" store (delivery ∷ []) 0 [] (refl, tt)

abbrev request : IdempotencyRecord
request = record { key = "k"; scope = "s"; response = end; status = "COMPLETED"; expires_at = 300 }

request_example :
    let (found, t) = get_idempotency 7 "k" "s" (set_idempotency request store) in
    (found ≡ (if ltb 300 7 then none else some request))
    × (get "s:k" t.idempotency ≡ (if ltb 300 7 then none else some request))
request_example = get_idempotency-set_idempotency 7 request store
