-- ===== src/Webhooks.antt =====
-- apps/orchestrator/webhooks: subscriptions, their deliveries with retries, and inbound keys.
-- Times are counted in units of the clock, and `base_backoff_s` in the same unit.
pub mod Attempts
pub mod Closing
mod Examples
use workcore.Prelude.{
  ℕ, suc, ◌+◌, ◌-◌, ◌*◌, ◌^◌, String, Bool, true, false, not, ◌&&◌, ◌||◌, Option, none, some, List,
  [], ◌∷◌, map, select, ◌==◌, ◌<>◌, leb, ltb, contains, if◌then◌else◌,
}
use workcore.Dict.{Dict, get, put, pop, values}
use workcore.Value.{Value, null, str, arr, obj, Items, nil, cons, Fields, end, field}
use workcore.Runtime.Models.{Run, Event, Interrupt}
use workcore.Runtime.Projection.{projection_paths_from_metadata, apply_output_include_paths}

pub record WebhookSubscription : Type 0 where
  pub id : String
  pub url : String
  pub event_types : List String
  pub secret : String
  pub is_active : Bool

pub data DeliveryStatus : Type 0 where
  pending success failure : DeliveryStatus

pub record WebhookDelivery : Type 0 where
  pub id : String
  pub subscription_id : String
  pub event_type : String
  pub payload : Fields
  pub status : DeliveryStatus
  pub attempt_count : ℕ
  pub next_retry_at : ℕ
  pub last_error : Option String

pub record InboundKey : Type 0 where
  pub integration_key : String
  pub secret : String
  pub is_active : Bool

pub record IdempotencyRecord : Type 0 where
  pub key : String
  pub scope : String
  pub response : Fields
  pub status : String
  pub expires_at : ℕ

-- `InMemoryWebhookStore`
pub record WebhookStore : Type 0 where
  pub subscriptions : Dict WebhookSubscription
  pub deliveries : Dict WebhookDelivery
  pub inbound_keys : Dict InboundKey
  pub idempotency : Dict IdempotencyRecord

unfoldable pub add_subscription : WebhookSubscription → WebhookStore → WebhookStore
add_subscription sub s = record s { subscriptions = put sub.id sub s.subscriptions }

unfoldable pub list_subscriptions : WebhookStore → List WebhookSubscription
list_subscriptions s = select (λ sub. sub.is_active) (values s.subscriptions)

abbrev pub inactive : WebhookSubscription → WebhookSubscription
inactive sub = record sub { is_active = false }

unfoldable pub delete_subscription : String → WebhookStore → Bool × WebhookStore
delete_subscription sub_id s = elim (get sub_id s.subscriptions) [
  | none ↦ (false, s)
  | some sub ↦ (true, record s { subscriptions = put sub_id (inactive sub) s.subscriptions })
]

-- `add_delivery` and `update_delivery`
unfoldable pub update_delivery : WebhookDelivery → WebhookStore → WebhookStore
update_delivery d s = record s { deliveries = put d.id d s.deliveries }

-- `d.status in ("PENDING", "FAILED")`
abbrev pub is_unsent : DeliveryStatus → Bool
is_unsent success = false
is_unsent _ = true

unfoldable pub list_due_deliveries : ℕ → WebhookStore → List WebhookDelivery
list_due_deliveries now s =
    select (λ d. is_unsent d.status && leb d.next_retry_at now) (values s.deliveries)

unfoldable pub set_inbound_key : String → String → WebhookStore → WebhookStore
set_inbound_key integration_key secret s = record s {
  inbound_keys =
      put integration_key
        (record { integration_key = integration_key; secret = secret; is_active = true })
        s.inbound_keys;
}

unfoldable pub get_inbound_key : String → WebhookStore → Option InboundKey
get_inbound_key integration_key s = elim (get integration_key s.inbound_keys) [
  | none ↦ none
  | some key ↦ if key.is_active then some key else none
]

-- `get_idempotency` at a time, which drops a record that is over
unfoldable pub get_idempotency :
    ℕ → String → String → WebhookStore → Option IdempotencyRecord × WebhookStore
get_idempotency now key scope s = elim (get (scope <> ":" <> key) s.idempotency) [
  | none ↦ (none, s)
  | some found ↦
      if ltb found.expires_at now
      then (none, record s { idempotency = pop (scope <> ":" <> key) s.idempotency })
      else (some found, s)
]

unfoldable pub set_idempotency : IdempotencyRecord → WebhookStore → WebhookStore
set_idempotency r s = record s { idempotency = put (r.scope <> ":" <> r.key) r s.idempotency }

-- What a call of the dispatcher comes to: a status code, or an exception with its text.
pub data Sent : Type 0 where
  answered : ℕ → Sent
  broken : String → Sent

-- The dispatcher's configuration and what the service takes from outside, at the number of the
-- observation: the clock, uuid4, and the HTTP call.
pub record Net : Type 0 where
  pub max_attempts : ℕ
  pub base_backoff_s : ℕ
  pub now : ℕ → ℕ
  pub hex : ℕ → String
  pub send : ℕ → String → Fields → String → Sent
  pub number_text : ℕ → String

-- The store, the number of observations, and the ids of the deliveries that the dispatcher has been
-- called with, the latest one first.
pub record Service : Type 0 where
  pub store : WebhookStore
  pub tick : ℕ
  pub calls : List String

module _ (net : Net) where
  unfoldable pub backoff : ℕ → ℕ
  backoff attempt = net.base_backoff_s * 2 ^ (attempt - 1)

  -- The delivery after a call at the observation `tick`.
  abbrev pub failed_with : ℕ → String → WebhookDelivery → WebhookDelivery
  failed_with tick message d = record d {
    status = failure;
    last_error = some message;
    next_retry_at = net.now tick + backoff d.attempt_count;
  }

  abbrev pub sent_with : ℕ → Sent → WebhookDelivery → WebhookDelivery
  sent_with tick (answered code) d =
      if leb 200 code && ltb code 300
      then record d { status = success }
      else failed_with tick ("status_" <> net.number_text code) d
  sent_with tick (broken message) d = failed_with tick message d

  abbrev pub exhausted : WebhookDelivery → WebhookDelivery
  exhausted d = record d { status = failure; last_error = some "max_attempts_reached" }

  abbrev pub counted : WebhookDelivery → WebhookDelivery
  counted d = record d { attempt_count = d.attempt_count + 1 }

  abbrev pub called : ℕ → WebhookSubscription → WebhookDelivery → WebhookDelivery
  called tick sub d = sent_with (suc tick) (net.send tick sub.url d.payload sub.secret) (counted d)

  -- `_attempt_delivery`
  unfoldable pub attempt_delivery : WebhookSubscription → WebhookDelivery → Service → Service
  attempt_delivery sub d s =
      if leb net.max_attempts d.attempt_count
      then record s { store = update_delivery (exhausted d) s.store }
      else record {
        store = update_delivery (called s.tick sub d) s.store;
        tick = suc (suc s.tick);
        calls = d.id ∷ s.calls;
      }

  abbrev pub attempt_if : Option WebhookSubscription → WebhookDelivery → Service → Service
  attempt_if none d s = s
  attempt_if (some sub) d s = if sub.is_active then attempt_delivery sub d s else s

  abbrev pub attempt_each : List WebhookDelivery → Service → Service
  attempt_each [] s = s
  attempt_each (d ∷ ds) s =
      attempt_each ds (attempt_if (get d.subscription_id s.store.subscriptions) d s)

  unfoldable pub process_due_deliveries : Service → Service
  process_due_deliveries s =
      attempt_each (list_due_deliveries (net.now s.tick) s.store) (record s { tick = suc s.tick })

  abbrev secret_or : Option String → String → String
  secret_or none fresh = fresh
  secret_or (some s) fresh = if s == "" then fresh else s

  unfoldable pub register_outbound :
      String → List String → Option String → Service → WebhookSubscription × Service
  register_outbound url event_types secret s =
      let sub : WebhookSubscription = record {
        id = "whsub_" <> net.hex s.tick;
        url = url;
        event_types = event_types;
        secret = secret_or secret ("whsec_" <> net.hex (suc s.tick));
        is_active = true;
      } in
      (sub, record s { store = add_subscription sub s.store; tick = suc (suc s.tick) })

  abbrev pub new_delivery : ℕ → ℕ → String → Fields → WebhookSubscription → WebhookDelivery
  new_delivery tick now event_type payload sub = record {
    id = "whd_" <> net.hex tick;
    subscription_id = sub.id;
    event_type = event_type;
    payload = payload;
    status = pending;
    attempt_count = 0;
    next_retry_at = now;
    last_error = none;
  }

  abbrev pub deliver_to : ℕ → String → Fields → WebhookSubscription → Service → Service
  deliver_to now event_type payload sub s =
      let d = new_delivery s.tick now event_type payload sub in
      attempt_delivery sub d (record s { store = update_delivery d s.store; tick = suc s.tick })

  abbrev pub enqueue_each : ℕ → String → Fields → List WebhookSubscription → Service → Service
  enqueue_each now event_type payload [] s = s
  enqueue_each now event_type payload (sub ∷ subs) s =
      enqueue_each now event_type payload subs
        (if contains event_type sub.event_types then deliver_to now event_type payload sub s else s)

  unfoldable pub enqueue_delivery : String → Fields → Service → Service
  enqueue_delivery event_type payload s =
      enqueue_each (net.now s.tick) event_type payload (list_subscriptions s.store)
        (record s { tick = suc s.tick })

  abbrev or_null : Option Fields → Value
  or_null none = null
  or_null (some d) = obj d

  abbrev text_or_null : Option String → Value
  text_or_null none = null
  text_or_null (some s) = str s

  abbrev outputs_or_null : Option Value → Value
  outputs_or_null none = null
  outputs_or_null (some v) = v

  abbrev interrupt_items : List Interrupt → Items
  interrupt_items [] = nil
  interrupt_items (i ∷ is) =
      cons
        (obj (
          field "interrupt_id" (str i.id)
            (field "node_id" (str i.node_id) (field "type" i.kind end))))
        (interrupt_items is)

  abbrev described : Run → Fields → Fields
  described r rest =
      field "run_id" (str r.id)
        (field "workflow_id" (str r.workflow_id) (field "version_id" (str r.version_id) rest))

  -- The type and the payload of what is delivered for an event.
  unfoldable pub notice : Run → Event → Option (String × Fields)
  notice r e =
      if e.kind == "run_completed"
      then some (
        "run_completed",
        described r (
            field "outputs"
              (apply_output_include_paths (outputs_or_null r.outputs)
                (projection_paths_from_metadata r.metadata).1)
              end),
      )
      else if e.kind == "run_failed"
      then some ("run_failed", described r (field "error" (or_null e.payload) end))
      else if e.kind == "node_failed"
      then some (
        "node_failed",
        described r
            (field "node_id" (text_or_null e.node_id) (field "error" (or_null e.payload) end)),
      )
      else if e.kind == "run_waiting_for_input"
      then some (
        "interrupt_created",
        described r (field "interrupts" (arr (interrupt_items (values r.interrupts))) end),
      )
      else none

  abbrev pub notify : Option (String × Fields) → Service → Service
  notify none s = s
  notify (some (event_type, payload)) s = enqueue_delivery event_type payload s

  unfoldable pub handle_events : Run → List Event → Service → Service
  handle_events r [] s = s
  handle_events r (e ∷ es) s = handle_events r es (notify (notice r e) s)
