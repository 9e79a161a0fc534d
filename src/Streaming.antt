-- ===== src/Streaming.antt =====
-- apps/orchestrator/streaming: the event log of each run, its subscribers, and the publisher.
pub mod Replay
pub mod Delivery
mod Examples
use workcore.Prelude.{
  ℕ, suc, ◌+◌, String, Bool, true, false, not, Option, none, some, List, [], ◌∷◌, ◌++◌, map, ◌==◌,
  ◌=ℕ◌, last?, select, if◌then◌else◌,
}
use workcore.Prelude.Int.{Float}
use workcore.Dict.{Dict, get, get_or, put}
use workcore.Value.{Value, Fields, end, truthy}
use workcore.Value.Object
use workcore.Runtime.Models.{Event}

-- `EventEnvelope`
pub record Envelope : Type 0 where
  pub id : String
  pub kind : String
  pub run_id : String
  pub workflow_id : String
  pub version_id : String
  pub node_id : Option String
  pub payload : Fields
  pub timestamp : Float
  pub sequence : ℕ
  pub correlation_id : Option String
  pub trace_id : Option String
  pub tenant_id : Option String
  pub project_id : Option String
  pub import_run_id : Option String

-- `InMemoryEventStore`
pub record EventStore : Type 0 where
  pub events : Dict (List Envelope)
  pub snapshots : Dict Envelope
  pub sequences : Dict ℕ

abbrev pub empty_store : EventStore
empty_store = record { events = []; snapshots = []; sequences = [] }

abbrev pub numbered : ℕ → Envelope → Envelope
numbered n e = record e { sequence = n }

-- `append`, which returns the event with its number
unfoldable pub append : Envelope → EventStore → Envelope × EventStore
append e s =
    let next_seq = get_or e.run_id 0 s.sequences + 1 in
    (
      numbered next_seq e,
      record s {
        sequences = put e.run_id next_seq s.sequences;
        events = put e.run_id (get_or e.run_id [] s.events ++ (numbered next_seq e ∷ [])) s.events;
      },
    )

-- What follows the first event with the id, if there is one.
unfoldable pub after_event : String → List Envelope → Option (List Envelope)
after_event id [] = none
after_event id (e ∷ es) = let later = after_event id es in if e.id == id then some es else later

abbrev pub rest_or : Option (List Envelope) → List Envelope → List Envelope
rest_or none items = items
rest_or (some rest) items = rest

unfoldable pub list_events : String → Option String → EventStore → List Envelope
list_events run_id none s = get_or run_id [] s.events
list_events run_id (some after_id) s =
    let items = get_or run_id [] s.events in
    if after_id == "" then items else rest_or (after_event after_id items) items

unfoldable pub get_snapshot : String → EventStore → Option Envelope
get_snapshot run_id s = get run_id s.snapshots

-- `set_snapshot`; a sequence number is no less than 0
unfoldable pub set_snapshot : String → Envelope → EventStore → EventStore
set_snapshot run_id snapshot s =
    let filled = numbered (get_or run_id 0 s.sequences) snapshot in
    record s {
      snapshots = put run_id (if snapshot.sequence =ℕ 0 then filled else snapshot) s.snapshots;
    }

unfoldable pub last_event : String → EventStore → Option Envelope
last_event run_id s = last? (get_or run_id [] s.events)

unfoldable pub last_sequence : String → EventStore → ℕ
last_sequence run_id s = get_or run_id 0 s.sequences

-- A subscriber's queue, told from the others by its number.
pub record Queue : Type 0 where
  pub number : ℕ
  pub items : List Envelope

-- `InMemoryEventBus`, with the number of the next queue
pub record EventBus : Type 0 where
  pub subscribers : Dict (List Queue)
  pub fresh : ℕ

abbrev pub put_item : Envelope → Queue → Queue
put_item e q = record q { items = q.items ++ (e ∷ []) }

-- `InMemoryEventBus.publish`
unfoldable pub publish_one : Envelope → EventBus → EventBus
publish_one e bus = elim (get e.run_id bus.subscribers) [
  | none ↦ bus
  | some queues ↦ record bus {
    subscribers = put e.run_id (map (put_item e) queues) bus.subscribers;
  }
]

-- The start of `subscribe`, and its `finally`.
unfoldable pub subscribe : String → EventBus → EventBus
subscribe run_id bus = record {
  subscribers =
      put run_id
        (get_or run_id [] bus.subscribers ++ (record { number = bus.fresh; items = [] } ∷ []))
        bus.subscribers;
  fresh = suc bus.fresh;
}

unfoldable pub unsubscribe : String → ℕ → EventBus → EventBus
unsubscribe run_id number bus = elim (get run_id bus.subscribers) [
  | none ↦ bus
  | some queues ↦ record bus {
    subscribers = put run_id (select (λ q. not (q.number =ℕ number)) queues) bus.subscribers;
  }
]

-- What the publisher takes from outside: the ids of events, the clock, and `str`.
pub record Source : Type 0 where
  pub new_event_id : ℕ → String
  pub now_ts : ℕ → Float
  pub text_of : Value → String

module _ (source : Source) where
  -- `str(metadata.get(key)) if metadata.get(key) else None`
  abbrev pub text_at : Option Value → Option String
  text_at none = none
  text_at (some v) = if truthy v then some (source.text_of v) else none

  abbrev pub payload_or : Option Fields → Fields
  payload_or none = end
  payload_or (some d) = d

  unfoldable pub envelope : ℕ → Event → Envelope
  envelope tick e = record {
    id = source.new_event_id tick;
    kind = e.kind;
    run_id = e.run_id;
    workflow_id = e.workflow_id;
    version_id = e.version_id;
    node_id = e.node_id;
    payload = payload_or e.payload;
    timestamp = source.now_ts tick;
    sequence = 0;
    correlation_id = text_at (Object.get "correlation_id" e.metadata);
    trace_id = text_at (Object.get "trace_id" e.metadata);
    tenant_id = text_at (Object.get "tenant_id" e.metadata);
    project_id = text_at (Object.get "project_id" e.metadata);
    import_run_id = text_at (Object.get "import_run_id" e.metadata);
  }

  -- `EventPublisher.publish`
  unfoldable pub publish :
      ℕ → List Event → EventStore → EventBus → List Envelope × (EventStore × EventBus)
  publish tick [] store bus = ([], (store, bus))
  publish tick (e ∷ es) store bus =
      let (stored, store') = append (envelope tick e) store in
      let (rest, after) = publish (suc tick) es store' (publish_one stored bus) in
      (stored ∷ rest, after)
