-- ===== src/Streaming/Examples.antt =====
-- The theorems on the event log at a small log.
use workcore.Prelude.{String, ◌≡◌, ◌≢◌, refl, none, some, [], ◌∷◌, ◌++◌, arith, eq_iff}
use workcore.Prelude.Int.{pos, of_int}
use workcore.Dict.{get, get_or, put}
use workcore.Value.{end}
use workcore.Runtime.Models.{Event}
use workcore.Streaming.{
  Envelope, EventStore, EventBus, Source, list_events, last_sequence, publish, subscribe,
}
use workcore.Streaming.Replay.{append_all, log_of, list_events-resumes}
use workcore.Streaming.Delivery.{inbox, of_run, publish-delivers}

abbrev sent : String → String → Envelope
sent id run_id = record {
  id = id;
  kind = "node_completed";
  run_id = run_id;
  workflow_id = "wf";
  version_id = "v1";
  node_id = none;
  payload = end;
  timestamp = of_int (pos 0);
  sequence = 0;
  correlation_id = none;
  trace_id = none;
  tenant_id = none;
  project_id = none;
  import_run_id = none;
}

abbrev one_sent : EventStore
one_sent = record {
  events = ("run_1", sent "evt_1" "run_1" ∷ []) ∷ [];
  snapshots = [];
  sequences = ("run_1", 1) ∷ [];
}

not_empty : (sent "evt_1" "run_1").id ≢ ""
not_empty e = ground (arith, eq_iff "evt_1" "")

resumes_example :
    list_events "run_1"
      (some "evt_1")
      (append_all (sent "evt_2" "run_2" ∷ sent "evt_3" "run_1" ∷ []) one_sent)
    ≡ log_of "run_1"
        (last_sequence "run_1" one_sent)
        (sent "evt_2" "run_2" ∷ sent "evt_3" "run_1" ∷ [])
unfolding get
resumes_example =
    list_events-resumes "run_1" [] (sent "evt_1" "run_1")
      (sent "evt_2" "run_2" ∷ sent "evt_3" "run_1" ∷ []) one_sent refl refl not_empty

abbrev plain_source : Source
plain_source = record { new_event_id = λ n. "evt"; now_ts = λ n. of_int (pos 0); text_of = λ v. "" }

abbrev finished : Event
finished = record {
  kind = "run_completed";
  run_id = "run_1";
  workflow_id = "wf";
  version_id = "v1";
  node_id = none;
  payload = none;
  metadata = end;
}

abbrev listening : EventBus
listening = subscribe "run_1" (record { subscribers = []; fresh = 0 })

delivers_example :
    let (out, (store', bus')) = publish plain_source 0 (finished ∷ []) one_sent listening in
    (get_or "run_1" [] store'.events ≡ get_or "run_1" [] one_sent.events ++ of_run "run_1" out)
    × (inbox "run_1" 0 bus' ≡ some ([] ++ of_run "run_1" out))
unfolding subscribe get put
delivers_example =
    publish-delivers plain_source "run_1" 0 0 (finished ∷ []) one_sent listening [] refl
