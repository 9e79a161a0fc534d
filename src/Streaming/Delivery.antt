-- ===== src/Streaming/Delivery.antt =====
-- What `EventPublisher.publish` of streaming/publisher.py writes to the log of a run, and what the
-- subscribers of streaming/bus.py receive.
use workcore.Prelude.{
  ℕ, suc, String, ◌≡◌, refl, sym, ap, ◌∙◌, inl, inr, Option, none, some, List, [], ◌∷◌, ◌++◌, map,
  ◌==◌, ◌=ℕ◌, arith, eq_iff, Bool-cases, Option-cases, select, if◌then◌else◌,
}
use mathlib.Core.List.{append_assoc, append-nil}
use workcore.Dict.{get, get_or}
use workcore.Dict.Laws.{get-put}
use workcore.Runtime.Models.{Event}
use workcore.Streaming.{
  Envelope, EventStore, append, EventBus, Queue, put_item, publish_one, Source, envelope, publish,
}
use workcore.Streaming.Replay.{append-events}

-- The items in the queue with the number.
abbrev pub find_queue : ℕ → List Queue → Option (List Envelope)
find_queue number [] = none
find_queue number (q ∷ qs) =
    let later = find_queue number qs in if q.number =ℕ number then some q.items else later

abbrev pub inbox : String → ℕ → EventBus → Option (List Envelope)
inbox run_id number bus = find_queue number (get_or run_id [] bus.subscribers)

abbrev pub of_run : String → List Envelope → List Envelope
of_run run_id = select (λ e. e.run_id == run_id)

find_queue-put_item :
    (number : ℕ) (e : Envelope) (qs : List Queue)
    → find_queue number (map (put_item e) qs)
      ≡ elim (find_queue number qs) [ none ↦ none | some l ↦ some (l ++ (e ∷ [])) ]
find_queue-put_item number e [] = refl
find_queue-put_item number e (q ∷ qs) = ground (arith, find_queue-put_item number e qs)

inbox-publish_one :
    (run_id : String) (number : ℕ) (e : Envelope) (bus : EventBus) (l : List Envelope)
    → inbox run_id number bus ≡ some l
    → inbox run_id number (publish_one e bus) ≡ some (l ++ of_run run_id (e ∷ []))
unfolding publish_one
inbox-publish_one run_id number e bus l h = elim (Option-cases (get e.run_id bus.subscribers)) [
  | inl absent ↦ ground (arith, append-nil l, eq_iff e.run_id run_id)
  | inr (qs, found) ↦ ground (
    arith,
    append-nil l,
    eq_iff e.run_id run_id,
    get-put run_id e.run_id (map (put_item e) qs) bus.subscribers,
    find_queue-put_item number e qs,
  )
]

of_run-cons :
    (run_id : String) (e : Envelope) (out : List Envelope)
    → of_run run_id (e ∷ out) ≡ of_run run_id (e ∷ []) ++ of_run run_id out
of_run-cons run_id e out = ground arith

log-append :
    (run_id : String) (e : Envelope) (s : EventStore)
    → get_or run_id [] (append e s).1.events
      ≡ get_or run_id [] s.events ++ of_run run_id ((append e s).0 ∷ [])
unfolding append
log-append run_id e s = elim (Bool-cases (e.run_id == run_id)) [
  | inl mine ↦ rw (append-events run_id e s, mine) (ground (arith, eq_iff e.run_id run_id))
  | inr other ↦ rw (append-events run_id e s, other) (sym (append-nil _))
]

-- A subscriber receives what the log records. Where a queue of a run holds some events, a call of
-- `publish` for any events adds the same events, in the same order, to that queue and to the
-- run's log: those that it returns for the run.
pub publish-delivers :
    (source : Source) (run_id : String) (number tick : ℕ) (es : List Event) (store : EventStore)
    (bus : EventBus) (l : List Envelope)
    → inbox run_id number bus ≡ some l
    → let (out, (store', bus')) = publish source tick es store bus in
      (get_or run_id [] store'.events ≡ get_or run_id [] store.events ++ of_run run_id out)
      × (inbox run_id number bus' ≡ some (l ++ of_run run_id out))
unfolding publish
publish-delivers source run_id number tick [] store bus l h =
    (sym (append-nil _), h ∙ ap some (sym (append-nil l)))
publish-delivers source run_id number tick (e ∷ es) store bus l h =
    let (stored, store') = append (envelope source tick e) store in
    let (out, (store'', bus'')) = publish source (suc tick) es store' (publish_one stored bus) in
    let (log, received) =
      publish-delivers source run_id number (suc tick) es store' (publish_one stored bus)
        (l ++ of_run run_id (stored ∷ [])) (inbox-publish_one run_id number stored bus l h) in
    (
      log
          ∙ (ap (λ x. x ++ of_run run_id out) (log-append run_id (envelope source tick e) store)
              ∙ (append_assoc (get_or run_id [] store.events) (of_run run_id (stored ∷ [])) _
                  ∙ ap (λ x. get_or run_id [] store.events ++ x)
                      (sym (of_run-cons run_id stored out)))),
      received
          ∙ ap some (
              append_assoc l (of_run run_id (stored ∷ [])) _
              ∙ ap (λ x. l ++ x) (sym (of_run-cons run_id stored out))),
    )
