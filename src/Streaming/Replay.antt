-- ===== src/Streaming/Replay.antt =====
-- What `list_events` of streaming/store.py replays after the events that were appended.
use workcore.Prelude.{
  ℕ, ◌+◌, String, ◌≡◌, ◌≢◌, refl, sym, ap, ◌∙◌, inl, inr, false, some, List, [], ◌∷◌, ◌++◌, map,
  ◌==◌, arith, eq_iff, Bool-cases, contains, if◌then◌else◌,
}
use mathlib.Core.List.{append_assoc, append-nil}
use workcore.Dict.{get_or}
use workcore.Dict.Laws.{get-put}
use workcore.Streaming.{
  Envelope, EventStore, append, list_events, after_event, numbered, last_sequence,
}

-- Appended one after the other.
abbrev pub append_all : List Envelope → EventStore → EventStore
append_all [] s = s
append_all (e ∷ es) s = append_all es (append e s).1

-- The events of a run among those given, with the numbers that follow `n`.
abbrev pub log_of : String → ℕ → List Envelope → List Envelope
log_of run_id n [] = []
log_of run_id n (e ∷ es) =
    let mine = numbered (n + 1) e ∷ log_of run_id (n + 1) es in
    let others = log_of run_id n es in if e.run_id == run_id then mine else others

pub append-events :
    (run_id : String) (e : Envelope) (s : EventStore)
    → get_or run_id [] (append e s).1.events ≡ (
        if e.run_id == run_id
        then get_or run_id [] s.events ++ (numbered (get_or run_id 0 s.sequences + 1) e ∷ [])
        else get_or run_id [] s.events)
unfolding append
append-events run_id e s =
    let n = get_or e.run_id 0 s.sequences + 1 in
    ground (
      arith,
      get-put run_id e.run_id (get_or e.run_id [] s.events ++ (numbered n e ∷ [])) s.events,
      eq_iff e.run_id run_id,
    )

append-sequences :
    (run_id : String) (e : Envelope) (s : EventStore)
    → get_or run_id 0 (append e s).1.sequences ≡ (
        if e.run_id == run_id then get_or run_id 0 s.sequences + 1 else get_or run_id 0 s.sequences)
unfolding append
append-sequences run_id e s = ground (
  arith,
  get-put run_id e.run_id (get_or e.run_id 0 s.sequences + 1) s.sequences,
  eq_iff e.run_id run_id,
)

-- The log of a run after appends for any runs: what it was, and then the run's own events in their
-- order, numbered on from the last number.
pub append_all-log_of :
    (run_id : String) (es : List Envelope) (s : EventStore)
    → get_or run_id [] (append_all es s).events
      ≡ get_or run_id [] s.events ++ log_of run_id (last_sequence run_id s) es
unfolding last_sequence
append_all-log_of run_id [] s = sym (append-nil _)
append_all-log_of run_id (e ∷ es) s = elim (Bool-cases (e.run_id == run_id)) [
  | inl mine ↦
      let new = numbered (get_or run_id 0 s.sequences + 1) e ∷ [] in
      rw mine (
        append_all-log_of run_id es (append e s).1
        ∙ (rw (append-events run_id e s, append-sequences run_id e s, mine)
            (append_assoc (get_or run_id [] s.events) new _)))
  | inr other ↦ rw other (
      append_all-log_of run_id es (append e s).1
      ∙ rw (append-events run_id e s, append-sequences run_id e s, other) refl)
]

after_event-append :
    (id : String) (xs ys : List Envelope) (e : Envelope)
    → contains id (map (λ x. x.id) xs) ≡ false
    → e.id ≡ id
    → after_event id (xs ++ (e ∷ ys)) ≡ some ys
unfolding after_event
after_event-append id [] ys e h same = ground (arith, eq_iff e.id id)
after_event-append id (x ∷ xs) ys e h same = ground (arith, after_event-append id xs ys e)

-- A reader that reconnects misses nothing and sees nothing twice. Where the last event of a run's log
-- has an id that is not empty and no earlier one has, and any events are appended for any runs, the
-- events listed after that id are exactly those appended for the run, in their order and with
-- consecutive numbers.
pub list_events-resumes :
    (run_id : String) (xs : List Envelope) (e : Envelope) (es : List Envelope) (s : EventStore)
    → get_or run_id [] s.events ≡ xs ++ (e ∷ [])
    → contains e.id (map (λ x. x.id) xs) ≡ false
    → e.id ≢ ""
    → list_events run_id (some e.id) (append_all es s) ≡ log_of run_id (last_sequence run_id s) es
unfolding list_events
list_events-resumes run_id xs e es s log unique ne =
    let rest = log_of run_id (last_sequence run_id s) es in
    let seen : get_or run_id [] (append_all es s).events ≡ xs ++ (e ∷ rest) =
      append_all-log_of run_id es s ∙ (ap (λ l. l ++ rest) log ∙ append_assoc xs (e ∷ []) rest) in
    let found = after_event-append e.id xs rest e unique refl in
    rw seen (ground (arith, found, eq_iff e.id ""))
