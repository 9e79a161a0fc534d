-- ===== src/Webhooks/Attempts/Handed.antt =====
-- What webhooks/service.py sends where the events of a run are handed to it.
use workcore.Prelude.{
  ℕ, suc, ◌+◌, ◌<◌, ◌≤◌, String, ◌≡◌, refl, ap, ◌∙◌, inl, inr, Bool, true, false, Option, none,
  some, List, [], ◌∷◌, ◌==◌, ◌<>◌, leb, length, arith, Bool-cases, contains, select, if◌then◌else◌,
}
use workcore.Dict.{values}
use workcore.Value.{Fields}
use workcore.Runtime.Models.{Run, Event}
use workcore.Webhooks.{
  WebhookSubscription, WebhookDelivery, Service, Net, update_delivery, list_subscriptions,
  attempt_delivery, deliver_to, new_delivery, enqueue_each, enqueue_delivery, notify, notice,
  handle_events,
}
use workcore.Webhooks.Attempts.Ticks.{tick-deliver_to, tick-enqueue_each, tick-handle_events}
use workcore.Webhooks.Attempts.{times, Accounted, written-Accounted, attempt_delivery-Accounted}

-- The subscriptions that want an event's type.
abbrev pub wanting : String → List WebhookSubscription → ℕ
wanting event_type [] = 0
wanting event_type (sub ∷ subs) =
    let rest = wanting event_type subs in
    if contains event_type sub.event_types then suc rest else rest

abbrev pub wanting_of : Option (String × Fields) → List WebhookSubscription → ℕ
wanting_of none subs = 0
wanting_of (some (event_type, payload)) subs = wanting event_type subs

module _ (net : Net) where
  -- Each event that is told goes to each active subscription that wants its type.
  abbrev pub due_calls : Run → List Event → List WebhookSubscription → ℕ
  due_calls r [] subs = 0
  due_calls r (e ∷ es) subs = wanting_of (notice net r e) subs + due_calls r es subs

  abbrev pub delivery_id : ℕ → String
  delivery_id tick = "whd_" <> net.hex tick

  -- No call was made yet with an id that is still to be drawn, up to an observation.
  abbrev pub IsFresh : ℕ → Service → Type 0
  IsFresh limit s = (t : ℕ) → s.tick ≤ t → t < limit → times (delivery_id t) s.calls ≡ 0

  module _ (limit : ℕ)
      (unique : (i j : ℕ) → i < j → j < limit → (delivery_id i == delivery_id j) ≡ false) where
    abbrev Kept : Service → Type 0
    Kept s = Accounted net s × IsFresh limit s

    keeps_when :
        (b : Bool) (s t : Service) → (b ≡ true → Kept s) → Kept t → Kept (if b then s else t)
    keeps_when true s t h k = h refl
    keeps_when false s t h k = k

    attempt_new-IsFresh :
        (sub : WebhookSubscription) (d : WebhookDelivery) (at : ℕ) (s : Service)
        → d.id ≡ delivery_id at
        → at < s.tick
        → IsFresh limit s
        → IsFresh limit (attempt_delivery net sub d s)
    unfolding attempt_delivery
    attempt_new-IsFresh sub d at s own before f =
        elim (Bool-cases (leb net.max_attempts d.attempt_count)) [
          | inl over ↦ rw over f
          | inr room ↦
              rw (room, own)
                (λ t later below.
                  ground (arith, unique at t (omega arith) below, f t (omega arith) below))
        ]

    deliver_to-Kept :
        (now : ℕ) (event_type : String) (payload : Fields) (sub : WebhookSubscription) (s : Service)
        → s.tick < limit
        → Kept s
        → Kept (deliver_to net now event_type payload sub s)
    deliver_to-Kept now event_type payload sub s drawn (a, f) =
        let d = new_delivery net s.tick now event_type payload sub in
        let uncalled : times d.id s.calls ≡ 0 = f s.tick (omega arith) drawn in
        let s' : Service = record s { store = update_delivery d s.store; tick = suc s.tick } in
        (
          attempt_delivery-Accounted net sub d s' uncalled (
              written-Accounted net d s (suc s.tick) s.calls a uncalled (omega arith)
                (λ id other. refl)),
          attempt_new-IsFresh sub d s.tick s' refl (omega arith)
              (λ t later below. f t (omega (arith, later)) below),
        )

    enqueue_each-Kept :
        (now : ℕ) (event_type : String) (payload : Fields) (subs : List WebhookSubscription)
        (s : Service)
        → (enqueue_each net now event_type payload subs s).tick ≤ limit
        → Kept s
        → Kept (enqueue_each net now event_type payload subs s)
    enqueue_each-Kept now event_type payload [] s end h = h
    enqueue_each-Kept now event_type payload (sub ∷ subs) s end h =
        let b = contains event_type sub.event_types in
        let t = deliver_to net now event_type payload sub s in
        let less = tick-deliver_to net now event_type payload sub s in
        let later = tick-enqueue_each net now event_type payload subs (if b then t else s) in
        enqueue_each-Kept now event_type payload subs (if b then t else s) end (
          keeps_when b t s
            (λ wanted.
              let taken : t.tick ≤ (if b then t else s).tick = rw wanted (omega arith) in
              deliver_to-Kept now event_type payload sub s (omega (arith, taken, less, later, end))
                h)
            h)

    notify-Kept :
        (o : Option (String × Fields)) (s : Service)
        → (notify net o s).tick ≤ limit
        → Kept s
        → Kept (notify net o s)
    unfolding enqueue_delivery
    notify-Kept none s end h = h
    notify-Kept (some (event_type, payload)) s end (a, f) =
        enqueue_each-Kept (net.now s.tick) event_type payload (list_subscriptions s.store)
          (record s { tick = suc s.tick }) end
          (
            record { keyed = a.keyed; counts = a.counts; bounded = a.bounded },
            λ t later below. f t (omega (arith, later)) below,
          )

    handle_events-Kept :
        (r : Run) (es : List Event) (s : Service)
        → (handle_events net r es s).tick ≤ limit
        → Kept s
        → Kept (handle_events net r es s)
    unfolding handle_events
    handle_events-Kept r [] s end h = h
    handle_events-Kept r (e ∷ es) s end h =
        let t = notify net (notice net r e) s in
        let later = tick-handle_events net r es t in
        handle_events-Kept r es t end (notify-Kept (notice net r e) s (omega (arith, later, end)) h)

  module _ (some_attempt : 0 < net.max_attempts) where
    -- So many calls more, and the same subscriptions.
    abbrev Sends : ℕ → Service → Service → Type 0
    Sends n s t =
        (length t.calls ≡ n + length s.calls) × (t.store.subscriptions ≡ s.store.subscriptions)

    attempt_new-Sends :
        (sub : WebhookSubscription) (d : WebhookDelivery) (s : Service)
        → d.attempt_count ≡ 0
        → Sends 1 s (attempt_delivery net sub d s)
    unfolding attempt_delivery update_delivery
    attempt_new-Sends sub d s e =
        let room : leb net.max_attempts d.attempt_count ≡ false = ground (arith, e, some_attempt) in
        rw room (omega arith, refl)

    Sends-if :
        (b : Bool) (s t : Service) → Sends 1 s t → Sends (if b then 1 else 0) s (if b then t else s)
    Sends-if true s t h = h
    Sends-if false s t h = (omega arith, refl)

    deliver_to-Sends :
        (now : ℕ) (event_type : String) (payload : Fields) (sub : WebhookSubscription) (s : Service)
        → Sends 1 s (deliver_to net now event_type payload sub s)
    unfolding update_delivery
    deliver_to-Sends now event_type payload sub s =
        let d = new_delivery net s.tick now event_type payload sub in
        attempt_new-Sends sub d (record s { store = update_delivery d s.store; tick = suc s.tick })
          refl

    enqueue_each-Sends :
        (now : ℕ) (event_type : String) (payload : Fields) (subs : List WebhookSubscription)
        (s : Service)
        → Sends (wanting event_type subs) s (enqueue_each net now event_type payload subs s)
    enqueue_each-Sends now event_type payload [] s = (omega arith, refl)
    enqueue_each-Sends now event_type payload (sub ∷ subs) s =
        let b = contains event_type sub.event_types in
        let t = deliver_to net now event_type payload sub s in
        let first = Sends-if b s t (deliver_to-Sends now event_type payload sub s) in
        let later = enqueue_each-Sends now event_type payload subs (if b then t else s) in
        (ground (arith, first.0, later.0), later.1 ∙ first.1)

    notify-Sends :
        (o : Option (String × Fields)) (s : Service)
        → Sends (wanting_of o (list_subscriptions s.store)) s (notify net o s)
    unfolding enqueue_delivery
    notify-Sends none s = (omega arith, refl)
    notify-Sends (some (event_type, payload)) s =
        enqueue_each-Sends (net.now s.tick) event_type payload (list_subscriptions s.store)
          (record s { tick = suc s.tick })

    handle_events-Sends :
        (r : Run) (es : List Event) (s : Service)
        → Sends (due_calls r es (list_subscriptions s.store)) s (handle_events net r es s)
    unfolding handle_events list_subscriptions
    handle_events-Sends r [] s = (omega arith, refl)
    handle_events-Sends r (e ∷ es) s =
        let t = notify net (notice net r e) s in
        let first = notify-Sends (notice net r e) s in
        let later = handle_events-Sends r es t in
        let same : list_subscriptions t.store ≡ list_subscriptions s.store =
          ap (λ d. select (λ (sub : WebhookSubscription). sub.is_active) (values d)) first.1 in
        let count = ap (λ subs. due_calls r es subs) same in
        (omega (arith, first.0, later.0, count), later.1 ∙ first.1)

    -- Where the events of a run are handed to the service and at least one attempt is allowed, it
    -- calls the dispatcher once for each event that is told and each active subscription that wants
    -- its type, and all calls stay accounted for: each delivery in the store counts the calls that
    -- were made with it, and no id stands in the log of the calls more often than `max_attempts`. The
    -- ids that can be drawn up to the end of the call differ from each other, and those that can be
    -- drawn during it differ from those of the calls so far.
    pub handle_events-Accounted :
        (r : Run) (es : List Event) (s : Service)
        → ((i j : ℕ)
            → i < j
            → j < (handle_events net r es s).tick
            → (delivery_id i == delivery_id j) ≡ false)
        → IsFresh (handle_events net r es s).tick s
        → Accounted net s
        → (length (handle_events net r es s).calls
            ≡ due_calls r es (list_subscriptions s.store) + length s.calls)
          × Accounted net (handle_events net r es s)
    handle_events-Accounted r es s unique f a = (
      (handle_events-Sends r es s).0,
      (handle_events-Kept (handle_events net r es s).tick unique r es s (omega arith) (a, f)).0,
    )
