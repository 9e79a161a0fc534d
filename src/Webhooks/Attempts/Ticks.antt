-- ===== src/Webhooks/Attempts/Ticks.antt =====
-- The observations of webhooks/service.py are numbered upwards.
use workcore.Prelude.{
  ℕ, suc, ◌<◌, ◌≤◌, String, inl, inr, Bool, true, false, Option, none, some, List, [], ◌∷◌, leb,
  arith, Bool-cases, contains, if◌then◌else◌,
}
use workcore.Value.{Fields}
use workcore.Runtime.Models.{Run, Event}
use workcore.Webhooks.{
  WebhookSubscription, WebhookDelivery, Service, Net, update_delivery, list_subscriptions,
  attempt_delivery, deliver_to, new_delivery, enqueue_each, enqueue_delivery, notify, notice,
  handle_events,
}

module _ (net : Net) where
  pub tick-attempt_delivery :
      (sub : WebhookSubscription) (d : WebhookDelivery) (s : Service)
      → s.tick ≤ (attempt_delivery net sub d s).tick
  unfolding attempt_delivery
  tick-attempt_delivery sub d s = elim (Bool-cases (leb net.max_attempts d.attempt_count)) [
    | inl over ↦ rw over (omega arith)
    | inr room ↦ rw room (omega arith)
  ]

  pub tick-deliver_to :
      (now : ℕ) (event_type : String) (payload : Fields) (sub : WebhookSubscription) (s : Service)
      → s.tick < (deliver_to net now event_type payload sub s).tick
  tick-deliver_to now event_type payload sub s =
      let d = new_delivery net s.tick now event_type payload sub in
      let s' : Service = record s { store = update_delivery d s.store; tick = suc s.tick } in
      let more = tick-attempt_delivery sub d s' in omega (arith, more)

  pub tick-if : (b : Bool) (s t : Service) → s.tick ≤ t.tick → s.tick ≤ (if b then t else s).tick
  tick-if true s t h = h
  tick-if false s t h = omega arith

  pub tick-enqueue_each :
      (now : ℕ) (event_type : String) (payload : Fields) (subs : List WebhookSubscription)
      (s : Service)
      → s.tick ≤ (enqueue_each net now event_type payload subs s).tick
  tick-enqueue_each now event_type payload [] s = omega arith
  tick-enqueue_each now event_type payload (sub ∷ subs) s =
      let b = contains event_type sub.event_types in
      let t = deliver_to net now event_type payload sub s in
      let less = tick-deliver_to now event_type payload sub s in
      let first = tick-if b s t (omega (arith, less)) in
      let later = tick-enqueue_each now event_type payload subs (if b then t else s) in
      omega (arith, first, later)

  pub tick-notify : (o : Option (String × Fields)) (s : Service) → s.tick ≤ (notify net o s).tick
  unfolding enqueue_delivery
  tick-notify none s = omega arith
  tick-notify (some (event_type, payload)) s =
      let more =
        tick-enqueue_each (net.now s.tick) event_type payload (list_subscriptions s.store)
          (record s { tick = suc s.tick }) in
      omega (arith, more)

  pub tick-handle_events :
      (r : Run) (es : List Event) (s : Service) → s.tick ≤ (handle_events net r es s).tick
  unfolding handle_events
  tick-handle_events r [] s = omega arith
  tick-handle_events r (e ∷ es) s =
      let first = tick-notify (notice net r e) s in
      let later = tick-handle_events r es (notify net (notice net r e) s) in
      omega (arith, first, later)
