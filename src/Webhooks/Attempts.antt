-- ===== src/Webhooks/Attempts.antt =====
-- How often webhooks/service.py calls the dispatcher with a delivery.
pub mod Ticks
pub mod Handed
use workcore.Prelude.{
  ℕ, suc, ◌+◌, ◌≤◌, ◌<◌, String, ◌≡◌, refl, sym, ap, ◌∙◌, inl, inr, Bool, true, false, ◌||◌, ◌&&◌,
  Option, none, some, List, [], ◌∷◌, ◌==◌, ◌<>◌, eq_iff, leb, arith, Bool-cases, Option-cases,
  select, contains, any, if◌then◌else◌,
}
use workcore.Dict.{Dict, get, put, keys, values}
use workcore.Dict.Laws.{get-put, get-put_self}
use workcore.Value.{Fields}
use workcore.Runtime.Models.{Run, Event}
use workcore.Webhooks.{
  WebhookSubscription, WebhookDelivery, WebhookStore, Service, Net, Sent, answered, broken,
  update_delivery, list_due_deliveries, list_subscriptions, exhausted, called, counted, sent_with,
  attempt_delivery, attempt_if, attempt_each, process_due_deliveries, deliver_to, new_delivery,
  enqueue_each, enqueue_delivery, is_unsent, notify, notice, handle_events,
}

-- How often an id stands in the log of the calls.
abbrev pub times : String → List String → ℕ
times id [] = 0
times id (c ∷ calls) = let rest = times id calls in if c == id then suc rest else rest

-- The deliveries are kept under their own ids, each once.
abbrev pub IsKeyed : Dict WebhookDelivery → Type 0
IsKeyed [] = Unit
IsKeyed ((k, d) ∷ l) = (d.id ≡ k) × (contains k (keys l) ≡ false) × IsKeyed l

keys-put :
    (j k : String) (d : WebhookDelivery) (l : Dict WebhookDelivery)
    → contains j (keys (put k d l)) ≡ (contains j (keys l) || k == j)
unfolding put keys
keys-put j k d [] = ground arith
keys-put j k d ((i, e) ∷ l) = ground (arith, keys-put j k d l, eq_iff i k, eq_iff i j, eq_iff k j)

put-IsKeyed : (d : WebhookDelivery) (l : Dict WebhookDelivery) → IsKeyed l → IsKeyed (put d.id d l)
unfolding put keys
put-IsKeyed d [] h = (refl, refl, tt)
put-IsKeyed d ((i, e) ∷ l) (own, new, h) = elim (Bool-cases (i == d.id)) [
  | inl same ↦ rw same (ground (arith, same, eq_iff i d.id), new, h)
  | inr other ↦ rw other (
    own,
    ground (arith, new, other, keys-put i d.id d l, eq_iff i d.id, eq_iff d.id i),
    put-IsKeyed d l h,
  )
]

get-absent : (k : String) (l : Dict WebhookDelivery) → contains k (keys l) ≡ false → get k l ≡ none
unfolding get keys
get-absent k [] h = refl
get-absent k ((i, e) ∷ l) h = ground (arith, h, get-absent k l)

abbrev among : String → List WebhookDelivery → Bool
among id ds = any (λ e. e.id == id) ds

-- Deliveries as the store has them, each once.
abbrev Stored : List WebhookDelivery → Dict WebhookDelivery → Type 0
Stored [] l = Unit
Stored (d ∷ ds) l = (get d.id l ≡ some d) × (among d.id ds ≡ false) × Stored ds l

Stored-put :
    (k : String) (x : WebhookDelivery) (ds : List WebhookDelivery) (l : Dict WebhookDelivery)
    → among k ds ≡ false
    → Stored ds l
    → Stored ds (put k x l)
Stored-put k x [] l h t = tt
Stored-put k x (d ∷ ds) l h (e, new, t) = (
  ground (arith, h, e, get-put d.id k x l, eq_iff d.id k, eq_iff k d.id),
  new,
  Stored-put k x ds l (ground (arith, h)) t,
)

Stored-absent :
    (k : String) (ds : List WebhookDelivery) (l : Dict WebhookDelivery)
    → get k l ≡ none
    → Stored ds l
    → among k ds ≡ false
Stored-absent k [] l h t = refl
Stored-absent k (d ∷ ds) l h (e, new, t) = elim (Bool-cases (d.id == k)) [
  | inl same ↦
      let is : d.id ≡ k = (eq_iff d.id k).0 same in
      let clash : none ≡ some d = sym h ∙ (ap (λ j. get j l) (sym is) ∙ e) in
      absurd (ground (arith, clash))
  | inr other ↦ rw other (Stored-absent k ds l h t)
]

Stored-more :
    (k : String) (x : WebhookDelivery) (ds : List WebhookDelivery) (l : Dict WebhookDelivery)
    → among k ds ≡ false
    → Stored ds l
    → Stored ds ((k, x) ∷ l)
unfolding get
Stored-more k x [] l h t = tt
Stored-more k x (d ∷ ds) l h (e, new, t) = (
  ground (arith, h, e, eq_iff d.id k, eq_iff k d.id),
  new,
  Stored-more k x ds l (ground (arith, h)) t,
)

select-Stored :
    (p : WebhookDelivery → Bool) (l : Dict WebhookDelivery)
    → IsKeyed l
    → Stored (select p (values l)) l
unfolding values get
select-Stored p [] h = tt
select-Stored p ((k, d) ∷ l) (own, new, h) =
    let rest = select-Stored p l h in
    let apart = Stored-absent k (select p (values l)) l (get-absent k l new) rest in
    elim (Bool-cases (p d)) [
      | inl due ↦ rw due (
        ground (arith, own, eq_iff k d.id),
        rw own apart,
        Stored-more k d (select p (values l)) l apart rest,
      )
      | inr not_due ↦ rw not_due (Stored-more k d (select p (values l)) l apart rest)
    ]

module _ (net : Net) where
  -- The calls are counted: a delivery in the store counts the calls that were made with it, and no id
  -- stands in the log of the calls more often than the configuration allows attempts.
  pub record Accounted (s : Service) : Type 0 where
    pub keyed : IsKeyed s.store.deliveries
    pub counts :
        (id : String) (d : WebhookDelivery)
        → get id s.store.deliveries ≡ some d
        → times id s.calls ≡ d.attempt_count
    pub bounded : (id : String) → times id s.calls ≤ net.max_attempts

  sent_with-keeps :
      (tick : ℕ) (sent : Sent) (d : WebhookDelivery)
      → ((sent_with net tick sent d).attempt_count ≡ d.attempt_count)
        × ((sent_with net tick sent d).id ≡ d.id)
  sent_with-keeps tick (answered code) d = (ground arith, ground arith)
  sent_with-keeps tick (broken e) d = (refl, refl)

  -- A delivery is written after it has been called, or without a call.
  written-Accounted :
      (x : WebhookDelivery) (s : Service) (tick : ℕ) (calls : List String)
      → Accounted s
      → times x.id calls ≡ x.attempt_count
      → x.attempt_count ≤ net.max_attempts
      → ((id : String) → (x.id == id) ≡ false → times id calls ≡ times id s.calls)
      → Accounted (record s { store = update_delivery x s.store; tick = tick; calls = calls })
  unfolding update_delivery
  written-Accounted x s tick calls a now room rest = record {
    keyed = put-IsKeyed x s.store.deliveries a.keyed;
    counts = λ id d h. elim (Bool-cases (x.id == id)) [
      | inl same ↦
          ground (arith, same, now, h, get-put id x.id x s.store.deliveries, eq_iff x.id id)
      | inr other ↦
          let kept : get id s.store.deliveries ≡ some d =
            ground (arith, other, h, get-put id x.id x s.store.deliveries) in
          rest id other ∙ a.counts id d kept
    ];
    bounded = λ id. elim (Bool-cases (x.id == id)) [
      | inl same ↦ ground (arith, same, now, room, eq_iff x.id id)
      | inr other ↦ ground (arith, rest id other, a.bounded id)
    ];
  }

  attempt_delivery-Accounted :
      (sub : WebhookSubscription) (d : WebhookDelivery) (s : Service)
      → times d.id s.calls ≡ d.attempt_count
      → Accounted s
      → Accounted (attempt_delivery net sub d s)
  unfolding attempt_delivery
  attempt_delivery-Accounted sub d s h a =
      elim (Bool-cases (leb net.max_attempts d.attempt_count)) [
        | inl over ↦ rw over (
            written-Accounted (exhausted net d) s s.tick s.calls a h
              (ground (arith, h, a.bounded d.id)) (λ id other. refl))
        | inr room ↦
            let x = called net s.tick sub d in
            let (count, own) =
              sent_with-keeps (suc s.tick) (net.send s.tick sub.url d.payload sub.secret)
                (counted net d) in
            rw room (
              written-Accounted x s (suc (suc s.tick)) (d.id ∷ s.calls) a
                (ground (arith, h, count, own, eq_iff d.id x.id)) (ground (arith, room, count))
                (λ id other. ground (arith, other, own)))
      ]

  attempt_delivery-Stored :
      (sub : WebhookSubscription) (d : WebhookDelivery) (s : Service) (ds : List WebhookDelivery)
      → among d.id ds ≡ false
      → Stored ds s.store.deliveries
      → Stored ds (attempt_delivery net sub d s).store.deliveries
  unfolding attempt_delivery update_delivery
  attempt_delivery-Stored sub d s ds new t =
      let x = called net s.tick sub d in
      let own =
        (sent_with-keeps (suc s.tick) (net.send s.tick sub.url d.payload sub.secret)
          (counted net d)).1 in
      elim (Bool-cases (leb net.max_attempts d.attempt_count)) [
        | inl over ↦ rw over (Stored-put d.id (exhausted net d) ds s.store.deliveries new t)
        | inr room ↦ rw room (Stored-put x.id x ds s.store.deliveries (rw own new) t)
      ]

  keeps_if : (P : Service → Type 0) (b : Bool) (s t : Service) → P s → P t → P (if b then s else t)
  keeps_if P true s t h k = h
  keeps_if P false s t h k = k

  -- What holds of a store after a delivery is tried, if it holds where nothing is done.
  attempt_if-keeps :
      (P : Service → Type 0) (o : Option WebhookSubscription) (d : WebhookDelivery) (s : Service)
      → ((sub : WebhookSubscription) → P (attempt_delivery net sub d s))
      → P s
      → P (attempt_if net o d s)
  attempt_if-keeps P none d s h k = k
  attempt_if-keeps P (some sub) d s h k =
      keeps_if P sub.is_active (attempt_delivery net sub d s) s (h sub) k

  attempt_each-Accounted :
      (ds : List WebhookDelivery) (s : Service)
      → Stored ds s.store.deliveries
      → Accounted s
      → Accounted (attempt_each net ds s)
  attempt_each-Accounted [] s t a = a
  attempt_each-Accounted (d ∷ ds) s (e, new, t) a =
      let o = get d.subscription_id s.store.subscriptions in
      attempt_each-Accounted ds (attempt_if net o d s)
        (attempt_if-keeps (λ r. Stored ds r.store.deliveries) o d s
          (λ sub. attempt_delivery-Stored sub d s ds new t) t)
        (attempt_if-keeps Accounted o d s
          (λ sub. attempt_delivery-Accounted sub d s (a.counts d.id d e) a) a)

  -- No delivery is sent more often than `max_attempts` allows: a round of the dispatcher keeps that
  -- each delivery in the store counts the calls that were made with it, as the log of the calls has
  -- them, and that no id stands in that log more often than `max_attempts`.
  pub process_due_deliveries-Accounted :
      (s : Service) → Accounted s → Accounted (process_due_deliveries net s)
  unfolding process_due_deliveries list_due_deliveries
  process_due_deliveries-Accounted s a =
      attempt_each-Accounted _ (record s { tick = suc s.tick })
        (select-Stored (λ d. is_unsent d.status && leb d.next_retry_at (net.now s.tick))
          s.store.deliveries a.keyed)
        (record { keyed = a.keyed; counts = a.counts; bounded = a.bounded })
