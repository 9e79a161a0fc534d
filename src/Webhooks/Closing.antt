-- ===== src/Webhooks/Closing.antt =====
-- What ends in webhooks/store.py: a deleted subscription, and a record of an answered request.
use workcore.Prelude.{
  ℕ, String, ◌≡◌, refl, sym, ap, subst, ◌⊎◌, ◌∙◌, inl, inr, Option, none, some, List, [], ◌∷◌, ltb,
  arith, eq_refl, Option-cases, ◌<>◌, if◌then◌else◌,
}
use workcore.Dict.{get, put}
use workcore.Dict.Laws.{get-put_self, get-pop}
use workcore.Webhooks.{
  WebhookSubscription, WebhookDelivery, WebhookStore, Service, Net, delete_subscription,
  attempt_each, attempt_if, IdempotencyRecord, get_idempotency, set_idempotency, inactive,
}

-- Deliveries of one subscription.
abbrev pub AllOf : String → List WebhookDelivery → Type 0
AllOf sub_id [] = Unit
AllOf sub_id (d ∷ ds) = (d.subscription_id ≡ sub_id) × AllOf sub_id ds

abbrev IsQuiet : Option WebhookSubscription → Type 0
IsQuiet o = (o ≡ none) ⊎ ((sub : WebhookSubscription) × (o ≡ some (inactive sub)))

delete_subscription-IsQuiet :
    (sub_id : String) (s : WebhookStore)
    → IsQuiet (get sub_id (delete_subscription sub_id s).1.subscriptions)
unfolding delete_subscription
delete_subscription-IsQuiet sub_id s = elim (Option-cases (get sub_id s.subscriptions)) [
  | inl absent ↦ inl (ground arith)
  | inr (sub, e) ↦ inr (sub, ground (arith, get-put_self sub_id (inactive sub) s.subscriptions))
]

attempt_if-IsQuiet :
    (net : Net) (o : Option WebhookSubscription) (d : WebhookDelivery) (t : Service)
    → IsQuiet o
    → attempt_if net o d t ≡ t
attempt_if-IsQuiet net o d t (inl e) = rw e refl
attempt_if-IsQuiet net o d t (inr (sub, e)) = rw e refl

-- Once a subscription is deleted, a round over its deliveries does nothing: it calls nothing and
-- leaves the store and the clock as they are.
pub delete_subscription-stops :
    (net : Net) (sub_id : String) (s : WebhookStore) (l : List WebhookDelivery) (tick : ℕ)
    (calls : List String)
    → AllOf sub_id l
    → let t : Service = record {
      store = (delete_subscription sub_id s).1;
      tick = tick;
      calls = calls;
    } in
      attempt_each net l t ≡ t
delete_subscription-stops net sub_id s [] tick calls h = refl
delete_subscription-stops net sub_id s (d ∷ l) tick calls (here, h) =
    let t : Service = record {
      store = (delete_subscription sub_id s).1;
      tick = tick;
      calls = calls;
    } in
    ap (λ x. attempt_each net l x)
      (attempt_if-IsQuiet net (get d.subscription_id t.store.subscriptions) d t (
        subst (λ k. IsQuiet (get k t.store.subscriptions)) (sym here)
          (delete_subscription-IsQuiet sub_id s)))
    ∙ delete_subscription-stops net sub_id s l tick calls h

-- A record of an answered request is found again, by its key and its scope, up to the time at which
-- it expires; afterwards it is not found, and it is dropped.
pub get_idempotency-set_idempotency :
    (now : ℕ) (r : IdempotencyRecord) (s : WebhookStore)
    → let (found, t) = get_idempotency now r.key r.scope (set_idempotency r s) in
      (found ≡ (if ltb r.expires_at now then none else some r))
      × (get (r.scope <> ":" <> r.key) t.idempotency
          ≡ (if ltb r.expires_at now then none else some r))
unfolding get_idempotency set_idempotency
get_idempotency-set_idempotency now r s =
    let k = r.scope <> ":" <> r.key in
    let kept = get-put_self k r s.idempotency in
    let dropped = get-pop k k (put k r s.idempotency) in
    (ground (arith, kept), ground (arith, kept, dropped, eq_refl k))
