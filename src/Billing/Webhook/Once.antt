-- ===== src/Billing/Webhook/Once.antt =====
-- An event of the payment provider is applied once: `stockpilot_sync_subscription`
-- (apps/api/prisma/migrations/20260806140000_add_billing).
use Prim.Native.String.{String}
use text.Mathlib.TextEquality.{eq_iff}
use stock_pilot.Prelude.{
  ℕ, ◌≡◌, refl, Bool, true, false, Option, none, some, List, [], ◌∷◌, ◌⊎◌, inl, inr, arith,
}
use stock_pilot.Store.Rows.{Plan, SubscriptionStatus, Subscription}
use stock_pilot.Store.Monad.{
  Store, ok, modify, pure, ◌>>◌, Ensures, Ensures-ok, with_tenant, with_tenant-keeps,
}
use stock_pilot.Billing.{find_subscription}
use stock_pilot.Billing.Webhook.{
  StripeSubscription, StripeWebhookEvent, is_claimed, upsert_subscription, apply_event, claim_event,
  sync_subscription,
}

-- The event `id` is in the table of those that were taken.
Claimed : String → Store → Type 0
Claimed id t = is_claimed id t.billing_webhook_events ≡ true

own_claim : (id : String) (ids : List String) → is_claimed id (id ∷ ids) ≡ true
unfolding is_claimed
own_claim id ids = ground (arith, eq_iff id id)

-- A claim stays when an event is claimed.
kept_claim :
    (id other : String) (ids : List String)
    → is_claimed id ids ≡ true
    → is_claimed id (other ∷ ids) ≡ true
unfolding is_claimed
kept_claim id other ids h = ground arith

-- Whatever an event does after its claim, the claims are those with it.
apply_event-Claimed :
    (id : String) (org : ℕ) (plan : Plan) (status : SubscriptionStatus) (e : StripeSubscription)
    (owned : Option Subscription) (s : Store)
    → Claimed id s
    → Ensures (λ _ t. Claimed id t) (apply_event org plan status e owned s)
unfolding Claimed apply_event upsert_subscription
apply_event-Claimed id org plan status e none s h = h
apply_event-Claimed id org plan status e (some x) s h = upserted (find_subscription org s)
  where
    upserted :
        (o : Option Subscription)
        → Ensures
            (λ _ t. Claimed id t)
            ((upsert_subscription org plan status e o
                >> (modify (λ s. record s {
                  billing_audits =
                      record { organization = org; plan = plan; status = status }
                      ∷ s.billing_audits;
                })
                    >> pure true))
              s)
    upserted none = h
    upserted (some y) = h

claim_event-Claimed :
    (id : String) (claimed : Bool) (e : StripeWebhookEvent) (org : ℕ) (plan : Plan)
    (status : SubscriptionStatus) (s : Store)
    → is_claimed e.id s.billing_webhook_events ≡ claimed
    → (id ≡ e.id) ⊎ Claimed id s
    → Ensures (λ _ t. Claimed id t) (claim_event claimed e org plan status s)
unfolding claim_event Claimed
claim_event-Claimed id true e org plan status s h (inl own) = rw own h
claim_event-Claimed id true e org plan status s h (inr kept) = kept
claim_event-Claimed id false e org plan status s h (inl own) =
    apply_event-Claimed id org plan status e.subscription _
      (record s { billing_webhook_events = e.id ∷ s.billing_webhook_events })
      (rw own (own_claim e.id s.billing_webhook_events))
claim_event-Claimed id false e org plan status s h (inr kept) =
    apply_event-Claimed id org plan status e.subscription _
      (record s { billing_webhook_events = e.id ∷ s.billing_webhook_events })
      (kept_claim id e.id s.billing_webhook_events kept)

-- A call of the function, with its arguments.
pub record SyncCall : Type 0 where
  pub event : StripeWebhookEvent
  pub organization : ℕ
  pub plan : Plan
  pub status : SubscriptionStatus

-- Calls one after the other, each in its transaction.
unfoldable pub sync_all : List SyncCall → Store → Store
sync_all [] s = s
sync_all (c ∷ cs) s =
    sync_all cs (with_tenant (sync_subscription c.event c.organization c.plan c.status) s).1

sync_all-Claimed :
    (id : String) (cs : List SyncCall) (s : Store) → Claimed id s → Claimed id (sync_all cs s)
unfolding sync_all sync_subscription
sync_all-Claimed id [] s h = h
sync_all-Claimed id (c ∷ cs) s h = sync_all-Claimed id cs _ (
    with_tenant-keeps (Claimed id) (sync_subscription c.event c.organization c.plan c.status) s h
      (claim_event-Claimed id _ c.event c.organization c.plan c.status s refl (inr h)))

-- A webhook event is applied once: after a synchronisation with it, whatever it did, and whatever
-- synchronisations with other events follow, another one with an event of the same identifier, also
-- for another organization, plan or status, answers that nothing is done and changes nothing.
pub sync_subscription-once :
    (e again : StripeWebhookEvent) (org org2 : ℕ) (plan plan2 : Plan)
    (status status2 : SubscriptionStatus) (s t : Store) (applied : Bool) (cs : List SyncCall)
    → sync_subscription e org plan status s ≡ ok (applied, t)
    → again.id ≡ e.id
    → sync_subscription again org2 plan2 status2 (sync_all cs t) ≡ ok (false, sync_all cs t)
unfolding sync_subscription Claimed claim_event
sync_subscription-once e again org org2 plan plan2 status status2 s t applied cs h same =
    let taken : Claimed e.id t =
      Ensures-ok (λ _ t. Claimed e.id t) _ h
        (claim_event-Claimed e.id _ e org plan status s refl (inl refl)) in
    let c : is_claimed e.id (sync_all cs t).billing_webhook_events ≡ true =
      sync_all-Claimed e.id cs t taken in
    rw (same, c) refl
