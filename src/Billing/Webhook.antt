-- ===== src/Billing/Webhook.antt =====
-- `handleWebhook` of apps/api/src/billing/billing.service.ts, and the function that it calls,
-- `stockpilot_sync_subscription` (apps/api/prisma/migrations/20260806140000_add_billing). The
-- signature test and the parser of the body are parameters: an event arrives parsed.
pub mod Once
use Prim.Native.String.{String}
use text.Mathlib.Text.{◌==◌ as str_eq}
use text.Mathlib.TextEquality.{eq_iff}
use stock_pilot.Prelude.{
  ℕ, ◌*◌, ◌≡◌, refl, Bool, true, false, ◌&&◌, ◌||◌, not, Option, none, some, List, [], ◌∷◌, ⊤, ◌==◌,
  find_first, update_where, if◌then◌else◌, arith,
}
use stock_pilot.Store.Rows.{
  Plan, starter, pro, SubscriptionStatus, incomplete, active, past_due, canceled, unpaid, trialing,
  Subscription,
}
use stock_pilot.Store.Monad.{
  Store, M, ok, billing_not_configured, invalid_webhook_signature, gets, modify, pure, throw_if,
  ◌>>=◌, ◌>>◌, Ensures, Ensures-ok,
}
use stock_pilot.Billing.{find_subscription}

-- `price` is `items?.data?.[0]?.price?.id`, `organization` is `metadata?.organizationId`.
pub record StripeSubscription : Type 0 where
  pub id : String
  pub customer : String
  pub status : String
  pub price : Option String
  pub organization : Option ℕ
  pub current_period_end : ℕ
  pub cancel_at_period_end : Bool

pub record StripeWebhookEvent : Type 0 where
  pub id : String
  pub type : String
  pub subscription : StripeSubscription

-- `STATUS_BY_STRIPE_STATUS`
unfoldable pub status_by_stripe_status : String → Option SubscriptionStatus
status_by_stripe_status t =
    if str_eq t "active"
    then some active
    else if str_eq t "canceled"
    then some canceled
    else if str_eq t "incomplete"
    then some incomplete
    else if str_eq t "past_due"
    then some past_due
    else if str_eq t "trialing"
    then some trialing
    else if str_eq t "unpaid"
    then some unpaid
    else none

-- `SYNCED_WEBHOOK_EVENTS.has`
unfoldable pub is_synced_event : String → Bool
is_synced_event t =
    str_eq t "customer.subscription.created"
    || (str_eq t "customer.subscription.deleted" || str_eq t "customer.subscription.updated")

unfoldable pub price_id_of : StripeSubscription → String
price_id_of x = elim x.price [ none ↦ "" | some p ↦ p ]

-- `===` with a configured value that may be missing.
unfoldable pub is_price : String → Option String → Bool
is_price p none = false
is_price p (some q) = str_eq p q

unfoldable pub plan_for_price : Option String → Option String → StripeSubscription → Option Plan
plan_for_price starter_price pro_price x =
    if is_price (price_id_of x) starter_price
    then some starter
    else if is_price (price_id_of x) pro_price
    then some pro
    else none

-- `ON CONFLICT ("stripe_event_id") DO NOTHING`
unfoldable pub is_claimed : String → List String → Bool
is_claimed id [] = false
is_claimed id (x ∷ xs) = str_eq id x || is_claimed id xs

unfoldable pub is_customer : String → Subscription → Bool
is_customer customer x = elim x.stripe_customer [ none ↦ false | some c ↦ str_eq c customer ]

abbrev pub synced_row :
    ℕ → Plan → SubscriptionStatus → StripeSubscription → Subscription → Subscription
synced_row org plan status e x = record x {
  plan = plan;
  status = status;
  stripe_subscription = some e.id;
  stripe_price = some (price_id_of e);
  current_period_end = some (e.current_period_end * 1000);
  cancel_at_period_end = e.cancel_at_period_end;
}

abbrev pub inserted_row : ℕ → Subscription
inserted_row org = record {
  organization = org;
  plan = starter;
  status = incomplete;
  stripe_customer = none;
  stripe_subscription = none;
  stripe_price = none;
  current_period_end = none;
  cancel_at_period_end = false;
}

-- `INSERT … ON CONFLICT ("organization_id") DO UPDATE`
unfoldable pub upsert_subscription :
    ℕ → Plan → SubscriptionStatus → StripeSubscription → Option Subscription → M ⊤
upsert_subscription org plan status e none = modify (λ s. record s {
  subscriptions = synced_row org plan status e (inserted_row org) ∷ s.subscriptions;
})
upsert_subscription org plan status e (some x) = modify (λ s. record s {
  subscriptions =
      update_where (λ y. y.organization == org) (synced_row org plan status e) s.subscriptions;
})

-- From the test of the customer on.
unfoldable pub apply_event :
    ℕ → Plan → SubscriptionStatus → StripeSubscription → Option Subscription → M Bool
apply_event org plan status e none = pure false
apply_event org plan status e (some owned) = do
  existing ← gets (find_subscription org)
  upsert_subscription org plan status e existing
  modify (λ s. record s {
    billing_audits = record { organization = org; plan = plan; status = status } ∷ s.billing_audits;
  })
  pure true

unfoldable pub claim_event : Bool → StripeWebhookEvent → ℕ → Plan → SubscriptionStatus → M Bool
claim_event true e org plan status = pure false
claim_event false e org plan status = do
  modify (λ s. record s { billing_webhook_events = e.id ∷ s.billing_webhook_events })
  owned ← gets (λ s.
      find_first (λ x. (x.organization == org) && is_customer e.subscription.customer x)
        s.subscriptions)
  apply_event org plan status e.subscription owned

unfoldable pub sync_subscription : StripeWebhookEvent → ℕ → Plan → SubscriptionStatus → M Bool
sync_subscription e org plan status = do
  claimed ← gets (λ s. is_claimed e.id s.billing_webhook_events)
  claim_event claimed e org plan status

-- `if (!status || !plan || !organizationId) return`
unfoldable pub sync_known :
    StripeWebhookEvent → Option SubscriptionStatus → Option Plan → Option ℕ → M Bool
sync_known e (some status) (some plan) (some org) = sync_subscription e org plan status
sync_known e _ _ _ = pure false

unfoldable pub handle_webhook :
    Option String → Option String → Bool → Bool → StripeWebhookEvent → M Bool
handle_webhook starter_price pro_price configured valid e = do
  throw_if (not configured) billing_not_configured
  throw_if (not valid) invalid_webhook_signature
  (if not (is_synced_event e.type)
      then pure false
      else sync_known e (status_by_stripe_status e.subscription.status)
          (plan_for_price starter_price pro_price e.subscription) e.subscription.organization)
