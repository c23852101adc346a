-- ===== src/Tests/Checkout.antt =====
-- A workspace that pays, its checkout, and a webhook event that comes twice.
use Prim.Native.String.{String}
use stock_pilot.Prelude.{true, false, ◌≡◌, refl, some, Option, [], ◌∷◌, find_first, update_where}
use stock_pilot.Store.Rows.{Plan, starter, pro, active}
use stock_pilot.Store.Monad.{Store, Result, ok, with_tenant}
use stock_pilot.Auth.Context.{AuthContext, MembershipContext, manager}
use stock_pilot.Billing.{find_subscription, is_demo_organization, plan_of}
use stock_pilot.Billing.Checkout.{
  truthy, customer_of_existing, customer_for, prepare_checkout, open_session, checkout_at_price,
  checkout_for, create_checkout_session, create_checkout_session-starter,
}
use stock_pilot.Billing.Webhook.Once.{SyncCall, sync_all, sync_subscription-once}
use stock_pilot.Billing.Webhook.{
  StripeWebhookEvent, is_claimed, is_customer, upsert_subscription, apply_event, claim_event,
  price_id_of, sync_subscription,
}
use stock_pilot.Tests.Shop.{shop}

abbrev paying : Store
paying = record shop {
  subscriptions =
      record {
        organization = 1;
        plan = pro;
        status = active;
        stripe_customer = some "cus_1";
        stripe_subscription = some "sub_1";
        stripe_price = some "price_pro";
        current_period_end = some 90;
        cancel_at_period_end = false;
      }
      ∷ [];
}

abbrev payer : MembershipContext
payer = record { id = 30; role = manager; organization = 1; is_demo = false }

abbrev payer_context : AuthContext
payer_context = record {
  session_id = 50;
  session_token_hash = "h50";
  user = 3;
  display_name = "Ann";
  email = "ann@shop.test";
  membership = some payer;
}

abbrev new_customer : String → Result String
new_customer email = ok "cus_2"

abbrev new_session : String → String → Result (Option String)
new_session customer price = ok (some "https://pay.test")

abbrev prices : Plan → Option String
prices plan = some "price"

no_demo : is_demo_organization 1 paying ≡ false
unfolding is_demo_organization find_first
no_demo = refl

opened :
    (create_checkout_session new_customer new_session prices payer_context pro paying).0
    ≡ ok "https://pay.test"
unfolding create_checkout_session checkout_for checkout_at_price truthy with_tenant prepare_checkout
    find_subscription find_first customer_of_existing customer_for open_session
opened = refl

create_checkout_session-starter_example :
    plan_of 1 (create_checkout_session new_customer new_session prices payer_context pro paying).1
    ≡ starter
create_checkout_session-starter_example =
    create_checkout_session-starter new_customer new_session prices payer_context payer pro paying
      "https://pay.test" refl no_demo opened

abbrev renewal : StripeWebhookEvent
renewal = record {
  id = "evt_1";
  type = "customer.subscription.updated";
  subscription = record {
    id = "sub_1";
    customer = "cus_1";
    status = "active";
    price = some "price_pro";
    organization = some 1;
    current_period_end = 120;
    cancel_at_period_end = false;
  };
}

abbrev renewed : Store
renewed = record paying {
  subscriptions =
      record {
        organization = 1;
        plan = pro;
        status = active;
        stripe_customer = some "cus_1";
        stripe_subscription = some "sub_1";
        stripe_price = some "price_pro";
        current_period_end = some 120000;
        cancel_at_period_end = false;
      }
      ∷ [];
  billing_webhook_events = "evt_1" ∷ [];
  billing_audits = record { organization = 1; plan = pro; status = active } ∷ [];
}

synced : sync_subscription renewal 1 pro active paying ≡ ok (true, renewed)
unfolding sync_subscription is_claimed claim_event find_first is_customer apply_event
    find_subscription upsert_subscription update_where price_id_of
synced = refl

-- Another event of the same subscription.
abbrev later_event : SyncCall
later_event = record {
  event = record renewal { id = "evt_2" };
  organization = 1;
  plan = starter;
  status = active;
}

sync_subscription-once_example :
    sync_subscription renewal 1 pro active (sync_all (later_event ∷ []) renewed)
    ≡ ok (false, sync_all (later_event ∷ []) renewed)
sync_subscription-once_example =
    sync_subscription-once renewal renewal 1 1 pro pro active active paying renewed true
      (later_event ∷ []) synced refl
