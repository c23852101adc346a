-- ===== src/Billing/Checkout.antt =====
-- `createCheckoutSession` of apps/api/src/billing/billing.service.ts. The payment provider is a
-- parameter: `create_customer` answers the identifier of a new customer, `create_session` the URL of
-- a session for a customer and a price, if it has one. `price_id_for` is the configuration.
use Prim.Native.String.{String}
use mathlib.Core.Path.{subst}
use text.Mathlib.Text.{◌==◌ as str_eq}
use stock_pilot.Prelude.{
  ℕ, ◌≡◌, refl, ap, sym, Bool, true, false, Option, none, some, ◌∷◌, ⊤, ◌==◌, find_first,
  update_where, find_first-write, if◌then◌else◌, arith, Option-cases, inl, inr,
}
use stock_pilot.Store.Rows.{Plan, starter, incomplete, Subscription}
use stock_pilot.Store.Monad.{
  Store, M, Result, ok, err, membership_required, billing_disabled_for_demo, billing_not_configured,
  gets, modify, pure, with_tenant, ◌>>=◌, ◌>>◌, Ensures,
}
use stock_pilot.Auth.Context.{AuthContext, MembershipContext}
use stock_pilot.Billing.{
  is_eligible, effective_plan, find_subscription, is_demo_organization, plan_of,
}

abbrev pub belongs_to : ℕ → Subscription → Bool
belongs_to org x = x.organization == org

-- `if (value)` of a text that may be missing.
unfoldable pub truthy : Option String → Option String
truthy none = none
truthy (some t) = if str_eq t "" then none else some t

abbrev pub started_checkout : Plan → Subscription → Subscription
started_checkout plan x = record x { plan = plan; status = incomplete }

abbrev pub new_subscription : ℕ → Plan → String → Subscription
new_subscription org plan customer = record {
  organization = org;
  plan = plan;
  status = incomplete;
  stripe_customer = some customer;
  stripe_subscription = none;
  stripe_price = none;
  current_period_end = none;
  cancel_at_period_end = false;
}

-- `organizationSubscription.upsert` of the checkout.
unfoldable pub upsert_checkout : ℕ → Plan → String → Option Subscription → M ⊤
upsert_checkout org plan customer none =
    modify (λ s. record s { subscriptions = new_subscription org plan customer ∷ s.subscriptions })
upsert_checkout org plan customer (some x) = modify (λ s. record s {
  subscriptions =
      update_where (belongs_to org)
        (λ y. record y { plan = plan; status = incomplete; stripe_customer = some customer })
        s.subscriptions;
})

-- `existing?.stripeCustomerId`
unfoldable pub customer_of_existing : Option Subscription → Option String
customer_of_existing none = none
customer_of_existing (some x) = truthy x.stripe_customer

module _ (create_customer : String → Result String)
    (create_session : String → String → Result (Option String))
    (price_id_for : Plan → Option String) where
  unfoldable pub from_stripe : {A : Type 0} → Result A → M A
  from_stripe (ok a) s = ok (a, s)
  from_stripe (err e) s = err e

  unfoldable pub customer_for : ℕ → Plan → String → Option Subscription → Option String → M String
  customer_for org plan email existing (some customer) = do
    modify (λ s. record s {
      subscriptions = update_where (belongs_to org) (started_checkout plan) s.subscriptions;
    })
    pure customer
  customer_for org plan email existing none = do
    customer ← from_stripe (create_customer email)
    upsert_checkout org plan customer existing
    pure customer

  -- The transaction of the checkout.
  unfoldable pub prepare_checkout : ℕ → Plan → String → M String
  prepare_checkout org plan email = do
    existing ← gets (find_subscription org)
    customer_for org plan email existing (customer_of_existing existing)

  -- The session is opened after the transaction.
  unfoldable pub open_session : String → Result String → Result String
  open_session price (err e) = err e
  open_session price (ok customer) = elim (create_session customer price) [
    | err e ↦ err e
    | ok url ↦ elim (truthy url) [ none ↦ err billing_not_configured | some u ↦ ok u ]
  ]

  unfoldable pub checkout_at_price :
      AuthContext → MembershipContext → Plan → Option String → Store → Result String × Store
  checkout_at_price auth m plan none s = (err billing_not_configured, s)
  checkout_at_price auth m plan (some price) s =
      let (answer, t) = with_tenant (prepare_checkout m.organization plan auth.email) s in
      (open_session price answer, t)

  unfoldable pub checkout_for :
      AuthContext → Plan → Option MembershipContext → Store → Result String × Store
  checkout_for auth plan none s = (err membership_required, s)
  checkout_for auth plan (some m) s =
      if m.is_demo
      then (err billing_disabled_for_demo, s)
      else checkout_at_price auth m plan (truthy (price_id_for plan)) s

  unfoldable pub create_checkout_session : AuthContext → Plan → Store → Result String × Store
  create_checkout_session auth plan s = checkout_for auth plan auth.membership s

  -- The row of the workspace is incomplete, and the organizations are as before.
  abbrev Unpaid : ℕ → Store → Store → Type 0
  Unpaid org s t =
      ((x : Subscription) × (find_subscription org t ≡ some x) × (x.status ≡ incomplete))
      × (t.organizations ≡ s.organizations)

  updated-Unpaid :
      (org : ℕ) (change : Subscription → Subscription) (x : Subscription) (s : Store)
      → find_subscription org s ≡ some x
      → ((y : Subscription) → (change y).organization ≡ y.organization)
      → (change x).status ≡ incomplete
      → Unpaid org s
          (record s { subscriptions = update_where (belongs_to org) change s.subscriptions })
  unfolding find_subscription
  updated-Unpaid org change x s found keeps st = (
    (
      change x,
      find_first-write (belongs_to org) change s.subscriptions x (λ y. ap (λ o. o == org) (keeps y))
          found,
      st,
    ),
    refl,
  )

  created-Unpaid :
      (org : ℕ) (plan : Plan) (customer : String) (s : Store)
      → Unpaid org s
          (record s { subscriptions = new_subscription org plan customer ∷ s.subscriptions })
  unfolding find_subscription find_first
  created-Unpaid org plan customer s =
      ((new_subscription org plan customer, ground arith, refl), refl)

  customer_for-Unpaid :
      (org : ℕ) (plan : Plan) (email : String) (o : Option Subscription) (s : Store)
      → find_subscription org s ≡ o
      → Ensures (λ _ t. Unpaid org s t) (customer_for org plan email o (customer_of_existing o) s)
  unfolding customer_for customer_of_existing upsert_checkout from_stripe
  customer_for-Unpaid org plan email none s found = go (create_customer email)
    where
      go :
          (r : Result String)
          → Ensures
              (λ _ t. Unpaid org s t)
              ((from_stripe r >>= λ customer.
                  upsert_checkout org plan customer none >> pure customer)
                s)
      go (ok customer) = created-Unpaid org plan customer s
      go (err e) = tt
  customer_for-Unpaid org plan email (some x) s found =
      elim (Option-cases (truthy x.stripe_customer)) [
        | inr (c, e) ↦ rw e (updated-Unpaid org (started_checkout plan) x s found (λ y. refl) refl)
        | inl e ↦ rw e (go (create_customer email))
      ]
    where
      go :
          (r : Result String)
          → Ensures
              (λ _ t. Unpaid org s t)
              ((from_stripe r >>= λ customer.
                  upsert_checkout org plan customer (some x) >> pure customer)
                s)
      go (ok customer) = updated-Unpaid org _ x s found (λ y. refl) refl
      go (err e) = tt

  Unpaid-starter :
      (org : ℕ) (s t : Store)
      → is_demo_organization org s ≡ false
      → Unpaid org s t
      → plan_of org t ≡ starter
  unfolding plan_of effective_plan is_eligible is_demo_organization
  Unpaid-starter org s t demo ((x, found, st), same) =
      let d : is_demo_organization org t ≡ false = rw (is_demo_organization, same) demo in
      rw (plan_of, d, found, effective_plan, st) refl

  checkout_at_price-starter :
      (auth : AuthContext) (m : MembershipContext) (plan : Plan) (price : Option String) (s : Store)
      (url : String)
      → is_demo_organization m.organization s ≡ false
      → (checkout_at_price auth m plan price s).0 ≡ ok url
      → plan_of m.organization (checkout_at_price auth m plan price s).1 ≡ starter
  unfolding checkout_at_price with_tenant open_session prepare_checkout
  checkout_at_price-starter auth m plan none s url demo h = cc
  checkout_at_price-starter auth m plan (some price) s url demo h =
      go (prepare_checkout m.organization plan auth.email s)
        (customer_for-Unpaid m.organization plan auth.email (find_subscription m.organization s) s
          refl)
        h
    where
      committed : Result (String × Store) → Result String × Store
      committed r = elim r [ ok (a, t) ↦ (ok a, t) | err e ↦ (err e, s) ]

      go :
          (r : Result (String × Store))
          → Ensures (λ _ t. Unpaid m.organization s t) r
          → open_session price (committed r).0 ≡ ok url
          → plan_of m.organization (committed r).1 ≡ starter
      go (ok (customer, t)) u h = Unpaid-starter m.organization s t demo u
      go (err e) u h = cc

  checkout_for-starter :
      (auth : AuthContext) (m : MembershipContext) (plan : Plan) (s : Store) (url : String)
      → is_demo_organization m.organization s ≡ false
      → (checkout_for auth plan (some m) s).0 ≡ ok url
      → plan_of m.organization (checkout_for auth plan (some m) s).1 ≡ starter
  unfolding checkout_for
  checkout_for-starter auth m plan s url demo = go m.is_demo
    where
      go :
          (b : Bool)
          → (if b
              then (err billing_disabled_for_demo, s)
              else checkout_at_price auth m plan (truthy (price_id_for plan)) s).0
            ≡ ok url
          → plan_of m.organization
              (if b
                then (err billing_disabled_for_demo, s)
                else checkout_at_price auth m plan (truthy (price_id_for plan)) s).1
            ≡ starter
      go true h = cc
      go false h = checkout_at_price-starter auth m plan (truthy (price_id_for plan)) s url demo h

  -- A checkout that answers a URL, of a workspace that is no demo: in the store that it leaves the
  -- workspace has the starter plan, also where it had a paid plan before.
  pub create_checkout_session-starter :
      (auth : AuthContext) (m : MembershipContext) (plan : Plan) (s : Store) (url : String)
      → auth.membership ≡ some m
      → is_demo_organization m.organization s ≡ false
      → (create_checkout_session auth plan s).0 ≡ ok url
      → plan_of m.organization (create_checkout_session auth plan s).1 ≡ starter
  unfolding create_checkout_session
  create_checkout_session-starter auth m plan s url member demo answered =
      go auth.membership member answered
    where
      go :
          (o : Option MembershipContext)
          → o ≡ some m
          → (checkout_for auth plan o s).0 ≡ ok url
          → plan_of m.organization (checkout_for auth plan o s).1 ≡ starter
      go o e =
          subst
            (λ x.
              (checkout_for auth plan x s).0 ≡ ok url
              → plan_of m.organization (checkout_for auth plan x s).1 ≡ starter)
            (sym e) (checkout_for-starter auth m plan s url demo)
