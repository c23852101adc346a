-- ===== src/Billing.antt =====
-- The plan of an organization (apps/api/src/billing/plan-entitlements.ts and
-- billing-status.service.ts).
pub mod Checkout
pub mod Webhook
use stock_pilot.Prelude.{
  ℕ, ◌≡◌, Bool, true, false, Option, none, some, ◌==◌, find_first, if◌then◌else◌, arith, ◌↔◌, ◌⊎◌,
}
use stock_pilot.Store.Rows.{
  Plan, starter, pro, SubscriptionStatus, active, trialing, Organization, Subscription,
}
use stock_pilot.Store.Monad.{Store, M, ok, gets, ◌>>=◌}
use stock_pilot.Auth.Context.{AuthContext, require_membership}

pub record PlanEntitlements : Type 0 where
  pub csv_import : Bool
  pub integrations : Bool
  pub max_team_members : ℕ

unfoldable pub entitlements_for : Plan → PlanEntitlements
entitlements_for starter = record { csv_import = false; integrations = false; max_team_members = 3 }
entitlements_for pro = record { csv_import = true; integrations = true; max_team_members = 20 }

-- `ELIGIBLE_STATUSES.has`
unfoldable pub is_eligible : SubscriptionStatus → Bool
is_eligible active = true
is_eligible trialing = true
is_eligible _ = false

unfoldable pub effective_plan : Option Subscription → Plan
effective_plan none = starter
effective_plan (some s) = if is_eligible s.status then s.plan else starter

-- `organization.findUnique`, and `organization?.isDemo`
unfoldable pub is_demo_organization : ℕ → Store → Bool
is_demo_organization org s = elim (find_first (λ (o : Organization). o.id == org) s.organizations) [
  | none ↦ false
  | some o ↦ o.is_demo
]

unfoldable pub find_subscription : ℕ → Store → Option Subscription
find_subscription org s = find_first (λ (x : Subscription). x.organization == org) s.subscriptions

unfoldable pub plan_of : ℕ → Store → Plan
plan_of org s = if is_demo_organization org s then pro else effective_plan (find_subscription org s)

unfoldable pub effective_plan_in_transaction : ℕ → M Plan
effective_plan_in_transaction org = gets (plan_of org)

unfoldable pub current_plan : AuthContext → M Plan
current_plan auth = do
  membership ← require_membership auth
  effective_plan_in_transaction membership.organization

-- Paid entitlements are granted exactly to a demo workspace and to one whose subscription is for
-- the paid plan and active or trialing; any other workspace has the starter plan.
pub paid_plan_iff :
    (org : ℕ) (s : Store)
    → (effective_plan_in_transaction org s ≡ ok (pro, s)) ↔ (
        (is_demo_organization org s ≡ true)
        ⊎ ((x : Subscription) × (find_subscription org s ≡ some x)
            × (x.plan ≡ pro)
            × ((x.status ≡ active) ⊎ (x.status ≡ trialing))))
unfolding effective_plan_in_transaction plan_of effective_plan is_eligible
paid_plan_iff org s = ground arith
