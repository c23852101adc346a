-- ===== src/Inventory/Reconciliation.antt =====
-- apps/api/src/inventory/inventory-reconciliation.service.ts: alerts follow the balance.
use stock_pilot.Prelude.{ℕ, Bool, true, false, ◌&&◌, ◌||◌, none, some, List, [], ◌∷◌, if◌then◌else◌}
use stock_pilot.Prelude.Int.{ℤ}
use stock_pilot.Store.Rows.{Key, key_eq, AlertStatus, alert_open, alert_resolved, Alert}
use stock_pilot.Store.Monad.{M, pure, gets, modify, ◌>>=◌, ◌>>◌}
use stock_pilot.Inventory.Projection.{
  LowStockTransition, keep, open_alert, resolve_alert, reconcile_low_stock_transition,
}

pub record ReconcileBalanceInput : Type 0 where
  pub available : ℤ
  pub key : Key
  pub reorder_point : ℤ

abbrev pub is_open : AlertStatus → Bool
is_open alert_open = true
is_open alert_resolved = false

-- The `where` of both queries: an open alert of this balance.
abbrev pub matches : Key → Alert → Bool
matches k a = key_eq a.key k && is_open a.status

-- `Boolean(openAlert)` of `findFirst`.
unfoldable pub has_open_alert : Key → List Alert → Bool
has_open_alert k [] = false
has_open_alert k (a ∷ alerts) = matches k a || has_open_alert k alerts

-- `lowStockAlert.updateMany`
unfoldable pub resolve_alerts : Key → ℕ → List Alert → List Alert
resolve_alerts k now [] = []
resolve_alerts k now (a ∷ alerts) =
    (if matches k a then record a { status = alert_resolved; resolved_at = some now } else a)
    ∷ resolve_alerts k now alerts

new_alert : ReconcileBalanceInput → Alert
new_alert input = record {
  key = input.key;
  status = alert_open;
  available_at_open = input.available;
  reorder_point = input.reorder_point;
  resolved_at = none;
}

unfoldable pub apply_transition :
    LowStockTransition → ℕ → ReconcileBalanceInput → List Alert → List Alert
unfolding new_alert
apply_transition keep now input alerts = alerts
apply_transition open_alert now input alerts = new_alert input ∷ alerts
apply_transition resolve_alert now input alerts = resolve_alerts input.key now alerts

unfoldable pub reconcile_balance : ℕ → ReconcileBalanceInput → M LowStockTransition
reconcile_balance now input = do
  flag ← gets (λ s. has_open_alert input.key s.alerts)
  let transition = reconcile_low_stock_transition input.available input.reorder_point flag
  modify (λ s. record s { alerts = apply_transition transition now input s.alerts })
  pure transition
