-- ===== src/Inventory/Bounds.antt =====
-- What the projection of a balance guarantees, and how the two alert rules are related
-- (apps/api/src/inventory/inventory-projection.ts).
use stock_pilot.Prelude.{◌≡◌, ◌↔◌, Bool, true, false, arith}
use stock_pilot.Prelude.Int.{ℤ, pos, ◌+ℤ◌, ◌-ℤ◌, ◌≤ℤ◌, leb_ℤ, int_laws}
use stock_pilot.Inventory.Projection.{
  InventoryState, InventoryDelta, InventoryProjection, LowStockTransition, keep, open_alert,
  resolve_alert, projected, max_safe_integer, or_zero, project_inventory, low_stock_transition,
  reconcile_low_stock_transition,
}

-- The new balance: both sums, the stock held between zero and the stock on hand, and no loss of
-- precision.
pub record IsBalance (c : InventoryState) (d : InventoryDelta) (p : InventoryProjection)
    : Type 0 where
  pub on_hand_sum : p.on_hand ≡ c.on_hand +ℤ or_zero d.on_hand_delta
  pub reserved_sum : p.reserved ≡ c.reserved +ℤ or_zero d.reserved_delta
  pub available_rest : p.available ≡ p.on_hand -ℤ p.reserved
  pub reserved_nonneg : pos 0 ≤ℤ p.reserved
  pub reserved_covered : p.reserved ≤ℤ p.on_hand
  pub exact : p.on_hand ≤ℤ max_safe_integer

-- `projectInventory` returns a projection exactly when that projection is a balance: the two sums
-- of the state and the delta, with 0 ≤ reserved ≤ on hand ≤ 2^53 - 1 and available their difference.
pub project_inventory_iff :
    (c : InventoryState) (d : InventoryDelta) (p : InventoryProjection)
    → (project_inventory c d ≡ projected p) ↔ IsBalance c d p
unfolding project_inventory
project_inventory_iff c d p = (λ h. grind int_laws, λ h. grind int_laws)

-- How a transition changes the flag "an alert is open".
abbrev pub after : LowStockTransition → Bool → Bool
after keep flag = flag
after open_alert flag = true
after resolve_alert flag = false

-- Reconciliation leaves an alert open exactly when the available stock is at or below the reorder
-- point, whatever the flag was before; asked once more it changes nothing.
pub reconcile_settles :
    (available reorder_point : ℤ) (flag : Bool)
    → let flag' = after (reconcile_low_stock_transition available reorder_point flag) flag in
      (flag' ≡ leb_ℤ available reorder_point)
      × (reconcile_low_stock_transition available reorder_point flag' ≡ keep)
unfolding reconcile_low_stock_transition
reconcile_settles available reorder_point flag = ground arith

-- Where the flag was right for the stock before a change, the crossing rule of
-- `lowStockTransition` and the reconciliation of the stock after it decide alike.
pub crossing_agrees :
    (previous next reorder_point : ℤ)
    → low_stock_transition previous next reorder_point
      ≡ reconcile_low_stock_transition next reorder_point (leb_ℤ previous reorder_point)
unfolding low_stock_transition reconcile_low_stock_transition
crossing_agrees previous next reorder_point = ground arith
