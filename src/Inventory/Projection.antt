-- ===== src/Inventory/Projection.antt =====
-- apps/api/src/inventory/inventory-projection.ts. A quantity is a ℤ: the sum of two safe integers
-- that is itself a safe integer is exact, and one that is not is refused before it is used.
use stock_pilot.Prelude.{◌-◌, ◌^◌, Bool, ◌&&◌, ◌||◌, not, if◌then◌else◌, Option, none, some}
use stock_pilot.Prelude.Int.{ℤ, pos, ◌+ℤ◌, ◌-ℤ◌, ltb_ℤ, leb_ℤ}
use stock_pilot.Store.Monad.{InvariantError, not_integers, on_hand_negative, reserved_out_of_bounds}

pub record InventoryState : Type 0 where
  pub on_hand : ℤ
  pub reserved : ℤ

pub record InventoryDelta : Type 0 where
  pub on_hand_delta : Option ℤ
  pub reserved_delta : Option ℤ

pub record InventoryProjection : Type 0 where
  pub available : ℤ
  pub on_hand : ℤ
  pub reserved : ℤ

pub data LowStockTransition : Type 0 where
  keep open_alert resolve_alert : LowStockTransition

pub data Projected : Type 0 where
  projected : InventoryProjection → Projected
  refused : InvariantError → Projected

abbrev pub max_safe_integer : ℤ
max_safe_integer = pos (2 ^ 53 - 1)

-- `Number.isSafeInteger` at an integer.
unfoldable pub is_safe_integer : ℤ → Bool
is_safe_integer n = leb_ℤ n max_safe_integer && leb_ℤ (pos 0 -ℤ max_safe_integer) n

-- `delta ?? 0`
abbrev pub or_zero : Option ℤ → ℤ
or_zero none = pos 0
or_zero (some d) = d

unfoldable pub project_inventory : InventoryState → InventoryDelta → Projected
unfolding is_safe_integer
project_inventory current delta =
    let on_hand = current.on_hand +ℤ or_zero delta.on_hand_delta in
    let reserved = current.reserved +ℤ or_zero delta.reserved_delta in
    if not (is_safe_integer on_hand && is_safe_integer reserved)
    then refused not_integers
    else if ltb_ℤ on_hand (pos 0)
    then refused on_hand_negative
    else if ltb_ℤ reserved (pos 0) || ltb_ℤ on_hand reserved
    then refused reserved_out_of_bounds
    else projected
        (record { available = on_hand -ℤ reserved; on_hand = on_hand; reserved = reserved })

unfoldable pub low_stock_transition : ℤ → ℤ → ℤ → LowStockTransition
low_stock_transition previous_available next_available reorder_point =
    if ltb_ℤ reorder_point previous_available && leb_ℤ next_available reorder_point
    then open_alert
    else if leb_ℤ previous_available reorder_point && ltb_ℤ reorder_point next_available
    then resolve_alert
    else keep

unfoldable pub reconcile_low_stock_transition : ℤ → ℤ → Bool → LowStockTransition
reconcile_low_stock_transition available reorder_point has_open_alert =
    if leb_ℤ available reorder_point && not has_open_alert
    then open_alert
    else if ltb_ℤ reorder_point available && has_open_alert
    then resolve_alert
    else keep
