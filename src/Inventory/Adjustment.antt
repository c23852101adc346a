-- ===== src/Inventory/Adjustment.antt =====
-- apps/api/src/inventory/adjustment-command.service.ts
use Prim.Native.String.{String}
use stock_pilot.Prelude.{ℕ, none, some}
use stock_pilot.Prelude.Int.{ℤ, pos, ◌-ℤ◌}
use stock_pilot.Store.Rows.{
  Key, MovementType, adjustment_in, adjustment_out, inventory_adjustment, Movement, Balance,
  Product, inventory_adjusted,
}
use stock_pilot.Store.Monad.{
  M, warehouse_not_found, product_not_found, gets, or_throw, pure, ◌>>=◌, ◌>>◌,
}
use stock_pilot.Auth.Context.{AuthContext}
use stock_pilot.Inventory.Projection.{InventoryDelta, InventoryProjection, project_inventory}
use stock_pilot.Inventory.Reconciliation.{reconcile_balance}
use stock_pilot.Inventory.Locks.{lock_inventory_balance, update_balance}
use stock_pilot.Inventory.Steps.{
  find_warehouse, find_active_product, state_of, or_conflict, fresh_id, create_movement,
  record_audit,
}

pub data AdjustmentType : Type 0 where
  increase decrease : AdjustmentType

pub record InventoryAdjustmentInput : Type 0 where
  pub product : ℕ
  pub quantity : ℕ
  pub reason : String
  pub type : AdjustmentType

pub record BalanceSummary : Type 0 where
  pub available : ℤ
  pub on_hand : ℤ
  pub product : ℕ
  pub reserved : ℤ

pub record AdjustmentResult : Type 0 where
  pub balance : BalanceSummary
  pub movement : Movement

unfoldable pub movement_type : AdjustmentType → MovementType
movement_type increase = adjustment_in
movement_type decrease = adjustment_out

unfoldable pub signed_quantity : InventoryAdjustmentInput → ℤ
signed_quantity input = elim input.type [
  | increase ↦ pos input.quantity
  | decrease ↦ pos 0 -ℤ pos input.quantity
]

-- From the movement's row to the end of the transaction.
unfoldable pub record_adjustment :
    ℕ
    → AuthContext
    → InventoryAdjustmentInput
    → Key
    → Product
    → InventoryProjection
    → ℕ
    → Balance
    → M AdjustmentResult
record_adjustment now auth input key product next movement_id balance = do
  let movement : Movement = record {
    key = key;
    type = movement_type input.type;
    quantity_delta = signed_quantity input;
    on_hand_after = next.on_hand;
    reference_type = inventory_adjustment;
    reference_id = movement_id;
    reason = some input.reason;
    actor = auth.user;
  }
  create_movement movement
  reconcile_balance now
      (record { available = next.available; key = key; reorder_point = product.reorder_point })
  record_audit (record {
    action = inventory_adjusted;
    actor = auth.user;
    entity_id = movement_id;
    organization = key.organization;
  })
  pure (record {
    balance = record {
      available = next.available;
      on_hand = balance.on_hand;
      product = product.id;
      reserved = balance.reserved;
    };
    movement = movement;
  })

-- From the lock on the balance.
unfoldable pub adjust_balance :
    ℕ → AuthContext → InventoryAdjustmentInput → Key → Product → M AdjustmentResult
adjust_balance now auth input key product = do
  current ← lock_inventory_balance key
  let delta : InventoryDelta = record {
    on_hand_delta = some (signed_quantity input);
    reserved_delta = none;
  }
  next ← or_conflict (project_inventory (state_of current) delta)
  movement_id ← fresh_id
  balance ← update_balance key (λ b. record b { on_hand = next.on_hand })
  record_adjustment now auth input key product next movement_id balance

unfoldable pub adjust_transaction :
    ℕ → AuthContext → ℕ → InventoryAdjustmentInput → M AdjustmentResult
adjust_transaction now auth organization input = do
  warehouse ← or_throw (← gets (λ s. find_warehouse organization s.warehouses)) warehouse_not_found
  product ←
      or_throw (← gets (λ s. find_active_product organization input.product s.products))
        product_not_found
  let key : Key = record {
    organization = organization;
    warehouse = warehouse.id;
    product = product.id;
  }
  adjust_balance now auth input key product
