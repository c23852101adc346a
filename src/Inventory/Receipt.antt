-- ===== src/Inventory/Receipt.antt =====
-- apps/api/src/inventory/receipt-command.service.ts
use Prim.Native.String.{String}
use stock_pilot.Prelude.{
  ℕ, ◌==◌, ◌&&◌, Bool, true, false, not, Option, none, some, List, [], ◌∷◌, ⊤, map, length, sort_by,
  if◌then◌else◌,
}
use stock_pilot.Prelude.Int.{pos}
use stock_pilot.Store.Rows.{
  Key, Product, Receipt, ReceiptLine, receipt, goods_receipt, receipt_applied,
}
use stock_pilot.Store.Monad.{
  M, warehouse_not_found, supplier_not_found, products_not_found, product_not_found, gets, modify,
  pure, throw_if, or_throw, for_each, ◌>>=◌, ◌>>◌,
}
use stock_pilot.Auth.Context.{AuthContext}
use stock_pilot.Inventory.Projection.{InventoryDelta, project_inventory}
use stock_pilot.Inventory.Reconciliation.{reconcile_balance}
use stock_pilot.Inventory.Locks.{lock_inventory_balance, update_balance}
use stock_pilot.Inventory.Steps.{
  find_warehouse, find_active_supplier, state_of, or_invariant, fresh_id, create_movement,
  record_audit,
}

pub record ReceiptLineInput : Type 0 where
  pub product : ℕ
  pub quantity : ℕ
  pub unit_cost : Option String

pub record ReceiptInput : Type 0 where
  pub lines : List ReceiptLineInput
  pub note : Option String
  pub receipt_number : String
  pub received_at : ℕ
  pub supplier : ℕ

-- `{ in: ids }`
unfoldable pub includes : ℕ → List ℕ → Bool
includes x [] = false
includes x (y ∷ ys) = if x == y then true else includes x ys

-- `product.findMany({ where: { id: { in: ids }, isActive: true, organizationId } })`
unfoldable pub find_active_products : ℕ → List ℕ → List Product → List Product
unfolding includes
find_active_products org ids [] = []
find_active_products org ids (p ∷ ps) =
    let rest = find_active_products org ids ps in
    if includes p.id ids && (p.is_active && (p.organization == org)) then p ∷ rest else rest

-- `productsById.get`: the last entry of a key stands in the map, and identifiers are unique.
unfoldable pub product_by_id : ℕ → List Product → Option Product
product_by_id id [] = none
product_by_id id (p ∷ ps) = if p.id == id then some p else product_by_id id ps

unfoldable pub create_receipt_line : ReceiptLine → M ⊤
create_receipt_line l = modify (λ s. record s { receipt_lines = l ∷ s.receipt_lines })

unfoldable pub create_receipt : Receipt → M ⊤
create_receipt r = modify (λ s. record s { receipts = r ∷ s.receipts })

-- The body of the loop. The delta is positive, so no handler stands around the projection.
unfoldable pub receive_line : ℕ → ℕ → ℕ → ℕ → List Product → ℕ → ReceiptLineInput → M ⊤
receive_line now actor organization warehouse products receipt_id line = do
  let key : Key = record {
    organization = organization;
    warehouse = warehouse;
    product = line.product;
  }
  product ← or_throw (product_by_id line.product products) product_not_found
  current ← lock_inventory_balance key
  let delta : InventoryDelta = record {
    on_hand_delta = some (pos line.quantity);
    reserved_delta = none;
  }
  next ← or_invariant (project_inventory (state_of current) delta)
  update_balance key (λ b. record b { on_hand = next.on_hand })
  create_receipt_line (record {
    receipt_id = receipt_id;
    organization = organization;
    product = line.product;
    quantity = line.quantity;
    unit_cost = line.unit_cost;
  })
  create_movement (record {
    key = key;
    type = receipt;
    quantity_delta = pos line.quantity;
    on_hand_after = next.on_hand;
    reference_type = goods_receipt;
    reference_id = receipt_id;
    reason = none;
    actor = actor;
  })
  reconcile_balance now
      (record { available = next.available; key = key; reorder_point = product.reorder_point })
  pure tt

-- From the receipt's row on.
unfoldable pub receive_lines : ℕ → AuthContext → ℕ → ℕ → List Product → ReceiptInput → M ℕ
receive_lines now auth organization warehouse products input = do
  receipt_id ← fresh_id
  create_receipt (record {
    id = receipt_id;
    organization = organization;
    warehouse = warehouse;
    supplier = input.supplier;
    receipt_number = input.receipt_number;
    received_at = input.received_at;
    note = input.note;
    actor = auth.user;
  })
  for_each (sort_by (λ (l : ReceiptLineInput). l.product) input.lines)
      (receive_line now auth.user organization warehouse products receipt_id)
  record_audit (record {
    action = receipt_applied;
    actor = auth.user;
    entity_id = receipt_id;
    organization = organization;
  })
  pure receipt_id

-- The answer is the receipt's identifier; the source adds its lines and balances.
unfoldable pub apply_receipt_transaction : ℕ → AuthContext → ℕ → ReceiptInput → M ℕ
apply_receipt_transaction now auth organization input = do
  warehouse ← or_throw (← gets (λ s. find_warehouse organization s.warehouses)) warehouse_not_found
  supplier ←
      or_throw (← gets (λ s. find_active_supplier organization input.supplier s.suppliers))
        supplier_not_found
  let ids = map (λ (l : ReceiptLineInput). l.product) input.lines
  products ← gets (λ s. find_active_products organization ids s.products)
  throw_if (not (length products == length ids)) products_not_found
  receive_lines now auth organization warehouse.id products input
