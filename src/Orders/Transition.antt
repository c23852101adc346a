-- ===== src/Orders/Transition.antt =====
-- apps/api/src/orders/order-transition.service.ts and order-lock.ts
use stock_pilot.Prelude.{
  ℕ, ◌==◌, ◌&&◌, not, Option, none, some, List, [], ◌∷◌, ⊤, sort_by, if◌then◌else◌,
}
use stock_pilot.Prelude.Int.{ℤ, pos, ◌+ℤ◌, ◌-ℤ◌, ltb_ℤ}
use stock_pilot.Store.Rows.{
  Key, OrderStatus, draft, confirmed, fulfilled, cancelled, OrderLine, Order, OrderTransition, sale,
  sales_order, Product, Balance, order_moved,
}
use stock_pilot.Store.Table.{find}
use stock_pilot.Store.Monad.{
  M, order_not_found, no_balance, insufficient_stock, invalid_transition, gets, modify, pure,
  throw_if, or_throw, for_each, ◌>>=◌, ◌>>◌,
}
use stock_pilot.Auth.Context.{AuthContext, require_membership}
use stock_pilot.Inventory.Projection.{InventoryDelta, project_inventory}
use stock_pilot.Inventory.Reconciliation.{reconcile_balance}
use stock_pilot.Inventory.Locks.{update_balance}
use stock_pilot.Inventory.Steps.{state_of, or_conflict, create_movement, record_audit}
use stock_pilot.Orders.StateMachine.{can_transition}

-- The row that `lockOrder` selects.
unfoldable pub find_order_in : ℕ → ℕ → List Order → Option Order
find_order_in org id [] = none
find_order_in org id (o ∷ os) =
    if o.organization == org && (o.id == id) then some o else find_order_in org id os

-- `salesOrder.findUnique({ where: { id } })`
unfoldable pub find_order : ℕ → List Order → Option Order
find_order id [] = none
find_order id (o ∷ os) = if o.id == id then some o else find_order id os

-- `salesOrder.update({ where: { id } })`
unfoldable pub update_order : ℕ → (Order → Order) → List Order → List Order
update_order id change [] = []
update_order id change (o ∷ os) =
    if o.id == id then change o ∷ os else o ∷ update_order id change os

unfoldable pub lock_order : ℕ → ℕ → M Order
lock_order org id = do or_throw (← gets (λ s. find_order_in org id s.orders)) order_not_found

-- The product of the join in `lockOrderBalance`.
unfoldable pub find_product : ℕ → ℕ → List Product → Option Product
find_product org id [] = none
find_product org id (p ∷ ps) =
    if p.organization == org && (p.id == id) then some p else find_product org id ps

pub record LockedOrderBalance : Type 0 where
  pub balance : Balance
  pub reorder_point : ℤ

unfoldable pub lock_order_balance : Key → M LockedOrderBalance
lock_order_balance k = do
  balance ← or_throw (← gets (λ s. find k s.balances)) no_balance
  product ← or_throw (← gets (λ s. find_product k.organization k.product s.products)) no_balance
  pure (record { balance = balance; reorder_point = product.reorder_point })

unfoldable pub line_key : Order → OrderLine → Key
line_key order line = record {
  organization = order.organization;
  warehouse = order.warehouse;
  product = line.product;
}

-- The body of the loop for `CONFIRMED`.
unfoldable pub reserve_line : ℕ → Order → OrderLine → M ⊤
reserve_line now order line = do
  locked ← lock_order_balance (line_key order line)
  let q = pos line.quantity
  throw_if (ltb_ℤ (locked.balance.on_hand -ℤ locked.balance.reserved) q)
      (insufficient_stock line.sku_snapshot)
  update_balance (line_key order line) (λ b. record b { reserved = b.reserved +ℤ q })
  reconcile_balance now (record {
    available = locked.balance.on_hand -ℤ locked.balance.reserved -ℤ q;
    key = line_key order line;
    reorder_point = locked.reorder_point;
  })
  pure tt

-- The body of the loop for `FULFILLED`.
unfoldable pub fulfil_line : ℕ → ℕ → Order → OrderLine → M ⊤
fulfil_line now actor order line = do
  locked ← lock_order_balance (line_key order line)
  let taken = pos 0 -ℤ pos line.quantity
  let delta : InventoryDelta = record { on_hand_delta = some taken; reserved_delta = some taken }
  next ← or_conflict (project_inventory (state_of locked.balance) delta)
  update_balance (line_key order line)
      (λ b. record b { on_hand = next.on_hand; reserved = next.reserved })
  reconcile_balance now (record {
    available = next.available;
    key = line_key order line;
    reorder_point = locked.reorder_point;
  })
  create_movement (record {
    key = line_key order line;
    type = sale;
    quantity_delta = taken;
    on_hand_after = next.on_hand;
    reference_type = sales_order;
    reference_id = order.id;
    reason = none;
    actor = actor;
  })

-- The body of the loop for a confirmed order that is `CANCELLED`.
unfoldable pub release_line : ℕ → Order → OrderLine → M ⊤
release_line now order line = do
  locked ← lock_order_balance (line_key order line)
  let delta : InventoryDelta = record {
    on_hand_delta = none;
    reserved_delta = some (pos 0 -ℤ pos line.quantity);
  }
  next ← or_conflict (project_inventory (state_of locked.balance) delta)
  update_balance (line_key order line) (λ b. record b { reserved = next.reserved })
  reconcile_balance now (record {
    available = next.available;
    key = line_key order line;
    reorder_point = locked.reorder_point;
  })
  pure tt

-- `localeCompare` of the product identifiers.
abbrev pub by_product : OrderLine → ℕ
by_product l = l.product

-- The three `if` blocks: the status the order had, and the one it gets.
unfoldable pub move_stock : OrderStatus → OrderStatus → ℕ → ℕ → Order → M ⊤
move_stock current confirmed now actor order =
    for_each (sort_by by_product order.lines) (reserve_line now order)
move_stock current fulfilled now actor order =
    for_each (sort_by by_product order.lines) (fulfil_line now actor order)
move_stock confirmed cancelled now actor order =
    for_each (sort_by by_product order.lines) (release_line now order)
move_stock current to now actor order = pure tt

-- `updateData`
unfoldable pub with_status : OrderStatus → ℕ → Order → Order
with_status cancelled now o = record o { status = cancelled; cancelled_at = some now }
with_status confirmed now o = record o { status = confirmed; confirmed_at = some now }
with_status fulfilled now o = record o { status = fulfilled; fulfilled_at = some now }
with_status draft now o = record o { status = draft }

unfoldable pub record_transition : OrderTransition → M ⊤
record_transition x = modify (λ s. record s { transitions = x ∷ s.transitions })

-- From the lines on: the stock moves, the status is written, and both trails get their row.
unfoldable pub apply_order_transition : OrderStatus → OrderStatus → ℕ → ℕ → Order → M Order
apply_order_transition current to now actor order = do
  move_stock current to now actor order
  modify (λ s. record s { orders = update_order order.id (with_status to now) s.orders })
  record_transition (record {
    sales_order = order.id;
    from_status = some current;
    to_status = to;
    actor = actor;
    organization = order.organization;
  })
  record_audit (record {
    action = order_moved to;
    actor = actor;
    entity_id = order.id;
    organization = order.organization;
  })
  or_throw (← gets (λ s. find_order_in order.organization order.id s.orders)) order_not_found

unfoldable pub transition_order : ℕ → AuthContext → ℕ → OrderStatus → M Order
transition_order now auth id to = do
  membership ← require_membership auth
  current ← lock_order membership.organization id
  throw_if (not (can_transition current.status to)) (invalid_transition current.status to)
  order ← or_throw (← gets (λ s. find_order id s.orders)) order_not_found
  apply_order_transition current.status to now auth.user order
