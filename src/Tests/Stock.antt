-- ===== src/Tests/Stock.antt =====
-- The commands on the shop.
use stock_pilot.Prelude.{◌≡◌, refl, none, some, [], ◌∷◌, List, sort_by, insert_by}
use stock_pilot.Prelude.Int.{pos, negsuc, ◌+ℤ◌, ◌-ℤ◌, ◌≤ℤ◌}
use stock_pilot.Store.Rows.{
  Key, key_eq, Order, draft, confirmed, fulfilled, alert_open, order_moved,
}
use stock_pilot.Store.Table.{find, put}
use stock_pilot.Store.Monad.{Store, ok, Ensures, for_each}
use stock_pilot.Auth.Context.{require_membership}
use stock_pilot.Inventory.Projection.{
  InventoryState, InventoryDelta, InventoryProjection, projected, project_inventory,
  reconcile_low_stock_transition,
}
use stock_pilot.Inventory.Bounds.{IsBalance, project_inventory_iff}
use stock_pilot.Inventory.Reconciliation.{reconcile_balance, has_open_alert, apply_transition}
use stock_pilot.Inventory.Locks.{update_balance}
use stock_pilot.Inventory.Steps.{find_warehouse, record_audit}
use stock_pilot.Inventory.Shift.{on_hand_at, reserved_at, Shift, still}
use stock_pilot.Inventory.Adjustment.{InventoryAdjustmentInput, decrease}
use stock_pilot.Inventory.Receipt.{ReceiptInput, apply_receipt_transaction}
use stock_pilot.Inventory.ReceiptLaws.{received, apply_receipt_transaction-Shift}
use stock_pilot.Orders.StateMachine.{can_transition}
use stock_pilot.Orders.Transition.{
  transition_order, find_order, find_order_in, find_product, lock_order, apply_order_transition,
  move_stock, reserve_line, lock_order_balance, line_key, update_order, with_status,
  record_transition,
}
use stock_pilot.Orders.Held.{demand}
use stock_pilot.Orders.Consistency.{IsConsistent}
use stock_pilot.Orders.TransitionLaws.{
  TransitionedOrder, transition_order-Transitioned, confirm_never_oversells,
}
use stock_pilot.Commands.{
  Command, Request, adjust, receive, move, create, edit, serve_all, serve_all-IsConsistent,
}
use stock_pilot.Tests.Shop.{cents, two_widgets, shelf, order_of, shop, clerk, shop-IsConsistent}

abbrev shrink : InventoryAdjustmentInput
shrink = record { product = 100; quantity = 6; reason = "broken"; type = decrease }

abbrev delivery : ReceiptInput
delivery = record {
  lines = record { product = 100; quantity = 12; unit_cost = none } ∷ [];
  note = none;
  receipt_number = "R-1";
  received_at = 5;
  supplier = 7;
}

abbrev request : Command → Request
request c = record { auth = clerk; now = 9; command = c }

-- An adjustment, a receipt, both moves of the draft, a move that is refused, and a new draft.
abbrev busy_day : List Request
busy_day =
    request (adjust shrink)
    ∷ request (receive delivery)
    ∷ request (move 50 confirmed)
    ∷ request (move 51 draft)
    ∷ request (move 50 fulfilled)
    ∷ request (create two_widgets)
    ∷ request (edit 1000 two_widgets)
    ∷ []

serve_all-IsConsistent_example : IsConsistent (serve_all cents busy_day shop)
serve_all-IsConsistent_example = serve_all-IsConsistent cents busy_day shop shop-IsConsistent

transition_order-Transitioned_example :
    Ensures
      (λ _ u. TransitionedOrder 9 50 confirmed shop u)
      (transition_order 9 clerk 50 confirmed shop)
transition_order-Transitioned_example =
    transition_order-Transitioned 9 clerk 50 confirmed shop shop-IsConsistent

apply_receipt_transaction-Shift_example :
    Ensures
      (λ _ t. Shift (received 1 10 delivery) still (received 1 10 delivery) shop t)
      (apply_receipt_transaction 9 clerk 1 delivery shop)
unfolding find_warehouse
apply_receipt_transaction-Shift_example =
    apply_receipt_transaction-Shift 9 clerk 1 delivery shop
      {w = record { id = 10; organization = 1 }} refl

abbrev ten_three : InventoryState
ten_three = record { on_hand = pos 10; reserved = pos 3 }

abbrev minus_six : InventoryDelta
minus_six = record { on_hand_delta = some (negsuc 5); reserved_delta = none }

abbrev four_three : InventoryProjection
four_three = record { available = pos 1; on_hand = pos 4; reserved = pos 3 }

project_inventory_run : project_inventory ten_three minus_six ≡ projected four_three
unfolding project_inventory ◌+ℤ◌ ◌-ℤ◌
project_inventory_run = refl

project_inventory_iff_example : IsBalance ten_three minus_six four_three
project_inventory_iff_example =
    (project_inventory_iff ten_three minus_six four_three).0 project_inventory_run

-- The draft of four is confirmed: seven of the ten units are held, and the alert opens.
abbrev confirmed_order : Order
confirmed_order = record (order_of 50 confirmed 4) { confirmed_at = some 9 }

abbrev confirmed_shop : Store
confirmed_shop = record shop {
  balances = (shelf, record { on_hand = pos 10; reserved = pos 7; version = 1 }) ∷ [];
  alerts =
      record {
        key = shelf;
        status = alert_open;
        available_at_open = pos 3;
        reorder_point = pos 5;
        resolved_at = none;
      }
      ∷ [];
  orders = confirmed_order ∷ order_of 51 confirmed 3 ∷ [];
  transitions =
      record {
        sales_order = 50;
        from_status = some draft;
        to_status = confirmed;
        actor = 3;
        organization = 1;
      }
      ∷ [];
  audits =
      record { action = order_moved confirmed; actor = 3; entity_id = 50; organization = 1 } ∷ [];
}

confirm_run : transition_order 9 clerk 50 confirmed shop ≡ ok (confirmed_order, confirmed_shop)
unfolding transition_order require_membership lock_order find_order_in find_order can_transition
    apply_order_transition move_stock sort_by insert_by for_each reserve_line lock_order_balance
    line_key find key_eq find_product update_balance put reconcile_balance has_open_alert
    reconcile_low_stock_transition apply_transition update_order with_status record_transition
    record_audit ◌+ℤ◌ ◌-ℤ◌
confirm_run = refl

confirm_never_oversells_example :
    (o : Order) × (find_order 50 shop.orders ≡ some o)
    × ((k : Key) → reserved_at k shop +ℤ demand o k ≤ℤ on_hand_at k shop)
confirm_never_oversells_example =
    confirm_never_oversells 9 clerk 50 shop confirmed_shop shop-IsConsistent confirm_run
