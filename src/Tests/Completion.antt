-- ===== src/Tests/Completion.antt =====
-- Orders of the shop that go through.
use stock_pilot.Prelude.{◌≡◌, refl, arith}
use stock_pilot.Prelude.Int.{pos, ◌≤ℤ◌, ◌+ℤ◌}
use stock_pilot.Store.Rows.{Key, key_eq, draft, confirmed, fulfilled, cancelled}
use stock_pilot.Store.Table.{find, column, pulse}
use stock_pilot.Store.Monad.{Achieves}
use stock_pilot.Inventory.Shift.{on_hand_at, reserved_at}
use stock_pilot.Inventory.Loops.{total}
use stock_pilot.Orders.Transition.{
  find_order_in, find_product, line_key, with_status, transition_order,
}
use stock_pilot.Orders.Held.{demand}
use stock_pilot.Orders.LineProgress.{int4_max}
use stock_pilot.Orders.Completion.{confirmed_order_completes, draft_confirms}
use stock_pilot.Tests.Shop.{widget, order_of, shop, shop-IsConsistent, member, clerk}

shop_bounded : (k : Key) → on_hand_at k shop ≤ℤ int4_max
unfolding column find
shop_bounded k = ground arith

shop_available :
    (k : Key) → reserved_at k shop +ℤ demand (order_of 50 draft 4) k ≤ℤ on_hand_at k shop
unfolding column find demand total pulse line_key ◌+ℤ◌
shop_available k = ground arith

confirmed_order_completes_example :
    Achieves
      (λ answer _. answer ≡ with_status fulfilled 9 (order_of 51 confirmed 3))
      (transition_order 9 clerk 51 fulfilled shop)
    × Achieves
        (λ answer _. answer ≡ with_status cancelled 9 (order_of 51 confirmed 3))
        (transition_order 9 clerk 51 cancelled shop)
unfolding find_order_in find_product
confirmed_order_completes_example =
    confirmed_order_completes 9 clerk 51 shop member (order_of 51 confirmed 3) shop-IsConsistent
      refl refl shop_bounded refl ((omega arith, (widget, refl)), tt)

draft_confirms_example :
    Achieves
      (λ answer _. answer ≡ with_status confirmed 9 (order_of 50 draft 4))
      (transition_order 9 clerk 50 confirmed shop)
unfolding find_order_in find_product find line_key key_eq
draft_confirms_example =
    draft_confirms 9 clerk 50 shop member (order_of 50 draft 4) shop-IsConsistent refl refl
      shop_bounded refl
      (((record { on_hand = pos 10; reserved = pos 3; version = 0 }, refl), (widget, refl)), tt)
      shop_available
