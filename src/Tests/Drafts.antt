-- ===== src/Tests/Drafts.antt =====
-- Drafts of the shop.
use stock_pilot.Prelude.{Bool, false, ◌≡◌, refl, true}
use stock_pilot.Store.Monad.{Result, ok, err, Ensures, for_each}
use stock_pilot.Auth.Context.{require_membership}
use stock_pilot.Inventory.Steps.{find_warehouse, fresh_id, record_audit}
use stock_pilot.Inventory.Receipt.{includes, find_active_products, product_by_id}
use stock_pilot.Orders.Transition.{
  find_order, find_order_in, update_order, lock_order, record_transition,
}
use stock_pilot.Orders.Drafts.{
  find_active_customer, create_order, create_draft_line, create_draft_lines, new_order, write_draft,
  create_draft_order, replace_draft_lines, rewrite_draft, update_draft,
}
use stock_pilot.Orders.DraftCommands.{
  Created, Updated, create_draft_order-IsDraftOf, update_draft-IsDraftOf,
}
use stock_pilot.Tests.Shop.{cents, two_widgets, shop, shop-IsConsistent, clerk}

create_draft_order-IsDraftOf_example :
    Ensures (Created cents clerk two_widgets shop) (create_draft_order cents clerk two_widgets shop)
create_draft_order-IsDraftOf_example =
    create_draft_order-IsDraftOf cents clerk two_widgets shop shop-IsConsistent.unique_orders

update_draft-IsDraftOf_example :
    Ensures (Updated cents clerk 50 two_widgets shop) (update_draft cents clerk 50 two_widgets shop)
update_draft-IsDraftOf_example =
    update_draft-IsDraftOf cents clerk 50 two_widgets shop shop-IsConsistent.unique_orders

returns : {A : Type 0} → Result A → Bool
returns (ok _) = true
returns (err _) = false

create_draft_order_run : returns (create_draft_order cents clerk two_widgets shop) ≡ true
unfolding returns create_draft_order require_membership find_warehouse find_active_customer
    find_active_products includes write_draft fresh_id create_order find_order create_draft_lines
    create_draft_line product_by_id for_each update_order new_order record_transition record_audit
create_draft_order_run = refl

update_draft_run : returns (update_draft cents clerk 50 two_widgets shop) ≡ true
unfolding returns update_draft require_membership lock_order find_order_in rewrite_draft
    replace_draft_lines find_active_customer find_active_products includes create_draft_lines
    create_draft_line product_by_id for_each update_order record_audit
update_draft_run = refl
