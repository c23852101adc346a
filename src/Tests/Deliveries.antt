-- ===== src/Tests/Deliveries.antt =====
-- Orders of a storefront in the shop.
use Prim.Native.String.{String}
use text.Mathlib.Text.{◌==◌ as str_eq}
use stock_pilot.Prelude.{
  ℕ, Bool, true, false, ◌≤◌, ◌≡◌, refl, arith, some, none, Option, List, [], ◌∷◌, count, find_first,
  update_where, if◌then◌else◌,
}
use stock_pilot.Store.Rows.{Delivery, DeliveryStatus, succeeded, failed, StorefrontOrder}
use stock_pilot.Store.Monad.{Store, Result, ok, err, Error, Ensures, Achieves, for_each}
use stock_pilot.Idempotency.{Json, null, string}
use stock_pilot.Orders.Consistency.{IsConsistent}
use stock_pilot.Inventory.Steps.{find_warehouse, fresh_id, record_audit}
use stock_pilot.Orders.Transition.{find_order, update_order, record_transition}
use stock_pilot.Orders.Drafts.{create_order, new_order}
use stock_pilot.Integrations.StorefrontDraft.{
  includes_text, has_duplicates, find_products_by_sku, product_by_sku, existing_customer,
  or_create_customer, create_storefront_line, write_storefront_order, create_storefront_draft_order,
}
use stock_pilot.Integrations.StorefrontLaws.{Ordered, create_storefront_draft_order-Ordered}
use stock_pilot.Integrations.Delivery.{
  max_automatic_delivery_attempts, DeliveryResult, update_delivery, find_delivery_in, is_succeeded,
  reached, try_or, mark_failed, retry_work, start_attempt, retry_found, retry_delivery_transaction,
}
use stock_pilot.Integrations.Steps.{attempts_of, view, view_row, state_of_row, done, IsKeyed}
use stock_pilot.Integrations.Outcomes.{Retried, retry_delivery_transaction-Retried}
use stock_pilot.Integrations.Moves.{IsConsistent-same}
use stock_pilot.Integrations.External.{DeliveryEvent, arrived, retried, queued, deliver_all}
use stock_pilot.Integrations.Reaches.{Delivered, is_automatic, all_automatic}
use stock_pilot.Integrations.Sequences.{
  deliver_all-Delivered, deliver_all-done, deliver_all-attempts_of,
}
use stock_pilot.Tests.Shop.{cents, shop, shop-IsConsistent, clerk}

abbrev capitals : String → String
capitals t = if str_eq t "w-1" then "W-1" else t

abbrev as_stored : StorefrontOrder → Option StorefrontOrder
as_stored order = some order

abbrev text_of : Error → String
text_of e = "error"

abbrev two_by_web : StorefrontOrder
two_by_web = record {
  customer = record { company_name = "Web"; contact_name = none; email = none; phone = none };
  event_type = "order.created";
  external_order = "77";
  items = record { quantity = 2; sku = "w-1" } ∷ [];
  note = none;
}

-- A delivery whose first attempt failed.
abbrev tried : Delivery
tried = record {
  id = 60;
  organization = 1;
  external_delivery = "d-60";
  event_type = "order.created";
  payload = two_by_web;
  status = failed;
  attempts = 1;
  last_error = some "error";
  sales_order = none;
  processed_at = none;
}

abbrev with_delivery : Delivery → Store
with_delivery d = record shop { deliveries = d ∷ [] }

with_delivery-IsConsistent : (d : Delivery) → IsConsistent (with_delivery d)
with_delivery-IsConsistent d = IsConsistent-same shop _ refl refl refl shop-IsConsistent

with_delivery-IsKeyed : (d : Delivery) → IsKeyed (with_delivery d).deliveries
unfolding count
with_delivery-IsKeyed d id = ground arith

create_storefront_draft_order-Ordered_example :
    Ensures
      (Ordered cents capitals 1 two_by_web shop)
      (create_storefront_draft_order cents capitals 1 3 two_by_web shop)
create_storefront_draft_order-Ordered_example =
    create_storefront_draft_order-Ordered cents capitals 1 3 two_by_web shop
      shop-IsConsistent.unique_orders

here_it_is : find_delivery_in 1 60 (with_delivery tried).deliveries ≡ some tried
unfolding find_delivery_in find_first
here_it_is = refl

retry_delivery_transaction-Retried_example :
    Achieves
      (Retried cents capitals as_stored text_of 9 1 3 60 (some 7) tried (with_delivery tried))
      (retry_delivery_transaction cents capitals as_stored text_of 9 1 3 60
        (some 7)
        (with_delivery tried))
retry_delivery_transaction-Retried_example =
    retry_delivery_transaction-Retried cents capitals as_stored text_of 9 1 3 60 (some 7) tried
      two_by_web (with_delivery tried) (with_delivery-IsConsistent tried).unique_orders
      (with_delivery-IsKeyed tried) here_it_is refl

abbrev calls : List (ℕ × ℕ × DeliveryEvent)
calls =
    (5, 6, arrived 1 3 "d-61" two_by_web)
    ∷ (7, 8, queued 1 3 60)
    ∷ (9, 10, retried clerk 60 "again")
    ∷ (11, 12, arrived 1 3 "d-61" two_by_web)
    ∷ []

abbrev any_order : String → String → Bool
any_order a b = true

abbrev print : Json → String
print j = "json"

abbrev same : String → String
same t = t

abbrev as_null : StorefrontOrder → Json
as_null order = null

abbrev id_text : ℕ → Json
id_text id = string "id"

abbrev written : DeliveryResult → String
written r = "answer"

abbrev read : String → DeliveryResult
read t = record { duplicate = false; order = none; error = none; status = succeeded }

deliver_all-Delivered_example : Delivered (with_delivery tried) (
    deliver_all cents capitals as_stored text_of any_order print same as_null id_text written read
      calls
      (with_delivery tried))
deliver_all-Delivered_example =
    deliver_all-Delivered cents capitals as_stored text_of any_order print same as_null id_text
      written read calls (with_delivery tried) (with_delivery-IsConsistent tried)
      (with_delivery-IsKeyed tried)

-- A delivery that succeeded with the order 50.
abbrev settled : Delivery
settled = record tried { status = succeeded; sales_order = some 50; last_error = none }

deliver_all-done_example :
    view 60 (
      deliver_all cents capitals as_stored text_of any_order print same as_null id_text written read
        calls
        (with_delivery settled))
    ≡ done 1 (some 50)
unfolding view_row state_of_row is_succeeded find_first
deliver_all-done_example =
    deliver_all-done cents capitals as_stored text_of any_order print same as_null id_text written
      read calls (with_delivery settled) 60 1 (some 50) (with_delivery-IsConsistent settled)
      (with_delivery-IsKeyed settled) refl

abbrev automatic_calls : List (ℕ × ℕ × DeliveryEvent)
automatic_calls =
    (5, 6, arrived 1 3 "d-61" two_by_web) ∷ (7, 8, queued 1 3 60) ∷ (9, 10, queued 1 3 60) ∷ []

deliver_all-attempts_of_example :
    attempts_of (
      view 60 (
        deliver_all cents capitals as_stored text_of any_order print same as_null id_text written
          read automatic_calls
          (with_delivery tried)))
    ≤ max_automatic_delivery_attempts
unfolding view_row state_of_row is_succeeded find_first attempts_of is_automatic all_automatic
deliver_all-attempts_of_example =
    deliver_all-attempts_of cents capitals as_stored text_of any_order print same as_null id_text
      written read automatic_calls (with_delivery tried) 60 refl (with_delivery-IsConsistent tried)
      (with_delivery-IsKeyed tried) (omega arith)

status_of : Result (DeliveryResult × Store) → Option DeliveryStatus
status_of (ok (r, s)) = some r.status
status_of (err e) = none

retry_run :
    status_of (
      retry_delivery_transaction cents capitals as_stored text_of 9 1 3 60
        (some 7)
        (with_delivery tried))
    ≡ some succeeded
unfolding status_of retry_delivery_transaction find_delivery_in retry_found is_succeeded reached
    start_attempt update_delivery try_or retry_work create_storefront_draft_order find_warehouse
    includes_text has_duplicates find_products_by_sku existing_customer or_create_customer fresh_id
    write_storefront_order create_order new_order create_storefront_line product_by_sku for_each
    update_order find_order record_transition record_audit find_first update_where
retry_run = refl

unknown_sku_run :
    status_of (
      retry_delivery_transaction cents same as_stored text_of 9 1 3 60
        (some 7)
        (with_delivery tried))
    ≡ some failed
unfolding status_of retry_delivery_transaction find_delivery_in retry_found is_succeeded reached
    start_attempt update_delivery try_or retry_work create_storefront_draft_order find_warehouse
    includes_text has_duplicates find_products_by_sku mark_failed find_first update_where
unknown_sku_run = refl
