-- ===== src/Orders/Drafts.antt =====
-- apps/api/src/orders/order-draft.service.ts, and `updateDraft` of orders.service.ts. Money is a
-- JavaScript number, a parameter with the operations that the code calls.
use Prim.Native.String.{String}
use stock_pilot.Prelude.{
  ℕ, ◌==◌, ◌&&◌, not, Bool, true, false, Option, none, some, List, [], ◌∷◌, ◌++◌, ⊤, map, length,
  if◌then◌else◌,
}
use stock_pilot.Store.Rows.{
  OrderStatus, draft, OrderLine, Order, Product, Customer, order_created, order_updated,
}
use stock_pilot.Store.Monad.{
  M, warehouse_not_found, customer_not_found, products_not_found, product_not_found, not_draft,
  partner_or_product_not_found, order_not_found, duplicate_key, gets, modify, pure, throw_if,
  or_throw, for_each, ◌>>=◌, ◌>>◌,
}
use stock_pilot.Auth.Context.{AuthContext, require_membership}
use stock_pilot.Inventory.Steps.{find_warehouse, fresh_id, record_audit}
use stock_pilot.Inventory.Receipt.{find_active_products, product_by_id}
use stock_pilot.Orders.Transition.{
  find_order, find_order_in, update_order, lock_order, record_transition,
}

-- `Number(text)`, `x * n`, `x + y`, `0` and `x.toFixed(2)`.
pub record Money : Type 1 where
  pub Amount : Type 0
  pub amount_of : String → Amount
  pub times : Amount → ℕ → Amount
  pub plus : Amount → Amount → Amount
  pub nothing : Amount
  pub to_fixed : Amount → String

pub record SalesOrderLineInput : Type 0 where
  pub product : ℕ
  pub quantity : ℕ

pub record SalesOrderInput : Type 0 where
  pub customer : ℕ
  pub lines : List SalesOrderLineInput
  pub note : Option String

-- `customer.findFirst({ where: { id, isActive: true, organizationId } })`
unfoldable pub find_active_customer : ℕ → ℕ → List Customer → Option Customer
find_active_customer org id [] = none
find_active_customer org id (c ∷ cs) =
    if c.organization == org && (c.is_active && (c.id == id))
    then some c
    else find_active_customer org id cs

abbrev pub product_ids : SalesOrderInput → List ℕ
product_ids input = map (λ (l : SalesOrderLineInput). l.product) input.lines

-- `salesOrder.create`: the primary key refuses an identifier that is there.
unfoldable pub create_order : Order → M ⊤
create_order o = do
  taken ← gets (λ s. find_order o.id s.orders)
  throw_if (elim taken [ none ↦ false | some _ ↦ true ]) duplicate_key
  modify (λ s. record s { orders = o ∷ s.orders })

unfoldable pub add_line : OrderLine → Order → Order
add_line line o = record o { lines = o.lines ++ (line ∷ []) }

unfoldable pub clear_lines : Order → Order
clear_lines o = record o { lines = [] }

unfoldable pub set_customer : Customer → Option String → String → Order → Order
set_customer customer note subtotal o = record o {
  customer_company_name = customer.company_name;
  customer_contact_name = customer.contact_name;
  customer_email = customer.email;
  customer = customer.id;
  note = note;
  subtotal = subtotal;
}

abbrev pub is_draft : OrderStatus → Bool
is_draft draft = true
is_draft _ = false

module _ (money : Money) where
  open money use {Amount, amount_of, times, plus, nothing, to_fixed}

  -- `Number(product?.salePrice ?? 0)`
  unfoldable pub price_of : Option Product → Amount
  price_of none = nothing
  price_of (some p) = amount_of p.sale_price

  -- The `reduce` over the lines, from the left.
  unfoldable pub subtotal_from : Amount → List Product → List SalesOrderLineInput → Amount
  subtotal_from sum products [] = sum
  subtotal_from sum products (l ∷ ls) =
      subtotal_from (plus sum (times (price_of (product_by_id l.product products)) l.quantity))
        products ls

  unfoldable pub draft_line : Product → SalesOrderLineInput → OrderLine
  draft_line product line = record {
    line_total = to_fixed (times (amount_of product.sale_price) line.quantity);
    product = product.id;
    product_name_snapshot = product.name;
    quantity = line.quantity;
    sku_snapshot = product.sku;
    unit_price = product.sale_price;
  }

  -- The body of the loop of `createDraftLines`.
  unfoldable pub create_draft_line : ℕ → List Product → SalesOrderLineInput → M ⊤
  create_draft_line order_id products line = do
    product ← or_throw (product_by_id line.product products) product_not_found
    modify (λ s. record s {
      orders = update_order order_id (add_line (draft_line product line)) s.orders;
    })

  unfoldable pub create_draft_lines : ℕ → List Product → List SalesOrderLineInput → M ⊤
  create_draft_lines order_id products lines = for_each lines (create_draft_line order_id products)

  unfoldable pub new_order : ℕ → ℕ → ℕ → ℕ → Customer → Option String → String → Order
  new_order id actor organization warehouse customer note subtotal = record {
    id = id;
    organization = organization;
    warehouse = warehouse;
    status = draft;
    lines = [];
    subtotal = subtotal;
    customer = customer.id;
    customer_company_name = customer.company_name;
    customer_contact_name = customer.contact_name;
    customer_email = customer.email;
    created_by = actor;
    note = note;
    confirmed_at = none;
    fulfilled_at = none;
    cancelled_at = none;
  }

  -- From the row of the order on.
  unfoldable pub write_draft :
      AuthContext → ℕ → ℕ → Customer → List Product → SalesOrderInput → M (ℕ × Amount)
  write_draft auth organization warehouse customer products input = do
    let subtotal = subtotal_from nothing products input.lines
    id ← fresh_id
    create_order
        (new_order id auth.user organization warehouse customer input.note (to_fixed subtotal))
    create_draft_lines id products input.lines
    record_transition (record {
      sales_order = id;
      from_status = none;
      to_status = draft;
      actor = auth.user;
      organization = organization;
    })
    record_audit (record {
      action = order_created;
      actor = auth.user;
      entity_id = id;
      organization = organization;
    })
    pure (id, subtotal)

  unfoldable pub create_draft_order : AuthContext → SalesOrderInput → M (ℕ × Amount)
  create_draft_order auth input = do
    membership ← require_membership auth
    let organization = membership.organization
    warehouse ←
        or_throw (← gets (λ s. find_warehouse organization s.warehouses)) warehouse_not_found
    customer ←
        or_throw (← gets (λ s. find_active_customer organization input.customer s.customers))
          customer_not_found
    products ← gets (λ s. find_active_products organization (product_ids input) s.products)
    throw_if (not (length products == length input.lines)) products_not_found
    write_draft auth organization warehouse.id customer products input

  unfoldable pub replace_draft_lines : ℕ → ℕ → SalesOrderInput → M (Customer × Amount)
  replace_draft_lines organization order_id input = do
    customer ←
        or_throw (← gets (λ s. find_active_customer organization input.customer s.customers))
          partner_or_product_not_found
    products ← gets (λ s. find_active_products organization (product_ids input) s.products)
    throw_if (not (length products == length input.lines)) partner_or_product_not_found
    create_draft_lines order_id products input.lines
    pure (customer, subtotal_from nothing products input.lines)

  -- From the deletion of the lines on.
  unfoldable pub rewrite_draft : AuthContext → ℕ → ℕ → SalesOrderInput → M ⊤
  rewrite_draft auth organization id input = do
    modify (λ s. record s { orders = update_order id clear_lines s.orders })
    (customer, subtotal) ← replace_draft_lines organization id input
    modify (λ s. record s {
      orders = update_order id (set_customer customer input.note (to_fixed subtotal)) s.orders;
    })
    record_audit (record {
      action = order_updated;
      actor = auth.user;
      entity_id = id;
      organization = organization;
    })

  unfoldable pub update_draft : AuthContext → ℕ → SalesOrderInput → M ⊤
  update_draft auth id input = do
    membership ← require_membership auth
    let organization = membership.organization
    lock_order organization id
    existing ← or_throw (← gets (λ s. find_order_in organization id s.orders)) order_not_found
    throw_if (not (is_draft existing.status)) not_draft
    rewrite_draft auth organization id input
