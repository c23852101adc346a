-- ===== src/Integrations/StorefrontDraft.antt =====
-- apps/api/src/integrations/storefront-order-draft.ts. `to_upper` is `toUpperCase`.
use Prim.Native.String.{String}
use text.Mathlib.Text.{◌==◌ as str_eq}
use stock_pilot.Prelude.{
  ℕ, ◌==◌, ◌&&◌, ◌||◌, not, Bool, true, false, Option, none, some, List, [], ◌∷◌, ⊤, map, length,
  if◌then◌else◌,
}
use stock_pilot.Store.Rows.{
  draft, Product, Customer, StorefrontItem, StorefrontCustomer, StorefrontOrder,
  order_created_from_integration,
}
use stock_pilot.Store.Monad.{
  M, warehouse_not_found, duplicate_skus, unknown_skus, gets, modify, pure, throw_if, or_throw,
  for_each, ◌>>=◌, ◌>>◌,
}
use stock_pilot.Inventory.Steps.{find_warehouse, fresh_id, record_audit}
use stock_pilot.Orders.Transition.{update_order, record_transition}
use stock_pilot.Orders.Drafts.{Money, create_order, add_line, draft_line, new_order, price_of}

unfoldable pub includes_text : String → List String → Bool
includes_text x [] = false
includes_text x (y ∷ ys) = str_eq x y || includes_text x ys

-- `new Set(skus).size !== skus.length`
unfoldable pub has_duplicates : List String → Bool
has_duplicates [] = false
has_duplicates (x ∷ xs) = includes_text x xs || has_duplicates xs

-- `product.findMany({ where: { isActive: true, organizationId, sku: { in: skus } } })`
unfoldable pub find_products_by_sku : ℕ → List String → List Product → List Product
find_products_by_sku org skus [] = []
find_products_by_sku org skus (p ∷ ps) =
    let rest = find_products_by_sku org skus ps in
    if p.is_active && (p.organization == org && includes_text p.sku skus) then p ∷ rest else rest

-- `productsBySku.get`: the last product of a SKU stands in the map.
unfoldable pub product_by_sku : String → List Product → Option Product
product_by_sku sku [] = none
product_by_sku sku (p ∷ ps) = elim (product_by_sku sku ps) [
  | some q ↦ some q
  | none ↦ if str_eq p.sku sku then some p else none
]

unfoldable pub has_email : String → Customer → Bool
has_email email c = elim c.email [ none ↦ false | some e ↦ str_eq e email ]

-- `customer.findFirst({ where: { email, isActive: true, organizationId } })`
unfoldable pub find_customer_by_email : ℕ → String → List Customer → Option Customer
find_customer_by_email org email [] = none
find_customer_by_email org email (c ∷ cs) =
    if has_email email c && (c.is_active && (c.organization == org))
    then some c
    else find_customer_by_email org email cs

-- `payload.customer.email ? … : null`
unfoldable pub existing_customer : ℕ → Option String → List Customer → Option Customer
existing_customer org none cs = none
existing_customer org (some email) cs =
    if str_eq email "" then none else find_customer_by_email org email cs

-- `existingCustomer ?? (await transaction.customer.create(…))`
unfoldable pub or_create_customer : ℕ → StorefrontCustomer → Option Customer → M Customer
or_create_customer org input (some c) = pure c
or_create_customer org input none = do
  id ← fresh_id
  let customer : Customer = record {
    id = id;
    organization = org;
    is_active = true;
    company_name = input.company_name;
    contact_name = input.contact_name;
    email = input.email;
    phone = input.phone;
  }
  modify (λ s. record s { customers = customer ∷ s.customers })
  pure customer

module _ (money : Money) (to_upper : String → String) where
  open money use {Amount, times, plus, nothing, to_fixed}

  abbrev pub skus_of : StorefrontOrder → List String
  skus_of payload = map (λ (i : StorefrontItem). to_upper i.sku) payload.items

  -- The `reduce` over the items, from the left.
  unfoldable pub items_subtotal_from : Amount → List Product → List StorefrontItem → Amount
  items_subtotal_from sum products [] = sum
  items_subtotal_from sum products (i ∷ is) =
      items_subtotal_from
        (plus sum (times (price_of money (product_by_sku (to_upper i.sku) products)) i.quantity))
        products is

  -- The body of the loop over the items.
  unfoldable pub create_storefront_line : ℕ → List Product → StorefrontItem → M ⊤
  create_storefront_line order_id products item = do
    product ← or_throw (product_by_sku (to_upper item.sku) products) unknown_skus
    modify (λ s. record s {
      orders =
          update_order order_id
            (add_line (
              draft_line money product (record { product = product.id; quantity = item.quantity })))
            s.orders;
    })

  -- From the row of the order on; the answer is the order's identifier.
  unfoldable pub write_storefront_order :
      ℕ → ℕ → ℕ → Customer → List Product → StorefrontOrder → M ℕ
  write_storefront_order org actor warehouse customer products payload = do
    let subtotal = items_subtotal_from nothing products payload.items
    id ← fresh_id
    create_order (new_order money id actor org warehouse customer payload.note (to_fixed subtotal))
    for_each payload.items (create_storefront_line id products)
    record_transition (record {
      sales_order = id;
      from_status = none;
      to_status = draft;
      actor = actor;
      organization = org;
    })
    record_audit (record {
      action = order_created_from_integration;
      actor = actor;
      entity_id = id;
      organization = org;
    })
    pure id

  unfoldable pub create_storefront_draft_order : ℕ → ℕ → StorefrontOrder → M ℕ
  create_storefront_draft_order org actor payload = do
    warehouse ← or_throw (← gets (λ s. find_warehouse org s.warehouses)) warehouse_not_found
    throw_if (has_duplicates (skus_of payload)) duplicate_skus
    products ← gets (λ s. find_products_by_sku org (skus_of payload) s.products)
    throw_if (not (length products == length (skus_of payload))) unknown_skus
    existing ← gets (λ s. existing_customer org payload.customer.email s.customers)
    customer ← or_create_customer org payload.customer existing
    write_storefront_order org actor warehouse.id customer products payload
