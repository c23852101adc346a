-- ===== src/Integrations/StorefrontLaws.antt =====
-- What the order of a webhook does to the store: one more draft, for the products of its SKUs.
use Prim.Native.String.{String}
use stock_pilot.Prelude.{
  ℕ, suc, ◌==◌, ◌≡◌, refl, ap, sym, ◌∙◌, not, Option, none, some, List, [], ◌∷◌, length,
}
use stock_pilot.Prelude.Int.{pos, ◌+ℤ◌, int_laws}
use stock_pilot.Store.Rows.{Product, Customer, StorefrontItem, StorefrontCustomer, StorefrontOrder}
use stock_pilot.Store.Monad.{
  Store, Ensures, Ensures-bind, Ensures-map, or_throw-bind, throw_if-bind, for_each,
  warehouse_not_found, duplicate_skus, unknown_skus,
}
use stock_pilot.Inventory.Shift.{Change, still, plus}
use stock_pilot.Inventory.Loops.{total}
use stock_pilot.Inventory.Steps.{find_warehouse, fresh_id, record_audit}
use stock_pilot.Orders.Transition.{find_order, record_transition}
use stock_pilot.Orders.Consistency.{IsUnique}
use stock_pilot.Orders.Drafts.{Money, SalesOrderLineInput, add_line, draft_line, new_order}
use stock_pilot.Orders.DraftLaws.{asked, rewritten-IsDraftOf, added, regroup}
use stock_pilot.Integrations.StorefrontDraft.{
  has_duplicates, find_products_by_sku, product_by_sku, existing_customer, or_create_customer,
  skus_of, create_storefront_line, write_storefront_order, create_storefront_draft_order,
}
use stock_pilot.Integrations.NewDrafts.{
  Drafts, update_order-length, Drafts-eq, Drafts-same, create_order-Drafts,
}

-- The quantity of an item, at the balance of the product.
pub asked_product : ℕ → ℕ → ℕ → Option Product → Change
asked_product org warehouse quantity none k = pos 0
asked_product org warehouse quantity (some p) k =
    asked org warehouse (record { product = p.id; quantity = quantity }) k

module _ (money : Money) (to_upper : String → String) where
  -- What an item of a webhook asks for: the product that its SKU names.
  abbrev pub asked_item : ℕ → ℕ → List Product → StorefrontItem → Change
  asked_item org warehouse products i =
      asked_product org warehouse i.quantity (product_by_sku (to_upper i.sku) products)

  create_storefront_line-Drafts :
      (id org warehouse : ℕ) (products : List Product) (i : StorefrontItem) (asks : Change)
      (s t : Store)
      → Drafts id org warehouse asks s t
      → Ensures
          (λ _ u. Drafts id org warehouse (plus asks (asked_item org warehouse products i)) s u)
          (create_storefront_line money to_upper id products i t)
  unfolding create_storefront_line add_line asked_product
  create_storefront_line-Drafts id org warehouse products i asks s t d =
      or_throw-bind (product_by_sku (to_upper i.sku) products) unknown_skus
        (λ _ u. Drafts id org warehouse (plus asks (asked_item org warehouse products i)) s u) _ t
        (λ p e.
          let l : SalesOrderLineInput = record { product = p.id; quantity = i.quantity } in
          record {
            drafts =
                rewritten-IsDraftOf id org warehouse asks _ s t (add_line (draft_line money p l))
                  d.drafts (λ o. refl) d.drafts.drafted d.drafts.placed
                  (λ k.
                    added money org warehouse d.drafts.order p l k d.drafts.placed.0
                      d.drafts.placed.1 refl
                    ∙ ap (λ v. v +ℤ asked org warehouse l k) (d.drafts.asks_for k)
                    ∙ ap (λ q. asks k +ℤ asked_product org warehouse i.quantity q k) (sym e));
            one_more = update_order-length id _ t.orders ∙ d.one_more;
            deliveries_same = d.deliveries_same;
          })

  lines-Drafts :
      (id org warehouse : ℕ) (products : List Product) (is : List StorefrontItem) (asks : Change)
      (s t : Store)
      → Drafts id org warehouse asks s t
      → Ensures
          (λ _ u.
            Drafts id org warehouse (plus asks (total (asked_item org warehouse products) is)) s u)
          (for_each is (create_storefront_line money to_upper id products) t)
  unfolding for_each total
  lines-Drafts id org warehouse products [] asks s t d =
      Drafts-eq id org warehouse asks _ s t (λ k. omega int_laws) d
  lines-Drafts id org warehouse products (i ∷ is) asks s t d =
      Ensures-bind
        (λ _ u. Drafts id org warehouse (plus asks (asked_item org warehouse products i)) s u) _ _ _
        (create_storefront_line-Drafts id org warehouse products i asks s t d)
        (λ _ u d'.
          Ensures-map _
            (λ _ v.
              Drafts id org warehouse
                (plus asks (total (asked_item org warehouse products) (i ∷ is))) s v)
            _ (λ _ v w. Drafts-eq id org warehouse _ _ s v (λ k. regroup _ _ _) w)
            (lines-Drafts id org warehouse products is
              (plus asks (asked_item org warehouse products i)) s u d'))

  -- What a webhook's order that is written does: a new draft for the organization.
  abbrev pub Ordered : ℕ → StorefrontOrder → Store → ℕ → Store → Type 0
  Ordered org payload s id t =
      (warehouse : ℕ) × (find_order id s.orders ≡ none)
      × Drafts id org warehouse
          (total
            (asked_item org warehouse
              (find_products_by_sku org (skus_of money to_upper payload) s.products))
            payload.items)
          s t

  write_storefront_order-Drafts :
      (org actor warehouse : ℕ) (customer : Customer) (products : List Product)
      (payload : StorefrontOrder) (s : Store)
      → IsUnique s.orders
      → Ensures
          (λ id t.
            (find_order id s.orders ≡ none)
            × Drafts id org warehouse (total (asked_item org warehouse products) payload.items) s t)
          (write_storefront_order money to_upper org actor warehouse customer products payload s)
  unfolding write_storefront_order fresh_id new_order record_transition record_audit
  write_storefront_order-Drafts org actor warehouse customer products payload s u =
      let s' : Store = record s { next_id = suc s.next_id } in
      let sum = total (asked_item org warehouse products) payload.items in
      Ensures-bind
        (λ _ t. (find_order s.next_id s.orders ≡ none) × Drafts s.next_id org warehouse still s' t)
        Q _ _ (create_order-Drafts _ s' refl refl u)
        λ _ t (new, d).
          Ensures-bind (λ _ v. Drafts s.next_id org warehouse (plus still sum) s' v) Q _ _
            (lines-Drafts s.next_id org warehouse products payload.items still s' t d)
            λ _ v w. (
              new,
              Drafts-same s.next_id org warehouse sum s' s v _ refl refl refl refl refl refl refl
                  refl
                  (Drafts-eq s.next_id org warehouse (plus still sum) sum s' v (λ k. omega int_laws)
                    w),
            )
    where
      Q : ℕ → Store → Type 0
      Q id t =
          (find_order id s.orders ≡ none)
          × Drafts id org warehouse (total (asked_item org warehouse products) payload.items) s t

  abbrev Same : Store → Customer → Store → Type 0
  Same s c t =
      (t.orders ≡ s.orders)
      × (t.balances ≡ s.balances)
      × (t.movements ≡ s.movements)
      × (t.deliveries ≡ s.deliveries)

  -- The customer of the order does not matter to the rest.
  or_create_customer-Same :
      (org : ℕ) (input : StorefrontCustomer) (o : Option Customer) (s : Store)
      → Ensures (Same s) (or_create_customer org input o s)
  unfolding or_create_customer fresh_id
  or_create_customer-Same org input (some c) s = (refl, refl, refl, refl)
  or_create_customer-Same org input none s = (refl, refl, refl, refl)

  -- An order of a webhook that is written, where the identifiers of the orders are unique: the
  -- orders have one more, under an identifier that none had, and it is a draft of the organization
  -- that asks for the quantities of the items, each for the active product that its SKU in capitals
  -- names; the other orders, the stock, the ledger and the deliveries stay.
  pub create_storefront_draft_order-Ordered :
      (org actor : ℕ) (payload : StorefrontOrder) (s : Store)
      → IsUnique s.orders
      → Ensures
          (Ordered org payload s)
          (create_storefront_draft_order money to_upper org actor payload s)
  unfolding create_storefront_draft_order
  create_storefront_draft_order-Ordered org actor payload s u =
      let skus = skus_of money to_upper payload in
      let products = find_products_by_sku org skus s.products in
      or_throw-bind (find_warehouse org s.warehouses) warehouse_not_found Q _ s λ w _.
        throw_if-bind (has_duplicates skus) duplicate_skus Q _ s λ _.
          throw_if-bind (not (length products == length skus)) unknown_skus Q _ s λ _.
            Ensures-bind (Same s) Q _ _
              (or_create_customer-Same org payload.customer
                (existing_customer org payload.customer.email s.customers) s)
              λ c t (a, b, m, x).
                Ensures-map _ Q _
                  (λ id v (new, d). (
                    w.id,
                    rw (sym a) new,
                    Drafts-same id org w.id _ t s v v (sym a) (sym b) (sym m) (sym x) refl refl refl
                        refl d,
                  ))
                  (write_storefront_order-Drafts org actor w.id c products payload t (rw a u))
    where
      Q : ℕ → Store → Type 0
      Q = Ordered org payload s
