-- ===== src/Orders/DraftCommands.antt =====
-- Creating a draft, and rewriting one.
use stock_pilot.Prelude.{
  ℕ, suc, ⊤, ◌≡◌, refl, ap, sym, ◌∙◌, false, not, none, some, List, [], ◌∷◌, arith, length, ◌==◌,
  Option-cases, inl, inr,
}
use stock_pilot.Prelude.Int.{◌+ℤ◌, int_laws}
use stock_pilot.Store.Rows.{
  OrderStatus, draft, confirmed, fulfilled, cancelled, Order, Product, Customer, Warehouse,
}
use stock_pilot.Store.Monad.{
  Store, Ensures, Ensures-bind, Ensures-map, or_throw-bind, throw_if-bind, membership_required,
  warehouse_not_found, customer_not_found, products_not_found, partner_or_product_not_found,
  not_draft, order_not_found,
}
use stock_pilot.Auth.Context.{AuthContext, MembershipContext, require_membership}
use stock_pilot.Inventory.Shift.{Change, still, plus}
use stock_pilot.Inventory.Loops.{total}
use stock_pilot.Inventory.Steps.{find_warehouse, fresh_id, record_audit}
use stock_pilot.Inventory.Receipt.{find_active_products}
use stock_pilot.Orders.Transition.{
  line_key, find_order, find_order_in, update_order, lock_order, record_transition,
}
use stock_pilot.Orders.Held.{demand, held}
use stock_pilot.Orders.Consistency.{IsUnique, IsConsistent, find_order_in-find_order}
use stock_pilot.Orders.Drafts.{
  Money, SalesOrderInput, product_ids, find_active_customer, create_order, new_order, write_draft,
  create_draft_order, clear_lines, set_customer, is_draft, replace_draft_lines, rewrite_draft,
  update_draft,
}
use stock_pilot.Orders.DraftLaws.{
  asked, IsDraftOf, IsDraftOf-same, IsDraftOf-eq, draft-holds, rewritten-IsDraftOf,
  create_draft_lines-IsDraftOf,
}

-- The new row, with no line yet.
created :
    (o : Order) (s t : Store)
    → o.status ≡ draft
    → o.lines ≡ []
    → find_order o.id s.orders ≡ none
    → IsUnique s.orders
    → t.orders ≡ o ∷ s.orders
    → t.balances ≡ s.balances
    → t.movements ≡ s.movements
    → IsDraftOf o.id o.organization o.warehouse still s t
unfolding find_order held demand
created o s t d l new u e b m = record {
  order = o;
  found = rw e (ground arith);
  drafted = d;
  placed = (refl, refl);
  asks_for = λ k. rw l refl;
  others = λ j ne. rw e (ground arith);
  balances_same = b;
  movements_same = m;
  held_same = λ k. rw e (ap (λ v. v +ℤ held s.orders k) (draft-holds o k d) ∙ omega int_laws);
  unique = rw e (new, u);
}

pub create_order-created :
    (o : Order) (s : Store)
    → o.status ≡ draft
    → o.lines ≡ []
    → IsUnique s.orders
    → Ensures
        (λ _ t.
          (find_order o.id s.orders ≡ none) × IsDraftOf o.id o.organization o.warehouse still s t)
        (create_order o s)
unfolding create_order
create_order-created o s d l u = elim (Option-cases (find_order o.id s.orders)) [
  | inr (x, e) ↦ rw e tt
  | inl e ↦ rw e (refl, created o s _ d l e u refl refl refl)
]

-- Stock, ledger and what orders hold are as before.
pub IsDraftOf-IsConsistent :
    (id org warehouse : ℕ) (asks : Change) (s t : Store)
    → IsConsistent s
    → IsDraftOf id org warehouse asks s t
    → IsConsistent t
IsDraftOf-IsConsistent id org warehouse asks s t c d = record {
  ledgered = λ k. rw (d.balances_same, d.movements_same) (c.ledgered k);
  held_by_orders = λ k. rw d.balances_same (c.held_by_orders k ∙ sym (d.held_same k));
  covered = λ k. rw d.balances_same (c.covered k);
  unique_orders = d.unique;
}

as_it_is :
    (id : ℕ) (s : Store) (o : Order)
    → find_order id s.orders ≡ some o
    → o.status ≡ draft
    → IsUnique s.orders
    → IsDraftOf id o.organization o.warehouse (demand o) s s
as_it_is id s o found d u = record {
  order = o;
  found = found;
  drafted = d;
  placed = (refl, refl);
  asks_for = λ k. refl;
  others = λ j ne. refl;
  balances_same = refl;
  movements_same = refl;
  held_same = λ k. refl;
  unique = u;
}

is_draft-draft : (x : OrderStatus) → not (is_draft x) ≡ false → x ≡ draft
is_draft-draft draft h = refl
is_draft-draft confirmed h = cc
is_draft-draft fulfilled h = cc
is_draft-draft cancelled h = cc

module _ (money : Money) where
  open money use {Amount, nothing, to_fixed}

  write_draft-IsDraftOf :
      (auth : AuthContext) (org warehouse : ℕ) (customer : Customer) (products : List Product)
      (input : SalesOrderInput) (s : Store)
      → IsUnique s.orders
      → Ensures
          (λ res t.
            (find_order res.0 s.orders ≡ none)
            × IsDraftOf res.0 org warehouse (total (asked org warehouse) input.lines) s t)
          (write_draft money auth org warehouse customer products input s)
  unfolding write_draft fresh_id new_order record_transition record_audit
  write_draft-IsDraftOf auth org warehouse customer products input s u =
      let s' : Store = record s { next_id = suc s.next_id } in
      let sum = total (asked org warehouse) input.lines in
      Ensures-bind
        (λ _ t.
          (find_order s.next_id s.orders ≡ none) × IsDraftOf s.next_id org warehouse still s' t)
        Q _ _ (create_order-created _ s' refl refl u)
        λ _ t (new, d).
          Ensures-bind (λ _ v. IsDraftOf s.next_id org warehouse (plus still sum) s' v) Q _ _
            (create_draft_lines-IsDraftOf money s.next_id org warehouse products input.lines still
              s' t d)
            λ _ v w. (
              new,
              IsDraftOf-same s.next_id org warehouse sum s' s v _ refl refl refl refl refl refl (
                  IsDraftOf-eq s.next_id org warehouse (plus still sum) sum s' v
                    (λ k. omega int_laws) w),
            )
    where
      Q : ℕ × Amount → Store → Type 0
      Q res t =
          (find_order res.0 s.orders ≡ none)
          × IsDraftOf res.0 org warehouse (total (asked org warehouse) input.lines) s t

  replace_draft_lines-IsDraftOf :
      (org id o_org warehouse : ℕ) (input : SalesOrderInput) (s t : Store)
      → IsDraftOf id o_org warehouse still s t
      → Ensures
          (λ _ v. IsDraftOf id o_org warehouse (total (asked o_org warehouse) input.lines) s v)
          (replace_draft_lines money org id input t)
  unfolding replace_draft_lines
  replace_draft_lines-IsDraftOf org id o_org warehouse input s t d =
      let sum = total (asked o_org warehouse) input.lines in
      let Q : Customer × Amount → Store → Type 0 = λ _ v. IsDraftOf id o_org warehouse sum s v in
      or_throw-bind (find_active_customer org input.customer t.customers)
        partner_or_product_not_found Q _ t
        λ c _.
          throw_if-bind
            (not (
              length (find_active_products org (product_ids input) t.products)
              == length input.lines))
            partner_or_product_not_found Q _ t
            λ _.
              Ensures-bind (λ _ v. IsDraftOf id o_org warehouse (plus still sum) s v) Q _ _
                (create_draft_lines-IsDraftOf money id o_org warehouse _ input.lines still s t d)
                λ _ v w.
                  IsDraftOf-eq id o_org warehouse (plus still sum) sum s v (λ k. omega int_laws) w

  rewrite_draft-IsDraftOf :
      (auth : AuthContext) (org id : ℕ) (input : SalesOrderInput) (s : Store) (o : Order)
      → find_order id s.orders ≡ some o
      → o.status ≡ draft
      → IsUnique s.orders
      → Ensures
          (λ _ t.
            IsDraftOf id o.organization o.warehouse
              (total (asked o.organization o.warehouse) input.lines)
              s
              t)
          (rewrite_draft money auth org id input s)
  unfolding rewrite_draft clear_lines set_customer demand record_audit as_it_is line_key
  rewrite_draft-IsDraftOf auth org id input s o found d u =
      let sum = total (asked o.organization o.warehouse) input.lines in
      let s' : Store = record s { orders = update_order id clear_lines s.orders } in
      let Q : ⊤ → Store → Type 0 = λ _ t. IsDraftOf id o.organization o.warehouse sum s t in
      Ensures-bind (λ _ t. IsDraftOf id o.organization o.warehouse sum s t) Q _ _
        (replace_draft_lines-IsDraftOf org id o.organization o.warehouse input s s' (
          rewritten-IsDraftOf id o.organization o.warehouse (demand o) still s s clear_lines
            (as_it_is id s o found d u) (λ x. refl) d (refl, refl) (λ k. refl)))
        λ (c, x) t w.
          IsDraftOf-same id o.organization o.warehouse sum s s _ _ refl refl refl refl refl refl (
            rewritten-IsDraftOf id o.organization o.warehouse sum sum s t
              (set_customer c input.note (to_fixed x)) w (λ x. refl) w.drafted w.placed w.asks_for)

  abbrev pub Created : AuthContext → SalesOrderInput → Store → ℕ × Amount → Store → Type 0
  Created auth input s res t =
      (m : MembershipContext) × (w : Warehouse) × (auth.membership ≡ some m)
      × (find_warehouse m.organization s.warehouses ≡ some w)
      × (find_order res.0 s.orders ≡ none)
      × IsDraftOf res.0 m.organization w.id (total (asked m.organization w.id) input.lines) s t

  abbrev pub Updated : AuthContext → ℕ → SalesOrderInput → Store → ⊤ → Store → Type 0
  Updated auth id input s res t =
      (o : Order) × (find_order id s.orders ≡ some o)
      × (o.status ≡ draft)
      × IsDraftOf id o.organization o.warehouse
          (total (asked o.organization o.warehouse) input.lines) s t

  -- A draft that is created is a new order of the caller's workspace and its warehouse, which asks
  -- for exactly the quantities of the input. No other order changes, nor any balance or movement.
  pub create_draft_order-IsDraftOf :
      (auth : AuthContext) (input : SalesOrderInput) (s : Store)
      → IsUnique s.orders
      → Ensures (Created auth input s) (create_draft_order money auth input s)
  unfolding create_draft_order require_membership
  create_draft_order-IsDraftOf auth input s u =
      or_throw-bind auth.membership membership_required (Created auth input s) _ s λ m e.
        or_throw-bind (find_warehouse m.organization s.warehouses) warehouse_not_found
          (Created auth input s) _ s
          λ w f.
            or_throw-bind (find_active_customer m.organization input.customer s.customers)
              customer_not_found (Created auth input s) _ s
              λ c _.
                throw_if-bind
                  (not (
                    length (find_active_products m.organization (product_ids input) s.products)
                    == length input.lines))
                  products_not_found (Created auth input s) _ s
                  λ _.
                    Ensures-map
                      (λ res t.
                        (find_order res.0 s.orders ≡ none)
                        × IsDraftOf res.0 m.organization w.id
                            (total (asked m.organization w.id) input.lines) s t)
                      (Created auth input s) _ (λ _ _ (n, d). (m, w, e, f, n, d))
                      (write_draft-IsDraftOf auth m.organization w.id c _ input s u)

  -- A draft that is rewritten asks for exactly the quantities of the input, and no longer for what
  -- it asked before. No other order changes, nor any balance or movement.
  pub update_draft-IsDraftOf :
      (auth : AuthContext) (id : ℕ) (input : SalesOrderInput) (s : Store)
      → IsUnique s.orders
      → Ensures (Updated auth id input s) (update_draft money auth id input s)
  unfolding update_draft require_membership lock_order
  update_draft-IsDraftOf auth id input s u =
      or_throw-bind auth.membership membership_required (Updated auth id input s) _ s λ m e.
        or_throw-bind (find_order_in m.organization id s.orders) order_not_found
          (Updated auth id input s) _ s
          λ _ _.
            or_throw-bind (find_order_in m.organization id s.orders) order_not_found
              (Updated auth id input s) _ s
              λ o f.
                throw_if-bind (not (is_draft o.status)) not_draft (Updated auth id input s) _ s λ g.
                  let found = find_order_in-find_order m.organization id s.orders o u f in
                  let d : o.status ≡ draft = is_draft-draft o.status g in
                  Ensures-map
                    (λ _ t.
                      IsDraftOf id o.organization o.warehouse
                        (total (asked o.organization o.warehouse) input.lines) s t)
                    (Updated auth id input s) _ (λ _ _ w. (o, found, d, w))
                    (rewrite_draft-IsDraftOf auth m.organization id input s o found d u)
