-- ===== src/Orders/DraftLaws.antt =====
-- What the commands on drafts do to the orders; stock and ledger stay.
use stock_pilot.Prelude.{ℕ, ◌≡◌, ◌≢◌, refl, ap, ◌∙◌, some, List, [], ◌∷◌, ◌++◌, arith}
use stock_pilot.Prelude.Int.{ℤ, pos, pos_part, neg_part, ◌+ℤ◌, int_laws}
use stock_pilot.Store.Rows.{Key, draft, Order, Product}
use stock_pilot.Store.Table.{pulse}
use stock_pilot.Store.Monad.{
  Store, Ensures, Ensures-bind, Ensures-map, or_throw-bind, for_each, product_not_found,
}
use stock_pilot.Inventory.Shift.{Change, plus}
use stock_pilot.Inventory.Loops.{total}
use stock_pilot.Inventory.Receipt.{product_by_id}
use stock_pilot.Orders.Transition.{line_key, find_order, update_order}
use stock_pilot.Orders.Held.{demand, holds, held, held-update_order}
use stock_pilot.Orders.Consistency.{
  IsUnique, update_order-IsUnique, find_order-update_order, find_order-update_order_ne,
}
use stock_pilot.Orders.Drafts.{
  Money, SalesOrderLineInput, add_line, draft_line, create_draft_line, create_draft_lines,
}

-- The quantities that an input asks for, at the balances of a warehouse.
abbrev pub asked : ℕ → ℕ → SalesOrderLineInput → Change
asked org warehouse l =
    pulse (record { organization = org; warehouse = warehouse; product = l.product })
      (pos l.quantity)

-- The order `id` is a draft that asks for `asks`; other orders, stock and ledger are as in `s`.
pub record IsDraftOf (id org warehouse : ℕ) (asks : Change) (s t : Store) : Type 0 where
  pub order : Order
  pub found : find_order id t.orders ≡ some order
  pub drafted : order.status ≡ draft
  pub placed : (order.organization ≡ org) × (order.warehouse ≡ warehouse)
  pub asks_for : (k : Key) → demand order k ≡ asks k
  pub others : (j : ℕ) → j ≢ id → find_order j t.orders ≡ find_order j s.orders
  pub balances_same : t.balances ≡ s.balances
  pub movements_same : t.movements ≡ s.movements
  pub held_same : (k : Key) → held t.orders k ≡ held s.orders k
  pub unique : IsUnique t.orders

pub draft-holds : (o : Order) (k : Key) → o.status ≡ draft → holds o k ≡ pos 0
unfolding holds
draft-holds o k h = rw h refl

no_hold : (a b x y : ℤ) → a +ℤ x ≡ b +ℤ y → x ≡ pos 0 → y ≡ pos 0 → a ≡ b
no_hold a b x y h p q = omega (
  int_laws,
  ap pos_part h,
  ap neg_part h,
  ap pos_part p,
  ap neg_part p,
  ap pos_part q,
  ap neg_part q,
)

pub IsDraftOf-eq :
    (id org warehouse : ℕ) (asks new : Change) (s t : Store)
    → ((k : Key) → asks k ≡ new k)
    → IsDraftOf id org warehouse asks s t
    → IsDraftOf id org warehouse new s t
IsDraftOf-eq id org warehouse asks new s t e d = record {
  order = d.order;
  found = d.found;
  drafted = d.drafted;
  placed = d.placed;
  asks_for = λ k. d.asks_for k ∙ e k;
  others = d.others;
  balances_same = d.balances_same;
  movements_same = d.movements_same;
  held_same = d.held_same;
  unique = d.unique;
}

-- A write to a draft that leaves it a draft of its warehouse.
pub rewritten-IsDraftOf :
    (id org warehouse : ℕ) (asks new : Change) (s t : Store) (change : Order → Order)
    (d : IsDraftOf id org warehouse asks s t)
    → ((o : Order) → (change o).id ≡ o.id)
    → (change d.order).status ≡ draft
    → ((change d.order).organization ≡ org) × ((change d.order).warehouse ≡ warehouse)
    → ((k : Key) → demand (change d.order) k ≡ new k)
    → IsDraftOf id org warehouse new s (record t { orders = update_order id change t.orders })
rewritten-IsDraftOf id org warehouse asks new s t change d keeps st pl ask = record {
  order = change d.order;
  found = find_order-update_order change keeps id t.orders d.order d.found;
  drafted = st;
  placed = pl;
  asks_for = ask;
  others = λ j ne. find_order-update_order_ne change keeps id j t.orders ne ∙ d.others j ne;
  balances_same = d.balances_same;
  movements_same = d.movements_same;
  held_same = λ k.
      no_hold _ _ _ _ (held-update_order id change d.order t.orders k d.found)
        (draft-holds d.order k d.drafted) (draft-holds (change d.order) k st)
      ∙ d.held_same k;
  unique = update_order-IsUnique change keeps id t.orders d.unique;
}

total-append :
    {A : Type 0} (d : A → Change) (xs : List A) (x : A) (k : Key)
    → total d (xs ++ (x ∷ [])) k ≡ total d xs k +ℤ d x k
unfolding total
total-append d [] x k = omega int_laws
total-append d (y ∷ ys) x k = ap (λ v. d y k +ℤ v) (total-append d ys x k) ∙ omega int_laws

product_by_id-id :
    (id : ℕ) (ps : List Product) (p : Product) → product_by_id id ps ≡ some p → p.id ≡ id
unfolding product_by_id
product_by_id-id id [] p h = cc
product_by_id-id id (q ∷ qs) p h = ground (arith, product_by_id-id id qs p)

-- The other columns of a store do not matter.
pub IsDraftOf-same :
    (id org warehouse : ℕ) (asks : Change) (s s' t t' : Store)
    → s'.orders ≡ s.orders
    → s'.balances ≡ s.balances
    → s'.movements ≡ s.movements
    → t'.orders ≡ t.orders
    → t'.balances ≡ t.balances
    → t'.movements ≡ t.movements
    → IsDraftOf id org warehouse asks s t
    → IsDraftOf id org warehouse asks s' t'
IsDraftOf-same id org warehouse asks s s' t t' a b c a' b' c' d = record {
  order = d.order;
  found = rw a' d.found;
  drafted = d.drafted;
  placed = d.placed;
  asks_for = d.asks_for;
  others = λ j ne. rw (a, a') (d.others j ne);
  balances_same = rw (b, b') d.balances_same;
  movements_same = rw (c, c') d.movements_same;
  held_same = λ k. rw (a, a') (d.held_same k);
  unique = rw a' d.unique;
}

pub regroup : (a b c : ℤ) → a +ℤ b +ℤ c ≡ a +ℤ (b +ℤ c)
regroup a b c = omega int_laws

module _ (money : Money) where
  pub added :
      (org warehouse : ℕ) (o : Order) (p : Product) (l : SalesOrderLineInput) (k : Key)
      → o.organization ≡ org
      → o.warehouse ≡ warehouse
      → p.id ≡ l.product
      → demand (add_line (draft_line money p l) o) k ≡ demand o k +ℤ asked org warehouse l k
  unfolding demand add_line draft_line line_key
  added org warehouse o p l k a b e =
      total-append (λ x. pulse (line_key o x) (pos x.quantity)) o.lines (draft_line money p l) k
      ∙ rw (a, b, e) refl

  pub create_draft_lines-IsDraftOf :
      (id org warehouse : ℕ) (products : List Product) (lines : List SalesOrderLineInput)
      (asks : Change) (s t : Store)
      → IsDraftOf id org warehouse asks s t
      → Ensures
          (λ _ u. IsDraftOf id org warehouse (plus asks (total (asked org warehouse) lines)) s u)
          (create_draft_lines money id products lines t)
  unfolding create_draft_lines create_draft_line for_each total add_line
  create_draft_lines-IsDraftOf id org warehouse products [] asks s t d =
      IsDraftOf-eq id org warehouse asks _ s t (λ k. omega int_laws) d
  create_draft_lines-IsDraftOf id org warehouse products (l ∷ ls) asks s t d =
      Ensures-bind (λ _ u. IsDraftOf id org warehouse (plus asks (asked org warehouse l)) s u) _ _ _
        (or_throw-bind (product_by_id l.product products) product_not_found
          (λ _ u. IsDraftOf id org warehouse (plus asks (asked org warehouse l)) s u) _ t
          (λ p e.
            rewritten-IsDraftOf id org warehouse asks _ s t (add_line (draft_line money p l)) d
              (λ o. refl) d.drafted d.placed
              (λ k.
                added org warehouse d.order p l k d.placed.0 d.placed.1
                  (product_by_id-id l.product products p e)
                ∙ ap (λ v. v +ℤ asked org warehouse l k) (d.asks_for k))))
        (λ _ u d'.
          Ensures-map _
            (λ _ v.
              IsDraftOf id org warehouse (plus asks (total (asked org warehouse) (l ∷ ls))) s v)
            _ (λ _ v w. IsDraftOf-eq id org warehouse _ _ s v (λ k. regroup _ _ _) w)
            (create_draft_lines-IsDraftOf id org warehouse products ls
              (plus asks (asked org warehouse l)) s u d'))
