-- ===== src/Orders/LineProgress.antt =====
-- A round of the loop over the lines returns where the balance has room for it.
use stock_pilot.Prelude.{
  ℕ, ◌≡◌, refl, Bool-cases, inl, inr, ◌∙◌, true, false, not, ◌&&◌, some, none, arith,
}
use stock_pilot.Prelude.Int.{ℤ, pos, ◌+ℤ◌, ◌-ℤ◌, ◌≤ℤ◌, ltb_ℤ, int_laws}
use stock_pilot.Store.Rows.{Key, key_eq, Balance, OrderLine, Order, Product}
use stock_pilot.Store.Table.{Table, find, put, find-put}
use stock_pilot.Store.Monad.{
  Store, ok, Achieves, Achieves-bind, returned-bind, found-bind, unguarded-bind, record_not_found,
  numeric_overflow, insufficient_stock,
}
use stock_pilot.Inventory.Projection.{InventoryProjection}
use stock_pilot.Inventory.Bounds.{IsBalance, project_inventory_iff}
use stock_pilot.Inventory.Reconciliation.{reconcile_balance}
use stock_pilot.Inventory.Locks.{fits_int4, update_balance}
use stock_pilot.Inventory.Steps.{state_of, create_movement}
use stock_pilot.Inventory.Shift.{Covers}
use stock_pilot.Inventory.Outcome.{projected-bind}
use stock_pilot.Orders.Transition.{
  line_key, find_product, lock_order_balance, LockedOrderBalance, reserve_line, fulfil_line,
  release_line,
}

abbrev pub HasRow : Key → Store → Type 0
HasRow k s = (b : Balance) × (find k s.balances ≡ some b)

-- No product and no row of a balance goes away.
pub record Kept (s t : Store) : Type 0 where
  pub products_same : t.products ≡ s.products
  pub rows_kept : (k : Key) → HasRow k s → HasRow k t

abbrev pub int4_max : ℤ
int4_max = pos 2147483647

row-put :
    (k j : Key) (v b : Balance) (t : Table Balance)
    → find k t ≡ some b
    → (c : Balance) × (find k (put j v t) ≡ some c)
row-put k j v b t h = elim (Bool-cases (key_eq j k)) [
  | inl e ↦ (v, find-put j k v t ∙ rw e refl)
  | inr e ↦ (b, find-put j k v t ∙ rw e h)
]

locked_row : Balance → Product → LockedOrderBalance
locked_row b p = record { balance = b; reorder_point = p.reorder_point }

lock_order_balance_found :
    (k : Key) (s : Store) (b : Balance) (p : Product)
    → find k s.balances ≡ some b
    → find_product k.organization k.product s.products ≡ some p
    → lock_order_balance k s ≡ ok (locked_row b p, s)
unfolding lock_order_balance locked_row
lock_order_balance_found k s b p h e = rw h (rw e refl)

update_balance-Kept :
    (k : Key) (f : Balance → Balance) (b : Balance) (s : Store)
    → find k s.balances ≡ some b
    → (fits_int4 (f b).on_hand && fits_int4 (f b).reserved) ≡ true
    → Achieves (λ _ t. Kept s t) (update_balance k f s)
unfolding update_balance
update_balance-Kept k f b s h fits =
    found-bind _ record_not_found (λ _ t. Kept s t) _ s b h
      (unguarded-bind (not (fits_int4 (f b).on_hand && fits_int4 (f b).reserved)) numeric_overflow
        (λ _ t. Kept s t) _ s (rw fits refl)
        (record { products_same = refl; rows_kept = λ j (c, e). row-put j k _ c s.balances e }))

both_fit : (h r : ℤ) → Covers r h → h ≤ℤ int4_max → (fits_int4 h && fits_int4 r) ≡ true
both_fit h r c m = ground arith

shrinks : (h : ℤ) (q : ℕ) → h ≤ℤ int4_max → h +ℤ (pos 0 -ℤ pos q) ≤ℤ int4_max
shrinks h q m = omega int_laws

enough : (h r q : ℤ) → r +ℤ q ≤ℤ h → ltb_ℤ (h -ℤ r) q ≡ false
enough h r q e = grind int_laws

claims : (r : ℤ) (q : ℕ) → pos 0 ≤ℤ r → pos 0 ≤ℤ r +ℤ pos q
claims r q e = omega int_laws

-- What a line needs of its balance.
pub record Room (o : Order) (l : OrderLine) (s : Store) : Type 0 where
  pub row : Balance
  pub product : Product
  pub found : find (line_key o l) s.balances ≡ some row
  pub catalogued : find_product o.organization l.product s.products ≡ some product
  pub covers : Covers row.reserved row.on_hand
  pub bounded : row.on_hand ≤ℤ int4_max

Kept-same :
    (s t u : Store) → u.products ≡ t.products → u.balances ≡ t.balances → Kept s t → Kept s u
Kept-same s t u p b w = record {
  products_same = p ∙ w.products_same;
  rows_kept = λ k r. rw b (w.rows_kept k r);
}

taken_from : Balance → ℕ → InventoryProjection
taken_from b q = record {
  available = (b.on_hand +ℤ pos 0) -ℤ (b.reserved +ℤ (pos 0 -ℤ pos q));
  on_hand = b.on_hand +ℤ pos 0;
  reserved = b.reserved +ℤ (pos 0 -ℤ pos q);
}

shipped : Balance → ℕ → InventoryProjection
shipped b q = record {
  available = (b.on_hand +ℤ (pos 0 -ℤ pos q)) -ℤ (b.reserved +ℤ (pos 0 -ℤ pos q));
  on_hand = b.on_hand +ℤ (pos 0 -ℤ pos q);
  reserved = b.reserved +ℤ (pos 0 -ℤ pos q);
}

taken_from-IsBalance :
    (b : Balance) (q : ℕ)
    → Covers b.reserved b.on_hand
    → b.on_hand ≤ℤ int4_max
    → pos q ≤ℤ b.reserved
    → IsBalance
        (state_of b)
        (record { on_hand_delta = none; reserved_delta = some (pos 0 -ℤ pos q) })
        (taken_from b q)
unfolding taken_from
taken_from-IsBalance b q c m e = record {
  on_hand_sum = refl;
  reserved_sum = refl;
  available_rest = refl;
  reserved_nonneg = omega int_laws;
  reserved_covered = omega int_laws;
  exact = omega int_laws;
}

shipped-IsBalance :
    (b : Balance) (q : ℕ)
    → Covers b.reserved b.on_hand
    → b.on_hand ≤ℤ int4_max
    → pos q ≤ℤ b.reserved
    → IsBalance
        (state_of b)
        (record { on_hand_delta = some (pos 0 -ℤ pos q); reserved_delta = some (pos 0 -ℤ pos q) })
        (shipped b q)
unfolding shipped
shipped-IsBalance b q c m e = record {
  on_hand_sum = refl;
  reserved_sum = refl;
  available_rest = refl;
  reserved_nonneg = omega int_laws;
  reserved_covered = omega int_laws;
  exact = omega int_laws;
}

-- A line is released where its quantity is held.
pub release_line-Kept :
    (now : ℕ) (o : Order) (l : OrderLine) (s : Store) (r : Room o l s)
    → pos l.quantity ≤ℤ r.row.reserved
    → Achieves (λ _ t. Kept s t) (release_line now o l s)
unfolding release_line reconcile_balance taken_from locked_row line_key
release_line-Kept now o l s r e =
    let b = r.row in
    let fine = taken_from-IsBalance b l.quantity r.covers r.bounded e in
    returned-bind (λ _ t. Kept s t) (lock_order_balance (line_key o l) s) _ (locked_row b r.product)
      s (lock_order_balance_found (line_key o l) s b r.product r.found r.catalogued)
      (projected-bind _ (taken_from b l.quantity) (λ _ u. Kept s u) _ s
        ((project_inventory_iff _ _ _).1 fine)
        (Achieves-bind (λ _ t. Kept s t) (λ _ u. Kept s u) _ _
          (update_balance-Kept (line_key o l) _ b s r.found
            ((both_fit b.on_hand _ (fine.reserved_nonneg, omega int_laws) r.bounded)))
          λ _ t w. Kept-same s t _ refl refl w))

-- A line is fulfilled where its quantity is held.
pub fulfil_line-Kept :
    (now actor : ℕ) (o : Order) (l : OrderLine) (s : Store) (r : Room o l s)
    → pos l.quantity ≤ℤ r.row.reserved
    → Achieves (λ _ t. Kept s t) (fulfil_line now actor o l s)
unfolding fulfil_line reconcile_balance create_movement shipped locked_row line_key
fulfil_line-Kept now actor o l s r e =
    let b = r.row in
    let fine = shipped-IsBalance b l.quantity r.covers r.bounded e in
    returned-bind (λ _ t. Kept s t) (lock_order_balance (line_key o l) s) _ (locked_row b r.product)
      s (lock_order_balance_found (line_key o l) s b r.product r.found r.catalogued)
      (projected-bind _ (shipped b l.quantity) (λ _ u. Kept s u) _ s
        ((project_inventory_iff _ _ _).1 fine)
        (Achieves-bind (λ _ t. Kept s t) (λ _ u. Kept s u) _ _
          (update_balance-Kept (line_key o l) _ b s r.found (
            both_fit _ _ (fine.reserved_nonneg, fine.reserved_covered)
              (shrinks b.on_hand l.quantity r.bounded)))
          λ _ t w. Kept-same s t _ refl refl w))

-- A line is reserved where its quantity is available.
pub reserve_line-Kept :
    (now : ℕ) (o : Order) (l : OrderLine) (s : Store) (r : Room o l s)
    → r.row.reserved +ℤ pos l.quantity ≤ℤ r.row.on_hand
    → Achieves (λ _ t. Kept s t) (reserve_line now o l s)
unfolding reserve_line reconcile_balance locked_row line_key
reserve_line-Kept now o l s r e =
    let b = r.row in
    returned-bind (λ _ t. Kept s t) (lock_order_balance (line_key o l) s) _ (locked_row b r.product)
      s (lock_order_balance_found (line_key o l) s b r.product r.found r.catalogued)
      (unguarded-bind (ltb_ℤ (b.on_hand -ℤ b.reserved) (pos l.quantity))
        (insufficient_stock l.sku_snapshot) (λ _ u. Kept s u) _ s
        (enough b.on_hand b.reserved (pos l.quantity) e)
        (Achieves-bind (λ _ t. Kept s t) (λ _ u. Kept s u) _ _
          (update_balance-Kept (line_key o l) _ b s r.found
            (both_fit b.on_hand _ (claims b.reserved l.quantity r.covers.0, e) r.bounded))
          λ _ t w. Kept-same s t _ refl refl w))
