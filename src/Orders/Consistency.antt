-- ===== src/Orders/Consistency.antt =====
-- The consistency of stock, ledger and orders, and what keeps it.
use stock_pilot.Prelude.{ℕ, ◌≡◌, ◌≢◌, refl, ap, sym, ◌∙◌, true, none, some, List, [], ◌∷◌, ⊤, arith}
use stock_pilot.Prelude.Int.{ℤ, pos, ◌+ℤ◌, ◌-ℤ◌, int_laws}
use stock_pilot.Store.Rows.{Key, OrderStatus, draft, confirmed, fulfilled, cancelled, Order}
use stock_pilot.Store.Monad.{Store}
use stock_pilot.Inventory.Shift.{on_hand_at, reserved_at, moved, IsCovered, Change, still, Shift}
use stock_pilot.Orders.StateMachine.{can_transition}
use stock_pilot.Orders.Transition.{line_key, find_order, find_order_in, update_order, with_status}
use stock_pilot.Orders.Held.{demand, holds, held}

-- No two orders have one identifier.
abbrev pub IsUnique : List Order → Type 0
IsUnique [] = ⊤
IsUnique (o ∷ os) = (find_order o.id os ≡ none) × IsUnique os

-- The stock on hand is the sum of the ledger, the stock held is what the confirmed orders ask
-- for, it is covered by the stock on hand, and the identifiers of the orders are unique.
pub record IsConsistent (s : Store) : Type 0 where
  pub ledgered : (k : Key) → on_hand_at k s ≡ moved k s.movements
  pub held_by_orders : (k : Key) → reserved_at k s ≡ held s.orders k
  pub covered : IsCovered s
  pub unique_orders : IsUnique s.orders

-- A step that moves stock and ledger alike, and holds nothing new.
pub Shift-IsConsistent :
    (m : Change) (s t : Store) → Shift m still m s t → IsConsistent s → IsConsistent t
Shift-IsConsistent m s t a c = record {
  ledgered = λ k. a.on_hand_by k ∙ ap (λ v. v +ℤ m k) (c.ledgered k) ∙ sym (a.moved_by k);
  held_by_orders = λ k. rw (a.orders_same, a.reserved_by k) (omega_zero _ ∙ c.held_by_orders k);
  covered = a.covered c.covered;
  unique_orders = rw a.orders_same c.unique_orders;
}
  where
    omega_zero : (x : ℤ) → x +ℤ pos 0 ≡ x
    omega_zero x = omega int_laws

pub find_order_in-id :
    (org id : ℕ) (os : List Order) (o : Order)
    → find_order_in org id os ≡ some o
    → (find_order id os ≢ none) × (o.id ≡ id)
unfolding find_order_in find_order
find_order_in-id org id [] o e = cc
find_order_in-id org id (x ∷ xs) o e = ground (arith, find_order_in-id org id xs o)

-- The locked order is the one that is read by its identifier.
pub find_order_in-find_order :
    (org id : ℕ) (os : List Order) (o : Order)
    → IsUnique os
    → find_order_in org id os ≡ some o
    → find_order id os ≡ some o
unfolding find_order_in find_order
find_order_in-find_order org id [] o u e = cc
find_order_in-find_order org id (x ∷ xs) o u e =
    grind (arith, find_order_in-find_order org id xs o u.1, find_order_in-id org id xs o)

pub find_order-id : (id : ℕ) (os : List Order) (o : Order) → find_order id os ≡ some o → o.id ≡ id
unfolding find_order
find_order-id id [] o e = cc
find_order-id id (x ∷ xs) o e = ground (arith, find_order-id id xs o)

pub with_status-id : (to : OrderStatus) (now : ℕ) (o : Order) → (with_status to now o).id ≡ o.id
unfolding with_status
with_status-id draft now o = refl
with_status-id confirmed now o = refl
with_status-id fulfilled now o = refl
with_status-id cancelled now o = refl

-- A write to an order that keeps identifiers keeps them unique, and the order is found again.
module _ (change : Order → Order) (keeps_id : (o : Order) → (change o).id ≡ o.id) where
  find_order-update_order-none :
      (j id : ℕ) (os : List Order)
      → find_order j os ≡ none
      → find_order j (update_order id change os) ≡ none
  unfolding find_order update_order
  find_order-update_order-none j id [] e = refl
  find_order-update_order-none j id (x ∷ xs) e =
      ground (arith, find_order-update_order-none j id xs, keeps_id x)

  pub update_order-IsUnique :
      (id : ℕ) (os : List Order) → IsUnique os → IsUnique (update_order id change os)
  unfolding update_order
  update_order-IsUnique id [] u = tt
  update_order-IsUnique id (x ∷ xs) u = ground (
    arith,
    update_order-IsUnique id xs u.1,
    keeps_id x,
    find_order-update_order-none x.id id xs u.0,
  )

  pub find_order-update_order :
      (id : ℕ) (os : List Order) (o : Order)
      → find_order id os ≡ some o
      → find_order id (update_order id change os) ≡ some (change o)
  unfolding find_order update_order
  find_order-update_order id [] o e = cc
  find_order-update_order id (x ∷ xs) o e =
      ground (arith, find_order-update_order id xs o, keeps_id x)

  pub find_order-update_order_ne :
      (id j : ℕ) (os : List Order)
      → j ≢ id
      → find_order j (update_order id change os) ≡ find_order j os
  unfolding find_order update_order
  find_order-update_order_ne id j [] e = refl
  find_order-update_order_ne id j (x ∷ xs) e =
      ground (arith, find_order-update_order_ne id j xs e, keeps_id x)

-- What a change of status does to what the order holds.
unfoldable pub hold_change : OrderStatus → OrderStatus → Order → Change
hold_change current confirmed o k = demand o k
hold_change current fulfilled o k = pos 0 -ℤ demand o k
hold_change confirmed cancelled o k = pos 0 -ℤ demand o k
hold_change current to o k = pos 0

with_status-demand :
    (to : OrderStatus) (now : ℕ) (o : Order) (k : Key)
    → demand (with_status to now o) k ≡ demand o k
unfolding with_status demand line_key
with_status-demand draft now o k = refl
with_status-demand confirmed now o k = refl
with_status-demand fulfilled now o k = refl
with_status-demand cancelled now o k = refl

with_status-status : (to : OrderStatus) (now : ℕ) (o : Order) → (with_status to now o).status ≡ to
unfolding with_status
with_status-status draft now o = refl
with_status-status confirmed now o = refl
with_status-status fulfilled now o = refl
with_status-status cancelled now o = refl

pub holds-with_status :
    (to : OrderStatus) (now : ℕ) (o : Order) (k : Key)
    → can_transition o.status to ≡ true
    → holds (with_status to now o) k ≡ holds o k +ℤ hold_change o.status to o k
unfolding holds hold_change can_transition
holds-with_status to now o k e =
    grind (int_laws, with_status-demand to now o k, with_status-status to now o)
