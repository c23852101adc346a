-- ===== src/Orders/TransitionLaws.antt =====
-- A transition of an order moves the stock that its new status asks for, and keeps stock, ledger
-- and orders consistent.
use stock_pilot.Prelude.{
  ℕ, ◌≡◌, refl, ap, sym, ◌∙◌, true, false, some, List, [], ◌∷◌, arith, sort_by, inl, inr,
  Bool-cases, Option-cases,
}
use mathlib.Core.Path.{subst}
use stock_pilot.Prelude.Int.{ℤ, pos, pos_part, neg_part, ◌+ℤ◌, ◌-ℤ◌, ◌≤ℤ◌, int_laws}
use stock_pilot.Store.Rows.{
  Key, OrderStatus, draft, confirmed, fulfilled, cancelled, OrderLine, Order,
}
use stock_pilot.Store.Table.{pulse}
use stock_pilot.Store.Monad.{
  Store, ok, err, Ensures, Ensures-bind, Ensures-map, Ensures-ok, ◌>>=◌, invalid_transition,
}
use stock_pilot.Auth.Context.{AuthContext, MembershipContext, require_membership}
use stock_pilot.Inventory.Shift.{
  on_hand_at, reserved_at, moved, Change, Shift, Shift-eq, Shift-still,
}
use stock_pilot.Inventory.Steps.{record_audit}
use stock_pilot.Inventory.Loops.{total, total-sort_by, unmoved, total-unmoved, for_each-Shift}
use stock_pilot.Orders.StateMachine.{can_transition}
use stock_pilot.Orders.Transition.{
  line_key, by_product, find_order, find_order_in, update_order, lock_order, move_stock,
  with_status, record_transition, apply_order_transition, transition_order,
}
use stock_pilot.Orders.Held.{demand, holds, held, held-update_order}
use stock_pilot.Orders.Lines.{
  taken, claimed, reserve_line-Shift, fulfil_line-Shift, release_line-Shift,
}
use stock_pilot.Orders.Consistency.{
  IsConsistent, find_order_in-find_order, find_order-id, update_order-IsUnique, with_status-id,
  hold_change, holds-with_status,
}

-- What a change of status takes from the shelf.
unfoldable pub stock_change : OrderStatus → Order → Change
stock_change fulfilled o k = pos 0 -ℤ demand o k
stock_change _ o k = pos 0

pulse_negated : (j k : Key) (q : ℤ) → pulse j (pos 0 -ℤ q) k ≡ pos 0 -ℤ pulse j q k
unfolding pulse
pulse_negated j k q = grind int_laws

total-taken :
    (o : Order) (ls : List OrderLine) (k : Key)
    → total (taken o) ls k ≡ pos 0 -ℤ total (claimed o) ls k
unfolding total
total-taken o [] k = omega int_laws
total-taken o (l ∷ ls) k =
    ap (λ v. taken o l k +ℤ v) (total-taken o ls k)
    ∙ ap (λ v. v +ℤ (pos 0 -ℤ total (claimed o) ls k))
        (pulse_negated (line_key o l) k (pos l.quantity))
    ∙ omega int_laws

sorted-unmoved : (o : Order) (k : Key) → total unmoved (sort_by by_product o.lines) k ≡ pos 0
sorted-unmoved o k = total-unmoved (sort_by by_product o.lines) k

sorted-claimed :
    (o : Order) (k : Key) → total (claimed o) (sort_by by_product o.lines) k ≡ demand o k
unfolding demand
sorted-claimed o k = total-sort_by (claimed o) by_product o.lines k

sorted-taken :
    (o : Order) (k : Key) → total (taken o) (sort_by by_product o.lines) k ≡ pos 0 -ℤ demand o k
sorted-taken o k =
    total-taken o (sort_by by_product o.lines) k ∙ ap (λ v. pos 0 -ℤ v) (sorted-claimed o k)

abbrev pub Moves : OrderStatus → OrderStatus → Order → Store → Store → Type 0
Moves current to o s t =
    Shift (stock_change to o) (hold_change current to o) (stock_change to o) s t

-- The loops of the transition, by the two statuses.
pub move_stock-Shift :
    (current to : OrderStatus) (now actor : ℕ) (o : Order) (s : Store)
    → Ensures (λ _ t. Moves current to o s t) (move_stock current to now actor o s)
unfolding move_stock stock_change hold_change
move_stock-Shift current confirmed now actor o s =
    Ensures-map _ (λ _ t. Moves current confirmed o s t) _
      (λ _ t a. Shift-eq (sorted-unmoved o) (sorted-claimed o) (sorted-unmoved o) a)
      (for_each-Shift unmoved (claimed o) unmoved _ (reserve_line-Shift now o)
        (sort_by by_product o.lines) s)
move_stock-Shift current fulfilled now actor o s =
    Ensures-map _ (λ _ t. Moves current fulfilled o s t) _
      (λ _ t a. Shift-eq (sorted-taken o) (sorted-taken o) (sorted-taken o) a)
      (for_each-Shift (taken o) (taken o) (taken o) _ (fulfil_line-Shift now actor o)
        (sort_by by_product o.lines) s)
move_stock-Shift confirmed cancelled now actor o s =
    Ensures-map _ (λ _ t. Moves confirmed cancelled o s t) _
      (λ _ t a. Shift-eq (sorted-unmoved o) (sorted-taken o) (sorted-unmoved o) a)
      (for_each-Shift unmoved (taken o) unmoved _ (release_line-Shift now o)
        (sort_by by_product o.lines) s)
move_stock-Shift draft cancelled now actor o s = Shift-still s s refl refl refl
move_stock-Shift fulfilled cancelled now actor o s = Shift-still s s refl refl refl
move_stock-Shift cancelled cancelled now actor o s = Shift-still s s refl refl refl
move_stock-Shift draft draft now actor o s = Shift-still s s refl refl refl
move_stock-Shift confirmed draft now actor o s = Shift-still s s refl refl refl
move_stock-Shift fulfilled draft now actor o s = Shift-still s s refl refl refl
move_stock-Shift cancelled draft now actor o s = Shift-still s s refl refl refl

cancel : (a b c d : ℤ) → a +ℤ b ≡ c +ℤ (b +ℤ d) → a ≡ c +ℤ d
cancel a b c d h = omega (int_laws, ap pos_part h, ap neg_part h)

-- The status of the order is written where the lines have moved.
written-IsConsistent :
    (to : OrderStatus) (now : ℕ) (o : Order) (s t u : Store)
    → IsConsistent s
    → find_order o.id s.orders ≡ some o
    → can_transition o.status to ≡ true
    → Moves o.status to o s t
    → u.balances ≡ t.balances
    → u.movements ≡ t.movements
    → u.orders ≡ update_order o.id (with_status to now) s.orders
    → IsConsistent u
written-IsConsistent to now o s t u c found allowed a eb em eo = record {
  ledgered = λ k.
      rw (eb, em)
        (a.on_hand_by k ∙ ap (λ v. v +ℤ stock_change to o k) (c.ledgered k) ∙ sym (a.moved_by k));
  held_by_orders = λ k.
      rw (eb, eo)
        (a.reserved_by k
          ∙ ap (λ v. v +ℤ hold_change o.status to o k) (c.held_by_orders k)
          ∙ sym (
              cancel _ (holds o k) _ _ (
                held-update_order o.id (with_status to now) o s.orders k found
                ∙ ap (λ v. held s.orders k +ℤ v) (holds-with_status to now o k allowed))));
  covered = λ k. rw eb (a.covered c.covered k);
  unique_orders = rw eo (
      update_order-IsUnique (with_status to now) (with_status-id to now) o.id s.orders
        c.unique_orders);
}

-- What a transition has done to an order and its stock.
pub record Transitioned (to : OrderStatus) (now : ℕ) (o : Order) (s u : Store) : Type 0 where
  pub allowed : can_transition o.status to ≡ true
  pub on_hand_by : (k : Key) → on_hand_at k u ≡ on_hand_at k s +ℤ stock_change to o k
  pub reserved_by : (k : Key) → reserved_at k u ≡ reserved_at k s +ℤ hold_change o.status to o k
  pub moved_by : (k : Key) → moved k u.movements ≡ moved k s.movements +ℤ stock_change to o k
  pub orders_written : u.orders ≡ update_order o.id (with_status to now) s.orders
  pub consistent : IsConsistent u

apply_order_transition-Transitioned :
    (to : OrderStatus) (now actor : ℕ) (o : Order) (s : Store)
    → IsConsistent s
    → find_order o.id s.orders ≡ some o
    → can_transition o.status to ≡ true
    → Ensures (λ _ u. Transitioned to now o s u) (apply_order_transition o.status to now actor o s)
unfolding apply_order_transition record_transition record_audit
apply_order_transition-Transitioned to now actor o s c found allowed =
    Ensures-bind (λ _ t. Moves o.status to o s t) (λ _ u. Transitioned to now o s u) _ _
      (move_stock-Shift o.status to now actor o s)
      (λ _ t a.
        let os = update_order o.id (with_status to now) t.orders in
        let same : os ≡ update_order o.id (with_status to now) s.orders =
          ap (update_order o.id (with_status to now)) a.orders_same in
        elim (Option-cases (find_order_in o.organization o.id os)) [
          | inl e ↦ rw e tt
          | inr (o', e) ↦ rw e (record {
            allowed = allowed;
            on_hand_by = a.on_hand_by;
            reserved_by = a.reserved_by;
            moved_by = a.moved_by;
            orders_written = same;
            consistent = written-IsConsistent to now o s t _ c found allowed a refl refl same;
          })
        ])

-- What a transition that returns has done, the order being the one that the identifier names.
abbrev pub TransitionedOrder : ℕ → ℕ → OrderStatus → Store → Store → Type 0
TransitionedOrder now id to s u =
    (o : Order) × (find_order id s.orders ≡ some o) × Transitioned to now o s u

-- The checks of a transition that goes through, and the rest of its code.
pub transition_order-passes :
    (now : ℕ) (auth : AuthContext) (id : ℕ) (to : OrderStatus) (s : Store) {m : MembershipContext}
    {o : Order}
    → auth.membership ≡ some m
    → find_order_in m.organization id s.orders ≡ some o
    → find_order id s.orders ≡ some o
    → can_transition o.status to ≡ true
    → transition_order now auth id to s ≡ apply_order_transition o.status to now auth.user o s
unfolding transition_order require_membership lock_order
transition_order-passes now auth id to s e e' found allowed = ground arith

-- On a consistent store, a transition that returns follows an edge of the state machine. It moves
-- the stock on hand and the ledger by what the new status takes from the shelf, and the stock held
-- by what it claims or gives up; of the orders it rewrites only the one named, whose status it
-- sets. The store is consistent again.
pub transition_order-Transitioned :
    (now : ℕ) (auth : AuthContext) (id : ℕ) (to : OrderStatus) (s : Store)
    → IsConsistent s
    → Ensures (λ _ u. TransitionedOrder now id to s u) (transition_order now auth id to s)
unfolding transition_order require_membership lock_order
transition_order-Transitioned now auth id to s c = elim (Option-cases auth.membership) [
  | inl e ↦ rw e tt
  | inr (m, e) ↦ elim (Option-cases (find_order_in m.organization id s.orders)) [
    | inl e' ↦ rw e (rw (e', ◌>>=◌) tt)
    | inr (o, e') ↦
        let found = find_order_in-find_order m.organization id s.orders o c.unique_orders e' in
        elim (Bool-cases (can_transition o.status to)) [
          | inr refused ↦ rw e (rw (e', ◌>>=◌) (rw refused tt))
          | inl allowed ↦
              subst (Ensures (λ _ u. TransitionedOrder now id to s u))
                (sym (transition_order-passes now auth id to s e e' found allowed))
                (Ensures-map (λ _ u. Transitioned to now o s u)
                  (λ _ u. TransitionedOrder now id to s u) _ (λ _ u w. (o, found, w))
                  (apply_order_transition-Transitioned to now auth.user o s c
                    (ap (λ i. find_order i s.orders) (find_order-id id s.orders o found) ∙ found)
                    allowed))
        ]
  ]
]

-- Confirming never oversells: where a confirmation returns, every balance had at least the
-- quantity that the order asks of it available.
pub confirm_never_oversells :
    (now : ℕ) (auth : AuthContext) (id : ℕ) (s u : Store) {answer : Order}
    → IsConsistent s
    → transition_order now auth id confirmed s ≡ ok (answer, u)
    → (o : Order) × (find_order id s.orders ≡ some o)
      × ((k : Key) → reserved_at k s +ℤ demand o k ≤ℤ on_hand_at k s)
unfolding stock_change hold_change
confirm_never_oversells now auth id s u c returned =
    let (o, found, w) =
      Ensures-ok (λ _ u. TransitionedOrder now id confirmed s u) _ returned
        (transition_order-Transitioned now auth id confirmed s c) in
    (
      o,
      found,
      λ k.
          let e : on_hand_at k u ≡ on_hand_at k s = w.on_hand_by k ∙ omega int_laws in
          rw (← e, ← w.reserved_by k) ((w.consistent.covered k).1),
    )

-- A move that the state machine does not have is refused with both statuses, whatever the stock.
pub transition_order_refused :
    (now : ℕ) (auth : AuthContext) (id : ℕ) (to : OrderStatus) (s : Store) {m : MembershipContext}
    {o : Order}
    → auth.membership ≡ some m
    → find_order_in m.organization id s.orders ≡ some o
    → can_transition o.status to ≡ false
    → transition_order now auth id to s ≡ err (invalid_transition o.status to)
unfolding transition_order require_membership lock_order
transition_order_refused now auth id to s e e' refused = ground arith
