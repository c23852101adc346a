-- ===== src/Orders/Completion.antt =====
-- An order that holds its stock can be completed: nothing that other requests do can block its
-- fulfilment or its cancellation.
use stock_pilot.Prelude.{
  ℕ, ◌≡◌, ◌≤◌, refl, ap, sym, ◌∙◌, true, some, none, List, [], ◌∷◌, ⊤, arith, Option-cases, inl,
  inr,
}
use mathlib.Core.Path.{subst}
use stock_pilot.Prelude.Int.{ℤ, pos, pos_part, neg_part, ◌+ℤ◌, ◌≤ℤ◌, int_laws}
use stock_pilot.Store.Rows.{
  Key, Balance, OrderStatus, draft, confirmed, fulfilled, cancelled, OrderLine, Order, Product,
}
use stock_pilot.Store.Table.{Table, find, column}
use stock_pilot.Store.Monad.{Store, Achieves, Achieves-bind, Achieves-both}
use stock_pilot.Auth.Context.{AuthContext, MembershipContext}
use stock_pilot.Inventory.Shift.{on_hand_at, reserved_at}
use stock_pilot.Inventory.Loops.{total}
use stock_pilot.Inventory.Steps.{record_audit}
use stock_pilot.Orders.StateMachine.{can_transition}
use stock_pilot.Orders.Transition.{
  line_key, find_product, find_order, find_order_in, update_order, move_stock, with_status,
  record_transition, apply_order_transition, transition_order,
}
use stock_pilot.Orders.Held.{demand, holds, held}
use stock_pilot.Orders.Lines.{claimed}
use stock_pilot.Orders.Consistency.{
  IsUnique, IsConsistent, find_order_in-id, find_order_in-find_order, with_status-id,
}
use stock_pilot.Orders.TransitionLaws.{Moves, move_stock-Shift, transition_order-passes}
use stock_pilot.Orders.LineProgress.{HasRow, int4_max}
use stock_pilot.Orders.Progress.{
  Lined, Stocked, pulse_nonneg, total_nonneg, first_claim, release_returns, fulfil_returns,
  reserve_returns,
}

-- The lines ask for something, of products that are there.
abbrev pub Sellable : Order → Store → List OrderLine → Type 0
Sellable o s [] = ⊤
Sellable o s (l ∷ ls) =
    ((1 ≤ l.quantity)
      × ((p : Product) × (find_product o.organization l.product s.products ≡ some p)))
    × Sellable o s ls

column_missing :
    (f : Balance → ℤ) (k : Key) (t : Table Balance) → find k t ≡ none → column f k t ≡ pos 0
unfolding column
column_missing f k t h = rw (h, column) refl

-- Stock is held only in rows that are there.
row_of : (k : Key) (s : Store) (q : ℕ) → 1 ≤ q → pos q ≤ℤ reserved_at k s → HasRow k s
row_of k s q p h = elim (Option-cases (find k s.balances)) [
  | inl e ↦
      let c = column_missing (λ b. b.reserved) k s.balances e in
      absurd (omega (arith, ap pos_part c, ap neg_part c))
  | inr r ↦ r
]

rest_of :
    (o : Order) (l : OrderLine) (ls : List OrderLine) (k : Key)
    → total (claimed o) ls k ≤ℤ total (claimed o) (l ∷ ls) k
unfolding total
rest_of o l ls k = omega (int_laws, pulse_nonneg (line_key o l) k l.quantity)

held_lines-Lined :
    (o : Order) (s : Store) (ls : List OrderLine)
    → Sellable o s ls
    → ((k : Key) → total (claimed o) ls k ≤ℤ reserved_at k s)
    → Lined o s ls
held_lines-Lined o s [] x h = tt
held_lines-Lined o s (l ∷ ls) ((p, c), x) h = (
  (row_of (line_key o l) s l.quantity p (omega (arith, first_claim o l ls, h (line_key o l))), c),
  held_lines-Lined o s ls x (λ k. omega (arith, rest_of o l ls k, h k)),
)

demand_nonneg : (o : Order) (k : Key) → pos 0 ≤ℤ demand o k
unfolding demand
demand_nonneg o k = total_nonneg o o.lines k

holds_nonneg : (o : Order) (k : Key) → pos 0 ≤ℤ holds o k
unfolding holds
holds_nonneg o k = ground (arith, demand_nonneg o k)

held_nonneg : (os : List Order) (k : Key) → pos 0 ≤ℤ held os k
unfolding held
held_nonneg [] k = omega arith
held_nonneg (o ∷ os) k = omega (int_laws, holds_nonneg o k, held_nonneg os k)

holds-le-held :
    (id : ℕ) (os : List Order) (o : Order) (k : Key)
    → find_order id os ≡ some o
    → holds o k ≤ℤ held os k
unfolding held find_order
holds-le-held id [] o k h = cc
holds-le-held id (x ∷ xs) o k h =
    grind (int_laws, holds-le-held id xs o k, held_nonneg xs k, holds_nonneg x k)

with_status-organization :
    (to : OrderStatus) (now : ℕ) (o : Order) → (with_status to now o).organization ≡ o.organization
unfolding with_status
with_status-organization draft now o = refl
with_status-organization confirmed now o = refl
with_status-organization fulfilled now o = refl
with_status-organization cancelled now o = refl

find_order_in-update_order :
    (org id : ℕ) (to : OrderStatus) (now : ℕ) (os : List Order) (o : Order)
    → IsUnique os
    → find_order_in org id os ≡ some o
    → find_order_in org id (update_order id (with_status to now) os) ≡ some (with_status to now o)
unfolding find_order_in update_order
find_order_in-update_order org id to now [] o u h = cc
find_order_in-update_order org id to now (x ∷ xs) o u h = ground (
  arith,
  find_order_in-update_order org id to now xs o u.1,
  find_order_in-id org id xs o,
  with_status-id to now x,
  with_status-organization to now x,
)

find_order_in-organization :
    (org id : ℕ) (os : List Order) (o : Order)
    → find_order_in org id os ≡ some o
    → (o.organization ≡ org) × (o.id ≡ id)
unfolding find_order_in
find_order_in-organization org id [] o h = cc
find_order_in-organization org id (x ∷ xs) o h =
    ground (arith, find_order_in-organization org id xs o)

-- A transition whose stock moves goes through.
moved-Achieves :
    (now : ℕ) (auth : AuthContext) (id : ℕ) (to : OrderStatus) (s : Store) (m : MembershipContext)
    (o : Order)
    → IsConsistent s
    → auth.membership ≡ some m
    → find_order_in m.organization id s.orders ≡ some o
    → can_transition o.status to ≡ true
    → Achieves (λ _ _. ⊤) (move_stock o.status to now auth.user o s)
    → Achieves (λ answer _. answer ≡ with_status to now o) (transition_order now auth id to s)
unfolding apply_order_transition record_transition record_audit
moved-Achieves now auth id to s m o c e f allowed moves =
    subst (Achieves (λ answer _. answer ≡ with_status to now o))
      (sym (
        transition_order-passes now auth id to s e f
          (find_order_in-find_order m.organization id s.orders o c.unique_orders f) allowed))
      (Achieves-bind (λ _ t. ⊤ × Moves o.status to o s t) Q _ _
        (Achieves-both (λ _ _. ⊤) (λ _ t. Moves o.status to o s t) _ moves
          (move_stock-Shift o.status to now auth.user o s))
        λ _ t (_, a). rw (again t a.orders_same) refl)
  where
    Q : Order → Store → Type 0
    Q answer _ = answer ≡ with_status to now o

    again :
        (t : Store)
        → t.orders ≡ s.orders
        → find_order_in o.organization o.id (update_order o.id (with_status to now) t.orders)
          ≡ some (with_status to now o)
    again t same =
        let (org, i) = find_order_in-organization m.organization id s.orders o f in
        let own : find_order_in o.organization o.id s.orders ≡ some o =
          ap (λ x. find_order_in x o.id s.orders) org
          ∙ ap (λ x. find_order_in m.organization x s.orders) i
          ∙ f in
        rw same
          (find_order_in-update_order o.organization o.id to now s.orders o c.unique_orders own)

holds_confirmed : (o : Order) (k : Key) → o.status ≡ confirmed → holds o k ≡ demand o k
unfolding holds
holds_confirmed o k e = ground arith

held_demand :
    (id : ℕ) (s : Store) (o : Order) (k : Key)
    → IsConsistent s
    → find_order id s.orders ≡ some o
    → o.status ≡ confirmed
    → demand o k ≤ℤ reserved_at k s
held_demand id s o k c f e =
    rw (c.held_by_orders k) (rw (holds_confirmed o k e) at (holds-le-held id s.orders o k f))

module _ (now : ℕ) (auth : AuthContext) (id : ℕ) (s : Store) (m : MembershipContext) (o : Order)
    (c : IsConsistent s) (e : auth.membership ≡ some m)
    (f : find_order_in m.organization id s.orders ≡ some o)
    (bounded : (k : Key) → on_hand_at k s ≤ℤ int4_max) where
  module _ (held : o.status ≡ confirmed) (lines : Sellable o s o.lines) where
    confirmed-Stocked : Stocked o o.lines s × ((k : Key) → demand o k ≤ℤ reserved_at k s)
    unfolding demand
    confirmed-Stocked =
        let found = find_order_in-find_order m.organization id s.orders o c.unique_orders f in
        let enough = λ (k : Key). held_demand id s o k c found held in
        (
          record {
            lined = held_lines-Lined o s o.lines lines enough;
            bounded = bounded;
            covered = c.covered;
          },
          enough,
        )

    -- In a consistent store a confirmed order can always be fulfilled and can always be cancelled,
    -- whatever other orders and stock there are: its lines ask for something, of products that are
    -- still in the catalogue, and the stock on hand fits its column.
    pub confirmed_order_completes :
        Achieves
          (λ answer _. answer ≡ with_status fulfilled now o)
          (transition_order now auth id fulfilled s)
        × Achieves
            (λ answer _. answer ≡ with_status cancelled now o)
            (transition_order now auth id cancelled s)
    unfolding move_stock can_transition
    confirmed_order_completes = (
      moved-Achieves now auth id fulfilled s m o c e f (rw held refl) (
          subst (λ x. Achieves (λ _ _. ⊤) (move_stock x fulfilled now auth.user o s)) (sym held)
            (fulfil_returns now o s confirmed-Stocked.0 auth.user confirmed-Stocked.1)),
      moved-Achieves now auth id cancelled s m o c e f (rw held refl) (
          subst (λ x. Achieves (λ _ _. ⊤) (move_stock x cancelled now auth.user o s)) (sym held)
            (release_returns now o s confirmed-Stocked.0 confirmed-Stocked.1)),
    )

  -- A draft can be confirmed where every line has the row of its balance and its product, and
  -- every balance has the quantity that the order asks of it available.
  pub draft_confirms :
      o.status ≡ draft
      → Lined o s o.lines
      → ((k : Key) → reserved_at k s +ℤ demand o k ≤ℤ on_hand_at k s)
      → Achieves
          (λ answer _. answer ≡ with_status confirmed now o)
          (transition_order now auth id confirmed s)
  unfolding move_stock can_transition
  draft_confirms d lines enough = moved-Achieves now auth id confirmed s m o c e f (rw d refl) (
      reserve_returns now o s (record { lined = lines; bounded = bounded; covered = c.covered })
        enough)
