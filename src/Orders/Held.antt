-- ===== src/Orders/Held.antt =====
-- The stock that orders hold, and the columns' sums over the lines of an order.
use stock_pilot.Prelude.{ℕ, ◌≡◌, Bool, true, false, some, List, [], ◌∷◌, if◌then◌else◌}
use stock_pilot.Prelude.Int.{pos, ◌+ℤ◌, int_laws}
use stock_pilot.Store.Rows.{Key, OrderStatus, confirmed, Order}
use stock_pilot.Store.Table.{pulse}
use stock_pilot.Inventory.Shift.{Change}
use stock_pilot.Inventory.Loops.{total}
use stock_pilot.Orders.Transition.{line_key, find_order, update_order}

-- The quantities of an order's lines, by balance.
unfoldable pub demand : Order → Change
unfolding total
demand o = total (λ l. pulse (line_key o l) (pos l.quantity)) o.lines

abbrev pub is_confirmed : OrderStatus → Bool
is_confirmed confirmed = true
is_confirmed _ = false

-- What an order holds: the demand of a confirmed order.
unfoldable pub holds : Order → Change
holds o k = if is_confirmed o.status then demand o k else pos 0

-- What all orders hold.
unfoldable pub held : List Order → Change
held [] k = pos 0
held (o ∷ os) k = holds o k +ℤ held os k

-- An order that is rewritten changes what is held by the difference of what it holds.
pub held-update_order :
    (id : ℕ) (change : Order → Order) (o : Order) (os : List Order) (k : Key)
    → find_order id os ≡ some o
    → held (update_order id change os) k +ℤ holds o k ≡ held os k +ℤ holds (change o) k
unfolding held find_order update_order
held-update_order id change o [] k e = cc
held-update_order id change o (x ∷ xs) k e = grind (int_laws, held-update_order id change o xs k)
