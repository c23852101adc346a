-- ===== src/Orders/StateMachine.antt =====
-- apps/api/src/orders/order-state-machine.ts
use stock_pilot.Prelude.{Bool, true, false, List, [], ◌∷◌, ◌||◌}
use stock_pilot.Store.Rows.{OrderStatus, draft, confirmed, fulfilled, cancelled}

unfoldable pub status_eq : OrderStatus → OrderStatus → Bool
status_eq draft draft = true
status_eq confirmed confirmed = true
status_eq fulfilled fulfilled = true
status_eq cancelled cancelled = true
status_eq _ _ = false

-- The sets of `transitions`.
unfoldable pub transitions : OrderStatus → List OrderStatus
transitions cancelled = []
transitions confirmed = cancelled ∷ fulfilled ∷ []
transitions draft = cancelled ∷ confirmed ∷ []
transitions fulfilled = []

-- `Set.has`
unfoldable pub has : List OrderStatus → OrderStatus → Bool
has [] to = false
has (s ∷ statuses) to = status_eq s to || has statuses to

unfoldable pub can_transition : OrderStatus → OrderStatus → Bool
unfolding status_eq transitions has
can_transition from to = has (transitions from) to
