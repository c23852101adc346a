-- ===== src/Commands.antt =====
-- The commands of a tenant, each in its own transaction: an adjustment, a receipt, a transition of
-- an order, a new draft, a rewritten draft (`withTenant` around the transactions, in
-- apps/api/src/inventory/inventory.service.ts and apps/api/src/orders/orders.service.ts).
-- `executeIdempotent`, which the services put around a command with a key, stands in Idempotency:
-- here every command runs its work, also one that the service would replay or refuse.
use stock_pilot.Prelude.{ℕ, List, [], ◌∷◌, ⊤}
use stock_pilot.Store.Rows.{OrderStatus}
use stock_pilot.Store.Monad.{
  Store, Result, M, ok, err, membership_required, or_throw-bind, pure, ◌>>=◌, ◌>>◌, with_tenant,
  Ensures, Ensures-map, Ensures-bind,
}
use stock_pilot.Auth.Context.{AuthContext, MembershipContext, require_membership}
use stock_pilot.Inventory.Adjustment.{InventoryAdjustmentInput, adjust_transaction}
use stock_pilot.Inventory.AdjustmentLaws.{AdjustmentShift, adjust_transaction-Shift}
use stock_pilot.Inventory.Receipt.{ReceiptInput, apply_receipt_transaction}
use stock_pilot.Inventory.ReceiptLaws.{apply_receipt_transaction-keeps}
use stock_pilot.Orders.Transition.{transition_order}
use stock_pilot.Orders.Drafts.{Money, SalesOrderInput, create_draft_order, update_draft}
use stock_pilot.Orders.DraftCommands.{
  Created, Updated, IsDraftOf-IsConsistent, create_draft_order-IsDraftOf, update_draft-IsDraftOf,
}
use stock_pilot.Orders.Consistency.{IsConsistent, Shift-IsConsistent}
use stock_pilot.Orders.TransitionLaws.{TransitionedOrder, transition_order-Transitioned}

pub data Command : Type 0 where
  adjust : InventoryAdjustmentInput → Command
  receive : ReceiptInput → Command
  move : ℕ → OrderStatus → Command
  create : SalesOrderInput → Command
  edit : ℕ → SalesOrderInput → Command

-- A request: the caller, the time, and the command.
pub record Request : Type 0 where
  pub auth : AuthContext
  pub now : ℕ
  pub command : Command

unfoldable pub discard : {A : Type 0} → M A → M ⊤
discard m = do m; pure tt

discard-keeps :
    {A : Type 0} (m : M A) (s : Store)
    → Ensures (λ _ t. IsConsistent t) (m s)
    → Ensures (λ _ t. IsConsistent t) (discard m s)
unfolding discard
discard-keeps m s h =
    Ensures-bind (λ _ t. IsConsistent t) (λ _ t. IsConsistent t) _ _ h (λ _ t c. c)

-- The rest of the code runs with a membership, on the store as it was.
require_membership-bind :
    {B : Type 0} (auth : AuthContext) (Q : B → Store → Type 0) (f : MembershipContext → M B)
    (s : Store)
    → ((m : MembershipContext) → Ensures Q (f m s))
    → Ensures Q (elim (require_membership auth s) [ ok (m, t) ↦ f m t | err e ↦ err e ])
unfolding require_membership
require_membership-bind auth Q f s rest =
    or_throw-bind auth.membership membership_required Q f s (λ m _. rest m)

with_tenant-keeps :
    (P : Store → Type 0) (work : M ⊤) (s : Store)
    → P s
    → Ensures (λ _ t. P t) (work s)
    → P (with_tenant work s).1
unfolding with_tenant
with_tenant-keeps P work s p h = go (work s) h
  where
    go :
        (r : Result (⊤ × Store))
        → Ensures (λ _ t. P t) r
        → P (elim r as (λ _. Result ⊤ × Store) [ ok (a, t) ↦ (ok a, t) | err e ↦ (err e, s) ]).1
    go (ok (a, t)) h = h
    go (err e) h = p

-- Every command runs with the operations on money.
module _ (money : Money) where
  unfoldable pub perform : AuthContext → ℕ → Command → M ⊤
  perform auth now (adjust input) = do
    m ← require_membership auth
    discard (adjust_transaction now auth m.organization input)
  perform auth now (receive input) = do
    m ← require_membership auth
    discard (apply_receipt_transaction now auth m.organization input)
  perform auth now (move id to) = discard (transition_order now auth id to)
  perform auth now (create input) = discard (create_draft_order money auth input)
  perform auth now (edit id input) = update_draft money auth id input

  unfoldable pub serve : Request → Store → Store
  serve r s = (with_tenant (perform r.auth r.now r.command) s).1

  unfoldable pub serve_all : List Request → Store → Store
  serve_all [] s = s
  serve_all (r ∷ rs) s = serve_all rs (serve r s)

  perform-keeps :
      (auth : AuthContext) (now : ℕ) (c : Command) (s : Store)
      → IsConsistent s
      → Ensures (λ _ t. IsConsistent t) (perform auth now c s)
  unfolding perform
  perform-keeps auth now (adjust input) s c =
      require_membership-bind auth (λ _ t. IsConsistent t) _ s
        (λ m. discard-keeps _ s (
          Ensures-map (λ res t. AdjustmentShift m.organization input s res t)
            (λ _ t. IsConsistent t) _ (λ res t (w, site, named, a). Shift-IsConsistent _ s t a c)
            (adjust_transaction-Shift now auth m.organization input s)))
  perform-keeps auth now (receive input) s c =
      require_membership-bind auth (λ _ t. IsConsistent t) _ s
        (λ m. discard-keeps _ s (
          apply_receipt_transaction-keeps IsConsistent Shift-IsConsistent now auth m.organization
            input s c))
  perform-keeps auth now (move id to) s c = discard-keeps _ s (
      Ensures-map (λ _ u. TransitionedOrder now id to s u) (λ _ t. IsConsistent t) _
        (λ _ u w. w.2.consistent) (transition_order-Transitioned now auth id to s c))
  perform-keeps auth now (create input) s c = discard-keeps _ s (
      Ensures-map (Created money auth input s) (λ _ t. IsConsistent t) _
        (λ _ t (m, w, e, f, n, d). IsDraftOf-IsConsistent _ _ _ _ s t c d)
        (create_draft_order-IsDraftOf money auth input s c.unique_orders))
  perform-keeps auth now (edit id input) s c =
      Ensures-map (Updated money auth id input s) (λ _ t. IsConsistent t) _
        (λ _ t (o, f, g, d). IsDraftOf-IsConsistent _ _ _ _ s t c d)
        (update_draft-IsDraftOf money auth id input s c.unique_orders)

  serve-IsConsistent : (r : Request) (s : Store) → IsConsistent s → IsConsistent (serve r s)
  unfolding serve
  serve-IsConsistent r s c =
      with_tenant-keeps IsConsistent _ s c (perform-keeps r.auth r.now r.command s c)

  -- Whatever commands come, by whomever and in whatever order, whether they commit or are rolled
  -- back, a consistent store stays consistent: the stock on hand is the sum of the ledger, the stock
  -- held is what the confirmed orders ask for, and it is covered by the stock on hand.
  pub serve_all-IsConsistent :
      (rs : List Request) (s : Store) → IsConsistent s → IsConsistent (serve_all rs s)
  unfolding serve_all
  serve_all-IsConsistent [] s c = c
  serve_all-IsConsistent (r ∷ rs) s c =
      serve_all-IsConsistent rs (serve r s) (serve-IsConsistent r s c)
