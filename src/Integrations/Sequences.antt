-- ===== src/Integrations/Sequences.antt =====
-- Sequences of calls on deliveries, as the state machine sees them.
use Prim.Native.String.{String}
use stock_pilot.Prelude.{ℕ, ◌≤◌, ◌≡◌, refl, Bool, true, not, Option, none, List, [], ◌∷◌, arith}
use stock_pilot.Store.Rows.{StorefrontOrder}
use stock_pilot.Store.Monad.{
  Store, M, Error, membership_required, plan_feature_unavailable, Ensures, Ensures-bind,
  or_throw-bind, throw_if-bind,
}
use stock_pilot.Auth.Context.{AuthContext, require_membership}
use stock_pilot.Billing.{entitlements_for, effective_plan_in_transaction, plan_of}
use stock_pilot.Orders.Consistency.{IsUnique, IsConsistent}
use stock_pilot.Orders.Drafts.{Money}
use stock_pilot.Idempotency.{Json, purge_expired}
use stock_pilot.Integrations.Delivery.{
  DeliveryResult, retry_queued_delivery, max_automatic_delivery_attempts,
}
use stock_pilot.Integrations.Steps.{done, view, IsKeyed, Moves, attempts_of}
use stock_pilot.Integrations.Moves.{process_delivery-Moves, retry_delivery_transaction-Moves}
use stock_pilot.Integrations.External.{
  assert_integrations_entitled, DeliveryEvent, arrived, retried, queued, as_body, retry_request,
  external_request, external_transaction, process_external_delivery, retry_transaction, deliver,
  deliver_all,
}
use stock_pilot.Integrations.Reaches.{
  automatic, limit_of, all_automatic, Moves-attempts_of, here, Reaches-done, Delivered,
  Delivered-after,
}
use stock_pilot.Integrations.Transactions.{with_tenant-Moves, execute_idempotent-Moves}

module _ (money : Money) (to_upper : String → String)
    (parse : StorefrontOrder → Option StorefrontOrder) (message : Error → String)
    (comes_first : String → String → Bool) (stringify : Json → String) (hash : String → String)
    (payload_json : StorefrontOrder → Json) (id_json : ℕ → Json) (to_json : DeliveryResult → String)
    (of_json : String → DeliveryResult) where
  as_body-Moves :
      (limit : Option ℕ) (work : M DeliveryResult) (s t : Store)
      → Ensures (λ _ u. Moves limit s u) (work t)
      → Ensures
          (λ _ u. Moves limit s u)
          (as_body money to_upper parse message comes_first stringify hash payload_json id_json
            to_json of_json work t)
  unfolding as_body
  as_body-Moves limit work s t h =
      Ensures-bind (λ _ u. Moves limit s u) (λ _ u. Moves limit s u) _ _ h (λ r u m. m)

  retry_transaction-Moves :
      (now created : ℕ) (auth : AuthContext) (id : ℕ) (key : String) (s : Store)
      → IsUnique s.orders
      → IsKeyed s.deliveries
      → Ensures
          (λ _ t. Moves none s t)
          (retry_transaction money to_upper parse message comes_first stringify hash payload_json
            id_json to_json of_json now created auth id key s)
  unfolding retry_transaction require_membership assert_integrations_entitled
      effective_plan_in_transaction purge_expired retry_request
  retry_transaction-Moves now created auth id key s u keyed =
      or_throw-bind auth.membership membership_required (λ _ t. Moves none s t) _ s
        λ m _.
          throw_if-bind (not (entitlements_for (plan_of m.organization s)).integrations)
            plan_feature_unavailable (λ _ t. Moves none s t) _ s
            λ _. execute_idempotent-Moves comes_first stringify hash none now created _ _ s (
              as_body-Moves none _ _ _ (
                retry_delivery_transaction-Moves money to_upper parse message now m.organization
                  auth.user id none (purge_expired m.organization now s) u keyed))

  deliver-Moves :
      (now created : ℕ) (e : DeliveryEvent) (s : Store)
      → IsUnique s.orders
      → IsKeyed s.deliveries
      → Moves (limit_of e) s (
          deliver money to_upper parse message comes_first stringify hash payload_json id_json
            to_json of_json now created e s)
  unfolding deliver limit_of process_external_delivery external_transaction retry_queued_delivery
      purge_expired external_request
  deliver-Moves now created (arrived org actor external payload) s u keyed =
      with_tenant-Moves automatic _ s (
        execute_idempotent-Moves comes_first stringify hash automatic now created _ _ s (
          as_body-Moves automatic _ _ _ (
            process_delivery-Moves money to_upper parse message automatic now org actor external
              payload (purge_expired org now s) u)))
  deliver-Moves now created (retried auth id key) s u keyed =
      with_tenant-Moves none _ s (retry_transaction-Moves now created auth id key s u keyed)
  deliver-Moves now created (queued org actor id) s u keyed = with_tenant-Moves automatic _ s (
      retry_delivery_transaction-Moves money to_upper parse message now org actor id automatic s u
        keyed)

  -- Webhooks, retries by users and attempts of queue workers, in any order and by whomever, move
  -- every delivery only by steps of its state machine, where orders are consistent and deliveries
  -- have unique identifiers: from not there to one attempt, from a failed attempt to the next one,
  -- and to done with an order, which nothing leaves. There is exactly one new order for each
  -- delivery that gets done, failed attempts leave none, and stock, ledger and orders stay
  -- consistent.
  pub deliver_all-Delivered :
      (es : List (ℕ × ℕ × DeliveryEvent)) (s : Store)
      → IsConsistent s
      → IsKeyed s.deliveries
      → Delivered s (
          deliver_all money to_upper parse message comes_first stringify hash payload_json id_json
            to_json of_json es s)
  unfolding deliver_all
  deliver_all-Delivered [] s c k = record {
    reaches = λ id. here;
    accounts = refl;
    consistent = c;
    keyed = k;
  }
  deliver_all-Delivered ((now, created, e) ∷ es) s c k =
      let m = deliver-Moves now created e s c.unique_orders k in
      Delivered-after (limit_of e) s _ _ c k m (deliver_all-Delivered es _ (m.keeps c) (m.keyed k))

  -- A delivery that has succeeded keeps its order and its number of attempts, whatever webhooks and
  -- retries follow, where orders are consistent and deliveries have unique identifiers.
  pub deliver_all-done :
      (es : List (ℕ × ℕ × DeliveryEvent)) (s : Store) (id n : ℕ) (order : Option ℕ)
      → IsConsistent s
      → IsKeyed s.deliveries
      → view id s ≡ done n order
      → view id (
          deliver_all money to_upper parse message comes_first stringify hash payload_json id_json
            to_json of_json es s)
        ≡ done n order
  deliver_all-done es s id n order c k h =
      Reaches-done (view id s) _ n order h ((deliver_all-Delivered es s c k).reaches id)

  -- Where no user asks for a retry, webhooks and queue workers never take a delivery over seven
  -- attempts, where orders are consistent and deliveries have unique identifiers.
  pub deliver_all-attempts_of :
      (es : List (ℕ × ℕ × DeliveryEvent)) (s : Store) (id : ℕ)
      → all_automatic es ≡ true
      → IsConsistent s
      → IsKeyed s.deliveries
      → attempts_of (view id s) ≤ max_automatic_delivery_attempts
      → attempts_of (
          view id (
            deliver_all money to_upper parse message comes_first stringify hash payload_json id_json
              to_json of_json es s))
        ≤ max_automatic_delivery_attempts
  unfolding deliver_all all_automatic
  deliver_all-attempts_of [] s id a c k h = h
  deliver_all-attempts_of ((now, created, e) ∷ es) s id a c k h =
      let m = deliver-Moves now created e s c.unique_orders k in
      let rest : all_automatic es ≡ true = ground arith in
      deliver_all-attempts_of es _ id rest (m.keeps c) (m.keyed k)
        (Moves-attempts_of e s _ id (ground arith) m h)
