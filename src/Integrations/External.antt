-- ===== src/Integrations/External.antt =====
-- `processExternalDelivery` of integration-delivery.service.ts and `retry` of integration.service.ts
-- (apps/api/src/integrations): the calls on deliveries, each under its idempotency key.
-- `payload_json` and `id_json` are the payloads as JSON, `to_json` and `of_json` write and read the
-- body of an answer.
use Prim.Native.String.{String}
use stock_pilot.Prelude.{ℕ, Bool, ◌||◌, not, Option, none, List, [], ◌∷◌, ⊤}
use stock_pilot.Store.Rows.{StorefrontOrder}
use stock_pilot.Store.Monad.{
  Store, M, Result, ok, err, Error, plan_feature_unavailable, pure, throw_if, with_tenant, ◌>>=◌,
  ◌>>◌,
}
use stock_pilot.Auth.Context.{AuthContext, require_membership}
use stock_pilot.Billing.{entitlements_for, effective_plan_in_transaction}
use stock_pilot.Orders.Drafts.{Money}
use stock_pilot.Idempotency.{Json, IdempotentRequest, IdempotentExecution, execute_idempotent}
use stock_pilot.Integrations.Delivery.{
  DeliveryResult, process_delivery, retry_delivery_transaction, retry_queued_delivery,
}

-- `assertIntegrationsEntitled`
unfoldable pub assert_integrations_entitled : ℕ → M ⊤
assert_integrations_entitled org = do
  plan ← effective_plan_in_transaction org
  throw_if (not (entitlements_for plan).integrations) plan_feature_unavailable

-- A webhook's order, a retry by a user, and an attempt of a queue worker.
pub data DeliveryEvent : Type 0 where
  arrived : ℕ → ℕ → String → StorefrontOrder → DeliveryEvent
  retried : AuthContext → ℕ → String → DeliveryEvent
  queued : ℕ → ℕ → ℕ → DeliveryEvent

module _ (money : Money) (to_upper : String → String)
    (parse : StorefrontOrder → Option StorefrontOrder) (message : Error → String)
    (comes_first : String → String → Bool) (stringify : Json → String) (hash : String → String)
    (payload_json : StorefrontOrder → Json) (id_json : ℕ → Json) (to_json : DeliveryResult → String)
    (of_json : String → DeliveryResult) where
  -- The body of an answer is the JSON of what the work answers.
  unfoldable pub as_body : M DeliveryResult → M String
  as_body work = do r ← work; pure (to_json r)

  unfoldable pub external_request : ℕ → String → StorefrontOrder → IdempotentRequest
  external_request org external payload = record {
    key = external;
    organization = org;
    payload = payload_json payload;
    response_status = 202;
    scope = "webhook:mock-storefront:order";
  }

  -- The transaction of `processExternalDelivery`.
  unfoldable pub external_transaction :
      ℕ → ℕ → ℕ → ℕ → String → StorefrontOrder → M IdempotentExecution
  external_transaction now created org actor external payload =
      execute_idempotent comes_first stringify hash now created
        (external_request org external payload)
        (as_body (process_delivery money to_upper parse message now org actor external payload))

  -- `({ ...result.body, duplicate: result.replayed || result.body.duplicate })`
  unfoldable pub answer_external : Result IdempotentExecution → Result DeliveryResult
  answer_external (err e) = err e
  answer_external (ok x) =
      ok (record (of_json x.body) { duplicate = x.replayed || (of_json x.body).duplicate })

  unfoldable pub process_external_delivery :
      ℕ → ℕ → ℕ → ℕ → String → StorefrontOrder → Store → Result DeliveryResult × Store
  process_external_delivery now created org actor external payload s =
      let (answer, t) =
        with_tenant (external_transaction now created org actor external payload) s in
      (answer_external answer, t)

  unfoldable pub retry_request : ℕ → String → ℕ → IdempotentRequest
  retry_request org key id = record {
    key = key;
    organization = org;
    payload = id_json id;
    response_status = 200;
    scope = "integration:retry";
  }

  -- The transaction of `retry`.
  unfoldable pub retry_transaction : ℕ → ℕ → AuthContext → ℕ → String → M IdempotentExecution
  retry_transaction now created auth id key = do
    membership ← require_membership auth
    let org = membership.organization
    assert_integrations_entitled org
    execute_idempotent comes_first stringify hash now created (retry_request org key id) (
        as_body (retry_delivery_transaction money to_upper parse message now org auth.user id none))

  -- `now` is the clock at the purge of old keys, `created` that at the new key.
  unfoldable pub deliver : ℕ → ℕ → DeliveryEvent → Store → Store
  deliver now created (arrived org actor external payload) s =
      (process_external_delivery now created org actor external payload s).1
  deliver now created (retried auth id key) s =
      (with_tenant (retry_transaction now created auth id key) s).1
  deliver now created (queued org actor id) s =
      (retry_queued_delivery money to_upper parse message now org actor id s).1

  -- Calls in any order, each with the times at which it runs.
  unfoldable pub deliver_all : List (ℕ × ℕ × DeliveryEvent) → Store → Store
  deliver_all [] s = s
  deliver_all ((now, created, e) ∷ es) s = deliver_all es (deliver now created e s)
