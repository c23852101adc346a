-- ===== src/Integrations/Delivery.antt =====
-- apps/api/src/integrations/integration-delivery.service.ts, and `retryQueuedDelivery` of
-- integration-retry.service.ts. `parse` is `MockStorefrontOrderSchema.parse`, which answers nothing
-- where it throws; `message` is the text of an error, cut to 1000.
use Prim.Native.String.{String}
use text.Mathlib.Text.{◌==◌ as str_eq}
use stock_pilot.Prelude.{
  ℕ, ◌+◌, ◌==◌, ◌&&◌, Bool, true, false, Option, none, some, List, ◌∷◌, ⊤, leb, find_first,
  update_where, if◌then◌else◌,
}
use stock_pilot.Store.Rows.{
  Delivery, DeliveryStatus, processing, succeeded, failed, StorefrontOrder, integration_retried,
}
use stock_pilot.Store.Monad.{
  Store, M, Result, ok, err, Error, delivery_not_found, invalid_payload, record_not_found,
  duplicate_key, retry_failed, gets, modify, pure, throw_if, or_throw, with_tenant, ◌>>=◌, ◌>>◌,
}
use stock_pilot.Inventory.Steps.{fresh_id, record_audit}
use stock_pilot.Orders.Drafts.{Money}
use stock_pilot.Integrations.StorefrontDraft.{create_storefront_draft_order}

pub record DeliveryResult : Type 0 where
  pub duplicate : Bool
  pub order : Option ℕ
  pub error : Option String
  pub status : DeliveryStatus

-- `where: { id }`
abbrev pub is_delivery : ℕ → Delivery → Bool
is_delivery id d = d.id == id

-- `where: { id, organizationId }`
unfoldable pub find_delivery_in : ℕ → ℕ → List Delivery → Option Delivery
find_delivery_in org id ds = find_first (λ d. (d.organization == org) && is_delivery id d) ds

-- `organizationId_externalDeliveryId`
unfoldable pub find_external : ℕ → String → List Delivery → Option Delivery
find_external org external ds =
    find_first (λ d. (d.organization == org) && str_eq d.external_delivery external) ds

-- `integrationDelivery.update({ where: { id } })`, which answers the new row.
unfoldable pub update_delivery : ℕ → (Delivery → Delivery) → M Delivery
update_delivery id change = do
  before ← or_throw (← gets (λ s. find_first (is_delivery id) s.deliveries)) record_not_found
  modify (λ s. record s { deliveries = update_where (is_delivery id) change s.deliveries })
  pure (change before)

-- `integrationDelivery.create`: the primary key refuses an identifier that is there.
unfoldable pub create_delivery : Delivery → M ⊤
create_delivery d = do
  taken ← gets (λ s. find_first (is_delivery d.id) s.deliveries)
  throw_if (elim taken [ none ↦ false | some _ ↦ true ]) duplicate_key
  modify (λ s. record s { deliveries = d ∷ s.deliveries })

-- The row of a delivery that arrives.
abbrev pub new_delivery : ℕ → ℕ → String → StorefrontOrder → Delivery
new_delivery id org external payload = record {
  id = id;
  organization = org;
  external_delivery = external;
  event_type = payload.event_type;
  payload = payload;
  status = processing;
  attempts = 1;
  last_error = none;
  sales_order = none;
  processed_at = none;
}

abbrev pub started : Delivery → Delivery
started d = record d { attempts = d.attempts + 1; last_error = none; status = processing }

abbrev pub retried_with : ℕ → ℕ → Delivery → Delivery
retried_with now order d = record d {
  last_error = none;
  processed_at = some now;
  sales_order = some order;
  status = succeeded;
}

abbrev pub processed_with : ℕ → ℕ → Delivery → Delivery
processed_with now order d = record d {
  processed_at = some now;
  sales_order = some order;
  status = succeeded;
}

abbrev pub failed_with : String → Delivery → Delivery
failed_with text d = record d { last_error = some text; status = failed }

unfoldable pub is_succeeded : DeliveryStatus → Bool
is_succeeded succeeded = true
is_succeeded _ = false

unfoldable pub is_failed : DeliveryStatus → Bool
is_failed failed = true
is_failed _ = false

-- `maxAttempts !== undefined && delivery.attempts >= maxAttempts`
unfoldable pub reached : Option ℕ → ℕ → Bool
reached none attempts = false
reached (some limit) attempts = leb limit attempts

-- `delivery.lastError ?? 'Automatic retry limit reached.'`
unfoldable pub error_or_limit : Option String → String
error_or_limit none = "Automatic retry limit reached."
error_or_limit (some text) = text

-- `SAVEPOINT`, the work, and in the handler `ROLLBACK TO SAVEPOINT`.
unfoldable pub try_or : {A : Type 0} → M A → (Error → M A) → M A
try_or work handler s = elim (work s) [ ok (a, t) ↦ ok (a, t) | err e ↦ handler e s ]

abbrev pub max_automatic_delivery_attempts : ℕ
max_automatic_delivery_attempts = 7

module _ (money : Money) (to_upper : String → String)
    (parse : StorefrontOrder → Option StorefrontOrder) (message : Error → String) where
  -- The handler of both `try` statements.
  unfoldable pub mark_failed : ℕ → Error → M DeliveryResult
  mark_failed id e = do
    updated ← update_delivery id (failed_with (message e))
    pure (record {
      duplicate = false;
      order = none;
      error = updated.last_error;
      status = updated.status;
    })

  unfoldable pub retry_work : ℕ → ℕ → ℕ → ℕ → StorefrontOrder → M DeliveryResult
  retry_work now org actor id payload = do
    order ← create_storefront_draft_order money to_upper org actor payload
    updated ← update_delivery id (retried_with now order)
    record_audit
        (record { action = integration_retried; actor = actor; entity_id = id; organization = org })
    pure (record { duplicate = false; order = some order; error = none; status = updated.status })

  -- From the new attempt on.
  unfoldable pub start_attempt : ℕ → ℕ → ℕ → ℕ → StorefrontOrder → M DeliveryResult
  start_attempt now org actor id payload = do
    update_delivery id started
    try_or (retry_work now org actor id payload) (mark_failed id)

  -- What is done with the delivery that the lock selects.
  unfoldable pub retry_found : ℕ → ℕ → ℕ → ℕ → Option ℕ → Delivery → M DeliveryResult
  retry_found now org actor id max_attempts delivery =
      if is_succeeded delivery.status
      then pure (record {
        duplicate = true;
        order = delivery.sales_order;
        error = none;
        status = delivery.status;
      })
      else if reached max_attempts delivery.attempts
      then pure (record {
        duplicate = false;
        order = none;
        error = some (error_or_limit delivery.last_error);
        status = failed;
      })
      else (do
        payload ← or_throw (parse delivery.payload) invalid_payload
        start_attempt now org actor id payload)

  unfoldable pub retry_delivery_transaction : ℕ → ℕ → ℕ → ℕ → Option ℕ → M DeliveryResult
  retry_delivery_transaction now org actor id max_attempts = do
    delivery ← or_throw (← gets (λ s. find_delivery_in org id s.deliveries)) delivery_not_found
    retry_found now org actor id max_attempts delivery

  unfoldable pub process_work : ℕ → ℕ → ℕ → ℕ → StorefrontOrder → M DeliveryResult
  process_work now org actor id payload = do
    order ← create_storefront_draft_order money to_upper org actor payload
    updated ← update_delivery id (processed_with now order)
    pure (record { duplicate = false; order = some order; error = none; status = updated.status })

  -- `if (existing) … `, and what follows it.
  unfoldable pub process_unless :
      ℕ → ℕ → ℕ → String → StorefrontOrder → Option Delivery → M DeliveryResult
  process_unless now org actor external payload (some existing) = pure (record {
    duplicate = true;
    order = existing.sales_order;
    error = none;
    status = existing.status;
  })
  process_unless now org actor external payload none = do
    id ← fresh_id
    create_delivery (new_delivery id org external payload)
    try_or (process_work now org actor id payload) (mark_failed id)

  -- The work of `processExternalDelivery`.
  unfoldable pub process_delivery : ℕ → ℕ → ℕ → String → StorefrontOrder → M DeliveryResult
  process_delivery now org actor external payload = do
    existing ← gets (λ s. find_external org external s.deliveries)
    process_unless now org actor external payload existing

  -- The attempt of a queue worker: the store is committed also where the job is thrown back.
  unfoldable pub retry_queued_delivery : ℕ → ℕ → ℕ → ℕ → Store → Result ⊤ × Store
  retry_queued_delivery now org actor id s =
      let (answer, t) =
        with_tenant
          (retry_delivery_transaction now org actor id (some max_automatic_delivery_attempts)) s in
      (
        elim answer [
          | err e ↦ err e
          | ok r ↦ if is_failed r.status then err retry_failed else ok tt
        ],
        t,
      )
