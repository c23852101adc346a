-- ===== src/Integrations/Outcomes.antt =====
-- What each call on deliveries does.
use Prim.Native.String.{String}
use stock_pilot.Prelude.{
  ◌+◌, ℕ, suc, ◌==◌, ◌≡◌, refl, ap, true, false, Option, none, some, ◌⊎◌, inl, inr, length,
  find_first, update_where, find_first-write, find_first-narrow, Bool-cases,
}
use stock_pilot.Store.Rows.{Delivery, processing, succeeded, failed, StorefrontOrder}
use stock_pilot.Store.Monad.{
  Store, M, Result, ok, err, Error, Ensures, Ensures-bind, Achieves, Achieves-Ensures,
  returned-bind, found-bind, delivery_not_found, invalid_payload, Achieves-map,
}
use stock_pilot.Inventory.Loops.{total}
use stock_pilot.Inventory.Steps.{record_audit}
use stock_pilot.Orders.Transition.{find_order}
use stock_pilot.Orders.Consistency.{IsUnique}
use stock_pilot.Orders.Drafts.{Money}
use stock_pilot.Orders.DraftLaws.{IsDraftOf, IsDraftOf-same}
use stock_pilot.Integrations.StorefrontDraft.{find_products_by_sku, skus_of}
use stock_pilot.Integrations.StorefrontLaws.{
  asked_item, Ordered, create_storefront_draft_order-Ordered,
}
use stock_pilot.Integrations.Steps.{IsKeyed}
use stock_pilot.Integrations.Delivery.{
  DeliveryResult, is_delivery, update_delivery, started, retried_with, processed_with, failed_with,
  try_or, mark_failed, retry_work, process_work, start_attempt, is_succeeded, reached,
  find_delivery_in, retry_found, retry_delivery_transaction,
}

update_delivery-found :
    (id : ℕ) (change : Delivery → Delivery) (d : Delivery) (s : Store)
    → find_first (is_delivery id) s.deliveries ≡ some d
    → update_delivery id change s
      ≡ ok (change d, record s { deliveries = update_where (is_delivery id) change s.deliveries })
unfolding update_delivery
update_delivery-found id change d s h = rw h refl

-- Work under a savepoint returns if its handler does.
pub try_or-Achieves :
    {A : Type 0} (Q : A → Store → Type 0) (work : M A) (handler : Error → M A) (s : Store)
    → Ensures Q (work s)
    → ((e : Error) → work s ≡ err e → Achieves Q (handler e s))
    → Achieves Q (try_or work handler s)
unfolding try_or
try_or-Achieves {A} Q work handler s h k = go (work s) h refl
  where
    go :
        (r : Result (A × Store))
        → Ensures Q r
        → work s ≡ r
        → Achieves Q (elim r [ ok (a, t) ↦ ok (a, t) | err e ↦ handler e s ])
    go (ok (a, t)) h w = h
    go (err e) h w = k e w

-- The store after the write that opens an attempt.
abbrev pub with_started : ℕ → Store → Store
with_started id s = record s {
  deliveries =
      update_where (is_delivery id)
        (λ y. record y { attempts = y.attempts + 1; last_error = none; status = processing })
        s.deliveries;
}

-- A row that a retry has finished with an order.
abbrev pub finished_retry : ℕ → ℕ → Delivery → Delivery
finished_retry now order y = record y {
  last_error = none;
  processed_at = some now;
  sales_order = some order;
  status = succeeded;
}

module _ (money : Money) (to_upper : String → String)
    (parse : StorefrontOrder → Option StorefrontOrder) (message : Error → String) where
  -- The order `o` is the one that is new in `t`, a draft for the items of the payload.
  abbrev pub Placed : ℕ → StorefrontOrder → Store → ℕ → Store → Type 0
  Placed org payload s o t =
      (warehouse : ℕ) × (find_order o s.orders ≡ none)
      × (length t.orders ≡ suc (length s.orders))
      × IsDraftOf o org warehouse
          (total
            (asked_item money to_upper org warehouse
              (find_products_by_sku org (skus_of money to_upper payload) s.products))
            payload.items)
          s t

  -- What an attempt on the row `id` of `s` answers and leaves. Where its work throws it fails with
  -- the text of that error and leaves nothing but the row; one that succeeds leaves its order too.
  abbrev pub Attempted :
      M DeliveryResult
      → (ℕ → Delivery → Delivery)
      → ℕ
      → ℕ
      → StorefrontOrder
      → Store
      → DeliveryResult
      → Store
      → Type 0
  Attempted work finish org id payload s r t =
      ((e : Error) × (work s ≡ err e)
        × (r
            ≡ record { duplicate = false; order = none; error = some (message e); status = failed })
        × (t ≡ record s {
          deliveries =
              update_where (is_delivery id)
                (λ y. record y { last_error = some (message e); status = failed }) s.deliveries;
        }))
      ⊎ ((o : ℕ) × (r
            ≡ record { duplicate = false; order = some o; error = none; status = succeeded })
          × (t.deliveries ≡ update_where (is_delivery id) (finish o) s.deliveries)
          × Placed org payload s o t)

  pub mark_failed-Attempted :
      (work : M DeliveryResult) (finish : ℕ → Delivery → Delivery) (org id : ℕ)
      (payload : StorefrontOrder) (d : Delivery) (e : Error) (s : Store)
      → work s ≡ err e
      → find_first (is_delivery id) s.deliveries ≡ some d
      → Achieves
          (Attempted work finish org id payload s)
          (mark_failed money to_upper parse message id e s)
  unfolding mark_failed
  mark_failed-Attempted work finish org id payload d e s thrown found =
      returned-bind (Attempted work finish org id payload s) _ _ _ _
        (update_delivery-found id (failed_with (message e)) d s found) (inl (e, thrown, refl, refl))

  retry_work-Attempted :
      (now org actor id : ℕ) (payload : StorefrontOrder) (d : Delivery) (s : Store)
      → IsUnique s.orders
      → find_first (is_delivery id) s.deliveries ≡ some d
      → Ensures
          (Attempted
            (retry_work money to_upper parse message now org actor id payload)
            (retried_with now)
            org
            id
            payload
            s)
          (retry_work money to_upper parse message now org actor id payload s)
  unfolding retry_work record_audit
  retry_work-Attempted now org actor id payload d s u found =
      Ensures-bind (Ordered money to_upper org payload s) Q _ _
        (create_storefront_draft_order-Ordered money to_upper org actor payload s u)
        λ o t (w, new, a). Achieves-Ensures Q _ (
          returned-bind Q _ _ _ _
            (update_delivery-found id (retried_with now o) d t (rw a.deliveries_same found))
            (inr (
              o,
              refl,
              ap (update_where (is_delivery id) (retried_with now o)) a.deliveries_same,
              (
                w,
                new,
                a.one_more,
                IsDraftOf-same o org w _ s s t _ refl refl refl refl refl refl a.drafts,
              ),
            )))
    where
      Q : DeliveryResult → Store → Type 0
      Q =
          Attempted (retry_work money to_upper parse message now org actor id payload)
            (retried_with now) org id payload s

  pub process_work-Attempted :
      (now org actor id : ℕ) (payload : StorefrontOrder) (d : Delivery) (s : Store)
      → IsUnique s.orders
      → find_first (is_delivery id) s.deliveries ≡ some d
      → Ensures
          (Attempted
            (process_work money to_upper parse message now org actor id payload)
            (processed_with now)
            org
            id
            payload
            s)
          (process_work money to_upper parse message now org actor id payload s)
  unfolding process_work
  process_work-Attempted now org actor id payload d s u found =
      Ensures-bind (Ordered money to_upper org payload s) Q _ _
        (create_storefront_draft_order-Ordered money to_upper org actor payload s u)
        λ o t (w, new, a). Achieves-Ensures Q _ (
          returned-bind Q _ _ _ _
            (update_delivery-found id (processed_with now o) d t (rw a.deliveries_same found))
            (inr (
              o,
              refl,
              ap (update_where (is_delivery id) (processed_with now o)) a.deliveries_same,
              (
                w,
                new,
                a.one_more,
                IsDraftOf-same o org w _ s s t _ refl refl refl refl refl refl a.drafts,
              ),
            )))
    where
      Q : DeliveryResult → Store → Type 0
      Q =
          Attempted (process_work money to_upper parse message now org actor id payload)
            (processed_with now) org id payload s

  pub start_attempt-Attempted :
      (now org actor id : ℕ) (payload : StorefrontOrder) (d : Delivery) (s : Store)
      → IsUnique s.orders
      → find_first (is_delivery id) s.deliveries ≡ some d
      → Achieves
          (Attempted
            (retry_work money to_upper parse message now org actor id payload)
            (finished_retry now)
            org
            id
            payload
            (with_started id s))
          (start_attempt money to_upper parse message now org actor id payload s)
  unfolding start_attempt
  start_attempt-Attempted now org actor id payload d s u found =
      let again = find_first-write (is_delivery id) started s.deliveries d (λ y. refl) found in
      returned-bind Q _ _ _ _ (update_delivery-found id started d s found) (
        try_or-Achieves Q _ _ (with_started id s)
          (retry_work-Attempted now org actor id payload (started d) (with_started id s) u again)
          (λ e thrown.
            mark_failed-Attempted (retry_work money to_upper parse message now org actor id payload)
              (finished_retry now) org id payload (started d) e (with_started id s) thrown again))
    where
      Q : DeliveryResult → Store → Type 0
      Q =
          Attempted (retry_work money to_upper parse message now org actor id payload)
            (finished_retry now) org id payload (with_started id s)

  -- A retry of the delivery `id`, which the caller's organization has, in every case.
  abbrev pub Retried : ℕ → ℕ → ℕ → ℕ → Option ℕ → Delivery → Store → DeliveryResult → Store → Type 0
  Retried now org actor id max_attempts d s r t =
      ((is_succeeded d.status ≡ true)
        × (r ≡ record { duplicate = true; order = d.sales_order; error = none; status = d.status })
        × (t ≡ s))
      ⊎ ((is_succeeded d.status ≡ false)
          × (reached max_attempts d.attempts ≡ true)
          × (r.status ≡ failed)
          × (t ≡ s))
      ⊎ ((is_succeeded d.status ≡ false)
          × (reached max_attempts d.attempts ≡ false)
          × ((payload : StorefrontOrder) × (parse d.payload ≡ some payload)
              × Attempted (retry_work money to_upper parse message now org actor id payload)
                  (finished_retry now) org id payload (with_started id s) r t))

  -- A retry of a delivery that the organization has and whose payload parses always answers, where
  -- identifiers are unique. One that succeeded before is answered with its order and changes
  -- nothing, nor does one that has reached the limit. Otherwise the row has one attempt more, and
  -- either the work throws, and the row is failed with the text of that error and nothing else of
  -- the store has changed, or it has succeeded with an order that is new, a draft for the items of
  -- the payload.
  pub retry_delivery_transaction-Retried :
      (now org actor id : ℕ) (max_attempts : Option ℕ) (d : Delivery) (payload : StorefrontOrder)
      (s : Store)
      → IsUnique s.orders
      → IsKeyed s.deliveries
      → find_delivery_in org id s.deliveries ≡ some d
      → parse d.payload ≡ some payload
      → Achieves
          (Retried now org actor id max_attempts d s)
          (retry_delivery_transaction money to_upper parse message now org actor id max_attempts s)
  unfolding retry_delivery_transaction retry_found find_delivery_in
  retry_delivery_transaction-Retried now org actor id max_attempts d payload s u keyed found
        parsed =
      let row =
        find_first-narrow (is_delivery id) (λ d. d.organization == org) s.deliveries d (keyed id)
          found in
      found-bind (find_first _ s.deliveries) delivery_not_found Q _ s d found
        (elim (Bool-cases (is_succeeded d.status)) [
          | inl e ↦ rw e (inl (e, refl, refl))
          | inr e ↦ elim (Bool-cases (reached max_attempts d.attempts)) [
            | inl f ↦ rw (e, f) (inr (inl (e, f, refl, refl)))
            | inr f ↦
                rw (e, f)
                  (found-bind (parse d.payload) invalid_payload Q _ s payload parsed (
                    Achieves-map
                      (Attempted (retry_work money to_upper parse message now org actor id payload)
                        (finished_retry now) org id payload (with_started id s))
                      Q _ (λ r t a. inr (inr (e, f, (payload, parsed, a))))
                      (start_attempt-Attempted now org actor id payload d s u row)))
          ]
        ])
    where
      Q : DeliveryResult → Store → Type 0
      Q = Retried now org actor id max_attempts d s
