-- ===== src/Integrations/Moves.antt =====
-- Every call on deliveries moves them by steps.
use Prim.Native.String.{String}
use mathlib.Core.Path.{subst}
use stock_pilot.Prelude.{
  ℕ, suc, ◌==◌, ◌≡◌, refl, sym, ◌∙◌, false, Option, none, some, List, ◌∷◌, inl, inr, arith,
  find_first, update_where, find_first-narrow, update_where-update_where, update_where-absent,
  Option-cases, Bool-cases,
}
use stock_pilot.Store.Rows.{Delivery, StorefrontOrder}
use stock_pilot.Store.Monad.{
  M, Store, Error, Ensures, Ensures-bind, Ensures-map, Achieves-Ensures, or_throw-bind,
  delivery_not_found, invalid_payload,
}
use stock_pilot.Orders.Consistency.{IsUnique, IsConsistent}
use stock_pilot.Orders.Drafts.{Money}
use stock_pilot.Orders.DraftCommands.{IsDraftOf-IsConsistent}
use stock_pilot.Integrations.Steps.{
  state_of_row, arrived_pending, arrived_done, retried_pending, retried_done, IsKeyed, Moves,
  Moves-refl, write-Moves, create-Moves,
}
use stock_pilot.Inventory.Steps.{fresh_id}
use stock_pilot.Integrations.Outcomes.{
  Attempted, with_started, start_attempt-Attempted, try_or-Achieves, process_work-Attempted,
  mark_failed-Attempted,
}
use stock_pilot.Integrations.Delivery.{
  retry_work, DeliveryResult, is_delivery, started, retried_with, processed_with, failed_with,
  is_succeeded, reached, find_delivery_in, retry_found, retry_delivery_transaction, new_delivery,
  create_delivery, find_external, try_or, process_work, mark_failed, process_unless,
  process_delivery,
}

-- Stock, ledger and orders are as before.
pub IsConsistent-same :
    (s t : Store)
    → t.orders ≡ s.orders
    → t.balances ≡ s.balances
    → t.movements ≡ s.movements
    → IsConsistent s
    → IsConsistent t
IsConsistent-same s t a b m c = record {
  ledgered = λ k. rw (b, m) (c.ledgered k);
  held_by_orders = λ k. rw (a, b) (c.held_by_orders k);
  covered = λ k. rw b (c.covered k);
  unique_orders = rw a c.unique_orders;
}

module _ (money : Money) (to_upper : String → String)
    (parse : StorefrontOrder → Option StorefrontOrder) (message : Error → String) where
  retried-Moves :
      (limit : Option ℕ) (work : M DeliveryResult) (now org id : ℕ) (payload : StorefrontOrder)
      (d : Delivery) (s : Store) (r : DeliveryResult) (t : Store)
      → IsKeyed s.deliveries
      → find_first (is_delivery id) s.deliveries ≡ some d
      → is_succeeded d.status ≡ false
      → reached limit d.attempts ≡ false
      → Attempted money to_upper parse message work
          (retried_with now)
          org
          id
          payload
          (with_started id s)
          r
          t
      → Moves limit s t
  unfolding state_of_row is_succeeded
  retried-Moves limit work now org id payload d s r t keyed found pend within (inl (x, _, _, e)) =
      subst (λ u. Moves limit s u) (sym e)
        (write-Moves id (λ y. failed_with (message x) (started y)) (λ x. refl) d s _ keyed found
          pend
          (update_where-update_where (is_delivery id) started (failed_with (message x)) s.deliveries
            (λ y. refl))
          (retried_pending within) (omega arith) (IsConsistent-same s _ refl refl refl))
  retried-Moves limit work now org id payload d s r t keyed found pend within
        (inr (o, _, rows, (w, new, more, draft))) =
      write-Moves id (λ x. retried_with now o (started x)) (λ x. refl) d s t keyed found pend
        (rows
          ∙ update_where-update_where (is_delivery id) started (retried_with now o) s.deliveries
              (λ y. refl))
        (retried_done within) (omega (arith, more))
        (λ c. IsDraftOf-IsConsistent o org w _ _ t (IsConsistent-same s _ refl refl refl c) draft)

  pub retry_delivery_transaction-Moves :
      (now org actor id : ℕ) (max_attempts : Option ℕ) (s : Store)
      → IsUnique s.orders
      → IsKeyed s.deliveries
      → Ensures
          (λ _ t. Moves max_attempts s t)
          (retry_delivery_transaction money to_upper parse message now org actor id max_attempts s)
  unfolding retry_delivery_transaction retry_found find_delivery_in
  retry_delivery_transaction-Moves now org actor id max_attempts s u keyed =
      or_throw-bind (find_first _ s.deliveries) delivery_not_found Q _ s λ d found.
        let row =
          find_first-narrow (is_delivery id) (λ d. d.organization == org) s.deliveries d (keyed id)
            found in
        elim (Bool-cases (is_succeeded d.status)) [
          | inl e ↦ rw e (Moves-refl s)
          | inr e ↦ elim (Bool-cases (reached max_attempts d.attempts)) [
            | inl f ↦ rw (e, f) (Moves-refl s)
            | inr f ↦
                rw (e, f)
                  (or_throw-bind (parse d.payload) invalid_payload Q _ s λ payload _.
                    let A : DeliveryResult → Store → Type 0 =
                      Attempted money to_upper parse message
                        (retry_work money to_upper parse message now org actor id payload)
                        (retried_with now) org id payload (with_started id s) in
                    Ensures-map A Q _
                      (λ r t a.
                        retried-Moves max_attempts
                          (retry_work money to_upper parse message now org actor id payload) now org
                          id payload d s r t keyed row e f a)
                      (Achieves-Ensures A _ (
                        start_attempt-Attempted money to_upper parse message now org actor id
                          payload d s u row)))
          ]
        ]
    where
      Q : DeliveryResult → Store → Type 0
      Q _ t = Moves max_attempts s t

  -- The row that was just created is written once more.
  rewritten_first :
      (d : Delivery) (f : Delivery → Delivery) (ds : List Delivery)
      → find_first (is_delivery d.id) ds ≡ none
      → update_where (is_delivery d.id) f (d ∷ ds) ≡ f d ∷ ds
  unfolding update_where
  rewritten_first d f ds fresh = ground (arith, update_where-absent (is_delivery d.id) f ds fresh)

  with_arrived : ℕ → String → StorefrontOrder → Store → Store
  with_arrived org external payload s = record s {
    deliveries = new_delivery s.next_id org external payload ∷ s.deliveries;
    next_id = suc s.next_id;
  }

  processed-Moves :
      {limit : Option ℕ} (work : M DeliveryResult) (now org : ℕ) (external : String)
      (payload : StorefrontOrder) (s : Store) (r : DeliveryResult) (t : Store)
      → find_first (is_delivery s.next_id) s.deliveries ≡ none
      → Attempted money to_upper parse message work
          (processed_with now)
          org
          s.next_id
          payload
          (with_arrived org external payload s)
          r
          t
      → Moves limit s t
  unfolding with_arrived state_of_row is_succeeded
  processed-Moves {limit} work now org external payload s r t fresh (inl (x, _, _, e)) =
      let d : Delivery = new_delivery s.next_id org external payload in
      subst (λ u. Moves limit s u) (sym e)
        (create-Moves (failed_with (message x) d) s _ fresh
          (rewritten_first d (failed_with (message x)) s.deliveries fresh) arrived_pending
          (omega arith) (IsConsistent-same s _ refl refl refl))
  processed-Moves {limit} work now org external payload s r t fresh
        (inr (o, _, rows, (w, new, more, draft))) =
      let d : Delivery = new_delivery s.next_id org external payload in
      create-Moves (processed_with now o d) s t fresh
        (rows ∙ rewritten_first d (processed_with now o) s.deliveries fresh) arrived_done
        (omega (arith, more))
        (λ c. IsDraftOf-IsConsistent o org w _ _ t (IsConsistent-same s _ refl refl refl c) draft)

  create_delivery-fresh :
      (d : Delivery) (s : Store)
      → Ensures
          (λ _ t.
            (find_first (is_delivery d.id) s.deliveries ≡ none)
            × (t ≡ record s { deliveries = d ∷ s.deliveries }))
          (create_delivery d s)
  unfolding create_delivery
  create_delivery-fresh d s = elim (Option-cases (find_first (is_delivery d.id) s.deliveries)) [
    | inr (x, e) ↦ rw e tt
    | inl e ↦ rw e (refl, refl)
  ]

  process_try-Moves :
      (limit : Option ℕ) (now org actor : ℕ) (external : String) (payload : StorefrontOrder)
      (s : Store)
      → IsUnique s.orders
      → find_first (is_delivery s.next_id) s.deliveries ≡ none
      → Ensures
          (λ _ t. Moves limit s t)
          (try_or
            (process_work money to_upper parse message now org actor s.next_id payload)
            (mark_failed money to_upper parse message s.next_id)
            (with_arrived org external payload s))
  unfolding with_arrived find_first
  process_try-Moves limit now org actor external payload s u fresh =
      let d : Delivery = new_delivery s.next_id org external payload in
      let A : DeliveryResult → Store → Type 0 =
        Attempted money to_upper parse message
          (process_work money to_upper parse message now org actor s.next_id payload)
          (processed_with now) org s.next_id payload (with_arrived org external payload s) in
      let row : find_first (is_delivery s.next_id) (d ∷ s.deliveries) ≡ some d = ground arith in
      Ensures-map A (λ _ t. Moves limit s t) _
        (λ r t a.
          processed-Moves
            (process_work money to_upper parse message now org actor s.next_id payload) now org
            external payload s r t fresh a)
        (Achieves-Ensures A _ (
          try_or-Achieves A _ _ _
            (process_work-Attempted money to_upper parse message now org actor s.next_id payload d _
              u row)
            (λ e thrown.
              mark_failed-Attempted money to_upper parse message
                (process_work money to_upper parse message now org actor s.next_id payload)
                (processed_with now) org s.next_id payload d e _ thrown row)))

  pub process_delivery-Moves :
      (limit : Option ℕ) (now org actor : ℕ) (external : String) (payload : StorefrontOrder)
      (s : Store)
      → IsUnique s.orders
      → Ensures
          (λ _ t. Moves limit s t)
          (process_delivery money to_upper parse message now org actor external payload s)
  unfolding process_delivery process_unless fresh_id with_arrived
  process_delivery-Moves limit now org actor external payload s u =
      elim (Option-cases (find_external org external s.deliveries)) [
        | inr (d, e) ↦ rw e (Moves-refl s)
        | inl e ↦ rw e (
            Ensures-bind
              (λ _ t.
                (find_first (is_delivery s.next_id) s.deliveries ≡ none)
                × (t ≡ with_arrived org external payload s))
              (λ _ t. Moves limit s t) _ _
              (create_delivery-fresh (new_delivery s.next_id org external payload)
                (record s { next_id = suc s.next_id }))
              λ _ t (fresh, same).
                subst
                  (λ x.
                    Ensures (λ _ t. Moves limit s t)
                      (try_or
                        (process_work money to_upper parse message now org actor s.next_id payload)
                        (mark_failed money to_upper parse message s.next_id) x))
                  (sym same) (process_try-Moves limit now org actor external payload s u fresh))
      ]
