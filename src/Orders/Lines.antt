-- ===== src/Orders/Lines.antt =====
-- What one line of an order does to its balance when the order is confirmed, fulfilled or cancelled.
use stock_pilot.Prelude.{ℕ, ◌≡◌, refl, ap, ◌∙◌, false, some, ⊤, inl, inr, Bool-cases, Option-cases}
use stock_pilot.Prelude.Int.{ℤ, pos, ◌+ℤ◌, ◌-ℤ◌, ltb_ℤ, int_laws}
use stock_pilot.Store.Rows.{Key, Balance, OrderLine, Order}
use stock_pilot.Store.Table.{find, pulse}
use stock_pilot.Store.Monad.{Store, Ensures, M, ok, err, Ensures-bind, Ensures-map}
use stock_pilot.Inventory.Projection.{InventoryState, InventoryDelta, InventoryProjection, or_zero}
use stock_pilot.Inventory.Bounds.{IsBalance}
use stock_pilot.Inventory.Steps.{state_of}
use stock_pilot.Inventory.Shift.{
  Change, Covers, Shift, Shift-then_still, Shift-recorded, Shift-unrecorded, still,
}
use stock_pilot.Inventory.StepLaws.{
  difference, self_difference, reconcile_balance-Shift, create_movement-Shift, update_balance-Shift,
  or_conflict-bind,
}
use stock_pilot.Orders.Transition.{
  line_key, find_product, lock_order_balance, LockedOrderBalance, reserve_line, fulfil_line,
  release_line,
}

-- The rest of the code runs with the row of the balance, on the store as it was.
pub lock_order_balance-bind :
    {B : Type 0} (k : Key) (Q : B → Store → Type 0) (f : LockedOrderBalance → M B) (s : Store)
    → ((locked : LockedOrderBalance)
        → find k s.balances ≡ some locked.balance
        → Ensures Q (f locked s))
    → Ensures Q (elim (lock_order_balance k s) [ ok (a, t) ↦ f a t | err e ↦ err e ])
unfolding lock_order_balance
lock_order_balance-bind k Q f s rest = elim (Option-cases (find k s.balances)) [
  | inl e ↦ rw e tt
  | inr (b, e) ↦ rw e (elim (Option-cases (find_product k.organization k.product s.products)) [
    | inl e' ↦ rw e' tt
    | inr (p, e') ↦ rw e' (rest (record { balance = b; reorder_point = p.reorder_point }) e)
  ])
]

-- The quantity of a line, at its balance.
abbrev pub taken : Order → OrderLine → Change
taken o l = pulse (line_key o l) (pos 0 -ℤ pos l.quantity)

abbrev pub claimed : Order → OrderLine → Change
claimed o l = pulse (line_key o l) (pos l.quantity)

sum_difference : (a b : ℤ) → a +ℤ b -ℤ a ≡ b
sum_difference a b = omega int_laws

-- Stock is held only where it is available.
claim-Covers :
    (b : Balance) (q : ℕ)
    → ltb_ℤ (b.on_hand -ℤ b.reserved) (pos q) ≡ false
    → Covers b.reserved b.on_hand
    → Covers (b.reserved +ℤ pos q) b.on_hand
claim-Covers b q enough c = grind int_laws

pub reserve_line-Shift :
    (now : ℕ) (o : Order) (l : OrderLine) (s : Store)
    → Ensures (λ _ t. Shift still (claimed o l) still s t) (reserve_line now o l s)
unfolding reserve_line
reserve_line-Shift now o l s =
    let k = line_key o l in
    lock_order_balance-bind k (λ _ t. Shift still (claimed o l) still s t) _ s
      (λ locked found.
        let b = locked.balance in
        elim (Bool-cases (ltb_ℤ (b.on_hand -ℤ b.reserved) (pos l.quantity))) [
          | inl short ↦ rw short tt
          | inr enough ↦ rw enough (
              Ensures-bind
                (λ row t.
                  ((row.on_hand ≡ b.on_hand) × (row.reserved ≡ b.reserved +ℤ pos l.quantity))
                  × Shift (pulse k (b.on_hand -ℤ b.on_hand))
                      (pulse k (b.reserved +ℤ pos l.quantity -ℤ b.reserved)) still s t)
                _ _ _ (update_balance-Shift k _ b s found (claim-Covers b l.quantity enough))
                (λ _ t (_, written).
                  Ensures-bind (λ _ u. Shift still still still t u) _ _ _
                    (reconcile_balance-Shift now _ t)
                    (λ _ u alert.
                      Shift-then_still
                        (Shift-unrecorded k (self_difference b.on_hand)
                          (sum_difference b.reserved (pos l.quantity)) written)
                        alert)))
        ])

projected-Covers :
    (c : InventoryState) (d : InventoryDelta) (p : InventoryProjection)
    → IsBalance c d p
    → Covers p.reserved p.on_hand
projected-Covers c d p h = (h.reserved_nonneg, h.reserved_covered)

released-Covers :
    (b : Balance) (d : InventoryDelta) (p : InventoryProjection)
    → IsBalance (state_of b) d p
    → or_zero d.on_hand_delta ≡ pos 0
    → Covers p.reserved b.on_hand
released-Covers b d p h z =
    let e : p.on_hand ≡ b.on_hand = h.on_hand_sum ∙ ap (λ x. b.on_hand +ℤ x) z ∙ omega int_laws in
    rw (← e) (h.reserved_nonneg, h.reserved_covered)

pub release_line-Shift :
    (now : ℕ) (o : Order) (l : OrderLine) (s : Store)
    → Ensures (λ _ t. Shift still (taken o l) still s t) (release_line now o l s)
unfolding release_line
release_line-Shift now o l s =
    let k = line_key o l in
    lock_order_balance-bind k (λ _ t. Shift still (taken o l) still s t) _ s
      (λ locked found.
        let b = locked.balance in
        or_conflict-bind (state_of b) _ (λ _ t. Shift still (taken o l) still s t) _ s
          (λ next fits.
            Ensures-bind
              (λ row t.
                ((row.on_hand ≡ b.on_hand) × (row.reserved ≡ next.reserved))
                × Shift (pulse k (b.on_hand -ℤ b.on_hand)) (pulse k (next.reserved -ℤ b.reserved))
                    still s t)
              _ _ _ (update_balance-Shift k _ b s found (λ c. released-Covers b _ next fits refl))
              (λ _ t (_, written).
                Ensures-bind (λ _ u. Shift still still still t u) _ _ _
                  (reconcile_balance-Shift now _ t)
                  (λ _ u alert.
                    Shift-then_still
                      (Shift-unrecorded k (self_difference b.on_hand)
                        (difference _ _ _ fits.reserved_sum) written)
                      alert))))

pub fulfil_line-Shift :
    (now actor : ℕ) (o : Order) (l : OrderLine) (s : Store)
    → Ensures (λ _ t. Shift (taken o l) (taken o l) (taken o l) s t) (fulfil_line now actor o l s)
unfolding fulfil_line
fulfil_line-Shift now actor o l s =
    let k = line_key o l in
    let Q : ⊤ → Store → Type 0 = λ _ t. Shift (taken o l) (taken o l) (taken o l) s t in
    lock_order_balance-bind k Q _ s (λ locked found.
      let b = locked.balance in
      or_conflict-bind (state_of b) _ Q _ s (λ next fits.
        Ensures-bind
          (λ row t.
            ((row.on_hand ≡ next.on_hand) × (row.reserved ≡ next.reserved))
            × Shift (pulse k (next.on_hand -ℤ b.on_hand)) (pulse k (next.reserved -ℤ b.reserved))
                still s t)
          _ _ _ (update_balance-Shift k _ b s found (λ c. projected-Covers _ _ next fits))
          (λ _ t (_, written).
            Ensures-bind (λ _ u. Shift still still still t u) _ _ _
              (reconcile_balance-Shift now _ t)
              (λ _ u alert.
                Ensures-map (λ _ v. Shift still still (taken o l) u v) Q _
                  (λ _ v recorded.
                    Shift-recorded k (difference _ _ _ fits.on_hand_sum)
                      (difference _ _ _ fits.reserved_sum) (Shift-then_still written alert)
                      recorded)
                  (create_movement-Shift _ u)))))
