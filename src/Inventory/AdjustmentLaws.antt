-- ===== src/Inventory/AdjustmentLaws.antt =====
-- An adjustment moves the stock on hand of one balance and its ledger alike.
use stock_pilot.Prelude.{ℕ, suc, ◌≡◌, refl, ap, ◌∙◌, List, [], ◌∷◌, arith, some}
use mathlib.Core.Path.{subst}
use stock_pilot.Prelude.Int.{◌-ℤ◌}
use stock_pilot.Store.Rows.{Key, Balance, Product, Warehouse}
use stock_pilot.Store.Table.{find, pulse}
use stock_pilot.Store.Monad.{
  Store, Ensures, Ensures-bind, Ensures-map, or_throw-bind, warehouse_not_found, product_not_found,
}
use stock_pilot.Auth.Context.{AuthContext}
use stock_pilot.Inventory.Projection.{InventoryProjection}
use stock_pilot.Inventory.Steps.{state_of, find_warehouse, find_active_product, fresh_id}
use stock_pilot.Inventory.Shift.{
  Shift, Shift-still, Shift-then_still, still-then_Shift, Shift-recorded, reserved_still, still,
}
use stock_pilot.Inventory.StepLaws.{
  reconcile_balance-Shift, record_audit-Shift, create_movement-Shift, update_balance-Shift,
  lock_inventory_balance-Shift, or_conflict-bind, Covers-kept, difference, self_difference,
}
use stock_pilot.Inventory.Adjustment.{
  InventoryAdjustmentInput, AdjustmentResult, signed_quantity, record_adjustment, adjust_balance,
  adjust_transaction,
}

-- The balance that a request names: its product in the organization's warehouse.
abbrev pub adjusted_key : ℕ → Warehouse → InventoryAdjustmentInput → Key
adjusted_key org w input = record { organization = org; warehouse = w.id; product = input.product }

abbrev pub AdjustmentShift :
    ℕ → InventoryAdjustmentInput → Store → AdjustmentResult → Store → Type 0
AdjustmentShift org input s res t =
    let q = signed_quantity input in
    (w : Warehouse) × (find_warehouse org s.warehouses ≡ some w)
    × (res.movement.key ≡ adjusted_key org w input)
    × Shift (pulse (adjusted_key org w input) q) still (pulse (adjusted_key org w input) q) s t

find_active_product-id :
    (org id : ℕ) (ps : List Product) (p : Product)
    → find_active_product org id ps ≡ some p
    → p.id ≡ id
unfolding find_active_product
find_active_product-id org id [] p h = cc
find_active_product-id org id (x ∷ xs) p h = ground (arith, find_active_product-id org id xs p)

-- One movement of the ledger, by the signed quantity.
record_adjustment-Shift :
    (now : ℕ) (auth : AuthContext) (input : InventoryAdjustmentInput) (k : Key) (p : Product)
    (next : InventoryProjection) (id : ℕ) (b : Balance) (s : Store)
    → Ensures
        (λ res t. (res.movement.key ≡ k) × Shift still still (pulse k (signed_quantity input)) s t)
        (record_adjustment now auth input k p next id b s)
unfolding record_adjustment
record_adjustment-Shift now auth input k p next id b s =
    Ensures-bind (λ _ t. Shift still still (pulse k (signed_quantity input)) s t) _ _ _
      (create_movement-Shift _ s)
      (λ _ t a.
        Ensures-bind (λ _ u. Shift still still still t u) _ _ _ (reconcile_balance-Shift now _ t)
          (λ _ u b.
            Ensures-bind (λ _ v. Shift still still still u v) _ _ _ (record_audit-Shift _ u)
              (λ _ v c. (refl, Shift-then_still (Shift-then_still a b) c))))

adjust_balance-Shift :
    (now : ℕ) (auth : AuthContext) (input : InventoryAdjustmentInput) (k : Key) (p : Product)
    (s : Store)
    → let q = signed_quantity input in
      Ensures
        (λ res t. (res.movement.key ≡ k) × Shift (pulse k q) still (pulse k q) s t)
        (adjust_balance now auth input k p s)
unfolding adjust_balance fresh_id
adjust_balance-Shift now auth input k p s =
    Ensures-bind (λ b t. (find k t.balances ≡ some b) × Shift still still still s t) _ _ _
      (lock_inventory_balance-Shift k s)
      (λ b t (found, locked). or_conflict-bind (state_of b) _ _ _ t (λ next fits.
        Ensures-bind
          (λ row u.
            ((row.on_hand ≡ next.on_hand) × (row.reserved ≡ b.reserved))
            × Shift (pulse k (next.on_hand -ℤ b.on_hand)) (pulse k (b.reserved -ℤ b.reserved)) still
                (record t { next_id = suc t.next_id }) u)
          _ _ _ (update_balance-Shift k _ b _ found (λ _. Covers-kept _ _ next fits refl))
          (λ row u (_, written).
            Ensures-map
              (λ res v.
                (res.movement.key ≡ k) × Shift still still (pulse k (signed_quantity input)) u v)
              (λ res v.
                (res.movement.key ≡ k)
                × Shift (pulse k (signed_quantity input)) still (pulse k (signed_quantity input)) s
                    v)
              _
              (λ res v (same, recorded). (
                same,
                still-then_Shift locked (
                    still-then_Shift (Shift-still t _ refl refl refl) (
                      reserved_still k (
                        Shift-recorded k (difference _ _ _ fits.on_hand_sum)
                          (self_difference b.reserved) written recorded))),
              ))
              (record_adjustment-Shift now auth input k p next t.next_id row u))))

pub adjust_transaction-Shift :
    (now : ℕ) (auth : AuthContext) (org : ℕ) (input : InventoryAdjustmentInput) (s : Store)
    → Ensures (λ res t. AdjustmentShift org input s res t) (adjust_transaction now auth org input s)
unfolding adjust_transaction
adjust_transaction-Shift now auth org input s =
    or_throw-bind (find_warehouse org s.warehouses) warehouse_not_found Q _ s λ w e.
      or_throw-bind (find_active_product org input.product s.products) product_not_found Q _ s
        λ p e'.
          let k : Key = record { organization = org; warehouse = w.id; product = p.id } in
          let named : k ≡ adjusted_key org w input =
            ap (λ id. record { organization = org; warehouse = w.id; product = id })
              (find_active_product-id org input.product s.products p e') in
          let q = signed_quantity input in
          Ensures-map (λ res t. (res.movement.key ≡ k) × Shift (pulse k q) still (pulse k q) s t) Q
            _
            (λ res t (same, moved). (
              w,
              e,
              same ∙ named,
              subst (λ j. Shift (pulse j q) still (pulse j q) s t) named moved,
            ))
            (adjust_balance-Shift now auth input k p s)
  where
    Q : AdjustmentResult → Store → Type 0
    Q = AdjustmentShift org input s
