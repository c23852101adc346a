-- ===== src/Inventory/StepLaws.antt =====
-- What each statement that the commands share does to the balances, the ledger and the orders.
use stock_pilot.Prelude.{
  ℕ, ◌≡◌, refl, ap, ◌∙◌, some, arith, ◌⊎◌, inl, inr, Bool-cases, Option-cases, ◌&&◌,
}
use stock_pilot.Prelude.Int.{ℤ, pos, ◌+ℤ◌, ◌-ℤ◌, int_laws}
use stock_pilot.Store.Rows.{Key, key_eq_iff, Balance, Movement, Audit}
use stock_pilot.Store.Table.{Table, find, column, pulse, find-put}
use stock_pilot.Store.Monad.{Store, InvariantError, M, ok, err, Ensures}
use stock_pilot.Inventory.Projection.{
  InventoryState, InventoryDelta, InventoryProjection, or_zero, Projected, projected, refused,
  project_inventory,
}
use stock_pilot.Inventory.Bounds.{IsBalance, project_inventory_iff}
use stock_pilot.Inventory.Reconciliation.{ReconcileBalanceInput, reconcile_balance}
use stock_pilot.Inventory.Locks.{
  empty_balance, ensure_row, lock_inventory_balance, fits_int4, update_balance,
}
use stock_pilot.Inventory.Steps.{create_movement, record_audit, fresh_id, or_conflict, or_invariant}
use stock_pilot.Inventory.Shift.{
  Covers, Shift, Shift-still, Shift-columns, Shift-movement, Shift-put, still,
}

Projected-cases :
    (r : Projected)
    → ((p : InventoryProjection) × (r ≡ projected p)) ⊎ ((e : InvariantError) × (r ≡ refused e))
Projected-cases (projected p) = inl (p, refl)
Projected-cases (refused e) = inr (e, refl)

pub reconcile_balance-Shift :
    (now : ℕ) (input : ReconcileBalanceInput) (s : Store)
    → Ensures (λ _ t. Shift still still still s t) (reconcile_balance now input s)
unfolding reconcile_balance
reconcile_balance-Shift now input s = Shift-still _ _ refl refl refl

pub fresh_id-Shift : (s : Store) → Ensures (λ _ t. Shift still still still s t) (fresh_id s)
unfolding fresh_id
fresh_id-Shift s = Shift-still _ _ refl refl refl

pub record_audit-Shift :
    (a : Audit) (s : Store) → Ensures (λ _ t. Shift still still still s t) (record_audit a s)
unfolding record_audit
record_audit-Shift a s = Shift-still _ _ refl refl refl

pub create_movement-Shift :
    (m : Movement) (s : Store)
    → Ensures (λ _ t. Shift still still (pulse m.key m.quantity_delta) s t) (create_movement m s)
unfolding create_movement
create_movement-Shift m s = Shift-movement m s _ refl refl refl

pub update_balance-Shift :
    (k : Key) (change : Balance → Balance) (b : Balance) (s : Store)
    → find k s.balances ≡ some b
    → (Covers b.reserved b.on_hand → Covers (change b).reserved (change b).on_hand)
    → Ensures
        (λ row t.
          ((row.on_hand ≡ (change b).on_hand) × (row.reserved ≡ (change b).reserved))
          × Shift
              (pulse k ((change b).on_hand -ℤ b.on_hand))
              (pulse k ((change b).reserved -ℤ b.reserved))
              still
              s
              t)
        (update_balance k change s)
unfolding update_balance
update_balance-Shift k change b s e c =
    rw e (elim (Bool-cases (fits_int4 (change b).on_hand && fits_int4 (change b).reserved)) [
      | inl fits ↦ rw fits ((refl, refl), Shift-put k b _ s _ e refl refl refl c)
      | inr over ↦ rw over tt
    ])

-- After the upsert the row is there, and a column whose default is 0 reads as before.
ensure_row-find : (k : Key) (t : Table Balance) → (b : Balance) × (find k (ensure_row k t) ≡ some b)
unfolding ensure_row
ensure_row-find k t = elim (Option-cases (find k t)) [
  | inl missing ↦
      (empty_balance, ground (arith, missing, find-put k k empty_balance t, key_eq_iff k k))
  | inr (b, e) ↦ (b, ground (arith, e))
]

ensure_row-column :
    (f : Balance → ℤ) (k j : Key) (t : Table Balance)
    → f empty_balance ≡ pos 0
    → column f j (ensure_row k t) ≡ column f j t
unfolding ensure_row column
ensure_row-column f k j t z = grind (arith, find-put k j empty_balance t, key_eq_iff k j)

pub lock_inventory_balance-Shift :
    (k : Key) (s : Store)
    → Ensures
        (λ b t. (find k t.balances ≡ some b) × Shift still still still s t)
        (lock_inventory_balance k s)
unfolding lock_inventory_balance
lock_inventory_balance-Shift k s =
    let (b, e) = ensure_row-find k s.balances in
    rw e (
      e,
      Shift-columns s _ refl (λ j. ensure_row-column (λ x. x.on_hand) k j s.balances refl)
          (λ j. ensure_row-column (λ x. x.reserved) k j s.balances refl) refl,
    )

-- The rest of the code runs at a balance, on the store as it was.
module _ {B : Type 0} (c : InventoryState) (d : InventoryDelta) (Q : B → Store → Type 0)
    (f : InventoryProjection → M B) (s : Store)
    (rest : (p : InventoryProjection) → IsBalance c d p → Ensures Q (f p s)) where
  pub or_conflict-bind :
      Ensures Q (elim (or_conflict (project_inventory c d) s) [ ok (p, t) ↦ f p t | err e ↦ err e ])
  or_conflict-bind = elim (Projected-cases (project_inventory c d)) [
    | inl (p, e) ↦ rw e (rest p ((project_inventory_iff c d p).0 e))
    | inr (x, e) ↦ rw e tt
  ]

  pub or_invariant-bind :
      Ensures Q
        (elim (or_invariant (project_inventory c d) s) [ ok (p, t) ↦ f p t | err e ↦ err e ])
  or_invariant-bind = elim (Projected-cases (project_inventory c d)) [
    | inl (p, e) ↦ rw e (rest p ((project_inventory_iff c d p).0 e))
    | inr (x, e) ↦ rw e tt
  ]

pub difference : (a b c : ℤ) → a ≡ b +ℤ c → a -ℤ b ≡ c
difference a b c e = rw e (omega int_laws)

pub self_difference : (a : ℤ) → a -ℤ a ≡ pos 0
self_difference a = omega int_laws

-- What is held stays covered where only the stock on hand moves.
pub Covers-kept :
    (c : InventoryState) (d : InventoryDelta) (p : InventoryProjection)
    → IsBalance c d p
    → or_zero d.reserved_delta ≡ pos 0
    → Covers c.reserved p.on_hand
Covers-kept c d p h z =
    let e : p.reserved ≡ c.reserved =
      h.reserved_sum ∙ ap (λ x. c.reserved +ℤ x) z ∙ omega int_laws in
    rw (← e) (h.reserved_nonneg, h.reserved_covered)
