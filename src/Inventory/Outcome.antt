-- ===== src/Inventory/Outcome.antt =====
-- The row that a lock finds, and what a write to it leaves.
use stock_pilot.Prelude.{ℕ, ◌≡◌, refl, sym, ◌∙◌, true, Option, none, some, arith}
use mathlib.Core.Option.{some-injective}
use stock_pilot.Store.Rows.{Key, key_eq_iff, Balance, Warehouse, Product}
use stock_pilot.Store.Table.{Table, find, find-put}
use stock_pilot.Store.Monad.{
  Store, M, ok, err, balance_not_locked, record_not_found, or_throw, Achieves, found-bind,
}
use stock_pilot.Inventory.Projection.{InventoryDelta, InventoryProjection, Projected, projected}
use stock_pilot.Inventory.Locks.{
  empty_balance, ensure_row, lock_inventory_balance, fits_int4, update_balance,
}
use stock_pilot.Inventory.Steps.{or_conflict}
use stock_pilot.Inventory.Adjustment.{InventoryAdjustmentInput, signed_quantity}

-- The row of a key, or what a new one holds.
unfoldable pub balance_at : Key → Table Balance → Balance
balance_at k t = elim (find k t) [ none ↦ empty_balance | some b ↦ b ]

find-ensure_row : (k : Key) (t : Table Balance) → find k (ensure_row k t) ≡ some (balance_at k t)
unfolding ensure_row balance_at
find-ensure_row k t = grind (arith, find-put k k empty_balance t, key_eq_iff k k)

lock_inventory_balance-Achieves :
    (k : Key) (s : Store)
    → Achieves
        (λ b t. (b ≡ balance_at k s.balances) × (find k t.balances ≡ some b))
        (lock_inventory_balance k s)
unfolding lock_inventory_balance
lock_inventory_balance-Achieves k s = lem _ (find-ensure_row k s.balances)
  where
    lem :
        (o : Option Balance)
        → o ≡ some (balance_at k s.balances)
        → Achieves
            (λ b t. (b ≡ balance_at k s.balances) × (find k t.balances ≡ some b))
            (or_throw o balance_not_locked (record s { balances = ensure_row k s.balances }))
    lem none h = cc
    lem (some b) h = (some-injective _ _ h, find-ensure_row k s.balances ∙ sym h)

update_balance-Achieves :
    (k : Key) (f : Balance → Balance) (b : Balance) (s : Store)
    → find k s.balances ≡ some b
    → fits_int4 (f b).on_hand ≡ true
    → fits_int4 (f b).reserved ≡ true
    → Achieves
        (λ row t. (row.on_hand ≡ (f b).on_hand) × (row.reserved ≡ (f b).reserved))
        (update_balance k f s)
unfolding update_balance
update_balance-Achieves k f b s h fh fr =
    found-bind _ record_not_found _ _ s b h (rw (fh, fr) (refl, refl))

-- The key and the delta of an adjustment.
abbrev pub key_of : ℕ → Warehouse → Product → Key
key_of organization w p = record { organization = organization; warehouse = w.id; product = p.id }

abbrev pub delta_of : InventoryAdjustmentInput → InventoryDelta
delta_of input = record { on_hand_delta = some (signed_quantity input); reserved_delta = none }

pub projected-bind :
    {B : Type 0} (r : Projected) (n : InventoryProjection) (Q : B → Store → Type 0)
    (f : InventoryProjection → M B) (s : Store)
    → r ≡ projected n
    → Achieves Q (f n s)
    → Achieves Q (elim (or_conflict r s) [ ok (b, t) ↦ f b t | err e ↦ err e ])
projected-bind r n Q f s h k = rw h k
