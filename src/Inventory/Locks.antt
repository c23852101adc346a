-- ===== src/Inventory/Locks.antt =====
-- apps/api/src/inventory/inventory-locks.ts, and the update of the locked row. The triple of the
-- key is unique, and stands for the row's `id`.
use stock_pilot.Prelude.{◌+◌, ◌&&◌, Bool, not, none, some}
use stock_pilot.Prelude.Int.{ℤ, pos, negsuc, leb_ℤ}
use stock_pilot.Store.Rows.{Key, Balance}
use stock_pilot.Store.Table.{Table, find, put}
use stock_pilot.Store.Monad.{
  M, balance_not_locked, record_not_found, numeric_overflow, gets, modify, or_throw, throw_if, pure,
  ◌>>=◌, ◌>>◌,
}

-- The defaults of the columns of `InventoryBalance`.
abbrev pub empty_balance : Balance
empty_balance = record { on_hand = pos 0; reserved = pos 0; version = 0 }

-- `upsert` with an empty `update`.
unfoldable pub ensure_row : Key → Table Balance → Table Balance
ensure_row k t = elim (find k t) [ none ↦ put k empty_balance t | some b ↦ t ]

unfoldable pub lock_inventory_balance : Key → M Balance
lock_inventory_balance k = do
  modify (λ s. record s { balances = ensure_row k s.balances })
  or_throw (← gets (λ s. find k s.balances)) balance_not_locked

-- The range of an `Int` column: PostgreSQL refuses a value outside it.
abbrev pub fits_int4 : ℤ → Bool
fits_int4 n = leb_ℤ n (pos 2147483647) && leb_ℤ (negsuc 2147483647) n

-- `inventoryBalance.update`, with `version: { increment: 1 }` on every update of the code.
unfoldable pub update_balance : Key → (Balance → Balance) → M Balance
update_balance k change = do
  row ← or_throw (← gets (λ s. find k s.balances)) record_not_found
  let changed = change row
  let next = record changed { version = row.version + 1 }
  throw_if (not (fits_int4 next.on_hand && fits_int4 next.reserved)) numeric_overflow
  modify (λ s. record s { balances = put k next s.balances })
  pure next
