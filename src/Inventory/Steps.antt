-- ===== src/Inventory/Steps.antt =====
-- The statements that the commands share: the lookups of active rows, the ledger and the audit
-- trail (apps/api/src/audit/audit-record.ts, whose JSON details are left out).
use stock_pilot.Prelude.{ℕ, suc, ◌&&◌, Option, none, some, List, [], ◌∷◌, ⊤, ◌==◌, if◌then◌else◌}
use stock_pilot.Store.Rows.{Balance, Movement, Warehouse, Product, Supplier, Audit}
use stock_pilot.Store.Monad.{ok, err, M, inventory_conflict, inventory_invariant, modify}
use stock_pilot.Inventory.Projection.{
  InventoryState, InventoryProjection, Projected, projected, refused,
}

-- `warehouse.findUnique({ where: { organizationId } })`
unfoldable pub find_warehouse : ℕ → List Warehouse → Option Warehouse
find_warehouse org [] = none
find_warehouse org (w ∷ ws) = if w.organization == org then some w else find_warehouse org ws

-- `product.findFirst({ where: { id, isActive: true, organizationId } })`
unfoldable pub find_active_product : ℕ → ℕ → List Product → Option Product
find_active_product org id [] = none
find_active_product org id (p ∷ ps) =
    if p.organization == org && (p.is_active && (p.id == id))
    then some p
    else find_active_product org id ps

unfoldable pub find_active_supplier : ℕ → ℕ → List Supplier → Option Supplier
find_active_supplier org id [] = none
find_active_supplier org id (p ∷ ps) =
    if p.organization == org && (p.is_active && (p.id == id))
    then some p
    else find_active_supplier org id ps

abbrev pub state_of : Balance → InventoryState
state_of b = record { on_hand = b.on_hand; reserved = b.reserved }

-- `catch (error) { if (error instanceof InventoryInvariantError) throw new ConflictException(…) }`
abbrev pub or_conflict : Projected → M InventoryProjection
or_conflict (projected p) s = ok (p, s)
or_conflict (refused e) s = err (inventory_conflict e)

-- The projection with no handler around it.
abbrev pub or_invariant : Projected → M InventoryProjection
or_invariant (projected p) s = ok (p, s)
or_invariant (refused e) s = err (inventory_invariant e)

unfoldable pub fresh_id : M ℕ
fresh_id s = ok (s.next_id, record s { next_id = suc s.next_id })

unfoldable pub create_movement : Movement → M ⊤
create_movement m = modify (λ s. record s { movements = m ∷ s.movements })

unfoldable pub record_audit : Audit → M ⊤
record_audit a = modify (λ s. record s { audits = a ∷ s.audits })
