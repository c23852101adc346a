-- ===== src/Auth/Rbac.antt =====
-- apps/api/src/auth/rbac.ts
use stock_pilot.Prelude.{Bool, true, false, List, [], ◌∷◌, ◌++◌, ◌≡◌, arith}
use stock_pilot.Auth.Context.{Role, manager, owner, staff}

pub data Permission : Type 0 where
  analytics_read audit_read billing_read billing_write catalog_read catalog_write : Permission
  integration_retry inventory_adjust inventory_read inventory_receive order_cancel : Permission
  order_confirm order_draft_write order_fulfill order_read organization_reset_demo : Permission
  organization_settings_read organization_settings_write team_invite team_read team_write :
      Permission

pub Permission-discrete : Discrete Permission
Permission-discrete = hlevel

unfoldable pub staff_permissions : List Permission
staff_permissions =
    analytics_read ∷ catalog_read ∷ inventory_read ∷ order_read ∷ order_draft_write ∷ order_fulfill
    ∷ []

unfoldable pub manager_permissions : List Permission
unfolding staff_permissions
manager_permissions =
    staff_permissions
    ++ (audit_read ∷ catalog_write ∷ integration_retry ∷ inventory_adjust ∷ inventory_receive
        ∷ order_cancel ∷ order_confirm ∷ [])

unfoldable pub owner_permissions : List Permission
unfolding manager_permissions
owner_permissions =
    manager_permissions
    ++ (billing_read ∷ billing_write ∷ organization_reset_demo ∷ organization_settings_read
        ∷ organization_settings_write ∷ team_invite ∷ team_read ∷ team_write ∷ [])

unfoldable pub permissions_by_role : Role → List Permission
permissions_by_role manager = manager_permissions
permissions_by_role owner = owner_permissions
permissions_by_role staff = staff_permissions

-- `Set.has`
unfoldable pub has : List Permission → Permission → Bool
has [] p = false
has (q ∷ ps) p = elim (Permission-discrete q p) [ yes _ ↦ true | no _ ↦ has ps p ]

unfoldable pub can : Role → Permission → Bool
unfolding permissions_by_role owner_permissions has Permission-discrete
can role permission = has (permissions_by_role role) permission

-- Roles are nested: whatever staff may do a manager may, and an owner may do everything.
pub can_nested :
    (p : Permission) → (can staff p ≡ true → can manager p ≡ true) × (can owner p ≡ true)
unfolding can
can_nested analytics_read = ground arith
can_nested _ = ground arith
