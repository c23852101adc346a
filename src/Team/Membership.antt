-- ===== src/Team/Membership.antt =====
-- apps/api/src/team/membership.service.ts. The advisory lock makes the calls on one workspace run
-- one after the other. The table has the members of all workspaces, as it has no row-level security.
use Prim.Native.String.{String}
use stock_pilot.Prelude.{
  ℕ, Bool, true, false, ◌&&◌, not, ◌==◌, leb, count, find_first, update_where, delete_where,
  if◌then◌else◌, ⊤, none, some,
}
use stock_pilot.Store.Rows.{
  Role, manager, owner, staff, Membership, Session, member_role_changed, member_removed,
}
use stock_pilot.Store.Monad.{
  Store, M, pure, gets, or_throw, ◌>>=◌, ◌>>◌, modify, throw_if, member_not_found,
  last_owner_required,
}
use stock_pilot.Auth.Context.{AuthContext, require_membership}
use stock_pilot.Inventory.Steps.{record_audit}

pub record MemberSummary : Type 0 where
  pub display_name : String
  pub email : String
  pub id : ℕ
  pub role : Role

pub record RemovedMember : Type 0 where
  pub email : String
  pub id : ℕ
  pub removed_at : ℕ

unfoldable pub role_eq : Role → Role → Bool
role_eq manager manager = true
role_eq owner owner = true
role_eq staff staff = true
role_eq _ _ = false

unfoldable pub has_id : ℕ → Membership → Bool
has_id id m = m.id == id

unfoldable pub in_organization : ℕ → Membership → Bool
in_organization org m = m.organization == org

-- `where: { organizationId, role: 'OWNER' }`
unfoldable pub is_owner : ℕ → Membership → Bool
is_owner org m = in_organization org m && role_eq m.role owner

-- `where: { id: membershipId, organizationId }`
unfoldable pub find_member : ℕ → ℕ → M Membership
find_member org id = do
  found ← gets (λ s. find_first (λ m. in_organization org m && has_id id m) s.memberships)
  or_throw found member_not_found

unfoldable pub set_role : Role → Membership → Membership
set_role role m = record m { role = role }

-- The row and its audit record, where the role is another one.
unfoldable pub write_role : AuthContext → ℕ → ℕ → Role → M ⊤
write_role auth organization id new_role = do
  modify
      (λ s. record s { memberships = update_where (has_id id) (set_role new_role) s.memberships })
  record_audit (record {
    action = member_role_changed new_role;
    actor = auth.user;
    entity_id = id;
    organization = organization;
  })

unfoldable pub change_member_role : AuthContext → ℕ → Role → M MemberSummary
change_member_role auth id new_role = do
  membership ← require_membership auth
  let organization = membership.organization
  target ← find_member organization id
  owner_count ← gets (λ s. count (is_owner organization) s.memberships)
  throw_if (role_eq target.role owner && (not (role_eq new_role owner) && leb owner_count 1))
      last_owner_required
  let summary : MemberSummary = record {
    display_name = target.display_name;
    email = target.email;
    id = target.id;
    role = new_role;
  }
  (if role_eq target.role new_role then pure tt else write_role auth organization id new_role)
  pure summary

-- `onDelete: Cascade` of a session's membership.
unfoldable pub is_bound_to : ℕ → Session → Bool
is_bound_to id x = elim x.membership [ none ↦ false | some m ↦ m == id ]

-- `membership.delete`, with what the database deletes for it.
unfoldable pub delete_membership : ℕ → Store → Store
delete_membership id s = record s {
  memberships = delete_where (has_id id) s.memberships;
  sessions = delete_where (is_bound_to id) s.sessions;
}

unfoldable pub remove_member : ℕ → AuthContext → ℕ → M RemovedMember
remove_member now auth id = do
  membership ← require_membership auth
  let organization = membership.organization
  target ← find_member organization id
  owner_count ← gets (λ s. count (is_owner organization) s.memberships)
  throw_if (role_eq target.role owner && leb owner_count 1) last_owner_required
  modify (delete_membership id)
  record_audit (record {
    action = member_removed;
    actor = auth.user;
    entity_id = id;
    organization = organization;
  })
  pure (record { email = target.email; id = target.id; removed_at = now })
