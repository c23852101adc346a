-- ===== src/Team/Invitation.antt =====
-- apps/api/src/team/invitation.service.ts. An invitation is visible to its own organization only,
-- by row-level security; the resolver of a token looks at all of them. The session that an
-- acceptance issues at its end is not part of the model.
use Prim.Native.String.{String}
use text.Mathlib.Text.{◌==◌ as str_eq}
use stock_pilot.Prelude.{
  ℕ, ◌+◌, Bool, ◌&&◌, not, Option, none, some, ◌∷◌, ◌==◌, leb, ltb, count, find_first, is_none,
  update_where, if◌then◌else◌, ⊤,
}
use stock_pilot.Store.Rows.{
  Role, owner, Membership, Invitation, member_invited, invitation_revoked, invitation_accepted,
}
use stock_pilot.Store.Monad.{
  M, pure, throw, gets, or_throw, ◌>>=◌, ◌>>◌, modify, throw_if, forbidden_role_change,
  plan_limit_reached, already_a_member, invitation_already_pending, invitation_not_found,
  invitation_email_mismatch, invitation_already_revoked, invitation_already_accepted,
  invitation_expired,
}
use stock_pilot.Auth.Context.{AuthContext, require_membership}
use stock_pilot.Billing.{effective_plan_in_transaction, entitlements_for}
use stock_pilot.Inventory.Steps.{record_audit, fresh_id}
use stock_pilot.Team.Membership.{in_organization, role_eq}

-- The clock at each place of `invite` that reads it.
pub record InviteReadings : Type 0 where
  pub at_count : ℕ
  pub at_pending : ℕ
  pub at_revoke : ℕ
  pub at_create : ℕ

pub record InviteInput : Type 0 where
  pub email : String
  pub role : Role

pub record Invited : Type 0 where
  pub email : String
  pub expires_at : ℕ
  pub id : ℕ
  pub raw_token : String
  pub role : Role

-- Seven days in milliseconds.
abbrev pub invitation_ttl : ℕ
invitation_ttl = 604800000

unfoldable pub of_organization : ℕ → Invitation → Bool
of_organization org i = i.organization == org

unfoldable pub with_id : ℕ → Invitation → Bool
with_id id i = i.id == id

-- Neither accepted nor revoked.
unfoldable pub is_outstanding : Invitation → Bool
is_outstanding i = is_none i.accepted_at && is_none i.revoked_at

-- The invitations that count for a seat.
unfoldable pub takes_seat : ℕ → ℕ → Invitation → Bool
takes_seat org now i = of_organization org i && (is_outstanding i && ltb now i.expires_at)

unfoldable pub is_pending_for : ℕ → String → Invitation → Bool
is_pending_for org email i = of_organization org i && (is_outstanding i && str_eq i.email email)

unfoldable pub has_email : ℕ → String → Membership → Bool
has_email org email m = in_organization org m && str_eq m.email email

unfoldable pub is_user : ℕ → ℕ → Membership → Bool
is_user org user m = in_organization org m && (m.user == user)

unfoldable pub revoke_at : ℕ → Invitation → Invitation
revoke_at now i = record i { revoked_at = some now }

unfoldable pub accept_at : ℕ → Invitation → Invitation
accept_at now i = record i { accepted_at = some now }

unfoldable pub update_invitation : ℕ → (Invitation → Invitation) → M ⊤
update_invitation id f =
    modify (λ s. record s { invitations = update_where (with_id id) f s.invitations })

-- An expired invitation that still is pending makes room; a live one is a conflict.
unfoldable pub free_pending_slot : InviteReadings → Option Invitation → M ⊤
free_pending_slot readings none = pure tt
free_pending_slot readings (some pending) =
    if leb pending.expires_at readings.at_pending
    then update_invitation pending.id (revoke_at readings.at_revoke)
    else throw invitation_already_pending

-- The seats of the plan against the members and the invitations that count.
unfoldable pub check_seats : ℕ → ℕ → M ⊤
check_seats org now = do
  plan ← effective_plan_in_transaction org
  let max_team_members = (entitlements_for plan).max_team_members
  member_count ← gets (λ s. count (in_organization org) s.memberships)
  pending_count ← gets (λ s. count (takes_seat org now) s.invitations)
  throw_if (leb max_team_members (member_count + pending_count))
      (plan_limit_reached max_team_members)

unfoldable pub create_invitation : Invitation → M ⊤
create_invitation i = modify (λ s. record s { invitations = i ∷ s.invitations })

-- From the row of the invitation on.
unfoldable pub write_invitation : AuthContext → ℕ → ℕ → String → Role → String → String → M Invited
write_invitation auth organization expires_at email role token_hash raw_token = do
  id ← fresh_id
  create_invitation (record {
    id = id;
    organization = organization;
    email = email;
    role = role;
    token_hash = token_hash;
    invited_by = auth.user;
    expires_at = expires_at;
    accepted_at = none;
    revoked_at = none;
  })
  record_audit (record {
    action = member_invited;
    actor = auth.user;
    entity_id = id;
    organization = organization;
  })
  pure (record {
    email = email;
    expires_at = expires_at;
    id = id;
    raw_token = raw_token;
    role = role;
  })

unfoldable pub revoke_invitation : ℕ → AuthContext → ℕ → M ℕ
revoke_invitation now auth id = do
  membership ← require_membership auth
  let organization = membership.organization
  found ← gets (λ s. find_first (λ i. of_organization organization i && with_id id i) s.invitations)
  invitation ← or_throw found invitation_not_found
  throw_if (not (is_none invitation.accepted_at)) invitation_not_found
  elim invitation.revoked_at [
    | some revoked_at ↦ pure revoked_at
    | none ↦ (do
      update_invitation id (revoke_at now)
      record_audit (record {
        action = invitation_revoked;
        actor = auth.user;
        entity_id = id;
        organization = organization;
      })
      pure now)
  ]

unfoldable pub assert_acceptable : ℕ → Invitation → M ⊤
assert_acceptable now i = do
  throw_if (not (is_none i.revoked_at)) invitation_already_revoked
  throw_if (not (is_none i.accepted_at)) invitation_already_accepted
  throw_if (leb i.expires_at now) invitation_expired

-- The seats of the plan against the members only.
unfoldable pub check_member_limit : ℕ → M ⊤
check_member_limit org = do
  plan ← effective_plan_in_transaction org
  let max_team_members = (entitlements_for plan).max_team_members
  member_count ← gets (λ s. count (in_organization org) s.memberships)
  throw_if (leb max_team_members member_count) (plan_limit_reached max_team_members)

unfoldable pub create_membership : Membership → M ⊤
create_membership m = modify (λ s. record s { memberships = m ∷ s.memberships })

-- From the new membership on.
unfoldable pub join_team : ℕ → AuthContext → String → Invitation → M Membership
join_team now auth display_name current = do
  id ← fresh_id
  let created : Membership = record {
    display_name = display_name;
    id = id;
    organization = current.organization;
    user = auth.user;
    email = auth.email;
    role = current.role;
    created_at = now;
  }
  create_membership created
  update_invitation current.id (accept_at now)
  record_audit (record {
    action = invitation_accepted;
    actor = auth.user;
    entity_id = current.id;
    organization = current.organization;
  })
  pure created

-- `checked` is the reading of `assertAcceptable`, `now` that of `acceptedAt`; `display_name` is the
-- column of the caller's user row.
unfoldable pub accept_in_transaction : ℕ → ℕ → AuthContext → String → Invitation → M Membership
accept_in_transaction checked now auth display_name invitation = do
  let find =
      λ (i : Invitation). of_organization invitation.organization i && with_id invitation.id i
  current ← or_throw (← gets (λ s. find_first find s.invitations)) invitation_not_found
  assert_acceptable checked current
  members ← gets (λ s. count (is_user current.organization auth.user) s.memberships)
  throw_if (ltb 0 members) already_a_member
  check_member_limit current.organization
  join_team now auth display_name current

module _ (to_lower_case : String → String) (hash_session_token : String → String) where
  -- `raw_token` is what `randomBytes` draws.
  unfoldable pub invite : InviteReadings → AuthContext → String → InviteInput → M Invited
  invite readings auth raw_token input = do
    membership ← require_membership auth
    throw_if (role_eq input.role owner) forbidden_role_change
    let email = to_lower_case input.email
    let organization = membership.organization
    check_seats organization readings.at_count
    same ← gets (λ s. count (has_email organization email) s.memberships)
    throw_if (ltb 0 same) already_a_member
    pending ← gets (λ s. find_first (is_pending_for organization email) s.invitations)
    free_pending_slot readings pending
    write_invitation auth organization (readings.at_create + invitation_ttl) email input.role
        (hash_session_token raw_token) raw_token

  -- `stockpilot_resolve_invitation` and the two checks before the transaction.
  unfoldable pub resolve_invitation : ℕ → AuthContext → String → M Invitation
  resolve_invitation now auth token = do
    found ← gets (λ s.
        find_first (λ (i : Invitation). str_eq i.token_hash (hash_session_token token))
          s.invitations)
    invitation ← or_throw found invitation_not_found
    assert_acceptable now invitation
    throw_if (not (str_eq invitation.email (to_lower_case auth.email))) invitation_email_mismatch
    pure invitation
