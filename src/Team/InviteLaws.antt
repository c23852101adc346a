-- ===== src/Team/InviteLaws.antt =====
-- Issuing and revoking invitations.
use Prim.Native.String.{String}
use stock_pilot.Prelude.{
  ℕ, suc, ◌+◌, ◌≤◌, ◌≡◌, refl, Bool, true, false, not, ◌&&◌, inl, inr, Option, none, some, List,
  Option-cases, Bool-cases, leb, ltb, count, find_first, is_none, update_where, count-shrink, arith,
  ◌∷◌,
}
use stock_pilot.Store.Rows.{Role, owner, Invitation}
use stock_pilot.Store.Monad.{
  Store, or_throw-bind, throw_if-bind, Ensures, membership_required, Ensures-map, Ensures-bind,
  invitation_not_found, already_a_member, forbidden_role_change,
}
use stock_pilot.Auth.Context.{AuthContext, MembershipContext, require_membership}
use stock_pilot.Inventory.Steps.{record_audit, fresh_id}
use stock_pilot.Team.Membership.{in_organization, role_eq}
use stock_pilot.Team.Invitation.{
  takes_seat, update_invitation, create_invitation, write_invitation, free_pending_slot, invite,
  revoke_invitation, of_organization, with_id, has_email, InviteReadings, InviteInput, Invited,
  invitation_ttl, revoke_at, is_outstanding,
}
use stock_pilot.Team.Owners.{IsTeam, IsTeam-same}
use stock_pilot.Team.InvitationLaws.{seats, check_seats-bind}
use stock_pilot.Team.MemberLaws.{Keeps, require-bind}

-- What an invitation that is issued found in the store, and what it did.
-- `role` is the role of the request, `token_hash` the hash of the token that is answered.
pub record IsInvited (readings : InviteReadings) (auth : AuthContext) (org : ℕ) (email : String)
    (role : Role) (token_hash : String) (s : Store) (res : Invited) (t : Store) : Type 0 where
  pub not_owner : role_eq role owner ≡ false
  pub no_member : count (has_email org email) s.memberships ≡ 0
  pub members_same : t.memberships ≡ s.memberships
  pub row :
      (i : Invitation) × (find_first (with_id res.id) t.invitations ≡ some i)
      × (i.role ≡ role)
      × (i.email ≡ email)
      × (i.organization ≡ org)
      × (i.token_hash ≡ token_hash)
      × (i.invited_by ≡ auth.user)
      × (is_outstanding i ≡ true)
      × (i.expires_at ≡ readings.at_create + invitation_ttl)
  pub within_seats :
      count (in_organization org) t.memberships
        + count (takes_seat org readings.at_count) t.invitations
      ≤ seats org s
  pub next_higher : s.next_id ≤ t.next_id

revoke-count :
    (org now at id : ℕ) (s : Store)
    → count (takes_seat org now) (update_where (with_id id) (revoke_at at) s.invitations)
      ≤ count (takes_seat org now) s.invitations
unfolding takes_seat is_outstanding revoke_at is_none of_organization
revoke-count org now at id s =
    count-shrink (with_id id) (takes_seat org now) (revoke_at at) s.invitations
      (λ x h. ground arith)

record Freed (s t : Store) : Type 0 where
  members_same : t.memberships ≡ s.memberships
  next_same : t.next_id ≡ s.next_id
  fewer :
      (org now : ℕ)
      → count (takes_seat org now) t.invitations ≤ count (takes_seat org now) s.invitations

free_pending_slot-Freed :
    (readings : InviteReadings) (pending : Option Invitation) (s : Store)
    → Ensures (λ _ t. Freed s t) (free_pending_slot readings pending s)
unfolding free_pending_slot update_invitation
free_pending_slot-Freed readings none s = record {
  members_same = refl;
  next_same = refl;
  fewer = λ org now. omega arith;
}
free_pending_slot-Freed readings (some p) s =
    elim (Bool-cases (leb p.expires_at readings.at_pending)) [
      | inl e ↦ rw e (record {
        members_same = refl;
        next_same = refl;
        fewer = λ org now. revoke-count org now readings.at_revoke p.id s;
      })
      | inr e ↦ rw e tt
    ]

count-cons : {A : Type 0} (p : A → Bool) (x : A) (xs : List A) → count p (x ∷ xs) ≤ suc (count p xs)
unfolding count
count-cons p x xs = ground arith

newest : (i : Invitation) (xs : List Invitation) → find_first (with_id i.id) (i ∷ xs) ≡ some i
unfolding find_first with_id
newest i xs = ground arith

write_invitation-IsInvited :
    (readings : InviteReadings) (auth : AuthContext) (org : ℕ) (email hash raw : String)
    (role : Role) (s t : Store)
    → role_eq role owner ≡ false
    → count (has_email org email) s.memberships ≡ 0
    → suc (
        count (in_organization org) s.memberships
        + count (takes_seat org readings.at_count) s.invitations)
      ≤ seats org s
    → Freed s t
    → Ensures
        (IsInvited readings auth org email role hash s)
        (write_invitation auth org (readings.at_create + invitation_ttl) email role hash raw t)
unfolding write_invitation fresh_id create_invitation record_audit is_outstanding is_none
write_invitation-IsInvited readings auth org email hash raw role s t o n seat f = record {
  not_owner = o;
  no_member = n;
  members_same = f.members_same;
  row = (_, newest _ _, refl, refl, refl, refl, refl, refl, refl);
  within_seats = rw f.members_same (
      omega (
        arith,
        seat,
        f.fewer org readings.at_count,
        count-cons (takes_seat org readings.at_count) _ t.invitations,
      ));
  next_higher = rw f.next_same (omega arith);
}

none_of : (n : ℕ) → ltb 0 n ≡ false → n ≡ 0
none_of n h = ground arith

module _ (to_lower_case : String → String) (hash_session_token : String → String) where
  -- An invitation that is issued is stored with the role, the lower-cased email and the workspace
  -- that were asked for, the hash of its token and its issuer. It does not grant ownership and is for
  -- somebody who is no member of the caller's workspace. It is open for seven days, and with it the members and the live
  -- invitations are within the seats of the plan. No membership changes.
  pub invite-IsInvited :
      (readings : InviteReadings) (auth : AuthContext) (raw : String) (input : InviteInput)
      (s : Store)
      → Ensures
          (λ res t.
            (m : MembershipContext) × (auth.membership ≡ some m)
            × IsInvited readings auth m.organization
                (to_lower_case input.email)
                input.role
                (hash_session_token raw)
                s
                res
                t)
          (invite to_lower_case hash_session_token readings auth raw input s)
  unfolding invite require_membership
  invite-IsInvited readings auth raw input s =
      or_throw-bind auth.membership membership_required Q _ s λ m e.
        throw_if-bind (role_eq input.role owner) forbidden_role_change Q _ s λ o.
          check_seats-bind Q _ s m.organization readings.at_count λ seat.
            throw_if-bind
              (ltb 0 (count (has_email m.organization (to_lower_case input.email)) s.memberships))
              already_a_member Q _ s
              λ g.
                Ensures-bind (λ _ t. Freed s t) Q _ _ (free_pending_slot-Freed readings _ s)
                  λ _ t f.
                    Ensures-map
                      (IsInvited readings auth m.organization (to_lower_case input.email) input.role
                        (hash_session_token raw) s)
                      Q _ (λ _ _ w. (m, e, w))
                      (write_invitation-IsInvited readings auth m.organization _ _ raw input.role s
                        t o (none_of _ g) seat f)
    where
      Q : Invited → Store → Type 0
      Q = λ res t.
          (m : MembershipContext) × (auth.membership ≡ some m)
          × IsInvited readings auth m.organization (to_lower_case input.email) input.role
              (hash_session_token raw) s res t

pub revoke_invitation-IsTeam :
    (o now : ℕ) (auth : AuthContext) (id : ℕ) (s : Store)
    → IsTeam o s
    → Ensures (Keeps o) (revoke_invitation now auth id s)
unfolding revoke_invitation update_invitation record_audit
revoke_invitation-IsTeam o now auth id s h = require-bind auth (Keeps o) _ s λ m.
    or_throw-bind (find_first (λ i. of_organization m.organization i && with_id id i) s.invitations)
      invitation_not_found (Keeps o) _ s
      λ i found. throw_if-bind (not (is_none i.accepted_at)) invitation_not_found (Keeps o) _ s λ g.
        elim (Option-cases i.revoked_at) [
          | inl e ↦ rw e (IsTeam-same o s _ refl (omega arith) h)
          | inr (t, e) ↦ rw e h
        ]
