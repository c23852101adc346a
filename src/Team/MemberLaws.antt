-- ===== src/Team/MemberLaws.antt =====
-- The calls on members keep a team a team, and the rules for their steps.
use stock_pilot.Prelude.{
  ℕ, ◌≡◌, refl, not, ◌&&◌, inl, inr, some, Bool-cases, leb, count, find_first, delete_where,
}
use stock_pilot.Store.Rows.{Role, owner, Membership}
use stock_pilot.Store.Monad.{
  Store, M, ok, err, membership_required, member_not_found, last_owner_required, or_throw-bind,
  throw_if-bind, Ensures,
}
use stock_pilot.Auth.Context.{AuthContext, MembershipContext, require_membership}
use stock_pilot.Inventory.Steps.{record_audit}
use stock_pilot.Team.Membership.{
  has_id, is_owner, in_organization, role_eq, find_member, write_role, change_member_role,
  remove_member, delete_membership,
}
use stock_pilot.Team.Owners.{IsTeam, IsTeam-set_role, IsTeam-delete}

-- What a call leaves of the team.
abbrev pub Keeps : {A : Type 0} → ℕ → A → Store → Type 0
Keeps o a t = IsTeam o t

pub require-bind :
    {B : Type 0} (auth : AuthContext) (Q : B → Store → Type 0) (f : MembershipContext → M B)
    (s : Store)
    → ((m : MembershipContext) → Ensures Q (f m s))
    → Ensures Q (elim (require_membership auth s) [ ok (m, t) ↦ f m t | err e ↦ err e ])
unfolding require_membership
require-bind auth Q f s rest =
    or_throw-bind auth.membership membership_required Q f s (λ m _. rest m)

pub find_member-bind :
    {B : Type 0} (org id : ℕ) (Q : B → Store → Type 0) (f : Membership → M B) (s : Store)
    → ((x : Membership)
        → find_first (λ m. in_organization org m && has_id id m) s.memberships ≡ some x
        → Ensures Q (f x s))
    → Ensures Q (elim (find_member org id s) [ ok (m, t) ↦ f m t | err e ↦ err e ])
unfolding find_member
find_member-bind org id Q f s rest =
    or_throw-bind (find_first (λ m. in_organization org m && has_id id m) s.memberships)
      member_not_found Q f s rest

pub change_member_role-IsTeam :
    (o : ℕ) (auth : AuthContext) (id : ℕ) (role : Role) (s : Store)
    → IsTeam o s
    → Ensures (Keeps o) (change_member_role auth id role s)
unfolding change_member_role write_role record_audit
change_member_role-IsTeam o auth id role s h = require-bind auth (Keeps o) _ s λ m.
    find_member-bind m.organization id (Keeps o) _ s λ x f.
      throw_if-bind
        (role_eq x.role owner
          && (not (role_eq role owner) && leb (count (is_owner m.organization) s.memberships) 1))
        last_owner_required (Keeps o) _ s
        λ g. elim (Bool-cases (role_eq x.role role)) [
          | inl e ↦ rw e h
          | inr e ↦ rw e (IsTeam-set_role o m.organization id role s _ x f g refl refl h)
        ]

pub remove_member-IsTeam :
    (o now : ℕ) (auth : AuthContext) (id : ℕ) (s : Store)
    → IsTeam o s
    → Ensures (Keeps o) (remove_member now auth id s)
unfolding remove_member record_audit delete_membership delete_where
remove_member-IsTeam o now auth id s h = require-bind auth (Keeps o) _ s λ m.
    find_member-bind m.organization id (Keeps o) _ s λ x f.
      throw_if-bind (role_eq x.role owner && leb (count (is_owner m.organization) s.memberships) 1)
        last_owner_required (Keeps o) _ s
        λ g. IsTeam-delete o m.organization id s _ x f g refl refl h
