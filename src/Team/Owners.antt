-- ===== src/Team/Owners.antt =====
-- What the team operations keep: identifiers are unique, a user has one membership in a workspace,
-- and the workspace has an owner.
use stock_pilot.Prelude.{
  ℕ, suc, ◌≤◌, ◌≡◌, refl, ◌+◌, Bool, true, false, not, ◌&&◌, some, ◌∷◌, leb, count, bit, find_first,
  update_where, delete_where, count-update_where, count-delete_where, count-change,
  find_first-holds, find_first-narrow, arith,
}
use stock_pilot.Store.Rows.{Role, owner, Membership}
use stock_pilot.Store.Monad.{Store}
use stock_pilot.Team.Membership.{has_id, is_owner, in_organization, role_eq, set_role}
use stock_pilot.Team.Invitation.{is_user}

-- The members of the workspace `org`.
pub record IsTeam (org : ℕ) (s : Store) : Type 0 where
  pub unique_ids : (id : ℕ) → count (has_id id) s.memberships ≤ 1
  pub fresh_ids : (id : ℕ) → s.next_id ≤ id → count (has_id id) s.memberships ≡ 0
  pub one_each : (o u : ℕ) → count (is_user o u) s.memberships ≤ 1
  pub has_owner : 1 ≤ count (is_owner org) s.memberships

-- Only the members and the next identifier matter.
pub IsTeam-same :
    (org : ℕ) (s t : Store)
    → t.memberships ≡ s.memberships
    → s.next_id ≤ t.next_id
    → IsTeam org s
    → IsTeam org t
IsTeam-same org s t m n h = record {
  unique_ids = λ id. rw m (h.unique_ids id);
  fresh_ids = λ id l. rw m (h.fresh_ids id (omega arith));
  one_each = λ o u. rw m (h.one_each o u);
  has_owner = rw m h.has_owner;
}

-- The member that a command names, found within the caller's workspace.
pub member_of :
    (o org id : ℕ) (s : Store) (x : Membership)
    → IsTeam o s
    → find_first (λ m. in_organization org m && has_id id m) s.memberships ≡ some x
    → (find_first (has_id id) s.memberships ≡ some x) × (in_organization org x ≡ true)
member_of o org id s x h f = (
  find_first-narrow (has_id id) (in_organization org) s.memberships x (h.unique_ids id) f,
  ground (arith, find_first-holds (λ m. in_organization org m && has_id id m) s.memberships x f),
)

-- A role may change where the member is no owner, or becomes one, or another owner is there.
pub IsTeam-set_role :
    (o org id : ℕ) (role : Role) (s t : Store) (x : Membership)
    → find_first (λ m. in_organization org m && has_id id m) s.memberships ≡ some x
    → (role_eq x.role owner
        && (not (role_eq role owner) && leb (count (is_owner org) s.memberships) 1))
      ≡ false
    → t.memberships ≡ update_where (has_id id) (set_role role) s.memberships
    → t.next_id ≡ s.next_id
    → IsTeam o s
    → IsTeam o t
unfolding is_owner in_organization set_role is_user has_id
IsTeam-set_role o org id role s t x f guard m n h = record {
  unique_ids = λ i. rw (m, keeps_id i) (h.unique_ids i);
  fresh_ids = λ i l. rw (m, keeps_id i) (h.fresh_ids i (rw (← n) l));
  one_each = λ p u. rw (m, keeps_user p u) (h.one_each p u);
  has_owner = rw m (ground (arith, changed, member_of o org id s x h f, h.has_owner));
}
  where
    keeps_id :
        (i : ℕ)
        → count (has_id i) (update_where (has_id id) (set_role role) s.memberships)
          ≡ count (has_id i) s.memberships
    keeps_id i = count-change (has_id id) (has_id i) (set_role role) s.memberships (λ y. refl)

    keeps_user :
        (p u : ℕ)
        → count (is_user p u) (update_where (has_id id) (set_role role) s.memberships)
          ≡ count (is_user p u) s.memberships
    keeps_user p u =
        count-change (has_id id) (is_user p u) (set_role role) s.memberships (λ y. refl)

    changed :
        count (is_owner o) (update_where (has_id id) (set_role role) s.memberships)
          + bit (is_owner o x)
        ≡ count (is_owner o) s.memberships + bit (is_owner o (set_role role x))
    changed =
        count-update_where (has_id id) (is_owner o) (set_role role) s.memberships x
          (h.unique_ids id) (member_of o org id s x h f).0

-- A member may be removed who is no owner, or not the last one.
pub IsTeam-delete :
    (o org id : ℕ) (s t : Store) (x : Membership)
    → find_first (λ m. in_organization org m && has_id id m) s.memberships ≡ some x
    → (role_eq x.role owner && leb (count (is_owner org) s.memberships) 1) ≡ false
    → t.memberships ≡ delete_where (has_id id) s.memberships
    → t.next_id ≡ s.next_id
    → IsTeam o s
    → IsTeam o t
unfolding is_owner in_organization
IsTeam-delete o org id s t x f guard m n h = record {
  unique_ids = λ i. rw m (ground (arith, fewer (has_id i), h.unique_ids i));
  fresh_ids = λ i l. rw m (ground (arith, fewer (has_id i), h.fresh_ids i (rw (← n) l)));
  one_each = λ p u. rw m (ground (arith, fewer (is_user p u), h.one_each p u));
  has_owner = rw m (ground (arith, fewer (is_owner o), member_of o org id s x h f, h.has_owner));
}
  where
    fewer :
        (q : Membership → Bool)
        → count q (delete_where (has_id id) s.memberships) + bit (q x) ≡ count q s.memberships
    fewer q =
        count-delete_where (has_id id) q s.memberships x (h.unique_ids id)
          (member_of o org id s x h f).0

-- A new member, under a fresh identifier, of a workspace where the user is not one yet.
pub IsTeam-join :
    (o : ℕ) (s t : Store) (x : Membership)
    → count (is_user x.organization x.user) s.memberships ≡ 0
    → x.id ≡ s.next_id
    → t.memberships ≡ x ∷ s.memberships
    → t.next_id ≡ suc s.next_id
    → IsTeam o s
    → IsTeam o t
unfolding count has_id is_user is_owner in_organization
IsTeam-join o s t x new i m n h = record {
  unique_ids = λ j. rw m (ground (arith, h.unique_ids j, h.fresh_ids j));
  fresh_ids = λ j l. rw m (ground (arith, h.fresh_ids j));
  one_each = λ p u. rw m (ground (arith, h.one_each p u, same_count p u));
  has_owner = rw m (ground (arith, h.has_owner));
}
  where
    same_count : (p u : ℕ) → x.organization ≡ p → x.user ≡ u → count (is_user p u) s.memberships ≡ 0
    same_count p u a b = rw (← a, ← b) new
