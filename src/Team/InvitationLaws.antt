-- ===== src/Team/InvitationLaws.antt =====
-- The calls on invitations keep a team a team and stay within the seats of the plan.
use Prim.Native.String.{String}
use stock_pilot.Prelude.{
  ℕ, suc, ◌+◌, ◌≤◌, ◌≡◌, refl, Bool, ◌&&◌, inl, inr, none, some, List, Option-cases, Bool-cases,
  leb, ltb, count, find_first, is_none, update_where, find_first-holds, find_first-update_where, ⊤,
  arith, ◌∷◌,
}
use stock_pilot.Store.Rows.{Membership, Invitation}
use stock_pilot.Store.Monad.{
  Store, M, ok, err, or_throw-bind, throw_if-bind, Ensures, Ensures-map, plan_limit_reached,
  invitation_not_found, already_a_member, invitation_already_accepted,
}
use stock_pilot.Auth.Context.{AuthContext}
use stock_pilot.Billing.{plan_of, entitlements_for, effective_plan_in_transaction}
use stock_pilot.Inventory.Steps.{record_audit, fresh_id}
use stock_pilot.Team.Membership.{in_organization}
use stock_pilot.Team.Invitation.{
  is_user, takes_seat, check_seats, check_member_limit, assert_acceptable, update_invitation,
  create_membership, join_team, accept_in_transaction, of_organization, with_id, accept_at,
}

-- The seats that the plan of a workspace has.
unfoldable pub seats : ℕ → Store → ℕ
seats org s = (entitlements_for (plan_of org s)).max_team_members

module _ {B : Type 0} (Q : B → Store → Type 0) (f : ⊤ → M B) (s : Store) where
  pub check_seats-bind :
      (org now : ℕ)
      → (suc (count (in_organization org) s.memberships + count (takes_seat org now) s.invitations)
            ≤ seats org s
          → Ensures Q (f tt s))
      → Ensures Q (elim (check_seats org now s) [ ok (a, t) ↦ f a t | err e ↦ err e ])
  unfolding check_seats effective_plan_in_transaction seats
  check_seats-bind org now rest =
      throw_if-bind
        (leb (seats org s)
          (count (in_organization org) s.memberships + count (takes_seat org now) s.invitations))
        (plan_limit_reached (seats org s)) Q f s (λ g. rest (ground arith))

  check_member_limit-bind :
      (org : ℕ)
      → (suc (count (in_organization org) s.memberships) ≤ seats org s → Ensures Q (f tt s))
      → Ensures Q (elim (check_member_limit org s) [ ok (a, t) ↦ f a t | err e ↦ err e ])
  unfolding check_member_limit effective_plan_in_transaction seats
  check_member_limit-bind org rest =
      throw_if-bind (leb (seats org s) (count (in_organization org) s.memberships))
        (plan_limit_reached (seats org s)) Q f s (λ g. rest (ground arith))

  assert_acceptable-bind :
      (now : ℕ) (i : Invitation)
      → (i.revoked_at ≡ none → i.accepted_at ≡ none → suc now ≤ i.expires_at → Ensures Q (f tt s))
      → Ensures Q (elim (assert_acceptable now i s) [ ok (a, t) ↦ f a t | err e ↦ err e ])
  unfolding assert_acceptable is_none
  assert_acceptable-bind now i rest = elim (Option-cases i.revoked_at) [
    | inr (a, e) ↦ rw e tt
    | inl e ↦ elim (Option-cases i.accepted_at) [
      | inr (b, k) ↦ rw (e, k) tt
      | inl k ↦ elim (Bool-cases (leb i.expires_at now)) [
        | inl g ↦ rw (e, k, g) tt
        | inr g ↦ rw (e, k, g) (rest e k (ground arith))
      ]
    ]
  ]

-- What an acceptance that returns found in the store, and what it did.
pub record Joined (checked now : ℕ) (auth : AuthContext) (i : Invitation) (s : Store)
    (x : Membership) (t : Store) : Type 0 where
  pub current : Invitation
  pub found :
      find_first (λ j. of_organization i.organization j && with_id i.id j) s.invitations
      ≡ some current
  pub not_revoked : current.revoked_at ≡ none
  pub not_accepted : current.accepted_at ≡ none
  pub live : suc checked ≤ current.expires_at
  pub no_member : count (is_user i.organization auth.user) s.memberships ≡ 0
  pub granted : (x.role ≡ current.role) × ((x.user ≡ auth.user) × (x.organization ≡ i.organization))
  pub joined : t.memberships ≡ x ∷ s.memberships
  pub within_seats : count (in_organization i.organization) t.memberships ≤ seats i.organization s
  pub accepted :
      (j : Invitation) × (find_first
          (λ j. of_organization i.organization j && with_id i.id j)
          t.invitations
        ≡ some j)
      × (j.accepted_at ≡ some now)
      × (j.revoked_at ≡ none)
  pub fresh : (x.id ≡ s.next_id) × (t.next_id ≡ suc s.next_id)

one_more :
    (p : Membership → Bool) (x : Membership) (xs : List Membership) (n : ℕ)
    → suc (count p xs) ≤ n
    → count p (x ∷ xs) ≤ n
unfolding count
one_more p x xs n h = ground arith

marked :
    (now id : ℕ) (i j : Invitation) (s : Store)
    → id ≡ i.id
    → find_first (λ j. of_organization i.organization j && with_id i.id j) s.invitations ≡ some j
    → find_first
        (λ j. of_organization i.organization j && with_id i.id j)
        (update_where (with_id id) (accept_at now) s.invitations)
      ≡ some (accept_at now j)
unfolding of_organization with_id accept_at
marked now id i j s e found = rw e (
    find_first-update_where (with_id i.id) (of_organization i.organization) (accept_at now)
      s.invitations j (λ y. refl) found)

-- The body of `accept_in_transaction` after the checks.
join_team-Joined :
    (checked now : ℕ) (auth : AuthContext) (name : String) (i j : Invitation) (s : Store)
    → find_first (λ j. of_organization i.organization j && with_id i.id j) s.invitations ≡ some j
    → j.revoked_at ≡ none
    → j.accepted_at ≡ none
    → suc checked ≤ j.expires_at
    → count (is_user j.organization auth.user) s.memberships ≡ 0
    → suc (count (in_organization j.organization) s.memberships) ≤ seats j.organization s
    → Ensures (Joined checked now auth i s) (join_team now auth name j s)
unfolding join_team fresh_id create_membership update_invitation record_audit of_organization
    with_id accept_at
join_team-Joined checked now auth name i j s found r a l none_yet seat = record {
  current = j;
  found = found;
  not_revoked = r;
  not_accepted = a;
  live = l;
  no_member = rw (← here.0) none_yet;
  granted = (refl, (refl, here.0));
  joined = refl;
  within_seats = rw (← here.0) (one_more _ _ _ _ seat);
  accepted = (accept_at now j, marked now j.id i j s here.1 found, refl, r);
  fresh = (refl, refl);
}
  where
    here : (j.organization ≡ i.organization) × (j.id ≡ i.id)
    here = ground (
      arith,
      find_first-holds (λ j. of_organization i.organization j && with_id i.id j) s.invitations j
          found,
    )

-- Whatever happened since the link was looked up, an acceptance that returns found the invitation
-- open and not expired, a seat left in the plan, and no membership of the caller yet. It grants
-- the invitation's role in its workspace, stays within the seats, and marks the invitation.
pub accept_in_transaction-Joined :
    (checked now : ℕ) (auth : AuthContext) (name : String) (i : Invitation) (s : Store)
    → Ensures (Joined checked now auth i s) (accept_in_transaction checked now auth name i s)
unfolding accept_in_transaction
accept_in_transaction-Joined checked now auth name i s =
    or_throw-bind
      (find_first (λ j. of_organization i.organization j && with_id i.id j) s.invitations)
      invitation_not_found (Joined checked now auth i s) _ s
      λ j found. assert_acceptable-bind (Joined checked now auth i s) _ s checked j λ r a l.
        throw_if-bind (ltb 0 (count (is_user j.organization auth.user) s.memberships))
          already_a_member (Joined checked now auth i s) _ s
          λ g.
            check_member_limit-bind (Joined checked now auth i s) _ s j.organization
              λ seat. join_team-Joined checked now auth name i j s found r a l (ground arith) seat

-- Accepting uses the invitation up: in the store that an acceptance leaves, and for whoever asks
-- whenever, it is refused as already accepted.
pub accept_once :
    (checked now again later : ℕ) (auth other : AuthContext) (name alias : String) (i : Invitation)
    (s : Store)
    → Ensures
        (λ _ t. accept_in_transaction again later other alias i t ≡ err invitation_already_accepted)
        (accept_in_transaction checked now auth name i s)
unfolding accept_in_transaction assert_acceptable is_none
accept_once checked now again later auth other name alias i s =
    Ensures-map (Joined checked now auth i s)
      (λ _ t. accept_in_transaction again later other alias i t ≡ err invitation_already_accepted) _
      (λ x t w. rw (w.accepted.1, w.accepted.2, w.accepted.3) refl)
      (accept_in_transaction-Joined checked now auth name i s)
