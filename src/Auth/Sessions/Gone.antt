-- ===== src/Auth/Sessions/Gone.antt =====
-- What no call brings back: sessions and memberships that are gone, of
-- apps/api/src/auth/auth.service.ts and apps/api/src/team/membership.service.ts.
use Prim.Native.String.{String}
use stock_pilot.Prelude.{
  ℕ, ◌≤◌, ◌≡◌, refl, ap, ◌∙◌, Bool, true, false, ◌&&◌, Option, none, some, List, [], ◌∷◌, ◌==◌,
  count, count-delete_where_le, select, sort_by, insert_by, find_first, update_where, delete_where,
  arith, ⊤, Option-cases, leb, Bool-cases, inl, inr,
}
use mathlib.Core.Path.{subst}
use stock_pilot.Store.Rows.{owner, Session, Membership}
use stock_pilot.Store.Monad.{last_owner_required, Store, Ensures, throw_if-bind}
use stock_pilot.Auth.Context.{AuthContext}
use stock_pilot.Auth.Sessions.{
  SessionSettings, IssueReadings, IssuedSession, is_expired_session, revoke_session_at, is_session,
  revoke_session, drop_expired, revoke_excess, tidy, session_row, create_session, insert_session,
  issue_session, issued_session, switch_workspace, has_token,
}
use stock_pilot.Auth.Login.{first_membership}
use stock_pilot.Team.Membership.{
  remove_member, delete_membership, is_bound_to, has_id, is_owner, role_eq, in_organization,
}
use stock_pilot.Team.MemberLaws.{require-bind, find_member-bind}
use stock_pilot.Inventory.Steps.{record_audit}

-- No row is among `q` after a write that puts no row there.
module _ (q : Session → Bool)
    (kept : (now : ℕ) (x : Session) → q (revoke_session_at now x) ≡ true → q x ≡ true) where
  count-revoked :
      (p : Session → Bool) (now : ℕ) (xs : List Session)
      → count q xs ≡ 0
      → count q (update_where p (revoke_session_at now) xs) ≡ 0
  unfolding count update_where
  count-revoked p now [] h = refl
  count-revoked p now (x ∷ xs) h = ground (arith, kept now x, count-revoked p now xs)

  count-tidy :
      (max_active user now : ℕ) (xs : List Session)
      → count q xs ≡ 0
      → count q (tidy max_active user now xs) ≡ 0
  unfolding tidy revoke_excess drop_expired
  count-tidy max_active user now xs h =
      count-revoked _ now (delete_where (is_expired_session user now) xs)
        (omega (arith, h, count-delete_where_le (is_expired_session user now) q xs))

  count-insert_session :
      (row : Session) (made : IssuedSession) (found : Option Session) (s : Store)
      → q row ≡ false
      → count q s.sessions ≡ 0
      → count q (insert_session row made found s).1.sessions ≡ 0
  unfolding insert_session count
  count-insert_session row made (some taken) s new h = h
  count-insert_session row made none s new h = ground arith

  pub count-issue_session :
      (hash : String → String) (derive : String → String → String) (settings : SessionSettings)
      (readings : IssueReadings) (raw_token : String) (membership : Option Membership) (user : ℕ)
      (s : Store)
      → q (session_row hash settings readings raw_token membership user s.next_id) ≡ false
      → count q s.sessions ≡ 0
      → count q (issue_session hash derive settings readings raw_token membership user s).1.sessions
        ≡ 0
  unfolding issue_session create_session
  count-issue_session hash derive settings readings raw_token membership user s new h =
      let tidied : Store = record s {
        sessions = tidy settings.max_active user readings.now s.sessions;
      } in
      count-insert_session (session_row hash settings readings raw_token membership user s.next_id)
        (issued_session hash derive settings readings raw_token membership user tidied) _ tidied new
        (count-tidy settings.max_active user readings.now s.sessions h)

-- A membership that is none, or not among `w`.
abbrev pub Outside : (Membership → Bool) → Option Membership → Type 0
Outside w none = ⊤
Outside w (some m) = w m ≡ false

-- No session is among `q`, no membership among `w`, and identifiers go on from `low`.
abbrev pub Gone : (Session → Bool) → (Membership → Bool) → ℕ → Store → Type 0
Gone q w low s = (low ≤ s.next_id) × (count q s.sessions ≡ 0) × (count w s.memberships ≡ 0)

pub find_first-Outside :
    (w p : Membership → Bool) (xs : List Membership) → count w xs ≡ 0 → Outside w (find_first p xs)
unfolding count find_first
find_first-Outside w p [] h = tt
find_first-Outside w p (x ∷ xs) h = elim (Bool-cases (p x)) [
  | inl e ↦ rw (find_first, e) (ground arith)
  | inr e ↦ rw (find_first, e) (find_first-Outside w p xs (ground arith))
]

count-insert_member :
    (w : Membership → Bool) (key : Membership → ℕ) (x : Membership) (xs : List Membership)
    → count w (insert_by key x xs) ≡ count w (x ∷ xs)
unfolding count insert_by
count-insert_member w key x [] = refl
count-insert_member w key x (y ∷ ys) = ground (arith, count-insert_member w key x ys)

pub count-chosen :
    (w p : Membership → Bool) (key : Membership → ℕ) (xs : List Membership)
    → count w xs ≡ 0
    → count w (sort_by key (select p xs)) ≡ 0
unfolding count sort_by select
count-chosen w p key [] h = refl
count-chosen w p key (x ∷ xs) h =
    ground (arith, count-chosen w p key xs, count-insert_member w key x (sort_by key (select p xs)))

pub first_membership-Outside :
    (w : Membership → Bool) (xs : List Membership)
    → count w xs ≡ 0
    → Outside w (first_membership xs)
unfolding count first_membership
first_membership-Outside w [] h = tt
first_membership-Outside w (x ∷ xs) h = ground arith

insert_session-rest :
    (row : Session) (made : IssuedSession) (found : Option Session) (s : Store)
    → ((insert_session row made found s).1.memberships ≡ s.memberships)
      × (s.next_id ≤ (insert_session row made found s).1.next_id)
unfolding insert_session
insert_session-rest row made (some taken) s = (refl, omega arith)
insert_session-rest row made none s = (refl, omega arith)

module _ (q : Session → Bool)
    (kept : (now : ℕ) (x : Session) → q (revoke_session_at now x) ≡ true → q x ≡ true)
    (w : Membership → Bool) (low : ℕ)
    (fresh : (hash : String → String) (settings : SessionSettings) (readings : IssueReadings)
        (raw_token : String) (membership : Option Membership) (user id : ℕ)
      → low ≤ id
      → Outside w membership
      → q (session_row hash settings readings raw_token membership user id) ≡ false) where
  pub issue_session-Gone :
      (hash : String → String) (derive : String → String → String) (settings : SessionSettings)
      (readings : IssueReadings) (raw_token : String) (membership : Option Membership) (user : ℕ)
      (s : Store)
      → Outside w membership
      → Gone q w low s
      → Gone q w low (issue_session hash derive settings readings raw_token membership user s).1
  unfolding issue_session create_session
  issue_session-Gone hash derive settings readings raw_token membership user s out (l, c, m) =
      let tidied : Store = record s {
        sessions = tidy settings.max_active user readings.now s.sessions;
      } in
      let rest =
        insert_session-rest (session_row hash settings readings raw_token membership user s.next_id)
          (issued_session hash derive settings readings raw_token membership user tidied)
          (find_first (has_token (hash raw_token)) tidied.sessions) tidied in
      (
        omega (arith, l, rest.1),
        count-issue_session q kept hash derive settings readings raw_token membership user s
            (fresh hash settings readings raw_token membership user s.next_id l out) c,
        ap (count w) rest.0 ∙ m,
      )

  delete_membership-Gone :
      (id : ℕ) (s : Store) → Gone q w low s → Gone q w low (delete_membership id s)
  unfolding delete_membership
  delete_membership-Gone id s (l, c, m) = (
    l,
    omega (arith, c, count-delete_where_le (is_bound_to id) q s.sessions),
    omega (arith, m, count-delete_where_le (has_id id) w s.memberships),
  )

  pub remove_member-Gone :
      (now : ℕ) (auth : AuthContext) (id : ℕ) (s : Store)
      → Gone q w low s
      → Ensures (λ _ t. Gone q w low t) (remove_member now auth id s)
  unfolding remove_member record_audit
  remove_member-Gone now auth id s h =
      require-bind auth (λ _ t. Gone q w low t) _ s
        λ m.
          find_member-bind m.organization id (λ _ t. Gone q w low t) _ s
            λ x f.
              throw_if-bind
                (role_eq x.role owner && leb (count (is_owner m.organization) s.memberships) 1)
                last_owner_required (λ _ t. Gone q w low t) _ s λ g. delete_membership-Gone id s h

  pub revoke_session-Gone :
      (now id : ℕ) (s : Store) → Gone q w low s → Gone q w low (revoke_session now id s).1
  unfolding revoke_session
  revoke_session-Gone now id s (l, c, m) =
      elim (Option-cases (find_first (is_session id) s.sessions)) [
        | inl n ↦ rw (revoke_session, n) (l, c, m)
        | inr (x, e) ↦
            rw (revoke_session, e) (l, count-revoked q kept (is_session id) now s.sessions c, m)
      ]

  pub switch_workspace-Gone :
      (hash : String → String) (derive : String → String → String) (settings : SessionSettings)
      (readings : IssueReadings) (raw_token : String) (auth : AuthContext) (organization : ℕ)
      (s : Store)
      → Gone q w low s
      → Gone q w low
          (switch_workspace hash derive settings readings raw_token auth organization s).1
  unfolding switch_workspace
  switch_workspace-Gone hash derive settings readings raw_token auth organization s h =
      let p : Membership → Bool = λ m. in_organization organization m && (m.user == auth.user) in
      elim (Option-cases (find_first p s.memberships)) [
        | inl n ↦ rw (switch_workspace, n) h
        | inr (m, e) ↦
            let out = subst (Outside w) e (find_first-Outside w p s.memberships h.2) in
            rw (switch_workspace, e)
              (issue_session-Gone hash derive settings readings raw_token (some m) m.user s out h)
      ]
