-- ===== src/Auth/Sessions/StaysOut.antt =====
-- A session that was revoked, and a member that was removed, stay out, whatever calls come:
-- apps/api/src/auth/auth.service.ts, apps/api/src/auth/session.guard.ts and
-- apps/api/src/team/membership.service.ts.
use Prim.Native.String.{String}
use text.Mathlib.Text.{◌==◌ as str_eq}
use stock_pilot.Prelude.{
  ℕ, suc, ◌<◌, ◌≤◌, ◌≡◌, ◌≢◌, refl, ap, sym, ◌∙◌, Bool, true, false, ◌&&◌, ◌||◌, not, Option, none,
  some, List, [], ◌∷◌, leb, count, find_first, update_where, delete_where, is_none, arith,
  if◌then◌else◌, ⊤, Option-cases, Bool-cases, inl, inr,
}
use stock_pilot.Store.Rows.{owner, Session, Membership, User}
use stock_pilot.Store.Monad.{
  Store, Result, ok, err, Error, invalid_session, authentication_required, with_tenant,
  with_tenant-commits, Ensures, throw_if-bind, last_owner_required,
}
use stock_pilot.Auth.Context.{AuthContext, MembershipContext}
use stock_pilot.Auth.Throttle.{ThrottleOptions}
use stock_pilot.Auth.Sessions.{
  SessionSettings, IssueReadings, has_token, is_session, is_account, revoke_session_at,
  revoke_session, membership_of, membership_context, context_or_none, auth_context, check_session,
  authenticate, session_row,
}
use stock_pilot.Auth.Login.{Server}
use stock_pilot.Auth.Sessions.Calls.{SessionCall, perform_sessions}
use stock_pilot.Auth.Sessions.Gone.{Outside, Gone, find_first-Outside}
use stock_pilot.Auth.Sessions.Revoked.{perform_sessions-Gone}
use stock_pilot.Inventory.Steps.{record_audit}
use stock_pilot.Team.Membership.{
  has_id, is_owner, role_eq, remove_member, RemovedMember, delete_membership,
}
use stock_pilot.Team.MemberLaws.{require-bind, find_member-bind}

-- A row behind a context that the guard gives.
Behind : Store → AuthContext → Session → Type 0
Behind s auth x =
    (is_none x.revoked_at ≡ true)
    × (auth.session_id ≡ x.id)
    × (auth.membership ≡ context_or_none s (membership_of s x.membership))

-- None of the rows is among `q`.
None : (Session → Bool) → Option Session → Type 0
None q none = ⊤
None q (some x) = q x ≡ false

find_first-None :
    (q p : Session → Bool) (xs : List Session) → count q xs ≡ 0 → None q (find_first p xs)
unfolding count find_first None
find_first-None q p [] h = tt
find_first-None q p (x ∷ xs) h = elim (Bool-cases (p x)) [
  | inl e ↦ rw (find_first, e) (ground arith)
  | inr e ↦ rw (find_first, e) (find_first-None q p xs (ground arith))
]

allowed :
    {A : Type 0} (refused : Bool) (e : Error) (r : Result A) (a : A)
    → (if refused then err e else r) ≡ ok a
    → (refused ≡ false) × (r ≡ ok a)
allowed true e r a h = cc
allowed false e r a h = (refl, h)

auth_context-Behind :
    (s : Store) (x : Session) (account : Option User) (auth : AuthContext)
    → is_none x.revoked_at ≡ true
    → auth_context s x account ≡ ok auth
    → Behind s auth x
unfolding auth_context Behind
auth_context-Behind s x none auth live h = cc
auth_context-Behind s x (some u) auth live h = (live, cc, cc)

check_session-Behind :
    (q : Session → Bool) (now : ℕ) (s : Store) (found : Option Session) (auth : AuthContext)
    → None q found
    → check_session now s found ≡ ok auth
    → (x : Session) × (q x ≡ false) × Behind s auth x
unfolding check_session None
check_session-Behind q now s none auth out h = cc
check_session-Behind q now s (some x) auth out h =
    let (passed, e) =
      allowed (not (is_none x.revoked_at) || leb x.expires_at now) invalid_session
        (auth_context s x (find_first (is_account x.user) s.users)) auth h in
    (x, out, auth_context-Behind s x _ auth (ground arith) e)

authenticate-Behind :
    (hash : String → String) (q : Session → Bool) (now : ℕ) (cookie : Option String) (s : Store)
    (auth : AuthContext)
    → count q s.sessions ≡ 0
    → authenticate hash now cookie s ≡ ok auth
    → (x : Session) × (q x ≡ false) × Behind s auth x
unfolding authenticate
authenticate-Behind hash q now none s auth out h = cc
authenticate-Behind hash q now (some raw_token) s auth out h =
    check_session-Behind q now s (find_first (has_token (hash raw_token)) s.sessions) auth
      (find_first-None q (has_token (hash raw_token)) s.sessions out)
      (allowed (str_eq raw_token "") authentication_required _ auth h).1

is_live_session : ℕ → Session → Bool
is_live_session id x = is_session id x && is_none x.revoked_at

count-revoke :
    (id now : ℕ) (xs : List Session)
    → count (is_live_session id) (update_where (is_session id) (revoke_session_at now) xs) ≡ 0
unfolding count update_where is_live_session is_session revoke_session_at is_none
count-revoke id now [] = refl
count-revoke id now (x ∷ xs) = ground (arith, count-revoke id now xs)

count-absent_live :
    (id : ℕ) (xs : List Session)
    → find_first (is_session id) xs ≡ none
    → count (is_live_session id) xs ≡ 0
unfolding count find_first is_live_session
count-absent_live id [] h = refl
count-absent_live id (x ∷ xs) h = ground (arith, count-absent_live id xs)

count-never : (xs : List Membership) → count (λ _. false) xs ≡ 0
unfolding count
count-never [] = refl
count-never (x ∷ xs) = omega (arith, count-never xs)

revoke_session-Gone_live :
    (now id : ℕ) (s : Store)
    → id < s.next_id
    → Gone (is_live_session id) (λ _. false) (suc id) (revoke_session now id s).1
unfolding revoke_session
revoke_session-Gone_live now id s below =
    elim (Option-cases (find_first (is_session id) s.sessions)) [
      | inl n ↦
          rw (revoke_session, n)
            (omega (arith, below), count-absent_live id s.sessions n, count-never s.memberships)
      | inr (x, f) ↦
          rw (revoke_session, f)
            (omega (arith, below), count-revoke id now s.sessions, count-never s.memberships)
    ]

live-kept :
    (id now : ℕ) (x : Session)
    → is_live_session id (revoke_session_at now x) ≡ true
    → is_live_session id x ≡ true
unfolding is_live_session revoke_session_at is_none
live-kept id now x h = ground arith

row-not_live :
    (old : ℕ) (hash : String → String) (settings : SessionSettings) (readings : IssueReadings)
    (raw_token : String) (membership : Option Membership) (user id : ℕ)
    → suc old ≤ id
    → Outside (λ _. false) membership
    → is_live_session old (session_row hash settings readings raw_token membership user id) ≡ false
unfolding is_live_session is_session session_row
row-not_live old hash settings readings raw_token membership user id above out = ground arith

-- A session that `revokeSession` revoked, of an identifier that the database has drawn, stays out:
-- whatever sign-ins, sign-ups, workspace switches, revocations and removals of members follow, no
-- cookie gives that session at any time.
pub revoked_stays_out :
    (hash : String → String) (derive : String → String → String) (to_lower trim : String → String)
    (verify : String → String → Bool) (hash_password : String → String) (settings : SessionSettings)
    (o : ThrottleOptions) (now id : ℕ) (v : Server) (cs : List SessionCall) (later : ℕ)
    (cookie : Option String) (auth : AuthContext)
    → id < v.store.next_id
    → authenticate hash later cookie
        (perform_sessions hash derive to_lower trim verify hash_password settings o cs
          (record v { store = (revoke_session now id v.store).1 })).store
      ≡ ok auth
    → auth.session_id ≢ id
unfolding is_live_session is_session Behind
revoked_stays_out hash derive to_lower trim verify hash_password settings o now id v cs later cookie
      auth below h same =
    let gone =
      perform_sessions-Gone (is_live_session id) (live-kept id) (λ _. false) (suc id)
        (row-not_live id) hash derive to_lower trim verify hash_password settings o cs
        (record v { store = (revoke_session now id v.store).1 })
        (revoke_session-Gone_live now id v.store below) in
    let (x, other, (live, this, member)) =
      authenticate-Behind hash (is_live_session id) later cookie _ auth gone.1 h in
    let e : x.id ≡ id = sym this ∙ same in ground (arith, other, live, e)

count-no_session : (xs : List Session) → count (λ _. false) xs ≡ 0
unfolding count
count-no_session [] = refl
count-no_session (x ∷ xs) = omega (arith, count-no_session xs)

count-deleted : (p : Membership → Bool) (xs : List Membership) → count p (delete_where p xs) ≡ 0
unfolding count delete_where
count-deleted p [] = refl
count-deleted p (x ∷ xs) = ground (arith, count-deleted p xs)

remove_member-Deleted :
    (now : ℕ) (auth : AuthContext) (id : ℕ) (s : Store)
    → Ensures
        (λ (_ : RemovedMember) t. count (has_id id) t.memberships ≡ 0)
        (remove_member now auth id s)
unfolding remove_member record_audit delete_membership
remove_member-Deleted now auth id s =
    let Q : RemovedMember → Store → Type 0 = λ _ t. count (has_id id) t.memberships ≡ 0 in
    require-bind auth Q _ s λ m. find_member-bind m.organization id Q _ s λ x f.
      throw_if-bind (role_eq x.role owner && leb (count (is_owner m.organization) s.memberships) 1)
        last_owner_required Q _ s λ g. count-deleted (has_id id) s.memberships

id_or_zero : Option MembershipContext → ℕ
id_or_zero none = 0
id_or_zero (some m) = m.id

context-other :
    (id : ℕ) (s : Store) (found : Option Membership) (m : MembershipContext)
    → Outside (has_id id) found
    → context_or_none s found ≡ some m
    → m.id ≢ id
unfolding context_or_none membership_context has_id id_or_zero
context-other id s none m out e same = cc
context-other id s (some x) m out e same =
    let found : x.id ≡ m.id = ap id_or_zero e in ground (arith, out, found, same)

membership_of-other :
    (id : ℕ) (s : Store) (bound : Option ℕ) (m : MembershipContext)
    → count (has_id id) s.memberships ≡ 0
    → context_or_none s (membership_of s bound) ≡ some m
    → m.id ≢ id
unfolding membership_of
membership_of-other id s none m h e = context-other id s none m tt e
membership_of-other id s (some k) m h e =
    context-other id s (find_first (has_id k) s.memberships) m
      (find_first-Outside (has_id id) (has_id k) s.memberships h) e

-- A member that `removeMember` removed stays out: whatever sign-ins, sign-ups, workspace switches,
-- revocations and removals of members follow, no cookie gives that membership at any time.
pub removed_stays_out :
    (hash : String → String) (derive : String → String → String) (to_lower trim : String → String)
    (verify : String → String → Bool) (hash_password : String → String) (settings : SessionSettings)
    (o : ThrottleOptions) (now id : ℕ) (caller : AuthContext) (v : Server) (removed : RemovedMember)
    (cs : List SessionCall) (later : ℕ) (cookie : Option String) (auth : AuthContext)
    (m : MembershipContext)
    → (with_tenant (remove_member now caller id) v.store).0 ≡ ok removed
    → authenticate hash later cookie
        (perform_sessions hash derive to_lower trim verify hash_password settings o cs
          (record v { store = (with_tenant (remove_member now caller id) v.store).1 })).store
      ≡ ok auth
    → auth.membership ≡ some m
    → m.id ≢ id
unfolding Behind
removed_stays_out hash derive to_lower trim verify hash_password settings o now id caller v removed
      cs later cookie auth m done h row =
    let gone =
      perform_sessions-Gone (λ _. false) (λ _ _ absurd_. absurd_) (has_id id) 0
        (λ _ _ _ _ _ _ _ _ _. refl) hash derive to_lower trim verify hash_password settings o cs
        (record v { store = (with_tenant (remove_member now caller id) v.store).1 })
        (
          omega arith,
          count-no_session _,
          with_tenant-commits (λ (_ : RemovedMember) t. count (has_id id) t.memberships ≡ 0)
              (remove_member now caller id) v.store removed done
              (remove_member-Deleted now caller id v.store),
        ) in
    let (x, other, (live, this, member)) =
      authenticate-Behind hash (λ _. false) later cookie _ auth gone.1 h in
    membership_of-other id _ x.membership m gone.2 (sym member ∙ row)
