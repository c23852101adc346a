-- ===== src/Auth/Sessions.antt =====
-- apps/api/src/auth/auth.service.ts, apps/api/src/auth/session.guard.ts and
-- apps/api/src/auth/session-credentials.ts: sessions, and who a request's session is. A call is
-- several writes that commit one by one, so a call that throws keeps what it wrote before. `hash` is
-- SHA-256 and `derive` its keyed form, `verify` and `hash_password` are those of argon2.
pub mod Cap
pub mod Lifetime
pub mod Calls
pub mod Gone
pub mod Revoked
pub mod StaysOut
use Prim.Native.String.{String}
use text.Mathlib.Text.{◌==◌ as str_eq}
use stock_pilot.Prelude.{
  ℕ, suc, ◌+◌, ◌-◌, ◌*◌, ◌==◌, Bool, false, ◌&&◌, ◌||◌, not, Option, none, some, List, [], ◌∷◌, leb,
  ltb, length, map, take, select, sort_by, find_first, update_where, delete_where, is_none,
  if◌then◌else◌, ⊤,
}
use stock_pilot.Store.Rows.{User, Session, Membership, Organization}
use stock_pilot.Store.Monad.{
  Store, Result, ok, err, duplicate_key, record_not_found, invalid_workspace_membership,
  authentication_required, invalid_session,
}
use stock_pilot.Auth.Context.{AuthContext, MembershipContext}
use stock_pilot.Team.Membership.{has_id, in_organization}

-- `MAX_ACTIVE_SESSIONS_PER_USER` and `SESSION_TTL_HOURS`, and `CSRF_SECRET`.
pub record SessionSettings : Type 0 where
  pub max_active : ℕ
  pub ttl_hours : ℕ
  pub csrf_secret : String

-- The clock at the start of `issueSession`, at `expiresAt`, and the database's at `createdAt`.
pub record IssueReadings : Type 0 where
  pub now : ℕ
  pub at_expiry : ℕ
  pub at_create : ℕ

pub record IssuedSession : Type 0 where
  pub membership : Option MembershipContext
  pub user : ℕ
  pub csrf_token : String
  pub raw_token : String
  pub session : Session

unfoldable pub has_token : String → Session → Bool
has_token token_hash x = str_eq x.token_hash token_hash

unfoldable pub is_session : ℕ → Session → Bool
is_session id x = x.id == id

unfoldable pub is_account : ℕ → User → Bool
is_account id u = u.id == id

-- `where: { expiresAt: { lt: now }, userId }`
unfoldable pub is_expired_session : ℕ → ℕ → Session → Bool
is_expired_session user now x = (x.user == user) && ltb x.expires_at now

-- `where: { expiresAt: { gt: now }, revokedAt: null, userId }`
unfoldable pub is_active_session : ℕ → ℕ → Session → Bool
is_active_session user now x = (x.user == user) && (is_none x.revoked_at && ltb now x.expires_at)

unfoldable pub revoke_session_at : ℕ → Session → Session
revoke_session_at now x = record x { revoked_at = some now }

abbrev pub id_of : Session → ℕ
id_of x = x.id

abbrev pub created_of : Session → ℕ
created_of x = x.created_at

-- `{ id: { in: ids } }`
unfoldable pub is_in : List ℕ → Session → Bool
is_in [] x = false
is_in (i ∷ ids) x = (x.id == i) || is_in ids x

unfoldable pub drop_expired : ℕ → ℕ → List Session → List Session
drop_expired user now xs = delete_where (is_expired_session user now) xs

-- The user's active sessions, the oldest first.
unfoldable pub active_sessions : ℕ → ℕ → List Session → List Session
active_sessions user now xs = sort_by created_of (select (is_active_session user now) xs)

-- Where `excess` is not positive, no row is written.
unfoldable pub revoke_excess : ℕ → ℕ → ℕ → List Session → List Session
revoke_excess max_active user now xs =
    let actives = active_sessions user now xs in
    let excess = length actives - max_active in
    update_where (is_in (map id_of (take excess actives))) (revoke_session_at now) xs

unfoldable pub tidy : ℕ → ℕ → ℕ → List Session → List Session
tidy max_active user now xs = revoke_excess max_active user now (drop_expired user now xs)

-- `include: { organization: true }`: a foreign key keeps the row of a membership's organization.
unfoldable pub is_demo_workspace : Option Organization → Bool
is_demo_workspace none = false
is_demo_workspace (some o) = o.is_demo

unfoldable pub membership_context : Store → Membership → MembershipContext
membership_context s m = record {
  id = m.id;
  role = m.role;
  organization = m.organization;
  is_demo =
      is_demo_workspace (find_first (λ (o : Organization). o.id == m.organization) s.organizations);
}

-- A context for a membership that may be none.
unfoldable pub context_or_none : Store → Option Membership → Option MembershipContext
context_or_none s none = none
context_or_none s (some m) = some (membership_context s m)

unfoldable pub bound_to : Option Membership → Option ℕ
bound_to none = none
bound_to (some m) = some m.id

-- `include: { membership: … }` of a session.
unfoldable pub membership_of : Store → Option ℕ → Option Membership
membership_of s none = none
membership_of s (some id) = find_first (has_id id) s.memberships

-- `request.auth`, for a session with its user's row.
unfoldable pub auth_context : Store → Session → Option User → Result AuthContext
auth_context s x none = err record_not_found
auth_context s x (some u) = ok (record {
  session_id = x.id;
  session_token_hash = x.token_hash;
  user = u.id;
  display_name = u.display_name;
  email = u.email;
  membership = context_or_none s (membership_of s x.membership);
})

unfoldable pub check_session : ℕ → Store → Option Session → Result AuthContext
check_session now s none = err invalid_session
check_session now s (some x) =
    if not (is_none x.revoked_at) || leb x.expires_at now
    then err invalid_session
    else auth_context s x (find_first (is_account x.user) s.users)

-- `revokeSession`: `update` of a row that is not there throws.
unfoldable pub revoke_session : ℕ → ℕ → Store → Result ⊤ × Store
revoke_session now id s = elim (find_first (is_session id) s.sessions) [
  | none ↦ (err record_not_found, s)
  | some x ↦ (
    ok tt,
    record s { sessions = update_where (is_session id) (revoke_session_at now) s.sessions },
  )
]

-- `session.create`, which the unique column refuses for a token that a row has.
unfoldable pub insert_session :
    Session → IssuedSession → Option Session → Store → Result IssuedSession × Store
insert_session row issued (some taken) s = (err duplicate_key, s)
insert_session row issued none s =
    (ok issued, record s { sessions = row ∷ s.sessions; next_id = suc s.next_id })

module _ (hash : String → String) where
  -- The guard on the routes that are not public; an empty cookie is none.
  unfoldable pub authenticate : ℕ → Option String → Store → Result AuthContext
  authenticate now none s = err authentication_required
  authenticate now (some raw_token) s =
      if str_eq raw_token ""
      then err authentication_required
      else check_session now s (find_first (has_token (hash raw_token)) s.sessions)

  unfoldable pub session_row :
      SessionSettings → IssueReadings → String → Option Membership → ℕ → ℕ → Session
  session_row settings readings raw_token membership user id = record {
    id = id;
    token_hash = hash raw_token;
    user = user;
    membership = bound_to membership;
    expires_at = readings.at_expiry + settings.ttl_hours * 3600000;
    revoked_at = none;
    created_at = readings.at_create;
  }

module _ (hash : String → String) (derive : String → String → String) where
  abbrev pub issued_session :
      SessionSettings → IssueReadings → String → Option Membership → ℕ → Store → IssuedSession
  issued_session settings readings raw_token membership user s = record {
    membership = context_or_none s membership;
    user = user;
    csrf_token = derive (hash raw_token) settings.csrf_secret;
    raw_token = raw_token;
    session = session_row hash settings readings raw_token membership user s.next_id;
  }

  unfoldable pub create_session :
      SessionSettings
      → IssueReadings
      → String
      → Option Membership
      → ℕ
      → Store
      → Result IssuedSession × Store
  create_session settings readings raw_token membership user s =
      insert_session (session_row hash settings readings raw_token membership user s.next_id)
        (issued_session settings readings raw_token membership user s)
        (find_first (has_token (hash raw_token)) s.sessions) s

  -- `raw_token` is what `randomBytes` draws.
  unfoldable pub issue_session :
      SessionSettings
      → IssueReadings
      → String
      → Option Membership
      → ℕ
      → Store
      → Result IssuedSession × Store
  issue_session settings readings raw_token membership user s =
      create_session settings readings raw_token membership user
        (record s { sessions = tidy settings.max_active user readings.now s.sessions })

  unfoldable pub switch_workspace :
      SessionSettings
      → IssueReadings
      → String
      → AuthContext
      → ℕ
      → Store
      → Result IssuedSession × Store
  switch_workspace settings readings raw_token auth organization s =
      elim (find_first (λ m. in_organization organization m && (m.user == auth.user))
        s.memberships) [
          | none ↦ (err invalid_workspace_membership, s)
          | some m ↦ issue_session settings readings raw_token (some m) m.user s
        ]

module _ (derive : String → String → String) where
  -- The token that `csrfToken` gives the session's browser, and the comparison with it.
  unfoldable pub csrf_token : SessionSettings → AuthContext → String
  csrf_token settings auth = derive auth.session_token_hash settings.csrf_secret

  unfoldable pub verify_csrf_token : String → String → String → Bool
  verify_csrf_token candidate token_hash csrf_secret =
      str_eq candidate (derive token_hash csrf_secret)
