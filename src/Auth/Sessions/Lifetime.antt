-- ===== src/Auth/Sessions/Lifetime.antt =====
-- The session guard (apps/api/src/auth/session.guard.ts) on a session that was issued: it lets the
-- token in until the session expires.
use Prim.Native.String.{String}
use text.Mathlib.Text.{◌==◌ as str_eq}
use text.Mathlib.TextEquality.{eq_iff}
use stock_pilot.Prelude.{
  ℕ, suc, ◌+◌, ◌*◌, ◌≡◌, refl, sym, ◌∙◌, true, false, Option, none, some, List, ◌∷◌, leb,
  find_first, is_none, arith, if◌then◌else◌,
}
use mathlib.Core.Path.{subst}
use stock_pilot.Store.Rows.{Session, Membership, User}
use stock_pilot.Store.Monad.{Store, ok, err, invalid_session}
use stock_pilot.Auth.Context.{MembershipContext}
use stock_pilot.Auth.Sessions.{
  SessionSettings, IssueReadings, IssuedSession, has_token, is_account, bound_to, context_or_none,
  membership_of, auth_context, check_session, authenticate, session_row, create_session,
  issue_session, membership_context, verify_csrf_token, tidy, issued_session,
}
use stock_pilot.Auth.Sessions.Cap.{insert_session-Inserted}

abbrev pub expiry : SessionSettings → IssueReadings → ℕ
expiry settings readings = readings.at_expiry + settings.ttl_hours * 3600000

has_token-row :
    (hash : String → String) (settings : SessionSettings) (readings : IssueReadings)
    (raw_token : String) (membership : Option Membership) (user id : ℕ)
    → has_token (hash raw_token) (session_row hash settings readings raw_token membership user id)
      ≡ true
unfolding has_token session_row
has_token-row hash settings readings raw_token membership user id =
    ground (arith, eq_iff (hash raw_token) (hash raw_token))

-- What the guard makes of an issued session's row.
check_session-row :
    (hash : String → String) (settings : SessionSettings) (readings : IssueReadings)
    (raw_token : String) (membership : Option Membership) (user id later : ℕ) (s : Store) (u : User)
    (context : Option MembershipContext)
    → find_first (is_account user) s.users ≡ some u
    → membership_of s (bound_to membership) ≡ membership
    → context_or_none s membership ≡ context
    → check_session later s (some (session_row hash settings readings raw_token membership user id))
      ≡ (if leb (expiry settings readings) later
          then err invalid_session
          else ok (record {
            session_id = id;
            session_token_hash = hash raw_token;
            user = u.id;
            display_name = u.display_name;
            email = u.email;
            membership = context;
          }))
unfolding check_session session_row auth_context is_none
check_session-row hash settings readings raw_token membership user id later s u context account row
      e =
    rw (account, row, e) refl

context_or_none-same :
    (s t : Store) (membership : Option Membership)
    → t.organizations ≡ s.organizations
    → context_or_none t membership ≡ context_or_none s membership
unfolding context_or_none membership_context
context_or_none-same s t none e = refl
context_or_none-same s t (some m) e = rw e refl

membership_of-same :
    (s t : Store) (id : Option ℕ)
    → t.memberships ≡ s.memberships
    → membership_of t id ≡ membership_of s id
unfolding membership_of
membership_of-same s t none e = refl
membership_of-same s t (some id) e = rw e refl

authenticate-first :
    (hash : String → String) (raw_token : String) (later : ℕ) (t : Store) (row : Session)
    (xs : List Session)
    → str_eq raw_token "" ≡ false
    → has_token (hash raw_token) row ≡ true
    → t.sessions ≡ row ∷ xs
    → authenticate hash later (some raw_token) t ≡ check_session later t (some row)
unfolding authenticate find_first
authenticate-first hash raw_token later t row xs filled found e = rw (filled, e, found) refl

verify_csrf_token-derived :
    (derive : String → String → String) (token_hash csrf_secret : String)
    → verify_csrf_token derive (derive token_hash csrf_secret) token_hash csrf_secret ≡ true
unfolding verify_csrf_token
verify_csrf_token-derived derive token_hash csrf_secret =
    ground (arith, eq_iff (derive token_hash csrf_secret) (derive token_hash csrf_secret))

-- The token of an issued session is refused from its expiry on, and until then gives the account
-- `u`, the session and the membership that were issued; its CSRF token is the session's.
abbrev pub LetsIn :
    (String → String)
    → (String → String → String)
    → SessionSettings
    → ℕ
    → User
    → IssuedSession
    → Store
    → Type 0
LetsIn hash derive settings later u issued t =
    (authenticate hash later (some issued.raw_token) t ≡ (
      if leb issued.session.expires_at later
      then err invalid_session
      else ok (record {
        session_id = issued.session.id;
        session_token_hash = issued.session.token_hash;
        user = u.id;
        display_name = u.display_name;
        email = u.email;
        membership = issued.membership;
      })))
    × (verify_csrf_token derive issued.csrf_token issued.session.token_hash settings.csrf_secret
        ≡ true)

inserted-LetsIn :
    (hash : String → String) (derive : String → String → String) (settings : SessionSettings)
    (readings : IssueReadings) (raw_token : String) (membership : Option Membership) (user : ℕ)
    (s : Store) (u : User) (later : ℕ)
    → str_eq raw_token "" ≡ false
    → find_first (is_account user) s.users ≡ some u
    → membership_of s (bound_to membership) ≡ membership
    → LetsIn hash derive settings later u
        (issued_session hash derive settings readings raw_token membership user s)
        (record s {
          sessions =
              session_row hash settings readings raw_token membership user s.next_id ∷ s.sessions;
          next_id = suc s.next_id;
        })
unfolding session_row
inserted-LetsIn hash derive settings readings raw_token membership user s u later filled account
      row =
    let id = s.next_id in
    let made = session_row hash settings readings raw_token membership user id in
    let t : Store = record s { sessions = made ∷ s.sessions; next_id = suc id } in
    let first =
      authenticate-first hash raw_token later t made s.sessions filled
        (has_token-row hash settings readings raw_token membership user id) refl in
    let checked =
      check_session-row hash settings readings raw_token membership user id later t u
        (context_or_none s membership) account
        (membership_of-same s t (bound_to membership) refl ∙ row)
        (context_or_none-same s t membership refl) in
    (first ∙ checked, verify_csrf_token-derived derive (hash raw_token) settings.csrf_secret)

-- A session that was issued with a token that is not empty, for an account and for no membership or
-- one that is stored, lets its token in until it expires: the guard then gives the account, the
-- session and the membership that were issued, and from the expiry on it refuses; the CSRF token
-- that was issued is the session's.
pub authenticate-issued :
    (hash : String → String) (derive : String → String → String) (settings : SessionSettings)
    (readings : IssueReadings) (raw_token : String) (membership : Option Membership) (user : ℕ)
    (s t : Store) (issued : IssuedSession) (u : User) (later : ℕ)
    → str_eq raw_token "" ≡ false
    → find_first (is_account user) s.users ≡ some u
    → membership_of s (bound_to membership) ≡ membership
    → issue_session hash derive settings readings raw_token membership user s ≡ (ok issued, t)
    → LetsIn hash derive settings later u issued t
unfolding issue_session create_session
authenticate-issued hash derive settings readings raw_token membership user s t issued u later
      filled account row h =
    let tidied : Store = record s {
      sessions = tidy settings.max_active user readings.now s.sessions;
    } in
    let made = insert_session-Inserted _ _ issued _ _ t h in
    subst (λ x. LetsIn hash derive settings later u x t) (sym made.1)
      (subst
        (λ x.
          LetsIn hash derive settings later u
            (issued_session hash derive settings readings raw_token membership user tidied) x)
        (sym made.2)
        (inserted-LetsIn hash derive settings readings raw_token membership user tidied u later
          filled account (membership_of-same s tidied (bound_to membership) refl ∙ row)))
