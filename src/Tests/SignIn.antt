-- ===== src/Tests/SignIn.antt =====
-- Sessions, sign-ins and guards on the shop of Tests/Shop.
use Prim.Native.String.{String}
use text.Mathlib.Text.{◌==◌ as str_eq}
use stock_pilot.Prelude.{
  ℕ, ◌≡◌, ◌≢◌, refl, Bool, false, some, [], ◌∷◌, arith, if◌then◌else◌, count, find_first,
  update_where, delete_where, select, sort_by, insert_by, is_none,
}
use stock_pilot.Prelude.Map.{get}
use stock_pilot.Store.Rows.{Membership, User, owner}
use stock_pilot.Store.Monad.{Store, ok, err, with_tenant, bad_credentials, too_many_attempts}
use stock_pilot.Auth.Context.{AuthContext, MembershipContext, require_membership}
use stock_pilot.Auth.Throttle.{ThrottleOptions, key_for, concatenated}
use stock_pilot.Auth.Sessions.{
  SessionSettings, IssueReadings, IssuedSession, is_session, is_active_session, is_expired_session,
  is_account, has_token, bound_to, membership_of, context_or_none, membership_context,
  is_demo_workspace, auth_context, check_session, authenticate, issued_session, create_session,
  insert_session, issue_session, tidy, drop_expired, revoke_excess, active_sessions, revoke_session,
  revoke_session_at, is_in,
}
use stock_pilot.Auth.Sessions.Cap.{issue_session-count}
use stock_pilot.Auth.Sessions.Lifetime.{LetsIn, authenticate-issued}
use stock_pilot.Auth.Sessions.Calls.{revoke, perform_session, perform_sessions}
use stock_pilot.Auth.Sessions.StaysOut.{revoked_stays_out, removed_stays_out}
use stock_pilot.Auth.Login.{Server, login}
use stock_pilot.Auth.Login.Lockout.{Attempt, login_all, login_locked}
use stock_pilot.Inventory.Steps.{record_audit}
use stock_pilot.Team.Membership.{
  RemovedMember, has_id, in_organization, is_owner, role_eq, find_member, remove_member,
  delete_membership, is_bound_to,
}
use stock_pilot.Tests.Shop.{shop, clerk}

abbrev pub fingerprint : String → String
fingerprint t = if str_eq t "t50" then "h50" else "h9"

abbrev pub keyed : String → String → String
keyed token_hash secret = token_hash

abbrev settings : SessionSettings
settings = record { max_active = 1; ttl_hours = 1; csrf_secret = "secret" }

abbrev at_ten : IssueReadings
at_ten = record { now = 10; at_expiry = 10; at_create = 10 }

abbrev ann : Membership
ann = record {
  display_name = "Ann";
  id = 30;
  organization = 1;
  user = 3;
  email = "ann@shop.test";
  role = owner;
  created_at = 1;
}

abbrev ann_account : User
ann_account = record { id = 3; email = "ann@shop.test"; password_hash = "p3"; display_name = "Ann" }

-- The shop before the new session, and what the sign-in makes of it.
abbrev tidied : Store
tidied = record shop { sessions = tidy 1 3 10 shop.sessions }

abbrev second : IssuedSession
second = issued_session fingerprint keyed settings at_ten "t9" (some ann) 3 tidied

abbrev with_second : Store
with_second = (issue_session fingerprint keyed settings at_ten "t9" (some ann) 3 shop).1

issued :
    issue_session fingerprint keyed settings at_ten "t9" (some ann) 3 shop
    ≡ (ok second, with_second)
unfolding issue_session create_session insert_session find_first has_token tidy drop_expired
    revoke_excess active_sessions delete_where update_where select sort_by insert_by
    is_active_session is_expired_session is_none is_in
issued = refl

issue_session-count_example : count (is_active_session 3 10) with_second.sessions ≡ 2
unfolding count is_active_session is_none is_session
issue_session-count_example =
    issue_session-count fingerprint keyed settings at_ten "t9" (some ann) 3 shop with_second second
      (λ i. ground arith) (omega arith) issued

authenticate-issued_example : LetsIn fingerprint keyed settings 20 ann_account second with_second
unfolding find_first is_account membership_of bound_to has_id
authenticate-issued_example =
    authenticate-issued fingerprint keyed settings at_ten "t9" (some ann) 3 shop with_second second
      ann_account 20 refl refl refl issued

abbrev quiet : ThrottleOptions
quiet = record { limit = 2; window_ms = 100; block_ms = 50; max_keys = 9; sweep_interval = 9 }

abbrev server : Server
server = record { store = shop; throttle = record { entries = []; calls_since_sweep = 0 } }

abbrev same_text : String → String
same_text t = t

abbrev never : String → String → Bool
never password_hash password = false

-- The session of Ann and that of Bob.
abbrev ann_id : ℕ
ann_id = 50

abbrev bob_id : ℕ
bob_id = 51

abbrev pub member_context : MembershipContext
member_context = record { id = 30; role = owner; organization = 1; is_demo = false }

abbrev pub ann_context : AuthContext
ann_context = record {
  session_id = 50;
  session_token_hash = "h50";
  user = 3;
  display_name = "Ann";
  email = "ann@shop.test";
  membership = some member_context;
}

-- Bob's session is revoked twice, then Ann's lets her in.
revoked_stays_out_example : ann_id ≢ bob_id
unfolding revoke_session perform_sessions perform_session authenticate check_session auth_context
    find_first has_token is_session is_account update_where revoke_session_at is_none
    context_or_none membership_of membership_context is_demo_workspace has_id
revoked_stays_out_example =
    revoked_stays_out fingerprint keyed same_text same_text never same_text settings quiet 9 51
      server (revoke 10 51 ∷ []) 20 (some "t50") ann_context (omega arith) refl

abbrev bob_removed : RemovedMember
bob_removed = record { email = "bob@shop.test"; id = 31; removed_at = 9 }

-- Bob is removed and Ann signs in.
removed_stays_out_example : member_context.id ≢ bob_removed.id
unfolding with_tenant remove_member require_membership find_member delete_membership record_audit
    in_organization is_owner role_eq count delete_where is_bound_to revoke_session perform_sessions
    perform_session authenticate check_session auth_context find_first has_token is_session
    is_account update_where revoke_session_at is_none context_or_none membership_of
    membership_context is_demo_workspace has_id
removed_stays_out_example =
    removed_stays_out fingerprint keyed same_text same_text never same_text settings quiet 9 31
      clerk server bob_removed (revoke 10 51 ∷ []) 20 (some "t50") ann_context member_context refl
      refl refl

abbrev attempt_at : ℕ → Attempt
attempt_at now = record {
  readings = record {
    at_check = now;
    at_failure = record { now = now; at_track = now; at_sweep = now };
    at_issue = at_ten;
    raw_token = "t9";
  };
  input = record { email = "ann@shop.test"; password = "guess"; client_address = "10.0.0.1" };
}

-- Two wrong passwords, and then the next sign-in.
login_locked_example :
    ((login fingerprint keyed same_text same_text never same_text settings quiet
        (attempt_at 20).readings
        (attempt_at 20).input
        (login_all fingerprint keyed same_text same_text never same_text settings quiet
          (attempt_at 10 ∷ [])
          server)).0
      ≡ err bad_credentials)
    × (login fingerprint keyed same_text same_text never same_text settings quiet
          (attempt_at 30).readings
          (attempt_at 30).input
          (login_all fingerprint keyed same_text same_text never same_text settings quiet
            (attempt_at 20 ∷ [])
            (login_all fingerprint keyed same_text same_text never same_text settings quiet
              (attempt_at 10 ∷ [])
              server))
        ≡ (
          err too_many_attempts,
          login_all fingerprint keyed same_text same_text never same_text settings quiet
              (attempt_at 20 ∷ [])
              (login_all fingerprint keyed same_text same_text never same_text settings quiet
                (attempt_at 10 ∷ [])
                server),
        ))
unfolding get find_first key_for concatenated
login_locked_example =
    login_locked fingerprint keyed same_text same_text never same_text settings quiet
      (attempt_at 10 ∷ []) (attempt_at 20) "ann@shop.test|10.0.0.1" server 5
      (attempt_at 30).readings (attempt_at 30).input refl (refl, refl, tt) (refl, refl, tt)
      ((omega arith, omega arith, omega arith), tt) (omega arith, omega arith, omega arith) refl
      refl (omega arith)
