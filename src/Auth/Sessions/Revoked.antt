-- ===== src/Auth/Sessions/Revoked.antt =====
-- A session that was revoked, and the sessions of a member that was removed, stay out, whatever calls
-- come: apps/api/src/auth/auth.service.ts, apps/api/src/auth/session.guard.ts and
-- apps/api/src/team/membership.service.ts.
use Prim.Native.String.{String}
use text.Mathlib.Text.{◌==◌ as str_eq}
use stock_pilot.Prelude.{
  ℕ, ◌≤◌, ◌≡◌, Bool, true, false, Option, none, some, List, [], ◌∷◌, ◌==◌, find_first, arith,
  Option-cases, Bool-cases, inl, inr,
}
use stock_pilot.Store.Rows.{Session, Membership, User}
use stock_pilot.Store.Monad.{Store, with_tenant-keeps}
use stock_pilot.Auth.Throttle.{ThrottleOptions, check_attempt}
use stock_pilot.Auth.Sessions.{SessionSettings, IssueReadings, revoke_session_at, session_row}
use stock_pilot.Auth.Login.{
  LoginReadings, LoginInput, SignupInput, Server, signup, login, verify_login, accept_login,
  reject_login, with_store, oldest_membership,
}
use stock_pilot.Team.Membership.{remove_member}
use stock_pilot.Auth.Sessions.Calls.{
  SessionCall, sign_in, sign_up, switch, revoke, remove, perform_session, perform_sessions,
}
use stock_pilot.Auth.Sessions.Gone.{
  Outside, Gone, issue_session-Gone, remove_member-Gone, revoke_session-Gone, switch_workspace-Gone,
  first_membership-Outside, count-chosen,
}

module _ (q : Session → Bool)
    (kept : (now : ℕ) (x : Session) → q (revoke_session_at now x) ≡ true → q x ≡ true)
    (w : Membership → Bool) (low : ℕ)
    (fresh : (hash : String → String) (settings : SessionSettings) (readings : IssueReadings)
        (raw_token : String) (membership : Option Membership) (user id : ℕ)
      → low ≤ id
      → Outside w membership
      → q (session_row hash settings readings raw_token membership user id) ≡ false) where
  oldest_membership-Outside :
      (user : ℕ) (s : Store) → Gone q w low s → Outside w (oldest_membership user s)
  unfolding oldest_membership
  oldest_membership-Outside user s h =
      first_membership-Outside w _
        (count-chosen w (λ m. m.user == user) (λ m. m.created_at) s.memberships h.2)

  module _ (hash : String → String) (derive : String → String → String)
      (to_lower trim : String → String) (verify : String → String → Bool)
      (hash_password : String → String) (settings : SessionSettings) (o : ThrottleOptions) where
    signup-Gone :
        (readings : IssueReadings) (raw_token : String) (input : SignupInput) (s : Store)
        → Gone q w low s
        → Gone q w low
            (signup hash derive to_lower trim verify hash_password settings readings raw_token input
              s).1
    unfolding signup
    signup-Gone readings raw_token input s h =
        elim (Option-cases
          (find_first (λ (u : User). str_eq u.email (to_lower input.email)) s.users)) [
            | inr (u, e) ↦ rw (signup, e) h
            | inl n ↦
                rw (signup, n)
                  (issue_session-Gone q kept w low fresh hash derive settings readings raw_token
                    none s.next_id _ tt (omega (arith, h.0), h.1, h.2))
          ]

    verify_login-Gone :
        (readings : LoginReadings) (input : LoginInput) (user : Option User) (v : Server)
        → Gone q w low v.store
        → Gone q w low
            (verify_login hash derive to_lower trim verify hash_password settings o readings input
              user v).1.store
    unfolding verify_login reject_login accept_login with_store
    verify_login-Gone readings input none v h = h
    verify_login-Gone readings input (some user) v h =
        elim (Bool-cases (verify user.password_hash input.password)) [
          | inr e ↦ rw (verify_login, e) h
          | inl e ↦
              rw (verify_login, e)
                (issue_session-Gone q kept w low fresh hash derive settings readings.at_issue
                  readings.raw_token (oldest_membership user.id v.store) user.id v.store
                  (oldest_membership-Outside user.id v.store h) h)
        ]

    login-Gone :
        (readings : LoginReadings) (input : LoginInput) (v : Server)
        → Gone q w low v.store
        → Gone q w low
            (login hash derive to_lower trim verify hash_password settings o readings input
              v).1.store
    unfolding login
    login-Gone readings input v h =
        elim (Bool-cases
          (check_attempt to_lower trim readings.at_check input.email input.client_address
            v.throttle).0) [
              | inr e ↦ rw (login, e) h
              | inl e ↦ rw (login, e) (verify_login-Gone readings input _ _ h)
            ]

    perform_session-Gone :
        (c : SessionCall) (v : Server)
        → Gone q w low v.store
        → Gone q w low
            (perform_session hash derive to_lower trim verify hash_password settings o c v).store
    unfolding perform_session
    perform_session-Gone (sign_in readings input) v h = login-Gone readings input v h
    perform_session-Gone (sign_up readings raw_token input) v h =
        signup-Gone readings raw_token input v.store h
    perform_session-Gone (switch readings raw_token auth organization) v h =
        switch_workspace-Gone q kept w low fresh hash derive settings readings raw_token auth
          organization v.store h
    perform_session-Gone (revoke now id) v h =
        revoke_session-Gone q kept w low fresh now id v.store h
    perform_session-Gone (remove now auth id) v h =
        with_tenant-keeps (Gone q w low) (remove_member now auth id) v.store h
          (remove_member-Gone q kept w low fresh now auth id v.store h)

    pub perform_sessions-Gone :
        (cs : List SessionCall) (v : Server)
        → Gone q w low v.store
        → Gone q w low
            (perform_sessions hash derive to_lower trim verify hash_password settings o cs v).store
    unfolding perform_sessions
    perform_sessions-Gone [] v h = h
    perform_sessions-Gone (c ∷ cs) v h = perform_sessions-Gone cs _ (perform_session-Gone c v h)
