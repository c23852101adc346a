-- ===== src/Auth/Login.antt =====
-- apps/api/src/auth/auth.service.ts: signing up and in. `verify` and `hash_password` are those of
-- argon2; the hash that is verified for an email that no account has only takes time.
pub mod Lockout
use Prim.Native.String.{String}
use text.Mathlib.Text.{◌==◌ as str_eq}
use stock_pilot.Prelude.{
  ℕ, suc, ◌==◌, Bool, Option, none, some, ◌∷◌, List, [], find_first, select, sort_by, if◌then◌else◌,
}
use stock_pilot.Store.Rows.{User, Membership}
use stock_pilot.Store.Monad.{
  Store, Result, err, too_many_attempts, bad_credentials, email_already_registered,
}
use stock_pilot.Auth.Throttle.{
  Throttle, ThrottleOptions, FailureReadings, check_attempt, record_failure, clear_failures,
}
use stock_pilot.Auth.Sessions.{SessionSettings, IssueReadings, IssuedSession, issue_session}

-- `memberships: { orderBy: { createdAt: 'asc' }, take: 1 }` of a user.
unfoldable pub first_membership : List Membership → Option Membership
first_membership [] = none
first_membership (m ∷ ms) = some m

unfoldable pub oldest_membership : ℕ → Store → Option Membership
oldest_membership user s = first_membership (
    sort_by (λ (m : Membership). m.created_at)
      (select (λ (m : Membership). m.user == user) s.memberships))

pub record SignupInput : Type 0 where
  pub display_name : String
  pub email : String
  pub password : String

pub record LoginInput : Type 0 where
  pub email : String
  pub password : String
  pub client_address : String

-- The database and the throttle of the process.
pub record Server : Type 0 where
  pub store : Store
  pub throttle : Throttle

-- What one login draws: the clock of `checkAttempt`, those of `recordFailure`, those of
-- `issueSession`, and the random token.
pub record LoginReadings : Type 0 where
  pub at_check : ℕ
  pub at_failure : FailureReadings
  pub at_issue : IssueReadings
  pub raw_token : String

module _ (hash : String → String) (derive : String → String → String)
    (to_lower trim : String → String) (verify : String → String → Bool)
    (hash_password : String → String) where
  unfoldable pub signup :
      SessionSettings → IssueReadings → String → SignupInput → Store → Result IssuedSession × Store
  signup settings readings raw_token input s =
      let email = to_lower input.email in
      elim (find_first (λ (u : User). str_eq u.email email) s.users) [
        | some u ↦ (err email_already_registered, s)
        | none ↦
            let user : User = record {
              id = s.next_id;
              email = email;
              password_hash = hash_password input.password;
              display_name = trim input.display_name;
            } in
            issue_session hash derive settings readings raw_token none user.id
              (record s { users = user ∷ s.users; next_id = suc s.next_id })
      ]

  -- A login that failed.
  unfoldable pub reject_login :
      ThrottleOptions → LoginReadings → LoginInput → Server → Result IssuedSession × Server
  reject_login o readings input v = (
    err bad_credentials,
    record v {
      throttle =
          record_failure to_lower trim o readings.at_failure input.email input.client_address
            v.throttle;
    },
  )

  unfoldable pub with_store : Server → Result IssuedSession × Store → Result IssuedSession × Server
  with_store v (r, s) = (r, record v { store = s })

  unfoldable pub accept_login :
      SessionSettings → LoginReadings → LoginInput → User → Server → Result IssuedSession × Server
  accept_login settings readings input user v =
      with_store
        (record v {
          throttle = clear_failures to_lower trim input.email input.client_address v.throttle;
        })
        (issue_session hash derive settings readings.at_issue readings.raw_token
          (oldest_membership user.id v.store) user.id v.store)

  -- From the query for the user on.
  unfoldable pub verify_login :
      SessionSettings
      → ThrottleOptions
      → LoginReadings
      → LoginInput
      → Option User
      → Server
      → Result IssuedSession × Server
  verify_login settings o readings input none v = reject_login o readings input v
  verify_login settings o readings input (some user) v =
      if verify user.password_hash input.password
      then accept_login settings readings input user v
      else reject_login o readings input v

  unfoldable pub login :
      SessionSettings
      → ThrottleOptions
      → LoginReadings
      → LoginInput
      → Server
      → Result IssuedSession × Server
  login settings o readings input v =
      let checked =
        check_attempt to_lower trim readings.at_check input.email input.client_address v.throttle in
      if checked.0
      then verify_login settings o readings input
          (find_first (λ (u : User). str_eq u.email (to_lower input.email)) v.store.users)
          (record v { throttle = checked.1 })
      else (err too_many_attempts, record v { throttle = checked.1 })
