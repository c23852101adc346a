-- ===== src/Auth/Sessions/Calls.antt =====
-- The calls that write sessions, one after the other: apps/api/src/auth/auth.service.ts and the
-- removal of a member in apps/api/src/team/membership.service.ts.
use Prim.Native.String.{String}
use stock_pilot.Prelude.{ℕ, Bool, List, [], ◌∷◌}
use stock_pilot.Store.Monad.{with_tenant}
use stock_pilot.Auth.Context.{AuthContext}
use stock_pilot.Auth.Throttle.{ThrottleOptions}
use stock_pilot.Auth.Sessions.{SessionSettings, IssueReadings, revoke_session, switch_workspace}
use stock_pilot.Auth.Login.{LoginReadings, LoginInput, SignupInput, Server, signup, login}
use stock_pilot.Team.Membership.{remove_member}

-- The calls, with what each draws.
pub data SessionCall : Type 0 where
  sign_in : LoginReadings → LoginInput → SessionCall
  sign_up : IssueReadings → String → SignupInput → SessionCall
  switch : IssueReadings → String → AuthContext → ℕ → SessionCall
  revoke : ℕ → ℕ → SessionCall
  remove : ℕ → AuthContext → ℕ → SessionCall

module _ (hash : String → String) (derive : String → String → String)
    (to_lower trim : String → String) (verify : String → String → Bool)
    (hash_password : String → String) (settings : SessionSettings) (o : ThrottleOptions) where
  unfoldable pub perform_session : SessionCall → Server → Server
  perform_session (sign_in readings input) v =
      (login hash derive to_lower trim verify hash_password settings o readings input v).1
  perform_session (sign_up readings raw_token input) v = record v {
    store =
        (signup hash derive to_lower trim verify hash_password settings readings raw_token input
          v.store).1;
  }
  perform_session (switch readings raw_token auth organization) v = record v {
    store = (switch_workspace hash derive settings readings raw_token auth organization v.store).1;
  }
  perform_session (revoke now id) v = record v { store = (revoke_session now id v.store).1 }
  perform_session (remove now auth id) v = record v {
    store = (with_tenant (remove_member now auth id) v.store).1;
  }

  unfoldable pub perform_sessions : List SessionCall → Server → Server
  perform_sessions [] v = v
  perform_sessions (c ∷ cs) v = perform_sessions cs (perform_session c v)
