-- ===== src/Auth/Guards/Conditions.antt =====
-- What the guards of apps/api/src/auth/auth.module.ts ask of a request, one condition for each.
use Prim.Native.String.{String}
use stock_pilot.Prelude.{
  ℕ, ◌<◌, ◌≡◌, ◌⊎◌, true, false, ◌||◌, not, Option, none, some, find_first, ⊤,
}
use stock_pilot.Store.Rows.{Session, User, Membership}
use stock_pilot.Store.Monad.{Store}
use stock_pilot.Auth.Context.{AuthContext, MembershipContext}
use stock_pilot.Auth.Rbac.{Permission, can}
use stock_pilot.Auth.Sessions.{has_token, is_account, membership_of, context_or_none}
use stock_pilot.Team.Membership.{has_id}
use stock_pilot.Auth.Throttle.{concatenated}
use stock_pilot.Auth.Cidr.{Chars}
use stock_pilot.Auth.RateLimiter.{Readings, consume}
use stock_pilot.Auth.Guards.{
  Route, RequestLike, GuardSettings, is_safe_method, Limiters, tier_options, public_key,
  is_auth_route,
}

-- The context of a session's row: its identifier and hash, its user's row, and the stored membership
-- that it is bound to, or none.
abbrev pub IsContext : Store → Session → AuthContext → Type 0
IsContext s x a =
    (u : User) × (find_first (is_account x.user) s.users ≡ some u)
    × (a ≡ record {
      session_id = x.id;
      session_token_hash = x.token_hash;
      user = u.id;
      display_name = u.display_name;
      email = u.email;
      membership = context_or_none s (membership_of s x.membership);
    })

-- A membership of a context is the row that the session is bound to.
abbrev pub IsBound : Store → Session → AuthContext → Type 0
IsBound s x a =
    (m : MembershipContext)
    → a.membership ≡ some m
    → (row : Membership) × (find_first (has_id row.id) s.memberships ≡ some row)
      × (x.membership ≡ some row.id)
      × (m.id ≡ row.id)
      × (m.role ≡ row.role)
      × (m.organization ≡ row.organization)

-- The session of a request: a row with the hash of its cookie that is neither revoked nor expired.
pub record HasSession (hash : String → String) (now : ℕ) (request : RequestLike) (s : Store)
    (a : AuthContext) : Type 0 where
  pub row : Session
  pub raw_token : String
  pub by_cookie : request.session_cookie ≡ some raw_token
  pub stored : find_first (has_token (hash raw_token)) s.sessions ≡ some row
  pub not_revoked : row.revoked_at ≡ none
  pub not_expired : now < row.expires_at
  pub by_hash : row.token_hash ≡ hash raw_token
  pub is_context : IsContext s row a
  pub own_account : a.user ≡ row.user
  pub own_membership : IsBound s row a

-- No context on a public route, a live session on any other.
abbrev pub Known : (String → String) → ℕ → Route → RequestLike → Store → Option AuthContext → Type 0
Known hash now route request s none = route.is_public ≡ true
Known hash now route request s (some a) =
    (route.is_public ≡ false) × HasSession hash now request s a

-- The CSRF token of the session in the header, where there is a session.
abbrev pub Confirmed :
    (String → String → String) → GuardSettings → RequestLike → Option AuthContext → Type 0
Confirmed derive env request none = ⊤
Confirmed derive env request (some a) =
    request.csrf_header ≡ some (derive a.session_token_hash env.csrf_secret)

-- A write that is not exempt comes from the web application and carries the token.
abbrev pub Unforged :
    (String → String → String) → GuardSettings → Route → RequestLike → Option AuthContext → Type 0
Unforged derive env route request auth =
    ((route.is_csrf_exempt || is_safe_method request.method) ≡ true)
    ⊎ ((request.origin ≡ some env.web_origin) × Confirmed derive env request auth)

-- The role of the caller's membership has the permission that the route asks for.
abbrev pub Permitted : Option Permission → Option AuthContext → Type 0
Permitted none auth = ⊤
Permitted (some p) none = ⊥
Permitted (some p) (some a) =
    (m : MembershipContext) × (a.membership ≡ some m) × (can m.role p ≡ true)

-- The limiter that counts a write takes it: a session's writes go to its user's bucket, public
-- writes to the bucket of the client's address and the path. Other requests are not counted.
module _ (to_lower trim : Chars → Chars) (to_number : Chars → Option ℕ) (text_of : Chars → String)
    (show_id : ℕ → String) where
  abbrev pub Limited :
      GuardSettings → Readings → Route → RequestLike → Limiters → Option AuthContext → Type 0
  Limited env readings route request l (some a) =
      (is_safe_method request.method ≡ true)
      ⊎ ((consume (tier_options env.user_writes 50000) readings
            (concatenated "user:" (show_id a.user)) l.user_limiter).0.allowed
          ≡ true)
  Limited env readings route request l none =
      ((is_safe_method request.method || not route.is_public) ≡ true)
      ⊎ ((is_auth_route request.path ≡ true)
          × ((consume (tier_options env.auth_writes 10000) readings
                (public_key to_lower trim to_number text_of show_id env request)
                l.auth_limiter).0.allowed
              ≡ true))
      ⊎ ((is_auth_route request.path ≡ false)
          × ((consume (tier_options env.public_writes 10000) readings
                (public_key to_lower trim to_number text_of show_id env request)
                l.public_limiter).0.allowed
              ≡ true))

pub record Admitted (hash : String → String) (derive : String → String → String)
    (to_lower trim : Chars → Chars) (to_number : Chars → Option ℕ) (text_of : Chars → String)
    (show_id : ℕ → String) (env : GuardSettings) (now : ℕ) (readings : Readings) (route : Route)
    (request : RequestLike) (s : Store) (l : Limiters) (auth : Option AuthContext) : Type 0 where
  pub known : Known hash now route request s auth
  pub unforged : Unforged derive env route request auth
  pub permitted : Permitted route.permission auth
  pub within_limit :
      Limited to_lower trim to_number text_of show_id env readings route request l auth
