-- ===== src/Auth/Guards.antt =====
-- The guards that every request passes, in the order of apps/api/src/auth/auth.module.ts:
-- apps/api/src/auth/session.guard.ts, csrf.guard.ts, permission.guard.ts and rate-limit.guard.ts
-- beside it. A route has what its decorators declare. `text_of` is the text of characters and
-- `show_id` that of an identifier.
pub mod Conditions
pub mod Parts
pub mod Identity
pub mod Admitted
use Prim.Native.String.{String}
use text.Mathlib.Text.{◌==◌ as str_eq}
use stock_pilot.Prelude.{
  ℕ, ◌+◌, ◌/◌, Bool, true, false, ◌&&◌, ◌||◌, not, Option, none, some, List, ltb, if◌then◌else◌, ⊤,
}
use stock_pilot.Store.Monad.{
  Store, Result, ok, err, origin_not_allowed, invalid_csrf_token, membership_required,
  forbidden_role, type_error, too_many_requests,
}
use stock_pilot.Auth.Context.{AuthContext, MembershipContext}
use stock_pilot.Auth.Rbac.{Permission, can}
use stock_pilot.Auth.Cidr.{Chars}
use stock_pilot.Auth.ClientAddress.{resolve_client_address}
use stock_pilot.Auth.RateLimiter.{RateLimiterOptions, RateLimitResult, Limiter, Readings, consume}
use stock_pilot.Auth.Sessions.{authenticate, verify_csrf_token}
use stock_pilot.Auth.Throttle.{concatenated}

pub record Route : Type 0 where
  pub is_public : Bool
  pub is_csrf_exempt : Bool
  pub permission : Option Permission

pub record RequestLike : Type 0 where
  pub method : String
  pub path : Option String
  pub session_cookie : Option String
  pub origin : Option String
  pub csrf_header : Option String
  pub socket_address : Option Chars
  pub forwarded_for : Option Chars

-- What the guards read of the environment.
pub record GuardSettings : Type 0 where
  pub web_origin : String
  pub csrf_secret : String
  pub trusted_proxy_cidrs : Option Chars
  pub auth_writes : ℕ
  pub public_writes : ℕ
  pub user_writes : ℕ

pub record Limiters : Type 0 where
  pub auth_limiter : Limiter
  pub public_limiter : Limiter
  pub user_limiter : Limiter

unfoldable pub is_safe_method : String → Bool
is_safe_method m = str_eq m "GET" || (str_eq m "HEAD" || str_eq m "OPTIONS")

-- `AUTH_ROUTE_PATHS.has(request.path ?? '')`
unfoldable pub is_auth_route : Option String → Bool
is_auth_route none = false
is_auth_route (some p) =
    str_eq p "/v1/auth/login" || (str_eq p "/v1/auth/signup" || str_eq p "/v1/auth/demo-login")

unfoldable pub path_or : String → Option String → String
path_or other none = other
path_or other (some p) = p

-- The limiter of a tier, with its number of writes and of buckets.
unfoldable pub tier_options : ℕ → ℕ → RateLimiterOptions
tier_options max_writes max_buckets = record {
  window_ms = 60000;
  max_writes = max_writes;
  max_buckets = max_buckets;
  sweep_interval = 256;
}

unfoldable pub is_origin : String → Option String → Bool
is_origin web_origin none = false
is_origin web_origin (some origin) = str_eq origin web_origin

-- `Math.max(1, Math.ceil(retryAfterMs / 1000))`
unfoldable pub retry_after_seconds : ℕ → ℕ
retry_after_seconds ms = let seconds = (ms + 999) / 1000 in if ltb seconds 1 then 1 else seconds

unfoldable pub check_role : Permission → Option MembershipContext → Result ⊤
check_role p none = err membership_required
check_role p (some m) = if can m.role p then ok tt else err forbidden_role

-- A public route has no `request.auth`, so a permission on it is a TypeError.
unfoldable pub permission_guard : Option Permission → Option AuthContext → Result ⊤
permission_guard none auth = ok tt
permission_guard (some p) none = err type_error
permission_guard (some p) (some a) = check_role p a.membership

unfoldable pub enforce : RateLimitResult → Result ⊤
enforce r =
    if r.allowed then ok tt else err (too_many_requests (retry_after_seconds r.retry_after_ms))

module _ (derive : String → String → String) where
  -- A header that is missing or empty is refused.
  unfoldable pub check_csrf_header : GuardSettings → AuthContext → Option String → Result ⊤
  check_csrf_header env a none = err invalid_csrf_token
  check_csrf_header env a (some candidate) =
      if not (str_eq candidate "")
        && verify_csrf_token derive candidate a.session_token_hash env.csrf_secret
      then ok tt
      else err invalid_csrf_token

  unfoldable pub check_csrf : GuardSettings → Option AuthContext → Option String → Result ⊤
  check_csrf env none header = ok tt
  check_csrf env (some a) header = check_csrf_header env a header

  unfoldable pub csrf_guard : GuardSettings → Route → RequestLike → Option AuthContext → Result ⊤
  csrf_guard env route request auth =
      if route.is_csrf_exempt || is_safe_method request.method
      then ok tt
      else if is_origin env.web_origin request.origin
      then check_csrf env auth request.csrf_header
      else err origin_not_allowed

module _ (to_lower trim : Chars → Chars) (to_number : Chars → Option ℕ) (text_of : Chars → String)
    (show_id : ℕ → String) where
  -- `${address}:${request.path ?? 'public'}`
  unfoldable pub public_key : GuardSettings → RequestLike → String
  public_key env request =
      let resolved =
        resolve_client_address to_lower trim to_number request.socket_address request.forwarded_for
          env.trusted_proxy_cidrs in
      concatenated (text_of resolved.address) (concatenated ":" (path_or "public" request.path))

  -- The tier of a public write.
  unfoldable pub limit_public :
      GuardSettings → Readings → RequestLike → Limiters → Result ⊤ × Limiters
  limit_public env readings request l =
      let key = public_key env request in
      let as_auth = consume (tier_options env.auth_writes 10000) readings key l.auth_limiter in
      let as_public =
        consume (tier_options env.public_writes 10000) readings key l.public_limiter in
      if is_auth_route request.path
      then (enforce as_auth.0, record l { auth_limiter = as_auth.1 })
      else (enforce as_public.0, record l { public_limiter = as_public.1 })

  unfoldable pub rate_limit_guard :
      GuardSettings
      → Readings
      → Route
      → RequestLike
      → Option AuthContext
      → Limiters
      → Result ⊤ × Limiters
  rate_limit_guard env readings route request (some a) l =
      if is_safe_method request.method
      then (ok tt, l)
      else let taken =
          consume (tier_options env.user_writes 50000) readings
            (concatenated "user:" (show_id a.user)) l.user_limiter in
        (enforce taken.0, record l { user_limiter = taken.1 })
  rate_limit_guard env readings route request none l =
      if is_safe_method request.method || not route.is_public
      then (ok tt, l)
      else limit_public env readings request l

-- `request.auth` where the route is not public.
unfoldable pub protected : Result AuthContext → Result (Option AuthContext)
protected (ok a) = ok (some a)
protected (err e) = err e

unfoldable pub session_guard :
    (String → String) → ℕ → Route → RequestLike → Store → Result (Option AuthContext)
session_guard hash now route request s =
    if route.is_public then ok none else protected (authenticate hash now request.session_cookie s)

module _ (hash : String → String) (derive : String → String → String)
    (to_lower trim : Chars → Chars) (to_number : Chars → Option ℕ) (text_of : Chars → String)
    (show_id : ℕ → String) where
  -- The last guard, which alone writes.
  unfoldable pub limit_request :
      GuardSettings
      → Readings
      → Route
      → RequestLike
      → Option AuthContext
      → Limiters
      → Result (Option AuthContext) × Limiters
  limit_request env readings route request auth l =
      let limited =
        rate_limit_guard to_lower trim to_number text_of show_id env readings route request auth
          l in
      (elim limited.0 [ ok _ ↦ ok auth | err e ↦ err e ], limited.1)

  unfoldable pub admit_permitted :
      GuardSettings
      → Readings
      → Route
      → RequestLike
      → Option AuthContext
      → Limiters
      → Result ⊤
      → Result (Option AuthContext) × Limiters
  admit_permitted env readings route request auth l (err e) = (err e, l)
  admit_permitted env readings route request auth l (ok _) =
      limit_request env readings route request auth l

  unfoldable pub admit_unforged :
      GuardSettings
      → Readings
      → Route
      → RequestLike
      → Option AuthContext
      → Limiters
      → Result ⊤
      → Result (Option AuthContext) × Limiters
  admit_unforged env readings route request auth l (err e) = (err e, l)
  admit_unforged env readings route request auth l (ok _) =
      admit_permitted env readings route request auth l (permission_guard route.permission auth)

  unfoldable pub admit_known :
      GuardSettings
      → Readings
      → Route
      → RequestLike
      → Limiters
      → Result (Option AuthContext)
      → Result (Option AuthContext) × Limiters
  admit_known env readings route request l (err e) = (err e, l)
  admit_known env readings route request l (ok auth) =
      admit_unforged env readings route request auth l (csrf_guard derive env route request auth)

  -- `request.auth` of a request that all guards let through.
  unfoldable pub admit :
      GuardSettings
      → ℕ
      → Readings
      → Route
      → RequestLike
      → Store
      → Limiters
      → Result (Option AuthContext) × Limiters
  admit env now readings route request s l =
      admit_known env readings route request l (session_guard hash now route request s)
