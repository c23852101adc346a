-- ===== src/Auth/Guards/Parts.antt =====
-- What each guard of apps/api/src/auth/auth.module.ts has seen of a request that it lets through.
use Prim.Native.String.{String}
use text.Mathlib.Text.{◌==◌ as str_eq}
use text.Mathlib.TextEquality.{eq_iff}
use stock_pilot.Prelude.{
  ℕ, ◌≡◌, ◌⊎◌, refl, ap, Bool, true, false, ◌&&◌, ◌||◌, not, Option, none, some, is_none, arith,
  if◌then◌else◌, inl, inr, Bool-cases,
}
use stock_pilot.Store.Monad.{
  Result, ok, err, Error, forbidden_role, invalid_csrf_token, origin_not_allowed, too_many_requests,
}
use stock_pilot.Auth.Context.{AuthContext, MembershipContext}
use stock_pilot.Auth.Rbac.{Permission, can}
use stock_pilot.Auth.Sessions.{verify_csrf_token}
use stock_pilot.Auth.Throttle.{concatenated}
use stock_pilot.Auth.Cidr.{Chars}
use stock_pilot.Auth.RateLimiter.{Readings, RateLimitResult, consume}
use stock_pilot.Auth.Guards.{
  Route, RequestLike, GuardSettings, is_safe_method, is_origin, check_role, permission_guard,
  check_csrf_header, check_csrf, csrf_guard, Limiters, tier_options, public_key, is_auth_route,
  enforce, retry_after_seconds, limit_public, rate_limit_guard,
}
use stock_pilot.Auth.Guards.Conditions.{Confirmed, Unforged, Permitted, Limited}

-- The parts of a chain of guards that lets a request through.
pub if-ok :
    {A : Type 0} (refused : Bool) (e : Error) (r : Result A) (a : A)
    → (if refused then err e else r) ≡ ok a
    → (refused ≡ false) × (r ≡ ok a)
if-ok true e r a h = cc
if-ok false e r a h = (refl, h)

unless-ok :
    {A : Type 0} (passed : Bool) (e : Error) (r : Result A) (a : A)
    → (if passed then r else err e) ≡ ok a
    → (passed ≡ true) × (r ≡ ok a)
unless-ok true e r a h = (refl, h)
unless-ok false e r a h = cc

pub otherwise :
    {A : Type 0} (passed : Bool) (r t : A) {a : A}
    → passed ≡ false
    → (if passed then r else t) ≡ a
    → t ≡ a
otherwise true r t e h = cc
otherwise false r t e h = h

pub first :
    {A : Type 0} (passed : Bool) (r t : A) {a : A}
    → passed ≡ true
    → (if passed then r else t) ≡ a
    → r ≡ a
first true r t e h = h
first false r t e h = cc

pub is_none→none : (o : Option ℕ) → is_none o ≡ true → o ≡ none
unfolding is_none
is_none→none none h = refl
is_none→none (some n) h = cc

check_role-Permitted :
    (p : Permission) (membership : Option MembershipContext)
    → check_role p membership ≡ ok tt
    → (m : MembershipContext) × (membership ≡ some m) × (can m.role p ≡ true)
unfolding check_role
check_role-Permitted p none h = cc
check_role-Permitted p (some m) h =
    (m, refl, (unless-ok (can m.role p) forbidden_role (ok tt) tt h).0)

pub permission_guard-Permitted :
    (p : Option Permission) (auth : Option AuthContext)
    → permission_guard p auth ≡ ok tt
    → Permitted p auth
unfolding permission_guard
permission_guard-Permitted none auth h = tt
permission_guard-Permitted (some p) none h = cc
permission_guard-Permitted (some p) (some a) h = check_role-Permitted p a.membership h

check_csrf_header-Confirmed :
    (derive : String → String → String) (env : GuardSettings) (a : AuthContext)
    (header : Option String)
    → check_csrf_header derive env a header ≡ ok tt
    → header ≡ some (derive a.session_token_hash env.csrf_secret)
unfolding check_csrf_header verify_csrf_token
check_csrf_header-Confirmed derive env a none h = cc
check_csrf_header-Confirmed derive env a (some candidate) h =
    let token = derive a.session_token_hash env.csrf_secret in
    let passed =
      (unless-ok (not (str_eq candidate "") && str_eq candidate token) invalid_csrf_token (ok tt) tt
        h).0 in
    let same : candidate ≡ token = ground (arith, passed, eq_iff candidate token) in ap some same

check_csrf-Confirmed :
    (derive : String → String → String) (env : GuardSettings) (request : RequestLike)
    (auth : Option AuthContext)
    → check_csrf derive env auth request.csrf_header ≡ ok tt
    → Confirmed derive env request auth
unfolding check_csrf
check_csrf-Confirmed derive env request none h = tt
check_csrf-Confirmed derive env request (some a) h =
    check_csrf_header-Confirmed derive env a request.csrf_header h

is_origin-same :
    (web_origin : String) (origin : Option String)
    → is_origin web_origin origin ≡ true
    → origin ≡ some web_origin
unfolding is_origin
is_origin-same web_origin none h = cc
is_origin-same web_origin (some o) h =
    let same : o ≡ web_origin = ground (arith, h, eq_iff o web_origin) in ap some same

pub csrf_guard-Unforged :
    (derive : String → String → String) (env : GuardSettings) (route : Route)
    (request : RequestLike) (auth : Option AuthContext)
    → csrf_guard derive env route request auth ≡ ok tt
    → Unforged derive env route request auth
unfolding csrf_guard
csrf_guard-Unforged derive env route request auth h =
    elim (Bool-cases (route.is_csrf_exempt || is_safe_method request.method)) [
      | inl e ↦ inl e
      | inr e ↦
          let (from_web, rest) =
            unless-ok (is_origin env.web_origin request.origin) origin_not_allowed
              (check_csrf derive env auth request.csrf_header) tt
              (otherwise (route.is_csrf_exempt || is_safe_method request.method) _ _ e h) in
          inr (
            is_origin-same env.web_origin request.origin from_web,
            check_csrf-Confirmed derive env request auth rest,
          )
    ]

enforce-allowed : (r : RateLimitResult) → enforce r ≡ ok tt → r.allowed ≡ true
unfolding enforce
enforce-allowed r h =
    (unless-ok r.allowed (too_many_requests (retry_after_seconds r.retry_after_ms)) (ok tt) tt h).0

module _ (to_lower trim : Chars → Chars) (to_number : Chars → Option ℕ) (text_of : Chars → String)
    (show_id : ℕ → String) where
  limit_public-allowed :
      (env : GuardSettings) (readings : Readings) (request : RequestLike) (l : Limiters)
      → (limit_public to_lower trim to_number text_of show_id env readings request l).0 ≡ ok tt
      → ((is_auth_route request.path ≡ true)
          × ((consume
                (tier_options env.auth_writes 10000)
                readings
                (public_key to_lower trim to_number text_of show_id env request)
                l.auth_limiter).0.allowed
              ≡ true))
        ⊎ ((is_auth_route request.path ≡ false)
            × ((consume
                  (tier_options env.public_writes 10000)
                  readings
                  (public_key to_lower trim to_number text_of show_id env request)
                  l.public_limiter).0.allowed
                ≡ true))
  unfolding limit_public
  limit_public-allowed env readings request l h =
      let key = public_key to_lower trim to_number text_of show_id env request in
      elim (Bool-cases (is_auth_route request.path)) [
        | inl e ↦ inl (
          e,
          enforce-allowed
              (consume (tier_options env.auth_writes 10000) readings key l.auth_limiter).0
              (rw e at h),
        )
        | inr e ↦ inr (
          e,
          enforce-allowed
              (consume (tier_options env.public_writes 10000) readings key l.public_limiter).0
              (rw e at h),
        )
      ]

  pub rate_limit_guard-Limited :
      (env : GuardSettings) (readings : Readings) (route : Route) (request : RequestLike)
      (auth : Option AuthContext) (l : Limiters)
      → (rate_limit_guard to_lower trim to_number text_of show_id env readings route request auth
          l).0
        ≡ ok tt
      → Limited to_lower trim to_number text_of show_id env readings route request l auth
  unfolding rate_limit_guard
  rate_limit_guard-Limited env readings route request (some a) l h =
      elim (Bool-cases (is_safe_method request.method)) [
        | inl e ↦ inl e
        | inr e ↦ inr (
            enforce-allowed
              (consume (tier_options env.user_writes 50000) readings
                (concatenated "user:" (show_id a.user)) l.user_limiter).0
              (rw e at h))
      ]
  rate_limit_guard-Limited env readings route request none l h =
      elim (Bool-cases (is_safe_method request.method || not route.is_public)) [
        | inl e ↦ inl e
        | inr e ↦ inr (limit_public-allowed env readings request l (rw e at h))
      ]
