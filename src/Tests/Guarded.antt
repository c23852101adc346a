-- ===== src/Tests/Guarded.antt =====
-- A write of the shop's owner, through all guards.
use Prim.Native.String.{String}
use stock_pilot.Prelude.{ℕ, refl, false, Option, none, some, [], find_first, is_none}
use stock_pilot.Prelude.Map.{get}
use stock_pilot.Auth.Cidr.{Chars}
use stock_pilot.Auth.Rbac.{can, inventory_adjust}
use stock_pilot.Auth.RateLimiter.{Limiter, Readings, consume}
use stock_pilot.Auth.Sessions.{
  authenticate, check_session, auth_context, has_token, is_account, context_or_none, membership_of,
  membership_context, is_demo_workspace, verify_csrf_token,
}
use stock_pilot.Auth.Guards.{
  Route, RequestLike, GuardSettings, Limiters, is_safe_method, is_origin, check_role,
  permission_guard, enforce, check_csrf_header, check_csrf, csrf_guard, rate_limit_guard, protected,
  session_guard, limit_request, admit_permitted, admit_unforged, admit_known, admit, tier_options,
}
use stock_pilot.Auth.Guards.Conditions.{Admitted}
use stock_pilot.Auth.Guards.Admitted.{admit-Admitted}
use stock_pilot.Team.Membership.{has_id}
use stock_pilot.Tests.Shop.{shop}
use stock_pilot.Tests.SignIn.{fingerprint, keyed, ann_context}

abbrev same_chars : Chars → Chars
same_chars t = t

abbrev no_number : Chars → Option ℕ
no_number t = none

abbrev blank : Chars → String
blank t = ""

abbrev shown : ℕ → String
shown id = "3"

abbrev environment : GuardSettings
environment = record {
  web_origin = "https://shop.test";
  csrf_secret = "secret";
  trusted_proxy_cidrs = none;
  auth_writes = 60;
  public_writes = 60;
  user_writes = 240;
}

abbrev adjust_route : Route
adjust_route = record {
  is_public = false;
  is_csrf_exempt = false;
  permission = some inventory_adjust;
}

abbrev adjust_request : RequestLike
adjust_request = record {
  method = "POST";
  path = some "/v1/inventory/adjustments";
  session_cookie = some "t50";
  origin = some "https://shop.test";
  csrf_header = some "h50";
  socket_address = none;
  forwarded_for = none;
}

abbrev idle : Limiter
idle = record { buckets = []; calls_since_sweep = 0; rejected_count = 0 }

abbrev limiters : Limiters
limiters = record { auth_limiter = idle; public_limiter = idle; user_limiter = idle }

abbrev at_twenty : Readings
at_twenty = record { now = 20; at_track = 20; at_sweep = 20 }

admit-Admitted_example :
    Admitted fingerprint keyed same_chars same_chars no_number blank shown environment 20 at_twenty
      adjust_route adjust_request shop limiters
      (some ann_context)
unfolding admit admit_known admit_unforged admit_permitted limit_request session_guard protected
    csrf_guard check_csrf check_csrf_header permission_guard check_role rate_limit_guard enforce
    is_safe_method is_origin authenticate check_session auth_context find_first has_token is_account
    context_or_none membership_of membership_context is_demo_workspace has_id verify_csrf_token can
    consume get tier_options is_none
admit-Admitted_example =
    admit-Admitted fingerprint keyed same_chars same_chars no_number blank shown environment 20
      at_twenty adjust_route adjust_request shop limiters (some ann_context) refl
