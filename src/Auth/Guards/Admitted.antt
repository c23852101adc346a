-- ===== src/Auth/Guards/Admitted.antt =====
-- What a request has that the guards of apps/api/src/auth/auth.module.ts let through.
use Prim.Native.String.{String}
use mathlib.Core.Path.{subst}
use stock_pilot.Prelude.{ℕ, ◌≡◌, refl, ap, Option, ⊤}
use stock_pilot.Store.Monad.{Store, Result, ok, err}
use stock_pilot.Auth.Context.{AuthContext}
use stock_pilot.Auth.Cidr.{Chars}
use stock_pilot.Auth.RateLimiter.{Readings}
use stock_pilot.Auth.Guards.{
  Route, RequestLike, GuardSettings, Limiters, permission_guard, csrf_guard, rate_limit_guard,
  limit_request, admit_permitted, admit_unforged, admit_known, admit,
}
use stock_pilot.Auth.Guards.Identity.{session_guard-Known}
use stock_pilot.Auth.Guards.Conditions.{Admitted}
use stock_pilot.Auth.Guards.Parts.{
  csrf_guard-Unforged, permission_guard-Permitted, rate_limit_guard-Limited,
}

module _ (hash : String → String) (derive : String → String → String)
    (to_lower trim : Chars → Chars) (to_number : Chars → Option ℕ) (text_of : Chars → String)
    (show_id : ℕ → String) where
  limit_request-kept :
      (env : GuardSettings) (readings : Readings) (route : Route) (request : RequestLike)
      (auth b : Option AuthContext) (l : Limiters)
      → (limit_request hash derive to_lower trim to_number text_of show_id env readings route
          request auth l).0
        ≡ ok b
      → ((rate_limit_guard to_lower trim to_number text_of show_id env readings route request auth
            l).0
          ≡ ok tt)
        × (auth ≡ b)
  unfolding limit_request
  limit_request-kept env readings route request auth b l h = kept _ h
    where
      kept :
          (r : Result ⊤)
          → elim r as (λ _. Result (Option AuthContext)) [ ok _ ↦ ok auth | err e ↦ err e ] ≡ ok b
          → (r ≡ ok tt) × (auth ≡ b)
      kept (ok u) h = (refl, cc)
      kept (err e) h = cc

  permitted_then :
      (env : GuardSettings) (readings : Readings) (route : Route) (request : RequestLike)
      (auth b : Option AuthContext) (l : Limiters) (r : Result ⊤)
      → (admit_permitted hash derive to_lower trim to_number text_of show_id env readings route
          request auth l r).0
        ≡ ok b
      → (r ≡ ok tt)
        × ((rate_limit_guard to_lower trim to_number text_of show_id env readings route request auth
              l).0
            ≡ ok tt)
        × (auth ≡ b)
  unfolding admit_permitted
  permitted_then env readings route request auth b l (err e) h = cc
  permitted_then env readings route request auth b l (ok u) h =
      let (taken, same) = limit_request-kept env readings route request auth b l h in
      (refl, taken, same)

  unforged_then :
      (env : GuardSettings) (readings : Readings) (route : Route) (request : RequestLike)
      (auth b : Option AuthContext) (l : Limiters) (r : Result ⊤)
      → (admit_unforged hash derive to_lower trim to_number text_of show_id env readings route
          request auth l r).0
        ≡ ok b
      → (r ≡ ok tt)
        × (permission_guard route.permission auth ≡ ok tt)
        × ((rate_limit_guard to_lower trim to_number text_of show_id env readings route request auth
              l).0
            ≡ ok tt)
        × (auth ≡ b)
  unfolding admit_unforged
  unforged_then env readings route request auth b l (err e) h = cc
  unforged_then env readings route request auth b l (ok u) h =
      let (allowed, taken, same) = permitted_then env readings route request auth b l _ h in
      (refl, allowed, taken, same)

  known_then :
      (env : GuardSettings) (readings : Readings) (route : Route) (request : RequestLike)
      (b : Option AuthContext) (l : Limiters) (r : Result (Option AuthContext))
      → (admit_known hash derive to_lower trim to_number text_of show_id env readings route request
          l r).0
        ≡ ok b
      → (r ≡ ok b)
        × (csrf_guard derive env route request b ≡ ok tt)
        × (permission_guard route.permission b ≡ ok tt)
        × ((rate_limit_guard to_lower trim to_number text_of show_id env readings route request b
              l).0
            ≡ ok tt)
  unfolding admit_known
  known_then env readings route request b l (err e) h = cc
  known_then env readings route request b l (ok auth) h =
      let (unforged, allowed, taken, same) =
        unforged_then env readings route request auth b l _ h in
      (
        ap ok same,
        subst (λ x. csrf_guard derive env route request x ≡ ok tt) same unforged,
        subst (λ x. permission_guard route.permission x ≡ ok tt) same allowed,
        subst
            (λ x.
              (rate_limit_guard to_lower trim to_number text_of show_id env readings route request x
                l).0
              ≡ ok tt)
            same taken,
      )

  -- A request that all guards let through. On a route that is not public its context is that of the
  -- session which its cookie names, neither revoked nor expired, with the account and the stored
  -- membership of that session; a write that is not exempt comes from the web application's origin
  -- and, with a session, carries the CSRF token of that session; the role of the membership has the
  -- permission that the route asks for; and a write is allowed by the limiter of its tier, the user's
  -- for a session and the address's for a public route.
  pub admit-Admitted :
      (env : GuardSettings) (now : ℕ) (readings : Readings) (route : Route) (request : RequestLike)
      (s : Store) (l : Limiters) (auth : Option AuthContext)
      → (admit hash derive to_lower trim to_number text_of show_id env now readings route request s
          l).0
        ≡ ok auth
      → Admitted hash derive to_lower trim to_number text_of show_id env now readings route request
          s l auth
  unfolding admit
  admit-Admitted env now readings route request s l auth h =
      let (known, unforged, allowed, taken) = known_then env readings route request auth l _ h in
      record {
        known = session_guard-Known hash now route request s auth known;
        unforged = csrf_guard-Unforged derive env route request auth unforged;
        permitted = permission_guard-Permitted route.permission auth allowed;
        within_limit =
            rate_limit_guard-Limited to_lower trim to_number text_of show_id env readings route
              request auth l taken;
      }
