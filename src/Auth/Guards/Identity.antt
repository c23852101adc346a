-- ===== src/Auth/Guards/Identity.antt =====
-- Whose session a request has: apps/api/src/auth/session.guard.ts.
use Prim.Native.String.{String}
use text.Mathlib.Text.{◌==◌ as str_eq}
use text.Mathlib.TextEquality.{eq_iff}
use stock_pilot.Prelude.{
  ℕ, ◌<◌, ◌≡◌, refl, ap, ◌∙◌, true, false, ◌||◌, not, Option, none, some, leb, is_none, find_first,
  find_first-holds, sym, arith, inl, inr, Bool-cases,
}
use stock_pilot.Store.Rows.{Session, User, Membership}
use stock_pilot.Store.Monad.{Store, Result, ok, err, invalid_session, authentication_required}
use stock_pilot.Auth.Context.{AuthContext, MembershipContext}
use stock_pilot.Team.Membership.{has_id}
use stock_pilot.Auth.Sessions.{
  authenticate, check_session, auth_context, has_token, is_account, context_or_none, membership_of,
  membership_context,
}
use stock_pilot.Auth.Guards.{Route, RequestLike, protected, session_guard}
use stock_pilot.Auth.Guards.Conditions.{IsContext, IsBound, HasSession, Known}
use stock_pilot.Auth.Guards.Parts.{if-ok, otherwise, first, is_none→none}

auth_context-row :
    (s : Store) (x : Session) (account : Option User) (a : AuthContext)
    → auth_context s x account ≡ ok a
    → (u : User) × (account ≡ some u)
      × (a ≡ record {
        session_id = x.id;
        session_token_hash = x.token_hash;
        user = u.id;
        display_name = u.display_name;
        email = u.email;
        membership = context_or_none s (membership_of s x.membership);
      })
unfolding auth_context
auth_context-row s x none a h = cc
auth_context-row s x (some u) a h = (u, refl, cc)

-- The row behind a session that the guard takes.
check_session-Live :
    (now : ℕ) (s : Store) (found : Option Session) (a : AuthContext)
    → check_session now s found ≡ ok a
    → (x : Session) × (found ≡ some x)
      × (x.revoked_at ≡ none)
      × (now < x.expires_at)
      × IsContext s x a
unfolding check_session
check_session-Live now s none a h = cc
check_session-Live now s (some x) a h =
    let (live, e) =
      if-ok (not (is_none x.revoked_at) || leb x.expires_at now) invalid_session
        (auth_context s x (find_first (is_account x.user) s.users)) a h in
    (
      x,
      refl,
      is_none→none x.revoked_at (ground (arith, live)),
      ground (arith, live),
      auth_context-row s x (find_first (is_account x.user) s.users) a e,
    )

token_of :
    (token_hash : String) (x : Session) → has_token token_hash x ≡ true → x.token_hash ≡ token_hash
unfolding has_token
token_of token_hash x h = ground (arith, h, eq_iff x.token_hash token_hash)

account_of : (s : Store) (x : Session) (a : AuthContext) → IsContext s x a → a.user ≡ x.user
unfolding is_account
account_of s x a (u, found, same) =
    let own = find_first-holds (is_account x.user) s.users u found in
    ap (λ (c : AuthContext). c.user) same ∙ ground (arith, own)

row_of :
    (s : Store) (found : Option Membership) (m : MembershipContext)
    → context_or_none s found ≡ some m
    → (row : Membership) × (found ≡ some row) × (m ≡ membership_context s row)
unfolding context_or_none
row_of s none m h = cc
row_of s (some row) m h = (row, refl, cc)

bound_row :
    (s : Store) (bound : Option ℕ) (row : Membership)
    → membership_of s bound ≡ some row
    → (bound ≡ some row.id) × (find_first (has_id row.id) s.memberships ≡ some row)
unfolding membership_of has_id
bound_row s none row h = cc
bound_row s (some k) row h =
    let own = find_first-holds (has_id k) s.memberships row h in
    let same : k ≡ row.id = ground (arith, own) in
    (ap some same, ap (λ i. find_first (has_id i) s.memberships) (sym same) ∙ h)

IsContext-IsBound : (s : Store) (x : Session) (a : AuthContext) → IsContext s x a → IsBound s x a
unfolding membership_context
IsContext-IsBound s x a (u, found, same) m h =
    let (row, stored, of_row) =
      row_of s (membership_of s x.membership) m
        (sym (ap (λ (c : AuthContext). c.membership) same) ∙ h) in
    let (bound, kept) = bound_row s x.membership row stored in
    (
      row,
      kept,
      bound,
      ap (λ (c : MembershipContext). c.id) of_row,
      ap (λ (c : MembershipContext). c.role) of_row,
      ap (λ (c : MembershipContext). c.organization) of_row,
    )

cookie-HasSession :
    (hash : String → String) (now : ℕ) (request : RequestLike) (s : Store) (a : AuthContext)
    (cookie : Option String)
    → request.session_cookie ≡ cookie
    → authenticate hash now cookie s ≡ ok a
    → HasSession hash now request s a
unfolding authenticate
cookie-HasSession hash now request s a none e h = cc
cookie-HasSession hash now request s a (some raw) e h =
    let found = find_first (has_token (hash raw)) s.sessions in
    let checked =
      (if-ok (str_eq raw "") authentication_required (check_session now s found) a h).1 in
    let (x, stored, live, fresh, same) = check_session-Live now s found a checked in
    record {
      row = x;
      raw_token = raw;
      by_cookie = e;
      stored = stored;
      not_revoked = live;
      not_expired = fresh;
      by_hash = token_of (hash raw) x (find_first-holds (has_token (hash raw)) s.sessions x stored);
      is_context = same;
      own_account = account_of s x a same;
      own_membership = IsContext-IsBound s x a same;
    }

protected-Known :
    (hash : String → String) (now : ℕ) (route : Route) (request : RequestLike) (s : Store)
    (r : Result AuthContext) (auth : Option AuthContext)
    → route.is_public ≡ false
    → authenticate hash now request.session_cookie s ≡ r
    → protected r ≡ ok auth
    → Known hash now route request s auth
unfolding protected
protected-Known hash now route request s (err e) auth closed from h = cc
protected-Known hash now route request s (ok a) none closed from h = cc
protected-Known hash now route request s (ok a) (some b) closed from h =
    let same : a ≡ b = cc in
    (closed, cookie-HasSession hash now request s b request.session_cookie refl (from ∙ ap ok same))

public-Known :
    (hash : String → String) (now : ℕ) (route : Route) (request : RequestLike) (s : Store)
    (auth : Option AuthContext)
    → route.is_public ≡ true
    → ok none ≡ ok auth
    → Known hash now route request s auth
public-Known hash now route request s none e h = e
public-Known hash now route request s (some a) e h = cc

pub session_guard-Known :
    (hash : String → String) (now : ℕ) (route : Route) (request : RequestLike) (s : Store)
    (auth : Option AuthContext)
    → session_guard hash now route request s ≡ ok auth
    → Known hash now route request s auth
unfolding session_guard
session_guard-Known hash now route request s auth h = elim (Bool-cases route.is_public) [
  | inl e ↦ public-Known hash now route request s auth e (first route.is_public _ _ e h)
  | inr e ↦
      protected-Known hash now route request s (authenticate hash now request.session_cookie s) auth
        e refl (otherwise route.is_public _ _ e h)
]
