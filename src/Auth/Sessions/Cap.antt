-- ===== src/Auth/Sessions/Cap.antt =====
-- How many sessions of a user are active after a sign-in: `issueSession` of
-- apps/api/src/auth/auth.service.ts.
use Prim.Native.String.{String}
use stock_pilot.Prelude.{
  ℕ, zero, suc, ◌+◌, ◌-◌, ◌*◌, ◌≤◌, ◌<◌, ◌≡◌, refl, ap, sym, ◌∙◌, Bool, true, false, ◌&&◌, Option,
  none, some, List, [], ◌∷◌, leb, length, map, take, select, sort_by, insert_by, count,
  count-delete_where_le, update_where, delete_where, is_none, arith, if◌then◌else◌, ==_refl,
}
use stock_pilot.Store.Rows.{Session, Membership}
use stock_pilot.Store.Monad.{Store, ok}
use stock_pilot.Auth.Sessions.{
  SessionSettings, IssueReadings, IssuedSession, is_session, is_expired_session, is_active_session,
  revoke_session_at, id_of, created_of, is_in, drop_expired, active_sessions, revoke_excess, tidy,
  session_row, create_session, insert_session, issue_session,
}

-- Identifiers are unique.
abbrev pub IsUnique : List Session → Type 0
IsUnique xs = (i : ℕ) → count (is_session i) xs ≤ 1

count-insert_by :
    (q : Session → Bool) (key : Session → ℕ) (x : Session) (xs : List Session)
    → count q (insert_by key x xs) ≡ count q (x ∷ xs)
unfolding count insert_by
count-insert_by q key x [] = refl
count-insert_by q key x (y ∷ ys) = ground (arith, count-insert_by q key x ys)

count-sort_by :
    (q : Session → Bool) (key : Session → ℕ) (xs : List Session)
    → count q (sort_by key xs) ≡ count q xs
unfolding count sort_by
count-sort_by q key [] = refl
count-sort_by q key (x ∷ xs) =
    omega (arith, count-insert_by q key x (sort_by key xs), count-sort_by q key xs)

count-select :
    (p q : Session → Bool) (xs : List Session) → count q (select p xs) ≡ count (λ x. p x && q x) xs
unfolding count select
count-select p q [] = refl
count-select p q (x ∷ xs) = ground (arith, count-select p q xs)

count-true : (xs : List Session) → count (λ _. true) xs ≡ length xs
unfolding count
count-true [] = refl
count-true (x ∷ xs) = omega (arith, count-true xs)

count-and_le : (p q : Session → Bool) (xs : List Session) → count (λ x. p x && q x) xs ≤ count q xs
unfolding count
count-and_le p q [] = omega arith
count-and_le p q (x ∷ xs) = ground (arith, count-and_le p q xs)

count-and_true : (p : Session → Bool) (xs : List Session) → count (λ x. p x && true) xs ≡ count p xs
unfolding count
count-and_true p [] = refl
count-and_true p (x ∷ xs) = ground (arith, count-and_true p xs)

count-other :
    (i : ℕ) (ids : List ℕ) (xs : List Session)
    → count (is_session i) xs ≡ 0
    → count (is_in (i ∷ ids)) xs ≡ count (is_in ids) xs
unfolding count is_in is_session
count-other i ids [] h = refl
count-other i ids (x ∷ xs) h = ground (arith, count-other i ids xs)

count-nothing : (xs : List Session) → count (is_in []) xs ≡ 0
unfolding count is_in
count-nothing [] = refl
count-nothing (x ∷ xs) = omega (arith, count-nothing xs)

tail-IsUnique : (x : Session) (xs : List Session) → IsUnique (x ∷ xs) → IsUnique xs
unfolding count
tail-IsUnique x xs u i = omega (arith, u i)

head_once : (x : Session) (xs : List Session) → IsUnique (x ∷ xs) → count (is_session x.id) xs ≡ 0
unfolding count is_session
head_once x xs u = ground (arith, u x.id, ==_refl x.id)

count-head :
    (i : ℕ) (ids : List ℕ) (y : Session) (ys : List Session)
    → y.id ≡ i
    → count (is_in (i ∷ ids)) (y ∷ ys) ≡ suc (count (is_in (i ∷ ids)) ys)
unfolding count is_in
count-head i ids y ys e = ground arith

-- The rows that the first `k` identifiers select are `k` in number.
count-take :
    (k : ℕ) (xs : List Session)
    → IsUnique xs
    → k ≤ length xs
    → count (is_in (map id_of (take k xs))) xs ≡ k
count-take zero xs u h = count-nothing xs
count-take (suc k) [] u h = omega arith
count-take (suc k) (x ∷ xs) u h =
    count-head x.id (map id_of (take k xs)) x xs refl
    ∙ ap suc (
        count-other x.id (map id_of (take k xs)) xs (head_once x xs u)
        ∙ count-take k xs (tail-IsUnique x xs u) (omega arith))

-- A write after which no row of `p` counts takes those rows out of the count.
count-withdraw :
    (p q : Session → Bool) (f : Session → Session) (xs : List Session)
    → ((x : Session) → q (f x) ≡ false)
    → count q (update_where p f xs) + count (λ x. q x && p x) xs ≡ count q xs
unfolding count update_where
count-withdraw p q f [] h = refl
count-withdraw p q f (x ∷ xs) h = ground (arith, h x, count-withdraw p q f xs h)

count-drop_expired :
    (user now : ℕ) (xs : List Session)
    → count (is_active_session user now) (drop_expired user now xs)
      ≡ count (is_active_session user now) xs
unfolding count drop_expired delete_where is_expired_session is_active_session
count-drop_expired user now [] = refl
count-drop_expired user now (x ∷ xs) = ground (arith, count-drop_expired user now xs)

drop_expired-IsUnique :
    (user now : ℕ) (xs : List Session) → IsUnique xs → IsUnique (drop_expired user now xs)
unfolding drop_expired
drop_expired-IsUnique user now xs u i =
    omega (arith, u i, count-delete_where_le (is_expired_session user now) (is_session i) xs)

count-active_sessions :
    (user now : ℕ) (q : Session → Bool) (xs : List Session)
    → count q (active_sessions user now xs) ≡ count (λ x. is_active_session user now x && q x) xs
unfolding active_sessions
count-active_sessions user now q xs =
    count-sort_by q created_of (select (is_active_session user now) xs)
    ∙ count-select (is_active_session user now) q xs

length-active_sessions :
    (user now : ℕ) (xs : List Session)
    → length (active_sessions user now xs) ≡ count (is_active_session user now) xs
length-active_sessions user now xs =
    sym (count-true (active_sessions user now xs))
    ∙ (count-active_sessions user now (λ _. true) xs
        ∙ count-and_true (is_active_session user now) xs)

active_sessions-IsUnique :
    (user now : ℕ) (xs : List Session) → IsUnique xs → IsUnique (active_sessions user now xs)
active_sessions-IsUnique user now xs u i = omega (
  arith,
  u i,
  count-active_sessions user now (is_session i) xs,
  count-and_le (is_active_session user now) (is_session i) xs,
)

revoked_is_inactive :
    (user now : ℕ) (x : Session) → is_active_session user now (revoke_session_at now x) ≡ false
unfolding is_active_session revoke_session_at is_none
revoked_is_inactive user now x = ground arith

-- What is left after the excess is gone.
count-revoke_excess :
    (max_active user now : ℕ) (xs : List Session)
    → IsUnique xs
    → count (is_active_session user now) (revoke_excess max_active user now xs)
        + (count (is_active_session user now) xs - max_active)
      ≡ count (is_active_session user now) xs
unfolding revoke_excess
count-revoke_excess max_active user now xs u =
    let ys = active_sessions user now xs in
    let excess = length ys - max_active in
    let ids = map id_of (take excess ys) in
    let n = length-active_sessions user now xs in
    let chosen : count (is_in ids) ys ≡ excess =
      count-take excess ys (active_sessions-IsUnique user now xs u) (omega arith) in
    let left =
      count-withdraw (is_in ids) (is_active_session user now) (revoke_session_at now) xs
        (revoked_is_inactive user now) in
    omega (arith, n, chosen, left, count-active_sessions user now (is_in ids) xs)

-- A session that is issued, and the store it is in.
pub insert_session-Inserted :
    (row : Session) (made issued : IssuedSession) (found : Option Session) (s t : Store)
    → insert_session row made found s ≡ (ok issued, t)
    → (found ≡ none)
      × (issued ≡ made)
      × (t ≡ record s { sessions = row ∷ s.sessions; next_id = suc s.next_id })
unfolding insert_session
insert_session-Inserted row made issued none s t h = (refl, cc, sym (ap (λ r. r.1) h))
insert_session-Inserted row made issued (some taken) s t h = cc

session_row-is_active_session :
    (hash : String → String) (settings : SessionSettings) (readings : IssueReadings)
    (raw_token : String) (membership : Option Membership) (user id : ℕ)
    → readings.now < readings.at_expiry + settings.ttl_hours * 3600000
    → is_active_session user readings.now
        (session_row hash settings readings raw_token membership user id)
      ≡ true
unfolding is_active_session session_row is_none
session_row-is_active_session hash settings readings raw_token membership user id live =
    ground (arith, ==_refl user)

-- After a session is issued its user has as many active sessions as before and the new one, where
-- those were at most `MAX_ACTIVE_SESSIONS_PER_USER`, and else that number and the new one: the cap
-- holds for the sessions before the new one. Identifiers are unique, and the new session has not
-- expired when it is made.
pub issue_session-count :
    (hash : String → String) (derive : String → String → String) (settings : SessionSettings)
    (readings : IssueReadings) (raw_token : String) (membership : Option Membership) (user : ℕ)
    (s t : Store) (issued : IssuedSession)
    → IsUnique s.sessions
    → readings.now < readings.at_expiry + settings.ttl_hours * 3600000
    → issue_session hash derive settings readings raw_token membership user s ≡ (ok issued, t)
    → count (is_active_session user readings.now) t.sessions
      ≡ suc (
          if leb (count (is_active_session user readings.now) s.sessions) settings.max_active
          then count (is_active_session user readings.now) s.sessions
          else settings.max_active)
unfolding issue_session create_session tidy count
issue_session-count hash derive settings readings raw_token membership user s t issued u live h =
    let made = (insert_session-Inserted _ _ issued _ _ t h).2 in
    let fresh = drop_expired user readings.now s.sessions in
    let after = ap (λ x. count (is_active_session user readings.now) x.sessions) made in
    ground (
      arith,
      after,
      session_row-is_active_session hash settings readings raw_token membership user s.next_id live,
      count-drop_expired user readings.now s.sessions,
      count-revoke_excess settings.max_active user readings.now fresh
          (drop_expired-IsUnique user readings.now s.sessions u),
    )
