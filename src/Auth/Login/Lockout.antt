-- ===== src/Auth/Login/Lockout.antt =====
-- Signing in with wrong passwords: `login` of apps/api/src/auth/auth.service.ts with the throttle of
-- apps/api/src/auth/auth-throttle.service.ts.
use Prim.Native.String.{String}
use text.Mathlib.Text.{◌==◌ as str_eq}
use stock_pilot.Prelude.Map.{get}
use stock_pilot.Prelude.{
  ℕ, suc, ◌+◌, ◌<◌, ◌≡◌, refl, ap, sym, ◌∙◌, Bool, true, false, Option, none, some, List, [], ◌∷◌,
  leb, length, map, find_first, arith, ⊤, Option-cases, inl, inr,
}
use stock_pilot.Store.Rows.{User}
use stock_pilot.Store.Monad.{Store, err, bad_credentials, too_many_attempts}
use stock_pilot.Auth.Throttle.{
  Throttle, ThrottleOptions, ThrottleEntry, FailureReadings, key_for, check_attempt,
  check_attempt_of, check_entry, check_block, record_failure, record_failure_of, entry_or_new,
}
use stock_pilot.Auth.Throttle.Blocks.{
  fail_all, Inside, AllInside, Counted, record_failure_of-Counted, fail_all-Counted, failures_block,
}
use stock_pilot.Auth.Sessions.{SessionSettings}
use stock_pilot.Auth.Login.{LoginReadings, LoginInput, Server, login, verify_login, reject_login}

pub record Attempt : Type 0 where
  pub readings : LoginReadings
  pub input : LoginInput

abbrev pub failure_of : Attempt → FailureReadings
failure_of a = a.readings.at_failure

-- A pair whose entry is not blocked passes, and its entry stays as it is.
check-passes :
    (now k start : ℕ) (key : String) (l : Throttle)
    → Counted start k key l
    → check_attempt_of now key l ≡ (true, l)
unfolding check_attempt_of check_entry check_block Counted entry_or_new
check-passes now k start key l (ats, e, _, _) = elim (Option-cases (get key l.entries)) [
  | inl n ↦ rw n refl
  | inr (x, n) ↦
      let b : x.blocked_until ≡ none = ap (λ y. y.blocked_until) (ap entry_or_new (sym n) ∙ e) in
      rw (n, b) refl
]

-- A pair that does not pass leaves the throttle as it is.
check_block-refused :
    (now : ℕ) (key : String) (l : Throttle) (e : ThrottleEntry) (until : Option ℕ)
    → (check_block now key l e until).0 ≡ false
    → check_block now key l e until ≡ (false, l)
unfolding check_block
check_block-refused now key l e none h = cc
check_block-refused now key l e (some u) h = ground arith

check_entry-refused :
    (now : ℕ) (key : String) (l : Throttle) (found : Option ThrottleEntry)
    → (check_entry now key l found).0 ≡ false
    → check_entry now key l found ≡ (false, l)
unfolding check_entry
check_entry-refused now key l none h = cc
check_entry-refused now key l (some e) h = check_block-refused now key l e e.blocked_until h

check_attempt_of-refused :
    (now : ℕ) (key : String) (l : Throttle)
    → (check_attempt_of now key l).0 ≡ false
    → check_attempt_of now key l ≡ (false, l)
unfolding check_attempt_of
check_attempt_of-refused now key l h = check_entry-refused now key l (get key l.entries) h

length-map : (attempts : List Attempt) → length (map failure_of attempts) ≡ length attempts
length-map [] = refl
length-map (a ∷ attempts) = ap suc (length-map attempts)

module _ (hash : String → String) (derive : String → String → String)
    (to_lower trim : String → String) (verify : String → String → Bool)
    (hash_password : String → String) (settings : SessionSettings) (o : ThrottleOptions) where
  -- The account of an email, if there is one, does not have this password.
  abbrev pub WrongFor : Option User → String → Type 0
  WrongFor none password = ⊤
  WrongFor (some u) password = verify u.password_hash password ≡ false

  -- Attempts of the pair `key` that have a wrong password or no account.
  abbrev pub AllWrong : String → Store → List Attempt → Type 0
  AllWrong key s [] = ⊤
  AllWrong key s (a ∷ attempts) =
      (key_for to_lower trim a.input.email a.input.client_address ≡ key)
      × WrongFor (find_first (λ (u : User). str_eq u.email (to_lower a.input.email)) s.users)
          a.input.password
      × AllWrong key s attempts

  -- `login` for each attempt, in order.
  unfoldable pub login_all : List Attempt → Server → Server
  login_all [] v = v
  login_all (a ∷ attempts) v =
      login_all attempts
        (login hash derive to_lower trim verify hash_password settings o a.readings a.input v).1

  verify_login-rejected :
      (a : Attempt) (found : Option User) (v : Server)
      → WrongFor found a.input.password
      → verify_login hash derive to_lower trim verify hash_password settings o a.readings a.input
          found v
        ≡ reject_login hash derive to_lower trim verify hash_password o a.readings a.input v
  unfolding verify_login
  verify_login-rejected a none v wrong = refl
  verify_login-rejected a (some u) v wrong = rw wrong refl

  login-rejected :
      (a : Attempt) (key : String) (v : Server)
      → check_attempt_of a.readings.at_check key v.throttle ≡ (true, v.throttle)
      → key_for to_lower trim a.input.email a.input.client_address ≡ key
      → WrongFor
          (find_first (λ (u : User). str_eq u.email (to_lower a.input.email)) v.store.users)
          a.input.password
      → login hash derive to_lower trim verify hash_password settings o a.readings a.input v ≡ (
        err bad_credentials,
        record v { throttle = record_failure_of o (failure_of a) key v.throttle },
      )
  unfolding login check_attempt reject_login record_failure
  login-rejected a key v passes pair wrong =
      let found =
        find_first (λ (u : User). str_eq u.email (to_lower a.input.email)) v.store.users in
      rw (pair, passes) (verify_login-rejected a found v wrong ∙ rw pair refl)

  -- Attempts that all fail below the limit count their failures and change nothing else.
  login_all-failed :
      (attempts : List Attempt) (key : String) (v : Server) (start k : ℕ)
      → Counted start k key v.throttle
      → AllWrong key v.store attempts
      → AllInside start o.window_ms (map failure_of attempts)
      → k + length attempts < o.limit
      → login_all attempts v
        ≡ record v { throttle = fail_all o key (map failure_of attempts) v.throttle }
  unfolding login_all fail_all
  login_all-failed [] key v start k c wrong inside below = refl
  login_all-failed (a ∷ attempts) key v start k c wrong inside below =
      let next : Server = record v {
        throttle = record_failure_of o (failure_of a) key v.throttle;
      } in
      let one =
        login-rejected a key v (check-passes a.readings.at_check k start key v.throttle c) wrong.0
          wrong.1 in
      ap (λ r. login_all attempts r.1) one
      ∙ login_all-failed attempts key next start (suc k)
          (record_failure_of-Counted o (failure_of a) key v.throttle start k c inside.0
            (omega arith))
          wrong.2 inside.1 (omega arith)

  login-refused :
      (readings : LoginReadings) (input : LoginInput) (key : String) (v : Server)
      → check_attempt_of readings.at_check key v.throttle ≡ (false, v.throttle)
      → key_for to_lower trim input.email input.client_address ≡ key
      → login hash derive to_lower trim verify hash_password settings o readings input v
        ≡ (err too_many_attempts, v)
  unfolding login check_attempt
  login-refused readings input key v refused pair = rw (pair, refused) refl

  -- Attempts of one pair that had no failure, each with a wrong password or no account, all within
  -- one window and as many as the limit: the last of them is still answered as wrong, and after it
  -- every attempt of the pair is refused, whatever its password, until the length of a block after
  -- that failure; a refused attempt changes nothing.
  pub login_locked :
      (attempts : List Attempt) (last : Attempt) (key : String) (v : Server) (start : ℕ)
      (readings : LoginReadings) (input : LoginInput)
      → get key v.throttle.entries ≡ none
      → AllWrong key v.store attempts
      → AllWrong key v.store (last ∷ [])
      → AllInside start o.window_ms (map failure_of attempts)
      → Inside start o.window_ms (failure_of last)
      → suc (length attempts) ≡ o.limit
      → key_for to_lower trim input.email input.client_address ≡ key
      → readings.at_check < (failure_of last).now + o.block_ms
      → ((login hash derive to_lower trim verify hash_password settings o last.readings last.input
            (login_all attempts v)).0
          ≡ err bad_credentials)
        × (login hash derive to_lower trim verify hash_password settings o readings input
              (login_all (last ∷ []) (login_all attempts v))
            ≡ (err too_many_attempts, login_all (last ∷ []) (login_all attempts v)))
  unfolding login_all Counted entry_or_new
  login_locked attempts last key v start readings input fresh wrong wrong_last inside inside_last
        full pair blocked =
      let n = length-map attempts in
      let none_yet : Counted start 0 key v.throttle = ([], rw fresh refl, refl, tt) in
      let before = fail_all o key (map failure_of attempts) v.throttle in
      let w : Server = record v { throttle = before } in
      let after : Server = record v {
        throttle = record_failure_of o (failure_of last) key before;
      } in
      let counted =
        fail_all-Counted o (map failure_of attempts) key v.throttle start 0 none_yet inside
          (omega (arith, n, full)) in
      let here =
        login_all-failed attempts key v start 0 none_yet wrong inside (omega (arith, full)) in
      let failed =
        login-rejected last key w (check-passes last.readings.at_check _ start key before counted)
          wrong_last.0 wrong_last.1 in
      let block =
        (failures_block o (map failure_of attempts) (failure_of last) key v.throttle start
          readings.at_check fresh inside inside_last (omega (arith, n, full))).1 in
      let early : leb ((failure_of last).now + o.block_ms) readings.at_check ≡ false =
        ground arith in
      let refused =
        login-refused readings input key after
          (check_attempt_of-refused readings.at_check key after.throttle (block ∙ early)) pair in
      let one : login_all (last ∷ []) w ≡ after = ap (λ r. r.1) failed in
      rw (here, failed, one) (refl, refused)
