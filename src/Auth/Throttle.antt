-- ===== src/Auth/Throttle.antt =====
-- apps/api/src/auth/auth-throttle.service.ts: failed sign-ins of a pair of an email and an address.
-- `to_lower` and `trim` are `toLowerCase` and `trim`; a moment before the window's start is written
-- `now < at + window`, since numbers stop at 0.
use Prim.Native.String.{String}
pub mod Blocks
use stock_pilot.Prelude.Map.{Map, get, set, delete, sweep, put}
use stock_pilot.Prelude.{
  ℕ, ◌+◌, ◌*◌, ◌==◌, Bool, true, false, ◌&&◌, ◌||◌, not, Option, none, some, List, [], ◌∷◌, ◌++◌,
  leb, ltb, length, if◌then◌else◌,
}

-- One text after another.
unfoldable pub concatenated : String → String → String
concatenated String.[] t = t
concatenated (String.◌∷◌ c s) t = String.◌∷◌ c (concatenated s t)

pub record ThrottleEntry : Type 0 where
  pub failures : List ℕ
  pub blocked_until : Option ℕ

-- `limit`, `windowMs` and `blockMs`, and the two constants.
pub record ThrottleOptions : Type 0 where
  pub limit : ℕ
  pub window_ms : ℕ
  pub block_ms : ℕ
  pub max_keys : ℕ
  pub sweep_interval : ℕ

pub record Throttle : Type 0 where
  pub entries : Map ThrottleEntry
  pub calls_since_sweep : ℕ

-- `this.now()` in `recordFailure`, in the sweep of `track`, and in that of `maybeSweep`.
pub record FailureReadings : Type 0 where
  pub now : ℕ
  pub at_track : ℕ
  pub at_sweep : ℕ

-- `at > now - windowMs`
unfoldable pub is_recent : ℕ → ℕ → ℕ → Bool
is_recent window now at = ltb now (at + window)

-- `failures.filter(at => at > now - this.windowMs)`
unfoldable pub recent : ℕ → ℕ → List ℕ → List ℕ
recent window now [] = []
recent window now (at ∷ ats) =
    let rest = recent window now ats in if is_recent window now at then at ∷ rest else rest

-- `failures.some(at => at > now - this.windowMs)`
unfoldable pub some_recent : ℕ → ℕ → List ℕ → Bool
some_recent window now [] = false
some_recent window now (at ∷ ats) = is_recent window now at || some_recent window now ats

-- `blockedUntil !== null && blockedUntil > now`
unfoldable pub is_blocked : ℕ → Option ℕ → Bool
is_blocked now none = false
is_blocked now (some u) = ltb now u

-- What `sweepExpired` deletes.
unfoldable pub is_idle : ThrottleOptions → ℕ → ThrottleEntry → Bool
is_idle o now e =
    not (is_blocked now e.blocked_until) && not (some_recent o.window_ms now e.failures)

-- The `Math.max` of `evictOldest`.
unfoldable pub max_of : ℕ → List ℕ → ℕ
max_of best [] = best
max_of best (x ∷ xs) = max_of (if ltb best x then x else best) xs

unfoldable pub blocked_or_zero : Option ℕ → ℕ
blocked_or_zero none = 0
blocked_or_zero (some u) = u

unfoldable pub activity : ThrottleEntry → ℕ
activity e = max_of (blocked_or_zero e.blocked_until) e.failures

unfoldable pub maybe_sweep_idle : ThrottleOptions → ℕ → Throttle → Throttle
maybe_sweep_idle o now l =
    let calls = l.calls_since_sweep + 1 in
    if leb o.sweep_interval calls
    then record l { calls_since_sweep = 0; entries = sweep (is_idle o now) l.entries }
    else record l { calls_since_sweep = calls }

-- `entries.get(key) ?? { blockedUntil: null, failures: [] }`
unfoldable pub entry_or_new : Option ThrottleEntry → ThrottleEntry
entry_or_new none = record { failures = []; blocked_until = none }
entry_or_new (some e) = e

-- The entry with one more failure, and the block armed at the limit.
unfoldable pub with_failure : ThrottleOptions → ℕ → ThrottleEntry → ThrottleEntry
with_failure o now e =
    let failures = recent o.window_ms now e.failures ++ (now ∷ []) in
    if leb o.limit (length failures) && not (is_blocked now e.blocked_until)
    then record { failures = failures; blocked_until = some (now + o.block_ms) }
    else record { failures = failures; blocked_until = e.blocked_until }

-- The three calls, for a key.
unfoldable pub record_failure_of : ThrottleOptions → FailureReadings → String → Throttle → Throttle
record_failure_of o r key l =
    let entry = with_failure o r.now (entry_or_new (get key l.entries)) in
    maybe_sweep_idle o r.at_sweep
      (record l { entries = put o.max_keys activity (is_idle o r.at_track) key entry l.entries })

unfoldable pub clear_failures_of : String → Throttle → Throttle
clear_failures_of key l = record l { entries = delete key l.entries }

-- Whether the attempt goes on, and the entry with its block lifted where that is over.
unfoldable pub check_block : ℕ → String → Throttle → ThrottleEntry → Option ℕ → Bool × Throttle
check_block now key l e none = (true, l)
check_block now key l e (some u) =
    if ltb now u
    then (false, l)
    else (true, record l { entries = set key (record e { blocked_until = none }) l.entries })

unfoldable pub check_entry : ℕ → String → Throttle → Option ThrottleEntry → Bool × Throttle
check_entry now key l none = (true, l)
check_entry now key l (some e) = check_block now key l e e.blocked_until

unfoldable pub check_attempt_of : ℕ → String → Throttle → Bool × Throttle
check_attempt_of now key l = check_entry now key l (get key l.entries)

module _ (to_lower trim : String → String) where
  -- `${email.trim().toLowerCase()}|${clientAddress}`
  unfoldable pub key_for : String → String → String
  key_for email client_address =
      concatenated (concatenated (to_lower (trim email)) "|") client_address

  unfoldable pub check_attempt : ℕ → String → String → Throttle → Bool × Throttle
  check_attempt now email client_address l = check_attempt_of now (key_for email client_address) l

  unfoldable pub record_failure :
      ThrottleOptions → FailureReadings → String → String → Throttle → Throttle
  record_failure o r email client_address l = record_failure_of o r (key_for email client_address) l

  unfoldable pub clear_failures : String → String → Throttle → Throttle
  clear_failures email client_address l = clear_failures_of (key_for email client_address) l
