-- ===== src/Auth/RateLimiter.antt =====
-- apps/api/src/auth/rate-limiter.ts: a Map keeps its entries in the order of insertion. The clock
-- is read up to three times in one call, so its readings are three arguments.
pub mod Bound
pub mod Window
use Prim.Native.String.{String}
use stock_pilot.Prelude.Map.{Map, get, set, sweep, put}
use stock_pilot.Prelude.{
  ℕ, suc, ◌+◌, ◌-◌, ◌≤◌, Bool, true, false, Option, none, some, List, [], ◌∷◌, leb, ltb, length,
  if◌then◌else◌,
}

pub record RateLimiterOptions : Type 0 where
  pub window_ms : ℕ
  pub max_writes : ℕ
  pub max_buckets : ℕ
  pub sweep_interval : ℕ

pub record RateLimitResult : Type 0 where
  pub allowed : Bool
  pub retry_after_ms : ℕ

pub record Bucket : Type 0 where
  pub count : ℕ
  pub reset_at : ℕ

abbrev pub Buckets : Type 0
Buckets = Map Bucket

pub record Limiter : Type 0 where
  pub buckets : Buckets
  pub calls_since_sweep : ℕ
  pub rejected_count : ℕ

-- `this.now()` in `consume`, in the sweep of `track`, and in that of `maybeSweep`.
pub record Readings : Type 0 where
  pub now : ℕ
  pub at_track : ℕ
  pub at_sweep : ℕ

-- `resetAt <= now`
unfoldable pub is_expired_bucket : ℕ → Bucket → Bool
is_expired_bucket now b = leb b.reset_at now

abbrev pub sweep_expired : ℕ → Buckets → Buckets
sweep_expired now bs = sweep (is_expired_bucket now) bs

abbrev pub reset_of : Bucket → ℕ
reset_of b = b.reset_at

unfoldable pub track : RateLimiterOptions → ℕ → String → ℕ → ℕ → Buckets → Buckets
track o now key count reset_at bs =
    put o.max_buckets reset_of (is_expired_bucket now) key
      (record { count = count; reset_at = reset_at }) bs

unfoldable pub maybe_sweep : RateLimiterOptions → ℕ → Limiter → Limiter
maybe_sweep o now l =
    let calls = l.calls_since_sweep + 1 in
    if leb o.sweep_interval calls
    then record l { calls_since_sweep = 0; buckets = sweep_expired now l.buckets }
    else record l { calls_since_sweep = calls }

abbrev pub allow : RateLimitResult
allow = record { allowed = true; retry_after_ms = 0 }

-- The first branch of `consume`.
unfoldable pub open_window :
    RateLimiterOptions → Readings → String → Limiter → RateLimitResult × Limiter
open_window o r key l = (
  allow,
  maybe_sweep o r.at_sweep
      (record l { buckets = track o r.at_track key 1 (r.now + o.window_ms) l.buckets }),
)

unfoldable pub consume :
    RateLimiterOptions → Readings → String → Limiter → RateLimitResult × Limiter
unfolding open_window
consume o r key l = elim (get key l.buckets) [
  | none ↦ open_window o r key l
  | some b ↦
      if leb b.reset_at r.now
      then open_window o r key l
      else if leb o.max_writes b.count
      then (
        record { allowed = false; retry_after_ms = b.reset_at - r.now },
        maybe_sweep o r.at_sweep (record l { rejected_count = l.rejected_count + 1 }),
      )
      else (
        allow,
        maybe_sweep o r.at_sweep
            (record l { buckets = set key (record b { count = b.count + 1 }) l.buckets }),
      )
]
