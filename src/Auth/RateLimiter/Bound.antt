-- ===== src/Auth/RateLimiter/Bound.antt =====
-- Memory: the map never holds more than `maxBuckets` entries.
use Prim.Native.String.{String}
use stock_pilot.Prelude.{ℕ, ◌+◌, ◌≤◌, ◌<◌, length, arith, inl, inr, Option-cases}
use stock_pilot.Prelude.Map.{get, set, length-set_present, length-sweep, length-put}
use stock_pilot.Auth.RateLimiter.{
  RateLimiterOptions, Readings, Limiter, is_expired_bucket, reset_of, track, maybe_sweep,
  open_window, consume,
}

pub length-maybe_sweep :
    (o : RateLimiterOptions) (now : ℕ) (l : Limiter)
    → length (maybe_sweep o now l).buckets ≤ length l.buckets
unfolding maybe_sweep
length-maybe_sweep o now l = ground (arith, length-sweep (is_expired_bucket now) l.buckets)

open_window-bounded :
    (o : RateLimiterOptions) (r : Readings) (key : String) (l : Limiter)
    → 0 < o.max_buckets
    → length l.buckets ≤ o.max_buckets
    → length (open_window o r key l).1.buckets ≤ o.max_buckets
unfolding open_window track
open_window-bounded o r key l pos h = omega (
  arith,
  length-put o.max_buckets reset_of (is_expired_bucket r.at_track) key
      (record { count = 1; reset_at = r.now + o.window_ms }) l.buckets pos h,
  length-maybe_sweep o r.at_sweep
      (record l { buckets = track o r.at_track key 1 (r.now + o.window_ms) l.buckets }),
)

-- With a positive cap, a call keeps the number of buckets within the cap, whatever key it is for
-- and whatever the clock reads.
pub consume-bounded :
    (o : RateLimiterOptions) (r : Readings) (key : String) (l : Limiter)
    → 0 < o.max_buckets
    → length l.buckets ≤ o.max_buckets
    → length (consume o r key l).1.buckets ≤ o.max_buckets
unfolding consume
consume-bounded o r key l pos h = elim (Option-cases (get key l.buckets)) [
  | inl e ↦ ground (arith, e, open_window-bounded o r key l pos h)
  | inr (b, e) ↦
      let counted = set key (record b { count = b.count + 1 }) l.buckets in
      ground (
        arith,
        e,
        open_window-bounded o r key l pos h,
        length-maybe_sweep o r.at_sweep (record l { rejected_count = l.rejected_count + 1 }),
        length-maybe_sweep o r.at_sweep (record l { buckets = counted }),
        length-set_present key (record b { count = b.count + 1 }) l.buckets,
      )
]
