-- ===== src/Tests/Access.antt =====
-- The rate limiter and the permissions.
use stock_pilot.Prelude.{ℕ, ◌≡◌, ◌≤◌, refl, List, [], ◌∷◌, arith, length}
use stock_pilot.Prelude.Map.{get}
use stock_pilot.Auth.RateLimiter.{RateLimiterOptions, Readings, Bucket, Limiter, consume}
use stock_pilot.Auth.RateLimiter.Bound.{consume-bounded}
use stock_pilot.Auth.RateLimiter.Window.{Call, calls_of, allowed_calls, window_budget}

abbrev options : RateLimiterOptions
options = record { window_ms = 100; max_writes = 3; max_buckets = 1; sweep_interval = 2 }

abbrev used : Bucket
used = record { count = 2; reset_at = 100 }

abbrev limiter : Limiter
limiter = record { buckets = ("10.0.0.1", used) ∷ []; calls_since_sweep = 0; rejected_count = 0 }

abbrev at_time : ℕ → Readings
at_time t = record { now = t; at_track = t; at_sweep = t }

consume-bounded_example : length (consume options (at_time 5) "10.0.0.2" limiter).1.buckets ≤ 1
consume-bounded_example =
    consume-bounded options (at_time 5) "10.0.0.2" limiter (omega arith) (omega arith)

-- Three calls of one address with one of another between them.
abbrev mixed : List Call
mixed =
    record { key = "10.0.0.1"; readings = at_time 5 }
    ∷ record { key = "10.0.0.2"; readings = at_time 6 }
    ∷ record { key = "10.0.0.1"; readings = at_time 7 }
    ∷ record { key = "10.0.0.1"; readings = at_time 8 }
    ∷ []

abbrev roomy : RateLimiterOptions
roomy = record options { max_buckets = 9 }

window_budget_example : allowed_calls roomy "10.0.0.1" mixed limiter ≡ 1
unfolding get calls_of
window_budget_example =
    window_budget roomy "10.0.0.1" used mixed limiter refl
      ((
        omega arith,
        omega arith,
        (omega arith, omega arith, (omega arith, omega arith, (omega arith, omega arith, tt))),
      ))
      (omega arith)
