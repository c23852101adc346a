-- ===== src/Auth/RateLimiter/Window.antt =====
-- The budget of one key in one window.
use Prim.Native.String.{String}
use text.Mathlib.Text.{◌==◌ as str_eq}
use Prim.Native.Nat.{min}
use stock_pilot.Prelude.{
  ℕ, suc, ◌≤◌, ◌∙◌, ap, sym, ◌&&◌, ◌+◌, ◌-◌, ◌<◌, ◌≡◌, some, List, [], ◌∷◌, ltb, length, arith, inl,
  inr, Bool-cases, if◌then◌else◌, ⊤, Option-cases, false,
}
use stock_pilot.Prelude.Map.{
  get, set, get-set_self, get-set_other, get-put_other, length-set, length-put_free, get-sweep,
}
use text.Mathlib.TextEquality.{eq_iff}
use stock_pilot.Auth.RateLimiter.Bound.{length-maybe_sweep}
use stock_pilot.Auth.RateLimiter.{
  RateLimiterOptions, Readings, Bucket, Limiter, is_expired_bucket, maybe_sweep, consume,
  open_window, track, reset_of,
}

get-maybe_sweep :
    (o : RateLimiterOptions) (k : String) (now : ℕ) (b : Bucket) (l : Limiter)
    → get k l.buckets ≡ some b
    → now < b.reset_at
    → get k (maybe_sweep o now l).buckets ≡ some b
unfolding maybe_sweep is_expired_bucket
get-maybe_sweep o k now b l e h =
    ground (arith, get-sweep (is_expired_bucket now) k b l.buckets e (ground arith))

-- One call inside the window: below the limit it is allowed and counted; at the limit it is
-- denied with the time that is left, and the count stays.
pub consume_live :
    (o : RateLimiterOptions) (r : Readings) (key : String) (b : Bucket) (l : Limiter)
    → get key l.buckets ≡ some b
    → r.now < b.reset_at
    → r.at_sweep < b.reset_at
    → let (res, l') = consume o r key l in
      (res.allowed ≡ ltb b.count o.max_writes)
      × (res.retry_after_ms ≡ (if ltb b.count o.max_writes then 0 else b.reset_at - r.now))
      × (get key l'.buckets
          ≡ some (if ltb b.count o.max_writes then record b { count = b.count + 1 } else b))
unfolding consume
consume_live o r key b l e now swept =
    let b' = record b { count = b.count + 1 } in
    ground (
      arith,
      get-set_self key b' l.buckets,
      get-maybe_sweep o key r.at_sweep b (record l { rejected_count = l.rejected_count + 1 }) e
          swept,
      get-maybe_sweep o key r.at_sweep b' (record l { buckets = set key b' l.buckets })
          (get-set_self key b' l.buckets) swept,
    )

-- A new bucket of another key, where there is room for it.
open_window_other :
    (o : RateLimiterOptions) (r : Readings) (key other : String) (b : Bucket) (l : Limiter)
    → str_eq other key ≡ false
    → get key l.buckets ≡ some b
    → r.at_sweep < b.reset_at
    → length l.buckets < o.max_buckets
    → get key (open_window o r other l).1.buckets ≡ some b
unfolding open_window track
open_window_other o r key other b l differ e swept free =
    get-maybe_sweep o key r.at_sweep b
      (record l { buckets = track o r.at_track other 1 (r.now + o.window_ms) l.buckets })
      (get-put_other o.max_buckets reset_of (is_expired_bucket r.at_track) key other
          (record { count = 1; reset_at = r.now + o.window_ms }) l.buckets differ free
        ∙ e)
      swept

-- A call of another key leaves the bucket of `key`, where there is room.
consume_other :
    (o : RateLimiterOptions) (r : Readings) (key other : String) (b : Bucket) (l : Limiter)
    → str_eq other key ≡ false
    → get key l.buckets ≡ some b
    → r.at_sweep < b.reset_at
    → length l.buckets < o.max_buckets
    → get key (consume o r other l).1.buckets ≡ some b
unfolding consume
consume_other o r key other b l differ e swept free = elim (Option-cases (get other l.buckets)) [
  | inl n ↦ ground (arith, n, open_window_other o r key other b l differ e swept free)
  | inr (c, n) ↦
      let counted = set other (record c { count = c.count + 1 }) l.buckets in
      ground (
        arith,
        n,
        open_window_other o r key other b l differ e swept free,
        get-maybe_sweep o key r.at_sweep b (record l { rejected_count = l.rejected_count + 1 }) e
            swept,
        get-maybe_sweep o key r.at_sweep b (record l { buckets = counted })
            (get-set_other key other (record c { count = c.count + 1 }) l.buckets differ ∙ e) swept,
      )
]

-- A call adds at most one bucket.
length-consume :
    (o : RateLimiterOptions) (r : Readings) (key : String) (l : Limiter)
    → length l.buckets < o.max_buckets
    → length (consume o r key l).1.buckets ≤ suc (length l.buckets)
unfolding consume open_window track
length-consume o r key l free =
    let first : Bucket = record { count = 1; reset_at = r.now + o.window_ms } in
    let opened =
      length-put_free o.max_buckets reset_of (is_expired_bucket r.at_track) key first l.buckets
        free in
    let opened_then =
      length-maybe_sweep o r.at_sweep
        (record l { buckets = track o r.at_track key 1 (r.now + o.window_ms) l.buckets }) in
    elim (Option-cases (get key l.buckets)) [
      | inl n ↦ ground (arith, n, opened, opened_then)
      | inr (c, n) ↦
          let counted = set key (record c { count = c.count + 1 }) l.buckets in
          ground (
            arith,
            n,
            opened,
            opened_then,
            length-set key (record c { count = c.count + 1 }) l.buckets,
            length-maybe_sweep o r.at_sweep (record l { rejected_count = l.rejected_count + 1 }),
            length-maybe_sweep o r.at_sweep (record l { buckets = counted }),
          )
    ]

-- A call, and how many calls of a sequence are those of one key.
pub record Call : Type 0 where
  pub key : String
  pub readings : Readings

unfoldable pub calls_of : String → List Call → ℕ
calls_of key [] = 0
calls_of key (c ∷ cs) = let rest = calls_of key cs in if str_eq c.key key then suc rest else rest

-- The calls of one key that are allowed in a sequence of calls of any keys.
unfoldable pub allowed_calls : RateLimiterOptions → String → List Call → Limiter → ℕ
allowed_calls o key [] l = 0
allowed_calls o key (c ∷ cs) l =
    let (res, l') = consume o c.readings c.key l in
    let rest = allowed_calls o key cs l' in
    if str_eq c.key key && res.allowed then suc rest else rest

-- Every reading of the clock lies before a moment.
abbrev pub Before : ℕ → List Call → Type 0
Before t [] = ⊤
Before t (c ∷ cs) = (c.readings.now < t) × (c.readings.at_sweep < t) × Before t cs

budget_step : (c m n : ℕ) → c < m → suc (min n (m - (c + 1))) ≡ min (suc n) (m - c)
budget_step c m n h = omega arith

-- In a sequence of calls of any keys, all within the window of `key` and with room for a bucket of
-- each: the calls of `key` that are allowed are as many as the limit leaves after those already
-- counted, and no more; all its others are denied.
pub window_budget :
    (o : RateLimiterOptions) (key : String) (b : Bucket) (cs : List Call) (l : Limiter)
    → get key l.buckets ≡ some b
    → Before b.reset_at cs
    → length l.buckets + length cs ≤ o.max_buckets
    → allowed_calls o key cs l ≡ min (calls_of key cs) (o.max_writes - b.count)
unfolding allowed_calls calls_of
window_budget o key b [] l e h free = omega arith
window_budget o key b (c ∷ cs) l e h free =
    let l' = (consume o c.readings c.key l).1 in
    let grown = length-consume o c.readings c.key l (omega arith) in
    elim (Bool-cases (str_eq c.key key)) [
      | inr differ ↦ rw differ (
          window_budget o key b cs l'
            (consume_other o c.readings key c.key b l differ e h.1 (omega arith)) h.2
            (omega (arith, grown)))
      | inl own ↦
          let same : c.key ≡ key = ground (arith, eq_iff c.key key) in
          let live =
            consume_live o c.readings c.key b l (ap (λ k. get k l.buckets) same ∙ e) h.0 h.1 in
          let kept = ap (λ k. get k l'.buckets) (sym same) ∙ live.2 in
          elim (Bool-cases (ltb b.count o.max_writes)) [
            | inl open_still ↦
                let rest =
                  window_budget o key (record b { count = b.count + 1 }) cs l'
                    (rw open_still at kept) h.2 (omega (arith, grown)) in
                rw (own, live.0, open_still) (ground (arith, rest))
            | inr full ↦
                let rest =
                  window_budget o key b cs l' (rw full at kept) h.2 (omega (arith, grown)) in
                rw (own, live.0, full) (ground (arith, rest))
          ]
    ]
