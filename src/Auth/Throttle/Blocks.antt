-- ===== src/Auth/Throttle/Blocks.antt =====
-- When a pair is blocked: at the limit of failures in one window, and until the block is over.
use Prim.Native.String.{String}
use mathlib.Core.Path.{subst}
use stock_pilot.Prelude.Map.{get, get-put_self, get-sweep}
use stock_pilot.Prelude.{
  ℕ, suc, ◌+◌, ◌≤◌, ◌<◌, ◌≡◌, refl, ap, sym, ◌∙◌, true, false, ◌&&◌, not, none, some, List, [], ◌∷◌,
  ◌++◌, leb, length, length-append, arith, ⊤, inl, inr, Option-cases, Bool-cases,
}
use stock_pilot.Auth.Throttle.{
  ThrottleEntry, ThrottleOptions, Throttle, FailureReadings, is_recent, recent, some_recent,
  is_blocked, is_idle, activity, maybe_sweep_idle, entry_or_new, with_failure, record_failure_of,
  check_entry, check_block, check_attempt_of,
}

-- Failures one after the other.
unfoldable pub fail_all : ThrottleOptions → String → List FailureReadings → Throttle → Throttle
fail_all o key [] l = l
fail_all o key (r ∷ rs) l = fail_all o key rs (record_failure_of o r key l)

-- The clock of a failure lies in the window that begins at `start`.
abbrev pub Inside : ℕ → ℕ → FailureReadings → Type 0
Inside start window r = (start ≤ r.now) × (r.now < start + window) × (r.at_sweep < start + window)

abbrev pub AllInside : ℕ → ℕ → List FailureReadings → Type 0
AllInside start window [] = ⊤
AllInside start window (r ∷ rs) = Inside start window r × AllInside start window rs

abbrev From : ℕ → List ℕ → Type 0
From start [] = ⊤
From start (at ∷ ats) = (start ≤ at) × From start ats

recent-From :
    (window now start : ℕ) (ats : List ℕ)
    → From start ats
    → now < start + window
    → recent window now ats ≡ ats
unfolding recent is_recent
recent-From window now start [] f h = refl
recent-From window now start (at ∷ ats) f h = ground (arith, recent-From window now start ats f.1 h)

From-append :
    (start now : ℕ) (ats : List ℕ) → From start ats → start ≤ now → From start (ats ++ (now ∷ []))
From-append start now [] f h = (h, tt)
From-append start now (at ∷ ats) f h = (f.0, From-append start now ats f.1 h)

some_recent-append :
    (window now at : ℕ) (ats : List ℕ)
    → now < at + window
    → some_recent window now (ats ++ (at ∷ [])) ≡ true
unfolding some_recent is_recent
some_recent-append window now at [] h = ground arith
some_recent-append window now at (x ∷ ats) h =
    ground (arith, some_recent-append window now at ats h)

-- The failures of a pair that is not blocked, all from `start` on.
unfoldable pub Counted : ℕ → ℕ → String → Throttle → Type 0
Counted start k key l =
    (ats : List ℕ) × (entry_or_new (get key l.entries)
      ≡ record { failures = ats; blocked_until = none })
    × (length ats ≡ k)
    × From start ats

-- An entry stays through a sweep that is within the window of its last failure.
with_failure-is_idle :
    (o : ThrottleOptions) (now t : ℕ) (e : ThrottleEntry)
    → t < now + o.window_ms
    → is_idle o t (with_failure o now e) ≡ false
unfolding is_idle with_failure
with_failure-is_idle o now t e h =
    let live = some_recent-append o.window_ms t now (recent o.window_ms now e.failures) h in
    elim (Bool-cases (
      leb o.limit (length (recent o.window_ms now e.failures ++ (now ∷ [])))
      && not (is_blocked now e.blocked_until))) [
        | inl b ↦ rw (is_idle, with_failure, b) (ground (arith, live))
        | inr b ↦ rw (is_idle, with_failure, b) (ground (arith, live))
      ]

get-maybe_sweep_idle :
    (o : ThrottleOptions) (key : String) (now : ℕ) (e : ThrottleEntry) (l : Throttle)
    → get key l.entries ≡ some e
    → is_idle o now e ≡ false
    → get key (maybe_sweep_idle o now l).entries ≡ some e
unfolding maybe_sweep_idle
get-maybe_sweep_idle o key now e l h live =
    ground (arith, get-sweep (is_idle o now) key e l.entries h live)

-- One more failure, with the entry that it leaves.
failed_once :
    (o : ThrottleOptions) (r : FailureReadings) (key : String) (l : Throttle) (start : ℕ)
    (ats : List ℕ)
    → entry_or_new (get key l.entries) ≡ record { failures = ats; blocked_until = none }
    → From start ats
    → Inside start o.window_ms r
    → get key (record_failure_of o r key l).entries
      ≡ some (with_failure o r.now (record { failures = ats; blocked_until = none }))
unfolding record_failure_of
failed_once o r key l start ats e f h =
    let entry : ThrottleEntry = with_failure o r.now (entry_or_new (get key l.entries)) in
    get-maybe_sweep_idle o key r.at_sweep entry _
      (get-put_self o.max_keys activity (is_idle o r.at_track) key entry l.entries)
      (with_failure-is_idle o r.now r.at_sweep (entry_or_new (get key l.entries)) (omega arith))
    ∙ ap (λ x. some (with_failure o r.now x)) e

with_failure-below :
    (o : ThrottleOptions) (now start : ℕ) (ats : List ℕ)
    → From start ats
    → now < start + o.window_ms
    → suc (length ats) < o.limit
    → with_failure o now (record { failures = ats; blocked_until = none })
      ≡ record { failures = ats ++ (now ∷ []); blocked_until = none }
unfolding with_failure is_blocked
with_failure-below o now start ats f h below =
    rw (with_failure, recent-From o.window_ms now start ats f h)
      (ground (arith, length-append ats (now ∷ [])))

with_failure-at :
    (o : ThrottleOptions) (now start : ℕ) (ats : List ℕ)
    → From start ats
    → now < start + o.window_ms
    → suc (length ats) ≡ o.limit
    → with_failure o now (record { failures = ats; blocked_until = none })
      ≡ record { failures = ats ++ (now ∷ []); blocked_until = some (now + o.block_ms) }
unfolding with_failure is_blocked
with_failure-at o now start ats f h below =
    rw (with_failure, recent-From o.window_ms now start ats f h)
      (ground (arith, length-append ats (now ∷ [])))

pub record_failure_of-Counted :
    (o : ThrottleOptions) (r : FailureReadings) (key : String) (l : Throttle) (start k : ℕ)
    → Counted start k key l
    → Inside start o.window_ms r
    → suc k < o.limit
    → Counted start (suc k) key (record_failure_of o r key l)
unfolding Counted entry_or_new
record_failure_of-Counted o r key l start k (ats, e, n, f) h below = (
  ats ++ (r.now ∷ []),
  ap entry_or_new (failed_once o r key l start ats e f h)
      ∙ with_failure-below o r.now start ats f h.1 (omega (arith, n)),
  length-append ats (r.now ∷ []) ∙ omega (arith, n),
  From-append start r.now ats f h.0,
)

pub fail_all-Counted :
    (o : ThrottleOptions) (rs : List FailureReadings) (key : String) (l : Throttle) (start k : ℕ)
    → Counted start k key l
    → AllInside start o.window_ms rs
    → k + length rs < o.limit
    → Counted start (k + length rs) key (fail_all o key rs l)
unfolding fail_all
fail_all-Counted o [] key l start k c h below =
    let e : k ≡ k + 0 = omega arith in subst (λ n. Counted start n key l) e c
fail_all-Counted o (r ∷ rs) key l start k c h below =
    let e : suc k + length rs ≡ k + suc (length rs) = omega arith in
    subst (λ n. Counted start n key (fail_all o key rs (record_failure_of o r key l))) e
      (fail_all-Counted o rs key (record_failure_of o r key l) start (suc k)
        (record_failure_of-Counted o r key l start k c h.0 (omega arith)) h.1 (omega arith))

-- A pair whose entry is not blocked goes on, and one whose entry is does not until its time.
check-open :
    (t k start : ℕ) (key : String) (l : Throttle)
    → Counted start k key l
    → (check_attempt_of t key l).0 ≡ true
unfolding check_attempt_of check_entry check_block Counted entry_or_new
check-open t k start key l (ats, e, _, _) = elim (Option-cases (get key l.entries)) [
  | inl n ↦ rw n refl
  | inr (x, n) ↦
      let b : x.blocked_until ≡ none = ap (λ y. y.blocked_until) (ap entry_or_new (sym n) ∙ e) in
      rw (n, b) refl
]

check-blocked :
    (t u : ℕ) (key : String) (l : Throttle) (ats : List ℕ)
    → get key l.entries ≡ some (record { failures = ats; blocked_until = some u })
    → (check_attempt_of t key l).0 ≡ leb u t
unfolding check_attempt_of check_entry check_block
check-blocked t u key l ats e = rw e (ground arith)

-- Failures of a pair that has none yet, all within one window by the clock: below the limit the pair
-- may go on at any time; with the failure that reaches the limit it is blocked from then on until
-- the length of a block after that failure, and free again afterwards.
pub failures_block :
    (o : ThrottleOptions) (rs : List FailureReadings) (r : FailureReadings) (key : String)
    (l : Throttle) (start t : ℕ)
    → get key l.entries ≡ none
    → AllInside start o.window_ms rs
    → Inside start o.window_ms r
    → suc (length rs) ≡ o.limit
    → ((check_attempt_of t key (fail_all o key rs l)).0 ≡ true)
      × ((check_attempt_of t key (record_failure_of o r key (fail_all o key rs l))).0
          ≡ leb (r.now + o.block_ms) t)
unfolding Counted entry_or_new
failures_block o rs r key l start t fresh hs h full =
    let none_yet : Counted start 0 key l = ([], rw fresh refl, refl, tt) in
    let c = fail_all-Counted o rs key l start 0 none_yet hs (omega arith) in
    (
      check-open t _ start key _ c,
      check-blocked t (r.now + o.block_ms) key _ _ (
          failed_once o r key _ start c.0 c.1 c.3 h
          ∙ ap some (with_failure-at o r.now start c.0 c.3 h.1 (omega (arith, c.2, full)))),
    )
