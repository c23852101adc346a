-- ===== src/Integrations/Reaches.antt =====
-- Where steps of deliveries lead: a delivery that is done stays so, and calls that come by
-- themselves keep the limit of attempts.
use mathlib.Core.Path.{subst}
use stock_pilot.Prelude.{
  ℕ, ◌≤◌, ◌&&◌, ◌+◌, ◌≡◌, refl, Bool, true, false, Option, none, some, List, [], ◌∷◌, arith, length,
  count,
}
use stock_pilot.Store.Monad.{Store}
use stock_pilot.Orders.Consistency.{IsConsistent}
use stock_pilot.Integrations.Delivery.{max_automatic_delivery_attempts}
use stock_pilot.Integrations.Steps.{
  DeliveryState, done, DeliveryStep, stays, view, is_done, IsKeyed, Moves, unlimited, attempts_of,
  step-attempts_of,
}
use stock_pilot.Integrations.External.{DeliveryEvent, arrived, retried, queued}

-- The limit of the calls that come by themselves.
abbrev pub automatic : Option ℕ
automatic = some max_automatic_delivery_attempts

-- A user may retry at any time, the calls that come by themselves have a limit.
unfoldable pub limit_of : DeliveryEvent → Option ℕ
limit_of (retried auth id key) = none
limit_of _ = automatic

unfoldable pub is_automatic : DeliveryEvent → Bool
is_automatic (retried auth id key) = false
is_automatic _ = true

automatic_limit : (e : DeliveryEvent) → is_automatic e ≡ true → limit_of e ≡ automatic
unfolding is_automatic limit_of
automatic_limit (retried auth id key) h = cc
automatic_limit (arrived org actor external payload) h = refl
automatic_limit (queued org actor id) h = refl

unfoldable pub all_automatic : List (ℕ × ℕ × DeliveryEvent) → Bool
all_automatic [] = true
all_automatic ((now, created, e) ∷ es) = is_automatic e && all_automatic es

-- A call that comes by itself keeps the limit.
pub Moves-attempts_of :
    (e : DeliveryEvent) (s t : Store) (id : ℕ)
    → is_automatic e ≡ true
    → Moves (limit_of e) s t
    → attempts_of (view id s) ≤ max_automatic_delivery_attempts
    → attempts_of (view id t) ≤ max_automatic_delivery_attempts
Moves-attempts_of e s t id own m h =
    step-attempts_of max_automatic_delivery_attempts (view id s) (view id t)
      (subst (λ limit. DeliveryStep limit (view id s) (view id t)) (automatic_limit e own)
        (m.steps id))
      (omega arith) h

-- Steps one after the other.
pub data Reaches : DeliveryState → DeliveryState → Type 0 where
  here : {x : DeliveryState} → Reaches x x
  further : {x y z : DeliveryState} → DeliveryStep none x y → Reaches y z → Reaches x z

-- A delivery that is done stays as it is.
step_done :
    (n : ℕ) (o : Option ℕ) (y : DeliveryState) → DeliveryStep none (done n o) y → y ≡ done n o
step_done n o _ stays = refl

pub Reaches-done :
    (x y : DeliveryState) (n : ℕ) (o : Option ℕ) → x ≡ done n o → Reaches x y → y ≡ done n o
Reaches-done x _ n o h here = h
Reaches-done x z n o h (further {y = y} step rest) =
    Reaches-done y z n o (step_done n o y (subst (λ v. DeliveryStep none v y) h step)) rest

-- Each delivery has gone its way through the state machine, the orders are more by the deliveries
-- that got done, and stock, ledger and orders are consistent.
pub record Delivered (s t : Store) : Type 0 where
  pub reaches : (id : ℕ) → Reaches (view id s) (view id t)
  pub accounts :
      length t.orders + count is_done s.deliveries ≡ length s.orders + count is_done t.deliveries
  pub consistent : IsConsistent t
  pub keyed : IsKeyed t.deliveries

pub Delivered-after :
    (limit : Option ℕ) (s t u : Store)
    → IsConsistent s
    → IsKeyed s.deliveries
    → Moves limit s t
    → Delivered t u
    → Delivered s u
Delivered-after limit s t u c k m d = record {
  reaches = λ id. further (unlimited limit _ _ (m.steps id)) (d.reaches id);
  accounts = omega (arith, m.accounts, d.accounts);
  consistent = d.consistent;
  keyed = d.keyed;
}
