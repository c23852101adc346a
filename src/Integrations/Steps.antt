-- ===== src/Integrations/Steps.antt =====
-- A delivery as a state machine: it is not there, open after a number of attempts, or done with its
-- order, and how a call moves every delivery of the store.
use stock_pilot.Prelude.{
  ℕ, ◌+◌, ◌==◌, ◌≤◌, ◌≡◌, ◌≢◌, refl, ap, sym, Bool, true, false, Option, none, some, List, ◌∷◌,
  arith, length, count, bit, find_first, update_where, count-update_where, count-change,
  count-absent, find_first-write, find_first-elsewhere, if◌then◌else◌, Bool-cases, inl, inr,
}
use mathlib.Core.Path.{subst}
use stock_pilot.Store.Rows.{Delivery}
use stock_pilot.Store.Monad.{Store}
use stock_pilot.Orders.Consistency.{IsConsistent}
use stock_pilot.Integrations.Delivery.{is_delivery, is_succeeded, reached}

pub data DeliveryState : Type 0 where
  absent : DeliveryState
  pending : ℕ → DeliveryState
  done : ℕ → Option ℕ → DeliveryState

unfoldable pub state_of_row : Delivery → DeliveryState
state_of_row d = if is_succeeded d.status then done d.attempts d.sales_order else pending d.attempts

unfoldable pub view_row : Option Delivery → DeliveryState
view_row none = absent
view_row (some d) = state_of_row d

-- What the store says of the delivery `id`.
abbrev pub view : ℕ → Store → DeliveryState
view id s = view_row (find_first (is_delivery id) s.deliveries)

-- One attempt, or none, under a limit of attempts or without one. Nothing leads out of `done`.
pub data DeliveryStep (limit : Option ℕ) : DeliveryState → DeliveryState → Type 0 where
  stays : {x : DeliveryState} → DeliveryStep limit x x
  arrived_pending : DeliveryStep limit absent (pending 1)
  arrived_done : {order : ℕ} → DeliveryStep limit absent (done 1 (some order))
  retried_pending :
      {n : ℕ} → reached limit n ≡ false → DeliveryStep limit (pending n) (pending (n + 1))
  retried_done :
      {n order : ℕ}
      → reached limit n ≡ false
      → DeliveryStep limit (pending n) (done (n + 1) (some order))

-- Without a limit every step is allowed.
pub unlimited :
    (limit : Option ℕ) (x y : DeliveryState) → DeliveryStep limit x y → DeliveryStep none x y
unfolding reached
unlimited limit _ _ stays = stays
unlimited limit _ _ arrived_pending = arrived_pending
unlimited limit _ _ arrived_done = arrived_done
unlimited limit _ _ (retried_pending h) = retried_pending refl
unlimited limit _ _ (retried_done h) = retried_done refl

unfoldable pub attempts_of : DeliveryState → ℕ
attempts_of absent = 0
attempts_of (pending n) = n
attempts_of (done n order) = n

-- A step under a limit does not go beyond it.
pub step-attempts_of :
    (limit : ℕ) (x y : DeliveryState)
    → DeliveryStep (some limit) x y
    → 1 ≤ limit
    → attempts_of x ≤ limit
    → attempts_of y ≤ limit
unfolding attempts_of reached
step-attempts_of limit _ _ stays one h = h
step-attempts_of limit _ _ arrived_pending one h = one
step-attempts_of limit _ _ arrived_done one h = one
step-attempts_of limit _ _ (retried_pending r) one h = ground arith
step-attempts_of limit _ _ (retried_done r) one h = ground arith

abbrev pub IsKeyed : List Delivery → Type 0
IsKeyed ds = (id : ℕ) → count (is_delivery id) ds ≤ 1

abbrev pub is_done : Delivery → Bool
is_done d = is_succeeded d.status

-- Each delivery makes a step, every delivery that gets done has one new order and no other order is
-- new, stock and ledger stay consistent, and identifiers stay unique.
pub record Moves (limit : Option ℕ) (s t : Store) : Type 0 where
  pub steps : (id : ℕ) → DeliveryStep limit (view id s) (view id t)
  pub accounts :
      length t.orders + count is_done s.deliveries ≡ length s.orders + count is_done t.deliveries
  pub keeps : IsConsistent s → IsConsistent t
  pub keyed : IsKeyed s.deliveries → IsKeyed t.deliveries

pub Moves-refl : {limit : Option ℕ} (s : Store) → Moves limit s s
Moves-refl s = record { steps = λ id. stays; accounts = refl; keeps = λ c. c; keyed = λ k. k }

is_delivery-other :
    (id j : ℕ) (d : Delivery) → j ≢ id → is_delivery id d ≡ true → is_delivery j d ≡ false
is_delivery-other id j d ne h = ground (arith, ne)

open_row : (d : Delivery) → is_succeeded d.status ≡ false → state_of_row d ≡ pending d.attempts
unfolding state_of_row
open_row d h = rw (state_of_row, h) refl

same_key :
    (id j : ℕ) (change : Delivery → Delivery) (y : Delivery)
    → ((x : Delivery) → (change x).id ≡ x.id)
    → is_delivery j (change y) ≡ is_delivery j y
same_key id j change y keeps_id = ap (λ i. i == j) (keeps_id y)

module _ {limit : Option ℕ} (id : ℕ) (change : Delivery → Delivery)
    (keeps_id : (x : Delivery) → (change x).id ≡ x.id) where
  step_own :
      (d : Delivery) (ds : List Delivery)
      → find_first (is_delivery id) ds ≡ some d
      → is_succeeded d.status ≡ false
      → DeliveryStep limit (pending d.attempts) (state_of_row (change d))
      → DeliveryStep limit
          (view_row (find_first (is_delivery id) ds))
          (view_row (find_first (is_delivery id) (update_where (is_delivery id) change ds)))
  unfolding view_row
  step_own d ds found pend step =
      let found' =
        find_first-write (is_delivery id) change ds d (λ y. same_key id id change y keeps_id)
          found in
      subst
        (λ o.
          DeliveryStep limit (view_row o)
            (view_row (find_first (is_delivery id) (update_where (is_delivery id) change ds))))
        (sym found)
        (subst (λ o. DeliveryStep limit (state_of_row d) (view_row o)) (sym found')
          (subst (λ x. DeliveryStep limit x (state_of_row (change d))) (sym (open_row d pend))
            step))

  step_other :
      (j : ℕ) (ds : List Delivery)
      → j ≢ id
      → DeliveryStep limit
          (view_row (find_first (is_delivery j) ds))
          (view_row (find_first (is_delivery j) (update_where (is_delivery id) change ds)))
  step_other j ds ne =
      subst (λ o. DeliveryStep limit (view_row (find_first (is_delivery j) ds)) (view_row o))
        (sym (
          find_first-elsewhere (is_delivery id) (is_delivery j) change ds
            (λ y. same_key id j change y keeps_id) (λ y h. is_delivery-other id j y ne h)))
        stays

  step_any :
      (d : Delivery) (ds : List Delivery) (j : ℕ)
      → find_first (is_delivery id) ds ≡ some d
      → is_succeeded d.status ≡ false
      → DeliveryStep limit (pending d.attempts) (state_of_row (change d))
      → DeliveryStep limit
          (view_row (find_first (is_delivery j) ds))
          (view_row (find_first (is_delivery j) (update_where (is_delivery id) change ds)))
  step_any d ds j found pend step = elim (Bool-cases (j == id)) [
    | inl e ↦
        let same : id ≡ j = ground arith in
        subst
          (λ i.
            DeliveryStep limit (view_row (find_first (is_delivery i) ds))
              (view_row (find_first (is_delivery i) (update_where (is_delivery id) change ds))))
          same (step_own d ds found pend step)
    | inr e ↦ step_other j ds (ground arith)
  ]

  -- A write to one row that is not done, by a change that keeps its identifier and adds an attempt.
  pub write-Moves :
      (d : Delivery) (s t : Store)
      → IsKeyed s.deliveries
      → find_first (is_delivery id) s.deliveries ≡ some d
      → is_succeeded d.status ≡ false
      → t.deliveries ≡ update_where (is_delivery id) change s.deliveries
      → DeliveryStep limit (pending d.attempts) (state_of_row (change d))
      → length t.orders ≡ length s.orders + bit (is_succeeded (change d).status)
      → (IsConsistent s → IsConsistent t)
      → Moves limit s t
  write-Moves d s t keyed found pend rows step orders consistent = record {
    steps = λ j. rw rows (step_any d s.deliveries j found pend step);
    accounts = rw rows (
        counted _ _ _ _ _ _ orders
          (count-update_where (is_delivery id) is_done change s.deliveries d (keyed id) found)
          (ap bit pend));
    keeps = consistent;
    keyed = λ k j.
        rw
          (
            rows,
            count-change (is_delivery id) (is_delivery j) change s.deliveries
                (λ y. same_key id j change y keeps_id),
          )
          (k j);
  }
    where
      counted : (a b x y u v : ℕ) → b ≡ a + v → y + u ≡ x + v → u ≡ 0 → b + x ≡ a + y
      counted a b x y u v p q r = omega arith

new_row :
    {limit : Option ℕ} (d : Delivery) (j : ℕ) (ds : List Delivery)
    → find_first (is_delivery d.id) ds ≡ none
    → DeliveryStep limit absent (state_of_row d)
    → DeliveryStep limit
        (view_row (find_first (is_delivery j) ds))
        (view_row (find_first (is_delivery j) (d ∷ ds)))
unfolding find_first view_row
new_row d j ds fresh step = elim (Bool-cases (d.id == j)) [
  | inl e ↦
      let same : d.id ≡ j = ground arith in
      let gone : find_first (is_delivery j) ds ≡ none =
        subst (λ i. find_first (is_delivery i) ds ≡ none) same fresh in
      rw (e, gone) step
  | inr e ↦ rw e stays
]

new_row-IsKeyed :
    (d : Delivery) (ds : List Delivery)
    → find_first (is_delivery d.id) ds ≡ none
    → IsKeyed ds
    → IsKeyed (d ∷ ds)
unfolding count
new_row-IsKeyed d ds fresh k j = elim (Bool-cases (d.id == j)) [
  | inl e ↦
      let same : d.id ≡ j = ground arith in
      let none_yet : count (is_delivery j) ds ≡ 0 =
        subst (λ i. count (is_delivery i) ds ≡ 0) same (count-absent (is_delivery d.id) ds fresh) in
      omega (arith, ap bit e)
  | inr e ↦ omega (arith, ap bit e, k j)
]

-- A row under a new identifier.
pub create-Moves :
    {limit : Option ℕ} (d : Delivery) (s t : Store)
    → find_first (is_delivery d.id) s.deliveries ≡ none
    → t.deliveries ≡ d ∷ s.deliveries
    → DeliveryStep limit absent (state_of_row d)
    → length t.orders ≡ length s.orders + bit (is_succeeded d.status)
    → (IsConsistent s → IsConsistent t)
    → Moves limit s t
unfolding count
create-Moves d s t fresh rows step orders consistent = record {
  steps = λ j. rw rows (new_row d j s.deliveries fresh step);
  accounts = rw rows (omega (arith, orders));
  keeps = consistent;
  keyed = λ k j. rw rows (new_row-IsKeyed d s.deliveries fresh k j);
}
