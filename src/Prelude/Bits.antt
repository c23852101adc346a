-- ===== src/Prelude/Bits.antt =====
-- Masks of ones: what `&` and `|` with the two halves of a word do, for every width.
use Prim.Native.Nat.{
  ℕ, zero, suc, ◌+◌, ◌-◌, ◌*◌, ◌/◌, ◌%◌, ◌^◌, ◌≤◌, ◌<◌, min, max, bit_and, bit_or, digits,
  bit_and-bitwise, bit_or-bitwise,
}
use mathlib.Core.Path.{◌≡◌, refl, ap, ◌∙◌, sym}
use native.Mathlib.Nat.{mul_comm, mul_assoc, pow-suc, div-div-eq-div-mul}
use native.Mathlib.Omega.{arith}

-- An operation on binary digits: `last` is its result where the left number has run out, `join` the
-- operation on two digits.
module _ (op : ℕ → ℕ → ℕ) (last : ℕ → ℕ) (join : ℕ → ℕ → ℕ)
    (law : (x y : ℕ) → op x y ≡ digits last join x x y)
    (ended : (y : ℕ) → last y ≡ last (y / 2) * 2 + join 0 (y % 2)) where
  digits-end : (rounds y : ℕ) → digits last join rounds 0 y ≡ last y
  digits-end zero y = refl
  digits-end (suc rounds) y = refl

  spare_round :
      (rounds x y : ℕ)
      → x ≤ rounds
      → digits last join (suc rounds) x y ≡ digits last join rounds x y
  spare_round rounds zero y h = sym (digits-end rounds y)
  spare_round zero (suc x) y h = absurd (omega arith)
  spare_round (suc rounds) (suc x) y h =
      ap (λ v. v * 2 + join (suc x % 2) (y % 2))
        (spare_round rounds (suc x / 2) (y / 2) (omega arith))

  spare_rounds : (spare x y : ℕ) → digits last join (spare + x) x y ≡ digits last join x x y
  spare_rounds zero x y =
      let e : 0 + x ≡ x = omega arith in ap (λ rounds. digits last join rounds x y) e
  spare_rounds (suc spare) x y =
      let e : suc spare + x ≡ suc (spare + x) = omega arith in
      ap (λ rounds. digits last join rounds x y) e
      ∙ spare_round (spare + x) x y (omega arith)
      ∙ spare_rounds spare x y

  halves : (x y : ℕ) → digits last join x (suc x / 2) y ≡ op (suc x / 2) y
  halves x y =
      let e : x ≡ (x - suc x / 2) + suc x / 2 = omega arith in
      ap (λ rounds. digits last join rounds (suc x / 2) y) e
      ∙ spare_rounds (x - suc x / 2) (suc x / 2) y
      ∙ sym (law (suc x / 2) y)

  lowest_digit : (x y : ℕ) → op x y ≡ op (x / 2) (y / 2) * 2 + join (x % 2) (y % 2)
  lowest_digit zero y = law 0 y ∙ ended y ∙ ap (λ v. v * 2 + join 0 (y % 2)) (sym (law 0 (y / 2)))
  lowest_digit (suc x) y =
      law (suc x) y ∙ ap (λ v. v * 2 + join (suc x % 2) (y % 2)) (halves x (y / 2))

  -- With no digit on the right, for a join that answers the left digit or zero.
  right_end :
      (f : ℕ → ℕ)
      → op 0 0 ≡ f 0
      → ((x : ℕ) → f (x / 2) * 2 + join (x % 2) 0 ≡ f x)
      → (bound x : ℕ) → x ≤ bound
      → op x 0 ≡ f x
  right_end f start digit bound zero h = start
  right_end f start digit zero (suc x) h = absurd (omega arith)
  right_end f start digit (suc bound) (suc x) h =
      lowest_digit (suc x) 0
      ∙ ap (λ v. v * 2 + join (suc x % 2) 0)
          (right_end f start digit bound (suc x / 2) (omega arith))
      ∙ digit (suc x)

and_step : (x y : ℕ) → bit_and x y ≡ bit_and (x / 2) (y / 2) * 2 + min (x % 2) (y % 2)
and_step = lowest_digit bit_and (λ _. zero) min bit_and-bitwise (λ y. omega arith)

or_step : (x y : ℕ) → bit_or x y ≡ bit_or (x / 2) (y / 2) * 2 + max (x % 2) (y % 2)
or_step = lowest_digit bit_or (λ y. y) max bit_or-bitwise (λ y. omega arith)

and_zero : (x : ℕ) → bit_and x 0 ≡ 0
and_zero x =
    right_end bit_and (λ _. zero) min bit_and-bitwise (λ y. omega arith) (λ _. zero)
      (bit_and-bitwise 0 0) (λ x. omega arith) x x (omega arith)

or_zero : (x : ℕ) → bit_or x 0 ≡ x
or_zero x =
    right_end bit_or (λ y. y) max bit_or-bitwise (λ y. omega arith) (λ x. x) (bit_or-bitwise 0 0)
      (λ x. omega arith) x x (omega arith)

-- One more digit below.
and_even : (x m : ℕ) → bit_and x (m * 2) ≡ bit_and (x / 2) m * 2
and_even x m =
    let e : m * 2 / 2 ≡ m = omega arith in
    omega (arith, and_step x (m * 2), ap (λ v. bit_and (x / 2) v) e)

and_odd : (x m : ℕ) → bit_and x (m * 2 + 1) ≡ bit_and (x / 2) m * 2 + x % 2
and_odd x m =
    let e : (m * 2 + 1) / 2 ≡ m = omega arith in
    omega (arith, and_step x (m * 2 + 1), ap (λ v. bit_and (x / 2) v) e)

or_even : (x z : ℕ) → bit_or (x * 2) z ≡ bit_or x (z / 2) * 2 + z % 2
or_even x z =
    let d : x * 2 / 2 ≡ x = omega arith in
    omega (arith, or_step (x * 2) z, ap (λ v. bit_or v (z / 2)) d)

pub pow_pos : (k : ℕ) → 1 ≤ 2 ^ k
pow_pos zero = omega arith
pow_pos (suc k) = omega (arith, pow_pos k)

ones_split : (k : ℕ) → 2 ^ suc k - 1 ≡ (2 ^ k - 1) * 2 + 1
ones_split k = omega (arith, pow_pos k)

-- `x & (2^n - 1)` keeps a number of n digits.
and_ones : (n x : ℕ) → x < 2 ^ n → bit_and x (2 ^ n - 1) ≡ x
and_ones zero x h = and_zero x ∙ omega arith
and_ones (suc n) x h =
    ap (λ m. bit_and x m) (ones_split n)
    ∙ and_odd x (2 ^ n - 1)
    ∙ omega (arith, and_ones n (x / 2) (omega arith))

shift : (m k : ℕ) → m * 2 ^ suc k ≡ m * 2 ^ k * 2
shift m k = ap (λ p. m * p) (pow-suc 2 k) ∙ sym (mul_assoc m (2 ^ k) 2)

halved : (k x : ℕ) → x / 2 ^ suc k ≡ x / 2 / 2 ^ k
halved k x =
    ap (λ p. x / p) (pow-suc 2 k ∙ mul_comm (2 ^ k) 2) ∙ sym (div-div-eq-div-mul x 2 (2 ^ k))

mul_one_pow : (y : ℕ) → y * 2 ^ 0 ≡ y
mul_one_pow y = omega arith

-- `&` with n ones above k zeros clears the k lower digits.
pub and_mask : (k n x : ℕ) → x / 2 ^ k < 2 ^ n → bit_and x ((2 ^ n - 1) * 2 ^ k) ≡ x / 2 ^ k * 2 ^ k
and_mask zero n x h = ap (λ m. bit_and x m) (omega arith) ∙ and_ones n x (omega arith) ∙ omega arith
and_mask (suc k) n x h =
    ap (λ m. bit_and x m) (shift (2 ^ n - 1) k)
    ∙ and_even x ((2 ^ n - 1) * 2 ^ k)
    ∙ ap (λ v. v * 2) (and_mask k n (x / 2) (rw (← halved k x) h))
    ∙ ap (λ v. v * 2 ^ k * 2) (sym (halved k x))
    ∙ sym (shift (x / 2 ^ suc k) k)

-- `|` with a number of k digits fills k zeros.
pub or_disjoint : (k y z : ℕ) → z < 2 ^ k → bit_or (y * 2 ^ k) z ≡ y * 2 ^ k + z
or_disjoint zero y z h =
    ap (λ v. bit_or v z) (mul_one_pow y)
    ∙ ap (λ v. bit_or y v) (no_digit z h)
    ∙ or_zero y
    ∙ omega arith
  where
    no_digit : (z : ℕ) → z < 2 ^ 0 → z ≡ 0
    no_digit z h = omega arith
or_disjoint (suc k) y z h =
    ap (λ v. bit_or v z) (shift y k)
    ∙ or_even (y * 2 ^ k) z
    ∙ ap (λ v. v * 2 + z % 2) (or_disjoint k y (z / 2) (omega arith))
    ∙ omega (arith, shift y k)
