-- ===== src/Auth/Cidr/Ranges.antt =====
-- A range holds exactly the addresses that agree with its own in the leading bits.
use Prim.Native.Nat.{bit_and, bit_or}
use mathlib.Core.Path.{subst}
use native.Mathlib.Nat.{mod-lt, div-add-mod', div-lt_iff_lt-mul, div-eq_of_lt-le}
use stock_pilot.Prelude.{
  Bool-cases, inl, inr, ℕ, zero, suc, ◌+◌, ◌-◌, ◌*◌, ◌/◌, ◌%◌, ◌^◌, ◌≤◌, ◌<◌, ◌≡◌, refl, ap, sym,
  ◌∙◌, ◌↔◌, Bool, true, ◌&&◌, ◌==◌, leb, arith,
}
use stock_pilot.Prelude.Bits.{and_mask, or_disjoint, pow_pos}
use stock_pilot.Auth.Cidr.{range_of, mask_of, shifted_ones, within}

-- A test of every prefix length from one on, so many of them.
holds_from : ℕ → ℕ → (ℕ → Bool) → Bool
holds_from first zero test = test first
holds_from first (suc more) test = test first && holds_from (suc first) more test

holds_from-test :
    (more first n : ℕ) (test : ℕ → Bool)
    → holds_from first more test ≡ true
    → first ≤ n
    → n ≤ first + more
    → test n ≡ true
unfolding holds_from
holds_from-test zero first n test h a b = let e : n ≡ first = omega arith in ap test e ∙ h
holds_from-test (suc more) first n test h a b = elim (Bool-cases (n == first)) [
  | inl same ↦ (let e : n ≡ first = ground arith in ap test e ∙ ground arith)
  | inr other ↦ holds_from-test more (suc first) n test (ground arith) (ground arith) (omega arith)
]

-- The mask has n ones above the zeros, its complement the ones below, and both fill the width.
fits_width : ℕ → ℕ → Bool
fits_width width n =
    (mask_of width n == (2 ^ n - 1) * 2 ^ (width - n))
    && ((2 ^ width - 1 - mask_of width n == 2 ^ (width - n) - 1)
        && (2 ^ width == 2 ^ n * 2 ^ (width - n)))

table_32 : holds_from 0 32 (fits_width 32) ≡ true
unfolding holds_from fits_width mask_of shifted_ones
table_32 = refl

table_128 : holds_from 0 128 (fits_width 128) ≡ true
unfolding holds_from fits_width mask_of shifted_ones
table_128 = refl

-- A number lies between the first and the last of its block of d exactly if it is of that block.
block_iff : (d q v : ℕ) → 1 ≤ d → ((q * d ≤ v) × (v ≤ q * d + (d - 1))) ↔ (v / d ≡ q)
block_iff d q v p = (
  λ (a, b). div-eq_of_lt-le d a (grind arith),
  λ e. down (sym (div-add-mod' v d) ∙ ap (λ t. t * d + v % d) e) (mod-lt v p),
)
  where
    down : v ≡ q * d + v % d → v % d < d → (q * d ≤ v) × (v ≤ q * d + (d - 1))
    down e m = (omega arith, omega arith)

within_block : (d q v : ℕ) → 1 ≤ d → (leb (q * d) v && leb v (q * d + (d - 1))) ≡ (v / d == q)
within_block d q v p = ground (arith, block_iff d q v p)

-- The three equations that `fits_width` tests.
fits_mask :
    (width n : ℕ)
    → fits_width width n ≡ true
    → (mask_of width n ≡ (2 ^ n - 1) * 2 ^ (width - n))
      × ((2 ^ width - 1 - mask_of width n ≡ 2 ^ (width - n) - 1)
          × (2 ^ width ≡ 2 ^ n * 2 ^ (width - n)))
unfolding fits_width
fits_mask width n h = (ground arith, (ground arith, ground arith))

module _ (width n parsed value : ℕ) (fit : fits_width width n ≡ true)
    (small : parsed < 2 ^ width) where
  leading : parsed / 2 ^ (width - n) < 2 ^ n
  leading =
      (div-lt_iff_lt-mul (pow_pos (width - n))).1
        (subst (λ w. parsed < w) (fits_mask width n fit).1.1 small)

  low : bit_and parsed (mask_of width n) ≡ parsed / 2 ^ (width - n) * 2 ^ (width - n)
  low = ap (λ m. bit_and parsed m) (fits_mask width n fit).0 ∙ and_mask (width - n) n parsed leading

  last : 2 ^ (width - n) - 1 < 2 ^ (width - n)
  last = omega (arith, pow_pos (width - n))

  high :
      (range_of width parsed n).max
      ≡ parsed / 2 ^ (width - n) * 2 ^ (width - n) + (2 ^ (width - n) - 1)
  unfolding range_of
  high =
      ap (λ m. bit_or (bit_and parsed (mask_of width n)) m) (fits_mask width n fit).1.0
      ∙ ap (λ m. bit_or m (2 ^ (width - n) - 1)) low
      ∙ or_disjoint (width - n) (parsed / 2 ^ (width - n)) (2 ^ (width - n) - 1) last

  least : (range_of width parsed n).min ≡ parsed / 2 ^ (width - n) * 2 ^ (width - n)
  unfolding range_of
  least = low

  range_of_block :
      within (range_of width parsed n) value ≡ (value / 2 ^ (width - n) == parsed / 2 ^ (width - n))
  unfolding within
  range_of_block =
      ap (λ m. leb m value && leb value (range_of width parsed n).max) least
      ∙ ap (λ m. leb (parsed / 2 ^ (width - n) * 2 ^ (width - n)) value && leb value m) high
      ∙ within_block (2 ^ (width - n)) (parsed / 2 ^ (width - n)) value (pow_pos (width - n))

-- A range of a prefix of n of 32 bits holds exactly the numbers whose n leading bits are those of
-- the number it was made from, for n at most 32 and that number below 2^32.
pub range_of_ipv4 :
    (n parsed value : ℕ)
    → n ≤ 32
    → parsed < 2 ^ 32
    → within (range_of 32 parsed n) value ≡ (value / 2 ^ (32 - n) == parsed / 2 ^ (32 - n))
range_of_ipv4 n parsed value h small =
    range_of_block 32 n parsed value
      (holds_from-test 32 0 n (fits_width 32) table_32 (omega arith) (omega arith)) small

-- The same for 128 bits.
pub range_of_ipv6 :
    (n parsed value : ℕ)
    → n ≤ 128
    → parsed < 2 ^ 128
    → within (range_of 128 parsed n) value ≡ (value / 2 ^ (128 - n) == parsed / 2 ^ (128 - n))
range_of_ipv6 n parsed value h small =
    range_of_block 128 n parsed value
      (holds_from-test 128 0 n (fits_width 128) table_128 (omega arith) (omega arith)) small
