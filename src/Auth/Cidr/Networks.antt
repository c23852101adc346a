-- ===== src/Auth/Cidr/Networks.antt =====
-- An entry for IPv4 trusts exactly the addresses of its network.
use Prim.Native.Nat.{bit_or}
use stock_pilot.Prelude.{
  ℕ, ◌+◌, ◌-◌, ◌*◌, ◌/◌, ◌%◌, ◌^◌, ◌≤◌, ◌<◌, ◌≡◌, refl, ◌∙◌, true, false, ◌==◌, ltb, arith, Option,
  some, List, [], ◌∷◌, Option-cases, Bool-cases, inl, inr, length,
}
use stock_pilot.Prelude.Bits.{or_disjoint}
use stock_pilot.Auth.Cidr.{
  Chars, octet, push_octet, fold_octets, parse_ipv4, split, dot, ipv4_mapped_offset,
  parse_address_value, Range, range_of, ipv4_range, within, contains, range_at, includes_char,
  colon,
}
use stock_pilot.Auth.Cidr.Ranges.{range_of_ipv4}

octet-bound : (part : Chars) (o : ℕ) → octet part ≡ some o → o < 256
unfolding octet
octet-bound part o h = ground arith

shifted : (v : ℕ) → v * 2 ^ 8 % 2 ^ 32 ≡ v % 2 ^ 24 * 2 ^ 8
shifted v = omega arith

push_octet-bound : (value o : ℕ) → o < 256 → push_octet value o < 2 ^ 32
unfolding push_octet
push_octet-bound value o h =
    let e : bit_or (value % 2 ^ 24 * 2 ^ 8) o ≡ value % 2 ^ 24 * 2 ^ 8 + o =
      or_disjoint 8 (value % 2 ^ 24) o h in
    rw (shifted value, e) (omega arith)

fold_octets-bound :
    (ps : List Chars) (value v : ℕ) → value < 2 ^ 32 → fold_octets value ps ≡ some v → v < 2 ^ 32
unfolding fold_octets
fold_octets-bound [] value v b h = ground arith
fold_octets-bound (p ∷ ps) value v b h = elim (Option-cases (octet p)) [
  | inl e ↦ absurd (ground arith)
  | inr (o, e) ↦
      fold_octets-bound ps (push_octet value o) v (push_octet-bound value o (octet-bound p o e))
        (ground arith)
]

-- An address of four octets is a number of 32 bits.
pub parse_ipv4-bound : (address : Chars) (v : ℕ) → parse_ipv4 address ≡ some v → v < 2 ^ 32
unfolding parse_ipv4
parse_ipv4-bound address v h = elim (Bool-cases (length (split dot address) == 4)) [
  | inl e ↦ fold_octets-bound (split dot address) 0 v (omega arith) (ground arith)
  | inr e ↦ absurd (ground arith)
]

offset-within :
    (r : Range) (v : ℕ)
    → within
        (record { min = r.min + ipv4_mapped_offset; max = r.max + ipv4_mapped_offset })
        (v + ipv4_mapped_offset)
      ≡ within r v
unfolding within
offset-within r v = ground arith

known_range :
    (address : Chars) (parsed n : ℕ)
    → parse_ipv4 address ≡ some parsed
    → ltb 32 n ≡ false
    → ipv4_range address n
      ≡ some (record {
        min = (range_of 32 parsed n).min + ipv4_mapped_offset;
        max = (range_of 32 parsed n).max + ipv4_mapped_offset;
      })
unfolding ipv4_range
known_range address parsed n a h = rw (ipv4_range, a, h) refl

module _ (to_lower : Chars → Chars) (trim : Chars → Chars) (to_number : Chars → Option ℕ) where
  dotted :
      (candidate : Chars) (value : ℕ) (r : Range)
      → parse_ipv4 candidate ≡ some value
      → contains to_lower trim to_number candidate r ≡ within r (value + ipv4_mapped_offset)
  unfolding contains parse_address_value
  dotted candidate value r c = rw (contains, parse_address_value, c) refl

  -- An entry with a dotted address and a prefix of n of 32 bits contains a dotted address exactly
  -- if both have the same n leading bits.
  pub ipv4_range-contains :
      (address candidate : Chars) (parsed value n : ℕ)
      → parse_ipv4 address ≡ some parsed
      → parse_ipv4 candidate ≡ some value
      → n ≤ 32
      → (r : Range) × (ipv4_range address n ≡ some r)
        × (contains to_lower trim to_number candidate r
            ≡ (value / 2 ^ (32 - n) == parsed / 2 ^ (32 - n)))
  ipv4_range-contains address candidate parsed value n a c h = (
    record {
      min = (range_of 32 parsed n).min + ipv4_mapped_offset;
      max = (range_of 32 parsed n).max + ipv4_mapped_offset;
    },
    known_range address parsed n a (ground arith),
    dotted candidate value _ c
        ∙ (offset-within (range_of 32 parsed n) value
            ∙ range_of_ipv4 n parsed value h (parse_ipv4-bound address parsed a)),
  )

  -- An entry whose prefix is blank: where `Number('')` is 0, a dotted address with a slash and
  -- nothing after it is a range that contains every dotted address.
  pub blank_prefix_contains_all :
      (address candidate : Chars) (parsed value : ℕ)
      → to_number [] ≡ some 0
      → includes_char colon address ≡ false
      → parse_ipv4 address ≡ some parsed
      → parse_ipv4 candidate ≡ some value
      → (r : Range) × (range_at to_lower trim to_number address (some []) ≡ some r)
        × (contains to_lower trim to_number candidate r ≡ true)
  unfolding range_at
  blank_prefix_contains_all address candidate parsed value zero dotless a c =
      let (r, e, all) = ipv4_range-contains address candidate parsed value 0 a c (omega arith) in
      (
        r,
        rw (range_at, zero, dotless) e,
        all ∙ same_block (parse_ipv4-bound address parsed a) (parse_ipv4-bound candidate value c),
      )
    where
      same_block :
          parsed < 2 ^ 32 → value < 2 ^ 32 → (value / 2 ^ (32 - 0) == parsed / 2 ^ (32 - 0)) ≡ true
      same_block p v = ground arith
