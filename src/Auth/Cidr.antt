-- ===== src/Auth/Cidr.antt =====
-- apps/api/src/auth/cidr.ts, over the UTF-16 units of a text. `to_lower` is `toLowerCase`, `trim`
-- is `trim`, and `to_number` is `Number` with the test for an integer that is not negative.
use Prim.Native.Nat.{bit_and, bit_or}
pub mod Ranges
pub mod Networks
pub mod Spellings
pub mod Splitting
use stock_pilot.Prelude.{
  ℕ, zero, suc, ◌+◌, ◌-◌, ◌*◌, ◌%◌, ◌^◌, Bool, true, false, ◌&&◌, ◌||◌, not, Option, none, some,
  List, [], ◌∷◌, ◌++◌, length, ◌==◌, leb, ltb, if◌then◌else◌,
}

abbrev pub Chars : Type 0
Chars = List ℕ

unfoldable pub prepend : ℕ → List Chars → List Chars
prepend c [] = (c ∷ []) ∷ []
prepend c (p ∷ ps) = (c ∷ p) ∷ ps

-- `split` at one character: there is always a part.
unfoldable pub split : ℕ → Chars → List Chars
split sep [] = [] ∷ []
split sep (c ∷ cs) = let rest = split sep cs in if c == sep then [] ∷ rest else prepend c rest

abbrev pub dot : ℕ
dot = 0x2e

abbrev pub colon : ℕ
colon = 0x3a

abbrev pub comma : ℕ
comma = 0x2c

abbrev pub slash : ℕ
slash = 0x2f

-- `split('::')`, from the left.
unfoldable pub split_pair : Chars → List Chars
split_pair [] = [] ∷ []
split_pair (c ∷ []) = (c ∷ []) ∷ []
split_pair (c ∷ d ∷ cs) =
    let short = split_pair cs in
    let long = split_pair (d ∷ cs) in
    if c == colon && d == colon then [] ∷ short else prepend c long

unfoldable pub all_chars : (ℕ → Bool) → Chars → Bool
all_chars p [] = true
all_chars p (c ∷ cs) = p c && all_chars p cs

abbrev pub is_digit : ℕ → Bool
is_digit c = leb 48 c && leb c 57

-- `[0-9a-f]`
abbrev pub is_hex : ℕ → Bool
is_hex c = is_digit c || (leb 97 c && leb c 102)

unfoldable pub decimal_from : ℕ → Chars → ℕ
decimal_from value [] = value
decimal_from value (c ∷ cs) = decimal_from (value * 10 + (c - 48)) cs

-- `Number.parseInt(group, 16)`
unfoldable pub hex_from : ℕ → Chars → ℕ
hex_from value [] = value
hex_from value (c ∷ cs) = hex_from (value * 16 + (if is_digit c then c - 48 else c - 87)) cs

-- One part of a dotted address.
unfoldable pub octet : Chars → Option ℕ
octet part =
    if leb 1 (length part) && (leb (length part) 3 && all_chars is_digit part)
    then (if ltb 255 (decimal_from 0 part) then none else some (decimal_from 0 part))
    else none

-- `(value << 8) | octet`, without its sign.
unfoldable pub push_octet : ℕ → ℕ → ℕ
push_octet value part = bit_or (value * 2 ^ 8 % 2 ^ 32) part

unfoldable pub fold_octets : ℕ → List Chars → Option ℕ
fold_octets value [] = some value
fold_octets value (p ∷ ps) = elim (octet p) [
  | none ↦ none
  | some o ↦ fold_octets (push_octet value o) ps
]

unfoldable pub parse_ipv4 : Chars → Option ℕ
parse_ipv4 address =
    let parts = split dot address in if length parts == 4 then fold_octets 0 parts else none

abbrev pub ipv4_mapped_offset : ℕ
ipv4_mapped_offset = 0xffff00000000

unfoldable pub add_offset : Option ℕ → Option ℕ
add_offset none = none
add_offset (some v) = some (v + ipv4_mapped_offset)

-- The rest of a text after a prefix.
unfoldable pub after_prefix : Chars → Chars → Option Chars
after_prefix [] cs = some cs
after_prefix (p ∷ ps) [] = none
after_prefix (p ∷ ps) (c ∷ cs) = let rest = after_prefix ps cs in if c == p then rest else none

-- `::ffff:`
abbrev pub mapped_prefix : Chars
mapped_prefix = 58 ∷ 58 ∷ 102 ∷ 102 ∷ 102 ∷ 102 ∷ 58 ∷ []

-- `\d+` in each of the parts.
unfoldable pub all_digits : List Chars → Bool
all_digits [] = true
all_digits (p ∷ ps) = leb 1 (length p) && (all_chars is_digit p && all_digits ps)

-- The group of the regular expression for a mapped address.
unfoldable pub mapped_part : Chars → Option Chars
mapped_part address = elim (after_prefix mapped_prefix address) [
  | none ↦ none
  | some rest ↦
      if length (split dot rest) == 4 && all_digits (split dot rest) then some rest else none
]

unfoldable pub group : Chars → Option ℕ
group part =
    if leb 1 (length part) && (leb (length part) 4 && all_chars is_hex part)
    then some (hex_from 0 part)
    else none

-- Every group, or none.
unfoldable pub groups : List Chars → Option (List ℕ)
groups [] = some []
groups (p ∷ ps) = elim (group p) [
  | none ↦ none
  | some g ↦ elim (groups ps) [ none ↦ none | some gs ↦ some (g ∷ gs) ]
]

unfoldable pub expand : Chars → Option (List ℕ)
expand [] = some []
expand (c ∷ cs) = groups (split colon (c ∷ cs))

unfoldable pub zeros : ℕ → List ℕ
zeros zero = []
zeros (suc n) = 0 ∷ zeros n

-- `(value << 16n) | BigInt(group)`
unfoldable pub push_groups : ℕ → List ℕ → ℕ
push_groups value [] = value
push_groups value (g ∷ gs) = push_groups (bit_or (value * 2 ^ 16) g) gs

-- The two sides of the `::`, or the one side where there is none.
unfoldable pub parse_halves : List Chars → Option ℕ
parse_halves (left ∷ []) = elim (expand left) [
  | none ↦ none
  | some l ↦ if length l == 8 then some (push_groups 0 l) else none
]
parse_halves (left ∷ right ∷ []) = elim (expand left) [
  | none ↦ none
  | some l ↦ elim (expand right) [
    | none ↦ none
    | some r ↦
        if ltb 8 (length l + length r)
        then none
        else some (push_groups 0 (l ++ (zeros (8 - length l - length r) ++ r)))
  ]
]
parse_halves _ = none

-- The first and the last value of a range.
pub record Range : Type 0 where
  pub min : ℕ
  pub max : ℕ

-- `~0 << zeros`, in a word of so many digits.
unfoldable pub shifted_ones : ℕ → ℕ → ℕ
shifted_ones width k = (2 ^ width - 1) * 2 ^ k % 2 ^ width

unfoldable pub mask_of : ℕ → ℕ → ℕ
mask_of width prefix_length =
    if prefix_length == 0 then 0 else shifted_ones width (width - prefix_length)

-- `parsed & mask` and `min | ~mask`
unfoldable pub range_of : ℕ → ℕ → ℕ → Range
range_of width parsed prefix_length =
    let low = bit_and parsed (mask_of width prefix_length) in
    record { min = low; max = bit_or low (2 ^ width - 1 - mask_of width prefix_length) }

unfoldable pub ipv4_range : Chars → ℕ → Option Range
ipv4_range address prefix_length = elim (parse_ipv4 address) [
  | none ↦ none
  | some parsed ↦
      if ltb 32 prefix_length
      then none
      else some (record {
        min = (range_of 32 parsed prefix_length).min + ipv4_mapped_offset;
        max = (range_of 32 parsed prefix_length).max + ipv4_mapped_offset;
      })
]

unfoldable pub within : Range → ℕ → Bool
within range value = leb range.min value && leb value range.max

unfoldable pub includes_char : ℕ → Chars → Bool
includes_char x [] = false
includes_char x (c ∷ cs) = c == x || includes_char x cs

module _ (to_lower : Chars → Chars) (trim : Chars → Chars) (to_number : Chars → Option ℕ) where
  unfoldable pub parse_ipv6 : Chars → Option ℕ
  parse_ipv6 address = elim (mapped_part (to_lower address)) [
    | some rest ↦ add_offset (parse_ipv4 rest)
    | none ↦ parse_halves (split_pair (to_lower address))
  ]

  unfoldable pub parse_address_value : Chars → Option ℕ
  parse_address_value address = elim (parse_ipv4 address) [
    | some v ↦ some (v + ipv4_mapped_offset)
    | none ↦ parse_ipv6 address
  ]

  unfoldable pub ipv6_range : Chars → ℕ → Option Range
  ipv6_range address prefix_length = elim (parse_ipv6 address) [
    | none ↦ none
    | some parsed ↦ if ltb 128 prefix_length then none else some (range_of 128 parsed prefix_length)
  ]

  -- `prefixLength`: the width where there is no slash, and none where the text is no such number.
  unfoldable pub range_at : Chars → Option Chars → Option Range
  range_at address none =
      if includes_char colon address then ipv6_range address 128 else ipv4_range address 32
  range_at address (some raw) = elim (to_number raw) [
    | none ↦ none
    | some n ↦ if includes_char colon address then ipv6_range address n else ipv4_range address n
  ]

  -- One entry: `[address, rawPrefix] = entry.split('/')`.
  unfoldable pub entry_range : List Chars → Option Range
  entry_range ([] ∷ ps) = none
  entry_range ((c ∷ cs) ∷ []) = range_at (c ∷ cs) none
  entry_range ((c ∷ cs) ∷ raw ∷ ps) = range_at (c ∷ cs) (some raw)
  entry_range [] = none

  -- Entries that do not parse are skipped. A matcher is its range.
  unfoldable pub parse_entries : List Chars → List Range
  parse_entries [] = []
  parse_entries (raw ∷ entries) =
      let rest = parse_entries entries in
      elim (entry_range (split slash (trim raw))) [ none ↦ rest | some range ↦ range ∷ rest ]

  unfoldable pub parse_cidrs : Option Chars → List Range
  parse_cidrs none = []
  parse_cidrs (some []) = []
  parse_cidrs (some (c ∷ cs)) = parse_entries (split comma (c ∷ cs))

  unfoldable pub contains : Chars → Range → Bool
  contains candidate range = elim (parse_address_value candidate) [
    | none ↦ false
    | some value ↦ within range value
  ]
