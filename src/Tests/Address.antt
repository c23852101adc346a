-- ===== src/Tests/Address.antt =====
-- Addresses: a proxy network, and the headers of two clients.
use stock_pilot.Prelude.{
  ℕ, ◌-◌, ◌/◌, ◌^◌, ◌≡◌, refl, arith, true, false, ◌==◌, Option, some, [], ◌∷◌, ◌++◌, ◌⊎◌,
}
use stock_pilot.Auth.Cidr.{
  Chars, comma, split, prepend, all_chars, decimal_from, octet, push_octet, fold_octets, parse_ipv4,
  Range, range_of, ipv4_range, shifted_ones, mask_of, within, includes_char, contains, range_at,
  entry_range, parse_entries, parse_cidrs, parse_address_value, mapped_prefix,
}
use stock_pilot.Auth.Cidr.Networks.{ipv4_range-contains, blank_prefix_contains_all}
use stock_pilot.Auth.Cidr.Spellings.{parse_address_value-mapped}
use stock_pilot.Auth.ClientAddress.{
  socket, forwarded, socket_or_unknown, is_trusted, hops_of, last_untrusted, from_hops,
  resolve_forwarded, resolve_client_address,
}
use stock_pilot.Auth.ClientAddress.Spoofing.{
  resolve_client_address_unspoofed, resolve_client_address_trust, Walked,
}

-- Texts without capitals and spaces, and numbers of digits.
abbrev as_it_is : Chars → Chars
as_it_is cs = cs

abbrev number : Chars → Option ℕ
number cs = some (decimal_from 0 cs)

-- 10.0.0.0, 10.0.0.7, 1.2.3.4 and 9.9.9.9
abbrev ten : Chars
ten = 49 ∷ 48 ∷ 46 ∷ 48 ∷ 46 ∷ 48 ∷ 46 ∷ 48 ∷ []

abbrev proxy : Chars
proxy = 49 ∷ 48 ∷ 46 ∷ 48 ∷ 46 ∷ 48 ∷ 46 ∷ 55 ∷ []

abbrev client : Chars
client = 49 ∷ 46 ∷ 50 ∷ 46 ∷ 51 ∷ 46 ∷ 52 ∷ []

abbrev spoof : Chars
spoof = 57 ∷ 46 ∷ 57 ∷ 46 ∷ 57 ∷ 46 ∷ 57 ∷ []

-- 10.0.0.0/8
abbrev trusted : Chars
trusted = ten ++ (47 ∷ 56 ∷ [])

ten_value : parse_ipv4 ten ≡ some 167772160
unfolding parse_ipv4 split prepend fold_octets octet all_chars decimal_from push_octet
ten_value = refl

proxy_value : parse_ipv4 proxy ≡ some 167772167
unfolding parse_ipv4 split prepend fold_octets octet all_chars decimal_from push_octet
proxy_value = refl

ipv4_range-contains_example :
    (r : Range) × (ipv4_range ten 8 ≡ some r)
    × (contains as_it_is as_it_is number proxy r
        ≡ (167772167 / 2 ^ (32 - 8) == 167772160 / 2 ^ (32 - 8)))
ipv4_range-contains_example =
    ipv4_range-contains as_it_is as_it_is number ten proxy 167772160 167772167 8 ten_value
      proxy_value (omega arith)

blank : number [] ≡ some 0
unfolding decimal_from
blank = refl

dotless : includes_char 58 ten ≡ false
unfolding includes_char
dotless = refl

blank_prefix_contains_all_example :
    (r : Range) × (range_at as_it_is as_it_is number ten (some []) ≡ some r)
    × (contains as_it_is as_it_is number proxy r ≡ true)
blank_prefix_contains_all_example =
    blank_prefix_contains_all as_it_is as_it_is number ten proxy 167772160 167772167 blank dotless
      ten_value proxy_value

parse_address_value-mapped_example :
    parse_address_value as_it_is as_it_is number (mapped_prefix ++ proxy)
    ≡ parse_address_value as_it_is as_it_is number proxy
parse_address_value-mapped_example =
    parse_address_value-mapped as_it_is as_it_is number proxy 167772167 refl proxy_value

client_source :
    (resolve_client_address as_it_is as_it_is number
      (some proxy)
      (some client)
      (some trusted)).source
    ≡ forwarded
unfolding resolve_client_address socket_or_unknown parse_cidrs parse_entries entry_range range_at
    split prepend includes_char decimal_from ipv4_range parse_ipv4 fold_octets octet all_chars
    push_octet range_of mask_of shifted_ones is_trusted contains parse_address_value within
    resolve_forwarded hops_of last_untrusted from_hops
client_source = refl

resolve_client_address_unspoofed_example :
    resolve_client_address as_it_is as_it_is number
      (some proxy)
      (some (spoof ++ (comma ∷ client)))
      (some trusted)
    ≡ resolve_client_address as_it_is as_it_is number (some proxy) (some client) (some trusted)
resolve_client_address_unspoofed_example =
    resolve_client_address_unspoofed as_it_is as_it_is number (some proxy) (some trusted) spoof
      client client_source

resolve_client_address_trust_example :
    let res =
      resolve_client_address as_it_is as_it_is number (some proxy) (some client) (some trusted) in
    let proxies = parse_cidrs as_it_is as_it_is number (some trusted) in
    ((is_trusted as_it_is as_it_is number proxies proxy ≡ false)
      × (res ≡ record { address = proxy; source = socket }))
    ⊎ ((is_trusted as_it_is as_it_is number proxies proxy ≡ true)
        × Walked as_it_is as_it_is number proxies proxy (some client) res)
unfolding socket_or_unknown
resolve_client_address_trust_example =
    resolve_client_address_trust as_it_is as_it_is number (some proxy) (some client) (some trusted)
