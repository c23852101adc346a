-- ===== src/Auth/ClientAddress.antt =====
-- apps/api/src/auth/client-address.ts: which address a request comes from.
pub mod Spoofing
use stock_pilot.Prelude.{
  ℕ, Bool, true, false, not, ◌||◌, Option, none, some, List, [], ◌∷◌, ◌++◌, if◌then◌else◌,
}
use stock_pilot.Auth.Cidr.{Chars, comma, split, Range, parse_cidrs, contains}

pub data AddressSource : Type 0 where
  socket forwarded : AddressSource

pub record ClientAddressResolution : Type 0 where
  pub address : Chars
  pub source : AddressSource

-- `'unknown'`
abbrev pub unknown : Chars
unknown = 117 ∷ 110 ∷ 107 ∷ 110 ∷ 111 ∷ 119 ∷ 110 ∷ []

module _ (to_lower : Chars → Chars) (trim : Chars → Chars) (to_number : Chars → Option ℕ) where
  -- `socketAddress?.trim() || 'unknown'`
  unfoldable pub socket_or_unknown : Option Chars → Chars
  socket_or_unknown none = unknown
  socket_or_unknown (some s) = elim (trim s) [ [] ↦ unknown | c ∷ cs ↦ c ∷ cs ]

  -- `trustedProxies.some((proxy) => proxy.contains(hop))`
  unfoldable pub is_trusted : List Range → Chars → Bool
  is_trusted [] hop = false
  is_trusted (p ∷ ps) hop = contains to_lower trim to_number hop p || is_trusted ps hop

  -- `.map(trim).filter(length > 0)`
  unfoldable pub hops_of : List Chars → List Chars
  hops_of [] = []
  hops_of (part ∷ parts) =
      let rest = hops_of parts in elim (trim part) [ [] ↦ rest | c ∷ cs ↦ (c ∷ cs) ∷ rest ]

  -- The walk from the last hop to the first: the first one met that is not trusted.
  unfoldable pub last_untrusted : List Range → List Chars → Option Chars
  last_untrusted proxies [] = none
  last_untrusted proxies (hop ∷ hops) = elim (last_untrusted proxies hops) [
    | some found ↦ some found
    | none ↦ if is_trusted proxies hop then none else some hop
  ]

  unfoldable pub from_hops : Chars → Option Chars → ClientAddressResolution
  from_hops peer none = record { address = peer; source = socket }
  from_hops peer (some hop) = record { address = hop; source = forwarded }

  unfoldable pub resolve_forwarded : List Range → Chars → Option Chars → ClientAddressResolution
  resolve_forwarded proxies peer none = record { address = peer; source = socket }
  resolve_forwarded proxies peer (some []) = record { address = peer; source = socket }
  resolve_forwarded proxies peer (some (c ∷ cs)) =
      from_hops peer (last_untrusted proxies (hops_of (split comma (c ∷ cs))))

  unfoldable pub resolve_client_address :
      Option Chars → Option Chars → Option Chars → ClientAddressResolution
  resolve_client_address socket_address forwarded_for trusted_proxy_cidrs =
      let peer = socket_or_unknown socket_address in
      let proxies = parse_cidrs to_lower trim to_number trusted_proxy_cidrs in
      if not (is_trusted proxies peer)
      then record { address = peer; source = socket }
      else resolve_forwarded proxies peer forwarded_for
