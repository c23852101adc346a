-- ===== src/Auth/ClientAddress/Spoofing.antt =====
-- A client cannot choose the address that is resolved for it.
use mathlib.Core.Path.{subst}
use stock_pilot.Prelude.{
  ℕ, ◌≡◌, refl, ap, sym, ◌∙◌, true, false, Option, none, some, List, [], ◌∷◌, ◌++◌, arith, ◌⊎◌, inl,
  inr, Option-cases, Bool-cases, ⊤,
}
use stock_pilot.Auth.Cidr.Splitting.{split-append}
use stock_pilot.Auth.Cidr.{Chars, comma, split, Range, parse_cidrs}
use stock_pilot.Auth.ClientAddress.{
  ClientAddressResolution, socket, forwarded, socket_or_unknown, is_trusted, hops_of,
  last_untrusted, from_hops, resolve_forwarded, resolve_client_address,
}

module _ (to_lower : Chars → Chars) (trim : Chars → Chars) (to_number : Chars → Option ℕ) where
  hops_of-append :
      (xs ys : List Chars)
      → hops_of to_lower trim to_number (xs ++ ys)
        ≡ hops_of to_lower trim to_number xs ++ hops_of to_lower trim to_number ys
  unfolding hops_of
  hops_of-append [] ys = refl
  hops_of-append (x ∷ xs) ys = ground (arith, hops_of-append xs ys)

  last_untrusted-append :
      (proxies : List Range) (xs ys : List Chars) (found : Chars)
      → last_untrusted to_lower trim to_number proxies ys ≡ some found
      → last_untrusted to_lower trim to_number proxies (xs ++ ys) ≡ some found
  unfolding last_untrusted
  last_untrusted-append proxies [] ys found h = h
  last_untrusted-append proxies (x ∷ xs) ys found h =
      ground (arith, last_untrusted-append proxies xs ys found h)

  from_hops-forwarded :
      (peer : Chars) (o : Option Chars)
      → (from_hops to_lower trim to_number peer o).source ≡ forwarded
      → (hop : Chars) × (o ≡ some hop)
  unfolding from_hops
  from_hops-forwarded peer none h = cc
  from_hops-forwarded peer (some hop) h = (hop, refl)

  skipped :
      (proxies : List Range) (before header hop : Chars)
      → last_untrusted to_lower trim to_number proxies
          (hops_of to_lower trim to_number (split comma header))
        ≡ some hop
      → last_untrusted to_lower trim to_number proxies
          (hops_of to_lower trim to_number (split comma (before ++ (comma ∷ header))))
        ≡ some hop
  skipped proxies before header hop e =
      rw
        (split-append comma before header, hops_of-append (split comma before) (split comma header))
        (last_untrusted-append proxies (hops_of to_lower trim to_number (split comma before)) _ hop
          e)

  resolve_forwarded-prefix :
      (proxies : List Range) (peer : Chars) (before header : Chars)
      → (resolve_forwarded to_lower trim to_number proxies peer (some header)).source ≡ forwarded
      → resolve_forwarded to_lower trim to_number proxies peer (some (before ++ (comma ∷ header)))
        ≡ resolve_forwarded to_lower trim to_number proxies peer (some header)
  unfolding resolve_forwarded
  resolve_forwarded-prefix proxies peer before [] h = cc
  resolve_forwarded-prefix proxies peer [] (c ∷ cs) h =
      let (hop, e) = from_hops-forwarded peer _ h in
      ap (from_hops to_lower trim to_number peer) (skipped proxies [] (c ∷ cs) hop e ∙ sym e)
  resolve_forwarded-prefix proxies peer (b ∷ bs) (c ∷ cs) h =
      let (hop, e) = from_hops-forwarded peer _ h in
      ap (from_hops to_lower trim to_number peer) (skipped proxies (b ∷ bs) (c ∷ cs) hop e ∙ sym e)

  -- A forwarded address is decided by what the trusted proxies appended: whatever a client writes
  -- before the header that they extend, the address that is resolved stays the same.
  pub resolve_client_address_unspoofed :
      (socket_address cidrs : Option Chars) (before header : Chars)
      → (resolve_client_address to_lower trim to_number socket_address (some header) cidrs).source
        ≡ forwarded
      → resolve_client_address to_lower trim to_number socket_address
          (some (before ++ (comma ∷ header)))
          cidrs
        ≡ resolve_client_address to_lower trim to_number socket_address (some header) cidrs
  unfolding resolve_client_address
  resolve_client_address_unspoofed socket_address cidrs before header h = ground (
    arith,
    resolve_forwarded-prefix (parse_cidrs to_lower trim to_number cidrs)
        (socket_or_unknown to_lower trim to_number socket_address) before header,
  )

  -- The hops of a header that is there, the nearest proxy's last.
  abbrev pub hops_in : Option Chars → List Chars
  hops_in none = []
  hops_in (some []) = []
  hops_in (some (c ∷ cs)) = hops_of to_lower trim to_number (split comma (c ∷ cs))

  abbrev pub AllTrusted : List Range → List Chars → Type 0
  AllTrusted proxies [] = ⊤
  AllTrusted proxies (hop ∷ hops) =
      (is_trusted to_lower trim to_number proxies hop ≡ true) × AllTrusted proxies hops

  -- The last of the hops that is no trusted proxy.
  abbrev pub LastUntrusted : List Range → List Chars → Chars → Type 0
  LastUntrusted proxies hops hop =
      (before : List Chars) × (after : List Chars) × (hops ≡ before ++ (hop ∷ after))
      × (is_trusted to_lower trim to_number proxies hop ≡ false)
      × AllTrusted proxies after

  last_untrusted-none :
      (proxies : List Range) (hops : List Chars)
      → last_untrusted to_lower trim to_number proxies hops ≡ none
      → AllTrusted proxies hops
  unfolding last_untrusted
  last_untrusted-none proxies [] h = tt
  last_untrusted-none proxies (x ∷ xs) h =
      elim (Option-cases (last_untrusted to_lower trim to_number proxies xs)) [
        | inr (found, e) ↦ absurd (ground arith)
        | inl e ↦ (ground arith, last_untrusted-none proxies xs e)
      ]

  last_untrusted-LastUntrusted :
      (proxies : List Range) (hops : List Chars) (hop : Chars)
      → last_untrusted to_lower trim to_number proxies hops ≡ some hop
      → LastUntrusted proxies hops hop
  unfolding last_untrusted
  last_untrusted-LastUntrusted proxies [] hop h = cc
  last_untrusted-LastUntrusted proxies (x ∷ xs) hop h =
      elim (Option-cases (last_untrusted to_lower trim to_number proxies xs)) [
        | inr (found, e) ↦
            let (before, after, split_at, own, rest) =
              last_untrusted-LastUntrusted proxies xs hop (ground arith) in
            (x ∷ before, after, ap (λ ys. x ∷ ys) split_at, own, rest)
        | inl e ↦
            let own : is_trusted to_lower trim to_number proxies x ≡ false = ground arith in
            let same : x ≡ hop = ground arith in
            (
              [],
              xs,
              ap (λ y. y ∷ xs) same,
              subst (λ y. is_trusted to_lower trim to_number proxies y ≡ false) same own,
              last_untrusted-none proxies xs e,
            )
      ]

  -- The two answers for a header that a trusted peer hands on.
  abbrev pub Walked : List Range → Chars → Option Chars → ClientAddressResolution → Type 0
  Walked proxies peer header res =
      ((res ≡ record { address = peer; source = socket }) × AllTrusted proxies (hops_in header))
      ⊎ ((res.source ≡ forwarded) × LastUntrusted proxies (hops_in header) res.address)

  resolve_forwarded-Walked :
      (proxies : List Range) (peer : Chars) (header : Option Chars)
      → Walked proxies peer header (resolve_forwarded to_lower trim to_number proxies peer header)
  unfolding resolve_forwarded from_hops
  resolve_forwarded-Walked proxies peer none = inl (refl, tt)
  resolve_forwarded-Walked proxies peer (some []) = inl (refl, tt)
  resolve_forwarded-Walked proxies peer (some (c ∷ cs)) =
      let hops = hops_of to_lower trim to_number (split comma (c ∷ cs)) in
      elim (Option-cases (last_untrusted to_lower trim to_number proxies hops)) [
        | inl e ↦ rw e (inl (refl, last_untrusted-none proxies hops e))
        | inr (hop, e) ↦ rw e (inr (refl, last_untrusted-LastUntrusted proxies hops hop e))
      ]

  -- What a resolution answers: where the peer of the socket is no trusted proxy, the peer, whatever
  -- the header says; where it is one, the last hop of the header that is no trusted proxy, all hops
  -- after it being trusted, or the peer where all hops are trusted.
  pub resolve_client_address_trust :
      (socket_address header cidrs : Option Chars)
      → let proxies = parse_cidrs to_lower trim to_number cidrs in
        let peer = socket_or_unknown to_lower trim to_number socket_address in
        let res = resolve_client_address to_lower trim to_number socket_address header cidrs in
        ((is_trusted to_lower trim to_number proxies peer ≡ false)
          × (res ≡ record { address = peer; source = socket }))
        ⊎ ((is_trusted to_lower trim to_number proxies peer ≡ true)
            × Walked proxies peer header res)
  unfolding resolve_client_address
  resolve_client_address_trust socket_address header cidrs =
      let proxies = parse_cidrs to_lower trim to_number cidrs in
      let peer = socket_or_unknown to_lower trim to_number socket_address in
      elim (Bool-cases (is_trusted to_lower trim to_number proxies peer)) [
        | inr e ↦ rw e (inl (refl, refl))
        | inl e ↦ rw e (inr (refl, resolve_forwarded-Walked proxies peer header))
      ]
