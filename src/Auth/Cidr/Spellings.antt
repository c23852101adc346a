-- ===== src/Auth/Cidr/Spellings.antt =====
-- The two spellings of an IPv4 address are one value.
use stock_pilot.Prelude.{
  ℕ, ◌≡◌, refl, true, ◌&&◌, ◌==◌, leb, arith, Option, none, some, List, [], ◌∷◌, ◌++◌, Option-cases,
  Bool-cases, inl, inr, length,
}
use stock_pilot.Auth.Cidr.Splitting.{split_some}
use stock_pilot.Auth.Cidr.{
  Chars, all_chars, is_digit, octet, push_octet, fold_octets, parse_ipv4, split, prepend, dot,
  mapped_prefix, after_prefix, all_digits, mapped_part, add_offset, parse_ipv6, parse_address_value,
}

octet-digits :
    (part : Chars) (o : ℕ)
    → octet part ≡ some o
    → (leb 1 (length part) && all_chars is_digit part) ≡ true
unfolding octet
octet-digits part o h = ground arith

-- Octets that parse are digits.
fold_octets-all_digits :
    (ps : List Chars) (value v : ℕ) → fold_octets value ps ≡ some v → all_digits ps ≡ true
unfolding fold_octets all_digits
fold_octets-all_digits [] value v h = refl
fold_octets-all_digits (p ∷ ps) value v h = elim (Option-cases (octet p)) [
  | inl e ↦ absurd (ground arith)
  | inr (o, e) ↦
      let rest : fold_octets (push_octet value o) ps ≡ some v = ground arith in
      let digits : all_digits ps ≡ true = fold_octets-all_digits ps (push_octet value o) v rest in
      let own : (leb 1 (length p) && all_chars is_digit p) ≡ true = octet-digits p o e in
      ground arith
]

-- A part that begins with a colon is no octet.
octet-colon : (cs : Chars) → octet (58 ∷ cs) ≡ none
unfolding octet all_chars
octet-colon cs = ground arith

fold_octets-colon :
    (cs : Chars) (ps : List Chars) (v : ℕ) → fold_octets v (prepend 58 (cs ∷ ps)) ≡ none
unfolding fold_octets prepend
fold_octets-colon cs ps v = rw (fold_octets, octet-colon cs) refl

after_prefix-append : (ps cs : Chars) → after_prefix ps (ps ++ cs) ≡ some cs
unfolding after_prefix
after_prefix-append [] cs = refl
after_prefix-append (p ∷ ps) cs = ground (arith, after_prefix-append ps cs)

parse_ipv4-colon : (cs : Chars) → parse_ipv4 (58 ∷ cs) ≡ none
unfolding parse_ipv4 split prepend
parse_ipv4-colon cs =
    let (p, ps, e) = split_some dot cs in
    elim (Bool-cases (length (split dot (58 ∷ cs)) == 4)) [
      | inl h ↦ rw (parse_ipv4, h, split, e) (fold_octets-colon p ps 0)
      | inr h ↦ rw (parse_ipv4, h) refl
    ]

-- A text that parses has four parts, all of digits.
parse_ipv4-parts :
    (a : Chars) (v : ℕ)
    → parse_ipv4 a ≡ some v
    → (length (split dot a) == 4 && all_digits (split dot a)) ≡ true
unfolding parse_ipv4
parse_ipv4-parts a v h = ground (arith, fold_octets-all_digits (split dot a) 0 v)

mapped_part-mapped :
    (a : Chars) (v : ℕ) → parse_ipv4 a ≡ some v → mapped_part (mapped_prefix ++ a) ≡ some a
unfolding mapped_part
mapped_part-mapped a v h =
    rw (mapped_part, after_prefix-append mapped_prefix a, parse_ipv4-parts a v h) refl

module _ (to_lower : Chars → Chars) (trim : Chars → Chars) (to_number : Chars → Option ℕ) where
  -- A dotted address and the same address after `::ffff:` have one value, where the text in lower
  -- case is itself.
  pub parse_address_value-mapped :
      (a : Chars) (v : ℕ)
      → to_lower (mapped_prefix ++ a) ≡ mapped_prefix ++ a
      → parse_ipv4 a ≡ some v
      → parse_address_value to_lower trim to_number (mapped_prefix ++ a)
        ≡ parse_address_value to_lower trim to_number a
  unfolding parse_address_value parse_ipv6 add_offset
  parse_address_value-mapped a v l h =
      rw
        (
          parse_address_value,
          parse_ipv4-colon (58 ∷ 102 ∷ 102 ∷ 102 ∷ 102 ∷ 58 ∷ a),
          parse_ipv6,
          l,
          mapped_part-mapped a v h,
          h,
        )
        refl
