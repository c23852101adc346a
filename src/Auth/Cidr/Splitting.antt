-- ===== src/Auth/Cidr/Splitting.antt =====
-- The parts of a text at a separator.
use stock_pilot.Prelude.{ℕ, ◌≡◌, refl, List, [], ◌∷◌, ◌++◌, arith, inl, inr, Bool-cases, ◌==◌}
use stock_pilot.Auth.Cidr.{Chars, prepend, split}

pub split_some : (sep : ℕ) (cs : Chars) → (p : Chars) × (ps : List Chars) × (split sep cs ≡ p ∷ ps)
unfolding split prepend
split_some sep [] = ([], [], refl)
split_some sep (c ∷ cs) =
    let (p, ps, e) = split_some sep cs in
    elim (Bool-cases (c == sep)) [
      | inl h ↦ ([], split sep cs, rw h refl)
      | inr h ↦ (c ∷ p, ps, rw (h, e) refl)
    ]

-- A separator between two texts splits into the parts of both.
pub split-append :
    (sep : ℕ) (xs ys : Chars) → split sep (xs ++ (sep ∷ ys)) ≡ split sep xs ++ split sep ys
unfolding split prepend
split-append sep [] ys = ground arith
split-append sep (c ∷ cs) ys =
    let (p, ps, e) = split_some sep cs in
    elim (Bool-cases (c == sep)) [
      | inl h ↦ rw (h, split-append sep cs ys) refl
      | inr h ↦ rw (h, split-append sep cs ys, e) refl
    ]
