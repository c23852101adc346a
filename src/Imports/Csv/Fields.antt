-- ===== src/Imports/Csv/Fields.antt =====
-- What the loop of `parseCsv` does with one field that `csvCell` has written.
use mathlib.Core.List.{append_assoc, append-nil}
use stock_pilot.Prelude.{
  ℕ, ◌≡◌, refl, sym, ap, ◌∙◌, Bool, true, false, ◌&&◌, ◌||◌, [], ◌∷◌, ◌++◌, ◌==◌, arith, inl, inr,
  Bool-cases, ==_iff,
}
use stock_pilot.Imports.Csv.{
  Text, quote, comma, line_feed, Scan, step, scan, needs_quotes, double_quotes, csv_cell,
}

-- Where no pair of quotes begins, the loop takes one character.
pub scan-step :
    (c : ℕ) (cs : Text) (s : Scan)
    → s.quoted && (c == quote) ≡ false
    → scan (c ∷ cs) s ≡ scan cs (step c s)
unfolding scan
scan-step c [] s h = refl
scan-step c (d ∷ cs) s h = ground arith

scan-pair :
    (cs : Text) (s : Scan)
    → s.quoted ≡ true
    → scan (quote ∷ quote ∷ cs) s ≡ scan cs (record s { cell = s.cell ++ (quote ∷ []) })
unfolding scan
scan-pair cs s h = ground arith

-- Does a text begin with a quote?
abbrev pub begins_quoted : Text → Bool
begins_quoted [] = false
begins_quoted (c ∷ cs) = c == quote

-- The quote that closes a field.
scan-close :
    (rest : Text) (s : Scan)
    → s.quoted ≡ true
    → begins_quoted rest ≡ false
    → scan (quote ∷ rest) s ≡ scan rest (record s { quoted = false })
unfolding scan step
scan-close [] s q h = ground arith
scan-close (d ∷ cs) s q h = ground arith

-- A scan with its cell and its flag given anew.
abbrev with_cell : Scan → Text → Bool → Scan
with_cell s t b = record s { cell = t; quoted = b }

step_quoted :
    (c : ℕ) (s : Scan)
    → s.quoted ≡ true
    → (c == quote) ≡ false
    → step c s ≡ record s { cell = s.cell ++ (c ∷ []) }
unfolding step
step_quoted c s q h = ground arith

step_plain :
    (c : ℕ) (s : Scan)
    → s.quoted ≡ false
    → (c == quote || (c == comma || c == line_feed)) ≡ false
    → step c s ≡ record s { cell = s.cell ++ (c ∷ []) }
unfolding step
step_plain c s q h = ground arith

grown : (t : Text) (c : ℕ) (u : Text) → (t ++ (c ∷ [])) ++ u ≡ t ++ (c ∷ u)
grown t c u = append_assoc t (c ∷ []) u

-- The inside of a quoted field.
scan-double_quotes :
    (t rest : Text) (s : Scan)
    → s.quoted ≡ true
    → begins_quoted rest ≡ false
    → scan (double_quotes t ++ (quote ∷ rest)) s ≡ scan rest (with_cell s (s.cell ++ t) false)
unfolding double_quotes
scan-double_quotes [] rest s q h =
    scan-close rest s q h ∙ ap (λ x. scan rest (with_cell s x false)) (sym (append-nil s.cell))
scan-double_quotes (c ∷ t) rest s q h = elim (Bool-cases (c == quote)) [
  | inl e ↦ rw e (
      scan-pair (double_quotes t ++ (quote ∷ rest)) s q
      ∙ scan-double_quotes t rest (record s { cell = s.cell ++ (quote ∷ []) }) q h
      ∙ ap (λ x. scan rest (with_cell s x false))
          (grown s.cell quote t ∙ ap (λ x. s.cell ++ (x ∷ t)) (sym ((==_iff c quote).0 e))))
  | inr e ↦ rw e (
      scan-step c (double_quotes t ++ (quote ∷ rest)) s (rw e (ground arith))
      ∙ ap (scan (double_quotes t ++ (quote ∷ rest))) (step_quoted c s q e)
      ∙ scan-double_quotes t rest (record s { cell = s.cell ++ (c ∷ []) }) q h
      ∙ ap (λ x. scan rest (with_cell s x false)) (grown s.cell c t))
]

-- The inside of a field without quotes.
scan-plain :
    (t rest : Text) (s : Scan)
    → s.quoted ≡ false
    → needs_quotes t ≡ false
    → scan (t ++ rest) s ≡ scan rest (record s { cell = s.cell ++ t })
unfolding needs_quotes
scan-plain [] rest s q h = ap (λ x. scan rest (record s { cell = x })) (sym (append-nil s.cell))
scan-plain (c ∷ t) rest s q h =
    let clear : (c == quote || (c == comma || c == line_feed)) ≡ false = ground arith in
    let after : needs_quotes t ≡ false = ground arith in
    scan-step c (t ++ rest) s (rw q)
    ∙ ap (scan (t ++ rest)) (step_plain c s q clear)
    ∙ scan-plain t rest (record s { cell = s.cell ++ (c ∷ []) }) q after
    ∙ ap (λ x. scan rest (record s { cell = x })) (grown s.cell c t)

open_quote : (s : Scan) → s.quoted ≡ false → s.cell ≡ [] → step quote s ≡ record s { quoted = true }
unfolding step
open_quote s q e = ground arith

refilled :
    (t : Text) (s : Scan)
    → s.quoted ≡ false
    → s.cell ≡ []
    → with_cell s (s.cell ++ t) false ≡ record s { cell = t }
refilled t s q e = ground (arith, ap (λ x. x ++ t) e)

filled :
    (t : Text) (s : Scan) → s.cell ≡ [] → record s { cell = s.cell ++ t } ≡ record s { cell = t }
filled t s e = ground (arith, ap (λ x. x ++ t) e)

-- A printed field is read as the field.
pub scan-csv_cell :
    (t rest : Text) (s : Scan)
    → s.quoted ≡ false
    → s.cell ≡ []
    → begins_quoted rest ≡ false
    → scan (csv_cell t ++ rest) s ≡ scan rest (record s { cell = t })
unfolding csv_cell
scan-csv_cell t rest s q e h = elim (Bool-cases (needs_quotes t)) [
  | inl special ↦ rw special (
      ap (λ x. scan (quote ∷ x) s) (append_assoc (double_quotes t) (quote ∷ []) rest)
      ∙ scan-step quote (double_quotes t ++ (quote ∷ rest)) s (rw q)
      ∙ ap (scan (double_quotes t ++ (quote ∷ rest))) (open_quote s q e)
      ∙ scan-double_quotes t rest (record s { quoted = true }) refl h
      ∙ ap (scan rest) (refilled t s q e))
  | inr plain ↦ rw plain (scan-plain t rest s q plain ∙ ap (scan rest) (filled t s e))
]
