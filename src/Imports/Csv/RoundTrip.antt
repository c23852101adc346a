-- ===== src/Imports/Csv/RoundTrip.antt =====
-- What is exported is read back.
use mathlib.Core.List.{append_assoc, append-nil}
use stock_pilot.Prelude.{
  ◌≡◌, refl, sym, ap, ◌∙◌, Bool, true, false, ◌&&◌, not, some, List, [], ◌∷◌, ◌++◌, map, ◌==◌,
  arith,
}
use stock_pilot.Imports.Csv.{
  Text, comma, line_feed, carriage_return, byte_order_mark, strip_mark, unify_lines, Scan, is_empty,
  step, scan, finish, start, parse_csv, csv_cell, join, export_csv,
}
use stock_pilot.Imports.Csv.Fields.{begins_quoted, scan-step, scan-csv_cell}

-- The state after the last field of a row, the fields before it pushed.
abbrev loaded : Scan → Text → List Text → Scan
loaded s t [] = record s { cell = t }
loaded s t (u ∷ ts) = loaded (record s { row = s.row ++ (t ∷ []); cell = [] }) u ts

step-comma :
    (t : Text) (s : Scan)
    → s.quoted ≡ false
    → step comma (record s { cell = t }) ≡ record s { row = s.row ++ (t ∷ []); cell = [] }
unfolding step
step-comma t s q = ground arith

step-line_feed :
    (s : Scan)
    → s.quoted ≡ false
    → step line_feed s
      ≡ record s { records = s.records ++ ((s.row ++ (s.cell ∷ [])) ∷ []); row = []; cell = [] }
unfolding step
step-line_feed s q = ground arith

print_row : List Text → Text
print_row fields = join comma (map csv_cell fields)

-- A printed row is read as its fields.
scan-print_row :
    (t : Text) (ts : List Text) (rest : Text) (s : Scan)
    → s.quoted ≡ false
    → s.cell ≡ []
    → begins_quoted rest ≡ false
    → scan (print_row (t ∷ ts) ++ rest) s ≡ scan rest (loaded s t ts)
unfolding print_row join
scan-print_row t [] rest s q e h = scan-csv_cell t rest s q e h
scan-print_row t (u ∷ ts) rest s q e h =
    let tail = print_row (u ∷ ts) in
    ap (λ x. scan x s) (append_assoc (csv_cell t) (comma ∷ tail) rest)
    ∙ scan-csv_cell t (comma ∷ (tail ++ rest)) s q e refl
    ∙ scan-step comma (tail ++ rest) (record s { cell = t }) (rw q)
    ∙ ap (scan (tail ++ rest)) (step-comma t s q)
    ∙ scan-print_row u ts rest (record s { row = s.row ++ (t ∷ []); cell = [] }) q refl h

loaded-row :
    (t : Text) (ts : List Text) (s : Scan)
    → (loaded s t ts).row ++ ((loaded s t ts).cell ∷ []) ≡ s.row ++ (t ∷ ts)
loaded-row t [] s = refl
loaded-row t (u ∷ ts) s =
    loaded-row u ts (record s { row = s.row ++ (t ∷ []); cell = [] })
    ∙ append_assoc s.row (t ∷ []) (u ∷ ts)

loaded-records : (t : Text) (ts : List Text) (s : Scan) → (loaded s t ts).records ≡ s.records
loaded-records t [] s = refl
loaded-records t (u ∷ ts) s = loaded-records u ts (record s { row = s.row ++ (t ∷ []); cell = [] })

loaded-quoted : (t : Text) (ts : List Text) (s : Scan) → (loaded s t ts).quoted ≡ s.quoted
loaded-quoted t [] s = refl
loaded-quoted t (u ∷ ts) s = loaded-quoted u ts (record s { row = s.row ++ (t ∷ []); cell = [] })

-- A row of at least two fields.
pub record Row : Type 0 where
  pub first : Text
  pub second : Text
  pub others : List Text

abbrev pub fields : Row → List Text
fields r = r.first ∷ r.second ∷ r.others

abbrev between : List (List Text) → Scan
between done = record { records = done; row = []; cell = []; quoted = false }

pushed-ne_empty : (ts : List Text) (t : Text) → is_empty (ts ++ (t ∷ [])) ≡ false
pushed-ne_empty [] t = refl
pushed-ne_empty (u ∷ ts) t = refl

loaded-ne_empty :
    (t u : Text) (ts : List Text) (s : Scan) → is_empty (loaded s t (u ∷ ts)).row ≡ false
loaded-ne_empty t u [] s = pushed-ne_empty s.row t
loaded-ne_empty t u (v ∷ ts) s =
    loaded-ne_empty u v ts (record s { row = s.row ++ (t ∷ []); cell = [] })

finish_pending :
    (l : Scan)
    → l.quoted ≡ false
    → is_empty l.row ≡ false
    → finish l ≡ some (l.records ++ ((l.row ++ (l.cell ∷ [])) ∷ []))
unfolding finish
finish_pending l q e = ground arith

module _ (done : List (List Text)) (r : Row) where
  abbrev last : Scan
  last = loaded (between done) r.first (r.second ∷ r.others)

  abbrev ended : List (List Text)
  ended = done ++ (fields r ∷ [])

  closed_row : last.records ++ ((last.row ++ (last.cell ∷ [])) ∷ []) ≡ ended
  closed_row =
      ap (λ x. x ++ ((last.row ++ (last.cell ∷ [])) ∷ []))
        (loaded-records r.first (r.second ∷ r.others) (between done))
      ∙ ap (λ x. done ++ (x ∷ [])) (loaded-row r.first (r.second ∷ r.others) (between done))

  unquoted : last.quoted ≡ false
  unquoted = loaded-quoted r.first (r.second ∷ r.others) (between done)

  -- What is read of the last row.
  finish_row : finish last ≡ some ended
  finish_row =
      finish_pending last unquoted (loaded-ne_empty r.first r.second r.others (between done))
      ∙ ap some closed_row

  next_row : step line_feed last ≡ between ended
  next_row = step-line_feed last unquoted ∙ λ i. record {
    records = closed_row i;
    row = [];
    cell = [];
    quoted = unquoted i;
  }

scan-rows :
    (r : Row) (rs : List Row) (done : List (List Text))
    → finish (scan (export_csv (map fields (r ∷ rs))) (between done))
      ≡ some (done ++ map fields (r ∷ rs))
unfolding export_csv join print_row scan
scan-rows r [] done =
    ap (λ x. finish (scan x (between done))) (sym (append-nil (print_row (fields r))))
    ∙ ap finish (scan-print_row r.first (r.second ∷ r.others) [] (between done) refl refl refl)
    ∙ finish_row done r
scan-rows r (r' ∷ rs) done =
    let rest = export_csv (map fields (r' ∷ rs)) in
    ap finish (
      scan-print_row r.first (r.second ∷ r.others) (line_feed ∷ rest) (between done) refl refl refl
      ∙ scan-step line_feed rest (last done r) (rw (unquoted done r))
      ∙ ap (scan rest) (next_row done r))
    ∙ scan-rows r' rs (ended done r)
    ∙ ap some (append_assoc done (fields r ∷ []) (map fields (r' ∷ rs)))

-- No carriage return: the parser turns each into a line feed.
abbrev pub no_return : Text → Bool
no_return [] = true
no_return (c ∷ cs) = not (c == carriage_return) && no_return cs

unify_lines-id : (t : Text) → no_return t ≡ true → unify_lines t ≡ t
unfolding unify_lines
unify_lines-id [] h = refl
unify_lines-id (c ∷ []) h = ground arith
unify_lines-id (c ∷ d ∷ cs) h = ground (arith, unify_lines-id (d ∷ cs))

abbrev pub marked : Text → Bool
marked [] = false
marked (c ∷ cs) = c == byte_order_mark

strip_mark-id : (t : Text) → marked t ≡ false → strip_mark t ≡ t
unfolding strip_mark
strip_mark-id [] h = refl
strip_mark-id (c ∷ cs) h = ground arith

-- The rows of an export are read back unchanged, whatever commas, quotes and line feeds their
-- fields hold: every row has two fields or more, there is at least one row, and the exported text
-- has no carriage return and does not begin with a byte order mark.
pub parse_csv-export_csv :
    (r : Row) (rs : List Row)
    → no_return (export_csv (map fields (r ∷ rs))) ≡ true
    → marked (export_csv (map fields (r ∷ rs))) ≡ false
    → parse_csv (export_csv (map fields (r ∷ rs))) ≡ some (map fields (r ∷ rs))
unfolding parse_csv
parse_csv-export_csv r rs clean unmarked =
    let text = export_csv (map fields (r ∷ rs)) in
    ap (λ x. finish (scan x start))
      (ap unify_lines (strip_mark-id text unmarked) ∙ unify_lines-id text clean)
    ∙ scan-rows r rs []
