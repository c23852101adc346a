-- ===== src/Tests/Csv.antt =====
-- An export with a comma, a quote and a line feed in its fields.
use stock_pilot.Prelude.{◌≡◌, refl, some, [], ◌∷◌, map}
use stock_pilot.Imports.Csv.{
  export_csv, parse_csv, csv_cell, join, needs_quotes, double_quotes, strip_mark, unify_lines, scan,
  step, finish,
}
use stock_pilot.Imports.Csv.RoundTrip.{Row, fields, parse_csv-export_csv}

abbrev header : Row
header = record { first = 0x61 ∷ []; second = 0x62 ∷ []; others = [] }

-- The fields `x,"` and an empty one, and a line feed.
abbrev entry : Row
entry = record { first = 0x78 ∷ 0x2c ∷ 0x22 ∷ []; second = []; others = (0x0a ∷ []) ∷ [] }

parse_csv-export_csv_example :
    parse_csv (export_csv (map fields (header ∷ entry ∷ [])))
    ≡ some (map fields (header ∷ entry ∷ []))
unfolding export_csv join csv_cell needs_quotes double_quotes
parse_csv-export_csv_example = parse_csv-export_csv header (entry ∷ []) refl refl

-- A field with a carriage return is written bare, and is read back as the end of a row.
return_splits_row :
    parse_csv (export_csv (((0x61 ∷ []) ∷ (0x62 ∷ 0x0d ∷ 0x63 ∷ []) ∷ []) ∷ []))
    ≡ some (((0x61 ∷ []) ∷ (0x62 ∷ []) ∷ []) ∷ ((0x63 ∷ []) ∷ []) ∷ [])
unfolding export_csv join csv_cell needs_quotes double_quotes parse_csv strip_mark unify_lines scan
    step finish
return_splits_row = refl
