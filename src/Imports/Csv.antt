-- ===== src/Imports/Csv.antt =====
-- `parseCsv` of apps/api/src/imports/product-csv-parser.ts and `csvCell` of
-- apps/api/src/imports/product-csv-serializer.ts, over the UTF-16 units of a text.
mod Fields
pub mod RoundTrip
use stock_pilot.Prelude.{
  ℕ, Bool, true, false, ◌&&◌, ◌||◌, not, Option, none, some, List, [], ◌∷◌, ◌++◌, map, ◌==◌,
  if◌then◌else◌,
}

abbrev pub Text : Type 0
Text = List ℕ

abbrev pub quote : ℕ
quote = 0x22

abbrev pub comma : ℕ
comma = 0x2c

abbrev pub line_feed : ℕ
line_feed = 0x0a

abbrev pub carriage_return : ℕ
carriage_return = 0x0d

abbrev pub byte_order_mark : ℕ
byte_order_mark = 0xfeff

-- `replace(/^\uFEFF/, '')`
unfoldable pub strip_mark : Text → Text
strip_mark [] = []
strip_mark (c ∷ cs) = if c == byte_order_mark then cs else c ∷ cs

-- `replace(/\r\n?/g, '\n')`
unfoldable pub unify_lines : Text → Text
unify_lines [] = []
unify_lines (c ∷ []) = (if c == carriage_return then line_feed else c) ∷ []
unify_lines (c ∷ d ∷ cs) =
    let short = unify_lines cs in
    let long = unify_lines (d ∷ cs) in
    if c == carriage_return
    then (if d == line_feed then line_feed ∷ short else line_feed ∷ long)
    else c ∷ long

-- The variables of the loop.
pub record Scan : Type 0 where
  pub records : List (List Text)
  pub row : List Text
  pub cell : Text
  pub quoted : Bool

abbrev pub is_empty : {A : Type 0} → List A → Bool
is_empty [] = true
is_empty (_ ∷ _) = false

-- One round of the loop that looks at one character.
unfoldable pub step : ℕ → Scan → Scan
step c s =
    if s.quoted
    then (if c == quote
        then record s { quoted = false }
        else record s { cell = s.cell ++ (c ∷ []) })
    else if c == quote && is_empty s.cell
    then record s { quoted = true }
    else if c == comma
    then record s { row = s.row ++ (s.cell ∷ []); cell = [] }
    else if c == line_feed
    then record s { records = s.records ++ ((s.row ++ (s.cell ∷ [])) ∷ []); row = []; cell = [] }
    else record s { cell = s.cell ++ (c ∷ []) }

-- The loop; inside quotes a pair of quotes is one character, and takes one round more.
unfoldable pub scan : Text → Scan → Scan
scan [] s = s
scan (c ∷ []) s = step c s
scan (c ∷ d ∷ cs) s =
    let pair = scan cs (record s { cell = s.cell ++ (quote ∷ []) }) in
    let single = scan (d ∷ cs) (step c s) in
    if s.quoted && (c == quote && d == quote) then pair else single

-- What follows the loop; `none` is the exception for an unterminated field.
unfoldable pub finish : Scan → Option (List (List Text))
finish s =
    if s.quoted
    then none
    else if not (is_empty s.cell) || not (is_empty s.row)
    then some (s.records ++ ((s.row ++ (s.cell ∷ [])) ∷ []))
    else some s.records

abbrev pub start : Scan
start = record { records = []; row = []; cell = []; quoted = false }

unfoldable pub parse_csv : Text → Option (List (List Text))
parse_csv content = finish (scan (unify_lines (strip_mark content)) start)

-- `/[",\n]/.test(text)`
unfoldable pub needs_quotes : Text → Bool
needs_quotes [] = false
needs_quotes (c ∷ cs) = (c == quote || (c == comma || c == line_feed)) || needs_quotes cs

-- `replaceAll('"', '""')`
unfoldable pub double_quotes : Text → Text
double_quotes [] = []
double_quotes (c ∷ cs) =
    if c == quote then quote ∷ quote ∷ double_quotes cs else c ∷ double_quotes cs

unfoldable pub csv_cell : Text → Text
csv_cell text = if needs_quotes text then quote ∷ (double_quotes text ++ (quote ∷ [])) else text

-- `join`
unfoldable pub join : ℕ → List Text → Text
join sep [] = []
join sep (t ∷ []) = t
join sep (t ∷ u ∷ ts) = t ++ (sep ∷ join sep (u ∷ ts))

-- The lines of `exportProductsCsv`, the header's among them.
unfoldable pub export_csv : List (List Text) → Text
export_csv rows = join line_feed (map (λ fields. join comma (map csv_cell fields)) rows)
