-- ===== src/Csv.antt =====
-- Comma-separated values: the writer of frontend/src/utils/csvExport.ts and the reader of a line in
-- frontend/src/lib/csv-parser.ts. A cell's value is missing or has the text that `String` gives.
pub mod RoundTrip
mod Tests
use flowfi.Prelude.{ℕ, Bool, true, false, ◌||◌, List, [], ◌∷◌, ◌++◌, map, if◌then◌else◌, ◌==◌}
use flowfi.Prelude.Text.{Text}

abbrev quote : ℕ
quote = b'"'

abbrev comma : ℕ
comma = b','

abbrev line_feed : ℕ
line_feed = 10

-- The loop of `parseCSVLine`, from the text of the field under way on.
unfoldable pub parse_fields : Bool → Text → Text → List Text
parse_fields in_quotes current [] = current ∷ []
parse_fields true current (c ∷ []) = elim (c == quote) [
  | true ↦ current ∷ []
  | false ↦ (current ++ c ∷ []) ∷ []
]
parse_fields true current (c ∷ d ∷ s) = elim (c == quote) [
  | true ↦ elim (d == quote) [
    | true ↦ parse_fields true (current ++ quote ∷ []) s
    | false ↦ parse_fields false current (d ∷ s)
  ]
  | false ↦ parse_fields true (current ++ c ∷ []) (d ∷ s)
]
parse_fields false current (c ∷ s) = elim (c == quote) [
  | true ↦ parse_fields true current s
  | false ↦ elim (c == comma) [
    | true ↦ current ∷ parse_fields false [] s
    | false ↦ parse_fields false (current ++ c ∷ []) s
  ]
]

unfoldable pub parse_csv_line : Text → List Text
unfolding parse_fields
parse_csv_line line = parse_fields false [] line

pub data Cell : Type 0 where
  missing : Cell
  shown : Text → Cell

-- `text.replace(/"/g, '""')`
unfoldable pub double_quotes : Text → Text
double_quotes [] = []
double_quotes (c ∷ s) = if c == quote then quote ∷ quote ∷ double_quotes s else c ∷ double_quotes s

-- `/("|,|\n)/.test(text)`
unfoldable pub is_special : Text → Bool
is_special [] = false
is_special (c ∷ s) = c == quote || c == comma || c == line_feed || is_special s

unfoldable pub escape_csv_cell : Cell → Text
unfolding double_quotes is_special
escape_csv_cell missing = []
escape_csv_cell (shown text) =
    let escaped = double_quotes text in
    if is_special escaped then quote ∷ escaped ++ quote ∷ [] else escaped

-- `Array.prototype.join`
unfoldable pub join_with : ℕ → List Text → Text
join_with separator [] = []
join_with separator (x ∷ []) = x
join_with separator (x ∷ y ∷ xs) = x ++ separator ∷ join_with separator (y ∷ xs)

-- A row is the value of each key.
unfoldable pub csv_row : List Text → (Text → Cell) → Text
unfolding join_with escape_csv_cell
csv_row keys row = join_with comma (map (λ key. escape_csv_cell (row key)) keys)

-- `convertArrayToCSV`, with the keys of the first row.
unfoldable pub convert_array_to_csv : List Text → List (Text → Cell) → Text
unfolding csv_row join_with
convert_array_to_csv keys [] = []
convert_array_to_csv keys (row ∷ rows) =
    join_with line_feed (join_with comma keys ∷ map (λ r. csv_row keys r) (row ∷ rows))
