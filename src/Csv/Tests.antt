-- ===== src/Csv/Tests.antt =====
-- Runs of the writer of frontend/src/utils/csvExport.ts and of the reader of
-- frontend/src/lib/csv-parser.ts.
use flowfi.Prelude.{◌≡◌, refl, [], ◌∷◌, if◌then◌else◌}
use flowfi.Prelude.Text.{Text, codes, text_eq}
use flowfi.Csv.{Cell, missing, shown, parse_csv_line, csv_row, convert_array_to_csv}
use flowfi.Csv.RoundTrip.{parse_csv_line-csv_row}

abbrev row : Text → Cell
row key =
    if text_eq key (codes "name")
    then shown (codes "\"Ann, B.\"")
    else if text_eq key (codes "note")
    then missing
    else shown (codes "12")

written :
    csv_row (codes "name" ∷ codes "note" ∷ codes "amount" ∷ []) row
    ≡ codes "\"\"\"Ann, B.\"\"\",,12"
unfolding csv_row text_eq
written = refl

file_written :
    convert_array_to_csv (codes "note" ∷ codes "amount" ∷ []) (row ∷ row ∷ [])
    ≡ codes "note,amount\n,12\n,12"
unfolding convert_array_to_csv text_eq
file_written = refl

parse_csv_line-csv_row_example :
    parse_csv_line (csv_row (codes "name" ∷ codes "note" ∷ codes "amount" ∷ []) row)
    ≡ codes "\"Ann, B.\"" ∷ [] ∷ codes "12" ∷ []
unfolding text_eq
parse_csv_line-csv_row_example =
    parse_csv_line-csv_row (codes "name") (codes "note" ∷ codes "amount" ∷ []) row
