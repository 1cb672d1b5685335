-- ===== src/Csv/RoundTrip.antt =====
-- What frontend/src/utils/csvExport.ts writes as a row is what frontend/src/lib/csv-parser.ts reads.
use flowfi.Prelude.{
  ℕ, true, false, List, [], ◌∷◌, ◌++◌, map, ◌==◌, ◌≡◌, refl, sym, ap, ◌∙◌, arith, append-nil,
  append_assoc, Bool-cases, inl, inr,
}
use flowfi.Prelude.Text.{Text}
use flowfi.Csv.{
  parse_fields, parse_csv_line, Cell, missing, shown, double_quotes, is_special, escape_csv_cell,
  join_with, csv_row,
}

-- What a cell's value is when it is read back.
abbrev pub text_of : Cell → Text
text_of missing = []
text_of (shown t) = t

-- The rest of a line after a field.
data Ends : Text → Type 0 where
  at_end : Ends []
  at_comma : {s : Text} → Ends (b',' ∷ s)

-- One character outside quotes, and one inside.
outside_step :
    (cur s : Text) (c : ℕ)
    → (c == b'"') ≡ false
    → (c == b',') ≡ false
    → parse_fields false cur (c ∷ s) ≡ parse_fields false (cur ++ c ∷ []) s
unfolding parse_fields
outside_step cur s c p q = rw (p, q, parse_fields) refl

inside_step :
    (cur s : Text) (c : ℕ)
    → (c == b'"') ≡ false
    → parse_fields true cur (c ∷ s) ≡ parse_fields true (cur ++ c ∷ []) s
unfolding parse_fields
inside_step cur [] c p = rw (p, parse_fields) refl
inside_step cur (d ∷ s) c p = rw (p, parse_fields) refl

doubled_step :
    (cur s : Text)
    → parse_fields true cur (b'"' ∷ b'"' ∷ s) ≡ parse_fields true (cur ++ b'"' ∷ []) s
unfolding parse_fields
doubled_step cur s = refl

opening_step : (cur s : Text) → parse_fields false cur (b'"' ∷ s) ≡ parse_fields true cur s
unfolding parse_fields
opening_step cur s = refl

closing_step :
    (cur rest : Text)
    → Ends rest
    → parse_fields true cur (b'"' ∷ rest) ≡ parse_fields false cur rest
unfolding parse_fields
closing_step cur [] h = refl
closing_step cur (_ ∷ s) at_comma = refl

parse_fields-plain :
    (cur t rest : Text)
    → is_special (double_quotes t) ≡ false
    → parse_fields false cur (double_quotes t ++ rest) ≡ parse_fields false (cur ++ t) rest
unfolding is_special double_quotes
parse_fields-plain cur [] rest h = ap (λ x. parse_fields false x rest) (sym (append-nil cur))
parse_fields-plain cur (c ∷ t) rest h = elim (Bool-cases (c == b'"')) [
  | inl quoted ↦ absurd (ground (arith, quoted))
  | inr plain ↦ rw plain (
      outside_step cur (double_quotes t ++ rest) c plain (ground (arith, plain))
      ∙ parse_fields-plain (cur ++ c ∷ []) t rest (ground (arith, plain))
      ∙ ap (λ x. parse_fields false x rest) (append_assoc cur (c ∷ []) t))
]

parse_fields-quoted :
    (cur t rest : Text)
    → Ends rest
    → parse_fields true cur (double_quotes t ++ b'"' ∷ rest) ≡ parse_fields false (cur ++ t) rest
unfolding double_quotes
parse_fields-quoted cur [] rest h =
    closing_step cur rest h ∙ ap (λ x. parse_fields false x rest) (sym (append-nil cur))
parse_fields-quoted cur (c ∷ t) rest h =
    let again =
      parse_fields-quoted (cur ++ c ∷ []) t rest h
      ∙ ap (λ x. parse_fields false x rest) (append_assoc cur (c ∷ []) t) in
    elim (Bool-cases (c == b'"')) [
      | inl quoted ↦
          let e : c ≡ b'"' = ground (arith, quoted) in
          rw quoted (
            doubled_step cur (double_quotes t ++ b'"' ∷ rest)
            ∙ ap (λ x. parse_fields true (cur ++ x ∷ []) (double_quotes t ++ b'"' ∷ rest)) (sym e)
            ∙ again)
      | inr plain ↦ rw plain (inside_step cur (double_quotes t ++ b'"' ∷ rest) c plain ∙ again)
    ]

parse_fields-cell :
    (cell : Cell) (rest : Text)
    → Ends rest
    → parse_fields false [] (escape_csv_cell cell ++ rest) ≡ parse_fields false (text_of cell) rest
unfolding escape_csv_cell
parse_fields-cell missing rest h = refl
parse_fields-cell (shown t) rest h = elim (Bool-cases (is_special (double_quotes t))) [
  | inl special ↦ rw special (
      opening_step [] ((double_quotes t ++ b'"' ∷ []) ++ rest)
      ∙ ap (λ x. parse_fields true [] x) (append_assoc (double_quotes t) (b'"' ∷ []) rest)
      ∙ parse_fields-quoted [] t rest h)
  | inr plain ↦ rw plain (parse_fields-plain [] t rest plain)
]

-- The row that the writer makes for some keys, at least one, is read back as the texts of the
-- row's values in the order of the keys, quotes, commas and line ends in them included.
pub parse_csv_line-csv_row :
    (key : Text) (keys : List Text) (row : Text → Cell)
    → parse_csv_line (csv_row (key ∷ keys) row) ≡ map (λ k. text_of (row k)) (key ∷ keys)
unfolding parse_csv_line csv_row join_with parse_fields
parse_csv_line-csv_row key [] row =
    ap (λ x. parse_fields false [] x) (sym (append-nil (escape_csv_cell (row key))))
    ∙ parse_fields-cell (row key) [] at_end
parse_csv_line-csv_row key (k ∷ keys) row =
    parse_fields-cell (row key) (b',' ∷ csv_row (k ∷ keys) row) at_comma
    ∙ ap (λ x. text_of (row key) ∷ x) (parse_csv_line-csv_row k keys row)
