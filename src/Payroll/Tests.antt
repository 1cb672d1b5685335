-- ===== src/Payroll/Tests.antt =====
-- Runs of the payroll parser of frontend/src/lib/csv-parser.ts on its sample file and on others.
use flowfi.Prelude.{
  ℕ, suc, ◌≡◌, refl, Option, none, some, List, [], ◌∷◌, ◌++◌, ℤ, pos, ◌+ℤ◌, ◌*ℤ◌, ◌-ℤ◌, ◌↔◌,
}
use flowfi.Prelude.Text.{Text, codes, is_space, trim, big_int}
use flowfi.Csv.{parse_csv_line}
use flowfi.Amount.{parse_amount}
use flowfi.Payroll.{
  BatchStreamEntry, recipient_invalid, amount_too_precise, cliff_not_below_duration,
  BatchValidationSummary, Reading, not_positive, positive, parse_int, split_lines, validate_entry,
  parse_batch_csv,
}
use flowfi.Payroll.Validation.{IsPayable, validate_entry_iff}
use flowfi.Payroll.Totals.{IsBalanced, parse_batch_csv-IsBalanced}

-- Decimal amounts, read exactly; what is none counts as not positive.
abbrev reading_of : Option ℤ → Reading
reading_of (some (pos (suc n))) = positive (some (suc n))
reading_of _ = not_positive

abbrev read_decimal : Text → Reading
read_decimal s = reading_of (parse_amount s 7)

abbrev key : Text
key = codes "GBBDIOEJGZHV5GFZQB4T7NKZQKRVNDQYXKW6Z3VJXZAVFQKZ5HM5J2EU"

abbrev header : Text
header = codes "recipient,amount,duration_seconds,cliff_seconds"

abbrev file : Text
file =
    header
    ++ 10 ∷ key
    ++ codes ",1500.00,2592000,0"
    ++ 13 ∷ 10 ∷ codes "user@example.org,0.0000039, 86400 ,3600"
    ++ 10 ∷ 10 ∷ codes "nobody,1,10,10"

abbrev entry : BatchStreamEntry
entry = record {
  id = 1;
  recipient = codes "user@example.org";
  amount = codes "2.5";
  duration_seconds = codes "60 days";
  cliff_seconds = [];
}

leading_number : parse_int (codes " +60 days") ≡ some (pos 60)
unfolding parse_int is_space
leading_number = refl

two_ends : split_lines [] (97 ∷ 13 ∷ 10 ∷ 10 ∷ 98 ∷ []) ≡ codes "a" ∷ [] ∷ codes "b" ∷ []
unfolding split_lines
two_ends = refl

bad_row :
    validate_entry read_decimal (record {
      id = 1;
      recipient = codes "nobody";
      amount = codes "0.12345678";
      duration_seconds = codes "10";
      cliff_seconds = codes "10";
    })
    ≡ recipient_invalid ∷ amount_too_precise ∷ cliff_not_below_duration ∷ []
unfolding validate_entry parse_amount trim big_int ◌+ℤ◌ ◌*ℤ◌ ◌-ℤ◌ parse_csv_line
bad_row = refl

entry_accepted : validate_entry read_decimal entry ≡ []
unfolding validate_entry parse_amount trim big_int ◌+ℤ◌ ◌*ℤ◌ ◌-ℤ◌ parse_csv_line
entry_accepted = refl

validate_entry_iff_example : (validate_entry read_decimal entry ≡ []) ↔ IsPayable read_decimal entry
validate_entry_iff_example = validate_entry_iff read_decimal entry

abbrev numbers : Option BatchValidationSummary → List ℕ
numbers none = []
numbers (some s) =
    s.total_rows ∷ s.valid_rows ∷ s.invalid_rows ∷ s.total_gross_amount ∷ s.total_protocol_fee ∷ []

three_rows : numbers (parse_batch_csv read_decimal file) ≡ 3 ∷ 2 ∷ 1 ∷ 15000000039 ∷ 375000000 ∷ []
unfolding parse_batch_csv parse_amount trim big_int ◌+ℤ◌ ◌*ℤ◌ ◌-ℤ◌ parse_csv_line
three_rows = refl

-- Without a column that is needed nothing is read.
no_rows : numbers (parse_batch_csv read_decimal (codes "to,amount\na,1")) ≡ 0 ∷ 0 ∷ 0 ∷ 0 ∷ 0 ∷ []
unfolding parse_batch_csv parse_amount trim big_int ◌+ℤ◌ ◌*ℤ◌ ◌-ℤ◌ parse_csv_line
no_rows = refl

-- An amount that is read as infinity passes the validation and makes the parser throw.
infinite_throws :
    parse_batch_csv (λ s. positive none) (codes "recipient,amount,duration\na@b.c,Infinity,10")
    ≡ none
unfolding parse_batch_csv trim parse_csv_line
infinite_throws = refl

abbrev summary_or : Option BatchValidationSummary → BatchValidationSummary
summary_or (some s) = s
summary_or none = record {
  entries = [];
  total_rows = 0;
  valid_rows = 0;
  invalid_rows = 0;
  total_gross_amount = 0;
  total_protocol_fee = 0;
  total_net_distributed = pos 0;
  protocol_fee_rate = 0;
}

abbrev file_summary : BatchValidationSummary
unfolding parse_batch_csv parse_amount trim big_int ◌+ℤ◌ ◌*ℤ◌ ◌-ℤ◌ parse_csv_line
file_summary = summary_or (parse_batch_csv read_decimal file)

file_read : parse_batch_csv read_decimal file ≡ some file_summary
unfolding parse_batch_csv parse_amount trim big_int ◌+ℤ◌ ◌*ℤ◌ ◌-ℤ◌ parse_csv_line
file_read = refl

parse_batch_csv-IsBalanced_example : IsBalanced read_decimal file_summary
parse_batch_csv-IsBalanced_example =
    parse_batch_csv-IsBalanced read_decimal file file_summary file_read
