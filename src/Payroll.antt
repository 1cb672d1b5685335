-- ===== src/Payroll.antt =====
-- The payroll upload of frontend/src/lib/csv-parser.ts: the validation of a row and the parsing of a
-- file. What `parseFloat` makes of an amount, and `BigInt(Math.round(amount * 10 ** 7))` of a
-- positive one, is floating point and given by a function. `parseInt` is exact, as it is below
-- 2^53. Lower case is that of ASCII: no other letter's lower case stands in a column's name. An
-- error is named for its message.
pub mod Validation
pub mod Totals
mod Tests
use mathlib.Core.List.{reverse}
use mathlib.Core.Option
use flowfi.Prelude.{
  ℕ, zero, suc, ◌+◌, ◌*◌, ◌/◌, ◌-◌, Bool, true, false, not, ◌&&◌, ◌||◌, Option, none, some, List,
  [], ◌∷◌, ◌++◌, if◌then◌else◌, ltb, leb, ◌==◌, length, get_elem?, select, ℤ, pos, sub_ℕ, ltb_ℤ,
  leb_ℤ, ◌-ℤ◌,
}
use flowfi.Prelude.Text.{Text, codes, text_eq, is_digit, is_space, drop_space, trim, digit_value}
use flowfi.Amount.{after_dot}
use flowfi.Csv.{parse_csv_line}

pub record BatchStreamEntry : Type 0 where
  pub id : ℕ
  pub recipient : Text
  pub amount : Text
  pub duration_seconds : Text
  pub cliff_seconds : Text

pub data ValidationError : Type 0 where
  recipient_required recipient_invalid : ValidationError
  amount_required amount_not_a_number amount_not_positive amount_too_precise : ValidationError
  duration_required duration_not_positive : ValidationError
  cliff_negative cliff_not_below_duration : ValidationError

pub record ValidatedEntry : Type 0 where
  pub entry : BatchStreamEntry
  pub errors : List ValidationError
  pub is_valid : Bool

pub record BatchValidationSummary : Type 0 where
  pub entries : List ValidatedEntry
  pub total_rows : ℕ
  pub valid_rows : ℕ
  pub invalid_rows : ℕ
  pub total_gross_amount : ℕ
  pub total_protocol_fee : ℕ
  pub total_net_distributed : ℤ
  pub protocol_fee_rate : ℕ

abbrev pub protocol_fee_rate : ℕ
protocol_fee_rate = 250

abbrev pub basis_points : ℕ
basis_points = 10000

abbrev pub token_decimals : ℕ
token_decimals = 7

-- A positive number comes with its base units; `none` is the RangeError of `BigInt` at infinity.
pub data Reading : Type 0 where
  not_a_number not_positive : Reading
  positive : Option ℕ → Reading

-- `[A-Z2-7]`
abbrev is_base32 : ℕ → Bool
is_base32 c = (leb b'A' c && leb c b'Z') || (leb b'2' c && leb c b'7')

-- `[A-Z2-7]{n}$`
unfoldable pub is_base32_text : ℕ → Text → Bool
is_base32_text zero [] = true
is_base32_text zero (c ∷ s) = false
is_base32_text (suc n) [] = false
is_base32_text (suc n) (c ∷ s) = is_base32 c && is_base32_text n s

abbrev is_key_text : Text → Bool
is_key_text [] = false
is_key_text (c ∷ s) = c == b'G' && is_base32_text 55 s

unfoldable pub is_valid_stellar_public_key : Text → Bool
unfolding is_base32_text
is_valid_stellar_public_key value = is_key_text (trim value)

-- `value.includes(c)` for one character.
unfoldable pub includes : ℕ → Text → Bool
includes c [] = false
includes c (d ∷ s) = d == c || includes c s

unfoldable pub is_valid_federated_name : Text → Bool
unfolding includes
is_valid_federated_name value = includes b'@' value && ltb 3 (length value)

-- The longest run of digits at the front.
unfoldable pub leading_digits : Text → Text
leading_digits [] = []
leading_digits (c ∷ s) = let rest = leading_digits s in if is_digit c then c ∷ rest else []

abbrev value_of_digits : ℕ → Text → ℕ
value_of_digits n [] = n
value_of_digits n (c ∷ s) = value_of_digits (n * 10 + digit_value c) s

abbrev natural_of : Text → Option ℕ
natural_of [] = none
natural_of (c ∷ s) = some (value_of_digits 0 (c ∷ s))

abbrev signed : Text → Option ℤ
signed [] = none
signed (c ∷ s) =
    if c == b'-'
    then Option.map (sub_ℕ 0) (natural_of (leading_digits s))
    else if c == b'+'
    then Option.map pos (natural_of (leading_digits s))
    else Option.map pos (natural_of (leading_digits (c ∷ s)))

-- `parseInt(text, 10)`; `none` is NaN.
unfoldable pub parse_int : Text → Option ℤ
unfolding leading_digits drop_space digit_value
parse_int s = signed (drop_space s)

abbrev pub recipient_errors : Text → List ValidationError
recipient_errors [] = recipient_required ∷ []
recipient_errors (c ∷ s) =
    if not (is_valid_stellar_public_key (c ∷ s)) && not (is_valid_federated_name (c ∷ s))
    then recipient_invalid ∷ []
    else []

abbrev pub precision_errors : Text → List ValidationError
precision_errors s =
    if includes b'.' s
    then if ltb token_decimals (length (after_dot s)) then amount_too_precise ∷ [] else []
    else []

abbrev pub reading_errors : Text → Reading → List ValidationError
reading_errors s not_a_number = amount_not_a_number ∷ []
reading_errors s not_positive = amount_not_positive ∷ []
reading_errors s (positive units) = precision_errors s

abbrev pub amount_errors : (Text → Reading) → Text → List ValidationError
amount_errors parse_float [] = amount_required ∷ []
amount_errors parse_float (c ∷ s) = reading_errors (c ∷ s) (parse_float (c ∷ s))

abbrev pub seconds_errors : Option ℤ → List ValidationError
seconds_errors none = duration_not_positive ∷ []
seconds_errors (some duration) = if leb_ℤ duration (pos 0) then duration_not_positive ∷ [] else []

abbrev pub duration_errors : Text → List ValidationError
duration_errors [] = duration_required ∷ []
duration_errors (c ∷ s) = seconds_errors (parse_int (c ∷ s))

abbrev pub late_cliff_errors : ℤ → Option ℤ → List ValidationError
late_cliff_errors cliff none = []
late_cliff_errors cliff (some duration) =
    if leb_ℤ duration cliff then cliff_not_below_duration ∷ [] else []

abbrev pub cliff_value_errors : Option ℤ → Text → List ValidationError
cliff_value_errors none duration = cliff_negative ∷ []
cliff_value_errors (some cliff) duration =
    if ltb_ℤ cliff (pos 0)
    then cliff_negative ∷ []
    else late_cliff_errors cliff (parse_int duration)

abbrev pub cliff_errors : Text → Text → List ValidationError
cliff_errors [] duration = []
cliff_errors (c ∷ s) duration = cliff_value_errors (parse_int (c ∷ s)) duration

unfoldable pub validate_entry : (Text → Reading) → BatchStreamEntry → List ValidationError
unfolding is_valid_stellar_public_key is_valid_federated_name includes after_dot parse_int
validate_entry parse_float e =
    recipient_errors (trim e.recipient)
    ++ amount_errors parse_float (trim e.amount)
    ++ duration_errors (trim e.duration_seconds)
    ++ cliff_errors (trim e.cliff_seconds) (trim e.duration_seconds)

-- `csvContent.split(/\r?\n/)`, from the text of the line under way on.
unfoldable pub split_lines : Text → Text → List Text
split_lines current [] = current ∷ []
split_lines current (c ∷ []) = elim (c == 10) [
  | true ↦ current ∷ [] ∷ []
  | false ↦ (current ++ c ∷ []) ∷ []
]
split_lines current (c ∷ d ∷ s) = elim (c == 10) [
  | true ↦ current ∷ split_lines [] (d ∷ s)
  | false ↦ elim (c == 13 && d == 10) [
    | true ↦ current ∷ split_lines [] s
    | false ↦ split_lines (current ++ c ∷ []) (d ∷ s)
  ]
]

-- The lines that are not blank, each without the space around it.
unfoldable pub full_lines : List Text → List Text
unfolding trim
full_lines [] = []
full_lines (line ∷ lines) =
    let rest = full_lines lines in elim (trim line) [ [] ↦ rest | c ∷ s ↦ (c ∷ s) ∷ rest ]

abbrev lower : ℕ → ℕ
lower c = if leb b'A' c && leb c b'Z' then c + 32 else c

unfoldable pub to_lower_case : Text → Text
to_lower_case [] = []
to_lower_case (c ∷ s) = lower c ∷ to_lower_case s

-- `header.findIndex(h => test(h.toLowerCase()))`; `none` is -1.
unfoldable pub find_index : (Text → Bool) → List Text → Option ℕ
unfolding to_lower_case
find_index test [] = none
find_index test (h ∷ header) =
    if test (to_lower_case h) then some 0 else Option.map suc (find_index test header)

abbrev pub or_empty : Option Text → Text
or_empty none = []
or_empty (some t) = t

abbrev cliff_of : List Text → Option ℕ → Text
cliff_of columns none = codes "0"
cliff_of columns (some i) = or_empty (get_elem? columns i)

pub record Columns : Type 0 where
  pub recipient : ℕ
  pub amount : ℕ
  pub duration : ℕ
  pub cliff : Option ℕ

-- The columns that the header names, if those that are needed are there.
unfoldable pub find_columns : List Text → Option Columns
unfolding find_index text_eq
find_columns header = elim (find_index (text_eq (codes "recipient")) header) [
  | none ↦ none
  | some recipient ↦ elim (find_index (text_eq (codes "amount")) header) [
    | none ↦ none
    | some amount ↦
        elim (find_index (λ h. text_eq (codes "duration_seconds") h || text_eq (codes "duration") h)
          header) [
            | none ↦ none
            | some duration ↦ some (record {
              recipient = recipient;
              amount = amount;
              duration = duration;
              cliff =
                  find_index (λ h. text_eq (codes "cliff_seconds") h || text_eq (codes "cliff") h)
                    header;
            })
          ]
  ]
]

unfoldable pub read_entry : Columns → ℕ → List Text → BatchStreamEntry
read_entry at i columns = record {
  id = i;
  recipient = or_empty (get_elem? columns at.recipient);
  amount = or_empty (get_elem? columns at.amount);
  duration_seconds = or_empty (get_elem? columns at.duration);
  cliff_seconds = cliff_of columns at.cliff;
}

-- The variables of the loop.
pub record Sheet : Type 0 where
  pub entries : List ValidatedEntry
  pub total_gross_amount : ℕ
  pub total_protocol_fee : ℕ

abbrev pub empty_sheet : Sheet
empty_sheet = record { entries = []; total_gross_amount = 0; total_protocol_fee = 0 }

unfoldable pub protocol_fee : ℕ → ℕ
protocol_fee units = (units * protocol_fee_rate) / basis_points

abbrev pub add_entry : BatchStreamEntry → List ValidationError → Sheet → Sheet
add_entry e errors t = record t {
  entries = t.entries ++ record { entry = e; errors = errors; is_valid = length errors == 0 } ∷ [];
}

abbrev pub add_amount : Reading → Sheet → Option Sheet
add_amount (positive (some units)) t = some (record t {
  total_gross_amount = t.total_gross_amount + units;
  total_protocol_fee = t.total_protocol_fee + protocol_fee units;
})
add_amount _ t = none

abbrev pub summary_of : Sheet → BatchValidationSummary
summary_of t = record {
  entries = t.entries;
  total_rows = length t.entries;
  valid_rows = length (select (λ e. e.is_valid) t.entries);
  invalid_rows = length (select (λ e. not e.is_valid) t.entries);
  total_gross_amount = t.total_gross_amount;
  total_protocol_fee = t.total_protocol_fee;
  total_net_distributed = pos t.total_gross_amount -ℤ pos t.total_protocol_fee;
  protocol_fee_rate = protocol_fee_rate;
}

module _ (parse_float : Text → Reading) where
  -- One row; `none` is a throw.
  unfoldable pub read_row : BatchStreamEntry → Sheet → Option Sheet
  unfolding validate_entry protocol_fee
  read_row e t = elim (validate_entry parse_float e) [
    | [] ↦ Option.map (add_entry e []) (add_amount (parse_float (trim e.amount)) t)
    | error ∷ errors ↦ some (add_entry e (error ∷ errors) t)
  ]

  -- The loop over the lines after the header, from the number `i` on. A line that is parsed has at
  -- least one column, so that no row is skipped.
  unfoldable pub read_rows : Columns → ℕ → List Text → Sheet → Option Sheet
  unfolding read_row read_entry
  read_rows at i [] t = some t
  read_rows at i (line ∷ lines) t = elim (read_row (read_entry at i (parse_csv_line line)) t) [
    | none ↦ none
    | some u ↦ read_rows at (suc i) lines u
  ]

  abbrev pub parse_sheet : List Text → Option BatchValidationSummary
  parse_sheet [] = some (summary_of empty_sheet)
  parse_sheet (header ∷ []) = some (summary_of empty_sheet)
  parse_sheet (header ∷ line ∷ lines) = elim (find_columns (parse_csv_line header)) [
    | none ↦ some (summary_of empty_sheet)
    | some at ↦ Option.map summary_of (read_rows at 1 (line ∷ lines) empty_sheet)
  ]

  -- A header and at least one row, or an empty summary; `none` is a throw.
  unfoldable pub parse_batch_csv : Text → Option BatchValidationSummary
  unfolding split_lines full_lines find_columns read_rows
  parse_batch_csv content = parse_sheet (full_lines (split_lines [] content))
