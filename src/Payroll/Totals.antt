-- ===== src/Payroll/Totals.antt =====
-- The totals of a payroll file in frontend/src/lib/csv-parser.ts.
use mathlib.Core.Path.{subst}
use mathlib.Core.Option
use flowfi.Prelude.{
  ℕ, suc, ◌+◌, ◌-◌, ◌*◌, ◌≤◌, Bool, true, false, not, none, some, List, [], ◌∷◌, ◌++◌,
  if◌then◌else◌, ◌==◌, length, select, pos, -ℤ_pos, ◌≡◌, refl, arith, inl, inr, Bool-cases,
  Option-cases, ap, length-append, All, All-append, sym, ◌∙◌,
}
use flowfi.Prelude.Text.{Text, trim}
use flowfi.Csv.{parse_csv_line}
use flowfi.Payroll.{
  BatchStreamEntry, ValidationError, ValidatedEntry, BatchValidationSummary, Reading, not_a_number,
  not_positive, positive, Sheet, empty_sheet, protocol_fee, add_entry, add_amount, validate_entry,
  read_row, read_rows, read_entry, Columns, find_columns, summary_of, parse_sheet, parse_batch_csv,
  full_lines, split_lines,
}

-- The base units of a row that is accepted.
abbrev pub units_of : Reading → ℕ
units_of (positive (some units)) = units
units_of _ = 0

abbrev pub gross : (Text → Reading) → List ValidatedEntry → ℕ
gross f [] = 0
gross f (v ∷ vs) = (if v.is_valid then units_of (f (trim v.entry.amount)) else 0) + gross f vs

gross-append :
    (f : Text → Reading) (vs ws : List ValidatedEntry)
    → gross f (vs ++ ws) ≡ gross f vs + gross f ws
gross-append f [] ws = omega arith
gross-append f (v ∷ vs) ws = omega (arith, gross-append f vs ws)

select-append :
    {A : Type 0} (p : A → Bool) (xs ys : List A) → select p (xs ++ ys) ≡ select p xs ++ select p ys
select-append p [] ys = refl
select-append p (x ∷ xs) ys = elim (Bool-cases (p x)) [
  | inl here ↦ rw here (ap (λ l. x ∷ l) (select-append p xs ys))
  | inr gone ↦ rw gone (select-append p xs ys)
]

length-select-not :
    {A : Type 0} (p : A → Bool) (xs : List A)
    → length (select p xs) + length (select (λ x. not (p x)) xs) ≡ length xs
length-select-not p [] = refl
length-select-not p (x ∷ xs) = elim (Bool-cases (p x)) [
  | inl here ↦ rw here (omega (arith, length-select-not p xs))
  | inr gone ↦ rw gone (omega (arith, length-select-not p xs))
]

-- A verdict fits its errors, which are those of the validation.
abbrev pub IsVerdict : (Text → Reading) → ValidatedEntry → Type 0
IsVerdict f v = (v.errors ≡ validate_entry f v.entry) × (v.is_valid ≡ (length v.errors == 0))

abbrev accepted : List ValidatedEntry → ℕ
accepted vs = length (select (λ v. v.is_valid) vs)

record IsTallied (f : Text → Reading) (t : Sheet) : Type 0 where
  verdicts : All (IsVerdict f) t.entries
  gross_exact : t.total_gross_amount ≡ gross f t.entries
  fee_most : 40 * t.total_protocol_fee ≤ t.total_gross_amount
  fee_least : t.total_gross_amount ≤ 40 * t.total_protocol_fee + 39 * accepted t.entries

protocol_fee-bounds : (n : ℕ) → (40 * protocol_fee n ≤ n) × (n ≤ 40 * protocol_fee n + 39)
unfolding protocol_fee
protocol_fee-bounds n = omega arith

add_entry-accepted :
    (vs : List ValidatedEntry) (v : ValidatedEntry)
    → accepted (vs ++ v ∷ []) ≡ accepted vs + (if v.is_valid then 1 else 0)
add_entry-accepted vs v =
    ap (λ l. length l) (select-append (λ w. w.is_valid) vs (v ∷ []))
    ∙ length-append (select (λ w. w.is_valid) vs) (select (λ w. w.is_valid) (v ∷ []))
    ∙ ap (λ n. accepted vs + n) (ground arith)

-- A row that is refused adds nothing to the totals, and one that is accepted its units and fee.
refused-IsTallied :
    (f : Text → Reading) (e : BatchStreamEntry) (t : Sheet) (x : ValidationError)
    (xs : List ValidationError)
    → IsTallied f t
    → validate_entry f e ≡ x ∷ xs
    → IsTallied f (add_entry e (x ∷ xs) t)
refused-IsTallied f e t x xs k h =
    let v : ValidatedEntry = record {
      entry = e;
      errors = x ∷ xs;
      is_valid = length (x ∷ xs) == 0;
    } in
    let invalid : (length (x ∷ xs) == 0) ≡ false = ground arith in
    let sum = gross-append f t.entries (v ∷ []) in
    let count = add_entry-accepted t.entries v in
    record {
      verdicts = All-append (IsVerdict f) t.entries (v ∷ []) k.verdicts ((sym h, refl), tt);
      gross_exact = ground (arith, sum, invalid, k.gross_exact);
      fee_most = k.fee_most;
      fee_least = ground (arith, count, invalid, k.fee_least);
    }

accepted-IsTallied :
    (f : Text → Reading) (e : BatchStreamEntry) (t : Sheet) (n : ℕ)
    → IsTallied f t
    → validate_entry f e ≡ []
    → f (trim e.amount) ≡ positive (some n)
    → IsTallied f (
        add_entry e [] (record t {
          total_gross_amount = t.total_gross_amount + n;
          total_protocol_fee = t.total_protocol_fee + protocol_fee n;
        }))
accepted-IsTallied f e t n k h a =
    let v : ValidatedEntry = record { entry = e; errors = []; is_valid = true } in
    let (most, least) = protocol_fee-bounds n in
    let sum = gross-append f t.entries (v ∷ []) in
    let count = add_entry-accepted t.entries v in
    let units : units_of (f (trim e.amount)) ≡ n = ap units_of a in
    record {
      verdicts = All-append (IsVerdict f) t.entries (v ∷ []) k.verdicts ((sym h, refl), tt);
      gross_exact = omega (arith, sum, units, k.gross_exact);
      fee_most = omega (arith, most, k.fee_most);
      fee_least = omega (arith, count, least, k.fee_least);
    }

length-snoc : {A : Type 0} (xs : List A) (x : A) → length (xs ++ x ∷ []) ≡ suc (length xs)
length-snoc xs x = omega (arith, length-append xs (x ∷ []))

some_injective : {A : Type 0} {x y : A} → some x ≡ some y → x ≡ y
some_injective h = cc

read_row-IsTallied :
    (f : Text → Reading) (e : BatchStreamEntry) (t u : Sheet)
    → IsTallied f t
    → read_row f e t ≡ some u
    → IsTallied f u × (length u.entries ≡ suc (length t.entries))
unfolding read_row
read_row-IsTallied f e t u k h = go (validate_entry f e) refl (f (trim e.amount)) refl h
  where
    go :
        (es : List ValidationError)
        → validate_entry f e ≡ es
        → (r : Reading) → f (trim e.amount) ≡ r
        → elim es [
          | [] ↦ Option.map (add_entry e []) (add_amount r t)
          | x ∷ xs ↦ some (add_entry e (x ∷ xs) t)
        ]
          ≡ some u
        → IsTallied f u × (length u.entries ≡ suc (length t.entries))
    go [] p not_a_number q h = cc
    go [] p not_positive q h = cc
    go [] p (positive none) q h = cc
    go [] p (positive (some n)) q h =
        let e' = accepted-IsTallied f e t n k p q in
        let same = some_injective h in
        subst (λ w. IsTallied f w × (length w.entries ≡ suc (length t.entries))) same
          (e', length-snoc t.entries _)
    go (x ∷ xs) p r q h =
        subst (λ w. IsTallied f w × (length w.entries ≡ suc (length t.entries))) (some_injective h)
          (refused-IsTallied f e t x xs k p, length-snoc t.entries _)

read_rows-IsTallied :
    (f : Text → Reading) (at : Columns) (i : ℕ) (lines : List Text) (t u : Sheet)
    → IsTallied f t
    → read_rows f at i lines t ≡ some u
    → IsTallied f u × (length u.entries ≡ length lines + length t.entries)
unfolding read_rows
read_rows-IsTallied f at i [] t u k h =
    subst (λ w. IsTallied f w × (length w.entries ≡ 0 + length t.entries)) (some_injective h)
      (k, omega arith)
read_rows-IsTallied f at i (line ∷ lines) t u k h =
    elim (Option-cases (read_row f (read_entry at i (parse_csv_line line)) t)) [
      | inl thrown ↦ absurd (ground arith)
      | inr (v, e) ↦
          let (tallied, more) =
            read_row-IsTallied f (read_entry at i (parse_csv_line line)) t v k e in
          let (end, all) = read_rows-IsTallied f at (suc i) lines v u tallied (ground arith) in
          (end, omega arith)
    ]

-- What the summary of a file says of its entries.
pub record IsBalanced (f : Text → Reading) (s : BatchValidationSummary) : Type 0 where
  pub verdicts : All (IsVerdict f) s.entries
  pub every_row : s.total_rows ≡ length s.entries
  pub valid_or_not : s.valid_rows + s.invalid_rows ≡ s.total_rows
  pub gross_exact : s.total_gross_amount ≡ gross f s.entries
  pub net_and_fee :
      (n : ℕ) × (s.total_net_distributed ≡ pos n)
      × (n + s.total_protocol_fee ≡ s.total_gross_amount)
  pub fee_most : 40 * s.total_protocol_fee ≤ s.total_gross_amount
  pub fee_least : s.total_gross_amount ≤ 40 * s.total_protocol_fee + 39 * s.valid_rows

summary_of-IsBalanced :
    (f : Text → Reading) (t : Sheet) → IsTallied f t → IsBalanced f (summary_of t)
summary_of-IsBalanced f t k = record {
  verdicts = k.verdicts;
  every_row = refl;
  valid_or_not = length-select-not (λ v. v.is_valid) t.entries;
  gross_exact = k.gross_exact;
  net_and_fee =
      let less : t.total_protocol_fee ≤ t.total_gross_amount = omega (arith, k.fee_most) in
      (
        t.total_gross_amount - t.total_protocol_fee,
        -ℤ_pos t.total_gross_amount t.total_protocol_fee less,
        omega arith,
      );
  fee_most = k.fee_most;
  fee_least = k.fee_least;
}

empty-IsTallied : (f : Text → Reading) → IsTallied f empty_sheet
empty-IsTallied f = record {
  verdicts = tt;
  gross_exact = refl;
  fee_most = omega arith;
  fee_least = omega arith;
}

parse_sheet-IsBalanced :
    (f : Text → Reading) (lines : List Text) (s : BatchValidationSummary)
    → parse_sheet f lines ≡ some s
    → IsBalanced f s
parse_sheet-IsBalanced f [] s h =
    subst (IsBalanced f) (some_injective h)
      (summary_of-IsBalanced f empty_sheet (empty-IsTallied f))
parse_sheet-IsBalanced f (header ∷ []) s h =
    subst (IsBalanced f) (some_injective h)
      (summary_of-IsBalanced f empty_sheet (empty-IsTallied f))
parse_sheet-IsBalanced f (header ∷ line ∷ lines) s h =
    elim (Option-cases (find_columns (parse_csv_line header))) [
      | inl unnamed ↦
          subst (IsBalanced f) (some_injective (ground arith))
            (summary_of-IsBalanced f empty_sheet (empty-IsTallied f))
      | inr (at, e) ↦ elim (Option-cases (read_rows f at 1 (line ∷ lines) empty_sheet)) [
        | inl thrown ↦ absurd (ground arith)
        | inr (t, q) ↦ subst (IsBalanced f) (some_injective (ground arith)) (
            summary_of-IsBalanced f t
              (read_rows-IsTallied f at 1 (line ∷ lines) empty_sheet t (empty-IsTallied f) q).0)
      ]
    ]

-- In the summary of any file that is read without a throw, each entry is valid exactly if its
-- validation finds no error and lists what it finds, valid and invalid rows add up to all, the
-- gross amount is the sum of the base units of the valid entries, and fee and net amount, which is
-- not negative, add up to it. The fee is at most a fortieth of the gross amount, and short of that
-- by less than one base unit for each valid row.
pub parse_batch_csv-IsBalanced :
    (parse_float : Text → Reading) (content : Text) (s : BatchValidationSummary)
    → parse_batch_csv parse_float content ≡ some s
    → IsBalanced parse_float s
unfolding parse_batch_csv
parse_batch_csv-IsBalanced f content s h =
    parse_sheet-IsBalanced f (full_lines (split_lines [] content)) s h
