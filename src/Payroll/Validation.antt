-- ===== src/Payroll/Validation.antt =====
-- What the validation of a payroll row accepts in frontend/src/lib/csv-parser.ts.
use flowfi.Prelude.{
  ℕ, zero, suc, ◌≤◌, ◌<◌, Bool, true, false, Option, some, List, [], ◌∷◌, ◌++◌, if◌then◌else◌,
  length, pos, negsuc, ◌≡◌, refl, arith, ◌↔◌, ◌⊎◌, inl, inr, Bool-cases, Option-cases, not, ◌&&◌,
}
use flowfi.Prelude.Text.{Text, trim, drop_space}
use flowfi.Amount.{after_dot}
use flowfi.Payroll.{
  BatchStreamEntry, Reading, not_a_number, not_positive, positive, includes,
  is_valid_stellar_public_key, is_valid_federated_name, parse_int, recipient_invalid,
  recipient_errors, precision_errors, reading_errors, amount_errors, duration_errors, cliff_errors,
  validate_entry,
}

abbrev pub IsRecipient : Text → Type 0
IsRecipient s = (is_valid_stellar_public_key s ≡ true) ⊎ (is_valid_federated_name s ≡ true)

abbrev pub IsAmount : (Text → Reading) → Text → Type 0
IsAmount parse_float s =
    (¬ (s ≡ []))
    × ((units : Option ℕ) × (parse_float s ≡ positive units))
    × (length (after_dot s) ≤ 7)

-- A duration of `d` seconds, and a cliff before its end.
abbrev pub IsDuration : Text → ℕ → Type 0
IsDuration s d = (parse_int s ≡ some (pos d)) × (0 < d)

abbrev pub IsCliff : Text → ℕ → Type 0
IsCliff s d = (s ≡ []) ⊎ ((c : ℕ) × (parse_int s ≡ some (pos c)) × (c < d))

-- What a row must be to be paid.
pub record IsPayable (parse_float : Text → Reading) (e : BatchStreamEntry) : Type 0 where
  pub recipient : IsRecipient (trim e.recipient)
  pub amount : IsAmount parse_float (trim e.amount)
  pub duration : ℕ
  pub duration-IsDuration : IsDuration (trim e.duration_seconds) duration
  pub cliff : IsCliff (trim e.cliff_seconds) duration

append_split : {A : Type 0} (xs ys : List A) → xs ++ ys ≡ [] → (xs ≡ []) × (ys ≡ [])
append_split [] ys h = (refl, h)
append_split (x ∷ xs) ys h = cc

after_dot-none : (s : Text) → includes b'.' s ≡ false → after_dot s ≡ []
unfolding includes after_dot
after_dot-none [] h = refl
after_dot-none (c ∷ s) h = ground (arith, after_dot-none s)

recipient_errors_iff : (s : Text) → (recipient_errors s ≡ []) ↔ IsRecipient s
unfolding is_valid_stellar_public_key is_valid_federated_name includes trim drop_space
recipient_errors_iff [] = ground arith
recipient_errors_iff (c ∷ s) =
    go (is_valid_stellar_public_key (c ∷ s)) (is_valid_federated_name (c ∷ s))
  where
    go :
        (p q : Bool)
        → ((if not p && not q then recipient_invalid ∷ [] else []) ≡ []) ↔ ((p ≡ true) ⊎ (q ≡ true))
    go true q = ground arith
    go false true = ground arith
    go false false = ground arith

precision_errors_iff : (s : Text) → (precision_errors s ≡ []) ↔ (length (after_dot s) ≤ 7)
precision_errors_iff s = elim (Bool-cases (includes b'.' s)) [
  | inl dotted ↦ ground (arith, dotted)
  | inr whole ↦ let none_left = after_dot-none s whole in ground (arith, whole, none_left)
]

reading_errors_iff :
    (s : Text) (r : Reading)
    → (reading_errors s r ≡ [])
      ↔ (((units : Option ℕ) × (r ≡ positive units)) × (length (after_dot s) ≤ 7))
reading_errors_iff s not_a_number = ground arith
reading_errors_iff s not_positive = ground arith
reading_errors_iff s (positive units) =
    ((λ h. ((units, refl), (precision_errors_iff s).0 h)), (λ h. (precision_errors_iff s).1 h.1))

amount_errors_iff : (f : Text → Reading) (s : Text) → (amount_errors f s ≡ []) ↔ IsAmount f s
amount_errors_iff f [] = ((λ h. cc), (λ h. absurd (h.0 refl)))
amount_errors_iff f (c ∷ s) =
    let (to, back) = reading_errors_iff (c ∷ s) (f (c ∷ s)) in
    ((λ h. ((λ e. cc), (to h).0, (to h).1)), (λ h. back (h.1, h.2)))

duration_errors-IsSound : (s : Text) → duration_errors s ≡ [] → (d : ℕ) × IsDuration s d
duration_errors-IsSound [] h = cc
duration_errors-IsSound (c ∷ s) h = elim (Option-cases (parse_int (c ∷ s))) [
  | inl nan ↦ absurd (ground arith)
  | inr (pos zero, e) ↦ absurd (ground arith)
  | inr (pos (suc d), e) ↦ (suc d, (e, omega arith))
  | inr (negsuc d, e) ↦ absurd (ground arith)
]

duration_errors-IsComplete : (s : Text) (d : ℕ) → IsDuration s d → duration_errors s ≡ []
unfolding parse_int drop_space
duration_errors-IsComplete [] d (e, p) = cc
duration_errors-IsComplete (c ∷ s) d (e, p) = rw e (ground arith)

cliff_errors_iff : (s t : Text) (d : ℕ) → IsDuration t d → (cliff_errors s t ≡ []) ↔ IsCliff s d
cliff_errors_iff [] t d k = ((λ h. inl refl), (λ h. refl))
cliff_errors_iff (c ∷ s) t d (k, p) = elim (Option-cases (parse_int (c ∷ s))) [
  | inl nan ↦ ground arith
  | inr (pos n, e) ↦ ground arith
  | inr (negsuc n, e) ↦ ground arith
]

validate_entry-parts :
    (f : Text → Reading) (e : BatchStreamEntry)
    → validate_entry f e ≡ []
    → (recipient_errors (trim e.recipient) ≡ [])
      × (amount_errors f (trim e.amount) ≡ [])
      × (duration_errors (trim e.duration_seconds) ≡ [])
      × (cliff_errors (trim e.cliff_seconds) (trim e.duration_seconds) ≡ [])
unfolding validate_entry
validate_entry-parts f e h =
    let r = recipient_errors (trim e.recipient) in
    let a = amount_errors f (trim e.amount) in
    let d = duration_errors (trim e.duration_seconds) in
    let (first, c) =
      append_split (r ++ a ++ d) (cliff_errors (trim e.cliff_seconds) (trim e.duration_seconds))
        h in
    let (start, in_time) = append_split (r ++ a) d first in
    let (to, amount) = append_split r a start in (to, amount, in_time, c)

validate_entry-IsSound :
    (f : Text → Reading) (e : BatchStreamEntry) → validate_entry f e ≡ [] → IsPayable f e
validate_entry-IsSound f e h =
    let (r, a, d, c) = validate_entry-parts f e h in
    let (n, k) = duration_errors-IsSound (trim e.duration_seconds) d in
    record {
      recipient = (recipient_errors_iff (trim e.recipient)).0 r;
      amount = (amount_errors_iff f (trim e.amount)).0 a;
      duration = n;
      duration-IsDuration = k;
      cliff = (cliff_errors_iff (trim e.cliff_seconds) (trim e.duration_seconds) n k).0 c;
    }

validate_entry-IsComplete :
    (f : Text → Reading) (e : BatchStreamEntry) → IsPayable f e → validate_entry f e ≡ []
unfolding validate_entry
validate_entry-IsComplete f e p =
    let seconds = trim e.duration_seconds in
    rw
      (
        (recipient_errors_iff (trim e.recipient)).1 p.recipient,
        (amount_errors_iff f (trim e.amount)).1 p.amount,
        duration_errors-IsComplete seconds p.duration p.duration-IsDuration,
        (cliff_errors_iff (trim e.cliff_seconds) seconds p.duration p.duration-IsDuration).1
            p.cliff,
      )
      refl

-- A row is accepted exactly if its recipient is a public key or a federated name, its amount is not
-- blank, reads as a positive number and has at most seven characters between its first two dots,
-- its duration reads as a positive integer, and its cliff, unless blank, as a natural number below
-- the duration.
pub validate_entry_iff :
    (parse_float : Text → Reading) (e : BatchStreamEntry)
    → (validate_entry parse_float e ≡ []) ↔ IsPayable parse_float e
validate_entry_iff parse_float e =
    (validate_entry-IsSound parse_float e, validate_entry-IsComplete parse_float e)
