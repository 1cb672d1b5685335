-- ===== src/Amount/RoundTrip.antt =====
-- An amount that frontend/src/utils/amount.ts formats and parses again.
use native.Mathlib.Nat.{div-add-mod', mod-lt, one-le-pow}
use mathlib.Core.List.{append-nil}
use flowfi.Prelude.{
  false, ℕ, zero, suc, ◌+◌, ◌-◌, ◌*◌, ◌/◌, ◌%◌, ◌^◌, ◌≤◌, ◌<◌, ◌≡◌, refl, sym, ap, ◌∙◌, some, [],
  ◌∷◌, ◌++◌, arith, if◌then◌else◌, ◌==◌, ltb, length, length-append, replicate, All, All-append,
  Bool-cases, inl, inr, pos, ◌+ℤ◌, ◌*ℤ◌,
}
use flowfi.Prelude.Text.{Text, codes, emit, decimal, to_string, scan, big_int}
use flowfi.Prelude.Text.Digits.{
  IsDigit, IsPlain, IsDigit-IsPlain, trim_of_IsPlain, scan-decimal, decimal-IsDigit, decimal-ne-nil,
  big_int_of_IsDigit, big_int-to_string,
}
use flowfi.Amount.{pad_start, strip_zeros, with_fraction, format_amount, fit, combine, parse_amount}
use flowfi.Amount.Digits.{
  strip_zeros-IsDigit, length-replicate, scan-zeros, zeros-IsDigit, length-emit-le, fit-strip_zeros,
  before_dot_of_IsDigit, is_decimal_of_IsDigit,
}

combine_digits :
    (i f : Text) (q r d : ℕ)
    → big_int i ≡ some (pos q)
    → big_int f ≡ some (pos r)
    → combine i f d ≡ some (pos (q * 10 ^ d + r))
unfolding combine ◌*ℤ◌ ◌+ℤ◌
combine_digits i f q r d h k = rw (combine, h, k) (ground arith)

-- The fraction of `r` to `suc k` places.
abbrev places : ℕ → ℕ → Text
places k r = pad_start (suc k) (decimal r)

length-places : (k r : ℕ) → r < 10 ^ suc k → length (places k r) ≡ suc k
unfolding decimal
length-places k r h =
    let short = length-emit-le (suc r) r k [] h in
    length-append (replicate (suc k - length (decimal r)) b'0') (decimal r)
    ∙ ap (λ n. n + length (decimal r)) (length-replicate (suc k - length (decimal r)) b'0')
    ∙ omega arith

places-IsDigit : (k r : ℕ) → All IsDigit (places k r)
places-IsDigit k r =
    All-append IsDigit (replicate (suc k - length (decimal r)) b'0') (decimal r)
      (zeros-IsDigit (suc k - length (decimal r))) (decimal-IsDigit r)

big_int-places : (k r : ℕ) → r < 10 ^ suc k → big_int (places k r) ≡ some (pos r)
big_int-places k r h =
    let long = length-places k r h in
    big_int_of_IsDigit (places k r) r (places-IsDigit k r)
      (λ e. absurd (omega (arith, sym long ∙ ap (λ t. length t) e)))
      (scan-zeros (suc k - length (decimal r)) (decimal r) ∙ scan-decimal r)

abbrev shown : Text → Text → Text
shown ds [] = ds
shown ds (c ∷ s) = ds ++ b'.' ∷ c ∷ s

parse_amount-shown :
    (ds z : Text) (d : ℕ)
    → All IsDigit ds
    → All IsDigit z
    → ¬ (ds ≡ [])
    → parse_amount (shown ds z) d ≡ combine ds (fit d z) d
unfolding parse_amount
parse_amount-shown [] z d h k some_digit = absurd (some_digit refl)
parse_amount-shown (c ∷ s) [] d h k some_digit =
    let (a, b, x, y) = before_dot_of_IsDigit (c ∷ s) [] h in
    let (valid, more) = is_decimal_of_IsDigit (c ∷ s) [] h tt in
    rw (trim_of_IsPlain (c ∷ s) (IsDigit-IsPlain (c ∷ s) h), valid, a, x) refl
parse_amount-shown (c ∷ s) (e ∷ z) d h k some_digit =
    let (a, b, x, y) = before_dot_of_IsDigit (c ∷ s) (e ∷ z) h in
    let (whole, more, p, q) = before_dot_of_IsDigit (e ∷ z) [] k in
    let (digits, valid) = is_decimal_of_IsDigit (c ∷ s) (e ∷ z) h k in
    let plain =
      All-append IsPlain (c ∷ s) (b'.' ∷ e ∷ z) (IsDigit-IsPlain (c ∷ s) h)
        ((omega arith, omega arith), IsDigit-IsPlain (e ∷ z) k) in
    rw (trim_of_IsPlain (c ∷ s ++ b'.' ∷ e ∷ z) plain, valid, b, y, whole) refl

with_fraction-shown : (q : ℕ) (z : Text) → with_fraction (pos q) z ≡ shown (decimal q) z
unfolding to_string
with_fraction-shown q [] = refl
with_fraction-shown q (c ∷ z) = refl

scan_nil : scan 10 0 [] ≡ some 0
unfolding scan
scan_nil = refl

fit_nil : (d : ℕ) → 1 ≤ d → fit d [] ≡ replicate d b'0'
fit_nil d h = elim (Bool-cases (ltb d 0)) [
  | inl longer ↦ absurd (ground arith)
  | inr fits ↦ elim (Bool-cases (ltb 0 d)) [
    | inl shorter ↦
        let e : d - 0 ≡ d = omega arith in rw (fits, shorter) (ap (λ m. replicate m b'0') e)
    | inr same ↦ absurd (ground arith)
  ]
]

zero_times : (m : ℕ) → 0 * m + 0 ≡ 0
zero_times m = omega arith

one_times : (n : ℕ) → n * 10 ^ 0 + 0 ≡ n
one_times n = omega arith

big_int-fit-nil : (d : ℕ) → big_int (fit d []) ≡ some (pos 0)
unfolding big_int
big_int-fit-nil zero = refl
big_int-fit-nil (suc k) =
    let zeros : fit (suc k) [] ≡ b'0' ∷ replicate k b'0' = fit_nil (suc k) (omega arith) in
    rw zeros (
      big_int_of_IsDigit (b'0' ∷ replicate k b'0') 0 (zeros-IsDigit (suc k)) (λ e. cc)
        (ap (λ t. scan 10 0 (b'0' ∷ t)) (sym (append-nil (replicate k b'0')))
          ∙ scan-zeros (suc k) []
          ∙ scan_nil))

parse_amount-to_string :
    (n d : ℕ) → parse_amount (to_string (pos n)) d ≡ some (pos (n * 10 ^ d + 0))
unfolding to_string
parse_amount-to_string n d =
    parse_amount-shown (decimal n) [] d (decimal-IsDigit n) tt (decimal-ne-nil n)
    ∙ combine_digits (decimal n) (fit d []) n 0 d (big_int-to_string (pos n)) (big_int-fit-nil d)

parse_amount-zero : (d : ℕ) → parse_amount (codes "0") d ≡ some (pos 0)
unfolding to_string decimal emit
parse_amount-zero d = parse_amount-to_string 0 d ∙ ap (λ m. some (pos m)) (zero_times (10 ^ d))

parse_amount-fraction :
    (n k : ℕ)
    → parse_amount
        (with_fraction
          (pos (n / 10 ^ suc k))
          (strip_zeros (pad_start (suc k) (to_string (pos (n % 10 ^ suc k))))))
        (suc k)
      ≡ some (pos n)
unfolding to_string
parse_amount-fraction n k =
    let factor = 10 ^ suc k in
    let q = n / factor in
    let r = n % factor in
    let less : r < factor = mod-lt n (one-le-pow (suc k) 10 (omega arith)) in
    let z = strip_zeros (places k r) in
    let digits = strip_zeros-IsDigit (places k r) (places-IsDigit k r) in
    let whole = fit-strip_zeros (suc k) (places k r) (length-places k r less) in
    let fraction : big_int (fit (suc k) z) ≡ some (pos r) =
      ap (λ t. big_int t) whole ∙ big_int-places k r less in
    ap (λ t. parse_amount t (suc k)) (with_fraction-shown q z)
    ∙ parse_amount-shown (decimal q) z (suc k) (decimal-IsDigit q) digits (decimal-ne-nil q)
    ∙ combine_digits (decimal q) (fit (suc k) z) q r (suc k) (big_int-to_string (pos q)) fraction
    ∙ ap (λ m. some (pos m)) (div-add-mod' n factor)

parse_amount-positive :
    (n d : ℕ)
    → parse_amount
        (if d == 0
          then to_string (pos n)
          else with_fraction
              (pos (n / 10 ^ d))
              (strip_zeros (pad_start d (to_string (pos (n % 10 ^ d))))))
        d
      ≡ some (pos n)
parse_amount-positive n zero = parse_amount-to_string n 0 ∙ ap (λ m. some (pos m)) (one_times n)
parse_amount-positive n (suc k) = elim (Bool-cases (suc k == 0)) [
  | inl absent ↦ absurd (ground arith)
  | inr there ↦ rw there (parse_amount-fraction n k)
]

-- A natural amount that is formatted with some number of decimals and parsed with the same is the
-- same amount.
pub parse_amount-format_amount : (n d : ℕ) → parse_amount (format_amount (pos n) d) d ≡ some (pos n)
unfolding format_amount
parse_amount-format_amount n d = elim (Bool-cases (n + 0 == 0)) [
  | inl nothing ↦ let is_zero : n ≡ 0 = ground arith in rw is_zero (parse_amount-zero d)
  | inr some_amount ↦ rw some_amount (parse_amount-positive n d)
]

fit_exact : (d : ℕ) (z : Text) → length z ≡ d → fit d z ≡ z
fit_exact d z h =
    let no_longer : ltb d (length z) ≡ false = ground arith in
    let no_shorter : ltb (length z) d ≡ false = ground arith in rw (no_longer, no_shorter) refl

not_nil : (k : ℕ) (z : Text) → length z ≡ suc k → ¬ (z ≡ [])
not_nil k z h e = absurd (omega (arith, h, ap (λ t. length t) e))

shown-some : (ds z : Text) → ¬ (z ≡ []) → shown ds z ≡ ds ++ b'.' ∷ z
shown-some ds [] h = absurd (h refl)
shown-some ds (c ∷ z) h = refl

-- With a fraction of all decimals, zeros included, an amount is read back.
pub parse_amount-places :
    (n k : ℕ)
    → parse_amount
        (to_string (pos (n / 10 ^ suc k))
          ++ b'.' ∷ pad_start (suc k) (to_string (pos (n % 10 ^ suc k))))
        (suc k)
      ≡ some (pos n)
unfolding to_string
parse_amount-places n k =
    let factor = 10 ^ suc k in
    let q = n / factor in
    let r = n % factor in
    let less : r < factor = mod-lt n (one-le-pow (suc k) 10 (omega arith)) in
    let long = length-places k r less in
    let whole : fit (suc k) (places k r) ≡ places k r = fit_exact (suc k) (places k r) long in
    let fraction : big_int (fit (suc k) (places k r)) ≡ some (pos r) =
      ap (λ t. big_int t) whole ∙ big_int-places k r less in
    ap (λ t. parse_amount t (suc k))
      (sym (shown-some (decimal q) (places k r) (not_nil k (places k r) long)))
    ∙ parse_amount-shown (decimal q) (places k r) (suc k) (decimal-IsDigit q) (places-IsDigit k r)
        (decimal-ne-nil q)
    ∙ combine_digits (decimal q) (fit (suc k) (places k r)) q r (suc k) (big_int-to_string (pos q))
        fraction
    ∙ ap (λ m. some (pos m)) (div-add-mod' n factor)
