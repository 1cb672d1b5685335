-- ===== src/Prelude/Text/Digits.antt =====
-- A printed integer is read back as it was, whole or in front of other text.
use mathlib.Core.Path.{◌≡◌, refl, ap, ◌∙◌}
use mathlib.Core.Logic.{inl, inr}
use mathlib.Core.Bool.{false}
use mathlib.Core.Option.{some, none}
use mathlib.Core.List.{[], ◌∷◌, reverse, reverse-reverse}
use Prim.Native.Nat.{ℕ, zero, suc, ◌+◌, ◌*◌, ◌/◌, ◌%◌, ◌<◌, ◌≤◌}
use native.Mathlib.Omega.{arith}
use flowfi.Prelude.Tests.{◌==◌, Bool-cases}
use flowfi.Prelude.Int.{ℤ, pos, negsuc}
use flowfi.Prelude.Lists.{All, All-reverse}
use flowfi.Prelude.Text.{
  Text, is_space, drop_space, trim, digit_value, scan, scan_some, unsigned_literal, prefix_base,
  int_literal, big_int, emit, decimal, to_string,
}

abbrev pub IsDigit : ℕ → Type 0
IsDigit c = (b'0' ≤ c) × (c ≤ b'9')

-- The characters of a printed integer lie in this range.
abbrev pub IsPlain : ℕ → Type 0
IsPlain c = (b'-' ≤ c) × (c ≤ b'9')

pub IsDigit-IsPlain : (s : Text) → All IsDigit s → All IsPlain s
IsDigit-IsPlain [] h = tt
IsDigit-IsPlain (c ∷ s) ((p, q), h) = ((omega arith, q), IsDigit-IsPlain s h)

is_space_of_IsPlain : (c : ℕ) → IsPlain c → is_space c ≡ false
unfolding is_space
is_space_of_IsPlain c h = ground arith

emit-IsDigit : (f n : ℕ) (out : Text) → All IsDigit out → All IsDigit (emit f n out)
unfolding emit
emit-IsDigit zero n out h = h
emit-IsDigit (suc f) n out h =
    ground (arith, emit-IsDigit f (n / 10) ((b'0' + n % 10) ∷ out) ((omega arith, omega arith), h))

digit_value-digit : (d : ℕ) → d < 10 → digit_value (b'0' + d) ≡ d
unfolding digit_value
digit_value-digit d h = ground arith

pub scan-digit : (n d : ℕ) (s : Text) → d < 10 → scan 10 n ((b'0' + d) ∷ s) ≡ scan 10 (n * 10 + d) s
unfolding scan
scan-digit n d s h = rw (digit_value-digit d h) (ground arith)

pub scan-emit : (f n : ℕ) (out : Text) → n < f → scan 10 0 (emit f n out) ≡ scan 10 n out
unfolding emit
scan-emit zero n out h = elim h [ ]
scan-emit (suc f) n out h = elim (Bool-cases (n / 10 == 0)) [
  | inl last ↦
      rw (last, emit)
        (scan-digit 0 (n % 10) out (omega arith) ∙ ap (λ m. scan 10 m out) (ground arith))
  | inr more ↦
      rw (more, emit)
        (scan-emit f (n / 10) ((b'0' + n % 10) ∷ out) (ground arith)
          ∙ scan-digit (n / 10) (n % 10) out (omega arith)
          ∙ ap (λ m. scan 10 m out) (omega arith))
]

pub decimal-IsDigit : (n : ℕ) → All IsDigit (decimal n)
unfolding decimal
decimal-IsDigit n = emit-IsDigit (suc n) n [] tt

emit-ne-nil : (f n : ℕ) (c : ℕ) (out : Text) → ¬ (emit f n (c ∷ out) ≡ [])
unfolding emit
emit-ne-nil zero n c out = λ e. cc
emit-ne-nil (suc f) n c out = ground (arith, emit-ne-nil f (n / 10) (b'0' + n % 10) (c ∷ out))

pub decimal-ne-nil : (n : ℕ) → ¬ (decimal n ≡ [])
unfolding decimal emit
decimal-ne-nil n = ground (arith, emit-ne-nil n (n / 10) (b'0' + n % 10) [])

pub scan-decimal : (n : ℕ) → scan 10 0 (decimal n) ≡ some n
unfolding decimal scan
scan-decimal n = scan-emit (suc n) n [] (omega arith)

scan_some-decimal : (n : ℕ) → scan_some 10 (decimal n) ≡ some n
unfolding scan_some
scan_some-decimal n = go (decimal n) (decimal-ne-nil n) (scan-decimal n)
  where
    go : (t : Text) → ¬ (t ≡ []) → scan 10 0 t ≡ some n → scan_some 10 t ≡ some n
    go [] h e = absurd (h refl)
    go (c ∷ s) h e = e

pub to_string-IsPlain : (z : ℤ) → All IsPlain (to_string z)
unfolding to_string
to_string-IsPlain (pos n) = IsDigit-IsPlain (decimal n) (decimal-IsDigit n)
to_string-IsPlain (negsuc n) =
    ((omega arith, omega arith), IsDigit-IsPlain (decimal (suc n)) (decimal-IsDigit (suc n)))

drop_space_of_IsPlain : (s : Text) → All IsPlain s → drop_space s ≡ s
unfolding drop_space
drop_space_of_IsPlain [] h = refl
drop_space_of_IsPlain (c ∷ s) (p, h) = rw (is_space_of_IsPlain c p)

pub trim_of_IsPlain : (s : Text) → All IsPlain s → trim s ≡ s
unfolding trim
trim_of_IsPlain s h =
    rw (drop_space_of_IsPlain s h)
      (rw (drop_space_of_IsPlain (reverse s) (All-reverse IsPlain s h)) (reverse-reverse s))

prefix_base_of_IsDigit : (c : ℕ) → IsDigit c → prefix_base c ≡ none
unfolding prefix_base
prefix_base_of_IsDigit c h = ground arith

-- A text of digits is read in base ten.
unsigned_literal_of_IsDigit : (s : Text) → All IsDigit s → unsigned_literal s ≡ scan_some 10 s
unfolding unsigned_literal
unsigned_literal_of_IsDigit [] h = refl
unsigned_literal_of_IsDigit (c ∷ []) h = refl
unsigned_literal_of_IsDigit (c ∷ d ∷ s) (p, (q, h)) = ground (arith, prefix_base_of_IsDigit d q)

int_literal_of_IsDigit :
    (s : Text) (n : ℕ) → All IsDigit s → scan_some 10 s ≡ some n → int_literal s ≡ some (pos n)
unfolding int_literal
int_literal_of_IsDigit [] n h e = cc
int_literal_of_IsDigit (c ∷ s) n h e =
    let u = unsigned_literal_of_IsDigit (c ∷ s) h in ground (arith, u)

-- A text of digits, leading zeros or none, is read as its value.
pub big_int_of_IsDigit :
    (s : Text) (n : ℕ)
    → All IsDigit s
    → ¬ (s ≡ [])
    → scan 10 0 s ≡ some n
    → big_int s ≡ some (pos n)
unfolding big_int scan_some
big_int_of_IsDigit [] n h some_digit e = absurd (some_digit refl)
big_int_of_IsDigit (c ∷ s) n h some_digit e =
    rw (trim_of_IsPlain (c ∷ s) (IsDigit-IsPlain (c ∷ s) h)) (int_literal_of_IsDigit (c ∷ s) n h e)

int_literal-to_string : (z : ℤ) → int_literal (to_string z) ≡ some z
unfolding to_string
int_literal-to_string (pos n) =
    int_literal_of_IsDigit (decimal n) n (decimal-IsDigit n) (scan_some-decimal n)
int_literal-to_string (negsuc n) =
    unfold int_literal in rw (scan_some-decimal (suc n)) (ground arith)

-- An integer that is printed and read is the same integer.
pub big_int-to_string : (z : ℤ) → big_int (to_string z) ≡ some z
unfolding big_int
big_int-to_string z =
    rw (trim_of_IsPlain (to_string z) (to_string-IsPlain z)) (int_literal-to_string z)

pub to_string_injective : (a b : ℤ) → to_string a ≡ to_string b → a ≡ b
to_string_injective a b e =
    let p = big_int-to_string a in let q = big_int-to_string b in cc (ap big_int e)
