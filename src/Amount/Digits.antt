-- ===== src/Amount/Digits.antt =====
-- Texts of digits, padded and stripped as frontend/src/utils/amount.ts does.
use native.Mathlib.Nat.{pow-suc}
use mathlib.Core.List.{append-nil}
use flowfi.Prelude.{
  ℕ, zero, suc, ◌+◌, ◌-◌, ◌/◌, ◌%◌, ◌^◌, ◌≤◌, ◌<◌, ◌≡◌, refl, sym, ap, ◌∙◌, true, false, [], ◌∷◌,
  ◌++◌, arith, if◌then◌else◌, ◌==◌, ltb, length, replicate, All, Bool-cases, inl, inr,
}
use flowfi.Prelude.Text.{Text, emit, scan, is_digit}
use flowfi.Prelude.Text.Digits.{IsDigit, scan-digit}
use flowfi.Amount.{strip_zeros, before_dot, after_dot, is_digits, is_decimal, fit}

pub strip_zeros-IsDigit : (s : Text) → All IsDigit s → All IsDigit (strip_zeros s)
unfolding strip_zeros
strip_zeros-IsDigit [] h = tt
strip_zeros-IsDigit (c ∷ s) (p, h) = go (strip_zeros s) (strip_zeros-IsDigit s h)
  where
    go :
        (t : Text)
        → All IsDigit t
        → All IsDigit (elim t [ [] ↦ if c == b'0' then [] else c ∷ [] | d ∷ u ↦ c ∷ d ∷ u ])
    go [] k = elim (Bool-cases (c == b'0')) [
      | inl zero_digit ↦ rw zero_digit tt
      | inr other ↦ rw other (p, tt)
    ]
    go (d ∷ t) k = (p, k)

pub length-replicate : (n c : ℕ) → length (replicate n c) ≡ n
length-replicate zero c = refl
length-replicate (suc n) c = omega (arith, length-replicate n c)

pub scan-zeros : (k : ℕ) (t : Text) → scan 10 0 (replicate k b'0' ++ t) ≡ scan 10 0 t
scan-zeros zero t = refl
scan-zeros (suc k) t = scan-digit 0 0 (replicate k b'0' ++ t) (omega arith) ∙ scan-zeros k t

pub zeros-IsDigit : (k : ℕ) → All IsDigit (replicate k b'0')
zeros-IsDigit zero = tt
zeros-IsDigit (suc k) = ((omega arith, omega arith), zeros-IsDigit k)

pub length-emit-le :
    (f n k : ℕ) (out : Text) → n < 10 ^ suc k → length (emit f n out) ≤ suc k + length out
unfolding emit
length-emit-le zero n k out h = omega arith
length-emit-le (suc f) n zero out h = elim (Bool-cases (n / 10 == 0)) [
  | inl last ↦ rw (last, emit) (omega arith)
  | inr more ↦ absurd (ground arith)
]
length-emit-le (suc f) n (suc k) out h =
    let power = pow-suc 10 (suc k) in
    let rest = length-emit-le f (n / 10) k ((b'0' + n % 10) ∷ out) (omega arith) in
    elim (Bool-cases (n / 10 == 0)) [
      | inl last ↦ rw (last, emit) (omega arith)
      | inr more ↦ rw (more, emit) (omega arith)
    ]

-- `t` and zeros up to the length of `u` make up `u`.
abbrev Padded : Text → Text → Type 0
Padded t u = (length t ≤ length u) × (t ++ replicate (length u - length t) b'0' ≡ u)

Padded-cons :
    (c : ℕ) (t s : Text)
    → Padded t s
    → Padded (elim t [ [] ↦ if c == b'0' then [] else c ∷ [] | d ∷ u ↦ c ∷ d ∷ u ]) (c ∷ s)
Padded-cons c [] s (p, q) = elim (Bool-cases (c == b'0')) [
  | inl zero_digit ↦
      let is_zero : c ≡ b'0' = ground arith in
      let e : suc (length s) - 0 ≡ suc (length s - 0) = omega arith in
      let same =
        ap (λ m. replicate m b'0') e ∙ ap (λ u. b'0' ∷ u) q ∙ ap (λ x. x ∷ s) (sym is_zero) in
      rw zero_digit (omega arith, same)
  | inr other ↦
      let e : suc (length s) - 1 ≡ length s - 0 = omega arith in
      let same = ap (λ m. c ∷ replicate m b'0') e ∙ ap (λ u. c ∷ u) q in
      rw other (omega arith, same)
]
Padded-cons c (d ∷ t) s (p, q) =
    let e : suc (length s) - suc (suc (length t)) ≡ length s - suc (length t) = omega arith in
    (omega arith, ap (λ m. c ∷ d ∷ (t ++ replicate m b'0')) e ∙ ap (λ u. c ∷ u) q)

-- What is stripped is put back by the padding.
pub strip_zeros-Padded : (s : Text) → Padded (strip_zeros s) s
unfolding strip_zeros
strip_zeros-Padded [] = (omega arith, refl)
strip_zeros-Padded (c ∷ s) = Padded-cons c (strip_zeros s) s (strip_zeros-Padded s)

-- The fraction that was stripped is as it was once it is fitted again.
pub fit-strip_zeros :
    (decimals : ℕ) (s : Text) → length s ≡ decimals → fit decimals (strip_zeros s) ≡ s
fit-strip_zeros decimals s e =
    let (p, q) = strip_zeros-Padded s in
    let whole : strip_zeros s ++ replicate (decimals - length (strip_zeros s)) b'0' ≡ s =
      rw⁻¹ e q in
    elim (Bool-cases (ltb decimals (length (strip_zeros s)))) [
      | inl longer ↦ absurd (ground arith)
      | inr fits ↦ elim (Bool-cases (ltb (length (strip_zeros s)) decimals)) [
        | inl shorter ↦ rw (fits, shorter) whole
        | inr same ↦
            let none_left : decimals - length (strip_zeros s) ≡ 0 = ground arith in
            let as_is : strip_zeros s ++ [] ≡ s =
              ap (λ m. strip_zeros s ++ replicate m b'0') (sym none_left) ∙ whole in
            rw (fits, same) (sym (append-nil (strip_zeros s)) ∙ as_is)
      ]
    ]

-- A digit is no dot.
digit_is_no_dot : (c : ℕ) → IsDigit c → ((c == b'.') ≡ false) × (is_digit c ≡ true)
digit_is_no_dot c h = (ground arith, ground arith)

pub before_dot_of_IsDigit :
    (s t : Text)
    → All IsDigit s
    → (before_dot s ≡ s)
      × (before_dot (s ++ b'.' ∷ t) ≡ s)
      × (after_dot s ≡ [])
      × (after_dot (s ++ b'.' ∷ t) ≡ before_dot t)
unfolding before_dot after_dot
before_dot_of_IsDigit [] t h = (refl, refl, refl, refl)
before_dot_of_IsDigit (c ∷ s) t (p, h) =
    let (no_dot, digit) = digit_is_no_dot c p in
    let (a, b, x, y) = before_dot_of_IsDigit s t h in
    (
      rw (no_dot, before_dot) (ap (λ u. c ∷ u) a),
      rw (no_dot, before_dot) (ap (λ u. c ∷ u) b),
      rw (no_dot, after_dot) x,
      rw (no_dot, after_dot) y,
    )

is_digits_of_IsDigit : (s : Text) → All IsDigit s → is_digits s ≡ true
unfolding is_digits
is_digits_of_IsDigit [] h = refl
is_digits_of_IsDigit (c ∷ s) (p, h) =
    let (no_dot, digit) = digit_is_no_dot c p in rw (digit, is_digits) (is_digits_of_IsDigit s h)

pub is_decimal_of_IsDigit :
    (s t : Text)
    → All IsDigit s
    → All IsDigit t
    → (is_decimal s ≡ true) × (is_decimal (s ++ b'.' ∷ t) ≡ true)
unfolding is_decimal
is_decimal_of_IsDigit [] t h k = (refl, is_digits_of_IsDigit t k)
is_decimal_of_IsDigit (c ∷ s) t (p, h) k =
    let (no_dot, digit) = digit_is_no_dot c p in
    let (a, b) = is_decimal_of_IsDigit s t h k in
    (rw (digit, is_decimal) a, rw (digit, is_decimal) b)
