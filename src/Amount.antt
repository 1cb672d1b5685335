-- ===== src/Amount.antt =====
-- The conversions of amounts of frontend/src/utils/amount.ts. A throw is `none`; decimals are a
-- natural number.
mod Digits
pub mod RoundTrip
mod Progress
mod Tests
use mathlib.Core.Option
use flowfi.Prelude.{
  ℕ, zero, suc, ◌+◌, ◌-◌, ◌*◌, ◌/◌, ◌%◌, ◌^◌, Bool, true, false, ◌&&◌, Option, none, some, List, [],
  ◌∷◌, ◌++◌, if◌then◌else◌, ◌==◌, ltb, min, length, take, replicate, ℤ, pos, negsuc, sub_ℕ, ◌+ℤ◌,
  ◌*ℤ◌, eq_ℤ, ltb_ℤ, trunc_div,
}
use flowfi.Prelude.Text.{Text, codes, trim, is_digit, big_int, to_string}

-- BigInt `%` has the sign of the first number.
abbrev pub remainder : ℤ → ℕ → ℤ
remainder (pos n) d = pos (n % d)
remainder (negsuc n) d = sub_ℕ 0 (suc n % d)

abbrev pub pad_start : ℕ → Text → Text
pad_start width s = replicate (width - length s) b'0' ++ s

abbrev pub pad_end : ℕ → Text → Text
pad_end width s = s ++ replicate (width - length s) b'0'

-- `replace(/0+$/, "")`
unfoldable pub strip_zeros : Text → Text
strip_zeros [] = []
strip_zeros (c ∷ s) = elim (strip_zeros s) [
  | [] ↦ if c == b'0' then [] else c ∷ []
  | d ∷ t ↦ c ∷ d ∷ t
]

abbrev pub with_fraction : ℤ → Text → Text
with_fraction whole [] = to_string whole
with_fraction whole (c ∷ s) = to_string whole ++ b'.' ∷ c ∷ s

unfoldable pub format_amount : ℤ → ℕ → Text
unfolding strip_zeros
format_amount raw decimals =
    let factor = 10 ^ decimals in
    if eq_ℤ raw (pos 0)
    then codes "0"
    else if decimals == 0
    then to_string raw
    else with_fraction (trunc_div raw (pos factor))
        (strip_zeros (pad_start decimals (to_string (remainder raw factor))))

-- `split(".")`: the text up to the first dot, and what is between it and the next.
unfoldable pub before_dot : Text → Text
before_dot [] = []
before_dot (c ∷ s) = let rest = before_dot s in if c == b'.' then [] else c ∷ rest

unfoldable pub after_dot : Text → Text
unfolding before_dot
after_dot [] = []
after_dot (c ∷ s) = let rest = after_dot s in if c == b'.' then before_dot s else rest

-- `/^\d*\.?\d*$/`
unfoldable pub is_digits : Text → Bool
is_digits [] = true
is_digits (c ∷ s) = is_digit c && is_digits s

unfoldable pub is_decimal : Text → Bool
unfolding is_digits
is_decimal [] = true
is_decimal (c ∷ s) =
    let rest = is_decimal s in if is_digit c then rest else if c == b'.' then is_digits s else false

abbrev pub or_zero_text : Text → Text
or_zero_text [] = codes "0"
or_zero_text (c ∷ s) = c ∷ s

abbrev pub fit : ℕ → Text → Text
fit decimals s =
    if ltb decimals (length s)
    then take decimals s
    else if ltb (length s) decimals
    then pad_end decimals s
    else s

infixl 5 ◌>>=◌
abbrev ◌>>=◌ {ℓ} : {A B : Type ℓ} (m : Option A) (next : A → Option B) → Option B
none >>= next = none
some value >>= next = next value

-- `BigInt(integerPart) * factor + BigInt(fractionalPart)`
unfoldable pub combine : Text → Text → ℕ → Option ℤ
combine integer fraction decimals = do
  whole ← big_int integer
  part ← big_int fraction
  some (whole *ℤ pos (10 ^ decimals) +ℤ part)

abbrev pub is_empty : Text → Bool
is_empty [] = true
is_empty (c ∷ s) = false

unfoldable pub parse_amount : Text → ℕ → Option ℤ
unfolding is_decimal before_dot after_dot combine
parse_amount display decimals =
    let trimmed = trim display in
    if is_empty trimmed
    then some (pos 0)
    else if is_decimal trimmed
    then combine (or_zero_text (before_dot trimmed)) (fit decimals (after_dot trimmed)) decimals
    else some (pos 0)

-- The percentage is an integer, so the source's number is one.
unfoldable pub stream_progress_percent : ℤ → ℤ → ℤ
stream_progress_percent withdrawn deposited =
    let percent = trunc_div (withdrawn *ℤ pos 100) deposited in
    if eq_ℤ deposited (pos 0)
    then if ltb_ℤ (pos 0) withdrawn then pos 100 else pos 0
    else if ltb_ℤ percent (pos 100)
    then percent
    else pos 100
