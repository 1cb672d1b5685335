-- ===== src/Prelude/Text.antt =====
-- Text that the program takes apart or builds, as the list of its code units, and the parts of
-- JavaScript's library that it uses: `trim`, `BigInt(text)`, `toString` of a BigInt, `===`.
pub mod Digits
pub mod Join
use Prim.Native.Char.{code}
use Prim.Native.String.{String}
use mathlib.Core.List.{reverse}
use mathlib.Core.Option
use mathlib.Core.Path.{◌≡◌, refl}
use mathlib.Core.Logic.{◌↔◌}
use native.Mathlib.Omega.{arith}
use flowfi.Prelude.Int.{ℤ, pos, negsuc, sub_ℕ}
use flowfi.Prelude.Tests.{ltb, leb, ◌==◌, if◌then◌else◌}
use Prim.Native.Nat.{ℕ, zero, suc, ◌+◌, ◌-◌, ◌*◌, ◌/◌, ◌%◌}
use mathlib.Core.Bool.{Bool, true, false, ◌&&◌, ◌||◌}
use mathlib.Core.Option.{Option, none, some}
use mathlib.Core.List.{List, [], ◌∷◌}

abbrev pub Text : Type 0
Text = List ℕ

-- The code points of a literal.
abbrev pub codes : String → Text
codes String.[] = []
codes (String.◌∷◌ c s) = code c ∷ codes s

-- `a === b` on texts.
unfoldable pub text_eq : Text → Text → Bool
text_eq [] [] = true
text_eq [] (d ∷ t) = false
text_eq (c ∷ s) [] = false
text_eq (c ∷ s) (d ∷ t) = c == d && text_eq s t

pub text_eq_iff : (s t : Text) → (text_eq s t ≡ true) ↔ (s ≡ t)
unfolding text_eq
text_eq_iff [] [] = ground arith
text_eq_iff [] (d ∷ t) = ground arith
text_eq_iff (c ∷ s) [] = ground arith
text_eq_iff (c ∷ s) (d ∷ t) = ground (arith, text_eq_iff s t)

pub text_eq_refl : (s : Text) → text_eq s s ≡ true
text_eq_refl s = (text_eq_iff s s).1 refl

-- The white space and line ends that `trim` and `BigInt(text)` strip.
unfoldable pub is_space : ℕ → Bool
is_space c =
    (leb 9 c && leb c 13)
    || c == 0x20
    || c == 0xa0
    || c == 0x1680
    || (leb 0x2000 c && leb c 0x200a)
    || c == 0x2028
    || c == 0x2029
    || c == 0x202f
    || c == 0x205f
    || c == 0x3000
    || c == 0xfeff

unfoldable pub drop_space : Text → Text
drop_space [] = []
drop_space (c ∷ s) = if is_space c then drop_space s else c ∷ s

unfoldable pub trim : Text → Text
unfolding drop_space is_space
trim s = reverse (drop_space (reverse (drop_space s)))

abbrev pub is_digit : ℕ → Bool
is_digit c = leb b'0' c && leb c b'9'

-- The value of a digit, 36 for what is none.
unfoldable pub digit_value : ℕ → ℕ
digit_value c =
    if is_digit c
    then c - b'0'
    else if leb b'a' c && leb c b'z'
    then c - b'a' + 10
    else if leb b'A' c && leb c b'Z'
    then c - b'A' + 10
    else 36

-- The digits of a text in a base, after those already read; `none` at any other character.
unfoldable pub scan : ℕ → ℕ → Text → Option ℕ
scan base n [] = some n
scan base n (c ∷ s) =
    let rest = scan base (n * base + digit_value c) s in
    if ltb (digit_value c) base then rest else none

-- At least one digit.
unfoldable pub scan_some : ℕ → Text → Option ℕ
unfolding scan digit_value
scan_some base [] = none
scan_some base (c ∷ s) = scan base 0 (c ∷ s)

-- `0x`, `0o` and `0b` name a base.
unfoldable pub prefix_base : ℕ → Option ℕ
prefix_base c =
    if c == b'x' || c == b'X'
    then some 16
    else if c == b'o' || c == b'O'
    then some 8
    else if c == b'b' || c == b'B'
    then some 2
    else none

unfoldable pub unsigned_literal : Text → Option ℕ
unfolding scan_some prefix_base
unsigned_literal [] = none
unsigned_literal (c ∷ []) = scan_some 10 (c ∷ [])
unsigned_literal (c ∷ d ∷ s) = elim (if c == b'0' then prefix_base d else none) [
  | some base ↦ scan_some base s
  | none ↦ scan_some 10 (c ∷ d ∷ s)
]

unfoldable pub int_literal : Text → Option ℤ
unfolding unsigned_literal
int_literal [] = some (pos 0)
int_literal (c ∷ s) =
    if c == b'-'
    then Option.map (sub_ℕ 0) (scan_some 10 s)
    else if c == b'+'
    then Option.map pos (scan_some 10 s)
    else Option.map pos (unsigned_literal (c ∷ s))

-- `BigInt(text)`; `none` is the SyntaxError that it throws.
unfoldable pub big_int : Text → Option ℤ
unfolding trim int_literal
big_int s = int_literal (trim s)

-- `toString` of a natural number. Each round takes one digit off, so a fuel above the number is
-- enough (`Digits.scan-emit`).
unfoldable pub emit : ℕ → ℕ → Text → Text
emit zero n out = out
emit (suc f) n out = elim (n / 10 == 0) [
  | true ↦ (b'0' + n % 10) ∷ out
  | false ↦ emit f (n / 10) ((b'0' + n % 10) ∷ out)
]

unfoldable pub decimal : ℕ → Text
unfolding emit
decimal n = emit (suc n) n []

-- `toString` of a BigInt.
unfoldable pub to_string : ℤ → Text
unfolding decimal
to_string (pos n) = decimal n
to_string (negsuc n) = b'-' ∷ decimal (suc n)
