-- ===== src/Amount/Tests.antt =====
-- Runs of the conversions of amounts, and the theorems about them at concrete inputs.
use flowfi.Prelude.{◌≡◌, refl, some, pos, negsuc, ◌+ℤ◌, ◌*ℤ◌}
use flowfi.Prelude.Text.{codes, decimal, emit, to_string, trim, big_int}
use flowfi.Amount.{
  strip_zeros, format_amount, before_dot, after_dot, is_digits, is_decimal, combine, parse_amount,
}
use flowfi.Amount.RoundTrip.{parse_amount-format_amount}

runs :
    (format_amount (pos 105000000) 7 ≡ codes "10.5")
    × (format_amount (pos 5) 7 ≡ codes "0.0000005")
    × (parse_amount (codes " 10.5 ") 7 ≡ some (pos 105000000))
    × (parse_amount (codes "1.23456789") 7 ≡ some (pos 12345678))
    × (parse_amount (codes ".") 7 ≡ some (pos 0))
    × (parse_amount (codes "-1") 7 ≡ some (pos 0))
unfolding format_amount strip_zeros parse_amount before_dot after_dot is_digits is_decimal combine
    to_string decimal emit trim big_int ◌+ℤ◌ ◌*ℤ◌
runs = (refl, refl, refl, refl, refl, refl)

-- A negative amount keeps the sign of its fraction.
negative_run : format_amount (negsuc 4) 7 ≡ codes "0.00000-5"
unfolding format_amount strip_zeros to_string decimal emit
negative_run = refl

parse_amount-format_amount_example :
    parse_amount (format_amount (pos 105000000) 7) 7 ≡ some (pos 105000000)
parse_amount-format_amount_example = parse_amount-format_amount 105000000 7
