-- ===== src/Indexer/Integers.antt =====
-- The 128-bit integers that backend/src/workers/soroban-event-worker.ts decodes.
use flowfi.Prelude.{◌^◌, ◌<◌, ◌≡◌, some, arith, ℤ, pos, negsuc, ◌+ℤ◌, ◌*ℤ◌, ap, floor_div}
use flowfi.Prelude.Text.{Text, to_string, big_int}
use flowfi.Prelude.Text.Digits.{big_int-to_string}
use flowfi.Indexer.Xdr.{ok, ScVal, i128, as_uint_n, as_int_64, join_halves, decode_i128}

-- From -2^63 to 2^63 - 1.
abbrev pub IsInt64 : ℤ → Type 0
IsInt64 (pos n) = n < 2 ^ 63
IsInt64 (negsuc n) = n < 2 ^ 63

as_int_64-IsInt64 : (z : ℤ) → IsInt64 z → as_int_64 z ≡ z
unfolding as_int_64
as_int_64-IsInt64 (pos n) h = ground arith
as_int_64-IsInt64 (negsuc n) h = ground arith

-- From -2^127 to 2^127 - 1.
abbrev pub IsInt128 : ℤ → Type 0
IsInt128 (pos n) = n < 2 ^ 127
IsInt128 (negsuc n) = n < 2 ^ 127

-- The two halves of an integer's two's complement, the high one signed.
abbrev pub halves : ℤ → ScVal
halves z = i128 (floor_div z (2 ^ 64)) (pos (as_uint_n 64 z))

high-IsInt64 : (z : ℤ) → IsInt128 z → IsInt64 (floor_div z (2 ^ 64))
high-IsInt64 (pos n) h = omega arith
high-IsInt64 (negsuc n) h = omega arith

low_half : (z : ℤ) → as_uint_n 64 (pos (as_uint_n 64 z)) ≡ as_uint_n 64 z
unfolding as_uint_n
low_half (pos n) = omega arith
low_half (negsuc n) = omega arith

halves_sum : (z : ℤ) → floor_div z (2 ^ 64) *ℤ pos (2 ^ 64) +ℤ pos (as_uint_n 64 z) ≡ z
unfolding as_uint_n ◌*ℤ◌ ◌+ℤ◌
halves_sum (pos n) = ground arith
halves_sum (negsuc n) = ground arith

-- Every integer from -2^127 to 2^127 - 1, given by its two halves, is decoded to a text that
-- `BigInt` reads back as that integer.
pub decode_i128-big_int :
    (z : ℤ)
    → IsInt128 z
    → (text : Text) × (decode_i128 (halves z) ≡ ok text) × (big_int text ≡ some z)
unfolding decode_i128 join_halves
decode_i128-big_int z h =
    let exact : join_halves (floor_div z (2 ^ 64)) (pos (as_uint_n 64 z)) ≡ z =
      rw (as_int_64-IsInt64 (floor_div z (2 ^ 64)) (high-IsInt64 z h), low_half z) (halves_sum z) in
    (to_string z, ap (λ n. ok (to_string n)) exact, big_int-to_string z)
