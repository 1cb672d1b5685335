-- ===== src/Webhook/Signing.antt =====
-- Signatures of backend/src/services/webhook.service.ts. The HMAC of a key and a text, as hex
-- digits, is the platform's and given by a function.
use flowfi.Prelude.{
  ℕ, ◌+◌, ◌-◌, ◌*◌, ◌/◌, ◌%◌, Bool, true, false, ◌&&◌, Option, none, some, List, [], ◌∷◌, ◌++◌,
  if◌then◌else◌, ltb, leb, ◌==◌, length, ℤ, pos_part, neg_part, ◌-ℤ◌,
}
use flowfi.Prelude.Text.{Text, text_eq, to_string}

-- `hmac.digest("hex")` for a key and a text.
abbrev pub Hmac : Type 0
Hmac = Text → Text → Text

unfoldable pub generate_webhook_signature : Hmac → Text → Text → ℤ → Text
unfolding to_string
generate_webhook_signature hmac payload secret timestamp =
    hmac secret (to_string timestamp ++ b'.' ∷ payload)

abbrev is_high : ℕ → Bool
is_high c = leb 0xd800 c && ltb c 0xdc00

abbrev is_low : ℕ → Bool
is_low c = leb 0xdc00 c && ltb c 0xe000

abbrev tail_byte : ℕ → ℕ
tail_byte n = 0x80 + n % 64

-- The bytes of one code unit that is part of no pair; half a pair is written as U+FFFD.
abbrev unit_bytes : ℕ → List ℕ
unit_bytes c =
    if ltb c 0x80
    then c ∷ []
    else if ltb c 0x800
    then (0xc0 + c / 64) ∷ tail_byte c ∷ []
    else if leb 0xd800 c && ltb c 0xe000
    then 0xef ∷ 0xbf ∷ 0xbd ∷ []
    else (0xe0 + c / 4096) ∷ tail_byte (c / 64) ∷ tail_byte c ∷ []

abbrev pair_bytes : ℕ → List ℕ
pair_bytes n = (0xf0 + n / 262144) ∷ tail_byte (n / 4096) ∷ tail_byte (n / 64) ∷ tail_byte n ∷ []

-- `Buffer.from(text)`: the text in UTF-8.
unfoldable pub buffer_from : Text → List ℕ
buffer_from [] = []
buffer_from (c ∷ []) = unit_bytes c
buffer_from (c ∷ d ∷ s) = elim (is_high c && is_low d) [
  | true ↦ pair_bytes (0x10000 + (c - 0xd800) * 1024 + (d - 0xdc00)) ++ buffer_from s
  | false ↦ unit_bytes c ++ buffer_from (d ∷ s)
]

-- `crypto.timingSafeEqual`; `none` is the RangeError on different lengths.
unfoldable pub timing_safe_equal : List ℕ → List ℕ → Option Bool
unfolding text_eq
timing_safe_equal a b = if length a == length b then some (text_eq a b) else none

-- `Math.abs`
abbrev pub abs : ℤ → ℕ
abs z = pos_part z + neg_part z

-- The clock, in whole seconds, comes first.
unfoldable pub verify_webhook_signature : ℤ → Hmac → Text → Text → Text → ℤ → ℕ → Option Bool
unfolding ◌-ℤ◌ generate_webhook_signature timing_safe_equal buffer_from
verify_webhook_signature now hmac payload signature secret timestamp tolerance =
    if ltb tolerance (abs (now -ℤ timestamp))
    then some false
    else timing_safe_equal (buffer_from signature)
        (buffer_from (generate_webhook_signature hmac payload secret timestamp))
