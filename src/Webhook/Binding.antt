-- ===== src/Webhook/Binding.antt =====
-- What a signature of backend/src/services/webhook.service.ts is worth.
use flowfi.Prelude.{
  ℕ, suc, ◌≤◌, ◌<◌, true, false, some, List, [], ◌∷◌, ◌++◌, ◌≡◌, refl, sym, ◌∙◌, arith, All, ℤ, pos,
  negsuc, ◌-ℤ◌, ◌↔◌, ltb, Bool-cases, inl, inr,
}
use flowfi.Prelude.Text.{Text, text_eq_iff, text_eq_refl, decimal, to_string}
use flowfi.Prelude.Text.Digits.{IsDigit, decimal-IsDigit, to_string_injective}
use flowfi.Prelude.Text.Join.{Lacks, join_cancel}
use flowfi.Webhook.Signing.{
  Hmac, generate_webhook_signature, buffer_from, timing_safe_equal, abs, verify_webhook_signature,
}

-- Hex digits are among the characters below 128.
abbrev pub IsAscii : Text → Type 0
IsAscii s = All (λ c. c < 128) s

buffer_from_of_IsAscii : (s : Text) → IsAscii s → buffer_from s ≡ s
unfolding buffer_from
buffer_from_of_IsAscii [] h = refl
buffer_from_of_IsAscii (c ∷ []) (p, h) = ground arith
buffer_from_of_IsAscii (c ∷ d ∷ s) (p, h) = ground (arith, buffer_from_of_IsAscii (d ∷ s) h)

timing_safe_equal-IsSound : (a b : List ℕ) → timing_safe_equal a b ≡ some true → a ≡ b
unfolding timing_safe_equal
timing_safe_equal-IsSound a b h = ground (arith, text_eq_iff a b)

timing_safe_equal_refl : (a : List ℕ) → timing_safe_equal a a ≡ some true
unfolding timing_safe_equal
timing_safe_equal_refl a = ground (arith, text_eq_refl a)

verify-generate :
    (now : ℤ) (hmac : Hmac) (payload secret : Text) (timestamp : ℤ) (tolerance : ℕ)
    → abs (now -ℤ timestamp) ≤ tolerance
    → verify_webhook_signature now hmac payload
        (generate_webhook_signature hmac payload secret timestamp)
        secret
        timestamp
        tolerance
      ≡ some true
unfolding verify_webhook_signature
verify-generate now hmac payload secret timestamp tolerance h =
    let in_time : ltb tolerance (abs (now -ℤ timestamp)) ≡ false = ground arith in
    rw in_time (timing_safe_equal_refl _)

IsDigit-Lacks : (s : Text) → All IsDigit s → Lacks b'.' s
IsDigit-Lacks [] h = tt
IsDigit-Lacks (c ∷ s) (p, h) = ((λ e. omega (arith, p.0, e)), IsDigit-Lacks s h)

-- The text of an integer has no full stop.
to_string-Lacks_dot : (z : ℤ) → Lacks b'.' (to_string z)
unfolding to_string
to_string-Lacks_dot (pos n) = IsDigit-Lacks (decimal n) (decimal-IsDigit n)
to_string-Lacks_dot (negsuc n) =
    ((λ e. omega (arith, e)), IsDigit-Lacks (decimal (suc n)) (decimal-IsDigit (suc n)))

verify-IsSound :
    (now : ℤ) (hmac : Hmac) (p q secret : Text) (t u : ℤ) (tolerance : ℕ)
    → ((message : Text) → IsAscii (hmac secret message))
    → (hmac secret (to_string t ++ b'.' ∷ p) ≡ hmac secret (to_string u ++ b'.' ∷ q)
        → to_string t ++ b'.' ∷ p ≡ to_string u ++ b'.' ∷ q)
    → verify_webhook_signature now hmac q
        (generate_webhook_signature hmac p secret t)
        secret
        u
        tolerance
      ≡ some true
    → (p ≡ q) × (t ≡ u) × (abs (now -ℤ u) ≤ tolerance)
unfolding verify_webhook_signature generate_webhook_signature
verify-IsSound now hmac p q secret t u tolerance ascii apart h =
    let first = to_string t ++ b'.' ∷ p in
    let second = to_string u ++ b'.' ∷ q in
    elim (Bool-cases (ltb tolerance (abs (now -ℤ u)))) [
      | inl late ↦ absurd (ground arith)
      | inr in_time ↦
          let accepted : timing_safe_equal (buffer_from (hmac secret first))
                (buffer_from (hmac secret second))
              ≡ some true =
            ground arith in
          let digests : hmac secret first ≡ hmac secret second =
            sym (buffer_from_of_IsAscii _ (ascii first))
            ∙ timing_safe_equal-IsSound _ _ accepted
            ∙ buffer_from_of_IsAscii _ (ascii second) in
          let (same, payload) =
            join_cancel b'.' (to_string t) (to_string u) p q (to_string-Lacks_dot t)
              (to_string-Lacks_dot u) (apart digests) in
          (payload, to_string_injective t u same, ground (arith, in_time))
    ]

-- With a secret whose HMAC is written in ASCII and does not take these two messages to one value,
-- the signature that is made for a payload and a second is accepted for a payload and a second
-- exactly if they are the same and the clock differs from the second by at most the tolerance.
pub verify_webhook_signature_iff :
    (now : ℤ) (hmac : Hmac) (p q secret : Text) (t u : ℤ) (tolerance : ℕ)
    → ((message : Text) → IsAscii (hmac secret message))
    → (hmac secret (to_string t ++ b'.' ∷ p) ≡ hmac secret (to_string u ++ b'.' ∷ q)
        → to_string t ++ b'.' ∷ p ≡ to_string u ++ b'.' ∷ q)
    → (verify_webhook_signature now hmac q
          (generate_webhook_signature hmac p secret t)
          secret
          u
          tolerance
        ≡ some true)
      ↔ ((p ≡ q) × (t ≡ u) × (abs (now -ℤ u) ≤ tolerance))
verify_webhook_signature_iff now hmac p q secret t u tolerance ascii apart = (
  verify-IsSound now hmac p q secret t u tolerance ascii apart,
  λ h. rw (h.0, h.1) (verify-generate now hmac q secret u tolerance h.2),
)
