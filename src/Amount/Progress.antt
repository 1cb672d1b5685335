-- ===== src/Amount/Progress.antt =====
-- The progress of a stream in frontend/src/utils/amount.ts.
use native.Mathlib.Nat.{le-div_iff_mul-le}
use flowfi.Prelude.{
  ℕ, zero, suc, ◌*◌, ◌/◌, ◌≤◌, ◌≡◌, refl, ap, ◌∙◌, arith, ltb, Bool-cases, inl, inr, pos, ◌*ℤ◌,
}
use flowfi.Amount.{stream_progress_percent}

percent_facts :
    (withdrawn deposited : ℕ)
    → (p : ℕ) × (stream_progress_percent (pos withdrawn) (pos deposited) ≡ pos p)
      × (p ≤ 100)
      × (1 ≤ withdrawn → deposited ≤ withdrawn → p ≡ 100)
unfolding stream_progress_percent ◌*ℤ◌
percent_facts w zero = elim (Bool-cases (ltb 0 w)) [
  | inl some_withdrawn ↦ (100, ground arith, omega arith, λ _ _. refl)
  | inr nothing ↦ (0, ground arith, omega arith, λ h _. absurd (ground arith))
]
percent_facts w (suc d) =
    let p = w * 100 / suc d in
    let product : pos w *ℤ pos 100 ≡ pos (w * 100) = ground arith in
    elim (Bool-cases (ltb p 100)) [
      | inl below ↦ (
        p,
        ground (arith, product, below),
        ground arith,
        λ some_withdrawn enough.
            let enough' : 100 ≤ p = (le-div_iff_mul-le (omega arith)).1 (omega arith) in
            absurd (ground arith),
      )
      | inr above ↦ (100, ground (arith, product, above), omega arith, λ _ _. refl)
    ]

-- For natural amounts the percentage is a natural number of at most 100.
stream_progress_percent-le :
    (withdrawn deposited : ℕ)
    → (p : ℕ) × (stream_progress_percent (pos withdrawn) (pos deposited) ≡ pos p) × (p ≤ 100)
stream_progress_percent-le w d = let (p, e, bound, full) = percent_facts w d in (p, e, bound)

-- The percentage is 100 if something was withdrawn and no less than was deposited, a deposit of
-- zero included.
stream_progress_percent_full :
    (withdrawn deposited : ℕ)
    → 1 ≤ withdrawn
    → deposited ≤ withdrawn
    → stream_progress_percent (pos withdrawn) (pos deposited) ≡ pos 100
stream_progress_percent_full w d some_withdrawn enough =
    let (p, e, bound, full) = percent_facts w d in e ∙ ap (λ n. pos n) (full some_withdrawn enough)
