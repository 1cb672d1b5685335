-- ===== src/Claimable/Amount.antt =====
-- The amount that backend/src/services/claimable.service.ts computes: its bounds, and its closed
-- form over natural numbers.
use Prim.Native.Nat.{◌^◌}
use flowfi.Prelude.{
  ℕ, ◌-◌, ◌*◌, ◌≤◌, ◌<◌, ◌≡◌, min, Bool, true, false, Option, none, some, arith, ltb, if◌then◌else◌,
  ℤ, pos, negsuc, pos_part, ◌-ℤ◌, ◌≤ℤ◌, mul_mono, -ℤ_pos, *ℤ_pos, Option-cases, Bool-cases, inl,
  inr,
}
use flowfi.Prelude.Text.{Text, big_int}
use flowfi.Claimable.{
  StreamState, i128_max, i128_min, clamp_i128, saturating_sub_i128, checked_mul_i128, parse_i128,
  or_zero, positive_sub, elapsed_seconds, raw_claimable, actionable_amount, claimable_amount,
}

-- The elapsed time as a natural number: up to the pause, if one is under way.
abbrev pub end_time : Bool → Option ℤ → ℕ → ℕ
end_time false paused_at now = now
end_time true none now = now
end_time true (some p) now = min now (pos_part p)

positive_sub_pos : (a b : ℕ) → positive_sub (pos a) (pos b) ≡ pos (a - b)
unfolding positive_sub ◌-ℤ◌
positive_sub_pos a b = ground arith

or_zero_pos : (x : ℤ) → or_zero x ≡ pos (pos_part x)
unfolding or_zero
or_zero_pos (pos n) = ground arith
or_zero_pos (negsuc n) = ground arith

pub elapsed_seconds_closed :
    (s : StreamState) (t : ℤ)
    → elapsed_seconds s t
      ≡ pos (end_time s.is_paused s.paused_at (pos_part t) - pos_part s.last_update_time)
unfolding elapsed_seconds
elapsed_seconds_closed s t = elim (Option-cases s.paused_at) [
  | inl never ↦ ground (arith, base, never)
  | inr (p, paused) ↦
      let z = or_zero_pos p in
      let e = positive_sub_pos (now - last) (now - pos_part p) in
      elim (Bool-cases (ltb (pos_part p) now)) [
        | inl late ↦ ground (arith, base, paused, z, -ℤ_pos now (pos_part p) (ground arith), e)
        | inr early ↦ ground (arith, base, paused, z)
      ]
]
  where
    now : ℕ
    now = pos_part t

    last : ℕ
    last = pos_part s.last_update_time

    base : positive_sub (or_zero t) (or_zero s.last_update_time) ≡ pos (now - last)
    base = rw (or_zero_pos t, or_zero_pos s.last_update_time) (positive_sub_pos now last)

-- A clamped value lies in the range of an i128.
clamp_i128_bounds : (x : ℤ) → (i128_min ≤ℤ clamp_i128 x) × (clamp_i128 x ≤ℤ i128_max)
unfolding clamp_i128
clamp_i128_bounds x = ground arith

pub parse_i128_bounds :
    (v : Text) (x : ℤ) → parse_i128 v ≡ some x → (i128_min ≤ℤ x) × (x ≤ℤ i128_max)
unfolding parse_i128
parse_i128_bounds v x h = elim (Option-cases (big_int v)) [
  | inl bad ↦ absurd (ground (arith, bad))
  | inr (y, ok) ↦
      let same : clamp_i128 y ≡ x = ground (arith, ok) in rw (← same) (clamp_i128_bounds y)
]

-- Over natural numbers an overflow of the product changes nothing: it is above all that remains.
pub raw_claimable_pos :
    (e r m : ℕ) → m < 2 ^ 127 → raw_claimable (pos e) (pos r) (pos m) ≡ pos (min (e * r) m)
unfolding raw_claimable checked_mul_i128
raw_claimable_pos e r m h = ground (arith, *ℤ_pos e r)

raw_claimable-le : (e r m : ℤ) → pos_part (raw_claimable e r m) ≤ pos_part m
unfolding raw_claimable checked_mul_i128
raw_claimable-le e r m = ground arith

saturating_sub_i128_pos :
    (d w : ℕ) → d < 2 ^ 127 → w ≤ d → saturating_sub_i128 (pos d) (pos w) ≡ pos (d - w)
unfolding saturating_sub_i128 clamp_i128
saturating_sub_i128_pos d w h k = ground (arith, -ℤ_pos d w k)

saturating_sub_i128-le : (d w : ℤ) → pos_part (saturating_sub_i128 d w) ≤ pos_part (d -ℤ w)
unfolding saturating_sub_i128 clamp_i128
saturating_sub_i128-le d w = ground arith

actionable_amount_bounds :
    (active : Bool) (raw : ℤ)
    → (pos 0 ≤ℤ actionable_amount active raw)
      × (pos_part (actionable_amount active raw) ≤ pos_part raw)
unfolding actionable_amount
actionable_amount_bounds active raw = ground arith

-- Whenever an amount is computed, it is not negative, and it is at most what the deposit exceeds
-- the withdrawals by, zero if it does not, both as they are parsed.
claimable_bounds :
    (s : StreamState) (t a d w : ℤ)
    → claimable_amount s t ≡ some a
    → parse_i128 s.deposited_amount ≡ some d
    → parse_i128 s.withdrawn_amount ≡ some w
    → (pos 0 ≤ℤ a) × (pos_part a ≤ pos_part (d -ℤ w))
unfolding claimable_amount
claimable_bounds s t a d w h hd hw = elim (Option-cases (parse_i128 s.rate_per_second)) [
  | inl bad ↦ absurd (ground (arith, bad))
  | inr (r, hr) ↦
      let m = saturating_sub_i128 d w in
      let raw = raw_claimable (elapsed_seconds s t) r m in
      let same : actionable_amount s.is_active raw ≡ a = ground (arith, hr) in
      rw (← same) (
        (actionable_amount_bounds s.is_active raw).0,
        omega (
          arith,
          actionable_amount_bounds s.is_active raw,
          saturating_sub_i128-le d w,
          raw_claimable-le (elapsed_seconds s t) r m,
        ),
      )
]

-- The amounts of a stream whose three texts are natural numbers with no more withdrawn than
-- deposited, as every stream that the contract emits has.
pub record HasAmounts (s : StreamState) (r d w : ℕ) : Type 0 where
  pub rate : parse_i128 s.rate_per_second ≡ some (pos r)
  pub deposited : parse_i128 s.deposited_amount ≡ some (pos d)
  pub withdrawn : parse_i128 s.withdrawn_amount ≡ some (pos w)
  pub covered : w ≤ d

-- For natural amounts with no more withdrawn than deposited, an active stream can claim the rate
-- times the seconds from the last update to the given time, or to the start of a pause that is
-- under way and earlier, up to what remains of the deposit. An inactive one can claim nothing.
pub claimable_closed :
    (s : StreamState) (r d w : ℕ) (t : ℤ)
    → HasAmounts s r d w
    → claimable_amount s t
      ≡ some (
          if s.is_active
          then pos (
              min
                ((end_time s.is_paused s.paused_at (pos_part t) - pos_part s.last_update_time) * r)
                (d - w))
          else pos 0)
unfolding claimable_amount
claimable_closed s r d w t h =
    let range = parse_i128_bounds s.deposited_amount (pos d) h.deposited in
    let small : d < 2 ^ 127 = omega (arith, range) in
    let e = end_time s.is_paused s.paused_at (pos_part t) - pos_part s.last_update_time in
    rw (h.rate, h.deposited, h.withdrawn, elapsed_seconds_closed s t)
      (rw (saturating_sub_i128_pos d w small h.covered) (
        rw (raw_claimable_pos e r (d - w) (omega arith))
          (actionable_amount_pos s.is_active (min (e * r) (d - w)))))
  where
    actionable_amount_pos :
        (b : Bool) (n : ℕ) → some (actionable_amount b (pos n)) ≡ some (if b then pos n else pos 0)
    actionable_amount_pos b n = unfold actionable_amount in ground arith

end_time_mono : (b : Bool) (o : Option ℤ) (x y : ℕ) → x ≤ y → end_time b o x ≤ end_time b o y
end_time_mono false o x y h = h
end_time_mono true none x y h = h
end_time_mono true (some p) x y h = omega arith

pos_part_mono : (a b : ℤ) → a ≤ℤ b → pos_part a ≤ pos_part b
pos_part_mono a b h = ground arith

-- For natural amounts with no more withdrawn than deposited, a later time never gives a smaller
-- amount.
claimable_mono :
    (s : StreamState) (r d w : ℕ) (t u a b : ℤ)
    → HasAmounts s r d w
    → t ≤ℤ u
    → claimable_amount s t ≡ some a
    → claimable_amount s u ≡ some b
    → a ≤ℤ b
claimable_mono s r d w t u a b h le ha hb =
    let x = end_time s.is_paused s.paused_at (pos_part t) - pos_part s.last_update_time in
    let y = end_time s.is_paused s.paused_at (pos_part u) - pos_part s.last_update_time in
    let p = claimable_closed s r d w t h in
    let q = claimable_closed s r d w u h in
    let m : x ≤ y = omega (
      arith,
      end_time_mono s.is_paused s.paused_at (pos_part t) (pos_part u) (pos_part_mono t u le),
    ) in
    let n = mul_mono x y r m in ground (arith, p, q, n)

-- At any two times from the start of a pause that is under way on, the same amount is computed, or
-- both computations fail.
claimable_paused :
    (s : StreamState) (p t u : ℤ)
    → s.is_paused ≡ true
    → s.paused_at ≡ some p
    → p ≤ℤ t
    → p ≤ℤ u
    → claimable_amount s t ≡ claimable_amount s u
unfolding claimable_amount
claimable_paused s p t u paused at ht hu =
    let same : elapsed_seconds s t ≡ elapsed_seconds s u = ground (
      arith,
      elapsed_seconds_closed s t,
      elapsed_seconds_closed s u,
      pos_part_mono p t ht,
      pos_part_mono p u hu,
    ) in
    rw same
