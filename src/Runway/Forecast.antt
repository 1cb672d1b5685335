-- ===== src/Runway/Forecast.antt =====
-- The runway that backend/src/workers/stream-runway-worker.ts computes, against what the claimable
-- service gives later.
use native.Mathlib.Nat.{div-add-mod', mod-lt}
use mathlib.Core.Path.{subst}
use flowfi.Prelude.{
  ℕ, suc, ◌+◌, ◌-◌, ◌*◌, ◌/◌, ◌%◌, ◌^◌, ◌≤◌, ◌<◌, min, ◌≡◌, refl, ap, ◌∙◌, arith, Bool, true, false,
  Option, none, some, [], if◌then◌else◌, ℤ, pos, pos_part, -ℤ_pos, mul_mono,
}
use flowfi.Prelude.Text.{Text, big_int}
use flowfi.Prelude.Text.Digits.{big_int-to_string}
use flowfi.Prelude.JsMap.{lookup}
use flowfi.MemoryCache
use flowfi.MemoryCache.{MemoryCache}
use flowfi.Claimable.{
  StreamState, Value, Result, Readings, parse_i128, clamp_i128, claimable_amount,
  get_claimable_amount, value_of, answer,
}
use flowfi.Claimable.Amount.{HasAmounts, end_time, claimable_closed}
use flowfi.Indexer.Tables.{Stream}
use flowfi.Runway.{
  RunwayCalculation, stream_state, runway_seconds, runway_of, calculate_stream_runway,
}

-- A row whose amounts are natural numbers in the range of an i128, no more withdrawn than deposited.
pub record HasNaturals (s : Stream) (r d w : ℕ) : Type 0 where
  pub rate : big_int s.rate_per_second ≡ some (pos r)
  pub deposited : big_int s.deposited_amount ≡ some (pos d)
  pub withdrawn : big_int s.withdrawn_amount ≡ some (pos w)
  pub covered : w ≤ d
  pub in_range : (r < 2 ^ 127) × (d < 2 ^ 127)

parse_i128_of :
    (v : Text) (n : ℕ) → big_int v ≡ some (pos n) → n < 2 ^ 127 → parse_i128 v ≡ some (pos n)
unfolding parse_i128 clamp_i128
parse_i128_of v n h small = rw h (ground arith)

HasNaturals-HasAmounts :
    (s : Stream) (r d w : ℕ) → HasNaturals s r d w → HasAmounts (stream_state s) r d w
HasNaturals-HasAmounts s r d w h = record {
  rate = parse_i128_of s.rate_per_second r h.rate h.in_range.0;
  deposited = parse_i128_of s.deposited_amount d h.deposited h.in_range.1;
  withdrawn = parse_i128_of s.withdrawn_amount w h.withdrawn (omega (arith, h.covered, h.in_range));
  covered = h.covered;
}

distribute : (e k r : ℕ) → (e + k) * r ≡ e * r + k * r
distribute e k r = grind arith

-- What is claimed `k` seconds later is less than all before the runway is over, and all after it.
before_runway : (e r m k : ℕ) → 0 < r → k < (m - min (e * r) m) / r → min ((e + k) * r) m < m
before_runway e r m k h less =
    let rest = m - min (e * r) m in
    let whole = div-add-mod' rest r in
    let most = mul_mono (suc k) (rest / r) r less in
    let next = distribute 1 k r in
    let total = distribute e k r in omega (arith, h, whole, most, next, total)

after_runway : (e r m k : ℕ) → 0 < r → (m - min (e * r) m) / r < k → min ((e + k) * r) m ≡ m
after_runway e r m k h more =
    let rest = m - min (e * r) m in
    let whole = div-add-mod' rest r in
    let bound : rest % r < r = mod-lt rest h in
    let least = mul_mono (suc (rest / r)) k r more in
    let next = distribute 1 (rest / r) r in
    let total = distribute e k r in omega (arith, h, whole, bound, least, next, total)

runway_seconds_pos : (r m : ℕ) → 0 < r → runway_seconds (pos r) (pos m) ≡ m / r
unfolding runway_seconds
runway_seconds_pos r m h = ground arith

abbrev pub empty_cache : ℕ → ℕ → ℕ → MemoryCache Value
empty_cache hits misses max_items = record {
  cache = [];
  hits = hits;
  misses = misses;
  max_items = max_items;
}

abbrev uncached : StreamState → ℤ → ℤ → Result
uncached s now amount = record { value = value_of s now amount; cached = false; cached_at = none }

get_claimable_amount-empty :
    (ttl : ℕ) (clock : Readings) (s : StreamState) (now amount : ℤ) (h m n : ℕ)
    → claimable_amount s now ≡ some amount
    → (get_claimable_amount ttl clock s (some now) (empty_cache h m n)).1
      ≡ some (uncached s now amount)
unfolding get_claimable_amount MemoryCache.get answer lookup
get_claimable_amount-empty ttl clock s now amount h m n e = rw e refl

running_amount :
    (active paused : Bool) (o : Option ℤ) (now last r m : ℕ)
    → active ≡ true
    → paused ≡ false
    → (if active then pos (min ((end_time paused o now - last) * r) m) else pos 0)
      ≡ pos (min ((now - last) * r) m)
running_amount active paused o now last r m h k = rw (h, k) refl

-- What an active stream that is not paused can claim `k` seconds after `t`.
claimable_later :
    (s : Stream) (r d w t k : ℕ)
    → HasNaturals s r d w
    → s.is_active ≡ true
    → s.is_paused ≡ false
    → pos_part s.last_update_time ≤ t
    → claimable_amount (stream_state s) (pos (t + k))
      ≡ some (pos (min ((t - pos_part s.last_update_time + k) * r) (d - w)))
claimable_later s r d w t k h active running old =
    let last = pos_part s.last_update_time in
    let seconds : t + k - last ≡ t - last + k = omega (arith, old) in
    claimable_closed (stream_state s) r d w (pos (t + k)) (HasNaturals-HasAmounts s r d w h)
    ∙ ap some
        (running_amount s.is_active s.is_paused s.paused_at (t + k) last r (d - w) active running)
    ∙ ap (λ n. some (pos (min (n * r) (d - w)))) seconds

runway_of-natural :
    (s : Stream) (r d w a : ℕ) (now : ℤ)
    → HasNaturals s r d w
    → a ≤ d - w
    → runway_of s (some (uncached (stream_state s) now (pos a)))
      ≡ some (record {
        stream_id = s.stream_id;
        remaining_runway_seconds = runway_seconds (pos r) (pos (d - w - a));
        unclaimed_balance = pos (d - w);
        claimable_now = pos a;
        sender = s.sender;
        recipient = s.recipient;
      })
unfolding runway_of
runway_of-natural s r d w a now h le =
    rw
      (
        big_int-to_string (pos a),
        h.deposited,
        h.withdrawn,
        h.rate,
        -ℤ_pos d w h.covered,
        -ℤ_pos (d - w) a le,
      )
      refl

-- What the claimable service gives `k` seconds later, against a runway of `n` seconds.
abbrev pub IsForecast : Stream → ℕ → ℕ → ℕ → Type 0
IsForecast s total t n =
    (k : ℕ)
    → (k < n
        → (a : ℕ) × (claimable_amount (stream_state s) (pos (t + k)) ≡ some (pos a)) × (a < total))
      × (n < k → claimable_amount (stream_state s) (pos (t + k)) ≡ some (pos total))

-- For an active stream that is not paused, with natural amounts in range, a positive rate and an
-- update no later than now, the computation with an empty cache succeeds. It finds what the deposit
-- exceeds the withdrawals by, and a runway such that, with the row unchanged, less than all of that
-- can be claimed at any second before the runway is over, and all of it at any second after.
pub calculate_stream_runway-IsForecast :
    (ttl : ℕ) (clock : Readings) (s : Stream) (r d w t : ℕ) (hits misses max_items : ℕ)
    → HasNaturals s r d w
    → 0 < r
    → s.is_active ≡ true
    → s.is_paused ≡ false
    → pos_part s.last_update_time ≤ t
    → (c : RunwayCalculation) × ((calculate_stream_runway ttl clock s
          (pos t)
          (empty_cache hits misses max_items)).1
        ≡ some c)
      × (c.unclaimed_balance ≡ pos (d - w))
      × IsForecast s (d - w) t c.remaining_runway_seconds
unfolding calculate_stream_runway
calculate_stream_runway-IsForecast ttl clock s r d w t hits misses max_items h rate active running
      old =
    let e = t - pos_part s.last_update_time in
    let m = d - w in
    let later = λ (k : ℕ). claimable_later s r d w t k h active running old in
    let now : claimable_amount (stream_state s) (pos t) ≡ some (pos (min (e * r) m)) =
      ap (λ n. claimable_amount (stream_state s) (pos n)) (omega arith)
      ∙ later 0
      ∙ ap (λ n. some (pos (min (n * r) m))) (omega arith) in
    let answered =
      ap (runway_of s) (
        get_claimable_amount-empty ttl clock (stream_state s) (pos t) (pos (min (e * r) m)) hits
          misses max_items now)
      ∙ runway_of-natural s r d w (min (e * r) m) (pos t) h (omega arith) in
    let seconds = runway_seconds_pos r (m - min (e * r) m) rate in
    (
      _,
      answered,
      refl,
      λ k. (
        λ less. (
          min ((e + k) * r) m,
          later k,
          before_runway e r m k rate (subst (λ n. k < n) seconds less),
        ),
        λ more.
            later k
            ∙ ap (λ n. some (pos n)) (after_runway e r m k rate (subst (λ n. n < k) seconds more)),
      ),
    )
