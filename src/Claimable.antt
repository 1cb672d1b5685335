-- ===== src/Claimable.antt =====
-- The claimable-amount service of backend/src/services/claimable.service.ts: the overflow-safe
-- amount, the text key of the cache, and the lookup through the cache. A number that holds whole
-- seconds or milliseconds is an integer; a thrown error is `none`.
pub mod Amount
pub mod Key
pub mod Coherence
mod Tests
use Prim.Native.Nat.{◌^◌}
use mathlib.Core.Option
use flowfi.Prelude.{
  ℕ, ◌+◌, ◌-◌, ◌*◌, Bool, true, false, ◌&&◌, Option, none, some, List, [], ◌∷◌, ◌++◌, if◌then◌else◌,
  ℤ, pos, negsuc, ◌-ℤ◌, ◌*ℤ◌, ltb_ℤ, floor_div,
}
use flowfi.Prelude.Text.{Text, codes, big_int, to_string}
use flowfi.MemoryCache
use flowfi.MemoryCache.{MemoryCache}

abbrev pub i128_max : ℤ
i128_max = pos (2 ^ 127 - 1)

abbrev pub i128_min : ℤ
i128_min = negsuc (2 ^ 127 - 1)

abbrev pub cache_bucket_seconds : ℕ
cache_bucket_seconds = 5

pub record StreamState : Type 0 where
  pub stream_id : ℤ
  pub rate_per_second : Text
  pub deposited_amount : Text
  pub withdrawn_amount : Text
  pub start_time : ℤ
  pub last_update_time : ℤ
  pub is_active : Bool
  pub is_paused : Bool
  pub paused_at : Option ℤ
  pub total_paused_duration : ℤ
  pub updated_at : Option ℤ

-- `ClaimableAmountResult` without `cached`: what the cache holds.
pub record Value : Type 0 where
  pub stream_id : ℤ
  pub claimable_amount : Text
  pub actionable : Bool
  pub calculated_at : ℤ

pub record Result : Type 0 where
  pub value : Value
  pub cached : Bool
  pub cached_at : Option ℕ

unfoldable pub clamp_i128 : ℤ → ℤ
clamp_i128 value =
    if ltb_ℤ i128_max value then i128_max else if ltb_ℤ value i128_min then i128_min else value

unfoldable pub saturating_sub_i128 : ℤ → ℤ → ℤ
unfolding clamp_i128
saturating_sub_i128 a b = clamp_i128 (a -ℤ b)

unfoldable pub checked_mul_i128 : ℤ → ℤ → Option ℤ
checked_mul_i128 a b =
    let value = a *ℤ b in
    if ltb_ℤ i128_max value then none else if ltb_ℤ value i128_min then none else some value

unfoldable pub parse_i128 : Text → Option ℤ
unfolding clamp_i128
parse_i128 value = Option.map clamp_i128 (big_int value)

-- `x > 0n ? x : 0n`
unfoldable pub or_zero : ℤ → ℤ
or_zero x = if ltb_ℤ (pos 0) x then x else pos 0

-- The difference where it is positive, `a > b ? a - b : 0n`.
unfoldable pub positive_sub : ℤ → ℤ → ℤ
positive_sub a b = if ltb_ℤ b a then a -ℤ b else pos 0

-- The seconds that count, with a pause that is under way taken off.
unfoldable pub elapsed_seconds : StreamState → ℤ → ℤ
unfolding positive_sub or_zero
elapsed_seconds stream calculated_at =
    let now_ts = or_zero calculated_at in
    let elapsed = positive_sub now_ts (or_zero stream.last_update_time) in
    if stream.is_paused
    then elim stream.paused_at [
      | none ↦ elapsed
      | some paused_at ↦
          let pause_start = or_zero paused_at in
          if ltb_ℤ pause_start now_ts then positive_sub elapsed (now_ts -ℤ pause_start) else elapsed
    ]
    else elapsed

-- What was streamed, up to what remains; all that remains if the product overflows.
unfoldable pub raw_claimable : ℤ → ℤ → ℤ → ℤ
unfolding checked_mul_i128
raw_claimable elapsed rate remaining = elim (checked_mul_i128 elapsed rate) [
  | none ↦ remaining
  | some streamed ↦ if ltb_ℤ remaining streamed then remaining else streamed
]

unfoldable pub actionable_amount : Bool → ℤ → ℤ
actionable_amount is_active raw = if is_active && ltb_ℤ (pos 0) raw then raw else pos 0

infixl 5 ◌>>=◌
abbrev ◌>>=◌ {ℓ κ} : {A : Type ℓ} {B : Type κ} → Option A → (A → Option B) → Option B
none >>= k = none
some a >>= k = k a

-- The amount at a time, from the stream's fields.
unfoldable pub claimable_amount : StreamState → ℤ → Option ℤ
unfolding elapsed_seconds raw_claimable actionable_amount saturating_sub_i128 parse_i128
claimable_amount stream calculated_at = do
  rate ← parse_i128 stream.rate_per_second
  deposited ← parse_i128 stream.deposited_amount
  withdrawn ← parse_i128 stream.withdrawn_amount
  some (
      actionable_amount stream.is_active (
        raw_claimable (elapsed_seconds stream calculated_at) rate
          (saturating_sub_i128 deposited withdrawn)))

-- `parts.join(':')`
unfoldable pub join : Text → List Text → Text
join first [] = first
join first (next ∷ rest) = first ++ b':' ∷ join next rest

abbrev pub flag : Bool → Text
flag b = if b then b'1' ∷ [] else b'0' ∷ []

abbrev pub paused_text : Option ℤ → Text
paused_text none = codes "null"
paused_text (some t) = to_string t

-- The parts of the fingerprint, the update time last where there is one.
abbrev pub updated_parts : Option ℤ → List Text → List Text
updated_parts none rest = rest
updated_parts (some t) rest = to_string t ∷ rest

abbrev pub bucket : ℤ → ℤ
bucket calculated_at = floor_div calculated_at cache_bucket_seconds *ℤ pos cache_bucket_seconds

-- `claimable:${streamId}:${fingerprint}:${bucket}`. Every join is by a colon, so the nested joins
-- of the source are one.
unfoldable pub cache_key : StreamState → ℤ → Text
unfolding join
cache_key stream calculated_at = join (codes "claimable") (
    to_string stream.stream_id
    ∷ stream.rate_per_second
    ∷ stream.deposited_amount
    ∷ stream.withdrawn_amount
    ∷ to_string stream.start_time
    ∷ to_string stream.last_update_time
    ∷ flag stream.is_active
    ∷ flag stream.is_paused
    ∷ paused_text stream.paused_at
    ∷ to_string stream.total_paused_duration
    ∷ updated_parts stream.updated_at (to_string (bucket calculated_at) ∷ []))

-- The clock readings of one call: `nowMs()`, and `Date.now()` in the cache's three methods.
pub record Readings : Type 0 where
  pub now_ms : ℤ
  pub at_get : ℕ
  pub at_metadata : ℕ
  pub at_set : ℕ

-- `Math.max(0, options.cacheTtlMs ?? 5000)`
pub cache_ttl_ms : Option ℤ → ℕ
cache_ttl_ms (some (pos n)) = n
cache_ttl_ms (some (negsuc n)) = 0
cache_ttl_ms none = 5000

abbrev pub calculated_at_of : Readings → Option ℤ → ℤ
calculated_at_of clock none = floor_div clock.now_ms 1000
calculated_at_of clock (some t) = t

abbrev pub value_of : StreamState → ℤ → ℤ → Value
value_of stream calculated_at amount = record {
  stream_id = stream.stream_id;
  claimable_amount = to_string amount;
  actionable = ltb_ℤ (pos 0) amount;
  calculated_at = calculated_at;
}

-- The end of a miss: store the computed amount and return it.
unfoldable pub store :
    ℕ
    → ℕ
    → Text
    → StreamState
    → ℤ
    → MemoryCache Value
    → Option ℤ
    → MemoryCache Value × Option Result
store ttl at_set key stream calculated_at cache none = (cache, none)
store ttl at_set key stream calculated_at cache (some amount) =
    let value = value_of stream calculated_at amount in
    (
      MemoryCache.set at_set key value ttl cache,
      some (record { value = value; cached = false; cached_at = none }),
    )

abbrev created_at : Option (ℕ × ℕ) → Option ℕ
created_at none = none
created_at (some (created, expires)) = some created

-- What follows the lookup: a hit reads the entry's metadata, a miss computes.
unfoldable pub answer :
    ℕ
    → Readings
    → Text
    → StreamState
    → ℤ
    → MemoryCache Value
    → Option Value
    → MemoryCache Value × Option Result
unfolding store claimable_amount
answer ttl clock key stream calculated_at cache (some value) =
    let (cache', metadata) = MemoryCache.get_metadata clock.at_metadata key cache in
    (cache', some (record { value = value; cached = true; cached_at = created_at metadata }))
answer ttl clock key stream calculated_at cache none =
    store ttl clock.at_set key stream calculated_at cache (claimable_amount stream calculated_at)

-- `getClaimableAmount`
unfoldable pub get_claimable_amount :
    ℕ → Readings → StreamState → Option ℤ → MemoryCache Value → MemoryCache Value × Option Result
get_claimable_amount ttl clock stream requested_at cache =
    let calculated_at = calculated_at_of clock requested_at in
    let key = cache_key stream calculated_at in
    let (cache', entry) = MemoryCache.get clock.at_get key cache in
    answer ttl clock key stream calculated_at cache' entry
