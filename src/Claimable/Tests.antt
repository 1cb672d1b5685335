-- ===== src/Claimable/Tests.antt =====
-- Runs of the claimable-amount service, and the theorems about it and its cache at concrete inputs.
use flowfi.Prelude.{
  ℕ, ◌-◌, ◌*◌, ◌≡◌, refl, none, some, true, false, [], ◌∷◌, arith, ℤ, pos, negsuc, ◌-ℤ◌, ◌+ℤ◌, ◌*ℤ◌,
  ◌≤ℤ◌, if◌then◌else◌, min,
}
use flowfi.Prelude.Text.{text_eq, codes, big_int, to_string}
use flowfi.Prelude.JsMap.{lookup}
use flowfi.MemoryCache.{CacheItem, MemoryCache, get, set, del, get_metadata, cleanup}
use flowfi.MemoryCache.Bounds.{IsValid, operations-IsValid}
use flowfi.Claimable.{
  StreamState, Value, Result, Readings, parse_i128, claimable_amount, calculated_at_of,
  get_claimable_amount,
}
use flowfi.Claimable.Amount.{HasAmounts, end_time, claimable_closed}
use flowfi.Claimable.Key.{HasPlainTexts}
use flowfi.Claimable.Coherence.{
  IsSound, Reply, get_claimable_amount-IsSound, get_claimable_amount_near,
}

-- 10 a second from time 100, 1000 deposited and 150 withdrawn.
abbrev stream : StreamState
stream = record {
  stream_id = pos 7;
  rate_per_second = codes "10";
  deposited_amount = codes "1000";
  withdrawn_amount = codes "150";
  start_time = pos 100;
  last_update_time = pos 115;
  is_active = true;
  is_paused = false;
  paused_at = none;
  total_paused_duration = pos 0;
  updated_at = none;
}

abbrev paused_stream : StreamState
paused_stream = record stream { is_paused = true; paused_at = some (pos 120) }

runs :
    (claimable_amount stream (pos 125) ≡ some (pos 100))
    × (claimable_amount stream (pos 900) ≡ some (pos 850))
    × (claimable_amount paused_stream (pos 900) ≡ some (pos 50))
unfolding claimable_amount big_int ◌-ℤ◌ ◌*ℤ◌
runs = (refl, refl, refl)

amounts : HasAmounts stream 10 1000 150
unfolding parse_i128 big_int
amounts = record { rate = refl; deposited = refl; withdrawn = refl; covered = omega arith }

plain : HasPlainTexts stream
plain = record { rate = omega arith; deposited = omega arith; withdrawn = omega arith }

claimable_closed_example :
    claimable_amount stream (pos 125)
    ≡ some (if true then pos (min ((end_time false none 125 - 115) * 10) (1000 - 150)) else pos 0)
claimable_closed_example = claimable_closed stream 10 1000 150 (pos 125) amounts

abbrev empty_cache : MemoryCache Value
empty_cache = record { cache = []; hits = 0; misses = 0; max_items = 2 }

abbrev clock : Readings
clock = record { now_ms = pos 127500; at_get = 127500; at_metadata = 127501; at_set = 127502 }

-- A cache with an entry for the same five seconds.
abbrev warm_cache : MemoryCache Value
warm_cache = (get_claimable_amount 5000 clock stream (some (pos 125)) empty_cache).0

warm_cache-IsSound : IsSound warm_cache
warm_cache-IsSound =
    (get_claimable_amount-IsSound 5000 clock stream (some (pos 125)) empty_cache tt plain).0

get_claimable_amount-IsSound_example :
    let (c', reply) = get_claimable_amount 5000 clock stream none warm_cache in
    IsSound c' × Reply stream (calculated_at_of clock none) reply
get_claimable_amount-IsSound_example =
    get_claimable_amount-IsSound 5000 clock stream none warm_cache warm_cache-IsSound plain

get_claimable_amount_near_example :
    (reply : Result) × (a : ℤ) × (b : ℤ) × ((get_claimable_amount 5000 clock stream none
        warm_cache).1
      ≡ some reply)
    × (reply.value.claimable_amount ≡ to_string a)
    × (claimable_amount stream (calculated_at_of clock none) ≡ some b)
    × (a ≤ℤ b +ℤ pos 40)
    × (b ≤ℤ a +ℤ pos 40)
get_claimable_amount_near_example =
    get_claimable_amount_near 5000 10 1000 150 clock stream none warm_cache warm_cache-IsSound plain
      amounts

-- A cache of numbers with one entry.
abbrev item : CacheItem ℕ
item = record { value = 5; expires_at = 100; created_at = 0 }

abbrev numbers : MemoryCache ℕ
numbers = record {
  cache = (codes "a", item) ∷ (codes "b", item) ∷ [];
  hits = 0;
  misses = 0;
  max_items = 2;
}

numbers-IsValid : IsValid numbers
unfolding lookup text_eq
numbers-IsValid = record { distinct = (refl, (refl, tt)); bounded = omega arith }

operations-IsValid_example :
    IsValid (get 50 (codes "a") numbers).0
    × IsValid (get_metadata 50 (codes "a") numbers).0
    × IsValid (set 50 (codes "a") 9 30 numbers)
    × IsValid (del (codes "a") numbers)
    × IsValid (cleanup 50 numbers)
operations-IsValid_example = operations-IsValid 50 30 (codes "a") 9 numbers numbers-IsValid

-- Spaces, a sign, a base, and what is no integer.
big_int_runs :
    (big_int (codes "  -12 ") ≡ some (negsuc 11))
    × (big_int (codes "0x1F") ≡ some (pos 31))
    × (big_int [] ≡ some (pos 0))
    × (big_int (codes "1.5") ≡ none)
unfolding big_int
big_int_runs = (refl, refl, refl, refl)
