-- ===== src/Runway/Tests.antt =====
-- Runs of the runway worker of backend/src/workers/stream-runway-worker.ts.
use flowfi.Prelude.{
  ℕ, ◌+◌, ◌≡◌, refl, arith, true, false, none, some, [], ◌∷◌, pos, length, map, ◌*ℤ◌,
}
use flowfi.Prelude.Text.{codes, text_eq, big_int, to_string}
use flowfi.Claimable.{Readings, answer, cache_key}
use flowfi.Prelude.JsMap.{lookup, insert, erase}
use flowfi.MemoryCache.{get, set}
use flowfi.Indexer.Tables.{Stream}
use flowfi.Runway.{
  RunwayCalculation, RunwayState, Moment, calculate_stream_runway, run_stream_runway_check,
}
use flowfi.Runway.Forecast.{
  HasNaturals, IsForecast, empty_cache, calculate_stream_runway-IsForecast,
}
use flowfi.Runway.Spacing.{IsSpaced, no_check, check, Checks-IsSpaced}

-- One a second from time 1000, 100000 deposited and 500 withdrawn.
abbrev stream : Stream
stream = record {
  stream_id = 7;
  sender = codes "GS";
  recipient = codes "GR";
  token_address = codes "C";
  rate_per_second = codes "1";
  deposited_amount = codes "100000";
  withdrawn_amount = codes "500";
  start_time = pos 1000;
  last_update_time = pos 1000;
  end_time = none;
  is_active = true;
  is_paused = false;
  paused_at = none;
  total_paused_duration = pos 0;
}

abbrev readings : Readings
readings = record { now_ms = pos 0; at_get = 0; at_metadata = 0; at_set = 0 }

-- A look at a time and a store one millisecond later.
abbrev at : ℕ → ℕ → Moment
at ms id = record { readings = readings; looked = ms; stored = ms + 1 }

abbrev idle : RunwayState
idle = record {
  cache = empty_cache 0 0 100;
  history = [];
  sent = [];
  warnings_sent = 0;
  criticals_sent = 0;
}

-- A warning at first, none an hour later, and a critical alert when a day is left.
abbrev first_check : RunwayState
unfolding run_stream_runway_check
first_check = run_stream_runway_check 5000 (at 2000000) (pos 2000) (stream ∷ []) idle

abbrev second_check : RunwayState
unfolding run_stream_runway_check
second_check = run_stream_runway_check 5000 (at 5600000) (pos 5600) (stream ∷ []) first_check

abbrev third_check : RunwayState
unfolding run_stream_runway_check
third_check = run_stream_runway_check 5000 (at 20000000) (pos 20000) (stream ∷ []) second_check

three_checks :
    (map (λ a. a.sent_at) first_check.history ≡ 2000001 ∷ [])
    × (map (λ a. a.sent_at) second_check.history ≡ 2000001 ∷ [])
    × (map (λ a. a.sent_at) third_check.history ≡ 2000001 ∷ 20000001 ∷ [])
    × (length third_check.sent ≡ 6)
unfolding run_stream_runway_check answer get lookup to_string ◌*ℤ◌ set insert erase text_eq
    cache_key
three_checks = (refl, refl, refl, refl)

amounts : HasNaturals stream 1 100000 500
unfolding big_int
amounts = record {
  rate = refl;
  deposited = refl;
  withdrawn = refl;
  covered = omega arith;
  in_range = (omega arith, omega arith);
}

calculate_stream_runway-IsForecast_example :
    (c : RunwayCalculation) × ((calculate_stream_runway 5000 readings stream
        (pos 2000)
        (empty_cache 0 0 100)).1
      ≡ some c)
    × (c.unclaimed_balance ≡ pos 99500)
    × IsForecast stream 99500 2000 c.remaining_runway_seconds
calculate_stream_runway-IsForecast_example =
    calculate_stream_runway-IsForecast 5000 readings stream 1 100000 500 2000 0 0 100 amounts
      (omega arith) refl refl (omega arith)

Checks-IsSpaced_example :
    IsSpaced
      (run_stream_runway_check 5000
        (at 5600000)
        (pos 5600)
        (stream ∷ [])
        (run_stream_runway_check 5000 (at 2000000) (pos 2000) (stream ∷ []) idle)).history
Checks-IsSpaced_example =
    Checks-IsSpaced
      (check 5000 (at 2000000) (pos 2000) (stream ∷ []) (λ id. omega arith)
        (check 5000 (at 5600000) (pos 5600) (stream ∷ []) (λ id. omega arith) no_check))
      tt
