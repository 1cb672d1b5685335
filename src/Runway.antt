-- ===== src/Runway.antt =====
-- The low-balance alerts of backend/src/workers/stream-runway-worker.ts, over the rows of the
-- indexer's table and through the claimable service with its cache. A division that becomes a
-- number of seconds is exact, as it is below 2^53. A message holds what the source sends, without
-- its own time and the hours that are a rounding of the seconds. Timer and logs are left out; a
-- failing database is not modelled.
pub mod Forecast
pub mod Spacing
mod Tests
use flowfi.Prelude.{
  ℕ, ◌+◌, ◌-◌, ◌*◌, ◌/◌, Bool, true, false, ◌&&◌, not, Option, none, some, List, [], ◌∷◌, ◌++◌,
  if◌then◌else◌, ◌==◌, leb, select, ℤ, pos, pos_part, ◌-ℤ◌, ltb_ℤ, trunc_div,
}
use flowfi.Prelude.Text.{Text, big_int}
use flowfi.MemoryCache.{MemoryCache}
use flowfi.Claimable.{StreamState, Value, Result, Readings, get_claimable_amount}
use flowfi.Indexer.Tables.{Stream}

abbrev pub warning_threshold_hours : ℕ
warning_threshold_hours = 48

abbrev pub critical_threshold_hours : ℕ
critical_threshold_hours = 24

abbrev pub deduplication_window_hours : ℕ
deduplication_window_hours = 24

pub record RunwayCalculation : Type 0 where
  pub stream_id : ℕ
  pub remaining_runway_seconds : ℕ
  pub unclaimed_balance : ℤ
  pub claimable_now : ℤ
  pub sender : Text
  pub recipient : Text

pub data AlertType : Type 0 where
  warning_48h critical_24h : AlertType

abbrev pub same_type : AlertType → AlertType → Bool
same_type warning_48h warning_48h = true
same_type warning_48h critical_24h = false
same_type critical_24h warning_48h = false
same_type critical_24h critical_24h = true

-- A row of the alert history, with the milliseconds at which it was stored.
pub record Alert : Type 0 where
  pub stream_id : ℕ
  pub alert_type : AlertType
  pub sent_at : ℕ

pub data Receiver : Type 0 where
  to_user : Text → Receiver
  to_stream : ℕ → Receiver

pub record AlertMessage : Type 0 where
  pub receiver : Receiver
  pub alert_type : AlertType
  pub runway : RunwayCalculation

-- The columns that the claimable service is given.
abbrev pub stream_state : Stream → StreamState
stream_state s = record {
  stream_id = pos s.stream_id;
  rate_per_second = s.rate_per_second;
  deposited_amount = s.deposited_amount;
  withdrawn_amount = s.withdrawn_amount;
  start_time = s.start_time;
  last_update_time = s.last_update_time;
  is_active = s.is_active;
  is_paused = s.is_paused;
  paused_at = s.paused_at;
  total_paused_duration = s.total_paused_duration;
  updated_at = none;
}

infixl 5 ◌>>=◌
abbrev ◌>>=◌ : {A B : Type 0} (m : Option A) (next : A → Option B) → Option B
none >>= next = none
some value >>= next = next value

unfoldable pub runway_seconds : ℤ → ℤ → ℕ
runway_seconds rate remaining =
    if ltb_ℤ (pos 0) rate && ltb_ℤ (pos 0) remaining then pos_part (trunc_div remaining rate) else 0

-- What follows the answer of the claimable service; a `BigInt` that throws is `none`.
unfoldable pub runway_of : Stream → Option Result → Option RunwayCalculation
unfolding runway_seconds big_int ◌-ℤ◌
runway_of s answer = do
  result ← answer
  claimable_now ← big_int result.value.claimable_amount
  deposited ← big_int s.deposited_amount
  withdrawn ← big_int s.withdrawn_amount
  rate ← big_int s.rate_per_second
  some (record {
    stream_id = s.stream_id;
    remaining_runway_seconds = runway_seconds rate (deposited -ℤ withdrawn -ℤ claimable_now);
    unclaimed_balance = deposited -ℤ withdrawn;
    claimable_now = claimable_now;
    sender = s.sender;
    recipient = s.recipient;
  })

unfoldable pub calculate_stream_runway :
    ℕ → Readings → Stream → ℤ → MemoryCache Value → MemoryCache Value × Option RunwayCalculation
unfolding runway_of get_claimable_amount
calculate_stream_runway ttl clock s now cache =
    let (cache', answer) = get_claimable_amount ttl clock (stream_state s) (some now) cache in
    (cache', runway_of s answer)

abbrev window_ms : ℕ
window_ms = deduplication_window_hours * 60 * 60 * 1000

-- `findFirst` of an alert of a stream and type since the cutoff. Stored times are positive, so a
-- cutoff before the first millisecond finds the same.
unfoldable pub was_alert_recently_sent : ℕ → ℕ → AlertType → List Alert → Bool
was_alert_recently_sent now id type [] = false
was_alert_recently_sent now id type (a ∷ rest) =
    if a.stream_id == id && same_type a.alert_type type && leb (now - window_ms) a.sent_at
    then true
    else was_alert_recently_sent now id type rest

abbrev pub record_alert : ℕ → ℕ → AlertType → List Alert → List Alert
record_alert stored id type history =
    history ++ record { stream_id = id; alert_type = type; sent_at = stored } ∷ []

-- To the sender, to the recipient, and to the subscribers of the stream.
abbrev pub send_low_balance_alert : RunwayCalculation → AlertType → List AlertMessage
send_low_balance_alert runway type =
    record { receiver = to_user runway.sender; alert_type = type; runway = runway }
    ∷ record { receiver = to_user runway.recipient; alert_type = type; runway = runway }
    ∷ record { receiver = to_stream runway.stream_id; alert_type = type; runway = runway }
    ∷ []

pub record RunwayState : Type 0 where
  pub cache : MemoryCache Value
  pub history : List Alert
  pub sent : List AlertMessage
  pub warnings_sent : ℕ
  pub criticals_sent : ℕ

-- The readings of the clock as one stream is handled: the service's, that of the look at the
-- history, and the time with which the database stores the alert.
pub record Moment : Type 0 where
  pub readings : Readings
  pub looked : ℕ
  pub stored : ℕ

abbrev pub count_sent : AlertType → RunwayState → RunwayState
count_sent warning_48h w = record w { warnings_sent = w.warnings_sent + 1 }
count_sent critical_24h w = record w { criticals_sent = w.criticals_sent + 1 }

-- An alert, unless one of its type was sent within the window.
unfoldable pub alert : Moment → RunwayCalculation → ℕ → AlertType → RunwayState → RunwayState
unfolding was_alert_recently_sent
alert m runway id type w =
    if was_alert_recently_sent m.looked id type w.history
    then w
    else count_sent type (record w {
      history = record_alert m.stored id type w.history;
      sent = w.sent ++ send_low_balance_alert runway type;
    })

unfoldable pub check_runway : Moment → Stream → Option RunwayCalculation → RunwayState → RunwayState
unfolding alert
check_runway m s none w = w
check_runway m s (some runway) w =
    if leb runway.remaining_runway_seconds (critical_threshold_hours * 3600)
    then alert m runway s.stream_id critical_24h w
    else if leb runway.remaining_runway_seconds (warning_threshold_hours * 3600)
    then alert m runway s.stream_id warning_48h w
    else w

module _ (ttl : ℕ) (clock : ℕ → Moment) (now : ℤ) where
  -- The loop; a stream that throws is skipped.
  unfoldable pub check_streams : List Stream → RunwayState → RunwayState
  unfolding check_runway calculate_stream_runway
  check_streams [] w = w
  check_streams (s ∷ rest) w =
      let m = clock s.stream_id in
      let (cache', runway) = calculate_stream_runway ttl m.readings s now w.cache in
      check_streams rest (check_runway m s runway (record w { cache = cache' }))

  unfoldable pub run_stream_runway_check : List Stream → RunwayState → RunwayState
  unfolding check_streams
  run_stream_runway_check streams w =
      check_streams (select (λ s. s.is_active && not s.is_paused) streams)
        (record w { warnings_sent = 0; criticals_sent = 0 })
