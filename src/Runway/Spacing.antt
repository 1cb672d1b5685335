-- ===== src/Runway/Spacing.antt =====
-- No stream is alerted about twice within the window, in
-- backend/src/workers/stream-runway-worker.ts.
use flowfi.Prelude.{
  ℕ, ◌+◌, ◌*◌, ◌≤◌, ◌<◌, ◌≡◌, refl, arith, true, false, not, ◌&&◌, Option, none, some, List, [],
  ◌∷◌, ◌++◌, leb, select, All, All-append, Bool-cases, inl, inr, ℤ,
}
use flowfi.Indexer.Tables.{Stream}
use flowfi.Runway.{
  RunwayCalculation, AlertType, warning_48h, critical_24h, same_type, Alert, RunwayState, Moment,
  was_alert_recently_sent, count_sent, alert, check_runway, calculate_stream_runway, check_streams,
  run_stream_runway_check, critical_threshold_hours, warning_threshold_hours,
}

-- A later alert about the same stream and of the same type is more than a day later, in
-- milliseconds.
abbrev pub IsApart : Alert → Alert → Type 0
IsApart a b =
    a.stream_id ≡ b.stream_id
    → same_type a.alert_type b.alert_type ≡ true
    → a.sent_at + 86400000 < b.sent_at

abbrev pub IsSpaced : List Alert → Type 0
IsSpaced [] = Unit
IsSpaced (a ∷ rest) = All (λ b. IsApart a b) rest × IsSpaced rest

IsSpaced-snoc :
    (h : List Alert) (b : Alert) → IsSpaced h → All (λ a. IsApart a b) h → IsSpaced (h ++ b ∷ [])
IsSpaced-snoc [] b s p = (tt, tt)
IsSpaced-snoc (a ∷ h) b (q, s) (r, p) =
    (All-append (λ c. IsApart a c) h (b ∷ []) q (r, tt), IsSpaced-snoc h b s p)

not_recent :
    (looked stored id : ℕ) (type : AlertType) (h : List Alert)
    → looked ≤ stored
    → was_alert_recently_sent looked id type h ≡ false
    → All (λ a. IsApart a (record { stream_id = id; alert_type = type; sent_at = stored })) h
unfolding was_alert_recently_sent
not_recent looked stored id type [] le e = tt
not_recent looked stored id type (a ∷ h) le e =
    (λ same like. ground (arith, same, like), not_recent looked stored id type h le (ground arith))

count_sent-history : (type : AlertType) (w : RunwayState) → (count_sent type w).history ≡ w.history
count_sent-history warning_48h w = refl
count_sent-history critical_24h w = refl

alert-IsSpaced :
    (m : Moment) (runway : RunwayCalculation) (id : ℕ) (type : AlertType) (w : RunwayState)
    → m.looked ≤ m.stored
    → IsSpaced w.history
    → IsSpaced (alert m runway id type w).history
unfolding alert
alert-IsSpaced m runway id type w le h =
    elim (Bool-cases (was_alert_recently_sent m.looked id type w.history)) [
      | inl recent ↦ rw recent h
      | inr old ↦
          rw (old, count_sent-history)
            (IsSpaced-snoc w.history _ h (not_recent m.looked m.stored id type w.history le old))
    ]

check_runway-IsSpaced :
    (m : Moment) (s : Stream) (o : Option RunwayCalculation) (w : RunwayState)
    → m.looked ≤ m.stored
    → IsSpaced w.history
    → IsSpaced (check_runway m s o w).history
unfolding check_runway
check_runway-IsSpaced m s none w le h = h
check_runway-IsSpaced m s (some r) w le h =
    let critical = alert-IsSpaced m r s.stream_id critical_24h w le h in
    let warning = alert-IsSpaced m r s.stream_id warning_48h w le h in
    elim (Bool-cases (leb r.remaining_runway_seconds (critical_threshold_hours * 3600))) [
      | inl soon ↦ rw soon critical
      | inr later ↦
          elim (Bool-cases (leb r.remaining_runway_seconds (warning_threshold_hours * 3600))) [
            | inl near ↦ rw (later, near) warning
            | inr far ↦ rw (later, far) h
          ]
    ]

-- An alert is stored no earlier than the history was looked at for it.
abbrev pub IsOrderly : (ℕ → Moment) → Type 0
IsOrderly clock = (id : ℕ) → (clock id).looked ≤ (clock id).stored

check_streams-IsSpaced :
    (ttl : ℕ) (clock : ℕ → Moment) (now : ℤ) (l : List Stream) (w : RunwayState)
    → IsOrderly clock
    → IsSpaced w.history
    → IsSpaced (check_streams ttl clock now l w).history
unfolding check_streams
check_streams-IsSpaced ttl clock now [] w le h = h
check_streams-IsSpaced ttl clock now (s ∷ rest) w le h =
    let m = clock s.stream_id in
    let answer = calculate_stream_runway ttl m.readings s now w.cache in
    let next = record w { cache = answer.0 } in
    check_streams-IsSpaced ttl clock now rest (check_runway m s answer.1 next) le
      (check_runway-IsSpaced m s answer.1 next (le s.stream_id) h)

-- Checks one after another, each of the rows as they are then.
pub data Checks : RunwayState → RunwayState → Type 0 where
  no_check : {w : RunwayState} → Checks w w
  check :
      {w v : RunwayState} (ttl : ℕ) (clock : ℕ → Moment) (now : ℤ) (streams : List Stream)
      → IsOrderly clock
      → Checks (run_stream_runway_check ttl clock now streams w) v
      → Checks w v

-- Where any two alerts about one stream and of one type are more than a day apart, they still are
-- after any number of checks, at whatever times and over whatever rows, if the clock does not go
-- back between a look at the history and the alert that follows it.
pub Checks-IsSpaced : {w v : RunwayState} → Checks w v → IsSpaced w.history → IsSpaced v.history
unfolding run_stream_runway_check
Checks-IsSpaced no_check h = h
Checks-IsSpaced {w} (check ttl clock now streams le run) h = Checks-IsSpaced run (
    check_streams-IsSpaced ttl clock now (select (λ s. s.is_active && not s.is_paused) streams)
      (record w { warnings_sent = 0; criticals_sent = 0 }) le h)
