-- ===== src/Indexer/Poll.antt =====
-- The poll cycle of backend/src/workers/soroban-event-worker.ts, with the dead letters of
-- backend/src/services/indexerService.ts and the state row of backend/src/lib/indexer-state.ts.
-- The response of the RPC is an argument. A database that fails is not modelled; metrics, spans
-- and logs are left out.
use flowfi.Prelude.{
  ℕ, ◌+◌, ◌-◌, ◌*◌, ◌/◌, Bool, true, false, ◌&&◌, not, Option, none, some, List, [], ◌∷◌, ◌++◌,
  if◌then◌else◌, ◌==◌, ltb, leb, length, select,
}
use flowfi.Prelude.Text.{Text, codes, text_eq}
use flowfi.Indexer.Xdr.{Error, Outcome, ok, err, ◌>>=◌, ScVal, StrKey, decode_symbol}
use flowfi.Indexer.Tables.{Db}
use flowfi.Indexer.Bodies.{Event}
use flowfi.Indexer.Handlers.{Broadcast, process_event}

pub record IndexerState : Type 0 where
  pub last_ledger : ℕ
  pub last_cursor : Option Text

pub record DeadLetter : Type 0 where
  pub event_id : Text
  pub event_type : Text
  pub tx_hash : Text
  pub ledger_sequence : ℕ
  pub error : Error
  pub attempts : ℕ

pub record Attempt : Type 0 where
  pub success : Bool
  pub at : ℕ

-- The worker's counters.
pub record Counters : Type 0 where
  pub events_processed : ℕ
  pub events_failed : ℕ
  pub last_error_at : Option ℕ
  pub recent_outcomes : List Attempt

pub record World : Type 0 where
  pub db : Db
  pub dead_letters : List DeadLetter
  pub counters : Counters
  pub sent : List Broadcast
  pub state : Option IndexerState

abbrev pub failure_window_ms : ℕ
failure_window_ms = 300000

abbrev pub min_samples_for_degraded : ℕ
min_samples_for_degraded = 3

-- Outcomes at the cutoff or later; times before the window's length have no cutoff.
abbrev pub is_recent : ℕ → Attempt → Bool
is_recent now o = leb (now - failure_window_ms) o.at

unfoldable pub record_outcome : ℕ → Bool → Counters → Counters
record_outcome now success c = record c {
  recent_outcomes =
      select (is_recent now) (c.recent_outcomes ++ record { success = success; at = now } ∷ []);
}

-- `failed / recent.length >= 0.5` for a positive length.
unfoldable pub is_failure_spike : ℕ → Counters → Bool
is_failure_spike now c =
    let recent = select (is_recent now) c.recent_outcomes in
    let failed = length (select (λ o. not o.success) recent) in
    if ltb (length recent) min_samples_for_degraded then false else leb (length recent) (2 * failed)

-- `getEventCounters`: the counts, the last error and whether the worker is degraded.
unfoldable pub get_event_counters : ℕ → Counters → ℕ × ℕ × Option ℕ × Bool
unfolding is_failure_spike
get_event_counters now c =
    (c.events_processed, c.events_failed, c.last_error_at, is_failure_spike now c)

abbrev pub initial_counters : Counters
initial_counters = record {
  events_processed = 0;
  events_failed = 0;
  last_error_at = none;
  recent_outcomes = [];
}

-- `ensureIndexerState`: the row that is there, else the one that a concurrent caller has inserted
-- first, else a new one.
unfoldable pub ensure_indexer_state : ℕ → Option IndexerState → Option IndexerState → IndexerState
ensure_indexer_state start (some row) raced = row
ensure_indexer_state start none (some row) = row
ensure_indexer_state start none none = record { last_ledger = start; last_cursor = none }

-- A text that is missing or empty is falsy.
unfoldable pub or_else : Option Text → Option Text → Option Text
or_else none y = y
or_else (some []) y = y
or_else (some (c ∷ s)) y = some (c ∷ s)

pub data Request : Type 0 where
  from_cursor : Text → Request
  from_ledger : ℕ → Request

unfoldable pub request : ℕ → IndexerState → Request
unfolding or_else
request start s = elim (or_else s.last_cursor none) [
  | some cursor ↦ from_cursor cursor
  | none ↦ from_ledger (if s.last_ledger == 0 then start else s.last_ledger)
]

pub record Response : Type 0 where
  pub events : List Event
  pub latest_cursor : Option Text

-- The type of an event's first topic, read with no `try` around it.
unfoldable pub first_symbol : Text → List ScVal → Outcome Text
first_symbol default [] = ok default
first_symbol default (topic0 ∷ more) = decode_symbol topic0

unfoldable pub is_created : Event → Outcome Bool
unfolding first_symbol
is_created e = do name ← first_symbol [] e.topic; ok (text_eq name (codes "stream_created"))

-- The sort is stable and puts creations first, so it is a partition. Its comparison decodes both
-- events: with two events or more each is decoded, and a failure is thrown.
unfoldable pub partition : List Event → Outcome (List Event × List Event)
unfolding is_created
partition [] = ok ([], [])
partition (e ∷ es) = do
  first ← is_created e
  rest ← partition es
  ok (if first then (e ∷ rest.0, rest.1) else (rest.0, e ∷ rest.1))

unfoldable pub sort_events : List Event → Outcome (List Event)
unfolding partition
sort_events [] = ok []
sort_events (e ∷ []) = ok (e ∷ [])
sort_events (e ∷ e' ∷ es) = do parts ← partition (e ∷ e' ∷ es); ok (parts.0 ++ parts.1)

abbrev pub same_letter : Text → Text → DeadLetter → Bool
same_letter id type l = text_eq l.event_id id && text_eq l.event_type type

-- `quarantineEvent`: an upsert by event and type.
unfoldable pub quarantine : Text → Event → Error → List DeadLetter → List DeadLetter
quarantine type e error [] =
    record {
      event_id = e.id;
      event_type = type;
      tx_hash = e.tx_hash;
      ledger_sequence = e.ledger;
      error = error;
      attempts = 1;
    }
    ∷ []
quarantine type e error (l ∷ ls) =
    if same_letter e.id type l
    then record l { error = error; attempts = l.attempts + 1 } ∷ ls
    else l ∷ quarantine type e error ls

-- The variables of the loop.
pub record Progress : Type 0 where
  pub cursor : Option Text
  pub ledger : ℕ
  pub saw_success : Bool

-- What the worker is given: encodings of keys, what the SDK's method `sym` gives, `none` where the
-- call throws, the first ledger, and the clock, in milliseconds, as each event is handled.
pub record Env : Type 0 where
  pub str_key : StrKey
  pub call_sym : ScVal → Option Text
  pub start_ledger : ℕ
  pub clock : Event → ℕ

-- `eventTypeOf`
unfoldable pub event_type_of : Env → List ScVal → Text
event_type_of env [] = codes "unknown"
event_type_of env (topic0 ∷ more) = elim (env.call_sym topic0) [
  | some name ↦ name
  | none ↦ codes "unknown"
]

module _ (env : Env) where
  -- The counters after an event that was processed.
  abbrev pub count_processed : Event → Counters → Counters
  count_processed e c =
      record_outcome (env.clock e) true (record c { events_processed = c.events_processed + 1 })

  -- The `try` and `catch` of the loop.
  unfoldable pub settle :
      Event → Outcome (Db × List Broadcast) → World → Progress → World × Progress
  unfolding quarantine record_outcome event_type_of
  settle e (ok (db, messages)) w p = (
    record w { db = db; counters = count_processed e w.counters; sent = w.sent ++ messages },
    record { cursor = some e.id; ledger = e.ledger; saw_success = true },
  )
  settle e (err error) w p =
      (record w { dead_letters = quarantine (event_type_of env e.topic) e error w.dead_letters }, p)

  -- The loop over the sorted events; `false` if it was left by a throw.
  unfoldable pub run_events : List Event → World → Progress → World × Progress × Bool
  unfolding settle process_event first_symbol
  run_events [] w p = (w, p, true)
  run_events (e ∷ es) w p =
      let next = settle e (process_event env.str_key (env.clock e / 1000) e w.db) w p in
      let after = run_events es next.0 next.1 in
      let skipped = run_events es w p in
      if e.in_successful_contract_call
      then elim (first_symbol (codes "unknown") e.topic) [
        | ok name ↦ after
        | err error ↦ (w, p, false)
      ]
      else skipped

  -- The end of a cycle: the state row is written unless the loop was left by a throw.
  unfoldable pub write_state : Option Text → World × Progress × Bool → World × Bool
  unfolding or_else
  write_state latest (w, p, false) = (w, false)
  write_state latest (w, p, true) = (
    record w {
      state = some (record {
        last_ledger = p.ledger;
        last_cursor = if p.saw_success then or_else latest p.cursor else p.cursor;
      });
    },
    true,
  )

  -- `runPollCycle` on the state row and a response; `none` is an RPC that failed. The result says
  -- whether the cycle ended without a throw.
  unfoldable pub run_batch : IndexerState → Response → World → World × Bool
  unfolding write_state sort_events run_events
  run_batch s response w = elim (sort_events response.events) [
    | err error ↦ (w, false)
    | ok [] ↦ (w, true)
    | ok (e ∷ es) ↦ write_state response.latest_cursor (
        run_events (e ∷ es) w
          (record { cursor = s.last_cursor; ledger = s.last_ledger; saw_success = false }))
  ]

  unfoldable pub run_poll_cycle :
      Option IndexerState → (Request → Option Response) → World → World × Bool
  unfolding run_batch ensure_indexer_state request
  run_poll_cycle raced rpc w =
      let s = ensure_indexer_state env.start_ledger w.state raced in
      let w' = record w { state = some s } in
      elim (rpc (request env.start_ledger s)) [
        | none ↦ (w', false)
        | some response ↦ run_batch s response w'
      ]
