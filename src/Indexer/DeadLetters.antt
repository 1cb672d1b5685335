-- ===== src/Indexer/DeadLetters.antt =====
-- Dead letters in backend/src/services/indexerService.ts: listing, replay and discarding, on the
-- rows of backend/prisma/schema.prisma. A payload is read by a function, since it is XDR in JSON.
-- Times are whole milliseconds; a failing database is not modelled.
pub mod Rows
pub mod Accounts
mod Tests
use flowfi.Prelude.{
  ℕ, zero, suc, ◌+◌, ◌-◌, ◌*◌, ◌/◌, Bool, true, false, ◌&&◌, ◌||◌, Option, none, some, List, [],
  ◌∷◌, ◌++◌, map, if◌then◌else◌, ◌==◌, leb, ltb, min, length, take, drop, select,
}
use flowfi.Prelude.Text.{Text, codes, text_eq}
use flowfi.Indexer.Xdr.{Error, Outcome, ok, err, StrKey}
use flowfi.Indexer.Tables.{Db}
use flowfi.Indexer.Bodies.{Event}
use flowfi.Indexer.Handlers.{Broadcast, process_event}

pub data LetterError : Type 0 where
  handler : Error → LetterError
  undecodable_payload : LetterError

pub record LetterRow : Type 0 where
  pub id : Text
  pub event_id : Text
  pub event_type : Text
  pub tx_hash : Text
  pub ledger_sequence : ℕ
  pub error_message : LetterError
  pub attempts : ℕ
  pub last_attempt_at : ℕ
  pub created_at : ℕ
  pub payload : Text
  pub cursor : Option Text

-- The tables and broadcasts that a replay changes.
pub record LetterStore : Type 0 where
  pub rows : List LetterRow
  pub db : Db
  pub sent : List Broadcast

pub data ReplayOutcome : Type 0 where
  replayed failed not_found undecodable : ReplayOutcome

pub record ReplayResult : Type 0 where
  pub id : Text
  pub outcome : ReplayOutcome
  pub attempts : ℕ

pub data Processed : Type 0 where
  done : Db → List Broadcast → Processed
  threw : LetterError → Processed

-- What a replay makes of `processEvent`.
unfoldable pub process_rehydrated : StrKey → ℕ → Event → Db → Processed
unfolding process_event
process_rehydrated str_key now e db = elim (process_event str_key now e db) [
  | err error ↦ threw (handler error)
  | ok (after, messages) ↦ done after messages
]

unfoldable pub find_row : Text → List LetterRow → Option LetterRow
unfolding text_eq
find_row id [] = none
find_row id (r ∷ rows) = if text_eq r.id id then some r else find_row id rows

-- `delete` and `update` of the row of an id.
unfoldable pub delete_row : Text → List LetterRow → List LetterRow
unfolding text_eq
delete_row id [] = []
delete_row id (r ∷ rows) = if text_eq r.id id then rows else r ∷ delete_row id rows

abbrev pub note_attempt : ℕ → LetterError → LetterRow → LetterRow
note_attempt now error r = record r {
  attempts = r.attempts + 1;
  last_attempt_at = now;
  error_message = error;
}

unfoldable pub update_row : Text → (LetterRow → LetterRow) → List LetterRow → List LetterRow
unfolding text_eq
update_row id change [] = []
update_row id change (r ∷ rows) =
    if text_eq r.id id then change r ∷ rows else r ∷ update_row id change rows

-- `row.attempts` after `attempts: { increment: 1 }`.
abbrev failure : Text → LetterRow → ReplayOutcome → ReplayResult
failure id r outcome = record { id = id; outcome = outcome; attempts = r.attempts + 1 }

abbrev pub keep_row : ℕ → Text → LetterError → LetterStore → LetterStore
keep_row now id error w = record w { rows = update_row id (note_attempt now error) w.rows }

module _ (decode : Text → Option Event) (str_key : StrKey) (now : ℕ) where
  unfoldable pub settle_replay :
      Text → LetterRow → Processed → LetterStore → ReplayResult × LetterStore
  unfolding update_row delete_row
  settle_replay id r (done db messages) w = (
    record { id = id; outcome = replayed; attempts = r.attempts },
    record { rows = delete_row id w.rows; db = db; sent = w.sent ++ messages },
  )
  settle_replay id r (threw error) w = (failure id r failed, keep_row now id error w)

  unfoldable pub replay_row : Text → LetterRow → LetterStore → ReplayResult × LetterStore
  unfolding settle_replay process_rehydrated
  replay_row id r w = elim (decode r.payload) [
    | none ↦ (failure id r undecodable, keep_row now id undecodable_payload w)
    | some e ↦ settle_replay id r (process_rehydrated str_key (now / 1000) e w.db) w
  ]

  unfoldable pub replay_dead_letter_event : Text → LetterStore → ReplayResult × LetterStore
  unfolding find_row replay_row
  replay_dead_letter_event id w = elim (find_row id w.rows) [
    | none ↦ (record { id = id; outcome = not_found; attempts = 0 }, w)
    | some r ↦ replay_row id r w
  ]

  -- The loop of `replayAllDeadLetterEvents`.
  unfoldable pub replay_ids : List Text → LetterStore → List ReplayResult × LetterStore
  unfolding replay_dead_letter_event
  replay_ids [] w = ([], w)
  replay_ids (id ∷ ids) w =
      let (result, next) = replay_dead_letter_event id w in
      let (results, after) = replay_ids ids next in (result ∷ results, after)

-- `orderBy: [{ ledgerSequence: 'asc' }, { createdAt: 'asc' }]`, ties in the order of the table.
abbrev pub is_before : LetterRow → LetterRow → Bool
is_before a b =
    ltb a.ledger_sequence b.ledger_sequence
    || (a.ledger_sequence == b.ledger_sequence && leb a.created_at b.created_at)

unfoldable pub insert_row :
    (LetterRow → LetterRow → Bool) → LetterRow → List LetterRow → List LetterRow
insert_row before r [] = r ∷ []
insert_row before r (s ∷ rows) = if before r s then r ∷ s ∷ rows else s ∷ insert_row before r rows

unfoldable pub sort_rows : (LetterRow → LetterRow → Bool) → List LetterRow → List LetterRow
unfolding insert_row
sort_rows before [] = []
sort_rows before (r ∷ rows) = insert_row before r (sort_rows before rows)

abbrev pub is_outcome : ReplayOutcome → ReplayOutcome → Bool
is_outcome replayed o = elim o [ replayed ↦ true | _ ↦ false ]
is_outcome failed o = elim o [ failed ↦ true | _ ↦ false ]
is_outcome not_found o = elim o [ not_found ↦ true | _ ↦ false ]
is_outcome undecodable o = elim o [ undecodable ↦ true | _ ↦ false ]

abbrev pub has_outcome : ReplayOutcome → ReplayResult → Bool
has_outcome o r = is_outcome o r.outcome

pub record ReplayAllResult : Type 0 where
  pub attempted : ℕ
  pub replayed : ℕ
  pub failed : ℕ
  pub undecodable : ℕ
  pub not_found : ℕ
  pub results : List ReplayResult

abbrev pub count_outcome : ReplayOutcome → List ReplayResult → ℕ
count_outcome o results = length (select (has_outcome o) results)

abbrev pub summarise : List ReplayResult → ReplayAllResult
summarise results = record {
  attempted = length results;
  replayed = count_outcome ReplayOutcome.replayed results;
  failed = count_outcome ReplayOutcome.failed results;
  undecodable = count_outcome ReplayOutcome.undecodable results;
  not_found = count_outcome ReplayOutcome.not_found results;
  results = results;
}

unfoldable pub replay_all_dead_letter_events :
    (Text → Option Event) → StrKey → ℕ → LetterStore → ReplayAllResult × LetterStore
unfolding sort_rows replay_ids
replay_all_dead_letter_events decode str_key now w =
    let (results, after) =
      replay_ids decode str_key now (map (λ r. r.id) (sort_rows is_before w.rows)) w in
    (summarise results, after)

-- What a discard returns; `none` is the DeadLetterNotFoundError.
unfoldable pub discard_dead_letter_event :
    Text → LetterStore → Option ((Text × Text × Text × ℕ) × LetterStore)
unfolding find_row delete_row
discard_dead_letter_event id w = elim (find_row id w.rows) [
  | none ↦ none
  | some r ↦
      some (
        (r.id, r.event_type, r.tx_hash, r.ledger_sequence),
        record w { rows = delete_row id w.rows },
      )
]

-- A date is given by its milliseconds; an event type that is empty is no filter.
pub record DeadLetterQuery : Type 0 where
  pub page : ℕ
  pub limit : ℕ
  pub ledger_sequence : Option ℕ
  pub start_date : Option ℕ
  pub end_date : Option ℕ
  pub event_type : Option Text

pub record DeadLetterPage : Type 0 where
  pub items : List LetterRow
  pub total : ℕ
  pub page : ℕ
  pub limit : ℕ
  pub has_more : Bool

abbrev passes : {A : Type 0} → (A → Bool) → Option A → Bool
passes test none = true
passes test (some a) = test a

abbrev passes_type : Text → Option Text → Bool
passes_type type none = true
passes_type type (some []) = true
passes_type type (some (c ∷ s)) = text_eq type (c ∷ s)

abbrev pub is_selected : DeadLetterQuery → LetterRow → Bool
is_selected q r =
    passes (λ n. r.ledger_sequence == n) q.ledger_sequence
    && passes_type r.event_type q.event_type
    && passes (λ t. leb t r.created_at) q.start_date
    && passes (λ t. leb r.created_at t) q.end_date

-- `orderBy: [{ createdAt: 'desc' }, { ledgerSequence: 'desc' }]`
abbrev pub is_newer : LetterRow → LetterRow → Bool
is_newer a b =
    ltb b.created_at a.created_at
    || (a.created_at == b.created_at && leb b.ledger_sequence a.ledger_sequence)

-- `Math.min(Math.max(1, limit || 25), 100)` and `Math.max(1, page || 1)`, on natural numbers.
abbrev pub page_size : ℕ → ℕ
page_size zero = 25
page_size (suc n) = min (suc n) 100

abbrev pub page_number : ℕ → ℕ
page_number zero = 1
page_number (suc n) = suc n

unfoldable pub list_dead_letter_events : DeadLetterQuery → LetterStore → DeadLetterPage
unfolding sort_rows text_eq
list_dead_letter_events q w =
    let rows = select (is_selected q) w.rows in
    let limit = page_size q.limit in
    let page = page_number q.page in
    record {
      items = take limit (drop ((page - 1) * limit) (sort_rows is_newer rows));
      total = length rows;
      page = page;
      limit = limit;
      has_more = ltb (page * limit) (length rows);
    }
