-- ===== src/Indexer/Tables.antt =====
-- The tables of backend/prisma/schema.prisma that the indexer writes, and the queries that
-- backend/src/workers/soroban-event-worker.ts makes of them. Creation and update stamps that the
-- database sets by itself are left out. A stream's event refers to a stream that exists.
use flowfi.Prelude.{
  ℕ, Bool, false, ◌&&◌, ◌||◌, Option, none, some, List, [], ◌∷◌, ◌++◌, if◌then◌else◌, ◌==◌, ℤ, pos,
}
use flowfi.Prelude.Text.{Text, codes, text_eq}
use flowfi.Indexer.Xdr.{Outcome, ok, err, not_found, foreign_key}

pub data EventType : Type 0 where
  created topped_up withdrawn cancelled completed : EventType
  paused resumed fee_collected fee_config_updated admin_transferred : EventType

abbrev pub ordinal : EventType → ℕ
ordinal created = 0
ordinal topped_up = 1
ordinal withdrawn = 2
ordinal cancelled = 3
ordinal completed = 4
ordinal paused = 5
ordinal resumed = 6
ordinal fee_collected = 7
ordinal fee_config_updated = 8
ordinal admin_transferred = 9

abbrev pub type_eq : EventType → EventType → Bool
type_eq a b = ordinal a == ordinal b

-- A field of an object that is stored as JSON or sent to clients.
pub data Json : Type 0 where
  str : Text → Json
  num : ℤ → Json
  undefined : Json

abbrev pub Object : Type 0
Object = List (Text × Json)

pub record Stream : Type 0 where
  pub stream_id : ℕ
  pub sender : Text
  pub recipient : Text
  pub token_address : Text
  pub rate_per_second : Text
  pub deposited_amount : Text
  pub withdrawn_amount : Text
  pub start_time : ℤ
  pub last_update_time : ℤ
  pub end_time : Option ℤ
  pub is_active : Bool
  pub is_paused : Bool
  pub paused_at : Option ℤ
  pub total_paused_duration : ℤ

pub record StreamEvent : Type 0 where
  pub stream_id : ℕ
  pub event_type : EventType
  pub amount : Option Text
  pub transaction_hash : Text
  pub ledger_sequence : ℕ
  pub timestamp : ℤ
  pub metadata : Object

pub record Db : Type 0 where
  pub users : List Text
  pub streams : List Stream
  pub events : List StreamEvent

-- `stream.findUnique({ where: { streamId } })`
unfoldable pub find_stream : ℕ → List Stream → Option Stream
find_stream id [] = none
find_stream id (s ∷ rest) = if s.stream_id == id then some s else find_stream id rest

-- `stream.findUniqueOrThrow`
unfoldable pub find_stream_or_throw : ℕ → Db → Outcome Stream
find_stream_or_throw id db = elim (find_stream id db.streams) [
  | none ↦ err not_found
  | some s ↦ ok s
]

-- The row of an id is replaced.
unfoldable pub replace_stream : ℕ → (Stream → Stream) → List Stream → List Stream
replace_stream id change [] = []
replace_stream id change (s ∷ rest) =
    if s.stream_id == id then change s ∷ rest else s ∷ replace_stream id change rest

-- `stream.update({ where: { streamId }, data })` fails where there is no such row.
unfoldable pub update_stream : ℕ → (Stream → Stream) → Db → Outcome Db
unfolding find_stream replace_stream
update_stream id change db = elim (find_stream id db.streams) [
  | none ↦ err not_found
  | some s ↦ ok (record db { streams = replace_stream id change db.streams })
]

-- `stream.upsert`
unfoldable pub upsert_stream : Stream → (Stream → Stream) → Db → Db
unfolding find_stream replace_stream
upsert_stream row change db = elim (find_stream row.stream_id db.streams) [
  | none ↦ record db { streams = db.streams ++ row ∷ [] }
  | some s ↦ record db { streams = replace_stream row.stream_id change db.streams }
]

-- `user.upsert` with an empty update.
unfoldable pub contains : Text → List Text → Bool
contains key [] = false
contains key (u ∷ rest) = text_eq u key || contains key rest

unfoldable pub upsert_user : Text → Db → Db
unfolding contains
upsert_user key db =
    if contains key db.users then db else record db { users = db.users ++ key ∷ [] }

abbrev pub same_event : Text → EventType → StreamEvent → Bool
same_event hash type e = text_eq e.transaction_hash hash && type_eq e.event_type type

-- `streamEvent.findUnique({ where: { transactionHash_eventType } })`
unfoldable pub find_event : Text → EventType → List StreamEvent → Option StreamEvent
find_event hash type [] = none
find_event hash type (e ∷ rest) =
    if same_event hash type e then some e else find_event hash type rest

unfoldable pub replace_event :
    Text → EventType → (StreamEvent → StreamEvent) → List StreamEvent → List StreamEvent
replace_event hash type change [] = []
replace_event hash type change (e ∷ rest) =
    if same_event hash type e then change e ∷ rest else e ∷ replace_event hash type change rest

-- `streamEvent.upsert`; a new event of a stream that is not there violates the foreign key.
unfoldable pub upsert_event : StreamEvent → (StreamEvent → StreamEvent) → Db → Outcome Db
unfolding find_event replace_event find_stream
upsert_event row change db = elim (find_event row.transaction_hash row.event_type db.events) [
  | some e ↦
      ok (record db { events = replace_event row.transaction_hash row.event_type change db.events })
  | none ↦ elim (find_stream row.stream_id db.streams) [
    | none ↦ err foreign_key
    | some s ↦ ok (record db { events = db.events ++ row ∷ [] })
  ]
]

-- The update that most upserts of an event make.
abbrev pub restamp : ℕ → ℤ → StreamEvent → StreamEvent
restamp ledger timestamp e = record e { ledger_sequence = ledger; timestamp = timestamp }

-- The handlers' own guard: an event that is there is left alone, with a warning.
unfoldable pub record_event : StreamEvent → (StreamEvent → StreamEvent) → Db → Outcome Db
unfolding upsert_event
record_event row change db = elim (find_event row.transaction_hash row.event_type db.events) [
  | some e ↦ ok db
  | none ↦ upsert_event row change db
]

abbrev pub system_user : Text
system_user = codes "GAAAAAAAAAAAAAAAAAAAAAAAAAAAAAAAAAAAAAAAAAAAAAAAAAAAAWHF"

abbrev pub system_token : Text
system_token = codes "CDAAAAAAAAAAAAAAAAAAAAAAAAAAAAAAAAAAAAAAAAAAAAAAAAAAAAHF"

-- `ensureSystemStream`: stream 0 stands for events that concern no stream.
unfoldable pub ensure_system_stream : Db → Db
unfolding upsert_user upsert_stream
ensure_system_stream db =
    upsert_stream
      (record {
        stream_id = 0;
        sender = system_user;
        recipient = system_user;
        token_address = system_token;
        rate_per_second = codes "0";
        deposited_amount = codes "0";
        withdrawn_amount = codes "0";
        start_time = pos 0;
        last_update_time = pos 0;
        end_time = some (pos 0);
        is_active = false;
        is_paused = false;
        paused_at = none;
        total_paused_duration = pos 0;
      })
      (λ s. s) (upsert_user system_user db)
