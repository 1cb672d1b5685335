-- ===== src/Export/Write.antt =====
-- The pages of an export and what is written of them: `streamTransactionCSV` and
-- `streamTransactionJSON` of backend/src/services/export.service.ts. Both have the same loop, with
-- another writer.
use flowfi.Prelude.{
  ℕ, zero, suc, ◌+◌, ◌/◌, ◌%◌, Bool, true, false, ◌&&◌, ◌||◌, Option, none, some, List, [], ◌∷◌,
  ◌++◌, if◌then◌else◌, ◌==◌, ltb, length, take, select, ℤ, pos, leb_ℤ, floor_div,
}
use flowfi.Prelude.Text.{Text, codes, text_eq, to_string}
use flowfi.Csv.{join_with}
use flowfi.Indexer.Tables.{Stream, StreamEvent}
use flowfi.Export.{
  Direction, incoming, outgoing, all, Date, at, invalid, ExportOptions, TransactionRecord, Row,
  Rows, map_event_to_transaction, values_of, transaction_to_csv_row,
}

abbrev pub csv_headers : Text
csv_headers =
    codes "Timestamp (UTC),Stream ID,Transaction Hash,Event Type,Direction,Counterparty Address,"
    ++ codes "Token Contract,Gross Amount (Stroops),Gross Amount (Formatted),"
    ++ codes "Protocol Fee Deducted,Net Amount"

-- `JSON.stringify` of a text, surrogates aside.
abbrev hex_digit : ℕ → ℕ
hex_digit n = if ltb n 10 then b'0' + n else b'W' + n

unfoldable pub json_escape : Text → Text
json_escape [] = []
json_escape (c ∷ s) =
    let rest = json_escape s in
    if c == b'"' || c == b'\\'
    then b'\\' ∷ c ∷ rest
    else if c == 8
    then b'\\' ∷ b'b' ∷ rest
    else if c == 9
    then b'\\' ∷ b't' ∷ rest
    else if c == 10
    then b'\\' ∷ b'n' ∷ rest
    else if c == 12
    then b'\\' ∷ b'f' ∷ rest
    else if c == 13
    then b'\\' ∷ b'r' ∷ rest
    else if ltb c 32
    then codes "\\u00" ++ hex_digit (c / 16) ∷ hex_digit (c % 16) ∷ rest
    else c ∷ rest

abbrev json_text : Text → Text
json_text s = b'"' ∷ json_escape s ++ b'"' ∷ []

-- The fields of a record in the order in which they are set.
abbrev keys : List Text
keys =
    codes "timestamp"
    ∷ codes "streamId"
    ∷ codes "transactionHash"
    ∷ codes "eventType"
    ∷ codes "direction"
    ∷ codes "counterpartyAddress"
    ∷ codes "tokenContract"
    ∷ codes "grossAmountStroops"
    ∷ codes "grossAmountFormatted"
    ∷ codes "protocolFeeDeducted"
    ∷ codes "netAmount"
    ∷ []

abbrev json_fields : List Text → List Text → List Text
json_fields [] values = []
json_fields (k ∷ ks) [] = []
json_fields (k ∷ ks) (v ∷ vs) = (json_text k ++ b':' ∷ json_text v) ∷ json_fields ks vs

unfoldable pub json_of : TransactionRecord → Text
unfolding json_escape join_with
json_of r = b'{' ∷ join_with b',' (json_fields keys (values_of r)) ++ b'}' ∷ []

-- What has been written, piece by piece, and how many transactions that were.
pub record Export : Type 0 where
  pub written : List Text
  pub processed_count : ℕ

abbrev pub write_piece : Text → Export → Export
write_piece piece e = record e { written = e.written ++ piece ∷ [] }

-- What a writer does with a transaction.
abbrev pub Writer : Type 0
Writer = TransactionRecord → Export → Export

unfoldable pub csv_writer : Writer
unfolding transaction_to_csv_row
csv_writer r e =
    let written = write_piece (transaction_to_csv_row r ++ 10 ∷ []) e in
    record written { processed_count = suc e.processed_count }

-- `isFirst` holds until a transaction has been written.
abbrev pub write_element : Text → Export → Export
write_element element e =
    let separated = if e.processed_count == 0 then e else write_piece (codes ",") e in
    let written = write_piece element separated in
    record written { processed_count = suc e.processed_count }

unfoldable pub json_writer : Writer
unfolding json_of
json_writer r e = write_element (json_of r) e

-- The seconds of a bound; `BigInt` of no number throws.
abbrev pub bound : Option Date → Option (Option ℤ)
bound none = some none
bound (some invalid) = none
bound (some (at ms)) = some (some (floor_div ms 1000))

abbrev is_from : Option ℤ → ℤ → Bool
is_from none t = true
is_from (some start) t = leb_ℤ start t

abbrev is_until : Option ℤ → ℤ → Bool
is_until none t = true
is_until (some end) t = leb_ℤ t end

abbrev pub is_party : Direction → Text → Stream → Bool
is_party outgoing user s = text_eq s.sender user
is_party incoming user s = text_eq s.recipient user
is_party all user s = text_eq s.sender user || text_eq s.recipient user

abbrev pub has_token : Option Text → Stream → Bool
has_token none s = true
has_token (some []) s = true
has_token (some (c ∷ token)) s = text_eq s.token_address (c ∷ token)

unfoldable pub is_wanted : Text → ExportOptions → Row → Bool
unfolding text_eq
is_wanted user options row =
    is_party options.direction user row.stream && has_token options.token_address row.stream

-- The rows after the one with a key; the cursor itself is skipped.
unfoldable pub rows_after : Text → List Row → List Row
unfolding text_eq
rows_after id [] = []
rows_after id (r ∷ rows) = let rest = rows_after id rows in if text_eq r.id id then rows else rest

abbrev pub past_cursor : Option Text → List Row → List Row
past_cursor none rows = rows
past_cursor (some id) rows = rows_after id rows

abbrev pub batch_size : ℕ
batch_size = 100

-- Events in the order of their times, and at one time in that of the table.
unfoldable pub insert_by_time : StreamEvent → List StreamEvent → List StreamEvent
insert_by_time e [] = e ∷ []
insert_by_time e (f ∷ rest) =
    let later = insert_by_time e rest in
    if leb_ℤ e.timestamp f.timestamp then e ∷ f ∷ rest else f ∷ later

unfoldable pub order_events : List StreamEvent → List StreamEvent
unfolding insert_by_time
order_events [] = []
order_events (e ∷ rest) = insert_by_time e (order_events rest)

unfoldable pub events_of : Rows → Option ℤ → Option ℤ → Row → List StreamEvent
unfolding order_events
events_of rows start end row = order_events (
    select
      (λ e.
        e.stream_id == row.stream.stream_id
        && is_from start e.timestamp
        && is_until end e.timestamp)
      rows.events)

-- How an export ends: it is closed, a throw leaves the response open, or the fuel is spent.
pub data End : Type 0 where
  closed left_open unfinished : End

-- An export so far, or what it was when something threw.
pub data Written : Type 0 where
  wrote threw : Export → Written

module _ (iso : ℤ → Option Text) (writer : Writer) (user : Text) where
  -- The events of a stream, up to one that throws.
  unfoldable pub write_events : Stream → List StreamEvent → Export → Written
  unfolding map_event_to_transaction
  write_events s [] e = wrote e
  write_events s (event ∷ rest) e = elim (map_event_to_transaction iso event s user) [
    | none ↦ threw e
    | some r ↦ write_events s rest (writer r e)
  ]

  unfoldable pub write_streams : (Row → List StreamEvent) → List Row → Export → Written
  unfolding write_events
  write_streams events [] e = wrote e
  write_streams events (row ∷ rows) e = elim (write_events row.stream (events row) e) [
    | threw e' ↦ threw e'
    | wrote e' ↦ write_streams events rows e'
  ]

abbrev pub last_id : Option Text → List Row → Option Text
last_id cursor [] = cursor
last_id cursor (r ∷ rows) = last_id (some r.id) rows

-- After a page comes the next, unless it was short.
abbrev pub after_page : Written → ℕ → (Export → End × Export) → End × Export
after_page (threw e) size next = (left_open, e)
after_page (wrote e) size next = elim (ltb size batch_size) [ true ↦ (closed, e) | false ↦ next e ]

-- The loop over pages of the rows that the query selects.
module _ (write_page : List Row → Export → Written) (wanted : List Row) where
  unfoldable pub write_pages : ℕ → Option Text → Export → End × Export
  unfolding rows_after
  write_pages zero cursor e = (unfinished, e)
  write_pages (suc fuel) cursor e =
      let page = take batch_size (past_cursor cursor wanted) in
      if length page == 0
      then (closed, e)
      else after_page (write_page page e) (length page)
          (λ e'. write_pages fuel (last_id cursor page) e')

abbrev pub empty_export : Export
empty_export = record { written = []; processed_count = 0 }

-- The last piece, with the number of transactions and the time of the export.
abbrev pub metadata : Text → Text → ℕ → Text
metadata user exported_at total =
    codes "],\"metadata\":{\"totalRecords\":"
    ++ to_string (pos total)
    ++ codes ",\"exportedAt\":\""
    ++ exported_at
    ++ codes "\",\"userAddress\":\""
    ++ user
    ++ codes "\"}}"

abbrev pub close_json : Text → Text → End × Export → End × Export
close_json user exported_at (closed, e) =
    (closed, write_piece (metadata user exported_at e.processed_count) e)
close_json user exported_at (left_open, e) = (left_open, e)
close_json user exported_at (unfinished, e) = (unfinished, e)

abbrev pub wanted_rows : Text → ExportOptions → Rows → List Row
wanted_rows user options rows = select (λ r. is_wanted user options r) rows.streams

module _ (iso : ℤ → Option Text) (user : Text) (options : ExportOptions) (rows : Rows) where
  -- A bound that is no date throws in the making of the first query.
  unfoldable pub write_all : Writer → ℕ → Export → End × Export
  unfolding write_streams events_of write_pages is_wanted
  write_all writer fuel e = elim (bound options.start_date) [
    | none ↦ (left_open, e)
    | some start ↦ elim (bound options.end_date) [
      | none ↦ (left_open, e)
      | some end ↦
          write_pages (write_streams iso writer user (events_of rows start end))
            (wanted_rows user options rows) fuel none e
    ]
  ]

  unfoldable pub stream_transaction_csv : ℕ → End × Export
  unfolding write_all csv_writer
  stream_transaction_csv fuel =
      write_all csv_writer fuel (write_piece (csv_headers ++ 10 ∷ []) empty_export)

  unfoldable pub stream_transaction_json : Text → ℕ → End × Export
  unfolding write_all json_writer to_string
  stream_transaction_json exported_at fuel =
      close_json user exported_at
        (write_all json_writer fuel (write_piece (codes "{\"transactions\":[") empty_export))
