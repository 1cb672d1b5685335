-- ===== src/Export/Records.antt =====
-- What an export writes, in one pass over the streams that are wanted: the records of their events,
-- for backend/src/services/export.service.ts.
use flowfi.Prelude.{
  ℕ, ◌+◌, ◌≤◌, ◌<◌, Bool, true, false, Option, none, some, List, [], ◌∷◌, ◌++◌, map, ◌≡◌, refl, ap,
  sym, ◌∙◌, length, select, append-nil, append_assoc, arith, ℤ, Bool-cases, inl, inr,
}
use flowfi.Prelude.Text.{Text}
use flowfi.Indexer.Tables.{Stream, StreamEvent}
use flowfi.Export.{
  ExportOptions, TransactionRecord, Row, Rows, map_event_to_transaction, transaction_to_csv_row,
}
use flowfi.Export.Write.{
  Writer, Export, Written, wrote, threw, End, closed, left_open, write_events, write_streams,
  write_all,
}
use flowfi.Export.Pages.{HasKeys, LacksKey, IsPiecewise, then_write, end_of, write_pages_from}
use flowfi.Export.Write.{
  bound, csv_headers, empty_export, csv_writer, write_piece, events_of, is_wanted, wanted_rows,
  stream_transaction_csv,
}

-- What the export is of: the events of each stream that the query selects, in order, and the
-- records that they make, up to one that throws.
abbrev pub events_in : (Row → List StreamEvent) → List Row → List (StreamEvent × Stream)
events_in events [] = []
events_in events (row ∷ rows) = map (λ e. (e, row.stream)) (events row) ++ events_in events rows

abbrev add_record :
    TransactionRecord → List TransactionRecord × Bool → List TransactionRecord × Bool
add_record r (rs, all_read) = (r ∷ rs, all_read)

module _ (iso : ℤ → Option Text) (user : Text) where
  abbrev pub records_of : List (StreamEvent × Stream) → List TransactionRecord × Bool
  records_of [] = ([], true)
  records_of ((event, s) ∷ rest) = elim (map_event_to_transaction iso event s user) [
    | none ↦ ([], false)
    | some r ↦ add_record r (records_of rest)
  ]

abbrev pub write_records : Writer → List TransactionRecord → Export → Export
write_records writer [] e = e
write_records writer (r ∷ rs) e = write_records writer rs (writer r e)

-- The records written, and whether all were read.
abbrev pub written_of : Writer → List TransactionRecord × Bool → Export → Written
written_of writer (rs, true) e = wrote (write_records writer rs e)
written_of writer (rs, false) e = threw (write_records writer rs e)

module _ (iso : ℤ → Option Text) (writer : Writer) (user : Text) where
  written_of-add :
      (r : TransactionRecord) (p : List TransactionRecord × Bool) (e : Export)
      → written_of writer (add_record r p) e ≡ written_of writer p (writer r e)
  written_of-add r (rs, true) e = refl
  written_of-add r (rs, false) e = refl

  write_events_lem :
      (s : Stream) (es : List StreamEvent) (rest : List (StreamEvent × Stream)) (e : Export)
      → then_write
          (write_events iso writer user s es e)
          (λ x. written_of writer (records_of iso user rest) x)
        ≡ written_of writer (records_of iso user (map (λ v. (v, s)) es ++ rest)) e
  unfolding write_events
  write_events_lem s [] rest e = refl
  write_events_lem s (v ∷ es) rest e =
      next_event (map_event_to_transaction iso v s user) e
        (λ r. write_events_lem s es rest (writer r e))
    where
      next_event :
          (o : Option TransactionRecord) (x : Export)
          → ((r : TransactionRecord)
              → then_write
                  (write_events iso writer user s es (writer r x))
                  (λ y. written_of writer (records_of iso user rest) y)
                ≡ written_of writer
                    (records_of iso user (map (λ u. (u, s)) es ++ rest))
                    (writer r x))
          → then_write
              (elim o as (λ _. Written) [
                | none ↦ threw x
                | some r ↦ write_events iso writer user s es (writer r x)
              ])
              (λ y. written_of writer (records_of iso user rest) y)
            ≡ written_of writer
                (elim o as (λ _. List TransactionRecord × Bool) [
                  | none ↦ ([], false)
                  | some r ↦ add_record r (records_of iso user (map (λ u. (u, s)) es ++ rest))
                ])
                x
      next_event none x h = refl
      next_event (some r) x h =
          h r ∙ sym (written_of-add r (records_of iso user (map (λ u. (u, s)) es ++ rest)) x)

  next_stream :
      (w : Written) (f g : Export → Written)
      → ((x : Export) → f x ≡ g x)
      → (elim w as (λ x. Written) [ threw e' ↦ threw e' | wrote e' ↦ f e' ]) ≡ then_write w g
  next_stream (wrote e) f g h = h e
  next_stream (threw e) f g h = refl

  next_parts :
      (w : Written) (f g k : Export → Written)
      → ((x : Export) → f x ≡ then_write (g x) k)
      → (elim w as (λ x. Written) [ threw e' ↦ threw e' | wrote e' ↦ f e' ])
        ≡ then_write (elim w as (λ x. Written) [ threw e' ↦ threw e' | wrote e' ↦ g e' ]) k
  next_parts (wrote e) f g k h = h e
  next_parts (threw e) f g k h = refl

  write_streams_lem :
      (events : Row → List StreamEvent) (rows : List Row) (e : Export)
      → write_streams iso writer user events rows e
        ≡ written_of writer (records_of iso user (events_in events rows)) e
  unfolding write_streams
  write_streams_lem events [] e = refl
  write_streams_lem events (row ∷ rows) e =
      next_stream (write_events iso writer user row.stream (events row) e)
        (λ x. write_streams iso writer user events rows x)
        (λ x. written_of writer (records_of iso user (events_in events rows)) x)
        (λ x. write_streams_lem events rows x)
      ∙ write_events_lem row.stream (events row) (events_in events rows) e

  write_streams-IsPiecewise :
      (events : Row → List StreamEvent) → IsPiecewise (write_streams iso writer user events)
  unfolding write_streams
  write_streams-IsPiecewise events = record { nothing = λ e. refl; parts = parts }
    where
      parts :
          (a b : List Row) (e : Export)
          → write_streams iso writer user events (a ++ b) e
            ≡ then_write
                (write_streams iso writer user events a e)
                (λ y. write_streams iso writer user events b y)
      parts [] b e = refl
      parts (row ∷ a) b e =
          next_parts (write_events iso writer user row.stream (events row) e)
            (λ x. write_streams iso writer user events (a ++ b) x)
            (λ x. write_streams iso writer user events a x)
            (λ x. write_streams iso writer user events b x) (λ x. parts a b x)

LacksKey-select :
    (p : Row → Bool) (id : Text) (rows : List Row) → LacksKey id rows → LacksKey id (select p rows)
LacksKey-select p id [] h = tt
LacksKey-select p id (r ∷ rows) (lacks, h) = elim (Bool-cases (p r)) [
  | inl kept ↦ rw kept (lacks, LacksKey-select p id rows h)
  | inr gone ↦ rw gone (LacksKey-select p id rows h)
]

HasKeys-select : (p : Row → Bool) (rows : List Row) → HasKeys rows → HasKeys (select p rows)
HasKeys-select p [] h = tt
HasKeys-select p (r ∷ rows) (lacks, h) = elim (Bool-cases (p r)) [
  | inl kept ↦ rw kept (LacksKey-select p r.id rows lacks, HasKeys-select p rows h)
  | inr gone ↦ rw gone (HasKeys-select p rows h)
]

select-le : (p : Row → Bool) (rows : List Row) → length (select p rows) ≤ length rows
select-le p [] = omega arith
select-le p (r ∷ rows) = ground (arith, select-le p rows)

module _ (iso : ℤ → Option Text) (user : Text) (options : ExportOptions) (rows : Rows) where
  -- The records of an export with some bounds.
  abbrev pub exported : Option ℤ → Option ℤ → List TransactionRecord × Bool
  exported start end =
      records_of iso user (events_in (events_of rows start end) (wanted_rows user options rows))

  pub write_all_lem :
      (writer : Writer) (fuel : ℕ) (start end : Option ℤ) (e : Export)
      → HasKeys rows.streams
      → length rows.streams < fuel
      → bound options.start_date ≡ some start
      → bound options.end_date ≡ some end
      → write_all iso user options rows writer fuel e
        ≡ end_of (written_of writer (exported start end) e)
  unfolding write_all
  write_all_lem writer fuel start end e keys enough from until =
      let wanted = wanted_rows user options rows in
      let fewer = select-le (λ r. is_wanted user options r) rows.streams in
      let events : Row → List StreamEvent = λ r. events_of rows start end r in
      let pages =
        write_pages_from (write_streams iso writer user events)
          (write_streams-IsPiecewise iso writer user events) wanted fuel none [] wanted e
          (HasKeys-select (λ r. is_wanted user options r) rows.streams keys) refl refl
          (omega (arith, fewer, enough)) in
      rw (from, until, write_all)
        (pages ∙ ap end_of (write_streams_lem iso writer user events wanted e))

abbrev pub csv_line : TransactionRecord → Text
csv_line r = transaction_to_csv_row r ++ 10 ∷ []

csv_records :
    (rs : List TransactionRecord) (e : Export)
    → write_records csv_writer rs e ≡ record {
      written = e.written ++ map (λ r. csv_line r) rs;
      processed_count = e.processed_count + length rs;
    }
unfolding csv_writer
csv_records [] e = ground (arith, append-nil e.written)
csv_records (r ∷ rs) e =
    csv_records rs (csv_writer r e)
    ∙ ground (arith, append_assoc e.written (csv_line r ∷ []) (map (λ x. csv_line x) rs))

abbrev end_if : Bool → End
end_if true = closed
end_if false = left_open

abbrev pub csv_export : List TransactionRecord × Bool → End × Export
csv_export (rs, all_read) = (
  end_if all_read,
  record {
    written = (csv_headers ++ 10 ∷ []) ∷ map (λ r. csv_line r) rs;
    processed_count = length rs;
  },
)

-- From streams with distinct keys and with bounds that are dates, the export as CSV ends, within
-- as many pages as there are streams and one more. It has written the header and a line for each
-- event of each stream wanted, in order and once, up to the first event that throws; the response
-- is closed exactly if none does.
pub stream_transaction_csv_once :
    (iso : ℤ → Option Text) (user : Text) (options : ExportOptions) (rows : Rows) (fuel : ℕ)
    (start end : Option ℤ)
    → HasKeys rows.streams
    → length rows.streams < fuel
    → bound options.start_date ≡ some start
    → bound options.end_date ≡ some end
    → stream_transaction_csv iso user options rows fuel
      ≡ csv_export (exported iso user options rows start end)
unfolding stream_transaction_csv
stream_transaction_csv_once iso user options rows fuel start end keys enough from until =
    write_all_lem iso user options rows csv_writer fuel start end header keys enough from until
    ∙ go (exported iso user options rows start end)
  where
    header : Export
    header = write_piece (csv_headers ++ 10 ∷ []) empty_export

    counted :
        (rs : List TransactionRecord)
        → ◌≡◌ {A = Export}
            (record {
              written = header.written ++ map (λ r. csv_line r) rs;
              processed_count = 0 + length rs;
            })
            (record {
              written = (csv_headers ++ 10 ∷ []) ∷ map (λ r. csv_line r) rs;
              processed_count = length rs;
            })
    counted rs = let e : 0 + length rs ≡ length rs = omega arith in rw e refl

    go :
        (p : List TransactionRecord × Bool) → end_of (written_of csv_writer p header) ≡ csv_export p
    go (rs, true) = ap (λ e. (closed, e)) (csv_records rs header ∙ counted rs)
    go (rs, false) = ap (λ e. (left_open, e)) (csv_records rs header ∙ counted rs)
