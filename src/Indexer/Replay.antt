-- ===== src/Indexer/Replay.antt =====
-- A top-up or a withdrawal that is delivered again changes nothing.
use flowfi.Prelude.{
  ℕ, ◌≡◌, refl, true, none, some, List, [], ◌∷◌, arith, pos, ℤ, ◌+ℤ◌, Option-cases, inl, inr, ◌++◌,
  ◌==◌, ==_iff, if◌then◌else◌,
}
use flowfi.Prelude.Text.{to_string, big_int}
use flowfi.Indexer.Xdr.{Outcome, Outcome-cases, ok, err, ◌>>=◌, ScVal, StrKey}
use flowfi.Indexer.Tables.{
  topped_up, withdrawn, Stream, StreamEvent, Db, find_event, find_stream, replace_stream, restamp,
  find_stream_or_throw, update_stream,
}
use flowfi.Indexer.Bodies.{Event, ToppedUpBody, WithdrawnBody, parse_integer, end_time_of}
use flowfi.Indexer.Transactions.{
  top_up, top_up_stream, topped_up_row, topped_up_tx, withdraw, withdraw_stream, withdrawn_row,
  withdrawn_tx,
}
use flowfi.Indexer.Reads.{read_topped_up, read_withdrawn}
use flowfi.Indexer.Handlers.{
  Broadcast, finish, topped_up_message, handle_stream_topped_up, handle_tokens_withdrawn,
}
use flowfi.Indexer.Rows.{is_some, find_stream-replace, upsert_event-found}

-- What a handler computed before its last part.
passed :
    {A B : Type 0} (part : Outcome A) (rest : A → Outcome B) {result : B}
    → (part >>= rest) ≡ ok result
    → (value : A) × (part ≡ ok value) × (rest value ≡ ok result)
passed part rest done = elim (Outcome-cases part) [
  | inl (value, came) ↦ (value, came, ground (arith, came))
  | inr (error, thrown) ↦ absurd (ground (arith, thrown))
]

top_up-found :
    (now : ℕ) (e : Event) (b : ToppedUpBody) (db db' : Db)
    → top_up now e b db ≡ ok db'
    → is_some (find_event e.tx_hash topped_up db'.events) ≡ true
unfolding top_up
top_up-found now e b db db' h =
    let (s, _, h1) = passed (find_stream_or_throw b.stream_id db) _ h in
    let (r, _, h2) = passed (parse_integer s.rate_per_second) _ h1 in
    let (d, _, h3) = passed (parse_integer b.new_deposited_amount) _ h2 in
    let (db1, _, h4) =
      passed
        (update_stream b.stream_id
          (top_up_stream now b.new_deposited_amount
            (end_time_of r s.start_time d s.total_paused_duration))
          db)
        _ h3 in
    upsert_event-found (topped_up_row now e b) (restamp e.ledger (pos now)) db1 db'
      (λ x. (refl, refl, refl)) h4

withdraw-found :
    (e : Event) (b : WithdrawnBody) (db db' : Db)
    → withdraw e b db ≡ ok db'
    → is_some (find_event e.tx_hash withdrawn db'.events) ≡ true
unfolding withdraw
withdraw-found e b db db' h =
    let (s, _, h1) = passed (find_stream_or_throw b.stream_id db) _ h in
    let (r, _, h2) = passed (parse_integer s.withdrawn_amount) _ h1 in
    let (d, _, h3) = passed (parse_integer b.amount) _ h2 in
    let (db1, _, h4) =
      passed (update_stream b.stream_id (withdraw_stream b.timestamp (to_string (r +ℤ d))) db) _
        h3 in
    upsert_event-found (withdrawn_row e b) (restamp e.ledger b.timestamp) db1 db'
      (λ x. (refl, refl, refl)) h4

pub topped_up_tx_again :
    (now now' : ℕ) (e e' : Event) (b b' : ToppedUpBody) (db db' : Db)
    → topped_up_tx now e b db ≡ ok db'
    → e'.tx_hash ≡ e.tx_hash
    → topped_up_tx now' e' b' db' ≡ ok db'
unfolding topped_up_tx
topped_up_tx_again now now' e e' b b' db db' h same =
    elim (Option-cases (find_event e.tx_hash topped_up db.events)) [
      | inl fresh ↦
          let there = top_up-found now e b db db' (ground (arith, fresh)) in
          rw same (ground (arith, there))
      | inr (x, found) ↦ rw same (ground (arith, found))
    ]

pub withdrawn_tx_again :
    (e e' : Event) (b b' : WithdrawnBody) (db db' : Db)
    → withdrawn_tx e b db ≡ ok db'
    → e'.tx_hash ≡ e.tx_hash
    → withdrawn_tx e' b' db' ≡ ok db'
unfolding withdrawn_tx
withdrawn_tx_again e e' b b' db db' h same =
    elim (Option-cases (find_event e.tx_hash withdrawn db.events)) [
      | inl fresh ↦
          let there = withdraw-found e b db db' (ground (arith, fresh)) in
          rw same (ground (arith, there))
      | inr (x, found) ↦ rw same (ground (arith, found))
    ]

-- A withdrawal that is new adds its amount to what its stream's row holds as withdrawn and sets the
-- time of its last update, leaves that row's other columns, every other stream's row and the users
-- as they are, and appends one event, with the stream, the type, the amount and the transaction of
-- the withdrawal.
pub withdrawn_tx_adds :
    (e : Event) (b : WithdrawnBody) (db : Db) (s : Stream) (old amount : ℤ)
    → find_event e.tx_hash withdrawn db.events ≡ none
    → find_stream b.stream_id db.streams ≡ some s
    → big_int s.withdrawn_amount ≡ some old
    → big_int b.amount ≡ some amount
    → (db' : Db) × (row : StreamEvent) × (withdrawn_tx e b db ≡ ok db')
      × ((j : ℕ)
          → find_stream j db'.streams ≡ (
              if j == b.stream_id
              then some (record s {
                withdrawn_amount = to_string (old +ℤ amount);
                last_update_time = b.timestamp;
              })
              else find_stream j db.streams))
      × (db'.events ≡ db.events ++ row ∷ [])
      × (row.stream_id ≡ b.stream_id)
      × (row.event_type ≡ withdrawn)
      × (row.amount ≡ some b.amount)
      × (row.transaction_hash ≡ e.tx_hash)
      × (db'.users ≡ db.users)
unfolding withdrawn_tx find_stream_or_throw update_stream
withdrawn_tx_adds e b db s old amount fresh found holds adds =
    let change = withdraw_stream b.timestamp (to_string (old +ℤ amount)) in
    (
      record db {
        streams = replace_stream b.stream_id change db.streams;
        events = db.events ++ withdrawn_row e b ∷ [];
      },
      withdrawn_row e b,
      ground (arith, find_stream-replace b.stream_id b.stream_id change db.streams (λ x. refl)),
      λ j. ground (
        arith,
        found,
        find_stream-replace j b.stream_id change db.streams (λ x. refl),
        ==_iff j b.stream_id,
      ),
      refl,
      refl,
      refl,
      refl,
      refl,
      refl,
    )

-- What a handler left in the tables.
finish-eq-ok :
    (tx : Outcome Db) (m : Broadcast) {db : Db} {ms : List Broadcast}
    → finish tx m ≡ ok (db, ms)
    → tx ≡ ok db
finish-eq-ok (ok db) m h = ground arith
finish-eq-ok (err e) m h = cc

-- If a top-up is handled without an error, then handling the same event again, at any time,
-- succeeds, leaves the tables as they are and broadcasts once more.
handle_stream_topped_up_again :
    (k : StrKey) (now now' : ℕ) (e : Event) (topic : ScVal) (db db' : Db) (ms : List Broadcast)
    → handle_stream_topped_up k now e topic db ≡ ok (db', ms)
    → (m : Broadcast) × (handle_stream_topped_up k now' e topic db' ≡ ok (db', m ∷ []))
unfolding handle_stream_topped_up
handle_stream_topped_up_again k now now' e topic db db' ms h =
    let (b, read, h1) = passed (read_topped_up e.value topic) _ h in
    let again =
      topped_up_tx_again now now' e e b b db db' (finish-eq-ok (topped_up_tx now e b db) _ h1)
        refl in
    (topped_up_message now' e b, rw (read, again) refl)

-- If a withdrawal is handled without an error, then handling the same event again, at any time,
-- succeeds, leaves the tables as they are and broadcasts the same message once more.
pub handle_tokens_withdrawn_again :
    (k : StrKey) (now now' : ℕ) (e : Event) (topic : ScVal) (db db' : Db) (ms : List Broadcast)
    → handle_tokens_withdrawn k now e topic db ≡ ok (db', ms)
    → handle_tokens_withdrawn k now' e topic db' ≡ ok (db', ms)
unfolding handle_tokens_withdrawn
handle_tokens_withdrawn_again k now now' e topic db db' ms h =
    let (b, read, h1) = passed (read_withdrawn k e.value topic) _ h in
    let (db1, done, h2) = passed (withdrawn_tx e b db) _ h1 in
    let again = withdrawn_tx_again e e b b db db' (finish-eq-ok (withdrawn_tx e b db) _ h1) refl in
    rw (read, again) (ground (arith, h2))
