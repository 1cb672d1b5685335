-- ===== src/Indexer/Renewal.antt =====
-- A creation that backend/src/workers/soroban-event-worker.ts receives again.
use flowfi.Prelude.{
  ℕ, true, if◌then◌else◌, ◌==◌, ==_iff, ◌≡◌, refl, some, arith, ap, ◌∙◌, Bool-cases, inl, inr,
}
use flowfi.Prelude.Text.{Text}
use flowfi.Indexer.Xdr.{ok}
use flowfi.Indexer.Tables.{
  created, Stream, StreamEvent, Db, find_event, find_stream, upsert_user, upsert_stream, contains,
  replace_stream, record_event, restamp,
}
use flowfi.Indexer.Bodies.{Event, CreatedBody}
use flowfi.Indexer.Transactions.{created_row, new_stream, renew_stream, created_tx}
use flowfi.Indexer.Rows.{find_stream-replace}

upsert_user_keeps :
    (key : Text) (db : Db)
    → ((upsert_user key db).streams ≡ db.streams) × ((upsert_user key db).events ≡ db.events)
unfolding upsert_user
upsert_user_keeps key db = elim (Bool-cases (contains key db.users)) [
  | inl there ↦ rw (there, upsert_user) (refl, refl)
  | inr absent ↦ rw (absent, upsert_user) (refl, refl)
]

renewed :
    (e : Event) (b : CreatedBody) (db : Db) (s : Stream) (x : StreamEvent)
    → find_stream b.stream_id db.streams ≡ some s
    → find_event e.tx_hash created db.events ≡ some x
    → record_event
        (created_row e b)
        (restamp e.ledger b.start_time)
        (upsert_stream (new_stream b) (renew_stream b) db)
      ≡ ok (record db { streams = replace_stream b.stream_id (renew_stream b) db.streams })
unfolding upsert_stream record_event
renewed e b db s x found stored =
    let changed : upsert_stream (new_stream b) (renew_stream b) db
        ≡ record db { streams = replace_stream b.stream_id (renew_stream b) db.streams } =
      rw (found, upsert_stream) refl in
    rw (changed, record_event, stored) (ap (λ d. ok d) changed)

-- A creation that is delivered again, its event and its stream stored, gives the stream its first
-- token, deposit, rate and times again and makes it active, cancelled or not; what was withdrawn,
-- the pause, sender and recipient stay, as does every other stream, and no event is added.
pub created_tx_again :
    (e : Event) (b : CreatedBody) (db : Db) (s : Stream) (x : StreamEvent)
    → find_stream b.stream_id db.streams ≡ some s
    → find_event e.tx_hash created db.events ≡ some x
    → (db' : Db) × (created_tx e b db ≡ ok db')
      × ((j : ℕ)
          → find_stream j db'.streams ≡ (
              if j == b.stream_id
              then some (record s {
                token_address = b.token_address;
                rate_per_second = b.rate_per_second;
                deposited_amount = b.deposited_amount;
                start_time = b.start_time;
                last_update_time = b.start_time;
                end_time = b.end_time;
                is_active = true;
              })
              else find_stream j db.streams))
      × (db'.events ≡ db.events)
unfolding created_tx
created_tx_again e b db s x found stored =
    let db1 = upsert_user b.sender db in
    let db2 = upsert_user b.recipient db1 in
    let (streams1, events1) = upsert_user_keeps b.sender db in
    let (streams2, events2) = upsert_user_keeps b.recipient db1 in
    let found2 = ap (find_stream b.stream_id) (streams2 ∙ streams1) ∙ found in
    let stored2 = ap (find_event e.tx_hash created) (events2 ∙ events1) ∙ stored in
    (
      record db2 { streams = replace_stream b.stream_id (renew_stream b) db2.streams },
      renewed e b db2 s x found2 stored2,
      λ j. ground (
        arith,
        found2,
        ap (find_stream j) (streams2 ∙ streams1),
        find_stream-replace j b.stream_id (renew_stream b) db2.streams (λ y. refl),
        ==_iff j b.stream_id,
      ),
      events2 ∙ events1,
    )
