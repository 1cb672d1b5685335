-- ===== src/Indexer/Preservation.antt =====
-- Every event that the indexer handles leaves tables that hold together.
use flowfi.Prelude.{ℕ, refl, ℤ, pos, ◌+ℤ◌, Option-cases, inl, inr}
use flowfi.Prelude.Text.{codes, to_string}
use flowfi.Indexer.Tables.{
  topped_up, withdrawn, Db, find_event, find_stream_or_throw, update_stream, upsert_user, restamp,
  ensure_system_stream, system_user,
}
use flowfi.Indexer.Bodies.{
  Event, parse_integer, CreatedBody, ToppedUpBody, WithdrawnBody, CancelledBody, CompletedBody,
  FeeBody, PausedBody, ResumedBody, FeeConfigBody, AdminBody,
}
use flowfi.Indexer.Transactions.{
  created_row, new_stream, renew_stream, created_tx, topped_up_row, top_up, topped_up_tx,
  withdrawn_row, withdraw, withdrawn_tx, close_stream, cancelled_row, cancelled_tx, completed_row,
  completed_tx, fee_row, fee_tx, pause_stream, paused_row, paused_tx, resumed_row, resumed_tx,
  fee_config_row, fee_config_tx, admin_row, admin_tx,
}
use flowfi.Indexer.Post.{Post, then_post, then_any}
use flowfi.Indexer.Rows.{KeepsKey}
use flowfi.Indexer.Validity.{
  IsInteger, IsValid, update_stream-IsValid, upsert_stream-IsValid, upsert_user-IsValid,
  upsert_event-IsValid, record_event-IsValid,
}

restamp-KeepsKey : (ledger : ℕ) (t : ℤ) → KeepsKey (restamp ledger t)
restamp-KeepsKey ledger t e = (refl, refl, refl)

module _ (now : ℕ) (e : Event) (db : Db) (h : IsValid db) where
  pub created_tx-IsValid :
      (b : CreatedBody)
      → IsInteger b.rate_per_second
      → IsInteger b.deposited_amount
      → Post (created_tx e b db) IsValid
  unfolding created_tx to_string
  created_tx-IsValid b rate deposited =
      let sent = upsert_user-IsValid b.sender db h in
      let known = upsert_user-IsValid b.recipient (upsert_user b.sender db) sent in
      let zero : IsInteger (codes "0") = (pos 0, refl) in
      record_event-IsValid (created_row e b) (restamp e.ledger b.start_time) _
        (restamp-KeepsKey e.ledger b.start_time)
        (upsert_stream-IsValid (new_stream b) (renew_stream b) _ (rate, deposited, zero)
          (record { id = λ s. refl; integers = λ s (r, d, w). (rate, deposited, w) }) known)

  pub topped_up_tx-IsValid :
      (b : ToppedUpBody) → IsInteger b.new_deposited_amount → Post (topped_up_tx now e b db) IsValid
  unfolding topped_up_tx top_up
  topped_up_tx-IsValid b deposited =
      elim (Option-cases (find_event e.tx_hash topped_up db.events)) [
        | inr (x, found) ↦ rw (found, topped_up_tx) h
        | inl fresh ↦
            rw (fresh, topped_up_tx)
              (then_any _ (find_stream_or_throw b.stream_id db) _ (λ s.
                then_any _ (parse_integer s.rate_per_second) _ (λ rate.
                  then_any _ (parse_integer b.new_deposited_amount) _ (λ d.
                    then_post _ (update_stream b.stream_id _ db) _
                      (update_stream-IsValid b.stream_id _ db
                        (record { id = λ x. refl; integers = λ x (r, o, w). (r, deposited, w) }) h)
                      (λ db' h'.
                        upsert_event-IsValid (topped_up_row now e b) _ db'
                          (restamp-KeepsKey e.ledger (pos now)) h')))))
      ]

  pub withdrawn_tx-IsValid : (b : WithdrawnBody) → Post (withdrawn_tx e b db) IsValid
  unfolding withdrawn_tx withdraw
  withdrawn_tx-IsValid b = elim (Option-cases (find_event e.tx_hash withdrawn db.events)) [
    | inr (x, found) ↦ rw (found, withdrawn_tx) h
    | inl fresh ↦
        rw (fresh, withdrawn_tx)
          (then_any _ (find_stream_or_throw b.stream_id db) _ (λ s.
            then_any _ (parse_integer s.withdrawn_amount) _ (λ old.
              then_any _ (parse_integer b.amount) _ (λ amount.
                then_post _ (update_stream b.stream_id _ db) _
                  (update_stream-IsValid b.stream_id _ db
                    (record {
                      id = λ x. refl;
                      integers = λ x (r, d, w). (r, d, (old +ℤ amount, refl));
                    })
                    h)
                  (λ db' h'.
                    upsert_event-IsValid (withdrawn_row e b) _ db'
                      (restamp-KeepsKey e.ledger b.timestamp) h')))))
  ]

  pub cancelled_tx-IsValid :
      (b : CancelledBody) → IsInteger b.amount_withdrawn → Post (cancelled_tx now e b db) IsValid
  unfolding cancelled_tx
  cancelled_tx-IsValid b amount =
      then_post _ (update_stream b.stream_id _ db) _
        (update_stream-IsValid b.stream_id (close_stream now b.amount_withdrawn) db
          (record { id = λ x. refl; integers = λ x (r, d, w). (r, d, amount) }) h)
        (λ db' h'.
          record_event-IsValid (cancelled_row now e b) _ db' (restamp-KeepsKey e.ledger (pos now))
            h')

  pub completed_tx-IsValid :
      (b : CompletedBody) → IsInteger b.total_withdrawn → Post (completed_tx now e b db) IsValid
  unfolding completed_tx
  completed_tx-IsValid b amount =
      then_post _ (update_stream b.stream_id _ db) _
        (update_stream-IsValid b.stream_id (close_stream now b.total_withdrawn) db
          (record { id = λ x. refl; integers = λ x (r, d, w). (r, d, amount) }) h)
        (λ db' h'.
          record_event-IsValid (completed_row now e b) _ db' (restamp-KeepsKey e.ledger (pos now))
            h')

  pub fee_tx-IsValid : (b : FeeBody) → Post (fee_tx now e b db) IsValid
  unfolding fee_tx
  fee_tx-IsValid b = record_event-IsValid (fee_row now e b) (λ x. x) db (λ x. (refl, refl, refl)) h

  pub paused_tx-IsValid : (b : PausedBody) → Post (paused_tx now e b db) IsValid
  unfolding paused_tx
  paused_tx-IsValid b =
      then_post _ (update_stream b.stream_id _ db) _
        (update_stream-IsValid b.stream_id (pause_stream now b.paused_at) db
          (record { id = λ x. refl; integers = λ x k. k }) h)
        (λ db' h'.
          record_event-IsValid (paused_row now e b) _ db' (restamp-KeepsKey e.ledger (pos now)) h')

  pub resumed_tx-IsValid : (b : ResumedBody) → Post (resumed_tx now e b db) IsValid
  unfolding resumed_tx
  resumed_tx-IsValid b = then_any _ (find_stream_or_throw b.stream_id db) _ (λ s.
      then_post _ (update_stream b.stream_id _ db) _
        (update_stream-IsValid b.stream_id _ db (record { id = λ x. refl; integers = λ x k. k }) h)
        (λ db' h'.
          record_event-IsValid (resumed_row now e b _ _) _ db' (restamp-KeepsKey e.ledger (pos now))
            h'))

  ensure_system_stream-IsValid : IsValid (ensure_system_stream db)
  unfolding ensure_system_stream to_string
  ensure_system_stream-IsValid =
      let zero : IsInteger (codes "0") = (pos 0, refl) in
      upsert_stream-IsValid _ (λ s. s) (upsert_user system_user db) (zero, zero, zero)
        (record { id = λ x. refl; integers = λ x k. k }) (upsert_user-IsValid system_user db h)

  pub fee_config_tx-IsValid : (b : FeeConfigBody) → Post (fee_config_tx now e b db) IsValid
  unfolding fee_config_tx
  fee_config_tx-IsValid b =
      upsert_event-IsValid (fee_config_row now e b) _ _ (restamp-KeepsKey e.ledger (pos now))
        ensure_system_stream-IsValid

  pub admin_tx-IsValid : (b : AdminBody) → Post (admin_tx now e b db) IsValid
  unfolding admin_tx
  admin_tx-IsValid b =
      upsert_event-IsValid (admin_row now e b) _ _ (restamp-KeepsKey e.ledger (pos now))
        ensure_system_stream-IsValid
