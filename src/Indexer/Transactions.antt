-- ===== src/Indexer/Transactions.antt =====
-- The transaction of each handler of backend/src/workers/soroban-event-worker.ts: the tables
-- afterwards, or the error that rolls it back. `now` is `Math.floor(Date.now() / 1000)`.
use flowfi.Prelude.{
  ℕ, true, false, Option, none, some, [], ◌∷◌, if◌then◌else◌, ℤ, pos, ◌+ℤ◌, ◌-ℤ◌, eq_ℤ,
}
use flowfi.Prelude.Text.{Text, codes, to_string}
use flowfi.Indexer.Xdr.{Outcome, ok, ◌>>=◌}
use flowfi.Indexer.Tables.{
  EventType, created, topped_up, withdrawn, cancelled, completed, paused, resumed, fee_collected,
  fee_config_updated, admin_transferred, Json, str, num, undefined, Object, Stream, StreamEvent, Db,
  find_event, find_stream_or_throw, update_stream, upsert_stream, upsert_user, upsert_event,
  record_event, restamp, ensure_system_stream,
}
use flowfi.Indexer.Bodies.{
  Event, parse_integer, end_time_of, CreatedBody, ToppedUpBody, WithdrawnBody, CancelledBody,
  CompletedBody, FeeBody, PausedBody, ResumedBody, FeeConfigBody, AdminBody,
}

abbrev pub event_row : ℕ → EventType → Option Text → Event → ℤ → Object → StreamEvent
event_row stream_id type amount event timestamp metadata = record {
  stream_id = stream_id;
  event_type = type;
  amount = amount;
  transaction_hash = event.tx_hash;
  ledger_sequence = event.ledger;
  timestamp = timestamp;
  metadata = metadata;
}

abbrev pub new_stream : CreatedBody → Stream
new_stream b = record {
  stream_id = b.stream_id;
  sender = b.sender;
  recipient = b.recipient;
  token_address = b.token_address;
  rate_per_second = b.rate_per_second;
  deposited_amount = b.deposited_amount;
  withdrawn_amount = codes "0";
  start_time = b.start_time;
  last_update_time = b.start_time;
  end_time = b.end_time;
  is_active = true;
  is_paused = false;
  paused_at = none;
  total_paused_duration = pos 0;
}

abbrev pub renew_stream : CreatedBody → Stream → Stream
renew_stream b s = record s {
  token_address = b.token_address;
  rate_per_second = b.rate_per_second;
  deposited_amount = b.deposited_amount;
  start_time = b.start_time;
  last_update_time = b.start_time;
  end_time = b.end_time;
  is_active = true;
}

abbrev pub created_row : Event → CreatedBody → StreamEvent
created_row event b = event_row b.stream_id created (some b.deposited_amount) event b.start_time (
    (codes "tokenAddress", str b.token_address)
    ∷ (codes "ratePerSecond", str b.rate_per_second)
    ∷ [])

unfoldable pub created_tx : Event → CreatedBody → Db → Outcome Db
unfolding record_event
created_tx event b db =
    let known = upsert_user b.recipient (upsert_user b.sender db) in
    record_event (created_row event b) (restamp event.ledger b.start_time)
      (upsert_stream (new_stream b) (renew_stream b) known)

abbrev pub topped_up_row : ℕ → Event → ToppedUpBody → StreamEvent
topped_up_row now event b =
    event_row b.stream_id topped_up (some b.amount) event (pos now)
      ((codes "newDepositedAmount", str b.new_deposited_amount) ∷ [])

abbrev pub top_up_stream : ℕ → Text → Option ℤ → Stream → Stream
top_up_stream now amount end_time s = record s {
  deposited_amount = amount;
  end_time = end_time;
  last_update_time = pos now;
}

-- What follows the check for a duplicate in a top-up.
unfoldable pub top_up : ℕ → Event → ToppedUpBody → Db → Outcome Db
unfolding upsert_event
top_up now event b db = do
  stream ← find_stream_or_throw b.stream_id db
  rate ← parse_integer stream.rate_per_second
  deposited ← parse_integer b.new_deposited_amount
  let end_time = end_time_of rate stream.start_time deposited stream.total_paused_duration
  db' ← update_stream b.stream_id (top_up_stream now b.new_deposited_amount end_time) db
  upsert_event (topped_up_row now event b) (restamp event.ledger (pos now)) db'

unfoldable pub topped_up_tx : ℕ → Event → ToppedUpBody → Db → Outcome Db
unfolding top_up
topped_up_tx now event b db = elim (find_event event.tx_hash topped_up db.events) [
  | some e ↦ ok db
  | none ↦ top_up now event b db
]

abbrev pub withdrawn_row : Event → WithdrawnBody → StreamEvent
withdrawn_row event b =
    event_row b.stream_id withdrawn (some b.amount) event b.timestamp
      ((codes "recipient", str b.recipient) ∷ [])

abbrev pub withdraw_stream : ℤ → Text → Stream → Stream
withdraw_stream timestamp amount s = record s {
  withdrawn_amount = amount;
  last_update_time = timestamp;
}

-- What follows the check for a duplicate in a withdrawal.
unfoldable pub withdraw : Event → WithdrawnBody → Db → Outcome Db
unfolding upsert_event
withdraw event b db = do
  stream ← find_stream_or_throw b.stream_id db
  old ← parse_integer stream.withdrawn_amount
  amount ← parse_integer b.amount
  db' ← update_stream b.stream_id (withdraw_stream b.timestamp (to_string (old +ℤ amount))) db
  upsert_event (withdrawn_row event b) (restamp event.ledger b.timestamp) db'

unfoldable pub withdrawn_tx : Event → WithdrawnBody → Db → Outcome Db
unfolding withdraw
withdrawn_tx event b db = elim (find_event event.tx_hash withdrawn db.events) [
  | some e ↦ ok db
  | none ↦ withdraw event b db
]

-- A cancellation and a completion both close the stream with a final amount.
abbrev pub close_stream : ℕ → Text → Stream → Stream
close_stream now amount s = record s {
  is_active = false;
  withdrawn_amount = amount;
  last_update_time = pos now;
}

abbrev pub cancelled_row : ℕ → Event → CancelledBody → StreamEvent
cancelled_row now event b =
    event_row b.stream_id cancelled (some b.refunded_amount) event (pos now) (
      (codes "amountWithdrawn", str b.amount_withdrawn)
      ∷ (codes "refundedAmount", str b.refunded_amount)
      ∷ [])

unfoldable pub cancelled_tx : ℕ → Event → CancelledBody → Db → Outcome Db
unfolding record_event
cancelled_tx now event b db = do
  db' ← update_stream b.stream_id (close_stream now b.amount_withdrawn) db
  record_event (cancelled_row now event b) (restamp event.ledger (pos now)) db'

abbrev pub completed_row : ℕ → Event → CompletedBody → StreamEvent
completed_row now event b =
    event_row b.stream_id completed (some b.total_withdrawn) event (pos now)
      ((codes "recipient", str b.recipient) ∷ [])

unfoldable pub completed_tx : ℕ → Event → CompletedBody → Db → Outcome Db
unfolding record_event
completed_tx now event b db = do
  db' ← update_stream b.stream_id (close_stream now b.total_withdrawn) db
  record_event (completed_row now event b) (restamp event.ledger (pos now)) db'

abbrev pub fee_row : ℕ → Event → FeeBody → StreamEvent
fee_row now event b =
    event_row b.stream_id fee_collected (some b.fee_amount) event (pos now)
      ((codes "treasury", str b.treasury) ∷ (codes "token", str b.token) ∷ [])

unfoldable pub fee_tx : ℕ → Event → FeeBody → Db → Outcome Db
unfolding record_event
fee_tx now event b db = record_event (fee_row now event b) (λ e. e) db

abbrev pub pause_stream : ℕ → ℤ → Stream → Stream
pause_stream now paused_at s = record s {
  is_paused = true;
  paused_at = some paused_at;
  last_update_time = pos now;
}

abbrev pub paused_row : ℕ → Event → PausedBody → StreamEvent
paused_row now event b =
    event_row b.stream_id paused none event (pos now)
      ((codes "sender", str b.sender) ∷ (codes "pausedAt", num b.paused_at) ∷ [])

unfoldable pub paused_tx : ℕ → Event → PausedBody → Db → Outcome Db
unfolding record_event
paused_tx now event b db = do
  db' ← update_stream b.stream_id (pause_stream now b.paused_at) db
  record_event (paused_row now event b) (restamp event.ledger (pos now)) db'

-- `pausedAt ? timestamp - Number(pausedAt) : 0`: a pause at time zero counts as none.
unfoldable pub additional_pause : ℕ → Option ℤ → ℤ
additional_pause now none = pos 0
additional_pause now (some at) = if eq_ℤ at (pos 0) then pos 0 else pos now -ℤ at

abbrev pub resume_stream : ℕ → ℕ → ℤ → Stream → Stream
resume_stream now end_time total s = record s {
  is_paused = false;
  paused_at = none;
  end_time = some (pos end_time);
  total_paused_duration = total;
  last_update_time = pos now;
}

abbrev pub resumed_row : ℕ → Event → ResumedBody → ℤ → ℤ → StreamEvent
resumed_row now event b additional total = event_row b.stream_id resumed none event (pos now) (
    (codes "sender", str b.sender)
    ∷ (codes "newEndTime", str (to_string (pos b.new_end_time)))
    ∷ (codes "pausedDuration", num additional)
    ∷ (codes "totalPausedDuration", num total)
    ∷ [])

unfoldable pub resumed_tx : ℕ → Event → ResumedBody → Db → Outcome Db
unfolding record_event additional_pause
resumed_tx now event b db = do
  stream ← find_stream_or_throw b.stream_id db
  let additional = additional_pause now stream.paused_at
  let total = stream.total_paused_duration +ℤ additional
  db' ← update_stream b.stream_id (resume_stream now b.new_end_time total) db
  record_event (resumed_row now event b additional total) (restamp event.ledger (pos now)) db'

abbrev pub rate_json : Option ℕ → Json
rate_json none = undefined
rate_json (some n) = num (pos n)

abbrev pub fee_config_row : ℕ → Event → FeeConfigBody → StreamEvent
fee_config_row now event b = event_row 0 fee_config_updated none event (pos now) (
    (codes "admin", str b.admin)
    ∷ (codes "old_treasury", str b.old_treasury)
    ∷ (codes "new_treasury", str b.new_treasury)
    ∷ (codes "old_fee_rate_bps", rate_json b.old_fee_rate_bps)
    ∷ (codes "new_fee_rate_bps", rate_json b.new_fee_rate_bps)
    ∷ [])

unfoldable pub fee_config_tx : ℕ → Event → FeeConfigBody → Db → Outcome Db
unfolding upsert_event ensure_system_stream
fee_config_tx now event b db =
    upsert_event (fee_config_row now event b) (restamp event.ledger (pos now))
      (ensure_system_stream db)

abbrev pub admin_row : ℕ → Event → AdminBody → StreamEvent
admin_row now event b = event_row 0 admin_transferred none event (pos now) (
    (codes "previous_admin", str b.previous_admin)
    ∷ (codes "new_admin", str b.new_admin)
    ∷ (codes "transactionHash", str event.tx_hash)
    ∷ [])

unfoldable pub admin_tx : ℕ → Event → AdminBody → Db → Outcome Db
unfolding upsert_event ensure_system_stream
admin_tx now event b db =
    upsert_event (admin_row now event b) (restamp event.ledger (pos now)) (ensure_system_stream db)
