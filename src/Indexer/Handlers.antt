-- ===== src/Indexer/Handlers.antt =====
-- The handlers of backend/src/workers/soroban-event-worker.ts, each from its reading, its
-- transaction and its broadcast, and the dispatch on an event's name.
use flowfi.Prelude.{ℕ, List, [], ◌∷◌, if◌then◌else◌, ℤ, pos}
use flowfi.Prelude.Text.{Text, codes, text_eq, to_string}
use flowfi.Indexer.Xdr.{Outcome, ok, ◌>>=◌, ScVal, StrKey, decode_symbol}
use flowfi.Indexer.Tables.{str, num, Object, Db}
use flowfi.Indexer.Bodies.{Event, ToppedUpBody, WithdrawnBody}
use flowfi.Indexer.Reads.{
  read_created, read_topped_up, read_withdrawn, read_cancelled, read_completed, read_fee,
  read_paused, read_resumed, read_fee_config, read_admin,
}
use flowfi.Indexer.Transactions.{
  created_tx, topped_up_tx, withdrawn_tx, cancelled_tx, completed_tx, fee_tx, paused_tx, resumed_tx,
  fee_config_tx, admin_tx, rate_json,
}

pub data Channel : Type 0 where
  to_stream : Text → Channel
  to_admin : Channel

pub record Broadcast : Type 0 where
  pub channel : Channel
  pub name : Text
  pub content : Object

-- The tables after an event, and what was broadcast; an error leaves the tables alone.
abbrev pub Handled : Type 0
Handled = Outcome (Db × List Broadcast)

-- Hash, ledger and time of the event, which most broadcasts end with.
abbrev pub origin : Event → Object
origin e = (codes "transactionHash", str e.tx_hash) ∷ (codes "ledger", num (pos e.ledger)) ∷ []

abbrev pub origin_at : Event → ℤ → Object
origin_at e t =
    (codes "transactionHash", str e.tx_hash)
    ∷ (codes "ledger", num (pos e.ledger))
    ∷ (codes "timestamp", num t)
    ∷ []

abbrev pub of_stream : ℕ → Text → Object → Broadcast
of_stream id name content = record {
  channel = to_stream (to_string (pos id));
  name = name;
  content = (codes "streamId", num (pos id)) ∷ content;
}

-- The last two parts of a handler.
abbrev pub finish : Outcome Db → Broadcast → Handled
finish tx message = tx >>= λ db. ok (db, message ∷ [])

abbrev pub topped_up_message : ℕ → Event → ToppedUpBody → Broadcast
topped_up_message now e b = of_stream b.stream_id (codes "stream.topped_up") (
    (codes "amount", str b.amount)
    ∷ (codes "newDepositedAmount", str b.new_deposited_amount)
    ∷ origin_at e (pos now))

abbrev pub withdrawn_message : Event → WithdrawnBody → Broadcast
withdrawn_message e b = of_stream b.stream_id (codes "stream.withdrawn") (
    (codes "recipient", str b.recipient) ∷ (codes "amount", str b.amount) ∷ origin_at e b.timestamp)

module _ (str_key : StrKey) (now : ℕ) (e : Event) (topic1 : ScVal) (db : Db) where
  unfoldable pub handle_stream_created : Handled
  handle_stream_created = do
    b ← read_created str_key e.value topic1
    finish (created_tx e b db) (
        of_stream b.stream_id (codes "stream.created") (
          (codes "sender", str b.sender)
          ∷ (codes "recipient", str b.recipient)
          ∷ (codes "tokenAddress", str b.token_address)
          ∷ (codes "ratePerSecond", str b.rate_per_second)
          ∷ (codes "depositedAmount", str b.deposited_amount)
          ∷ (codes "startTime", num b.start_time)
          ∷ origin e))

  unfoldable pub handle_stream_topped_up : Handled
  handle_stream_topped_up = do
    b ← read_topped_up e.value topic1
    finish (topped_up_tx now e b db) (topped_up_message now e b)

  unfoldable pub handle_tokens_withdrawn : Handled
  handle_tokens_withdrawn = do
    b ← read_withdrawn str_key e.value topic1
    finish (withdrawn_tx e b db) (withdrawn_message e b)

  unfoldable pub handle_stream_cancelled : Handled
  handle_stream_cancelled = do
    b ← read_cancelled e.value topic1
    finish (cancelled_tx now e b db) (
        of_stream b.stream_id (codes "stream.cancelled") (
          (codes "refundedAmount", str b.refunded_amount)
          ∷ (codes "amountWithdrawn", str b.amount_withdrawn)
          ∷ origin_at e (pos now)))

  unfoldable pub handle_stream_completed : Handled
  handle_stream_completed = do
    b ← read_completed str_key e.value topic1
    finish (completed_tx now e b db) (
        of_stream b.stream_id (codes "stream.completed") (
          (codes "recipient", str b.recipient)
          ∷ (codes "totalWithdrawn", str b.total_withdrawn)
          ∷ origin_at e (pos now)))

  unfoldable pub handle_stream_paused : Handled
  handle_stream_paused = do
    b ← read_paused str_key e.value topic1
    finish (paused_tx now e b db) (
        of_stream b.stream_id (codes "stream.paused") (
          (codes "sender", str b.sender)
          ∷ (codes "pausedAt", num b.paused_at)
          ∷ origin_at e (pos now)))

  unfoldable pub handle_stream_resumed : Handled
  handle_stream_resumed = do
    b ← read_resumed str_key e.value topic1
    finish (resumed_tx now e b db) (
        of_stream b.stream_id (codes "stream.resumed") (
          (codes "sender", str b.sender)
          ∷ (codes "newEndTime", str (to_string (pos b.new_end_time)))
          ∷ origin_at e (pos now)))

  unfoldable pub handle_fee_collected : Handled
  handle_fee_collected = do
    b ← read_fee str_key e.value topic1
    finish (fee_tx now e b db) (record {
      channel = to_admin;
      name = codes "stream.fee_collected";
      content =
          (codes "streamId", num (pos b.stream_id))
          ∷ (codes "treasury", str b.treasury)
          ∷ (codes "feeAmount", str b.fee_amount)
          ∷ (codes "token", str b.token)
          ∷ origin_at e (pos now);
    })

  -- The `switch` on the name of an event with two topics or more.
  unfoldable pub dispatch_stream : Text → Handled
  dispatch_stream name =
      if text_eq name (codes "stream_created")
      then handle_stream_created
      else if text_eq name (codes "stream_topped_up")
      then handle_stream_topped_up
      else if text_eq name (codes "tokens_withdrawn")
      then handle_tokens_withdrawn
      else if text_eq name (codes "stream_paused")
      then handle_stream_paused
      else if text_eq name (codes "stream_resumed")
      then handle_stream_resumed
      else if text_eq name (codes "stream_cancelled")
      then handle_stream_cancelled
      else if text_eq name (codes "stream_completed")
      then handle_stream_completed
      else if text_eq name (codes "fee_collected")
      then handle_fee_collected
      else ok (db, [])

module _ (str_key : StrKey) (now : ℕ) (e : Event) (db : Db) where
  unfoldable pub handle_fee_config_updated : Handled
  handle_fee_config_updated = do
    b ← read_fee_config str_key e.value
    finish (fee_config_tx now e b db) (record {
      channel = to_admin;
      name = codes "stream.fee_config_updated";
      content =
          (codes "admin", str b.admin)
          ∷ (codes "oldTreasury", str b.old_treasury)
          ∷ (codes "newTreasury", str b.new_treasury)
          ∷ (codes "oldFeeRateBps", rate_json b.old_fee_rate_bps)
          ∷ (codes "newFeeRateBps", rate_json b.new_fee_rate_bps)
          ∷ origin_at e (pos now);
    })

  unfoldable pub handle_admin_transferred : Handled
  handle_admin_transferred = do
    b ← read_admin str_key e.value
    finish (admin_tx now e b db) (record {
      channel = to_admin;
      name = codes "stream.admin_transferred";
      content =
          (codes "previousAdmin", str b.previous_admin)
          ∷ (codes "newAdmin", str b.new_admin)
          ∷ origin_at e (pos now);
    })

  -- An event that concerns a stream carries its id as the second topic.
  unfoldable pub dispatch_topics : Text → List ScVal → Handled
  dispatch_topics name [] = ok (db, [])
  dispatch_topics name (topic1 ∷ more) = dispatch_stream str_key now e topic1 db name

  unfoldable pub dispatch : Text → List ScVal → Handled
  dispatch name topics =
      if text_eq name (codes "fee_config_updated")
      then handle_fee_config_updated
      else if text_eq name (codes "admin_transferred")
      then handle_admin_transferred
      else dispatch_topics name topics

  unfoldable pub process_topics : List ScVal → Handled
  process_topics [] = ok (db, [])
  process_topics (topic0 ∷ topics) = do name ← decode_symbol topic0; dispatch name topics

-- `processEvent`
unfoldable pub process_event : StrKey → ℕ → Event → Db → Handled
process_event str_key now e db = process_topics str_key now e db e.topic
