-- ===== src/Indexer/Reads.antt =====
-- The first part of each handler of backend/src/workers/soroban-event-worker.ts: what it reads
-- from an event, and what it throws if a field is missing or of another kind. Every field is looked
-- up before any is decoded. A time that the source turns into a number is taken as it is.
use flowfi.Prelude.{pos}
use flowfi.Prelude.Text.{codes}
use flowfi.Indexer.Xdr.{
  Outcome, ok, ◌>>=◌, ScVal, StrKey, decode_u64, decode_u32, decode_i128, decode_address,
  decode_map,
}
use flowfi.Indexer.Bodies.{
  field, parse_integer, end_time_of, CreatedBody, ToppedUpBody, WithdrawnBody, CancelledBody,
  CompletedBody, FeeBody, PausedBody, ResumedBody, FeeConfigBody, AdminBody,
}

module _ (str_key : StrKey) (value topic1 : ScVal) where
  unfoldable pub read_created : Outcome CreatedBody
  read_created = do
    stream_id ← decode_u64 topic1
    body ← decode_map value
    sender_val ← field body (codes "sender")
    recipient_val ← field body (codes "recipient")
    token_val ← field body (codes "token_address")
    rate_val ← field body (codes "rate_per_second")
    deposited_val ← field body (codes "deposited_amount")
    start_val ← field body (codes "start_time")
    sender ← decode_address str_key sender_val
    recipient ← decode_address str_key recipient_val
    token_address ← decode_address str_key token_val
    rate_per_second ← decode_i128 rate_val
    deposited_amount ← decode_i128 deposited_val
    start ← decode_u64 start_val
    rate ← parse_integer rate_per_second
    deposited ← parse_integer deposited_amount
    ok (record {
      stream_id = stream_id;
      sender = sender;
      recipient = recipient;
      token_address = token_address;
      rate_per_second = rate_per_second;
      deposited_amount = deposited_amount;
      start_time = pos start;
      end_time = end_time_of rate (pos start) deposited (pos 0);
    })

  unfoldable pub read_withdrawn : Outcome WithdrawnBody
  read_withdrawn = do
    stream_id ← decode_u64 topic1
    body ← decode_map value
    recipient_val ← field body (codes "recipient")
    amount_val ← field body (codes "amount")
    timestamp_val ← field body (codes "timestamp")
    recipient ← decode_address str_key recipient_val
    amount ← decode_i128 amount_val
    timestamp ← decode_u64 timestamp_val
    ok (record {
      stream_id = stream_id;
      recipient = recipient;
      amount = amount;
      timestamp = pos timestamp;
    })

  unfoldable pub read_completed : Outcome CompletedBody
  read_completed = do
    stream_id ← decode_u64 topic1
    body ← decode_map value
    recipient_val ← field body (codes "recipient")
    total_val ← field body (codes "total_withdrawn")
    recipient ← decode_address str_key recipient_val
    total ← decode_i128 total_val
    ok (record { stream_id = stream_id; recipient = recipient; total_withdrawn = total })

  unfoldable pub read_fee : Outcome FeeBody
  read_fee = do
    stream_id ← decode_u64 topic1
    body ← decode_map value
    treasury_val ← field body (codes "treasury")
    fee_val ← field body (codes "fee_amount")
    token_val ← field body (codes "token")
    treasury ← decode_address str_key treasury_val
    fee_amount ← decode_i128 fee_val
    token ← decode_address str_key token_val
    ok (record {
      stream_id = stream_id;
      treasury = treasury;
      fee_amount = fee_amount;
      token = token;
    })

  unfoldable pub read_paused : Outcome PausedBody
  read_paused = do
    stream_id ← decode_u64 topic1
    body ← decode_map value
    sender_val ← field body (codes "sender")
    paused_val ← field body (codes "paused_at")
    sender ← decode_address str_key sender_val
    paused_at ← decode_u64 paused_val
    ok (record { stream_id = stream_id; sender = sender; paused_at = pos paused_at })

  unfoldable pub read_resumed : Outcome ResumedBody
  read_resumed = do
    stream_id ← decode_u64 topic1
    body ← decode_map value
    sender_val ← field body (codes "sender")
    end_val ← field body (codes "new_end_time")
    sender ← decode_address str_key sender_val
    new_end_time ← decode_u64 end_val
    ok (record { stream_id = stream_id; sender = sender; new_end_time = new_end_time })

module _ (value topic1 : ScVal) where
  unfoldable pub read_topped_up : Outcome ToppedUpBody
  read_topped_up = do
    stream_id ← decode_u64 topic1
    body ← decode_map value
    amount_val ← field body (codes "amount")
    deposited_val ← field body (codes "new_deposited_amount")
    amount ← decode_i128 amount_val
    deposited ← decode_i128 deposited_val
    ok (record { stream_id = stream_id; amount = amount; new_deposited_amount = deposited })

  unfoldable pub read_cancelled : Outcome CancelledBody
  read_cancelled = do
    stream_id ← decode_u64 topic1
    body ← decode_map value
    withdrawn_val ← field body (codes "amount_withdrawn")
    refunded_val ← field body (codes "refunded_amount")
    amount_withdrawn ← decode_i128 withdrawn_val
    refunded_amount ← decode_i128 refunded_val
    ok (record {
      stream_id = stream_id;
      amount_withdrawn = amount_withdrawn;
      refunded_amount = refunded_amount;
    })

module _ (str_key : StrKey) (value : ScVal) where
  unfoldable pub read_fee_config : Outcome FeeConfigBody
  read_fee_config = do
    body ← decode_map value
    admin_val ← field body (codes "admin")
    old_val ← field body (codes "old_treasury")
    new_val ← field body (codes "new_treasury")
    old_rate ← field body (codes "old_fee_rate_bps")
    new_rate ← field body (codes "new_fee_rate_bps")
    admin ← decode_address str_key admin_val
    old_treasury ← decode_address str_key old_val
    new_treasury ← decode_address str_key new_val
    ok (record {
      admin = admin;
      old_treasury = old_treasury;
      new_treasury = new_treasury;
      old_fee_rate_bps = decode_u32 old_rate;
      new_fee_rate_bps = decode_u32 new_rate;
    })

  unfoldable pub read_admin : Outcome AdminBody
  read_admin = do
    body ← decode_map value
    previous_val ← field body (codes "previous_admin")
    new_val ← field body (codes "new_admin")
    previous_admin ← decode_address str_key previous_val
    new_admin ← decode_address str_key new_val
    ok (record { previous_admin = previous_admin; new_admin = new_admin })
