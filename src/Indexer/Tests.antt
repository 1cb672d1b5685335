-- ===== src/Indexer/Tests.antt =====
-- Runs of the indexer on small batches, and the theorems about it at concrete inputs.
mod Cycles
use flowfi.Prelude.{
  ℕ, ◌+◌, ◌<◌, ◌≡◌, refl, Bool, true, false, Option, none, some, List, [], ◌∷◌, ◌++◌, arith, ℤ, pos,
  negsuc, ◌+ℤ◌, ◌-ℤ◌, ◌*ℤ◌, if◌then◌else◌, ◌==◌, select, length, not,
}
use flowfi.Prelude.Text.{Text, codes, big_int, to_string, text_eq}
use flowfi.Prelude.JsMap.{lookup, insert}
use flowfi.Indexer.Xdr.{
  Outcome, ok, err, Error, missing_fields, type_error, ScVal, sym, u64, i128, address, map, other,
  Entries, nil, entry, account, StrKey, decode_i128, decode_symbol, decode_u64, decode_address,
  decode_map, decode_entries, join_halves, as_int_64, as_uint_n,
}
use flowfi.Indexer.Tables.{
  created, withdrawn, topped_up, Stream, StreamEvent, Db, find_event, find_stream, upsert_user,
  upsert_stream, upsert_event, record_event, update_stream, replace_stream, find_stream_or_throw,
  contains,
}
use flowfi.Indexer.Bodies.{Event, WithdrawnBody, CreatedBody, end_time_of}
use flowfi.Indexer.Reads.{read_created, read_topped_up, read_withdrawn}
use flowfi.Indexer.Transactions.{
  created_tx, topped_up_tx, top_up, withdrawn_tx, withdraw, withdraw_stream, renew_stream,
  withdrawn_row, created_row,
}
use flowfi.Indexer.Handlers.{
  Broadcast, handle_stream_created, handle_stream_topped_up, handle_tokens_withdrawn, process_event,
  process_topics, dispatch, dispatch_topics, dispatch_stream,
}
use flowfi.Indexer.Poll.{
  IndexerState, World, Progress, Env, Request, Response, Counters, initial_counters, first_symbol,
  is_created, partition, sort_events, run_events, settle, write_state, quarantine, event_type_of,
  record_outcome, or_else, ensure_indexer_state, run_batch, run_poll_cycle, request,
  get_event_counters,
}
use flowfi.Indexer.Replay.{handle_tokens_withdrawn_again, withdrawn_tx_adds}

abbrev keys : StrKey
keys = record { encode_ed25519_public_key = λ k. b'G' ∷ k; encode_contract = λ h. b'C' ∷ h }

abbrev env : Env
env = record { str_key = keys; call_sym = λ topic. none; start_ledger = 0; clock = λ e. 900000 }

-- An event of a stream, in a transaction of a hash.
abbrev event_of : Text → Text → Entries → Event
event_of name hash body = record {
  id = hash;
  ledger = 12;
  tx_hash = hash;
  topic = sym name ∷ u64 7 ∷ [];
  value = map body;
  in_successful_contract_call = true;
}

abbrev amount : ℕ → ScVal
amount n = i128 (pos 0) (pos n)

abbrev creation : Event
creation = event_of (codes "stream_created") (codes "aa") (
    entry (sym (codes "sender")) (address (account (codes "S"))) (
      entry (sym (codes "recipient")) (address (account (codes "R"))) (
        entry (sym (codes "token_address")) (address (account (codes "T"))) (
          entry (sym (codes "rate_per_second")) (amount 10) (
            entry (sym (codes "deposited_amount")) (amount 1000)
              (entry (sym (codes "start_time")) (u64 100) nil))))))

abbrev withdrawal : Event
withdrawal = event_of (codes "tokens_withdrawn") (codes "bb") (
    entry (sym (codes "recipient")) (address (account (codes "R")))
      (entry (sym (codes "amount")) (amount 150) (entry (sym (codes "timestamp")) (u64 115) nil)))

abbrev top_up_event : Event
top_up_event = event_of (codes "stream_topped_up") (codes "cc") (
    entry (sym (codes "amount")) (amount 500)
      (entry (sym (codes "new_deposited_amount")) (amount 1500) nil))

-- A withdrawal without its fields, and an event whose first topic is no symbol.
abbrev malformed : Event
malformed = event_of (codes "tokens_withdrawn") (codes "dd") nil

abbrev poison : Event
poison = record malformed { topic = other ∷ [] }

abbrev start : World
start = record {
  db = record { users = []; streams = []; events = [] };
  dead_letters = [];
  counters = initial_counters;
  sent = [];
  state = none;
}

abbrev answer : List Event → Request → Option Response
answer events r = some (record { events = events; latest_cursor = none })

abbrev batch : List Event
batch = withdrawal ∷ malformed ∷ creation ∷ top_up_event ∷ []

abbrev after : World
after = (run_poll_cycle env none (answer batch) start).0

-- Deposited and withdrawn.
amounts_of : Option Stream → Option (Text × Text)
amounts_of none = none
amounts_of (some s) = some (s.deposited_amount, s.withdrawn_amount)

-- The creation is handled first, the malformed withdrawal is quarantined, and the cursor moves on.
batch_run :
    (amounts_of (find_stream 7 after.db.streams) ≡ some (codes "1500", codes "150"))
    × (length after.db.events ≡ 3)
    × (length after.dead_letters ≡ 1)
    × (after.counters.events_processed ≡ 3)
    × (after.state ≡ some (record { last_ledger = 12; last_cursor = some (codes "cc") }))
unfolding amounts_of run_poll_cycle run_batch run_events sort_events partition is_created
    first_symbol settle write_state request or_else ensure_indexer_state record_outcome quarantine
    event_type_of process_event process_topics dispatch dispatch_topics dispatch_stream
    handle_stream_created handle_stream_topped_up handle_tokens_withdrawn read_created
    read_topped_up read_withdrawn decode_symbol decode_u64 decode_i128 decode_address decode_map
    decode_entries join_halves as_int_64 as_uint_n created_tx topped_up_tx top_up withdrawn_tx
    withdraw upsert_user upsert_stream upsert_event record_event update_stream replace_stream
    find_stream find_stream_or_throw find_event contains end_time_of lookup insert text_eq ◌+ℤ◌ ◌-ℤ◌
    ◌*ℤ◌ to_string big_int
batch_run = (refl, refl, refl, refl, refl)

-- The tables after the creation.
abbrev stored : Db
stored = (run_poll_cycle env none (answer (creation ∷ [])) start).0.db

abbrev handled_of : Outcome (Db × List Broadcast) → Db × List Broadcast
handled_of (ok r) = r
handled_of (err e) = (start.db, [])

abbrev withdrawal_handled : Db × List Broadcast
withdrawal_handled = handled_of (handle_tokens_withdrawn keys 900 withdrawal (u64 7) stored)

abbrev top_up_handled : Db × List Broadcast
top_up_handled = handled_of (handle_stream_topped_up keys 900 top_up_event (u64 7) stored)

abbrev none_row : Stream
none_row = record {
  stream_id = 0;
  sender = [];
  recipient = [];
  token_address = [];
  rate_per_second = [];
  deposited_amount = [];
  withdrawn_amount = [];
  start_time = pos 0;
  last_update_time = pos 0;
  end_time = none;
  is_active = false;
  is_paused = false;
  paused_at = none;
  total_paused_duration = pos 0;
}

abbrev row_of : Option Stream → Stream
row_of none = none_row
row_of (some s) = s

-- The stream's row after the creation.
abbrev row : Stream
row = row_of (find_stream 7 stored.streams)

abbrev withdrawn_body : WithdrawnBody
withdrawn_body = record {
  stream_id = 7;
  recipient = codes "GR";
  amount = codes "150";
  timestamp = pos 115;
}

abbrev creation_body : CreatedBody
creation_body = record {
  stream_id = 7;
  sender = codes "GS";
  recipient = codes "GR";
  token_address = codes "GT";
  rate_per_second = codes "10";
  deposited_amount = codes "1000";
  start_time = pos 100;
  end_time = some (pos 200);
}

abbrev progress : Progress
progress = record { cursor = none; ledger = 0; saw_success = false }

handler_runs :
    (handle_tokens_withdrawn keys 900 withdrawal (u64 7) stored ≡ ok withdrawal_handled)
    × (handle_stream_topped_up keys 900 top_up_event (u64 7) stored ≡ ok top_up_handled)
    × (find_stream 7 stored.streams ≡ some row)
    × (big_int row.withdrawn_amount ≡ some (pos 0))
    × (find_event (codes "bb") withdrawn stored.events ≡ none)
    × (find_event (codes "aa") created stored.events ≡ some (created_row creation creation_body))
    × ((run_events env batch start progress).2 ≡ true)
unfolding amounts_of run_poll_cycle run_batch run_events sort_events partition is_created
    first_symbol settle write_state request or_else ensure_indexer_state record_outcome quarantine
    event_type_of process_event process_topics dispatch dispatch_topics dispatch_stream
    handle_stream_created handle_stream_topped_up handle_tokens_withdrawn read_created
    read_topped_up read_withdrawn decode_symbol decode_u64 decode_i128 decode_address decode_map
    decode_entries join_halves as_int_64 as_uint_n created_tx topped_up_tx top_up withdrawn_tx
    withdraw upsert_user upsert_stream upsert_event record_event update_stream replace_stream
    find_stream find_stream_or_throw find_event contains end_time_of lookup insert text_eq ◌+ℤ◌ ◌-ℤ◌
    ◌*ℤ◌ to_string big_int
handler_runs = (refl, refl, refl, refl, refl, refl, refl)

handle_tokens_withdrawn_again_example :
    handle_tokens_withdrawn keys 950 withdrawal (u64 7) withdrawal_handled.0 ≡ ok withdrawal_handled
handle_tokens_withdrawn_again_example =
    handle_tokens_withdrawn_again keys 900 950 withdrawal (u64 7) stored withdrawal_handled.0
      withdrawal_handled.1 handler_runs.0

withdrawn_tx_adds_example :
    (db' : Db) × (e : StreamEvent) × (withdrawn_tx withdrawal withdrawn_body stored ≡ ok db')
    × ((j : ℕ)
        → find_stream j db'.streams ≡ (
            if j == 7
            then some (record row {
              withdrawn_amount = to_string (pos 0 +ℤ pos 150);
              last_update_time = pos 115;
            })
            else find_stream j stored.streams))
    × (db'.events ≡ stored.events ++ e ∷ [])
    × (e.stream_id ≡ 7)
    × (e.event_type ≡ withdrawn)
    × (e.amount ≡ some withdrawn_body.amount)
    × (e.transaction_hash ≡ withdrawal.tx_hash)
    × (db'.users ≡ stored.users)
unfolding big_int
withdrawn_tx_adds_example =
    withdrawn_tx_adds withdrawal withdrawn_body stored row (pos 0) (pos 150) handler_runs.4
      handler_runs.2 handler_runs.3 refl
