-- ===== src/Indexer/Tests/Cycles.antt =====
-- The theorems about poll cycles and the tables after them, at concrete inputs.
use flowfi.Prelude.{
  ℕ, if◌then◌else◌, ◌==◌, true, ◌≡◌, refl, false, none, some, [], ◌∷◌, arith, ℤ, pos, negsuc,
}
use flowfi.Prelude.Text.{Text, codes, big_int, text_eq}
use flowfi.Prelude.JsMap.{lookup}
use flowfi.Indexer.Xdr.{
  ok, missing_fields, type_error, decode_i128, decode_symbol, decode_u64, decode_map,
  decode_entries,
}
use flowfi.Indexer.Tables.{Db, find_stream}
use flowfi.Indexer.Reads.{read_withdrawn}
use flowfi.Indexer.Transactions.{created_row, created_tx}
use flowfi.Indexer.Handlers.{
  handle_tokens_withdrawn, process_event, process_topics, dispatch, dispatch_topics,
  dispatch_stream,
}
use flowfi.Indexer.Poll.{World, first_symbol, run_events, run_poll_cycle, get_event_counters}
use flowfi.Indexer.Post.{Post}
use flowfi.Indexer.Validity.{IsValid}
use flowfi.Indexer.Processing.{process_event-IsValid}
use flowfi.Indexer.Health.{Runs, here, cycle, degraded_never}
use flowfi.Indexer.Reachable.{Runs-IsValid, claimable_amount-Runs, selected}
use flowfi.Indexer.Isolation.{Agree, Fails, run_events-Fails}
use flowfi.Indexer.Batch.{run_poll_cycle_stalls}
use flowfi.Indexer.Integers.{halves, decode_i128-big_int}
use flowfi.Indexer.Renewal.{created_tx_again}
use flowfi.Claimable.{claimable_amount}
use flowfi.Claimable.Key.{HasPlainTexts}
use flowfi.Indexer.Tests.{
  keys, env, creation, withdrawal, malformed, poison, start, answer, batch, after, stored, row,
  progress, creation_body, handler_runs,
}

start-IsValid : IsValid start.db
start-IsValid = record { ids = tt; amounts = tt; keys = tt; links = tt }

one_cycle : Runs start (run_poll_cycle env none (answer (creation ∷ [])) start).0
one_cycle = cycle env none (answer (creation ∷ [])) here

process_event-IsValid_example : Post (process_event keys 900 creation start.db) (λ r. IsValid r.0)
process_event-IsValid_example = process_event-IsValid keys 900 creation start.db start-IsValid

Runs-IsValid_example : IsValid stored
Runs-IsValid_example = Runs-IsValid start-IsValid one_cycle

claimable_amount-Runs_example :
    HasPlainTexts (selected none row)
    × ((amount : ℤ) × (claimable_amount (selected none row) (pos 500) ≡ some amount))
claimable_amount-Runs_example =
    claimable_amount-Runs start (run_poll_cycle env none (answer (creation ∷ [])) start).0 7 row
      none (pos 500) start-IsValid one_cycle handler_runs.2

degraded_never_example :
    get_event_counters 900000 after.counters ≡ (after.counters.events_processed, 0, none, false)
degraded_never_example = degraded_never start after 900000 refl (cycle env none (answer batch) here)

malformed-Fails : Fails env malformed
unfolding process_event process_topics dispatch dispatch_topics dispatch_stream
    handle_tokens_withdrawn read_withdrawn decode_symbol decode_u64 decode_map decode_entries lookup
    text_eq
malformed-Fails db = (missing_fields, refl)

run_events-Fails_example :
    Agree
      (run_events env (creation ∷ malformed ∷ withdrawal ∷ []) start progress)
      (run_events env (creation ∷ withdrawal ∷ []) start progress)
unfolding first_symbol decode_symbol
run_events-Fails_example =
    run_events-Fails env malformed (creation ∷ []) (withdrawal ∷ []) start progress
      (codes "tokens_withdrawn") refl refl malformed-Fails

abbrev pinned : World
pinned = record start { state = some (record { last_ledger = 5; last_cursor = none }) }

run_poll_cycle_stalls_example :
    run_poll_cycle env none (answer (creation ∷ poison ∷ withdrawal ∷ [])) pinned ≡ (pinned, false)
unfolding first_symbol decode_symbol
run_poll_cycle_stalls_example =
    run_poll_cycle_stalls env (record { last_ledger = 5; last_cursor = none }) none
      (answer (creation ∷ poison ∷ withdrawal ∷ [])) pinned
      (record { events = creation ∷ poison ∷ withdrawal ∷ []; latest_cursor = none }) poison
      (creation ∷ []) (withdrawal ∷ []) type_error refl refl refl refl refl

decode_i128-big_int_example :
    (text : Text) × (decode_i128 (halves (negsuc 4)) ≡ ok text) × (big_int text ≡ some (negsuc 4))
decode_i128-big_int_example = decode_i128-big_int (negsuc 4) (omega arith)

created_tx_again_example :
    (db' : Db) × (created_tx creation creation_body stored ≡ ok db')
    × ((j : ℕ)
        → find_stream j db'.streams ≡ (
            if j == 7
            then some (record row {
              token_address = creation_body.token_address;
              rate_per_second = creation_body.rate_per_second;
              deposited_amount = creation_body.deposited_amount;
              start_time = creation_body.start_time;
              last_update_time = creation_body.start_time;
              end_time = creation_body.end_time;
              is_active = true;
            })
            else find_stream j stored.streams))
    × (db'.events ≡ stored.events)
created_tx_again_example =
    created_tx_again creation creation_body stored row (created_row creation creation_body)
      handler_runs.2 handler_runs.5
