-- ===== src/Indexer/DeadLetters/Tests.antt =====
-- Runs of the dead letters of backend/src/services/indexerService.ts.
use flowfi.Prelude.{ℕ, ◌≡◌, refl, true, Option, none, some, [], ◌∷◌, map, if◌then◌else◌}
use flowfi.Prelude.Text.{Text, codes, text_eq}
use flowfi.Indexer.Xdr.{StrKey, ScVal, u64, other, decode_symbol, decode_u64, decode_map}
use flowfi.Indexer.Tables.{Db}
use flowfi.Indexer.Bodies.{Event}
use flowfi.Indexer.Handlers.{
  process_event, process_topics, dispatch, dispatch_topics, dispatch_stream, handle_stream_created,
}
use flowfi.Indexer.Reads.{read_created}
use flowfi.Prelude.JsMap.{lookup}
use flowfi.Indexer.DeadLetters.{
  LetterRow, LetterStore, DeadLetterQuery, undecodable_payload, sort_rows, is_before,
  replay_all_dead_letter_events, list_dead_letter_events, discard_dead_letter_event,
}
use flowfi.Indexer.DeadLetters.Rows.{HasDistinctIds}
use flowfi.Indexer.DeadLetters.Accounts.{IsAccounted, replay_all_dead_letter_events-IsAccounted}

abbrev row : Text → ℕ → ℕ → LetterRow
row id ledger created = record {
  id = id;
  event_id = id;
  event_type = codes "stream_created";
  tx_hash = codes "h";
  ledger_sequence = ledger;
  error_message = undecodable_payload;
  attempts = 1;
  last_attempt_at = 0;
  created_at = created;
  payload = id;
  cursor = none;
}

abbrev tables : Db
tables = record { users = []; streams = []; events = [] }

abbrev store : LetterStore
store = record {
  rows = row (codes "a") 9 1 ∷ row (codes "b") 5 2 ∷ row (codes "c") 5 3 ∷ [];
  db = tables;
  sent = [];
}

-- A creation whose value is no map.
abbrev broken : Event
broken = record {
  id = codes "e";
  ledger = 5;
  tx_hash = codes "h";
  topic = ScVal.sym (codes "stream_created") ∷ u64 1 ∷ [];
  value = other;
  in_successful_contract_call = true;
}

-- The payload "a" is unreadable; the others hold the broken event.
abbrev decode : Text → Option Event
decode payload = if text_eq payload (codes "a") then none else some broken

abbrev query : DeadLetterQuery
query = record {
  page = 1;
  limit = 2;
  ledger_sequence = none;
  start_date = some 2;
  end_date = none;
  event_type = none;
}

newest_first :
    map (λ r. r.id) (list_dead_letter_events query store).items ≡ codes "c" ∷ codes "b" ∷ []
unfolding list_dead_letter_events
newest_first = refl

oldest_ledger_first :
    map (λ r. r.id) (sort_rows is_before store.rows) ≡ codes "b" ∷ codes "c" ∷ codes "a" ∷ []
unfolding sort_rows
oldest_ledger_first = refl

discarded_once : discard_dead_letter_event (codes "x") store ≡ none
unfolding discard_dead_letter_event
discarded_once = refl

abbrev keys : StrKey
keys = record { encode_ed25519_public_key = λ k. b'G' ∷ k; encode_contract = λ h. b'C' ∷ h }

store-HasDistinctIds : HasDistinctIds store.rows
unfolding text_eq
store-HasDistinctIds = ((refl, (refl, tt)), ((refl, tt), (tt, tt)))

replay_all_dead_letter_events-IsAccounted_example :
    IsAccounted store (replay_all_dead_letter_events decode keys 7000 store)
replay_all_dead_letter_events-IsAccounted_example =
    replay_all_dead_letter_events-IsAccounted decode keys 7000 store store-HasDistinctIds

-- The event whose handling fails stays in quarantine, with one attempt more.
broken_again :
    let (result, after) = replay_all_dead_letter_events decode keys 7000 store in
    (result.replayed ≡ 0)
    × (result.failed ≡ 2)
    × (result.undecodable ≡ 1)
    × (map (λ r. r.attempts) after.rows ≡ 2 ∷ 2 ∷ 2 ∷ [])
unfolding replay_all_dead_letter_events process_event process_topics dispatch dispatch_topics
    dispatch_stream text_eq decode_symbol handle_stream_created read_created decode_u64 decode_map
    lookup
broken_again = (refl, refl, refl, refl)

-- An event without a handler is replayed.
abbrev unknown : Event
unknown = record broken { topic = ScVal.sym (codes "other") ∷ [] }

one_replayed : (replay_all_dead_letter_events (λ p. some unknown) keys 7000 store).0.replayed ≡ 3
unfolding replay_all_dead_letter_events process_event process_topics dispatch dispatch_topics
    text_eq decode_symbol
one_replayed = refl
