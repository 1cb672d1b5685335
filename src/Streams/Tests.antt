-- ===== src/Streams/Tests.antt =====
-- Requests to the stream endpoints of backend/src/controllers/stream.controller.ts.
use flowfi.Prelude.{
  ℕ, ◌≡◌, refl, arith, true, false, Option, none, some, List, [], ◌∷◌, ℤ, pos, ◌*ℤ◌, ◌-ℤ◌, Bool,
}
use flowfi.Prelude.Text.{Text, codes, text_eq, big_int, to_string}
use flowfi.Claimable.{claimable_amount, parse_i128, answer, cache_key}
use flowfi.Prelude.JsMap.{lookup, insert, erase}
use flowfi.MemoryCache.{get, set}
use flowfi.Runway.Forecast.{empty_cache}
use flowfi.Claimable.Amount.{HasAmounts}
use flowfi.Indexer.Tables.{Stream, Db, find_stream}
use flowfi.Indexer.Reachable.{selected}
use flowfi.Streams.{
  Reply, sent, refused, CreateInput, ChainStream, parse_stream_id, create_stream, reactivate,
}
use flowfi.Streams.TopUp.{Chain, top_up_stream_handler, parse_top_up}
use flowfi.Streams.Answers.{
  ClaimableEnv, ClaimableReply, pause_stream_handler, resume_stream_handler,
  get_stream_claimable_amount,
}
use flowfi.Streams.Withdraw.{ClaimableService, hash, cancel_stream_handler, withdraw_handler}
use flowfi.Streams.Withdrawals.{of_parties}
use flowfi.Streams.Parties.{
  StreamRequest, create, top_up, withdraw, cancel, after_requests, after_requests-Keeps,
}
use flowfi.Streams.Resets.{create_stream_resets}
use flowfi.Streams.TopUps.{Settles, top_up_stream_handler_taken}

-- Stream 7 of GS, cancelled, with 100 deposited and 10 withdrawn, and stream 8 of GT.
abbrev cancelled : Stream
cancelled = record {
  stream_id = 7;
  sender = codes "GS";
  recipient = codes "GR";
  token_address = codes "C";
  rate_per_second = codes "1";
  deposited_amount = codes "100";
  withdrawn_amount = codes "10";
  start_time = pos 1000;
  last_update_time = pos 1000;
  end_time = none;
  is_active = false;
  is_paused = false;
  paused_at = none;
  total_paused_duration = pos 0;
}

abbrev running : Stream
running = record cancelled { stream_id = 8; sender = codes "GT"; is_active = true }

abbrev stored : Db
stored = record { users = []; streams = cancelled ∷ running ∷ []; events = [] }

abbrev input : CreateInput
input = record {
  stream_id = 7;
  sender = codes "GS";
  recipient = codes "GR";
  token_address = codes "C";
  rate_per_second = codes "1";
  deposited_amount = codes "100";
  start_time = 1000;
}

abbrev on_chain : ChainStream
on_chain = record {
  sender = codes "GS";
  recipient = codes "GR";
  token_address = codes "C";
  rate_per_second = codes "1";
  deposited_amount = codes "100";
  start_time = 1000;
}

ids :
    (parse_stream_id (codes " 42 ") ≡ some 42)
    × (parse_stream_id (codes "0x2a") ≡ none)
    × (parse_stream_id (codes "-1") ≡ none)
    × (parse_stream_id [] ≡ none)
unfolding parse_stream_id
ids = (refl, refl, refl, refl)

abbrev reset : Db
reset = record { users = []; streams = reactivate 1050 cancelled ∷ running ∷ []; events = [] }

recreated :
    create_stream 1050 (some (codes "GS")) (some input) (some on_chain) stored
    ≡ (sent 201 (reactivate 1050 cancelled), reset)
unfolding create_stream
recreated = refl

foreign :
    (create_stream 1050 (some (codes "GT")) (some input) (some on_chain) stored
      ≡ (refused 403 (codes "FORBIDDEN"), stored))
    × (create_stream 1050 (some (codes "GS")) (some input) none stored
        ≡ (refused 409 (codes "Stream has not been confirmed on-chain"), stored))
unfolding create_stream
foreign = (refl, refl)

amounts : HasAmounts (selected none cancelled) 1 100 10
unfolding parse_i128 big_int
amounts = record { rate = refl; deposited = refl; withdrawn = refl; covered = omega arith }

is_there : find_stream 7 stored.streams ≡ some cancelled
unfolding find_stream
is_there = refl

create_stream_resets_example :
    (find_stream 7 reset.streams ≡ some (reactivate 1050 cancelled))
    × ((reactivate 1050 cancelled).is_active ≡ true)
    × (claimable_amount (selected none (reactivate 1050 cancelled)) (pos 1050) ≡ some (pos 0))
create_stream_resets_example =
    create_stream_resets 1050 (some (codes "GS")) input (some on_chain) stored reset cancelled
      (reactivate 1050 cancelled) none 1 100 10 (pos 1050) is_there amounts (omega arith) recreated

-- The service just after the start, at second 1050.
abbrev service : ClaimableService
service = record {
  ttl = 5000;
  readings = record { now_ms = pos 1050000; at_get = 0; at_metadata = 0; at_set = 0 };
  updated_at = none;
  cache = empty_cache 0 60000 100;
}

-- Requests of GT: for stream 7, which is not theirs, and for stream 8, which is.
abbrev requests : List (Option Text × StreamRequest)
requests =
    (some (codes "GT"), create 1050 (some input) (some on_chain))
    ∷ (some (codes "GT"), top_up 1050 (codes "8") (codes "5") (some (codes "aa")))
    ∷ (some (codes "GT"), withdraw 1050 (codes "7") service (some (codes "bb")))
    ∷ (some (codes "GT"), cancel (codes "8") (some (codes "S")) (hash (codes "cc")))
    ∷ []

topped :
    find_stream 8 (after_requests requests stored).streams
    ≡ some (record running {
      deposited_amount = codes "105";
      last_update_time = pos 1050;
      is_active = false;
    })
unfolding create_stream top_up_stream_handler withdraw_handler cancel_stream_handler find_stream
topped = refl

-- The recipient takes what 50 seconds have streamed, which is not all that is left.
taken :
    let (reply, after) =
      withdraw_handler 1050
        (some (codes "GR"))
        (codes "8")
        service
        (record { answer = some (codes "bb"); meanwhile = λ t. t })
        stored in
    find_stream 8 after.streams
    ≡ some (record running { withdrawn_amount = codes "60"; last_update_time = pos 1050 })
unfolding withdraw_handler find_stream answer get lookup ◌*ℤ◌ ◌-ℤ◌
taken = refl

-- After 100 seconds it is all, and the stream is no longer active.
taken_whole :
    let (reply, after) =
      withdraw_handler 1100
        (some (codes "GR"))
        (codes "8")
        (record service {
          readings = record { now_ms = pos 1100000; at_get = 0; at_metadata = 0; at_set = 0 };
        })
        (record { answer = some (codes "bb"); meanwhile = λ t. t })
        stored in
    find_stream 8 after.streams
    ≡ some (record running {
      withdrawn_amount = codes "100";
      last_update_time = pos 1100;
      is_active = false;
    })
unfolding withdraw_handler find_stream answer get lookup ◌*ℤ◌ ◌-ℤ◌
taken_whole = refl

after_requests-Keeps_example :
    of_parties (codes "GS") (codes "GR") (find_stream 7 (after_requests requests stored).streams)
    ≡ of_parties (codes "GS") (codes "GR") (find_stream 7 stored.streams)
after_requests-Keeps_example = after_requests-Keeps (codes "GS") (codes "GR") requests stored 7 (
  (λ h. ground arith),
  (λ h. ground arith),
  (
    (λ h. ground arith),
    (λ h. ground arith),
    ((λ h. ground arith), (λ h. ground arith), ((λ h. ground arith), (λ h. ground arith), tt)),
  ),
)

-- While the request waits, the indexer handles the event of the same top-up.
abbrev chain : Chain
chain = record {
  answer = some (codes "aa");
  meanwhile = λ t. record t {
    streams = cancelled ∷ record running { deposited_amount = codes "105" } ∷ [];
  };
}

top_up_stream_handler_taken_example :
    Settles 1050 8
      (codes "aa")
      110
      (record running { deposited_amount = codes "105" })
      (chain.meanwhile stored)
      (top_up_stream_handler 1050 (some (codes "GT")) (codes "8") (codes "5") chain stored)
      true
unfolding parse_stream_id parse_top_up find_stream
top_up_stream_handler_taken_example =
    top_up_stream_handler_taken 1050 (some (codes "GT")) (codes "8") (codes "5") chain stored 8 5
      105 running (record running { deposited_amount = codes "105" }) (codes "aa")
      (record {
        id_parsed = refl;
        amount_parsed = refl;
        positive = omega arith;
        signed = refl;
        found = refl;
        active = refl;
        unpaused = refl;
        taken = refl;
      })
      refl refl

paused :
    (pause_stream_handler (some (codes "GT")) (codes "8") (some (codes "bb")) stored
      ≡ sent 200 (record { stream_id = 8; tx_hash = codes "bb"; stream = running }))
    × (pause_stream_handler (some (codes "GS")) (codes "7") (some (codes "bb")) stored
        ≡ refused 409 (codes "CONFLICT"))
    × (resume_stream_handler (some (codes "GT")) (codes "8") (some (codes "bb")) stored
        ≡ refused 409 (codes "CONFLICT"))
    × (resume_stream_handler none (codes "8") (some (codes "bb")) stored
        ≡ refused 401 (codes "UNAUTHORIZED"))
unfolding pause_stream_handler resume_stream_handler
paused = (refl, refl, refl, refl)

-- A row that is half a minute old is not stale; a later clock makes it so.
abbrev env : ℕ → Option Text → ClaimableEnv
env now_ms answer = record {
  chain_claimable = λ id. answer;
  updated_ms = λ id. 1000000;
  now_ms = now_ms;
  ttl = 5000;
  readings = record { now_ms = pos now_ms; at_get = 0; at_metadata = 0; at_set = 0 };
}

abbrev reply : Bool → Text → ℤ → Reply ClaimableReply
reply from_chain amount at = sent 200 (record {
  stream_id = 8;
  claimable_amount = amount;
  actionable = true;
  calculated_at = at;
  cached = false;
  from_chain = from_chain;
})

abbrev asked : ℕ → Option Text → Text → Option Text → Reply ClaimableReply
unfolding get_stream_claimable_amount
asked now_ms answer id at =
    (get_stream_claimable_amount (env now_ms answer) id at stored (empty_cache 0 0 100)).0

-- A stale row is passed over for the chain, whose answer is for now and not for the time asked for.
claimable :
    (asked 1030000 (some (codes "77")) (codes "8") (some (codes "1020"))
      ≡ reply false (codes "20") (pos 1020))
    × (asked 1030001 (some (codes "77")) (codes "8") (some (codes "1020"))
        ≡ reply true (codes "77") (pos 1030))
    × (asked 1030001 none (codes "8") (some (codes "1020")) ≡ reply false (codes "20") (pos 1020))
    × (asked 1030001 none (codes "9") none ≡ refused 404 (codes "NOT_FOUND"))
    × (asked 1030001 none (codes "8") (some (codes "soon"))
        ≡ refused 400 (codes "INVALID_QUERY_PARAMETER"))
unfolding asked answer get lookup to_string ◌*ℤ◌ ◌-ℤ◌ set insert erase text_eq cache_key
claimable = (refl, refl, refl, refl, refl)
