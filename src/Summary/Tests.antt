-- ===== src/Summary/Tests.antt =====
-- Requests for a user's summary, backend/src/controllers/stream.controller.ts.
use flowfi.Prelude.{ℕ, ◌≡◌, refl, arith, true, false, none, some, [], ◌∷◌, pos, ◌+ℤ◌, ◌-ℤ◌, ◌*ℤ◌}
use flowfi.Prelude.Text.{Text, codes, text_eq, big_int, to_string, trim}
use flowfi.Prelude.JsMap.{lookup, insert, erase}
use flowfi.MemoryCache.{get, set}
use flowfi.Claimable.{answer, cache_key}
use flowfi.Runway.Forecast.{empty_cache}
use flowfi.Indexer.Tables.{Stream, Db}
use flowfi.Streams.{Reply, sent, refused}
use flowfi.Summary.{
  UserStreamSummary, SummaryState, SummaryEnv, user_summary, get_user_stream_summary,
}
use flowfi.Summary.Freshness.{HasMade, IsFresh, get_user_stream_summary-IsFresh}
use flowfi.Summary.Counts.{Tells, sent_by, received_by, user_summary-Tells}

abbrev stream : Stream
stream = record {
  stream_id = 7;
  sender = codes "GS";
  recipient = codes "GR";
  token_address = codes "C";
  rate_per_second = codes "1";
  deposited_amount = codes "100";
  withdrawn_amount = codes "10";
  start_time = pos 1000;
  last_update_time = pos 1000;
  end_time = none;
  is_active = true;
  is_paused = false;
  paused_at = none;
  total_paused_duration = pos 0;
}

abbrev ended : Stream
ended = record stream { stream_id = 8; is_active = false; withdrawn_amount = codes "100" }

abbrev stored : Db
stored = record { users = []; streams = stream ∷ ended ∷ []; events = [] }

abbrev env : SummaryEnv
env = record {
  ttl = 5000;
  readings = λ id. record { now_ms = pos 0; at_get = 0; at_metadata = 0; at_set = 0 };
  updated_ms = λ id. 0;
}

abbrev idle : SummaryState
idle = record { user_summary_cache = []; claimable_cache = empty_cache 0 0 100 }

abbrev summary : UserStreamSummary
summary = record {
  address = codes "GR";
  total_streams_created = 0;
  total_streamed_out = codes "0";
  total_streamed_in = codes "110";
  current_claimable = codes "40";
  active_outgoing_count = 0;
  active_incoming_count = 1;
  truncated = false;
}

abbrev asked : ℕ → Text → Db → SummaryState → Reply UserStreamSummary × SummaryState
unfolding get_user_stream_summary
asked now raw db state = get_user_stream_summary env now raw db state

abbrev once : SummaryState
unfolding asked
once = (asked 1040000 (codes " GR ") stored idle).1

-- A summary is made, given again for thirty seconds whatever the tables are, and made anew then.
summaries :
    ((asked 1040000 (codes " GR ") stored idle).0 ≡ sent 200 summary)
    × ((asked 1069999 (codes "GR") (record stored { streams = [] }) once).0 ≡ sent 200 summary)
    × ((asked 1070000 (codes "GR") stored once).0
        ≡ sent 200 (record summary { current_claimable = codes "70" }))
    × ((asked 1040000 (codes "  ") stored idle).0 ≡ refused 400 (codes "INVALID_ADDRESS"))
unfolding asked once answer get lookup to_string big_int ◌*ℤ◌ ◌-ℤ◌ ◌+ℤ◌ set insert erase text_eq
    cache_key trim
summaries = (refl, refl, refl, refl)

-- The tables are the same at all times.
abbrev Was : ℕ → Db → Type 0
Was at db = db ≡ stored

get_user_stream_summary-IsFresh_example :
    IsFresh Was 1040000
      (trim (codes " GR "))
      (get_user_stream_summary env 1040000 (codes " GR ") stored idle).0
    × HasMade Was 1040000 (get_user_stream_summary env 1040000 (codes " GR ") stored idle).1
get_user_stream_summary-IsFresh_example =
    get_user_stream_summary-IsFresh Was env 0 1040000 (codes " GR ") stored idle refl (omega arith)
      tt

made : (user_summary env 1040000 (codes "GR") stored (empty_cache 0 0 100)).1 ≡ some summary
unfolding user_summary answer get lookup to_string big_int ◌*ℤ◌ ◌-ℤ◌ ◌+ℤ◌ set insert erase text_eq
    cache_key
made = refl

user_summary-Tells_example :
    Tells summary (codes "GR") (sent_by (codes "GR") stored) (received_by (codes "GR") stored)
user_summary-Tells_example =
    user_summary-Tells env 1040000 (codes "GR") stored (empty_cache 0 0 100) summary made refl
