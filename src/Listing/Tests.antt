-- ===== src/Listing/Tests.antt =====
-- Lists of streams, backend/src/repositories/stream.repository.ts and
-- backend/src/controllers/stream.controller.ts.
use flowfi.Prelude.{
  ℕ, zero, suc, ltb, ◌≡◌, refl, arith, true, false, Bool, Option, none, some, List, [], ◌∷◌, pos,
}
use flowfi.Prelude.Text.{Text, codes, text_eq, is_space}
use flowfi.Indexer.Tables.{Stream, Db}
use flowfi.Streams.{Reply, sent, refused}
use flowfi.Listing.{
  FindStreamsParams, FindStreamsResult, ListQuery, Ordering, created_at, paused_status,
  find_streams, selected_streams, list_streams, parsed_limit,
}
use mathlib.Core.List.{reverse}
use flowfi.Listing.Order.{Permutes, IsSorted, IsAsymmetric, nothing, placed, here}
use flowfi.Listing.Walk.{walk, find_streams_walk}

abbrev stream : ℕ → Bool → Bool → Stream
stream id active paused = record {
  stream_id = id;
  sender = codes "GS";
  recipient = codes "GR";
  token_address = codes "C";
  rate_per_second = codes "1";
  deposited_amount = codes "100";
  withdrawn_amount = codes "10";
  start_time = pos 1000;
  last_update_time = pos 1000;
  end_time = none;
  is_active = active;
  is_paused = paused;
  paused_at = none;
  total_paused_duration = pos 0;
}

abbrev one : Stream
one = stream 1 true false

abbrev two : Stream
two = stream 2 true true

abbrev three : Stream
three = stream 3 false true

abbrev stored : Db
stored = record { users = []; streams = one ∷ two ∷ three ∷ []; events = [] }

-- The order of the table.
abbrev order : Ordering
order field ascending rows = rows

abbrev query : Option Text → Option Text → Option Text → ListQuery
query status limit offset = record {
  sender = some (codes "GS");
  recipient = none;
  status = status;
  token = none;
  sort = none;
  order = none;
  limit = limit;
  offset = offset;
}

abbrev listed : List Stream → ℕ → Bool → Reply FindStreamsResult
listed streams total has_more =
    sent 200 (record { streams = streams; total = total; has_more = has_more })

-- A negative limit takes rows from the end, and a stream that was cancelled while it was paused
-- still counts as paused.
lists :
    (list_streams order (query none (some (codes "2")) none) stored
      ≡ listed (one ∷ two ∷ []) 3 true)
    × (list_streams order (query none (some (codes "-1")) none) stored ≡ listed (three ∷ []) 3 true)
    × (list_streams order (query (some (codes "paused")) none (some (codes "1"))) stored
        ≡ listed (three ∷ []) 2 false)
    × (list_streams order (query (some (codes "done")) none none) stored
        ≡ refused 400 (codes "INVALID_STATUS"))
    × (parsed_limit (some (codes "1000")) ≡ pos 100)
    × (parsed_limit (some (codes "0")) ≡ pos 20)
unfolding list_streams text_eq is_space
lists = (refl, refl, refl, refl, refl, refl)

abbrev params : FindStreamsParams
params = record {
  status = some paused_status;
  sender = none;
  recipient = none;
  token_address = none;
  limit = pos 1;
  offset = 0;
  sort_field = created_at;
  ascending = true;
}

walked : walk (λ at. order) params stored 4 0 ≡ some (two ∷ three ∷ [])
unfolding walk
walked = refl

-- The tied rows of two queries stand in different orders: one is seen twice and one is missed.
abbrev unstable : ℕ → Ordering
unstable zero field ascending rows = rows
unstable (suc at) field ascending rows = reverse rows

missed : walk unstable params stored 4 0 ≡ some (two ∷ two ∷ [])
unfolding walk
missed = refl

abbrev before : Stream → Stream → Bool
before a b = ltb a.stream_id b.stream_id

before-IsAsymmetric : IsAsymmetric before
before-IsAsymmetric a b h = ground (arith, h)

ordered :
    Permutes (selected_streams params stored) (two ∷ three ∷ [])
    × IsSorted before (two ∷ three ∷ [])
unfolding find_streams
ordered = (placed (placed nothing here) here, ((refl, tt), (tt, tt)))

find_streams_walk_example :
    (seen : List Stream) × (walk (λ at. order) params stored 3 0 ≡ some seen)
    × Permutes (selected_streams params stored) seen
    × IsSorted before seen
unfolding find_streams
find_streams_walk_example =
    find_streams_walk before (λ at. order) params stored 0 3 before-IsAsymmetric (λ at. ordered.0)
      (λ at. ordered.1) refl (omega arith)
