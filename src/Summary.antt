-- ===== src/Summary.antt =====
-- `getUserStreamSummary` of backend/src/controllers/stream.controller.ts with its cache, over the
-- indexer's tables and through the claimable service. Streams that start at one time are in the
-- order of the table. Logs and a failing database are not modelled.
pub mod Freshness
pub mod Counts
mod Tests
use flowfi.Prelude.{
  ℕ, suc, ◌+◌, ◌/◌, Bool, true, false, not, ◌||◌, Option, none, some, List, [], ◌∷◌, map,
  if◌then◌else◌, ltb, leb, length, take, select, ℤ, pos, ◌+ℤ◌, leb_ℤ,
}
use flowfi.Prelude.Text.{Text, codes, text_eq, trim, big_int, to_string}
use flowfi.Prelude.JsMap.{JsMap, lookup, insert}
use flowfi.MemoryCache.{MemoryCache}
use flowfi.Claimable.{Value, Readings, get_claimable_amount}
use flowfi.Indexer.Tables.{Stream, Db}
use flowfi.Indexer.Reachable.{selected}
use flowfi.Streams.{Reply, sent, refused}

pub record UserStreamSummary : Type 0 where
  pub address : Text
  pub total_streams_created : ℕ
  pub total_streamed_out : Text
  pub total_streamed_in : Text
  pub current_claimable : Text
  pub active_outgoing_count : ℕ
  pub active_incoming_count : ℕ
  pub truncated : Bool

pub record UserSummaryCacheEntry : Type 0 where
  pub value : UserStreamSummary
  pub expires_at_ms : ℕ

abbrev pub user_summary_cache_ttl_ms : ℕ
user_summary_cache_ttl_ms = 30000

abbrev pub max_user_streams : ℕ
max_user_streams = 500

-- The summaries that are kept, and the cache of the claimable service.
pub record SummaryState : Type 0 where
  pub user_summary_cache : JsMap UserSummaryCacheEntry
  pub claimable_cache : MemoryCache Value

-- The readings of the clock for each stream's amount, and when each row was updated.
pub record SummaryEnv : Type 0 where
  pub ttl : ℕ
  pub readings : ℕ → Readings
  pub updated_ms : ℕ → ℕ

unfoldable pub prune_user_summary_cache :
    ℕ → JsMap UserSummaryCacheEntry → JsMap UserSummaryCacheEntry
prune_user_summary_cache now_ms [] = []
prune_user_summary_cache now_ms ((key, entry) ∷ rest) =
    let kept = prune_user_summary_cache now_ms rest in
    if leb entry.expires_at_ms now_ms then kept else (key, entry) ∷ kept

-- The loop of `sumStringI128`: what is no integer is skipped.
unfoldable pub sum_from : ℤ → List Text → ℤ
unfolding big_int ◌+ℤ◌
sum_from total [] = total
sum_from total (value ∷ values) =
    sum_from (elim (big_int value) [ none ↦ total | some n ↦ total +ℤ n ]) values

unfoldable pub sum_string_i128 : List Text → Text
unfolding sum_from to_string
sum_string_i128 values = to_string (sum_from (pos 0) values)

-- `orderBy: { startTime: "desc" }`
unfoldable pub insert_newest : Stream → List Stream → List Stream
insert_newest s [] = s ∷ []
insert_newest s (r ∷ rest) =
    let later = insert_newest s rest in
    if leb_ℤ r.start_time s.start_time then s ∷ r ∷ rest else r ∷ later

unfoldable pub sort_newest : List Stream → List Stream
unfolding insert_newest
sort_newest [] = []
sort_newest (s ∷ rest) = insert_newest s (sort_newest rest)

abbrev pub user_streams : (Stream → Bool) → Db → List Stream
user_streams test db = take max_user_streams (sort_newest (select test db.streams))

module _ (env : SummaryEnv) where
  unfoldable pub claimable_from :
      ℤ → ℤ → List Stream → MemoryCache Value → MemoryCache Value × Option ℤ
  unfolding get_claimable_amount big_int ◌+ℤ◌
  claimable_from calculated_at total [] cache = (cache, some total)
  claimable_from calculated_at total (s ∷ rest) cache =
      let (cache', claimable) =
        get_claimable_amount env.ttl (env.readings s.stream_id)
          (selected (some (pos (env.updated_ms s.stream_id))) s) (some calculated_at) cache in
      elim claimable [
        | none ↦ (cache', none)
        | some r ↦ elim (big_int r.value.claimable_amount) [
          | none ↦ (cache', none)
          | some amount ↦ claimable_from calculated_at (total +ℤ amount) rest cache'
        ]
      ]

  abbrev pub summary_with : Text → List Stream → List Stream → ℤ → UserStreamSummary
  summary_with address outgoing incoming claimable = record {
    address = address;
    total_streams_created = length outgoing;
    total_streamed_out = sum_string_i128 (map (λ s. s.withdrawn_amount) outgoing);
    total_streamed_in = sum_string_i128 (map (λ s. s.withdrawn_amount) incoming);
    current_claimable = to_string claimable;
    active_outgoing_count = length (select (λ s. s.is_active) outgoing);
    active_incoming_count = length (select (λ s. s.is_active) incoming);
    truncated =
        not (ltb (length outgoing) max_user_streams)
        || not (ltb (length incoming) max_user_streams);
  }

  -- The summary that is made for an address if none is kept.
  unfoldable pub user_summary :
      ℕ → Text → Db → MemoryCache Value → MemoryCache Value × Option UserStreamSummary
  unfolding sort_newest claimable_from sum_string_i128 text_eq to_string
  user_summary now_ms address db cache =
      let outgoing = user_streams (λ s. text_eq s.sender address) db in
      let incoming = user_streams (λ s. text_eq s.recipient address) db in
      let (cache', claimable) = claimable_from (pos (now_ms / 1000)) (pos 0) incoming cache in
      elim claimable [
        | none ↦ (cache', none)
        | some total ↦ (cache', some (summary_with address outgoing incoming total))
      ]

  abbrev pub keep_summary :
      ℕ
      → Text
      → JsMap UserSummaryCacheEntry
      → MemoryCache Value × Option UserStreamSummary
      → Reply UserStreamSummary × SummaryState
  keep_summary now_ms address kept (cache, none) = (
    refused 500 (codes "INTERNAL_SERVER_ERROR"),
    record { user_summary_cache = kept; claimable_cache = cache },
  )
  keep_summary now_ms address kept (cache, some summary) = (
    sent 200 summary,
    record {
      user_summary_cache =
          insert address
            (record { value = summary; expires_at_ms = now_ms + user_summary_cache_ttl_ms }) kept;
      claimable_cache = cache;
    },
  )

  abbrev pub make_summary : ℕ → Text → Db → SummaryState → Reply UserStreamSummary × SummaryState
  make_summary now_ms address db state =
      keep_summary now_ms address (prune_user_summary_cache now_ms state.user_summary_cache)
        (user_summary now_ms address db state.claimable_cache)

  unfoldable pub summary_of_address :
      ℕ → Text → Db → SummaryState → Reply UserStreamSummary × SummaryState
  unfolding user_summary lookup insert prune_user_summary_cache
  summary_of_address now_ms [] db state = (refused 400 (codes "INVALID_ADDRESS"), state)
  summary_of_address now_ms (c ∷ key) db state = elim (lookup (c ∷ key) state.user_summary_cache) [
    | none ↦ make_summary now_ms (c ∷ key) db state
    | some entry ↦
        if ltb now_ms entry.expires_at_ms
        then (sent 200 entry.value, state)
        else make_summary now_ms (c ∷ key) db state
  ]

  -- `getUserStreamSummary`
  unfoldable pub get_user_stream_summary :
      ℕ → Text → Db → SummaryState → Reply UserStreamSummary × SummaryState
  unfolding summary_of_address trim
  get_user_stream_summary now_ms raw db state = summary_of_address now_ms (trim raw) db state
