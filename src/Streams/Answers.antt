-- ===== src/Streams/Answers.antt =====
-- The handlers of backend/src/controllers/stream.controller.ts that answer about one stream and
-- change nothing: `pauseStream`, `resumeStream` and `getStreamClaimableAmount`.
use flowfi.Prelude.{
  ℕ, ◌-◌, ◌/◌, Bool, true, false, not, ◌||◌, Option, none, some, if◌then◌else◌, ltb, ℤ, pos, ltb_ℤ,
}
use flowfi.Prelude.Text.{Text, codes, text_eq, big_int}
use flowfi.MemoryCache.{MemoryCache}
use flowfi.Claimable.{Value, Result, Readings, get_claimable_amount}
use flowfi.Indexer.Tables.{Stream, Db, find_stream}
use flowfi.Indexer.Reachable.{selected}
use flowfi.Payroll.{parse_int}
use flowfi.Streams.{Reply, sent, refused, parse_stream_id, forbidden, internal_error}

pub record PauseReply : Type 0 where
  pub stream_id : ℕ
  pub tx_hash : Text
  pub stream : Stream

abbrev simulated : Text → Option Text → Stream → Reply PauseReply
simulated failure none s = refused 400 failure
simulated failure (some tx_hash) s =
    sent 200 (record { stream_id = s.stream_id; tx_hash = tx_hash; stream = s })

unfoldable pub pause_found : Text → Option Text → Stream → Reply PauseReply
unfolding text_eq
pause_found caller simulation s =
    if not (text_eq s.sender caller)
    then forbidden
    else if s.is_paused || not s.is_active
    then refused 409 (codes "CONFLICT")
    else simulated (codes "PAUSE_FAILED") simulation s

unfoldable pub resume_found : Text → Option Text → Stream → Reply PauseReply
unfolding text_eq
resume_found caller simulation s =
    if not (text_eq s.sender caller)
    then forbidden
    else if not s.is_paused
    then refused 409 (codes "CONFLICT")
    else simulated (codes "RESUME_FAILED") simulation s

-- What the two handlers do before they look at the row; neither changes the tables.
unfoldable pub on_stream :
    (Text → Stream → Reply PauseReply) → Option Text → Text → Db → Reply PauseReply
unfolding parse_stream_id find_stream
on_stream handle none raw_id db = refused 401 (codes "UNAUTHORIZED")
on_stream handle (some caller) raw_id db = elim (parse_stream_id raw_id) [
  | none ↦ refused 400 (codes "INVALID_STREAM_ID")
  | some id ↦ elim (find_stream id db.streams) [
    | none ↦ refused 404 (codes "NOT_FOUND")
    | some s ↦ handle caller s
  ]
]

-- `pauseStream` and `resumeStream`, with the hash that the simulation gives.
unfoldable pub pause_stream_handler : Option Text → Text → Option Text → Db → Reply PauseReply
unfolding on_stream pause_found
pause_stream_handler user raw_id simulation db =
    on_stream (λ caller s. pause_found caller simulation s) user raw_id db

unfoldable pub resume_stream_handler : Option Text → Text → Option Text → Db → Reply PauseReply
unfolding on_stream resume_found
resume_stream_handler user raw_id simulation db =
    on_stream (λ caller s. resume_found caller simulation s) user raw_id db

pub record ClaimableReply : Type 0 where
  pub stream_id : ℕ
  pub claimable_amount : Text
  pub actionable : Bool
  pub calculated_at : ℤ
  pub cached : Bool
  pub from_chain : Bool

-- `at`, if it is given, is a natural number.
abbrev pub requested_at : Option Text → Option (Option ℤ)
requested_at none = some none
requested_at (some text) = elim (parse_int text) [ some (pos n) ↦ some (some (pos n)) | _ ↦ none ]

unfoldable pub from_chain : ℕ → ℕ → Text → Reply ClaimableReply
unfolding big_int
from_chain now_seconds id claimable = elim (big_int claimable) [
  | none ↦ internal_error
  | some amount ↦ sent 200 (record {
    stream_id = id;
    claimable_amount = claimable;
    actionable = ltb_ℤ (pos 0) amount;
    calculated_at = pos now_seconds;
    cached = false;
    from_chain = true;
  })
]

abbrev from_service : ℕ → Option Result → Reply ClaimableReply
from_service id none = internal_error
from_service id (some r) = sent 200 (record {
  stream_id = id;
  claimable_amount = r.value.claimable_amount;
  actionable = r.value.actionable;
  calculated_at = r.value.calculated_at;
  cached = r.cached;
  from_chain = false;
})

abbrev stale_threshold_ms : ℕ
stale_threshold_ms = 30000

-- `isStale`, for times in milliseconds.
abbrev pub is_stale : ℕ → ℕ → Bool
is_stale now_ms updated_ms = ltb stale_threshold_ms (now_ms - updated_ms)

-- What the chain says of what is claimable, `none` if it does not answer; the time of the row's
-- update; and the readings of the clock.
pub record ClaimableEnv : Type 0 where
  pub chain_claimable : ℕ → Option Text
  pub updated_ms : ℕ → ℕ
  pub now_ms : ℕ
  pub ttl : ℕ
  pub readings : Readings

module _ (env : ClaimableEnv) where
  abbrev by_service :
      ℕ → Stream → Option ℤ → MemoryCache Value → Reply ClaimableReply × MemoryCache Value
  by_service id s at cache =
      let (cache', answer) =
        get_claimable_amount env.ttl env.readings (selected (some (pos (env.updated_ms id))) s) at
          cache in
      (from_service id answer, cache')

  unfoldable pub claimable_of :
      ℕ → Option Stream → Option ℤ → MemoryCache Value → Reply ClaimableReply × MemoryCache Value
  unfolding from_chain get_claimable_amount
  claimable_of id none at cache = elim (env.chain_claimable id) [
    | none ↦ (refused 404 (codes "NOT_FOUND"), cache)
    | some amount ↦ (from_chain (env.now_ms / 1000) id amount, cache)
  ]
  claimable_of id (some s) at cache =
      if is_stale env.now_ms (env.updated_ms id)
      then elim (env.chain_claimable id) [
        | none ↦ by_service id s at cache
        | some amount ↦ (from_chain (env.now_ms / 1000) id amount, cache)
      ]
      else by_service id s at cache

  -- `getStreamClaimableAmount`
  unfoldable pub get_stream_claimable_amount :
      Text → Option Text → Db → MemoryCache Value → Reply ClaimableReply × MemoryCache Value
  unfolding claimable_of parse_stream_id find_stream parse_int
  get_stream_claimable_amount raw_id at db cache = elim (parse_stream_id raw_id) [
    | none ↦ (refused 400 (codes "INVALID_STREAM_ID"), cache)
    | some id ↦ elim (requested_at at) [
      | none ↦ (refused 400 (codes "INVALID_QUERY_PARAMETER"), cache)
      | some time ↦ claimable_of id (find_stream id db.streams) time cache
    ]
  ]
