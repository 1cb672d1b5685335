-- ===== src/Streams/TopUp.antt =====
-- `topUpStreamHandler` of backend/src/controllers/stream.controller.ts. What the
-- chain answers and what other requests do to the tables while an answer is awaited are arguments.
-- A deposit is taken to be written in decimal.
use flowfi.Prelude.{
  ℕ, not, ◌&&◌, ◌||◌, Option, none, some, if◌then◌else◌, ◌==◌, leb, length, pos, ◌+ℤ◌,
}
use flowfi.Prelude.Text.{Text, codes, text_eq, big_int, to_string}
use flowfi.Indexer.Tables.{Stream, Db, find_stream, replace_stream}
use flowfi.Streams.{
  Reply, sent, refused, all_digits, natural_text, natural_value, parse_stream_id, signed_in,
  forbidden, as_bigint,
}

-- `.max(30)` and `/^\d+$/` on the amount of a top-up.
unfoldable pub parse_top_up : Text → Option ℕ
unfolding all_digits big_int
parse_top_up amount =
    if natural_text amount && leb (length amount) 30 then natural_value (big_int amount) else none

abbrev pub top_up_failed : {A : Type 0} → Reply A
top_up_failed = refused 400 (codes "TOP_UP_FAILED")

infixl 5 ◌>>=◌
abbrev pub ◌>>=◌ : {A B : Type 0} (m : Option A) (next : A → Option B) → Option B
none >>= next = none
some value >>= next = next value

-- `("depositedAmount"::bigint + $1::bigint)::text`; `none` is an error of the statement.
unfoldable pub add_bigint : Text → ℕ → Option Text
unfolding big_int to_string ◌+ℤ◌
add_bigint deposited amount = do
  value ← big_int deposited
  left ← as_bigint value
  right ← as_bigint (pos amount)
  sum ← as_bigint (left +ℤ right)
  some (to_string sum)

abbrev pub deposit : ℕ → Text → Stream → Stream
deposit now total s = record s { deposited_amount = total; last_update_time = pos now }

pub record TopUpReply : Type 0 where
  pub stream_id : ℕ
  pub tx_hash : Text
  pub deposited_amount : Text

-- The `UPDATE` after the transaction. A row that is gone by then leaves nothing to report.
unfoldable pub store_top_up : ℕ → ℕ → ℕ → Text → Db → Reply TopUpReply × Db
unfolding find_stream replace_stream add_bigint
store_top_up now id amount tx_hash db = elim (find_stream id db.streams) [
  | none ↦ (top_up_failed, db)
  | some s ↦ elim (add_bigint s.deposited_amount amount) [
    | none ↦ (top_up_failed, db)
    | some total ↦ (
      sent 200 (record { stream_id = id; tx_hash = tx_hash; deposited_amount = total }),
      record db { streams = replace_stream id (deposit now total) db.streams },
    )
  ]
]

-- What the tables are after the wait for the chain, and its answer.
pub record Chain : Type 0 where
  pub answer : Option Text
  pub meanwhile : Db → Db

unfoldable pub submit_top_up : ℕ → ℕ → ℕ → Chain → Db → Reply TopUpReply × Db
unfolding store_top_up
submit_top_up now id amount chain db = elim chain.answer [
  | none ↦ (top_up_failed, chain.meanwhile db)
  | some tx_hash ↦ store_top_up now id amount tx_hash (chain.meanwhile db)
]

unfoldable pub top_up_found : ℕ → Text → ℕ → ℕ → Stream → Chain → Db → Reply TopUpReply × Db
unfolding submit_top_up text_eq
top_up_found now caller id amount s chain db =
    if not (text_eq s.sender caller)
    then (forbidden, db)
    else if not s.is_active || s.is_paused
    then (refused 409 (codes "CONFLICT"), db)
    else submit_top_up now id amount chain db

unfoldable pub top_up_parsed : ℕ → Option Text → ℕ → ℕ → Chain → Db → Reply TopUpReply × Db
unfolding top_up_found find_stream
top_up_parsed now user id amount chain db =
    if amount == 0 then (refused 400 (codes "INVALID_AMOUNT"), db) else elim (signed_in user) [
      | none ↦ (refused 401 (codes "UNAUTHORIZED"), db)
      | some caller ↦ elim (find_stream id db.streams) [
        | none ↦ (refused 404 (codes "NOT_FOUND"), db)
        | some s ↦ top_up_found now caller id amount s chain db
      ]
    ]

-- `topUpStreamHandler`
unfoldable pub top_up_stream_handler :
    ℕ → Option Text → Text → Text → Chain → Db → Reply TopUpReply × Db
unfolding top_up_parsed parse_stream_id parse_top_up
top_up_stream_handler now user raw_id raw_amount chain db = elim (parse_stream_id raw_id) [
  | none ↦ (refused 400 (codes "INVALID_STREAM_ID"), db)
  | some id ↦ elim (parse_top_up raw_amount) [
    | none ↦ (refused 400 (codes "VALIDATION_ERROR"), db)
    | some amount ↦ top_up_parsed now user id amount chain db
  ]
]
