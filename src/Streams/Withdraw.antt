-- ===== src/Streams/Withdraw.antt =====
-- `withdrawHandler` of backend/src/routes/v1/streams/withdraw.ts and `cancelStreamHandler` of
-- backend/src/controllers/stream/cancel.ts, with the middleware that asks for a caller. What the
-- cache of claimable amounts holds, what the chain answers, and what other requests do to the tables
-- while an answer is awaited are arguments. What a call leaves in that cache is not kept.
use flowfi.Prelude.{
  ℕ, Bool, true, false, not, Option, none, some, [], ◌∷◌, if◌then◌else◌, ℤ, pos, ◌+ℤ◌, leb_ℤ,
}
use flowfi.Prelude.Text.{Text, codes, text_eq, big_int, to_string}
use flowfi.MemoryCache.{MemoryCache}
use flowfi.Claimable.{Value, Result, Readings, get_claimable_amount}
use flowfi.Indexer.Reachable.{selected}
use flowfi.Indexer.Xdr.{ok, err}
use flowfi.Indexer.Tables.{
  Stream, StreamEvent, withdrawn, str, Db, find_stream, replace_stream, update_stream, upsert_event,
}
use flowfi.Streams.{
  Reply, sent, refused, parse_stream_id, signed_in, forbidden, internal_error, as_bigint,
}
use flowfi.Streams.TopUp.{Chain, ◌>>=◌}

abbrev pub withdrawal_failed : {A : Type 0} → Reply A
withdrawal_failed = refused 400 (codes "WITHDRAWAL_FAILED")

pub record WithdrawReply : Type 0 where
  pub stream_id : ℕ
  pub tx_hash : Text
  pub amount : Text
  pub stream : Option Stream

-- `("withdrawnAmount"::bigint + $1::bigint)::text`; `none` is an error of the statement, or of the
-- `BigInt` of the amount before it.
unfoldable pub add_withdrawn : Text → Text → Option Text
unfolding big_int to_string ◌+ℤ◌
add_withdrawn held amount = do
  value ← big_int held
  left ← as_bigint value
  more ← big_int amount
  right ← as_bigint more
  sum ← as_bigint (left +ℤ right)
  some (to_string sum)

abbrev pub withdraw_row : ℕ → Text → Stream → Stream
withdraw_row now total s = record s { withdrawn_amount = total; last_update_time = pos now }

-- Whether a row that was active before is used up; `none` is an amount that is no number.
unfoldable pub is_used_up : Bool → Stream → Option Bool
unfolding big_int
is_used_up false refreshed = some false
is_used_up true refreshed = do
  taken ← big_int refreshed.withdrawn_amount
  deposited ← big_int refreshed.deposited_amount
  some (leb_ℤ deposited taken)

abbrev pub close_row : Bool → Stream → Stream
close_row used_up s = if used_up then record s { is_active = false } else s

-- The transaction, with the row that it reads again; `none` is an error, after which all is as
-- before.
unfoldable pub withdraw_transaction : ℕ → ℕ → Text → Bool → Db → Option (Option Stream × Db)
unfolding find_stream replace_stream add_withdrawn is_used_up
withdraw_transaction now id amount was_active db = elim (find_stream id db.streams) [
  | none ↦ some (none, db)
  | some s ↦ do
    total ← add_withdrawn s.withdrawn_amount amount
    used_up ← is_used_up was_active (withdraw_row now total s)
    some (
      some (close_row used_up (withdraw_row now total s)),
      record db {
        streams =
            replace_stream id (λ row. close_row used_up (withdraw_row now total row)) db.streams;
      },
    )
]

abbrev pub withdrawn_event : ℕ → ℕ → Text → Text → Text → StreamEvent
withdrawn_event now id amount tx_hash caller = record {
  stream_id = id;
  event_type = withdrawn;
  amount = some amount;
  transaction_hash = tx_hash;
  ledger_sequence = 0;
  timestamp = pos now;
  metadata = (codes "withdrawnBy", str caller) ∷ [];
}

-- The event after the transaction, which stays as it is where it is there.
unfoldable pub note_withdrawal :
    ℕ → ℕ → Text → Text → Text → Option Stream → Db → Reply WithdrawReply × Db
unfolding upsert_event
note_withdrawal now id amount tx_hash caller refreshed db =
    elim (upsert_event (withdrawn_event now id amount tx_hash caller) (λ e. e) db) [
      | err error ↦ (withdrawal_failed, db)
      | ok after ↦ (
        sent 200
            (record { stream_id = id; tx_hash = tx_hash; amount = amount; stream = refreshed }),
        after,
      )
    ]

unfoldable pub store_withdrawal : ℕ → ℕ → Text → Text → Text → Bool → Db → Reply WithdrawReply × Db
unfolding withdraw_transaction note_withdrawal
store_withdrawal now id amount tx_hash caller was_active db =
    elim (withdraw_transaction now id amount was_active db) [
      | none ↦ (withdrawal_failed, db)
      | some (refreshed, after) ↦ note_withdrawal now id amount tx_hash caller refreshed after
    ]

unfoldable pub submit_withdrawal :
    ℕ → ℕ → Text → Text → Bool → Chain → Db → Reply WithdrawReply × Db
unfolding store_withdrawal
submit_withdrawal now id amount caller was_active chain db = elim chain.answer [
  | none ↦ (withdrawal_failed, chain.meanwhile db)
  | some tx_hash ↦ store_withdrawal now id amount tx_hash caller was_active (chain.meanwhile db)
]

unfoldable pub withdraw_found :
    ℕ → Text → ℕ → Stream → Option Result → Chain → Db → Reply WithdrawReply × Db
unfolding submit_withdrawal text_eq
withdraw_found now caller id s claimable chain db =
    if not (text_eq s.recipient caller) then (forbidden, db) else elim claimable [
      | none ↦ (internal_error, db)
      | some result ↦
          if not result.value.actionable
          then (refused 409 (codes "CONFLICT"), db)
          else submit_withdrawal now id result.value.claimable_amount caller s.is_active chain db
    ]

-- What the service of claimable amounts works with: its time to live, the clock, the time of the
-- row's update, and what is cached.
pub record ClaimableService : Type 0 where
  pub ttl : ℕ
  pub readings : Readings
  pub updated_at : Option ℤ
  pub cache : MemoryCache Value

abbrev pub claimable_now : ClaimableService → Stream → Option Result
claimable_now service s =
    (get_claimable_amount service.ttl service.readings (selected service.updated_at s) none
      service.cache).1

-- `withdrawHandler`
unfoldable pub withdraw_handler :
    ℕ → Option Text → Text → ClaimableService → Chain → Db → Reply WithdrawReply × Db
unfolding withdraw_found find_stream parse_stream_id get_claimable_amount
withdraw_handler now user raw_id service chain db = elim (signed_in user) [
  | none ↦ (refused 401 (codes "UNAUTHORIZED"), db)
  | some caller ↦ elim (parse_stream_id raw_id) [
    | none ↦ (refused 400 (codes "INVALID_STREAM_ID"), db)
    | some id ↦ elim (find_stream id db.streams) [
      | none ↦ (refused 404 (codes "NOT_FOUND"), db)
      | some s ↦ withdraw_found now caller id s (claimable_now service s) chain db
    ]
  ]
]

-- What `cancelStream` of the chain does: a hash, or an error, of the simulation or another.
pub data Cancelling : Type 0 where
  hash : Text → Cancelling
  simulation_failed cancelling_failed : Cancelling

abbrev pub cancel_row : Stream → Stream
cancel_row s = record s { is_active = false }

-- `updateStatus(id, 'CANCELLED')` and the answer.
unfoldable pub store_cancel : ℕ → Text → Db → Reply Text × Db
unfolding update_stream
store_cancel id tx_hash db = elim (update_stream id cancel_row db) [
  | err error ↦ (internal_error, db)
  | ok after ↦ (sent 200 tx_hash, after)
]

unfoldable pub submit_cancel : ℕ → Cancelling → (Db → Db) → Db → Reply Text × Db
unfolding store_cancel
submit_cancel id (hash tx_hash) meanwhile db = store_cancel id tx_hash (meanwhile db)
submit_cancel id simulation_failed meanwhile db =
    (refused 400 (codes "TRANSACTION_SIMULATION_FAILED"), meanwhile db)
submit_cancel id cancelling_failed meanwhile db = (internal_error, meanwhile db)

-- A secret that is no text or empty is missing.
abbrev pub has_secret : Option Text → Bool
has_secret none = false
has_secret (some []) = false
has_secret (some (c ∷ secret)) = true

unfoldable pub cancel_found :
    Text → ℕ → Option Text → Stream → Cancelling → (Db → Db) → Db → Reply Text × Db
unfolding submit_cancel text_eq
cancel_found caller id secret s answer meanwhile db =
    if not (text_eq s.sender caller)
    then (forbidden, db)
    else if not s.is_active
    then (refused 409 (codes "CONFLICT"), db)
    else if not (has_secret secret)
    then (refused 400 (codes "INVALID_REQUEST"), db)
    else submit_cancel id answer meanwhile db

-- `!streamId`, before the id is parsed.
unfoldable pub parse_present : Text → Reply Text × Option ℕ
unfolding parse_stream_id
parse_present [] = (refused 400 (codes "MISSING_STREAM_ID"), none)
parse_present (c ∷ raw) = (refused 400 (codes "INVALID_STREAM_ID"), parse_stream_id (c ∷ raw))

-- `cancelStreamHandler`
unfoldable pub cancel_stream_handler :
    Option Text → Text → Option Text → Cancelling → (Db → Db) → Db → Reply Text × Db
unfolding cancel_found find_stream parse_present
cancel_stream_handler user raw_id secret answer meanwhile db = elim (signed_in user) [
  | none ↦ (refused 401 (codes "UNAUTHORIZED"), db)
  | some caller ↦
      let (refusal, parsed) = parse_present raw_id in
      elim parsed [
        | none ↦ (refusal, db)
        | some id ↦ elim (find_stream id db.streams) [
          | none ↦ (refused 404 (codes "NOT_FOUND"), db)
          | some s ↦ cancel_found caller id secret s answer meanwhile db
        ]
      ]
]
