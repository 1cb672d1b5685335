-- ===== src/Indexer/Processing.antt =====
-- Every event that the indexer processes leaves tables that hold together.
use flowfi.Prelude.{ℕ, Bool, true, false, List, [], ◌∷◌, if◌then◌else◌}
use flowfi.Prelude.Text.{Text, codes, text_eq}
use flowfi.Indexer.Xdr.{Outcome, ScVal, StrKey, decode_symbol}
use flowfi.Indexer.Tables.{Db}
use flowfi.Indexer.Bodies.{Event}
use flowfi.Indexer.Reads.{
  read_created, read_topped_up, read_withdrawn, read_cancelled, read_completed, read_fee,
  read_paused, read_resumed, read_fee_config, read_admin,
}
use flowfi.Indexer.Handlers.{
  Broadcast, finish, handle_stream_created, handle_stream_topped_up, handle_tokens_withdrawn,
  handle_stream_paused, handle_stream_resumed, handle_stream_cancelled, handle_stream_completed,
  handle_fee_collected, dispatch_stream, handle_fee_config_updated, handle_admin_transferred,
  dispatch_topics, dispatch, process_topics, process_event,
}
use flowfi.Indexer.Post.{Post, then_post, then_any}
use flowfi.Indexer.Amounts.{
  read_created-IsInteger, read_topped_up-IsInteger, read_cancelled-IsInteger,
  read_completed-IsInteger,
}
use flowfi.Indexer.Validity.{IsValid}
use flowfi.Indexer.Preservation.{
  created_tx-IsValid, topped_up_tx-IsValid, withdrawn_tx-IsValid, cancelled_tx-IsValid,
  completed_tx-IsValid, fee_tx-IsValid, paused_tx-IsValid, resumed_tx-IsValid,
  fee_config_tx-IsValid, admin_tx-IsValid,
}

-- The tables of a handler's result.
abbrev KeepsValid : Outcome (Db × List Broadcast) → Type 0
KeepsValid o = Post o (λ r. IsValid r.0)

finish-IsValid : (tx : Outcome Db) (m : Broadcast) → Post tx IsValid → KeepsValid (finish tx m)
finish-IsValid tx m h = then_post _ tx _ h (λ db v. v)

if-KeepsValid :
    (b : Bool) (x y : Outcome (Db × List Broadcast))
    → KeepsValid x
    → KeepsValid y
    → KeepsValid (if b then x else y)
if-KeepsValid true x y p q = p
if-KeepsValid false x y p q = q

module _ (k : StrKey) (now : ℕ) (e : Event) (db : Db) (h : IsValid db) where
  module _ (topic1 : ScVal) where
    created-IsValid : KeepsValid (handle_stream_created k now e topic1 db)
    unfolding handle_stream_created
    created-IsValid =
        then_post _ (read_created k e.value topic1) _ (read_created-IsInteger k e.value topic1)
          (λ b (rate, deposited).
            finish-IsValid _ _ (created_tx-IsValid now e db h b rate deposited))

    topped_up-IsValid : KeepsValid (handle_stream_topped_up k now e topic1 db)
    unfolding handle_stream_topped_up
    topped_up-IsValid =
        then_post _ (read_topped_up e.value topic1) _ (read_topped_up-IsInteger k e.value topic1)
          (λ b d. finish-IsValid _ _ (topped_up_tx-IsValid now e db h b d))

    withdrawn-IsValid : KeepsValid (handle_tokens_withdrawn k now e topic1 db)
    unfolding handle_tokens_withdrawn
    withdrawn-IsValid =
        then_any _ (read_withdrawn k e.value topic1) _
          (λ b. finish-IsValid _ _ (withdrawn_tx-IsValid now e db h b))

    cancelled-IsValid : KeepsValid (handle_stream_cancelled k now e topic1 db)
    unfolding handle_stream_cancelled
    cancelled-IsValid =
        then_post _ (read_cancelled e.value topic1) _ (read_cancelled-IsInteger k e.value topic1)
          (λ b w. finish-IsValid _ _ (cancelled_tx-IsValid now e db h b w))

    completed-IsValid : KeepsValid (handle_stream_completed k now e topic1 db)
    unfolding handle_stream_completed
    completed-IsValid =
        then_post _ (read_completed k e.value topic1) _ (read_completed-IsInteger k e.value topic1)
          (λ b t. finish-IsValid _ _ (completed_tx-IsValid now e db h b t))

    paused-IsValid : KeepsValid (handle_stream_paused k now e topic1 db)
    unfolding handle_stream_paused
    paused-IsValid =
        then_any _ (read_paused k e.value topic1) _
          (λ b. finish-IsValid _ _ (paused_tx-IsValid now e db h b))

    resumed-IsValid : KeepsValid (handle_stream_resumed k now e topic1 db)
    unfolding handle_stream_resumed
    resumed-IsValid =
        then_any _ (read_resumed k e.value topic1) _
          (λ b. finish-IsValid _ _ (resumed_tx-IsValid now e db h b))

    fee-IsValid : KeepsValid (handle_fee_collected k now e topic1 db)
    unfolding handle_fee_collected
    fee-IsValid =
        then_any _ (read_fee k e.value topic1) _
          (λ b. finish-IsValid _ _ (fee_tx-IsValid now e db h b))

    dispatch_stream-IsValid : (name : Text) → KeepsValid (dispatch_stream k now e topic1 db name)
    unfolding dispatch_stream
    dispatch_stream-IsValid name =
        if-KeepsValid (text_eq name (codes "stream_created")) _ _ created-IsValid (
          if-KeepsValid (text_eq name (codes "stream_topped_up")) _ _ topped_up-IsValid (
            if-KeepsValid (text_eq name (codes "tokens_withdrawn")) _ _ withdrawn-IsValid (
              if-KeepsValid (text_eq name (codes "stream_paused")) _ _ paused-IsValid (
                if-KeepsValid (text_eq name (codes "stream_resumed")) _ _ resumed-IsValid (
                  if-KeepsValid (text_eq name (codes "stream_cancelled")) _ _ cancelled-IsValid (
                    if-KeepsValid (text_eq name (codes "stream_completed")) _ _ completed-IsValid
                      (if-KeepsValid (text_eq name (codes "fee_collected")) _ _ fee-IsValid h)))))))

  fee_config-IsValid : KeepsValid (handle_fee_config_updated k now e db)
  unfolding handle_fee_config_updated
  fee_config-IsValid =
      then_any _ (read_fee_config k e.value) _
        (λ b. finish-IsValid _ _ (fee_config_tx-IsValid now e db h b))

  admin-IsValid : KeepsValid (handle_admin_transferred k now e db)
  unfolding handle_admin_transferred
  admin-IsValid =
      then_any _ (read_admin k e.value) _ (λ b. finish-IsValid _ _ (admin_tx-IsValid now e db h b))

  dispatch_topics-IsValid :
      (name : Text) (topics : List ScVal) → KeepsValid (dispatch_topics k now e db name topics)
  unfolding dispatch_topics
  dispatch_topics-IsValid name [] = h
  dispatch_topics-IsValid name (topic1 ∷ more) = dispatch_stream-IsValid topic1 name

  process_topics-IsValid : (topics : List ScVal) → KeepsValid (process_topics k now e db topics)
  unfolding process_topics dispatch
  process_topics-IsValid [] = h
  process_topics-IsValid (topic0 ∷ topics) = then_any _ (decode_symbol topic0) _ (λ name.
      if-KeepsValid (text_eq name (codes "fee_config_updated")) _ _ fee_config-IsValid (
        if-KeepsValid (text_eq name (codes "admin_transferred")) _ _ admin-IsValid
          (dispatch_topics-IsValid name topics)))

-- Where ids and event keys are unique, amounts are texts of integers and every event's stream
-- exists, the same holds after an event of any content that is processed without an error.
pub process_event-IsValid :
    (k : StrKey) (now : ℕ) (e : Event) (db : Db)
    → IsValid db
    → Post (process_event k now e db) (λ r. IsValid r.0)
unfolding process_event
process_event-IsValid k now e db h = process_topics-IsValid k now e db h e.topic
