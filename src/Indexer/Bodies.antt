-- ===== src/Indexer/Bodies.antt =====
-- The events that backend/src/workers/soroban-event-worker.ts receives, and what each of its
-- handlers reads from one.
use flowfi.Prelude.{ℕ, Bool, Option, none, some, List, if◌then◌else◌, ℤ, pos, ◌+ℤ◌, eq_ℤ, trunc_div}
use flowfi.Prelude.Text.{Text, big_int}
use flowfi.Prelude.JsMap.{JsMap, lookup}
use flowfi.Indexer.Xdr.{Outcome, missing_fields, bad_integer, or_throw, ScVal}

-- An event of the RPC; only what is read of it.
pub record Event : Type 0 where
  pub id : Text
  pub ledger : ℕ
  pub tx_hash : Text
  pub topic : List ScVal
  pub value : ScVal
  pub in_successful_contract_call : Bool

abbrev pub field : JsMap ScVal → Text → Outcome ScVal
field body name = or_throw (lookup name body) missing_fields

-- `BigInt(text)`
abbrev pub parse_integer : Text → Outcome ℤ
parse_integer s = or_throw (big_int s) bad_integer

-- `rate === 0n ? null : start + deposited / rate + pause`
unfoldable pub end_time_of : ℤ → ℤ → ℤ → ℤ → Option ℤ
end_time_of rate start deposited pause =
    if eq_ℤ rate (pos 0) then none else some (start +ℤ trunc_div deposited rate +ℤ pause)

pub record CreatedBody : Type 0 where
  pub stream_id : ℕ
  pub sender : Text
  pub recipient : Text
  pub token_address : Text
  pub rate_per_second : Text
  pub deposited_amount : Text
  pub start_time : ℤ
  pub end_time : Option ℤ

pub record ToppedUpBody : Type 0 where
  pub stream_id : ℕ
  pub amount : Text
  pub new_deposited_amount : Text

pub record WithdrawnBody : Type 0 where
  pub stream_id : ℕ
  pub recipient : Text
  pub amount : Text
  pub timestamp : ℤ

pub record CancelledBody : Type 0 where
  pub stream_id : ℕ
  pub amount_withdrawn : Text
  pub refunded_amount : Text

pub record CompletedBody : Type 0 where
  pub stream_id : ℕ
  pub recipient : Text
  pub total_withdrawn : Text

pub record FeeBody : Type 0 where
  pub stream_id : ℕ
  pub treasury : Text
  pub fee_amount : Text
  pub token : Text

pub record PausedBody : Type 0 where
  pub stream_id : ℕ
  pub sender : Text
  pub paused_at : ℤ

pub record ResumedBody : Type 0 where
  pub stream_id : ℕ
  pub sender : Text
  pub new_end_time : ℕ

-- A rate that is no number is `undefined`.
pub record FeeConfigBody : Type 0 where
  pub admin : Text
  pub old_treasury : Text
  pub new_treasury : Text
  pub old_fee_rate_bps : Option ℕ
  pub new_fee_rate_bps : Option ℕ

pub record AdminBody : Type 0 where
  pub previous_admin : Text
  pub new_admin : Text
