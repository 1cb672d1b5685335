-- ===== src/Streams.antt =====
-- `createStream` of backend/src/controllers/stream.controller.ts, over the indexer's tables, and
-- `parseStreamId` of backend/src/lib/stream-id.ts. What the validator makes of a body and what the
-- chain answers are arguments. Logs and a failing database are not modelled.
pub mod TopUp
pub mod Withdraw
pub mod Answers
pub mod Ownership
pub mod Withdrawals
pub mod Parties
pub mod Resets
pub mod TopUps
mod Tests
use Prim.Native.Nat.{◌^◌}
use mathlib.Core.Option
use flowfi.Prelude.{
  ℕ, suc, ◌+◌, ◌-◌, ◌*◌, ◌/◌, Bool, true, false, not, ◌&&◌, ◌||◌, Option, none, some, List, [], ◌∷◌,
  ◌++◌, if◌then◌else◌, ◌==◌, ltb, leb, length, ℤ, pos, negsuc, ◌+ℤ◌, leb_ℤ, ltb_ℤ, eq_ℤ, trunc_div,
}
use flowfi.Prelude.Text.{Text, codes, text_eq, trim, is_digit, big_int, to_string}
use flowfi.MemoryCache.{MemoryCache}
use flowfi.Claimable.{Value, Result, Readings, get_claimable_amount}
use flowfi.Indexer.Tables.{Stream, Db, find_stream, replace_stream, contains}
use flowfi.Indexer.Reachable.{selected}
use flowfi.Payroll.{parse_int}

-- A response: a body, or a status and the code of an error.
pub data Reply (A : Type 0) : Type 0 where
  sent : ℕ → A → Reply A
  refused : ℕ → Text → Reply A

-- `/^\d+$/`
unfoldable pub all_digits : Text → Bool
all_digits [] = true
all_digits (c ∷ s) = is_digit c && all_digits s

abbrev pub natural_text : Text → Bool
natural_text [] = false
natural_text (c ∷ s) = all_digits (c ∷ s)

abbrev pub natural_value : Option ℤ → Option ℕ
natural_value (some (pos n)) = some n
natural_value _ = none

-- `parseStreamId` of a text.
unfoldable pub parse_stream_id : Text → Option ℕ
unfolding all_digits trim big_int
parse_stream_id raw =
    let trimmed = trim raw in if natural_text trimmed then natural_value (big_int trimmed) else none

-- A caller without a key is not signed in.
abbrev pub signed_in : Option Text → Option Text
signed_in none = none
signed_in (some []) = none
signed_in (some (c ∷ key)) = some (c ∷ key)

-- What the validator accepts.
pub record CreateInput : Type 0 where
  pub stream_id : ℕ
  pub sender : Text
  pub recipient : Text
  pub token_address : Text
  pub rate_per_second : Text
  pub deposited_amount : Text
  pub start_time : ℕ

pub record ChainStream : Type 0 where
  pub sender : Text
  pub recipient : Text
  pub token_address : Text
  pub rate_per_second : Text
  pub deposited_amount : Text
  pub start_time : ℕ

abbrev pub forbidden : {A : Type 0} → Reply A
forbidden = refused 403 (codes "FORBIDDEN")

abbrev pub internal_error : {A : Type 0} → Reply A
internal_error = refused 500 (codes "INTERNAL_SERVER_ERROR")

abbrev pub is_foreign : Text → Option Stream → Bool
is_foreign caller none = false
is_foreign caller (some s) = not (text_eq s.sender caller)

unfoldable pub matches_chain : CreateInput → ℤ → ℤ → ChainStream → Bool
unfolding text_eq to_string
matches_chain input rate deposited chain =
    text_eq chain.sender input.sender
    && text_eq chain.recipient input.recipient
    && text_eq chain.token_address input.token_address
    && text_eq chain.rate_per_second (to_string rate)
    && text_eq chain.deposited_amount (to_string deposited)
    && chain.start_time == input.start_time

abbrev pub reactivate : ℕ → Stream → Stream
reactivate now s = record s { is_active = true; last_update_time = pos now }

abbrev pub confirmed_stream : CreateInput → ChainStream → ℤ → Stream
confirmed_stream input chain end_time = record {
  stream_id = input.stream_id;
  sender = chain.sender;
  recipient = chain.recipient;
  token_address = chain.token_address;
  rate_per_second = chain.rate_per_second;
  deposited_amount = chain.deposited_amount;
  withdrawn_amount = codes "0";
  start_time = pos chain.start_time;
  last_update_time = pos chain.start_time;
  end_time = some end_time;
  is_active = true;
  is_paused = false;
  paused_at = none;
  total_paused_duration = pos 0;
}

abbrev pub bigint_end : ℕ
bigint_end = 2 ^ 63

-- A `bigint` of the database.
abbrev pub as_bigint : ℤ → Option ℤ
as_bigint (pos n) = if ltb n bigint_end then some (pos n) else none
as_bigint (negsuc n) = if ltb n bigint_end then some (negsuc n) else none

abbrev fits : ℤ → Bool
fits n = elim (as_bigint n) [ none ↦ false | some value ↦ true ]

-- `stream.upsert`; a new row of users that are not there violates a foreign key, and its end must
-- fit its column.
unfoldable pub store_confirmed : ℕ → CreateInput → ChainStream → ℤ → Db → Reply Stream × Db
unfolding find_stream replace_stream contains
store_confirmed now input chain end_time db = elim (find_stream input.stream_id db.streams) [
  | some s ↦ (
    sent 201 (reactivate now s),
    record db { streams = replace_stream input.stream_id (reactivate now) db.streams },
  )
  | none ↦
      let row = confirmed_stream input chain end_time in
      if contains chain.sender db.users && contains chain.recipient db.users && fits end_time
      then (sent 201 row, record db { streams = db.streams ++ row ∷ [] })
      else (refused 500 (codes "INTERNAL_SERVER_ERROR"), db)
]

unfoldable pub confirm : ℕ → CreateInput → ℤ → ℤ → Option ChainStream → Db → Reply Stream × Db
unfolding matches_chain store_confirmed
confirm now input rate deposited none db =
    (refused 409 (codes "Stream has not been confirmed on-chain"), db)
confirm now input rate deposited (some chain) db =
    if matches_chain input rate deposited chain
    then store_confirmed now input chain (pos input.start_time +ℤ trunc_div deposited rate) db
    else (refused 409 (codes "Stream request does not match on-chain state"), db)

unfoldable pub create_checked :
    ℕ → Text → CreateInput → ℤ → ℤ → Option ChainStream → Db → Reply Stream × Db
unfolding confirm text_eq
create_checked now caller input rate deposited chain db =
    if leb_ℤ rate (pos 0)
    then (refused 400 (codes "INVALID_RATE"), db)
    else if leb_ℤ deposited (pos 0)
    then (refused 400 (codes "INVALID_DEPOSITED_AMOUNT"), db)
    else if is_foreign caller (find_stream input.stream_id db.streams)
    then (forbidden, db)
    else confirm now input rate deposited chain db

unfoldable pub create_parsed : ℕ → Text → CreateInput → Option ChainStream → Db → Reply Stream × Db
unfolding create_checked text_eq big_int
create_parsed now caller input chain db =
    if text_eq input.sender caller
    then elim (big_int input.rate_per_second) [
      | none ↦ (refused 400 (codes "INVALID_NUMERIC_VALUES"), db)
      | some rate ↦ elim (big_int input.deposited_amount) [
        | none ↦ (refused 400 (codes "INVALID_NUMERIC_VALUES"), db)
        | some deposited ↦ create_checked now caller input rate deposited chain db
      ]
    ]
    else (forbidden, db)

-- `createStream`: the body is `none` where the validator rejects it. No other request changes the
-- tables between its look at them and its write.
unfoldable pub create_stream :
    ℕ → Option Text → Option CreateInput → Option ChainStream → Db → Reply Stream × Db
unfolding create_parsed
create_stream now user body chain db = elim (signed_in user) [
  | none ↦ (refused 401 (codes "UNAUTHORIZED"), db)
  | some caller ↦ elim body [
    | none ↦ (refused 400 (codes "INVALID_REQUEST"), db)
    | some input ↦ create_parsed now caller input chain db
  ]
]
