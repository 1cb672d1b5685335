-- ===== src/Export.antt =====
-- The export of a user's transactions, backend/src/services/export.service.ts. How a time is
-- printed is an argument: `iso` gives `toISOString`, `none` where it throws. The tables do not
-- change while an export runs; headers of the response and logs are not modelled.
pub mod Write
pub mod Pages
pub mod Records
pub mod Elements
pub mod Amounts
mod Tests
use Prim.Native.Nat.{◌^◌}
use mathlib.Core.Option
use flowfi.Prelude.{
  ℕ, suc, ◌+◌, ◌-◌, ◌*◌, ◌/◌, ◌%◌, Bool, true, false, not, ◌&&◌, ◌||◌, Option, none, some, List, [],
  ◌∷◌, ◌++◌, map, if◌then◌else◌, ◌==◌, ltb, leb, length, take, select, ℤ, pos, negsuc, ◌-ℤ◌, ◌*ℤ◌,
  leb_ℤ, trunc_div, floor_div,
}
use flowfi.Prelude.Text.{Text, codes, text_eq, big_int, to_string}
use flowfi.Amount.{remainder, pad_start}
use flowfi.Csv.{join_with}
use flowfi.Indexer.Tables.{
  EventType, created, topped_up, withdrawn, cancelled, completed, paused, resumed, fee_collected,
  fee_config_updated, admin_transferred, type_eq, Stream, StreamEvent,
}

pub data Direction : Type 0 where
  incoming outgoing all : Direction

-- A `Date`: its milliseconds, or no time at all.
pub data Date : Type 0 where
  at : ℤ → Date
  invalid : Date

pub record ExportOptions : Type 0 where
  pub direction : Direction
  pub start_date : Option Date
  pub end_date : Option Date
  pub token_address : Option Text

pub record TransactionRecord : Type 0 where
  pub timestamp : Text
  pub stream_id : Text
  pub transaction_hash : Text
  pub event_type : Text
  pub is_outgoing : Bool
  pub counterparty_address : Text
  pub token_contract : Text
  pub gross_amount_stroops : Text
  pub gross_amount_formatted : Text
  pub protocol_fee_deducted : Text
  pub net_amount : Text

-- A row of the streams, with its key.
pub record Row : Type 0 where
  pub id : Text
  pub stream : Stream

-- The streams in the order of their creation, and all events.
pub record Rows : Type 0 where
  pub streams : List Row
  pub events : List StreamEvent

infixl 5 ◌>>=◌
abbrev pub ◌>>=◌ : {A B : Type 0} (m : Option A) (next : A → Option B) → Option B
none >>= next = none
some value >>= next = next value

-- `10 ** decimals`
abbrev pub divisor : ℕ
divisor = 10 ^ 7

abbrev pub with_decimals : ℤ → Text
with_decimals amount =
    to_string (trunc_div amount (pos divisor))
    ++ b'.' ∷ pad_start 7 (to_string (remainder amount divisor))

unfoldable pub format_stroops : Text → Option Text
unfolding big_int to_string
format_stroops stroops = do amount ← big_int stroops; some (with_decimals amount)

unfoldable pub calculate_protocol_fee : Text → EventType → Option Text
unfolding big_int to_string ◌*ℤ◌
calculate_protocol_fee amount type =
    if type_eq type withdrawn
    then elim (big_int amount) [
      | none ↦ none
      | some amt ↦ some (to_string (trunc_div (amt *ℤ pos 5) (pos 1000)))
    ]
    else some (codes "0")

abbrev pub type_text : EventType → Text
type_text created = codes "CREATED"
type_text topped_up = codes "TOPPED_UP"
type_text withdrawn = codes "WITHDRAWN"
type_text cancelled = codes "CANCELLED"
type_text completed = codes "COMPLETED"
type_text paused = codes "PAUSED"
type_text resumed = codes "RESUMED"
type_text fee_collected = codes "FEE_COLLECTED"
type_text fee_config_updated = codes "FEE_CONFIG_UPDATED"
type_text admin_transferred = codes "ADMIN_TRANSFERRED"

-- `event.amount || "0"`
abbrev pub amount_or_zero : Option Text → Text
amount_or_zero none = codes "0"
amount_or_zero (some []) = codes "0"
amount_or_zero (some (c ∷ s)) = c ∷ s

-- `mapEventToTransaction`; a throw is `none`.
unfoldable pub map_event_to_transaction :
    (ℤ → Option Text) → StreamEvent → Stream → Text → Option TransactionRecord
unfolding text_eq calculate_protocol_fee format_stroops big_int to_string ◌-ℤ◌
map_event_to_transaction iso event stream user_address = do
  let is_outgoing = text_eq stream.sender user_address
  let gross = amount_or_zero event.amount
  fee ← calculate_protocol_fee gross event.event_type
  gross_value ← big_int gross
  fee_value ← big_int fee
  timestamp ← iso event.timestamp
  gross_formatted ← format_stroops gross
  net_formatted ← format_stroops (to_string (gross_value -ℤ fee_value))
  some (record {
    timestamp = timestamp;
    stream_id = to_string (pos stream.stream_id);
    transaction_hash = event.transaction_hash;
    event_type = type_text event.event_type;
    is_outgoing = is_outgoing;
    counterparty_address = if is_outgoing then stream.recipient else stream.sender;
    token_contract = stream.token_address;
    gross_amount_stroops = gross;
    gross_amount_formatted = gross_formatted;
    protocol_fee_deducted = fee;
    net_amount = net_formatted;
  })

abbrev direction_text : Bool → Text
direction_text true = codes "OUTGOING"
direction_text false = codes "INCOMING"

-- The values of a record in the order of the columns.
abbrev pub values_of : TransactionRecord → List Text
values_of r =
    r.timestamp
    ∷ r.stream_id
    ∷ r.transaction_hash
    ∷ r.event_type
    ∷ direction_text r.is_outgoing
    ∷ r.counterparty_address
    ∷ r.token_contract
    ∷ r.gross_amount_stroops
    ∷ r.gross_amount_formatted
    ∷ r.protocol_fee_deducted
    ∷ r.net_amount
    ∷ []

unfoldable pub has_code : ℕ → Text → Bool
has_code c [] = false
has_code c (d ∷ s) = c == d || has_code c s

unfoldable pub replace_quotes : Text → Text
replace_quotes [] = []
replace_quotes (c ∷ s) =
    let rest = replace_quotes s in if c == b'"' then b'"' ∷ b'"' ∷ rest else c ∷ rest

unfoldable pub escape_csv : Text → Text
unfolding has_code replace_quotes
escape_csv value =
    if has_code b',' value || has_code b'"' value || has_code 10 value
    then b'"' ∷ replace_quotes value ++ b'"' ∷ []
    else value

unfoldable pub transaction_to_csv_row : TransactionRecord → Text
unfolding escape_csv join_with
transaction_to_csv_row r = join_with b',' (map (λ value. escape_csv value) (values_of r))
