-- ===== src/Listing.antt =====
-- Lists of streams: `findStreams` of backend/src/repositories/stream.repository.ts and
-- `listStreams` of backend/src/controllers/stream.controller.ts. What the database makes of the rows of
-- a query for a field and a direction is an argument; it may differ between queries where rows are
-- tied. A negative limit takes rows from the end, as Prisma says of `take`. Users that a row includes
-- are not modelled.
pub mod Order
pub mod Walk
mod Tests
use mathlib.Core.List.{reverse}
use flowfi.Prelude.{
  ℕ, zero, suc, ◌+◌, Bool, true, false, not, ◌&&◌, ◌||◌, Option, none, some, List, [], ◌∷◌,
  if◌then◌else◌, ltb, min, length, take, drop, select, ◌==◌, ℤ, pos, negsuc, pos_part,
}
use flowfi.Prelude.Text.{Text, codes, text_eq}
use flowfi.Indexer.Tables.{EventType, cancelled, completed, type_eq, Stream, StreamEvent, Db}
use flowfi.Payroll.{parse_int}
use flowfi.Streams.{Reply, sent, refused}

pub data Status : Type 0 where
  active_status paused_status cancelled_status completed_status : Status

pub data SortField : Type 0 where
  created_at start_time last_update_time deposited_amount end_time : SortField

pub record FindStreamsParams : Type 0 where
  pub status : Option Status
  pub sender : Option Text
  pub recipient : Option Text
  pub token_address : Option Text
  pub limit : ℤ
  pub offset : ℕ
  pub sort_field : SortField
  pub ascending : Bool

pub record FindStreamsResult : Type 0 where
  pub streams : List Stream
  pub total : ℕ
  pub has_more : Bool

-- A filter that is missing or empty is not set.
unfoldable pub is_match : Option Text → Text → Bool
unfolding text_eq
is_match none value = true
is_match (some []) value = true
is_match (some (c ∷ text)) value = text_eq value (c ∷ text)

unfoldable pub has_event : EventType → ℕ → List StreamEvent → Bool
has_event type id [] = false
has_event type id (e ∷ events) =
    e.stream_id == id && type_eq e.event_type type || has_event type id events

unfoldable pub has_status : List StreamEvent → Option Status → Stream → Bool
unfolding has_event
has_status events none s = true
has_status events (some active_status) s = s.is_active && not s.is_paused
has_status events (some paused_status) s = s.is_paused
has_status events (some cancelled_status) s =
    not s.is_active && has_event cancelled s.stream_id events
has_status events (some completed_status) s =
    not s.is_active && has_event completed s.stream_id events

unfoldable pub is_listed : FindStreamsParams → List StreamEvent → Stream → Bool
unfolding is_match has_status
is_listed params events s =
    is_match params.sender s.sender
    && is_match params.recipient s.recipient
    && is_match params.token_address s.token_address
    && has_status events params.status s

-- `take` and `skip`
abbrev pub page_of : ℤ → ℕ → List Stream → List Stream
page_of (pos n) offset rows = take n (drop offset rows)
page_of (negsuc n) offset rows = reverse (take (suc n) (drop offset (reverse rows)))

-- What the database makes of the rows of one query for a field and a direction.
abbrev pub Ordering : Type 0
Ordering = SortField → Bool → List Stream → List Stream

abbrev pub selected_streams : FindStreamsParams → Db → List Stream
selected_streams params db = select (λ s. is_listed params db.events s) db.streams

unfoldable pub find_streams : Ordering → FindStreamsParams → Db → FindStreamsResult
unfolding is_listed
find_streams order params db =
    let wanted = selected_streams params db in
    let streams =
      page_of params.limit params.offset (order params.sort_field params.ascending wanted) in
    record {
      streams = streams;
      total = length wanted;
      has_more = ltb (params.offset + length streams) (length wanted);
    }

-- The query of a request, each parameter if it is a text.
pub record ListQuery : Type 0 where
  pub sender : Option Text
  pub recipient : Option Text
  pub status : Option Text
  pub token : Option Text
  pub sort : Option Text
  pub order : Option Text
  pub limit : Option Text
  pub offset : Option Text

abbrev default_stream_page_size : ℕ
default_stream_page_size = 20

abbrev max_stream_page_size : ℕ
max_stream_page_size = 100

-- `Number.parseInt(limit, 10) || DEFAULT_STREAM_PAGE_SIZE`, and no more than the most.
abbrev capped : Option ℤ → ℤ
capped none = pos default_stream_page_size
capped (some (pos zero)) = pos default_stream_page_size
capped (some (pos (suc n))) = pos (min (suc n) max_stream_page_size)
capped (some (negsuc n)) = negsuc n

unfoldable pub parsed_limit : Option Text → ℤ
unfolding parse_int
parsed_limit none = pos default_stream_page_size
parsed_limit (some text) = capped (parse_int text)

abbrev not_negative : Option ℤ → ℕ
not_negative none = 0
not_negative (some n) = pos_part n

unfoldable pub parsed_offset : Option Text → ℕ
unfolding parse_int
parsed_offset none = 0
parsed_offset (some text) = not_negative (parse_int text)

unfoldable pub sort_field_of : Option Text → SortField
unfolding text_eq
sort_field_of none = created_at
sort_field_of (some sort) =
    if text_eq sort (codes "startTime")
    then start_time
    else if text_eq sort (codes "lastUpdateTime")
    then last_update_time
    else if text_eq sort (codes "depositedAmount")
    then deposited_amount
    else if text_eq sort (codes "endTime")
    then end_time
    else created_at

unfoldable pub status_of : Text → Option Status
unfolding text_eq
status_of status =
    if text_eq status (codes "active")
    then some active_status
    else if text_eq status (codes "cancelled")
    then some cancelled_status
    else if text_eq status (codes "completed")
    then some completed_status
    else if text_eq status (codes "paused")
    then some paused_status
    else none

abbrev is_ascending : Option Text → Bool
is_ascending none = false
is_ascending (some order) = text_eq order (codes "asc")

abbrev pub params_of : ListQuery → Option Status → FindStreamsParams
params_of query status = record {
  status = status;
  sender = query.sender;
  recipient = query.recipient;
  token_address = query.token;
  limit = parsed_limit query.limit;
  offset = parsed_offset query.offset;
  sort_field = sort_field_of query.sort;
  ascending = is_ascending query.order;
}

-- `listStreams`
unfoldable pub list_streams : Ordering → ListQuery → Db → Reply FindStreamsResult
unfolding find_streams parsed_limit parsed_offset sort_field_of status_of
list_streams order query db = elim query.status [
  | none ↦ sent 200 (find_streams order (params_of query none) db)
  | some text ↦ elim (status_of text) [
    | none ↦ refused 400 (codes "INVALID_STATUS")
    | some status ↦ sent 200 (find_streams order (params_of query (some status)) db)
  ]
]
