-- ===== src/Sse.antt =====
-- The registry of clients of backend/src/services/sse.service.ts. What a response's `write` does,
-- and how much it holds back, is given by a network; a message is the text that is written. A
-- process that uses Redis is not modelled, nor are metrics and logs.
pub mod Registry
pub mod Counts
pub mod Operations
pub mod Sequences
pub mod Limits
pub mod Race
pub mod Delivery
mod Tests
use flowfi.Prelude.{
  ℕ, ◌+◌, ◌-◌, ◌*◌, Bool, true, false, ◌||◌, Option, none, some, List, [], ◌∷◌, ◌++◌, if◌then◌else◌,
  leb, max,
}
use flowfi.Prelude.Text.{Text, codes, text_eq}
use flowfi.Prelude.JsMap.{JsMap, lookup, insert, erase, size}

pub record Client : Type 0 where
  pub id : Text
  pub subscriptions : List Text
  pub paused : Bool
  pub ip : Text
  pub user_id : Option Text

-- `written` holds what the clients' responses took, with the clients' ids.
pub record Service : Type 0 where
  pub clients : JsMap Client
  pub ip_connection_counts : JsMap ℕ
  pub user_connection_counts : JsMap ℕ
  pub slow_clients_dropped : ℕ
  pub shutting_down : Bool
  pub per_ip_peak_connections : ℕ
  pub per_user_peak_connections : ℕ
  pub max_connections : ℕ
  pub written : List (Text × Text)

abbrev pub max_writable_buffer : ℕ
max_writable_buffer = 64 * 1024

abbrev pub max_connections_per_ip : ℕ
max_connections_per_ip = 5

abbrev pub max_connections_per_user : ℕ
max_connections_per_user = 10

-- `map.get(key) ?? 0`
abbrev pub or_no_connections : Option ℕ → ℕ
or_no_connections none = 0
or_no_connections (some n) = n

abbrev pub count_of : Text → JsMap ℕ → ℕ
count_of key counts = or_no_connections (lookup key counts)

-- A user id that is missing or empty is no user.
abbrev pub user_of : Option Text → Option Text
user_of none = none
user_of (some []) = none
user_of (some (c ∷ id)) = some (c ∷ id)

pub data Capacity : Type 0 where
  allowed at_capacity per_ip_limit per_user_limit : Capacity

unfoldable pub check_user : Option Text → JsMap ℕ → Capacity
check_user none counts = allowed
check_user (some user) counts =
    if leb max_connections_per_user (count_of user counts) then per_user_limit else allowed

unfoldable pub check_capacity : Text → Option Text → Service → Capacity
unfolding check_user
check_capacity ip user_id s =
    if leb s.max_connections (size s.clients)
    then at_capacity
    else if leb max_connections_per_ip (count_of ip s.ip_connection_counts)
    then per_ip_limit
    else check_user (user_of user_id) s.user_connection_counts

abbrev pub add_count : Text → JsMap ℕ → JsMap ℕ
add_count key counts = insert key (count_of key counts + 1) counts

abbrev pub add_user_count : Option Text → JsMap ℕ → JsMap ℕ
add_user_count none counts = counts
add_user_count (some user) counts = add_count user counts

abbrev pub user_peak : Option Text → JsMap ℕ → ℕ → ℕ
user_peak none counts peak = peak
user_peak (some user) counts peak = max peak (count_of user counts + 1)

unfoldable pub add_client : Text → List Text → Text → Option Text → Service → Service
unfolding insert lookup
add_client client_id subscriptions ip user_id s =
    let user = user_of user_id in
    record s {
      clients =
          insert client_id
            (record {
              id = client_id;
              subscriptions = subscriptions;
              paused = false;
              ip = ip;
              user_id = user_id;
            })
            s.clients;
      ip_connection_counts = add_count ip s.ip_connection_counts;
      user_connection_counts = add_user_count user s.user_connection_counts;
      per_ip_peak_connections =
          max s.per_ip_peak_connections (count_of ip s.ip_connection_counts + 1);
      per_user_peak_connections =
          user_peak user s.user_connection_counts s.per_user_peak_connections;
    }

abbrev pub drop_count : Text → JsMap ℕ → JsMap ℕ
drop_count key counts =
    if leb (count_of key counts) 1
    then erase key counts
    else insert key (count_of key counts - 1) counts

abbrev pub drop_user_count : Option Text → JsMap ℕ → JsMap ℕ
drop_user_count none counts = counts
drop_user_count (some user) counts = drop_count user counts

unfoldable pub remove_client : Text → Service → Service
unfolding lookup erase insert
remove_client client_id s = elim (lookup client_id s.clients) [
  | none ↦ s
  | some client ↦ record s {
    clients = erase client_id s.clients;
    ip_connection_counts = drop_count client.ip s.ip_connection_counts;
    user_connection_counts = drop_user_count (user_of client.user_id) s.user_connection_counts;
  }
]

unfoldable pub drop_slow_client : Text → Service → Service
unfolding remove_client
drop_slow_client client_id s =
    remove_client client_id (record s { slow_clients_dropped = s.slow_clients_dropped + 1 })

-- `write` takes the message, takes it and asks for a pause, or throws.
pub data Write : Type 0 where
  accepted held_back thrown : Write

pub record Network : Type 0 where
  pub write : Text → Text → Write
  pub writable_length : Text → ℕ

abbrev pub record_written : Text → Text → Service → Service
record_written client_id message s = record s { written = s.written ++ (client_id, message) ∷ [] }

abbrev pub set_paused : Bool → Client → Service → Service
set_paused paused client s = record s {
  clients = insert client.id (record client { paused = paused }) s.clients;
}

abbrev pub ids_of : JsMap Client → List Text
ids_of [] = []
ids_of ((id, client) ∷ rest) = id ∷ ids_of rest

module _ (net : Network) where
  -- A client whose response holds back too much is dropped.
  unfoldable pub drop_if_slow : Text → Service → Service
  unfolding drop_slow_client
  drop_if_slow client_id s =
      if leb max_writable_buffer (net.writable_length client_id)
      then drop_slow_client client_id s
      else s

  -- What follows a `write`.
  unfoldable pub after_write : Write → Client → Text → Service → Service
  unfolding drop_if_slow insert remove_client
  after_write accepted client message s = record_written client.id message s
  after_write held_back client message s =
      drop_if_slow client.id (set_paused true client (record_written client.id message s))
  after_write thrown client message s = remove_client client.id s

  -- `writeToClient`, without the flag that no caller reads.
  unfoldable pub write_to_client : Client → Text → Service → Service
  unfolding drop_if_slow after_write
  write_to_client client message s =
      if client.paused
      then drop_if_slow client.id s
      else after_write (net.write client.id message) client message s

  -- The loop over the clients by their ids. A client that is gone is not visited.
  unfoldable pub write_to_all : (Client → Bool) → Text → List Text → Service → Service
  unfolding write_to_client lookup
  write_to_all keep message [] s = s
  write_to_all keep message (id ∷ ids) s = elim (lookup id s.clients) [
    | none ↦ write_to_all keep message ids s
    | some client ↦
        write_to_all keep message ids (if keep client then write_to_client client message s else s)
  ]

  unfoldable pub broadcast : Text → (Client → Bool) → Service → Service
  unfolding write_to_all
  broadcast message keep s = write_to_all keep message (ids_of s.clients) s

  unfoldable pub send_heartbeat : Service → Service
  unfolding write_to_all
  send_heartbeat s = write_to_all (λ c. true) (codes ": heartbeat\n\n") (ids_of s.clients) s

-- `subscriptions.has(key)`
unfoldable pub has : Text → List Text → Bool
unfolding text_eq
has key [] = false
has key (x ∷ xs) = text_eq x key || has key xs

abbrev pub is_subscribed : Text → Client → Bool
is_subscribed channel client =
    has channel client.subscriptions || has (codes "*") client.subscriptions

unfoldable pub local_broadcast_to_stream : Network → Text → Text → Service → Service
unfolding broadcast has
local_broadcast_to_stream net stream_id message s =
    broadcast net message (is_subscribed stream_id) s

unfoldable pub local_broadcast_to_user : Network → Text → Text → Service → Service
unfolding broadcast has
local_broadcast_to_user net public_key message s =
    broadcast net message (is_subscribed (codes "user:" ++ public_key)) s

-- The response's `drain` clears the pause of its client, if that is still there.
unfoldable pub drain : Text → Service → Service
unfolding lookup insert
drain client_id s = elim (lookup client_id s.clients) [
  | none ↦ s
  | some client ↦ set_paused false client s
]

-- A response whose `write` throws is skipped.
abbrev pub reconnect_ids : Network → List Text → List Text
reconnect_ids net [] = []
reconnect_ids net (id ∷ ids) = elim (net.write id (codes "event: reconnect\ndata: {}\n\n")) [
  | thrown ↦ reconnect_ids net ids
  | _ ↦ id ∷ reconnect_ids net ids
]

abbrev pub as_written : Text → List Text → List (Text × Text)
as_written message [] = []
as_written message (id ∷ ids) = (id, message) ∷ as_written message ids

unfoldable pub send_reconnect_to_all : Network → Service → Service
send_reconnect_to_all net s = record s {
  shutting_down = true;
  written =
      s.written
      ++ as_written (codes "event: reconnect\ndata: {}\n\n") (reconnect_ids net (ids_of s.clients));
}
