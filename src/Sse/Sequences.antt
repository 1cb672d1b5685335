-- ===== src/Sse/Sequences.antt =====
-- Sequences of operations of backend/src/services/sse.service.ts.
use flowfi.Prelude.{ℕ, ◌≡◌, refl, Bool, false, Option, none, List, []}
use flowfi.Prelude.Text.{Text}
use flowfi.Prelude.JsMap.{lookup}
use flowfi.Sse.{
  Client, Service, allowed, check_capacity, add_client, remove_client, Network, broadcast,
  send_heartbeat, drain, send_reconnect_to_all,
}
use flowfi.Sse.Counts.{IsValid, add_client-IsValid}
use flowfi.Sse.Operations.{
  remove_client-Shrinks, broadcast-Shrinks, send_heartbeat-Shrinks, drain-Shrinks,
  send_reconnect_to_all-Shrinks,
}

-- A service as it is constructed, with its cap.
abbrev pub new_service : ℕ → Service
new_service cap = record {
  clients = [];
  ip_connection_counts = [];
  user_connection_counts = [];
  slow_clients_dropped = 0;
  shutting_down = false;
  per_ip_peak_connections = 0;
  per_user_peak_connections = 0;
  max_connections = cap;
  written = [];
}

-- Any sequence of operations. A connection is opened under a new id where the policy allows it; the
-- network may do anything at each write.
pub data Steps (policy : Text → Option Text → Service → Type 0) (s : Service)
    : Service → Type 0 where
  start : Steps policy s s
  opened :
      {s' : Service} (id : Text) (subscriptions : List Text) (ip : Text) (user : Option Text)
      → Steps policy s s'
      → policy ip user s'
      → lookup id s'.clients ≡ none
      → Steps policy s (add_client id subscriptions ip user s')
  closed : {s' : Service} (id : Text) → Steps policy s s' → Steps policy s (remove_client id s')
  sent :
      {s' : Service} (net : Network) (message : Text) (keep : Client → Bool)
      → Steps policy s s'
      → Steps policy s (broadcast net message keep s')
  beat : {s' : Service} (net : Network) → Steps policy s s' → Steps policy s (send_heartbeat net s')
  drained : {s' : Service} (id : Text) → Steps policy s s' → Steps policy s (drain id s')
  stopped :
      {s' : Service} (net : Network)
      → Steps policy s s'
      → Steps policy s (send_reconnect_to_all net s')

abbrev pub AnyTime : Text → Option Text → Service → Type 0
AnyTime ip user s = Unit

abbrev pub WhenAllowed : Text → Option Text → Service → Type 0
WhenAllowed ip user s = check_capacity ip user s ≡ allowed

pub new_service-IsValid : (cap : ℕ) → IsValid (new_service cap)
unfolding lookup
new_service-IsValid cap = record {
  distinct = tt;
  named = tt;
  by_ip = λ ip. refl;
  by_user = λ user. refl;
}

-- From a service whose two maps hold the numbers of clients of each address and of each user, its
-- clients stored under distinct ids, any sequence of operations, each connection opened under a new
-- id, leads to such a service, whether the capacity was checked or not and whatever the network does.
pub Steps-IsValid :
    (policy : Text → Option Text → Service → Type 0) (s s' : Service)
    → IsValid s
    → Steps policy s s'
    → IsValid s'
Steps-IsValid policy s _ h start = h
Steps-IsValid policy s _ h (opened {s'} id subscriptions ip user r p fresh) =
    add_client-IsValid id subscriptions ip user s' fresh (Steps-IsValid policy s s' h r)
Steps-IsValid policy s _ h (closed {s'} id r) =
    (remove_client-Shrinks id s' (Steps-IsValid policy s s' h r)).valid
Steps-IsValid policy s _ h (sent {s'} net message keep r) =
    (broadcast-Shrinks net message keep s' (Steps-IsValid policy s s' h r)).valid
Steps-IsValid policy s _ h (beat {s'} net r) =
    (send_heartbeat-Shrinks net s' (Steps-IsValid policy s s' h r)).valid
Steps-IsValid policy s _ h (drained {s'} id r) =
    (drain-Shrinks id s' (Steps-IsValid policy s s' h r)).valid
Steps-IsValid policy s _ h (stopped {s'} net r) =
    (send_reconnect_to_all-Shrinks net s' (Steps-IsValid policy s s' h r)).valid
