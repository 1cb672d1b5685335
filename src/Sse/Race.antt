-- ===== src/Sse/Race.antt =====
-- `subscribe` of backend/src/controllers/sse.controller.ts, which waits for the database between its
-- check of the capacity and the opening of the connection.
use flowfi.Prelude.{◌≡◌, refl, false, Option, none, List, [], ◌∷◌, ◌++◌, arith}
use flowfi.Prelude.Text.{Text, text_eq, text_eq_refl}
use flowfi.Prelude.JsMap.{lookup, insert, lookup-insert}
use flowfi.Sse.{Client, Service, allowed, check_capacity, add_client}
use flowfi.Sse.Registry.{number, number-insert-none}
use flowfi.Sse.Counts.{IsValid, from_ip, count_of-tally, add_client-IsValid}
use flowfi.Sse.Limits.{check_capacity-Passed}

-- The service, and the address and user of each request that has passed the check and waits.
pub record Subscribing : Type 0 where
  pub service : Service
  pub waiting : List (Text × Option Text)

-- Any number of requests, each checked and later opened under a new id.
pub data Subscribes (w : Subscribing) : Subscribing → Type 0 where
  begun : Subscribes w w
  checked :
      {v : Subscribing} (ip : Text) (user : Option Text)
      → Subscribes w v
      → check_capacity ip user v.service ≡ allowed
      → Subscribes w (record v { waiting = v.waiting ++ (ip, user) ∷ [] })
  connected :
      {v : Subscribing} (id ip : Text) (user : Option Text) (subscriptions : List Text)
      (before after : List (Text × Option Text))
      → Subscribes w v
      → v.waiting ≡ before ++ (ip, user) ∷ after
      → lookup id v.service.clients ≡ none
      → Subscribes w (record {
        service = add_client id subscriptions ip user v.service;
        waiting = before ++ after;
      })

abbrev at_rest : Service → Subscribing
at_rest s = record { service = s; waiting = [] }

six_clients :
    (id id' ip : Text) (subscriptions subscriptions' : List Text) (user user' : Option Text)
    (s : Service)
    → number (from_ip ip) s.clients ≡ 4
    → lookup id s.clients ≡ none
    → lookup id' s.clients ≡ none
    → text_eq id id' ≡ false
    → number
        (from_ip ip)
        (add_client id' subscriptions' ip user' (add_client id subscriptions ip user s)).clients
      ≡ 6
unfolding add_client
six_clients id id' ip subs subs' user user' s four fresh fresh' other =
    let c : Client = record {
      id = id;
      subscriptions = subs;
      paused = false;
      ip = ip;
      user_id = user;
    } in
    let c' : Client = record {
      id = id';
      subscriptions = subs';
      paused = false;
      ip = ip;
      user_id = user';
    } in
    let fresh2 : lookup id' (insert id c s.clients) ≡ none =
      rw (lookup-insert id' id c s.clients, other) fresh' in
    rw
      (
        number-insert-none (from_ip ip) id' c' (insert id c s.clients) fresh2,
        number-insert-none (from_ip ip) id c s.clients fresh,
        four,
        text_eq_refl ip,
      )
      refl

five_clients :
    (id ip : Text) (subscriptions : List Text) (user : Option Text) (s : Service)
    → number (from_ip ip) s.clients ≡ 4
    → lookup id s.clients ≡ none
    → number (from_ip ip) (add_client id subscriptions ip user s).clients ≡ 5
unfolding add_client
five_clients id ip subs user s four fresh =
    let c : Client = record {
      id = id;
      subscriptions = subs;
      paused = false;
      ip = ip;
      user_id = user;
    } in
    rw (number-insert-none (from_ip ip) id c s.clients fresh, four, text_eq_refl ip) refl

still_fresh :
    (id id' ip : Text) (subscriptions : List Text) (user : Option Text) (s : Service)
    → lookup id' s.clients ≡ none
    → text_eq id id' ≡ false
    → lookup id' (add_client id subscriptions ip user s).clients ≡ none
unfolding add_client
still_fresh id id' ip subs user s fresh other =
    let c : Client = record {
      id = id;
      subscriptions = subs;
      paused = false;
      ip = ip;
      user_id = user;
    } in
    rw (lookup-insert id' id c s.clients, other) fresh

-- Where an address has four clients of a service with valid counts, and the check lets it pass for
-- each of two users, two requests that are checked before either is opened lead to six clients of
-- that address and none waiting. The check would refuse the second request after the first has been
-- opened.
pub subscribe_race :
    (id id' ip : Text) (subscriptions subscriptions' : List Text) (user user' : Option Text)
    (s : Service)
    → IsValid s
    → number (from_ip ip) s.clients ≡ 4
    → check_capacity ip user s ≡ allowed
    → check_capacity ip user' s ≡ allowed
    → lookup id s.clients ≡ none
    → lookup id' s.clients ≡ none
    → text_eq id id' ≡ false
    → (w : Subscribing) × Subscribes (at_rest s) w
      × (w.waiting ≡ [])
      × (number (from_ip ip) w.service.clients ≡ 6)
      × ¬ (check_capacity ip user' (add_client id subscriptions ip user s) ≡ allowed)
subscribe_race id id' ip subs subs' user user' s valid four free free' fresh fresh' other =
    let first : Service = add_client id subs ip user s in
    (
      record { service = add_client id' subs' ip user' first; waiting = [] },
      connected id' ip user' subs' [] []
          (connected id ip user subs [] ((ip, user') ∷ [])
            (checked ip user' (checked ip user begun free) free') refl fresh)
          refl (still_fresh id id' ip subs user s fresh' other),
      refl,
      six_clients id id' ip subs subs' user user' s four fresh fresh' other,
      λ passes.
          let room = (check_capacity-Passed ip user' first passes).ip_room in
          let v = add_client-IsValid id subs ip user s fresh valid in
          let count =
            count_of-tally (λ k. number (from_ip k) first.clients) first.ip_connection_counts
              v.by_ip ip in
          let five = five_clients id ip subs user s four fresh in
          absurd (omega (arith, room, count, five)),
    )
