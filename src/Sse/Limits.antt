-- ===== src/Sse/Limits.antt =====
-- The limits on connections of backend/src/services/sse.service.ts, as
-- backend/src/controllers/sse.controller.ts uses them, with the
-- check and the opening in one step.
use flowfi.Prelude.{
  ℕ, ◌+◌, ◌≤◌, ◌<◌, ◌≡◌, refl, true, false, Option, none, some, List, [], ◌∷◌, arith, leb,
  Bool-cases, inl, inr,
}
use flowfi.Prelude.Text.{Text, text_eq, text_eq_iff}
use flowfi.Prelude.JsMap.{JsMap, lookup, size}
use flowfi.Sse.{
  Client, Service, count_of, user_of, max_connections_per_ip, max_connections_per_user, allowed,
  check_user, check_capacity, add_client,
}
use flowfi.Sse.Registry.{bit, number, number-insert-none}
use flowfi.Sse.Counts.{IsValid, from_ip, of_user, is_user, count_of-tally}
use flowfi.Sse.Operations.{
  Shrinks, remove_client-Shrinks, broadcast-Shrinks, send_heartbeat-Shrinks, drain-Shrinks,
  send_reconnect_to_all-Shrinks,
}
use flowfi.Sse.Sequences.{
  Steps, start, opened, closed, sent, beat, drained, stopped, WhenAllowed, Steps-IsValid,
}

-- No address, no user and not the service has more clients than allowed.
pub record IsWithin (s : Service) : Type 0 where
  pub per_ip : (ip : Text) → number (from_ip ip) s.clients ≤ max_connections_per_ip
  pub per_user : (user : Text) → number (of_user user) s.clients ≤ max_connections_per_user
  pub total : number (λ c. true) s.clients ≤ s.max_connections

Shrinks-IsWithin : (s s' : Service) → Shrinks s s' → IsWithin s → IsWithin s'
Shrinks-IsWithin s s' k h = record {
  per_ip = λ ip. let a = k.fewer (from_ip ip) (λ b c. refl) in let b = h.per_ip ip in omega arith;
  per_user = λ user.
      let a = k.fewer (of_user user) (λ b c. refl) in let b = h.per_user user in omega arith;
  total =
      let a = k.fewer (λ c. true) (λ b c. refl) in let b = h.total in let c = k.cap in omega arith;
}

number_all : (m : JsMap Client) → number (λ c. true) m ≡ size m
number_all [] = refl
number_all ((id, c) ∷ m) = omega (arith, number_all m)

-- What is known where the capacity check lets a request pass.
pub record Passed (ip : Text) (user : Option Text) (s : Service) : Type 0 where
  pub room : size s.clients < s.max_connections
  pub ip_room : count_of ip s.ip_connection_counts < max_connections_per_ip
  pub user_room : check_user (user_of user) s.user_connection_counts ≡ allowed

pub check_capacity-Passed :
    (ip : Text) (user : Option Text) (s : Service)
    → check_capacity ip user s ≡ allowed
    → Passed ip user s
unfolding check_capacity
check_capacity-Passed ip user s h = elim (Bool-cases (leb s.max_connections (size s.clients))) [
  | inl full ↦ absurd (ground (arith, full))
  | inr free ↦ elim (Bool-cases (leb max_connections_per_ip (count_of ip s.ip_connection_counts))) [
    | inl many ↦ absurd (ground (arith, free, many))
    | inr few ↦ record {
      room = ground arith;
      ip_room = ground arith;
      user_room = ground (arith, free, few);
    }
  ]
]

one_more :
    (key : Text) (limit : ℕ) (total : Text → ℕ)
    → ((k : Text) → total k ≤ limit)
    → total key < limit
    → (k : Text) → total k + bit (text_eq key k) ≤ limit
one_more key limit total h less k = elim (Bool-cases (text_eq key k)) [
  | inl same ↦ let e : key ≡ k = (text_eq_iff key k).0 same in rw same (rw⁻¹ e (omega arith))
  | inr other ↦ let old = h k in rw other (omega arith)
]

one_more_user :
    (user : Option Text) (s : Service)
    → IsValid s
    → check_user user s.user_connection_counts ≡ allowed
    → ((k : Text) → number (of_user k) s.clients ≤ max_connections_per_user)
    → (k : Text) → number (of_user k) s.clients + bit (is_user user k) ≤ max_connections_per_user
unfolding check_user
one_more_user none s v room h k = let old = h k in omega arith
one_more_user (some u) s v room h k =
    let total : Text → ℕ = λ j. number (of_user j) s.clients in
    let count = count_of-tally total s.user_connection_counts v.by_user u in
    one_more u max_connections_per_user total h (ground (arith, count)) k

add_client-IsWithin :
    (id : Text) (subscriptions : List Text) (ip : Text) (user : Option Text) (s : Service)
    → IsValid s
    → check_capacity ip user s ≡ allowed
    → lookup id s.clients ≡ none
    → IsWithin s
    → IsWithin (add_client id subscriptions ip user s)
unfolding add_client
add_client-IsWithin id subscriptions ip user s v free fresh h =
    let passed = check_capacity-Passed ip user s free in
    let c : Client = record {
      id = id;
      subscriptions = subscriptions;
      paused = false;
      ip = ip;
      user_id = user;
    } in
    let total : Text → ℕ = λ j. number (from_ip j) s.clients in
    let count = count_of-tally total s.ip_connection_counts v.by_ip ip in
    record {
      per_ip = λ k. rw (number-insert-none (from_ip k) id c s.clients fresh) (
          one_more ip max_connections_per_ip total h.per_ip (ground (arith, count, passed.ip_room))
            k);
      per_user = λ k.
          rw (number-insert-none (of_user k) id c s.clients fresh)
            (one_more_user (user_of user) s v passed.user_room h.per_user k);
      total =
          let e = number-insert-none (λ x. true) id c s.clients fresh in
          let all = number_all s.clients in let room = passed.room in rw e (omega arith);
    }

-- Where each connection is opened under a new id and in one step with a capacity check that lets it
-- pass, the limits of five clients an address, ten a user and the configured number in all hold after
-- any sequence of operations, whatever the network does.
pub Steps-IsWithin :
    (s s' : Service) → IsValid s → IsWithin s → Steps WhenAllowed s s' → IsWithin s'
Steps-IsWithin s _ v h start = h
Steps-IsWithin s _ v h (opened {s'} id subscriptions ip user r free fresh) =
    add_client-IsWithin id subscriptions ip user s' (Steps-IsValid WhenAllowed s s' v r) free fresh
      (Steps-IsWithin s s' v h r)
Steps-IsWithin s _ v h (closed {s'} id r) =
    Shrinks-IsWithin s' _ (remove_client-Shrinks id s' (Steps-IsValid WhenAllowed s s' v r))
      (Steps-IsWithin s s' v h r)
Steps-IsWithin s _ v h (sent {s'} net message keep r) =
    Shrinks-IsWithin s' _
      (broadcast-Shrinks net message keep s' (Steps-IsValid WhenAllowed s s' v r))
      (Steps-IsWithin s s' v h r)
Steps-IsWithin s _ v h (beat {s'} net r) =
    Shrinks-IsWithin s' _ (send_heartbeat-Shrinks net s' (Steps-IsValid WhenAllowed s s' v r))
      (Steps-IsWithin s s' v h r)
Steps-IsWithin s _ v h (drained {s'} id r) =
    Shrinks-IsWithin s' _ (drain-Shrinks id s' (Steps-IsValid WhenAllowed s s' v r))
      (Steps-IsWithin s s' v h r)
Steps-IsWithin s _ v h (stopped {s'} net r) =
    Shrinks-IsWithin s' _
      (send_reconnect_to_all-Shrinks net s' (Steps-IsValid WhenAllowed s s' v r))
      (Steps-IsWithin s s' v h r)
