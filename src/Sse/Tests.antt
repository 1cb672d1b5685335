-- ===== src/Sse/Tests.antt =====
-- The theorems about the registry of clients, at small services.
use flowfi.Prelude.{◌≡◌, refl, true, false, none, some, [], ◌∷◌, ◌++◌, arith}
use flowfi.Prelude.Text.{Text, codes, text_eq}
use flowfi.Prelude.JsMap.{lookup, insert, erase}
use flowfi.Sse.{
  Service, allowed, check_capacity, check_user, add_client, Network, accepted, thrown, broadcast,
  is_subscribed, has, write_to_all, write_to_client, after_write, remove_client,
}
use flowfi.Sse.Registry.{number}
use flowfi.Sse.Counts.{IsValid, from_ip, add_client-IsValid}
use flowfi.Sse.Sequences.{
  Steps, start, opened, sent, WhenAllowed, new_service, new_service-IsValid, Steps-IsValid,
}
use flowfi.Sse.Race.{Subscribing, Subscribes, subscribe_race}
use flowfi.Sse.Limits.{IsWithin, Steps-IsWithin}
use flowfi.Sse.Delivery.{deliveries, broadcast-written}

abbrev empty : Service
empty = new_service 100

-- One response throws, the others take what is written.
abbrev net : Network
net = record {
  write = λ id message. elim (text_eq id (codes "b")) [ true ↦ thrown | false ↦ accepted ];
  writable_length = λ id. 0;
}

-- A client of one address, subscribed to one stream.
abbrev open_one : Text → Text → Service → Service
open_one id stream s = add_client id (stream ∷ []) (codes "ip") (some (codes "G")) s

abbrev two : Service
two = open_one (codes "b") (codes "7") (open_one (codes "a") (codes "7") empty)

abbrev four : Service
four = open_one (codes "d") (codes "9") (open_one (codes "c") (codes "8") two)

fresh :
    (lookup (codes "a") empty.clients ≡ none)
    × (lookup (codes "b") (open_one (codes "a") (codes "7") empty).clients ≡ none)
    × (check_capacity (codes "ip") (some (codes "G")) empty ≡ allowed)
    × (check_capacity (codes "ip") (some (codes "G")) (open_one (codes "a") (codes "7") empty)
        ≡ allowed)
unfolding add_client lookup insert text_eq check_capacity check_user
fresh = (refl, refl, refl, refl)

two_steps : Steps WhenAllowed empty two
two_steps =
    opened (codes "b") (codes "7" ∷ []) (codes "ip") (some (codes "G"))
      (opened (codes "a") (codes "7" ∷ []) (codes "ip") (some (codes "G")) start (fresh.2)
        (fresh.0))
      (fresh.3) (fresh.1)

empty-IsWithin : IsWithin empty
empty-IsWithin = record {
  per_ip = λ ip. omega arith;
  per_user = λ user. omega arith;
  total = omega arith;
}

Steps-IsValid_example : IsValid (broadcast net (codes "m") (is_subscribed (codes "7")) two)
Steps-IsValid_example =
    Steps-IsValid WhenAllowed empty (broadcast net (codes "m") (is_subscribed (codes "7")) two)
      (new_service-IsValid 100) (sent net (codes "m") (is_subscribed (codes "7")) two_steps)

Steps-IsWithin_example : IsWithin two
Steps-IsWithin_example = Steps-IsWithin empty two (new_service-IsValid 100) empty-IsWithin two_steps

two-IsValid : IsValid two
two-IsValid = Steps-IsValid WhenAllowed empty two (new_service-IsValid 100) two_steps

broadcast-written_example :
    (broadcast net (codes "m") (is_subscribed (codes "7")) two).written
    ≡ two.written ++ deliveries net (is_subscribed (codes "7")) (codes "m") two.clients
broadcast-written_example =
    broadcast-written net (codes "m") (is_subscribed (codes "7")) two two-IsValid

-- The client whose response throws is removed.
broadcast_run :
    let after = broadcast net (codes "m") (is_subscribed (codes "7")) four in
    (after.written ≡ (codes "a", codes "m") ∷ [])
    × (lookup (codes "b") after.clients ≡ none)
    × (lookup (codes "ip") after.ip_connection_counts ≡ some 3)
unfolding add_client lookup insert text_eq broadcast write_to_all write_to_client after_write
    remove_client erase has
broadcast_run = (refl, refl, refl)

abbrev RaceFacts : Type 0
RaceFacts =
    (number (from_ip (codes "ip")) four.clients ≡ 4)
    × (check_capacity (codes "ip") (some (codes "G")) four ≡ allowed)
    × (check_capacity (codes "ip") none four ≡ allowed)
    × (lookup (codes "e") four.clients ≡ none)
    × (lookup (codes "f") four.clients ≡ none)
    × (text_eq (codes "e") (codes "f") ≡ false)

race_runs : RaceFacts
unfolding add_client lookup insert text_eq check_capacity check_user
race_runs = (refl, refl, refl, refl, refl, refl)

four_fresh :
    (lookup (codes "c") two.clients ≡ none)
    × (lookup (codes "d") (open_one (codes "c") (codes "8") two).clients ≡ none)
unfolding add_client lookup insert text_eq
four_fresh = (refl, refl)

four-IsValid : IsValid four
four-IsValid =
    add_client-IsValid (codes "d") (codes "9" ∷ []) (codes "ip") (some (codes "G"))
      (open_one (codes "c") (codes "8") two) four_fresh.1
      (add_client-IsValid (codes "c") (codes "8" ∷ []) (codes "ip") (some (codes "G")) two
        four_fresh.0 two-IsValid)

subscribe_race_example :
    (w : Subscribing) × Subscribes (record { service = four; waiting = [] }) w
    × (w.waiting ≡ [])
    × (number (from_ip (codes "ip")) w.service.clients ≡ 6)
    × ¬ (
        check_capacity
          (codes "ip")
          none
          (add_client (codes "e") [] (codes "ip") (some (codes "G")) four)
        ≡ allowed)
subscribe_race_example =
    subscribe_race (codes "e") (codes "f") (codes "ip") [] [] (some (codes "G")) none four
      four-IsValid race_runs.0 race_runs.1 race_runs.2 race_runs.3 race_runs.4 race_runs.5

line_end : codes "\n" ≡ 10 ∷ []
line_end = refl
