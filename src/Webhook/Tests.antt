-- ===== src/Webhook/Tests.antt =====
-- Runs of the webhooks of backend/src/services/webhook.service.ts.
use flowfi.Prelude.{
  ℕ, zero, suc, ◌+◌, ◌%◌, ◌≤◌, ◌≡◌, refl, Bool, true, false, none, some, List, [], ◌∷◌, ◌++◌, pos,
  ◌-ℤ◌, ◌↔◌, map, arith, replicate,
}
use flowfi.Prelude.Text.{Text, codes, text_eq, to_string, decimal}
use flowfi.Webhook.{
  WebhookSubscription, WebhookDelivery, Tables, err, not_https, not_found, no_record, Input,
  create_webhook_subscription, list_webhook_subscriptions, delete_webhook_subscription,
  update_webhook_subscription, regenerate_webhook_secret, list_webhook_deliveries,
}
use flowfi.Webhook.Signing.{
  Hmac, generate_webhook_signature, buffer_from, abs, verify_webhook_signature,
}
use flowfi.Webhook.Deliver.{
  Response, status, thrown, Exchange, WebhookPayload, WebhookRequest, DeliveryState,
  check_consecutive_failures, deliver_webhook,
}
use flowfi.Webhook.Binding.{IsAscii, verify_webhook_signature_iff}
use flowfi.Webhook.Attempts.{IsTried, deliver_webhook-IsTried}
use flowfi.Webhook.Owners.{
  HasUniqueIds, RunsWithout, done, next, deletes, list_webhook_subscriptions-RunsWithout,
}
use flowfi.Webhook.Dispatch.{advance, Dispatching, dispatch_webhook_event}

-- It writes the message itself, in seven bits.
abbrev hmac : Hmac
hmac secret message = map (λ c. c % 128) message

hmac-IsAscii : (secret message : Text) → IsAscii (hmac secret message)
hmac-IsAscii secret [] = tt
hmac-IsAscii secret (c ∷ s) = (omega arith, hmac-IsAscii secret s)

abbrev subscription : Text → Text → WebhookSubscription
subscription id user = record {
  id = id;
  user_address = user;
  target_url = codes "https://a.org/hook";
  secret_key = codes "k";
  event_types = codes "CREATED" ∷ codes "WITHDRAWN" ∷ [];
  is_active = true;
}

abbrev ann : Text
ann = codes "GANN"

abbrev bob : Text
bob = codes "GBOB"

abbrev tables : Tables
tables = record {
  subscriptions = subscription (codes "1") ann ∷ subscription (codes "2") bob ∷ [];
  deliveries = [];
}

abbrev world : DeliveryState
world = record { tables = tables; requests = [] }

-- Two attempts fail and the third delivers.
abbrev answers : ℕ → Response
answers zero = status 500
answers (suc zero) = thrown []
answers (suc (suc n)) = status 204

abbrev exchange : Text → Exchange
exchange id = record {
  row_id = codes "d" ++ id;
  delivery_id = codes "u" ++ id;
  timestamp = pos 1700;
  answer = answers;
  time = λ n. 1700000 + n;
}

abbrev event : WebhookPayload
event = record { event_type = codes "CREATED"; payload_json = codes "{}" }

abbrev delays : List WebhookRequest → List ℕ
delays l = map (λ r. r.delay) l

-- Characters of two, three and four bytes, and half a pair.
four_widths :
    buffer_from (0x61 ∷ 0xe9 ∷ 0x20ac ∷ 0xd83d ∷ 0xde00 ∷ 0xd83d ∷ [])
    ≡ 0x61 ∷ 0xc3 ∷ 0xa9 ∷ 0xe2 ∷ 0x82 ∷ 0xac ∷ 0xf0 ∷ 0x9f ∷ 0x98 ∷ 0x80 ∷ 0xef ∷ 0xbf ∷ 0xbd ∷ []
unfolding buffer_from
four_widths = refl

-- A signature of another length makes the comparison throw.
short_signature :
    verify_webhook_signature (pos 1800) hmac (codes "{}") (codes "00") (codes "k") (pos 1700) 300
    ≡ none
unfolding verify_webhook_signature generate_webhook_signature to_string decimal ◌-ℤ◌
short_signature = refl

late_signature :
    verify_webhook_signature (pos 2001) hmac (codes "{}") (codes "00") (codes "k") (pos 1700) 300
    ≡ some false
unfolding verify_webhook_signature ◌-ℤ◌
late_signature = refl

verify_webhook_signature_iff_example :
    (verify_webhook_signature
        (pos 1800)
        hmac
        (codes "{}")
        (generate_webhook_signature hmac (codes "{}") (codes "k") (pos 1700))
        (codes "k")
        (pos 1700)
        300
      ≡ some true)
    ↔ ((codes "{}" ≡ codes "{}") × (pos 1700 ≡ pos 1700) × (abs (pos 1800 -ℤ pos 1700) ≤ 300))
verify_webhook_signature_iff_example =
    verify_webhook_signature_iff (pos 1800) hmac (codes "{}") (codes "{}") (codes "k") (pos 1700)
      (pos 1700) 300 (hmac-IsAscii (codes "k")) (λ e. refl)

third_delivers :
    delays
      (deliver_webhook hmac
        (subscription (codes "1") ann)
        event
        (exchange (codes "1"))
        world).1.requests
    ≡ 0 ∷ 60000 ∷ 300000 ∷ []
unfolding deliver_webhook
third_delivers = refl

deliver_webhook-IsTried_example :
    (run : IsTried hmac
      (subscription (codes "1") ann)
      event
      (exchange (codes "1"))
      5
      0
      []
      []
      (deliver_webhook hmac (subscription (codes "1") ann) event (exchange (codes "1")) world).0
      (deliver_webhook hmac (subscription (codes "1") ann) event (exchange (codes "1")) world).1)
    × (1 ≤ run.made)
    × (run.made ≤ 5)
deliver_webhook-IsTried_example =
    deliver_webhook-IsTried hmac (subscription (codes "1") ann) event (exchange (codes "1")) world
      tt

-- Deliveries that are still under way count as failures.
abbrev pending : WebhookDelivery
pending = record {
  id = [];
  subscription_id = codes "1";
  event_type = [];
  payload = [];
  response_status = none;
  attempts = 0;
  delivered_at = none;
  error = none;
}

abbrev activities : Tables → List Bool
activities t = map (λ s. s.is_active) t.subscriptions

many_pending :
    activities
      (check_consecutive_failures (codes "1") (record tables { deliveries = replicate 50 pending }))
    ≡ false ∷ true ∷ []
unfolding check_consecutive_failures
many_pending = refl

few_pending :
    activities
      (check_consecutive_failures (codes "1") (record tables { deliveries = replicate 49 pending }))
    ≡ true ∷ true ∷ []
unfolding check_consecutive_failures
few_pending = refl

plain_http :
    create_webhook_subscription (codes "3") (codes "s") ann (codes "http://a") [] tables
    ≡ err not_https
unfolding create_webhook_subscription
plain_http = refl

abbrev no_input : Input
no_input = record {
  id = none;
  user_address = none;
  secret_key = none;
  target_url = none;
  event_types = none;
  is_active = none;
}

foreign_update :
    update_webhook_subscription (codes "2") ann (record no_input { is_active = some false }) tables
    ≡ (err not_found, tables)
unfolding update_webhook_subscription
foreign_update = refl

-- A body that names an owner and a secret puts a row of Ann's into Bob's list.
given_away :
    let after =
      (update_webhook_subscription
        (codes "1")
        ann
        (record no_input { user_address = some bob; secret_key = some [] })
        tables).1 in
    map {B = Text × Text} (λ s. (s.id, s.secret_key)) (list_webhook_subscriptions bob after)
    ≡ (codes "2", codes "k") ∷ (codes "1", []) ∷ []
unfolding update_webhook_subscription list_webhook_subscriptions text_eq
given_away = refl

-- With an id in the body the change is made, although the request fails.
renamed_row :
    let (outcome, after) =
      update_webhook_subscription
        (codes "1")
        ann
        (record no_input { id = some (codes "9") })
        tables in
    (outcome ≡ err no_record) × (map (λ s. s.id) after.subscriptions ≡ codes "9" ∷ codes "2" ∷ [])
unfolding update_webhook_subscription
renamed_row = (refl, refl)

foreign_regenerate : regenerate_webhook_secret (codes "n") (codes "2") ann tables ≡ err not_found
unfolding regenerate_webhook_secret
foreign_regenerate = refl

foreign_deliveries : list_webhook_deliveries (codes "2") ann none none tables ≡ err not_found
unfolding list_webhook_deliveries
foreign_deliveries = refl

tables-HasUniqueIds : HasUniqueIds tables.subscriptions
unfolding text_eq
tables-HasUniqueIds = ((refl, tt), (tt, tt))

run_of_ann : RunsWithout bob tables (
    delete_webhook_subscription
      (codes "2")
      ann
      (delete_webhook_subscription (codes "1") ann tables))
unfolding text_eq
run_of_ann =
    next {other = ann} refl (deletes (codes "1"))
      (next {other = ann} refl (deletes (codes "2")) done)

-- Ann deletes her subscription and tries to delete Bob's.
list_webhook_subscriptions-RunsWithout_example :
    (list_webhook_subscriptions bob (
        delete_webhook_subscription
          (codes "2")
          ann
          (delete_webhook_subscription (codes "1") ann tables))
      ≡ list_webhook_subscriptions bob tables)
    × ((delete_webhook_subscription
          (codes "2")
          ann
          (delete_webhook_subscription (codes "1") ann tables)).deliveries
        ≡ tables.deliveries)
list_webhook_subscriptions-RunsWithout_example =
    list_webhook_subscriptions-RunsWithout bob tables
      (delete_webhook_subscription (codes "2") ann
        (delete_webhook_subscription (codes "1") ann tables))
      tables-HasUniqueIds run_of_ann

-- The first task goes on.
abbrev go_on : Dispatching → Dispatching
go_on d = elim d.tasks [
  | [] ↦ d
  | (s, t) ∷ rest ↦
      let (moved, w) = advance hmac s event (exchange s.id) t d.world in
      record { tasks = (s, moved) ∷ rest; world = w }
]

abbrev begun_for_bob : Dispatching
begun_for_bob = dispatch_webhook_event event (bob ∷ []) world

abbrev ended_for_bob : Dispatching
ended_for_bob = go_on (go_on (go_on (go_on (go_on (go_on (go_on begun_for_bob))))))

abbrev started_for_bob : Dispatching
started_for_bob = go_on (go_on begun_for_bob)
