-- ===== src/Webhook/Deliver.antt =====
-- The delivery of an event by backend/src/services/webhook.service.ts: the attempts, the row of the
-- delivery and the deactivation after failures. What each attempt meets and when is given by an
-- Exchange. A database that fails is not modelled. `deliver_webhook` runs alone; deliveries that run
-- in parallel are those of Dispatch.
use flowfi.Prelude.{
  ℕ, zero, suc, Bool, true, false, ◌&&◌, ◌||◌, Option, none, some, List, [], ◌∷◌, ◌++◌,
  if◌then◌else◌, leb, ltb, take, get_elem?, ℤ,
}
use flowfi.Prelude.Text.{Text, codes, text_eq, decimal}
use flowfi.Webhook.{
  WebhookSubscription, WebhookDelivery, Tables, Outcome, not_found, ok, err, find_subscription,
  is_owned, has_id, update_many, set_subscriptions, deactivate, deliveries_of, or_default,
}
use flowfi.Webhook.Signing.{Hmac, generate_webhook_signature}

abbrev pub max_retry_attempts : ℕ
max_retry_attempts = 5

abbrev pub retry_delays_ms : List ℕ
retry_delays_ms = 0 ∷ 60000 ∷ 300000 ∷ 900000 ∷ 3600000 ∷ []

abbrev pub disable_after : ℕ
disable_after = 50

-- `fetch` gives a status, or throws an error with a message.
pub data Response : Type 0 where
  status : ℕ → Response
  thrown : Text → Response

-- The ids that a delivery draws, the second that it starts, and what each attempt meets.
pub record Exchange : Type 0 where
  pub row_id : Text
  pub delivery_id : Text
  pub timestamp : ℤ
  pub answer : ℕ → Response
  pub time : ℕ → ℕ

pub record WebhookPayload : Type 0 where
  pub event_type : Text
  pub payload_json : Text

-- A request, with how long was waited before it.
pub record WebhookRequest : Type 0 where
  pub delay : ℕ
  pub url : Text
  pub timestamp : ℤ
  pub signature : Text
  pub event_type : Text
  pub delivery_id : Text
  pub body : Text

pub record DeliveryResult : Type 0 where
  pub success : Bool
  pub status : ℕ
  pub error : Option Text

pub record DeliveryState : Type 0 where
  pub tables : Tables
  pub requests : List WebhookRequest

-- `lastStatus` and `lastError`
pub record Last : Type 0 where
  pub status : Option ℕ
  pub error : Option Text

pub data Step : Type 0 where
  stop : DeliveryResult → DeliveryState → Step
  again : Last → DeliveryState → Step

abbrev pub is_delivered : ℕ → Bool
is_delivered code = leb 200 code && ltb code 300

abbrev pub http_error : ℕ → Text
http_error code = codes "HTTP " ++ decimal code

-- `error.message || "Network error"`
abbrev pub message_of : Text → Text
message_of [] = codes "Network error"
message_of (c ∷ s) = c ∷ s

-- `update` of the row of an id.
unfoldable pub update_delivery :
    Text → (WebhookDelivery → WebhookDelivery) → List WebhookDelivery → List WebhookDelivery
unfolding text_eq
update_delivery id change [] = []
update_delivery id change (d ∷ rest) =
    (if text_eq d.id id then change d else d) ∷ update_delivery id change rest

abbrev pub note_status : ℕ → ℕ → ℕ → WebhookDelivery → WebhookDelivery
note_status code attempts now d = record d {
  response_status = some code;
  attempts = attempts;
  delivered_at = if is_delivered code then some now else none;
  error = if is_delivered code then none else some (http_error code);
}

abbrev pub note_error : Text → ℕ → WebhookDelivery → WebhookDelivery
note_error message attempts d = record d { attempts = attempts; error = some message }

abbrev pub change_delivery :
    Text → (WebhookDelivery → WebhookDelivery) → DeliveryState → DeliveryState
change_delivery id change w = record w {
  tables = record (w.tables) { deliveries = update_delivery id change w.tables.deliveries };
}

abbrev pub delay_before : ℕ → ℕ
delay_before zero = 0
delay_before (suc n) = or_default (get_elem? retry_delays_ms (suc n)) 0

abbrev pub count_failures : List WebhookDelivery → ℕ
count_failures [] = 0
count_failures (d ∷ rest) = elim d.delivered_at [ none ↦ suc (count_failures rest) | some at ↦ 0 ]

unfoldable pub check_consecutive_failures : Text → Tables → Tables
unfolding deliveries_of update_many text_eq
check_consecutive_failures id t =
    if leb disable_after (count_failures (take 50 (deliveries_of id t)))
    then set_subscriptions (update_many (has_id id) deactivate t.subscriptions) t
    else t

module _ (hmac : Hmac) (s : WebhookSubscription) (e : WebhookPayload) (x : Exchange) where
  unfoldable pub webhook_request : ℕ → WebhookRequest
  unfolding generate_webhook_signature
  webhook_request attempt = record {
    delay = delay_before attempt;
    url = s.target_url;
    timestamp = x.timestamp;
    signature = generate_webhook_signature hmac e.payload_json s.secret_key x.timestamp;
    event_type = e.event_type;
    delivery_id = x.delivery_id;
    body = e.payload_json;
  }

  abbrev pub send : ℕ → DeliveryState → DeliveryState
  send attempt w = record w { requests = w.requests ++ webhook_request attempt ∷ [] }

  -- When the attempts are used up.
  unfoldable pub give_up : Last → DeliveryState → DeliveryResult × DeliveryState
  unfolding check_consecutive_failures
  give_up last w = (
    record {
      success = false;
      status = or_default last.status 0;
      error = some (or_default last.error (codes "Unknown error"));
    },
    record w { tables = check_consecutive_failures s.id w.tables },
  )

  -- What follows an answer, after the request: the end, or another attempt.
  unfoldable pub note_answer : Response → ℕ → Last → DeliveryState → Step
  unfolding update_delivery decimal
  note_answer (status code) attempt last w =
      let noted = change_delivery x.row_id (note_status code (suc attempt) (x.time attempt)) w in
      if is_delivered code
      then stop (record { success = true; status = code; error = none }) noted
      else again (record { status = some code; error = some (http_error code) }) noted
  note_answer (thrown text) attempt last w =
      again (record last { error = some (message_of text) })
        (change_delivery x.row_id (note_error (message_of text) (suc attempt)) w)

  -- An attempt as a whole.
  unfoldable pub after_answer : Response → ℕ → Last → DeliveryState → Step
  unfolding webhook_request note_answer
  after_answer answer attempt last w = note_answer answer attempt last (send attempt w)

  -- The loop, with the number of attempts that are left.
  unfoldable pub try_attempts : ℕ → ℕ → Last → DeliveryState → DeliveryResult × DeliveryState
  unfolding give_up after_answer
  try_attempts zero attempt last w = give_up last w
  try_attempts (suc left) attempt last w = elim (after_answer (x.answer attempt) attempt last w) [
    | stop result after ↦ (result, after)
    | again next after ↦ try_attempts left (suc attempt) next after
  ]

  abbrev pub new_delivery : WebhookDelivery
  new_delivery = record {
    id = x.row_id;
    subscription_id = s.id;
    event_type = e.event_type;
    payload = e.payload_json;
    response_status = none;
    attempts = 0;
    delivered_at = none;
    error = none;
  }

  abbrev pub with_delivery : DeliveryState → DeliveryState
  with_delivery w = record w {
    tables = record (w.tables) { deliveries = w.tables.deliveries ++ new_delivery ∷ [] };
  }

  unfoldable pub deliver_webhook : DeliveryState → DeliveryResult × DeliveryState
  unfolding try_attempts
  deliver_webhook w =
      try_attempts max_retry_attempts 0 (record { status = none; error = none }) (with_delivery w)

-- `sendTestWebhook`, with the text of its payload.
unfoldable pub send_test_webhook :
    Hmac → Text → Text → Text → Exchange → DeliveryState → Outcome (DeliveryResult × DeliveryState)
unfolding find_subscription deliver_webhook text_eq
send_test_webhook hmac id user payload_json x w =
    elim (find_subscription (λ s. is_owned id user s && s.is_active) w.tables.subscriptions) [
      | none ↦ err not_found
      | some s ↦ ok (
          deliver_webhook hmac s
            (record { event_type = codes "TEST_PING"; payload_json = payload_json }) x w)
    ]

-- `list.includes(text)`
unfoldable pub is_member : Text → List Text → Bool
unfolding text_eq
is_member a [] = false
is_member a (b ∷ rest) = text_eq b a || is_member a rest

abbrev pub is_subscriber : Text → List Text → WebhookSubscription → Bool
is_subscriber event_type users s =
    is_member s.user_address users && s.is_active && is_member event_type s.event_types
