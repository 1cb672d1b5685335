-- ===== src/Webhook/Attempts.antt =====
-- The attempts of a delivery by backend/src/services/webhook.service.ts: how many are made, what
-- ends them, and what the delivery's row says afterwards.
use mathlib.Core.Option
use mathlib.Core.Path.{subst}
use mathlib.Core.List.{append_assoc}
use flowfi.Prelude.{
  ℕ, zero, suc, ◌+◌, ◌≤◌, Bool, true, false, Option, none, some, List, [], ◌∷◌, ◌++◌, if◌then◌else◌,
  ◌≡◌, refl, sym, ap, ◌∙◌, inl, inr, arith, All, Bool-cases, append-nil, leb, take,
}
use flowfi.Prelude.Text.{Text, text_eq, text_eq_refl}
use flowfi.Webhook.{
  WebhookSubscription, WebhookDelivery, Tables, set_subscriptions, deliveries_of, update_many,
  has_id, deactivate,
}
use flowfi.Webhook.Signing.{Hmac}
use flowfi.Webhook.Deliver.{
  Response, status, thrown, Exchange, WebhookPayload, WebhookRequest, DeliveryResult, DeliveryState,
  Last, is_delivered, http_error, message_of, update_delivery, note_status, note_error,
  change_delivery, check_consecutive_failures, webhook_request, send, give_up, after_answer, stop,
  again, disable_after, count_failures, try_attempts, new_delivery, with_delivery, deliver_webhook,
}

abbrev pub Fails : Response → Type 0
Fails (status code) = is_delivered code ≡ false
Fails (thrown text) = Unit

-- With so many attempts allowed, the next one so numbered, so many are made; they end with the
-- first that delivers, given by its number and its status, or when no more are allowed.
pub data Tries (answer : ℕ → Response) : ℕ → ℕ → ℕ → Option (ℕ × ℕ) → Type 0 where
  exhausted : {a : ℕ} → Tries answer 0 a 0 none
  delivered :
      {left a code : ℕ}
      → answer a ≡ status code
      → is_delivered code ≡ true
      → Tries answer (suc left) a 1 (some (a, code))
  failed :
      {left a made : ℕ} {found : Option (ℕ × ℕ)}
      → Fails (answer a)
      → Tries answer left (suc a) made found
      → Tries answer (suc left) a (suc made) found

Tries-le :
    (answer : ℕ → Response) {left a made : ℕ} {found : Option (ℕ × ℕ)}
    → Tries answer left a made found
    → made ≤ left
Tries-le answer exhausted = omega arith
Tries-le answer (delivered e d) = omega arith
Tries-le answer (failed f more) = omega (arith, Tries-le answer more)

Tries-pos :
    (answer : ℕ → Response) {left a made : ℕ} {found : Option (ℕ × ℕ)}
    → Tries answer (suc left) a made found
    → 1 ≤ made
Tries-pos answer (delivered e d) = omega arith
Tries-pos answer (failed f more) = omega arith

abbrev pub IsFresh : Text → List WebhookDelivery → Type 0
IsFresh id ds = All (λ d. text_eq d.id id ≡ false) ds

update_delivery-last :
    (id : Text) (change : WebhookDelivery → WebhookDelivery) (base : List WebhookDelivery)
    (d : WebhookDelivery)
    → IsFresh id base
    → d.id ≡ id
    → update_delivery id change (base ++ d ∷ []) ≡ base ++ change d ∷ []
unfolding update_delivery
update_delivery-last id change [] d fresh e =
    let here : text_eq d.id id ≡ true = rw e (text_eq_refl id) in rw here refl
update_delivery-last id change (b ∷ base) d (other, fresh) e =
    rw other (ap (λ l. b ∷ l) (update_delivery-last id change base d fresh e))

check_consecutive_failures-deliveries :
    (id : Text) (t : Tables) → (check_consecutive_failures id t).deliveries ≡ t.deliveries
unfolding check_consecutive_failures
check_consecutive_failures-deliveries id t =
    go (leb disable_after (count_failures (take 50 (deliveries_of id t))))
  where
    go :
        (b : Bool)
        → (if b
            then set_subscriptions (update_many (has_id id) deactivate t.subscriptions) t
            else t).deliveries
          ≡ t.deliveries
    go true = refl
    go false = refl

-- What the result says of the attempt that delivered.
abbrev pub Reports : Option (ℕ × ℕ) → DeliveryResult → Type 0
Reports none r = r.success ≡ false
Reports (some (attempt, code)) r = (r.success ≡ true) × (r.status ≡ code) × (r.error ≡ none)

module _ (hmac : Hmac) (s : WebhookSubscription) (e : WebhookPayload) (x : Exchange) where
  -- The requests of some attempts in a row.
  abbrev pub requests_from : ℕ → ℕ → List WebhookRequest
  requests_from a zero = []
  requests_from a (suc n) = webhook_request hmac s e x a ∷ requests_from (suc a) n

  -- What a run of attempts has done, from a number on, before which the row stood last.
  pub record IsTried (left a : ℕ) (base : List WebhookDelivery) (sent : List WebhookRequest)
      (result : DeliveryResult) (after : DeliveryState) : Type 0 where
    pub made : ℕ
    pub found : Option (ℕ × ℕ)
    pub tries : Tries x.answer left a made found
    pub reports : Reports found result
    pub requests : after.requests ≡ sent ++ requests_from a made
    pub row : WebhookDelivery
    pub stored : after.tables.deliveries ≡ base ++ row ∷ []
    pub row_id : row.id ≡ x.row_id
    pub attempts : row.attempts ≡ a + made
    pub delivered_at : row.delivered_at ≡ Option.map (λ p. x.time p.0) found

  -- A failed attempt before others.
  after_failure :
      (left a : ℕ) (base : List WebhookDelivery) (sent : List WebhookRequest)
      (result : DeliveryResult) (after : DeliveryState)
      → Fails (x.answer a)
      → IsTried left (suc a) base (sent ++ webhook_request hmac s e x a ∷ []) result after
      → IsTried (suc left) a base sent result after
  after_failure left a base sent result after f t = record {
    made = suc t.made;
    found = t.found;
    tries = failed f t.tries;
    reports = t.reports;
    requests = t.requests ∙ append_assoc sent (webhook_request hmac s e x a ∷ []) _;
    row = t.row;
    stored = t.stored;
    row_id = t.row_id;
    attempts = omega (arith, t.attempts);
    delivered_at = t.delivered_at;
  }

  abbrev IsTriedFrom :
      ℕ → ℕ → List WebhookDelivery → List WebhookRequest → DeliveryResult × DeliveryState → Type 0
  IsTriedFrom left a base sent p = IsTried left a base sent p.0 p.1

  pub try_attempts-stop :
      (left a : ℕ) (last : Last) (w : DeliveryState) (result : DeliveryResult)
      (after : DeliveryState)
      → after_answer hmac s e x (x.answer a) a last w ≡ stop result after
      → (result, after) ≡ try_attempts hmac s e x (suc left) a last w
  unfolding try_attempts
  try_attempts-stop left a last w result after q = rw (q, try_attempts) refl

  pub try_attempts-again :
      (left a : ℕ) (last next : Last) (w after : DeliveryState)
      → after_answer hmac s e x (x.answer a) a last w ≡ again next after
      → try_attempts hmac s e x left (suc a) next after
        ≡ try_attempts hmac s e x (suc left) a last w
  unfolding try_attempts
  try_attempts-again left a last next w after q = rw (q, try_attempts) refl

  after_answer-thrown :
      (a : ℕ) (last : Last) (w : DeliveryState) (text : Text)
      → x.answer a ≡ thrown text
      → after_answer hmac s e x (x.answer a) a last w
        ≡ again
            (record last { error = some (message_of text) })
            (change_delivery x.row_id (note_error (message_of text) (suc a)) (send hmac s e x a w))
  unfolding after_answer
  after_answer-thrown a last w text q = ap (λ r. after_answer hmac s e x r a last w) q

  after_answer-delivered :
      (a code : ℕ) (last : Last) (w : DeliveryState)
      → x.answer a ≡ status code
      → is_delivered code ≡ true
      → after_answer hmac s e x (x.answer a) a last w
        ≡ stop
            (record { success = true; status = code; error = none })
            (change_delivery x.row_id (note_status code (suc a) (x.time a)) (send hmac s e x a w))
  unfolding after_answer
  after_answer-delivered a code last w q good =
      ap (λ r. after_answer hmac s e x r a last w) q ∙ rw good refl

  after_answer-refused :
      (a code : ℕ) (last : Last) (w : DeliveryState)
      → x.answer a ≡ status code
      → is_delivered code ≡ false
      → after_answer hmac s e x (x.answer a) a last w
        ≡ again
            (record { status = some code; error = some (http_error code) })
            (change_delivery x.row_id (note_status code (suc a) (x.time a)) (send hmac s e x a w))
  unfolding after_answer
  after_answer-refused a code last w q bad =
      ap (λ r. after_answer hmac s e x r a last w) q ∙ rw bad refl

  try_attempts-IsTried :
      (left a : ℕ) (last : Last) (w : DeliveryState) (base : List WebhookDelivery)
      (d : WebhookDelivery)
      → IsFresh x.row_id base
      → w.tables.deliveries ≡ base ++ d ∷ []
      → d.id ≡ x.row_id
      → d.attempts ≡ a
      → d.delivered_at ≡ none
      → IsTriedFrom left a base w.requests (try_attempts hmac s e x left a last w)
  unfolding try_attempts give_up
  try_attempts-IsTried zero a last w base d fresh stored key tried pending = record {
    made = 0;
    found = none;
    tries = exhausted;
    reports = refl;
    requests = sym (append-nil w.requests);
    row = d;
    stored = check_consecutive_failures-deliveries s.id w.tables ∙ stored;
    row_id = key;
    attempts = omega (arith, tried);
    delivered_at = pending;
  }
  try_attempts-IsTried (suc left) a last w base d fresh stored key tried pending =
      go
        (λ next sent row kept same count open_row.
          try_attempts-IsTried left (suc a) next sent base row fresh kept same count open_row)
        (x.answer a) refl
    where
      change :
          (f : WebhookDelivery → WebhookDelivery)
          → update_delivery x.row_id f w.tables.deliveries ≡ base ++ f d ∷ []
      change f =
          ap (update_delivery x.row_id f) stored ∙ update_delivery-last x.row_id f base d fresh key

      go :
          ((next : Last) (sent : DeliveryState) (row : WebhookDelivery)
            → sent.tables.deliveries ≡ base ++ row ∷ []
            → row.id ≡ x.row_id
            → row.attempts ≡ suc a
            → row.delivered_at ≡ none
            → IsTriedFrom left
                (suc a)
                base
                sent.requests
                (try_attempts hmac s e x left (suc a) next sent))
          → (r : Response) → x.answer a ≡ r
          → IsTriedFrom (suc left) a base w.requests (try_attempts hmac s e x (suc left) a last w)
      go more (thrown text) q =
          let note = note_error (message_of text) (suc a) in
          let sent = change_delivery x.row_id note (send hmac s e x a w) in
          let next : Last = record last { error = some (message_of text) } in
          subst (IsTriedFrom (suc left) a base w.requests)
            (try_attempts-again left a last next w sent (after_answer-thrown a last w text q))
            (after_failure left a base w.requests _ _ (subst Fails (sym q) tt)
              (more next sent (note d) (change note) key refl pending))
      go more (status code) q = elim (Bool-cases (is_delivered code)) [
        | inl good ↦
            let note = note_status code (suc a) (x.time a) in
            let sent = change_delivery x.row_id note (send hmac s e x a w) in
            subst (IsTriedFrom (suc left) a base w.requests)
              (try_attempts-stop left a last w _ sent (after_answer-delivered a code last w q good))
              (record {
                made = 1;
                found = some (a, code);
                tries = delivered q good;
                reports = (refl, refl, refl);
                requests = refl;
                row = note d;
                stored = change note;
                row_id = key;
                attempts = omega arith;
                delivered_at = rw good refl;
              })
        | inr bad ↦
            let note = note_status code (suc a) (x.time a) in
            let sent = change_delivery x.row_id note (send hmac s e x a w) in
            let next : Last = record { status = some code; error = some (http_error code) } in
            subst (IsTriedFrom (suc left) a base w.requests)
              (try_attempts-again left a last next w sent
                (after_answer-refused a code last w q bad))
              (after_failure left a base w.requests _ _ (subst Fails (sym q) bad)
                (more next sent (note d) (change note) key refl (rw bad refl)))
      ]

-- A delivery whose row gets a new id makes at least one attempt and at most five: each sends a
-- request, those before the last fail, and they end with the first that is answered with a status
-- from 200 to 299, or with the fifth. The result is a success exactly in the first case, with that
-- status. The row counts the attempts, and holds the time of the one that delivered, if any.
pub deliver_webhook-IsTried :
    (hmac : Hmac) (s : WebhookSubscription) (e : WebhookPayload) (x : Exchange) (w : DeliveryState)
    → IsFresh x.row_id w.tables.deliveries
    → (run : IsTried hmac s e x 5 0 w.tables.deliveries w.requests
        (deliver_webhook hmac s e x w).0
        (deliver_webhook hmac s e x w).1)
      × (1 ≤ run.made)
      × (run.made ≤ 5)
unfolding deliver_webhook
deliver_webhook-IsTried hmac s e x w fresh =
    let run =
      try_attempts-IsTried hmac s e x 5 0 (record { status = none; error = none })
        (with_delivery hmac s e x w) w.tables.deliveries (new_delivery hmac s e x) fresh refl refl
        refl refl in
    (run, Tries-pos x.answer run.tries, Tries-le x.answer run.tries)
