-- ===== src/Webhook/Dispatch.antt =====
-- `dispatchWebhookEvent` of backend/src/services/webhook.service.ts: its deliveries run in parallel,
-- so each is a task that goes on from one wait to the next. The rows of the query are in no
-- particular order, and any task may go on first.
use flowfi.Prelude.{
  ℕ, zero, suc, true, false, none, List, [], ◌∷◌, ◌≡◌, arith, sym, ◌∙◌, ◌⊎◌, inl, inr, ◌↔◌,
  Bool-cases, map, select, All,
}
use flowfi.Prelude.Text.{Text, text_eq_iff}
use flowfi.Webhook.{WebhookSubscription, Tables}
use flowfi.Webhook.Signing.{Hmac}
use flowfi.Webhook.Deliver.{
  max_retry_attempts, Exchange, WebhookPayload, Step, stop, again, Last, DeliveryState, send,
  note_answer, give_up, with_delivery, is_member, is_subscriber,
}

-- Where a delivery waits: to create its row, before an attempt with the attempts that are left, for
-- the answer to one, or no more.
pub data Task : Type 0 where
  unstarted over : Task
  waiting answering : ℕ → ℕ → Last → Task

module _ (hmac : Hmac) (s : WebhookSubscription) (e : WebhookPayload) (x : Exchange) where
  abbrev pub after_note : ℕ → ℕ → Step → Task × DeliveryState
  after_note left attempt (stop result w) = (over, w)
  after_note left attempt (again last w) = (waiting left (suc attempt) last, w)

  -- From one wait of `deliverWebhook` to the next.
  unfoldable pub advance : Task → DeliveryState → Task × DeliveryState
  unfolding give_up note_answer
  advance unstarted w = (
    waiting max_retry_attempts 0 (record { status = none; error = none }),
    with_delivery hmac s e x w,
  )
  advance (waiting zero attempt last) w = (over, (give_up hmac s e x last w).1)
  advance (waiting (suc left) attempt last) w =
      (answering left attempt last, send hmac s e x attempt w)
  advance (answering left attempt last) w =
      after_note left attempt (note_answer hmac s e x (x.answer attempt) attempt last w)
  advance over w = (over, w)

abbrev pub Tasks : Type 0
Tasks = List (WebhookSubscription × Task)

pub record Dispatching : Type 0 where
  pub tasks : Tasks
  pub world : DeliveryState

-- The deliveries that a dispatch starts.
unfoldable pub dispatch_webhook_event : WebhookPayload → List Text → DeliveryState → Dispatching
unfolding is_member
dispatch_webhook_event e users w = record {
  tasks =
      map (λ s. (s, unstarted)) (select (is_subscriber e.event_type users) w.tables.subscriptions);
  world = w;
}

module _ (hmac : Hmac) (e : WebhookPayload) (exchange : Text → Exchange) where
  -- One of the tasks goes on.
  pub data Advances (w : DeliveryState) : Tasks → Tasks → DeliveryState → Type 0 where
    first :
        {s : WebhookSubscription} {t : Task} {rest : Tasks}
        → Advances w
            ((s, t) ∷ rest)
            ((s, (advance hmac s e (exchange s.id) t w).0) ∷ rest)
            (advance hmac s e (exchange s.id) t w).1
    later :
        {p : WebhookSubscription × Task} {ts us : Tasks} {v : DeliveryState}
        → Advances w ts us v
        → Advances w (p ∷ ts) (p ∷ us) v

  -- Any interleaving of the tasks, between which others write the tables.
  pub data Dispatches (d : Dispatching) : Dispatching → Type 0 where
    begun : Dispatches d d
    advanced :
        {c : Dispatching} {us : Tasks} {v : DeliveryState}
        → Dispatches d c
        → Advances c.world c.tasks us v
        → Dispatches d (record { tasks = us; world = v })
    written :
        {c : Dispatching} (t : Tables)
        → Dispatches d c
        → Dispatches d (record c { world = record (c.world) { tables = t } })

abbrev pub IsOver : Dispatching → Type 0
IsOver d = All (λ p. p.1 ≡ over) d.tasks

abbrev pub IsIn : Text → List Text → Type 0
IsIn a [] = ⊥
IsIn a (b ∷ l) = (b ≡ a) ⊎ IsIn a l

is_member_iff : (a : Text) (l : List Text) → (is_member a l ≡ true) ↔ IsIn a l
unfolding is_member
is_member_iff a [] = ground arith
is_member_iff a (b ∷ l) = ground (arith, text_eq_iff b a, is_member_iff a l)

-- Who subscribes to an event for one of some users.
abbrev pub Subscribes : Text → List Text → WebhookSubscription → Type 0
Subscribes event users s =
    (s.is_active ≡ true) × IsIn s.user_address users × IsIn event s.event_types

-- The rows of a table that subscribe, in its order.
pub data Picks (event : Text) (users : List Text)
    : List WebhookSubscription → List WebhookSubscription → Type 0 where
  no_rows : Picks event users [] []
  picked :
      {s : WebhookSubscription} {l m : List WebhookSubscription}
      → Subscribes event users s
      → Picks event users l m
      → Picks event users (s ∷ l) (s ∷ m)
  left_out :
      {s : WebhookSubscription} {l m : List WebhookSubscription}
      → ¬ Subscribes event users s
      → Picks event users l m
      → Picks event users (s ∷ l) m

true_ne_false : ¬ (true ≡ false)
true_ne_false h = cc

is_subscriber_iff :
    (event : Text) (users : List Text) (s : WebhookSubscription)
    → (is_subscriber event users s ≡ true) ↔ Subscribes event users s
is_subscriber_iff event users s =
    ground (arith, is_member_iff s.user_address users, is_member_iff event s.event_types)

pub select-Picks :
    (event : Text) (users : List Text) (l : List WebhookSubscription)
    → Picks event users l (select (is_subscriber event users) l)
select-Picks event users [] = no_rows
select-Picks event users (s ∷ l) =
    let (to, back) = is_subscriber_iff event users s in
    elim (Bool-cases (is_subscriber event users s)) [
      | inl chosen ↦ rw chosen (picked (to chosen) (select-Picks event users l))
      | inr other ↦
          rw other
            (left_out (λ p. true_ne_false (sym (back p) ∙ other)) (select-Picks event users l))
    ]
