-- ===== src/Webhook/Calls.antt =====
-- Whom a dispatch of backend/src/services/webhook.service.ts calls, and how often.
use flowfi.Prelude.{ℕ, suc, ◌+◌, ◌≤◌, Bool, List, [], ◌∷◌, ◌≡◌, length, select}
use flowfi.Prelude.Text.{Text}
use flowfi.Webhook.{WebhookSubscription}
use flowfi.Webhook.Signing.{Hmac}
use flowfi.Webhook.Deliver.{
  Exchange, WebhookPayload, WebhookRequest, Step, stop, again, DeliveryState,
}
use flowfi.Webhook.Attempts.{requests_from}
use flowfi.Webhook.Dispatch.{Task, unstarted, over, waiting, answering, Tasks, Dispatching}

-- How many requests pass a test.
abbrev pub number : (WebhookRequest → Bool) → List WebhookRequest → ℕ
number test l = length (select test l)

-- How many requests were sent, by where a delivery waits.
abbrev Sent : Task → ℕ → Type 0
Sent unstarted k = k ≡ 0
Sent (waiting left attempt last) k = (k ≡ attempt) × (attempt + left ≡ 5)
Sent (answering left attempt last) k = (k ≡ suc attempt) × (suc attempt + left ≡ 5)
Sent over k = (1 ≤ k) × (k ≤ 5)

world_after : Step → DeliveryState
world_after (stop result w) = w
world_after (again last w) = w

-- What a task has sent after another wait, with what it had sent before.
Continues : (WebhookRequest → Bool) → DeliveryState → DeliveryState → ℕ → ℕ → Type 0
Continues test w v before after = number test v.requests + before ≡ number test w.requests + after

module _ (hmac : Hmac) (s : WebhookSubscription) (e : WebhookPayload) (x : Exchange) where
  -- The requests of a delivery that has sent some.
  sent_by : ℕ → List WebhookRequest
  sent_by k = requests_from hmac s e x 0 k

  Moves : Task → DeliveryState → ℕ → Task × DeliveryState → Type 0
  Moves t w k p =
      (next : ℕ) × Sent p.0 next
      × ((test : WebhookRequest → Bool)
          → Continues test w p.1 (number test (sent_by k)) (number test (sent_by next)))

-- Each subscription has been sent its first requests, one to five.
pub data Called : List WebhookSubscription → List ℕ → Type 0 where
  none_left : Called [] []
  called :
      {s : WebhookSubscription} {l : List WebhookSubscription} {counts : List ℕ} (made : ℕ)
      → 1 ≤ made
      → made ≤ 5
      → Called l counts
      → Called (s ∷ l) (made ∷ counts)

-- Tasks of some subscriptions, with how many requests each has sent.
data Fits : List WebhookSubscription → Tasks → List ℕ → Type 0 where
  no_task : Fits [] [] []
  task :
      {s : WebhookSubscription} {t : Task} {l : List WebhookSubscription} {ts : Tasks}
      {counts : List ℕ} (made : ℕ)
      → Sent t made
      → Fits l ts counts
      → Fits (s ∷ l) ((s, t) ∷ ts) (made ∷ counts)

module _ (hmac : Hmac) (e : WebhookPayload) (exchange : Text → Exchange) where
  -- How many of the first requests to some subscriptions pass a test.
  unfoldable pub total : (WebhookRequest → Bool) → List WebhookSubscription → List ℕ → ℕ
  total test [] counts = 0
  total test (s ∷ l) [] = 0
  total test (s ∷ l) (made ∷ counts) =
      number test (requests_from hmac s e (exchange s.id) 0 made) + total test l counts

  -- The requests are those of before and those of the tasks.
  abbrev Accounts : List WebhookSubscription → DeliveryState → Dispatching → Type 0
  Accounts chosen w d =
      (counts : List ℕ) × Fits chosen d.tasks counts
      × ((test : WebhookRequest → Bool)
          → number test d.world.requests ≡ number test w.requests + total test chosen counts)

  abbrev Follows :
      List WebhookSubscription → DeliveryState → List ℕ → Tasks → DeliveryState → Type 0
  Follows chosen w counts us v =
      (next : List ℕ) × Fits chosen us next
      × ((test : WebhookRequest → Bool)
          → Continues test w v (total test chosen counts) (total test chosen next))
