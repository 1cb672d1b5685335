-- ===== src/Webhook/Ends.antt =====
-- The deliveries of a dispatch end, in backend/src/services/webhook.service.ts.
use flowfi.Prelude.{ℕ, ◌+◌, ◌*◌}
use flowfi.Prelude.Text.{Text}
use flowfi.Webhook.Signing.{Hmac}
use flowfi.Webhook.Deliver.{Exchange, WebhookPayload, DeliveryState}
use flowfi.Webhook.Dispatch.{Task, unstarted, over, waiting, answering, Tasks, Advances}

-- How many waits a task has before it at most.
abbrev waits : Task → ℕ
waits unstarted = 12
waits (waiting left attempt last) = 2 * left + 1
waits (answering left attempt last) = 2 * left + 2
waits over = 0

module _ (hmac : Hmac) (e : WebhookPayload) (exchange : Text → Exchange) where
  -- Some tasks go on, and nothing else.
  data Runs : Tasks → DeliveryState → Tasks → DeliveryState → Type 0 where
    stay : {ts : Tasks} {w : DeliveryState} → Runs ts w ts w
    go :
        {ts us xs : Tasks} {w v y : DeliveryState}
        → Advances hmac e exchange w ts us v
        → Runs us v xs y
        → Runs ts w xs y
