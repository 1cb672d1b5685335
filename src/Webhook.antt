-- ===== src/Webhook.antt =====
-- The webhooks of backend/src/services/webhook.service.ts: the tables of
-- backend/prisma/schema.prisma and the operations on subscriptions. Rows stand in the order of
-- their creation, which `createdAt` records. An id, a secret and a time that an operation draws are
-- its arguments; a throw is an error value.
pub mod Signing
pub mod Deliver
pub mod Binding
pub mod Attempts
pub mod Owners
pub mod Dispatch
pub mod Calls
pub mod Ends
mod Tests
use mathlib.Core.List.{reverse}
use flowfi.Prelude.{
  ℕ, zero, suc, ◌-◌, ◌*◌, Bool, true, false, ◌&&◌, ◌||◌, ◌==◌, Option, none, some, List, [], ◌∷◌,
  ◌++◌, if◌then◌else◌, leb, ltb, min, max, length, take, drop, select, ℤ, pos, negsuc,
}
use flowfi.Prelude.Text.{Text, codes, text_eq}

pub record WebhookSubscription : Type 0 where
  pub id : Text
  pub user_address : Text
  pub target_url : Text
  pub secret_key : Text
  pub event_types : List Text
  pub is_active : Bool

pub record WebhookDelivery : Type 0 where
  pub id : Text
  pub subscription_id : Text
  pub event_type : Text
  pub payload : Text
  pub response_status : Option ℕ
  pub attempts : ℕ
  pub delivered_at : Option ℕ
  pub error : Option Text

pub record Tables : Type 0 where
  pub subscriptions : List WebhookSubscription
  pub deliveries : List WebhookDelivery

pub data Error : Type 0 where
  not_https not_found conflict no_record : Error

pub data Outcome (A : Type 0) : Type 0 where
  ok : A → Outcome A
  err : Error → Outcome A

-- `text.startsWith(prefix)`
unfoldable pub starts_with : Text → Text → Bool
starts_with [] s = true
starts_with (c ∷ p) [] = false
starts_with (c ∷ p) (d ∷ s) = d == c && starts_with p s

abbrev pub is_https : Text → Bool
is_https url = starts_with (codes "https://") url

-- The row of an id, and that of an id and its owner.
unfoldable pub find_subscription :
    (WebhookSubscription → Bool) → List WebhookSubscription → Option WebhookSubscription
find_subscription test [] = none
find_subscription test (s ∷ rest) = if test s then some s else find_subscription test rest

abbrev pub has_id : Text → WebhookSubscription → Bool
has_id id s = text_eq s.id id

abbrev pub is_owned : Text → Text → WebhookSubscription → Bool
is_owned id user s = text_eq s.id id && text_eq s.user_address user

-- `updateMany`: the change is made in every row that passes the test.
unfoldable pub update_many :
    (WebhookSubscription → Bool)
    → (WebhookSubscription → WebhookSubscription)
    → List WebhookSubscription
    → List WebhookSubscription
update_many test change [] = []
update_many test change (s ∷ rest) = (if test s then change s else s) ∷ update_many test change rest

abbrev pub set_subscriptions : List WebhookSubscription → Tables → Tables
set_subscriptions subscriptions t = record t { subscriptions = subscriptions }

unfoldable pub create_webhook_subscription :
    Text → Text → Text → Text → List Text → Tables → Outcome (WebhookSubscription × Tables)
unfolding starts_with
create_webhook_subscription id secret user url event_types t =
    let row : WebhookSubscription = record {
      id = id;
      user_address = user;
      target_url = url;
      secret_key = secret;
      event_types = event_types;
      is_active = true;
    } in
    if is_https url
    then ok (row, set_subscriptions (t.subscriptions ++ row ∷ []) t)
    else err not_https

unfoldable pub list_webhook_subscriptions : Text → Tables → List WebhookSubscription
unfolding text_eq
list_webhook_subscriptions user t =
    reverse (select (λ s. text_eq s.user_address user) t.subscriptions)

abbrev pub deactivate : WebhookSubscription → WebhookSubscription
deactivate s = record s { is_active = false }

unfoldable pub delete_webhook_subscription : Text → Text → Tables → Tables
unfolding update_many text_eq
delete_webhook_subscription id user t =
    set_subscriptions (update_many (is_owned id user) deactivate t.subscriptions) t

-- The body of a request, of which each column that is named is written. A body that names the
-- creation time or no column of the table is not modelled.
pub record Input : Type 0 where
  pub id : Option Text
  pub user_address : Option Text
  pub secret_key : Option Text
  pub target_url : Option Text
  pub event_types : Option (List Text)
  pub is_active : Option Bool

abbrev pub or_default {ℓ} : {A : Type ℓ} → Option A → A → A
or_default none a = a
or_default (some b) a = b

abbrev pub is_accepted : Option Text → Bool
is_accepted none = true
is_accepted (some url) = is_https url

abbrev pub apply_input : Input → WebhookSubscription → WebhookSubscription
apply_input input s = record s {
  id = or_default input.id s.id;
  user_address = or_default input.user_address s.user_address;
  secret_key = or_default input.secret_key s.secret_key;
  target_url = or_default input.target_url s.target_url;
  event_types = or_default input.event_types s.event_types;
  is_active = or_default input.is_active s.is_active;
}

-- What a client sees of a subscription: all but its secret.
pub record SafeSubscription : Type 0 where
  pub id : Text
  pub user_address : Text
  pub target_url : Text
  pub event_types : List Text
  pub is_active : Bool

abbrev pub safe : WebhookSubscription → SafeSubscription
safe s = record {
  id = s.id;
  user_address = s.user_address;
  target_url = s.target_url;
  event_types = s.event_types;
  is_active = s.is_active;
}

abbrev pub or_no_record : Option WebhookSubscription → Outcome SafeSubscription
or_no_record none = err no_record
or_no_record (some s) = ok (safe s)

-- Whether a new id is that of another row.
abbrev pub is_taken : Option Text → Text → List WebhookSubscription → Bool
is_taken none id l = false
is_taken (some new) id l =
    if text_eq new id
    then false
    else elim (find_subscription (has_id new) l) [ none ↦ false | some s ↦ true ]

-- The row is read again by the id of the request, after it was changed.
unfoldable pub update_webhook_subscription :
    Text → Text → Input → Tables → Outcome SafeSubscription × Tables
unfolding starts_with update_many find_subscription text_eq
update_webhook_subscription id user input t =
    let changed = update_many (is_owned id user) (apply_input input) t.subscriptions in
    if is_accepted input.target_url
    then if length (select (is_owned id user) t.subscriptions) == 0
      then (err not_found, t)
      else if is_taken input.id id t.subscriptions
      then (err conflict, t)
      else (or_no_record (find_subscription (has_id id) changed), set_subscriptions changed t)
    else (err not_https, t)

unfoldable pub regenerate_webhook_secret : Text → Text → Text → Tables → Outcome (Text × Tables)
unfolding find_subscription update_many text_eq
regenerate_webhook_secret secret id user t =
    elim (find_subscription (is_owned id user) t.subscriptions) [
      | none ↦ err not_found
      | some owned ↦ ok (
        secret,
        set_subscriptions
            (update_many (has_id id) (λ s. record s { secret_key = secret }) t.subscriptions) t,
      )
    ]

-- `Math.max(1, Math.floor(page) || 1)`, the number given as its floor; `none` is NaN.
abbrev pub safe_page : Option ℤ → ℕ
safe_page (some (pos (suc n))) = suc n
safe_page _ = 1

-- `Math.min(100, Math.max(1, Math.floor(limit) || 20))`
abbrev pub safe_limit : Option ℤ → ℕ
safe_limit none = 20
safe_limit (some (pos n)) = if n == 0 then 20 else min 100 n
safe_limit (some (negsuc n)) = 1

pub record Page : Type 0 where
  pub deliveries : List WebhookDelivery
  pub total : ℕ
  pub page : ℕ
  pub limit : ℕ

-- The deliveries of a subscription, the newest first.
unfoldable pub deliveries_of : Text → Tables → List WebhookDelivery
unfolding text_eq
deliveries_of id t = reverse (select (λ d. text_eq d.subscription_id id) t.deliveries)

unfoldable pub list_webhook_deliveries : Text → Text → Option ℤ → Option ℤ → Tables → Outcome Page
unfolding find_subscription deliveries_of text_eq
list_webhook_deliveries id user page limit t =
    elim (find_subscription (is_owned id user) t.subscriptions) [
      | none ↦ err not_found
      | some owned ↦
          let rows = deliveries_of id t in
          let number = safe_page page in
          let size = safe_limit limit in
          ok (record {
            deliveries = take size (drop ((number - 1) * size) rows);
            total = length rows;
            page = number;
            limit = size;
          })
    ]
