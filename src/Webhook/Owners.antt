-- ===== src/Webhook/Owners.antt =====
-- Operations of one user leave the subscriptions of another alone, in
-- backend/src/services/webhook.service.ts.
use flowfi.Prelude.{
  Bool, true, false, Option, none, some, List, [], ◌∷◌, ◌++◌, if◌then◌else◌, ◌≡◌, refl, ap, sym,
  ◌∙◌, ◌==◌, length, arith, All, All-append, select, Bool-cases, inl, inr,
}
use mathlib.Core.List.{reverse}
use mathlib.Core.Path.{subst}
use flowfi.Prelude.Text.{Text, text_eq, text_eq_iff}
use flowfi.Webhook.{
  WebhookSubscription, Tables, Input, Error, not_found, or_default, is_taken, Outcome, ok, err,
  find_subscription, has_id, is_owned, update_many, set_subscriptions, deactivate, is_https,
  is_accepted, apply_input, create_webhook_subscription, list_webhook_subscriptions,
  delete_webhook_subscription, update_webhook_subscription, regenerate_webhook_secret,
}

abbrev pub LacksId : Text → List WebhookSubscription → Type 0
LacksId id l = All (λ s. text_eq s.id id ≡ false) l

abbrev pub HasUniqueIds : List WebhookSubscription → Type 0
HasUniqueIds [] = Unit
HasUniqueIds (s ∷ l) = LacksId s.id l × HasUniqueIds l

some_ne_none : {A : Type 0} {a : A} → ¬ (some a ≡ none)
some_ne_none h = cc

abbrev rows_of : Text → List WebhookSubscription → List WebhookSubscription
rows_of user l = select (λ s. text_eq s.user_address user) l

-- The owner that a body names, if any, is not a user.
abbrev pub GivesNone : Text → Option Text → Type 0
GivesNone user none = Unit
GivesNone user (some owner) = text_eq owner user ≡ false

-- An operation of another than a user. The id of a new row is new, and an update names no id and
-- does not give the row to the user.
pub data Acts (user other : Text) (t : Tables) : Tables → Type 0 where
  creates :
      (id secret url : Text) (events : List Text) {row : WebhookSubscription} {u : Tables}
      → LacksId id t.subscriptions
      → create_webhook_subscription id secret other url events t ≡ ok (row, u)
      → Acts user other t u
  deletes : (id : Text) → Acts user other t (delete_webhook_subscription id other t)
  updates :
      (id : Text) (input : Input)
      → input.id ≡ none
      → GivesNone user input.user_address
      → Acts user other t (update_webhook_subscription id other input t).1
  regenerates :
      (secret id : Text) {key : Text} {u : Tables}
      → regenerate_webhook_secret secret id other t ≡ ok (key, u)
      → Acts user other t u

-- A run of operations by other users than one.
pub data RunsWithout (user : Text) : Tables → Tables → Type 0 where
  done : {t : Tables} → RunsWithout user t t
  next :
      {other : Text} {t u v : Tables}
      → text_eq other user ≡ false
      → Acts user other t u
      → RunsWithout user u v
      → RunsWithout user t v

-- A change keeps the id of a row, and a row that is not of a user does not become one.
abbrev Keeps : Text → (WebhookSubscription → WebhookSubscription) → Type 0
Keeps user change =
    (s : WebhookSubscription)
    → ((change s).id ≡ s.id)
      × (text_eq s.user_address user ≡ false → text_eq (change s).user_address user ≡ false)

rows_of-update_many :
    (user : Text) (test : WebhookSubscription → Bool)
    (change : WebhookSubscription → WebhookSubscription) (l : List WebhookSubscription)
    → Keeps user change
    → All (λ s. test s ≡ true → text_eq s.user_address user ≡ false) l
    → rows_of user (update_many test change l) ≡ rows_of user l
unfolding update_many
rows_of-update_many user test change [] keeps h = refl
rows_of-update_many user test change (s ∷ l) keeps (p, h) =
    let rest = rows_of-update_many user test change l keeps h in
    elim (Bool-cases (test s)) [
      | inl hit ↦
          let other = p hit in
          let still : text_eq (change s).user_address user ≡ false = (keeps s).1 other in
          rw (hit, still, other) rest
      | inr missed ↦ rw missed (ap (λ r. if text_eq s.user_address user then s ∷ r else r) rest)
    ]

LacksId-update_many :
    (user id : Text) (test : WebhookSubscription → Bool)
    (change : WebhookSubscription → WebhookSubscription) (l : List WebhookSubscription)
    → Keeps user change
    → LacksId id l
    → LacksId id (update_many test change l)
unfolding update_many
LacksId-update_many user id test change [] keeps h = tt
LacksId-update_many user id test change (s ∷ l) keeps (p, h) = elim (Bool-cases (test s)) [
  | inl hit ↦
      rw hit
        (ap (λ a. text_eq a id) (keeps s).0 ∙ p, LacksId-update_many user id test change l keeps h)
  | inr missed ↦ rw missed (p, LacksId-update_many user id test change l keeps h)
]

update_many-HasUniqueIds :
    (user : Text) (test : WebhookSubscription → Bool)
    (change : WebhookSubscription → WebhookSubscription) (l : List WebhookSubscription)
    → Keeps user change
    → HasUniqueIds l
    → HasUniqueIds (update_many test change l)
unfolding update_many
update_many-HasUniqueIds user test change [] keeps h = tt
update_many-HasUniqueIds user test change (s ∷ l) keeps (p, h) =
    let rest = update_many-HasUniqueIds user test change l keeps h in
    let fresh = LacksId-update_many user s.id test change l keeps p in
    elim (Bool-cases (test s)) [
      | inl hit ↦ rw hit (rw (keeps s).0 fresh, rest)
      | inr missed ↦ rw missed (fresh, rest)
    ]

All-of :
    {P : WebhookSubscription → Type 0}
    → ((s : WebhookSubscription) → P s)
    → (l : List WebhookSubscription) → All P l
All-of p [] = tt
All-of p (s ∷ l) = (p s, All-of p l)

is_owned-other :
    (id user other : Text) (s : WebhookSubscription)
    → text_eq other user ≡ false
    → is_owned id other s ≡ true
    → text_eq s.user_address user ≡ false
is_owned-other id user other s apart h =
    let owned : text_eq s.user_address other ≡ true = ground (arith, h) in
    let same : s.user_address ≡ other = (text_eq_iff s.user_address other).0 owned in
    ap (λ a. text_eq a user) same ∙ apart

no_row :
    (id key : Text) (test : WebhookSubscription → Type 0) (l : List WebhookSubscription)
    → LacksId key l
    → text_eq key id ≡ true
    → All (λ s. has_id id s ≡ true → test s) l
no_row id key test [] h e = tt
no_row id key test (s ∷ l) (p, h) e = (
  (λ q. absurd (ground (arith, text_eq_iff s.id id, text_eq_iff key id, text_eq_iff s.id key))),
  no_row id key test l h e,
)

find_of_LacksId :
    (id other : Text) (l : List WebhookSubscription)
    → LacksId id l
    → find_subscription (is_owned id other) l ≡ none
unfolding find_subscription
find_of_LacksId id other [] h = refl
find_of_LacksId id other (s ∷ l) (p, h) =
    let missed : is_owned id other s ≡ false = ground (arith, p) in
    rw missed (find_of_LacksId id other l h)

-- With unique ids, the row of an id that some user owns is no row of another user.
has_id-other :
    (id user other : Text) (owned : WebhookSubscription) (l : List WebhookSubscription)
    → text_eq other user ≡ false
    → HasUniqueIds l
    → find_subscription (is_owned id other) l ≡ some owned
    → All (λ s. has_id id s ≡ true → text_eq s.user_address user ≡ false) l
unfolding find_subscription
has_id-other id user other owned [] apart h e = tt
has_id-other id user other owned (s ∷ l) apart (p, h) e = elim (Bool-cases (is_owned id other s)) [
  | inl here ↦
      (λ q. is_owned-other id user other s apart here, no_row id s.id _ l p (ground (arith, here)))
  | inr gone ↦
      let later : find_subscription (is_owned id other) l ≡ some owned = ground (arith, gone) in
      (
        λ q.
            let same : s.id ≡ id = (text_eq_iff s.id id).0 q in
            let lacks : LacksId id l = rw (sym same) p in
            let absent = find_of_LacksId id other l lacks in
            absurd (some_ne_none (sym later ∙ absent)),
        has_id-other id user other owned l apart h later,
      )
]

LacksId-snoc :
    (id : Text) (l : List WebhookSubscription) (row : WebhookSubscription)
    → LacksId row.id l
    → HasUniqueIds l
    → HasUniqueIds (l ++ row ∷ [])
LacksId-snoc id [] row h k = (tt, tt)
LacksId-snoc id (s ∷ l) row (p, h) (q, k) =
    let apart : text_eq row.id s.id ≡ false =
      ground (arith, text_eq_iff s.id row.id, text_eq_iff row.id s.id, p) in
    (
      All-append (λ r. text_eq r.id s.id ≡ false) l (row ∷ []) q (apart, tt),
      LacksId-snoc id l row h k,
    )

rows_of-snoc :
    (user : Text) (l : List WebhookSubscription) (row : WebhookSubscription)
    → text_eq row.user_address user ≡ false
    → rows_of user (l ++ row ∷ []) ≡ rows_of user l
rows_of-snoc user [] row h = rw h refl
rows_of-snoc user (s ∷ l) row h =
    ap (λ r. if text_eq s.user_address user then s ∷ r else r) (rows_of-snoc user l row h)

-- What an operation of another user keeps.
abbrev Spares : Text → Tables → Tables → Type 0
Spares user t u =
    HasUniqueIds u.subscriptions
    × (rows_of user u.subscriptions ≡ rows_of user t.subscriptions)
    × (u.deliveries ≡ t.deliveries)

update_many-Spares :
    (user : Text) (t : Tables) (test : WebhookSubscription → Bool)
    (change : WebhookSubscription → WebhookSubscription)
    → Keeps user change
    → HasUniqueIds t.subscriptions
    → All (λ s. test s ≡ true → text_eq s.user_address user ≡ false) t.subscriptions
    → Spares user t (set_subscriptions (update_many test change t.subscriptions) t)
update_many-Spares user t test change keeps h others = (
  update_many-HasUniqueIds user test change t.subscriptions keeps h,
  rows_of-update_many user test change t.subscriptions keeps others,
  refl,
)

ok_of_if :
    {A : Type 0} (b : Bool) (m : Outcome A) (x : Error) (a : A)
    → (if b then m else err x) ≡ ok a
    → m ≡ ok a
ok_of_if true m x a h = h
ok_of_if false m x a h = cc

ok_injective : {A : Type 0} (a b : A) → ok a ≡ ok b → a ≡ b
ok_injective a b h = cc

ok_of_find :
    {A : Type 0} (o : Option WebhookSubscription) (a b : A)
    → elim o as (λ x. Outcome A) [ none ↦ err not_found | some owned ↦ ok a ] ≡ ok b
    → ((owned : WebhookSubscription) × (o ≡ some owned)) × (a ≡ b)
ok_of_find none a b h = cc
ok_of_find (some owned) a b h = ((owned, refl), ok_injective _ _ h)

-- What a successful operation has stored.
stored_row :
    (id secret user url : Text) (events : List Text) (t u : Tables) (row : WebhookSubscription)
    → create_webhook_subscription id secret user url events t ≡ ok (row, u)
    → (set_subscriptions (t.subscriptions ++ row ∷ []) t ≡ u)
      × (row.id ≡ id)
      × (row.user_address ≡ user)
unfolding create_webhook_subscription
stored_row id secret user url events t u row h =
    let e = ok_injective _ _ (ok_of_if (is_https url) _ _ _ h) in
    (
      ap (λ r. set_subscriptions (t.subscriptions ++ r ∷ []) t) (sym (ap (λ p. p.0) e))
          ∙ ap (λ p. p.1) e,
      ap (λ p. p.0.id) (sym e),
      ap (λ p. p.0.user_address) (sym e),
    )

if-Spares :
    {A : Type 0} (b : Bool) (user : Text) (t : Tables) (p q : A × Tables)
    → Spares user t p.1
    → Spares user t q.1
    → Spares user t (if b then p else q).1
if-Spares true user t p q h k = h
if-Spares false user t p q h k = k

or_default-other :
    (user : Text) (owner : Option Text) (s : WebhookSubscription)
    → GivesNone user owner
    → text_eq s.user_address user ≡ false
    → text_eq (or_default owner s.user_address) user ≡ false
or_default-other user none s given apart = apart
or_default-other user (some a) s given apart = given

apply_input-Keeps :
    (user : Text) (input : Input)
    → input.id ≡ none
    → GivesNone user input.user_address
    → Keeps user (apply_input input)
apply_input-Keeps user input same given s = (
  ap (λ o. or_default o s.id) same,
  λ apart. or_default-other user input.user_address s given apart,
)

updated-Spares :
    (user other id : Text) (input : Input) (t : Tables)
    → text_eq other user ≡ false
    → HasUniqueIds t.subscriptions
    → input.id ≡ none
    → GivesNone user input.user_address
    → Spares user t (update_webhook_subscription id other input t).1
unfolding update_webhook_subscription
updated-Spares user other id input t apart h same given =
    let still : Spares user t t = (h, refl, refl) in
    let changed =
      update_many-Spares user t (is_owned id other) (apply_input input)
        (apply_input-Keeps user input same given) h
        (All-of (λ s q. is_owned-other id user other s apart q) t.subscriptions) in
    if-Spares (is_accepted input.target_url) user t _ _
      (if-Spares (length (select (is_owned id other) t.subscriptions) == 0) user t _ _ still
        (if-Spares (is_taken input.id id t.subscriptions) user t _ _ still changed))
      still

regenerated_rows :
    (secret id user key : Text) (t u : Tables)
    → regenerate_webhook_secret secret id user t ≡ ok (key, u)
    → ((owned : WebhookSubscription) × (find_subscription (is_owned id user) t.subscriptions
          ≡ some owned))
      × (set_subscriptions
            (update_many (has_id id) (λ s. record s { secret_key = secret }) t.subscriptions)
            t
          ≡ u)
unfolding regenerate_webhook_secret
regenerated_rows secret id user key t u h =
    let (found, e) = ok_of_find (find_subscription (is_owned id user) t.subscriptions) _ _ h in
    (found, ap (λ p. p.1) e)

Acts-Spares :
    (user other : Text) (t u : Tables)
    → text_eq other user ≡ false
    → HasUniqueIds t.subscriptions
    → Acts user other t u
    → Spares user t u
unfolding delete_webhook_subscription
Acts-Spares user other t u apart h (creates id secret url events {row} fresh e) =
    let (stored, key, owner) = stored_row id secret other url events t u row e in
    subst (Spares user t) stored (
      LacksId-snoc id t.subscriptions row (subst (λ k. LacksId k t.subscriptions) (sym key) fresh)
          h,
      rows_of-snoc user t.subscriptions row (ap (λ a. text_eq a user) owner ∙ apart),
      refl,
    )
Acts-Spares user other t u apart h (deletes id) =
    update_many-Spares user t (is_owned id other) deactivate (λ s. (refl, (λ q. q))) h
      (All-of (λ s q. is_owned-other id user other s apart q) t.subscriptions)
Acts-Spares user other t u apart h (updates id input same given) =
    updated-Spares user other id input t apart h same given
Acts-Spares user other t u apart h (regenerates secret id {key} e) =
    let ((owned, q), stored) = regenerated_rows secret id other key t u e in
    subst (Spares user t) stored (
      update_many-Spares user t (has_id id) (λ s. record s { secret_key = secret })
        (λ s. (refl, (λ q. q))) h (has_id-other id user other owned t.subscriptions apart h q))

RunsWithout-Spares :
    (user : Text) (t u : Tables)
    → HasUniqueIds t.subscriptions
    → RunsWithout user t u
    → Spares user t u
RunsWithout-Spares user t u h done = (h, refl, refl)
RunsWithout-Spares user t v h (next {other} {u = u} apart act run) =
    let (unique, rows, deliveries) = Acts-Spares user other t u apart h act in
    let (last, all, sent) = RunsWithout-Spares user u v unique run in
    (last, all ∙ rows, sent ∙ deliveries)

-- From tables whose subscriptions have unique ids, any run of operations by other users than one
-- (creations under a new id, deletions, new secrets, and updates, failing ones included, whose body
-- names no id and does not name that user as the owner) leaves the list of that user's subscriptions,
-- secrets included, and all deliveries as they are.
pub list_webhook_subscriptions-RunsWithout :
    (user : Text) (t u : Tables)
    → HasUniqueIds t.subscriptions
    → RunsWithout user t u
    → (list_webhook_subscriptions user u ≡ list_webhook_subscriptions user t)
      × (u.deliveries ≡ t.deliveries)
unfolding list_webhook_subscriptions
list_webhook_subscriptions-RunsWithout user t u h run =
    let (unique, rows, deliveries) = RunsWithout-Spares user t u h run in
    (ap (λ l. reverse l) rows, deliveries)
