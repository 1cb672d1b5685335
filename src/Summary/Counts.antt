-- ===== src/Summary/Counts.antt =====
-- The numbers of a user's summary, `getUserStreamSummary` of
-- backend/src/controllers/stream.controller.ts, against the rows of the table.
use flowfi.Prelude.{
  ℕ, zero, suc, ◌<◌, ◌/◌, Bool, true, false, not, ◌||◌, Option, none, some, List, [], ◌∷◌, map,
  if◌then◌else◌, ◌≡◌, refl, ap, ◌∙◌, ltb, ltb→lt, length, take, select, arith, ℤ, pos, ◌+ℤ◌, leb_ℤ,
  +ℤ_parts, eq_of_parts, Bool-cases, inl, inr,
}
use mathlib.Core.Path.{subst}
use flowfi.Prelude.Text.{Text, text_eq, big_int, to_string}
use flowfi.MemoryCache.{MemoryCache}
use flowfi.Claimable.{Value}
use flowfi.Indexer.Tables.{Stream, Db}
use flowfi.Summary.{
  UserStreamSummary, SummaryEnv, max_user_streams, insert_newest, sort_newest, user_streams,
  sum_from, sum_string_i128, claimable_from, summary_with, user_summary,
}

+ℤ-swap : (t a b : ℤ) → (t +ℤ a) +ℤ b ≡ (t +ℤ b) +ℤ a
+ℤ-swap t a b = grind (arith, +ℤ_parts, eq_of_parts)

abbrev added : ℤ → Text → ℤ
added total value = elim (big_int value) [ none ↦ total | some n ↦ total +ℤ n ]

added-swap : (t : ℤ) (v w : Text) → added (added t v) w ≡ added (added t w) v
added-swap t v w = go (big_int v) (big_int w)
  where
    plus : ℤ → Option ℤ → ℤ
    plus t none = t
    plus t (some n) = t +ℤ n

    go : (a b : Option ℤ) → plus (plus t a) b ≡ plus (plus t b) a
    go none b = refl
    go (some n) none = refl
    go (some n) (some m) = +ℤ-swap t n m

abbrev amounts_of : List Stream → List Text
amounts_of l = map (λ s. s.withdrawn_amount) l

-- Sorting changes neither the length, nor the number that pass a test, nor the sum.
length-sort_newest : (l : List Stream) → length (sort_newest l) ≡ length l
unfolding sort_newest
length-sort_newest [] = refl
length-sort_newest (s ∷ l) =
    length-insert_newest s (sort_newest l) ∙ ap (λ n. suc n) (length-sort_newest l)
  where
    length-insert_newest :
        (s : Stream) (l : List Stream) → length (insert_newest s l) ≡ suc (length l)
    length-insert_newest s [] = refl
    length-insert_newest s (r ∷ l) = elim (Bool-cases (leb_ℤ r.start_time s.start_time)) [
      | inl later ↦ rw later refl
      | inr earlier ↦ rw earlier (ap (λ n. suc n) (length-insert_newest s l))
    ]

abbrev count : (Stream → Bool) → List Stream → ℕ
count p l = length (select p l)

count-insert_newest :
    (p : Stream → Bool) (s : Stream) (l : List Stream)
    → count p (insert_newest s l) ≡ count p (s ∷ l)
unfolding insert_newest
count-insert_newest p s [] = refl
count-insert_newest p s (r ∷ l) = elim (Bool-cases (leb_ℤ r.start_time s.start_time)) [
  | inl later ↦ rw later refl
  | inr earlier ↦ rw earlier (swap (p r) (p s) (count-insert_newest p s l))
]
  where
    swap :
        (b c : Bool)
        → length (select p (insert_newest s l))
          ≡ length (if p s then s ∷ select p l else select p l)
        → length (if b then r ∷ select p (insert_newest s l) else select p (insert_newest s l))
          ≡ length (
              if p s
              then s ∷ (if b then r ∷ select p l else select p l)
              else (if b then r ∷ select p l else select p l))
    swap true c e = elim (Bool-cases (p s)) [
      | inl counted ↦ ground (arith, counted, e)
      | inr passed ↦ ground (arith, passed, e)
    ]
    swap false c e = e

count-sort_newest : (p : Stream → Bool) (l : List Stream) → count p (sort_newest l) ≡ count p l
unfolding sort_newest
count-sort_newest p [] = refl
count-sort_newest p (s ∷ l) =
    count-insert_newest p s (sort_newest l) ∙ again (p s) (count-sort_newest p l)
  where
    again :
        (b : Bool)
        → length (select p (sort_newest l)) ≡ length (select p l)
        → length (if b then s ∷ select p (sort_newest l) else select p (sort_newest l))
          ≡ length (if b then s ∷ select p l else select p l)
    again true e = ap (λ n. suc n) e
    again false e = e

sum_from-insert_newest :
    (t : ℤ) (s : Stream) (l : List Stream)
    → sum_from t (amounts_of (insert_newest s l)) ≡ sum_from t (amounts_of (s ∷ l))
unfolding sum_from insert_newest
sum_from-insert_newest t s [] = refl
sum_from-insert_newest t s (r ∷ l) = elim (Bool-cases (leb_ℤ r.start_time s.start_time)) [
  | inl later ↦ rw later refl
  | inr earlier ↦ rw earlier (
      sum_from-insert_newest (added t r.withdrawn_amount) s l
      ∙ ap (λ x. sum_from x (amounts_of l)) (added-swap t r.withdrawn_amount s.withdrawn_amount))
]

sum_from-sort_newest :
    (t : ℤ) (l : List Stream) → sum_from t (amounts_of (sort_newest l)) ≡ sum_from t (amounts_of l)
unfolding sort_newest sum_from
sum_from-sort_newest t [] = refl
sum_from-sort_newest t (s ∷ l) =
    sum_from-insert_newest t s (sort_newest l) ∙ sum_from-sort_newest (added t s.withdrawn_amount) l

take_all : (n : ℕ) (l : List Stream) → length (take n l) < n → take n l ≡ l
take_all zero l h = absurd (omega (arith, h))
take_all (suc n) [] h = refl
take_all (suc n) (s ∷ l) h = ap (λ t. s ∷ t) (take_all n l (omega (arith, h)))

abbrev pub sent_by : Text → Db → List Stream
sent_by address db = select (λ s. text_eq s.sender address) db.streams

abbrev pub received_by : Text → Db → List Stream
received_by address db = select (λ s. text_eq s.recipient address) db.streams

-- What a summary says of the rows that were sent and those that were received.
abbrev pub Tells : UserStreamSummary → Text → List Stream → List Stream → Type 0
Tells v address sent received =
    (v.address ≡ address)
    × (v.total_streams_created ≡ length sent)
    × (v.active_outgoing_count ≡ length (select (λ s. s.is_active) sent))
    × (v.active_incoming_count ≡ length (select (λ s. s.is_active) received))
    × (v.total_streamed_out ≡ sum_string_i128 (map (λ s. s.withdrawn_amount) sent))
    × (v.total_streamed_in ≡ sum_string_i128 (map (λ s. s.withdrawn_amount) received))

short_sides : (a b : Bool) → (not a || not b) ≡ false → (a ≡ true) × (b ≡ true)
short_sides true true h = (refl, refl)
short_sides true false h = absurd (ground arith)
short_sides false b h = absurd (ground arith)

sum_newest_first :
    (l : List Stream)
    → sum_string_i128 (amounts_of (sort_newest l)) ≡ sum_string_i128 (amounts_of l)
unfolding sum_string_i128
sum_newest_first l = ap (λ z. to_string z) (sum_from-sort_newest (pos 0) l)

summary_with-Tells :
    (env : SummaryEnv) (address : Text) (sent received : List Stream) (claimable : ℤ)
    → (summary_with env address
        (take max_user_streams (sort_newest sent))
        (take max_user_streams (sort_newest received))
        claimable).truncated
      ≡ false
    → Tells
        (summary_with env address
          (take max_user_streams (sort_newest sent))
          (take max_user_streams (sort_newest received))
          claimable)
        address
        sent
        received
summary_with-Tells env address sent received claimable h =
    let (few_sent, few_received) =
      short_sides (ltb (length (take max_user_streams (sort_newest sent))) max_user_streams)
        (ltb (length (take max_user_streams (sort_newest received))) max_user_streams) h in
    let out = take_all max_user_streams (sort_newest sent) (ltb→lt _ max_user_streams few_sent) in
    let in_rows =
      take_all max_user_streams (sort_newest received) (ltb→lt _ max_user_streams few_received) in
    (
      refl,
      ap (λ l. length l) out ∙ length-sort_newest sent,
      ap (λ l. count (λ s. s.is_active) l) out ∙ count-sort_newest (λ s. s.is_active) sent,
      ap (λ l. count (λ s. s.is_active) l) in_rows ∙ count-sort_newest (λ s. s.is_active) received,
      ap (λ l. sum_string_i128 (amounts_of l)) out ∙ sum_newest_first sent,
      ap (λ l. sum_string_i128 (amounts_of l)) in_rows ∙ sum_newest_first received,
    )

-- A summary that is made and not marked as truncated tells of all rows of the table: how many the
-- address has sent, how many of those that it has sent and received are active, and the sums of
-- what has been withdrawn of them, texts that are no integers left out.
pub user_summary-Tells :
    (env : SummaryEnv) (now : ℕ) (address : Text) (db : Db) (cache : MemoryCache Value)
    (v : UserStreamSummary)
    → (user_summary env now address db cache).1 ≡ some v
    → v.truncated ≡ false
    → Tells v address (sent_by address db) (received_by address db)
unfolding user_summary
user_summary-Tells env now address db cache v made whole =
    go (claimable_from env (pos (now / 1000)) (pos 0) incoming cache).1 made
  where
    incoming : List Stream
    incoming = user_streams (λ s. text_eq s.recipient address) db

    outgoing : List Stream
    outgoing = user_streams (λ s. text_eq s.sender address) db

    after : MemoryCache Value
    after = (claimable_from env (pos (now / 1000)) (pos 0) incoming cache).0

    go :
        (o : Option ℤ)
        → (elim o as (λ _. MemoryCache Value × Option UserStreamSummary) [
          | none ↦ (after, none)
          | some total ↦ (after, some (summary_with env address outgoing incoming total))
        ]).1
          ≡ some v
        → Tells v address (sent_by address db) (received_by address db)
    go none h = absurd (ground arith)
    go (some total) h =
        let same : summary_with env address outgoing incoming total ≡ v = cc in
        subst (λ x. Tells x address (sent_by address db) (received_by address db)) same
          (summary_with-Tells env address (sent_by address db) (received_by address db) total
            (ap (λ x. x.truncated) same ∙ whole))
