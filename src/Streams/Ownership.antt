-- ===== src/Streams/Ownership.antt =====
-- The requests of one user leave the streams of another alone, in
-- backend/src/controllers/stream.controller.ts.
use flowfi.Prelude.{
  ℕ, true, false, Option, none, some, [], ◌∷◌, ◌++◌, if◌then◌else◌, ◌≡◌, refl, ap, sym, ◌∙◌, ◌==◌,
  arith, ℤ, pos, ◌+ℤ◌, trunc_div, Bool-cases, Option-cases, inl, inr,
}
use mathlib.Core.Path.{subst}
use flowfi.Prelude.Text.{Text, big_int, text_eq, text_eq_iff}
use flowfi.Indexer.Tables.{Stream, Db, find_stream, replace_stream}
use flowfi.Indexer.Rows.{KeepsId, find_stream-replace, find_stream-append}
use flowfi.Streams.{
  CreateInput, ChainStream, signed_in, is_foreign, matches_chain, reactivate, confirmed_stream,
  store_confirmed, confirm, create_checked, create_parsed, create_stream, parse_stream_id,
}
use flowfi.Streams.TopUp.{
  parse_top_up, add_bigint, deposit, Chain, store_top_up, submit_top_up, top_up_found,
  top_up_parsed, top_up_stream_handler,
}

abbrev pub alone : Option Text → Chain
alone answer = record { answer = answer; meanwhile = λ t. t }

-- A row, if it is of a sender.
abbrev pub of_sender : Text → Option Stream → Option Stream
of_sender owner none = none
of_sender owner (some s) = if text_eq s.sender owner then some s else none

abbrev pub Keeps : Text → ℕ → Db → Db → Type 0
Keeps owner id db db' =
    of_sender owner (find_stream id db'.streams) ≡ of_sender owner (find_stream id db.streams)

abbrev KeepsSender : (Stream → Stream) → Type 0
KeepsSender f = (s : Stream) → (f s).sender ≡ s.sender

of_sender-other :
    (owner : Text) (s : Stream) → text_eq s.sender owner ≡ false → of_sender owner (some s) ≡ none
of_sender-other owner s h = rw h refl

pub replace_stream-Keeps :
    (owner : Text) (j k : ℕ) (f : Stream → Stream) (db : Db) (s : Stream)
    → KeepsId f
    → KeepsSender f
    → find_stream k db.streams ≡ some s
    → text_eq s.sender owner ≡ false
    → Keeps owner j db (record db { streams = replace_stream k f db.streams })
replace_stream-Keeps owner j k f db s id sender found other =
    let now = find_stream-replace j k f db.streams id in
    elim (Bool-cases (j == k)) [
      | inl same ↦
          let e : j ≡ k = ground arith in
          let at : find_stream j db.streams ≡ some s = rw e found in
          let still : text_eq (f s).sender owner ≡ false =
            ap (λ a. text_eq a owner) (sender s) ∙ other in
          rw now (
            rw (same, at) (of_sender-other owner (f s) still ∙ sym (of_sender-other owner s other)))
      | inr apart ↦ rw (now, apart) refl
    ]

append-Keeps :
    (owner : Text) (j : ℕ) (db : Db) (s : Stream)
    → text_eq s.sender owner ≡ false
    → Keeps owner j db (record db { streams = db.streams ++ s ∷ [] })
append-Keeps owner j db s other =
    let now = find_stream-append j db.streams s in
    elim (Option-cases (find_stream j db.streams)) [
      | inl absent ↦ elim (Bool-cases (s.stream_id == j)) [
        | inl here ↦ rw now (rw (absent, here) (of_sender-other owner s other))
        | inr there ↦ rw now (rw (absent, there) refl)
      ]
      | inr (x, found) ↦ rw now (rw found refl)
    ]

-- Two texts of which one is a caller's and the other is not.
pub other_sender :
    (a caller owner : Text) → text_eq a caller ≡ true → ¬ (caller ≡ owner) → text_eq a owner ≡ false
other_sender a caller owner h apart = elim (Bool-cases (text_eq a owner)) [
  | inl same ↦ absurd (apart (sym ((text_eq_iff a caller).0 h) ∙ (text_eq_iff a owner).0 same))
  | inr other ↦ other
]

own :
    (caller : Text) (s : Stream)
    → is_foreign caller (some s) ≡ false
    → text_eq s.sender caller ≡ true
own caller s h = ground arith

store_confirmed-Keeps :
    (owner caller : Text) (j now : ℕ) (input : CreateInput) (chain : ChainStream) (end_time : ℤ)
    (db : Db)
    → ¬ (caller ≡ owner)
    → is_foreign caller (find_stream input.stream_id db.streams) ≡ false
    → text_eq chain.sender owner ≡ false
    → Keeps owner j db (store_confirmed now input chain end_time db).1
unfolding store_confirmed
store_confirmed-Keeps owner caller j now input chain end_time db apart mine other =
    elim (Option-cases (find_stream input.stream_id db.streams)) [
      | inr (s, found) ↦
          let own_row : is_foreign caller (some s) ≡ false =
            subst (λ o. is_foreign caller o ≡ false) (found) mine in
          let kept : Keeps owner j db
              (record db { streams = replace_stream input.stream_id (reactivate now) db.streams }) =
            replace_stream-Keeps owner j input.stream_id (reactivate now) db s (λ x. refl)
              (λ x. refl) found (other_sender s.sender caller owner (own caller s own_row) apart) in
          ground (arith, found, kept)
      | inl absent ↦
          let row = confirmed_stream input chain end_time in
          let new : Keeps owner j db (record db { streams = db.streams ++ row ∷ [] }) =
            append-Keeps owner j db row other in
          ground (arith, absent, new)
    ]

confirm-Keeps :
    (owner caller : Text) (j now : ℕ) (input : CreateInput) (rate deposited : ℤ)
    (chain : Option ChainStream) (db : Db)
    → ¬ (caller ≡ owner)
    → text_eq input.sender caller ≡ true
    → is_foreign caller (find_stream input.stream_id db.streams) ≡ false
    → Keeps owner j db (confirm now input rate deposited chain db).1
unfolding confirm
confirm-Keeps owner caller j now input rate deposited none db apart signed mine = refl
confirm-Keeps owner caller j now input rate deposited (some chain) db apart signed mine =
    elim (Bool-cases (matches_chain input rate deposited chain)) [
      | inr differs ↦ rw differs refl
      | inl same ↦
          let e : text_eq chain.sender input.sender ≡ true = unfold matches_chain in ground arith in
          let other : text_eq chain.sender owner ≡ false =
            rw ((text_eq_iff chain.sender input.sender).0 e)
              (other_sender input.sender caller owner signed apart) in
          let kept : Keeps owner j db
              (store_confirmed now input chain (pos input.start_time +ℤ trunc_div deposited rate)
                db).1 =
            store_confirmed-Keeps owner caller j now input chain
              (pos input.start_time +ℤ trunc_div deposited rate) db apart mine other in
          ground (arith, same, kept)
    ]

create_checked-Keeps :
    (owner caller : Text) (j now : ℕ) (input : CreateInput) (rate deposited : ℤ)
    (chain : Option ChainStream) (db : Db)
    → ¬ (caller ≡ owner)
    → text_eq input.sender caller ≡ true
    → Keeps owner j db (create_checked now caller input rate deposited chain db).1
unfolding create_checked
create_checked-Keeps owner caller j now input rate deposited chain db apart signed =
    elim (Bool-cases (is_foreign caller (find_stream input.stream_id db.streams))) [
      | inl foreign ↦ ground (arith, foreign)
      | inr mine ↦ ground (
        arith,
        mine,
        confirm-Keeps owner caller j now input rate deposited chain db apart signed mine,
      )
    ]

create_parsed-Keeps :
    (owner caller : Text) (j now : ℕ) (input : CreateInput) (chain : Option ChainStream) (db : Db)
    → ¬ (caller ≡ owner)
    → Keeps owner j db (create_parsed now caller input chain db).1
unfolding create_parsed
create_parsed-Keeps owner caller j now input chain db apart =
    elim (Bool-cases (text_eq input.sender caller)) [
      | inr other ↦ ground (arith, other)
      | inl signed ↦ elim (Option-cases (big_int input.rate_per_second)) [
        | inl bad ↦ ground (arith, signed, bad)
        | inr (rate, r) ↦ elim (Option-cases (big_int input.deposited_amount)) [
          | inl bad ↦ ground (arith, signed, r, bad)
          | inr (deposited, d) ↦ ground (
            arith,
            signed,
            r,
            d,
            create_checked-Keeps owner caller j now input rate deposited chain db apart signed,
          )
        ]
      ]
    ]

pub create_stream-Keeps :
    (owner : Text) (user : Option Text) (j now : ℕ) (body : Option CreateInput)
    (chain : Option ChainStream) (db : Db)
    → ¬ (signed_in user ≡ some owner)
    → Keeps owner j db (create_stream now user body chain db).1
unfolding create_stream
create_stream-Keeps owner none j now body chain db apart = refl
create_stream-Keeps owner (some []) j now body chain db apart = refl
create_stream-Keeps owner (some (c ∷ key)) j now none chain db apart = refl
create_stream-Keeps owner (some (c ∷ key)) j now (some input) chain db apart =
    create_parsed-Keeps owner (c ∷ key) j now input chain db (λ h. apart (ap some h))

store_top_up-Keeps :
    (owner : Text) (j now id amount : ℕ) (hash : Text) (db : Db) (s : Stream)
    → find_stream id db.streams ≡ some s
    → text_eq s.sender owner ≡ false
    → Keeps owner j db (store_top_up now id amount hash db).1
unfolding store_top_up
store_top_up-Keeps owner j now id amount hash db s found other =
    elim (Option-cases (add_bigint s.deposited_amount amount)) [
      | inl bad ↦ ground (arith, found, bad)
      | inr (total, sum) ↦
          let kept : Keeps owner j db
              (record db { streams = replace_stream id (deposit now total) db.streams }) =
            replace_stream-Keeps owner j id (deposit now total) db s (λ x. refl) (λ x. refl) found
              other in
          ground (arith, found, sum, kept)
    ]

top_up_found-Keeps :
    (owner caller : Text) (j now id amount : ℕ) (answer : Option Text) (db : Db) (s : Stream)
    → ¬ (caller ≡ owner)
    → find_stream id db.streams ≡ some s
    → Keeps owner j db (top_up_found now caller id amount s (alone answer) db).1
unfolding top_up_found submit_top_up
top_up_found-Keeps owner caller j now id amount none db s apart found = ground arith
top_up_found-Keeps owner caller j now id amount (some hash) db s apart found =
    elim (Bool-cases (text_eq s.sender caller)) [
      | inr other ↦ ground (arith, other)
      | inl mine ↦ ground (
        arith,
        mine,
        store_top_up-Keeps owner j now id amount hash db s found
            (other_sender s.sender caller owner mine apart),
      )
    ]

top_up_parsed-Keeps :
    (owner : Text) (user : Option Text) (j now id amount : ℕ) (answer : Option Text) (db : Db)
    → ¬ (signed_in user ≡ some owner)
    → Keeps owner j db (top_up_parsed now user id amount (alone answer) db).1
unfolding top_up_parsed
top_up_parsed-Keeps owner none j now id amount answer db apart = ground arith
top_up_parsed-Keeps owner (some []) j now id amount answer db apart = ground arith
top_up_parsed-Keeps owner (some (c ∷ key)) j now id amount answer db apart =
    elim (Option-cases (find_stream id db.streams)) [
      | inl absent ↦ ground (arith, absent)
      | inr (s, found) ↦ ground (
        arith,
        found,
        top_up_found-Keeps owner (c ∷ key) j now id amount answer db s (λ h. apart (ap some h))
            found,
      )
    ]

pub top_up_stream_handler-Keeps :
    (owner : Text) (user : Option Text) (j now : ℕ) (raw_id raw_amount : Text)
    (answer : Option Text) (db : Db)
    → ¬ (signed_in user ≡ some owner)
    → Keeps owner j db (top_up_stream_handler now user raw_id raw_amount (alone answer) db).1
unfolding top_up_stream_handler
top_up_stream_handler-Keeps owner user j now raw_id raw_amount answer db apart =
    elim (Option-cases (parse_stream_id raw_id)) [
      | inl bad ↦ ground (arith, bad)
      | inr (id, i) ↦ elim (Option-cases (parse_top_up raw_amount)) [
        | inl bad ↦ ground (arith, i, bad)
        | inr (amount, a) ↦
            ground (arith, i, a, top_up_parsed-Keeps owner user j now id amount answer db apart)
      ]
    ]
