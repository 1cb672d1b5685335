-- ===== src/Streams/Parties.antt =====
-- The requests of others leave the streams between two users alone: creation and top-up of
-- backend/src/controllers/stream.controller.ts, withdrawal of
-- backend/src/routes/v1/streams/withdraw.ts and cancellation of
-- backend/src/controllers/stream/cancel.ts, which are the requests that write a stream's row.
use flowfi.Prelude.{
  ℕ, false, Option, none, some, List, [], ◌∷◌, ◌≡◌, refl, ap, ◌∙◌, arith, Bool-cases, Option-cases,
  inl, inr,
}
use flowfi.Prelude.Text.{Text, text_eq}
use flowfi.Indexer.Tables.{Stream, Db, find_stream, replace_stream, update_stream}
use flowfi.Streams.{CreateInput, ChainStream, signed_in, create_stream, parse_stream_id}
use flowfi.Streams.TopUp.{top_up_stream_handler}
use flowfi.Streams.Withdraw.{
  ClaimableService, Cancelling, hash, simulation_failed, cancelling_failed, withdraw_handler,
  cancel_row, store_cancel, submit_cancel, has_secret, cancel_found, parse_present,
  cancel_stream_handler,
}
use flowfi.Streams.Ownership.{
  alone, Keeps, replace_stream-Keeps, other_sender, create_stream-Keeps,
  top_up_stream_handler-Keeps,
}
use flowfi.Streams.Withdrawals.{of_parties, KeepsBoth, Keeps-KeepsBoth, withdraw_handler-KeepsBoth}

-- A request that writes a stream. While it waits, no other request does.
pub data StreamRequest : Type 0 where
  create : ℕ → Option CreateInput → Option ChainStream → StreamRequest
  top_up : ℕ → Text → Text → Option Text → StreamRequest
  withdraw : ℕ → Text → ClaimableService → Option Text → StreamRequest
  cancel : Text → Option Text → Cancelling → StreamRequest

abbrev pub after_request : Option Text → StreamRequest → Db → Db
after_request user (create now body chain) db = (create_stream now user body chain db).1
after_request user (top_up now raw_id raw_amount answer) db =
    (top_up_stream_handler now user raw_id raw_amount (alone answer) db).1
after_request user (withdraw now raw_id service answer) db =
    (withdraw_handler now user raw_id service (alone answer) db).1
after_request user (cancel raw_id secret answer) db =
    (cancel_stream_handler user raw_id secret answer (λ t. t) db).1

abbrev pub after_requests : List (Option Text × StreamRequest) → Db → Db
after_requests [] db = db
after_requests ((user, request) ∷ rest) db = after_requests rest (after_request user request db)

-- None of the requests is signed by one of two users.
abbrev pub AreNotBy : Text → Text → List (Option Text × StreamRequest) → Type 0
AreNotBy a b [] = Unit
AreNotBy a b ((user, request) ∷ rest) =
    ¬ (signed_in user ≡ some a) × ¬ (signed_in user ≡ some b) × AreNotBy a b rest

store_cancel-Keeps :
    (owner tx_hash : Text) (j id : ℕ) (db : Db) (s : Stream)
    → find_stream id db.streams ≡ some s
    → text_eq s.sender owner ≡ false
    → Keeps owner j db (store_cancel id tx_hash db).1
unfolding store_cancel update_stream
store_cancel-Keeps owner tx_hash j id db s found other =
    let kept : Keeps owner j db (record db { streams = replace_stream id cancel_row db.streams }) =
      replace_stream-Keeps owner j id cancel_row db s (λ x. refl) (λ x. refl) found other in
    ground (arith, found, kept)

submit_cancel-Keeps :
    (owner : Text) (j id : ℕ) (answer : Cancelling) (db : Db) (s : Stream)
    → find_stream id db.streams ≡ some s
    → text_eq s.sender owner ≡ false
    → Keeps owner j db (submit_cancel id answer (λ t. t) db).1
unfolding submit_cancel
submit_cancel-Keeps owner j id (hash tx_hash) db s found other =
    store_cancel-Keeps owner tx_hash j id db s found other
submit_cancel-Keeps owner j id simulation_failed db s found other = refl
submit_cancel-Keeps owner j id cancelling_failed db s found other = refl

cancel_found-Keeps :
    (owner caller : Text) (j id : ℕ) (secret : Option Text) (answer : Cancelling) (db : Db)
    (s : Stream)
    → ¬ (caller ≡ owner)
    → find_stream id db.streams ≡ some s
    → Keeps owner j db (cancel_found caller id secret s answer (λ t. t) db).1
unfolding cancel_found
cancel_found-Keeps owner caller j id secret answer db s apart found =
    elim (Bool-cases (text_eq s.sender caller)) [
      | inr other ↦ ground (arith, other)
      | inl mine ↦ ground (
        arith,
        mine,
        submit_cancel-Keeps owner j id answer db s found
            (other_sender s.sender caller owner mine apart),
        Bool-cases s.is_active,
        Bool-cases (has_secret secret),
      )
    ]

cancel_stream_handler-Keeps :
    (owner : Text) (user : Option Text) (j : ℕ) (raw_id : Text) (secret : Option Text)
    (answer : Cancelling) (db : Db)
    → ¬ (signed_in user ≡ some owner)
    → Keeps owner j db (cancel_stream_handler user raw_id secret answer (λ t. t) db).1
unfolding cancel_stream_handler parse_present
cancel_stream_handler-Keeps owner none j raw_id secret answer db apart = refl
cancel_stream_handler-Keeps owner (some []) j raw_id secret answer db apart = refl
cancel_stream_handler-Keeps owner (some (c ∷ key)) j [] secret answer db apart = refl
cancel_stream_handler-Keeps owner (some (c ∷ key)) j (d ∷ raw) secret answer db apart =
    elim (Option-cases (parse_stream_id (d ∷ raw))) [
      | inl bad ↦ ground (arith, bad)
      | inr (id, i) ↦ elim (Option-cases (find_stream id db.streams)) [
        | inl absent ↦ ground (arith, i, absent)
        | inr (s, found) ↦ ground (
          arith,
          i,
          found,
          cancel_found-Keeps owner (c ∷ key) j id secret answer db s (λ h. apart (ap some h)) found,
        )
      ]
    ]

after_request-KeepsBoth :
    (a b : Text) (user : Option Text) (request : StreamRequest) (id : ℕ) (db : Db)
    → ¬ (signed_in user ≡ some a)
    → ¬ (signed_in user ≡ some b)
    → KeepsBoth a b id db (after_request user request db)
after_request-KeepsBoth a b user (create now body chain) id db h k =
    Keeps-KeepsBoth a b id db (after_request user (create now body chain) db)
      (create_stream-Keeps a user id now body chain db h)
after_request-KeepsBoth a b user (top_up now raw_id raw_amount answer) id db h k =
    Keeps-KeepsBoth a b id db (after_request user (top_up now raw_id raw_amount answer) db)
      (top_up_stream_handler-Keeps a user id now raw_id raw_amount answer db h)
after_request-KeepsBoth a b user (withdraw now raw_id service answer) id db h k =
    withdraw_handler-KeepsBoth a b user id now raw_id service answer db k
after_request-KeepsBoth a b user (cancel raw_id secret answer) id db h k =
    Keeps-KeepsBoth a b id db (after_request user (cancel raw_id secret answer) db)
      (cancel_stream_handler-Keeps a user id raw_id secret answer db h)

-- After any creations, top-ups, withdrawals and cancellations by users other than two, each id stands
-- for a stream from the first to the second exactly if it did before, with the same row, where no
-- other request writes while one waits.
pub after_requests-Keeps :
    (a b : Text) (requests : List (Option Text × StreamRequest)) (db : Db) (id : ℕ)
    → AreNotBy a b requests
    → of_parties a b (find_stream id (after_requests requests db).streams)
      ≡ of_parties a b (find_stream id db.streams)
after_requests-Keeps a b [] db id h = refl
after_requests-Keeps a b ((user, request) ∷ rest) db id (first, second, h) =
    after_requests-Keeps a b rest (after_request user request db) id h
    ∙ after_request-KeepsBoth a b user request id db first second
