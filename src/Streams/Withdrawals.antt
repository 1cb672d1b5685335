-- ===== src/Streams/Withdrawals.antt =====
-- Withdrawals by others leave the streams between two users alone, in
-- backend/src/routes/v1/streams/withdraw.ts.
use flowfi.Prelude.{
  ℕ, Bool, true, false, Option, none, some, [], ◌∷◌, if◌then◌else◌, ◌≡◌, refl, ap, sym, ◌∙◌, ◌==◌,
  arith, Bool-cases, Option-cases, inl, inr,
}
use flowfi.Prelude.Text.{Text, text_eq}
use flowfi.Claimable.{Result}
use flowfi.Indexer.Tables.{
  Stream, Db, find_stream, replace_stream, upsert_event, find_event, withdrawn,
}
use flowfi.Indexer.Rows.{KeepsId, find_stream-replace}
use flowfi.Streams.{Reply, signed_in, parse_stream_id}
use flowfi.Streams.Withdraw.{
  WithdrawReply, ClaimableService, add_withdrawn, is_used_up, withdraw_row, close_row,
  withdraw_transaction, note_withdrawal, withdrawal_failed, store_withdrawal, submit_withdrawal,
  withdraw_found, withdraw_handler, claimable_now,
}
use flowfi.Streams.Ownership.{alone, of_sender, Keeps, other_sender}

abbrev of_recipient : Text → Option Stream → Option Stream
of_recipient b none = none
of_recipient b (some s) = if text_eq s.recipient b then some s else none

-- A row, if its sender and its recipient are two users.
abbrev pub of_parties : Text → Text → Option Stream → Option Stream
of_parties a b none = none
of_parties a b (some s) =
    if text_eq s.sender a then if text_eq s.recipient b then some s else none else none

of_parties-sender :
    (a b : Text) (o : Option Stream) → of_parties a b o ≡ of_recipient b (of_sender a o)
of_parties-sender a b none = refl
of_parties-sender a b (some s) = elim (Bool-cases (text_eq s.sender a)) [
  | inl mine ↦ rw mine refl
  | inr other ↦ rw other refl
]

abbrev pub KeepsBoth : Text → Text → ℕ → Db → Db → Type 0
KeepsBoth a b id db db' =
    of_parties a b (find_stream id db'.streams) ≡ of_parties a b (find_stream id db.streams)

pub Keeps-KeepsBoth :
    (a b : Text) (id : ℕ) (db db' : Db) → Keeps a id db db' → KeepsBoth a b id db db'
Keeps-KeepsBoth a b id db db' h =
    of_parties-sender a b (find_stream id db'.streams)
    ∙ ap (of_recipient b) h
    ∙ sym (of_parties-sender a b (find_stream id db.streams))

of_parties-other :
    (a b : Text) (s : Stream) → text_eq s.recipient b ≡ false → of_parties a b (some s) ≡ none
of_parties-other a b s h = elim (Bool-cases (text_eq s.sender a)) [
  | inl mine ↦ rw (mine, h) refl
  | inr other ↦ rw other refl
]

replace_stream-KeepsBoth :
    (a b : Text) (j k : ℕ) (f : Stream → Stream) (db : Db) (s : Stream)
    → KeepsId f
    → ((x : Stream) → (f x).recipient ≡ x.recipient)
    → find_stream k db.streams ≡ some s
    → text_eq s.recipient b ≡ false
    → KeepsBoth a b j db (record db { streams = replace_stream k f db.streams })
replace_stream-KeepsBoth a b j k f db s id recipient found other =
    let now = find_stream-replace j k f db.streams id in
    elim (Bool-cases (j == k)) [
      | inl same ↦
          let e : j ≡ k = ground arith in
          let at : find_stream j db.streams ≡ some s = rw e found in
          let still : text_eq (f s).recipient b ≡ false =
            ap (λ x. text_eq x b) (recipient s) ∙ other in
          rw now
            (rw (same, at) (of_parties-other a b (f s) still ∙ sym (of_parties-other a b s other)))
      | inr apart ↦ rw (now, apart) refl
    ]

-- What a step that may fail has left.
abbrev left_by : Db → Option (Option Stream × Db) → Db
left_by db none = db
left_by db (some (refreshed, after)) = after

close_row-id : (used_up : Bool) (s : Stream) → (close_row used_up s).stream_id ≡ s.stream_id
close_row-id true s = refl
close_row-id false s = refl

close_row-recipient : (used_up : Bool) (s : Stream) → (close_row used_up s).recipient ≡ s.recipient
close_row-recipient true s = refl
close_row-recipient false s = refl

withdraw_transaction-KeepsBoth :
    (a b : Text) (j now id : ℕ) (amount : Text) (was_active : Bool) (db : Db) (s : Stream)
    → find_stream id db.streams ≡ some s
    → text_eq s.recipient b ≡ false
    → KeepsBoth a b j db (left_by db (withdraw_transaction now id amount was_active db))
unfolding withdraw_transaction
withdraw_transaction-KeepsBoth a b j now id amount was_active db s found other =
    elim (Option-cases (add_withdrawn s.withdrawn_amount amount)) [
      | inl bad ↦ ground (arith, found, bad)
      | inr (total, sum) ↦ elim (Option-cases (is_used_up was_active (withdraw_row now total s))) [
        | inl bad ↦ ground (arith, found, sum, bad)
        | inr (used_up, u) ↦
            let kept : KeepsBoth a b j db (record db {
              streams =
                  replace_stream id (λ x. close_row used_up (withdraw_row now total x)) db.streams;
            }) =
              replace_stream-KeepsBoth a b j id (λ x. close_row used_up (withdraw_row now total x))
                db s (λ x. close_row-id used_up (withdraw_row now total x))
                (λ x. close_row-recipient used_up (withdraw_row now total x)) found other in
            ground (arith, found, sum, u, kept)
      ]
    ]

note_withdrawal-streams :
    (now id : ℕ) (amount tx_hash caller : Text) (refreshed : Option Stream) (db : Db)
    → (note_withdrawal now id amount tx_hash caller refreshed db).1.streams ≡ db.streams
unfolding note_withdrawal upsert_event
note_withdrawal-streams now id amount tx_hash caller refreshed db =
    elim (Option-cases (find_event tx_hash withdrawn db.events)) [
      | inl absent ↦ elim (Option-cases (find_stream id db.streams)) [
        | inl gone ↦ ground (arith, absent, gone)
        | inr (s, found) ↦ ground (arith, absent, found)
      ]
      | inr (e, there) ↦ ground (arith, there)
    ]

note_withdrawal-KeepsBoth :
    (a b : Text) (j now id : ℕ) (amount tx_hash caller : Text) (refreshed : Option Stream)
    (db after : Db)
    → KeepsBoth a b j db after
    → KeepsBoth a b j db (note_withdrawal now id amount tx_hash caller refreshed after).1
note_withdrawal-KeepsBoth a b j now id amount tx_hash caller refreshed db after h =
    ap (λ l. of_parties a b (find_stream j l))
      (note_withdrawal-streams now id amount tx_hash caller refreshed after)
    ∙ h

store_withdrawal-KeepsBoth :
    (a b : Text) (j now id : ℕ) (amount tx_hash caller : Text) (was_active : Bool) (db : Db)
    (s : Stream)
    → find_stream id db.streams ≡ some s
    → text_eq s.recipient b ≡ false
    → KeepsBoth a b j db (store_withdrawal now id amount tx_hash caller was_active db).1
unfolding store_withdrawal
store_withdrawal-KeepsBoth a b j now id amount tx_hash caller was_active db s found other =
    go (withdraw_transaction now id amount was_active db)
      (withdraw_transaction-KeepsBoth a b j now id amount was_active db s found other)
  where
    go :
        (o : Option (Option Stream × Db))
        → KeepsBoth a b j db (left_by db o)
        → KeepsBoth a b j db
            (elim o as (λ x. Reply WithdrawReply × Db) [
              | none ↦ (withdrawal_failed, db)
              | some (refreshed, after) ↦
                  note_withdrawal now id amount tx_hash caller refreshed after
            ]).1
    go none h = h
    go (some (refreshed, after)) h =
        note_withdrawal-KeepsBoth a b j now id amount tx_hash caller refreshed db after h

withdraw_found-KeepsBoth :
    (a b caller : Text) (j now id : ℕ) (s : Stream) (claimable : Option Result)
    (answer : Option Text) (db : Db)
    → ¬ (caller ≡ b)
    → find_stream id db.streams ≡ some s
    → KeepsBoth a b j db (withdraw_found now caller id s claimable (alone answer) db).1
unfolding withdraw_found submit_withdrawal
withdraw_found-KeepsBoth a b caller j now id s none answer db apart found =
    ground (arith, Bool-cases (text_eq s.recipient caller))
withdraw_found-KeepsBoth a b caller j now id s (some result) none db apart found =
    ground (arith, Bool-cases (text_eq s.recipient caller), Bool-cases result.value.actionable)
withdraw_found-KeepsBoth a b caller j now id s (some result) (some tx_hash) db apart found =
    elim (Bool-cases (text_eq s.recipient caller)) [
      | inr other ↦ ground (arith, other)
      | inl mine ↦ ground (
        arith,
        mine,
        store_withdrawal-KeepsBoth a b j now id result.value.claimable_amount tx_hash caller
            s.is_active db s found (other_sender s.recipient caller b mine apart),
        Bool-cases result.value.actionable,
      )
    ]

pub withdraw_handler-KeepsBoth :
    (a b : Text) (user : Option Text) (j now : ℕ) (raw_id : Text) (service : ClaimableService)
    (answer : Option Text) (db : Db)
    → ¬ (signed_in user ≡ some b)
    → KeepsBoth a b j db (withdraw_handler now user raw_id service (alone answer) db).1
unfolding withdraw_handler
withdraw_handler-KeepsBoth a b none j now raw_id service answer db apart = refl
withdraw_handler-KeepsBoth a b (some []) j now raw_id service answer db apart = refl
withdraw_handler-KeepsBoth a b (some (c ∷ key)) j now raw_id service answer db apart =
    elim (Option-cases (parse_stream_id raw_id)) [
      | inl bad ↦ ground (arith, bad)
      | inr (id, i) ↦ elim (Option-cases (find_stream id db.streams)) [
        | inl absent ↦ ground (arith, i, absent)
        | inr (s, found) ↦ ground (
          arith,
          i,
          found,
          withdraw_found-KeepsBoth a b (c ∷ key) j now id s (claimable_now service s) answer db
              (λ h. apart (ap some h)) found,
        )
      ]
    ]
