-- ===== src/Streams/Resets.antt =====
-- What `createStream` of backend/src/controllers/stream.controller.ts does to a stream that is
-- there already, in the eyes of backend/src/services/claimable.service.ts.
use flowfi.Prelude.{
  ℕ, Bool, true, false, Option, none, some, [], ◌∷◌, ◌≡◌, ◌≤◌, ◌-◌, refl, ◌∙◌, arith, ℤ, pos,
  pos_part, ◌+ℤ◌, trunc_div, Bool-cases, Option-cases, inl, inr,
}
use flowfi.Prelude.Text.{Text, big_int}
use flowfi.Claimable.{claimable_amount}
use flowfi.Claimable.Amount.{HasAmounts, claimable_closed, end_time}
use flowfi.Indexer.Tables.{Stream, Db, find_stream, replace_stream}
use flowfi.Indexer.Rows.{find_stream-replace}
use flowfi.Indexer.Reachable.{selected}
use flowfi.Streams.{
  Reply, sent, CreateInput, ChainStream, matches_chain, reactivate, store_confirmed, confirm,
  create_checked, create_parsed, create_stream,
}

abbrev Resets : ℕ → ℕ → Db → Db → Type 0
Resets id now db db' = db'.streams ≡ replace_stream id (reactivate now) db.streams

abbrev Creates : ℕ → Stream → Db → Reply Stream × Db → Type 0
Creates now row db' answer = answer ≡ (sent 201 row, db')

module _ (now : ℕ) (input : CreateInput) (db db' : Db) (s row : Stream) where
  store_confirmed-Resets :
      (chain : ChainStream) (end_time : ℤ)
      → find_stream input.stream_id db.streams ≡ some s
      → Creates now row db' (store_confirmed now input chain end_time db)
      → Resets input.stream_id now db db'
  unfolding store_confirmed
  store_confirmed-Resets chain end_time found h = ground (arith, found)

  confirm-Resets :
      (rate deposited : ℤ) (chain : Option ChainStream)
      → find_stream input.stream_id db.streams ≡ some s
      → Creates now row db' (confirm now input rate deposited chain db)
      → Resets input.stream_id now db db'
  unfolding confirm
  confirm-Resets rate deposited none found h = absurd (ground arith)
  confirm-Resets rate deposited (some chain) found h =
      elim (Bool-cases (matches_chain input rate deposited chain)) [
        | inl same ↦
            store_confirmed-Resets chain (pos input.start_time +ℤ trunc_div deposited rate) found
              (ground (arith, same))
        | inr differs ↦ absurd (ground (arith, differs))
      ]

  create_checked-Resets :
      (caller : Text) (rate deposited : ℤ) (chain : Option ChainStream)
      → find_stream input.stream_id db.streams ≡ some s
      → Creates now row db' (create_checked now caller input rate deposited chain db)
      → Resets input.stream_id now db db'
  unfolding create_checked
  create_checked-Resets caller rate deposited chain found h =
      confirm-Resets rate deposited chain found (ground arith)

  create_parsed-Resets :
      (caller : Text) (chain : Option ChainStream)
      → find_stream input.stream_id db.streams ≡ some s
      → Creates now row db' (create_parsed now caller input chain db)
      → Resets input.stream_id now db db'
  unfolding create_parsed
  create_parsed-Resets caller chain found h = elim (Option-cases (big_int input.rate_per_second)) [
    | inl bad ↦ absurd (ground (arith, bad))
    | inr (rate, r) ↦ elim (Option-cases (big_int input.deposited_amount)) [
      | inl bad ↦ absurd (ground (arith, r, bad))
      | inr (deposited, d) ↦
          create_checked-Resets caller rate deposited chain found (ground (arith, r, d))
    ]
  ]

  create_stream-Resets :
      (user : Option Text) (chain : Option ChainStream)
      → find_stream input.stream_id db.streams ≡ some s
      → Creates now row db' (create_stream now user (some input) chain db)
      → Resets input.stream_id now db db'
  unfolding create_stream
  create_stream-Resets none chain found h = absurd (ground arith)
  create_stream-Resets (some []) chain found h = absurd (ground arith)
  create_stream-Resets (some (c ∷ key)) chain found h = create_parsed-Resets (c ∷ key) chain found h

nothing_early : (b : Bool) (p : Option ℤ) (t now : ℕ) → t ≤ now → end_time b p t - now ≡ 0
nothing_early false p t now h = omega arith
nothing_early true none t now h = omega arith
nothing_early true (some p) t now h = omega arith

-- A request to create a stream that is there with natural amounts, no more withdrawn than
-- deposited, if it is accepted, leaves an active row whose recipient can claim nothing at any time
-- up to the second of the request, whatever the row was: also a cancelled or a paused one, and
-- whatever it had accrued.
pub create_stream_resets :
    (now : ℕ) (user : Option Text) (input : CreateInput) (chain : Option ChainStream) (db db' : Db)
    (s row : Stream) (updated_at : Option ℤ) (r d w : ℕ) (t : ℤ)
    → find_stream input.stream_id db.streams ≡ some s
    → HasAmounts (selected updated_at s) r d w
    → pos_part t ≤ now
    → create_stream now user (some input) chain db ≡ (sent 201 row, db')
    → (find_stream input.stream_id db'.streams ≡ some (reactivate now s))
      × ((reactivate now s).is_active ≡ true)
      × (claimable_amount (selected updated_at (reactivate now s)) t ≡ some (pos 0))
create_stream_resets now user input chain db db' s row updated_at r d w t found amounts early h =
    let table = create_stream-Resets now input db db' s row user chain found h in
    let look =
      find_stream-replace input.stream_id input.stream_id (reactivate now) db.streams (λ x. refl) in
    let nothing = nothing_early s.is_paused s.paused_at (pos_part t) now early in
    let still : HasAmounts (selected updated_at (reactivate now s)) r d w = record {
      rate = amounts.rate;
      deposited = amounts.deposited;
      withdrawn = amounts.withdrawn;
      covered = amounts.covered;
    } in
    let closed = claimable_closed (selected updated_at (reactivate now s)) r d w t still in
    (ground (arith, table, look, found), refl, closed ∙ ground (arith, nothing))
