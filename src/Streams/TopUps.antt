-- ===== src/Streams/TopUps.antt =====
-- What a top-up of backend/src/controllers/stream.controller.ts stores once the chain has it.
use Prim.Native.Nat.{◌^◌}
use flowfi.Prelude.{
  Bool, sym, ==_iff, ◌==◌, ℕ, ◌+◌, ◌<◌, true, false, Option, none, some, if◌then◌else◌, ◌≡◌, refl,
  ltb, arith, pos, ◌+ℤ◌, Bool-cases, inl, inr,
}
use flowfi.Prelude.Text.{Text, big_int, text_eq_refl, to_string}
use mathlib.Core.Path.{subst}
use flowfi.Indexer.Rows.{find_stream-replace}
use flowfi.Indexer.Tables.{Stream, Db, find_stream, replace_stream}
use flowfi.Streams.{Reply, sent, signed_in, parse_stream_id}
use flowfi.Streams.TopUp.{
  TopUpReply, parse_top_up, add_bigint, deposit, Chain, store_top_up, submit_top_up, top_up_found,
  top_up_parsed, top_up_stream_handler, top_up_failed,
}

+ℤ-pos : (d n : ℕ) → pos d +ℤ pos n ≡ pos (d + n)
unfolding ◌+ℤ◌
+ℤ-pos d n = ground arith

add_bigint_pos :
    (text : Text) (d amount : ℕ)
    → big_int text ≡ some (pos d)
    → add_bigint text amount
      ≡ (if ltb (d + amount) (2 ^ 63) then some (to_string (pos (d + amount))) else none)
unfolding add_bigint
add_bigint_pos text d amount h = elim (Bool-cases (ltb d (2 ^ 63))) [
  | inr large ↦
      let all : ltb (d + amount) (2 ^ 63) ≡ false = ground arith in rw (h, large, all) refl
  | inl small ↦ elim (Bool-cases (ltb amount (2 ^ 63))) [
    | inr large ↦
        let all : ltb (d + amount) (2 ^ 63) ≡ false = ground arith in rw (h, small, large, all) refl
    | inl little ↦
        let sum = +ℤ-pos d amount in
        elim (Bool-cases (ltb (d + amount) (2 ^ 63))) [
          | inl whole ↦ rw (h, small, little, sum, whole) refl
          | inr over ↦ rw (h, small, little, sum, over) refl
        ]
  ]
]

-- A request that passes all checks, and a chain that takes the transaction.
pub record IsTaken (user : Option Text) (raw_id raw_amount : Text) (db : Db) (chain : Chain)
    (id amount : ℕ) (s : Stream) (tx_hash : Text) : Type 0 where
  pub id_parsed : parse_stream_id raw_id ≡ some id
  pub amount_parsed : parse_top_up raw_amount ≡ some amount
  pub positive : 0 < amount
  pub signed : signed_in user ≡ some s.sender
  pub found : find_stream id db.streams ≡ some s
  pub active : s.is_active ≡ true
  pub unpaused : s.is_paused ≡ false
  pub taken : chain.answer ≡ some tx_hash

abbrev stored_top_up : ℕ → ℕ → Text → ℕ → Db → Reply TopUpReply × Db
stored_top_up now id tx_hash sum db =
    if ltb sum (2 ^ 63)
    then (
      sent 200
          (record { stream_id = id; tx_hash = tx_hash; deposited_amount = to_string (pos sum) }),
      record db { streams = replace_stream id (deposit now (to_string (pos sum))) db.streams },
    )
    else (top_up_failed, db)

store_top_up_pos :
    (now id amount d : ℕ) (hash : Text) (db : Db) (s : Stream)
    → find_stream id db.streams ≡ some s
    → big_int s.deposited_amount ≡ some (pos d)
    → store_top_up now id amount hash db ≡ stored_top_up now id hash (d + amount) db
unfolding store_top_up
store_top_up_pos now id amount d hash db s found h =
    let sum = add_bigint_pos s.deposited_amount d amount h in
    elim (Bool-cases (ltb (d + amount) (2 ^ 63))) [
      | inl small ↦ ground (arith, found, sum, small)
      | inr large ↦ ground (arith, found, sum, large)
    ]

submit_top_up_pos :
    (now id amount d : ℕ) (hash : Text) (chain : Chain) (db : Db) (s : Stream)
    → chain.answer ≡ some hash
    → find_stream id (chain.meanwhile db).streams ≡ some s
    → big_int s.deposited_amount ≡ some (pos d)
    → submit_top_up now id amount chain db
      ≡ stored_top_up now id hash (d + amount) (chain.meanwhile db)
unfolding submit_top_up
submit_top_up_pos now id amount d hash chain db s taken found h =
    let stored = store_top_up_pos now id amount d hash (chain.meanwhile db) s found h in
    go chain.answer taken stored
  where
    go :
        (answer : Option Text)
        → answer ≡ some hash
        → store_top_up now id amount hash (chain.meanwhile db)
          ≡ stored_top_up now id hash (d + amount) (chain.meanwhile db)
        → submit_top_up now id amount (record { answer = answer; meanwhile = chain.meanwhile }) db
          ≡ stored_top_up now id hash (d + amount) (chain.meanwhile db)
    go none h e = absurd (ground arith)
    go (some x) h e = let same : x ≡ hash = ground arith in rw same e

top_up_found_owner :
    (now id amount : ℕ) (s : Stream) (chain : Chain) (db : Db)
    → s.is_active ≡ true
    → s.is_paused ≡ false
    → top_up_found now s.sender id amount s chain db ≡ submit_top_up now id amount chain db
unfolding top_up_found
top_up_found_owner now id amount s chain db active unpaused = ground (arith, text_eq_refl s.sender)

top_up_parsed_owner :
    (now id amount : ℕ) (user : Option Text) (caller : Text) (s : Stream) (chain : Chain) (db : Db)
    → 0 < amount
    → signed_in user ≡ some caller
    → find_stream id db.streams ≡ some s
    → top_up_parsed now user id amount chain db ≡ top_up_found now caller id amount s chain db
unfolding top_up_parsed
top_up_parsed_owner now id amount user caller s chain db positive signed found =
    ground (arith, signed, found)

-- What a top-up that the chain has taken comes to, by whether the sum is below 2 ^ 63.
abbrev pub Settles : ℕ → ℕ → Text → ℕ → Stream → Db → Reply TopUpReply × Db → Bool → Type 0
Settles now id tx_hash sum s db answer false = answer ≡ (top_up_failed, db)
Settles now id tx_hash sum s db answer true =
    (answer.0
      ≡ sent 200
          (record { stream_id = id; tx_hash = tx_hash; deposited_amount = to_string (pos sum) }))
    × ((j : ℕ)
        → find_stream j answer.1.streams ≡ (
            if j == id
            then some
                (record s { deposited_amount = to_string (pos sum); last_update_time = pos now })
            else find_stream j db.streams))
    × (answer.1.events ≡ db.events)
    × (answer.1.users ≡ db.users)

stored_top_up-Settles :
    (now id sum : ℕ) (tx_hash : Text) (s : Stream) (db : Db)
    → find_stream id db.streams ≡ some s
    → Settles now id tx_hash sum s db (stored_top_up now id tx_hash sum db) (ltb sum (2 ^ 63))
stored_top_up-Settles now id sum tx_hash s db found = elim (Bool-cases (ltb sum (2 ^ 63))) [
  | inr large ↦ rw large refl
  | inl small ↦ rw small (
    refl,
    λ j. ground (
      arith,
      found,
      find_stream-replace j id (deposit now (to_string (pos sum))) db.streams (λ x. refl),
      ==_iff j id,
    ),
    refl,
    refl,
  )
]

-- Once the chain has taken a top-up that passes all checks, and the sum of the amount and the
-- deposit of the row, as other writers have left it during the wait, is below 2 ^ 63, the row holds
-- that sum as its deposit and the time as its last update, and nothing else is written. So a
-- deposit that already counts this top-up counts it twice. If the sum is 2 ^ 63 or more, the answer
-- is a failure and nothing is written.
pub top_up_stream_handler_taken :
    (now : ℕ) (user : Option Text) (raw_id raw_amount : Text) (chain : Chain) (db : Db)
    (id amount d : ℕ) (s s' : Stream) (tx_hash : Text)
    → IsTaken user raw_id raw_amount db chain id amount s tx_hash
    → find_stream id (chain.meanwhile db).streams ≡ some s'
    → big_int s'.deposited_amount ≡ some (pos d)
    → Settles now id tx_hash
        (d + amount)
        s'
        (chain.meanwhile db)
        (top_up_stream_handler now user raw_id raw_amount chain db)
        (ltb (d + amount) (2 ^ 63))
unfolding top_up_stream_handler
top_up_stream_handler_taken now user raw_id raw_amount chain db id amount d s s' tx_hash h there e =
    let answer : top_up_stream_handler now user raw_id raw_amount chain db
        ≡ stored_top_up now id tx_hash (d + amount) (chain.meanwhile db) =
      ground (
        arith,
        h.id_parsed,
        h.amount_parsed,
        top_up_parsed_owner now id amount user s.sender s chain db h.positive h.signed h.found,
        top_up_found_owner now id amount s chain db h.active h.unpaused,
        submit_top_up_pos now id amount d tx_hash chain db s' h.taken there e,
      ) in
    subst
      (λ p.
        Settles now id tx_hash (d + amount) s' (chain.meanwhile db) p (ltb (d + amount) (2 ^ 63)))
      (sym answer) (stored_top_up-Settles now id (d + amount) tx_hash s' (chain.meanwhile db) there)
