-- ===== src/Indexer/Reachable.antt =====
-- The tables after any run of the indexer, as the claimable service reads them from
-- backend/src/controllers/stream.controller.ts.
use mathlib.Core.Path.{subst}
use flowfi.Prelude.{
  ℕ, ◌≡◌, refl, Bool, true, false, Option, some, List, [], ◌∷◌, arith, ℤ, pos, ◌/◌, All,
  Option-cases, Bool-cases, inl, inr, ◌==◌,
}
use flowfi.Prelude.Text.{Text, codes}
use flowfi.Prelude.Text.Join.{Lacks}
use flowfi.Prelude.Text.Digits.{big_int-to_string}
use flowfi.Indexer.Xdr.{Outcome, ok, err, Outcome-cases}
use flowfi.Indexer.Tables.{Stream, Db, find_stream}
use flowfi.Indexer.Bodies.{Event}
use flowfi.Indexer.Handlers.{Broadcast, process_event}
use flowfi.Indexer.Poll.{
  IndexerState, World, Progress, Env, Request, Response, first_symbol, sort_events, settle,
  run_events, write_state, run_batch, run_poll_cycle, ensure_indexer_state, request,
}
use flowfi.Indexer.Post.{Post}
use flowfi.Indexer.Validity.{IsInteger, HasIntegers, IsValid}
use flowfi.Indexer.Processing.{process_event-IsValid}
use flowfi.Indexer.Health.{Runs, here, cycle}
use flowfi.Claimable.{StreamState, parse_i128, clamp_i128, claimable_amount}
use flowfi.Claimable.Key.{HasPlainTexts, to_string-Lacks}

module _ (env : Env) where
  settle-IsValid :
      (e : Event) (o : Outcome (Db × List Broadcast)) (w : World) (p : Progress)
      → Post o (λ r. IsValid r.0)
      → IsValid w.db
      → IsValid (settle env e o w p).0.db
  unfolding settle
  settle-IsValid e (ok (db, ms)) w p new old = new
  settle-IsValid e (err error) w p new old = old

  run_events-IsValid :
      (es : List Event) (w : World) (p : Progress)
      → IsValid w.db
      → IsValid (run_events env es w p).0.db
  unfolding run_events
  run_events-IsValid [] w p h = h
  run_events-IsValid (e ∷ es) w p h =
      let o = process_event env.str_key (env.clock e / 1000) e w.db in
      let next = settle env e o w p in
      let new = process_event-IsValid env.str_key (env.clock e / 1000) e w.db h in
      let kept = run_events-IsValid es next.0 next.1 (settle-IsValid e o w p new h) in
      let skipped = run_events-IsValid es w p h in
      elim (Bool-cases e.in_successful_contract_call) [
        | inl called ↦ elim (Outcome-cases (first_symbol (codes "unknown") e.topic)) [
          | inl (name, good) ↦ rw (called, good, run_events) kept
          | inr (error, bad) ↦ rw (called, bad, run_events) h
        ]
        | inr failed ↦ rw (failed, run_events) skipped
      ]

  write_state-db :
      (latest : Option Text) (w : World) (p : Progress) (done : Bool)
      → (write_state env latest (w, p, done)).0.db ≡ w.db
  unfolding write_state
  write_state-db latest w p true = refl
  write_state-db latest w p false = refl

  run_batch-IsValid :
      (s : IndexerState) (r : Response) (w : World)
      → IsValid w.db
      → IsValid (run_batch env s r w).0.db
  unfolding run_batch
  run_batch-IsValid s r w h = elim (Outcome-cases (sort_events r.events)) [
    | inr (error, bad) ↦ rw (bad, run_batch) h
    | inl ([], good) ↦ rw (good, run_batch) h
    | inl (e ∷ es, good) ↦
        let p : Progress = record {
          cursor = s.last_cursor;
          ledger = s.last_ledger;
          saw_success = false;
        } in
        let (w', p', done) = run_events env (e ∷ es) w p in
        rw (good, run_batch)
          (rw (write_state-db r.latest_cursor w' p' done) (run_events-IsValid (e ∷ es) w p h))
  ]

  run_poll_cycle-IsValid :
      (raced : Option IndexerState) (rpc : Request → Option Response) (w : World)
      → IsValid w.db
      → IsValid (run_poll_cycle env raced rpc w).0.db
  unfolding run_poll_cycle
  run_poll_cycle-IsValid raced rpc w h =
      let s = ensure_indexer_state env.start_ledger w.state raced in
      elim (Option-cases (rpc (request env.start_ledger s))) [
        | inl down ↦ rw (down, run_poll_cycle) h
        | inr (response, up) ↦
            rw (up, run_poll_cycle) (run_batch-IsValid s response (record w { state = some s }) h)
      ]

-- Tables whose ids and event keys are unique, whose amounts are texts of integers and whose events'
-- streams exist are like that after any run of poll cycles, whatever the RPC answers and whatever
-- the events hold.
pub Runs-IsValid : {w w' : World} → IsValid w.db → Runs w w' → IsValid w'.db
Runs-IsValid h here = h
Runs-IsValid h (cycle {w'} env raced rpc r) =
    run_poll_cycle-IsValid env raced rpc w' (Runs-IsValid h r)

-- The columns that the controller selects, `updated_at` the database's own stamp.
abbrev pub selected : Option ℤ → Stream → StreamState
selected updated_at s = record {
  stream_id = pos s.stream_id;
  rate_per_second = s.rate_per_second;
  deposited_amount = s.deposited_amount;
  withdrawn_amount = s.withdrawn_amount;
  start_time = s.start_time;
  last_update_time = s.last_update_time;
  is_active = s.is_active;
  is_paused = s.is_paused;
  paused_at = s.paused_at;
  total_paused_duration = s.total_paused_duration;
  updated_at = updated_at;
}

find_stream-All :
    (P : Stream → Type 0) (id : ℕ) (ss : List Stream) (s : Stream)
    → All P ss
    → find_stream id ss ≡ some s
    → P s
unfolding find_stream
find_stream-All P id [] s h found = cc
find_stream-All P id (x ∷ ss) s (p, h) found = elim (Bool-cases (x.stream_id == id)) [
  | inl same ↦ let e : x ≡ s = ground (arith, same) in subst P e p
  | inr other ↦ find_stream-All P id ss s h (ground (arith, other))
]

IsInteger-Lacks : (t : Text) → IsInteger t → Lacks b':' t
IsInteger-Lacks t (z, e) = rw e (to_string-Lacks z)

parse_i128-IsInteger : (t : Text) → IsInteger t → (z : ℤ) × (parse_i128 t ≡ some z)
unfolding parse_i128
parse_i128-IsInteger t (z, e) = (clamp_i128 z, rw (e, big_int-to_string z) refl)

claimable_amount_total :
    (s : StreamState) (t : ℤ)
    → ((z : ℤ) × (parse_i128 s.rate_per_second ≡ some z))
    → ((z : ℤ) × (parse_i128 s.deposited_amount ≡ some z))
    → ((z : ℤ) × (parse_i128 s.withdrawn_amount ≡ some z))
    → (amount : ℤ) × (claimable_amount s t ≡ some amount)
unfolding claimable_amount
claimable_amount_total s t (rate, hr) (deposited, hd) (withdrawn, hw) =
    elim (Option-cases (claimable_amount s t)) [
      | inl failed ↦ absurd (ground (arith, rw (claimable_amount, hr, hd, hw) at failed))
      | inr amount ↦ amount
    ]

-- After any run of poll cycles from valid tables, whatever the RPC answers, a stream that is
-- found and handed to the claimable service has amounts without colons, so that cache keys tell
-- streams apart, and has an amount to claim at every time: the service does not fail on it.
pub claimable_amount-Runs :
    (w w' : World) (id : ℕ) (s : Stream) (updated_at : Option ℤ) (t : ℤ)
    → IsValid w.db
    → Runs w w'
    → find_stream id w'.db.streams ≡ some s
    → HasPlainTexts (selected updated_at s)
      × ((amount : ℤ) × (claimable_amount (selected updated_at s) t ≡ some amount))
unfolding claimable_amount
claimable_amount-Runs w w' id s updated_at t valid runs found =
    let (r, d, x) =
      find_stream-All HasIntegers id w'.db.streams s (Runs-IsValid valid runs).amounts found in
    let (rate, hr) = parse_i128-IsInteger s.rate_per_second r in
    let (deposited, hd) = parse_i128-IsInteger s.deposited_amount d in
    let (withdrawn, hw) = parse_i128-IsInteger s.withdrawn_amount x in
    (
      record {
        rate = IsInteger-Lacks s.rate_per_second r;
        deposited = IsInteger-Lacks s.deposited_amount d;
        withdrawn = IsInteger-Lacks s.withdrawn_amount x;
      },
      claimable_amount_total (selected updated_at s) t (rate, hr) (deposited, hd) (withdrawn, hw),
    )
