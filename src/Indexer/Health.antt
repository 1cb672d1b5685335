-- ===== src/Indexer/Health.antt =====
-- The health signal of backend/src/workers/soroban-event-worker.ts, over any run of poll cycles.
use flowfi.Prelude.{
  ℕ, ◌+◌, ◌/◌, ◌≡◌, refl, Bool, true, false, not, Option, none, some, List, [], ◌∷◌, ◌++◌, arith,
  All, All-append, select, Bool-cases, Option-cases, inl, inr,
}
use flowfi.Prelude.Text.{Text, codes}
use flowfi.Indexer.Xdr.{Outcome, ok, err, Outcome-cases}
use flowfi.Indexer.Tables.{Db}
use flowfi.Indexer.Bodies.{Event}
use flowfi.Indexer.Handlers.{Broadcast, process_event}
use flowfi.Indexer.Poll.{
  IndexerState, Attempt, Counters, World, Progress, Env, Request, Response, is_recent,
  record_outcome, is_failure_spike, initial_counters, first_symbol, sort_events, settle, run_events,
  write_state, run_batch, run_poll_cycle, ensure_indexer_state, request, get_event_counters,
}

-- No failure is on record.
pub record HasNoFailure (c : Counters) : Type 0 where
  pub outcomes : All (λ (o : Attempt). o.success ≡ true) c.recent_outcomes
  pub failed : c.events_failed ≡ 0
  pub last_error : c.last_error_at ≡ none

All-select :
    (P : Attempt → Type 0) (q : Attempt → Bool) (os : List Attempt) → All P os → All P (select q os)
All-select P q [] h = tt
All-select P q (o ∷ os) (p, h) = ground (arith, All-select P q os h)

no_failed :
    (os : List Attempt)
    → All (λ (o : Attempt). o.success ≡ true) os
    → select (λ o. not o.success) os ≡ []
no_failed [] h = refl
no_failed (o ∷ os) (p, h) = ground (arith, no_failed os h)

spike_of_HasNoFailure : (now : ℕ) (c : Counters) → HasNoFailure c → is_failure_spike now c ≡ false
unfolding is_failure_spike
spike_of_HasNoFailure now c h =
    let recent = select (is_recent now) c.recent_outcomes in
    let none_failed =
      no_failed recent (All-select _ (is_recent now) c.recent_outcomes h.outcomes) in
    rw none_failed (ground arith)

record_outcome-HasNoFailure :
    (now n : ℕ) (c : Counters)
    → HasNoFailure c
    → HasNoFailure (record_outcome now true (record c { events_processed = n }))
unfolding record_outcome
record_outcome-HasNoFailure now n c h = record {
  outcomes =
      All-select _ (is_recent now) (c.recent_outcomes ++ record { success = true; at = now } ∷ []) (
        All-append _ c.recent_outcomes (record { success = true; at = now } ∷ []) h.outcomes
          (refl, tt));
  failed = h.failed;
  last_error = h.last_error;
}

module _ (env : Env) where
  settle-HasNoFailure :
      (e : Event) (o : Outcome (Db × List Broadcast)) (w : World) (p : Progress)
      → HasNoFailure w.counters
      → HasNoFailure (settle env e o w p).0.counters
  unfolding settle
  settle-HasNoFailure e (ok (db, ms)) w p h =
      record_outcome-HasNoFailure (env.clock e) (w.counters.events_processed + 1) w.counters h
  settle-HasNoFailure e (err error) w p h = h

  run_events-HasNoFailure :
      (es : List Event) (w : World) (p : Progress)
      → HasNoFailure w.counters
      → HasNoFailure (run_events env es w p).0.counters
  unfolding run_events
  run_events-HasNoFailure [] w p h = h
  run_events-HasNoFailure (e ∷ es) w p h =
      let o = process_event env.str_key (env.clock e / 1000) e w.db in
      let next = settle env e o w p in
      let kept = run_events-HasNoFailure es next.0 next.1 (settle-HasNoFailure e o w p h) in
      let skipped = run_events-HasNoFailure es w p h in
      elim (Bool-cases e.in_successful_contract_call) [
        | inl called ↦ elim (Outcome-cases (first_symbol (codes "unknown") e.topic)) [
          | inl (name, good) ↦ rw (called, good, run_events) kept
          | inr (error, bad) ↦ rw (called, bad, run_events) h
        ]
        | inr failed ↦ rw (failed, run_events) skipped
      ]

  write_state-counters :
      (latest : Option Text) (w : World) (p : Progress) (done : Bool)
      → (write_state env latest (w, p, done)).0.counters ≡ w.counters
  unfolding write_state
  write_state-counters latest w p true = refl
  write_state-counters latest w p false = refl

  run_batch-HasNoFailure :
      (s : IndexerState) (r : Response) (w : World)
      → HasNoFailure w.counters
      → HasNoFailure (run_batch env s r w).0.counters
  unfolding run_batch
  run_batch-HasNoFailure s r w h = elim (Outcome-cases (sort_events r.events)) [
    | inr (error, bad) ↦ rw (bad, run_batch) h
    | inl ([], good) ↦ rw (good, run_batch) h
    | inl (e ∷ es, good) ↦
        let p : Progress = record {
          cursor = s.last_cursor;
          ledger = s.last_ledger;
          saw_success = false;
        } in
        let (w', p', done) = run_events env (e ∷ es) w p in
        rw (good, run_batch)
          (rw (write_state-counters r.latest_cursor w' p' done)
            (run_events-HasNoFailure (e ∷ es) w p h))
  ]

  run_poll_cycle-HasNoFailure :
      (raced : Option IndexerState) (rpc : Request → Option Response) (w : World)
      → HasNoFailure w.counters
      → HasNoFailure (run_poll_cycle env raced rpc w).0.counters
  unfolding run_poll_cycle
  run_poll_cycle-HasNoFailure raced rpc w h =
      let s = ensure_indexer_state env.start_ledger w.state raced in
      elim (Option-cases (rpc (request env.start_ledger s))) [
        | inl down ↦ rw (down, run_poll_cycle) h
        | inr (response, up) ↦
            rw (up, run_poll_cycle)
              (run_batch-HasNoFailure s response (record w { state = some s }) h)
      ]

-- The worlds that poll cycles lead to, whatever the clock shows and the RPC answers in each.
pub data Runs (w : World) : World → Type 0 where
  here : Runs w w
  cycle :
      {w' : World} (env : Env) (raced : Option IndexerState) (rpc : Request → Option Response)
      → Runs w w'
      → Runs w (run_poll_cycle env raced rpc w').0

Runs-HasNoFailure : {w w' : World} → HasNoFailure w.counters → Runs w w' → HasNoFailure w'.counters
Runs-HasNoFailure h here = h
Runs-HasNoFailure h (cycle {w'} env raced rpc r) =
    run_poll_cycle-HasNoFailure env raced rpc w' (Runs-HasNoFailure h r)

-- From a worker's first counters no run of poll cycles, whatever the RPC answers and however many
-- events fail, ever counts a failure, notes an error's time or makes the worker report that it
-- is degraded.
pub degraded_never :
    (w w' : World) (now : ℕ)
    → w.counters ≡ initial_counters
    → Runs w w'
    → get_event_counters now w'.counters ≡ (w'.counters.events_processed, 0, none, false)
unfolding get_event_counters
degraded_never w w' now start r =
    let first : HasNoFailure w.counters =
      rw start (record { outcomes = tt; failed = refl; last_error = refl }) in
    let h = Runs-HasNoFailure first r in
    rw (h.failed, h.last_error, spike_of_HasNoFailure now w'.counters h) refl
