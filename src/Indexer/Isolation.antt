-- ===== src/Indexer/Isolation.antt =====
-- What one bad event does to the rest of a batch in backend/src/workers/soroban-event-worker.ts.
use flowfi.Prelude.{◌/◌, ◌≡◌, refl, Bool, true, List, [], ◌∷◌, ◌++◌, Bool-cases, inl, inr}
use flowfi.Prelude.Text.{Text, codes}
use flowfi.Indexer.Xdr.{Error, Outcome, ok, err, Outcome-cases}
use flowfi.Indexer.Tables.{Db}
use flowfi.Indexer.Bodies.{Event}
use flowfi.Indexer.Handlers.{Broadcast, process_event}
use flowfi.Indexer.Poll.{
  DeadLetter, World, Progress, Env, first_symbol, settle, run_events, quarantine, event_type_of,
}

-- The same but for the dead letters.
abbrev pub Agree : World × Progress × Bool → World × Progress × Bool → Type 0
Agree (w, p, done) (w', p', done') =
    (w.db ≡ w'.db)
    × (w.counters ≡ w'.counters)
    × (w.sent ≡ w'.sent)
    × (w.state ≡ w'.state)
    × (p ≡ p')
    × (done ≡ done')

abbrev with_letters : World → List DeadLetter → World
with_letters w ls = record w { dead_letters = ls }

-- The handling of an event fails, whatever the tables hold.
abbrev pub Fails : Env → Event → Type 0
Fails env e =
    (db : Db) → (error : Error) × (process_event env.str_key (env.clock e / 1000) e db ≡ err error)

module _ (env : Env) where
  settle-with_letters :
      (e : Event) (o : Outcome (Db × List Broadcast)) (w : World) (p : Progress)
      (ls : List DeadLetter)
      → (ls' : List DeadLetter) × (settle env e o (with_letters w ls) p
          ≡ (with_letters (settle env e o w p).0 ls', (settle env e o w p).1))
  unfolding settle
  settle-with_letters e (ok (db, ms)) w p ls = (ls, refl)
  settle-with_letters e (err error) w p ls = (_, refl)

  -- The dead letters have no influence on a batch.
  run_events-with_letters :
      (es : List Event) (w : World) (p : Progress) (ls : List DeadLetter)
      → Agree (run_events env es (with_letters w ls) p) (run_events env es w p)
  unfolding run_events
  run_events-with_letters [] w p ls = (refl, refl, refl, refl, refl, refl)
  run_events-with_letters (e ∷ es) w p ls =
      let o = process_event env.str_key (env.clock e / 1000) e w.db in
      let next = settle env e o w p in
      let (ls', same) = settle-with_letters e o w p ls in
      let kept = run_events-with_letters es next.0 next.1 ls' in
      let skipped = run_events-with_letters es w p ls in
      elim (Bool-cases e.in_successful_contract_call) [
        | inl called ↦ elim (Outcome-cases (first_symbol (codes "unknown") e.topic)) [
          | inl (name, good) ↦ rw (called, good, same, run_events) kept
          | inr (error, bad) ↦ rw (called, bad, run_events) (refl, refl, refl, refl, refl, refl)
        ]
        | inr failed ↦ rw (failed, run_events) skipped
      ]

  -- An event of a successful call whose first topic is a symbol, but whose handling fails whatever
  -- the tables hold, has no influence on the batch: tables, counters, broadcasts, state row, the
  -- cursor and the ledger are what they are without it, wherever in the batch it stands.
  pub run_events-Fails :
      (e : Event) (xs ys : List Event) (w : World) (p : Progress) (name : Text)
      → e.in_successful_contract_call ≡ true
      → first_symbol (codes "unknown") e.topic ≡ ok name
      → Fails env e
      → Agree (run_events env (xs ++ e ∷ ys) w p) (run_events env (xs ++ ys) w p)
  unfolding run_events
  run_events-Fails e [] ys w p name called good fails =
      let (error, failed) = fails w.db in
      rw (called, good, failed, run_events, settle)
        (run_events-with_letters ys w p
          (quarantine (event_type_of env e.topic) e error w.dead_letters))
  run_events-Fails e (x ∷ xs) ys w p name called good fails =
      let o = process_event env.str_key (env.clock x / 1000) x w.db in
      let next = settle env x o w p in
      let kept = run_events-Fails e xs ys next.0 next.1 name called good fails in
      let skipped = run_events-Fails e xs ys w p name called good fails in
      elim (Bool-cases x.in_successful_contract_call) [
        | inl x_called ↦ elim (Outcome-cases (first_symbol (codes "unknown") x.topic)) [
          | inl (x_name, x_good) ↦ rw (x_called, x_good, run_events) kept
          | inr (error, bad) ↦ rw (x_called, bad, run_events) (refl, refl, refl, refl, refl, refl)
        ]
        | inr failed ↦ rw (failed, run_events) skipped
      ]
