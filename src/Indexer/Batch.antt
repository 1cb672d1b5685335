-- ===== src/Indexer/Batch.antt =====
-- What a batch of backend/src/workers/soroban-event-worker.ts comes to: the order of its events,
-- the account of every one, and what stops it.
use mathlib.Core.Path.{subst}
use flowfi.Prelude.{
  ℕ, ◌+◌, ◌/◌, ◌≡◌, refl, Bool, true, false, ◌||◌, not, Option, some, List, [], ◌∷◌, ◌++◌, arith,
  All, select, length, Bool-cases, inl, inr, ap, sym, ◌∙◌, leb, ◌⊎◌,
}
use flowfi.Prelude.Text.{Text, codes, text_eq}
use flowfi.Indexer.Xdr.{Error, Outcome, ok, err, Outcome-cases, ScVal}
use flowfi.Indexer.Tables.{Db}
use flowfi.Indexer.Bodies.{Event}
use flowfi.Indexer.Handlers.{Broadcast, process_event}
use flowfi.Indexer.Poll.{
  IndexerState, DeadLetter, World, Progress, Env, Request, Response, quarantine, event_type_of,
  same_letter, first_symbol, partition, sort_events, settle, run_events, run_batch, run_poll_cycle,
  request,
}

-- The first topic names a creation.
abbrev pub names_creation : Event → Bool
names_creation e = elim (first_symbol [] e.topic) [
  | ok name ↦ text_eq name (codes "stream_created")
  | err error ↦ false
]

-- The first topic, if there is one, is a symbol.
abbrev pub HasName : Event → Type 0
HasName e = (name : Text) × (first_symbol [] e.topic ≡ ok name)

partition_lem :
    (es : List Event)
    → All HasName es
    → partition es ≡ ok (select names_creation es, select (λ e. not (names_creation e)) es)
unfolding partition
partition_lem [] h = refl
partition_lem (e ∷ es) ((name, good), h) =
    let rest = partition_lem es h in
    elim (Bool-cases (text_eq name (codes "stream_created"))) [
      | inl creates ↦ rw (good, rest, names_creation, creates) refl
      | inr other ↦ rw (good, rest, names_creation, other) refl
    ]

-- If every first topic is a symbol, a batch is sorted into its creations and then its other
-- events, each part in the order in which the RPC gave it.
sort_events_lem :
    (es : List Event)
    → All HasName es
    → sort_events es ≡ ok (select names_creation es ++ select (λ e. not (names_creation e)) es)
unfolding sort_events
sort_events_lem [] h = refl
sort_events_lem (e ∷ []) ((name, good), h) =
    elim (Bool-cases (text_eq name (codes "stream_created"))) [
      | inl creates ↦ rw (names_creation, good, creates) refl
      | inr other ↦ rw (names_creation, good, other) refl
    ]
sort_events_lem (e ∷ e' ∷ es) h = rw (partition_lem (e ∷ e' ∷ es) h) refl

partition_stops :
    (e : Event) (xs ys : List Event) (error : Error)
    → first_symbol [] e.topic ≡ err error
    → (error' : Error) × (partition (xs ++ e ∷ ys) ≡ err error')
unfolding partition
partition_stops e [] ys error bad = (error, rw bad refl)
partition_stops e (x ∷ xs) ys error bad =
    let (error', stopped) = partition_stops e xs ys error bad in
    elim (Outcome-cases (first_symbol [] x.topic)) [
      | inl (name, good) ↦ (error', rw (good, stopped) refl)
      | inr (error'', bad') ↦ (error'', rw bad' refl)
    ]

sort_events_stops :
    (e : Event) (xs ys : List Event) (error : Error)
    → first_symbol [] e.topic ≡ err error
    → ((error' : Error) × (sort_events (xs ++ e ∷ ys) ≡ err error')) ⊎ (xs ++ e ∷ ys ≡ e ∷ [])
unfolding sort_events
sort_events_stops e [] [] error bad = inr refl
sort_events_stops e [] (y ∷ ys) error bad =
    let (error', stopped) = partition_stops e [] (y ∷ ys) error bad in inl (error', rw stopped refl)
sort_events_stops e (x ∷ []) ys error bad =
    let (error', stopped) = partition_stops e (x ∷ []) ys error bad in inl (error', rw stopped refl)
sort_events_stops e (x ∷ x' ∷ xs) ys error bad =
    let (error', stopped) = partition_stops e (x ∷ x' ∷ xs) ys error bad in
    inl (error', rw stopped refl)

-- The sum over the dead letters of their attempts.
abbrev pub total_attempts : List DeadLetter → ℕ
total_attempts [] = 0
total_attempts (l ∷ ls) = l.attempts + total_attempts ls

total_attempts-quarantine :
    (type : Text) (e : Event) (error : Error) (ls : List DeadLetter)
    → total_attempts (quarantine type e error ls) ≡ total_attempts ls + 1
unfolding quarantine
total_attempts-quarantine type e error [] = refl
total_attempts-quarantine type e error (l ∷ ls) = elim (Bool-cases (same_letter e.id type l)) [
  | inl same ↦ rw same (omega arith)
  | inr other ↦ rw other (omega (arith, total_attempts-quarantine type e error ls))
]

abbrev pub is_called : Event → Bool
is_called e = e.in_successful_contract_call

-- The outcomes of the events so far.
abbrev pub accounted : World → ℕ
accounted w = w.counters.events_processed + total_attempts w.dead_letters

or_false : (b : Bool) → (b || false) ≡ true → b ≡ true
or_false true h = refl
or_false false h = h

undecodable :
    (topics : List ScVal) (error : Error)
    → first_symbol [] topics ≡ err error
    → first_symbol (codes "unknown") topics ≡ err error
unfolding first_symbol
undecodable [] error h = cc
undecodable (topic ∷ topics) error h = h

module _ (env : Env) where
  accounted-settle :
      (e : Event) (o : Outcome (Db × List Broadcast)) (w : World) (p : Progress)
      → accounted (settle env e o w p).0 ≡ accounted w + 1
  unfolding settle
  accounted-settle e (ok (db, ms)) w p = omega arith
  accounted-settle e (err error) w p =
      omega (arith, total_attempts-quarantine (event_type_of env e.topic) e error w.dead_letters)

  -- A batch whose loop ends without a throw accounts for each of its events of a successful call:
  -- it is counted as processed or as an attempt of a dead letter.
  accounted-run_events :
      (es : List Event) (w : World) (p : Progress)
      → (run_events env es w p).2 ≡ true
      → accounted (run_events env es w p).0 ≡ accounted w + length (select is_called es)
  unfolding run_events
  accounted-run_events [] w p = λ h. omega arith
  accounted-run_events (e ∷ es) w p =
      let o = process_event env.str_key (env.clock e / 1000) e w.db in
      let next = settle env e o w p in
      let kept = accounted-run_events es next.0 next.1 in
      let skipped = accounted-run_events es w p in
      let one = accounted-settle e o w p in
      elim (Bool-cases e.in_successful_contract_call) [
        | inl called ↦ elim (Outcome-cases (first_symbol (codes "unknown") e.topic)) [
          | inl (name, good) ↦ rw (called, good, run_events) (λ h. omega (arith, kept h, one))
          | inr (error, bad) ↦ rw (called, bad, run_events) (λ h. cc)
        ]
        | inr failed ↦ rw (failed, run_events) skipped
      ]

  run_events_stalls :
      (e : Event) (w : World) (p : Progress) (error : Error)
      → first_symbol [] e.topic ≡ err error
      → e.in_successful_contract_call ≡ true
      → run_events env (e ∷ []) w p ≡ (w, p, false)
  unfolding run_events
  run_events_stalls e w p error bad called =
      rw (called, undecodable e.topic error bad, run_events) refl

  run_batch_stalls :
      (s : IndexerState) (response : Response) (e : Event) (xs ys : List Event) (error : Error)
      (w : World)
      → response.events ≡ xs ++ e ∷ ys
      → first_symbol [] e.topic ≡ err error
      → (e.in_successful_contract_call || leb 2 (length response.events)) ≡ true
      → run_batch env s response w ≡ (w, false)
  unfolding run_batch
  run_batch_stalls s response e xs ys error w split bad read =
      elim (sort_events_stops e xs ys error bad) [
        | inl (error', stopped) ↦ rw (split, stopped, run_batch) refl
        | inr one ↦
            let single : response.events ≡ e ∷ [] = split ∙ one in
            let called : e.in_successful_contract_call ≡ true =
              or_false e.in_successful_contract_call
                (subst (λ es. (is_called e || leb 2 (length es)) ≡ true) single read) in
            rw (single, run_batch) (rw (run_events_stalls e w _ error bad called) refl)
      ]

  -- Where an event of a batch has a first topic that is no symbol, and is not the batch's only
  -- event or is of a successful call, the cycle throws and leaves all as it was, the cursor
  -- included: the next cycle makes the same request.
  pub run_poll_cycle_stalls :
      (s : IndexerState) (raced : Option IndexerState) (rpc : Request → Option Response) (w : World)
      (response : Response) (e : Event) (xs ys : List Event) (error : Error)
      → w.state ≡ some s
      → rpc (request env.start_ledger s) ≡ some response
      → response.events ≡ xs ++ e ∷ ys
      → first_symbol [] e.topic ≡ err error
      → (e.in_successful_contract_call || leb 2 (length response.events)) ≡ true
      → run_poll_cycle env raced rpc w ≡ (w, false)
  unfolding run_poll_cycle
  run_poll_cycle_stalls s raced rpc w response e xs ys error row up split bad read =
      let stopped =
        run_batch_stalls s response e xs ys error (record w { state = some s }) split bad read in
      let same : record w { state = some s } ≡ w = ap (λ st. record w { state = st }) (sym row) in
      subst (λ v. run_poll_cycle env raced rpc v ≡ (v, false)) same
        (rw (up, run_poll_cycle) stopped)
