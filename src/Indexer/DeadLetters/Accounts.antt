-- ===== src/Indexer/DeadLetters/Accounts.antt =====
-- What a replay of all dead letters of backend/src/services/indexerService.ts counts.
use mathlib.Core.Path.{subst}
use flowfi.Prelude.{
  ℕ, ◌+◌, ◌≡◌, refl, sym, ap, ◌∙◌, arith, Bool, false, Option, none, some, List, [], ◌∷◌,
  if◌then◌else◌, length, All, Bool-cases, Option-cases, inl, inr,
}
use flowfi.Prelude.Text.{Text, text_eq}
use flowfi.Indexer.Xdr.{StrKey}
use flowfi.Indexer.Bodies.{Event}
use flowfi.Indexer.DeadLetters.{
  LetterRow, LetterStore, ReplayOutcome, replayed, failed, not_found, undecodable, ReplayResult,
  Processed, done, threw, undecodable_payload, find_row, note_attempt, settle_replay, replay_row,
  replay_dead_letter_event, replay_ids, is_before, sort_rows, is_outcome, has_outcome,
  count_outcome, ReplayAllResult, replay_all_dead_letter_events,
}
use flowfi.Indexer.DeadLetters.Rows.{
  IsThere, HasDistinctIds, length-delete_row, find_row-delete_row, length-update_row,
  find_row-update_row, AreDistinct, All-sort_rows, length-sort_rows, sort_rows-HasDistinctIds,
  ids_of, ids-AreDistinct, ids-All, length-ids, rows-IsThere,
}

-- A replayed letter is one row less.
abbrev bit : Bool → ℕ
bit b = if b then 1 else 0

record IsCounted (id : Text) (w : LetterStore) (p : ReplayResult × LetterStore) : Type 0 where
  known : has_outcome not_found p.0 ≡ false
  left : length p.1.rows + bit (has_outcome replayed p.0) ≡ length w.rows
  others :
      (other : Text) → text_eq id other ≡ false → find_row other p.1.rows ≡ find_row other w.rows

later_rows-IsThere :
    (id : Text) (ids : List Text) (w : LetterStore) (p : ReplayResult × LetterStore)
    → IsCounted id w p
    → All (λ other. text_eq id other ≡ false) ids
    → All (IsThere w.rows) ids
    → All (IsThere p.1.rows) ids
later_rows-IsThere id [] w p c apart h = tt
later_rows-IsThere id (other ∷ ids) w p c (q, apart) ((r, e), h) =
    ((r, c.others other q ∙ e), later_rows-IsThere id ids w p c apart h)

pub count_cons :
    (o : ReplayOutcome) (r : ReplayResult) (rs : List ReplayResult)
    → count_outcome o (r ∷ rs) ≡ bit (has_outcome o r) + count_outcome o rs
count_cons o r rs = elim (Bool-cases (has_outcome o r)) [
  | inl yes_it_is ↦ rw yes_it_is (omega arith)
  | inr other ↦ rw other (omega arith)
]

module _ (decode : Text → Option Event) (str_key : StrKey) (now : ℕ) where
  settle_replay-IsCounted :
      (id : Text) (r : LetterRow) (o : Processed) (w : LetterStore)
      → find_row id w.rows ≡ some r
      → IsCounted id w (settle_replay decode str_key now id r o w)
  unfolding settle_replay
  settle_replay-IsCounted id r (done db ms) w e = record {
    known = refl;
    left = length-delete_row id w.rows (r, e);
    others = λ other h. find_row-delete_row id other w.rows h;
  }
  settle_replay-IsCounted id r (threw error) w e = record {
    known = refl;
    left = omega (arith, length-update_row id (note_attempt now error) w.rows);
    others = λ other h. find_row-update_row id other now error w.rows h;
  }

  replay_row-IsCounted :
      (id : Text) (r : LetterRow) (w : LetterStore)
      → find_row id w.rows ≡ some r
      → IsCounted id w (replay_row decode str_key now id r w)
  unfolding replay_row
  replay_row-IsCounted id r w e = elim (Option-cases (decode r.payload)) [
    | inl bad ↦
        rw (bad, replay_row)
          (record {
            known = refl;
            left =
                omega (arith, length-update_row id (note_attempt now undecodable_payload) w.rows);
            others = λ other h. find_row-update_row id other now undecodable_payload w.rows h;
          })
    | inr (event, good) ↦ rw (good, replay_row) (settle_replay-IsCounted id r _ w e)
  ]

  replay_dead_letter_event-IsCounted :
      (id : Text) (w : LetterStore)
      → IsThere w.rows id
      → IsCounted id w (replay_dead_letter_event decode str_key now id w)
  unfolding replay_dead_letter_event
  replay_dead_letter_event-IsCounted id w (r, e) =
      subst (IsCounted id w)
        (ap
          (λ o. elim o as (λ x. ReplayResult × LetterStore) [
            | none ↦ (record { id = id; outcome = not_found; attempts = 0 }, w)
            | some x ↦ replay_row decode str_key now id x w
          ])
          (sym e))
        (replay_row-IsCounted id r w e)

  abbrev IsAllCounted : List Text → LetterStore → List ReplayResult × LetterStore → Type 0
  IsAllCounted ids w p =
      (length p.0 ≡ length ids)
      × (count_outcome not_found p.0 ≡ 0)
      × (length p.1.rows + count_outcome replayed p.0 ≡ length w.rows)

  replay_ids-IsAllCounted :
      (ids : List Text) (w : LetterStore)
      → AreDistinct ids
      → All (IsThere w.rows) ids
      → IsAllCounted ids w (replay_ids decode str_key now ids w)
  unfolding replay_ids
  replay_ids-IsAllCounted [] w d h = (refl, refl, omega arith)
  replay_ids-IsAllCounted (id ∷ ids) w (apart, d) (there, h) =
      let first = replay_dead_letter_event decode str_key now id w in
      let counted = replay_dead_letter_event-IsCounted id w there in
      let (n, missing, left) =
        replay_ids-IsAllCounted ids first.1 d (later_rows-IsThere id ids w first counted apart h) in
      let rest = replay_ids decode str_key now ids first.1 in
      (
        omega (arith, n),
        count_cons not_found first.0 rest.0 ∙ omega (arith, missing, ap bit counted.known),
        omega (arith, left, counted.left, count_cons replayed first.0 rest.0),
      )

-- Each result has one outcome.
one_outcome :
    (o : ReplayOutcome)
    → bit (is_outcome replayed o)
        + bit (is_outcome failed o)
        + bit (is_outcome undecodable o)
        + bit (is_outcome not_found o)
      ≡ 1
one_outcome replayed = refl
one_outcome failed = refl
one_outcome not_found = refl
one_outcome undecodable = refl

sum_of_outcomes :
    (rs : List ReplayResult)
    → count_outcome replayed rs
        + count_outcome failed rs
        + count_outcome undecodable rs
        + count_outcome not_found rs
      ≡ length rs
sum_of_outcomes [] = refl
sum_of_outcomes (r ∷ rs) = omega (
  arith,
  one_outcome r.outcome,
  sum_of_outcomes rs,
  count_cons replayed r rs,
  count_cons failed r rs,
  count_cons undecodable r rs,
  count_cons not_found r rs,
)

-- How a replay of all adds up.
pub record IsAccounted (w : LetterStore) (p : ReplayAllResult × LetterStore) : Type 0 where
  pub every_row : p.0.attempted ≡ length w.rows
  pub known : p.0.not_found ≡ 0
  pub outcomes : p.0.replayed + p.0.failed + p.0.undecodable ≡ p.0.attempted
  pub rows_left : length p.1.rows ≡ p.0.failed + p.0.undecodable

-- A replay of all dead letters whose ids are distinct tries each row once, finds it, and counts it
-- as replayed, failed or undecodable; as many rows are left as are counted as failed or undecodable.
pub replay_all_dead_letter_events-IsAccounted :
    (decode : Text → Option Event) (str_key : StrKey) (now : ℕ) (w : LetterStore)
    → HasDistinctIds w.rows
    → IsAccounted w (replay_all_dead_letter_events decode str_key now w)
unfolding replay_all_dead_letter_events
replay_all_dead_letter_events-IsAccounted decode str_key now w d =
    let sorted = sort_rows is_before w.rows in
    let (n, missing, left) =
      replay_ids-IsAllCounted decode str_key now (ids_of sorted) w
        (ids-AreDistinct sorted (sort_rows-HasDistinctIds is_before w.rows d))
        (ids-All (IsThere w.rows) sorted
          (All-sort_rows is_before (λ s. IsThere w.rows s.id) w.rows (rows-IsThere w.rows))) in
    let results = (replay_ids decode str_key now (ids_of sorted) w).0 in
    let sum = sum_of_outcomes results in
    record {
      every_row = n ∙ length-ids sorted ∙ length-sort_rows is_before w.rows;
      known = missing;
      outcomes = omega (arith, sum, missing);
      rows_left =
          omega
            (arith, sum, missing, left, n, length-ids sorted, length-sort_rows is_before w.rows);
    }
