-- ===== src/Indexer/DeadLetters/Rows.antt =====
-- The rows of dead letters of backend/src/services/indexerService.ts: what deleting, changing and
-- sorting them keeps.
use flowfi.Prelude.{
  ℕ, suc, ◌+◌, ◌≡◌, refl, ap, ◌∙◌, arith, Bool, true, false, some, List, [], ◌∷◌, map, length, All,
  Bool-cases, inl, inr,
}
use flowfi.Prelude.Text.{Text, text_eq, text_eq_iff, text_eq_refl}
use flowfi.Indexer.DeadLetters.{
  LetterRow, LetterError, find_row, delete_row, update_row, note_attempt, insert_row, sort_rows,
}

abbrev pub IsThere : List LetterRow → Text → Type 0
IsThere rows id = (r : LetterRow) × (find_row id rows ≡ some r)

-- The ids of rows are distinct.
abbrev pub Lacks : Text → List LetterRow → Type 0
Lacks id rows = All (λ r. text_eq r.id id ≡ false) rows

abbrev pub HasDistinctIds : List LetterRow → Type 0
HasDistinctIds [] = Unit
HasDistinctIds (r ∷ rows) = Lacks r.id rows × HasDistinctIds rows

pub length-delete_row :
    (id : Text) (rows : List LetterRow)
    → IsThere rows id
    → length (delete_row id rows) + 1 ≡ length rows
unfolding find_row delete_row
length-delete_row id [] (r, e) = cc
length-delete_row id (s ∷ rows) (r, e) = elim (Bool-cases (text_eq s.id id)) [
  | inl here ↦ rw here (omega arith)
  | inr there ↦
      let rest = length-delete_row id rows (r, ground (arith, there)) in
      rw there (omega (arith, rest))
]

pub find_row-delete_row :
    (id other : Text) (rows : List LetterRow)
    → text_eq id other ≡ false
    → find_row other (delete_row id rows) ≡ find_row other rows
unfolding find_row delete_row
find_row-delete_row id other [] h = refl
find_row-delete_row id other (s ∷ rows) h = ground (
  arith,
  text_eq_iff s.id id,
  text_eq_iff s.id other,
  text_eq_iff id other,
  find_row-delete_row id other rows h,
)

pub length-update_row :
    (id : Text) (change : LetterRow → LetterRow) (rows : List LetterRow)
    → length (update_row id change rows) ≡ length rows
unfolding update_row
length-update_row id change [] = refl
length-update_row id change (s ∷ rows) = ground (arith, length-update_row id change rows)

pub find_row-update_row :
    (id other : Text) (now : ℕ) (error : LetterError) (rows : List LetterRow)
    → text_eq id other ≡ false
    → find_row other (update_row id (note_attempt now error) rows) ≡ find_row other rows
unfolding find_row update_row
find_row-update_row id other now error [] h = refl
find_row-update_row id other now error (s ∷ rows) h = ground (
  arith,
  text_eq_iff s.id id,
  text_eq_iff s.id other,
  text_eq_iff id other,
  find_row-update_row id other now error rows h,
)

pub apart_sym : (s t : Text) → text_eq s t ≡ false → text_eq t s ≡ false
apart_sym s t h = ground (arith, text_eq_iff s t, text_eq_iff t s)

-- Texts that differ from each other.
abbrev pub AreDistinct : List Text → Type 0
AreDistinct [] = Unit
AreDistinct (x ∷ xs) = All (λ y. text_eq x y ≡ false) xs × AreDistinct xs

module _ (before : LetterRow → LetterRow → Bool) where
  pub All-insert_row :
      (P : LetterRow → Type 0) (r : LetterRow) (rows : List LetterRow)
      → P r
      → All P rows
      → All P (insert_row before r rows)
  unfolding insert_row
  All-insert_row P r [] p h = (p, tt)
  All-insert_row P r (s ∷ rows) p (q, h) = elim (Bool-cases (before r s)) [
    | inl first ↦ rw first (p, (q, h))
    | inr later ↦ rw later (q, All-insert_row P r rows p h)
  ]

  pub All-sort_rows :
      (P : LetterRow → Type 0) (rows : List LetterRow) → All P rows → All P (sort_rows before rows)
  unfolding sort_rows
  All-sort_rows P [] h = tt
  All-sort_rows P (r ∷ rows) (p, h) =
      All-insert_row P r (sort_rows before rows) p (All-sort_rows P rows h)

  pub length-insert_row :
      (r : LetterRow) (rows : List LetterRow)
      → length (insert_row before r rows) ≡ suc (length rows)
  unfolding insert_row
  length-insert_row r [] = refl
  length-insert_row r (s ∷ rows) = ground (arith, length-insert_row r rows)

  pub length-sort_rows : (rows : List LetterRow) → length (sort_rows before rows) ≡ length rows
  unfolding sort_rows
  length-sort_rows [] = refl
  length-sort_rows (r ∷ rows) =
      length-insert_row r (sort_rows before rows) ∙ ap suc (length-sort_rows rows)

  pub insert_row-HasDistinctIds :
      (r : LetterRow) (rows : List LetterRow)
      → Lacks r.id rows
      → HasDistinctIds rows
      → HasDistinctIds (insert_row before r rows)
  unfolding insert_row
  insert_row-HasDistinctIds r [] h d = (tt, tt)
  insert_row-HasDistinctIds r (s ∷ rows) (p, h) (q, d) = elim (Bool-cases (before r s)) [
    | inl first ↦ rw first ((p, h), (q, d))
    | inr later ↦ rw later (
      All-insert_row (λ t. text_eq t.id s.id ≡ false) r rows (apart_sym s.id r.id p) q,
      insert_row-HasDistinctIds r rows h d,
    )
  ]

  pub sort_rows-HasDistinctIds :
      (rows : List LetterRow) → HasDistinctIds rows → HasDistinctIds (sort_rows before rows)
  unfolding sort_rows
  sort_rows-HasDistinctIds [] d = tt
  sort_rows-HasDistinctIds (r ∷ rows) (p, d) =
      insert_row-HasDistinctIds r (sort_rows before rows)
        (All-sort_rows (λ t. text_eq t.id r.id ≡ false) rows p) (sort_rows-HasDistinctIds rows d)

abbrev pub ids_of : List LetterRow → List Text
ids_of rows = map (λ r. r.id) rows

pub Lacks-ids :
    (id : Text) (rows : List LetterRow)
    → Lacks id rows
    → All (λ y. text_eq id y ≡ false) (ids_of rows)
Lacks-ids id [] h = tt
Lacks-ids id (r ∷ rows) (p, h) = (apart_sym r.id id p, Lacks-ids id rows h)

pub ids-AreDistinct : (rows : List LetterRow) → HasDistinctIds rows → AreDistinct (ids_of rows)
ids-AreDistinct [] d = tt
ids-AreDistinct (r ∷ rows) (p, d) = (Lacks-ids r.id rows p, ids-AreDistinct rows d)

pub ids-All :
    (P : Text → Type 0) (rows : List LetterRow) → All (λ r. P r.id) rows → All P (ids_of rows)
ids-All P [] h = tt
ids-All P (r ∷ rows) (p, h) = (p, ids-All P rows h)

pub length-ids : (rows : List LetterRow) → length (ids_of rows) ≡ length rows
length-ids [] = refl
length-ids (r ∷ rows) = ap suc (length-ids rows)

pub IsThere-cons :
    (r : LetterRow) (rows : List LetterRow) (id : Text) → IsThere rows id → IsThere (r ∷ rows) id
unfolding find_row
IsThere-cons r rows id (s, e) = elim (Bool-cases (text_eq r.id id)) [
  | inl here ↦ (r, rw here refl)
  | inr other ↦ (s, rw other e)
]

pub weaken_rows :
    (r : LetterRow) (rows l : List LetterRow)
    → All (λ s. IsThere rows s.id) l
    → All (λ s. IsThere (r ∷ rows) s.id) l
weaken_rows r rows [] h = tt
weaken_rows r rows (s ∷ l) (p, h) = (IsThere-cons r rows s.id p, weaken_rows r rows l h)

pub rows-IsThere : (rows : List LetterRow) → All (λ s. IsThere rows s.id) rows
unfolding find_row
rows-IsThere [] = tt
rows-IsThere (r ∷ rows) =
    let here : text_eq r.id r.id ≡ true = text_eq_refl r.id in
    ((r, rw here refl), weaken_rows r rows rows (rows-IsThere rows))
