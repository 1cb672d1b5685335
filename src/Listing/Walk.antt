-- ===== src/Listing/Walk.antt =====
-- A walk through the pages of `findStreams` in backend/src/repositories/stream.repository.ts.
use flowfi.Prelude.{
  ℕ, zero, suc, ◌+◌, ◌-◌, ◌<◌, ◌≤◌, Bool, true, false, Option, none, some, List, [], ◌∷◌, ◌++◌, ◌≡◌,
  refl, ap, sym, ◌∙◌, ltb, ltb→lt, length, take, drop, arith, ℤ, pos, ◌⊎◌, Bool-cases, inl, inr,
  drop-nil,
}
use flowfi.Indexer.Tables.{Stream, Db}
use flowfi.Listing.Order.{Permutes, IsSorted, IsAsymmetric, length-Permutes, Permutes-once}
use flowfi.Listing.{FindStreamsParams, Ordering, page_of, selected_streams, find_streams}

abbrev from_offset : FindStreamsParams → ℕ → FindStreamsParams
from_offset params offset = record params { offset = offset }

abbrev next_page : List Stream → Option (List Stream) → Option (List Stream)
next_page page none = none
next_page page (some rest) = some (page ++ rest)

-- Asks for the next page while there is said to be more; `none` if the fuel is spent. Each query has
-- its own order.
unfoldable pub walk : (ℕ → Ordering) → FindStreamsParams → Db → ℕ → ℕ → Option (List Stream)
unfolding find_streams
walk orders params db zero offset = none
walk orders params db (suc fuel) offset =
    let r = find_streams (orders offset) (from_offset params offset) db in
    elim r.has_more [
      | true ↦ next_page r.streams (walk orders params db fuel (offset + length r.streams))
      | false ↦ some r.streams
    ]

-- What the query at an offset makes of the selected rows.
abbrev pub rows_at : (ℕ → Ordering) → FindStreamsParams → Db → ℕ → List Stream
rows_at orders params db offset =
    orders offset params.sort_field params.ascending (selected_streams params db)

take-drop_whole : (n : ℕ) (l : List Stream) → take n l ++ drop (length (take n l)) l ≡ l
take-drop_whole zero l = refl
take-drop_whole (suc n) [] = refl
take-drop_whole (suc n) (s ∷ l) = ap (λ t. s ∷ t) (take-drop_whole n l)

take_whole : (n : ℕ) (l : List Stream) → length l ≤ length (take n l) → take n l ≡ l
take_whole zero [] h = refl
take_whole zero (s ∷ l) h = absurd (omega (arith, h))
take_whole (suc n) [] h = refl
take_whole (suc n) (s ∷ l) h = ap (λ t. s ∷ t) (take_whole n l (omega (arith, h)))

take_some : (n : ℕ) (l : List Stream) → 0 < length l → 0 < length (take (suc n) l)
take_some n [] h = absurd (omega (arith, h))
take_some n (s ∷ l) h = omega arith

drop_further : (a b : ℕ) (l : List Stream) → drop b (drop a l) ≡ drop (a + b) l
drop_further zero b l = let e : 0 + b ≡ b = omega arith in rw e refl
drop_further (suc a) b [] = drop-nil b ∙ sym (drop-nil (suc a + b))
drop_further (suc a) b (s ∷ l) =
    let e : suc a + b ≡ suc (a + b) = omega arith in rw e (drop_further a b l)

length_left : (a : ℕ) (l : List Stream) → length (drop a l) ≡ length l - a
length_left zero l = omega arith
length_left (suc a) [] = omega arith
length_left (suc a) (s ∷ l) = omega (arith, length_left a l)

module _ (orders : ℕ → Ordering) (params : FindStreamsParams) (db : Db) (n : ℕ)
    (rows : List Stream) where
  walk_from :
      (fuel offset : ℕ)
      → ((at : ℕ) → rows_at orders params db at ≡ rows)
      → length rows ≡ length (selected_streams params db)
      → params.limit ≡ pos (suc n)
      → length rows - offset < fuel
      → walk orders params db fuel offset ≡ some (drop offset rows)
  unfolding walk
  walk_from zero offset agree counted size enough = absurd (omega (arith, enough))
  walk_from (suc fuel) offset agree counted size enough =
      ap (λ l. shown l (rows_at orders params db offset)) size
      ∙ ap (shown (pos (suc n))) (agree offset)
      ∙ go (Bool-cases (ltb (offset + length page) total))
          (λ h. walk_from fuel (offset + length page) agree counted size h)
    where
      total : ℕ
      total = length (selected_streams params db)

      left : List Stream
      left = drop offset rows

      page : List Stream
      page = take (suc n) left

      shown : ℤ → List Stream → Option (List Stream)
      shown limit all = elim (ltb (offset + length (page_of limit offset all)) total) [
        | true ↦
            next_page (page_of limit offset all)
              (walk orders params db fuel (offset + length (page_of limit offset all)))
        | false ↦ some (page_of limit offset all)
      ]

      by : Bool → Option (List Stream)
      by has_more = elim has_more [
        | true ↦ next_page page (walk orders params db fuel (offset + length page))
        | false ↦ some page
      ]

      go :
          (ltb (offset + length page) total ≡ true) ⊎ (ltb (offset + length page) total ≡ false)
          → (length rows - (offset + length page) < fuel
              → walk orders params db fuel (offset + length page)
                ≡ some (drop (offset + length page) rows))
          → by (ltb (offset + length page) total) ≡ some left
      go (inl more) again =
          let below = ltb→lt (offset + length page) total more in
          let some_left : 0 < length left =
            omega (arith, length_left offset rows, counted, below) in
          let whole : page ++ drop (offset + length page) rows ≡ left =
            ap (λ l. page ++ l) (sym (drop_further offset (length page) rows))
            ∙ take-drop_whole (suc n) left in
          let rest = again (omega (arith, enough, take_some n left some_left, counted, below)) in
          ap by more ∙ ap (λ r. next_page page r) rest ∙ ap (λ l. some l) whole
      go (inr over) again =
          let above : total ≤ offset + length page = ground arith in
          ap by over
          ∙ ap (λ l. some l)
              (take_whole (suc n) left (omega (arith, length_left offset rows, counted, above)))

-- Where each query gives the selected rows in some order that is sorted by a relation without ties, a
-- walk with a positive limit that starts at no offset and asks for the next page while there is said
-- to be more ends, within as many pages as there are rows and one more, and has seen the selected
-- rows, each once, in that order.
pub find_streams_walk :
    (before : Stream → Stream → Bool) (orders : ℕ → Ordering) (params : FindStreamsParams) (db : Db)
    (n fuel : ℕ)
    → IsAsymmetric before
    → ((at : ℕ) → Permutes (selected_streams params db) (rows_at orders params db at))
    → ((at : ℕ) → IsSorted before (rows_at orders params db at))
    → params.limit ≡ pos (suc n)
    → length (selected_streams params db) < fuel
    → (seen : List Stream) × (walk orders params db fuel 0 ≡ some seen)
      × Permutes (selected_streams params db) seen
      × IsSorted before seen
find_streams_walk before orders params db n fuel asym all sorted size enough =
    let rows = rows_at orders params db 0 in
    let agree = λ (at : ℕ). Permutes-once before asym (all at) (all 0) (sorted at) (sorted 0) in
    (
      rows,
      walk_from orders params db n rows fuel 0 agree (length-Permutes (all 0)) size
          (omega (arith, enough, length-Permutes (all 0))),
      all 0,
      sorted 0,
    )
