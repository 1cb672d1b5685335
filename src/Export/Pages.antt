-- ===== src/Export/Pages.antt =====
-- The pages of an export, backend/src/services/export.service.ts, against one pass over all rows.
use flowfi.Prelude.{
  ℕ, zero, suc, ◌-◌, ◌≤◌, ◌<◌, true, false, Option, some, List, [], ◌∷◌, ◌++◌, if◌then◌else◌, ◌≡◌,
  refl, ap, sym, ◌∙◌, ◌==◌, ltb, ltb→lt, length, take, drop, All, append_assoc, arith, ◌⊎◌,
  Bool-cases, inl, inr,
}
use mathlib.Core.Path.{subst}
use flowfi.Prelude.Text.{Text, text_eq, text_eq_refl}
use flowfi.Export.{Row}
use flowfi.Export.Write.{
  Export, Written, wrote, threw, End, closed, left_open, rows_after, past_cursor, batch_size,
  last_id, write_pages, after_page,
}

abbrev pub LacksKey : Text → List Row → Type 0
LacksKey id rows = All (λ r. text_eq id r.id ≡ false) rows

-- The keys of rows are distinct.
abbrev pub HasKeys : List Row → Type 0
HasKeys [] = Unit
HasKeys (r ∷ rows) = LacksKey r.id rows × HasKeys rows

-- One after the other.
abbrev pub then_write : Written → (Export → Written) → Written
then_write (wrote e) next = next e
then_write (threw e) next = threw e

abbrev pub end_of : Written → End × Export
end_of (wrote e) = (closed, e)
end_of (threw e) = (left_open, e)

take-drop : {A : Type 0} (n : ℕ) (l : List A) → take n l ++ drop n l ≡ l
take-drop zero l = refl
take-drop (suc n) [] = refl
take-drop (suc n) (x ∷ l) = ap (λ t. x ∷ t) (take-drop n l)

drop_short : {A : Type 0} (n : ℕ) (l : List A) → length (take n l) < n → drop n l ≡ []
drop_short zero l h = absurd (omega (arith, h))
drop_short (suc n) [] h = refl
drop_short (suc n) (x ∷ l) h = drop_short n l (omega (arith, h))

length-drop : {A : Type 0} (n : ℕ) (l : List A) → length (drop n l) ≡ length l - n
length-drop zero l = omega arith
length-drop (suc n) [] = omega arith
length-drop (suc n) (x ∷ l) = omega (arith, length-drop n l)

All-middle :
    (P : Row → Type 0) (p : List Row) (x : Row) (rest : List Row) → All P (p ++ x ∷ rest) → P x
All-middle P [] x rest (h, _) = h
All-middle P (y ∷ p) x rest (_, h) = All-middle P p x rest h

-- In rows with distinct keys, those after the last of a part are the rest.
rows_after-split :
    (p : List Row) (x : Row) (rest : List Row)
    → HasKeys (p ++ x ∷ rest)
    → rows_after x.id (p ++ x ∷ rest) ≡ rest
unfolding rows_after
rows_after-split [] x rest h = rw (text_eq_refl x.id) refl
rows_after-split (y ∷ p) x rest (lacks, h) =
    rw (All-middle (λ r. text_eq y.id r.id ≡ false) p x rest lacks) (rows_after-split p x rest h)

past_cursor-last_id :
    (w done p rest : List Row) (cursor : Option Text)
    → HasKeys w
    → w ≡ done ++ (p ++ rest)
    → past_cursor cursor w ≡ p ++ rest
    → past_cursor (last_id cursor p) w ≡ rest
past_cursor-last_id w done [] rest cursor keys e h = h
past_cursor-last_id w done (x ∷ p) rest cursor keys e h =
    past_cursor-last_id w (done ++ x ∷ []) p rest (some x.id) keys
      (e ∙ sym (append_assoc done (x ∷ []) (p ++ rest)))
      (ap (λ l. rows_after x.id l) e
        ∙ rows_after-split done x (p ++ rest) (subst (λ l. HasKeys l) e keys))

take_none : {A : Type 0} (n : ℕ) (l : List A) → 0 < n → length (take n l) ≡ 0 → l ≡ []
take_none zero l h e = absurd (omega (arith, h))
take_none (suc n) [] h e = refl
take_none (suc n) (x ∷ l) h e = absurd (omega (arith, e))

take-le : {A : Type 0} (n : ℕ) (l : List A) → length (take n l) ≤ length l
take-le zero l = omega arith
take-le (suc n) [] = omega arith
take-le (suc n) (x ∷ l) = omega (arith, take-le n l)

fewer :
    {A : Type 0} (n : ℕ) (l : List A) (fuel : ℕ)
    → 0 < n
    → n ≤ length (take n l)
    → length l ≤ fuel
    → length (drop n l) < fuel
fewer n l fuel h full enough = omega (arith, length-drop n l, take-le n l)

-- What the writing of pages needs of the writing of one: parts may be written one after the other.
pub record IsPiecewise (write_page : List Row → Export → Written) : Type 0 where
  pub nothing : (e : Export) → write_page [] e ≡ wrote e
  pub parts :
      (a b : List Row) (e : Export)
      → write_page (a ++ b) e ≡ then_write (write_page a e) (λ y. write_page b y)

module _ (write_page : List Row → Export → Written) (piecewise : IsPiecewise write_page) where
  first_page :
      (rest : List Row) (e : Export)
      → write_page rest e
        ≡ then_write
            (write_page (take batch_size rest) e)
            (λ y. write_page (drop batch_size rest) y)
  first_page rest e =
      ap (λ l. write_page l e) (sym (take-drop batch_size rest))
      ∙ piecewise.parts (take batch_size rest) (drop batch_size rest) e

  -- Pages write what one pass over all rows does.
  pub write_pages_from :
      (wanted : List Row) (fuel : ℕ) (cursor : Option Text) (done rest : List Row) (e : Export)
      → HasKeys wanted
      → wanted ≡ done ++ rest
      → past_cursor cursor wanted ≡ rest
      → length rest < fuel
      → write_pages write_page wanted fuel cursor e ≡ end_of (write_page rest e)
  unfolding write_pages
  write_pages_from wanted zero cursor done rest e keys whole here enough =
      absurd (omega (arith, enough))
  write_pages_from wanted (suc fuel) cursor done rest e keys whole here enough =
      ap paged here ∙ elim (Bool-cases (length page == 0)) [
        | inl no_page ↦
            let over : rest ≡ [] = take_none batch_size rest (omega arith) (ground arith) in
            rw no_page
              (sym (ap (λ l. end_of (write_page l e)) over ∙ ap end_of (piecewise.nothing e)))
        | inr some_page ↦ rw some_page (
            go (next (write_pages_from wanted fuel)) (write_page page e) (first_page rest e)
              (Bool-cases (ltb (length page) batch_size)))
      ]
    where
      page : List Row
      page = take batch_size rest

      after : List Row
      after = drop batch_size rest

      paged : List Row → End × Export
      paged r =
          if length (take batch_size r) == 0
          then (closed, e)
          else after_page (write_page (take batch_size r) e) (length (take batch_size r))
              (λ x. write_pages write_page wanted fuel (last_id cursor (take batch_size r)) x)

      split : wanted ≡ done ++ (page ++ after)
      split = whole ∙ ap (λ l. done ++ l) (sym (take-drop batch_size rest))

      next :
          ((c : Option Text) (d r : List Row) (x : Export)
            → HasKeys wanted
            → wanted ≡ d ++ r
            → past_cursor c wanted ≡ r
            → length r < fuel
            → write_pages write_page wanted fuel c x ≡ end_of (write_page r x))
          → (x : Export) → ltb (length page) batch_size ≡ false
          → write_pages write_page wanted fuel (last_id cursor page) x ≡ end_of (write_page after x)
      next again x long =
          again (last_id cursor page) (done ++ page) after x keys
            (split ∙ sym (append_assoc done page after))
            (past_cursor-last_id wanted done page after cursor keys split
              (here ∙ sym (take-drop batch_size rest)))
            (fewer batch_size rest fuel (omega arith) (ground arith) (omega (arith, enough)))

      go :
          ((x : Export)
            → ltb (length page) batch_size ≡ false
            → write_pages write_page wanted fuel (last_id cursor page) x
              ≡ end_of (write_page after x))
          → (w : Written) → write_page rest e ≡ then_write w (λ y. write_page after y)
          → (ltb (length page) batch_size ≡ true) ⊎ (ltb (length page) batch_size ≡ false)
          → after_page w
              (length page)
              (λ x. write_pages write_page wanted fuel (last_id cursor page) x)
            ≡ end_of (write_page rest e)
      go more (threw x) h size = sym (ap end_of h)
      go more (wrote x) h (inl short) =
          let over : after ≡ [] =
            drop_short batch_size rest (ltb→lt (length page) batch_size short) in
          rw (short, after_page)
            (sym (
              ap end_of h
              ∙ ap (λ l. end_of (write_page l x)) over
              ∙ ap end_of (piecewise.nothing x)))
      go more (wrote x) h (inr long) = rw (long, after_page) (more x long ∙ sym (ap end_of h))
