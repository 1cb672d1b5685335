-- ===== src/Export/Elements.antt =====
-- The text of an export as JSON, `streamTransactionJSON` of backend/src/services/export.service.ts.
use flowfi.Prelude.{
  ℕ, ◌+◌, ◌<◌, Bool, true, false, Option, some, List, [], ◌∷◌, ◌++◌, map, ◌≡◌, refl, ap, sym, ◌∙◌,
  ◌==◌, length, append-nil, append_assoc, arith, ℤ,
}
use flowfi.Prelude.Text.{Text, codes}
use flowfi.Export.{ExportOptions, TransactionRecord, Rows}
use flowfi.Export.Write.{Export, End, closed, left_open}
use flowfi.Export.Pages.{HasKeys, end_of}
use flowfi.Export.Write.{
  bound, empty_export, metadata, close_json, json_writer, json_of, write_piece, write_element,
  stream_transaction_json,
}
use flowfi.Csv.{join_with}
use flowfi.Export.Records.{write_records, written_of, exported, write_all_lem}

-- The text of an export.
abbrev pub joined : List Text → Text
joined [] = []
joined (piece ∷ pieces) = piece ++ joined pieces

joined-append : (a b : List Text) → joined (a ++ b) ≡ joined a ++ joined b
joined-append [] b = refl
joined-append (x ∷ a) b =
    ap (λ t. x ++ t) (joined-append a b) ∙ sym (append_assoc x (joined a) (joined b))

joined-one :
    (pieces : List Text) (piece : Text) → joined (pieces ++ piece ∷ []) ≡ joined pieces ++ piece
joined-one pieces piece =
    joined-append pieces (piece ∷ []) ∙ ap (λ t. joined pieces ++ t) (append-nil piece)

element_later :
    (element : Text) (e : Export)
    → 0 < e.processed_count
    → joined (write_element element e).written ≡ joined e.written ++ b',' ∷ element
element_later element e h =
    let busy : (e.processed_count == 0) ≡ false = ground arith in
    rw busy (
      joined-one (e.written ++ codes "," ∷ []) element
      ∙ ap (λ t. t ++ element) (joined-one e.written (codes ","))
      ∙ append_assoc (joined e.written) (codes ",") element)

element_first :
    (element : Text) (e : Export)
    → e.processed_count ≡ 0
    → joined (write_element element e).written ≡ joined e.written ++ element
element_first element e h =
    let idle : (e.processed_count == 0) ≡ true = ground arith in
    rw idle (joined-one e.written element)

module _ (json : TransactionRecord → Text) where
  abbrev later_elements : List TransactionRecord → Text
  later_elements [] = []
  later_elements (r ∷ rs) = b',' ∷ json r ++ later_elements rs

  abbrev pub elements : List TransactionRecord → Text
  elements rs = join_with b',' (map (λ r. json r) rs)

  join_with-elements :
      (r : TransactionRecord) (rs : List TransactionRecord)
      → elements (r ∷ rs) ≡ json r ++ later_elements rs
  unfolding join_with
  join_with-elements r [] = sym (append-nil (json r))
  join_with-elements r (s ∷ rs) = ap (λ t. json r ++ b',' ∷ t) (join_with-elements s rs)

  later_written :
      (rs : List TransactionRecord) (e : Export)
      → 0 < e.processed_count
      → joined (write_records (λ r x. write_element (json r) x) rs e).written
        ≡ joined e.written ++ later_elements rs
  later_written [] e h = sym (append-nil (joined e.written))
  later_written (r ∷ rs) e h =
      later_written rs (write_element (json r) e) (omega arith)
      ∙ ap (λ t. t ++ later_elements rs) (element_later (json r) e h)
      ∙ append_assoc (joined e.written) (b',' ∷ json r) (later_elements rs)

  elements_written :
      (rs : List TransactionRecord) (e : Export)
      → e.processed_count ≡ 0
      → joined (write_records (λ r x. write_element (json r) x) rs e).written
        ≡ joined e.written ++ elements rs
  unfolding join_with
  elements_written [] e h = sym (append-nil (joined e.written))
  elements_written (r ∷ rs) e h =
      later_written rs (write_element (json r) e) (omega arith)
      ∙ ap (λ t. t ++ later_elements rs) (element_first (json r) e h)
      ∙ append_assoc (joined e.written) (json r) (later_elements rs)
      ∙ ap (λ t. joined e.written ++ t) (sym (join_with-elements r rs))

abbrev json_start : Text
json_start = codes "{\"transactions\":["

abbrev pub as_text : End × Export → End × Text
as_text (end, e) = (end, joined e.written)

abbrev pub json_export : Text → Text → List TransactionRecord × Bool → End × Text
json_export user exported_at (rs, true) =
    (closed, json_start ++ elements json_of rs ++ metadata user exported_at (length rs))
json_export user exported_at (rs, false) = (left_open, json_start ++ elements json_of rs)

json_count :
    (rs : List TransactionRecord) (e : Export)
    → (write_records json_writer rs e).processed_count ≡ e.processed_count + length rs
unfolding json_writer
json_count [] e = omega arith
json_count (r ∷ rs) e = omega (arith, json_count rs (json_writer r e))

nothing_more : (n : ℕ) → 0 + n ≡ n
nothing_more n = omega arith

json_records :
    (rs : List TransactionRecord) (e : Export)
    → e.processed_count ≡ 0
    → joined (write_records json_writer rs e).written ≡ joined e.written ++ elements json_of rs
unfolding json_writer
json_records rs e h = elements_written json_of rs e h

-- From streams with distinct keys and with bounds that are dates, the export as JSON ends, within
-- as many pages as there are streams and one more. If no event throws, it is closed, and its text
-- is the start, the records with commas between them, and the metadata with their number; if one
-- throws, it is left open after the records before that.
pub stream_transaction_json_once :
    (iso : ℤ → Option Text) (user exported_at : Text) (options : ExportOptions) (rows : Rows)
    (fuel : ℕ) (start end : Option ℤ)
    → HasKeys rows.streams
    → length rows.streams < fuel
    → bound options.start_date ≡ some start
    → bound options.end_date ≡ some end
    → as_text (stream_transaction_json iso user options rows exported_at fuel)
      ≡ json_export user exported_at (exported iso user options rows start end)
unfolding stream_transaction_json
stream_transaction_json_once iso user exported_at options rows fuel start end keys enough from
      until =
    ap (λ p. as_text (close_json user exported_at p))
      (write_all_lem iso user options rows json_writer fuel start end opened keys enough from until)
    ∙ go (exported iso user options rows start end)
  where
    opened : Export
    opened = write_piece json_start empty_export

    go :
        (p : List TransactionRecord × Bool)
        → as_text (close_json user exported_at (end_of (written_of json_writer p opened)))
          ≡ json_export user exported_at p
    go (rs, true) =
        ap (λ t. (closed, t))
          (joined-one (write_records json_writer rs opened).written
              (metadata user exported_at (write_records json_writer rs opened).processed_count)
            ∙ ap
                (λ t.
                  t
                  ++ metadata user exported_at
                      (write_records json_writer rs opened).processed_count)
                (json_records rs opened refl)
            ∙ ap (λ n. json_start ++ elements json_of rs ++ metadata user exported_at n)
                (json_count rs opened ∙ nothing_more (length rs)))
    go (rs, false) = ap (λ t. (left_open, t)) (json_records rs opened refl)
