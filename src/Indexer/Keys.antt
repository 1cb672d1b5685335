-- ===== src/Indexer/Keys.antt =====
-- The keys of the stored events, as the indexer's queries leave them.
use flowfi.Prelude.{
  ◌≡◌, refl, false, none, List, [], ◌∷◌, ◌++◌, arith, ◌∙◌, All, Bool-cases, inl, inr,
}
use flowfi.Prelude.Text.{Text, text_eq_iff}
use flowfi.Indexer.Tables.{EventType, StreamEvent, same_event, find_event, replace_event}
use flowfi.Indexer.Rows.{is_some, KeepsKey}

abbrev pub DistinctKeys : List StreamEvent → Type 0
DistinctKeys [] = Unit
DistinctKeys (e ∷ es) =
    (is_some (find_event e.transaction_hash e.event_type es) ≡ false) × DistinctKeys es

same_event_sym :
    (a b : StreamEvent)
    → same_event a.transaction_hash a.event_type b ≡ false
    → same_event b.transaction_hash b.event_type a ≡ false
same_event_sym a b h = ground (
  arith,
  text_eq_iff a.transaction_hash b.transaction_hash,
  text_eq_iff b.transaction_hash a.transaction_hash,
)

found_event-replace :
    (hash hash' : Text) (type type' : EventType) (f : StreamEvent → StreamEvent)
    (es : List StreamEvent)
    → KeepsKey f
    → is_some (find_event hash type (replace_event hash' type' f es))
      ≡ is_some (find_event hash type es)
unfolding find_event replace_event
found_event-replace hash hash' type type' f [] keep = refl
found_event-replace hash hash' type type' f (e ∷ es) keep =
    let rest = found_event-replace hash hash' type type' f es keep in
    let again : same_event hash type (f e) ≡ same_event hash type e =
      let (p, q, r) = keep e in rw (p, q) refl in
    elim (Bool-cases (same_event hash' type' e)) [
      | inl here ↦ elim (Bool-cases (same_event hash type e)) [
        | inl x ↦ rw (here, replace_event, find_event, again ∙ x, x) refl
        | inr x ↦ rw (here, replace_event, find_event, again ∙ x, x) refl
      ]
      | inr there ↦ elim (Bool-cases (same_event hash type e)) [
        | inl x ↦ rw (there, replace_event, find_event, x) refl
        | inr x ↦ rw (there, replace_event, find_event, x) rest
      ]
    ]

pub replace_event-DistinctKeys :
    (hash : Text) (type : EventType) (f : StreamEvent → StreamEvent) (es : List StreamEvent)
    → KeepsKey f
    → DistinctKeys es
    → DistinctKeys (replace_event hash type f es)
unfolding replace_event
replace_event-DistinctKeys hash type f [] keep h = tt
replace_event-DistinctKeys hash type f (e ∷ es) keep (p, h) =
    let rest = replace_event-DistinctKeys hash type f es keep h in
    elim (Bool-cases (same_event hash type e)) [
      | inl here ↦ rw (here, replace_event, (keep e).0, (keep e).1) (p, h)
      | inr there ↦
          rw
            (
              there,
              replace_event,
              found_event-replace e.transaction_hash hash e.event_type type f es keep,
            )
            (p, rest)
    ]

pub replace_event-All :
    (P : StreamEvent → Type 0) (hash : Text) (type : EventType) (f : StreamEvent → StreamEvent)
    (es : List StreamEvent)
    → ((e : StreamEvent) → P e → P (f e))
    → All P es
    → All P (replace_event hash type f es)
unfolding replace_event
replace_event-All P hash type f [] keep h = tt
replace_event-All P hash type f (e ∷ es) keep (p, h) =
    let rest = replace_event-All P hash type f es keep h in
    elim (Bool-cases (same_event hash type e)) [
      | inl here ↦ rw (here, replace_event) (keep e p, h)
      | inr there ↦ rw (there, replace_event) (p, rest)
    ]

find_event-cons-none :
    (hash : Text) (type : EventType) (x : StreamEvent) (es : List StreamEvent)
    → find_event hash type (x ∷ es) ≡ none
    → (same_event hash type x ≡ false) × (find_event hash type es ≡ none)
unfolding find_event
find_event-cons-none hash type x es h = elim (Bool-cases (same_event hash type x)) [
  | inl same ↦ absurd (ground (arith, same))
  | inr other ↦ (other, ground (arith, other))
]

absent_event-append :
    (hash : Text) (type : EventType) (es : List StreamEvent) (row : StreamEvent)
    → is_some (find_event hash type es) ≡ false
    → same_event hash type row ≡ false
    → is_some (find_event hash type (es ++ row ∷ [])) ≡ false
unfolding find_event
absent_event-append hash type [] row h other = rw (other, find_event) refl
absent_event-append hash type (x ∷ es) row h other = elim (Bool-cases (same_event hash type x)) [
  | inl same ↦ absurd (ground (arith, same))
  | inr x_other ↦
      rw (x_other, find_event)
        (absent_event-append hash type es row (ground (arith, x_other)) other)
]

pub append-DistinctKeys :
    (row : StreamEvent) (es : List StreamEvent)
    → find_event row.transaction_hash row.event_type es ≡ none
    → DistinctKeys es
    → DistinctKeys (es ++ row ∷ [])
unfolding find_event
append-DistinctKeys row [] h d = (refl, tt)
append-DistinctKeys row (x ∷ es) h (p, d) =
    let (other, rest) = find_event-cons-none row.transaction_hash row.event_type x es h in
    (
      absent_event-append x.transaction_hash x.event_type es row p (same_event_sym row x other),
      append-DistinctKeys row es rest d,
    )
