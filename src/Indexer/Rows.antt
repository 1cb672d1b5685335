-- ===== src/Indexer/Rows.antt =====
-- What the queries of the indexer's tables do to the rows that they find.
use flowfi.Prelude.{
  ℕ, ◌≡◌, refl, Bool, true, false, Option, none, some, List, [], ◌∷◌, ◌++◌, arith, if◌then◌else◌,
  ◌==◌, Option-cases, Bool-cases, inl, inr,
}
use flowfi.Prelude.Text.{Text, text_eq_refl}
use flowfi.Indexer.Xdr.{ok}
use flowfi.Indexer.Tables.{
  EventType, Stream, StreamEvent, Db, find_stream, replace_stream, same_event, find_event,
  replace_event, upsert_event,
}

abbrev pub is_some {ℓ} : {A : Type ℓ} → Option A → Bool
is_some none = false
is_some (some a) = true

abbrev pub KeepsId : (Stream → Stream) → Type 0
KeepsId f = (s : Stream) → (f s).stream_id ≡ s.stream_id

abbrev pub KeepsKey : (StreamEvent → StreamEvent) → Type 0
KeepsKey f =
    (e : StreamEvent)
    → ((f e).transaction_hash ≡ e.transaction_hash)
      × ((f e).event_type ≡ e.event_type)
      × ((f e).stream_id ≡ e.stream_id)

abbrev pub map_option : {A : Type 0} → (A → A) → Option A → Option A
map_option f none = none
map_option f (some a) = some (f a)

pub find_stream-replace :
    (j k : ℕ) (f : Stream → Stream) (ss : List Stream)
    → KeepsId f
    → find_stream j (replace_stream k f ss)
      ≡ (if j == k then map_option f (find_stream j ss) else find_stream j ss)
unfolding find_stream replace_stream
find_stream-replace j k f [] h = ground arith
find_stream-replace j k f (s ∷ ss) h = ground (arith, h s, find_stream-replace j k f ss h)

pub find_stream-append :
    (j : ℕ) (ss : List Stream) (s : Stream)
    → find_stream j (ss ++ s ∷ []) ≡ (
        if is_some (find_stream j ss)
        then find_stream j ss
        else if s.stream_id == j
        then some s
        else none)
unfolding find_stream
find_stream-append j [] s = refl
find_stream-append j (x ∷ ss) s = ground (arith, find_stream-append j ss s)

same_event_refl : (e : StreamEvent) → same_event e.transaction_hash e.event_type e ≡ true
same_event_refl e = ground (arith, text_eq_refl e.transaction_hash)

-- An event that is stored is found.
pub find_event-append :
    (e : StreamEvent) (es : List StreamEvent)
    → is_some (find_event e.transaction_hash e.event_type (es ++ e ∷ [])) ≡ true
unfolding find_event
find_event-append e [] = rw (same_event_refl e)
find_event-append e (x ∷ es) = ground (arith, find_event-append e es)

pub find_event-replace :
    (hash : Text) (type : EventType) (f : StreamEvent → StreamEvent) (es : List StreamEvent)
    → KeepsKey f
    → is_some (find_event hash type (replace_event hash type f es))
      ≡ is_some (find_event hash type es)
unfolding find_event replace_event
find_event-replace hash type f [] h = refl
find_event-replace hash type f (e ∷ es) h = elim (Bool-cases (same_event hash type e)) [
  | inl same ↦
      let again : same_event hash type (f e) ≡ true = let (p, q, r) = h e in rw (p, q) same in
      ground (arith, same, again)
  | inr other ↦ ground (arith, other, find_event-replace hash type f es h)
]

-- After an upsert the event is there.
pub upsert_event-found :
    (row : StreamEvent) (f : StreamEvent → StreamEvent) (db db' : Db)
    → KeepsKey f
    → upsert_event row f db ≡ ok db'
    → is_some (find_event row.transaction_hash row.event_type db'.events) ≡ true
unfolding upsert_event
upsert_event-found row f db db' keep h =
    let key = find_event-replace row.transaction_hash row.event_type f db.events keep in
    let new = find_event-append row db.events in
    elim (Option-cases (find_event row.transaction_hash row.event_type db.events)) [
      | inl absent ↦ elim (Option-cases (find_stream row.stream_id db.streams)) [
        | inl missing ↦ absurd (ground (arith, absent, missing))
        | inr (s, there) ↦ ground (arith, absent, there, new)
      ]
      | inr (e, found) ↦ ground (arith, found, key)
    ]
