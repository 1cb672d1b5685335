-- ===== src/Indexer/Validity.antt =====
-- Tables that hold together, and the queries of the indexer that keep them so.
use flowfi.Prelude.{
  ℕ, ◌≡◌, refl, true, false, none, List, [], ◌∷◌, ◌++◌, arith, ◌==◌, ℤ, All, All-append,
  Option-cases, Bool-cases, inl, inr,
}
use flowfi.Prelude.Text.{Text, to_string}
use flowfi.Indexer.Tables.{
  Stream, StreamEvent, Db, find_stream, replace_stream, update_stream, upsert_stream, find_event,
  upsert_event, record_event, upsert_user, contains,
}
use flowfi.Indexer.Post.{Post}
use flowfi.Indexer.Keys.{
  DistinctKeys, replace_event-DistinctKeys, replace_event-All, append-DistinctKeys,
}
use flowfi.Indexer.Rows.{is_some, KeepsId, KeepsKey, find_stream-replace, find_stream-append}

-- The text of an integer, as `String` gives it.
abbrev pub IsInteger : Text → Type 0
IsInteger t = (z : ℤ) × (t ≡ to_string z)

-- The three amounts of a stream.
abbrev pub HasIntegers : Stream → Type 0
HasIntegers s =
    IsInteger s.rate_per_second × IsInteger s.deposited_amount × IsInteger s.withdrawn_amount

abbrev pub DistinctIds : List Stream → Type 0
DistinctIds [] = Unit
DistinctIds (s ∷ ss) = (is_some (find_stream s.stream_id ss) ≡ false) × DistinctIds ss

abbrev pub HasStream : List Stream → StreamEvent → Type 0
HasStream ss e = is_some (find_stream e.stream_id ss) ≡ true

-- Ids and event keys are unique, amounts are texts of integers, and an event's stream exists.
pub record IsValid (db : Db) : Type 0 where
  pub ids : DistinctIds db.streams
  pub amounts : All HasIntegers db.streams
  pub keys : DistinctKeys db.events
  pub links : All (HasStream db.streams) db.events

found-replace :
    (j k : ℕ) (f : Stream → Stream) (ss : List Stream)
    → KeepsId f
    → is_some (find_stream j (replace_stream k f ss)) ≡ is_some (find_stream j ss)
found-replace j k f ss keep = elim (Option-cases (find_stream j ss)) [
  | inl absent ↦ ground (arith, find_stream-replace j k f ss keep, absent)
  | inr (s, found) ↦ ground (arith, find_stream-replace j k f ss keep, found)
]

replace_stream-DistinctIds :
    (k : ℕ) (f : Stream → Stream) (ss : List Stream)
    → KeepsId f
    → DistinctIds ss
    → DistinctIds (replace_stream k f ss)
unfolding replace_stream
replace_stream-DistinctIds k f [] keep h = tt
replace_stream-DistinctIds k f (s ∷ ss) keep (p, h) =
    let rest = replace_stream-DistinctIds k f ss keep h in
    elim (Bool-cases (s.stream_id == k)) [
      | inl here ↦ rw (here, replace_stream, keep s) (p, h)
      | inr there ↦ rw (there, replace_stream, found-replace s.stream_id k f ss keep) (p, rest)
    ]

replace_stream-All :
    (P : Stream → Type 0) (k : ℕ) (f : Stream → Stream) (ss : List Stream)
    → ((s : Stream) → P s → P (f s))
    → All P ss
    → All P (replace_stream k f ss)
unfolding replace_stream
replace_stream-All P k f [] keep h = tt
replace_stream-All P k f (s ∷ ss) keep (p, h) =
    let rest = replace_stream-All P k f ss keep h in
    elim (Bool-cases (s.stream_id == k)) [
      | inl here ↦ rw (here, replace_stream) (keep s p, h)
      | inr there ↦ rw (there, replace_stream) (p, rest)
    ]

find_stream-cons-none :
    (j : ℕ) (x : Stream) (ss : List Stream)
    → find_stream j (x ∷ ss) ≡ none
    → ((x.stream_id == j) ≡ false) × (find_stream j ss ≡ none)
unfolding find_stream
find_stream-cons-none j x ss h = elim (Bool-cases (x.stream_id == j)) [
  | inl same ↦ absurd (ground (arith, same))
  | inr other ↦ (other, ground (arith, other))
]

append-DistinctIds :
    (s : Stream) (ss : List Stream)
    → find_stream s.stream_id ss ≡ none
    → DistinctIds ss
    → DistinctIds (ss ++ s ∷ [])
unfolding find_stream
append-DistinctIds s [] h d = (refl, tt)
append-DistinctIds s (x ∷ ss) h (p, d) =
    let (other, rest) = find_stream-cons-none s.stream_id x ss h in
    (ground (arith, find_stream-append x.stream_id ss s, other), append-DistinctIds s ss rest d)

found-append :
    (j : ℕ) (ss : List Stream) (s : Stream)
    → is_some (find_stream j ss) ≡ true
    → is_some (find_stream j (ss ++ s ∷ [])) ≡ true
found-append j ss s h = ground (arith, find_stream-append j ss s, h)

-- Events keep their streams if no stream is lost.
links_of :
    (ss ss' : List Stream) (es : List StreamEvent)
    → ((j : ℕ) → is_some (find_stream j ss) ≡ true → is_some (find_stream j ss') ≡ true)
    → All (HasStream ss) es
    → All (HasStream ss') es
links_of ss ss' [] more h = tt
links_of ss ss' (e ∷ es) more (p, h) = (more e.stream_id p, links_of ss ss' es more h)

-- A change of a stream that keeps its id and leaves it amounts that are integers.
pub record KeepsStream (f : Stream → Stream) : Type 0 where
  pub id : KeepsId f
  pub integers : (s : Stream) → HasIntegers s → HasIntegers (f s)

replace_stream-IsValid :
    (id : ℕ) (f : Stream → Stream) (db : Db)
    → KeepsStream f
    → IsValid db
    → IsValid (record db { streams = replace_stream id f db.streams })
replace_stream-IsValid id f db keep h = record {
  ids = replace_stream-DistinctIds id f db.streams keep.id h.ids;
  amounts = replace_stream-All HasIntegers id f db.streams keep.integers h.amounts;
  keys = h.keys;
  links =
      links_of db.streams _ db.events (λ j p. rw (found-replace j id f db.streams keep.id) p)
        h.links;
}

pub update_stream-IsValid :
    (id : ℕ) (f : Stream → Stream) (db : Db)
    → KeepsStream f
    → IsValid db
    → Post (update_stream id f db) IsValid
unfolding update_stream
update_stream-IsValid id f db keep h = elim (Option-cases (find_stream id db.streams)) [
  | inl absent ↦ rw (absent, update_stream) tt
  | inr (s, found) ↦ rw (found, update_stream) (replace_stream-IsValid id f db keep h)
]

pub upsert_stream-IsValid :
    (row : Stream) (f : Stream → Stream) (db : Db)
    → HasIntegers row
    → KeepsStream f
    → IsValid db
    → IsValid (upsert_stream row f db)
unfolding upsert_stream
upsert_stream-IsValid row f db good keep h =
    elim (Option-cases (find_stream row.stream_id db.streams)) [
      | inr (s, found) ↦
          rw (found, upsert_stream) (replace_stream-IsValid row.stream_id f db keep h)
      | inl absent ↦
          rw (absent, upsert_stream)
            (record {
              ids = append-DistinctIds row db.streams absent h.ids;
              amounts = All-append HasIntegers db.streams (row ∷ []) h.amounts (good, tt);
              keys = h.keys;
              links =
                  links_of db.streams _ db.events (λ j p. found-append j db.streams row p) h.links;
            })
    ]

pub upsert_user-IsValid : (key : Text) (db : Db) → IsValid db → IsValid (upsert_user key db)
unfolding upsert_user
upsert_user-IsValid key db h = elim (Bool-cases (contains key db.users)) [
  | inl there ↦ rw (there, upsert_user) h
  | inr absent ↦
      rw (absent, upsert_user)
        (record { ids = h.ids; amounts = h.amounts; keys = h.keys; links = h.links })
]

pub upsert_event-IsValid :
    (row : StreamEvent) (f : StreamEvent → StreamEvent) (db : Db)
    → KeepsKey f
    → IsValid db
    → Post (upsert_event row f db) IsValid
unfolding upsert_event
upsert_event-IsValid row f db keep h =
    elim (Option-cases (find_event row.transaction_hash row.event_type db.events)) [
      | inr (e, found) ↦
          rw (found, upsert_event)
            (record {
              ids = h.ids;
              amounts = h.amounts;
              keys =
                  replace_event-DistinctKeys row.transaction_hash row.event_type f db.events keep
                    h.keys;
              links =
                  replace_event-All (HasStream db.streams) row.transaction_hash row.event_type f
                    db.events (λ x p. rw ((keep x).2) p) h.links;
            })
      | inl absent ↦ elim (Option-cases (find_stream row.stream_id db.streams)) [
        | inl missing ↦ rw (absent, upsert_event, missing) tt
        | inr (s, there) ↦
            let linked : HasStream db.streams row = rw there refl in
            rw (absent, upsert_event, there)
              (record {
                ids = h.ids;
                amounts = h.amounts;
                keys = append-DistinctKeys row db.events absent h.keys;
                links = All-append (HasStream db.streams) db.events (row ∷ []) h.links (linked, tt);
              })
      ]
    ]

pub record_event-IsValid :
    (row : StreamEvent) (f : StreamEvent → StreamEvent) (db : Db)
    → KeepsKey f
    → IsValid db
    → Post (record_event row f db) IsValid
unfolding record_event
record_event-IsValid row f db keep h =
    elim (Option-cases (find_event row.transaction_hash row.event_type db.events)) [
      | inr (e, found) ↦ rw (found, record_event) h
      | inl absent ↦ rw (absent, record_event) (upsert_event-IsValid row f db keep h)
    ]
