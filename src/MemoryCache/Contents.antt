-- ===== src/MemoryCache/Contents.antt =====
-- What the cache of backend/src/lib/redis.ts answers.
use flowfi.Prelude.{
  ℕ, ◌+◌, ◌-◌, ◌<◌, ◌≡◌, refl, none, some, [], ◌∷◌, ◌++◌, arith, ltb, if◌then◌else◌, drop, inl, inr,
  Option-cases, length-append,
}
use flowfi.Prelude.Text.{Text, text_eq_refl}
use flowfi.Prelude.JsMap.{
  JsMap, size, insert, erase, lookup, lookup-erase, insert_of_none, Entries, Entries-erase,
  Entries-insert, Entries-lookup,
}
use flowfi.MemoryCache.{CacheItem, MemoryCache, evict, get, set, get_metadata}
use flowfi.MemoryCache.Bounds.{evict-eq-drop}

module _ {V : Type 0} where
  lookup-evict_last :
      (most : ℕ) (k : Text) (v : CacheItem V) (m : JsMap (CacheItem V))
      → 0 < most
      → lookup k m ≡ none
      → lookup k (evict most (m ++ (k, v) ∷ [])) ≡ some v
  unfolding evict lookup
  lookup-evict_last most k v [] h e = ground (arith, text_eq_refl k)
  lookup-evict_last most k v ((j, w) ∷ m) h e =
      ground (arith, lookup-evict_last most k v m h, lookup_last k v m)
    where
      lookup_last :
          (k : Text) (v : CacheItem V) (m : JsMap (CacheItem V))
          → lookup k m ≡ none
          → lookup k (m ++ (k, v) ∷ []) ≡ some v
      lookup_last k v [] e = ground (arith, text_eq_refl k)
      lookup_last k v ((j, w) ∷ m) e = ground (arith, lookup_last k v m)

  lookup-erase_self : (k : Text) (m : JsMap (CacheItem V)) → lookup k (erase k m) ≡ none
  lookup-erase_self k m = rw (lookup-erase k k m) (rw (text_eq_refl k))

  -- With room for an item, a value that was set is read back until its time to live is over, and
  -- no longer from then on.
  get-set :
      (now later ttl : ℕ) (key : Text) (value : V) (c : MemoryCache V)
      → 0 < c.max_items
      → (get later key (set now key value ttl c)).1
        ≡ (if ltb later (now + ttl) then some value else none)
  unfolding get set
  get-set now later ttl key value c room =
      let item : CacheItem V = record { value = value; expires_at = now + ttl; created_at = now } in
      let kept =
        lookup-evict_last c.max_items key item (erase key c.cache) room
          (lookup-erase_self key c.cache) in
      let last = insert_of_none key item (erase key c.cache) (lookup-erase_self key c.cache) in
      ground (arith, kept, last)

  -- The order of the entries is the order of their last use: a hit moves the entry to the end, a
  -- write puts it there, and what the cap forces out is the front, no more than is needed.
  recency :
      (now ttl : ℕ) (key : Text) (value : V) (item : CacheItem V) (c : MemoryCache V)
      → lookup key c.cache ≡ some item
      → now < item.expires_at
      → let written : CacheItem V = record {
        value = value;
        expires_at = now + ttl;
        created_at = now;
      } in
        let kept = erase key c.cache in
        ((get now key c).0.cache ≡ kept ++ (key, item) ∷ [])
        × ((set now key value ttl c).cache
            ≡ drop (size kept + 1 - c.max_items) (kept ++ (key, written) ∷ []))
  unfolding get set
  recency now ttl key value item c found fresh =
      let written : CacheItem V = record {
        value = value;
        expires_at = now + ttl;
        created_at = now;
      } in
      let kept = erase key c.cache in
      let gone = lookup-erase_self key c.cache in
      let old = insert_of_none key item kept gone in
      let new = insert_of_none key written kept gone in
      let n = length-append kept ((key, written) ∷ []) in
      let count : size (kept ++ (key, written) ∷ []) ≡ size kept + 1 = omega (arith, n) in
      (
        ground (arith, old, found),
        rw (new, evict-eq-drop c.max_items (kept ++ (key, written) ∷ []), count) refl,
      )

  -- What holds of every entry, and of what is written, holds after each operation that the
  -- claimable service uses.
  module _ (P : Text → CacheItem V → Type 0) where
    Entries-evict : (most : ℕ) (m : JsMap (CacheItem V)) → Entries P m → Entries P (evict most m)
    unfolding evict
    Entries-evict most [] h = tt
    Entries-evict most ((k, v) ∷ m) (p, h) = ground (arith, Entries-evict most m h)

    pub Entries-get :
        (now : ℕ) (key : Text) (c : MemoryCache V)
        → Entries P c.cache
        → Entries P (get now key c).0.cache
    unfolding get
    Entries-get now key c h = elim (Option-cases (lookup key c.cache)) [
      | inl missing ↦ ground arith
      | inr (item, found) ↦ ground (
        arith,
        Entries-erase P key c.cache h,
        Entries-insert P key item (erase key c.cache) (Entries-lookup P key item c.cache h found)
            (Entries-erase P key c.cache h),
      )
    ]

    pub Entries-get_metadata :
        (now : ℕ) (key : Text) (c : MemoryCache V)
        → Entries P c.cache
        → Entries P (get_metadata now key c).0.cache
    unfolding get_metadata
    Entries-get_metadata now key c h = elim (Option-cases (lookup key c.cache)) [
      | inl missing ↦ ground arith
      | inr (item, found) ↦ ground (
        arith,
        Entries-erase P key c.cache h,
        Entries-insert P key item (erase key c.cache) (Entries-lookup P key item c.cache h found)
            (Entries-erase P key c.cache h),
      )
    ]

    pub Entries-set :
        (now ttl : ℕ) (key : Text) (value : V) (c : MemoryCache V)
        → P key (record { value = value; expires_at = now + ttl; created_at = now })
        → Entries P c.cache
        → Entries P (set now key value ttl c).cache
    unfolding set
    Entries-set now ttl key value c p h =
        let item : CacheItem V = record {
          value = value;
          expires_at = now + ttl;
          created_at = now;
        } in
        Entries-evict c.max_items (insert key item (erase key c.cache))
          (Entries-insert P key item (erase key c.cache) p (Entries-erase P key c.cache h))

    -- A value that is answered comes from an entry of that key that has not expired.
    pub get_sound :
        (now : ℕ) (key : Text) (value : V) (c : MemoryCache V)
        → Entries P c.cache
        → (get now key c).1 ≡ some value
        → (item : CacheItem V) × P key item × (item.value ≡ value) × (now < item.expires_at)
    unfolding get
    get_sound now key value c h e = elim (Option-cases (lookup key c.cache)) [
      | inl missing ↦ ground arith
      | inr (item, found) ↦ (
        item,
        Entries-lookup P key item c.cache h found,
        ground (arith, found),
        ground (arith, found),
      )
    ]
