-- ===== src/MemoryCache/Bounds.antt =====
-- The entries of the cache of backend/src/lib/redis.ts: how many there are, that their keys are
-- distinct, and which of them eviction keeps.
use flowfi.Prelude.{
  ℕ, ◌+◌, ◌-◌, ◌≤◌, ◌≡◌, refl, sym, drop-nil, length-append, none, some, [], ◌∷◌, arith, ltb, drop,
  Bool-cases, inl, inr, suc, Option-cases,
}
use flowfi.Prelude.Text.{Text, text_eq_refl}
use flowfi.Prelude.JsMap.{
  JsMap, size, insert, erase, HasDistinctKeys, insert-HasDistinctKeys, erase-HasDistinctKeys,
  lookup, lookup-erase, insert_of_none, size-erase, size-erase-le,
}
use flowfi.MemoryCache.{CacheItem, MemoryCache, evict, get, set, del, get_metadata, sweep, cleanup}

module _ {V : Type 0} where
  pub size-evict : (most : ℕ) (m : JsMap (CacheItem V)) → size (evict most m) ≤ most
  unfolding evict
  size-evict most [] = omega arith
  size-evict most (e ∷ m) = ground (arith, size-evict most m)

  -- Eviction drops the oldest entries and no more than it must.
  pub evict-eq-drop : (most : ℕ) (m : JsMap (CacheItem V)) → evict most m ≡ drop (size m - most) m
  unfolding evict
  evict-eq-drop most [] = sym (drop-nil (0 - most))
  evict-eq-drop most (e ∷ m) = elim (Bool-cases (ltb most (size (e ∷ m)))) [
    | inl over ↦ rw over (
        let n : suc (size m) - most ≡ suc (size m - most) = ground arith in
        rw n (evict-eq-drop most m))
    | inr fits ↦ rw fits (let n : suc (size m) - most ≡ 0 = ground arith in rw n refl)
  ]

  lookup-evict-none :
      (most : ℕ) (k : Text) (m : JsMap (CacheItem V))
      → lookup k m ≡ none
      → lookup k (evict most m) ≡ none
  unfolding evict lookup
  lookup-evict-none most k [] e = refl
  lookup-evict-none most k ((j, v) ∷ m) e = ground (arith, lookup-evict-none most k m)

  evict-HasDistinctKeys :
      (most : ℕ) (m : JsMap (CacheItem V)) → HasDistinctKeys m → HasDistinctKeys (evict most m)
  unfolding evict
  evict-HasDistinctKeys most [] h = tt
  evict-HasDistinctKeys most ((k, v) ∷ m) (p, h) = ground (arith, evict-HasDistinctKeys most m h)

  lookup-sweep-none :
      (now : ℕ) (k : Text) (m : JsMap (CacheItem V))
      → lookup k m ≡ none
      → lookup k (sweep now m) ≡ none
  unfolding sweep lookup
  lookup-sweep-none now k [] e = refl
  lookup-sweep-none now k ((j, v) ∷ m) e = ground (arith, lookup-sweep-none now k m)

  sweep-HasDistinctKeys :
      (now : ℕ) (m : JsMap (CacheItem V)) → HasDistinctKeys m → HasDistinctKeys (sweep now m)
  unfolding sweep
  sweep-HasDistinctKeys now [] h = tt
  sweep-HasDistinctKeys now ((k, v) ∷ m) (p, h) =
      ground (arith, sweep-HasDistinctKeys now m h, lookup-sweep-none now k m p)

  lookup-erase_self : (k : Text) (m : JsMap (CacheItem V)) → lookup k (erase k m) ≡ none
  lookup-erase_self k m = rw (lookup-erase k k m) (rw (text_eq_refl k))

  -- Moving an entry to the end keeps the number of entries.
  size-refresh :
      (k : Text) (item : CacheItem V) (m : JsMap (CacheItem V))
      → HasDistinctKeys m
      → lookup k m ≡ some item
      → size (insert k item (erase k m)) ≡ size m
  size-refresh k item m h e =
      rw (insert_of_none k item (erase k m) (lookup-erase_self k m))
        (omega (arith, size-erase k m h e, length-append (erase k m) ((k, item) ∷ [])))

  -- The keys are distinct and the number of entries is within the cap.
  pub record IsValid (c : MemoryCache V) : Type 0 where
    pub distinct : HasDistinctKeys c.cache
    pub bounded : size c.cache ≤ c.max_items

  refresh-IsValid :
      (k : Text) (item : CacheItem V) (m : JsMap (CacheItem V))
      → HasDistinctKeys m
      → HasDistinctKeys (insert k item (erase k m))
  refresh-IsValid k item m h =
      insert-HasDistinctKeys k item (erase k m) (erase-HasDistinctKeys k m h)

  get-IsValid : (now : ℕ) (key : Text) (c : MemoryCache V) → IsValid c → IsValid (get now key c).0
  unfolding get
  get-IsValid now key c v = elim (Option-cases (lookup key c.cache)) [
    | inl missing ↦ ground arith
    | inr (item, found) ↦ ground (
      arith,
      size-refresh key item c.cache v.distinct found,
      size-erase-le key c.cache,
      refresh-IsValid key item c.cache v.distinct,
      erase-HasDistinctKeys key c.cache v.distinct,
    )
  ]

  get_metadata-IsValid :
      (now : ℕ) (key : Text) (c : MemoryCache V) → IsValid c → IsValid (get_metadata now key c).0
  unfolding get_metadata
  get_metadata-IsValid now key c v = elim (Option-cases (lookup key c.cache)) [
    | inl missing ↦ ground arith
    | inr (item, found) ↦ ground (
      arith,
      size-refresh key item c.cache v.distinct found,
      size-erase-le key c.cache,
      refresh-IsValid key item c.cache v.distinct,
      erase-HasDistinctKeys key c.cache v.distinct,
    )
  ]

  -- Writing, deleting and sweeping give a valid cache, a sweep and a write whatever the size was.
  set-IsValid :
      (now : ℕ) (key : Text) (value : V) (ttl : ℕ) (c : MemoryCache V)
      → HasDistinctKeys c.cache
      → IsValid (set now key value ttl c)
  unfolding set
  set-IsValid now key value ttl c h =
      let item : CacheItem V = record { value = value; expires_at = now + ttl; created_at = now } in
      record {
        distinct =
            evict-HasDistinctKeys c.max_items (insert key item (erase key c.cache))
              (refresh-IsValid key item c.cache h);
        bounded = size-evict c.max_items (insert key item (erase key c.cache));
      }

  del-IsValid : (key : Text) (c : MemoryCache V) → IsValid c → IsValid (del key c)
  unfolding del
  del-IsValid key c v =
      ground (arith, size-erase-le key c.cache, erase-HasDistinctKeys key c.cache v.distinct)

  cleanup-IsValid :
      (now : ℕ) (c : MemoryCache V) → HasDistinctKeys c.cache → IsValid (cleanup now c)
  unfolding cleanup
  cleanup-IsValid now c h = record {
    distinct =
        evict-HasDistinctKeys c.max_items (sweep now c.cache) (sweep-HasDistinctKeys now c.cache h);
    bounded = size-evict c.max_items (sweep now c.cache);
  }

  -- From a cache whose keys are distinct and which is within its cap, every operation (`get`,
  -- `getMetadata`, `set`, `del`, `cleanup`) leaves such a cache.
  pub operations-IsValid :
      (now ttl : ℕ) (key : Text) (value : V) (c : MemoryCache V)
      → IsValid c
      → IsValid (get now key c).0
        × IsValid (get_metadata now key c).0
        × IsValid (set now key value ttl c)
        × IsValid (del key c)
        × IsValid (cleanup now c)
  operations-IsValid now ttl key value c v = (
    get-IsValid now key c v,
    get_metadata-IsValid now key c v,
    set-IsValid now key value ttl c v.distinct,
    del-IsValid key c v,
    cleanup-IsValid now c v.distinct,
  )
