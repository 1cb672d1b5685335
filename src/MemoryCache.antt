-- ===== src/MemoryCache.antt =====
-- The LRU-bounded cache of backend/src/lib/redis.ts, over values of any type. Times are whole
-- milliseconds; `now` is what `Date.now()` returns in the call, and a time to live is taken in
-- milliseconds, the product that `set` forms from its seconds.
pub mod Bounds
pub mod Contents
use flowfi.Prelude.{
  ℕ, ◌+◌, Bool, Option, none, some, List, [], ◌∷◌, ltb, leb, length, if◌then◌else◌,
}
use flowfi.Prelude.Text.{Text}
use flowfi.Prelude.JsMap.{JsMap, lookup, insert, erase, size}

pub record CacheItem (V : Type 0) : Type 0 where
  pub value : V
  pub expires_at : ℕ
  pub created_at : ℕ

pub record MemoryCache (V : Type 0) : Type 0 where
  pub cache : JsMap (CacheItem V)
  pub hits : ℕ
  pub misses : ℕ
  pub max_items : ℕ

pub record Stats : Type 0 where
  pub hits : ℕ
  pub misses : ℕ
  pub total_requests : ℕ
  pub item_count : ℕ
  pub max_items : ℕ

-- The constructor: an option, or a positive environment value, or 10,000 items.
pub new : {V : Type 0} → Option ℕ → Option ℕ → MemoryCache V
new option configured = record {
  cache = [];
  hits = 0;
  misses = 0;
  max_items = elim option [
    | some n ↦ n
    | none ↦ elim configured [ some n ↦ if ltb 0 n then n else 10000 | none ↦ 10000 ]
  ];
}

module _ {V : Type 0} where
  -- The loop of `evictIfOverCapacity`: the first key is the oldest.
  unfoldable pub evict : ℕ → JsMap (CacheItem V) → JsMap (CacheItem V)
  evict most [] = []
  evict most (e ∷ m) = if ltb most (size (e ∷ m)) then evict most m else e ∷ m

  abbrev is_expired : ℕ → CacheItem V → Bool
  is_expired now item = leb item.expires_at now

  unfoldable pub get : ℕ → Text → MemoryCache V → MemoryCache V × Option V
  get now key c = elim (lookup key c.cache) [
    | none ↦ (record c { misses = c.misses + 1 }, none)
    | some item ↦
        if is_expired now item
        then (record c { cache = erase key c.cache; misses = c.misses + 1 }, none)
        else (
          record c { cache = insert key item (erase key c.cache); hits = c.hits + 1 },
          some item.value,
        )
  ]

  unfoldable pub set : ℕ → Text → V → ℕ → MemoryCache V → MemoryCache V
  unfolding evict
  set now key value ttl c = record c {
    cache = evict c.max_items (
        insert key (record { value = value; expires_at = now + ttl; created_at = now })
          (erase key c.cache));
  }

  unfoldable pub del : Text → MemoryCache V → MemoryCache V
  del key c = record c { cache = erase key c.cache }

  -- Creation and expiry times, as milliseconds where the source formats a date.
  unfoldable pub get_metadata : ℕ → Text → MemoryCache V → MemoryCache V × Option (ℕ × ℕ)
  get_metadata now key c = elim (lookup key c.cache) [
    | none ↦ (c, none)
    | some item ↦ if is_expired now item then (record c { cache = erase key c.cache }, none) else (
      record c { cache = insert key item (erase key c.cache) },
      some (item.created_at, item.expires_at),
    )
  ]

  -- The counts; the hit rate is the float quotient of `hits` and `total_requests`.
  unfoldable pub get_stats : MemoryCache V → Stats
  get_stats c = record {
    hits = c.hits;
    misses = c.misses;
    total_requests = c.hits + c.misses;
    item_count = size c.cache;
    max_items = c.max_items;
  }

  -- The loop of `cleanup`, over the entries that the sweep began with.
  unfoldable pub sweep : ℕ → JsMap (CacheItem V) → JsMap (CacheItem V)
  sweep now [] = []
  sweep now ((key, item) ∷ m) =
      if is_expired now item then sweep now m else (key, item) ∷ sweep now m

  unfoldable pub cleanup : ℕ → MemoryCache V → MemoryCache V
  unfolding evict sweep
  cleanup now c = record c { cache = evict c.max_items (sweep now c.cache) }
