-- ===== src/Claimable/Coherence.antt =====
-- What the cache of backend/src/services/claimable.service.ts may answer, and how far it may be
-- from the amount at the time of the request.
use flowfi.Prelude.{
  ℕ, ◌+◌, ◌-◌, ◌*◌, ◌≤◌, ◌≡◌, refl, sym, ap, Bool, true, false, Option, none, some, arith, ℤ, pos,
  negsuc, pos_part, ◌≤ℤ◌, ◌+ℤ◌, floor_div, +ℤ_parts, ◌/◌, mul_mono,
}
use flowfi.Prelude.Text.{Text, to_string}
use flowfi.Prelude.JsMap.{Entries}
use flowfi.MemoryCache.{CacheItem, MemoryCache, get}
use flowfi.MemoryCache.Contents.{Entries-get, Entries-get_metadata, Entries-set, get_sound}
use flowfi.Claimable.{
  StreamState, Value, Result, Readings, claimable_amount, cache_key, value_of, calculated_at_of,
  store, answer, get_claimable_amount,
}
use flowfi.Claimable.Amount.{HasAmounts, claimable_closed, end_time}
use flowfi.Claimable.Key.{HasPlainTexts, cache_key_injective}

-- The value is the service's own for the state at a time in the same five seconds.
abbrev pub Answers : StreamState → ℤ → Value → Type 0
Answers s t v =
    (u : ℤ) × (a : ℤ) × (floor_div u 5 ≡ floor_div t 5)
    × (claimable_amount s u ≡ some a)
    × (v ≡ value_of s u a)

-- An entry of the cache that the service has written.
pub record IsMade (key : Text) (item : CacheItem Value) : Type 0 where
  pub stream : StreamState
  pub time : ℤ
  pub amount : ℤ
  pub plain : HasPlainTexts stream
  pub keyed : key ≡ cache_key stream time
  pub computed : claimable_amount stream time ≡ some amount
  pub written : item.value ≡ value_of stream time amount

IsMade-Answers :
    (s : StreamState) (t : ℤ) (item : CacheItem Value)
    → HasPlainTexts s
    → IsMade (cache_key s t) item
    → Answers s t item.value
IsMade-Answers s t item h m =
    let same = cache_key_injective s m.stream t m.time h m.plain m.keyed in
    (m.time, m.amount, sym same.1, rw same.0 m.computed, rw same.0 m.written)

-- What one call leaves behind and answers.
abbrev pub IsSound : MemoryCache Value → Type 0
IsSound c = Entries IsMade c.cache

abbrev pub Reply : StreamState → ℤ → Option Result → Type 0
Reply s t none = claimable_amount s t ≡ none
Reply s t (some r) = Answers s t r.value

store-IsSound :
    (ttl at_set : ℕ) (s : StreamState) (t : ℤ) (c : MemoryCache Value) (o : Option ℤ)
    → IsSound c
    → HasPlainTexts s
    → claimable_amount s t ≡ o
    → let (c', reply) = store ttl at_set (cache_key s t) s t c o in IsSound c' × Reply s t reply
unfolding store
store-IsSound ttl at_set s t c none sound plain e = (sound, e)
store-IsSound ttl at_set s t c (some a) sound plain e = (
  Entries-set IsMade at_set ttl (cache_key s t) (value_of s t a) c
      (record {
        stream = s;
        time = t;
        amount = a;
        plain = plain;
        keyed = refl;
        computed = e;
        written = refl;
      })
      sound,
  (t, a, refl, e, refl),
)

answer-IsSound :
    (ttl : ℕ) (clock : Readings) (s : StreamState) (t : ℤ) (c : MemoryCache Value)
    (o : Option Value)
    → IsSound c
    → HasPlainTexts s
    → ((v : Value) → o ≡ some v → Answers s t v)
    → let (c', reply) = answer ttl clock (cache_key s t) s t c o in IsSound c' × Reply s t reply
unfolding answer
answer-IsSound ttl clock s t c none sound plain hit =
    store-IsSound ttl clock.at_set s t c (claimable_amount s t) sound plain refl
answer-IsSound ttl clock s t c (some v) sound plain hit =
    (Entries-get_metadata IsMade clock.at_metadata (cache_key s t) c sound, hit v refl)

-- If every entry of the cache was written by the service for streams whose amount texts hold no
-- colon, then so it is after a call for such a stream, and what the call answers, from the cache
-- or not, is the service's value for that very state at a time in the same five seconds as the
-- request's. A call fails only if the amount at the request's time cannot be computed.
pub get_claimable_amount-IsSound :
    (ttl : ℕ) (clock : Readings) (s : StreamState) (requested_at : Option ℤ) (c : MemoryCache Value)
    → IsSound c
    → HasPlainTexts s
    → let (c', reply) = get_claimable_amount ttl clock s requested_at c in
      IsSound c' × Reply s (calculated_at_of clock requested_at) reply
unfolding get_claimable_amount
get_claimable_amount-IsSound ttl clock s requested_at c sound plain =
    let t = calculated_at_of clock requested_at in
    let key = cache_key s t in
    let (c', entry) = get clock.at_get key c in
    answer-IsSound ttl clock s t c' entry (Entries-get IsMade clock.at_get key c sound) plain
      (λ v e.
        let (item, made, same, fresh) = get_sound IsMade clock.at_get key v c sound e in
        rw (← same) (IsMade-Answers s t item plain made))

same_bucket : (u t : ℤ) → floor_div u 5 ≡ floor_div t 5 → pos_part u ≤ pos_part t + 4
same_bucket (pos m) (pos n) e = let q : m / 5 ≡ n / 5 = ground arith in omega arith
same_bucket (pos m) (negsuc n) e = cc
same_bucket (negsuc m) (pos n) e = cc
same_bucket (negsuc m) (negsuc n) e = omega arith

end_time_near :
    (b : Bool) (o : Option ℤ) (x y last : ℕ)
    → x ≤ y + 4
    → end_time b o x - last ≤ end_time b o y - last + 4
end_time_near false o x y last h = omega arith
end_time_near true none x y last h = omega arith
end_time_near true (some p) x y last h = omega arith

mul_near : (x y r : ℕ) → x ≤ y + 4 → x * r ≤ y * r + 4 * r
mul_near x y r h = omega (arith, mul_mono x (y + 4) r h)

one_way :
    (s : StreamState) (r d w : ℕ) (t u a b : ℤ)
    → HasAmounts s r d w
    → floor_div t 5 ≡ floor_div u 5
    → claimable_amount s t ≡ some a
    → claimable_amount s u ≡ some b
    → a ≤ℤ b +ℤ pos (4 * r)
one_way s r d w t u a b h same ha hb =
    let last = pos_part s.last_update_time in
    let x = end_time s.is_paused s.paused_at (pos_part t) - last in
    let y = end_time s.is_paused s.paused_at (pos_part u) - last in
    let p = claimable_closed s r d w t h in
    let q = claimable_closed s r d w u h in
    let near = mul_near x y r (
      end_time_near s.is_paused s.paused_at (pos_part t) (pos_part u) last
        (same_bucket t u same)) in
    ground (arith, p, q, near, +ℤ_parts b (pos (4 * r)))

-- For natural amounts, two times in the same five seconds give amounts that differ by at most
-- four seconds of the rate.
pub bucket_error :
    (s : StreamState) (r d w : ℕ) (t u a b : ℤ)
    → HasAmounts s r d w
    → floor_div u 5 ≡ floor_div t 5
    → claimable_amount s u ≡ some a
    → claimable_amount s t ≡ some b
    → (a ≤ℤ b +ℤ pos (4 * r)) × (b ≤ℤ a +ℤ pos (4 * r))
bucket_error s r d w t u a b h same ha hb =
    (one_way s r d w u t a b h same ha hb, one_way s r d w t u b a h (sym same) hb ha)

-- For a stream with natural amounts, no more withdrawn than deposited, and any cache that the
-- service has written for streams whose amount texts hold no colon, a call answers: it returns the
-- text of an amount that differs from the amount at the time of the request by at most four
-- seconds of the rate.
pub get_claimable_amount_near :
    (ttl r d w : ℕ) (clock : Readings) (s : StreamState) (requested_at : Option ℤ)
    (c : MemoryCache Value)
    → IsSound c
    → HasPlainTexts s
    → HasAmounts s r d w
    → (reply : Result) × (a : ℤ) × (b : ℤ) × ((get_claimable_amount ttl clock s requested_at c).1
        ≡ some reply)
      × (reply.value.claimable_amount ≡ to_string a)
      × (claimable_amount s (calculated_at_of clock requested_at) ≡ some b)
      × (a ≤ℤ b +ℤ pos (4 * r))
      × (b ≤ℤ a +ℤ pos (4 * r))
get_claimable_amount_near ttl r d w clock s requested_at c sound plain amounts =
    go (get_claimable_amount ttl clock s requested_at c).1 refl
      (get_claimable_amount-IsSound ttl clock s requested_at c sound plain).1
  where
    t : ℤ
    t = calculated_at_of clock requested_at

    go :
        (o : Option Result)
        → (get_claimable_amount ttl clock s requested_at c).1 ≡ o
        → Reply s t o
        → (reply : Result) × (a : ℤ) × (b : ℤ) × ((get_claimable_amount ttl clock s requested_at
              c).1
            ≡ some reply)
          × (reply.value.claimable_amount ≡ to_string a)
          × (claimable_amount s t ≡ some b)
          × (a ≤ℤ b +ℤ pos (4 * r))
          × (b ≤ℤ a +ℤ pos (4 * r))
    go none e failed = absurd (cc (claimable_closed s r d w t amounts))
    go (some reply) e (u, a, same, made, written) =
        let fresh = claimable_closed s r d w t amounts in
        let near = bucket_error s r d w t u a _ amounts same made fresh in
        (reply, a, _, e, ap (λ v. v.claimable_amount) written, fresh, near.0, near.1)
