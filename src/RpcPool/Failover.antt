-- ===== src/RpcPool/Failover.antt =====
-- Which endpoints backend/src/lib/rpc-pool.ts tries, and when it gives up.
use flowfi.Prelude.{
  ℕ, ◌≡◌, refl, Bool, true, false, ◌&&◌, ◌||◌, Option, none, some, List, [], ◌∷◌, arith,
  if◌then◌else◌, ◌==◌, ltb, map, select, All, Bool-cases, Option-cases, inl, inr, ◌⊎◌,
}
use flowfi.RpcPool.{
  RpcEndpointHealth, RpcPool, refresh, refresh_all, is_ready, is_slower, comes_after, place, sort,
  available_endpoints, Calls, try_all, execute,
}

-- A statement of all that are placed is one of what is placed and of the others.
module _ (P : RpcEndpointHealth → Type 0) where
  All-if :
      (b : Bool) (xs ys : List RpcEndpointHealth)
      → All P (if b then xs else ys)
      → (b ≡ true) × All P xs ⊎ (b ≡ false) × All P ys
  All-if true xs ys h = inl (refl, h)
  All-if false xs ys h = inr (refl, h)

  All-place :
      (e : RpcEndpointHealth) (es : List RpcEndpointHealth) → All P (place e es) → P e × All P es
  unfolding place
  All-place e [] (p, h) = (p, tt)
  All-place e (x ∷ xs) h = elim (All-if (comes_after e x) (x ∷ place e xs) (e ∷ x ∷ xs) h) [
    | inl (later, (p, rest)) ↦ let (q, r) = All-place e xs rest in (q, (p, r))
    | inr (first, (q, r)) ↦ (q, r)
  ]

  All-sort : (es : List RpcEndpointHealth) → All P (sort es) → All P es
  unfolding sort
  All-sort [] h = tt
  All-sort (e ∷ es) h = let (p, rest) = All-place e (sort es) h in (p, All-sort es rest)

  -- And one of all that are placed follows from both.
  place-All :
      (e : RpcEndpointHealth) (es : List RpcEndpointHealth) → P e → All P es → All P (place e es)
  unfolding place
  place-All e [] p h = (p, tt)
  place-All e (x ∷ xs) p (q, h) = elim (Bool-cases (comes_after e x)) [
    | inl later ↦ rw (later, place) (q, place-All e xs p h)
    | inr first ↦ rw (first, place) (p, (q, h))
  ]

not_selected :
    (P : RpcEndpointHealth → Type 0) (cooldown now : ℕ) (es : List RpcEndpointHealth)
    → All P (select is_ready (map (refresh cooldown now) es))
    → All (λ e. (is_ready (refresh cooldown now e) ≡ false) ⊎ P (refresh cooldown now e)) es
not_selected P cooldown now [] h = tt
not_selected P cooldown now (e ∷ es) h =
    let rest = select is_ready (map (refresh cooldown now) es) in
    elim (All-if P (is_ready (refresh cooldown now e)) (refresh cooldown now e ∷ rest) rest h) [
      | inl (ready, (p, k)) ↦ (inr p, not_selected P cooldown now es k)
      | inr (unready, k) ↦ (inl unready, not_selected P cooldown now es k)
    ]

module _ {A : Type 0} (calls : Calls A) where
  try_all_fails :
      (es : List RpcEndpointHealth) (pool : RpcPool)
      → (try_all calls es pool).0 ≡ none
      → All (λ e. calls.result e.url ≡ none) es
  unfolding try_all
  try_all_fails [] pool h = tt
  try_all_fails (e ∷ es) pool h = elim (Option-cases (calls.result e.url)) [
    | inl bad ↦ (bad, try_all_fails es _ (rw (bad, try_all) at h))
    | inr (r, good) ↦ absurd (ground (arith, good))
  ]

  -- An execution fails only if each endpoint of the pool has a circuit that is open and not yet
  -- cooled down, or fails itself.
  pub execute_fails :
      (now : ℕ) (pool : RpcPool)
      → (execute calls now pool).0 ≡ none
      → All
          (λ e. (is_ready (refresh pool.cooldown_ms now e) ≡ false) ⊎ (calls.result e.url ≡ none))
          pool.endpoints
  unfolding execute available_endpoints
  execute_fails now pool h =
      let P : RpcEndpointHealth → Type 0 = λ e. calls.result e.url ≡ none in
      not_selected P pool.cooldown_ms now pool.endpoints (
        All-sort P (select is_ready (refresh_all now pool).endpoints)
          (try_all_fails (available_endpoints now pool) (refresh_all now pool) h))

after : ℕ → Option ℕ → ℕ → Option ℕ → Bool
after f l f' l' = ltb f' f || (f == f' && is_slower l l')

after_trans :
    (f f' f'' : ℕ) (l l' l'' : Option ℕ)
    → after f l f' l' ≡ false
    → after f' l' f'' l'' ≡ false
    → after f l f'' l'' ≡ false
unfolding after
after_trans f f' f'' none none none h k = ground arith
after_trans f f' f'' none none (some n) h k = ground arith
after_trans f f' f'' none (some m) none h k = ground arith
after_trans f f' f'' none (some m) (some n) h k = ground arith
after_trans f f' f'' (some i) none none h k = ground arith
after_trans f f' f'' (some i) none (some n) h k = ground arith
after_trans f f' f'' (some i) (some m) none h k = ground arith
after_trans f f' f'' (some i) (some m) (some n) h k = ground arith

after_asym : (f f' : ℕ) (l l' : Option ℕ) → after f l f' l' ≡ true → after f' l' f l ≡ false
unfolding after
after_asym f f' none none h = ground arith
after_asym f f' none (some n) h = ground arith
after_asym f f' (some m) none h = ground arith
after_asym f f' (some m) (some n) h = ground arith

-- Each comes before all that follow it.
abbrev pub IsSorted : List RpcEndpointHealth → Type 0
IsSorted [] = Unit
IsSorted (e ∷ es) = All (λ x. comes_after e x ≡ false) es × IsSorted es

below :
    (e x : RpcEndpointHealth) (xs : List RpcEndpointHealth)
    → comes_after e x ≡ false
    → All (λ y. comes_after x y ≡ false) xs
    → All (λ y. comes_after e y ≡ false) xs
unfolding after
below e x [] p h = tt
below e x (y ∷ ys) p (q, h) = (
  after_trans e.failures x.failures y.failures e.latency_ms x.latency_ms y.latency_ms p q,
  below e x ys p h,
)

place-IsSorted :
    (e : RpcEndpointHealth) (es : List RpcEndpointHealth) → IsSorted es → IsSorted (place e es)
unfolding place after
place-IsSorted e [] h = (tt, tt)
place-IsSorted e (x ∷ xs) (p, h) = elim (Bool-cases (comes_after e x)) [
  | inl later ↦
      let other = after_asym e.failures x.failures e.latency_ms x.latency_ms later in
      rw (later, place)
        (place-All (λ y. comes_after x y ≡ false) e xs other p, place-IsSorted e xs h)
  | inr first ↦ rw (first, place) ((first, below e x xs first p), (p, h))
]

sort-IsSorted : (es : List RpcEndpointHealth) → IsSorted (sort es)
unfolding sort
sort-IsSorted [] = tt
sort-IsSorted (e ∷ es) = place-IsSorted e (sort es) (sort-IsSorted es)

All-select-ready : (es : List RpcEndpointHealth) → All (λ e. is_ready e ≡ true) (select is_ready es)
All-select-ready [] = tt
All-select-ready (e ∷ es) = elim (Bool-cases (is_ready e)) [
  | inl ready ↦ rw ready (ready, All-select-ready es)
  | inr unready ↦ rw unready (All-select-ready es)
]

sort-All :
    (P : RpcEndpointHealth → Type 0) (es : List RpcEndpointHealth) → All P es → All P (sort es)
unfolding sort
sort-All P [] h = tt
sort-All P (e ∷ es) (p, h) = place-All P e (sort es) p (sort-All P es h)

-- The endpoints that an execution tries, in their order, have no open circuit, and each has fewer
-- failures than those after it, or as many and no greater latency, one that is not known counting
-- as the greatest.
available_endpoints-IsSorted :
    (now : ℕ) (pool : RpcPool)
    → IsSorted (available_endpoints now pool)
      × All (λ e. is_ready e ≡ true) (available_endpoints now pool)
unfolding available_endpoints
available_endpoints-IsSorted now pool =
    let found = select is_ready (refresh_all now pool).endpoints in
    (sort-IsSorted found, sort-All _ found (All-select-ready (refresh_all now pool).endpoints))
