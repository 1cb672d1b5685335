-- ===== src/RpcPool/Breaker.antt =====
-- The states of the circuit breakers of backend/src/lib/rpc-pool.ts.
use flowfi.Prelude.{
  ℕ, ◌+◌, ◌≤◌, ◌<◌, ◌≡◌, refl, Bool, true, false, Option, none, some, List, [], ◌∷◌, arith, leb,
  map, All, Bool-cases, Option-cases, inl, inr,
}
use flowfi.Prelude.Text.{Text, text_eq}
use flowfi.RpcPool.{
  CircuitState, closed, opened, half_open, RpcEndpointHealth, RpcPool, record_success,
  record_failure, next_state, refresh, refresh_all, available_endpoints, Calls, change,
  change_endpoint, try_all, execute, probe_endpoint, probe_all,
}

-- A closed circuit has counted fewer failures than the threshold and no time of opening; any other
-- has counted as many and has one.
abbrev pub Fits : ℕ → CircuitState → ℕ → Option ℕ → Type 0
Fits threshold closed failures opened_at = (failures < threshold) × (opened_at ≡ none)
Fits threshold opened failures opened_at = (threshold ≤ failures) × ((t : ℕ) × (opened_at ≡ some t))
Fits threshold half_open failures opened_at =
    (threshold ≤ failures) × ((t : ℕ) × (opened_at ≡ some t))

abbrev pub IsSound : ℕ → RpcEndpointHealth → Type 0
IsSound threshold e = Fits threshold e.state e.failures e.opened_at

abbrev pub IsValid : RpcPool → Type 0
IsValid pool = All (IsSound pool.failure_threshold) pool.endpoints

counted_Fits :
    (threshold failures : ℕ) (s : CircuitState) (opened_at : Option ℕ)
    → Fits threshold s failures opened_at
    → failures + 1 < threshold
    → Fits threshold s (failures + 1) opened_at
counted_Fits threshold failures closed opened_at (p, q) less = (less, q)
counted_Fits threshold failures opened opened_at (p, q) less = absurd (omega arith)
counted_Fits threshold failures half_open opened_at (p, q) less = absurd (omega arith)

record_failure-IsSound :
    (threshold now latency : ℕ) (e : RpcEndpointHealth)
    → IsSound threshold e
    → IsSound threshold (record_failure threshold now latency e)
unfolding record_failure
record_failure-IsSound threshold now latency e h =
    elim (Bool-cases (leb threshold (e.failures + 1))) [
      | inl many ↦ rw (many, record_failure) (ground arith, (now, refl))
      | inr few ↦
          rw (few, record_failure)
            (counted_Fits threshold e.failures e.state e.opened_at h (ground arith))
    ]

next_state-Fits :
    (cooled : Bool) (threshold failures : ℕ) (s : CircuitState) (opened_at : Option ℕ)
    → Fits threshold s failures opened_at
    → Fits threshold (next_state cooled s) failures opened_at
next_state-Fits true threshold failures closed t h = h
next_state-Fits true threshold failures opened t h = h
next_state-Fits true threshold failures half_open t h = h
next_state-Fits false threshold failures closed t h = h
next_state-Fits false threshold failures opened t h = h
next_state-Fits false threshold failures half_open t h = h

refresh-IsSound :
    (threshold cooldown now : ℕ) (e : RpcEndpointHealth)
    → IsSound threshold e
    → IsSound threshold (refresh cooldown now e)
refresh-IsSound threshold cooldown now e h =
    next_state-Fits _ threshold e.failures e.state e.opened_at h

All-map :
    (P : RpcEndpointHealth → Type 0) (f : RpcEndpointHealth → RpcEndpointHealth)
    (es : List RpcEndpointHealth)
    → ((e : RpcEndpointHealth) → P e → P (f e))
    → All P es
    → All P (map f es)
All-map P f [] keep h = tt
All-map P f (e ∷ es) keep (p, h) = (keep e p, All-map P f es keep h)

change_endpoint-IsValid :
    (url : Text) (f : RpcEndpointHealth → RpcEndpointHealth) (pool : RpcPool)
    → ((e : RpcEndpointHealth)
        → IsSound pool.failure_threshold e
        → IsSound pool.failure_threshold (f e))
    → IsValid pool
    → IsValid (change_endpoint url f pool)
change_endpoint-IsValid url f pool keep h =
    All-map (IsSound pool.failure_threshold) (change url f) pool.endpoints
      (λ e p. elim (Bool-cases (text_eq e.url url)) [
        | inl same ↦ rw same (keep e p)
        | inr other ↦ rw other p
      ])
      h

module _ {ℓ} {A : Type ℓ} (calls : Calls A) where
  try_all-IsValid :
      (es : List RpcEndpointHealth) (pool : RpcPool)
      → 1 ≤ pool.failure_threshold
      → IsValid pool
      → IsValid (try_all calls es pool).1
  unfolding try_all
  try_all-IsValid [] pool positive h = h
  try_all-IsValid (e ∷ es) pool positive h =
      let success =
        change_endpoint-IsValid e.url (record_success (calls.latency e.url)) pool
          (λ x p. (omega arith, refl)) h in
      let fail =
        record_failure pool.failure_threshold (calls.failed_at e.url) (calls.latency e.url) in
      let failure =
        change_endpoint-IsValid e.url fail pool
          (λ x p. record_failure-IsSound pool.failure_threshold _ _ x p) h in
      elim (Option-cases (calls.result e.url)) [
        | inr (r, good) ↦ rw (good, try_all) success
        | inl bad ↦ rw (bad, try_all) (try_all-IsValid es _ positive failure)
      ]

  probe_endpoint-IsSound :
      (pool : RpcPool) (e : RpcEndpointHealth)
      → 1 ≤ pool.failure_threshold
      → IsSound pool.failure_threshold e
      → IsSound pool.failure_threshold (probe_endpoint calls pool e)
  unfolding probe_endpoint
  probe_endpoint-IsSound pool e positive h = elim (Option-cases (calls.result e.url)) [
    | inr (r, good) ↦ rw (good, probe_endpoint) (omega arith, refl)
    | inl bad ↦
        rw (bad, probe_endpoint)
          (record_failure-IsSound pool.failure_threshold (calls.failed_at e.url) pool.timeout_ms e
            h)
  ]

  -- With a positive threshold, an execution and a round of health probes keep every circuit right:
  -- closed with fewer failures than the threshold and no time of opening, or open or half open with
  -- as many failures and such a time. This holds whatever each endpoint answers.
  execute_probe-IsValid :
      (now : ℕ) (pool : RpcPool)
      → 1 ≤ pool.failure_threshold
      → IsValid pool
      → IsValid (execute calls now pool).1 × IsValid (probe_all calls pool)
  unfolding execute probe_all
  execute_probe-IsValid now pool positive h =
      let refreshed =
        All-map (IsSound pool.failure_threshold) (refresh pool.cooldown_ms now) pool.endpoints
          (λ e p. refresh-IsSound pool.failure_threshold pool.cooldown_ms now e p) h in
      (
        try_all-IsValid (available_endpoints now pool) (refresh_all now pool) positive refreshed,
        All-map (IsSound pool.failure_threshold) (probe_endpoint calls pool) pool.endpoints
            (λ e p. probe_endpoint-IsSound pool e positive p) h,
      )
