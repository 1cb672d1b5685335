-- ===== src/RpcPool.antt =====
-- The pool of RPC endpoints with circuit breakers of backend/src/lib/rpc-pool.ts. An operation on an
-- endpoint, with its time limit, is given by what it comes to.
mod Breaker
mod Failover
mod Tests
use flowfi.Prelude.{
  ℕ, ◌+◌, Bool, true, false, ◌&&◌, ◌||◌, not, Option, none, some, List, [], ◌∷◌, if◌then◌else◌,
  ◌==◌, leb, ltb, select, map,
}
use flowfi.Prelude.Text.{Text, text_eq}

pub data CircuitState : Type 0 where
  closed opened half_open : CircuitState

pub record RpcEndpointHealth : Type 0 where
  pub url : Text
  pub failures : ℕ
  pub latency_ms : Option ℕ
  pub state : CircuitState
  pub opened_at : Option ℕ

-- The urls of the endpoints are distinct.
pub record RpcPool : Type 0 where
  pub endpoints : List RpcEndpointHealth
  pub failure_threshold : ℕ
  pub cooldown_ms : ℕ
  pub timeout_ms : ℕ

abbrev pub new_endpoint : Text → RpcEndpointHealth
new_endpoint url = record {
  url = url;
  failures = 0;
  latency_ms = none;
  state = closed;
  opened_at = none;
}

abbrev pub record_success : ℕ → RpcEndpointHealth → RpcEndpointHealth
record_success latency e = record e {
  failures = 0;
  latency_ms = some latency;
  state = closed;
  opened_at = none;
}

unfoldable pub record_failure : ℕ → ℕ → ℕ → RpcEndpointHealth → RpcEndpointHealth
record_failure threshold now latency e =
    let counted = record e { failures = e.failures + 1; latency_ms = some latency } in
    if leb threshold (e.failures + 1)
    then record counted { state = opened; opened_at = some now }
    else counted

-- `openedAt !== null && now - openedAt >= cooldownMs`
abbrev pub is_cooled : ℕ → ℕ → Option ℕ → Bool
is_cooled cooldown now none = false
is_cooled cooldown now (some since) = leb (since + cooldown) now

abbrev pub next_state : Bool → CircuitState → CircuitState
next_state cooled closed = closed
next_state cooled half_open = half_open
next_state true opened = half_open
next_state false opened = opened

-- The change that the filter makes to an endpoint.
abbrev pub refresh : ℕ → ℕ → RpcEndpointHealth → RpcEndpointHealth
refresh cooldown now e = record e {
  state = next_state (is_cooled cooldown now e.opened_at) e.state;
}

abbrev pub is_ready_state : CircuitState → Bool
is_ready_state opened = false
is_ready_state closed = true
is_ready_state half_open = true

abbrev pub is_ready : RpcEndpointHealth → Bool
is_ready e = is_ready_state e.state

-- `??` with infinity: a latency that is not known is above all others.
abbrev pub is_slower : Option ℕ → Option ℕ → Bool
is_slower none none = false
is_slower none (some b) = true
is_slower (some a) none = false
is_slower (some a) (some b) = ltb b a

-- The comparison is positive.
abbrev pub comes_after : RpcEndpointHealth → RpcEndpointHealth → Bool
comes_after a b =
    ltb b.failures a.failures || (a.failures == b.failures && is_slower a.latency_ms b.latency_ms)

-- The sort is stable.
unfoldable pub place : RpcEndpointHealth → List RpcEndpointHealth → List RpcEndpointHealth
place e [] = e ∷ []
place e (x ∷ xs) = if comes_after e x then x ∷ place e xs else e ∷ x ∷ xs

unfoldable pub sort : List RpcEndpointHealth → List RpcEndpointHealth
unfolding place
sort [] = []
sort (e ∷ es) = place e (sort es)

abbrev pub refresh_all : ℕ → RpcPool → RpcPool
refresh_all now pool = record pool { endpoints = map (refresh pool.cooldown_ms now) pool.endpoints }

unfoldable pub available_endpoints : ℕ → RpcPool → List RpcEndpointHealth
unfolding sort
available_endpoints now pool = sort (select is_ready (refresh_all now pool).endpoints)

-- What an operation comes to on the endpoint of a url: its result or a failure, the time that it
-- took, and the time when it had failed.
pub record Calls {ℓ} (A : Type ℓ) : Type ℓ where
  pub result : Text → Option A
  pub latency : Text → ℕ
  pub failed_at : Text → ℕ

-- The endpoints are shared objects: a change of one is seen in the pool.
abbrev pub change :
    Text → (RpcEndpointHealth → RpcEndpointHealth) → RpcEndpointHealth → RpcEndpointHealth
change url f e = if text_eq e.url url then f e else e

abbrev pub change_endpoint : Text → (RpcEndpointHealth → RpcEndpointHealth) → RpcPool → RpcPool
change_endpoint url f pool = record pool { endpoints = map (change url f) pool.endpoints }

module _ {ℓ} {A : Type ℓ} (calls : Calls A) where
  -- The loop of `execute`; `none` is the throw after it.
  unfoldable pub try_all : List RpcEndpointHealth → RpcPool → Option A × RpcPool
  unfolding record_failure text_eq
  try_all [] pool = (none, pool)
  try_all (e ∷ es) pool = elim (calls.result e.url) [
    | some result ↦ (some result, change_endpoint e.url (record_success (calls.latency e.url)) pool)
    | none ↦ try_all es (
        change_endpoint e.url
          (record_failure pool.failure_threshold (calls.failed_at e.url) (calls.latency e.url))
          pool)
  ]

  unfoldable pub execute : ℕ → RpcPool → Option A × RpcPool
  unfolding try_all available_endpoints
  execute now pool = try_all (available_endpoints now pool) (refresh_all now pool)

  -- What a health probe does to an endpoint.
  unfoldable pub probe_endpoint : RpcPool → RpcEndpointHealth → RpcEndpointHealth
  unfolding record_failure
  probe_endpoint pool e = elim (calls.result e.url) [
    | some result ↦ record_success (calls.latency e.url) e
    | none ↦ record_failure pool.failure_threshold (calls.failed_at e.url) pool.timeout_ms e
  ]

  unfoldable pub probe_all : RpcPool → RpcPool
  unfolding probe_endpoint
  probe_all pool = record pool { endpoints = map (probe_endpoint pool) pool.endpoints }
