-- ===== src/RpcPool/Tests.antt =====
-- Runs of the pool, and the theorems about it at concrete pools.
use flowfi.Prelude.{ℕ, ◌≡◌, refl, true, false, none, some, [], ◌∷◌, arith, map, All, ◌⊎◌}
use flowfi.Prelude.Text.{codes, text_eq}
use flowfi.RpcPool.{
  opened, RpcEndpointHealth, RpcPool, new_endpoint, record_failure, refresh, is_ready, place, sort,
  available_endpoints, Calls, try_all, execute,
}
use flowfi.RpcPool.Breaker.{IsValid}
use flowfi.RpcPool.Failover.{execute_fails}

-- The circuit of the first endpoint is open, and has been since time 100.
abbrev broken : RpcEndpointHealth
broken = record (new_endpoint (codes "a")) { failures = 5; state = opened; opened_at = some 100 }

abbrev pool : RpcPool
pool = record {
  endpoints = broken ∷ new_endpoint (codes "b") ∷ [];
  failure_threshold = 5;
  cooldown_ms = 60;
  timeout_ms = 10;
}

abbrev answers : Calls ℕ
answers = record {
  result = λ url. elim (text_eq url (codes "a")) [ true ↦ some 1 | false ↦ none ];
  latency = λ url. 3;
  failed_at = λ url. 200;
}

-- Before it has cooled down the open circuit is not tried; afterwards it answers, second in order.
runs :
    ((execute answers 150 pool).0 ≡ none)
    × ((execute answers 160 pool).0 ≡ some 1)
    × (map (λ e. e.failures) (execute answers 160 pool).1.endpoints ≡ 0 ∷ 1 ∷ [])
unfolding execute try_all available_endpoints sort place record_failure text_eq
runs = (refl, refl, refl)

pool-IsValid : IsValid pool
pool-IsValid = ((omega arith, (100, refl)), ((omega arith, refl), tt))

execute_fails_example :
    All (λ e. (is_ready (refresh 60 150 e) ≡ false) ⊎ (answers.result e.url ≡ none)) pool.endpoints
execute_fails_example = execute_fails answers 150 pool runs.0
