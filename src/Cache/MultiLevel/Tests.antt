-- ===== src/Cache/MultiLevel/Tests.antt =====
-- The two levels at concrete inputs: documents and their encodings are numbers, and the server
-- holds one key and counts the reads.
use task_management_api.Shared.{
  ℕ, ◌+◌, ◌≡◌, refl, false, none, some, [], ◌∷◌, Bytes, bytes, bytes_eq, if◌then◌else◌, arith,
}
use task_management_api.Shared.Int.{pos, ◌+ℤ◌, sub_time}
use task_management_api.Cache.Errors.{cache_miss, circuit_breaker_open}
use task_management_api.Cache.SyncMap.{load}
use task_management_api.Cache.Breaker.{CircuitBreaker, closed, opened, allow}
use task_management_api.Cache.Memory
use task_management_api.Cache.Memory.{MemoryCache}
use task_management_api.Cache.Metrics.{CacheMetrics}
use task_management_api.Cache.Values.{assign, plain, to, Json, encoded}
use task_management_api.Cache.Redis.{Client, reply}
use task_management_api.Cache.MultiLevel.{MultiLevelCache, Clock, get, set, delete}
use task_management_api.Cache.MultiLevel.Accounting.{Counted, get-Counted}
use task_management_api.Cache.MultiLevel.Misses.{get_all, misses_shut_out}
use task_management_api.Cache.MultiLevel.Reads.{get-set, refill_shares_variable, delete_may_return}

abbrev json : Json ℕ ℕ
json = record {
  marshal = λ d. encoded d;
  unmarshal = λ j d. (j, none);
  invalid_unmarshal = λ dest. bytes "json: invalid";
}

abbrev held : Bytes
held = bytes "task:7"

abbrev server : Client ℕ ℕ
server = record {
  set = λ r k j ttl. (r, none);
  get = λ r k. (r + 1, reply (if bytes_eq k held then some 9 else none));
  del = λ r ks. (r, none);
  keys = λ r p. (r, reply []);
  exists = λ r k. (r, reply (pos 0));
  exec = λ r cs. (r, none);
  s_members = λ r k. (r, reply []);
  ping = λ r. (r, none);
}

abbrev breaker : CircuitBreaker
breaker = record {
  state = closed;
  failure_count = pos 0;
  success_count = pos 0;
  last_failure_time = pos 0;
  max_failures = pos 2;
  timeout = pos 100;
  half_open_max_calls = pos 3;
}

abbrev metrics : CacheMetrics
metrics = record {
  hits = pos 0;
  misses = pos 0;
  errors = pos 0;
  sets = pos 0;
  deletes = pos 0;
  start_time = pos 0;
}

abbrev empty : MultiLevelCache ℕ ℕ
empty = record {
  l1 = record { store = [] };
  l2 = some 0;
  metrics = metrics;
  circuit_breaker = breaker;
  heap = λ p. 0;
}

abbrev at_time : ℕ → Clock
at_time n = record { entered = pos n; asked = pos n; refilled = pos (n + 1); done = pos (n + 2) }

get-Counted_example : Counted empty (get server json empty held (to 1) (at_time 5))
get-Counted_example = get-Counted server json empty held (to 1) (at_time 5)

misses_shut_out_example :
    let after_misses =
      (get server json
        (get_all server json ((bytes "a", to 1, at_time 5) ∷ []) empty)
        (bytes "b")
        (to 1)
        (at_time 10)).0 in
    let (c', err) = get server json after_misses held (to 1) (at_time 50) in
    (err ≡ some cache_miss) × (c'.l2 ≡ after_misses.l2) × (c'.heap ≡ after_misses.heap)
unfolding ◌+ℤ◌ bytes_eq
misses_shut_out_example =
    misses_shut_out server json (λ k. bytes_eq k held ≡ false) (λ r k lacks. rw lacks)
      ((bytes "a", to 1, at_time 5) ∷ []) (bytes "b") held (to 1) (to 1) (at_time 10) (at_time 50)
      empty 0 (refl, tt) refl refl refl refl refl refl (omega arith) (omega arith) (omega arith)

get-set_example :
    let (stored, set_err) = set server json empty held (plain 4) (pos 60) (at_time 5) in
    let (c', err) = get server json stored held (to 1) (at_time 50) in
    (set_err ≡ none)
    × (err ≡ none)
    × (c'.heap 1 ≡ 4)
    × (c'.l2 ≡ stored.l2)
    × (c'.circuit_breaker ≡ stored.circuit_breaker)
unfolding ◌+ℤ◌
get-set_example =
    get-set server json empty held 4 4 4 1 (pos 60) (at_time 5) (at_time 50) (omega arith) refl refl

refill_shares_variable_example :
    let read = (get server json empty held (to 1) (at_time 5)).0 in
    let written = record read { heap = assign read.heap 1 77 } in
    let (c', err) = get server json written held (to 2) (at_time 50) in
    (err ≡ none) × (c'.heap 2 ≡ 77)
unfolding ◌+ℤ◌ bytes_eq Memory.get load allow
refill_shares_variable_example =
    refill_shares_variable server json empty held 1 2 (at_time 5) (at_time 50) 0 9 77 9 77 77
      (omega arith) refl refl refl refl refl (omega arith) refl refl

abbrev warm : MultiLevelCache ℕ ℕ
warm = record empty {
  l1 = record { store = (held, record { value = plain 3; expiration = pos 100 }) ∷ [] };
  l2 = none;
}

abbrev down : MultiLevelCache ℕ ℕ
down = record empty { circuit_breaker = record breaker { state = opened } }

delete_may_return_example :
    let (deleted, delete_err) = delete server down held (at_time 5) in
    let (c', err) = get server json deleted held (to 1) (at_time 200) in
    (delete_err ≡ some circuit_breaker_open) × (err ≡ none) × (c'.heap 1 ≡ 9)
unfolding allow sub_time bytes_eq
delete_may_return_example =
    delete_may_return server json down held 1 (at_time 5) (at_time 200) 0 9 9 refl refl refl refl
      refl
