-- ===== src/Cache/MultiLevel/Reads.antt =====
-- What `Get` reads after `Set`, after `Delete` and after a refill from Redis.
use task_management_api.Shared.{
  ℕ, true, false, ◌≡◌, ◌≢◌, ◌∙◌, none, some, Bytes, bytes_eq_refl, arith, ==_iff,
}
use task_management_api.Shared.Int.{ℤ, ◌+ℤ◌, ◌≤ℤ◌}
use task_management_api.Cache.Errors.{cache_miss, circuit_breaker_open}
use task_management_api.Cache.Values.{
  Value, plain, pointer, assign, Dest, to, Json, encoded, content, copy_value, unmarshal_into,
}
use task_management_api.Cache.Redis
use task_management_api.Cache.Redis.{Client, reply}
use task_management_api.Cache.Memory
use task_management_api.Cache.Memory.View.{
  get-view, view-set, view-delete, view-delete_pattern, IsValid,
}
use task_management_api.Cache.Pattern.{match_pattern}
use task_management_api.Cache.Breaker.{allow, execute}
use task_management_api.Cache.MultiLevel.{
  MultiLevelCache, Clock, get, set, delete, delete_pattern, refill_ttl,
}

module _ {R J D : Type 0} (client : Client R J) (json : Json J D) where
  -- A hit in the memory cache: the value goes through JSON into the variable.
  pub get_hit :
      (c : MultiLevelCache R D) (key : Bytes) (p : ℕ) (clock : Clock) (v : Value D) (j : J) (d : D)
      → (Memory.get c.l1 key clock.entered).1 ≡ some v
      → json.marshal (content json v c.heap) ≡ encoded j
      → json.unmarshal j (c.heap p) ≡ (d, none)
      → let (c', err) = get client json c key (to p) clock in
        (err ≡ none) × (c'.heap p ≡ d) × (c'.l2 ≡ c.l2) × (c'.circuit_breaker ≡ c.circuit_breaker)
  unfolding get copy_value unmarshal_into
  get_hit c key p clock v j d hit m u = ground (arith, ==_iff p p)

  set_stores :
      (c : MultiLevelCache R D) (key : Bytes) (v : Value D) (ttl : ℤ) (clock : Clock)
      → let (c', err) = set client json c key v ttl clock in
        (err ≡ none) × (c'.l1 ≡ Memory.set c.l1 key v ttl clock.entered) × (c'.heap ≡ c.heap)
  unfolding set
  set_stores c key v ttl clock = ground arith

  -- `Set` never fails, and within its time to live a `Get` reads the value back, decoded into the
  -- caller's variable, whatever Redis and the breaker do; that `Get` calls neither.
  pub get-set :
      (c : MultiLevelCache R D) (key : Bytes) (d d' : D) (j : J) (p : ℕ) (ttl : ℤ)
      (clock clock' : Clock)
      → clock'.entered ≤ℤ clock.entered +ℤ ttl
      → json.marshal d ≡ encoded j
      → json.unmarshal j (c.heap p) ≡ (d', none)
      → let (stored, set_err) = set client json c key (plain d) ttl clock in
        let (c', err) = get client json stored key (to p) clock' in
        (set_err ≡ none)
        × (err ≡ none)
        × (c'.heap p ≡ d')
        × (c'.l2 ≡ stored.l2)
        × (c'.circuit_breaker ≡ stored.circuit_breaker)
  get-set c key d d' j p ttl clock clock' h m u =
      let stored = (set client json c key (plain d) ttl clock).0 in
      let (ok, l1, heap) = set_stores c key (plain d) ttl clock in
      let hit : (Memory.get stored.l1 key clock'.entered).1 ≡ some (plain d) = rw l1 (
        get-view _ key clock'.entered
        ∙ ground (
          arith,
          view-set c.l1 key key (plain d) ttl clock.entered clock'.entered,
          bytes_eq_refl key,
        )) in
      let (a, b, e, f) = get_hit stored key p clock' (plain d) j d' hit m (rw heap u) in
      (ok, a, b, e, f)

  -- A read from Redis keeps the pointer to the caller's variable as the cached value.
  refill_stores :
      (c : MultiLevelCache R D) (key : Bytes) (p : ℕ) (clock : Clock) (r : R) (j : J) (d : D)
      → (Memory.get c.l1 key clock.entered).1 ≡ none
      → c.l2 ≡ some r
      → allow c.circuit_breaker clock.asked ≡ true
      → (client.get r key).1 ≡ reply (some j)
      → json.unmarshal j (c.heap p) ≡ (d, none)
      → let (c', err) = get client json c key (to p) clock in
        (err ≡ none)
        × (c'.heap ≡ assign c.heap p d)
        × (c'.l1
            ≡ Memory.set
                (Memory.get c.l1 key clock.entered).0
                key
                (pointer p)
                refill_ttl
                clock.refilled)
  unfolding get execute Redis.get unmarshal_into
  refill_stores c key p clock r j d miss e a v u = ground arith

  -- A value that `Get` brought from Redis changes with the caller's variable. After such a read
  -- into the variable `p`, let the caller assign `d'` to it: for five minutes a `Get` of the key
  -- into another variable `q` reads `d'`, not what was stored under the key.
  pub refill_shares_variable :
      (c : MultiLevelCache R D) (key : Bytes) (p q : ℕ) (clock clock' : Clock) (r : R) (j j' : J)
      (d d' d'' : D)
      → q ≢ p
      → (Memory.get c.l1 key clock.entered).1 ≡ none
      → c.l2 ≡ some r
      → allow c.circuit_breaker clock.asked ≡ true
      → (client.get r key).1 ≡ reply (some j)
      → json.unmarshal j (c.heap p) ≡ (d, none)
      → clock'.entered ≤ℤ clock.refilled +ℤ refill_ttl
      → json.marshal d' ≡ encoded j'
      → json.unmarshal j' (c.heap q) ≡ (d'', none)
      → let read = (get client json c key (to p) clock).0 in
        let written = record read { heap = assign read.heap p d' } in
        let (c', err) = get client json written key (to q) clock' in
        (err ≡ none) × (c'.heap q ≡ d'')
  refill_shares_variable c key p q clock clock' r j j' d d' d'' ne miss e a v u h m u' =
      let read = (get client json c key (to p) clock).0 in
      let (ok, heap, l1) = refill_stores c key p clock r j d miss e a v u in
      let written : MultiLevelCache R D = record read { heap = assign read.heap p d' } in
      let hit : (Memory.get read.l1 key clock'.entered).1 ≡ some (pointer p) = rw l1 (
        get-view _ key clock'.entered
        ∙ ground (
          arith,
          view-set (Memory.get c.l1 key clock.entered).0 key key (pointer p) refill_ttl
              clock.refilled clock'.entered,
          bytes_eq_refl key,
        )) in
      let own : json.marshal (assign read.heap p d' p) ≡ encoded j' = ground (arith, ==_iff p p) in
      let other : assign read.heap p d' q ≡ c.heap q = rw heap (ground (arith, ==_iff p q)) in
      let (x, y, _, _) = get_hit written key q clock' (pointer p) j' d'' hit own (rw other u') in
      (x, y)

  -- After `Delete` of a key, or `DeletePattern` of a pattern that matches it, a cache without Redis
  -- misses: `Get` returns `ErrCacheMiss` and assigns to no variable.
  pub get-delete :
      (c : MultiLevelCache R D) (key pattern : Bytes) (dest : Dest) (clock clock' : Clock)
      → IsValid c.l1
      → c.l2 ≡ none
      → match_pattern key pattern ≡ true
      → let (c_one, err_one) = get client json (delete client c key clock).0 key dest clock' in
        let (c_two, err_two) =
          get client json (delete_pattern client c pattern).0 key dest clock' in
        (err_one ≡ some cache_miss)
        × (c_one.heap ≡ c.heap)
        × (err_two ≡ some cache_miss)
        × (c_two.heap ≡ c.heap)
  unfolding get delete delete_pattern
  get-delete c key pattern dest clock clock' valid e m = ground (
    arith,
    get-view (Memory.delete c.l1 key) key clock'.entered,
    view-delete c.l1 key key clock'.entered,
    bytes_eq_refl key,
    get-view (Memory.delete_pattern c.l1 pattern) key clock'.entered,
    view-delete_pattern c.l1 pattern key clock'.entered valid,
  )

  delete_refused :
      (c : MultiLevelCache R D) (key : Bytes) (clock : Clock) (r : R)
      → c.l2 ≡ some r
      → allow c.circuit_breaker clock.asked ≡ false
      → let (c', err) = delete client c key clock in
        (err ≡ some circuit_breaker_open)
        × (c'.l1 ≡ Memory.delete c.l1 key)
        × (c'.l2 ≡ some r)
        × (c'.heap ≡ c.heap)
        × (c'.circuit_breaker ≡ c.circuit_breaker)
  unfolding delete execute
  delete_refused c key clock r e shut = ground arith

  -- While the breaker refuses calls `Delete` fails with `ErrCircuitBreakerOpen` and leaves the copy in Redis: once
  -- a later call is let through, `Get` brings the deleted value back.
  pub delete_may_return :
      (c : MultiLevelCache R D) (key : Bytes) (p : ℕ) (clock clock' : Clock) (r : R) (j : J) (d : D)
      → c.l2 ≡ some r
      → allow c.circuit_breaker clock.asked ≡ false
      → allow c.circuit_breaker clock'.asked ≡ true
      → (client.get r key).1 ≡ reply (some j)
      → json.unmarshal j (c.heap p) ≡ (d, none)
      → let (deleted, delete_err) = delete client c key clock in
        let (c', err) = get client json deleted key (to p) clock' in
        (delete_err ≡ some circuit_breaker_open) × (err ≡ none) × (c'.heap p ≡ d)
  delete_may_return c key p clock clock' r j d e shut opens v u =
      let deleted = (delete client c key clock).0 in
      let (failed, l1, l2, heap, cb) = delete_refused c key clock r e shut in
      let miss : (Memory.get deleted.l1 key clock'.entered).1 ≡ none = rw l1 (
        get-view _ key clock'.entered
        ∙ ground (arith, view-delete c.l1 key key clock'.entered, bytes_eq_refl key)) in
      let (ok, heap', _) =
        refill_stores deleted key p clock' r j d miss l2 (rw cb opens) v (rw heap u) in
      (failed, ok, rw heap' (ground (arith, ==_iff p p)))
