-- ===== src/Cache/Memory/Race.antt =====
-- `Get` with other goroutines between its two accesses of the map.
use task_management_api.Shared.{◌≡◌, Option, none, some, Bytes, arith, bytes_eq_refl}
use task_management_api.Shared.Int.{ℤ, Time, ◌+ℤ◌, ◌≤ℤ◌}
use task_management_api.Cache.Memory.{MemoryCache, missing, stale, hit, look, set, get, delete}
use task_management_api.Cache.Memory.View.{view, view-set, view-delete}

module _ {ℓ} {V : Type ℓ} where
  -- What the others do to the cache between the load and the delete is `others`.
  pub get_around :
      (MemoryCache V → MemoryCache V) → MemoryCache V → Bytes → Time → MemoryCache V × Option V
  get_around others c key now = elim (look c key now) [
    | missing ↦ (others c, none)
    | stale ↦ (delete (others c) key, none)
    | hit value ↦ (others c, some value)
  ]

  get_around_lem :
      (c : MemoryCache V) (key : Bytes) (now : Time)
      → get_around (λ c'. c') c key now ≡ get c key now
  unfolding get_around get
  get_around_lem c key now = ground arith

  -- A fresh value that another goroutine sets while `Get` deals with an expired item of the same
  -- key is lost: right after the set it can be read, after `Get` it cannot, for the whole of its
  -- time to live.
  pub get_around_loses_set :
      (c : MemoryCache V) (key : Bytes) (value : V) (ttl : ℤ) (now later t : Time)
      → look c key now ≡ stale
      → t ≤ℤ later +ℤ ttl
      → let others = λ (c' : MemoryCache V). set c' key value ttl later in
        (view (others c) t key ≡ some value) × (view (get_around others c key now).0 t key ≡ none)
  unfolding get_around
  get_around_loses_set c key value ttl now later t e h = (
    ground (arith, view-set c key key value ttl later t, bytes_eq_refl key),
    ground (arith, view-delete (set c key value ttl later) key key t, bytes_eq_refl key),
  )
