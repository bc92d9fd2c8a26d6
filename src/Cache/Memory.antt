-- ===== src/Cache/Memory.antt =====
-- backend/internal/cache/memory.go, over any type of values. Each access of the `sync.Map` is one
-- atomic step; the clock is an argument of each method that reads it.
pub mod View
pub mod Refinement
pub mod Race
mod Tests
use task_management_api.Shared.{
  ℕ, Bool, true, false, Option, none, some, List, [], Bytes, if◌then◌else◌, length,
}
use task_management_api.Shared.Int.{ℤ, Time, after, ◌+ℤ◌}
use task_management_api.Cache.SyncMap
use task_management_api.Cache.Pattern.{match_pattern}

pub record CacheItem {ℓ} (V : Type ℓ) : Type ℓ where
  pub value : V
  pub expiration : Time

pub record MemoryCache {ℓ} (V : Type ℓ) : Type ℓ where
  pub store : List (Bytes × CacheItem V)

-- What `Get` finds in the map, before it deletes anything.
pub data Look {ℓ} (V : Type ℓ) : Type ℓ where
  missing stale : Look V
  hit : V → Look V

module _ {ℓ} {V : Type ℓ} where
  unfoldable pub new_memory_cache : MemoryCache V
  new_memory_cache = record { store = [] }

  unfoldable pub set : MemoryCache V → Bytes → V → ℤ → Time → MemoryCache V
  unfolding SyncMap.store ◌+ℤ◌
  set c key value ttl now = record {
    store = SyncMap.store key (record { value = value; expiration = now +ℤ ttl }) c.store;
  }

  unfoldable pub look : MemoryCache V → Bytes → Time → Look V
  unfolding SyncMap.load
  look c key now = elim (SyncMap.load key c.store) [
    | none ↦ missing
    | some item ↦ if after now item.expiration then stale else hit item.value
  ]

  unfoldable pub delete : MemoryCache V → Bytes → MemoryCache V
  unfolding SyncMap.delete
  delete c key = record { store = SyncMap.delete key c.store }

  unfoldable pub get : MemoryCache V → Bytes → Time → MemoryCache V × Option V
  unfolding look delete
  get c key now = elim (look c key now) [
    | missing ↦ (c, none)
    | stale ↦ (delete c key, none)
    | hit value ↦ (c, some value)
  ]

  unfoldable pub exists : MemoryCache V → Bytes → Time → MemoryCache V × Bool
  unfolding get
  exists c key now =
      let (c', found) = get c key now in (c', elim found [ none ↦ false | some _ ↦ true ])

  unfoldable pub delete_pattern : MemoryCache V → Bytes → MemoryCache V
  unfolding SyncMap.delete_where match_pattern
  delete_pattern c pattern = record {
    store = SyncMap.delete_where (λ key item. match_pattern key pattern) c.store;
  }

  unfoldable pub clear : MemoryCache V → MemoryCache V
  clear c = record { store = [] }

  -- The count of `Stats`.
  unfoldable pub stats : MemoryCache V → ℕ
  stats c = length c.store

  -- One tick of `cleanup`.
  unfoldable pub cleanup : MemoryCache V → Time → MemoryCache V
  unfolding SyncMap.delete_where
  cleanup c now = record {
    store = SyncMap.delete_where (λ key item. after now item.expiration) c.store;
  }
