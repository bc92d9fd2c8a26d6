-- ===== src/Cache/Memory/View.antt =====
-- What a reader can see of a memory cache at a time, and how each operation changes it.
use task_management_api.Shared.{
  ◌≡◌, Option, none, some, Bytes, bytes_eq, bytes_eq_iff, if◌then◌else◌, arith,
}
use task_management_api.Shared.Int.{ℤ, Time, after, ◌+ℤ◌, ◌≤ℤ◌}
use task_management_api.Cache.SyncMap.{
  load, Distinct, load-store, load-delete, load-delete_where, store-Distinct, delete-Distinct,
  delete_where-Distinct,
}
use task_management_api.Cache.Pattern.{match_pattern}
use task_management_api.Cache.Memory.{
  CacheItem, MemoryCache, set, look, delete, get, delete_pattern, cleanup,
}

module _ {ℓ} {V : Type ℓ} where
  -- A key stands in the map at most once.
  abbrev pub IsValid : MemoryCache V → Type 0
  IsValid c = Distinct c.store

  -- The value of an item that has not expired.
  abbrev pub live : Option (CacheItem V) → Time → Option V
  live none t = none
  live (some item) t = if after t item.expiration then none else some item.value

  abbrev pub view : MemoryCache V → Time → Bytes → Option V
  view c t key = live (load key c.store) t

  pub view-set :
      (c : MemoryCache V) (key j : Bytes) (value : V) (ttl : ℤ) (now t : Time)
      → view (set c key value ttl now) t j ≡ (
          if bytes_eq key j
          then (if after t (now +ℤ ttl) then none else some value)
          else view c t j)
  unfolding set
  view-set c key j value ttl now t =
      ground (arith, load-store key j (record { value = value; expiration = now +ℤ ttl }) c.store)

  pub view-delete :
      (c : MemoryCache V) (key j : Bytes) (t : Time)
      → view (delete c key) t j ≡ (if bytes_eq key j then none else view c t j)
  unfolding delete
  view-delete c key j t = ground (arith, load-delete key j c.store)

  -- `Get` returns what is visible.
  pub get-view : (c : MemoryCache V) (key : Bytes) (now : Time) → (get c key now).1 ≡ view c now key
  unfolding get
  get-view c key now = ground arith

  -- Later readers see no difference: what `Get` deletes had expired.
  pub view-get :
      (c : MemoryCache V) (key j : Bytes) (now t : Time)
      → now ≤ℤ t
      → view (get c key now).0 t j ≡ view c t j
  unfolding get look delete
  view-get c key j now t h = ground (arith, load-delete key j c.store, bytes_eq_iff key j)

  pub view-delete_pattern :
      (c : MemoryCache V) (pattern j : Bytes) (t : Time)
      → IsValid c
      → view (delete_pattern c pattern) t j ≡ (if match_pattern j pattern then none else view c t j)
  unfolding delete_pattern
  view-delete_pattern c pattern j t v =
      ground (arith, load-delete_where (λ key item. match_pattern key pattern) j c.store v)

  pub view-cleanup :
      (c : MemoryCache V) (j : Bytes) (now t : Time)
      → IsValid c
      → now ≤ℤ t
      → view (cleanup c now) t j ≡ view c t j
  unfolding cleanup
  view-cleanup c j now t v h =
      ground (arith, load-delete_where (λ key item. after now item.expiration) j c.store v)

  pub get-IsValid :
      (c : MemoryCache V) (key : Bytes) (now : Time) → IsValid c → IsValid (get c key now).0
  unfolding get look delete
  get-IsValid c key now v = ground (arith, delete-Distinct key c.store v)

  pub set-IsValid :
      (c : MemoryCache V) (key : Bytes) (value : V) (ttl : ℤ) (now : Time)
      → IsValid c
      → IsValid (set c key value ttl now)
  unfolding set
  set-IsValid c key value ttl now v = store-Distinct key _ c.store v

  pub delete-IsValid : (c : MemoryCache V) (key : Bytes) → IsValid c → IsValid (delete c key)
  unfolding delete
  delete-IsValid c key v = delete-Distinct key c.store v

  pub delete_pattern-IsValid :
      (c : MemoryCache V) (pattern : Bytes) → IsValid c → IsValid (delete_pattern c pattern)
  unfolding delete_pattern
  delete_pattern-IsValid c pattern v = delete_where-Distinct _ c.store v

  pub cleanup-IsValid : (c : MemoryCache V) (now : Time) → IsValid c → IsValid (cleanup c now)
  unfolding cleanup
  cleanup-IsValid c now v = delete_where-Distinct _ c.store v
