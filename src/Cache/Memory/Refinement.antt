-- ===== src/Cache/Memory/Refinement.antt =====
-- The memory cache against an ideal one: a function from keys to items, in which nothing is ever
-- swept and a read changes nothing.
use task_management_api.Shared.{
  Bool, true, false, ◌≡◌, refl, ap₂, Option, none, some, List, [], ◌∷◌, Bytes, bytes_eq,
  if◌then◌else◌, arith,
}
use task_management_api.Shared.Int.{ℤ, Time, ◌+ℤ◌, ◌≤ℤ◌}
use task_management_api.Cache.SyncMap.{load}
use task_management_api.Cache.Pattern.{match_pattern}
use task_management_api.Cache.Memory.{
  CacheItem, MemoryCache, set, get, exists, delete, delete_pattern, clear, cleanup,
  new_memory_cache,
}
use task_management_api.Cache.Memory.View.{
  IsValid, live, view, view-set, view-delete, get-view, view-get, view-delete_pattern, view-cleanup,
  get-IsValid, set-IsValid, delete-IsValid, delete_pattern-IsValid, cleanup-IsValid,
}

module _ {ℓ} where
  pub data Call (V : Type ℓ) : Type ℓ where
    sets : Bytes → V → ℤ → Call V
    gets deletes deletes_pattern : Bytes → Call V
    asks : Bytes → Call V
    clears sweeps : Call V

  pub data Reply (V : Type ℓ) : Type ℓ where
    done : Reply V
    value : Option V → Reply V
    found : Bool → Reply V

  abbrev pub Ideal : Type ℓ → Type ℓ
  Ideal V = Bytes → Option (CacheItem V)

module _ {ℓ} {V : Type ℓ} where
  -- A call of a method at a time.
  pub call : MemoryCache V → Time → Call V → MemoryCache V × Reply V
  call c now (sets key v ttl) = (set c key v ttl now, done)
  call c now (gets key) = let (c', r) = get c key now in (c', value r)
  call c now (asks key) = let (c', r) = exists c key now in (c', found r)
  call c now (deletes key) = (delete c key, done)
  call c now (deletes_pattern pattern) = (delete_pattern c pattern, done)
  call c now clears = (clear c, done)
  call c now sweeps = (cleanup c now, done)

  abbrev pub is_some : Option V → Bool
  is_some none = false
  is_some (some _) = true

  pub ideal_call : Ideal V → Time → Call V → Ideal V × Reply V
  ideal_call s now (sets key v ttl) = (
    λ j. if bytes_eq key j then some (record { value = v; expiration = now +ℤ ttl }) else s j,
    done,
  )
  ideal_call s now (gets key) = (s, value (live (s key) now))
  ideal_call s now (asks key) = (s, found (is_some (live (s key) now)))
  ideal_call s now (deletes key) = (λ j. if bytes_eq key j then none else s j, done)
  ideal_call s now (deletes_pattern pattern) =
      (λ j. if match_pattern j pattern then none else s j, done)
  ideal_call s now clears = (λ j. none, done)
  ideal_call s now sweeps = (s, done)

  -- The replies to a run of calls, each with its time.
  pub replies : MemoryCache V → List (Time × Call V) → List (Reply V)
  replies c [] = []
  replies c ((now, m) ∷ ms) = (call c now m).1 ∷ replies (call c now m).0 ms

  pub ideal_replies : Ideal V → List (Time × Call V) → List (Reply V)
  ideal_replies s [] = []
  ideal_replies s ((now, m) ∷ ms) = (ideal_call s now m).1 ∷ ideal_replies (ideal_call s now m).0 ms

  -- The clock does not run backwards.
  abbrev pub Ascending : Time → List (Time × Call V) → Type 0
  Ascending t [] = Unit {0}
  Ascending t ((now, _) ∷ ms) = (t ≤ℤ now) × Ascending now ms

  -- From the time `t` on both show the same.
  record Agree (t : Time) (c : MemoryCache V) (s : Ideal V) : Type ℓ where
    valid : IsValid c
    same : (u : Time) (key : Bytes) → t ≤ℤ u → view c u key ≡ live (s key) u

  call-Agree :
      (t now : Time) (c : MemoryCache V) (s : Ideal V) (m : Call V)
      → Agree t c s
      → t ≤ℤ now
      → Agree now (call c now m).0 (ideal_call s now m).0
        × ((call c now m).1 ≡ (ideal_call s now m).1)
  unfolding call ideal_call
  call-Agree t now c s (sets key v ttl) a h = (
    record {
      valid = set-IsValid c key v ttl now a.valid;
      same = λ u j k. ground (arith, view-set c key j v ttl now u, a.same u j (omega arith));
    },
    refl,
  )
  call-Agree t now c s (gets key) a h = (
    record {
      valid = get-IsValid c key now a.valid;
      same = λ u j k. ground (arith, view-get c key j now u k, a.same u j (omega arith));
    },
    ground (arith, get-view c key now, a.same now key h),
  )
  call-Agree t now c s (asks key) a h = (
    record {
      valid = unfold exists in get-IsValid c key now a.valid;
      same = λ u j k.
          unfold exists in ground (arith, view-get c key j now u k, a.same u j (omega arith));
    },
    unfold exists in ground (arith, get-view c key now, a.same now key h),
  )
  call-Agree t now c s (deletes key) a h = (
    record {
      valid = delete-IsValid c key a.valid;
      same = λ u j k. ground (arith, view-delete c key j u, a.same u j (omega arith));
    },
    refl,
  )
  call-Agree t now c s (deletes_pattern pattern) a h = (
    record {
      valid = delete_pattern-IsValid c pattern a.valid;
      same = λ u j k.
          ground (arith, view-delete_pattern c pattern j u a.valid, a.same u j (omega arith));
    },
    refl,
  )
  call-Agree t now c s clears a h =
      (record { valid = unfold clear in tt; same = λ u j k. unfold clear load in refl }, refl)
  call-Agree t now c s sweeps a h = (
    record {
      valid = cleanup-IsValid c now a.valid;
      same = λ u j k. ground (arith, view-cleanup c j now u a.valid k, a.same u j (omega arith));
    },
    refl,
  )

  replies-Agree :
      (t : Time) (c : MemoryCache V) (s : Ideal V) (ms : List (Time × Call V))
      → Agree t c s
      → Ascending t ms
      → replies c ms ≡ ideal_replies s ms
  unfolding replies ideal_replies
  replies-Agree t c s [] a h = refl
  replies-Agree t c s ((now, m) ∷ ms) a h =
      let (a', e) = call-Agree t now c s m a h.0 in ap₂ ◌∷◌ e (replies-Agree now _ _ ms a' h.1)

  -- In any run of calls of a new cache, sweeps among them, with a clock that does not run
  -- backwards, `Set`, `Get`, `Exists`, `Delete`, `DeletePattern` and `Clear` reply as those of the
  -- ideal cache do: none of them shows what `Get` deletes and what `cleanup` sweeps away.
  pub replies-ideal_replies :
      (t : Time) (ms : List (Time × Call V))
      → Ascending t ms
      → replies new_memory_cache ms ≡ ideal_replies (λ _. none) ms
  replies-ideal_replies t ms h =
      replies-Agree t new_memory_cache (λ _. none) ms
        (record {
          valid = unfold new_memory_cache in tt;
          same = λ u key k. unfold new_memory_cache load in refl;
        })
        h
