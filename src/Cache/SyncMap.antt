-- ===== src/Cache/SyncMap.antt =====
-- `sync.Map` with string keys: an association list with at most one entry for a key.
use task_management_api.Shared.{
  Bytes, bytes_eq, bytes_eq_iff, Bool, false, ◌≡◌, refl, Option, none, some, List, [], ◌∷◌, filter,
  if◌then◌else◌, arith, not,
}

module _ {ℓ} {A : Type ℓ} where
  unfoldable pub load : Bytes → List (Bytes × A) → Option A
  load k [] = none
  load k ((j, a) ∷ m) = if bytes_eq j k then some a else load k m

  -- `Store`: replaces the entry of the key, or adds one.
  unfoldable pub store : Bytes → A → List (Bytes × A) → List (Bytes × A)
  store k a [] = (k, a) ∷ []
  store k a ((j, b) ∷ m) = if bytes_eq j k then (j, a) ∷ m else (j, b) ∷ store k a m

  -- `Range` with a callback that deletes the entries which it selects.
  unfoldable pub delete_where : (Bytes → A → Bool) → List (Bytes × A) → List (Bytes × A)
  delete_where p = filter (λ e. not (p e.0 e.1))

  unfoldable pub delete : Bytes → List (Bytes × A) → List (Bytes × A)
  unfolding delete_where
  delete k = delete_where (λ j a. bytes_eq j k)

  abbrev pub Fresh : Bytes → List (Bytes × A) → Type 0
  Fresh k [] = Unit {0}
  Fresh k ((j, a) ∷ m) = (bytes_eq j k ≡ false) × Fresh k m

  abbrev pub Distinct : List (Bytes × A) → Type 0
  Distinct [] = Unit {0}
  Distinct ((j, a) ∷ m) = Fresh j m × Distinct m

  pub load-Fresh : (k : Bytes) (m : List (Bytes × A)) → Fresh k m → load k m ≡ none
  unfolding load
  load-Fresh k [] f = refl
  load-Fresh k ((j, a) ∷ m) f = ground (arith, load-Fresh k m)

  pub load-store :
      (k j : Bytes) (a : A) (m : List (Bytes × A))
      → load j (store k a m) ≡ (if bytes_eq k j then some a else load j m)
  unfolding load store
  load-store k j a [] = refl
  load-store k j a ((i, b) ∷ m) =
      ground (arith, bytes_eq_iff k j, bytes_eq_iff i k, bytes_eq_iff i j, load-store k j a m)

  delete_where-Fresh :
      (p : Bytes → A → Bool) (k : Bytes) (m : List (Bytes × A))
      → Fresh k m
      → Fresh k (delete_where p m)
  unfolding delete_where
  delete_where-Fresh p k [] f = tt
  delete_where-Fresh p k ((j, a) ∷ m) f = ground (arith, delete_where-Fresh p k m f.1)

  pub delete_where-Distinct :
      (p : Bytes → A → Bool) (m : List (Bytes × A)) → Distinct m → Distinct (delete_where p m)
  unfolding delete_where
  delete_where-Distinct p [] d = tt
  delete_where-Distinct p ((j, a) ∷ m) d =
      ground (arith, delete_where-Fresh p j m d.0, delete_where-Distinct p m d.1)

  store-Fresh :
      (i k : Bytes) (a : A) (m : List (Bytes × A))
      → bytes_eq k i ≡ false
      → Fresh i m
      → Fresh i (store k a m)
  unfolding store
  store-Fresh i k a [] h f = (h, tt)
  store-Fresh i k a ((j, b) ∷ m) h f = ground (arith, store-Fresh i k a m h f.1)

  pub store-Distinct :
      (k : Bytes) (a : A) (m : List (Bytes × A)) → Distinct m → Distinct (store k a m)
  unfolding store
  store-Distinct k a [] d = (tt, tt)
  store-Distinct k a ((j, b) ∷ m) d =
      ground
        (arith, bytes_eq_iff j k, bytes_eq_iff k j, store-Fresh j k a m, store-Distinct k a m d.1)

  abbrev pub unless : (A → Bool) → Option A → Option A
  unless p none = none
  unless p (some a) = if p a then none else some a

  -- Of the entries with distinct keys, exactly those selected are gone.
  pub load-delete_where :
      (p : Bytes → A → Bool) (k : Bytes) (m : List (Bytes × A))
      → Distinct m
      → load k (delete_where p m) ≡ unless (p k) (load k m)
  unfolding load delete_where
  load-delete_where p k [] d = refl
  load-delete_where p k ((j, a) ∷ m) d =
      ground (arith, bytes_eq_iff j k, load-delete_where p k m d.1, load-Fresh k m)

  pub load-delete :
      (k j : Bytes) (m : List (Bytes × A))
      → load j (delete k m) ≡ (if bytes_eq k j then none else load j m)
  unfolding load delete delete_where
  load-delete k j [] = ground arith
  load-delete k j ((i, b) ∷ m) =
      ground (arith, bytes_eq_iff k j, bytes_eq_iff i k, bytes_eq_iff i j, load-delete k j m)

  pub delete-Distinct : (k : Bytes) (m : List (Bytes × A)) → Distinct m → Distinct (delete k m)
  unfolding delete
  delete-Distinct k m d = delete_where-Distinct (λ j a. bytes_eq j k) m d
