-- ===== src/Services/CachedTasks/Keys.antt =====
-- The keys of cached_tasks.go and the patterns that it deletes by.
use task_management_api.Shared.{
  ℕ, ◌≡◌, refl, ap, true, false, Bytes, bytes, bytes_eq, [], ◌∷◌, ◌++◌, length, length-append,
  arith,
}
use task_management_api.Cache.Pattern.{match_pattern, match_pattern-prefix, match_pattern-no_prefix}
use task_management_api.Models.{Uuid}
use task_management_api.Services.CachedTasks.{
  Env, task_key, user_key, user_pattern, page_key, all_tasks, all_pages,
}

split_star : (xs : Bytes) → xs ++ bytes ":*" ≡ (xs ++ bytes ":") ++ b'*' ∷ []
split_star [] = refl
split_star (x ∷ xs) = ap (◌∷◌ x) (split_star xs)

heads : (x y : ℕ) (xs ys : Bytes) → x ∷ xs ≡ y ∷ ys → x ≡ y
heads x y xs ys e = ap (λ (zs : Bytes). elim zs [ [] ↦ 0 | z ∷ _ ↦ z ]) e

module _ {R J D S : Type 0} (env : Env R J D S) where
  pub pages_match :
      (sort_by order page page_size : Bytes)
      → match_pattern (page_key env sort_by order page page_size) all_pages ≡ true
  pages_match sort_by order page page_size = match_pattern-prefix (bytes "tasks_paginated:") _

  -- The key of a user's list is no match of the pattern that is meant to delete it.
  pub user_key-unmatched :
      (u v : Uuid)
      → length (env.uuid_string u) ≡ length (env.uuid_string v)
      → match_pattern (user_key env u) (user_pattern env v) ≡ false
  user_key-unmatched u v same = rw (split_star (bytes "user_tasks:" ++ env.uuid_string v)) (
      match_pattern-no_prefix (user_key env u)
        ((bytes "user_tasks:" ++ env.uuid_string v) ++ bytes ":")
        (λ rest e. omega (
          arith,
          same,
          ap length e,
          length-append ((bytes "user_tasks:" ++ env.uuid_string v) ++ bytes ":") rest,
          length-append (bytes "user_tasks:" ++ env.uuid_string v) (bytes ":"),
        )))

  pub user_key-no_page : (u : Uuid) → match_pattern (user_key env u) all_pages ≡ false
  user_key-no_page u =
      match_pattern-no_prefix (user_key env u) (bytes "tasks_paginated:")
        (λ rest e. omega (arith, heads 117 116 _ _ e))

  pub user_key-others :
      (u id : Uuid)
      → (bytes_eq (task_key env id) (user_key env u) ≡ false)
        × (bytes_eq all_tasks (user_key env u) ≡ false)
  unfolding bytes_eq
  user_key-others u id = (refl, refl)
