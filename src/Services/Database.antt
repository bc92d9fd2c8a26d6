-- ===== src/Services/Database.antt =====
-- What the services ask of the database through GORM, which is a parameter: each query of the code
-- is a function from its arguments to what it comes back with.
use task_management_api.Shared.{Bytes, ◌≡◌, refl, ◌⊎◌, inl, inr}

-- A count or a `Find`.
pub data Answer (A : Type 0) : Type 0 where
  answer : A → Answer A
  failure : Bytes → Answer A

-- A `First`, with `gorm.ErrRecordNotFound` apart from the other errors.
pub data Found (A : Type 0) : Type 0 where
  found : A → Found A
  not_found : Found A
  broken : Bytes → Found A

pub Answer-cases :
    {A : Type 0} (r : Answer A) → ((a : A) × (r ≡ answer a)) ⊎ ((e : Bytes) × (r ≡ failure e))
Answer-cases (answer a) = inl (a, refl)
Answer-cases (failure e) = inr (e, refl)

pub Found-cases :
    {A : Type 0} (r : Found A)
    → ((a : A) × (r ≡ found a)) ⊎ (r ≡ not_found) ⊎ ((e : Bytes) × (r ≡ broken e))
Found-cases (found a) = inl (a, refl)
Found-cases not_found = inr (inl refl)
Found-cases (broken e) = inr (inr (e, refl))
