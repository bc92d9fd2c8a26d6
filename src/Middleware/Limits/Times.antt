-- ===== src/Middleware/Limits/Times.antt =====
-- Lists of times, as the windows of rate_limiter.go filter them.
use task_management_api.Shared.{
  ℕ, ◌≤◌, ◌≡◌, refl, inl, inr, Bool, true, Bool-cases, List, [], ◌∷◌, filter, arith,
}
use task_management_api.Shared.Int.{ℤ, pos, ◌≤ℤ◌, ◌<ℤ◌, ◌-ℤ◌, sub_int64, wrap_int64, max_int64}

-- All earlier than `now`.
abbrev pub Before : (now : ℤ) → List ℤ → Type 0
Before now [] = Unit {0}
Before now (m ∷ ms) = (m <ℤ now) × Before now ms

pub Before-filter :
    (now : ℤ) (p : ℤ → Bool) (ms : List ℤ) → Before now ms → Before now (filter p ms)
Before-filter now p [] b = tt
Before-filter now p (m ∷ ms) b = elim (Bool-cases (p m)) [
  | inl e ↦ rw e (b.0, Before-filter now p ms b.1)
  | inr e ↦ rw e (Before-filter now p ms b.1)
]

pub Before-weaken : (a b : ℤ) (ms : List ℤ) → a ≤ℤ b → Before a ms → Before b ms
Before-weaken a b [] h x = tt
Before-weaken a b (m ∷ ms) h x = (omega (arith, h, x.0), Before-weaken a b ms h x.1)

pub filter-filter :
    (p q : ℤ → Bool) (ms : List ℤ)
    → ((m : ℤ) → p m ≡ true → q m ≡ true)
    → filter p (filter q ms) ≡ filter p ms
filter-filter p q [] h = refl
filter-filter p q (m ∷ ms) h = elim (Bool-cases (q m)) [
  | inl e ↦ ground (arith, e, filter-filter p q ms h)
  | inr e ↦ ground (arith, e, h m, filter-filter p q ms h)
]

pub filter-cons :
    (p : ℤ → Bool) (m : ℤ) (ms ns : List ℤ)
    → filter p ms ≡ filter p ns
    → filter p (m ∷ ms) ≡ filter p (m ∷ ns)
filter-cons p m ms ns h = ground (arith, h)

pub window_start-mono :
    (t u w : ℕ)
    → t ≤ u
    → u ≤ max_int64
    → w ≤ max_int64
    → sub_int64 (pos t) (pos w) ≤ℤ sub_int64 (pos u) (pos w)
unfolding sub_int64 wrap_int64 ◌-ℤ◌
window_start-mono t u w h a b = ground arith
