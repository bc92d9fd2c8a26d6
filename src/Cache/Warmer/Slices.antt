-- ===== src/Cache/Warmer/Slices.antt =====
-- The slices that `warmCache` of warmer.go makes of its jobs.
use task_management_api.Shared.{
  ℕ, zero, suc, ◌+◌, ◌-◌, ◌≡◌, ◌≢◌, ◌≤◌, ◌<◌, refl, sym, ap, ◌∙◌, inl, inr, true, Bool-cases, some,
  List, [], ◌∷◌, length, take, drop, leb, arith,
}
use task_management_api.Shared.Int.{pos, ltb_ℤ, add_int64-exact, max_int64}
use task_management_api.Cache.Warmer.Helpers.{helpers}
use task_management_api.Cache.Warmer.Rounds.{slice, batch_end}

pub take-all : {A : Type 0} (n : ℕ) (xs : List A) → length xs ≤ n → take n xs ≡ xs
take-all zero [] h = refl
take-all zero (x ∷ xs) h = absurd (omega (arith, h))
take-all (suc n) [] h = refl
take-all (suc n) (x ∷ xs) h = ap (◌∷◌ x) (take-all n xs (omega (arith, h)))

pub length-drop : {A : Type 0} (n : ℕ) (xs : List A) → length (drop n xs) ≡ length xs - n
length-drop zero xs = omega arith
length-drop (suc n) [] = omega arith
length-drop (suc n) (x ∷ xs) = omega (arith, length-drop n xs)

drop-nil : {A : Type 0} (n : ℕ) → drop {A = A} n [] ≡ []
drop-nil zero = refl
drop-nil (suc n) = refl

pub drop-drop : {A : Type 0} (n k : ℕ) (xs : List A) → drop n (drop k xs) ≡ drop (k + n) xs
drop-drop n zero xs = ground arith
drop-drop n (suc k) [] = drop-nil n ∙ sym (drop-nil (suc k + n))
drop-drop n (suc k) (x ∷ xs) =
    let e : suc (k + n) ≡ suc k + n = omega arith in drop-drop n k xs ∙ ap (λ m. drop m (x ∷ xs)) e

pub nil_of_length : {A : Type 0} (xs : List A) → length xs ≡ 0 → xs ≡ []
nil_of_length [] h = refl
nil_of_length (x ∷ xs) h = absurd (omega (arith, h))

pub slice-take :
    {A : Type 0} (xs : List A) (i n : ℕ)
    → i < length xs
    → i + n ≤ max_int64
    → slice xs (pos i) (batch_end (pos i) (pos n) (length xs)) ≡ some (take n (drop i xs))
unfolding slice batch_end
slice-take xs i n h k = elim (Bool-cases (ltb_ℤ (pos (length xs)) (pos (i + n)))) [
  | inl f ↦
      let l : leb i (length xs) ≡ true = ground (arith, h) in
      rw (add_int64-exact i n k, f, l)
        (ap some (
          take-all (length xs - i) (drop i xs) (omega (arith, length-drop i xs))
          ∙ sym (take-all n (drop i xs) (ground (arith, length-drop i xs, f)))))
  | inr f ↦
      let l : leb i (i + n) ≡ true = ground arith in
      let e : i + n - i ≡ n = omega arith in rw (add_int64-exact i n k, f, l, e) refl
]

pub helpers_started :
    {A : Type 0} (c m : ℕ) (xs : List A)
    → xs ≢ []
    → helpers (pos (suc c)) (length (take (suc m) xs)) ≢ 0
unfolding helpers
helpers_started c m [] h = absurd (h refl)
helpers_started c m (x ∷ xs) h = λ e. ground (arith, e)
