-- ===== src/Cache/PriorityQueue/Items.antt =====
-- The items of priority_queue.go under swaps: what container/heap does to the priorities it does to the
-- items, and the items keep their jobs and know their places.
use task_management_api.Shared.{
  ℕ, zero, suc, ◌+◌, ◌≡◌, refl, ap, ◌∙◌, Option, none, some, List, [], ◌∷◌, get_elem?, set,
  exchange-perm, arith, inl, inr, Option-cases,
}
use task_management_api.Shared.Int.{ℤ, pos}
use mathlib.Core.List.{Perm}
use mathlib.Core.List.Perm
use task_management_api.Cache.PriorityQueue.{JobQueue, priorities, jobs, swap, run_swaps}

-- The swaps, on the priorities alone.
unfoldable pub exchange : List ℤ → ℕ → ℕ → Option (List ℤ)
exchange xs i j = elim (get_elem? xs i) [
  | none ↦ none
  | some a ↦ elim (get_elem? xs j) [ none ↦ none | some b ↦ some (set (set xs i b) j a) ]
]

unfoldable pub run_exchanges : List (ℕ × ℕ) → List ℤ → Option (List ℤ)
unfolding exchange
run_exchanges [] xs = some xs
run_exchanges ((i, j) ∷ swaps) xs = elim (exchange xs i j) [
  | none ↦ none
  | some xs' ↦ run_exchanges swaps xs'
]

module _ {D : Type 0} where
  -- Each item has the priority of its job.
  abbrev pub Agree : List (JobQueue D) → Type 0
  Agree [] = Unit {0}
  Agree (x ∷ xs) = (x.priority ≡ x.job.priority) × Agree xs

  -- Each item knows its index, counted from `k`.
  abbrev pub Indexed : ℕ → List (JobQueue D) → Type 0
  Indexed k [] = Unit {0}
  Indexed k (x ∷ xs) = (x.index ≡ pos k) × Indexed (suc k) xs

  get-priorities :
      (xs : List (JobQueue D)) (i : ℕ) (p : ℤ)
      → get_elem? (priorities xs) i ≡ some p
      → (x : JobQueue D) × (get_elem? xs i ≡ some x) × (x.priority ≡ p)
  get-priorities [] i p h = absurd (ground arith)
  get-priorities (x ∷ xs) zero p h = (x, refl, ground arith)
  get-priorities (x ∷ xs) (suc i) p h = get-priorities xs i p h

  get-jobs :
      (xs : List (JobQueue D)) (i : ℕ) (x : JobQueue D)
      → get_elem? xs i ≡ some x
      → get_elem? (jobs xs) i ≡ some x.job
  get-jobs [] i x h = absurd (ground arith)
  get-jobs (y ∷ ys) zero x h = ground arith
  get-jobs (y ∷ ys) (suc i) x h = get-jobs ys i x h

  priorities-set :
      (xs : List (JobQueue D)) (i : ℕ) (x : JobQueue D)
      → priorities (set xs i x) ≡ set (priorities xs) i x.priority
  priorities-set [] i x = refl
  priorities-set (y ∷ ys) zero x = refl
  priorities-set (y ∷ ys) (suc i) x = ap (◌∷◌ y.priority) (priorities-set ys i x)

  jobs-set :
      (xs : List (JobQueue D)) (i : ℕ) (x : JobQueue D) → jobs (set xs i x) ≡ set (jobs xs) i x.job
  jobs-set [] i x = refl
  jobs-set (y ∷ ys) zero x = refl
  jobs-set (y ∷ ys) (suc i) x = ap (◌∷◌ y.job) (jobs-set ys i x)

  get-Agree :
      (xs : List (JobQueue D)) (i : ℕ) (x : JobQueue D)
      → get_elem? xs i ≡ some x
      → Agree xs
      → x.priority ≡ x.job.priority
  get-Agree [] i x h a = absurd (ground arith)
  get-Agree (y ∷ ys) zero x h a = ground arith
  get-Agree (y ∷ ys) (suc i) x h a = get-Agree ys i x h a.1

  set-Agree :
      (xs : List (JobQueue D)) (i : ℕ) (x : JobQueue D)
      → x.priority ≡ x.job.priority
      → Agree xs
      → Agree (set xs i x)
  set-Agree [] i x e a = tt
  set-Agree (y ∷ ys) zero x e a = (e, a.1)
  set-Agree (y ∷ ys) (suc i) x e a = (a.0, set-Agree ys i x e a.1)

  set-Indexed :
      (k : ℕ) (xs : List (JobQueue D)) (i : ℕ) (x : JobQueue D)
      → x.index ≡ pos (k + i)
      → Indexed k xs
      → Indexed k (set xs i x)
  set-Indexed k [] i x e a = tt
  set-Indexed k (y ∷ ys) zero x e a = (ground arith, a.1)
  set-Indexed k (y ∷ ys) (suc i) x e a = (a.0, set-Indexed (suc k) ys i x (ground arith) a.1)

  -- Two lists of items with the same jobs, the second one with priorities `ps`.
  pub record Swapped (ps : List ℤ) (xs ys : List (JobQueue D)) : Type 0 where
    pub order : priorities ys ≡ ps
    pub agree : Agree ys
    pub indexed : Indexed 0 ys
    pub same_jobs : Perm (jobs ys) (jobs xs)

  swap-Swapped :
      (xs : List (JobQueue D)) (i j : ℕ) (ps : List ℤ)
      → exchange (priorities xs) i j ≡ some ps
      → Agree xs
      → Indexed 0 xs
      → (ys : List (JobQueue D)) × (swap xs i j ≡ some ys) × Swapped ps xs ys
  unfolding exchange swap
  swap-Swapped xs i j ps h a d = elim (Option-cases (get_elem? (priorities xs) i)) [
    | inl n ↦ absurd (ground arith)
    | inr (p, hp) ↦ elim (Option-cases (get_elem? (priorities xs) j)) [
      | inl n ↦ absurd (ground arith)
      | inr (q, hq) ↦
          let (x, hx, ex) = get-priorities xs i p hp in
          let (y, hy, ey) = get-priorities xs j q hq in
          let y' : JobQueue D = record y { index = pos i } in
          let x' : JobQueue D = record x { index = pos j } in
          (
            set (set xs i y') j x',
            ground arith,
            record {
              order =
                  priorities-set (set xs i y') j x' ∙ rw (priorities-set xs i y') (ground arith);
              agree =
                  set-Agree (set xs i y') j x' (get-Agree xs i x hx a)
                    (set-Agree xs i y' (get-Agree xs j y hy a) a);
              indexed =
                  set-Indexed 0 (set xs i y') j x' (ground arith)
                    (set-Indexed 0 xs i y' (ground arith) d);
              same_jobs =
                  rw (jobs-set (set xs i y') j x', jobs-set xs i y')
                    (exchange-perm (jobs xs) i j x.job y.job (get-jobs xs i x hx)
                      (get-jobs xs j y hy));
            },
          )
    ]
  ]

  pub run_swaps-Swapped :
      (swaps : List (ℕ × ℕ)) (xs : List (JobQueue D)) (ps : List ℤ)
      → run_exchanges swaps (priorities xs) ≡ some ps
      → Agree xs
      → Indexed 0 xs
      → (ys : List (JobQueue D)) × (run_swaps swaps xs ≡ some ys) × Swapped ps xs ys
  unfolding run_exchanges run_swaps
  run_swaps-Swapped [] xs ps h a d =
      (xs, refl, record { order = ground arith; agree = a; indexed = d; same_jobs = Perm.rfl })
  run_swaps-Swapped ((i, j) ∷ swaps) xs ps h a d =
      elim (Option-cases (exchange (priorities xs) i j)) [
        | inl n ↦ absurd (ground arith)
        | inr (qs, e) ↦
            let (ys, s, w) = swap-Swapped xs i j qs e a d in
            let (zs, r, v) =
              run_swaps-Swapped swaps ys ps (rw w.order (ground arith)) w.agree w.indexed in
            (
              zs,
              rw (run_swaps, s) r,
              record {
                order = v.order;
                agree = v.agree;
                indexed = v.indexed;
                same_jobs = Perm.trans v.same_jobs w.same_jobs;
              },
            )
      ]
