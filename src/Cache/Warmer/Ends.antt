-- ===== src/Cache/Warmer/Ends.antt =====
-- That the `wg.Wait()` of `processBatch` in warmer.go comes to its end.
use task_management_api.Shared.{
  ℕ, zero, suc, ◌+◌, ◌*◌, ◌≡◌, ◌≢◌, ◌≤◌, ◌<◌, ◌⊎◌, inl, inr, refl, sym, ap, subst, Bool, true,
  false, ◌==◌, ltb, Bool-cases, none, some, Option-cases, List, [], ◌∷◌, length, length-append,
  both_branches, arith,
}
use task_management_api.Shared.Int.{ℤ, pos, negsuc}
use task_management_api.Cache.Jobs.{WarmupJob}
use task_management_api.Cache.PriorityQueue.Order.{List-cases}
use task_management_api.Cache.WorkerPool.{take_out}
use task_management_api.Cache.WorkerPool.Workers.{CacheSet}
use task_management_api.Cache.WorkerPool.Channels.{make_channel, put, close}
use task_management_api.Cache.Warmer.Helpers.{
  Batch, Turn, sends, receives, cancels, tests, stores, helpers, begin_batch, sent, range, tested,
  processed, closed_batch, is_over, turn, run_turns,
}
use task_management_api.Cache.Warmer.Turns.{
  Move, sent_job, closed_channel, took, left, gave_up, went_on, stored, Moves, turn-Moves,
}
use task_management_api.Cache.Warmer.Order.{InOrder, alive, run_turns-InOrder, begin_batch-InOrder}

abbrev opened : Bool → ℕ
opened true = 0
opened false = 1

-- The steps that are left at most.
abbrev weight : {S D : Type 0} → Batch S D → ℕ
weight b =
    4 * length b.unsent
    + 3 * length b.job_ch.buffer
    + 2 * length b.received
    + length b.busy
    + opened b.job_ch.closed
    + alive b

take_out-length :
    {A : Type 0} (i : ℕ) (xs : List A) (x : A) (rest : List A)
    → take_out i xs ≡ some (x, rest)
    → length xs ≡ suc (length rest)
unfolding take_out
take_out-length i [] x rest e = absurd (ground arith)
take_out-length zero (y ∷ ys) x rest e = ground arith
take_out-length (suc i) (y ∷ ys) x rest e = elim (Option-cases (take_out i ys)) [
  | inl f ↦ absurd (ground (arith, e, f))
  | inr ((z, zs), f) ↦ ground (arith, e, f, take_out-length i ys z zs f)
]

module _ {S D : Type 0} (set : CacheSet S D) where
  Move-weight : (b b' : Batch S D) → Move set b b' → weight b' < weight b
  unfolding put
  Move-weight b b' (sent_job job rest e) =
      ground (arith, e, length-append b.job_ch.buffer (job ∷ []))
  Move-weight b b' (closed_channel e f) = ground (arith, f)
  Move-weight b b' (took job rest e f) = ground (arith, e, f)
  Move-weight b b' (left e f g) = ground (arith, g)
  Move-weight b b' (gave_up i job rest e f) = omega (arith, take_out-length i b.received job rest e)
  Move-weight b b' (went_on i job rest e f) = omega (arith, take_out-length i b.received job rest e)
  Move-weight b b' (stored i job rest e) = omega (arith, take_out-length i b.busy job rest e)

  -- The turns of a run that a goroutine could take, or the caller.
  abbrev pub counts : Turn → ℕ
  counts cancels = 0
  counts sends = 1
  counts receives = 1
  counts (tests i) = 1
  counts (stores i) = 1

  unfoldable pub moves : List Turn → Batch S D → ℕ
  moves [] b = 0
  moves (t ∷ ts) b = elim (turn set t b) [ none ↦ moves ts b | some b' ↦ counts t + moves ts b' ]

  Moves-weight :
      (t : Turn) (b b' : Batch S D) → Moves set t b (some b') → counts t + weight b' ≤ weight b
  Moves-weight sends b b' m = omega (arith, Move-weight b b' m)
  Moves-weight receives b b' m = omega (arith, Move-weight b b' m)
  Moves-weight cancels b b' m = rw m (omega arith)
  Moves-weight (tests i) b b' m = omega (arith, Move-weight b b' m)
  Moves-weight (stores i) b b' m = omega (arith, Move-weight b b' m)

  moves-weight : (ts : List Turn) (b : Batch S D) → moves ts b ≤ weight b
  unfolding moves
  moves-weight [] b = omega arith
  moves-weight (t ∷ ts) b = elim (Option-cases (turn set t b)) [
    | inl e ↦ rw (moves, e) (moves-weight ts b)
    | inr (b', e) ↦
        let m : Moves set t b (some b') = subst (Moves set t b) e (turn-Moves set t b) in
        rw (moves, e) (omega (arith, Moves-weight t b b' m, moves-weight ts b'))
  ]

  -- Someone can move, and not only the owner of the context.
  abbrev pub CanMove : Batch S D → Type 0
  CanMove b = (t : Turn) × (t ≢ cancels) × (turn set t b ≢ none)

  stores_first :
      (b : Batch S D) (job : WarmupJob D) (rest : List (WarmupJob D))
      → b.busy ≡ job ∷ rest
      → CanMove b
  unfolding turn take_out processed
  stores_first b job rest e = (
    stores 0,
    λ z. ground (arith, z),
    subst (λ o. processed set o b ≢ none) (sym (ap (take_out 0) e)) (λ z. ground (arith, z)),
  )

  tests_first :
      (b : Batch S D) (job : WarmupJob D) (rest : List (WarmupJob D))
      → b.received ≡ job ∷ rest
      → CanMove b
  unfolding turn take_out tested
  tests_first b job rest e = (
    tests 0,
    λ z. ground (arith, z),
    subst (λ o. tested o b ≢ none) (sym (ap (take_out 0) e))
        (both_branches (λ o. o ≢ none) b.cancelled (λ f z. ground (arith, z))
          (λ f z. ground (arith, z))),
  )

  sends_next : (k : ℕ) (b : Batch S D) → InOrder k b → (b.job_ch.closed ≡ false) → CanMove b
  unfolding turn sent close
  sends_next k b o c = (sends, λ z. ground (arith, z), sendable b.unsent refl)
    where
      sendable : (us : List (WarmupJob D)) → b.unsent ≡ us → sent us b ≢ none
      sendable [] e =
          both_branches (λ o. closed_batch o b ≢ none) b.job_ch.closed
            (λ f. absurd (ground (arith, f, c))) (λ f z. ground (arith, z))
      sendable (job ∷ rest) e =
          both_branches (λ o. o ≢ none) (ltb (length b.job_ch.buffer) b.job_ch.capacity)
            (λ f z. ground (arith, z)) (λ f. absurd (ground (arith, f, e, o.room)))

  receives_next : (b : Batch S D) → b.job_ch.closed ≡ true → (b.idle == 0) ≡ false → CanMove b
  unfolding turn range
  receives_next b c h = (
    receives,
    λ z. ground (arith, z),
    both_branches (λ o. o ≢ none) (b.idle == 0) (λ f. absurd (ground (arith, f, h)))
        (λ f. receivable b.job_ch.buffer),
  )
    where
      receivable : (buffer : List (WarmupJob D)) → range buffer b ≢ none
      receivable [] =
          both_branches (λ o. o ≢ none) b.job_ch.closed (λ f z. ground (arith, z))
            (λ f. absurd (ground (arith, f, c)))
      receivable (job ∷ rest) = λ z. ground (arith, z)

  all_left :
      (k : ℕ) (b : Batch S D)
      → InOrder k b
      → is_over b ≡ false
      → b.busy ≡ []
      → b.received ≡ []
      → b.job_ch.closed ≡ true
      → (b.idle == 0) ≡ false
  unfolding is_over
  all_left k b o h e f c = ground (arith, h, e, f, c, o.all_sent c)

  next_turn : (k : ℕ) (b : Batch S D) → InOrder k b → is_over b ≡ false → CanMove b
  next_turn k b o h = elim (List-cases b.busy) [
    | inr (job, rest, e) ↦ stores_first b job rest e
    | inl e ↦ elim (List-cases b.received) [
      | inr (job, rest, f) ↦ tests_first b job rest f
      | inl f ↦ elim (Bool-cases b.job_ch.closed) [
        | inl c ↦ receives_next b c (all_left k b o h e f c)
        | inr c ↦ sends_next k b o c
      ]
    ]
  ]

  helpers-bound : (concurrency : ℤ) (n : ℕ) → helpers concurrency n ≤ n
  unfolding helpers
  helpers-bound (negsuc m) n = omega arith
  helpers-bound (pos m) n = ground arith

  -- Whatever turns are taken, no more than five for each job and one can be taken at all, and until the
  -- wait of `processBatch` is over someone can move: so the wait comes to its end.
  pub process_batch-ends :
      (ts : List Turn) (cache : S) (cancelled : Bool) (jobs : List (WarmupJob D)) (concurrency : ℤ)
      → (moves ts (begin_batch cache cancelled jobs concurrency) ≤ 5 * length jobs + 1)
        × ((is_over (run_turns set ts (begin_batch cache cancelled jobs concurrency)) ≡ true)
            ⊎ CanMove (run_turns set ts (begin_batch cache cancelled jobs concurrency)))
  unfolding begin_batch make_channel
  process_batch-ends ts cache cancelled jobs concurrency =
      let b = begin_batch cache cancelled jobs concurrency in
      let last = run_turns set ts b in
      let o =
        run_turns-InOrder set (helpers concurrency (length jobs)) ts b
          (begin_batch-InOrder cache cancelled jobs concurrency) in
      (
        omega (arith, moves-weight ts b, helpers-bound concurrency (length jobs)),
        elim (Bool-cases (is_over last)) [
          | inl e ↦ inl e
          | inr e ↦ inr (next_turn (helpers concurrency (length jobs)) last o e)
        ],
      )
