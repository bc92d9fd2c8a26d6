-- ===== src/Cache/Warmer/Warmed.antt =====
-- What `warmCache` of warmer.go stores without a worker pool, and in which order.
use task_management_api.Shared.{
  ℕ, suc, ◌+◌, ◌≡◌, ◌≢◌, ◌≤◌, ◌<◌, refl, sym, ap, ◌∙◌, subst, Bool, true, false, not, List, [], ◌∷◌,
  ◌++◌, length, take, drop, both_branches, arith, ◌==◌,
}
use task_management_api.Shared.Int.{pos, ltb_ℤ, add_int64, add_int64-exact, max_int64}
use mathlib.Core.List.{Perm, append_assoc, append-nil}
use mathlib.Core.List.Perm
use task_management_api.Cache.Jobs.{WarmupJob}
use task_management_api.Cache.WorkerPool.Workers.{CacheSet}
use task_management_api.Cache.Scheduler.Batches.{take-drop}
use task_management_api.Cache.Warmer.Helpers.{Batch, Turn, helpers, begin_batch, is_over, run_turns}
use task_management_api.Cache.Warmer.Shares.{Shares, held, store_all, store_all-append, run-Shares}
use task_management_api.Cache.Warmer.Order.{InOrder, run_turns-InOrder, begin_batch-InOrder}
use task_management_api.Cache.Warmer.Slices.{
  length-drop, drop-drop, nil_of_length, slice-take, helpers_started,
}
use task_management_api.Cache.Warmer.Rounds.{
  Warming, completed, was_cancelled, waits, goes_on, panicked, after_batch, warm_batches,
  warm_directly,
}

module _ {S D : Type 0} (set : CacheSet S D) where
  -- All jobs in batches of `n`, each in any order.
  pub data InRounds (n : ℕ) : List (WarmupJob D) → List (WarmupJob D) → Type 0 where
    all_done : InRounds n [] []
    round :
        {jobs order later : List (WarmupJob D)}
        → jobs ≢ []
        → Perm (take n jobs) order
        → InRounds n (drop n jobs) later
        → InRounds n jobs (order ++ later)

  -- Some of the jobs were stored once, the others not.
  pub record Partly (cache : S) (jobs : List (WarmupJob D)) (after : S) : Type 0 where
    pub order : List (WarmupJob D)
    pub others : List (WarmupJob D)
    pub stores : after ≡ store_all set cache order
    pub all_jobs : Perm jobs (order ++ others)

  pub record Wholly (n : ℕ) (cache : S) (jobs : List (WarmupJob D)) (after : S) : Type 0 where
    pub order : List (WarmupJob D)
    pub stores : after ≡ store_all set cache order
    pub in_rounds : InRounds n jobs order

  abbrev pub Warmed : (n : ℕ) → (cache : S) → List (WarmupJob D) → Warming S → Type 0
  Warmed n cache jobs (completed after) = Wholly n cache jobs after
  Warmed n cache jobs (was_cancelled after) = Partly cache jobs after
  Warmed n cache jobs (waits after) = Partly cache jobs after
  Warmed n cache jobs (goes_on after) = ⊥
  Warmed n cache jobs panicked = ⊥

  after_batch-cases :
      (P : Warming S → Type 0) (b : Batch S D) (next : S → Warming S)
      → (is_over b ≡ false → P (waits b.cache))
      → (P (was_cancelled b.cache))
      → (is_over b ≡ true → b.cancelled ≡ false → P (next b.cache))
      → P (after_batch b next)
  unfolding after_batch
  after_batch-cases P b next p q r =
      both_branches P (not (is_over b)) (λ f. p (ground (arith, f)))
        (λ f. ended (ground (arith, f)) b.cancelled refl)
    where
      ended :
          is_over b ≡ true
          → (c : Bool) → b.cancelled ≡ c
          → P (elim c [ true ↦ was_cancelled b.cache | false ↦ next b.cache ])
      ended o true e = q
      ended o false e = r o e

  partly-Partly :
      (n : ℕ) (cache : S) (jobs : List (WarmupJob D)) (b : Batch S D)
      → Shares set cache (take n jobs) b
      → Partly cache jobs b.cache
  partly-Partly n cache jobs b s = record {
    order = s.order;
    others = (s.gone ++ held b) ++ drop n jobs;
    stores = s.stores;
    all_jobs = rw (← append_assoc s.order (s.gone ++ held b) (drop n jobs)) (
        subst (λ js. Perm js ((s.order ++ (s.gone ++ held b)) ++ drop n jobs)) (take-drop n jobs)
          (Perm.append_right (drop n jobs) s.all_jobs));
  }

  all_stored :
      (k : ℕ) (cache : S) (batch : List (WarmupJob D)) (b : Batch S D)
      → (s : Shares set cache batch b) → InOrder k b
      → k ≢ 0
      → is_over b ≡ true
      → b.cancelled ≡ false
      → Perm batch s.order
  unfolding is_over
  all_stored k cache batch b s o h over u =
      let busy : b.busy ≡ [] = nil_of_length b.busy (ground (arith, over)) in
      let received : b.received ≡ [] = nil_of_length b.received (ground (arith, over)) in
      let unsent : b.unsent ≡ [] = nil_of_length b.unsent (ground (arith, over)) in
      let buffer : b.job_ch.buffer ≡ [] = (o.spent (ground (arith, over)) u h).0 in
      let p : Perm batch (s.order ++ (s.gone ++ held b)) = s.all_jobs in
      let q : s.gone ++ held b ≡ [] = rw (s.uncancelled u, busy, received, unsent, buffer) refl in
      subst (λ js. Perm batch js) (append-nil s.order)
        (subst (λ js. Perm batch (s.order ++ js)) q p)

  later :
      (n : ℕ) (cache : S) (jobs order : List (WarmupJob D)) (c after : S)
      → c ≡ store_all set cache order
      → Perm (take n jobs) order
      → Partly c (drop n jobs) after
      → Partly cache jobs after
  later n cache jobs order c after e p w = record {
    order = order ++ w.order;
    others = w.others;
    stores =
        w.stores
        ∙ ap (λ x. store_all set x w.order) e
        ∙ sym (store_all-append set cache order w.order);
    all_jobs = rw (append_assoc order w.order w.others) (
        Perm.trans
          (subst (λ js. Perm js (order ++ drop n jobs)) (take-drop n jobs)
            (Perm.append_right (drop n jobs) p))
          (Perm.append_left order w.all_jobs));
  }

  -- A round that stored its batch, before the others.
  round-Warmed :
      (n : ℕ) (cache : S) (jobs order : List (WarmupJob D)) (c : S) (w : Warming S)
      → jobs ≢ []
      → c ≡ store_all set cache order
      → Perm (take n jobs) order
      → Warmed n c (drop n jobs) w
      → Warmed n cache jobs w
  round-Warmed n cache jobs order c (completed after) h e p w = record {
    order = order ++ w.order;
    stores =
        w.stores
        ∙ ap (λ x. store_all set x w.order) e
        ∙ sym (store_all-append set cache order w.order);
    in_rounds = round h p w.in_rounds;
  }
  round-Warmed n cache jobs order c (was_cancelled after) h e p w =
      later n cache jobs order c after e p w
  round-Warmed n cache jobs order c (waits after) h e p w = later n cache jobs order c after e p w
  round-Warmed n cache jobs order c (goes_on after) h e p w = w
  round-Warmed n cache jobs order c panicked h e p w = w

module _ {S D : Type 0} (set : CacheSet S D) (jobs : List (WarmupJob D)) (m c : ℕ) where
  none_left : (i : ℕ) (cache : S) → length jobs ≤ i → Wholly set (suc m) cache (drop i jobs) cache
  unfolding store_all
  none_left i cache h =
      let e : drop i jobs ≡ [] = nil_of_length (drop i jobs) (omega (arith, length-drop i jobs)) in
      record { order = []; stores = refl; in_rounds = rw e all_done }

  some_left : (i : ℕ) → i < length jobs → drop i jobs ≢ []
  some_left i h e = omega (arith, length-drop i jobs, ap length e)

  warm_from :
      (schedule : List (List Turn)) (i : ℕ) (cache : S)
      → length jobs + suc m ≤ max_int64
      → length (drop i jobs) ≤ length schedule
      → Warmed set
          (suc m)
          cache
          (drop i jobs)
          (warm_batches set schedule jobs (pos (suc m)) (pos (suc c)) (pos i) cache)
  unfolding warm_batches
  warm_from [] i cache r h =
      let l : length jobs ≤ i = omega (arith, length-drop i jobs) in
      let f : ltb_ℤ (pos i) (pos (length jobs)) ≡ false = ground arith in
      rw (warm_batches, f) (none_left i cache l)
  warm_from (turns ∷ schedule) i cache r h =
      both_branches (Warmed set (suc m) cache (drop i jobs))
        (not (ltb_ℤ (pos i) (pos (length jobs)))) (λ f. none_left i cache (ground (arith, f)))
        (λ f.
          let l : i < length jobs = ground (arith, f) in
          let batch = take (suc m) (drop i jobs) in
          let b = run_turns set turns (begin_batch cache false batch (pos (suc c))) in
          let s : Shares set cache batch b = run-Shares set cache batch turns false (pos (suc c)) in
          rw (slice-take jobs i (suc m) l (omega arith)) (
            after_batch-cases set (Warmed set (suc m) cache (drop i jobs)) b
              (warm_batches set schedule jobs (pos (suc m)) (pos (suc c))
                (add_int64 (pos i) (pos (suc m))))
              (λ g. partly-Partly set (suc m) cache (drop i jobs) b s)
              (partly-Partly set (suc m) cache (drop i jobs) b s)
              (λ o u.
                round-Warmed set (suc m) cache (drop i jobs) s.order b.cache
                  (warm_batches set schedule jobs (pos (suc m)) (pos (suc c))
                    (add_int64 (pos i) (pos (suc m))) b.cache)
                  (some_left i l) s.stores
                  (all_stored set (helpers (pos (suc c)) (length batch)) cache batch b s
                    (run_turns-InOrder set (helpers (pos (suc c)) (length batch)) turns
                      (begin_batch cache false batch (pos (suc c)))
                      (begin_batch-InOrder cache false batch (pos (suc c))))
                    (helpers_started c m (drop i jobs) (some_left i l)) o u)
                  (rw (drop-drop (suc m) i jobs, add_int64-exact i (suc m) (omega arith))
                    (warm_from schedule (i + suc m) b.cache r
                      (omega (arith, h, length-drop i jobs, length-drop (i + suc m) jobs)))))))

module _ {S D : Type 0} (set : CacheSet S D) where
  -- A warm-up without a worker pool, of positive sizes, whatever turns its goroutines take and given
  -- turns for as many batches as there are jobs: it does not panic, and it is not left with a batch to
  -- begin. If it completes, each job was stored exactly once, batch after batch, though in any order
  -- within one; if the context is cancelled, or while it waits for a batch, some jobs were stored once
  -- and the others not.
  pub warm_directly-Warmed :
      (schedule : List (List Turn)) (jobs : List (WarmupJob D)) (m c : ℕ) (cache : S)
      → length jobs + suc m ≤ max_int64
      → length jobs ≤ length schedule
      → Warmed set
          (suc m)
          cache
          jobs
          (warm_directly set schedule jobs (pos (suc m)) (pos (suc c)) cache)
  unfolding warm_directly
  warm_directly-Warmed schedule jobs m c cache r h =
      both_branches (Warmed set (suc m) cache jobs) (length jobs == 0)
        (λ f. none_left set jobs m c 0 cache (ground (arith, f)))
        (λ f. warm_from set jobs m c schedule 0 cache r h)
