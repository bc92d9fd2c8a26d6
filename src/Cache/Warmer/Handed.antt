-- ===== src/Cache/Warmer/Handed.antt =====
-- What a new warmer of warmer.go hands to its scheduler.
use task_management_api.Shared.{
  ◌≡◌, refl, sym, ap, ◌∙◌, Bool, true, false, Option, none, some, List, [], ◌∷◌, ◌++◌,
  both_branches, if◌then◌else◌, subst,
}
use task_management_api.Shared.Int.{ℤ, pos, Time, ltb_ℤ}
use mathlib.Core.List.{Perm, perm_middle, append-nil}
use mathlib.Core.List.Perm
use task_management_api.Cache.Jobs.{WarmupJob}
use task_management_api.Cache.PriorityQueue.{HeapPackage, PriorityQueue, jobs, get_jobs}
use task_management_api.Cache.PriorityQueue.Invariant.{HeapLaws, IsValid, push-IsValid, new-IsValid}
use task_management_api.Cache.WorkerPool.{WorkerPool, new_worker_pool}
use task_management_api.Cache.WorkerPool as Pool
use task_management_api.Cache.Scheduler.{
  JobScheduler, new_job_scheduler, schedule_job, schedule_jobs, with_queue, zero_time, scheduler_of,
  add_interval_trigger,
}
use task_management_api.Cache.Scheduler as Scheduler
use task_management_api.Cache.Warmer.Parts.{
  WarmupStrategy, push_all, first_queue, first_scheduler, with_trigger, strategy_of,
}
use task_management_api.Cache.Warmer.{
  CacheWarmer, warmer_of, new_cache_warmer, handed, warming_up, begun, pool_started,
  with_pool_started, started_with, start,
}

module _ {D : Type 0} (heap : HeapPackage) (Ordered : List ℤ → Type 0)
    (laws : HeapLaws heap Ordered) where
  -- A queue with jobs more.
  record Filled (before : List (WarmupJob D)) (new : List (WarmupJob D)) (pq : PriorityQueue D)
      : Type 0 where
    valid : IsValid heap Ordered pq
    same_jobs : Perm (jobs pq.items) (new ++ before)

  more :
      (job : WarmupJob D) (before new : List (WarmupJob D)) (pq pq' : PriorityQueue D)
      → Perm (jobs pq.items) (job ∷ before)
      → Filled (jobs pq.items) new pq'
      → Filled before (job ∷ new) pq'
  more job before new pq pq' p f = record {
    valid = f.valid;
    same_jobs =
        Perm.trans f.same_jobs (Perm.trans (Perm.append_left new p) (perm_middle new before));
  }

  push_all-Filled :
      (new : List (WarmupJob D)) (pq : PriorityQueue D)
      → IsValid heap Ordered pq
      → (pq' : PriorityQueue D) × (push_all heap new pq ≡ some pq') × Filled (jobs pq.items) new pq'
  unfolding push_all
  push_all-Filled [] pq v = (pq, refl, record { valid = v; same_jobs = Perm.rfl })
  push_all-Filled (job ∷ new) pq v =
      let (one, e, w, p) = push-IsValid heap Ordered laws pq job v in
      let (all, f, filled) = push_all-Filled new one w in
      (all, rw (push_all, e) f, more job (jobs pq.items) new one all p filled)

  schedule_jobs-Filled :
      {W : Type 0} (new : List (WarmupJob D)) (js : JobScheduler W D)
      → IsValid heap Ordered js.queue
      → (pq : PriorityQueue D) × (schedule_jobs heap new js ≡ some (record js { queue = pq }))
        × Filled (jobs js.queue.items) new pq
  unfolding schedule_jobs schedule_job with_queue
  schedule_jobs-Filled [] js v = (js.queue, refl, record { valid = v; same_jobs = Perm.rfl })
  schedule_jobs-Filled (job ∷ new) js v =
      let (one, e, w, p) = push-IsValid heap Ordered laws js.queue job v in
      let (all, f, filled) = schedule_jobs-Filled new (record js { queue = one }) w in
      (
        all,
        rw (schedule_jobs, schedule_job, e) f,
        more job (jobs js.queue.items) new one all p filled,
      )

module _ {W D : Type 0} where
  with_trigger-queue :
      (health : Option (W → Bool)) (strategy : WarmupStrategy W D) (js : JobScheduler W D)
      → (with_trigger health strategy js).queue ≡ js.queue
  unfolding with_trigger add_interval_trigger
  with_trigger-queue health strategy js =
      both_branches (λ (x : JobScheduler W D). x.queue ≡ js.queue)
        (ltb_ℤ (pos 0) strategy.warmup_interval) (λ f. refl) (λ f. refl)

  start-queue : (js : JobScheduler W D) (now : Time) → (Scheduler.start js now).queue ≡ js.queue
  unfolding Scheduler.start
  start-queue js now =
      both_branches (λ (x : JobScheduler W D). x.queue ≡ js.queue) js.running (λ f. refl)
        (λ f. refl)

  start-running : (js : JobScheduler W D) (now : Time) → (Scheduler.start js now).running ≡ true
  unfolding Scheduler.start
  start-running js now =
      both_branches (λ (x : JobScheduler W D). x.running ≡ true) js.running (λ f. f) (λ f. refl)

pool_starts :
    {W S D : Type 0} (b : Bool) (workers : ℤ) (cache : S) (cw : CacheWarmer W S D)
    → (wp : Option (WorkerPool S D)) × (with_pool_started
          (if b then some (new_worker_pool workers cache) else none)
          cw
        ≡ some (record cw { worker_pool = wp }))
unfolding with_pool_started pool_started Pool.start new_worker_pool
pool_starts true workers cache cw = (_, refl)
pool_starts false workers cache cw = (cw.worker_pool, refl)

module _ {W D : Type 0} (heap : HeapPackage) (Ordered : List ℤ → Type 0)
    (laws : HeapLaws heap Ordered) where
  new_scheduler :
      (health : Option (W → Bool)) (strategy : WarmupStrategy W D)
      → (js : JobScheduler W D) × (first_scheduler heap health strategy true ≡ some (some js))
        × IsValid heap Ordered js.queue
        × (js.queue.items ≡ [])
  unfolding first_scheduler new_job_scheduler
  new_scheduler health strategy =
      let (pq, e, v, f) = new-IsValid {D = D} heap Ordered laws in
      let js : JobScheduler W D = record {
        queue = pq;
        triggers = [];
        running = false;
        cancelled = false;
        loops = 0;
        last_run = zero_time;
        run_count = pos 0;
      } in
      let q = with_trigger-queue health strategy js in
      (
        with_trigger health strategy js,
        rw (first_scheduler, new_job_scheduler, e) refl,
        subst (IsValid heap Ordered) (sym q) v,
        ap (λ (x : PriorityQueue D). x.items) q ∙ f,
      )

module _ {D : Type 0} (heap : HeapPackage) (Ordered : List ℤ → Type 0)
    (laws : HeapLaws heap Ordered) where
  new_queue :
      (new : List (WarmupJob D))
      → (pq : PriorityQueue D) × (first_queue heap new ≡ some pq) × Perm (jobs pq.items) new
  unfolding first_queue
  new_queue new =
      let (none_yet, e, v, f) = new-IsValid {D = D} heap Ordered laws in
      let (pq, g, filled) = push_all-Filled heap Ordered laws new none_yet v in
      (
        pq,
        rw (first_queue, e) g,
        subst (λ js. Perm (jobs pq.items) js) (append-nil new)
            (subst (λ items. Perm (jobs pq.items) (new ++ jobs items)) f filled.same_jobs),
      )

module _ {W S D : Type 0} (heap : HeapPackage) where
  -- A new warmer and what `Start` makes of it.
  pub record HandedOver (health : Option (W → Bool)) (cache : S) (strategy : WarmupStrategy W D)
      (now : Time) : Type 0 where
    pub fresh : CacheWarmer W S D
    pub started : CacheWarmer W S D
    pub scheduler : JobScheduler W D
    pub found : new_cache_warmer heap health cache (some strategy) ≡ some fresh
    pub begun : start heap fresh now ≡ some started
    pub scheduled : started.scheduler ≡ some scheduler
    pub runs : scheduler.running ≡ true
    pub waiting : Perm (jobs scheduler.queue.items) strategy.jobs
    pub kept : Perm (get_jobs started.priority_queue) strategy.jobs

module _ {W S D : Type 0} (heap : HeapPackage) (Ordered : List ℤ → Type 0)
    (laws : HeapLaws heap Ordered) where
  -- A new warmer that uses a scheduler, once started: the scheduler runs and all jobs of the strategy wait
  -- in its queue, each once, while the warmer keeps them in its own queue as well.
  pub start-HandedOver :
      (health : Option (W → Bool)) (cache : S) (strategy : WarmupStrategy W D) (now : Time)
      → strategy.use_scheduler ≡ true
      → HandedOver heap health cache strategy now
  unfolding new_cache_warmer strategy_of warmer_of start begun started_with handed get_jobs
  start-HandedOver health cache strategy now u =
      let (js, e, v, f) = new_scheduler heap Ordered laws health strategy in
      let (pq, g, p) = new_queue heap Ordered laws strategy.jobs in
      let fresh : CacheWarmer W S D = record {
        cache = cache;
        strategy = strategy;
        running = false;
        stop_closed = false;
        worker_pool =
            if strategy.use_worker_pool
            then some (new_worker_pool strategy.concurrent_jobs cache)
            else none;
        scheduler = some js;
        priority_queue = pq;
        warm_ups = 0;
        tickers = 0;
      } in
      let (wp, k) =
        pool_starts strategy.use_worker_pool strategy.concurrent_jobs cache
          (record fresh { running = true }) in
      let q = start-queue js now in
      let (last, l, filled) =
        schedule_jobs-Filled heap Ordered laws (get_jobs pq) (Scheduler.start js now)
          (subst (IsValid heap Ordered) (sym q) v) in
      let with_pool : CacheWarmer W S D = record fresh { running = true; worker_pool = wp } in
      record {
        fresh = fresh;
        started = record fresh {
          running = true;
          worker_pool = wp;
          scheduler = some (record (Scheduler.start js now) { queue = last });
        };
        scheduler = record (Scheduler.start js now) { queue = last };
        found =
            ap
              (λ b.
                warmer_of heap cache strategy (first_scheduler heap health strategy b)
                  (first_queue heap strategy.jobs))
              u
            ∙ ap (λ o. warmer_of heap cache strategy o (first_queue heap strategy.jobs)) e
            ∙ ap (λ o. warmer_of heap cache strategy (some (some js)) o) g;
        begun =
            ap (λ o. begun heap o now) k
            ∙ ap
                (λ b.
                  if b
                  then handed with_pool (schedule_jobs heap (get_jobs pq) (Scheduler.start js now))
                  else some
                      (warming_up (record with_pool { scheduler = some (Scheduler.start js now) })))
                u
            ∙ ap (handed with_pool) l;
        scheduled = refl;
        runs = start-running js now;
        waiting =
            Perm.trans
              (subst (λ new. Perm (jobs last.items) new) (append-nil (get_jobs pq))
                (subst (λ items. Perm (jobs last.items) (get_jobs pq ++ jobs items))
                  (ap (λ (x : PriorityQueue D). x.items) q ∙ f) filled.same_jobs))
              p;
        kept = p;
      }
