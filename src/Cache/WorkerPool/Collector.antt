-- ===== src/Cache/WorkerPool/Collector.antt =====
-- The collectors of results of backend/internal/cache/worker_pool.go.
use task_management_api.Shared.{
  ℕ, suc, ◌-◌, Bool, Option, none, some, List, [], ◌∷◌, ◌==◌, Bytes, if◌then◌else◌,
}
use task_management_api.Shared.Int.{ℤ, inc, add_int64}
use task_management_api.Cache.WorkerPool.Channels.{
  receive_ready, Chosen, by_channel, by_done, by_default, choose,
}
use task_management_api.Cache.WorkerPool.{
  WorkerPool, JobResult, Outcome, moved, blocked, quiet, take_out,
}

unfoldable pub count_error : Option Bytes → ℤ → ℤ
unfolding inc
count_error none n = n
count_error (some e) n = inc n

module _ {S D : Type 0} where
  unfoldable pub collector_received : List (JobResult D) → WorkerPool S D → Outcome S D
  collector_received [] wp = moved (record wp { waiting = wp.waiting - 1 }) quiet
  collector_received (result ∷ rest) wp =
      moved
        (record wp {
          waiting = wp.waiting - 1;
          holding = result ∷ wp.holding;
          result_ch = record wp.result_ch { buffer = rest };
        })
        quiet

  unfoldable pub collector_chosen : Chosen → WorkerPool S D → Outcome S D
  unfolding collector_received
  collector_chosen by_channel wp = collector_received wp.result_ch.buffer wp
  collector_chosen by_done wp = moved (record wp { waiting = wp.waiting - 1 }) quiet
  collector_chosen by_default wp = blocked

  -- A collector at its `select`, and one at the mutex.
  unfoldable pub result_collector : (done_first : Bool) → WorkerPool S D → Outcome S D
  unfolding choose receive_ready collector_chosen
  result_collector done_first wp =
      if wp.waiting == 0
      then blocked
      else collector_chosen (choose done_first (receive_ready wp.result_ch) wp.cancelled) wp

  unfoldable pub collect : ℕ → WorkerPool S D → Outcome S D
  unfolding take_out inc add_int64 count_error
  collect i wp = if wp.stopping then blocked else elim (take_out i wp.holding) [
    | none ↦ blocked
    | some (result, rest) ↦
        moved
          (record wp {
            holding = rest;
            waiting = suc wp.waiting;
            jobs_processed = inc wp.jobs_processed;
            total_duration = add_int64 wp.total_duration result.duration;
            errors = count_error result.error wp.errors;
          })
          quiet
  ]
