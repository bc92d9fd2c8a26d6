-- ===== src/Worker.antt =====
-- backend/internal/worker/worker.go: jobs that wait in Redis, their handlers and retries. The Redis
-- client and encoding/json are parameters, over any state `S` of the world and payloads `P`.
pub mod Retries
mod Tests
use task_management_api.Shared.{
  ℕ, ◌^◌, Bool, Option, none, some, List, [], ◌∷◌, ◌++◌, Bytes, bytes, bytes_eq, if◌then◌else◌,
}
use task_management_api.Shared.Int.{
  ℤ, pos, negsuc, Time, inc, ltb_ℤ, after, ◌+ℤ◌, wrap_int64, mul_int64,
}
use task_management_api.Cache.Values.{Marshalled, encoded, marshal_error}

pub record Job (P : Type 0) : Type 0 where
  pub id : Bytes
  pub job_type : Bytes
  pub payload : P
  pub attempts : ℤ
  pub max_tries : ℤ
  pub created_at : Time
  pub process_at : Time

-- A handler may change the job it is given.
abbrev pub JobHandler : Type 0 → Type 0 → Type 0
JobHandler S P = S → Job P → S × Job P × Option Bytes

-- `BLPop`: nothing in time, an error, or the queue and the value.
pub data Popped : Type 0 where
  nothing : Popped
  pop_error : Bytes → Popped
  values : List Bytes → Popped

pub record Client (S P : Type 0) : Type 0 where
  pub bl_pop : S → List Bytes → S × Popped
  pub r_push : S → (queue job_data : Bytes) → S × Option Bytes
  pub marshal_job : Job P → Marshalled Bytes
  pub unmarshal_job : Bytes → Job P × Option Bytes
  pub marshal_dead_job :
      (original_job : Job P) → (error : Bytes) → (failed_at : Time) → Marshalled Bytes

pub record Worker (S P : Type 0) : Type 0 where
  pub client : Client S P
  pub handlers : Bytes → Option (JobHandler S P)
  pub queues : List Bytes

-- A return with an error or `nil`, or the panic of a negative shift.
pub data Done (S : Type 0) : Type 0 where
  returned : S → Option Bytes → Done S
  panicked : Done S

abbrev pub done : {S : Type 0} → S × Option Bytes → Done S
done (s, err) = returned s err

-- `time.Duration(1<<n) * time.Minute`
unfoldable pub retry_delay : ℕ → ℤ
unfolding wrap_int64 mul_int64
retry_delay n = mul_int64 (wrap_int64 (pos (2 ^ n))) (pos 60_000_000_000)

abbrev pub delayed : {P : Type 0} → Job P → Time → ℕ → Job P
delayed job now n = record job { process_at = now +ℤ retry_delay n }

abbrev pub counted : {P : Type 0} → Job P → Job P
counted job = record job { attempts = inc job.attempts }

module _ {S P : Type 0} where
  unfoldable pub register_handler : Worker S P → Bytes → JobHandler S P → Worker S P
  unfolding bytes_eq
  register_handler w job_type handler = record w {
    handlers = λ t. if bytes_eq t job_type then some handler else w.handlers t;
  }

  unfoldable pub enqueue_job : Client S P → S → Bytes → Job P → S × Option Bytes
  enqueue_job client s queue job = elim (client.marshal_job job) [
    | marshal_error e ↦ (s, some (bytes "failed to marshal job: " ++ e))
    | encoded job_data ↦ client.r_push s queue job_data
  ]

  unfoldable pub requeue_job : Client S P → S → Bytes → Job P → S × Option Bytes
  unfolding enqueue_job
  requeue_job client s queue job = enqueue_job client s queue job

  unfoldable pub move_to_dead_queue : Client S P → S → Job P → Bytes → Time → S × Option Bytes
  move_to_dead_queue client s job e now = elim (client.marshal_dead_job job e now) [
    | marshal_error x ↦ (s, some (bytes "failed to marshal dead job: " ++ x))
    | encoded job_data ↦ client.r_push s (bytes "dead_queue") job_data
  ]

  unfoldable pub retry_job : Client S P → S → Job P → Time → Done S
  unfolding retry_delay enqueue_job ◌+ℤ◌
  retry_job client s job now = elim job.attempts [
    | negsuc _ ↦ panicked
    | pos n ↦ done (enqueue_job client s (bytes "retry_queue") (delayed job now n))
  ]

  -- What follows the handler; the clock is read when a failed job is sent on.
  unfoldable pub after_handler : Worker S P → Time → S × Job P × Option Bytes → Done S
  unfolding inc retry_job move_to_dead_queue
  after_handler w now (s, job, none) = returned s none
  after_handler w now (s, job, some e) =
      if ltb_ℤ (counted job).attempts (counted job).max_tries
      then retry_job w.client s (counted job) now
      else done (move_to_dead_queue w.client s (counted job) e now)

  unfoldable pub execute_job : Worker S P → S → Job P → Time → Done S
  unfolding after_handler
  execute_job w s job now = elim (w.handlers job.job_type) [
    | none ↦ returned s (some (bytes "no handler registered for job type: " ++ job.job_type))
    | some handler ↦ after_handler w now (handler s job)
  ]

  unfoldable pub process_job :
      Worker S P → S → (queue job_data : Bytes) → (now failed : Time) → Done S
  unfolding execute_job requeue_job
  process_job w s queue job_data now failed =
      let (job, err) = w.client.unmarshal_job job_data in
      elim err [
        | some e ↦ returned s (some (bytes "failed to unmarshal job: " ++ e))
        | none ↦
            if ltb_ℤ now job.process_at
            then done (requeue_job w.client s queue job)
            else execute_job w s job failed
      ]

  unfoldable pub process_next_job : Worker S P → S → (now failed : Time) → Done S
  unfolding process_job
  process_next_job w s now failed =
      let (s', popped) = w.client.bl_pop s w.queues in
      elim popped [
        | nothing ↦ returned s' none
        | pop_error e ↦ returned s' (some (bytes "failed to pop job: " ++ e))
        | values vs ↦ elim vs [
          | [] ↦ returned s' (some (bytes "invalid job result"))
          | queue ∷ rest ↦ elim rest [
            | [] ↦ returned s' (some (bytes "invalid job result"))
            | job_data ∷ _ ↦ process_job w s' queue job_data now failed
          ]
        ]
      ]

  -- `EnqueueAt` of the job queue; `id` is the clock as a decimal.
  unfoldable pub enqueue_at :
      Client S P
      → S
      → (queue id job_type : Bytes) → P
      → (created_at process_at : Time) → S × Option Bytes
  unfolding enqueue_job
  enqueue_at client s queue id job_type payload created_at process_at =
      enqueue_job client s queue (record {
        id = id;
        job_type = job_type;
        payload = payload;
        attempts = pos 0;
        max_tries = pos 3;
        created_at = created_at;
        process_at = process_at;
      })
