-- ===== src/Worker/Tests.antt =====
-- A worker whose only handler always fails, over a world that is the list of the queues pushed to.
use task_management_api.Shared.{◌≡◌, refl, arith, none, some, List, [], ◌∷◌, Bytes, bytes}
use task_management_api.Shared.Int.{pos, inc}
use task_management_api.Cache.Values.{encoded}
use task_management_api.Worker.{Job, JobHandler, Client, Worker, nothing, returned, execute_job}
use task_management_api.Worker.Retries.{SentOn, execute_job-SentOn}

abbrev client : Client (List Bytes) Bytes
client = record {
  bl_pop = λ s queues. (s, nothing);
  r_push = λ s queue job_data. (queue ∷ s, none);
  marshal_job = λ job. encoded job.id;
  unmarshal_job = λ job_data. (
    record {
      id = job_data;
      job_type = bytes "cleanup";
      payload = [];
      attempts = pos 0;
      max_tries = pos 3;
      created_at = pos 0;
      process_at = pos 0;
    },
    none,
  );
  marshal_dead_job = λ job error failed_at. encoded job.id;
}

abbrev fails : JobHandler (List Bytes) Bytes
fails s job = (s, job, some (bytes "no"))

abbrev worker : Worker (List Bytes) Bytes
worker = record {
  client = client;
  handlers = λ job_type. some fails;
  queues = bytes "jobs" ∷ bytes "retry_queue" ∷ [];
}

abbrev cleanup : Job Bytes
cleanup = (client.unmarshal_job (bytes "7")).0

first_failure : execute_job worker [] cleanup (pos 5) ≡ returned (bytes "retry_queue" ∷ []) none
unfolding execute_job inc
first_failure = refl

execute_job-SentOn_example :
    SentOn worker [] cleanup (bytes "no") 1 (pos 5) (execute_job worker [] cleanup (pos 5))
execute_job-SentOn_example =
    execute_job-SentOn worker fails [] [] cleanup cleanup (bytes "no") 0 (pos 5) refl refl refl
      (omega arith)
