-- ===== src/Worker/Retries.antt =====
-- Where worker.go sends a job whose handler fails.
use task_management_api.Shared.{
  ℕ, zero, suc, ◌+◌, ◌-◌, ◌*◌, ◌^◌, ◌≤◌, ◌<◌, ◌≡◌, refl, ◌⊎◌, inl, inr, ap, sym, ◌∙◌, some, Bytes,
  bytes, arith, subst, both_branches, if◌then◌else◌,
}
use task_management_api.Shared.Int.{
  ℤ, pos, ◌<ℤ◌, ◌≤ℤ◌, ◌+ℤ◌, Time, inc, ltb_ℤ, max_int64, mul_int64, wrap_small, mul_int64-exact,
}
use native.Mathlib.Numerals.{unary_clauses}
use task_management_api.Cache.Values.{Marshalled, encoded, marshal_error}
use task_management_api.Worker.{
  Job, JobHandler, Client, Worker, Done, done, returned, counted, delayed, retry_delay, enqueue_job,
  retry_job, move_to_dead_queue, execute_job, after_handler,
}

power-double : (n k : ℕ) → 2 ^ n ≤ 2 ^ (n + k)
power-double n zero = let h : 2 ^ n ≤ 2 ^ n = omega arith in simp unary_clauses h
power-double n (suc k) =
    let h = power-double n k in
    let g : 2 ^ n ≤ 2 ^ (n + k) * 2 = omega (arith, h) in simp unary_clauses g

power-small : (n k : ℕ) → n + k ≡ 27 → 2 ^ n ≤ 134_217_728
power-small n k e = let h = power-double n k in rw e at h

retry_delay-exact : (n k : ℕ) → n + k ≡ 27 → retry_delay n ≡ pos (2 ^ n * 60_000_000_000)
unfolding retry_delay
retry_delay-exact n k e =
    let h = power-small n k e in
    ap (λ (z : ℤ). mul_int64 z (pos 60_000_000_000)) (wrap_small (2 ^ n) (omega (arith, h)))
    ∙ mul_int64-exact (2 ^ n) 60_000_000_000 (omega (arith, h))

module _ {S P : Type 0} (client : Client S P) (s : S) (queue : Bytes) where
  -- What `json.Marshal` gave is pushed to the queue, and the push decides what is returned; or it
  -- failed, nothing is changed, and an error is returned.
  abbrev pub Pushed : Marshalled Bytes → Done S → Type 0
  Pushed (encoded text) r = r ≡ done (client.r_push s queue text)
  Pushed (marshal_error x) r = (err : Bytes) × (r ≡ returned s (some err))

  enqueue_job-Pushed :
      (job : Job P) (m : Marshalled Bytes)
      → client.marshal_job job ≡ m
      → Pushed m (done (enqueue_job client s queue job))
  unfolding enqueue_job
  enqueue_job-Pushed job (encoded text) e = rw (enqueue_job, e) refl
  enqueue_job-Pushed job (marshal_error x) e = rw (enqueue_job, e) (_, refl)

module _ {S P : Type 0} (client : Client S P) (s : S) where
  move_to_dead_queue-Pushed :
      (job : Job P) (e : Bytes) (now : Time) (m : Marshalled Bytes)
      → client.marshal_dead_job job e now ≡ m
      → Pushed client s (bytes "dead_queue") m (done (move_to_dead_queue client s job e now))
  unfolding move_to_dead_queue
  move_to_dead_queue-Pushed job e now (encoded text) h = rw (move_to_dead_queue, h) refl
  move_to_dead_queue-Pushed job e now (marshal_error x) h = rw (move_to_dead_queue, h) (_, refl)

module _ {S P : Type 0} (w : Worker S P) where
  counted-attempts :
      (job : Job P) (a : ℕ)
      → job.attempts ≡ pos a
      → a < max_int64
      → counted job ≡ record job { attempts = pos (suc a) }
  unfolding inc
  counted-attempts job a at h = ap (λ (z : ℤ). record job { attempts = z }) (ground (arith, at, h))

  retried :
      (s : S) (job : Job P) (e : Bytes) (a : ℕ) (now : Time)
      → job.attempts ≡ pos (suc a)
      → retry_job w.client s job now
        ≡ done (enqueue_job w.client s (bytes "retry_queue") (delayed job now (suc a)))
  unfolding retry_job
  retried s job e a now at = ground arith

  -- A job below its last attempt, tried again after two to the power of its attempts minutes; and one
  -- that was tried for the last time.
  abbrev pub SentOn : S → Job P → (e : Bytes) → (attempts : ℕ) → Time → Done S → Type 0
  SentOn s job e attempts now r =
      ((pos attempts <ℤ job.max_tries)
        × Pushed w.client s (bytes "retry_queue")
            (w.client.marshal_job (record {
              id = job.id;
              job_type = job.job_type;
              payload = job.payload;
              attempts = pos attempts;
              max_tries = job.max_tries;
              created_at = job.created_at;
              process_at = now +ℤ pos (2 ^ attempts * 60_000_000_000);
            }))
            r)
      ⊎ ((job.max_tries ≤ℤ pos attempts)
          × Pushed w.client s (bytes "dead_queue")
              (w.client.marshal_dead_job (record job { attempts = pos attempts }) e now) r)

  after_handler-SentOn :
      (s : S) (job : Job P) (e : Bytes) (a k : ℕ) (now : Time)
      → job.attempts ≡ pos a
      → suc a + k ≡ 27
      → SentOn s job e (suc a) now (after_handler w now (s, job, some e))
  unfolding after_handler
  after_handler-SentOn s job e a k now at h =
      let last : Job P = record job { attempts = pos (suc a) } in
      let d =
        retried s last e a now refl
        ∙ ap
            (λ (z : ℤ). done (
              enqueue_job w.client s (bytes "retry_queue") (record last { process_at = now +ℤ z })))
            (retry_delay-exact (suc a) k h) in
      subst (SentOn s job e (suc a) now)
        (sym (
          ap
            (λ (x : Job P).
              if ltb_ℤ x.attempts x.max_tries
              then retry_job w.client s x now
              else done (move_to_dead_queue w.client s x e now))
            (counted-attempts job a at (omega (arith, h)))))
        (both_branches (SentOn s job e (suc a) now) (ltb_ℤ (pos (suc a)) job.max_tries)
          (λ b. inl (
            ground (arith, b),
            subst (Pushed w.client s (bytes "retry_queue") _) (sym d)
                (enqueue_job-Pushed w.client s (bytes "retry_queue") _ _ refl),
          ))
          (λ b. inr (ground (arith, b), move_to_dead_queue-Pushed w.client s last e now _ refl)))

  -- A job whose handler fails, after at most 26 earlier attempts: while its attempts, with this one,
  -- are fewer than its tries it is pushed to the retry queue, with one attempt more and to be processed
  -- two to the power of its attempts minutes later, and else it is pushed to the dead queue, with the
  -- error; nothing is pushed exactly where it cannot be encoded, which is an error.
  pub execute_job-SentOn :
      (handler : JobHandler S P) (s s' : S) (given job : Job P) (e : Bytes) (a : ℕ) (now : Time)
      → w.handlers given.job_type ≡ some handler
      → handler s given ≡ (s', job, some e)
      → job.attempts ≡ pos a
      → a ≤ 26
      → SentOn s' job e (suc a) now (execute_job w s given now)
  unfolding execute_job
  execute_job-SentOn handler s s' given job e a now h fails at b =
      rw (execute_job, h, fails)
        (after_handler-SentOn s' job e a (26 - a) now at (omega (arith, b)))
