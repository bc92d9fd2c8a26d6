-- ===== src/Cache/Scheduler/Triggers.antt =====
-- When `checkTriggers` of job_scheduler.go runs the jobs.
use task_management_api.Shared.{
  ◌≡◌, ◌≢◌, ◌↔◌, refl, sym, ◌∙◌, ◌⊎◌, inl, inr, Bool, true, false, Bool-cases, false_of_not, Option,
  none, some, List, [], ◌∷◌, Bytes, bytes, bytes_eq, bytes_eq_iff, arith,
}
use task_management_api.Shared.Int.{pos, ◌<ℤ◌, ◌≤ℤ◌, Time, sub_time}
use task_management_api.Cache.Triggers.{ScheduleTrigger, interval_due, event_due, is_due, due_name}
use task_management_api.Cache.PriorityQueue.{HeapPackage}
use task_management_api.Cache.WorkerPool.{WorkerPool}
use task_management_api.Cache.Scheduler.{JobScheduler, Coin, process_scheduled_jobs, check_triggers}

module _ {W : Type 0} (w : W) (now last_run : Time) where
  -- There is no condition, or it holds; and there is one that holds.
  abbrev pub Unhindered : Option (W → Bool) → Type 0
  Unhindered none = Unit {0}
  Unhindered (some condition) = condition w ≡ true

  abbrev pub Signalled : Option (W → Bool) → Type 0
  Signalled none = ⊥
  Signalled (some condition) = condition w ≡ true

  -- An interval trigger whose positive interval has passed since the last run and that no condition
  -- hinders, or an event trigger whose condition holds.
  abbrev pub Due : ScheduleTrigger W → Type 0
  Due t =
      ((t.kind ≡ bytes "interval")
        × (pos 0 <ℤ t.interval)
        × (t.interval ≤ℤ sub_time now last_run)
        × Unhindered t.condition)
      ⊎ ((t.kind ≡ bytes "event") × Signalled t.condition)

  interval_due_iff :
      (t : ScheduleTrigger W) (condition : Option (W → Bool))
      → t.condition ≡ condition
      → (interval_due t w now last_run ≡ true)
        ↔ ((pos 0 <ℤ t.interval) × (t.interval ≤ℤ sub_time now last_run) × Unhindered condition)
  unfolding interval_due
  interval_due_iff t none e = ground (arith, e)
  interval_due_iff t (some condition) e = ground (arith, e)

  event_due_iff :
      (t : ScheduleTrigger W) (condition : Option (W → Bool))
      → t.condition ≡ condition
      → (event_due t w ≡ true) ↔ Signalled condition
  unfolding event_due
  event_due_iff t none e = ground (arith, e)
  event_due_iff t (some condition) e = ground (arith, e)

  is_due_iff : (t : ScheduleTrigger W) → (is_due t w now last_run ≡ true) ↔ Due t
  unfolding is_due
  is_due_iff t =
      let a = bytes_eq_iff t.kind (bytes "interval") in
      let b = bytes_eq_iff t.kind (bytes "event") in
      let c = interval_due_iff t t.condition refl in
      let d = event_due_iff t t.condition refl in
      let other : bytes "interval" ≢ bytes "event" = λ e. ground (arith, e) in
      elim (Bool-cases (bytes_eq t.kind (bytes "interval"))) [
        | inl e ↦
            let k : t.kind ≡ bytes "interval" = a.0 e in
            (
              λ h. let i = c.0 (ground (arith, h, e)) in inl (k, i.0, i.1, i.2),
              λ x. elim x [
                | inl (_, i, j, l) ↦ ground (arith, e, c.1 (i, j, l))
                | inr (k', _) ↦ absurd (other (sym k ∙ k'))
              ],
            )
        | inr e ↦ (
          λ h. inr (ground (arith, h, e, b), d.0 (ground (arith, h, e))),
          λ x. elim x [
            | inl (k, _, _, _) ↦ absurd (ground (arith, e, a.1 k))
            | inr (k, i) ↦ ground (arith, e, b.1 k, d.1 i)
          ],
        )
      ]

  -- Some trigger is due, or none is.
  abbrev pub SomeDue : List (Bytes × ScheduleTrigger W) → Type 0
  SomeDue [] = ⊥
  SomeDue (t ∷ ts) = Due t.1 ⊎ SomeDue ts

  abbrev pub NoneDue : List (Bytes × ScheduleTrigger W) → Type 0
  NoneDue [] = Unit {0}
  NoneDue (t ∷ ts) = (¬ Due t.1) × NoneDue ts

  due-cases : (ts : List (Bytes × ScheduleTrigger W)) → SomeDue ts ⊎ NoneDue ts
  due-cases [] = inr tt
  due-cases (t ∷ ts) = elim (Bool-cases (is_due t.1 w now last_run)) [
    | inl e ↦ inl (inl ((is_due_iff t.1).0 e))
    | inr e ↦ elim (due-cases ts) [
      | inl h ↦ inl (inr h)
      | inr h ↦ inr (λ d. ground (arith, e, (is_due_iff t.1).1 d), h)
    ]
  ]

  due_name-kept :
      (ts : List (Bytes × ScheduleTrigger W)) (name : Bytes)
      → (found : Bytes) × (due_name ts w now last_run (some name) ≡ some found)
  unfolding due_name
  due_name-kept [] name = (name, refl)
  due_name-kept ((n, t) ∷ ts) name = elim (Bool-cases (is_due t w now last_run)) [
    | inl e ↦ rw (due_name, e) (due_name-kept ts n)
    | inr e ↦ rw (due_name, e) (due_name-kept ts name)
  ]

  due_name-SomeDue :
      (ts : List (Bytes × ScheduleTrigger W))
      → SomeDue ts
      → (found : Bytes) × (due_name ts w now last_run none ≡ some found)
  unfolding due_name
  due_name-SomeDue [] h = absurd h
  due_name-SomeDue ((n, t) ∷ ts) h = elim (Bool-cases (is_due t w now last_run)) [
    | inl e ↦ rw (due_name, e) (due_name-kept ts n)
    | inr e ↦ rw (due_name, e) (due_name-SomeDue ts (rest e h))
  ]
    where
      rest : is_due t w now last_run ≡ false → SomeDue ((n, t) ∷ ts) → SomeDue ts
      rest e (inl f) = absurd (ground (arith, e, (is_due_iff t).1 f))
      rest e (inr f) = f

  due_name-NoneDue :
      (ts : List (Bytes × ScheduleTrigger W)) → NoneDue ts → due_name ts w now last_run none ≡ none
  unfolding due_name
  due_name-NoneDue [] h = refl
  due_name-NoneDue ((n, t) ∷ ts) h =
      rw (due_name, false_of_not (is_due t w now last_run) (λ e. h.0 ((is_due_iff t).0 e)))
        (due_name-NoneDue ts h.1)

module _ {W S D : Type 0} (heap : HeapPackage) where
  -- A tick of the scheduler's clock: a scheduler that runs processes its jobs, once, if any of its
  -- triggers is due, in whatever order the map gives them, and otherwise nothing changes. Due is an
  -- interval trigger whose positive interval has passed since the last run, unless its condition fails,
  -- and an event trigger whose condition is there and holds.
  pub check_triggers-due :
      (coin : Coin) (w : W) (js : JobScheduler W D) (wp : Option (WorkerPool S D)) (now done : Time)
      → ((js.running ≡ true)
          × SomeDue w now js.last_run js.triggers
          × (check_triggers heap coin w js wp now done
              ≡ process_scheduled_jobs heap coin js wp done))
        ⊎ (((js.running ≡ false) ⊎ NoneDue w now js.last_run js.triggers)
            × (check_triggers heap coin w js wp now done ≡ some (js, wp, 0)))
  unfolding check_triggers
  check_triggers-due coin w js wp now done = elim (Bool-cases js.running) [
    | inr e ↦ inr (inl e, ground (arith, e))
    | inl e ↦ elim (due-cases w now js.last_run js.triggers) [
      | inl h ↦
          let (name, f) = due_name-SomeDue w now js.last_run js.triggers h in
          inl (e, h, ground (arith, e, f))
      | inr h ↦ inr (inr h, ground (arith, e, due_name-NoneDue w now js.last_run js.triggers h))
    ]
  ]
