-- ===== src/Cache/Triggers.antt =====
-- The triggers of backend/internal/cache/job_scheduler.go: when one is due. The map of triggers is an
-- association list, in the order in which a loop meets it, and `W` is what their conditions read.
use task_management_api.Shared.{
  Bool, true, false, Option, none, some, List, [], ◌∷◌, ◌&&◌, Bytes, bytes, bytes_eq, if◌then◌else◌,
}
use task_management_api.Shared.Int.{ℤ, pos, Time, sub_time, ltb_ℤ, leb_ℤ}

pub record ScheduleTrigger (W : Type 0) : Type 0 where
  pub kind : Bytes
  pub interval : ℤ
  pub condition : Option (W → Bool)

module _ {W : Type 0} where
  -- `delete` of a map, and an assignment to it.
  unfoldable pub delete_trigger :
      List (Bytes × ScheduleTrigger W) → Bytes → List (Bytes × ScheduleTrigger W)
  unfolding bytes_eq
  delete_trigger [] name = []
  delete_trigger ((n, t) ∷ rest) name =
      let others = delete_trigger rest name in if bytes_eq n name then others else (n, t) ∷ others

  unfoldable pub put_trigger :
      List (Bytes × ScheduleTrigger W)
      → Bytes
      → ScheduleTrigger W
      → List (Bytes × ScheduleTrigger W)
  unfolding delete_trigger
  put_trigger triggers name trigger = (name, trigger) ∷ delete_trigger triggers name

  -- The body of the loop of `checkTriggers`.
  unfoldable pub interval_due : ScheduleTrigger W → W → (now last_run : Time) → Bool
  unfolding sub_time
  interval_due trigger w now last_run =
      (ltb_ℤ (pos 0) trigger.interval && leb_ℤ trigger.interval (sub_time now last_run))
      && elim trigger.condition [ none ↦ true | some condition ↦ condition w ]

  unfoldable pub event_due : ScheduleTrigger W → W → Bool
  event_due trigger w = elim trigger.condition [ none ↦ false | some condition ↦ condition w ]

  unfoldable pub is_due : ScheduleTrigger W → W → (now last_run : Time) → Bool
  unfolding bytes_eq interval_due event_due
  is_due trigger w now last_run =
      if bytes_eq trigger.kind (bytes "interval")
      then interval_due trigger w now last_run
      else if bytes_eq trigger.kind (bytes "event")
      then event_due trigger w
      else false

  -- The loop over the triggers: a `break` leaves the `switch` alone, so that it goes on, and the last
  -- trigger that is due leaves its name.
  unfoldable pub due_name :
      List (Bytes × ScheduleTrigger W) → W → (now last_run : Time) → Option Bytes → Option Bytes
  unfolding is_due
  due_name [] w now last_run found = found
  due_name ((name, trigger) ∷ rest) w now last_run found =
      due_name rest w now last_run (if is_due trigger w now last_run then some name else found)
