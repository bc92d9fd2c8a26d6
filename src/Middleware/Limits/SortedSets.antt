-- ===== src/Middleware/Limits/SortedSets.antt =====
-- The sorted sets of Redis that `DistributedRateLimiter` in rate_limiter.go relies on.
use task_management_api.Shared.{
  ℕ, suc, ◌*◌, ◌≡◌, Bool, true, false, List, [], ◌∷◌, length, filter, Bytes, bytes_eq,
}
use task_management_api.Shared.Int.{ℤ, pos, ◌≤ℤ◌}
use task_management_api.Services.Database.{answer}
use task_management_api.Middleware.Limits.Times.{Before}
use task_management_api.Middleware.Limits.{Command, zrem_range_by_score, zcard, zadd, expire, Exec}

-- Sorted sets of Redis, one command at a time. `members` are those of a set, from the last one that was
-- added. A command runs at the time that the request has read, so that a set which expires only hides
-- members that the next removal takes. `later` compares the float64 of two integers, and no score is
-- negative.
pub record SortedSets {S : Type 0} (exec : Exec S) : Type 0 where
  pub run : S → Command → S × ℤ
  pub members : S → Bytes → List ℤ
  pub later : ℤ → ℤ → Bool

module _ {S : Type 0} {exec : Exec S} (sets : SortedSets exec) where
  unfoldable pub run_all : S → List Command → S × List ℤ
  run_all s [] = (s, [])
  run_all s (c ∷ cs) =
      let (s', reply) = sets.run s c in
      let (last, replies) = run_all s' cs in (last, reply ∷ replies)

  -- What Redis documents: a pipeline that is answered is its commands in order; a removal by score
  -- takes the members up to a bound, here of members whose score they are; a count is that of the
  -- members; an addition adds what is not there yet; a set is to expire after whole seconds, to which
  -- go-redis cuts a window that is none; and no command touches another set.
  pub record SetLaws : Type 0 where
    pub answers :
        (s : S) (cs : List Command) → exec s cs ≡ ((run_all s cs).0, answer ((run_all s cs).1))
    pub removes :
        (s : S) (key : Bytes) (max : ℤ)
        → sets.members ((sets.run s (zrem_range_by_score key (pos 0) max)).0) key
          ≡ filter (λ m. sets.later m max) (sets.members s key)
    pub counts :
        (s : S) (key : Bytes) → (sets.run s (zcard key)).1 ≡ pos (length (sets.members s key))
    pub keeps_on_count :
        (s : S) (key k : Bytes) → sets.members ((sets.run s (zcard key)).0) k ≡ sets.members s k
    pub adds :
        (s : S) (key : Bytes) (now : ℤ)
        → Before now (sets.members s key)
        → sets.members ((sets.run s (zadd key now now)).0) key ≡ now ∷ sets.members s key
    pub keeps_on_expire :
        (s : S) (key k : Bytes) (window : ℤ) (seconds : ℕ)
        → window ≡ pos (suc seconds * 1_000_000_000)
        → sets.members ((sets.run s (expire key window)).0) k ≡ sets.members s k
    pub removes_alone :
        (s : S) (key k : Bytes) (max : ℤ)
        → bytes_eq key k ≡ false
        → sets.members ((sets.run s (zrem_range_by_score key (pos 0) max)).0) k ≡ sets.members s k
    pub adds_alone :
        (s : S) (key k : Bytes) (now : ℤ)
        → bytes_eq key k ≡ false
        → sets.members ((sets.run s (zadd key now now)).0) k ≡ sets.members s k
    pub later_falls : (m a b : ℤ) → a ≤ℤ b → sets.later m b ≡ true → sets.later m a ≡ true
