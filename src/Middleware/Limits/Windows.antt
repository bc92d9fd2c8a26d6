-- ===== src/Middleware/Limits/Windows.antt =====
-- The sliding windows of `DistributedRateLimiter` in rate_limiter.go, against a log of all requests.
use task_management_api.Shared.{
  ℕ, suc, ◌*◌, ◌≤◌, ◌<◌, ◌≡◌, refl, ap, ap₂, ◌∙◌, inl, inr, Bool, false, Bool-cases, List, [], ◌∷◌,
  length, filter, Bytes, bytes_eq, bytes_eq_iff, arith, if◌then◌else◌,
}
use task_management_api.Shared.Int.{ℤ, pos, ◌≤ℤ◌, ltb_ℤ, sub_int64, max_int64}
use task_management_api.Services.Database.{Answer, answer}
use task_management_api.Middleware.Limits.{
  zrem_range_by_score, zcard, zadd, expire, Exec, pipeline, RateLimit, check_limit, below_rate,
}
use task_management_api.Middleware.Limits.SortedSets.{SortedSets, SetLaws, run_all}
use task_management_api.Middleware.Limits.Times.{
  Before, Before-filter, Before-weaken, filter-filter, filter-cons, window_start-mono,
}

-- The times of the requests with a key, in a log from the last one.
abbrev pub times : List (Bytes × ℕ) → Bytes → List ℤ
times [] key = []
times ((k, t) ∷ log) key = if bytes_eq k key then pos t ∷ times log key else times log key

-- Each time is after the one before it, in the range of an int64.
abbrev pub Increasing : (last : ℕ) → List (Bytes × ℕ) → Type 0
Increasing last [] = Unit {0}
Increasing last ((k, t) ∷ calls) = (last < t) × (t ≤ max_int64) × Increasing t calls

module _ {S : Type 0} {exec : Exec S} (sets : SortedSets exec) (limit : RateLimit) where
  -- The requests of one run of the server.
  unfoldable pub limit_replies : S → List (Bytes × ℕ) → List (Answer Bool)
  limit_replies s [] = []
  limit_replies s ((key, t) ∷ calls) =
      let (s', reply) = check_limit exec s key limit (pos t) in reply ∷ limit_replies s' calls

  -- What a log of all requests replies: a request passes if fewer than `rate` requests with its key,
  -- let through or not, are later than the start of its window.
  unfoldable pub log_replies : List (Bytes × ℕ) → List (Bytes × ℕ) → List (Answer Bool)
  log_replies log [] = []
  log_replies log ((key, t) ∷ calls) =
      let window_start = sub_int64 (pos t) limit.window in
      let seen = filter (λ m. sets.later m window_start) (times log key) in
      answer (ltb_ℤ (pos (length seen)) limit.rate) ∷ log_replies ((key, t) ∷ log) calls

  module _ (laws : SetLaws sets) where
    -- The state after each command of a check.
    abbrev removed : S → Bytes → ℕ → S
    removed s key t =
        (sets.run s (zrem_range_by_score key (pos 0) (sub_int64 (pos t) limit.window))).0

    abbrev counted : S → Bytes → ℕ → S
    counted s key t = (sets.run (removed s key t) (zcard key)).0

    abbrev added : S → Bytes → ℕ → S
    added s key t = (sets.run (counted s key t) (zadd key (pos t) (pos t))).0

    abbrev checked : S → Bytes → ℕ → S
    checked s key t = (sets.run (added s key t) (expire key limit.window)).0

    check_limit-checked :
        (s : S) (key : Bytes) (t : ℕ)
        → check_limit exec s key limit (pos t) ≡ (
          checked s key t,
          answer (
              ltb_ℤ
                (pos (
                  length (
                    filter
                      (λ m. sets.later m (sub_int64 (pos t) limit.window))
                      (sets.members s key))))
                limit.rate),
        )
    unfolding check_limit pipeline run_all below_rate
    check_limit-checked s key t =
        let window_start = sub_int64 (pos t) limit.window in
        ap (λ (x : S × Answer (List ℤ)). (x.0, below_rate limit x.1))
          (laws.answers s (pipeline key (pos t) window_start limit.window))
        ∙ ap (λ (c : ℤ). (checked s key t, answer (ltb_ℤ c limit.rate)))
            (laws.counts (removed s key t) key
              ∙ ap (λ (ms : List ℤ). pos (length ms)) (laws.removes s key window_start))

    members-key :
        (s : S) (key : Bytes) (t n : ℕ)
        → limit.window ≡ pos (suc n * 1_000_000_000)
        → Before (pos t) (sets.members s key)
        → sets.members (checked s key t) key
          ≡ pos t ∷ filter (λ m. sets.later m (sub_int64 (pos t) limit.window)) (sets.members s key)
    members-key s key t n e b =
        let window_start = sub_int64 (pos t) limit.window in
        let later = λ (m : ℤ). sets.later m window_start in
        let kept : sets.members (counted s key t) key ≡ filter later (sets.members s key) =
          laws.keeps_on_count (removed s key t) key key ∙ laws.removes s key window_start in
        laws.keeps_on_expire (added s key t) key key limit.window n e
        ∙ laws.adds (counted s key t) key (pos t)
            (rw kept (Before-filter (pos t) later (sets.members s key) b))
        ∙ ap (◌∷◌ (pos t)) kept

    members-other :
        (s : S) (key k : Bytes) (t n : ℕ)
        → limit.window ≡ pos (suc n * 1_000_000_000)
        → bytes_eq key k ≡ false
        → sets.members (checked s key t) k ≡ sets.members s k
    members-other s key k t n w e =
        laws.keeps_on_expire (added s key t) key k limit.window n w
        ∙ laws.adds_alone (counted s key t) key k (pos t) e
        ∙ laws.keeps_on_count (removed s key t) key k
        ∙ laws.removes_alone s key k (sub_int64 (pos t) limit.window) e

    -- The sets and the log agree on what is later than any bound from the last window on.
    record Agrees (s : S) (log : List (Bytes × ℕ)) (last : ℕ) : Type 0 where
      same :
          (k : Bytes) (bound : ℤ)
          → sub_int64 (pos last) limit.window ≤ℤ bound
          → filter (λ m. sets.later m bound) (sets.members s k)
            ≡ filter (λ m. sets.later m bound) (times log k)
      old : (k : Bytes) → Before (pos (suc last)) (sets.members s k)

    same-key :
        (s : S) (log : List (Bytes × ℕ)) (last t n : ℕ) (key : Bytes) (bound : ℤ)
        → Agrees s log last
        → limit.window ≡ pos (suc n * 1_000_000_000)
        → suc n * 1_000_000_000 ≤ max_int64
        → t ≤ max_int64
        → last < t
        → sub_int64 (pos t) limit.window ≤ℤ bound
        → filter (λ m. sets.later m bound) (sets.members (checked s key t) key)
          ≡ filter (λ m. sets.later m bound) (pos t ∷ times log key)
    same-key s log last t n key bound a e hw ht lt h =
        let start : sub_int64 (pos last) limit.window ≤ℤ sub_int64 (pos t) limit.window =
          rw e (window_start-mono last t (suc n * 1_000_000_000) (omega arith) ht hw) in
        ap (filter (λ m. sets.later m bound)) (
          members-key s key t n e
            (Before-weaken (pos (suc last)) (pos t) (sets.members s key) (omega arith) (a.old key)))
        ∙ filter-cons (λ m. sets.later m bound) (pos t) _ (times log key)
            (filter-filter (λ m. sets.later m bound)
                (λ m. sets.later m (sub_int64 (pos t) limit.window)) (sets.members s key)
                (λ m l. laws.later_falls m (sub_int64 (pos t) limit.window) bound h l)
              ∙ a.same key bound (omega (arith, start, h)))

    checked-Agrees :
        (s : S) (log : List (Bytes × ℕ)) (last t n : ℕ) (key : Bytes)
        → Agrees s log last
        → limit.window ≡ pos (suc n * 1_000_000_000)
        → suc n * 1_000_000_000 ≤ max_int64
        → t ≤ max_int64
        → last < t
        → Agrees (checked s key t) ((key, t) ∷ log) t
    checked-Agrees s log last t n key a e hw ht lt = record {
      same = λ k bound h. elim (Bool-cases (bytes_eq key k)) [
        | inl same ↦
            let q : key ≡ k = (bytes_eq_iff key k).0 same in
            rw (same, ← q) (same-key s log last t n key bound a e hw ht lt h)
        | inr other ↦
            let start : sub_int64 (pos last) limit.window ≤ℤ sub_int64 (pos t) limit.window =
              rw e (window_start-mono last t (suc n * 1_000_000_000) (omega arith) ht hw) in
            rw (other, members-other s key k t n e other) (a.same k bound (omega (arith, start, h)))
      ];
      old = λ k. elim (Bool-cases (bytes_eq key k)) [
        | inl same ↦
            let q : key ≡ k = (bytes_eq_iff key k).0 same in
            let b : Before (pos t) (sets.members s key) =
              Before-weaken (pos (suc last)) (pos t) (sets.members s key) (omega arith)
                (a.old key) in
            rw (← q, members-key s key t n e b)
              (
                omega arith,
                Before-filter (pos (suc t)) (λ m. sets.later m (sub_int64 (pos t) limit.window))
                    (sets.members s key)
                    (Before-weaken (pos t) (pos (suc t)) (sets.members s key) (omega arith) b),
              )
        | inr other ↦ rw (members-other s key k t n e other) (
            Before-weaken (pos (suc last)) (pos (suc t)) (sets.members s k) (omega arith) (a.old k))
      ];
    }

    replies-agree :
        (calls : List (Bytes × ℕ)) (s : S) (log : List (Bytes × ℕ)) (last n : ℕ)
        → Agrees s log last
        → limit.window ≡ pos (suc n * 1_000_000_000)
        → suc n * 1_000_000_000 ≤ max_int64
        → Increasing last calls
        → limit_replies s calls ≡ log_replies log calls
    unfolding limit_replies log_replies
    replies-agree [] s log last n a e hw inc = refl
    replies-agree ((key, t) ∷ calls) s log last n a e hw inc =
        let window_start = sub_int64 (pos t) limit.window in
        let start : sub_int64 (pos last) limit.window ≤ℤ window_start =
          rw e
            (window_start-mono last t (suc n * 1_000_000_000) (omega (arith, inc.0)) (inc.1) hw) in
        ap (λ (x : S × Answer Bool). x.1 ∷ limit_replies x.0 calls) (check_limit-checked s key t)
        ∙ ap₂ ◌∷◌
            (ap (λ (ms : List ℤ). answer (ltb_ℤ (pos (length ms)) limit.rate))
              (a.same key window_start start))
            (replies-agree calls (checked s key t) ((key, t) ∷ log) t n
              (checked-Agrees s log last t n key a e hw (inc.1) (inc.0)) e hw (inc.2))

    -- Requests at increasing times, whatever their keys, of a server with a Redis that answers at once
    -- and that held nothing under the keys, for a window of whole seconds: each is let through exactly if
    -- fewer than `rate` of the requests with its key, refused ones too, are later than the start of its
    -- window.
    pub limit_replies-log_replies :
        (calls : List (Bytes × ℕ)) (s : S) (n : ℕ)
        → ((k : Bytes) → sets.members s k ≡ [])
        → limit.window ≡ pos (suc n * 1_000_000_000)
        → suc n * 1_000_000_000 ≤ max_int64
        → Increasing 0 calls
        → limit_replies s calls ≡ log_replies [] calls
    limit_replies-log_replies calls s n h e hw inc =
        replies-agree calls s [] 0 n
          (record {
            same = λ k bound b. ap (filter (λ m. sets.later m bound)) (h k);
            old = λ k. rw (h k) tt;
          })
          e hw inc
