-- ===== src/Middleware/Limits/Tests.antt =====
-- Runs of the rate limits of rate_limiter.go on a Redis that is a function from keys to members.
use task_management_api.Shared.{
  ℕ, ◌≡◌, refl, ap, true, false, some, List, [], ◌∷◌, length, filter, Bytes, bytes, bytes_eq,
  bytes_eq_refl, arith, if◌then◌else◌,
}
use task_management_api.Shared.Int.{ℤ, pos, ltb_ℤ, sub_int64}
use task_management_api.Services.Database.{answer}
use task_management_api.Middleware.Limits.{
  Command, zrem_range_by_score, zcard, zadd, expire, Exec, RateLimit, ip_key_func, Request,
  user_key_func, api_key_func,
}
use task_management_api.Middleware.Limits.SortedSets.{SortedSets, SetLaws, run_all}
use task_management_api.Middleware.Limits.Windows.{
  limit_replies, log_replies, limit_replies-log_replies,
}

abbrev Redis : Type 0
Redis = Bytes → List ℤ

abbrev change : Redis → Bytes → (List ℤ → List ℤ) → Redis
change s key f k = if bytes_eq key k then f (s k) else s k

abbrev run : Redis → Command → Redis × ℤ
run s (zrem_range_by_score key min max) = (change s key (filter (λ m. ltb_ℤ max m)), pos 0)
run s (zcard key) = (s, pos (length (s key)))
run s (zadd key score member) = (change s key (◌∷◌ member), pos 1)
run s (expire key window) = (s, pos 1)

abbrev run_list : Redis → List Command → Redis × List ℤ
run_list s [] = (s, [])
run_list s (c ∷ cs) =
    let (s', reply) = run s c in let (last, replies) = run_list s' cs in (last, reply ∷ replies)

abbrev exec : Exec Redis
exec s cs = ((run_list s cs).0, answer ((run_list s cs).1))

abbrev sets : SortedSets exec
sets = record { run = run; members = λ s. s; later = λ m bound. ltb_ℤ bound m }

run_list-run_all : (s : Redis) (cs : List Command) → run_list s cs ≡ run_all sets s cs
unfolding run_all
run_list-run_all s [] = refl
run_list-run_all s (c ∷ cs) =
    ap (λ (r : Redis × List ℤ). (r.0, (run s c).1 ∷ r.1)) (run_list-run_all (run s c).0 cs)

change-same : (s : Redis) (key : Bytes) (f : List ℤ → List ℤ) → change s key f key ≡ f (s key)
change-same s key f = rw (bytes_eq_refl key) refl

change-other :
    (s : Redis) (key k : Bytes) (f : List ℤ → List ℤ)
    → bytes_eq key k ≡ false
    → change s key f k ≡ s k
change-other s key k f e = rw e refl

laws : SetLaws sets
laws = record {
  answers = λ s cs. ap (λ (r : Redis × List ℤ). (r.0, answer r.1)) (run_list-run_all s cs);
  removes = λ s key max. change-same s key (filter (λ m. ltb_ℤ max m));
  counts = λ s key. refl;
  keeps_on_count = λ s key k. refl;
  adds = λ s key now b. change-same s key (◌∷◌ now);
  keeps_on_expire = λ s key k window seconds w. refl;
  removes_alone = λ s key k max e. change-other s key k (filter (λ m. ltb_ℤ max m)) e;
  adds_alone = λ s key k now e. change-other s key k (◌∷◌ now) e;
  later_falls = λ m a b h e. ground arith;
}

-- Two requests in ten seconds.
abbrev limit : RateLimit
limit = record {
  rate = pos 2;
  window = pos 10_000_000_000;
  key_func = ip_key_func;
  on_limit = false;
}

abbrev calls : List (Bytes × ℕ)
calls =
    (bytes "a", 1_000_000_000)
    ∷ (bytes "a", 2_000_000_000)
    ∷ (bytes "b", 3_000_000_000)
    ∷ (bytes "a", 4_000_000_000)
    ∷ (bytes "a", 5_000_000_000)
    ∷ (bytes "a", 12_000_000_000)
    ∷ []

abbrev empty : Redis
empty key = []

-- A refused request counts as well: the one after 12 seconds is refused for those after 4 and 5, which were refused.
refusals_count :
    log_replies sets limit [] calls
    ≡ answer true ∷ answer true ∷ answer true ∷ answer false ∷ answer false ∷ answer false ∷ []
unfolding log_replies sub_int64 bytes_eq
refusals_count = refl

limit_replies-log_replies_example :
    limit_replies sets limit empty calls ≡ log_replies sets limit [] calls
limit_replies-log_replies_example =
    limit_replies-log_replies sets limit laws calls empty 9 (λ k. refl) refl (omega arith)
      (omega arith)

abbrev request : Request
request = record { client_ip = bytes "10.0.0.1"; user_id = some (bytes "7"); api_key = [] }

keys_differ : (user_key_func request ≡ bytes "user:7") × (api_key_func request ≡ bytes "10.0.0.1")
unfolding user_key_func api_key_func
keys_differ = (refl, refl)
