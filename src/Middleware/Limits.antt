-- ===== src/Middleware/Limits.antt =====
-- The rate limits of backend/internal/middleware/rate_limiter.go. The limiters of golang.org/x/time/rate
-- and the pipelines of go-redis are parameters, and so are the printing of what a context holds and the
-- response of a custom `OnLimit`.
pub mod Times
pub mod SortedSets
pub mod Windows
mod Tests
use task_management_api.Shared.{
  Bool, true, false, Option, none, some, List, [], ◌∷◌, ◌++◌, Bytes, bytes, bytes_eq, if◌then◌else◌,
}
use task_management_api.Shared.Int.{ℤ, pos, Time, ltb_ℤ, sub_int64}
use task_management_api.Services.Database.{Answer, answer, failure}

-- `R` is a `rate.Limit` with a burst, `L` a limiter.
pub record RatePackage (R L : Type 0) : Type 0 where
  pub new_limiter : R → L
  pub allow : L → Time → L × Bool

-- The map of one limiter, as an association list.
abbrev pub VisitorMap : Type 0 → Type 0
VisitorMap L = List (Bytes × L)

unfoldable pub find_visitor : {L : Type 0} → VisitorMap L → Bytes → Option L
unfolding bytes_eq
find_visitor [] ip = none
find_visitor ((k, l) ∷ rest) ip = if bytes_eq k ip then some l else find_visitor rest ip

-- A limiter is a pointer: what `Allow` does to it stays in the map.
unfoldable pub put_visitor : {L : Type 0} → VisitorMap L → Bytes → L → VisitorMap L
unfolding bytes_eq
put_visitor [] ip l = (ip, l) ∷ []
put_visitor ((k, x) ∷ rest) ip l =
    let others = put_visitor rest ip l in if bytes_eq k ip then (k, l) ∷ rest else (k, x) ∷ others

module _ {R L : Type 0} (buckets : RatePackage R L) (r : R) where
  unfoldable pub get_visitor : VisitorMap L → Bytes → L
  unfolding find_visitor
  get_visitor visitors ip = elim (find_visitor visitors ip) [
    | none ↦ buckets.new_limiter r
    | some l ↦ l
  ]

  -- The map, and whether the next handler is called; otherwise the answer is 429.
  unfoldable pub rate_limiter : VisitorMap L → (ip : Bytes) → (now : Time) → VisitorMap L × Bool
  unfolding get_visitor put_visitor
  rate_limiter visitors ip now =
      let (l, allowed) = buckets.allow (get_visitor visitors ip) now in
      (put_visitor visitors ip l, allowed)

-- What the middleware reads of a request.
pub record Request : Type 0 where
  pub client_ip : Bytes
  pub user_id : Option Bytes
  pub api_key : Bytes

unfoldable pub ip_key_func : Request → Bytes
ip_key_func c = c.client_ip

unfoldable pub user_key_func : Request → Bytes
user_key_func c = elim c.user_id [ none ↦ c.client_ip | some user_id ↦ bytes "user:" ++ user_id ]

unfoldable pub api_key_func : Request → Bytes
unfolding bytes_eq
api_key_func c = if bytes_eq c.api_key [] then c.client_ip else bytes "api_key:" ++ c.api_key

-- `on_limit` is whether there is an `OnLimit`.
pub record RateLimit : Type 0 where
  pub rate : ℤ
  pub window : ℤ
  pub key_func : Request → Bytes
  pub on_limit : Bool

-- The commands of a pipeline. A score is known by the integer of which it is the float64.
pub data Command : Type 0 where
  zrem_range_by_score : (key : Bytes) → (min max : ℤ) → Command
  zcard : (key : Bytes) → Command
  zadd : (key : Bytes) → (score member : ℤ) → Command
  expire : (key : Bytes) → (window : ℤ) → Command

-- The replies in the order of the commands, or an error.
abbrev pub Exec : Type 0 → Type 0
Exec S = S → List Command → S × Answer (List ℤ)

unfoldable pub pipeline : (key : Bytes) → (now window_start window : ℤ) → List Command
pipeline key now window_start window =
    zrem_range_by_score key (pos 0) window_start
    ∷ zcard key
    ∷ zadd key now now
    ∷ expire key window
    ∷ []

-- `countCmd.Val()`
abbrev pub second : List ℤ → ℤ
second [] = pos 0
second (a ∷ []) = pos 0
second (a ∷ b ∷ rest) = b

unfoldable pub below_rate : RateLimit → Answer (List ℤ) → Answer Bool
below_rate limit (failure e) = failure (bytes "failed to execute rate limit pipeline: " ++ e)
below_rate limit (answer replies) = answer (ltb_ℤ (second replies) limit.rate)

abbrev pub LimitMap : Type 0
LimitMap = List (Bytes × RateLimit)

unfoldable pub put_limit : LimitMap → Bytes → RateLimit → LimitMap
unfolding bytes_eq
put_limit [] name limit = (name, limit) ∷ []
put_limit ((n, l) ∷ rest) name limit =
    let others = put_limit rest name limit in
    if bytes_eq n name then (n, limit) ∷ rest else (n, l) ∷ others

-- The next handler is called, with a header where the check failed; or `OnLimit` is; or the request is
-- aborted with 429 and two headers.
pub data LimitResponse : Type 0 where
  next : (error_header : Bool) → LimitResponse
  custom : LimitResponse
  too_many : (rate window : ℤ) → LimitResponse

unfoldable pub respond : RateLimit → Answer Bool → LimitResponse
respond limit (failure e) = next true
respond limit (answer allowed) =
    if allowed
    then next false
    else if limit.on_limit
    then custom
    else too_many limit.rate limit.window

unfoldable pub limit_key : (name : Bytes) → RateLimit → Request → Bytes
limit_key name limit c = bytes "rate_limit:" ++ (name ++ (bytes ":" ++ limit.key_func c))

module _ {S : Type 0} (exec : Exec S) where
  unfoldable pub check_limit : S → (key : Bytes) → RateLimit → (now : ℤ) → S × Answer Bool
  unfolding pipeline sub_int64 below_rate
  check_limit s key limit now =
      let (s', replies) = exec s (pipeline key now (sub_int64 now limit.window) limit.window) in
      (s', below_rate limit replies)

  -- The limits with the new one, and its handler.
  unfoldable pub create_middleware :
      LimitMap
      → (name : Bytes) → RateLimit
      → LimitMap × (S → Request → (now : ℤ) → S × LimitResponse)
  unfolding put_limit check_limit respond limit_key
  create_middleware limits name limit = (
    put_limit limits name limit,
    λ s c now.
        let (s', allowed) = check_limit s (limit_key name limit c) limit now in
        (s', respond limit allowed),
  )
