-- ===== src/Services/Tasks/Pages.antt =====
-- The page that tasks.go asks the database for, whatever the request says.
use native.Mathlib.Nat.{mul-le-mul_left}
use task_management_api.Shared.{
  ℕ, ltb, ◌<◌, ◌-◌, ◌*◌, ◌≤◌, ◌≡◌, ◌⊎◌, inl, inr, Option, none, some, Bytes, bytes, bytes_eq,
  bytes_eq_iff, arith, ◌&&◌, not, if◌then◌else◌, ◌++◌, Bool-cases, refl, ap₂, ◌∙◌,
}
use task_management_api.Shared.Int.{
  ℤ, pos, negsuc, ltb_ℤ, leb_ℤ, sub_int64, mul_int64, sub_int64-exact, mul_int64-exact,
}
use task_management_api.Services.Tasks.{
  PageQuery, allowed_sort, page_number, page_limit, page_query,
}

-- One of the three columns and one of the two directions.
abbrev pub IsColumn : Bytes → Type 0
IsColumn s = (s ≡ bytes "created_at") ⊎ (s ≡ bytes "updated_at") ⊎ (s ≡ bytes "title")

abbrev pub IsDirection : Bytes → Type 0
IsDirection s = (s ≡ bytes "asc") ⊎ (s ≡ bytes "desc")

allowed_sort-IsColumn : (s : Bytes) → IsColumn (if allowed_sort s then s else bytes "created_at")
unfolding allowed_sort
allowed_sort-IsColumn s = ground (
  arith,
  bytes_eq_iff s (bytes "created_at"),
  bytes_eq_iff s (bytes "updated_at"),
  bytes_eq_iff s (bytes "title"),
)

kept_or_desc :
    (s : Bytes)
    → IsDirection (
        if not (bytes_eq s (bytes "asc")) && not (bytes_eq s (bytes "desc"))
        then bytes "desc"
        else s)
kept_or_desc s = ground (arith, bytes_eq_iff s (bytes "asc"), bytes_eq_iff s (bytes "desc"))

page_limit_bounds : (o : Option ℤ) → (n : ℕ) × (page_limit o ≡ pos n) × (1 ≤ n) × (n ≤ 100)
unfolding page_limit
page_limit_bounds none = (10, refl, omega arith, omega arith)
page_limit_bounds (some (pos v)) =
    elim (Bool-cases (ltb_ℤ (pos 0) (pos v) && leb_ℤ (pos v) (pos 100))) [
      | inl h ↦ (v, ground arith, ground arith, ground arith)
      | inr h ↦ (10, ground arith, omega arith, omega arith)
    ]
page_limit_bounds (some (negsuc v)) = (10, ground arith, omega arith, omega arith)

page_number_bounds : (o : Option ℤ) → (n : ℕ) × (page_number o ≡ pos n) × (1 ≤ n)
unfolding page_number
page_number_bounds none = (1, refl, omega arith)
page_number_bounds (some (pos v)) = elim (Bool-cases (ltb_ℤ (pos 0) (pos v))) [
  | inl h ↦ (v, ground arith, ground arith)
  | inr h ↦ (1, ground arith, omega arith)
]
page_number_bounds (some (negsuc v)) = (1, ground arith, omega arith)

scaled : (a b c : ℕ) → b ≤ c → a * b ≤ a * c
scaled a b c h = mul-le-mul_left a h

exact_offset :
    (n m : ℕ)
    → 1 ≤ n
    → m ≤ 100
    → n ≤ 90_000_000_000_000_000
    → mul_int64 (sub_int64 (pos n) (pos 1)) (pos m) ≡ pos ((n - 1) * m)
exact_offset n m h k l =
    rw (sub_int64-exact n 1 h (omega arith))
      (mul_int64-exact (n - 1) m (omega (arith, scaled (n - 1) m 100 k)))

-- The query for a page number: an order, a limit and an offset in range.
abbrev pub IsSafe : ℤ → PageQuery → Type 0
IsSafe number q =
    ((column : Bytes) × (direction : Bytes) × IsColumn column
      × IsDirection direction
      × (q.order ≡ column ++ bytes " " ++ direction))
    × ((n : ℕ) × (m : ℕ) × (q.limit ≡ pos m)
        × (1 ≤ m)
        × (m ≤ 100)
        × (1 ≤ n)
        × (number ≡ pos n)
        × ((90_000_000_000_000_000 < n) ⊎ (q.offset ≡ pos ((n - 1) * m))))

-- Whatever the four texts of a request are, the query orders by one of the three columns in one of
-- the two directions, so that no other text reaches the statement, and asks for 1 to 100 rows. The
-- page number is positive, and the offset is that number less one, times the limit, without overflow
-- for a page number up to 9 * 10^16.
pub page_query-IsSafe :
    (atoi : Bytes → Option ℤ) (sort_by order page page_size : Bytes)
    → IsSafe (page_number (atoi page)) (page_query atoi sort_by order page page_size)
unfolding page_query
page_query-IsSafe atoi sort_by order page page_size =
    let (m, limit, low, high) = page_limit_bounds (atoi page_size) in
    let (n, number, first) = page_number_bounds (atoi page) in
    (
      (_, _, allowed_sort-IsColumn sort_by, kept_or_desc order, refl),
      (
        n,
        m,
        limit,
        low,
        high,
        first,
        number,
        elim (Bool-cases (ltb 90_000_000_000_000_000 n)) [
          | inl h ↦ inl (ground arith)
          | inr h ↦ inr (
              ap₂ (λ p ps. mul_int64 (sub_int64 p (pos 1)) ps) number limit
              ∙ exact_offset n m first high (ground arith))
        ],
      ),
    )
