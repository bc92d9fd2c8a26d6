-- ===== src/Services/Tasks/Tests.antt =====
-- A page of tasks.go at a concrete request.
use task_management_api.Shared.{
  ◌≡◌, refl, Option, none, some, Bytes, bytes, bytes_eq, if◌then◌else◌,
}
use task_management_api.Shared.Int.{ℤ, pos, negsuc}
use task_management_api.Services.Tasks.{page_query, page_number}
use task_management_api.Services.Tasks.Pages.{IsSafe, page_query-IsSafe}

abbrev atoi : Bytes → Option ℤ
atoi s = if bytes_eq s (bytes "3") then some (pos 3) else none

third_page :
    page_query atoi (bytes "title; DROP TABLE tasks") (bytes "asc") (bytes "3") (bytes "x")
    ≡ record { order = bytes "created_at asc"; offset = pos 20; limit = pos 10 }
unfolding page_query bytes_eq
third_page = refl

-- The largest page number.
abbrev huge : Bytes → Option ℤ
huge s = if bytes_eq s (bytes "100") then some (pos 100) else some (pos 9_223_372_036_854_775_807)

offset_overflows :
    page_query huge (bytes "title") (bytes "asc") (bytes "9223372036854775807") (bytes "100")
    ≡ record { order = bytes "title asc"; offset = negsuc 199; limit = pos 100 }
unfolding page_query bytes_eq
offset_overflows = refl

page_query-IsSafe_example :
    IsSafe
      (page_number (atoi (bytes "3")))
      (page_query atoi (bytes "title") (bytes "asc") (bytes "3") (bytes "x"))
page_query-IsSafe_example =
    page_query-IsSafe atoi (bytes "title") (bytes "asc") (bytes "3") (bytes "x")
