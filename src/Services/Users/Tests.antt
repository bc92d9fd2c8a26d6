-- ===== src/Services/Users/Tests.antt =====
-- users.go on a database without users.
use task_management_api.Shared.{ℕ, ◌≡◌, none, [], refl, some}
use task_management_api.Services.Users.{UserTable, delete_user, db_error, record_not_found}

abbrev broken_table : UserTable ℕ ℕ ℕ
broken_table = record {
  raw = λ db user_id. ([], none);
  find_user = λ db user_id. (0, none);
  find = λ db. ([], none);
  delete = λ db user_id. (db, 0, some (db_error []));
  updates = λ db user_id updates. (db, 1, none);
  zero_user = 0;
}

-- A failed database reads as an unknown user.
failure_hidden : (delete_user broken_table 7 1).1 ≡ some record_not_found
unfolding delete_user
failure_hidden = refl
