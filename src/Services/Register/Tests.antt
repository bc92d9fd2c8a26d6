-- ===== src/Services/Register/Tests.antt =====
-- Registrations of register.go in a database that is the list of its committed rows.
use task_management_api.Shared.{
  ◌≡◌, refl, sym, ap, false, Bool, none, some, List, [], ◌∷◌, Bytes, bytes, bytes_eq, ◌||◌,
  if◌then◌else◌, arith,
}
use task_management_api.Shared.Int.{pos}
use task_management_api.Services.Database.{Answer, answer, failure, found, not_found}
use task_management_api.Services.Auth.{success, error}
use task_management_api.Services.Register.{RegistrationRequest, RegisterTable, Clock, register_user}
use task_management_api.Services.Register.Endings.{
  TransactionLaws, Committed, Ending, register_user-Ending,
}

-- A transaction is the rows it began with and those it has.
abbrev Tx : Type 0
Tx = List Bytes × List Bytes

abbrev has_email : List Bytes → Bytes → Bool
has_email [] email = false
has_email (row ∷ rows) email = bytes_eq row email || has_email rows email

abbrev table : RegisterTable (List Bytes) Tx Bytes
table = record {
  find_email = λ db email. if has_email db email then found email else not_found;
  find_username = λ db name. not_found;
  generate_hash = λ password. answer (bytes "hash");
  begin = λ db. answer (db, db);
  create_user = λ tx user. ((tx.0, user.email ∷ tx.1), none);
  find_role = λ tx name. found 3;
  create_user_role = λ tx role. (tx, none);
  create_attribute = λ tx attribute. (tx, none);
  rollback = λ tx. tx.0;
  commit = λ tx. (tx.1, none);
  load = λ db id. answer (bytes "row");
}

abbrev origin_of : Answer Tx → List Bytes
origin_of (answer tx) = tx.0
origin_of (failure e) = []

laws : TransactionLaws table (λ tx. tx.0)
laws = record {
  begins = λ db tx h. sym (ap origin_of h);
  keeps_user = λ tx user. refl;
  keeps_role = λ tx role. refl;
  keeps_attribute = λ tx attribute. refl;
  rolls_back = λ tx. refl;
  fails_commit = λ tx db e h. absurd (ground arith);
}

abbrev request : RegistrationRequest
request = record {
  username = bytes "ann";
  email = bytes "a@b.c";
  password = bytes "longenough";
  first_name = bytes "Ann";
  last_name = bytes "Bee";
  department = [];
  position = [];
}

abbrev clock : Clock
clock = record { created = pos 1; updated = pos 2; now = pos 3 }

registers_once :
    register_user table [] request (some 7) clock ≡ (bytes "a@b.c" ∷ [], success (bytes "row"))
unfolding register_user bytes_eq
registers_once = refl

refuses_taken_email :
    register_user table (bytes "a@b.c" ∷ []) request (some 7) clock
    ≡ (bytes "a@b.c" ∷ [], error (bytes "email already exists"))
unfolding register_user bytes_eq
refuses_taken_email = refl

register_user-Ending_example :
    Ending table
      (Committed table [] request (some 7) clock)
      []
      (register_user table [] request (some 7) clock)
register_user-Ending_example =
    register_user-Ending table (λ tx. tx.0) laws [] request (some 7) clock
