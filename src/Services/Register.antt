-- ===== src/Services/Register.antt =====
-- backend/internal/services/register.go, over the statements of the database and bcrypt, which are
-- parameters: `S` is the state of the database, `T` that of an open transaction, `U` a row of users with
-- its roles. A fresh UUID is an argument, `none` where the generator fails, and so are the readings of
-- the clock.
pub mod Endings
mod Tests
use task_management_api.Shared.{Bool, true, Option, none, some, List, [], ◌∷◌, Bytes, bytes}
use task_management_api.Shared.Int.{Time}
use task_management_api.Models.{Uuid}
use task_management_api.Services.Database.{Answer, answer, failure, Found, found, not_found, broken}
use task_management_api.Services.Auth.{Result, success, error, panicked}

pub record RegistrationRequest : Type 0 where
  pub username : Bytes
  pub email : Bytes
  pub password : Bytes
  pub first_name : Bytes
  pub last_name : Bytes
  pub department : Bytes
  pub position : Bytes

-- What the code sets of a `models.User`.
pub record NewUser : Type 0 where
  pub id : Uuid
  pub username : Bytes
  pub email : Bytes
  pub password : Bytes
  pub first_name : Bytes
  pub last_name : Bytes
  pub department : Bytes
  pub position : Bytes
  pub is_active : Bool
  pub created_at : Time
  pub updated_at : Time

pub record UserRole : Type 0 where
  pub user_id : Uuid
  pub role_id : Uuid
  pub assigned_at : Time
  pub created_at : Time
  pub updated_at : Time

pub record DefaultAttribute : Type 0 where
  pub user_id : Uuid
  pub name : Bytes
  pub value : Bytes
  pub data_type : Bytes

pub record RegisterTable (S T U : Type 0) : Type 0 where
  pub find_email : S → Bytes → Found U
  pub find_username : S → Bytes → Found U
  pub generate_hash : Bytes → Answer Bytes
  pub begin : S → Answer T
  pub create_user : T → NewUser → T × Option Bytes
  pub find_role : T → Bytes → Found Uuid
  pub create_user_role : T → UserRole → T × Option Bytes
  pub create_attribute : T → DefaultAttribute → T × Option Bytes
  pub rollback : T → S
  pub commit : T → S × Option Bytes
  pub load : S → Uuid → Answer U

-- The clock at `CreatedAt` and `UpdatedAt` of the user, and at the assignment of the role.
pub record Clock : Type 0 where
  pub created : Time
  pub updated : Time
  pub now : Time

unfoldable pub new_user : RegistrationRequest → Uuid → (hashed : Bytes) → Clock → NewUser
new_user req id hashed clock = record {
  id = id;
  username = req.username;
  email = req.email;
  password = hashed;
  first_name = req.first_name;
  last_name = req.last_name;
  department = req.department;
  position = req.position;
  is_active = true;
  created_at = clock.created;
  updated_at = clock.updated;
}

unfoldable pub assignment : Uuid → (role : Uuid) → Time → UserRole
assignment user_id role now = record {
  user_id = user_id;
  role_id = role;
  assigned_at = now;
  created_at = now;
  updated_at = now;
}

abbrev pub account_type : Uuid → DefaultAttribute
account_type user_id = record {
  user_id = user_id;
  name = bytes "account_type";
  value = bytes "standard";
  data_type = bytes "string";
}

abbrev pub clearance_level : Uuid → DefaultAttribute
clearance_level user_id = record {
  user_id = user_id;
  name = bytes "clearance_level";
  value = bytes "basic";
  data_type = bytes "string";
}

unfoldable pub loaded : {S U : Type 0} → S → Answer U → S × Result U
loaded db (answer user) = (db, success user)
loaded db (failure e) = (db, error e)

module _ {S T U : Type 0} (table : RegisterTable S T U) where
  unfoldable pub committed : Uuid → S × Option Bytes → S × Result U
  unfolding loaded
  committed id (db, none) = loaded db (table.load db id)
  committed id (db, some e) = (db, error e)

  -- The loop over the default attributes, and the commit after it.
  unfoldable pub with_attributes : Uuid → T → List DefaultAttribute → S × Result U
  unfolding committed
  with_attributes id tx [] = committed id (table.commit tx)
  with_attributes id tx (attribute ∷ rest) =
      let (tx', err) = table.create_attribute tx attribute in
      elim err [ some e ↦ (table.rollback tx', error e) | none ↦ with_attributes id tx' rest ]

  unfoldable pub role_assigned : Uuid → T × Option Bytes → S × Result U
  unfolding with_attributes
  role_assigned id (tx, none) = with_attributes id tx (account_type id ∷ clearance_level id ∷ [])
  role_assigned id (tx, some e) = (table.rollback tx, error e)

  unfoldable pub role_found : Uuid → Time → T → Found Uuid → S × Result U
  unfolding assignment role_assigned
  role_found id now tx not_found = (
    table.rollback tx,
    error (bytes "default user role not found - please contact administrator"),
  )
  role_found id now tx (broken e) = (table.rollback tx, error e)
  role_found id now tx (found role) =
      role_assigned id (table.create_user_role tx (assignment id role now))

  unfoldable pub user_created : Uuid → Time → T × Option Bytes → S × Result U
  unfolding role_found
  user_created id now (tx, none) = role_found id now tx (table.find_role tx (bytes "user"))
  user_created id now (tx, some e) = (table.rollback tx, error e)

  unfoldable pub begun : S → NewUser → Time → Answer T → S × Result U
  unfolding user_created
  begun db user now (failure e) = (db, error e)
  begun db user now (answer tx) = user_created user.id now (table.create_user tx user)

  unfoldable pub hashed :
      S → RegistrationRequest → (id : Option Uuid) → Clock → Answer Bytes → S × Result U
  unfolding new_user begun
  hashed db req id clock (failure e) = (db, error e)
  hashed db req none clock (answer password) = (db, panicked)
  hashed db req (some id) clock (answer password) =
      begun db (new_user req id password clock) clock.now (table.begin db)

  unfoldable pub username_checked :
      S → RegistrationRequest → (id : Option Uuid) → Clock → Found U → S × Result U
  unfolding hashed
  username_checked db req id clock (found user) = (db, error (bytes "username already exists"))
  username_checked db req id clock (broken e) = (db, error e)
  username_checked db req id clock not_found =
      hashed db req id clock (table.generate_hash req.password)

  unfoldable pub email_checked :
      S → RegistrationRequest → (id : Option Uuid) → Clock → Found U → S × Result U
  unfolding username_checked
  email_checked db req id clock (found user) = (db, error (bytes "email already exists"))
  email_checked db req id clock (broken e) = (db, error e)
  email_checked db req id clock not_found =
      username_checked db req id clock (table.find_username db req.username)

  unfoldable pub register_user : S → RegistrationRequest → (id : Option Uuid) → Clock → S × Result U
  unfolding email_checked
  register_user db req id clock = email_checked db req id clock (table.find_email db req.email)
