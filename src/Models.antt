-- ===== src/Models.antt =====
-- backend/internal/models: rows of the database that the services read, less the tags of GORM and
-- JSON and the associations.
use task_management_api.Shared.{ℕ, Option, Bytes}
use task_management_api.Shared.Int.{Time}

-- A UUID is known by its value.
abbrev pub Uuid : Type 0
Uuid = ℕ

pub record Task : Type 0 where
  pub id : Uuid
  pub user_id : Uuid
  pub title : Bytes
  pub description : Bytes
  pub status : Bytes
  pub created_at : Time
  pub updated_at : Time

-- `type` is a word of the language here; `deleted_at` is `none` where GORM's is not valid.
pub record UserAttribute : Type 0 where
  pub id : Uuid
  pub user_id : Uuid
  pub name : Bytes
  pub value : Bytes
  pub data_type : Bytes
  pub source : Bytes
  pub expires_at : Option Time
  pub created_at : Time
  pub updated_at : Time
  pub deleted_at : Option Time

-- `Token`, less the `gorm.Model` in it.
pub record TokenRow : Type 0 where
  pub id : Uuid
  pub user_id : Uuid
  pub jti : Uuid
  pub refresh_token : Bytes
  pub expires_at : Time
