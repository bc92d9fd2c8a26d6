-- ===== src/Services/Authorization/Revoked.antt =====
-- What becomes of a role that `RevokeRole` of authorization.go takes away. The table has one row for a
-- user and a role, its primary key, and GORM deletes a row by setting `deleted_at`.
use task_management_api.Shared.{
  ◌≡◌, ◌≢◌, refl, sym, ◌∙◌, subst, ◌⊎◌, inl, inr, Bool, true, false, ◌&&◌, ◌||◌, Bool-cases, Option,
  none, some, List, [], ◌∷◌, ◌==◌, Bytes, arith, both_branches, if◌then◌else◌,
}
use task_management_api.Shared.Int.{Time}
use task_management_api.Models.{Uuid}
use task_management_api.Services.Database.{Found, found, not_found, broken}
use task_management_api.Services.Authorization.Roles.{
  UserRole, RoleStatements, new_user_role, assign_found, assign_role, revoke_role,
}

abbrev pub same_ids : (user_id role_id : Uuid) → UserRole → Bool
same_ids u r row = (row.user_id == u) && (row.role_id == r)

abbrev pub kept : Option Time → Bool
kept none = true
kept (some t) = false

module _ (u r : Uuid) where
  abbrev pub has_row : List UserRole → Bool
  has_row [] = false
  has_row (row ∷ rows) = same_ids u r row || has_row rows

  -- What `HasRole` and `HasPermission` count.
  abbrev pub is_active : List UserRole → Bool
  is_active [] = false
  is_active (row ∷ rows) = (same_ids u r row && kept row.deleted_at) || is_active rows

  abbrev pub first_active : List UserRole → Found UserRole
  first_active [] = not_found
  first_active (row ∷ rows) =
      if same_ids u r row && kept row.deleted_at then found row else first_active rows

  abbrev pub deleted_at : Time → UserRole → UserRole
  deleted_at t row =
      if same_ids u r row && kept row.deleted_at then record row { deleted_at = some t } else row

  abbrev pub all_deleted_at : Time → List UserRole → List UserRole
  all_deleted_at t [] = []
  all_deleted_at t (row ∷ rows) = deleted_at t row ∷ all_deleted_at t rows

-- What GORM and PostgreSQL document: a `First` finds a row that is not deleted, a primary key is unique
-- among all rows, `Delete` marks the rows, and a statement that fails changes nothing.
pub record RoleLaws {DB : Type 0} (q : RoleStatements DB) (rows : DB → List UserRole) : Type 0 where
  pub finds :
      (db : DB) (u r : Uuid)
      → (q.first_user_role db u r ≡ first_active u r (rows db))
        ⊎ ((e : Bytes) × (q.first_user_role db u r ≡ broken e))
  pub creates :
      (db : DB) (row : UserRole)
      → ((has_row row.user_id row.role_id (rows db) ≡ false)
          × (rows (q.create_user_role db row).0 ≡ row ∷ rows db))
        ⊎ ((e : Bytes) × ((q.create_user_role db row).1 ≡ some e)
            × (rows (q.create_user_role db row).0 ≡ rows db))
  pub deletes :
      (db : DB) (u r : Uuid)
      → ((t : Time) × (rows (q.delete_user_role db u r).0 ≡ all_deleted_at u r t (rows db)))
        ⊎ ((e : Bytes) × ((q.delete_user_role db u r).1 ≡ some e)
            × (rows (q.delete_user_role db u r).0 ≡ rows db))

-- There is a row, and it is deleted.
abbrev pub Revoked : (u r : Uuid) → List UserRole → Type 0
Revoked u r rows = (has_row u r rows ≡ true) × (is_active u r rows ≡ false)

active-has_row :
    (u r : Uuid) (rows : List UserRole) → is_active u r rows ≡ true → has_row u r rows ≡ true
active-has_row u r [] h = absurd (ground (arith, h))
active-has_row u r (row ∷ rows) h = elim (Bool-cases (is_active u r rows)) [
  | inl e ↦ ground (arith, active-has_row u r rows e)
  | inr e ↦ ground (arith, e, h)
]

first_active-none :
    (u r : Uuid) (rows : List UserRole)
    → is_active u r rows ≡ false
    → first_active u r rows ≡ not_found
first_active-none u r [] h = refl
first_active-none u r (row ∷ rows) h =
    ground (arith, first_active-none u r rows (ground (arith, h)), h)

deleted-row :
    (u r v s : Uuid) (t : Time) (row : UserRole)
    → same_ids u r (deleted_at v s t row) ≡ same_ids u r row
deleted-row u r v s t row =
    both_branches (λ x. same_ids u r x ≡ same_ids u r row) (same_ids v s row && kept row.deleted_at)
      (λ f. refl) (λ f. refl)

all_deleted-has_row :
    (u r v s : Uuid) (t : Time) (rows : List UserRole)
    → has_row u r (all_deleted_at v s t rows) ≡ has_row u r rows
all_deleted-has_row u r v s t [] = refl
all_deleted-has_row u r v s t (row ∷ rows) =
    rw (deleted-row u r v s t row, all_deleted-has_row u r v s t rows) refl

deleted-inactive :
    (u r v s : Uuid) (t : Time) (row : UserRole)
    → (same_ids u r row && kept row.deleted_at) ≡ false
    → (same_ids u r (deleted_at v s t row) && kept (deleted_at v s t row).deleted_at) ≡ false
deleted-inactive u r v s t row h =
    both_branches (λ (x : UserRole). (same_ids u r x && kept x.deleted_at) ≡ false)
      (same_ids v s row && kept row.deleted_at) (λ f. ground arith) (λ f. h)

all_deleted-inactive :
    (u r v s : Uuid) (t : Time) (rows : List UserRole)
    → is_active u r rows ≡ false
    → is_active u r (all_deleted_at v s t rows) ≡ false
all_deleted-inactive u r v s t [] h = refl
all_deleted-inactive u r v s t (row ∷ rows) h =
    rw
      (
        deleted-inactive u r v s t row (ground (arith, h)),
        all_deleted-inactive u r v s t rows (ground (arith, h)),
      )
      refl

all_deleted-same_ids :
    (u r : Uuid) (t : Time) (rows : List UserRole)
    → is_active u r (all_deleted_at u r t rows) ≡ false
all_deleted-same_ids u r t [] = refl
all_deleted-same_ids u r t (row ∷ rows) = rw (gone, all_deleted-same_ids u r t rows) refl
  where
    gone : (same_ids u r (deleted_at u r t row) && kept (deleted_at u r t row).deleted_at) ≡ false
    gone =
        both_branches (λ (x : UserRole). (same_ids u r x && kept x.deleted_at) ≡ false)
          (same_ids u r row && kept row.deleted_at) (λ f. ground arith) (λ f. f)

-- A call of one of the two.
pub data Call : Type 0 where
  assigns : (user_id role_id assigned_by : Uuid) → (now : Time) → Call
  revokes : (user_id role_id : Uuid) → Call

module _ {DB : Type 0} (q : RoleStatements DB) where
  unfoldable pub run_calls : List Call → DB → DB
  unfolding assign_role revoke_role
  run_calls [] db = db
  run_calls (assigns u r by now ∷ calls) db = run_calls calls (assign_role q db u r by now).0
  run_calls (revokes u r ∷ calls) db = run_calls calls (revoke_role q db u r).0

  module _ (rows : DB → List UserRole) (laws : RoleLaws q rows) (u r : Uuid) where
    no_other_row :
        (db : DB) (row : UserRole)
        → has_row row.user_id row.role_id (rows db) ≡ false
        → has_row u r (rows db) ≡ true
        → same_ids u r row ≡ false
    no_other_row db row h k = elim (Bool-cases (same_ids u r row)) [
      | inr e ↦ e
      | inl e ↦
          let a : row.user_id ≡ u = ground (arith, e) in
          let b : row.role_id ≡ r = ground (arith, e) in
          let h' : has_row u r (rows db) ≡ false =
            subst (λ x. has_row u x (rows db) ≡ false) b
              (subst (λ x. has_row x row.role_id (rows db) ≡ false) a h) in
          absurd (ground (arith, h', k))
    ]

    created-Revoked :
        (db : DB) (row : UserRole)
        → Revoked u r (rows db)
        → Revoked u r (rows (q.create_user_role db row).0)
    created-Revoked db row v = elim (laws.creates db row) [
      | inr (e, f, same) ↦ subst (Revoked u r) (sym same) v
      | inl (h, more) ↦
          let other = no_other_row db row h v.0 in
          subst (Revoked u r) (sym more) (ground (arith, other, v), ground (arith, other, v))
    ]

    assigned-Revoked :
        (db : DB) (row : UserRole) (x : Found UserRole)
        → Revoked u r (rows db)
        → Revoked u r (rows (assign_found q db row x).0)
    unfolding assign_found
    assigned-Revoked db row (found existing) v = v
    assigned-Revoked db row not_found v = created-Revoked db row v
    assigned-Revoked db row (broken e) v = v

    delete-Revoked :
        (db : DB) (w s : Uuid)
        → Revoked u r (rows db)
        → Revoked u r (rows (q.delete_user_role db w s).0)
    delete-Revoked db w s v = elim (laws.deletes db w s) [
      | inr (e, f, same) ↦ subst (Revoked u r) (sym same) v
      | inl (t, marked) ↦ subst (Revoked u r) (sym marked) (
        all_deleted-has_row u r w s t (rows db) ∙ v.0,
        all_deleted-inactive u r w s t (rows db) v.1,
      )
    ]

    run_calls-Revoked :
        (calls : List Call) (db : DB)
        → Revoked u r (rows db)
        → Revoked u r (rows (run_calls calls db))
    unfolding run_calls assign_role revoke_role
    run_calls-Revoked [] db v = v
    run_calls-Revoked (assigns w s by now ∷ calls) db v =
        run_calls-Revoked calls (assign_role q db w s by now).0
          (assigned-Revoked db (new_user_role w s by now) (q.first_user_role db w s) v)
    run_calls-Revoked (revokes w s ∷ calls) db v =
        run_calls-Revoked calls (revoke_role q db w s).0 (delete-Revoked db w s v)

    revoke_role-Revoked :
        (db : DB)
        → is_active u r (rows db) ≡ true
        → (revoke_role q db u r).1 ≡ none
        → Revoked u r (rows (revoke_role q db u r).0)
    unfolding revoke_role
    revoke_role-Revoked db a h = elim (laws.deletes db u r) [
      | inr (e, f, same) ↦ absurd (ground (arith, f, h))
      | inl (t, marked) ↦ subst (Revoked u r) (sym marked) (
        all_deleted-has_row u r u r t (rows db) ∙ active-has_row u r (rows db) a,
        all_deleted-same_ids u r t (rows db),
      )
    ]

    refused :
        (db : DB) (by : Uuid) (now : Time)
        → Revoked u r (rows db)
        → (assign_role q db u r by now).1 ≢ none
    unfolding assign_role assign_found new_user_role
    refused db by now v = elim (laws.finds db u r) [
      | inr (e, f) ↦
          subst (λ x. (assign_found q db (new_user_role u r by now) x).1 ≢ none) (sym f)
            (λ z. ground (arith, z))
      | inl f ↦
          subst (λ x. (assign_found q db (new_user_role u r by now) x).1 ≢ none)
            (sym (f ∙ first_active-none u r (rows db) v.1))
            (elim (laws.creates db (new_user_role u r by now)) [
              | inl (h, more) ↦ absurd (ground (arith, h, v))
              | inr (e, g, same) ↦ λ z. ground (arith, g, z)
            ])
    ]

    -- A role that a user held and that `RevokeRole` took away is lost for good: after any further calls of
    -- the two, for whatever users and roles, the user does not hold it, and `AssignRole` for the two answers
    -- with an error.
    pub revoke_role-lasts :
        (db : DB) (calls : List Call) (assigned_by : Uuid) (now : Time)
        → is_active u r (rows db) ≡ true
        → (revoke_role q db u r).1 ≡ none
        → (is_active u r (rows (run_calls calls (revoke_role q db u r).0)) ≡ false)
          × ((assign_role q (run_calls calls (revoke_role q db u r).0) u r assigned_by now).1
              ≢ none)
    revoke_role-lasts db calls assigned_by now a h =
        let db' = (revoke_role q db u r).0 in
        let v : Revoked u r (rows (run_calls calls db')) =
          run_calls-Revoked calls db' (revoke_role-Revoked db a h) in
        (v.1, refused (run_calls calls db') assigned_by now v)
