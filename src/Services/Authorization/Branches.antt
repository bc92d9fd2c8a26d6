-- ===== src/Services/Authorization/Branches.antt =====
-- The policies of tasks and of users in authorization.go, branch by branch.
use task_management_api.Shared.{
  true, ◌≡◌, inl, inr, ◌↔◌, none, List, bytes, bytes_eq_iff, ◌==◌, ==_iff, arith, Bool-cases,
  Option-cases,
}
use task_management_api.Models.{Task, UserAttribute}
use task_management_api.Services.Database.{Found-cases}
use task_management_api.Services.Authorization.{
  AuthorizationRequest, Queries, user_attr, same_department_read, evaluate_task_abac_policy,
  evaluate_user_abac_policy,
}
use task_management_api.Services.Authorization.Policy.{Colleague, TaskAllowed, UserAllowed}

module _ (q : Queries) (request : AuthorizationRequest) where
  same_department_read-Colleague :
      (attrs : List UserAttribute) (task : Task)
      → (same_department_read q request attrs task ≡ true) ↔ Colleague q request attrs task
  unfolding same_department_read
  same_department_read-Colleague attrs task = (
    λ h. elim (Option-cases (user_attr (bytes "department") attrs)) [
      | inl e ↦ absurd (ground arith)
      | inr (d, e) ↦ elim (Found-cases (q.first_department task.user_id)) [
        | inl (d', f) ↦ (
          d,
          e,
          ground (arith, bytes_eq_iff d' d),
          ground (arith, bytes_eq_iff request.action (bytes "read")),
        )
        | inr (inl f) ↦ absurd (ground arith)
        | inr (inr (x, f)) ↦ absurd (ground arith)
      ]
    ],
    λ (d, e, f, g). ground (arith, bytes_eq_iff d d, bytes_eq_iff request.action (bytes "read")),
  )

  pub task_sound :
      (attrs : List UserAttribute)
      → (evaluate_task_abac_policy q request attrs).allowed ≡ true
      → TaskAllowed q request attrs
  unfolding evaluate_task_abac_policy
  task_sound attrs h = elim (Option-cases request.resource_id) [
    | inl e ↦ inr (inl e)
    | inr (id, e) ↦ elim (Found-cases (q.first_task id)) [
      | inl (task, f) ↦ elim (Bool-cases (same_department_read q request attrs task)) [
        | inl member ↦
            inr (inr (id, task, e, f, inr ((same_department_read-Colleague attrs task).0 member)))
        | inr other ↦ elim (Bool-cases (task.user_id == request.user_id)) [
          | inl own ↦ inr (inr (id, task, e, f, inl ((==_iff task.user_id request.user_id).0 own)))
          | inr another ↦ inl (ground (arith, bytes_eq_iff request.action (bytes "create")))
        ]
      ]
      | inr (inl f) ↦ inl (ground (arith, bytes_eq_iff request.action (bytes "create")))
      | inr (inr (x, f)) ↦ inl (ground (arith, bytes_eq_iff request.action (bytes "create")))
    ]
  ]

  pub task_complete :
      (attrs : List UserAttribute)
      → TaskAllowed q request attrs
      → ((evaluate_task_abac_policy q request attrs).allowed ≡ true)
        × ((evaluate_task_abac_policy q request attrs).error ≡ none)
  unfolding evaluate_task_abac_policy
  task_complete attrs (inl e) = ground (arith, bytes_eq_iff request.action (bytes "create"))
  task_complete attrs (inr (inl e)) = ground arith
  task_complete attrs (inr (inr (id, task, e, f, inl own))) = ground arith
  task_complete attrs (inr (inr (id, task, e, f, inr member))) =
      ground (arith, (same_department_read-Colleague attrs task).1 member)

  pub user_iff : ((evaluate_user_abac_policy request).allowed ≡ true) ↔ UserAllowed q request
  unfolding evaluate_user_abac_policy
  user_iff = (
    λ h. elim (Option-cases request.resource_id) [
      | inl e ↦ inl e
      | inr (id, e) ↦ ground (
        arith,
        ==_iff id request.user_id,
        bytes_eq_iff request.action (bytes "update"),
        bytes_eq_iff request.action (bytes "delete"),
      )
    ],
    elim [
      | inl e ↦ ground arith
      | inr (inl e) ↦ ground arith
      | inr (inr (u, d)) ↦ ground (
        arith,
        bytes_eq_iff request.action (bytes "update"),
        bytes_eq_iff request.action (bytes "delete"),
      )
    ],
  )
