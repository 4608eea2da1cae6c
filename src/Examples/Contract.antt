-- ===== src/Examples/Contract.antt =====
-- The reported swap is an event that the contract admits.
use mathlib.Core.Bool.{decide}
use vex_agentscan.Base.{[], ◌≡◌, ◌↔◌, refl}
use vex_agentscan.Contract.Enums.{EventRole_discrete, EventStatus_discrete}
use vex_agentscan.Contract.Roles.{
  roles_by_kind, second_leg_roles, input_leg_forbidden_roles, is_role_bound_to_kind,
}
use vex_agentscan.Contract.Event.Issues.{
  populated_fields, check_role_bound_to_kind, check_second_leg_role_allowed,
  check_leg_amount_names_its_token, check_second_leg_amount_names_its_token,
  check_input_leg_forbidden, check_superseded_carries_no_failure_code, issues,
}
use vex_agentscan.Contract.Event.Admission.{IsAdmitted, issues-IsAdmitted}
use vex_agentscan.Examples.{swapped}

swapped-issues : issues swapped ≡ []
unfolding issues populated_fields check_role_bound_to_kind check_second_leg_role_allowed
    check_leg_amount_names_its_token check_second_leg_amount_names_its_token
    check_input_leg_forbidden check_superseded_carries_no_failure_code is_role_bound_to_kind
    roles_by_kind second_leg_roles input_leg_forbidden_roles decide EventRole_discrete
    EventStatus_discrete
swapped-issues = refl

issues-IsAdmitted_example : (issues swapped ≡ []) ↔ IsAdmitted swapped
issues-IsAdmitted_example = issues-IsAdmitted swapped
