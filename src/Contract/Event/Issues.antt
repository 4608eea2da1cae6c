-- ===== src/Contract/Event/Issues.antt =====
-- packages/contract/src/event.ts: the refinements of `eventSchema`. Each issue is kept by its
-- path, the field that it names.
use vex_agentscan.Base.{
  Bool, true, ◌||◌, not, List, [], ◌∷◌, ◌++◌, is_some, keep_if, contains, ◌==◌, if◌then◌else◌,
}
use vex_agentscan.Contract.Enums.{EventStatus, status_eq, role_eq}
use vex_agentscan.Contract.Roles.{
  second_leg_roles, input_leg_forbidden_roles, is_role_bound_to_kind,
}
use vex_agentscan.Contract.Event.{IngestEvent}

pub data Field : Type 0 where
  event_role failure_code : Field
  token_in amount_in_raw executed_in_raw : Field
  token_in2 token_out2 : Field
  amount_in2_raw amount_out2_raw executed_in2_raw executed_out2_raw : Field

abbrev pub second_leg_fields : List Field
second_leg_fields =
    token_in2 ∷ token_out2 ∷ amount_in2_raw ∷ amount_out2_raw ∷ executed_in2_raw ∷ executed_out2_raw
    ∷ []

abbrev pub input_leg_fields : List Field
input_leg_fields =
    token_in ∷ amount_in_raw ∷ executed_in_raw ∷ token_in2 ∷ amount_in2_raw ∷ executed_in2_raw ∷ []

-- `event[field] !== null && event[field] !== undefined`
abbrev pub is_populated : IngestEvent → Field → Bool
is_populated event event_role = true
is_populated event failure_code = is_some event.failure_code
is_populated event token_in = is_some event.leg_in.token
is_populated event amount_in_raw = is_some event.leg_in.amount_raw
is_populated event executed_in_raw = is_some event.leg_in.executed_raw
is_populated event token_in2 = is_some event.leg_in2.token
is_populated event token_out2 = is_some event.leg_out2.token
is_populated event amount_in2_raw = is_some event.leg_in2.amount_raw
is_populated event amount_out2_raw = is_some event.leg_out2.amount_raw
is_populated event executed_in2_raw = is_some event.leg_in2.executed_raw
is_populated event executed_out2_raw = is_some event.leg_out2.executed_raw

unfoldable pub populated_fields : IngestEvent → List Field → List Field
populated_fields event fields = keep_if (is_populated event) fields

unfoldable pub check_role_bound_to_kind : IngestEvent → List Field
check_role_bound_to_kind event =
    if is_role_bound_to_kind event.kind event.event_role then [] else event_role ∷ []

unfoldable pub check_second_leg_role_allowed : IngestEvent → List Field
unfolding populated_fields
check_second_leg_role_allowed event =
    if contains second_leg_roles event.event_role
    then []
    else populated_fields event second_leg_fields

unfoldable pub check_leg_amount_names_its_token : IngestEvent → Field → List Field → List Field
unfolding populated_fields
check_leg_amount_names_its_token event token_field amount_fields =
    if is_populated event token_field then [] else populated_fields event amount_fields

unfoldable pub check_second_leg_amount_names_its_token : IngestEvent → List Field
unfolding check_leg_amount_names_its_token
check_second_leg_amount_names_its_token event =
    check_leg_amount_names_its_token event token_in2 (amount_in2_raw ∷ executed_in2_raw ∷ [])
    ++ check_leg_amount_names_its_token event token_out2 (amount_out2_raw ∷ executed_out2_raw ∷ [])

unfoldable pub check_input_leg_forbidden : IngestEvent → List Field
unfolding populated_fields
check_input_leg_forbidden event =
    if contains input_leg_forbidden_roles event.event_role
    then populated_fields event input_leg_fields
    else []

unfoldable pub check_superseded_carries_no_failure_code : IngestEvent → List Field
check_superseded_carries_no_failure_code event =
    if not (event.status == EventStatus.superseded_unproven) || not (is_some event.failure_code)
    then []
    else failure_code ∷ []

-- The issues of `eventSchema.superRefine`; the event is admitted when there is none.
unfoldable pub issues : IngestEvent → List Field
unfolding check_role_bound_to_kind check_second_leg_role_allowed
    check_second_leg_amount_names_its_token check_input_leg_forbidden
    check_superseded_carries_no_failure_code
issues event =
    check_role_bound_to_kind event
    ++ (check_second_leg_role_allowed event
        ++ (check_second_leg_amount_names_its_token event
            ++ (check_input_leg_forbidden event ++ check_superseded_carries_no_failure_code event)))
