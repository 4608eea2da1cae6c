-- ===== src/Contract/Event/Admission.antt =====
-- What the refinements of `eventSchema` let through.
use vex_agentscan.Base.{
  true, false, List, [], ◌∷◌, ◌++◌, arith, Option, none, some, is_some, contains, ◌==◌, ◌≡◌, ◌↔◌,
  refl, Bool-cases, Option-cases, inl, inr,
}
use vex_agentscan.Contract.Enums.{EventStatus, status_eq, role_eq}
use vex_agentscan.Contract.Roles.{
  second_leg_roles, input_leg_forbidden_roles, is_role_bound_to_kind,
}
use vex_agentscan.Contract.Event.{Leg, IngestEvent}
use vex_agentscan.Contract.Event.Issues.{
  Field, second_leg_fields, input_leg_fields, populated_fields, check_role_bound_to_kind,
  check_second_leg_role_allowed, check_leg_amount_names_its_token,
  check_second_leg_amount_names_its_token, check_input_leg_forbidden,
  check_superseded_carries_no_failure_code, issues,
}

append-nil : (xs ys : List Field) → xs ++ ys ≡ [] → (xs ≡ []) × (ys ≡ [])
append-nil [] ys h = (refl, h)
append-nil (x ∷ xs) ys h = absurd (ground arith)

-- No token, no amount and no executed amount.
abbrev pub IsEmptyLeg : Leg → Type 0
IsEmptyLeg leg = (leg.token ≡ none) × (leg.amount_raw ≡ none) × (leg.executed_raw ≡ none)

-- Both of its amounts stand only where its token does.
abbrev pub NamesItsToken : Leg → Type 0
NamesItsToken leg = leg.token ≡ none → (leg.amount_raw ≡ none) × (leg.executed_raw ≡ none)

-- The second legs are empty, all six of their fields.
abbrev pub HasNoSecondLeg : IngestEvent → Type 0
HasNoSecondLeg event = IsEmptyLeg event.leg_in2 × IsEmptyLeg event.leg_out2

-- What an event has that raises no issue.
pub record IsAdmitted (event : IngestEvent) : Type 0 where
  pub bound : is_role_bound_to_kind event.kind event.event_role ≡ true
  pub second_leg : contains second_leg_roles event.event_role ≡ false → HasNoSecondLeg event
  pub second_input : NamesItsToken event.leg_in2
  pub second_output : NamesItsToken event.leg_out2
  pub input_leg :
      contains input_leg_forbidden_roles event.event_role ≡ true
      → IsEmptyLeg event.leg_in × IsEmptyLeg event.leg_in2
  pub superseded : event.status ≡ EventStatus.superseded_unproven → event.failure_code ≡ none

is_some-none {ℓ} : {A : Type ℓ} → (x : Option A) → is_some x ≡ false → x ≡ none
is_some-none none h = refl
is_some-none (some a) h = absurd (ground arith)

append-empty : (xs ys : List Field) → xs ≡ [] → ys ≡ [] → xs ++ ys ≡ []
append-empty xs ys h k = rw (h, k) refl

empty-IsEmptyLeg :
    (leg : Leg)
    → is_some leg.token ≡ false
    → is_some leg.amount_raw ≡ false
    → is_some leg.executed_raw ≡ false
    → IsEmptyLeg leg
empty-IsEmptyLeg leg h k l =
    (is_some-none leg.token h, is_some-none leg.amount_raw k, is_some-none leg.executed_raw l)

module _ (event : IngestEvent) where
  second_legs : populated_fields event second_leg_fields ≡ [] → HasNoSecondLeg event
  unfolding populated_fields
  second_legs h = (
    empty-IsEmptyLeg event.leg_in2 (ground (arith, h)) (ground (arith, h)) (ground (arith, h)),
    empty-IsEmptyLeg event.leg_out2 (ground (arith, h)) (ground (arith, h)) (ground (arith, h)),
  )

  input_legs :
      populated_fields event input_leg_fields ≡ []
      → IsEmptyLeg event.leg_in × IsEmptyLeg event.leg_in2
  unfolding populated_fields
  input_legs h = (
    empty-IsEmptyLeg event.leg_in (ground (arith, h)) (ground (arith, h)) (ground (arith, h)),
    empty-IsEmptyLeg event.leg_in2 (ground (arith, h)) (ground (arith, h)) (ground (arith, h)),
  )

  names_in :
      check_leg_amount_names_its_token event Field.token_in2
          (Field.amount_in2_raw ∷ Field.executed_in2_raw ∷ [])
        ≡ []
      → NamesItsToken event.leg_in2
  unfolding check_leg_amount_names_its_token populated_fields
  names_in h missing = (
    is_some-none event.leg_in2.amount_raw (ground (arith, h, missing)),
    is_some-none event.leg_in2.executed_raw (ground (arith, h, missing)),
  )

  names_out :
      check_leg_amount_names_its_token event Field.token_out2
          (Field.amount_out2_raw ∷ Field.executed_out2_raw ∷ [])
        ≡ []
      → NamesItsToken event.leg_out2
  unfolding check_leg_amount_names_its_token populated_fields
  names_out h missing = (
    is_some-none event.leg_out2.amount_raw (ground (arith, h, missing)),
    is_some-none event.leg_out2.executed_raw (ground (arith, h, missing)),
  )

  admitted : issues event ≡ [] → IsAdmitted event
  unfolding issues check_role_bound_to_kind check_second_leg_role_allowed
      check_second_leg_amount_names_its_token check_input_leg_forbidden
      check_superseded_carries_no_failure_code
  admitted h =
      let (role, h1) = append-nil (check_role_bound_to_kind event) _ h in
      let (second, h2) = append-nil (check_second_leg_role_allowed event) _ h1 in
      let (amounts, h3) = append-nil (check_second_leg_amount_names_its_token event) _ h2 in
      let (input, superseded) = append-nil (check_input_leg_forbidden event) _ h3 in
      let (amounts_in, amounts_out) =
        append-nil
          (check_leg_amount_names_its_token event Field.token_in2
            (Field.amount_in2_raw ∷ Field.executed_in2_raw ∷ []))
          _ amounts in
      record {
        bound = ground (arith, role);
        second_leg = λ out. second_legs (ground (arith, second, out));
        second_input = names_in amounts_in;
        second_output = names_out amounts_out;
        input_leg = λ spends. input_legs (ground (arith, input, spends));
        superseded = λ is. is_some-none event.failure_code (
            ground (
              arith,
              superseded,
              is,
              status_eq.beq_iff event.status EventStatus.superseded_unproven,
            ));
      }

  silent_role : IsAdmitted event → check_role_bound_to_kind event ≡ []
  unfolding check_role_bound_to_kind
  silent_role a = let h = a.bound in ground (arith, h)

  silent_second : IsAdmitted event → check_second_leg_role_allowed event ≡ []
  unfolding check_second_leg_role_allowed populated_fields
  silent_second a = elim (Bool-cases (contains second_leg_roles event.event_role)) [
    | inl allowed ↦ ground (arith, allowed)
    | inr out ↦ let h = a.second_leg out in ground (arith, out, h)
  ]

  silent_amounts : IsAdmitted event → check_second_leg_amount_names_its_token event ≡ []
  unfolding check_second_leg_amount_names_its_token check_leg_amount_names_its_token
      populated_fields
  silent_amounts a =
      let h = a.second_input in
      let k = a.second_output in
      append-empty
        (check_leg_amount_names_its_token event Field.token_in2
          (Field.amount_in2_raw ∷ Field.executed_in2_raw ∷ []))
        (check_leg_amount_names_its_token event Field.token_out2
          (Field.amount_out2_raw ∷ Field.executed_out2_raw ∷ []))
        (elim (Option-cases event.leg_in2.token) [
          | inl missing ↦ let none_in = h missing in ground (arith, missing, none_in)
          | inr (token, given) ↦ ground (arith, given)
        ])
        (elim (Option-cases event.leg_out2.token) [
          | inl missing ↦ let none_out = k missing in ground (arith, missing, none_out)
          | inr (token, given) ↦ ground (arith, given)
        ])

  silent_input : IsAdmitted event → check_input_leg_forbidden event ≡ []
  unfolding check_input_leg_forbidden populated_fields
  silent_input a = elim (Bool-cases (contains input_leg_forbidden_roles event.event_role)) [
    | inl spends ↦ let h = a.input_leg spends in ground (arith, spends, h)
    | inr out ↦ ground (arith, out)
  ]

  silent_superseded : IsAdmitted event → check_superseded_carries_no_failure_code event ≡ []
  unfolding check_superseded_carries_no_failure_code
  silent_superseded a =
      let h = a.superseded in
      let is = status_eq.beq_iff event.status EventStatus.superseded_unproven in
      elim (Bool-cases (event.status == EventStatus.superseded_unproven)) [
        | inl same ↦ let no_code = h (is.0 same) in ground (arith, same, no_code)
        | inr other ↦ ground (arith, other)
      ]

  silent : IsAdmitted event → issues event ≡ []
  unfolding issues
  silent a = append-empty _ _ (silent_role a) (
      append-empty _ _ (silent_second a) (
        append-empty _ _ (silent_amounts a)
          (append-empty _ _ (silent_input a) (silent_superseded a))))

-- An event that raises no issue has a role of its kind, a second leg only where its role allows one,
-- no amount of a second leg without the leg's token, neither of the input legs where its role
-- spends nothing, and no failure code where it is superseded and unproven; and an event that has all
-- this raises none.
pub issues-IsAdmitted : (event : IngestEvent) → (issues event ≡ []) ↔ IsAdmitted event
issues-IsAdmitted event = (admitted event, silent event)
