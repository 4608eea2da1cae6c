-- ===== src/Contract/Roles.antt =====
-- packages/contract/src/role-binding.ts, and capital-deploying-roles.ts of packages/core.
use vex_agentscan.Base.{Bool, List, [], ◌∷◌, contains}
use vex_agentscan.Contract.Enums.{EventKind, EventRole, role_eq}

unfoldable pub roles_by_kind : EventKind → List EventRole
roles_by_kind EventKind.swap = EventRole.swap ∷ EventRole.trench_fee ∷ EventRole.swap_fee ∷ []
roles_by_kind EventKind.bridge =
    EventRole.bridge_deposit ∷ EventRole.bridge_fee ∷ EventRole.bridge_fill_expected
    ∷ EventRole.bridge_fill_observed ∷ EventRole.bridge_refund ∷ []
roles_by_kind EventKind.lend =
    EventRole.lend_deposit ∷ EventRole.lend_withdraw ∷ EventRole.lend_borrow_operate ∷ []
roles_by_kind EventKind.prediction =
    EventRole.predict_buy ∷ EventRole.predict_sell ∷ EventRole.predict_claim
    ∷ EventRole.predict_close ∷ []
roles_by_kind EventKind.wrap = EventRole.wrap ∷ EventRole.unwrap ∷ []
roles_by_kind EventKind.yield =
    EventRole.yield_pt ∷ EventRole.yield_yt ∷ EventRole.yield_py ∷ EventRole.yield_lp
    ∷ EventRole.yield_sy ∷ EventRole.yield_claim ∷ []
roles_by_kind EventKind.launch =
    EventRole.token_launch ∷ EventRole.trench_fee ∷ EventRole.pools_fee ∷ []
roles_by_kind EventKind.claim = EventRole.pools_claim ∷ []

unfoldable pub second_leg_roles : List EventRole
second_leg_roles = EventRole.yield_py ∷ EventRole.yield_lp ∷ EventRole.pools_claim ∷ []

unfoldable pub input_leg_forbidden_roles : List EventRole
input_leg_forbidden_roles = EventRole.yield_claim ∷ EventRole.pools_claim ∷ []

unfoldable pub is_role_bound_to_kind : EventKind → EventRole → Bool
is_role_bound_to_kind kind role = contains (roles_by_kind kind) role

unfoldable pub capital_deploying_roles : List EventRole
capital_deploying_roles =
    EventRole.swap ∷ EventRole.bridge_deposit ∷ EventRole.lend_deposit ∷ EventRole.predict_buy ∷ []

unfoldable pub deploys_capital_role : EventRole → Bool
deploys_capital_role role = contains capital_deploying_roles role
