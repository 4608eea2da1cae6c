-- ===== src/Core/Policy.antt =====
-- packages/core/src/verification/verification-policy.ts.
use vex_agentscan.Base.{Bool, List, [], ◌∷◌, Option, none, some, or_else, contains}
use vex_agentscan.Contract.Enums.{EventKind, EventRole, role_eq}

pub data Tier : Type 0 where
  full basic : Tier

pub record KindVerificationPolicy : Type 0 where
  pub tier_cap : Option Tier
  pub strike_exempt_roles : List EventRole

pub follows_chain_tier : KindVerificationPolicy
follows_chain_tier = record { tier_cap = none; strike_exempt_roles = [] }

unfoldable pub kind_verification_policies : EventKind → KindVerificationPolicy
unfolding follows_chain_tier
kind_verification_policies EventKind.wrap = record {
  tier_cap = some Tier.basic;
  strike_exempt_roles = [];
}
kind_verification_policies EventKind.launch = record {
  tier_cap = some Tier.basic;
  strike_exempt_roles = EventRole.token_launch ∷ [];
}
kind_verification_policies _ = follows_chain_tier

unfoldable pub resolve_verification_tier : EventKind → Tier → Tier
unfolding kind_verification_policies
resolve_verification_tier kind chain_tier =
    or_else (kind_verification_policies kind).tier_cap chain_tier

unfoldable pub is_launch_shaped : EventKind → EventRole → Bool
unfolding kind_verification_policies
is_launch_shaped kind event_role =
    contains (kind_verification_policies kind).strike_exempt_roles event_role
