-- ===== src/Core/Attestation/Factories.antt =====
-- packages/core/src/chain-registry/attestation-chain-registry.ts. A map of the configuration is a
-- function; the registry holds the attestation chains that have a factory.
use vex_agentscan.Base.{
  String, List, [], ◌∷◌, Option, none, some, or_else, contains, if◌then◌else◌, ◌==◌, ◌≢◌, arith,
}
use vex_agentscan.Base.Int.{ℤ, pos, int_eq}

abbrev pub attestation_chain_ids : List ℤ
attestation_chain_ids = pos 4663 ∷ []

abbrev trench_token_factory_address : String
trench_token_factory_address = "0x3857c6c4fe93abb40945dfc8b9d690384cbae014"

unfoldable pub default_factory_addresses : ℤ → Option (List String)
default_factory_addresses chain_id =
    if chain_id == pos 4663 then some (trench_token_factory_address ∷ []) else none

unfoldable pub factory_addresses_for : ℤ → (ℤ → Option (List String)) → List String
factory_addresses_for chain_id configured = elim (configured chain_id) [
  | some addresses ↦ addresses
  | none ↦ or_else (default_factory_addresses chain_id) []
]

abbrev nonempty : List String → Option (List String)
nonempty [] = none
nonempty (address ∷ addresses) = some (address ∷ addresses)

unfoldable pub build_attestation_chain_registry :
    (ℤ → Option (List String)) → ℤ → Option (List String)
build_attestation_chain_registry configured chain_id =
    if contains attestation_chain_ids chain_id
    then nonempty (factory_addresses_for chain_id configured)
    else none

-- No chain of the registry is without a factory, whatever is configured.
pub registry-nonempty :
    (configured : ℤ → Option (List String)) (chain_id : ℤ)
    → build_attestation_chain_registry configured chain_id ≢ some []
unfolding build_attestation_chain_registry
registry-nonempty configured chain_id h = ground (arith, h)
