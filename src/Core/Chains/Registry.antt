-- ===== src/Core/Chains/Registry.antt =====
-- packages/core/src/chain-registry/registry.ts and ../bridge-chain.ts.
pub mod Listed
use vex_agentscan.Base.{
  ℕ, String, Bool, List, [], ◌∷◌, ◌++◌, Option, none, some, is_some, lookup, put, Eq, if◌then◌else◌,
}
use vex_agentscan.Base.Int.{ℤ, int_eq, abs_ℤ, is_negative}
use vex_agentscan.Base.Text.{codes, codes_eq}
use vex_agentscan.Base.Digits.{number_text}
use vex_agentscan.Contract.Enums.{ChainFamily}
use vex_agentscan.Core.Chains.{ChainEntry, EvmChain, SolanaChain, evm_chains, solana_chains}

pub record ChainKey : Type 0 where
  pub protocol : String
  pub chain_family : ChainFamily
  pub chain_id : ℤ

-- `${chainId}`
unfoldable pub int_text : ℤ → List ℕ
int_text a = if is_negative a then 45 ∷ number_text (abs_ℤ a) else number_text (abs_ℤ a)

-- `${protocol}:${chainId}`
unfoldable pub provider_native_key : String → ℤ → List ℕ
provider_native_key protocol chain_id = codes protocol ++ 58 ∷ int_text chain_id

abbrev pub by_chain_id : EvmChain → ℤ
by_chain_id chain = chain.chain_id

abbrev pub by_provider_key : SolanaChain → List ℕ
by_provider_key chain = provider_native_key chain.protocol chain.chain_id

-- `new Map(pairs)`: a key that stands twice has its last value.
unfoldable pub map_from {ℓ κ} :
    {R : Type ℓ} {K : Type κ} ⦃e : Eq K⦄ → (R → K) → List R → List R → List R
map_from key [] entries = entries
map_from key (r ∷ rs) entries = map_from key rs (put key r entries)

unfoldable pub evm_entries_by_chain_id : List EvmChain
evm_entries_by_chain_id = map_from by_chain_id evm_chains []

unfoldable pub solana_entries_by_provider_key : List SolanaChain
solana_entries_by_provider_key = map_from by_provider_key solana_chains []

abbrev entry_of_evm : Option EvmChain → Option ChainEntry
entry_of_evm none = none
entry_of_evm (some chain) = some chain.entry

abbrev entry_of_solana : Option SolanaChain → Option ChainEntry
entry_of_solana none = none
entry_of_solana (some chain) = some chain.entry

unfoldable pub resolve_chain : ChainKey → Option ChainEntry
resolve_chain key = elim key.chain_family [
  | ChainFamily.eip155 ↦ entry_of_evm (lookup by_chain_id key.chain_id evm_entries_by_chain_id)
  | ChainFamily.solana ↦ entry_of_solana (
      lookup by_provider_key (provider_native_key key.protocol key.chain_id)
        solana_entries_by_provider_key)
]

unfoldable pub resolve_bridge_chain : String → ℤ → Option ChainEntry
resolve_bridge_chain protocol chain_id =
    elim (resolve_chain
      (record { protocol = protocol; chain_family = ChainFamily.solana; chain_id = chain_id })) [
        | some provider_native_entry ↦ some provider_native_entry
        | none ↦
            resolve_chain (record {
              protocol = protocol;
              chain_family = ChainFamily.eip155;
              chain_id = chain_id;
            })
      ]
