-- ===== src/Core/Chains/Catalog.antt =====
-- packages/core/src/chain-registry/catalog.ts.
pub mod Slugs
use vex_agentscan.Base.{
  String, Bool, List, [], ◌∷◌, ◌++◌, Option, none, some, is_some, map, keep_if, lookup, put, ◌==◌,
  string_eq, if◌then◌else◌,
}
use vex_agentscan.Base.Int.{ℤ}
use vex_agentscan.Contract.Enums.{ChainFamily}
use vex_agentscan.Core.Policy.{Tier}
use vex_agentscan.Core.Chains.{ChainEntry, EvmChain, SolanaChain, evm_chains, solana_chains}

pub record ChainKeyForSlug : Type 0 where
  pub chain_family : ChainFamily
  pub chain_id : ℤ
  pub protocol : Option String

pub record CatalogChain : Type 0 where
  pub canonical_slug : String
  pub display_name : String
  pub verification_tier : Tier

abbrev by_slug : CatalogChain → String
by_slug chain = chain.canonical_slug

-- The loop of `chainCatalog`: the first entry of a slug stands for it.
unfoldable pub catalog_from : List ChainEntry → List CatalogChain → List CatalogChain
catalog_from [] chains = chains
catalog_from (entry ∷ entries) chains =
    let listed =
      put by_slug
        (record {
          canonical_slug = entry.canonical_slug;
          display_name = entry.display_name;
          verification_tier = entry.verification_tier;
        })
        chains in
    elim (lookup by_slug entry.canonical_slug chains) [
      | some chain ↦ catalog_from entries chains
      | none ↦ catalog_from entries listed
    ]

unfoldable pub chain_catalog : List CatalogChain
chain_catalog =
    catalog_from (map (λ chain. chain.entry) evm_chains ++ map (λ chain. chain.entry) solana_chains)
      []

abbrev pub has_evm_slug : String → EvmChain → Bool
has_evm_slug canonical_slug chain = chain.entry.canonical_slug == canonical_slug

abbrev pub has_solana_slug : String → SolanaChain → Bool
has_solana_slug canonical_slug chain = chain.entry.canonical_slug == canonical_slug

unfoldable pub chain_keys_for_slug : String → List ChainKeyForSlug
chain_keys_for_slug canonical_slug =
    map
      (λ chain. record {
        chain_family = ChainFamily.eip155;
        chain_id = chain.chain_id;
        protocol = none;
      })
      (keep_if (has_evm_slug canonical_slug) evm_chains)
    ++ map
        (λ chain. record {
          chain_family = ChainFamily.solana;
          chain_id = chain.chain_id;
          protocol = some chain.protocol;
        })
        (keep_if (has_solana_slug canonical_slug) solana_chains)
