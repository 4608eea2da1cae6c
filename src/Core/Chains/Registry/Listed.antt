-- ===== src/Core/Chains/Registry/Listed.antt =====
-- Every chain of the tables is resolved to its own entry.
use vex_agentscan.Base.{String, some, lookup, put, All, ◌≡◌, refl, nat_eq}
use vex_agentscan.Base.Int.{int_eq}
use vex_agentscan.Base.Text.{codes_eq}
use vex_agentscan.Base.Digits.{digits_of, number_text}
use vex_agentscan.Contract.Enums.{ChainFamily}
use vex_agentscan.Core.Chains.{EvmChain, SolanaChain, evm_chains, solana_chains}
use vex_agentscan.Core.Chains.Registry.{
  int_text, provider_native_key, map_from, evm_entries_by_chain_id, solana_entries_by_provider_key,
  resolve_chain,
}

pub evm-listed :
    All
      (λ (c : EvmChain).
        (protocol : String)
        → resolve_chain (record {
          protocol = protocol;
          chain_family = ChainFamily.eip155;
          chain_id = c.chain_id;
        })
          ≡ some c.entry)
      evm_chains
unfolding resolve_chain evm_entries_by_chain_id map_from evm_chains lookup put
evm-listed = (
  λ p. refl,
  (
    λ p. refl,
    (
      λ p. refl,
      (
        λ p. refl,
        (
          λ p. refl,
          (
            λ p. refl,
            (
              λ p. refl,
              (
                λ p. refl,
                (
                  λ p. refl,
                  (
                    λ p. refl,
                    (
                      λ p. refl,
                      (
                        λ p. refl,
                        (
                          λ p. refl,
                          (λ p. refl, (λ p. refl, (λ p. refl, (λ p. refl, (λ p. refl, tt))))),
                        ),
                      ),
                    ),
                  ),
                ),
              ),
            ),
          ),
        ),
      ),
    ),
  ),
)

pub solana-listed :
    All
      (λ (c : SolanaChain).
        resolve_chain (record {
          protocol = c.protocol;
          chain_family = ChainFamily.solana;
          chain_id = c.chain_id;
        })
        ≡ some c.entry)
      solana_chains
unfolding resolve_chain solana_entries_by_provider_key map_from solana_chains provider_native_key
    int_text number_text digits_of lookup put
solana-listed = (refl, (refl, (refl, tt)))
