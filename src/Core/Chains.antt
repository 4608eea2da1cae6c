-- ===== src/Core/Chains.antt =====
-- packages/core/src/chain-registry/chains.ts: the chains that the service knows.
pub mod Registry
pub mod Catalog
use vex_agentscan.Base.{ℕ, String, List, [], ◌∷◌, Option, none, some}
use Prim.Native.String.{◌++◌}
use vex_agentscan.Base.Int.{ℤ, pos}
use vex_agentscan.Contract.Enums.{ChainFamily}
use vex_agentscan.Core.Policy.{Tier}

pub record ChainEntry : Type 0 where
  pub canonical_slug : String
  pub chain_family : ChainFamily
  pub display_name : String
  pub explorer_tx_url : String → Option String
  pub rpc_urls : List String
  pub verification_tier : Tier
  pub price_feed_key : Option String

pub record EvmChain : Type 0 where
  pub chain_id : ℤ
  pub entry : ChainEntry

pub record SolanaChain : Type 0 where
  pub protocol : String
  pub chain_id : ℤ
  pub entry : ChainEntry

abbrev explorer_tx : String → String → Option String
explorer_tx base_url tx_hash = some (base_url ++ "/tx/" ++ tx_hash)

unfoldable pub evm_chains : List EvmChain
evm_chains =
    record {
      chain_id = pos 1;
      entry = record {
        canonical_slug = "ethereum";
        chain_family = ChainFamily.eip155;
        display_name = "Ethereum";
        explorer_tx_url = explorer_tx "https://etherscan.io";
        rpc_urls = "https://ethereum-rpc.publicnode.com" ∷ "https://eth.llamarpc.com" ∷ [];
        verification_tier = Tier.full;
        price_feed_key = some "ethereum";
      };
    }
    ∷ record {
      chain_id = pos 8453;
      entry = record {
        canonical_slug = "base";
        chain_family = ChainFamily.eip155;
        display_name = "Base";
        explorer_tx_url = explorer_tx "https://basescan.org";
        rpc_urls = "https://mainnet.base.org" ∷ "https://base-rpc.publicnode.com" ∷ [];
        verification_tier = Tier.full;
        price_feed_key = some "base";
      };
    }
    ∷ record {
      chain_id = pos 42161;
      entry = record {
        canonical_slug = "arbitrum";
        chain_family = ChainFamily.eip155;
        display_name = "Arbitrum One";
        explorer_tx_url = explorer_tx "https://arbiscan.io";
        rpc_urls = "https://arb1.arbitrum.io/rpc" ∷ "https://arbitrum-one-rpc.publicnode.com" ∷ [];
        verification_tier = Tier.full;
        price_feed_key = some "arbitrum";
      };
    }
    ∷ record {
      chain_id = pos 10;
      entry = record {
        canonical_slug = "optimism";
        chain_family = ChainFamily.eip155;
        display_name = "OP Mainnet";
        explorer_tx_url = explorer_tx "https://optimistic.etherscan.io";
        rpc_urls = "https://mainnet.optimism.io" ∷ "https://optimism-rpc.publicnode.com" ∷ [];
        verification_tier = Tier.full;
        price_feed_key = some "optimism";
      };
    }
    ∷ record {
      chain_id = pos 137;
      entry = record {
        canonical_slug = "polygon";
        chain_family = ChainFamily.eip155;
        display_name = "Polygon";
        explorer_tx_url = explorer_tx "https://polygonscan.com";
        rpc_urls = "https://polygon-rpc.com" ∷ "https://polygon-bor-rpc.publicnode.com" ∷ [];
        verification_tier = Tier.full;
        price_feed_key = some "polygon";
      };
    }
    ∷ record {
      chain_id = pos 4663;
      entry = record {
        canonical_slug = "robinhood";
        chain_family = ChainFamily.eip155;
        display_name = "Robinhood Chain";
        explorer_tx_url = explorer_tx "https://robinhoodchain.blockscout.com";
        rpc_urls = "https://rpc.mainnet.chain.robinhood.com" ∷ [];
        verification_tier = Tier.full;
        price_feed_key = some "robinhood";
      };
    }
    ∷ record {
      chain_id = pos 130;
      entry = record {
        canonical_slug = "unichain";
        chain_family = ChainFamily.eip155;
        display_name = "Unichain";
        explorer_tx_url = explorer_tx "https://uniscan.xyz";
        rpc_urls = "https://mainnet.unichain.org" ∷ "https://unichain-rpc.publicnode.com" ∷ [];
        verification_tier = Tier.full;
        price_feed_key = some "unichain";
      };
    }
    ∷ record {
      chain_id = pos 143;
      entry = record {
        canonical_slug = "monad";
        chain_family = ChainFamily.eip155;
        display_name = "Monad";
        explorer_tx_url = explorer_tx "https://monadvision.com";
        rpc_urls = "https://rpc.monad.xyz" ∷ "https://rpc1.monad.xyz" ∷ [];
        verification_tier = Tier.full;
        price_feed_key = some "monad";
      };
    }
    ∷ record {
      chain_id = pos 999;
      entry = record {
        canonical_slug = "hyperevm";
        chain_family = ChainFamily.eip155;
        display_name = "HyperEVM";
        explorer_tx_url = explorer_tx "https://hyperevmscan.io";
        rpc_urls = "https://rpc.hyperliquid.xyz/evm" ∷ [];
        verification_tier = Tier.full;
        price_feed_key = some "hyperliquid";
      };
    }
    ∷ record {
      chain_id = pos 56;
      entry = record {
        canonical_slug = "bsc";
        chain_family = ChainFamily.eip155;
        display_name = "BNB Smart Chain";
        explorer_tx_url = explorer_tx "https://bscscan.com";
        rpc_urls = "https://bsc-dataseed1.bnbchain.org" ∷ "https://bsc-dataseed2.bnbchain.org" ∷ [];
        verification_tier = Tier.full;
        price_feed_key = some "bsc";
      };
    }
    ∷ record {
      chain_id = pos 43114;
      entry = record {
        canonical_slug = "avalanche";
        chain_family = ChainFamily.eip155;
        display_name = "Avalanche C-Chain";
        explorer_tx_url = explorer_tx "https://snowtrace.io";
        rpc_urls =
            "https://api.avax.network/ext/bc/C/rpc" ∷ "https://avalanche-c-chain-rpc.publicnode.com"
            ∷ [];
        verification_tier = Tier.full;
        price_feed_key = some "avalanche";
      };
    }
    ∷ record {
      chain_id = pos 59144;
      entry = record {
        canonical_slug = "linea";
        chain_family = ChainFamily.eip155;
        display_name = "Linea";
        explorer_tx_url = explorer_tx "https://lineascan.build";
        rpc_urls = "https://rpc.linea.build" ∷ "https://linea-rpc.publicnode.com" ∷ [];
        verification_tier = Tier.full;
        price_feed_key = some "linea";
      };
    }
    ∷ record {
      chain_id = pos 5000;
      entry = record {
        canonical_slug = "mantle";
        chain_family = ChainFamily.eip155;
        display_name = "Mantle";
        explorer_tx_url = explorer_tx "https://mantlescan.xyz";
        rpc_urls = "https://rpc.mantle.xyz" ∷ "https://mantle-rpc.publicnode.com" ∷ [];
        verification_tier = Tier.full;
        price_feed_key = some "mantle";
      };
    }
    ∷ record {
      chain_id = pos 80094;
      entry = record {
        canonical_slug = "berachain";
        chain_family = ChainFamily.eip155;
        display_name = "Berachain";
        explorer_tx_url = explorer_tx "https://berascan.com";
        rpc_urls = "https://rpc.berachain.com" ∷ "https://berachain-rpc.publicnode.com" ∷ [];
        verification_tier = Tier.full;
        price_feed_key = some "berachain";
      };
    }
    ∷ record {
      chain_id = pos 146;
      entry = record {
        canonical_slug = "sonic";
        chain_family = ChainFamily.eip155;
        display_name = "Sonic";
        explorer_tx_url = explorer_tx "https://sonicscan.org";
        rpc_urls = "https://rpc.soniclabs.com" ∷ "https://sonic-rpc.publicnode.com" ∷ [];
        verification_tier = Tier.full;
        price_feed_key = some "sonic";
      };
    }
    ∷ record {
      chain_id = pos 9745;
      entry = record {
        canonical_slug = "plasma";
        chain_family = ChainFamily.eip155;
        display_name = "Plasma";
        explorer_tx_url = explorer_tx "https://plasmascan.to";
        rpc_urls = "https://rpc.plasma.to" ∷ [];
        verification_tier = Tier.full;
        price_feed_key = some "plasma";
      };
    }
    ∷ record {
      chain_id = pos 2020;
      entry = record {
        canonical_slug = "ronin";
        chain_family = ChainFamily.eip155;
        display_name = "Ronin";
        explorer_tx_url = explorer_tx "https://explorer.roninchain.com";
        rpc_urls = "https://api.roninchain.com/rpc" ∷ [];
        verification_tier = Tier.full;
        price_feed_key = some "ronin";
      };
    }
    ∷ record {
      chain_id = pos 4326;
      entry = record {
        canonical_slug = "megaeth";
        chain_family = ChainFamily.eip155;
        display_name = "MegaETH";
        explorer_tx_url = explorer_tx "https://megaeth.blockscout.com";
        rpc_urls = "https://mainnet.megaeth.com/rpc" ∷ [];
        verification_tier = Tier.full;
        price_feed_key = some "megaeth";
      };
    }
    ∷ []

unfoldable pub solana_entry : ChainEntry
solana_entry = record {
  canonical_slug = "solana";
  chain_family = ChainFamily.solana;
  display_name = "Solana";
  explorer_tx_url = explorer_tx "https://solscan.io";
  rpc_urls = "https://api.mainnet-beta.solana.com" ∷ [];
  verification_tier = Tier.basic;
  price_feed_key = some "solana";
}

unfoldable pub solana_chains : List SolanaChain
solana_chains =
    record { protocol = "khalani"; chain_id = pos 20011000000; entry = solana_entry }
    ∷ record { protocol = "relay"; chain_id = pos 792703809; entry = solana_entry }
    ∷ record { protocol = "jupiter"; chain_id = pos 20011000000; entry = solana_entry }
    ∷ []
