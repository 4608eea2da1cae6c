-- ===== src/Core/Chains/Catalog/Slugs.antt =====
-- The keys that a slug stands for are resolved to entries of that slug.
use vex_agentscan.Base.{
  String, Bool, true, List, [], ◌∷◌, some, or_else, map, keep_if, All, All-append, ◌≡◌, string_eq,
  Bool-cases, inl, inr,
}
use vex_agentscan.Core.Chains.{ChainEntry, evm_chains, solana_chains}
use vex_agentscan.Core.Chains.Registry.{ChainKey, resolve_chain}
use vex_agentscan.Core.Chains.Registry.Listed.{evm-listed, solana-listed}
use vex_agentscan.Core.Chains.Catalog.{
  ChainKeyForSlug, chain_keys_for_slug, has_evm_slug, has_solana_slug,
}

-- The key of a lookup on behalf of `protocol`: a key that names its own protocol keeps it.
abbrev pub lookup_key : String → ChainKeyForSlug → ChainKey
lookup_key protocol key = record {
  protocol = or_else key.protocol protocol;
  chain_family = key.chain_family;
  chain_id = key.chain_id;
}

abbrev pub IsOfSlug : String → String → ChainKeyForSlug → Type 0
IsOfSlug slug protocol key =
    (entry : ChainEntry) × (resolve_chain (lookup_key protocol key) ≡ some entry)
    × (entry.canonical_slug ≡ slug)

-- What is kept of a list passes the test, and what held of the list still holds of it.
All-kept_map {ℓ κ μ} :
    {A : Type ℓ} {B : Type 0} {P : A → Type κ} (Q : B → Type μ) (f : A → B) (p : A → Bool)
    (xs : List A)
    → ((a : A) → P a → p a ≡ true → Q (f a))
    → All P xs
    → All Q (map f (keep_if p xs))
All-kept_map Q f p [] h all = tt
All-kept_map Q f p (x ∷ xs) h all = elim (Bool-cases (p x)) [
  | inl kept ↦ rw kept (h x all.0 kept, All-kept_map Q f p xs h all.1)
  | inr left ↦ rw left (All-kept_map Q f p xs h all.1)
]

-- Whatever the slug and whatever the protocol on whose behalf it is asked for, every key that the
-- catalog gives for the slug is resolved by the registry, to an entry of that slug.
pub chain_keys-IsOfSlug :
    (slug protocol : String) → All (IsOfSlug slug protocol) (chain_keys_for_slug slug)
unfolding chain_keys_for_slug
chain_keys-IsOfSlug slug protocol =
    All-append (IsOfSlug slug protocol) _ _
      (All-kept_map (IsOfSlug slug protocol) _ (has_evm_slug slug) evm_chains
        (λ c listed kept.
          (c.entry, listed protocol, (string_eq.beq_iff c.entry.canonical_slug slug).0 kept))
        evm-listed)
      (All-kept_map (IsOfSlug slug protocol) _ (has_solana_slug slug) solana_chains
        (λ c listed kept. (c.entry, listed, (string_eq.beq_iff c.entry.canonical_slug slug).0 kept))
        solana-listed)
