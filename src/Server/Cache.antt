-- ===== src/Server/Cache.antt =====
-- apps/server/src/plugins/ttl-cache.ts. A load is a promise that is fulfilled or rejected; the
-- state below is the one after the promise that a call awaits is settled.
use vex_agentscan.Base.{
  ℕ, ◌+◌, String, List, none, some, ltb, lookup, put, delete, lookup-delete, beq_refl, arith, ◌≡◌,
  string_eq, if◌then◌else◌,
}

module _ {ℓ} (T : Type ℓ) where
  -- What a promise comes to.
  pub data Settled : Type ℓ where
    fulfilled : T → Settled
    rejected : Settled

  pub record CacheEntry : Type ℓ where
    pub key : String
    pub expires_at_ms : ℕ
    pub value : Settled

  abbrev pub by_entry : CacheEntry → String
  by_entry entry = entry.key

  -- `entries.set` at once, then `entries.delete` where the load is rejected.
  unfoldable pub stored_load : ℕ → String → ℕ → Settled → List CacheEntry → List CacheEntry
  stored_load ttl_ms key now (fulfilled v) entries =
      put by_entry (record { key = key; expires_at_ms = now + ttl_ms; value = fulfilled v }) entries
  stored_load ttl_ms key now rejected entries =
      delete by_entry key (
        put by_entry (record { key = key; expires_at_ms = now + ttl_ms; value = rejected }) entries)

  unfoldable pub cached : ℕ → String → ℕ → Settled → List CacheEntry → List CacheEntry × Settled
  cached ttl_ms key now load entries =
      let stored : List CacheEntry × Settled = (stored_load ttl_ms key now load entries, load) in
      elim (lookup by_entry key entries) [
        | none ↦ stored
        | some existing ↦
            if ltb now existing.expires_at_ms then (entries, existing.value) else stored
      ]

  -- A load that was rejected is not kept: the next call with its key loads again.
  pub cached-not_rejected :
      (ttl_ms : ℕ) (key : String) (now : ℕ) (entries : List CacheEntry)
      → lookup by_entry key entries ≡ none
      → lookup by_entry key (cached ttl_ms key now rejected entries).0 ≡ none
  unfolding cached stored_load
  cached-not_rejected ttl_ms key now entries new = ground (
    arith,
    beq_refl key,
    lookup-delete by_entry key key (
        put by_entry (record { key = key; expires_at_ms = now + ttl_ms; value = rejected })
          entries),
  )
