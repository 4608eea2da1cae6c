-- ===== src/Server/RateLimit.antt =====
-- apps/server/src/plugins/rate-limit.ts and repos/rate-limit-repo.ts. A comparison with
-- `nowMs - windowSec * 1000`, which may be negative, adds the window to the other side.
pub mod Window
use vex_agentscan.Base.{
  ℕ, ◌+◌, ◌-◌, ◌*◌, ◌/◌, String, List, [], ◌∷◌, ◌++◌, Option, none, some, length, keep_if, leb, ltb,
  not, max, lookup, put, string_eq, if◌then◌else◌,
}

pub data RateLimitDecision : Type 0 where
  allowed : RateLimitDecision
  limited : (retry_after_sec : ℕ) → RateLimitDecision

pub record SlidingWindowInput : Type 0 where
  pub hits_ms : List ℕ
  pub now_ms : ℕ
  pub limit : ℕ
  pub window_sec : ℕ

pub record SlidingWindowOutcome : Type 0 where
  pub decision : RateLimitDecision
  pub hits_ms : List ℕ

unfoldable pub recent_hits : SlidingWindowInput → List ℕ
recent_hits input =
    keep_if (λ hit_ms. ltb input.now_ms (hit_ms + input.window_sec * 1000)) input.hits_ms

unfoldable pub oldest_hit : ℕ → List ℕ → ℕ
oldest_hit now_ms [] = now_ms
oldest_hit now_ms (hit_ms ∷ hits) = hit_ms

unfoldable pub decide_sliding_window : SlidingWindowInput → SlidingWindowOutcome
decide_sliding_window input =
    let recent = recent_hits input in
    let oldest = oldest_hit input.now_ms recent in
    if leb input.limit (length recent)
    then record {
      decision = limited (max 1 ((oldest + input.window_sec * 1000 - input.now_ms + 999) / 1000));
      hits_ms = recent;
    }
    else record { decision = allowed; hits_ms = recent ++ input.now_ms ∷ [] }

-- A row of `rate_limit_hits`.
pub record HitsRow : Type 0 where
  pub key_hash : String
  pub hits : List ℕ
  pub updated_at : ℕ

abbrev pub by_key : HitsRow → String
by_key r = r.key_hash

unfoldable pub hits_of : String → List HitsRow → List ℕ
hits_of key rows = elim (lookup by_key key rows) [ none ↦ [] | some r ↦ r.hits ]

-- `PostgresSlidingWindowLimiter.allow`, under the key's advisory lock.
unfoldable pub allow :
    (limit window_sec : ℕ) → String → ℕ → List HitsRow → List HitsRow × RateLimitDecision
allow limit window_sec key now rows =
    let outcome = decide_sliding_window (record {
      hits_ms = hits_of key rows;
      now_ms = now;
      limit = limit;
      window_sec = window_sec;
    }) in
    (
      put by_key (record { key_hash = key; hits = outcome.hits_ms; updated_at = now }) rows,
      outcome.decision,
    )

unfoldable pub delete_expired_rate_limit_hits : (window_sec : ℕ) → ℕ → List HitsRow → List HitsRow
delete_expired_rate_limit_hits window_sec now rows =
    keep_if (λ r. not (ltb (r.updated_at + window_sec * 1000) now)) rows
