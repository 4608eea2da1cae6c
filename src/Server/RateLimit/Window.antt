-- ===== src/Server/RateLimit/Window.antt =====
-- The sliding window admits at most its limit, per key.
use vex_agentscan.Base.{
  ℕ, ◌+◌, ◌*◌, ◌≤◌, String, Bool, true, List, [], ◌∷◌, arith, length, length-append, keep_if, All,
  lookup-put, lookup-nil, ltb, ◌≡◌, ◌==◌, string_eq, if◌then◌else◌, Bool-cases, inl, inr,
}
use vex_agentscan.Server.RateLimit.{
  limited, SlidingWindowInput, recent_hits, oldest_hit, decide_sliding_window, HitsRow, by_key,
  hits_of, allow,
}

abbrev in_window : ℕ → ℕ → ℕ → Bool
in_window window_sec now hit = ltb now (hit + window_sec * 1000)

kept-recent :
    (window_sec now : ℕ) (hits : List ℕ)
    → All (λ hit. in_window window_sec now hit ≡ true) (keep_if (in_window window_sec now) hits)
kept-recent window_sec now [] = tt
kept-recent window_sec now (h ∷ hits) = ground (arith, kept-recent window_sec now hits)

length-kept : (p : ℕ → Bool) (hits : List ℕ) → length (keep_if p hits) ≤ length hits
length-kept p [] = omega arith
length-kept p (h ∷ hits) = ground (arith, length-kept p hits)

decided-bound :
    (input : SlidingWindowInput)
    → length input.hits_ms ≤ input.limit
    → length (decide_sliding_window input).hits_ms ≤ input.limit
unfolding decide_sliding_window recent_hits
decided-bound input h =
    let p = in_window input.window_sec input.now_ms in
    ground (
      arith,
      length-kept p input.hits_ms,
      length-append (keep_if p input.hits_ms) (input.now_ms ∷ []),
    )

-- A request that is limited is told a number of seconds, one at least, after which the oldest of
-- the hits that limit it is out of the window.
pub limited-retry_after :
    (input : SlidingWindowInput) (retry_after_sec : ℕ)
    → (decide_sliding_window input).decision ≡ limited retry_after_sec
    → (1 ≤ retry_after_sec)
      × (oldest_hit input.now_ms (recent_hits input) + input.window_sec * 1000
          ≤ input.now_ms + retry_after_sec * 1000)
unfolding decide_sliding_window
limited-retry_after input retry_after_sec h = ground arith

pub record Request : Type 0 where
  pub key : String
  pub at : ℕ

unfoldable pub serve : (limit window_sec : ℕ) → List Request → List HitsRow → List HitsRow
serve limit window_sec [] rows = rows
serve limit window_sec (r ∷ rs) rows =
    serve limit window_sec rs (allow limit window_sec r.key r.at rows).0

hits_of-allow :
    (limit window_sec : ℕ) (key k : String) (now : ℕ) (rows : List HitsRow)
    → hits_of k (allow limit window_sec key now rows).0 ≡ (
        if key == k
        then (decide_sliding_window (record {
          hits_ms = hits_of key rows;
          now_ms = now;
          limit = limit;
          window_sec = window_sec;
        })).hits_ms
        else hits_of k rows)
unfolding allow hits_of
hits_of-allow limit window_sec key k now rows = ground (
  arith,
  lookup-put by_key k
      (record {
        key_hash = key;
        hits =
            (decide_sliding_window (record {
              hits_ms = hits_of key rows;
              now_ms = now;
              limit = limit;
              window_sec = window_sec;
            })).hits_ms;
        updated_at = now;
      })
      rows,
)

allow-bound :
    (limit window_sec : ℕ) (key k : String) (now : ℕ) (rows : List HitsRow)
    → ((j : String) → length (hits_of j rows) ≤ limit)
    → length (hits_of k (allow limit window_sec key now rows).0) ≤ limit
allow-bound limit window_sec key k now rows h =
    let input : SlidingWindowInput = record {
      hits_ms = hits_of key rows;
      now_ms = now;
      limit = limit;
      window_sec = window_sec;
    } in
    elim (Bool-cases (key == k)) [
      | inl same ↦
          rw (hits_of-allow limit window_sec key k now rows, same) (decided-bound input (h key))
      | inr other ↦ rw (hits_of-allow limit window_sec key k now rows, other) (h k)
    ]

serve-bound :
    (limit window_sec : ℕ) (rs : List Request) (k : String) (rows : List HitsRow)
    → ((j : String) → length (hits_of j rows) ≤ limit)
    → length (hits_of k (serve limit window_sec rs rows)) ≤ limit
unfolding serve
serve-bound limit window_sec [] k rows h = h k
serve-bound limit window_sec (r ∷ rs) k rows h =
    serve-bound limit window_sec rs k (allow limit window_sec r.key r.at rows).0
      (λ j. allow-bound limit window_sec r.key j r.at rows h)

-- After any sequence of requests on an empty table, no key has more recorded hits than the limit.
pub serve-hits_bound :
    (limit window_sec : ℕ) (rs : List Request) (k : String)
    → length (hits_of k (serve limit window_sec rs [])) ≤ limit
unfolding hits_of
serve-hits_bound limit window_sec rs k =
    serve-bound limit window_sec rs k [] (λ j. ground (arith, lookup-nil by_key j))
