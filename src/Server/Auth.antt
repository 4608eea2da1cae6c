-- ===== src/Server/Auth.antt =====
-- apps/server/src/plugins: auth.ts and rate-limit-key.ts. A header is the list of its code units;
-- the hash function is a parameter.
use vex_agentscan.Base.{
  ℕ, String, Bool, ◌&&◌, ◌||◌, List, [], ◌∷◌, ◌++◌, Option, none, some, leb, find, ◌==◌, nat_eq,
  string_eq, if◌then◌else◌,
}
use vex_agentscan.Base.Text.{codes}
use vex_agentscan.Server.Db.{AgentStatus, Db}

pub record AuthenticatedAgent : Type 0 where
  pub agent_hash : String
  pub status : AgentStatus
  pub strike_count : ℕ

-- What `trim` takes away.
abbrev is_white : ℕ → Bool
is_white c =
    leb 9 c && leb c 13
    || (c == 32 || c == 160 || c == 5760 || leb 8192 c && leb c 8202)
    || (c == 8232 || c == 8233 || c == 8239 || c == 8287 || c == 12288 || c == 65279)

trim_start : List ℕ → List ℕ
trim_start [] = []
trim_start (c ∷ cs) = let rest = trim_start cs in if is_white c then rest else c ∷ cs

-- The text without the white space at its end.
trim_end : List ℕ → List ℕ
trim_end [] = []
trim_end (c ∷ cs) = elim (trim_end cs) [
  | [] ↦ if is_white c then [] else c ∷ []
  | d ∷ ds ↦ c ∷ d ∷ ds
]

-- What follows a prefix.
after_prefix : List ℕ → List ℕ → Option (List ℕ)
after_prefix [] text = some text
after_prefix (p ∷ ps) [] = none
after_prefix (p ∷ ps) (c ∷ cs) = let rest = after_prefix ps cs in if p == c then rest else none

abbrev nonempty : List ℕ → Option (List ℕ)
nonempty [] = none
nonempty (c ∷ cs) = some (c ∷ cs)

unfoldable pub bearer_token_from : Option (List ℕ) → Option (List ℕ)
unfolding trim_start trim_end after_prefix
bearer_token_from none = none
bearer_token_from (some header) = elim (after_prefix (codes "Bearer ") header) [
  | none ↦ none
  | some token ↦ nonempty (trim_end (trim_start token))
]

module _ (sha256_hex : List ℕ → String) where
  unfoldable pub authenticate_agent : Db → List ℕ → Option AuthenticatedAgent
  authenticate_agent db bearer_token =
      elim (find (λ g. g.ingest_token_sha256 == sha256_hex bearer_token) db.agents) [
        | none ↦ none
        | some g ↦
            some (record {
              agent_hash = g.agent_hash;
              status = g.status;
              strike_count = g.strike_count;
            })
      ]

  unfoldable pub rate_limit_key_hash : (scope : String) → (value salt : List ℕ) → String
  rate_limit_key_hash scope value salt = sha256_hex (codes scope ++ 58 ∷ salt ++ 58 ∷ value)
