-- ===== src/Server/Handshake/Wallets.antt =====
-- Whose the wallets are after a handshake, and what the comparison of address sets says.
use vex_agentscan.Base.{
  some, put, lookup, Option-cases, ℕ, suc, String, Bool, true, false, List, [], ◌∷◌, ◌++◌, arith,
  any, sort, insert_sorted, All, ◌==◌, ◌≡◌, refl, string_eq, if◌then◌else◌, Bool-cases, inl, inr,
}
use vex_agentscan.Contract.Enums.{family_eq}
use vex_agentscan.Server.Db.{Agent, Db, by_hash, Wallet}
use vex_agentscan.Server.Handshake.{
  HandshakeBindingRequest, upserted_agent, upsert_agent_for_handshake, agent_name_candidates,
  assign_agent_name, complete_handshake_binding, HandshakeWalletBinding, is_wallet, reassign_wallet,
  inserted_wallet, claim_wallet, claim_wallets,
}
use vex_agentscan.Server.Handshake.Proofs.{same_values, text_order, same_address_hmac_set}

-- The row of the wallet is the agent's.
abbrev pub is_owned : (agent_hash : String) → HandshakeWalletBinding → List Wallet → Bool
is_owned agent_hash wallet [] = false
is_owned agent_hash wallet (row ∷ rows) =
    let rest = is_owned agent_hash wallet rows in
    if is_wallet wallet row then row.agent_hash == agent_hash else rest

reassign_owned :
    (me : String) (wallet : HandshakeWalletBinding) (now : ℕ) (rows : List Wallet)
    → any (is_wallet wallet) rows ≡ true
    → is_owned me wallet (reassign_wallet me wallet now rows) ≡ true
unfolding reassign_wallet
reassign_owned me wallet now [] h = h
reassign_owned me wallet now (row ∷ rows) h =
    ground (arith, h, reassign_owned me wallet now rows, string_eq.beq_iff me me)

append_owned :
    (me : String) (wallet : HandshakeWalletBinding) (now : ℕ) (rows : List Wallet)
    → any (is_wallet wallet) rows ≡ false
    → is_owned me wallet (rows ++ inserted_wallet me wallet now ∷ []) ≡ true
append_owned me wallet now [] h = ground (
  arith,
  string_eq.beq_iff me me,
  family_eq.beq_iff wallet.chain_family wallet.chain_family,
  string_eq.beq_iff wallet.address_hmac wallet.address_hmac,
)
append_owned me wallet now (row ∷ rows) h = ground (arith, h, append_owned me wallet now rows)

reassign_keeps :
    (me : String) (other wallet : HandshakeWalletBinding) (now : ℕ) (rows : List Wallet)
    → is_owned me other rows ≡ true
    → is_owned me other (reassign_wallet me wallet now rows) ≡ true
unfolding reassign_wallet
reassign_keeps me other wallet now [] h = h
reassign_keeps me other wallet now (row ∷ rows) h =
    ground (arith, h, reassign_keeps me other wallet now rows, string_eq.beq_iff me me)

append_keeps :
    (me : String) (other : HandshakeWalletBinding) (rows new : List Wallet)
    → is_owned me other rows ≡ true
    → is_owned me other (rows ++ new) ≡ true
append_keeps me other [] new h = absurd (ground arith)
append_keeps me other (row ∷ rows) new h = ground (arith, h, append_keeps me other rows new)

claim_owned :
    (me : String) (wallet : HandshakeWalletBinding) (now : ℕ) (rows : List Wallet)
    → is_owned me wallet (claim_wallet me wallet now rows) ≡ true
unfolding claim_wallet
claim_owned me wallet now rows = elim (Bool-cases (any (is_wallet wallet) rows)) [
  | inl held ↦ rw (held, claim_wallet) (reassign_owned me wallet now rows held)
  | inr free ↦ rw (free, claim_wallet) (append_owned me wallet now rows free)
]

claim_keeps :
    (me : String) (other wallet : HandshakeWalletBinding) (now : ℕ) (rows : List Wallet)
    → is_owned me other rows ≡ true
    → is_owned me other (claim_wallet me wallet now rows) ≡ true
unfolding claim_wallet
claim_keeps me other wallet now rows h = elim (Bool-cases (any (is_wallet wallet) rows)) [
  | inl held ↦ rw (held, claim_wallet) (reassign_keeps me other wallet now rows h)
  | inr free ↦
      rw (free, claim_wallet) (append_keeps me other rows (inserted_wallet me wallet now ∷ []) h)
]

all_keep :
    (me : String) (other : HandshakeWalletBinding) (wallets : List HandshakeWalletBinding) (now : ℕ)
    (rows : List Wallet)
    → is_owned me other rows ≡ true
    → is_owned me other (claim_wallets me wallets now rows) ≡ true
unfolding claim_wallets
all_keep me other [] now rows h = h
all_keep me other (wallet ∷ wallets) now rows h =
    all_keep me other wallets now (claim_wallet me wallet now rows)
      (claim_keeps me other wallet now rows h)

pub claimed-All_owned :
    (me : String) (wallets : List HandshakeWalletBinding) (now : ℕ) (rows : List Wallet)
    → All (λ w. is_owned me w (claim_wallets me wallets now rows) ≡ true) wallets
unfolding claim_wallets
claimed-All_owned me [] now rows = tt
claimed-All_owned me (wallet ∷ wallets) now rows =
    let next = claim_wallet me wallet now rows in
    (
      all_keep me wallet wallets now next (claim_owned me wallet now rows),
      claimed-All_owned me wallets now next,
    )

-- How often a value stands in a list.
abbrev pub occurrences : String → List String → ℕ
occurrences x [] = 0
occurrences x (y ∷ ys) = let rest = occurrences x ys in if y == x then suc rest else rest

insert-occurrences :
    (before : String → String → Bool) (x y : String) (ys : List String)
    → occurrences x (insert_sorted before y ys) ≡ occurrences x (y ∷ ys)
unfolding insert_sorted
insert-occurrences before x y [] = refl
insert-occurrences before x y (z ∷ ys) = ground (arith, insert-occurrences before x y ys)

sort-occurrences :
    (before : String → String → Bool) (x : String) (ys : List String)
    → occurrences x (sort before ys) ≡ occurrences x ys
unfolding sort
sort-occurrences before x [] = refl
sort-occurrences before x (y ∷ ys) =
    ground (arith, insert-occurrences before x y (sort before ys), sort-occurrences before x ys)

same_values_eq : (xs ys : List String) → same_values xs ys ≡ true → xs ≡ ys
unfolding same_values
same_values_eq [] [] h = refl
same_values_eq [] (y ∷ ys) h = absurd (ground (arith, h))
same_values_eq (x ∷ xs) [] h = absurd (ground (arith, h))
same_values_eq (x ∷ xs) (y ∷ ys) h = ground (arith, h, same_values_eq xs ys, string_eq.beq_iff x y)

pub same_set-occurrences :
    (xs ys : List String) (x : String)
    → same_address_hmac_set xs ys ≡ true
    → occurrences x xs ≡ occurrences x ys
unfolding same_address_hmac_set
same_set-occurrences xs ys x h =
    let same = same_values_eq (sort text_order xs) (sort text_order ys) in
    ground (arith, h, same, sort-occurrences text_order x xs, sort-occurrences text_order x ys)

assigned-wallets :
    (candidates : List (List ℕ)) (agent : Agent) (before : Db) (r : Db × List ℕ)
    → assign_agent_name candidates agent before ≡ some r
    → r.0.wallets ≡ before.wallets
unfolding assign_agent_name
assigned-wallets [] agent before r h = absurd (ground (arith, h))
assigned-wallets (candidate ∷ candidates) agent before r h =
    ground (arith, h, assigned-wallets candidates agent before r)

pub completed-wallets :
    (request : HandshakeBindingRequest) (now : ℕ) (before : Db) (r : Db × List ℕ)
    → complete_handshake_binding request now before ≡ some r
    → r.0.wallets ≡ claim_wallets request.agent_hash request.wallets now before.wallets
unfolding complete_handshake_binding upsert_agent_for_handshake
completed-wallets request now before r h =
    let agent = upserted_agent (lookup by_hash request.agent_hash before.agents) request now in
    let claimed : Db = record before {
      agents = put by_hash agent before.agents;
      wallets = claim_wallets request.agent_hash request.wallets now before.wallets;
    } in
    elim (Option-cases agent.name) [
      | inr (name, named) ↦ ground (arith, named, h)
      | inl unnamed ↦
          assigned-wallets (agent_name_candidates request.agent_hash) agent claimed r
            (ground (arith, unnamed, h))
    ]
