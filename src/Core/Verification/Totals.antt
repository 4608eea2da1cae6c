-- ===== src/Core/Verification/Totals.antt =====
-- `someCounterpartyMovedTheDeclaredTotal`: the map of totals against sums taken from the list.
use vex_agentscan.Base.{
  ℕ, ◌+◌, String, Bool, true, ◌||◌, List, [], ◌∷◌, some, is_some, arith, any, find, lookup, put,
  lookup-put, lookup-nil, lookup-find, lookup-any, beq_refl, IsKeyed, put-IsKeyed, ◌≡◌, ◌==◌,
  string_eq, Bool-cases, Option-cases, inl, inr, if◌then◌else◌,
}
use vex_agentscan.Core.Verification.{
  Erc20Transfer, TransferCounterparty, Total, by_counterparty, amount_of, counterparty_of,
  total_by_counterparty, within_tolerance, some_counterparty_moved_the_declared_total,
}

module _ {ℓ} {A : Type ℓ} where
  pub find-holds : (q : A → Bool) (xs : List A) (a : A) → find q xs ≡ some a → q a ≡ true
  find-holds q [] a h = ground arith
  find-holds q (x ∷ xs) a h = ground (arith, find-holds q xs a)

  find-any :
      (q p : A → Bool) (xs : List A) (a : A) → find q xs ≡ some a → p a ≡ true → any p xs ≡ true
  find-any q p [] a h pa = ground arith
  find-any q p (x ∷ xs) a h pa = ground (arith, find-any q p xs a)

  pub any-find : (q : A → Bool) (xs : List A) → any q xs ≡ true → (a : A) × (find q xs ≡ some a)
  any-find q [] h = ground arith
  any-find q (x ∷ xs) h = elim (Bool-cases (q x)) [
    | inl yes_ ↦ (x, ground arith)
    | inr no_ ↦ let r = any-find q xs (ground arith) in (r.0, ground (arith, r.1))
  ]

module _ (c : TransferCounterparty) where
  -- What a counterparty moved, all its transfers added up.
  abbrev pub moved_by : String → List Erc20Transfer → ℕ
  moved_by k [] = 0
  moved_by k (t ∷ ts) =
      let rest = moved_by k ts in if counterparty_of c t == k then t.amount_raw + rest else rest

  abbrev pub moves_any : String → List Erc20Transfer → Bool
  moves_any k ts = any (λ t. counterparty_of c t == k) ts

  totals-IsKeyed :
      (ts : List Erc20Transfer) (rs : List Total)
      → IsKeyed by_counterparty rs
      → IsKeyed by_counterparty (total_by_counterparty c ts rs)
  unfolding total_by_counterparty
  totals-IsKeyed [] rs h = h
  totals-IsKeyed (t ∷ ts) rs h = totals-IsKeyed ts _ (put-IsKeyed by_counterparty _ rs h)

  lookup-totals :
      (k : String) (ts : List Erc20Transfer) (rs : List Total)
      → (amount_of (lookup by_counterparty k (total_by_counterparty c ts rs))
          ≡ amount_of (lookup by_counterparty k rs) + moved_by k ts)
        × (is_some (lookup by_counterparty k (total_by_counterparty c ts rs))
            ≡ (is_some (lookup by_counterparty k rs) || moves_any k ts))
  unfolding total_by_counterparty
  lookup-totals k [] rs = ground arith
  lookup-totals k (t ∷ ts) rs =
      let key = counterparty_of c t in
      let r : Total = record {
        counterparty = key;
        total = amount_of (lookup by_counterparty key rs) + t.amount_raw;
      } in
      ground (
        arith,
        lookup-totals k ts (put by_counterparty r rs),
        lookup-put by_counterparty k r rs,
        string_eq.beq_iff key k,
      )

  any-own_key :
      (q : String → Bool) (k : String) (ts : List Erc20Transfer)
      → moves_any k ts ≡ true
      → q k ≡ true
      → any (λ t. q (counterparty_of c t)) ts ≡ true
  any-own_key q k [] h y = ground arith
  any-own_key q k (t ∷ ts) h y =
      ground (arith, any-own_key q k ts, string_eq.beq_iff (counterparty_of c t) k)

  abbrev pub totals_of : List Erc20Transfer → List Total
  totals_of ts = total_by_counterparty c ts []

  lookup-totals_of :
      (k : String) (ts : List Erc20Transfer)
      → (amount_of (lookup by_counterparty k (totals_of ts)) ≡ moved_by k ts)
        × (is_some (lookup by_counterparty k (totals_of ts)) ≡ moves_any k ts)
  lookup-totals_of k ts = ground (arith, lookup-totals k ts [], lookup-nil by_counterparty k)

  -- An entry of the map that passes the test names a counterparty whose sum passes it.
  row_counted :
      (q : ℕ → Bool) (ts : List Erc20Transfer)
      → any (λ r. q r.total) (totals_of ts) ≡ true
      → any (λ t. q (moved_by (counterparty_of c t) ts)) ts ≡ true
  row_counted q ts h =
      let (r, found) = any-find (λ r. q r.total) (totals_of ts) h in
      let holds = find-holds (λ r. q r.total) (totals_of ts) r found in
      let stored = lookup-find by_counterparty _ (totals_of ts) r (totals-IsKeyed ts [] tt) found in
      any-own_key (λ k. q (moved_by k ts)) r.counterparty ts
        (ground (arith, lookup-totals_of r.counterparty ts))
        (ground (arith, lookup-totals_of r.counterparty ts))

  counted_row :
      (q : ℕ → Bool) (ts : List Erc20Transfer)
      → any (λ t. q (moved_by (counterparty_of c t) ts)) ts ≡ true
      → any (λ r. q r.total) (totals_of ts) ≡ true
  counted_row q ts h =
      let p : Erc20Transfer → Bool = λ t. q (moved_by (counterparty_of c t) ts) in
      let (t, found) = any-find p ts h in
      let k = counterparty_of c t in
      let moves = find-any p (λ u. counterparty_of c u == k) ts t found (beq_refl k) in
      elim (Option-cases (lookup by_counterparty k (totals_of ts))) [
        | inl missing ↦ ground (arith, lookup-totals_of k ts)
        | inr (r, stored) ↦
            lookup-any by_counterparty (λ r. q r.total) k (totals_of ts) r stored
              (ground (arith, lookup-totals_of k ts, find-holds p ts t found))
      ]

  -- Some counterparty moved the declared total exactly when the transfers of some transfer's own
  -- counterparty, added up, are within the tolerance.
  pub some_counterparty_lem :
      (ts : List Erc20Transfer) (declared bp : ℕ)
      → some_counterparty_moved_the_declared_total ts c declared bp
        ≡ any (λ t. within_tolerance (moved_by (counterparty_of c t) ts) declared bp) ts
  unfolding some_counterparty_moved_the_declared_total
  some_counterparty_lem ts declared bp =
      let q : ℕ → Bool = λ n. within_tolerance n declared bp in
      ground (arith, counted_row q ts, row_counted q ts)
