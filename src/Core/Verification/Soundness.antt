-- ===== src/Core/Verification/Soundness.antt =====
-- What the verdict of `evaluateVerification` says of the receipt.
use vex_agentscan.Base.{
  ℕ, ◌-◌, ◌*◌, ◌≤◌, String, Bool, true, false, ◌||◌, Option, none, some, arith, any, ◌≡◌, ◌≢◌, ◌↔◌,
  refl, Option-cases, Bool-cases, inl, inr,
}
use vex_agentscan.Core.Verdict.{TerminalVerdict, Verdict}
use vex_agentscan.Core.Verification.{
  success, ReceiptView, VerificationInput, TransferCounterparty, matches, mismatch, unprovable,
  judgement_eq, is_native_token, within_tolerance, transfers_of, block_time_outside_tolerance,
  counterparty_of, native_input_mismatch, declared_leg_judgement, declared_input_judgement,
  declared_output_judgement, judge_declared_amounts, evaluate_verification,
}
use vex_agentscan.Core.Verification.Totals.{moved_by, some_counterparty_lem}

-- The amount `declared` is off by at most the tolerance, in basis points of what was declared.
abbrev pub Close : (actual declared bp : ℕ) → Type 0
Close actual declared bp =
    ((actual - declared) * 10000 ≤ declared * bp) × ((declared - actual) * 10000 ≤ declared * bp)

pub within-Close :
    (actual declared bp : ℕ)
    → (within_tolerance actual declared bp ≡ true) ↔ Close actual declared bp
unfolding within_tolerance
within-Close actual declared bp = ground arith

-- The transfers of the token show the amount: one of them does, or a counterparty's together do.
abbrev pub is_explained : ReceiptView → String → ℕ → ℕ → TransferCounterparty → Bool
is_explained receipt token declared bp c =
    let ts = transfers_of receipt token in
    any (λ t. within_tolerance t.amount_raw declared bp) ts
    || any (λ t. within_tolerance (moved_by c (counterparty_of c t) ts) declared bp) ts

-- The amounts that a declared leg is held to; native tokens have no transfers.
abbrev pub leg_is_explained :
    ReceiptView → Option String → Option ℕ → ℕ → TransferCounterparty → Bool
leg_is_explained receipt (some token) (some declared) bp c =
    is_explained receipt token declared bp c
leg_is_explained receipt _ _ bp c = true

leg-explained :
    (receipt : ReceiptView) (token : Option String) (declared : Option ℕ) (bp : ℕ)
    (c : TransferCounterparty)
    → declared_leg_judgement receipt token declared bp c ≡ matches
    → leg_is_explained receipt token declared bp c ≡ true
unfolding declared_leg_judgement
leg-explained receipt (some token) (some declared) bp c h =
    ground (arith, some_counterparty_lem c (transfers_of receipt token) declared bp)
leg-explained receipt (some token) none bp c h = refl
leg-explained receipt none declared bp c h = refl

leg-not_struck :
    (receipt : ReceiptView) (token : Option String) (declared : Option ℕ) (bp : ℕ)
    (c : TransferCounterparty)
    → leg_is_explained receipt token declared bp c ≡ true
    → declared_leg_judgement receipt token declared bp c ≢ mismatch
unfolding declared_leg_judgement
leg-not_struck receipt (some token) (some declared) bp c h =
    ground (arith, some_counterparty_lem c (transfers_of receipt token) declared bp)
leg-not_struck receipt (some token) none bp c h = ground arith
leg-not_struck receipt none declared bp c h = ground arith

judged-matches :
    (receipt : ReceiptView) (input : VerificationInput)
    → judge_declared_amounts receipt input ≡ matches
    → (declared_input_judgement receipt input ≡ matches)
      × (declared_output_judgement receipt input ≡ matches)
unfolding judge_declared_amounts
judged-matches receipt input h = ground (
  arith,
  judgement_eq.beq_iff (declared_input_judgement receipt input) mismatch,
  judgement_eq.beq_iff (declared_output_judgement receipt input) mismatch,
  judgement_eq.beq_iff (declared_input_judgement receipt input) unprovable,
  judgement_eq.beq_iff (declared_output_judgement receipt input) unprovable,
)

judged-mismatch :
    (receipt : ReceiptView) (input : VerificationInput)
    → declared_input_judgement receipt input ≢ mismatch
    → declared_output_judgement receipt input ≢ mismatch
    → judge_declared_amounts receipt input ≢ mismatch
unfolding judge_declared_amounts
judged-mismatch receipt input h k = ground (
  arith,
  judgement_eq.beq_iff (declared_input_judgement receipt input) mismatch,
  judgement_eq.beq_iff (declared_output_judgement receipt input) mismatch,
)

-- What a full verification has seen of the transaction.
pub record IsProven (receipt : ReceiptView) (input : VerificationInput) (t : ℕ) : Type 0 where
  pub succeeded : receipt.status ≡ success
  pub in_time : block_time_outside_tolerance receipt input ≡ false
  pub at_time : receipt.block_timestamp ≡ t
  pub input_leg :
      is_native_token input.token_in_address ≡ false
      → leg_is_explained receipt input.token_in_address input.executed_in_raw
          input.amount_tolerance_bp TransferCounterparty.from
        ≡ true
  pub native_input :
      is_native_token input.token_in_address ≡ true
      → native_input_mismatch receipt input.executed_in_raw input.amount_tolerance_bp ≡ false
  pub output_leg :
      is_native_token input.token_out_address ≡ false
      → leg_is_explained receipt input.token_out_address input.executed_out_raw
          input.amount_tolerance_bp TransferCounterparty.to
        ≡ true

full-shape :
    (receipt : ReceiptView) (input : VerificationInput) (t : ℕ)
    → evaluate_verification (some receipt) input
      ≡ Verdict.terminal (TerminalVerdict.verified_full t)
    → (receipt.status ≡ success)
      × (block_time_outside_tolerance receipt input ≡ false)
      × (receipt.block_timestamp ≡ t)
      × (judge_declared_amounts receipt input ≡ matches)
unfolding evaluate_verification
full-shape receipt input t h = ground arith

-- A fully verified activity's transaction succeeded, its block is within the time tolerance and
-- gives the verified time, and each declared amount of a token is that of one transfer of the token
-- or of one counterparty's transfers together, within the amount tolerance; a native input agrees
-- with the transaction's value where the reader gives it.
pub verified_full-IsProven :
    (receipt : ReceiptView) (input : VerificationInput) (t : ℕ)
    → evaluate_verification (some receipt) input
      ≡ Verdict.terminal (TerminalVerdict.verified_full t)
    → IsProven receipt input t
unfolding declared_input_judgement declared_output_judgement
verified_full-IsProven receipt input t h =
    let (succeeded, in_time, at_time, amounts) = full-shape receipt input t h in
    let (legs_in, legs_out) = judged-matches receipt input amounts in
    record {
      succeeded = succeeded;
      in_time = in_time;
      at_time = at_time;
      input_leg = λ native. leg-explained receipt _ _ _ _ (ground arith);
      native_input = λ native. ground arith;
      output_leg = λ native. leg-explained receipt _ _ _ _ (ground arith);
    }

abbrev pub is_strike : Verdict → Bool
is_strike (Verdict.terminal (TerminalVerdict.strike r)) = true
is_strike _ = false

-- What the transaction of an honest report shows: it succeeded within the time tolerance, and each
-- declared leg agrees with it, that of a native token only by the value that the transaction sent.
pub record IsHonest (receipt : ReceiptView) (input : VerificationInput) : Type 0 where
  pub succeeded : receipt.status ≡ success
  pub in_time : block_time_outside_tolerance receipt input ≡ false
  pub input_leg :
      is_native_token input.token_in_address ≡ false
      → leg_is_explained receipt input.token_in_address input.executed_in_raw
          input.amount_tolerance_bp TransferCounterparty.from
        ≡ true
  pub native_input :
      is_native_token input.token_in_address ≡ true
      → (declared value : ℕ) → input.executed_in_raw ≡ some declared
      → receipt.transaction_value_raw ≡ some value
      → Close value declared input.amount_tolerance_bp
  pub output_leg :
      is_native_token input.token_out_address ≡ false
      → leg_is_explained receipt input.token_out_address input.executed_out_raw
          input.amount_tolerance_bp TransferCounterparty.to
        ≡ true

native-not_struck :
    (receipt : ReceiptView) (declared : Option ℕ) (bp : ℕ)
    → ((amount value : ℕ)
        → declared ≡ some amount
        → receipt.transaction_value_raw ≡ some value
        → Close value amount bp)
    → native_input_mismatch receipt declared bp ≡ false
unfolding native_input_mismatch
native-not_struck receipt none bp h = refl
native-not_struck receipt (some amount) bp h = elim (Option-cases receipt.transaction_value_raw) [
  | inl missing ↦ ground (arith, missing)
  | inr (value, given) ↦
      let near = (within-Close value amount bp).1 (h amount value refl given) in
      ground (arith, given, near)
]

honest-input :
    (receipt : ReceiptView) (input : VerificationInput)
    → IsHonest receipt input
    → declared_input_judgement receipt input ≢ mismatch
unfolding declared_input_judgement
honest-input receipt input honest = elim (Bool-cases (is_native_token input.token_in_address)) [
  | inl native ↦
      let near = native-not_struck receipt _ _ (honest.native_input native) in
      ground (arith, native, near)
  | inr other ↦
      let at_in = leg-not_struck receipt _ _ _ _ (honest.input_leg other) in
      ground (arith, other, at_in)
]

honest-output :
    (receipt : ReceiptView) (input : VerificationInput)
    → IsHonest receipt input
    → declared_output_judgement receipt input ≢ mismatch
unfolding declared_output_judgement
honest-output receipt input honest = elim (Bool-cases (is_native_token input.token_out_address)) [
  | inl native ↦ ground (arith, native)
  | inr other ↦
      let at_out = leg-not_struck receipt _ _ _ _ (honest.output_leg other) in
      ground (arith, other, at_out)
]

-- A report is never struck whose transaction succeeded within the time tolerance and shows every
-- declared leg: a leg of a token by one transfer or by one counterparty's transfers together, and a
-- native input by the transaction's value, where the report and the receipt give both.
pub honest-not_struck :
    (receipt : ReceiptView) (input : VerificationInput)
    → IsHonest receipt input
    → is_strike (evaluate_verification (some receipt) input) ≡ false
unfolding evaluate_verification
honest-not_struck receipt input honest =
    let ok = honest.succeeded in
    let time = honest.in_time in
    let amounts =
      judged-mismatch receipt input (honest-input receipt input honest)
        (honest-output receipt input honest) in
    ground (arith, ok, time, amounts)
