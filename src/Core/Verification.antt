-- ===== src/Core/Verification.antt =====
-- packages/core/src/verification: chain-reader.ts, evaluate.ts and ../evm-native-address.ts.
-- Digit strings are numbers, and the tolerance is the rounded number of basis points.
pub mod Totals
pub mod Soundness
use vex_agentscan.Base.{
  ℕ, ◌+◌, ◌-◌, ◌*◌, String, Bool, true, false, not, ◌&&◌, ◌||◌, List, [], ◌∷◌, Option, none, some,
  or_else, is_some, ltb, leb, length, keep_if, any, contains, lookup, put, ◌==◌, string_eq,
  if◌then◌else◌, Eq, from_discrete,
}
use vex_agentscan.Base.Text.{lower}
use vex_agentscan.Core.Policy.{Tier}
use vex_agentscan.Core.Verdict.{StrikeVerdict, TerminalVerdict, Verdict}

pub record ReceiptLog : Type 0 where
  pub address : String
  pub topics : List String
  pub data_hex : String

pub record Erc20Transfer : Type 0 where
  pub token : String
  pub sender : String
  pub recipient : String
  pub amount_raw : ℕ

pub data ReceiptStatus : Type 0 where
  success reverted : ReceiptStatus

pub record ReceiptView : Type 0 where
  pub status : ReceiptStatus
  pub block_timestamp : ℕ
  pub block_number : Option ℕ
  pub erc20_transfers : List Erc20Transfer
  pub transaction_value_raw : Option ℕ
  pub logs : Option (List ReceiptLog)

pub data TransferCounterparty : Type 0 where
  from to : TransferCounterparty

pub record VerificationInput : Type 0 where
  pub tx_hash : String
  pub client_confirmed_at : Option ℕ
  pub executed_in_raw : Option ℕ
  pub executed_out_raw : Option ℕ
  pub token_in_address : Option String
  pub token_out_address : Option String
  pub tier : Tier
  pub time_tolerance_min : ℕ
  pub amount_tolerance_bp : ℕ

pub data AmountJudgement : Type 0 where
  matches mismatch unprovable : AmountJudgement

unfoldable pub AmountJudgement_discrete : Discrete AmountJudgement
AmountJudgement_discrete = hlevel

instance abbrev pub judgement_eq : Eq AmountJudgement
judgement_eq = from_discrete AmountJudgement_discrete

abbrev pub evm_native_address : String
evm_native_address = "0x0000000000000000000000000000000000000000"

abbrev pub evm_native_sentinel : String
evm_native_sentinel = "0xeeeeeeeeeeeeeeeeeeeeeeeeeeeeeeeeeeeeeeee"

unfoldable pub is_evm_native_address : String → Bool
is_evm_native_address token_address =
    let lowercased = lower token_address in
    lowercased == evm_native_address || lowercased == evm_native_sentinel

unfoldable pub block_time_outside_tolerance : ReceiptView → VerificationInput → Bool
block_time_outside_tolerance receipt input = elim input.client_confirmed_at [
  | none ↦ false
  | some confirmed ↦
      let drift_ms =
        if leb confirmed receipt.block_timestamp
        then receipt.block_timestamp - confirmed
        else confirmed - receipt.block_timestamp in
      ltb (input.time_tolerance_min * 60000) drift_ms
]

unfoldable pub reader_could_not_read_transfers : ReceiptView → Bool
reader_could_not_read_transfers receipt =
    if ltb 0 (length receipt.erc20_transfers)
    then false
    else elim receipt.logs [ none ↦ true | some logs ↦ ltb 0 (length logs) ]

unfoldable pub within_tolerance : (actual declared tolerance_bp : ℕ) → Bool
within_tolerance actual declared tolerance_bp =
    let difference = if ltb declared actual then actual - declared else declared - actual in
    leb (difference * 10000) (declared * tolerance_bp)

unfoldable pub same_address : String → String → Bool
same_address a b = lower a == lower b

unfoldable pub is_native_token : Option String → Bool
is_native_token none = false
is_native_token (some token_address) = is_evm_native_address token_address

unfoldable pub native_input_mismatch : ReceiptView → Option ℕ → ℕ → Bool
native_input_mismatch receipt none tolerance_bp = false
native_input_mismatch receipt (some declared) tolerance_bp = elim receipt.transaction_value_raw [
  | none ↦ false
  | some value ↦ not (within_tolerance value declared tolerance_bp)
]

-- An entry of `totalByCounterparty`.
pub record Total : Type 0 where
  pub counterparty : String
  pub total : ℕ

abbrev pub by_counterparty : Total → String
by_counterparty r = r.counterparty

unfoldable pub counterparty_of : TransferCounterparty → Erc20Transfer → String
counterparty_of TransferCounterparty.from transfer = lower transfer.sender
counterparty_of TransferCounterparty.to transfer = lower transfer.recipient

abbrev pub amount_of : Option Total → ℕ
amount_of none = 0
amount_of (some r) = r.total

-- The loop over the transfers, from the totals so far.
unfoldable pub total_by_counterparty :
    TransferCounterparty → List Erc20Transfer → List Total → List Total
total_by_counterparty c [] totals = totals
total_by_counterparty c (transfer ∷ transfers) totals =
    let key = counterparty_of c transfer in
    let total = amount_of (lookup by_counterparty key totals) + transfer.amount_raw in
    total_by_counterparty c transfers
      (put by_counterparty (record { counterparty = key; total = total }) totals)

unfoldable pub some_counterparty_moved_the_declared_total :
    List Erc20Transfer → TransferCounterparty → ℕ → ℕ → Bool
some_counterparty_moved_the_declared_total transfers c declared tolerance_bp =
    any (λ r. within_tolerance r.total declared tolerance_bp) (total_by_counterparty c transfers [])

unfoldable pub transfers_of : ReceiptView → String → List Erc20Transfer
transfers_of receipt token_address =
    keep_if (λ transfer. same_address transfer.token token_address) receipt.erc20_transfers

unfoldable pub declared_leg_judgement :
    ReceiptView → Option String → Option ℕ → ℕ → TransferCounterparty → AmountJudgement
declared_leg_judgement receipt (some token_address) (some declared) tolerance_bp c =
    let transfers = transfers_of receipt token_address in
    if reader_could_not_read_transfers receipt
    then unprovable
    else if any (λ t. within_tolerance t.amount_raw declared tolerance_bp) transfers
        || some_counterparty_moved_the_declared_total transfers c declared tolerance_bp
    then matches
    else mismatch
declared_leg_judgement receipt _ _ tolerance_bp c = matches

unfoldable pub declared_input_judgement : ReceiptView → VerificationInput → AmountJudgement
declared_input_judgement receipt input =
    if is_native_token input.token_in_address
    then (if native_input_mismatch receipt input.executed_in_raw input.amount_tolerance_bp
        then mismatch
        else matches)
    else declared_leg_judgement receipt input.token_in_address input.executed_in_raw
        input.amount_tolerance_bp TransferCounterparty.from

unfoldable pub declared_output_judgement : ReceiptView → VerificationInput → AmountJudgement
declared_output_judgement receipt input =
    if is_native_token input.token_out_address
    then matches
    else declared_leg_judgement receipt input.token_out_address input.executed_out_raw
        input.amount_tolerance_bp TransferCounterparty.to

unfoldable pub judge_declared_amounts : ReceiptView → VerificationInput → AmountJudgement
judge_declared_amounts receipt input =
    let legs =
      declared_input_judgement receipt input ∷ declared_output_judgement receipt input ∷ [] in
    if contains legs mismatch
    then mismatch
    else if contains legs unprovable
    then unprovable
    else matches

unfoldable pub evaluate_verification : Option ReceiptView → VerificationInput → Verdict
evaluate_verification none input = Verdict.retry "receipt_not_found"
evaluate_verification (some receipt) input = elim receipt.status [
  | reverted ↦ Verdict.terminal (TerminalVerdict.strike StrikeVerdict.tx_reverted)
  | success ↦
      if block_time_outside_tolerance receipt input
      then Verdict.terminal (TerminalVerdict.strike StrikeVerdict.time_mismatch)
      else elim input.tier [
        | Tier.basic ↦ Verdict.terminal (TerminalVerdict.verified_basic receipt.block_timestamp)
        | Tier.full ↦ elim (judge_declared_amounts receipt input) [
          | mismatch ↦ Verdict.terminal (TerminalVerdict.strike StrikeVerdict.amount_mismatch)
          | unprovable ↦ Verdict.unverifiable
          | matches ↦ Verdict.terminal (TerminalVerdict.verified_full receipt.block_timestamp)
        ]
      ]
]
