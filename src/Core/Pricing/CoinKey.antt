-- ===== src/Core/Pricing/CoinKey.antt =====
-- packages/core/src/pricing: coin-key.ts, and `legUsd` of decimal.ts. Texts that the patterns test
-- are lists of code units; digit strings that they accept are numbers.
use vex_agentscan.Base.{
  ℕ, ◌+◌, ◌-◌, ◌*◌, String, Bool, false, ◌&&◌, ◌||◌, List, [], ◌∷◌, ◌++◌, Option, none, some, leb,
  every, length, take, drop, ◌==◌, nat_eq, string_eq, if◌then◌else◌,
}
use vex_agentscan.Base.Int.{ℤ, pos, negsuc}
use vex_agentscan.Base.Digits.{is_digit, digit_value, number_text, pad_start, strip_zeros}
use vex_agentscan.Base.Text.{codes, lower}
use vex_agentscan.Contract.Enums.{ChainFamily}
use vex_agentscan.Core.Chains.Registry.{ChainKey, resolve_chain}
use vex_agentscan.Core.Verification.{evm_native_address, is_evm_native_address}
use vex_agentscan.Core.Metrics.Decimal.{split_point, is_digits, is_fraction, fraction_of}

pub record CoinKeyQuery : Type 0 where
  pub key : ChainKey
  pub token_address : String

pub record CoinKeyResolution : Type 0 where
  pub coin_key : List ℕ
  pub token_address : String

-- `[0-9a-f]`
abbrev is_lower_hex : ℕ → Bool
is_lower_hex c = is_digit c || leb 97 c && leb c 102

-- `evmAddressPattern`
unfoldable pub is_evm_address : List ℕ → Bool
is_evm_address (first ∷ x ∷ digits) =
    first == 48 && x == 120 && length digits == 40 && every is_lower_hex digits
is_evm_address _ = false

-- `[1-9A-HJ-NP-Za-km-z]`
abbrev is_base58 : ℕ → Bool
is_base58 c =
    leb 49 c && leb c 57
    || (leb 65 c && leb c 72 || leb 74 c && leb c 78 || leb 80 c && leb c 90)
    || (leb 97 c && leb c 107 || leb 109 c && leb c 122)

-- `solanaMintPattern`
unfoldable pub is_solana_mint : List ℕ → Bool
is_solana_mint text = leb 32 (length text) && leb (length text) 44 && every is_base58 text

unfoldable pub feed_token_address : ChainFamily → String → Option String
feed_token_address ChainFamily.solana token_address =
    if is_solana_mint (codes token_address) then some token_address else none
feed_token_address ChainFamily.eip155 token_address =
    let lowercased = lower token_address in
    if is_evm_address (codes lowercased)
    then some (if is_evm_native_address lowercased then evm_native_address else lowercased)
    else none

abbrev keyed_on : String → Option String → Option CoinKeyResolution
keyed_on price_feed_key none = none
keyed_on price_feed_key (some token_address) = some (record {
  coin_key = codes price_feed_key ++ 58 ∷ codes token_address;
  token_address = token_address;
})

unfoldable pub resolve_coin_key : CoinKeyQuery → Option CoinKeyResolution
resolve_coin_key query = elim (resolve_chain query.key) [
  | none ↦ none
  | some entry ↦ elim entry.price_feed_key [
    | none ↦ none
    | some price_feed_key ↦
        keyed_on price_feed_key (feed_token_address query.key.chain_family query.token_address)
  ]
]

pub record ScaledInteger : Type 0 where
  pub mantissa : ℕ
  pub scale : ℕ

unfoldable pub scaled_integer_from : List ℕ → Option ScaledInteger
scaled_integer_from decimal_text =
    let (whole, fraction) = split_point decimal_text in
    let digits = fraction_of fraction in
    if is_digits whole && is_fraction fraction
    then some (record { mantissa = digit_value 0 (whole ++ digits); scale = length digits })
    else none

unfoldable pub decimal_text_from : (value scale : ℕ) → List ℕ
decimal_text_from value scale =
    let digits = pad_start (scale + 1) (number_text value) in
    let whole_part = take (length digits - scale) digits in
    let fraction_part = strip_zeros (drop (length digits - scale) digits) in
    let joined : List ℕ = elim fraction_part [
      | [] ↦ whole_part
      | d ∷ ds ↦ whole_part ++ 46 ∷ d ∷ ds
    ] in
    if scale == 0 then number_text value else joined

-- A token's decimals are an integer.
unfoldable pub leg_usd :
    (executed_raw : List ℕ) → (decimals : ℤ) → (price_usd : List ℕ) → Option (List ℕ)
leg_usd executed_raw (negsuc n) price_usd = none
leg_usd executed_raw (pos decimals) price_usd = elim (scaled_integer_from price_usd) [
  | none ↦ none
  | some price ↦
      if is_digits executed_raw && leb decimals 255
      then some
          (decimal_text_from (digit_value 0 executed_raw * price.mantissa) (decimals + price.scale))
      else none
]
