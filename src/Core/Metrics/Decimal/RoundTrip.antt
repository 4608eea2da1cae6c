-- ===== src/Core/Metrics/Decimal/RoundTrip.antt =====
-- A decimal that is printed is read back.
use vex_agentscan.Base.{
  ℕ, ◌/◌, ◌%◌, true, false, List, [], ◌∷◌, ◌++◌, none, some, arith, ltb, length, every, take, ◌≡◌,
  refl, sym, ap, ◌∙◌, nat_eq, Bool-cases, inl, inr,
}
use vex_agentscan.Base.Int.{ℤ, pos, negsuc, abs_ℤ}
use vex_agentscan.Base.Digits.{
  is_digit, digit_value, number_text, pad_start, pad_end, strip_zeros, number_text-every,
  number_text-nonempty, digit_value-number_text, length-number_text-le, length-pad_start,
  pad_start-every, digit_value-pad_start, strip_zeros-every, pad_end-strip_zeros, take-all,
}
use vex_agentscan.Core.Metrics.Decimal.{
  scale, scale_unit, split_point, unsigned_units, decimal_from_text, unsigned_text, decimal_to_text,
}

split-digits : (w : List ℕ) → every is_digit w ≡ true → split_point w ≡ (w, none)
unfolding split_point
split-digits [] h = refl
split-digits (c ∷ w) h = ground (arith, split-digits w)

split-point : (w f : List ℕ) → every is_digit w ≡ true → split_point (w ++ 46 ∷ f) ≡ (w, some f)
unfolding split_point
split-point [] f h = refl
split-point (c ∷ w) f h = ground (arith, split-point w f)

zeros-value : digit_value 0 (take scale (pad_end scale [])) ≡ 0
unfolding digit_value pad_end
zeros-value = refl

length-zero : (cs : List ℕ) → ltb 0 (length cs) ≡ false → cs ≡ []
length-zero [] h = refl
length-zero (c ∷ cs) h = ground arith

module _ (units : ℕ) where
  padded : List ℕ
  padded = pad_start scale (number_text (units % scale_unit))

  padded-length : length padded ≡ scale
  unfolding padded
  padded-length =
      length-pad_start scale (number_text (units % scale_unit))
        (length-number_text-le 17 (units % scale_unit) (omega arith))

  padded-value : digit_value 0 padded ≡ units % scale_unit
  unfolding padded
  padded-value =
      digit_value-pad_start scale (number_text (units % scale_unit))
      ∙ digit_value-number_text (units % scale_unit)

  padded-restored : take scale (pad_end scale (strip_zeros padded)) ≡ padded
  padded-restored =
      let back : pad_end scale (strip_zeros padded) ≡ padded =
        rw (padded-length) at (pad_end-strip_zeros padded) in
      let whole : take scale padded ≡ padded = rw (padded-length) at (take-all padded) in
      rw back whole

  fraction-every : every is_digit (strip_zeros padded) ≡ true
  unfolding padded
  fraction-every = strip_zeros-every padded (
      pad_start-every scale (number_text (units % scale_unit))
        (number_text-every (units % scale_unit)))

  -- Where no digit is left of the fraction, it was zero.
  fraction-zero : ltb 0 (length (strip_zeros padded)) ≡ false → units % scale_unit ≡ 0
  fraction-zero h =
      sym padded-value
      ∙ rw (length-zero (strip_zeros padded) h, zeros-value) at
          (sym (ap (digit_value 0) padded-restored))

  unsigned-round : unsigned_units (unsigned_text units) ≡ some units
  unfolding unsigned_units unsigned_text padded
  unsigned-round =
      let w = number_text (units / scale_unit) in
      let f = strip_zeros padded in
      let digits = number_text-every (units / scale_unit) in
      elim (Bool-cases (ltb 0 (length f))) [
        | inl more ↦ ground (
          arith,
          more,
          split-point w f digits,
          number_text-nonempty (units / scale_unit),
          digits,
          fraction-every,
          padded-restored,
          padded-value,
          digit_value-number_text (units / scale_unit),
        )
        | inr none_ ↦ ground (
          arith,
          none_,
          split-digits w digits,
          number_text-nonempty (units / scale_unit),
          digits,
          fraction-zero none_,
          digit_value-number_text (units / scale_unit),
          zeros-value,
        )
      ]

-- What is read without a sign does not begin with one.
unsigned-read :
    (text : List ℕ) (units : ℕ)
    → unsigned_units text ≡ some units
    → decimal_from_text text ≡ some (pos units)
unfolding decimal_from_text unsigned_units split_point
unsigned-read [] units h = ground arith
unsigned-read (c ∷ cs) units h = ground arith

-- Every decimal that is printed is read back as itself.
pub decimal_from_text-decimal_to_text :
    (value : ℤ) → decimal_from_text (decimal_to_text value) ≡ some value
unfolding decimal_from_text decimal_to_text
decimal_from_text-decimal_to_text (pos n) =
    unsigned-read (unsigned_text (abs_ℤ (pos n))) n (ground (arith, unsigned-round (abs_ℤ (pos n))))
decimal_from_text-decimal_to_text (negsuc n) = ground (arith, unsigned-round (abs_ℤ (negsuc n)))
