-- ===== src/Base/Digits.antt =====
-- Decimal digits as code units: printing a number, reading it back, and padding with zeros.
use vex_agentscan.Base.{
  ℕ, zero, suc, ◌+◌, ◌-◌, ◌*◌, ◌/◌, ◌%◌, ◌^◌, ◌≤◌, ◌<◌, Bool, true, false, ◌&&◌, List, [], ◌∷◌,
  ◌++◌, arith, ltb, leb, length, length-append, every, replicate, take, nat_beq, ◌≡◌, refl,
  if◌then◌else◌,
}

abbrev pub is_digit : ℕ → Bool
is_digit c = leb 48 c && leb c 57

-- The decimal digits of a number, on fuel; a number is enough fuel for itself.
unfoldable pub digits_of : ℕ → ℕ → List ℕ
digits_of zero n = (48 + n % 10) ∷ []
digits_of (suc fuel) n = elim (ltb n 10) [
  | true ↦ (48 + n) ∷ []
  | false ↦ digits_of fuel (n / 10) ++ (48 + n % 10) ∷ []
]

-- `n.toString()`
unfoldable pub number_text : ℕ → List ℕ
number_text n = digits_of n n

-- Reading digits after others that read as `count`. `Number(text)`, `BigInt(text)`
unfoldable pub digit_value : ℕ → List ℕ → ℕ
digit_value count [] = count
digit_value count (c ∷ cs) = digit_value (count * 10 + (c - 48)) cs

pub digit_value-append :
    (count : ℕ) (cs ds : List ℕ)
    → digit_value count (cs ++ ds) ≡ digit_value (digit_value count cs) ds
unfolding digit_value
digit_value-append count [] ds = refl
digit_value-append count (c ∷ cs) ds = digit_value-append (count * 10 + (c - 48)) cs ds

pub every-append :
    (p : ℕ → Bool) (cs ds : List ℕ)
    → every p cs ≡ true
    → every p ds ≡ true
    → every p (cs ++ ds) ≡ true
every-append p [] ds h k = k
every-append p (c ∷ cs) ds h k = ground (arith, every-append p cs ds)

digits_of-every : (fuel n : ℕ) → every is_digit (digits_of fuel n) ≡ true
unfolding digits_of
digits_of-every zero n = ground arith
digits_of-every (suc fuel) n = ground (
  arith,
  every-append is_digit (digits_of fuel (n / 10)) ((48 + n % 10) ∷ [])
      (digits_of-every fuel (n / 10)),
)

digit_value-digits_of : (fuel n : ℕ) → n ≤ fuel → digit_value 0 (digits_of fuel n) ≡ n
unfolding digits_of digit_value
digit_value-digits_of zero n h = ground arith
digit_value-digits_of (suc fuel) n h = ground (
  arith,
  digit_value-append 0 (digits_of fuel (n / 10)) ((48 + n % 10) ∷ []),
  digit_value-digits_of fuel (n / 10),
)

digits_of-nonempty : (fuel n : ℕ) → 1 ≤ length (digits_of fuel n)
unfolding digits_of
digits_of-nonempty zero n = ground arith
digits_of-nonempty (suc fuel) n =
    ground (arith, length-append (digits_of fuel (n / 10)) ((48 + n % 10) ∷ []))

-- A number below 10 ^ k has at most k digits.
length-digits_of-le : (k fuel n : ℕ) → n < 10 ^ suc k → length (digits_of fuel n) ≤ suc k
unfolding digits_of
length-digits_of-le k zero n h = omega arith
length-digits_of-le zero (suc fuel) n h = ground arith
length-digits_of-le (suc k) (suc fuel) n h = ground (
  arith,
  length-append (digits_of fuel (n / 10)) ((48 + n % 10) ∷ []),
  length-digits_of-le k fuel (n / 10),
)

pub number_text-every : (n : ℕ) → every is_digit (number_text n) ≡ true
unfolding number_text
number_text-every n = digits_of-every n n

pub digit_value-number_text : (n : ℕ) → digit_value 0 (number_text n) ≡ n
unfolding number_text
digit_value-number_text n = digit_value-digits_of n n (omega arith)

pub number_text-nonempty : (n : ℕ) → 1 ≤ length (number_text n)
unfolding number_text
number_text-nonempty n = digits_of-nonempty n n

pub length-number_text-le : (k n : ℕ) → n < 10 ^ suc k → length (number_text n) ≤ suc k
unfolding number_text
length-number_text-le k n h = length-digits_of-le k n n h

-- `text.padStart(n, "0")` and `text.padEnd(n, "0")`
unfoldable pub pad_start : ℕ → List ℕ → List ℕ
pad_start n cs = replicate (n - length cs) 48 ++ cs

unfoldable pub pad_end : ℕ → List ℕ → List ℕ
pad_end n cs = cs ++ replicate (n - length cs) 48

-- `text.replace(/0+$/, "")`
unfoldable pub strip_zeros : List ℕ → List ℕ
strip_zeros [] = []
strip_zeros (c ∷ cs) = elim (strip_zeros cs) [
  | [] ↦ if nat_beq c 48 then [] else c ∷ []
  | d ∷ ds ↦ c ∷ d ∷ ds
]

digit_value-zeros : (n : ℕ) → digit_value 0 (replicate n 48) ≡ 0
unfolding digit_value
digit_value-zeros zero = refl
digit_value-zeros (suc n) = ground (arith, digit_value-zeros n)

length-zeros : (n : ℕ) → length {A = ℕ} (replicate n 48) ≡ n
length-zeros zero = omega arith
length-zeros (suc n) = omega (arith, length-zeros n)

zeros-every : (n : ℕ) → every is_digit (replicate n 48) ≡ true
zeros-every zero = refl
zeros-every (suc n) = ground (arith, zeros-every n)

pub digit_value-pad_start :
    (n : ℕ) (cs : List ℕ) → digit_value 0 (pad_start n cs) ≡ digit_value 0 cs
unfolding pad_start
digit_value-pad_start n cs =
    rw (digit_value-append 0 (replicate (n - length cs) 48) cs, digit_value-zeros (n - length cs))
      refl

pub length-pad_start : (n : ℕ) (cs : List ℕ) → length cs ≤ n → length (pad_start n cs) ≡ n
unfolding pad_start
length-pad_start n cs h =
    omega (arith, length-append (replicate (n - length cs) 48) cs, length-zeros (n - length cs))

pub pad_start-every :
    (n : ℕ) (cs : List ℕ) → every is_digit cs ≡ true → every is_digit (pad_start n cs) ≡ true
unfolding pad_start
pad_start-every n cs h =
    every-append is_digit (replicate (n - length cs) 48) cs (zeros-every (n - length cs)) h

pub strip_zeros-every :
    (cs : List ℕ) → every is_digit cs ≡ true → every is_digit (strip_zeros cs) ≡ true
unfolding strip_zeros
strip_zeros-every [] h = refl
strip_zeros-every (c ∷ cs) h = ground (arith, strip_zeros-every cs)

pub length-strip_zeros-le : (cs : List ℕ) → length (strip_zeros cs) ≤ length cs
unfolding strip_zeros
length-strip_zeros-le [] = omega arith
length-strip_zeros-le (c ∷ cs) = ground (arith, length-strip_zeros-le cs)

-- What was stripped, padding gives back.
pub pad_end-strip_zeros : (cs : List ℕ) → pad_end (length cs) (strip_zeros cs) ≡ cs
unfolding pad_end strip_zeros
pad_end-strip_zeros [] = refl
pad_end-strip_zeros (c ∷ cs) = ground (arith, pad_end-strip_zeros cs)

pub take-all : (cs : List ℕ) → take (length cs) cs ≡ cs
take-all [] = refl
take-all (c ∷ cs) = ground (arith, take-all cs)
