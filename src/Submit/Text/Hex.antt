-- ===== src/Submit/Text/Hex.antt =====
-- Hexadecimal text: its value, and the parser that reads it.
use solo_dual_mode.Prelude.{
  ℕ, zero, suc, ◌+◌, ◌*◌, ◌^◌, ◌≤◌, ◌<◌, ◌≡◌, refl, ap, sym, ◌∙◌, true, false, List, [], ◌∷◌, ◌++◌,
  none, some, arith, All, length, replicate, ltb, lt→ltb, ◌==◌,
}
use native.Mathlib.Nat.{mul_assoc, add-mul, mul-le-mul_right}
use solo_dual_mode.Submit.Text.{to_digit, digits, from_str_radix}

-- The value of a hexadecimal digit, and whether a character is one.
unfoldable pub digit : ℕ → ℕ
digit ch = elim (to_digit 16 ch) [ none ↦ 0 | some d ↦ d ]

abbrev pub IsDigit : ℕ → Type 0
IsDigit ch = to_digit 16 ch ≡ some (digit ch)

-- A text read as a number, after the number `acc`.
unfoldable pub hex_value : ℕ → List ℕ → ℕ
hex_value acc [] = acc
hex_value acc (ch ∷ text) = hex_value (acc * 16 + digit ch) text

pub digit_small : (ch : ℕ) → digit ch < 16
unfolding digit to_digit
digit_small ch = ground arith

pub power_step : (n : ℕ) → 16 ^ suc n ≡ 16 * 16 ^ n
power_step n = omega arith

pub step-shift : (acc d n h : ℕ) → (acc * 16 + d) * 16 ^ n + h ≡ acc * 16 ^ suc n + (d * 16 ^ n + h)
step-shift acc d n h =
    let e = ap (λ p. acc * p) (power_step n) in
    omega (arith, e, add-mul (acc * 16) d (16 ^ n), mul_assoc acc 16 (16 ^ n))

pub hex_value_step :
    (acc ch : ℕ) (text : List ℕ) → hex_value acc (ch ∷ text) ≡ hex_value (acc * 16 + digit ch) text
unfolding hex_value
hex_value_step acc ch text = refl

pub hex_value-shift :
    (acc : ℕ) (text : List ℕ) → hex_value acc text ≡ acc * 16 ^ length text + hex_value 0 text
unfolding hex_value
hex_value-shift acc [] = omega arith
hex_value-shift acc (ch ∷ text) = omega (
  arith,
  hex_value_step acc ch text,
  hex_value_step 0 ch text,
  hex_value-shift (acc * 16 + digit ch) text,
  hex_value-shift (0 + digit ch) text,
  step-shift acc (digit ch) (length text) (hex_value 0 text),
)

pub hex_value_small : (text : List ℕ) → hex_value 0 text < 16 ^ length text
unfolding hex_value
hex_value_small [] = omega arith
hex_value_small (ch ∷ text) =
    let none_before : 0 + digit ch ≡ digit ch = omega arith in
    omega (
      arith,
      hex_value_step 0 ch text,
      hex_value-shift (0 + digit ch) text,
      ap (λ d. d * 16 ^ length text) none_before,
      mul-le-mul_right {m = digit ch} {n = 15} (16 ^ length text) (omega (arith, digit_small ch)),
      hex_value_small text,
      power_step (length text),
    )

pub hex_value_nil : (acc : ℕ) → some acc ≡ some (hex_value acc [])
unfolding hex_value
hex_value_nil acc = refl

pub hex_value-grows : (acc : ℕ) (text : List ℕ) → acc ≤ hex_value acc text
unfolding hex_value
hex_value-grows acc [] = omega arith
hex_value-grows acc (ch ∷ text) =
    omega (arith, hex_value_step acc ch text, hex_value-grows (acc * 16 + digit ch) text)

-- Digits are read as their value while that fits.
pub digits-hex_value :
    (acc : ℕ) (text : List ℕ)
    → All IsDigit text
    → hex_value acc text < 2 ^ 64
    → digits 16 acc text ≡ some (hex_value acc text)
unfolding digits
digits-hex_value acc [] valid fits = hex_value_nil acc
digits-hex_value acc (ch ∷ text) valid fits =
    let rest = hex_value_step acc ch text in
    let fits' : hex_value (acc * 16 + digit ch) text < 2 ^ 64 = omega (arith, rest, fits) in
    let small : ltb (acc * 16 + digit ch) (2 ^ 64) ≡ true =
      lt→ltb _ _ (omega (arith, hex_value-grows (acc * 16 + digit ch) text, fits')) in
    let first = valid.0 in
    rw (first, small, digits)
      (digits-hex_value (acc * 16 + digit ch) text valid.1 fits' ∙ ap some (sym rest))

pub hex_value-append :
    (acc : ℕ) (text more : List ℕ)
    → hex_value acc (text ++ more) ≡ hex_value (hex_value acc text) more
unfolding hex_value
hex_value-append acc [] more = refl
hex_value-append acc (ch ∷ text) more = hex_value-append (acc * 16 + digit ch) text more

pub hex_value_zeros : (n : ℕ) → hex_value 0 (replicate n b'0') ≡ 0
unfolding hex_value digit to_digit
hex_value_zeros zero = refl
hex_value_zeros (suc n) = hex_value_zeros n

pub zeros_valid : (n : ℕ) → All IsDigit (replicate n b'0')
unfolding digit to_digit
zeros_valid zero = tt
zeros_valid (suc n) = (refl, zeros_valid n)

pub not_sign : (ch : ℕ) → IsDigit ch → (ch == b'+') ≡ false
unfolding digit to_digit
not_sign ch valid = ground (arith, valid)

-- A text that begins with a digit has no sign.
pub from_str_radix-digits :
    (ch : ℕ) (text : List ℕ) → IsDigit ch → from_str_radix (ch ∷ text) 16 ≡ digits 16 0 (ch ∷ text)
unfolding from_str_radix digit to_digit
from_str_radix-digits ch [] valid = refl
from_str_radix-digits ch (next ∷ text) valid = ground (arith, valid, not_sign ch valid)
