-- ===== src/Submit/Text/Nonce.antt =====
-- The nonce that a rig's text stands for: the connection's extranonce in its high digits.
use solo_dual_mode.Prelude.{
  ℕ, suc, ◌+◌, ◌-◌, ◌*◌, ◌^◌, ◌≤◌, ◌<◌, ◌≡◌, ◌≢◌, refl, ap, ap₂, sym, ◌∙◌, true, false, List, ◌∷◌,
  ◌++◌, some, arith, All, All-append, length, length-append, length-replicate, replicate, ltb, leb,
  dec_lt,
}
use native.Mathlib.Nat.{add-mul, mul-le-mul_right, pow-le-pow_right}
use solo_dual_mode.Submit.Text.{from_str_radix, final_nonce}
use solo_dual_mode.Submit.Text.Hex.{
  IsDigit, hex_value, hex_value-shift, hex_value_small, digits-hex_value, hex_value-append,
  hex_value_zeros, zeros_valid, from_str_radix-digits,
}

-- The low digits: the zeros of the padding do not count.
padded_value :
    (z : ℕ) (nonce : List ℕ) → hex_value 0 (replicate z b'0' ++ nonce) ≡ hex_value 0 nonce
padded_value z nonce =
    hex_value-append 0 (replicate z b'0') nonce
    ∙ ap (λ acc. hex_value acc nonce) (hex_value_zeros z)

-- The value of an extranonce of `n` digits and a shorter nonce.
abbrev pub joined : List ℕ → List ℕ → ℕ
joined extranonce nonce = hex_value 0 extranonce * 16 ^ (16 - length extranonce) + hex_value 0 nonce

-- A nonce of hexadecimal digits that leaves room for the connection's extranonce is completed to 16
-- digits, which are read without an overflow: the extranonce stands in the high digits and the
-- rig's nonce in the low ones.
pub nonce_value :
    (e : ℕ) (extranonce nonce : List ℕ)
    → All IsDigit (e ∷ extranonce)
    → All IsDigit nonce
    → length (e ∷ extranonce) + length nonce ≤ 16
    → (text : List ℕ) × (final_nonce (e ∷ extranonce) nonce ≡ some text)
      × (length text ≡ 16)
      × (from_str_radix text 16 ≡ some (joined (e ∷ extranonce) nonce))
unfolding final_nonce
nonce_value e extranonce nonce high low room =
    let n = length (e ∷ extranonce) in
    let z = (16 - n) - length nonce in
    let tail = replicate z b'0' ++ nonce in
    let text = (e ∷ extranonce) ++ tail in
    let tail_length : length tail ≡ 16 - n =
      omega
        (arith, length-append (replicate z b'0') nonce, length-replicate {A = ℕ} z b'0', room) in
    let full : length text ≡ 16 =
      omega (arith, length-append (e ∷ extranonce) tail, tail_length, room) in
    let value : hex_value 0 text ≡ joined (e ∷ extranonce) nonce =
      hex_value-append 0 (e ∷ extranonce) tail
      ∙ hex_value-shift (hex_value 0 (e ∷ extranonce)) tail
      ∙ ap₂ (λ m v. hex_value 0 (e ∷ extranonce) * 16 ^ m + v) tail_length (padded_value z nonce) in
    let valid =
      All-append IsDigit (e ∷ extranonce) tail high
        (All-append IsDigit (replicate z b'0') nonce (zeros_valid z) low) in
    let bound = ap (λ m. 16 ^ m) full in
    let fits : hex_value 0 text < 2 ^ 64 = omega (arith, hex_value_small text, bound) in
    let read = digits-hex_value 0 text valid fits in
    let short : ltb 16 n ≡ false = ground (arith, room) in
    let fit : leb (length nonce) (16 - n) ≡ true = ground (arith, room) in
    (
      text,
      rw (short, fit, final_nonce) refl,
      full,
      from_str_radix-digits e (extranonce ++ tail) high.0 ∙ read ∙ ap some value,
    )

-- Numbers with different high parts.
suc_add : (a m : ℕ) → suc a * m ≡ (a + 1) * m
suc_add a m = ap (λ n. n * m) (omega arith)

below : (a a' b b' m : ℕ) → a < a' → b < m → a * m + b ≢ a' * m + b'
below a a' b b' m less small same = absurd (
    omega (
      arith,
      mul-le-mul_right {m = suc a} {n = a'} m (omega (arith, less)),
      add-mul a 1 m,
      suc_add a m,
      small,
      same,
    ))

apart : (a a' b b' m : ℕ) → a ≢ a' → b < m → b' < m → a * m + b ≢ a' * m + b'
apart a a' b b' m differ small small' same = elim (dec_lt a a') [
  | yes less ↦ below a a' b b' m less small same
  | no more ↦ below a' a b' b m (ground (arith, more, differ)) small' (sym same)
]

low_digits : (nonce : List ℕ) (m : ℕ) → length nonce ≤ m → hex_value 0 nonce < 16 ^ m
low_digits nonce m fits =
    omega (arith, hex_value_small nonce, pow-le-pow_right {n = 16} (omega arith) fits)

-- Two connections whose extranonces have the same length and different values never work on the
-- same nonce, whatever hexadecimal nonces their rigs submit in the room that is left.
pub nonces_disjoint :
    (e e' : ℕ) (extranonce extranonce' nonce nonce' : List ℕ)
    → All IsDigit (e ∷ extranonce)
    → All IsDigit (e' ∷ extranonce')
    → All IsDigit nonce
    → All IsDigit nonce'
    → length extranonce ≡ length extranonce'
    → length (e ∷ extranonce) + length nonce ≤ 16
    → length (e' ∷ extranonce') + length nonce' ≤ 16
    → hex_value 0 (e ∷ extranonce) ≢ hex_value 0 (e' ∷ extranonce')
    → (text text' : List ℕ) × (value value' : ℕ) × (final_nonce (e ∷ extranonce) nonce ≡ some text)
      × (final_nonce (e' ∷ extranonce') nonce' ≡ some text')
      × (from_str_radix text 16 ≡ some value)
      × (from_str_radix text' 16 ≡ some value')
      × (value ≢ value')
nonces_disjoint e e' extranonce extranonce' nonce nonce' high high' low low' same room room'
      differ =
    let (text, done, full, read) = nonce_value e extranonce nonce high low room in
    let (text', done', full', read') = nonce_value e' extranonce' nonce' high' low' room' in
    (
      text,
      text',
      _,
      _,
      done,
      done',
      read,
      read',
      λ equal. absurd (
          apart (hex_value 0 (e ∷ extranonce)) (hex_value 0 (e' ∷ extranonce')) (hex_value 0 nonce)
            (hex_value 0 nonce') (16 ^ (16 - length (e ∷ extranonce))) differ
            (low_digits nonce (16 - length (e ∷ extranonce)) (omega (arith, room)))
            (low_digits nonce' (16 - length (e ∷ extranonce)) (omega (arith, room', same)))
            (equal
              ∙ ap (λ n. hex_value 0 (e' ∷ extranonce') * 16 ^ (16 - suc n) + hex_value 0 nonce')
                  (sym same))),
    )
