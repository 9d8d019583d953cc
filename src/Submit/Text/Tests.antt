-- ===== src/Submit/Text/Tests.antt =====
-- The instances of the theorems on nonces.
use solo_dual_mode.Prelude.{ℕ, ◌≡◌, ◌≢◌, refl, List, [], ◌∷◌, some, arith, length}
use solo_dual_mode.Submit.Text.{final_nonce, from_str_radix, to_digit}
use solo_dual_mode.Submit.Text.Hex.{digit, hex_value}
use solo_dual_mode.Submit.Text.Nonce.{joined, nonce_value, nonces_disjoint}

-- The extranonces "00a1" and "00a2" before the nonces "ff" and "7".
nonce_value_example :
    (text : List ℕ) × (final_nonce (b'0' ∷ b'0' ∷ b'a' ∷ b'1' ∷ []) (b'f' ∷ b'f' ∷ []) ≡ some text)
    × (length text ≡ 16)
    × (from_str_radix text 16 ≡ some (joined (b'0' ∷ b'0' ∷ b'a' ∷ b'1' ∷ []) (b'f' ∷ b'f' ∷ [])))
unfolding to_digit digit
nonce_value_example =
    nonce_value b'0' (b'0' ∷ b'a' ∷ b'1' ∷ []) (b'f' ∷ b'f' ∷ []) (refl, (refl, (refl, (refl, tt))))
      (refl, (refl, tt)) (omega arith)

nonces_disjoint_example :
    (text text' : List ℕ) × (value value' : ℕ) × (final_nonce
        (b'0' ∷ b'0' ∷ b'a' ∷ b'1' ∷ [])
        (b'f' ∷ b'f' ∷ [])
      ≡ some text)
    × (final_nonce (b'0' ∷ b'0' ∷ b'a' ∷ b'2' ∷ []) (b'7' ∷ []) ≡ some text')
    × (from_str_radix text 16 ≡ some value)
    × (from_str_radix text' 16 ≡ some value')
    × (value ≢ value')
unfolding to_digit digit hex_value
nonces_disjoint_example =
    nonces_disjoint b'0' b'0' (b'0' ∷ b'a' ∷ b'1' ∷ []) (b'0' ∷ b'a' ∷ b'2' ∷ []) (b'f' ∷ b'f' ∷ [])
      (b'7' ∷ []) (refl, (refl, (refl, (refl, tt)))) (refl, (refl, (refl, (refl, tt))))
      (refl, (refl, tt)) (refl, tt) refl (omega arith) (omega arith)
      (λ e. absurd (omega (arith, e)))
