-- ===== src/Extranonce/Tests.antt =====
-- The counter and its text at concrete values, and the instance of the theorem.
use solo_dual_mode.Prelude.{ℕ, ◌≡◌, ◌≢◌, refl, true, false, List, [], ◌∷◌, some, arith}
use solo_dual_mode.Submit.Text.{final_nonce, from_str_radix, to_digit}
use solo_dual_mode.Submit.Text.Hex.{digit}
use solo_dual_mode.Extranonce.{
  hex_char, format_extranonce, next_extranonce, assign_extranonce_for_miner,
}
use solo_dual_mode.Extranonce.Distinct.{served, is_given, never_overlap}

ice_river : assign_extranonce_for_miner false true 161 ≡ (162, b'0' ∷ b'0' ∷ b'a' ∷ b'1' ∷ [])
unfolding assign_extranonce_for_miner next_extranonce format_extranonce hex_char
ice_river = refl

wrapped : assign_extranonce_for_miner true true 65535 ≡ (0, b'f' ∷ b'f' ∷ b'f' ∷ b'f' ∷ [])
unfolding assign_extranonce_for_miner next_extranonce format_extranonce hex_char
wrapped = refl

switched_off : assign_extranonce_for_miner true false 161 ≡ (161, [])
unfolding assign_extranonce_for_miner
switched_off = refl

-- Two rigs at the end of the range, a third between them.
never_overlap_example :
    (text text' : List ℕ) × (value value' : ℕ) × (final_nonce
        (assign_extranonce_for_miner true true 65534).1
        (b'f' ∷ b'f' ∷ [])
      ≡ some text)
    × (final_nonce
          (assign_extranonce_for_miner false true
            (served true (false ∷ []) (assign_extranonce_for_miner true true 65534).0)).1
          (b'f' ∷ b'f' ∷ [])
        ≡ some text')
    × (from_str_radix text 16 ≡ some value)
    × (from_str_radix text' 16 ≡ some value')
    × (value ≢ value')
unfolding to_digit digit is_given
never_overlap_example =
    never_overlap true true false (false ∷ []) 65534 (b'f' ∷ b'f' ∷ []) (b'f' ∷ b'f' ∷ [])
      (omega arith) (omega arith) refl refl (refl, (refl, tt)) (refl, (refl, tt)) (omega arith)
      (omega arith)
