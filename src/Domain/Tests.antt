-- ===== src/Domain/Tests.antt =====
-- The validators at concrete texts, and the instances of the theorems.
use solo_dual_mode.Prelude.{ℕ, ◌≡◌, ◌≢◌, ◌≤◌, ◌↔◌, refl, List, [], ◌∷◌, replicate}
use solo_dual_mode.Domain.{
  byte_len, first_bad, max_len, is_safe_worker_char, worker, invalid_character, new_worker, zkas,
  kaspa, test, strip_prefix, find_body, address, too_short, check_body, new_address,
}
use solo_dual_mode.Domain.Accepted.{Passes, IsAddress, worker_accepted, address_accepted}

abbrev rig : List ℕ
rig = b'r' ∷ b'i' ∷ b'g' ∷ b'#' ∷ b'1' ∷ []

abbrev wallet : List ℕ
wallet = zkas (test (b':' ∷ replicate 8 b'q'))

accepts_rig : new_worker rig ≡ worker rig
unfolding new_worker first_bad is_safe_worker_char byte_len
accepts_rig = refl

rejects_space : new_worker (b'a' ∷ b' ' ∷ []) ≡ invalid_character b' '
unfolding new_worker first_bad is_safe_worker_char byte_len
rejects_space = refl

accepts_wallet : new_address wallet ≡ address wallet
unfolding new_address find_body strip_prefix check_body first_bad byte_len
accepts_wallet = refl

rejects_short : new_address (kaspa (b':' ∷ b'q' ∷ [])) ≡ too_short 7
unfolding new_address find_body strip_prefix check_body first_bad byte_len
rejects_short = refl

worker_accepted_example :
    (new_worker rig ≡ worker rig)
    ↔ ((rig ≡ rig) × (rig ≢ []) × (byte_len rig ≤ max_len) × Passes is_safe_worker_char rig)
worker_accepted_example = worker_accepted rig rig

address_accepted_example :
    (new_address wallet ≡ address wallet) ↔ ((wallet ≡ wallet) × IsAddress wallet)
address_accepted_example = address_accepted wallet wallet
