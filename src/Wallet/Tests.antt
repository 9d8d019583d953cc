-- ===== src/Wallet/Tests.antt =====
-- Wallets and passwords at concrete texts, with one address that decodes.
use solo_dual_mode.Prelude.{
  ℕ, ◌≡◌, refl, Bool, true, false, List, [], ◌∷◌, ◌++◌, Option, some, none, ite, replicate,
}
use solo_dual_mode.Text.{
  codes, text_dec, starts_with, trim, trim_start, trim_end, to_ascii_lowercase,
}
use solo_dual_mode.Wallet.{
  take_class, match_payload, match_wallet, find_wallet, clean_wallet_with, clean_wallet,
  leading_token, looks_like_payout_attempt, is_placeholder_password, parse_kas_payout,
  has_kaspa_prefix,
}
use solo_dual_mode.Wallet.Clean.{IsCleaned, clean_wallet_lem}
use solo_dual_mode.Wallet.Payout.{IsToken, payout_stated}

abbrev decodes : List ℕ → Bool
decodes s = ite (text_dec s (codes "kaspa:abc")) true false

completes : clean_wallet decodes (codes "abc") ≡ some (codes "kaspa:abc")
unfolding clean_wallet_with starts_with text_dec solo_dual_mode.Prelude.ℕ_discrete
completes = refl

-- Of 63 characters two are lost.
cuts :
    find_wallet (codes "x kaspa:" ++ replicate 63 b'q') ≡ some (codes "kaspa:" ++ replicate 61 b'q')
unfolding find_wallet match_wallet match_payload take_class starts_with
cuts = refl

refuses_worker : parse_kas_payout decodes (some (codes "kaspa:abc.rig")) ≡ none
unfolding parse_kas_payout is_placeholder_password looks_like_payout_attempt leading_token trim
    trim_start trim_end to_ascii_lowercase starts_with text_dec solo_dual_mode.Prelude.ℕ_discrete
refuses_worker = refl

accepts_suffix :
    parse_kas_payout decodes (some (codes " kaspa:abc,d=8192")) ≡ some (codes "kaspa:abc")
unfolding parse_kas_payout is_placeholder_password looks_like_payout_attempt leading_token trim
    trim_start trim_end to_ascii_lowercase starts_with text_dec solo_dual_mode.Prelude.ℕ_discrete
accepts_suffix = refl

abbrev login : List ℕ
login = codes "x kaspa:" ++ replicate 63 b'q'

clean_wallet_lem_example : IsCleaned decodes login (clean_wallet decodes login)
clean_wallet_lem_example = clean_wallet_lem decodes login

payout_stated_example :
    (decodes (codes "kaspa:abc") ≡ true)
    × (has_kaspa_prefix (codes "kaspa:abc") ≡ true)
    × ((token : List ℕ) × IsToken token (trim (codes " kaspa:abc,d=8192"))
        × (codes "kaspa:abc" ≡ trim token))
payout_stated_example =
    payout_stated decodes (codes " kaspa:abc,d=8192") (codes "kaspa:abc") accepts_suffix
