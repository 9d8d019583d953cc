-- ===== src/Wallet/Payout.antt =====
-- The payout address of the password.
use solo_dual_mode.Prelude.{
  ℕ, ◌≡◌, ◌⊎◌, inl, inr, refl, ap, ◌∙◌, Bool, true, List, [], ◌∷◌, ◌++◌, some, arith, Bool-cases,
  ◌==◌,
}
use solo_dual_mode.Text.{trim}
use solo_dual_mode.Wallet.{
  has_kaspa_prefix, leading_token, is_placeholder_password, accept_candidate, parse_kas_payout,
}

-- A text that goes on after a token: at its end, or with a comma or a space.
abbrev pub IsToken : List ℕ → List ℕ → Type 0
IsToken token text =
    (token ≡ text)
    ⊎ ((rest : List ℕ) × ((text ≡ token ++ b',' ∷ rest) ⊎ (text ≡ token ++ b' ' ∷ rest)))

leading_token-IsToken : (text : List ℕ) → IsToken (leading_token text) text
unfolding leading_token
leading_token-IsToken [] = inl refl
leading_token-IsToken (ch ∷ text) = elim (Bool-cases (ch == b',')) [
  | inl comma ↦ inr (text, inl (ground (arith, comma)))
  | inr no_comma ↦ elim (Bool-cases (ch == b' ')) [
    | inl space ↦ inr (text, inr (ground (arith, no_comma, space)))
    | inr other ↦ elim (leading_token-IsToken text) [
      | inl all ↦ inl (ground (arith, no_comma, other, all))
      | inr (rest, cut) ↦ elim cut [
        | inl comma ↦ inr (rest, inl (ground (arith, no_comma, other, comma)))
        | inr space ↦ inr (rest, inr (ground (arith, no_comma, other, space)))
      ]
    ]
  ]
]

module _ (is_address : List ℕ → Bool) where
  accepted_candidate :
      (candidate found : List ℕ)
      → accept_candidate is_address candidate ≡ some found
      → (found ≡ candidate) × (is_address found ≡ true) × (has_kaspa_prefix found ≡ true)
  accepted_candidate candidate found h = elim (Bool-cases (has_kaspa_prefix candidate)) [
    | inr bare ↦ absurd (ground (arith, bare, h))
    | inl known ↦ elim (Bool-cases (is_address candidate)) [
      | inr bad ↦ absurd (ground (arith, known, bad, h))
      | inl good ↦
          let same : found ≡ candidate = ground (arith, known, good, h) in
          (same, ap is_address same ∙ good, ap has_kaspa_prefix same ∙ known)
    ]
  ]

  -- A payout address is never made up: it decodes, it has the prefix, and it stands at the start
  -- of the trimmed password, up to its end, a comma or a space.
  pub payout_stated :
      (raw found : List ℕ)
      → parse_kas_payout is_address (some raw) ≡ some found
      → (is_address found ≡ true)
        × (has_kaspa_prefix found ≡ true)
        × ((token : List ℕ) × IsToken token (trim raw) × (found ≡ trim token))
  unfolding parse_kas_payout
  payout_stated raw found h = elim (Bool-cases (is_placeholder_password (trim raw))) [
    | inl placeholder ↦ absurd (ground (arith, placeholder, h))
    | inr attempt ↦
        let (same, good, known) =
          accepted_candidate (trim (leading_token (trim raw))) found (ground (arith, attempt, h)) in
        (good, known, (leading_token (trim raw), leading_token-IsToken (trim raw), same))
  ]
