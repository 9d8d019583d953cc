-- ===== src/Wallet/Clean.antt =====
-- What `clean_wallet` answers, and that its recursion ends.
use solo_dual_mode.Prelude.{
  ℕ, suc, ◌≡◌, inl, inr, refl, ap, sym, ◌∙◌, Bool, true, false, List, ◌++◌, Option, none, some,
  arith, Bool-cases, Option-cases, if◌then◌else◌,
}
use solo_dual_mode.Text.{codes, starts_with}
use solo_dual_mode.Wallet.{has_kaspa_prefix, clean_wallet_with, clean_wallet, find_wallet}
use solo_dual_mode.Wallet.Scan.{IsScraped, find_wallet-IsScraped, find_wallet-none}

-- The text that is searched: the login, with the prefix if it has none.
abbrev pub with_prefix : List ℕ → List ℕ
with_prefix input = if has_kaspa_prefix input then input else codes "kaspa:" ++ input

-- A prefixed text has the prefix.
prefixed : (input : List ℕ) → has_kaspa_prefix (codes "kaspa:" ++ input) ≡ true
unfolding starts_with
prefixed input = refl

module _ (is_address : List ℕ → Bool) where
  -- What a login is cleaned to.
  pub data IsCleaned (input : List ℕ) (answer : Option (List ℕ)) : Type 0 where
    decoded : is_address input ≡ true → answer ≡ some input → IsCleaned input answer
    completed :
        is_address input ≡ false
        → is_address (with_prefix input) ≡ true
        → answer ≡ some (with_prefix input)
        → IsCleaned input answer
    scraped :
        (found : List ℕ)
        → is_address input ≡ false
        → is_address (with_prefix input) ≡ false
        → answer ≡ some found
        → IsScraped (with_prefix input) found
        → IsCleaned input answer
    refused :
        is_address input ≡ false
        → is_address (with_prefix input) ≡ false
        → answer ≡ none
        → ((found : List ℕ) → ¬ IsScraped (with_prefix input) found)
        → IsCleaned input answer

  clean_prefixed :
      (fuel : ℕ) (input : List ℕ)
      → has_kaspa_prefix input ≡ true
      → clean_wallet_with is_address (suc fuel) input
        ≡ (if is_address input then some input else find_wallet input)
  unfolding clean_wallet_with
  clean_prefixed fuel input known = rw (known, clean_wallet_with) refl

  clean_bare :
      (fuel : ℕ) (input : List ℕ)
      → has_kaspa_prefix input ≡ false
      → clean_wallet_with is_address (suc fuel) input ≡ (
          if is_address input
          then some input
          else clean_wallet_with is_address fuel (codes "kaspa:" ++ input))
  unfolding clean_wallet_with
  clean_bare fuel input bare = rw (bare, clean_wallet_with) refl

  -- The three attempts.
  abbrev attempts : List ℕ → List ℕ → Option (List ℕ)
  attempts input text =
      if is_address input
      then some input
      else (if is_address text then some text else find_wallet text)

  clean_attempts :
      (input : List ℕ) → clean_wallet is_address input ≡ attempts input (with_prefix input)
  clean_attempts input = elim (Bool-cases (has_kaspa_prefix input)) [
    | inl known ↦ let e = clean_prefixed 1 input known in e ∙ rw (known) (ground arith)
    | inr bare ↦
        let text = codes "kaspa:" ++ input in
        let e = clean_prefixed 0 text (prefixed input) in
        clean_bare 1 input bare
        ∙ ap (λ o. if is_address input then some input else o) e
        ∙ rw (bare) refl
  ]

  search-IsCleaned :
      (input : List ℕ) (answer : Option (List ℕ))
      → is_address input ≡ false
      → is_address (with_prefix input) ≡ false
      → answer ≡ find_wallet (with_prefix input)
      → IsCleaned input answer
  search-IsCleaned input answer bad undecoded e =
      elim (Option-cases (find_wallet (with_prefix input))) [
        | inr (found, here) ↦
            scraped found bad undecoded (e ∙ here)
              (find_wallet-IsScraped (with_prefix input) found here)
        | inl nowhere ↦
            refused bad undecoded (e ∙ nowhere) (find_wallet-none (with_prefix input) nowhere)
      ]

  -- A wallet is accepted as it was given if it is an address, or with the missing prefix if that
  -- makes it one. Otherwise it is the leftmost part of that text that is an accepted prefix with 61
  -- small letters or digits behind it, which nobody has decoded, and refused if there is none.
  pub clean_wallet_lem : (input : List ℕ) → IsCleaned input (clean_wallet is_address input)
  clean_wallet_lem input = elim (Bool-cases (is_address input)) [
    | inl good ↦ decoded good (clean_attempts input ∙ rw (good) refl)
    | inr bad ↦ elim (Bool-cases (is_address (with_prefix input))) [
      | inl fits ↦ completed bad fits (clean_attempts input ∙ rw (bad, fits) refl)
      | inr undecoded ↦
          search-IsCleaned input (clean_wallet is_address input) bad undecoded
            (clean_attempts input ∙ rw (bad, undecoded) refl)
    ]
  ]

  -- The recursion goes one level deep: more fuel than two changes nothing.
  pub clean_wallet_total :
      (fuel : ℕ) (input : List ℕ)
      → clean_wallet_with is_address (suc (suc fuel)) input ≡ clean_wallet is_address input
  clean_wallet_total fuel input = elim (Bool-cases (has_kaspa_prefix input)) [
    | inl known ↦ clean_prefixed (suc fuel) input known ∙ sym (clean_prefixed 1 input known)
    | inr bare ↦
        let text = codes "kaspa:" ++ input in
        clean_bare (suc fuel) input bare
        ∙ ap (λ o. if is_address input then some input else o)
            (clean_prefixed fuel text (prefixed input)
              ∙ sym (clean_prefixed 0 text (prefixed input)))
        ∙ sym (clean_bare 1 input bare)
  ]
