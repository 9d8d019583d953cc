-- ===== src/Wallet.antt =====
-- bridge-src/bridge/src/default_client.rs: the addresses that a rig gives. `is_address` is
-- `Address::try_from`, a parameter: the address library's decoder, checksum included.
pub mod Scan
pub mod Clean
pub mod Payout
mod Tests
use solo_dual_mode.Prelude.{
  ℕ, zero, suc, ◌+◌, Bool, true, false, ◌&&◌, ◌||◌, not, List, [], ◌∷◌, ◌++◌, Option, none, some,
  ltb, leb, ◌==◌, if◌then◌else◌, length, drop,
}
use solo_dual_mode.Text.{codes, starts_with, trim, to_ascii_lowercase, is_empty}

abbrev pub has_kaspa_prefix : List ℕ → Bool
has_kaspa_prefix s =
    starts_with s (codes "kaspa:")
    || starts_with s (codes "kaspatest:")
    || starts_with s (codes "kaspadev:")

-- The characters of `[a-z0-9]`.
abbrev pub is_payload_char : ℕ → Bool
is_payload_char ch = (leb b'a' ch && leb ch b'z') || (leb b'0' ch && leb ch b'9')

-- `n` characters of a class, from the start.
unfoldable pub take_class : ℕ → List ℕ → Option (List ℕ)
take_class zero s = some []
take_class (suc n) [] = none
take_class (suc n) (ch ∷ s) =
    let rest = take_class n s in
    if is_payload_char ch then elim rest [ none ↦ none | some taken ↦ some (ch ∷ taken) ] else none

-- The alternative that comes first is taken when it matches: 61 characters before 63.
unfoldable pub match_payload : List ℕ → Option (List ℕ)
match_payload s = elim (take_class 61 s) [ some taken ↦ some taken | none ↦ take_class 63 s ]

abbrev pub after_head : List ℕ → List ℕ → Option (List ℕ)
after_head head s = elim (match_payload (drop (length head) s)) [
  | none ↦ none
  | some payload ↦ some (head ++ payload)
]

-- The regular expression at one place. Of its three heads no text starts with two.
unfoldable pub match_wallet : List ℕ → Option (List ℕ)
match_wallet s =
    if starts_with s (codes "kaspatest:")
    then after_head (codes "kaspatest:") s
    else (if starts_with s (codes "kaspadev:")
        then after_head (codes "kaspadev:") s
        else (if starts_with s (codes "kaspa:") then after_head (codes "kaspa:") s else none))

-- `WALLET_REGEX.find`: the first place with a match.
unfoldable pub find_wallet : List ℕ → Option (List ℕ)
find_wallet [] = match_wallet []
find_wallet (ch ∷ s) = elim (match_wallet (ch ∷ s)) [
  | some found ↦ some found
  | none ↦ find_wallet s
]

-- The part before the first comma or space.
unfoldable pub leading_token : List ℕ → List ℕ
leading_token [] = []
leading_token (ch ∷ s) = if (ch == b',') || (ch == b' ') then [] else ch ∷ leading_token s

unfoldable pub looks_like_payout_attempt : List ℕ → Bool
looks_like_payout_attempt raw = has_kaspa_prefix (to_ascii_lowercase (trim raw))

unfoldable pub is_placeholder_password : List ℕ → Bool
is_placeholder_password raw = not (looks_like_payout_attempt raw)

module _ (is_address : List ℕ → Bool) where
  -- The recursion of the source adds a prefix; on fuel here.
  unfoldable pub clean_wallet_with : ℕ → List ℕ → Option (List ℕ)
  clean_wallet_with zero input = none
  clean_wallet_with (suc fuel) input =
      let again = clean_wallet_with fuel (codes "kaspa:" ++ input) in
      if is_address input
      then some input
      else (if not (has_kaspa_prefix input) then again else find_wallet input)

  abbrev pub clean_wallet : List ℕ → Option (List ℕ)
  clean_wallet = clean_wallet_with 2

  abbrev pub accept_candidate : List ℕ → Option (List ℕ)
  accept_candidate candidate =
      if not (has_kaspa_prefix candidate)
      then none
      else (if is_address candidate then some candidate else none)

  unfoldable pub parse_kas_payout : Option (List ℕ) → Option (List ℕ)
  parse_kas_payout none = none
  parse_kas_payout (some raw) =
      if is_placeholder_password (trim raw)
      then none
      else accept_candidate (trim (leading_token (trim raw)))
