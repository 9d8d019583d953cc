-- ===== src/Wallet/Scan.antt =====
-- The search for a wallet in a text against what the regular expression says.
use solo_dual_mode.Prelude.{
  ℕ, zero, suc, ◌≤◌, ◌≡◌, ◌⊎◌, inl, inr, refl, ap, sym, ◌∙◌, true, List, [], ◌∷◌, ◌++◌, Option,
  none, some, arith, Bool-cases, Option-cases, length, drop, All,
}
use solo_dual_mode.Text.{codes, starts_with}
use solo_dual_mode.Wallet.{
  is_payload_char, take_class, match_payload, match_wallet, after_head, find_wallet,
}

-- `kaspa(test|dev)?:`.
abbrev pub IsHead : List ℕ → Type 0
IsHead head = (head ≡ codes "kaspatest:") ⊎ ((head ≡ codes "kaspadev:") ⊎ (head ≡ codes "kaspa:"))

-- A head with 61 characters of `[a-z0-9]` behind it, at the start of a text.
abbrev pub IsMatch : List ℕ → List ℕ → Type 0
IsMatch s found =
    (head payload rest : List ℕ) × IsHead head
    × (s ≡ head ++ (payload ++ rest))
    × (found ≡ head ++ payload)
    × (length payload ≡ 61)
    × All (λ ch. is_payload_char ch ≡ true) payload

-- The leftmost match in a text.
unfoldable pub IsScraped : List ℕ → List ℕ → Type 0
IsScraped [] found = IsMatch [] found
IsScraped (ch ∷ s) found =
    IsMatch (ch ∷ s) found ⊎ (((other : List ℕ) → ¬ IsMatch (ch ∷ s) other) × IsScraped s found)

-- What is taken is the start of the text.
taken :
    (n : ℕ) (s payload : List ℕ)
    → take_class n s ≡ some payload
    → (s ≡ payload ++ drop n s)
      × (length payload ≡ n)
      × All (λ ch. is_payload_char ch ≡ true) payload
unfolding take_class
taken zero s payload h = let e : payload ≡ [] = ground (arith, h) in rw (e) (refl, refl, tt)
taken (suc n) [] payload h = absurd (ground (arith, h))
taken (suc n) (ch ∷ s) payload h = elim (Option-cases (take_class n s)) [
  | inl short ↦ absurd (ground (arith, short, h))
  | inr (rest, found) ↦ elim (Bool-cases (is_payload_char ch)) [
    | inr bad ↦ absurd (ground (arith, bad, h))
    | inl good ↦
        let (split, size, all) = taken n s rest found in
        let e : payload ≡ ch ∷ rest = ground (arith, found, good, h) in
        rw (e) (ap (λ l. ch ∷ l) split, ap suc size, (good, all))
  ]
]

-- The start of a text is taken if it is of the class.
takes :
    (payload rest : List ℕ)
    → All (λ ch. is_payload_char ch ≡ true) payload
    → take_class (length payload) (payload ++ rest) ≡ some payload
unfolding take_class
takes [] rest all = refl
takes (ch ∷ payload) rest (good, all) = rw (good, takes payload rest all) refl

-- A text that has 63 characters of the class has 61.
class_shorter :
    (n m : ℕ) (s taken : List ℕ)
    → n ≤ m
    → take_class m s ≡ some taken
    → (shorter : List ℕ) × (take_class n s ≡ some shorter)
unfolding take_class
class_shorter zero m s taken le h = ([], refl)
class_shorter (suc n) zero s taken le h = absurd (omega (arith, le))
class_shorter (suc n) (suc m) [] taken le h = absurd (ground (arith, h))
class_shorter (suc n) (suc m) (ch ∷ s) taken le h = elim (Option-cases (take_class m s)) [
  | inl short ↦ absurd (ground (arith, short, h))
  | inr (rest, found) ↦
      let (shorter, fits) = class_shorter n m s rest (omega (arith, le)) found in
      (ch ∷ shorter, ground (arith, found, fits, h))
]

-- So the payload of a match has 61 characters.
payload_61 : (s : List ℕ) → match_payload s ≡ take_class 61 s
unfolding match_payload
payload_61 s = elim (Option-cases (take_class 61 s)) [
  | inr (payload, found) ↦ rw (found, match_payload) refl
  | inl short ↦ elim (Option-cases (take_class 63 s)) [
    | inl shorter ↦ rw (short, shorter, match_payload) refl
    | inr (payload, found) ↦
        let (cut, fits) = class_shorter 61 63 s payload (omega arith) found in
        absurd (ground (arith, short, fits))
  ]
]

started : (s head : List ℕ) → starts_with s head ≡ true → s ≡ head ++ drop (length head) s
unfolding starts_with
started s [] h = refl
started [] (p ∷ ps) h = absurd (ground (arith, h))
started (ch ∷ s) (p ∷ ps) h = ground (arith, h, started s ps)

after_head-IsMatch :
    (head s found : List ℕ)
    → IsHead head
    → starts_with s head ≡ true
    → after_head head s ≡ some found
    → IsMatch s found
after_head-IsMatch head s found known on h =
    let tail = drop (length head) s in
    elim (Option-cases (match_payload tail)) [
      | inl short ↦ absurd (ground (arith, short, h))
      | inr (payload, fits) ↦
          let (split, size, all) = taken 61 tail payload (sym (payload_61 tail) ∙ fits) in
          (
            head,
            payload,
            drop 61 tail,
            known,
            started s head on ∙ ap (λ l. head ++ l) split,
            ground (arith, fits, h),
            size,
            all,
          )
    ]

match_wallet-IsMatch : (s found : List ℕ) → match_wallet s ≡ some found → IsMatch s found
unfolding match_wallet
match_wallet-IsMatch s found h = elim (Bool-cases (starts_with s (codes "kaspatest:"))) [
  | inl on ↦
      let e : match_wallet s ≡ after_head (codes "kaspatest:") s = rw (on, match_wallet) refl in
      after_head-IsMatch (codes "kaspatest:") s found (inl refl) on (sym e ∙ h)
  | inr off ↦ elim (Bool-cases (starts_with s (codes "kaspadev:"))) [
    | inl on ↦
        let e : match_wallet s ≡ after_head (codes "kaspadev:") s =
          rw (off, on, match_wallet) refl in
        after_head-IsMatch (codes "kaspadev:") s found (inr (inl refl)) on (sym e ∙ h)
    | inr off2 ↦ elim (Bool-cases (starts_with s (codes "kaspa:"))) [
      | inl on ↦
          let e : match_wallet s ≡ after_head (codes "kaspa:") s =
            rw (off, off2, on, match_wallet) refl in
          after_head-IsMatch (codes "kaspa:") s found (inr (inr refl)) on (sym e ∙ h)
      | inr off3 ↦
          let e : match_wallet s ≡ none = rw (off, off2, off3, match_wallet) refl in
          absurd (ground (arith, e, h))
    ]
  ]
]

-- At a head the payload decides.
abbrev behind : List ℕ → List ℕ → Option (List ℕ)
behind head tail = elim (match_payload tail) [ none ↦ none | some payload ↦ some (head ++ payload) ]

match_wallet-head :
    (head tail : List ℕ) → IsHead head → match_wallet (head ++ tail) ≡ behind head tail
unfolding match_wallet starts_with
match_wallet-head head tail (inl e) = rw (e) refl
match_wallet-head head tail (inr (inl e)) = rw (e) refl
match_wallet-head head tail (inr (inr e)) = rw (e) refl

IsMatch-match_wallet : (s found : List ℕ) → IsMatch s found → match_wallet s ≡ some found
IsMatch-match_wallet s found (head, payload, rest, known, split, e, size, all) =
    let tail = payload ++ rest in
    let fits : match_payload tail ≡ some payload =
      payload_61 tail ∙ ap (λ n. take_class n tail) (sym size) ∙ takes payload rest all in
    ap match_wallet split
    ∙ match_wallet-head head tail known
    ∙ ap (λ o. elim o [ none ↦ none | some p ↦ some (head ++ p) ]) fits
    ∙ ap some (sym e)

unmatched : (s : List ℕ) → match_wallet s ≡ none → (other : List ℕ) → ¬ IsMatch s other
unmatched s off other match = absurd (ground (arith, off, IsMatch-match_wallet s other match))

-- What is found is the leftmost match.
pub find_wallet-IsScraped : (s found : List ℕ) → find_wallet s ≡ some found → IsScraped s found
unfolding find_wallet IsScraped
find_wallet-IsScraped [] found h = match_wallet-IsMatch [] found h
find_wallet-IsScraped (ch ∷ s) found h = elim (Option-cases (match_wallet (ch ∷ s))) [
  | inr (here, e) ↦ inl (match_wallet-IsMatch (ch ∷ s) found (e ∙ ground (arith, e, h)))
  | inl later ↦
      inr (unmatched (ch ∷ s) later, find_wallet-IsScraped s found (ground (arith, later, h)))
]

-- When nothing is found there is no match.
pub find_wallet-none : (s : List ℕ) → find_wallet s ≡ none → (found : List ℕ) → ¬ IsScraped s found
unfolding find_wallet IsScraped
find_wallet-none [] h found match = unmatched [] h found match
find_wallet-none (ch ∷ s) h found scraped = elim (Option-cases (match_wallet (ch ∷ s))) [
  | inr (here, e) ↦ absurd (ground (arith, e, h))
  | inl later ↦ elim scraped [
    | inl match ↦ unmatched (ch ∷ s) later found match
    | inr (skipped, rest) ↦ find_wallet-none s (ground (arith, later, h)) found rest
  ]
]
