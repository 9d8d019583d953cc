-- ===== src/Domain/Accepted.antt =====
-- The texts that the validators accept.
use solo_dual_mode.Prelude.{
  ℕ, zero, suc, ◌≤◌, ◌≡◌, ◌≢◌, refl, ap, subst, ◌∙◌, ◌↔◌, Bool, true, List, [], ◌∷◌, ◌++◌, none,
  some, arith, ◌==◌, All, get_elem?, Bool-cases, Option-cases, inl, inr,
}
use solo_dual_mode.Domain.{
  byte_len, first_bad, max_len, is_safe_worker_char, worker, new_worker, accepted_prefixes,
  strip_prefix, find_body, min_total_len, max_total_len, address, invalid_prefix, is_body_char,
  check_body, new_address,
}

-- Every character passes a test.
abbrev pub Passes : (ℕ → Bool) → List ℕ → Type 0
Passes ok s = All (λ ch. ok ch ≡ true) s

module _ (ok : ℕ → Bool) where
  first_bad-Passes : (s : List ℕ) → Passes ok s → first_bad ok s ≡ none
  unfolding first_bad
  first_bad-Passes [] h = refl
  first_bad-Passes (ch ∷ s) h = rw (h.0, first_bad) (first_bad-Passes s h.1)

  Passes-first_bad : (s : List ℕ) → first_bad ok s ≡ none → Passes ok s
  unfolding first_bad
  Passes-first_bad [] h = tt
  Passes-first_bad (ch ∷ s) h = elim (Bool-cases (ok ch)) [
    | inl good ↦ (good, Passes-first_bad s (ground (arith, good, h)))
    | inr bad ↦ absurd (ground (arith, bad, h))
  ]

-- A text is accepted as a worker name, as it stands, exactly if it is not empty, has at most 64
-- bytes, and all its characters are safe.
pub worker_accepted :
    (s w : List ℕ)
    → (new_worker s ≡ worker w)
      ↔ ((w ≡ s) × (s ≢ []) × (byte_len s ≤ max_len) × Passes is_safe_worker_char s)
unfolding new_worker
worker_accepted [] w = (λ h. absurd (ground (arith, h)), λ h. absurd (h.1 refl))
worker_accepted (ch ∷ text) w =
    let s = ch ∷ text in
    (
      λ h. elim (Option-cases (first_bad is_safe_worker_char s)) [
        | inl good ↦ (
          ground (arith, good, h),
          ground arith,
          ground (arith, good, h),
          Passes-first_bad is_safe_worker_char s good,
        )
        | inr (bad, found) ↦ absurd (ground (arith, found, h))
      ],
      λ h. ground (arith, h.0, h.2, first_bad-Passes is_safe_worker_char s h.3),
    )

strip_prefix-append : (p s body : List ℕ) → strip_prefix p s ≡ some body → s ≡ p ++ body
unfolding strip_prefix
strip_prefix-append [] s body h = ground (arith, h)
strip_prefix-append (c ∷ p) [] body h = absurd (ground (arith, h))
strip_prefix-append (c ∷ p) (ch ∷ s) body h = elim (Bool-cases (c == ch)) [
  | inl same ↦ ground (arith, same, strip_prefix-append p s body (ground (arith, same, h)))
  | inr differ ↦ absurd (ground (arith, differ, h))
]

find_body-append :
    (ps : List (List ℕ)) (s body : List ℕ)
    → find_body ps s ≡ some body
    → (i : ℕ) × (p : List ℕ) × (get_elem? ps i ≡ some p) × (s ≡ p ++ body)
unfolding find_body
find_body-append [] s body h = absurd (ground (arith, h))
find_body-append (p ∷ ps) s body h = elim (Option-cases (strip_prefix p s)) [
  | inl other ↦
      let (i, q, at, split) = find_body-append ps s body (ground (arith, other, h)) in
      (suc i, q, at, split)
  | inr (rest, found) ↦
      (0, p, refl, strip_prefix-append p s body (found ∙ ground (arith, found, h)))
]

-- No prefix hides another.
prefixes_found :
    All
      (λ p. (body : List ℕ) → find_body accepted_prefixes (p ++ body) ≡ some body)
      accepted_prefixes
unfolding find_body strip_prefix
prefixes_found = (
  λ b. refl,
  (
    λ b. refl,
    (
      λ b. refl,
      (λ b. refl, (λ b. refl, (λ b. refl, (λ b. refl, (λ b. refl, (λ b. refl, (λ b. refl, tt))))))),
    ),
  ),
)

All-get_elem? :
    {A : Type 0} (P : A → Type 0) (xs : List A) (i : ℕ) (x : A)
    → All P xs
    → get_elem? xs i ≡ some x
    → P x
All-get_elem? P [] i x h e = absurd (ground (arith, e))
All-get_elem? P (y ∷ xs) zero x h e = subst P (ground (arith, e)) h.0
All-get_elem? P (y ∷ xs) (suc i) x h e = All-get_elem? P xs i x h.1 e

-- An accepted prefix before a body of small letters and digits, within the bounds.
abbrev pub IsAddress : List ℕ → Type 0
IsAddress s =
    (i : ℕ) × (prefix body : List ℕ) × (get_elem? accepted_prefixes i ≡ some prefix)
    × (s ≡ prefix ++ body)
    × (min_total_len ≤ byte_len s)
    × (byte_len s ≤ max_total_len)
    × Passes is_body_char body

check_body_accepted :
    (s body w : List ℕ)
    → check_body s body ≡ address w
    → (w ≡ s)
      × (min_total_len ≤ byte_len s)
      × (byte_len s ≤ max_total_len)
      × Passes is_body_char body
unfolding check_body
check_body_accepted s body w h = elim (Option-cases (first_bad is_body_char body)) [
  | inl good ↦ (
    ground (arith, good, h),
    ground (arith, good, h),
    ground (arith, good, h),
    Passes-first_bad is_body_char body good,
  )
  | inr (bad, found) ↦ absurd (ground (arith, found, h))
]

-- A text is accepted as an address, as it stands, exactly if it is one of the ten prefixes before a
-- body of small letters and digits, with 13 to 110 bytes in all.
pub address_accepted : (s w : List ℕ) → (new_address s ≡ address w) ↔ ((w ≡ s) × IsAddress s)
unfolding new_address check_body
address_accepted s w = (
  λ h. elim (Option-cases (find_body accepted_prefixes s)) [
    | inl missing ↦ absurd (ground (arith, missing, h))
    | inr (body, found) ↦
        let (i, p, at, split) = find_body-append accepted_prefixes s body found in
        let (same, low, high, body_ok) = check_body_accepted s body w (
          subst (λ o. elim o [ none ↦ invalid_prefix | some b ↦ check_body s b ] ≡ address w) found
            h) in
        (same, (i, p, body, at, split, low, high, body_ok))
  ],
  λ (same, (i, p, body, at, split, low, high, body_ok)).
      let found : find_body accepted_prefixes s ≡ some body =
        ap (find_body accepted_prefixes) split
        ∙ All-get_elem? (λ p. (body : List ℕ) → find_body accepted_prefixes (p ++ body) ≡ some body)
            accepted_prefixes i p prefixes_found at body in
      rw (found, new_address)
        (ground (arith, low, high, same, first_bad-Passes is_body_char body body_ok)),
)
