-- ===== src/Extranonce/Distinct.antt =====
-- Connections that are served one after the other get extranonces of different values.
use solo_dual_mode.Prelude.{
  ℕ, zero, suc, ◌+◌, ◌/◌, ◌%◌, ◌≤◌, ◌<◌, ◌≡◌, ◌≢◌, refl, ap, sym, ◌∙◌, Bool, true, false, List, [],
  ◌∷◌, some, arith, All, length, not, ◌&&◌, ◌⊎◌, inl, inr,
}
use solo_dual_mode.Submit.Text.{to_digit, final_nonce, from_str_radix}
use solo_dual_mode.Submit.Text.Hex.{digit, IsDigit, hex_value}
use solo_dual_mode.Submit.Text.Nonce.{nonces_disjoint}
use solo_dual_mode.Extranonce.{
  hex_char, format_extranonce, next_extranonce, assign_extranonce_for_miner, max_extranonce,
}

hex_char-digit : (d : ℕ) → d < 16 → to_digit 16 (hex_char d) ≡ some d
unfolding to_digit hex_char
hex_char-digit d small = ground (arith, small)

pub digit-hex_char : (d : ℕ) → d < 16 → digit (hex_char d) ≡ d
unfolding digit
digit-hex_char d small = ground (arith, hex_char-digit d small)

hex_char-IsDigit : (d : ℕ) → d < 16 → IsDigit (hex_char d)
hex_char-IsDigit d small = hex_char-digit d small ∙ ap some (sym (digit-hex_char d small))

format_extranonce-IsDigit : (v : ℕ) → All IsDigit (format_extranonce v)
unfolding format_extranonce
format_extranonce-IsDigit v = (
  hex_char-IsDigit (v / 4096 % 16) (omega arith),
  (
    hex_char-IsDigit (v / 256 % 16) (omega arith),
    (hex_char-IsDigit (v / 16 % 16) (omega arith), (hex_char-IsDigit (v % 16) (omega arith), tt)),
  ),
)

hex_value-format_extranonce : (v : ℕ) → v ≤ max_extranonce → hex_value 0 (format_extranonce v) ≡ v
unfolding hex_value format_extranonce
hex_value-format_extranonce v small = omega (
  arith,
  digit-hex_char (v / 4096 % 16) (omega arith),
  digit-hex_char (v / 256 % 16) (omega arith),
  digit-hex_char (v / 16 % 16) (omega arith),
  digit-hex_char (v % 16) (omega arith),
  small,
)

-- The counter after some connections.
unfoldable pub after : ℕ → ℕ → ℕ
after zero val = val
after (suc k) val = after k (next_extranonce val).0

next_value : (val : ℕ) → val ≤ max_extranonce → (next_extranonce val).0 ≡ (val + 1) % 65536
unfolding next_extranonce
next_value val small = ground (arith, small)

next_small : (val : ℕ) → val ≤ max_extranonce → (next_extranonce val).0 ≤ max_extranonce
next_small val small = omega (arith, next_value val small)

after_cycle : (k val : ℕ) → val ≤ max_extranonce → after k val ≡ (val + k) % 65536
unfolding after
after_cycle zero val small = omega (arith, small)
after_cycle (suc k) val small =
    after_cycle k (next_extranonce val).0 (next_small val small)
    ∙ omega (arith, next_value val small)

-- The counter stays in its range.
after_small : (k val : ℕ) → val ≤ max_extranonce → after k val ≤ max_extranonce
after_small k val small = omega (arith, after_cycle k val small)

after_differ :
    (k val : ℕ) → val ≤ max_extranonce → k < 65535 → after k (next_extranonce val).0 ≢ val
after_differ k val small close same = absurd (
    omega (
      arith,
      after_cycle k (next_extranonce val).0 (next_small val small),
      next_value val small,
      same,
      close,
    ))

-- A rig that is given an extranonce.
unfoldable pub is_given : Bool → Bool → Bool
is_given is_bitmain enabled = not (is_bitmain && not enabled)

assign_given :
    (is_bitmain enabled : Bool) (val : ℕ)
    → is_given is_bitmain enabled ≡ true
    → assign_extranonce_for_miner is_bitmain enabled val
      ≡ ((next_extranonce val).0, format_extranonce val)
unfolding is_given assign_extranonce_for_miner next_extranonce
assign_given true true val given = refl
assign_given true false val given = ground (arith, given)
assign_given false enabled val given = refl

-- The counter after some rigs, of which each is a Bitmain one or not.
unfoldable pub served : Bool → List Bool → ℕ → ℕ
served enabled [] val = val
served enabled (is_bitmain ∷ rigs) val =
    served enabled rigs (assign_extranonce_for_miner is_bitmain enabled val).0

counter_step :
    (is_bitmain enabled : Bool) (val : ℕ)
    → ((assign_extranonce_for_miner is_bitmain enabled val).0 ≡ val)
      ⊎ ((assign_extranonce_for_miner is_bitmain enabled val).0 ≡ (next_extranonce val).0)
unfolding assign_extranonce_for_miner next_extranonce
counter_step true true val = inr refl
counter_step true false val = inl refl
counter_step false enabled val = inr refl

-- Every rig moves the counter by at most one step.
steps_within :
    (enabled : Bool) (rigs : List Bool) (val : ℕ)
    → (k : ℕ) × (k ≤ length rigs) × (served enabled rigs val ≡ after k val)
unfolding served after
steps_within enabled [] val = (0, omega arith, refl)
steps_within enabled (is_bitmain ∷ rigs) val =
    let (k, within, at) =
      steps_within enabled rigs (assign_extranonce_for_miner is_bitmain enabled val).0 in
    elim (counter_step is_bitmain enabled val) [
      | inl stays ↦ (k, omega (arith, within), at ∙ ap (after k) stays)
      | inr moves ↦ (suc k, omega (arith, within), at ∙ ap (after k) moves)
    ]

served_differ :
    (enabled : Bool) (rigs : List Bool) (val : ℕ)
    → val ≤ max_extranonce
    → length rigs < 65535
    → (served enabled rigs (next_extranonce val).0 ≤ max_extranonce)
      × (val ≢ served enabled rigs (next_extranonce val).0)
served_differ enabled rigs val small close =
    let (k, within, at) = steps_within enabled rigs (next_extranonce val).0 in
    (
      omega (arith, at, after_small k (next_extranonce val).0 (next_small val small)),
      λ same. after_differ k val small (omega (arith, within, close)) (sym (same ∙ at)),
    )

-- Two rigs that are given an extranonce each, with fewer than 65535 rigs between them, never work on
-- the same nonce: any hexadecimal nonces of up to twelve digits that they submit are completed to
-- 16 digits and read as different numbers. The switch for Bitmain rigs is the same for all.
pub never_overlap :
    (enabled first second : Bool) (rigs : List Bool) (val : ℕ) (nonce nonce' : List ℕ)
    → val ≤ max_extranonce
    → length rigs < 65535
    → is_given first enabled ≡ true
    → is_given second enabled ≡ true
    → All IsDigit nonce
    → All IsDigit nonce'
    → length nonce ≤ 12
    → length nonce' ≤ 12
    → (text text' : List ℕ) × (value value' : ℕ) × (final_nonce
          (assign_extranonce_for_miner first enabled val).1
          nonce
        ≡ some text)
      × (final_nonce
            (assign_extranonce_for_miner second enabled
              (served enabled rigs (assign_extranonce_for_miner first enabled val).0)).1
            nonce'
          ≡ some text')
      × (from_str_radix text 16 ≡ some value)
      × (from_str_radix text' 16 ≡ some value')
      × (value ≢ value')
unfolding format_extranonce
never_overlap enabled first second rigs val nonce nonce' small close given given' low low' room
      room' =
    let later = served enabled rigs (next_extranonce val).0 in
    let (small', differ) = served_differ enabled rigs val small close in
    rw (assign_given first enabled val given, assign_given second enabled later given')
      (nonces_disjoint _ _ _ _ nonce nonce' (format_extranonce-IsDigit val)
        (format_extranonce-IsDigit later) low low' refl (omega (arith, room)) (omega (arith, room'))
        (λ same. differ (
          sym (hex_value-format_extranonce val small)
          ∙ same
          ∙ hex_value-format_extranonce later small')))
