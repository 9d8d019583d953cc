-- ===== src/Vardiff/Difficulty/Floor.antt =====
-- The difficulties that are computed: where they come from, and that they stay above the least one.
use solo_dual_mode.Prelude.{
  ◌≡◌, refl, sym, subst, Bool, true, false, ◌&&◌, ◌||◌, not, Option, none, some, arith,
  if◌then◌else◌, ◌⊎◌, inl, inr, Bool-cases,
}
use solo_dual_mode.Vardiff.{Double, vardiff_min_diff}
use solo_dual_mode.Vardiff.Difficulty.{
  vardiff_pow2_clamp_towards, floored, clamp_pow2, clamp_between, changed, halve, adjust, measure,
  vardiff_compute_next_diff,
}

-- The current difficulty times a factor from a half to 128, or 64 where that is less.
abbrev pub IsTarget : {F : Type 0} → Double F → F → F → Type 0
IsTarget {F} ops current target =
    (factor : F) × (ops.lt factor (ops.literal 1 2) ≡ false)
    × (ops.lt (ops.literal 128 1) factor ≡ false)
    × ((target ≡ ops.times current factor)
        ⊎ ((ops.lt (ops.times current factor) (ops.literal 64 1) ≡ true)
            × (target ≡ ops.literal 64 1)))

-- A power of two beside the target, away from the current difficulty, or the target itself.
abbrev pub IsRounding : {F : Type 0} → Double F → Bool → F → F → F → Type 0
IsRounding ops true current target next =
    ((ops.le current target ≡ true) × (next ≡ ops.powi2 (ops.ceil (ops.log2 target))))
    ⊎ ((ops.le current target ≡ false) × (next ≡ ops.powi2 (ops.floor (ops.log2 target))))
IsRounding ops false current target next = next ≡ target

-- What every computed difficulty satisfies.
abbrev pub IsStep : {F : Type 0} → Double F → Bool → F → Option F → Type 0
IsStep ops clamp current none = Unit
IsStep {F} ops clamp current (some next) =
    (ops.lt next (ops.literal 64 1) ≡ false)
    × (ops.lt ops.epsilon (ops.abs (ops.minus next current)) ≡ true)
    × ((target : F) × IsTarget ops current target × IsRounding ops clamp current target next)

module _ {F : Type 0} (ops : Double F) where
  IsStep-if :
      (b clamp : Bool) (current : F) (o o' : Option F)
      → IsStep ops clamp current o
      → (b ≡ false → IsStep ops clamp current o')
      → IsStep ops clamp current (if b then o else o')
  IsStep-if true clamp current o o' h h' = h
  IsStep-if false clamp current o o' h h' = h' refl

  IsStep-some :
      (b clamp : Bool) (current next : F)
      → ops.lt next (ops.literal 64 1) ≡ false
      → ((target : F) × IsTarget ops current target × IsRounding ops clamp current target next)
      → ops.lt ops.epsilon (ops.abs (ops.minus next current)) ≡ b
      → IsStep ops clamp current (if b then some next else none)
  IsStep-some true clamp current next high from same = (high, same, from)
  IsStep-some false clamp current next high from same = tt

  floored-IsTarget :
      (current factor : F)
      → ops.lt factor (ops.literal 1 2) ≡ false
      → ops.lt (ops.literal 128 1) factor ≡ false
      → IsTarget ops current (floored ops (ops.times current factor))
  floored-IsTarget current factor low high =
      elim (Bool-cases (ops.lt (ops.times current factor) (vardiff_min_diff ops))) [
        | inl below ↦ (factor, low, high, inr (below, rw (below) refl))
        | inr above ↦ (factor, low, high, inl (rw (above) refl))
      ]

module _ {F : Type 0} (ops : Double F)
    (half_not_below : ops.lt (ops.literal 1 2) (ops.literal 1 2) ≡ false)
    (half_in_range : ops.lt (ops.literal 128 1) (ops.literal 1 2) ≡ false)
    (top_not_below : ops.lt (ops.literal 128 1) (ops.literal 128 1) ≡ false)
    (min_not_below : ops.lt (ops.literal 64 1) (ops.literal 64 1) ≡ false)
    (min_finite : ops.is_finite (ops.literal 64 1) ≡ true)
    (min_positive : (x : F)
      → ops.lt x (ops.literal 64 1) ≡ false
      → ops.le x (ops.literal 0 1) ≡ false)
    (min_over_one : (x : F)
      → ops.lt x (ops.literal 64 1) ≡ false
      → ops.lt x (ops.literal 1 1) ≡ false)
    (power_above : (x : F)
      → ops.is_finite x ≡ true
      → ops.lt x (ops.literal 64 1) ≡ false
      → ops.lt (ops.powi2 (ops.ceil (ops.log2 x))) (ops.literal 64 1) ≡ false)
    (power_below : (x : F)
      → ops.is_finite x ≡ true
      → ops.lt x (ops.literal 64 1) ≡ false
      → ops.lt (ops.powi2 (ops.floor (ops.log2 x))) (ops.literal 64 1) ≡ false) where
  floored_floor : (next : F) → ops.lt (floored ops next) (ops.literal 64 1) ≡ false
  floored_floor next = ground (arith, min_not_below)

  floored_finite : (next : F) → ops.is_finite next ≡ true → ops.is_finite (floored ops next) ≡ true
  floored_finite next finite = ground (arith, min_finite, finite)

  clamp-between :
      (x : F)
      → (ops.lt (clamp_between ops (ops.literal 1 2) (ops.literal 128 1) x) (ops.literal 1 2)
          ≡ false)
        × (ops.lt (ops.literal 128 1) (clamp_between ops (ops.literal 1 2) (ops.literal 128 1) x)
            ≡ false)
  clamp-between x = elim (Bool-cases (ops.lt x (ops.literal 1 2))) [
    | inl low ↦ rw (low) (half_not_below, half_in_range)
    | inr not_low ↦ elim (Bool-cases (ops.lt (ops.literal 128 1) x)) [
      | inl high ↦ rw (not_low, high) (half_in_range, top_not_below)
      | inr not_high ↦ rw (not_low, not_high) (not_low, not_high)
    ]
  ]

  -- The power of two beside a target that is finite and not below 64.
  rounded :
      (current target : F)
      → ops.is_finite target ≡ true
      → ops.lt target (ops.literal 64 1) ≡ false
      → let next = vardiff_pow2_clamp_towards ops current target in
        (ops.lt next (ops.literal 64 1) ≡ false) × IsRounding ops true current target next
  unfolding vardiff_pow2_clamp_towards
  rounded current target finite high = elim (Bool-cases (ops.le current target)) [
    | inl up ↦
        let above = power_above target finite high in
        let e : vardiff_pow2_clamp_towards ops current target
            ≡ ops.powi2 (ops.ceil (ops.log2 target)) =
          rw
            (up, finite, min_positive target high, min_over_one _ above, vardiff_pow2_clamp_towards)
            refl in
        (subst (λ x. ops.lt x (ops.literal 64 1) ≡ false) (sym e) above, inl (up, e))
    | inr down ↦
        let below = power_below target finite high in
        let e : vardiff_pow2_clamp_towards ops current target
            ≡ ops.powi2 (ops.floor (ops.log2 target)) =
          rw
            (
              down,
              finite,
              min_positive target high,
              min_over_one _ below,
              vardiff_pow2_clamp_towards,
            )
            refl in
        (subst (λ x. ops.lt x (ops.literal 64 1) ≡ false) (sym e) below, inr (down, e))
  ]

  clamped :
      (clamp : Bool) (current target : F)
      → ops.is_finite target ≡ true
      → ops.lt target (ops.literal 64 1) ≡ false
      → let next = clamp_pow2 ops clamp current target in
        (ops.lt next (ops.literal 64 1) ≡ false) × IsRounding ops clamp current target next
  clamped true current target finite high = rounded current target finite high
  clamped false current target finite high = (high, refl)

  changed-IsStep :
      (clamp : Bool) (current factor : F)
      → ops.lt factor (ops.literal 1 2) ≡ false
      → ops.lt (ops.literal 128 1) factor ≡ false
      → ops.is_finite (ops.times current factor) ≡ true
      → IsStep ops clamp current (
          changed ops current
            (clamp_pow2 ops clamp current (floored ops (ops.times current factor))))
  changed-IsStep clamp current factor low high finite =
      let target = floored ops (ops.times current factor) in
      let (least, rounding) =
        clamped clamp current target (floored_finite _ finite) (floored_floor _) in
      IsStep-some ops _ clamp current _ least
        (target, floored-IsTarget ops current factor low high, rounding) refl

  adjust-IsStep :
      (clamp : Bool) (current ratio : F)
      → ops.is_finite (
          ops.times current
            (clamp_between ops (ops.literal 1 2) (ops.literal 128 1) (ops.sqrt ratio)))
        ≡ true
      → IsStep ops clamp current (adjust ops current ratio clamp)
  unfolding adjust
  adjust-IsStep clamp current ratio finite =
      let (low, high) = clamp-between (ops.sqrt ratio) in
      IsStep-if ops _ clamp current none _ tt
        (λ moved. changed-IsStep clamp current _ low high finite)

  module _ (current : F) (half_finite : ops.is_finite (ops.times current (ops.literal 1 2)) ≡ true)
      (step_finite : (ratio : F)
        → ops.is_finite ratio ≡ true
        → ops.le ratio (ops.literal 0 1) ≡ false
        → ops.is_finite (
            ops.times current
              (clamp_between ops (ops.literal 1 2) (ops.literal 128 1) (ops.sqrt ratio)))
          ≡ true) where
    measure-IsStep :
        (clamp : Bool) (shares elapsed expected : F)
        → IsStep ops clamp current (measure ops current shares elapsed expected clamp)
    unfolding measure
    measure-IsStep clamp shares elapsed expected =
        let observed = ops.times (ops.over shares elapsed) (ops.literal 60 1) in
        let ratio = ops.over observed (ops.max expected (ops.literal 1 1)) in
        let usable : (not (ops.is_finite ratio) || ops.le ratio (ops.literal 0 1)) ≡ false
            → (ops.is_finite ratio ≡ true) × (ops.le ratio (ops.literal 0 1) ≡ false) =
          λ h. (ground (arith, h), ground (arith, h)) in
        let too_early =
          ops.lt elapsed (ops.literal 30 1)
          || (ops.lt shares (ops.literal 3 1) && ops.lt elapsed (ops.literal 90 1)) in
        let unusable = not (ops.is_finite ratio) || ops.le ratio (ops.literal 0 1) in
        let steady = ops.lt (ops.literal 3 4) ratio && ops.lt ratio (ops.literal 5 4) in
        IsStep-if ops too_early clamp current none _ tt (λ late.
          IsStep-if ops unusable clamp current none _ tt (λ good.
            IsStep-if ops steady clamp current none _ tt (λ unsteady.
              adjust-IsStep clamp current ratio
                (step_finite ratio (usable good).0 (usable good).1))))

    -- A difficulty that is computed is not below 64, also when it is rounded to a power of two, and
    -- differs from the current one by more than the machine epsilon. It is the current one times a
    -- factor from a half to 128, or 64 if that is less; where powers of two are asked for, rounded
    -- up to one if that target is not below the current difficulty, and down if it is. Of the
    -- numbers it is used that 1/2, 64 and 128 stand in this order, that what is not below 64 is
    -- positive and not below 1, and has no power of two beside it that is below 64; and the current
    -- difficulty is small enough that half of it and its product with such a factor are finite.
    pub next_diff_floor :
        (shares elapsed expected : F) (clamp : Bool)
        → IsStep ops clamp current
            (vardiff_compute_next_diff ops current shares elapsed expected clamp)
    unfolding vardiff_compute_next_diff halve
    next_diff_floor shares elapsed expected clamp =
        let idle = ops.eq shares (ops.literal 0 1) && ops.le (ops.literal 15 1) elapsed in
        let no_current = not (ops.is_finite current) || ops.le current (ops.literal 0 1) in
        let no_time = not (ops.is_finite elapsed) || ops.le elapsed (ops.literal 0 1) in
        IsStep-if ops no_current clamp current none _ tt (λ held.
          IsStep-if ops no_time clamp current none _ tt (λ timed.
            IsStep-if ops idle clamp current (halve ops current clamp) _
              (changed-IsStep clamp current _ half_not_below half_in_range half_finite)
              (λ busy. measure-IsStep clamp shares elapsed expected)))
