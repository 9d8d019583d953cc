-- ===== src/Vardiff/Difficulty.antt =====
-- `vardiff_compute_next_diff` and the tick of the vardiff thread.
pub mod Floor
use solo_dual_mode.Prelude.{
  ℕ, Bool, true, false, ◌&&◌, ◌||◌, not, List, [], ◌∷◌, Option, none, some, ltb, ◌-◌, ◌==◌,
  if◌then◌else◌,
}
use solo_dual_mode.Vardiff.{Double, SessionStats, Stats, restart, vardiff_min_diff}

module _ {F : Type 0} where
  abbrev pub apply_diff : ℕ → SessionStats F → Option F → SessionStats F
  apply_diff now stats none = stats
  apply_diff now stats (some next) = restart now (record stats { min_diff = next })

module _ {F : Type 0} (ops : Double F) where
  open ops use {literal, epsilon, lt, le}

  -- To the next power of two in the direction of the change, and at least one.
  unfoldable pub vardiff_pow2_clamp_towards : F → F → F
  vardiff_pow2_clamp_towards current next =
      let exp = if le current next then ops.ceil (ops.log2 next) else ops.floor (ops.log2 next) in
      let clamped = ops.powi2 exp in
      if not (ops.is_finite next) || le next (literal 0 1)
      then literal 1 1
      else (if lt clamped (literal 1 1) then literal 1 1 else clamped)

  abbrev pub floored : F → F
  floored next = if lt next (vardiff_min_diff ops) then vardiff_min_diff ops else next

  abbrev pub clamp_pow2 : Bool → F → F → F
  clamp_pow2 clamp current next = if clamp then vardiff_pow2_clamp_towards current next else next

  -- Only a change is an answer.
  abbrev pub changed : F → F → Option F
  changed current next = if lt epsilon (ops.abs (ops.minus next current)) then some next else none

  -- `f64::clamp`.
  abbrev pub clamp_between : F → F → F → F
  clamp_between low high x = if lt x low then low else (if lt high x then high else x)

  -- No share for a while: half the difficulty.
  unfoldable pub halve : F → Bool → Option F
  halve current clamp =
      changed current (clamp_pow2 clamp current (floored (ops.times current (literal 1 2))))

  -- The step of a measured rate.
  unfoldable pub adjust : F → F → Bool → Option F
  adjust current ratio clamp =
      let step = clamp_between (literal 1 2) (literal 128 1) (ops.sqrt ratio) in
      let next = clamp_pow2 clamp current (floored (ops.times current step)) in
      let rel_change =
        ops.over (ops.abs (ops.minus next current)) (ops.max current (literal 1 1)) in
      if lt rel_change (literal 1 10) then none else changed current next

  -- Enough shares, or enough time.
  unfoldable pub measure : F → F → F → F → Bool → Option F
  measure current shares elapsed expected clamp =
      let observed = ops.times (ops.over shares elapsed) (literal 60 1) in
      let ratio = ops.over observed (ops.max expected (literal 1 1)) in
      let too_early =
        lt elapsed (literal 30 1) || (lt shares (literal 3 1) && lt elapsed (literal 90 1)) in
      if too_early
      then none
      else (if not (ops.is_finite ratio) || le ratio (literal 0 1)
          then none
          else (if lt (literal 3 4) ratio && lt ratio (literal 5 4)
              then none
              else adjust current ratio clamp))

  unfoldable pub vardiff_compute_next_diff : F → F → F → F → Bool → Option F
  vardiff_compute_next_diff current shares elapsed expected clamp =
      if not (ops.is_finite current) || le current (literal 0 1)
      then none
      else (if not (ops.is_finite elapsed) || le elapsed (literal 0 1)
          then none
          else (if ops.eq shares (literal 0 1) && le (literal 15 1) elapsed
              then halve current clamp
              else measure current shares elapsed expected clamp))

  -- One entry at a tick: only live sessions give evidence.
  unfoldable pub tick_entry : ℕ → F → Bool → SessionStats F → SessionStats F
  tick_entry now expected clamp stats =
      if stats.active_connections == 0 then stats else elim stats.var_diff_start_time [
        | none ↦ stats
        | some start ↦ apply_diff now stats (
            vardiff_compute_next_diff stats.min_diff (literal stats.var_diff_shares_found 1)
              (ops.max (literal (now - start) 1) (literal 0 1)) expected clamp)
      ]

  unfoldable pub vardiff_tick : ℕ → F → Bool → Stats F → Stats F
  vardiff_tick now expected clamp [] = []
  vardiff_tick now expected clamp ((key, stats) ∷ stats_map) =
      (key, tick_entry now expected clamp stats) ∷ vardiff_tick now expected clamp stats_map
