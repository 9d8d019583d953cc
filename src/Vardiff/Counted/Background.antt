-- ===== src/Vardiff/Counted/Background.antt =====
-- The threads that prune the entries and adjust the difficulties keep the counts.
use solo_dual_mode.Prelude.{
  ℕ, ◌≡◌, refl, ap, sym, subst, ◌∙◌, Bool, List, [], ◌∷◌, Option, none, some, arith, if◌then◌else◌,
  Bool-cases, inl, inr, nat_key,
}
use solo_dual_mode.Prelude.Dict.{get, IsDict}
use solo_dual_mode.Text.{text_key}
use solo_dual_mode.Vardiff.{Double, SessionStats, Stats, should_retain_vardiff_stats, prune_stats}
use solo_dual_mode.Vardiff.Difficulty.{vardiff_tick, tick_entry, apply_diff}
use solo_dual_mode.Vardiff.Counted.{Tells, AllTell}

module _ {F : Type 0} where
  -- An entry that is kept or dropped.
  abbrev pub kept_at : ℕ → Option (SessionStats F) → Option (SessionStats F)
  kept_at now none = none
  kept_at now (some s) = if should_retain_vardiff_stats s now then some s else none

  pub get-prune_stats :
      (now : ℕ) (k : List ℕ) (stats : Stats F)
      → IsDict stats
      → get k (prune_stats now stats) ≡ kept_at now (get k stats)
  unfolding prune_stats get
  get-prune_stats now k [] dict = refl
  get-prune_stats now k ((key, s) ∷ stats) dict =
      ground (arith, get-prune_stats now k stats dict.1, dict.0)

  pub prune-IsDict : (now : ℕ) (stats : Stats F) → IsDict stats → IsDict (prune_stats now stats)
  unfolding prune_stats
  prune-IsDict now [] dict = tt
  prune-IsDict now ((key, s) ∷ stats) dict = elim (Bool-cases (should_retain_vardiff_stats s now)) [
    | inl keep ↦
        rw (keep, prune_stats)
          (
            get-prune_stats now key stats dict.1 ∙ ap (kept_at now) dict.0,
            prune-IsDict now stats dict.1,
          )
    | inr drop ↦ rw (drop, prune_stats) (prune-IsDict now stats dict.1)
  ]

  kept-Tells : (now : ℕ) (o : Option (SessionStats F)) (n : ℕ) → Tells o n → Tells (kept_at now o) n
  unfolding should_retain_vardiff_stats
  kept-Tells now none n tell = tell
  kept-Tells now (some s) n tell = elim (Bool-cases (should_retain_vardiff_stats s now)) [
    | inl keep ↦ rw keep tell
    | inr drop ↦ rw drop (ground (arith, drop, tell))
  ]

  pub prune-AllTell :
      (now : ℕ) (stats : Stats F) (n : List ℕ → ℕ)
      → AllTell stats n
      → AllTell (prune_stats now stats) n
  prune-AllTell now stats n (dict, tells) = (
    prune-IsDict now stats dict,
    λ k.
        subst (λ o. Tells o (n k)) (sym (get-prune_stats now k stats dict))
          (kept-Tells now (get k stats) (n k) (tells k)),
  )

module _ {F : Type 0} (ops : Double F) (now : ℕ) (expected : F) (clamp : Bool) where
  abbrev pub ticked : Option (SessionStats F) → Option (SessionStats F)
  ticked none = none
  ticked (some s) = some (tick_entry ops now expected clamp s)

  pub get-vardiff_tick :
      (k : List ℕ) (stats : Stats F)
      → get k (vardiff_tick ops now expected clamp stats) ≡ ticked (get k stats)
  unfolding vardiff_tick get
  get-vardiff_tick k [] = refl
  get-vardiff_tick k ((key, s) ∷ stats) = ground (arith, get-vardiff_tick k stats)

  pub tick-IsDict :
      (stats : Stats F) → IsDict stats → IsDict (vardiff_tick ops now expected clamp stats)
  unfolding vardiff_tick
  tick-IsDict [] dict = tt
  tick-IsDict ((key, s) ∷ stats) dict =
      (get-vardiff_tick key stats ∙ ap ticked dict.0, tick-IsDict stats dict.1)

  apply_count :
      (s : SessionStats F) (o : Option F)
      → (apply_diff now s o).active_connections ≡ s.active_connections
  apply_count s none = refl
  apply_count s (some next) = refl

  pub tick_count :
      (s : SessionStats F)
      → (tick_entry ops now expected clamp s).active_connections ≡ s.active_connections
  unfolding tick_entry
  tick_count s = grind (arith, apply_count)

  ticked-Tells : (o : Option (SessionStats F)) (n : ℕ) → Tells o n → Tells (ticked o) n
  ticked-Tells none n tell = tell
  ticked-Tells (some s) n tell = tick_count s ∙ tell

  pub tick-AllTell :
      (stats : Stats F) (n : List ℕ → ℕ)
      → AllTell stats n
      → AllTell (vardiff_tick ops now expected clamp stats) n
  tick-AllTell stats n (dict, tells) = (
    tick-IsDict stats dict,
    λ k.
        subst (λ o. Tells o (n k)) (sym (get-vardiff_tick k stats))
          (ticked-Tells (get k stats) (n k) (tells k)),
  )
