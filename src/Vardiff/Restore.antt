-- ===== src/Vardiff/Restore.antt =====
-- A worker that reconnects in time has its difficulty again.
use solo_dual_mode.Prelude.{
  ℕ, ◌-◌, ◌<◌, ◌≡◌, refl, ap, ◌∙◌, Bool, true, false, List, [], ◌∷◌, some, arith, All,
}
use solo_dual_mode.Prelude.Dict.{get, insert, IsDict, get-insert_self, insert-IsDict}
use solo_dual_mode.Text.{text_key}
use solo_dual_mode.Session.{
  StratumContext, stats_key, vardiff_worker_identity, release_vardiff_registration,
}
use solo_dual_mode.Vardiff.{
  Double, SessionStats, Stats, one_less, initial_diff, inactive_vardiff_ttl, vardiff_min_diff,
  get_create_stats, register_client_vardiff, deactivate_client_vardiff, should_retain_vardiff_stats,
  prune_stats,
}
use solo_dual_mode.Vardiff.Difficulty.{vardiff_tick, tick_entry}
use solo_dual_mode.Vardiff.Counted.Background.{
  kept_at, get-prune_stats, prune-IsDict, ticked, get-vardiff_tick, tick-IsDict,
}

-- The threads that run while a worker is away.
pub data Tick (F : Type 0) : Type 0 where
  prune_at : ℕ → Tick F
  vardiff_at : ℕ → F → Bool → Tick F

-- A tick of the pruning thread comes before the time to live has passed since `last`.
abbrev pub IsInTime : {F : Type 0} → ℕ → Tick F → Type 0
IsInTime last (prune_at now) = now - last < inactive_vardiff_ttl
IsInTime last (vardiff_at now expected clamp) = Unit

module _ {F : Type 0} (ops : Double F) where
  unfoldable pub background : List (Tick F) → Stats F → Stats F
  background [] stats = stats
  background (prune_at now ∷ ticks) stats = background ticks (prune_stats now stats)
  background (vardiff_at now expected clamp ∷ ticks) stats =
      background ticks (vardiff_tick ops now expected clamp stats)

  module _ (key : List ℕ) (s : SessionStats F) (away : s.active_connections ≡ 0) where
    kept_away :
        (now : ℕ)
        → now - s.last_session_activity < inactive_vardiff_ttl
        → kept_at now (some s) ≡ some s
    unfolding should_retain_vardiff_stats
    kept_away now soon = ground (arith, away, soon)

    ticked_away :
        (now : ℕ) (expected : F) (clamp : Bool) → ticked ops now expected clamp (some s) ≡ some s
    unfolding tick_entry
    ticked_away now expected clamp = ground (arith, away)

    background_away :
        (ticks : List (Tick F)) (stats : Stats F)
        → All (IsInTime s.last_session_activity) ticks
        → IsDict stats
        → get key stats ≡ some s
        → get key (background ticks stats) ≡ some s
    unfolding background
    background_away [] stats soon dict known = known
    background_away (prune_at now ∷ ticks) stats soon dict known =
        background_away ticks (prune_stats now stats) soon.1 (prune-IsDict now stats dict)
          (get-prune_stats now key stats dict ∙ ap (kept_at now) known ∙ kept_away now soon.0)
    background_away (vardiff_at now expected clamp ∷ ticks) stats soon dict known =
        background_away ticks (vardiff_tick ops now expected clamp stats) soon.1
          (tick-IsDict ops now expected clamp stats dict)
          (get-vardiff_tick ops now expected clamp key stats
            ∙ ap (ticked ops now expected clamp) known
            ∙ ticked_away now expected clamp)

  register_known :
      (ctx : StratumContext) (seed current : F) (now : ℕ) (stats : Stats F) (s : SessionStats F)
      → get (stats_key ctx) stats ≡ some s
      → (register_client_vardiff ops ctx seed current now stats).1
        ≡ initial_diff ops seed s.min_diff
  unfolding register_client_vardiff get_create_stats
  register_known ctx seed current now stats s known =
      rw (known, register_client_vardiff, get_create_stats) refl

  deactivate_known :
      (ctx : StratumContext) (now : ℕ) (stats : Stats F) (s : SessionStats F)
      → ctx.vardiff_registered ≡ true
      → get (stats_key ctx) stats ≡ some s
      → (deactivate_client_vardiff ctx now stats).0 ≡ insert (stats_key ctx) (one_less now s) stats
  unfolding deactivate_client_vardiff release_vardiff_registration stats_key vardiff_worker_identity
  deactivate_known ctx now stats s on known = rw (on, known, deactivate_client_vardiff) refl

  -- When the last connection of a worker is closed and the worker connects again under the same
  -- wallet and name, it starts with the difficulty that it had, if that was a number of at least 64,
  -- whatever the ticks of the two threads in between, as long as no tick of the pruning thread
  -- comes an hour or more after the end.
  pub reconnect_restores :
      (ctx ctx' : StratumContext) (stats : Stats F) (s : SessionStats F) (closed_at now : ℕ)
      (ticks : List (Tick F)) (seed current : F)
      → IsDict stats
      → ctx.vardiff_registered ≡ true
      → get (stats_key ctx) stats ≡ some s
      → s.active_connections ≡ 1
      → stats_key ctx' ≡ stats_key ctx
      → All (IsInTime closed_at) ticks
      → ops.is_finite s.min_diff ≡ true
      → ops.lt s.min_diff (vardiff_min_diff ops) ≡ false
      → (register_client_vardiff ops ctx' seed current now
          (background ticks (deactivate_client_vardiff ctx closed_at stats).0)).1
        ≡ s.min_diff
  reconnect_restores ctx ctx' stats s closed_at now ticks seed current dict on known alone same soon
        finite high =
      let left = one_less closed_at s in
      let closed = insert (stats_key ctx) left stats in
      let kept : get (stats_key ctx) (background ticks closed) ≡ some left =
        background_away (stats_key ctx) left (ap (λ n. n - 1) alone) ticks closed soon
          (insert-IsDict (stats_key ctx) left stats dict)
          (get-insert_self (stats_key ctx) left stats) in
      ap (λ d. (register_client_vardiff ops ctx' seed current now (background ticks d)).1)
        (deactivate_known ctx closed_at stats s on known)
      ∙ register_known ctx' seed current now (background ticks closed) left
          (ap (λ k. get k (background ticks closed)) same ∙ kept)
      ∙ ground (arith, finite, high)
