-- ===== src/Vardiff.antt =====
-- bridge-src/bridge/src/share_handler.rs: the difficulty of each worker and the sessions that keep
-- it alive. Floating-point numbers are a type with the operations of `Double`, and no law.
pub mod Difficulty
pub mod Sessions
pub mod Counted
pub mod Restore
pub mod Thousandths
mod Tests
use solo_dual_mode.Prelude.{
  ℕ, zero, suc, ◌+◌, ◌-◌, ◌^◌, Bool, true, false, ◌&&◌, ◌||◌, not, List, [], ◌∷◌, ◌++◌, Option,
  none, some, ltb, leb, if◌then◌else◌, Key,
}
use solo_dual_mode.Text.{text_key}
use solo_dual_mode.Prelude.Dict.{Dict, get, insert}
use solo_dual_mode.Session.{
  StratumContext, claim_vardiff_registration, release_vardiff_registration, stats_key,
}

-- The operations of `f64` that the difficulties are computed with: `literal a b` is the constant
-- a / b, `le` and `lt` are false on a NaN, and `powi2` is two to the power of a rounded exponent.
pub record Double (F : Type 0) : Type 0 where
  pub literal : ℕ → ℕ → F
  pub epsilon : F
  pub plus : F → F → F
  pub minus : F → F → F
  pub times : F → F → F
  pub over : F → F → F
  pub abs : F → F
  pub max : F → F → F
  pub sqrt : F → F
  pub log2 : F → F
  pub ceil : F → F
  pub floor : F → F
  pub powi2 : F → F
  pub lt : F → F → Bool
  pub le : F → F → Bool
  pub eq : F → F → Bool
  pub is_finite : F → Bool

-- The fields of `WorkStats` that the sessions use. Times are in seconds.
pub record SessionStats (F : Type 0) : Type 0 where
  pub var_diff_start_time : Option ℕ
  pub var_diff_shares_found : ℕ
  pub var_diff_window : ℕ
  pub min_diff : F
  pub active_connections : ℕ
  pub last_session_activity : ℕ

abbrev pub Stats : Type 0 → Type 0
Stats F = Dict (List ℕ) (SessionStats F)

abbrev pub inactive_vardiff_ttl : ℕ
inactive_vardiff_ttl = 3600

abbrev pub u32_max : ℕ
u32_max = 2 ^ 32 - 1

abbrev pub saturating_add : ℕ → ℕ → ℕ
saturating_add a b = if ltb u32_max (a + b) then u32_max else a + b

abbrev pub start_if_unset : ℕ → Option ℕ → Option ℕ
start_if_unset now none = some now
start_if_unset now (some start) = some start

module _ {F : Type 0} where
  -- A fresh window of observation.
  abbrev pub restart : ℕ → SessionStats F → SessionStats F
  restart now stats = record stats {
    var_diff_start_time = some now;
    var_diff_shares_found = 0;
    var_diff_window = 0;
  }

  abbrev pub one_more : ℕ → SessionStats F → SessionStats F
  one_more now stats = record (restart now stats) {
    active_connections = saturating_add stats.active_connections 1;
    last_session_activity = now;
  }

  abbrev pub one_less : ℕ → SessionStats F → SessionStats F
  one_less now stats = record stats {
    active_connections = stats.active_connections - 1;
    last_session_activity = now;
  }

  abbrev pub started : ℕ → SessionStats F → SessionStats F
  started now stats = elim stats.var_diff_start_time [
    | none ↦ record stats { var_diff_start_time = some now; var_diff_shares_found = 0 }
    | some start ↦ stats
  ]

module _ {F : Type 0} (ops : Double F) where
  open ops use {literal}

  unfoldable pub new_stats : ℕ → SessionStats F
  new_stats now = record {
    var_diff_start_time = none;
    var_diff_shares_found = 0;
    var_diff_window = 0;
    min_diff = literal 0 1;
    active_connections = 0;
    last_session_activity = now;
  }

  -- A new entry starts with the connection's current difficulty, if that is positive.
  abbrev pub seeded : F → SessionStats F → SessionStats F
  seeded diff stats = if ops.lt (literal 0 1) diff then record stats { min_diff = diff } else stats

  -- `current` is the difficulty of the connection's jobs, or zero.
  unfoldable pub get_create_stats : StratumContext → F → ℕ → Stats F → Stats F × SessionStats F
  get_create_stats ctx current now stats_map = elim (get (stats_key ctx) stats_map) [
    | some stats ↦ (stats_map, stats)
    | none ↦
        let stats = seeded current (new_stats now) in
        (insert (stats_key ctx) stats stats_map, stats)
  ]

  unfoldable pub activate_client_vardiff :
      StratumContext → F → ℕ → Stats F → Stats F × StratumContext
  activate_client_vardiff ctx current now stats_map =
      let (ctx', claimed) = claim_vardiff_registration ctx in
      let (stats_map', stats) = get_create_stats ctx' current now stats_map in
      if claimed
      then (insert (stats_key ctx') (one_more now stats) stats_map', ctx')
      else (stats_map, ctx')

  abbrev pub vardiff_min_diff : F
  vardiff_min_diff = literal 64 1

  -- A difficulty that is no number or too low is replaced by the seed.
  abbrev pub initial_diff : F → F → F
  initial_diff seed current =
      if not (ops.is_finite current) || ops.lt current vardiff_min_diff
      then ops.max seed vardiff_min_diff
      else current

  unfoldable pub register_client_vardiff : StratumContext → F → F → ℕ → Stats F → Stats F × F
  register_client_vardiff ctx seed current now stats_map =
      let (stats_map', stats) = get_create_stats ctx current now stats_map in
      let restored = initial_diff seed stats.min_diff in
      (
        insert (stats_key ctx)
            (record stats {
              min_diff = restored;
              var_diff_start_time = start_if_unset now stats.var_diff_start_time;
              last_session_activity = now;
            })
            stats_map',
        restored,
      )

module _ {F : Type 0} where
  unfoldable pub deactivate_client_vardiff : StratumContext → ℕ → Stats F → Stats F × StratumContext
  deactivate_client_vardiff ctx now stats_map =
      let (ctx', released) = release_vardiff_registration ctx in
      if released
      then elim (get (stats_key ctx') stats_map) [
        | none ↦ (stats_map, ctx')
        | some stats ↦ (insert (stats_key ctx') (one_less now stats) stats_map, ctx')
      ]
      else (stats_map, ctx')

  -- A pruned entry is not created again.
  unfoldable pub set_client_vardiff : StratumContext → F → F → ℕ → Stats F → Stats F × F
  set_client_vardiff ctx min_diff current now stats_map = elim (get (stats_key ctx) stats_map) [
    | none ↦ (stats_map, current)
    | some stats ↦ (
      insert (stats_key ctx) (restart now (record stats { min_diff = min_diff })) stats_map,
      stats.min_diff,
    )
  ]

  unfoldable pub get_client_vardiff : StratumContext → F → Stats F → F
  get_client_vardiff ctx current stats_map = elim (get (stats_key ctx) stats_map) [
    | none ↦ current
    | some stats ↦ stats.min_diff
  ]

  unfoldable pub start_client_vardiff : StratumContext → ℕ → Stats F → Stats F
  start_client_vardiff ctx now stats_map = elim (get (stats_key ctx) stats_map) [
    | none ↦ stats_map
    | some stats ↦ insert (stats_key ctx) (started now stats) stats_map
  ]

  unfoldable pub should_retain_vardiff_stats : SessionStats F → ℕ → Bool
  should_retain_vardiff_stats stats now =
      ltb 0 stats.active_connections || ltb (now - stats.last_session_activity) inactive_vardiff_ttl

  -- One tick of the pruning thread: `retain`.
  unfoldable pub prune_stats : ℕ → Stats F → Stats F
  prune_stats now [] = []
  prune_stats now ((key, stats) ∷ stats_map) = elim (should_retain_vardiff_stats stats now) [
    | true ↦ (key, stats) ∷ prune_stats now stats_map
    | false ↦ prune_stats now stats_map
  ]
