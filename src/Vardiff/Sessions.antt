-- ===== src/Vardiff/Sessions.antt =====
-- The connections of a bridge and the statistics of their workers: what the handlers of
-- client_handler.rs and default_client.rs do to both.
use solo_dual_mode.Prelude.{ℕ, Bool, List, [], ◌∷◌, none, some, if◌then◌else◌, nat_key}
use solo_dual_mode.Prelude.Dict.{Dict, get, insert}
use solo_dual_mode.Text.{is_empty}
use solo_dual_mode.Text.{text_key}
use solo_dual_mode.Session.{StratumContext, new, set_authorized_worker_name, disconnect}
use solo_dual_mode.Vardiff.{
  Double, Stats, activate_client_vardiff, deactivate_client_vardiff, register_client_vardiff,
  set_client_vardiff, start_client_vardiff, prune_stats,
}
use solo_dual_mode.Vardiff.Difficulty.{vardiff_tick}

-- The connections are found by their unique numbers.
pub record Bridge (F : Type 0) : Type 0 where
  pub stats : Stats F
  pub conns : Dict ℕ StratumContext

-- A floating-point number that an event carries is the difficulty of the connection's jobs, except
-- for the seed of `registers`, the new difficulty of `sets` and the expected rate of `ticks`.
pub data Event (F : Type 0) : Type 0 where
  connects : ℕ → ℕ → Event F
  authorizes : ℕ → List ℕ → List ℕ → F → ℕ → Event F
  disconnects : ℕ → ℕ → Event F
  registers : ℕ → F → F → ℕ → Event F
  sets : ℕ → F → F → ℕ → Event F
  starts : ℕ → ℕ → Event F
  prunes : ℕ → Event F
  ticks : ℕ → F → Bool → Event F

module _ {F : Type 0} where
  -- The part of `on_disconnect` that the sessions see.
  unfoldable pub close : ℕ → StratumContext → Stats F → Stats F × StratumContext
  close now ctx stats =
      let (detached, ctx') = deactivate_client_vardiff ctx now stats in (detached, disconnect ctx')

  -- A handler of one connection.
  unfoldable pub on_conn :
      (StratumContext → Stats F → Stats F × StratumContext) → ℕ → Bridge F → Bridge F
  on_conn handler uid b = elim (get uid b.conns) [
    | none ↦ b
    | some ctx ↦
        let (stats, ctx') = handler ctx b.stats in
        record { stats = stats; conns = insert uid ctx' b.conns }
  ]

  abbrev pub setting : F → F → ℕ → StratumContext → Stats F → Stats F × StratumContext
  setting diff current now ctx stats = ((set_client_vardiff ctx diff current now stats).0, ctx)

  abbrev pub starting : ℕ → StratumContext → Stats F → Stats F × StratumContext
  starting now ctx stats = (start_client_vardiff ctx now stats, ctx)

module _ {F : Type 0} (ops : Double F) where
  -- `sync_worker_prom_metrics`.
  unfoldable pub sync_worker_prom_metrics :
      StratumContext → F → ℕ → Stats F → Stats F × StratumContext
  sync_worker_prom_metrics ctx current now stats =
      if is_empty ctx.wallet_addr
      then (stats, ctx)
      else activate_client_vardiff ops ctx current now stats

  -- The part of `handle_authorize` that changes the worker of a connection.
  unfoldable pub change_identity :
      List ℕ → List ℕ → F → ℕ → StratumContext → Stats F → Stats F × StratumContext
  change_identity wallet worker current now ctx stats =
      let (detached, ctx') = deactivate_client_vardiff ctx now stats in
      sync_worker_prom_metrics
        (set_authorized_worker_name worker (record ctx' { wallet_addr = wallet })) current now
        detached

  abbrev pub registering : F → F → ℕ → StratumContext → Stats F → Stats F × StratumContext
  registering seed current now ctx stats =
      ((register_client_vardiff ops ctx seed current now stats).0, ctx)

  unfoldable pub step : Event F → Bridge F → Bridge F
  step (connects uid port) b = elim (get uid b.conns) [
    | some ctx ↦ b
    | none ↦ record b { conns = insert uid (new port uid) b.conns }
  ]
  step (authorizes uid wallet worker current now) b =
      on_conn (change_identity wallet worker current now) uid b
  step (disconnects uid now) b = on_conn (close now) uid b
  step (registers uid seed current now) b = on_conn (registering seed current now) uid b
  step (sets uid diff current now) b = on_conn (setting diff current now) uid b
  step (starts uid now) b = on_conn (starting now) uid b
  step (prunes now) b = record b { stats = prune_stats now b.stats }
  step (ticks now expected clamp) b = record b {
    stats = vardiff_tick ops now expected clamp b.stats;
  }

  unfoldable pub run : List (Event F) → Bridge F → Bridge F
  run [] b = b
  run (event ∷ events) b = run events (step event b)

abbrev pub fresh : {F : Type 0} → Bridge F
fresh = record { stats = []; conns = [] }
