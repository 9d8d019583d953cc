-- ===== src/Vardiff/Tests.antt =====
-- A few workers at concrete events, with thousandths for numbers.
use solo_dual_mode.Vardiff.Thousandths.{ops}
use solo_dual_mode.Prelude.{
  ℕ, ◌+◌, ◌-◌, ◌*◌, ◌/◌, ◌≡◌, refl, true, false, List, [], ◌∷◌, Option, some, none, arith, ltb, leb,
  ◌==◌, nat_key, All,
}
use solo_dual_mode.Prelude.Dict.{get}
use solo_dual_mode.Text.{codes, trim, trim_start, trim_end, to_ascii_lowercase}
use solo_dual_mode.Text.{text_key, text_dec}
use solo_dual_mode.Session.{StratumContext, new, vardiff_worker_identity, stats_key}
use solo_dual_mode.Vardiff.{SessionStats, deactivate_client_vardiff, register_client_vardiff}
use solo_dual_mode.Vardiff.Difficulty.{adjust, measure, vardiff_compute_next_diff}
use solo_dual_mode.Vardiff.Difficulty.Floor.{IsStep, next_diff_floor}
use solo_dual_mode.Vardiff.Sessions.{Event, connects, authorizes, disconnects, run, fresh}
use solo_dual_mode.Vardiff.Counted.{Tells, registered}
use solo_dual_mode.Vardiff.Counted.Runs.{run-fresh-Counted}
use solo_dual_mode.Vardiff.Restore.{prune_at, vardiff_at, background, reconnect_restores}

-- Twelve shares in a minute where six are expected: twice the difficulty.
doubled : vardiff_compute_next_diff ops 8_192_000 12_000 60_000 6_000 false ≡ some 16_384_000
unfolding vardiff_compute_next_diff measure adjust
doubled = refl

no_share_yet : vardiff_compute_next_diff ops 8_192_000 0 10_000 6_000 false ≡ none
unfolding vardiff_compute_next_diff measure
no_share_yet = refl

next_diff_floor_example :
    IsStep ops true 8_192_000 (vardiff_compute_next_diff ops 8_192_000 12_000 60_000 6_000 true)
next_diff_floor_example =
    next_diff_floor ops refl refl refl refl refl (λ x high. ground (arith, high))
      (λ x high. ground (arith, high)) (λ x finite high. high) (λ x finite high. high) 8_192_000
      refl (λ ratio finite positive. refl) 12_000 60_000 6_000 true

abbrev wallet : List ℕ
wallet = codes "zkas:q"

abbrev events : List (Event ℕ)
events =
    connects 1 5555
    ∷ connects 2 5556
    ∷ authorizes 1 wallet (codes "rig") 0 10
    ∷ authorizes 2 wallet (codes "rig") 0 11
    ∷ authorizes 1 wallet (codes "other") 0 12
    ∷ disconnects 2 13
    ∷ []

run-fresh-Counted_example :
    Tells
      (get (codes "zkas:q\0rig") (run ops events fresh).stats)
      (registered (codes "zkas:q\0rig") (run ops events fresh).conns)
run-fresh-Counted_example = run-fresh-Counted ops events (omega arith) (codes "zkas:q\0rig")

-- A connection that authorizes after it was closed is counted and has no one to release it.
abbrev late_events : List (Event ℕ)
late_events =
    connects 1 5555
    ∷ authorizes 1 wallet (codes "rig") 0 10
    ∷ disconnects 1 13
    ∷ authorizes 1 wallet (codes "rig") 0 14
    ∷ []

counted_when_closed : registered (codes "zkas:q\0rig") (run ops late_events fresh).conns ≡ 1
unfolding registered run solo_dual_mode.Vardiff.Sessions.step
    solo_dual_mode.Vardiff.Sessions.on_conn get solo_dual_mode.Prelude.Dict.insert
    solo_dual_mode.Prelude.ℕ_discrete solo_dual_mode.Vardiff.Counted.counts_for
    solo_dual_mode.Vardiff.Sessions.change_identity
    solo_dual_mode.Vardiff.Sessions.sync_worker_prom_metrics
    solo_dual_mode.Session.set_authorized_worker_name
    solo_dual_mode.Session.ensure_default_worker_name trim trim_end trim_start
    solo_dual_mode.Vardiff.activate_client_vardiff solo_dual_mode.Session.claim_vardiff_registration
    solo_dual_mode.Session.disconnect new solo_dual_mode.Session.release_vardiff_registration
    stats_key vardiff_worker_identity text_dec to_ascii_lowercase
    solo_dual_mode.Vardiff.Sessions.close deactivate_client_vardiff
    solo_dual_mode.Vardiff.get_create_stats solo_dual_mode.Vardiff.new_stats
counted_when_closed = refl

abbrev rig : StratumContext
rig = record (new 5555 1) {
  wallet_addr = wallet;
  worker_name = codes "rig";
  worker_name_supplied = true;
  vardiff_registered = true;
}

abbrev again : StratumContext
again = record (new 5999 2) {
  wallet_addr = codes " ZKAS:q ";
  worker_name = codes "rig";
  worker_name_supplied = true;
}

abbrev entry : SessionStats ℕ
entry = record {
  var_diff_start_time = some 1;
  var_diff_shares_found = 4;
  var_diff_window = 0;
  min_diff = 8_192_000;
  active_connections = 1;
  last_session_activity = 1;
}

-- Gone at 100, and back after a tick of either thread.
reconnect_restores_example :
    (register_client_vardiff ops again 64_000 0 4000 (
      background ops
        (vardiff_at 110 6_000 false ∷ prune_at 3600 ∷ [])
        (deactivate_client_vardiff rig 100 ((stats_key rig, entry) ∷ [])).0)).1
    ≡ 8_192_000
unfolding stats_key to_ascii_lowercase trim trim_start trim_end vardiff_worker_identity new get
    text_dec solo_dual_mode.Prelude.ℕ_discrete
reconnect_restores_example =
    reconnect_restores ops rig again ((stats_key rig, entry) ∷ []) entry 100 4000
      (vardiff_at 110 6_000 false ∷ prune_at 3600 ∷ []) 64_000 0 (refl, tt) refl refl refl refl
      (tt, (omega arith, tt)) refl refl
