-- ===== src/Jobs/Parent.antt =====
-- bridge-src/bridge/src/client_handler.rs, `new_parent_available`: a fresh Kaspa parent for the job
-- that a connection works on. A refresh asks the node without the connection's lock, so it is two
-- steps, and the jobs of the other handlers come in between. Times are in milliseconds here.
pub mod Gate
pub mod Published
pub mod Spaced
use Prim.Native.Nat.{max, min}
use solo_dual_mode.Prelude.{
  ℕ, ◌+◌, ◌-◌, ◌/◌, Bool, true, false, ◌&&◌, ◌||◌, not, List, [], ◌∷◌, Option, none, some,
  if◌then◌else◌,
}
use solo_dual_mode.Text.{codes, contains, to_ascii_lowercase}
use solo_dual_mode.Miner.{is_bitmain, is_iceriver}
use solo_dual_mode.Chain.{Block, Consensus, committed_h_fc}
use solo_dual_mode.MiningState.{Job, add_job, latest_job}
use solo_dual_mode.Session.{
  StratumContext, connected, is_recent, mark_job_sent, mark_parent_job_sent,
}
use solo_dual_mode.Jobs.{Sender, Lane, job_params, notify_message, transmit}
use solo_dual_mode.Jobs.Handlers.{send_immediate_job_to_client, new_block}

-- The consensus library, the equality of commitments, what the node answers, and the two intervals
-- of the environment. `refresh` answers with an error, with nothing, or with a parent.
pub record Parents (R T Hash : Type 0) : Type 0 where
  pub consensus : Consensus R T Hash
  pub same : Option Hash → Option Hash → Bool
  pub paid_pool : Block R T → Bool
  pub refresh : Block R T → Option (List ℕ) → Option (Option (Block R T))
  pub legacy_ms : ℕ
  pub common_ms : ℕ

-- A connection and the refresh that holds its permit: the job it began with and its commitment.
pub record Refresher (F R T Hash : Type 0) : Type 0 where
  pub lane : Lane F R T
  pub pending : Option (Block R T × Option Hash)

-- `ends` has whether the lock of the connection is free.
pub data Event : Type 0 where
  begins : ℕ → Event
  ends : ℕ → Bool → Event
  announces authorizes : ℕ → Event

unfoldable pub is_legacy_asic : List ℕ → Bool
is_legacy_asic remote_app =
    is_bitmain remote_app || contains (to_ascii_lowercase remote_app) (codes "goldshell")

abbrev pub time_of : Event → ℕ
time_of (begins now) = now
time_of (ends now free) = now
time_of (announces now) = now
time_of (authorizes now) = now

-- `try_parent_refresh`, for a permit that is free or not.
unfoldable pub try_parent_refresh : ℕ → ℕ → Bool → StratumContext → Bool
try_parent_refresh minimum_interval now free ctx =
    not (is_recent ctx.last_parent_job_at minimum_interval now) && free

abbrev pub is_free : {A : Type 0} → Option A → Bool
is_free none = true
is_free (some x) = false

module _ {F R T Hash : Type 0} (sender : Sender F R T) (parents : Parents R T Hash) where
  open parents use {consensus, same, paid_pool, refresh, legacy_ms, common_ms}

  unfoldable pub parent_job_interval : List ℕ → ℕ
  parent_job_interval remote_app =
      max 100 (min 10_000 (if is_legacy_asic remote_app then legacy_ms else common_ms))

  unfoldable pub begin_refresh : ℕ → Refresher F R T Hash → Refresher F R T Hash
  begin_refresh now r =
      let interval = parent_job_interval r.lane.ctx.remote_app in
      if connected r.lane.ctx && try_parent_refresh interval now (is_free r.pending) r.lane.ctx
      then elim (latest_job r.lane.mining) [
        | none ↦ r
        | some (id, job) ↦ record r {
          pending = some (job.block, committed_h_fc consensus job.block);
        }
      ]
      else r

  -- The lane after the parent was stored and sent, and whether it was sent.
  unfoldable pub publish_parent : ℕ → Block R T → List ℕ → Lane F R T → Lane F R T × Bool
  publish_parent now parent hash lane =
      elim (add_job lane.mining (record { block = parent; pre_pow_hash = hash })) [
        | none ↦ (lane, false)
        | some (id, mining) ↦
            let stored : Lane F R T = record lane { mining = mining } in
            let params =
              job_params sender mining.use_big_job lane.ctx.remote_app id hash
                parent.header.timestamp in
            elim params [
              | none ↦ (stored, false)
              | some params ↦
                  let (told, sent) =
                    transmit sender
                      (notify_message sender (is_iceriver lane.ctx.remote_app) id params) stored in
                  (
                    if sent
                        then record told {
                          ctx = mark_parent_job_sent now (mark_job_sent (now / 1000) told.ctx);
                        }
                        else told,
                    sent,
                  )
            ]
      ]

  -- A parent is published only for a commitment that is still the one of the latest job.
  unfoldable pub offer_parent : ℕ → Option Hash → Block R T → Lane F R T → Lane F R T × Bool
  offer_parent now expected parent lane = elim (latest_job lane.mining) [
    | none ↦ (lane, false)
    | some (id, job) ↦
        let current = same (committed_h_fc consensus job.block) expected in
        elim (sender.serialize parent) [
          | none ↦ (lane, false)
          | some hash ↦ if current then publish_parent now parent hash lane else (lane, false)
        ]
  ]

  unfoldable pub finish_refresh : ℕ → Bool → Refresher F R T Hash → Refresher F R T Hash × Bool
  finish_refresh now free r = elim r.pending [
    | none ↦ (r, false)
    | some (old, expected) ↦
        let payee = if paid_pool old then none else r.lane.kas_payout in
        elim (refresh old payee) [
          | none ↦ (record r { pending = none }, false)
          | some none ↦ (record r { pending = none }, false)
          | some (some parent) ↦
              let (lane, sent) = offer_parent now expected parent r.lane in
              (record { lane = if free then lane else r.lane; pending = none }, free && sent)
        ]
  ]

  -- The step of an event, and whether it published a parent.
  unfoldable pub step : Event → Refresher F R T Hash → Refresher F R T Hash × Bool
  step (begins now) r = (begin_refresh now r, false)
  step (ends now free) r = finish_refresh now free r
  step (announces now) r = (record r { lane = new_block sender (now / 1000) r.lane }, false)
  step (authorizes now) r =
      (record r { lane = send_immediate_job_to_client sender (now / 1000) r.lane }, false)

  -- The times at which parents were published.
  unfoldable pub published : List Event → Refresher F R T Hash → List ℕ
  published [] r = []
  published (event ∷ events) r =
      let (r', sent) = step event r in
      let rest = published events r' in if sent then time_of event ∷ rest else rest
