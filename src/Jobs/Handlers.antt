-- ===== src/Jobs/Handlers.antt =====
-- bridge-src/bridge/src/client_handler.rs: the job after an authorization and the job for a new
-- block. Times are in seconds.
use solo_dual_mode.Prelude.{
  ℕ, ◌-◌, Bool, true, ◌&&◌, ◌||◌, not, List, Option, none, some, ltb, if◌then◌else◌,
}
use solo_dual_mode.Text.{is_empty}
use solo_dual_mode.Miner.{is_iceriver, names_iceriver}
use solo_dual_mode.Chain.{Block}
use solo_dual_mode.MiningState.{set_last_header}
use solo_dual_mode.Session.{connected, disconnect}
use solo_dual_mode.Vardiff.{get_client_vardiff, set_client_vardiff, start_client_vardiff}
use solo_dual_mode.Jobs.{
  KaspaDiff, Template, fetched, malformed, failed, Sender, Lane, zero_diff, difficulty_message,
  transmit, notify, diff_or, set_diff, initialize, fetch_template, store_template, restore_diff,
}

abbrev pub client_timeout : ℕ
client_timeout = 20

module _ {F R T : Type 0} (sender : Sender F R T) where
  open sender use {ops}

  abbrev pub readied : F → Lane F R T → Lane F R T
  readied initial_diff lane =
      if lane.mining.initialized then lane else initialize sender initial_diff lane

  -- The difficulty is always sent before the job that follows an authorization.
  unfoldable pub offer_immediate : F → ℕ → ℕ → List ℕ → ℕ → Lane F R T → Lane F R T
  offer_immediate initial_diff now job_id hash timestamp lane =
      let ready = readied initial_diff lane in
      let (told, sent) =
        transmit sender
          (difficulty_message sender (diff_or sender initial_diff ready.mining.stratum_diff))
          ready in
      if sent
      then notify sender (is_iceriver told.ctx.remote_app) job_id hash timestamp now told
      else told

  -- What follows an answer of the node. A malformed address ends the connection.
  unfoldable pub build_immediate : F → ℕ → Template (Block R T) → Lane F R T → Lane F R T
  build_immediate initial_diff now failed lane = lane
  build_immediate initial_diff now malformed lane = record lane { ctx = disconnect lane.ctx }
  build_immediate initial_diff now (fetched block) lane =
      let seen : Lane F R T = record lane { mining = set_last_header lane.mining block.header } in
      let (stored, job) = store_template sender block seen in
      elim job [
        | none ↦ stored
        | some (id, hash) ↦ offer_immediate initial_diff now id hash block.header.timestamp stored
      ]

  -- The whole in one step, also the registration and the difficulty, which the source sees to before
  -- it takes the lock.
  unfoldable pub send_immediate_job_to_client : ℕ → Lane F R T → Lane F R T
  send_immediate_job_to_client now lane =
      let (registered, initial_diff) = restore_diff sender now lane in
      let (asked, answer) = fetch_template sender (set_diff sender initial_diff registered) in
      if is_empty lane.ctx.wallet_addr || not (connected lane.ctx)
      then lane
      else build_immediate initial_diff now answer asked

  -- A difficulty that vardiff has moved is sent, and its window starts. The answer is whether the
  -- message was sent.
  unfoldable pub change_diff : F → ℕ → Lane F R T → Lane F R T × Bool
  change_diff var_diff now lane =
      let (told, sent) =
        transmit sender (difficulty_message sender var_diff) (set_diff sender var_diff lane) in
      (
        if sent then record told { stats = start_client_vardiff told.ctx now told.stats } else told,
        sent,
      )

  -- A difficulty of zero in the statistics is replaced by the one in force.
  unfoldable pub recover_diff : F → ℕ → Lane F R T → Lane F R T × F
  recover_diff current now lane =
      let var_diff = get_client_vardiff lane.ctx current lane.stats in
      let (seeded, old) = set_client_vardiff lane.ctx current current now lane.stats in
      let zeroed = ops.le var_diff (zero_diff sender) && ops.lt (zero_diff sender) current in
      (
        record lane {
          stats = if zeroed then start_client_vardiff lane.ctx now seeded else lane.stats;
        },
        if zeroed then current else var_diff,
      )

  -- The difficulty in force follows the one of the statistics.
  abbrev pub follow_diff : ℕ → Lane F R T → Option (KaspaDiff F) → Lane F R T × Bool
  follow_diff now lane none = (lane, true)
  follow_diff now lane (some d) =
      let (fixed, var_diff) = recover_diff d.diff_value now lane in
      if ops.eq var_diff d.diff_value then (fixed, true) else change_diff var_diff now fixed

  unfoldable pub adjust_diff : F → ℕ → Lane F R T → Lane F R T × Bool
  adjust_diff initial_diff now lane =
      if lane.mining.initialized
      then follow_diff now lane lane.mining.stratum_diff
      else transmit sender (difficulty_message sender initial_diff)
          (initialize sender initial_diff lane)

  unfoldable pub offer_block : ℕ → ℕ → List ℕ → ℕ → Lane F R T → Lane F R T
  offer_block now job_id hash timestamp lane =
      let (registered, initial_diff) = restore_diff sender now lane in
      let (adjusted, sent) = adjust_diff initial_diff now registered in
      if sent
      then notify sender (names_iceriver adjusted.ctx.remote_app) job_id hash timestamp now adjusted
      else adjusted

  unfoldable pub build_block : ℕ → Template (Block R T) → Lane F R T → Lane F R T
  build_block now failed lane = lane
  build_block now malformed lane = record lane { ctx = disconnect lane.ctx }
  build_block now (fetched block) lane =
      let (stored, job) = store_template sender block lane in
      elim job [
        | none ↦ stored
        | some (id, hash) ↦ offer_block now id hash block.header.timestamp stored
      ]

  -- The task of `new_block_available` for one client. A client without an address is sent away
  -- when its time is over.
  unfoldable pub new_block : ℕ → Lane F R T → Lane F R T
  new_block now lane =
      let (asked, answer) = fetch_template sender lane in
      if not (connected lane.ctx)
      then lane
      else (if is_empty lane.ctx.wallet_addr
          then (if ltb client_timeout (now - lane.mining.connect_time)
              then record lane { ctx = disconnect lane.ctx }
              else lane)
          else build_block now answer asked)
