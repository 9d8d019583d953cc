-- ===== src/Jobs.antt =====
-- bridge-src/bridge/src/client_handler.rs: what a connection is sent when it gets a job. A task that
-- builds a job holds the connection's lock from the template to the notification, so it is one
-- function from the connection to the connection.
pub mod Handlers
pub mod Immediate
pub mod Steps
pub mod NewBlock
pub mod Parent
mod Tests
use solo_dual_mode.Prelude.{
  ℕ, zero, suc, ◌+◌, ◌-◌, ◌^◌, Bool, true, false, ◌&&◌, ◌||◌, not, List, [], ◌∷◌, ◌++◌, Option,
  none, some, length, map, ltb, if◌then◌else◌, nat_key,
}
use solo_dual_mode.Prelude.Dict.{Dict, get}
use solo_dual_mode.Text.{codes, is_empty, decimal}
use solo_dual_mode.Rpc.{
  Scalar, string, number, float, Json, scalar, array, Message, event, notification, Wire, send,
}
use solo_dual_mode.Miner.{is_iceriver, names_iceriver, is_big_job}
use solo_dual_mode.Chain.{Header, Block, calculate_target}
use solo_dual_mode.MiningState.{
  Job, MiningState, add_job, set_stratum_diff, set_big_diff, set_initialized, set_use_big_job,
  set_last_header,
}
use solo_dual_mode.Hasher.{
  generate_job_header, generate_large_job_params, generate_iceriver_job_params,
}
use solo_dual_mode.Session.{
  StratumContext, connected, next_template_generation, mark_job_sent, disconnect,
}
use solo_dual_mode.Vardiff.{
  Double, Stats, register_client_vardiff, get_client_vardiff, set_client_vardiff,
  start_client_vardiff,
}

pub record KaspaDiff (F : Type 0) : Type 0 where
  pub hash_value : F
  pub diff_value : F
  pub target_value : ℕ

-- The answer of the node to a request for a template. `malformed` is the error whose text is
-- "Could not decode address".
pub data Template (B : Type 0) : Type 0 where
  fetched : B → Template B
  malformed failed : Template B

-- `fetch` has the wallet, the program, the Canxium address, the connection's number, the generation
-- and the payout address; the connection's number is the lane too. `serialize` is
-- `serialize_block_header`, and `as_u64` the conversion of a float.
pub record Sender (F R T : Type 0) : Type 0 where
  pub ops : Double F
  pub fract : F → F
  pub as_u64 : F → ℕ
  pub diff_to_target : F → ℕ
  pub min_share_diff : F
  pub port_seeds : Dict ℕ F
  pub fetch : List ℕ → List ℕ → List ℕ → ℕ → ℕ → Option (List ℕ) → Template (Block R T)
  pub serialize : Block R T → Option (List ℕ)
  pub to_string : List ℕ → List ℕ
  pub encode : List ℕ → List ℕ
  pub accepts : ℕ → Bool

pub record Lane (F R T : Type 0) : Type 0 where
  pub ctx : StratumContext
  pub local_port : ℕ
  pub canxium_addr : List ℕ
  pub kas_payout : Option (List ℕ)
  pub mining : MiningState (Job (Block R T) (List ℕ)) (KaspaDiff F) (Header R)
  pub stats : Stats F
  pub wire : Wire F

module _ {F R T : Type 0} (sender : Sender F R T) where
  open sender use {
    ops, fract, as_u64, diff_to_target, min_share_diff, port_seeds, fetch, serialize, to_string,
    encode, accepts,
  }

  abbrev pub zero_diff : F
  zero_diff = ops.literal 0 1

  unfoldable pub seed_for_port : ℕ → F
  seed_for_port local_port = elim (get local_port port_seeds) [
    | none ↦ min_share_diff
    | some seed ↦ seed
  ]

  -- `set_diff_value_for_miner` sets every field.
  unfoldable pub kaspa_diff : F → KaspaDiff F
  kaspa_diff diff = record {
    diff_value = diff;
    target_value = diff_to_target diff;
    hash_value = ops.over (ops.times (ops.literal (2 ^ 32) 1) diff) (ops.literal 1_000_000_000 1);
  }

  -- An integer when the difficulty is whole.
  unfoldable pub difficulty_to_json : F → Scalar F
  difficulty_to_json diff =
      if ops.is_finite diff
        && ops.le zero_diff diff
        && ops.eq (fract diff) zero_diff
        && ops.le diff (ops.literal (2 ^ 64 - 1) 1)
      then number (as_u64 diff)
      else (if ops.is_finite diff then float diff else number (as_u64 (ops.max diff zero_diff)))

  abbrev pub difficulty_message : F → Message F
  difficulty_message diff =
      event none (codes "mining.set_difficulty") (scalar (difficulty_to_json diff) ∷ [])

  -- The lane after a message, and whether it was sent.
  unfoldable pub transmit : Message F → Lane F R T → Lane F R T × Bool
  transmit m lane =
      let sent = send accepts m lane.wire in
      if connected lane.ctx
      then elim sent [ none ↦ (lane, false) | some wire ↦ (record lane { wire = wire }, true) ]
      else (lane, false)

  -- The three forms of a job; `none` is a panic.
  unfoldable pub job_params : Bool → List ℕ → ℕ → List ℕ → ℕ → Option (List (Json F))
  job_params use_big_job remote_app job_id hash timestamp =
      let id = scalar (string (decimal job_id)) in
      let large = generate_large_job_params hash timestamp in
      if is_iceriver remote_app
      then some
          (id ∷ scalar (string (generate_iceriver_job_params to_string encode hash timestamp)) ∷ [])
      else (if use_big_job
          then elim large [ none ↦ none | some text ↦ some (id ∷ scalar (string text) ∷ []) ]
          else some
              (id ∷ array (map number (generate_job_header hash)) ∷ scalar (number timestamp) ∷ []))

  abbrev pub notify_message : Bool → ℕ → List (Json F) → Message F
  notify_message minimal job_id params =
      if minimal
      then notification (codes "mining.notify") params
      else event (some (number job_id)) (codes "mining.notify") params

  -- The notification, after which the job counts as sent.
  unfoldable pub notify : Bool → ℕ → List ℕ → ℕ → ℕ → Lane F R T → Lane F R T
  notify minimal job_id hash timestamp now lane =
      elim (job_params lane.mining.use_big_job lane.ctx.remote_app job_id hash timestamp) [
        | none ↦ lane
        | some params ↦
            let (lane', sent) = transmit (notify_message minimal job_id params) lane in
            if sent then record lane' { ctx = mark_job_sent now lane'.ctx } else lane'
      ]

  -- `stratum_diff().map(|d| d.diff_value)`, or a default.
  abbrev pub diff_or : F → Option (KaspaDiff F) → F
  diff_or default none = default
  diff_or default (some d) = d.diff_value

  abbrev pub set_diff : F → Lane F R T → Lane F R T
  set_diff diff lane = record lane { mining = set_stratum_diff lane.mining (kaspa_diff diff) }

  -- The first job of a connection settles the form of its jobs and its difficulty.
  unfoldable pub initialize : F → Lane F R T → Lane F R T
  initialize diff lane = set_diff diff (record lane {
    mining = set_use_big_job (set_initialized lane.mining true) (is_big_job lane.ctx.remote_app);
  })

  -- A template for this connection, in its next generation.
  unfoldable pub fetch_template : Lane F R T → Lane F R T × Template (Block R T)
  fetch_template lane =
      let (ctx, generation) = next_template_generation lane.ctx in
      (
        record lane { ctx = ctx },
        fetch ctx.wallet_addr ctx.remote_app lane.canxium_addr ctx.session_uid generation
            lane.kas_payout,
      )

  -- The lane that has stored the job, with the job's number and hash, or with none after an error or
  -- a panic.
  unfoldable pub store_template : Block R T → Lane F R T → Lane F R T × Option (ℕ × List ℕ)
  store_template block lane =
      let mining = set_big_diff lane.mining (calculate_target block.header.bits) in
      let lane' : Lane F R T = record lane { mining = mining } in
      elim (serialize block) [
        | none ↦ (lane', none)
        | some hash ↦ elim (add_job mining (record { block = block; pre_pow_hash = hash })) [
          | none ↦ (lane', none)
          | some (id, mining') ↦ (record lane { mining = mining' }, some (id, hash))
        ]
      ]

  -- The registration that comes before the job's task.
  unfoldable pub restore_diff : ℕ → Lane F R T → Lane F R T × F
  restore_diff now lane =
      let (stats, diff) =
        register_client_vardiff ops lane.ctx (seed_for_port lane.local_port)
          (diff_or zero_diff lane.mining.stratum_diff) now lane.stats in
      (record lane { stats = stats }, diff)
