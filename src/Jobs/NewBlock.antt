-- ===== src/Jobs/NewBlock.antt =====
-- The job for a new block, when vardiff has moved the difficulty since the last one.
use solo_dual_mode.Prelude.{
  ℕ, ◌+◌, ◌^◌, ◌<◌, ◌≡◌, refl, ap, sym, ◌∙◌, subst, true, false, List, [], ◌∷◌, ◌++◌, none, some,
  length, if◌then◌else◌,
}
use mathlib.Core.List.{append_assoc}
use solo_dual_mode.Text.{is_empty}
use solo_dual_mode.Miner.{names_iceriver}
use solo_dual_mode.Chain.{Block, calculate_target}
use solo_dual_mode.MiningState.{
  Job, store_job, get_job, get_job_diff, set_stratum_diff, set_big_diff,
}
use solo_dual_mode.Session.{connected, next_template_generation, mark_job_sent}
use solo_dual_mode.Vardiff.{start_client_vardiff}
use solo_dual_mode.Jobs.{
  KaspaDiff, fetched, Sender, Lane, kaspa_diff, difficulty_message, set_diff, fetch_template,
  restore_diff, notify_message, notify, transmit, initialize,
}
use solo_dual_mode.Jobs.Handlers.{
  follow_diff, recover_diff, change_diff, adjust_diff, offer_block, build_block, new_block,
}
use solo_dual_mode.Jobs.Steps.{
  IsOffered, stored_job, stored_diff, store_ok, params_total, transmit_ok, notify_ok,
}

module _ {F R T : Type 0} (sender : Sender F R T) where
  -- The difficulty that the statistics hold after the registration.
  abbrev pub moved_diff : ℕ → F → Lane F R T → F
  moved_diff now current lane = (recover_diff sender current now (restore_diff sender now lane).0).1

module _ {F R T : Type 0} (sender : Sender F R T)
    (takes_all : (n : ℕ) → sender.accepts n ≡ true) where
  open sender use {ops}

  change_ok :
      (diff : F) (now : ℕ) (lane : Lane F R T)
      → connected lane.ctx ≡ true
      → change_diff sender diff now lane ≡ (
        record lane {
          mining = set_stratum_diff lane.mining (kaspa_diff sender diff);
          wire = lane.wire ++ difficulty_message sender diff ∷ [];
          stats = start_client_vardiff lane.ctx now lane.stats;
        },
        true,
      )
  unfolding change_diff
  change_ok diff now lane up =
      rw
        (transmit_ok sender takes_all (difficulty_message sender diff) (set_diff sender diff lane)
          up)
        refl

  adjust_ok :
      (initial : F) (now : ℕ) (d : KaspaDiff F) (lane : Lane F R T)
      → lane.mining.initialized ≡ true
      → lane.mining.stratum_diff ≡ some d
      → let r = recover_diff sender d.diff_value now lane in
        ops.eq r.1 d.diff_value ≡ false
        → adjust_diff sender initial now lane ≡ change_diff sender r.1 now r.0
  unfolding adjust_diff
  adjust_ok initial now d lane on known moved =
      let r = recover_diff sender d.diff_value now lane in
      ap
        (λ b.
          if b
          then follow_diff sender now lane lane.mining.stratum_diff
          else transmit sender (difficulty_message sender initial) (initialize sender initial lane))
        on
      ∙ ap (follow_diff sender now lane) known
      ∙ ap (λ b. if b then (r.0, true) else change_diff sender r.1 now r.0) moved

  -- A connected client with an address and an initialized state whose difficulty `d` is no longer the
  -- one of its statistics, whose template comes and whose header is written with a hash of 32 bytes,
  -- on a socket that takes every message, and while the counter of jobs has room: it is told the
  -- difficulty of the statistics and then the next job, but the job is stored under `d`, the
  -- difficulty before, by which its shares are judged.
  pub block-IsOffered :
      (now : ℕ) (lane : Lane F R T) (block : Block R T) (hash : List ℕ) (d : KaspaDiff F)
      → is_empty lane.ctx.wallet_addr ≡ false
      → connected lane.ctx ≡ true
      → (fetch_template sender lane).1 ≡ fetched block
      → sender.serialize block ≡ some hash
      → length hash ≡ 32
      → lane.mining.job_counter + 1 < 2 ^ 64
      → lane.mining.initialized ≡ true
      → lane.mining.stratum_diff ≡ some d
      → let asked = (fetch_template sender lane).0 in
        let told = moved_diff sender now d.diff_value asked in
        ops.eq told d.diff_value ≡ false
        → IsOffered sender
            (names_iceriver lane.ctx.remote_app)
            told
            d
            block
            hash
            now
            lane
            (new_block sender now lane)
  unfolding new_block build_block offer_block restore_diff fetch_template next_template_generation
      connected recover_diff set_big_diff store_job set_stratum_diff mark_job_sent get_job
      get_job_diff
  block-IsOffered now lane block hash d named up answer written size room on known moved =
      let asked = (fetch_template sender lane).0 in
      let told = moved_diff sender now d.diff_value asked in
      let id = asked.mining.job_counter + 1 in
      let timestamp = block.header.timestamp in
      let big = set_big_diff asked.mining (calculate_target block.header.bits) in
      let job : Job (Block R T) (List ℕ) = record { block = block; pre_pow_hash = hash } in
      let stored : Lane F R T = record asked { mining = store_job big id job } in
      let restored = restore_diff sender now stored in
      let fixed = (recover_diff sender d.diff_value now restored.0).0 in
      let adjusted : Lane F R T = record fixed {
        mining = set_stratum_diff fixed.mining (kaspa_diff sender told);
        wire = fixed.wire ++ difficulty_message sender told ∷ [];
        stats = start_client_vardiff fixed.ctx now fixed.stats;
      } in
      let minimal = names_iceriver lane.ctx.remote_app in
      let (params, given) =
        params_total sender lane.mining.use_big_job lane.ctx.remote_app id hash timestamp size in
      let end =
        ap (λ s. elim s.1 [ none ↦ s.0 | some (i, h) ↦ offer_block sender now i h timestamp s.0 ])
          (store_ok sender block hash asked written room)
        ∙ ap
            (λ t.
              if t.1
              then notify sender (names_iceriver t.0.ctx.remote_app) id hash timestamp now t.0
              else t.0)
            (adjust_ok restored.1 now d restored.0 on known moved ∙ change_ok told now fixed up)
        ∙ notify_ok sender takes_all minimal id hash timestamp now params adjusted up given in
      rw (up, named, answer)
        (subst (λ after. IsOffered sender minimal told d block hash now lane after) (sym end)
          (record {
            id = id;
            params = params;
            next = refl;
            formed = given;
            sent =
                append_assoc lane.wire (difficulty_message sender told ∷ [])
                  (notify_message sender minimal id params ∷ []);
            stored = stored_job big id job;
            judged = stored_diff big id job d known;
            marked = refl;
          }))
