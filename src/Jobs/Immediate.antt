-- ===== src/Jobs/Immediate.antt =====
-- The job after an authorization.
use solo_dual_mode.Prelude.{
  ℕ, ◌+◌, ◌^◌, ◌<◌, ◌≡◌, refl, ap, sym, ◌∙◌, subst, true, false, List, [], ◌∷◌, ◌++◌, none, some,
  length, Bool-cases, inl, inr, if◌then◌else◌,
}
use solo_dual_mode.Rpc.{Json}
use solo_dual_mode.Text.{is_empty}
use solo_dual_mode.Miner.{is_iceriver}
use solo_dual_mode.Chain.{Block, calculate_target}
use solo_dual_mode.MiningState.{
  Job, store_job, get_job, get_job_diff, set_stratum_diff, set_big_diff, set_initialized,
  set_use_big_job, set_last_header,
}
use solo_dual_mode.Session.{connected, next_template_generation, mark_job_sent}
use solo_dual_mode.Jobs.{
  fetched, Sender, Lane, kaspa_diff, difficulty_message, diff_or, job_params, set_diff, initialize,
  fetch_template, restore_diff, transmit, notify, notify_message,
}
use solo_dual_mode.Jobs.Handlers.{
  readied, offer_immediate, build_immediate, send_immediate_job_to_client,
}
use solo_dual_mode.Jobs.Steps.{
  IsOffered, IsOffered-from, stored_job, stored_diff, store_ok, params_total, told_ok,
}

module _ {F R T : Type 0} (sender : Sender F R T)
    (takes_all : (n : ℕ) → sender.accepts n ≡ true) where
  -- What is kept when the connection is made ready for its first job.
  readied_keeps :
      (diff : F) (id : ℕ) (lane : Lane F R T)
      → lane.mining.stratum_diff ≡ some (kaspa_diff sender diff)
      → let ready = readied sender diff lane in
        (ready.ctx ≡ lane.ctx)
        × (ready.wire ≡ lane.wire)
        × (get_job ready.mining id ≡ get_job lane.mining id)
        × (get_job_diff ready.mining id ≡ get_job_diff lane.mining id)
        × (ready.mining.stratum_diff ≡ some (kaspa_diff sender diff))
  unfolding initialize set_stratum_diff set_initialized set_use_big_job get_job get_job_diff
  readied_keeps diff id lane known = elim (Bool-cases lane.mining.initialized) [
    | inl on ↦ rw (on) (refl, refl, refl, refl, known)
    | inr off ↦ rw (off) (refl, refl, refl, refl, refl)
  ]

  offer_ok :
      (told : F) (now id : ℕ) (hash : List ℕ) (timestamp : ℕ) (params : List (Json F))
      (stored : Lane F R T)
      → connected stored.ctx ≡ true
      → stored.mining.stratum_diff ≡ some (kaspa_diff sender told)
      → let ready = readied sender told stored in
        job_params sender ready.mining.use_big_job ready.ctx.remote_app id hash timestamp
          ≡ some params
        → offer_immediate sender told now id hash timestamp stored ≡ record ready {
          wire =
              ready.wire
              ++ difficulty_message sender told
                ∷ notify_message sender (is_iceriver ready.ctx.remote_app) id params
                ∷ [];
          ctx = mark_job_sent now ready.ctx;
        }
  unfolding offer_immediate kaspa_diff
  offer_ok told now id hash timestamp params stored up known given =
      let ready = readied sender told stored in
      let (ctx_kept, wire_kept, job_kept, diff_kept, in_force) =
        readied_keeps told id stored known in
      ap
        (λ x.
          let t = transmit sender (difficulty_message sender x) ready in
          if t.1
          then notify sender (is_iceriver t.0.ctx.remote_app) id hash timestamp now t.0
          else t.0)
        (ap (diff_or sender told) in_force)
      ∙ told_ok sender takes_all (difficulty_message sender told) is_iceriver id hash timestamp now
          params ready (ap connected ctx_kept ∙ up) given

  build-IsOffered :
      (told : F) (now : ℕ) (asked : Lane F R T) (block : Block R T) (hash : List ℕ)
      → connected asked.ctx ≡ true
      → asked.mining.stratum_diff ≡ some (kaspa_diff sender told)
      → sender.serialize block ≡ some hash
      → length hash ≡ 32
      → asked.mining.job_counter + 1 < 2 ^ 64
      → IsOffered sender
          (is_iceriver asked.ctx.remote_app)
          told
          (kaspa_diff sender told)
          block
          hash
          now
          asked
          (build_immediate sender told now (fetched block) asked)
  unfolding build_immediate set_last_header set_big_diff store_job mark_job_sent
  build-IsOffered told now asked block hash up known written size room =
      let seen : Lane F R T = record asked { mining = set_last_header asked.mining block.header } in
      let id = asked.mining.job_counter + 1 in
      let big = set_big_diff seen.mining (calculate_target block.header.bits) in
      let job : Job (Block R T) (List ℕ) = record { block = block; pre_pow_hash = hash } in
      let stored : Lane F R T = record seen { mining = store_job big id job } in
      let ready = readied sender told stored in
      let timestamp = block.header.timestamp in
      let (ctx_kept, wire_kept, job_kept, diff_kept, in_force) =
        readied_keeps told id stored known in
      let (params, given) =
        params_total sender ready.mining.use_big_job ready.ctx.remote_app id hash timestamp size in
      let app = ap (λ ctx. ctx.remote_app) ctx_kept in
      let end =
        ap
          (λ s. elim s.1 [
            | none ↦ s.0
            | some (i, h) ↦ offer_immediate sender told now i h timestamp s.0
          ])
          (store_ok sender block hash seen written room)
        ∙ offer_ok told now id hash timestamp params stored up known given in
      subst
        (λ lane.
          IsOffered sender (is_iceriver asked.ctx.remote_app) told (kaspa_diff sender told) block
            hash now asked lane)
        (sym end)
        (record {
          id = id;
          params = params;
          next = refl;
          formed =
              subst
                (λ a. job_params sender ready.mining.use_big_job a id hash timestamp ≡ some params)
                app given;
          sent =
              ap
                (λ w.
                  w
                  ++ difficulty_message sender told
                    ∷ notify_message sender (is_iceriver ready.ctx.remote_app) id params
                    ∷ [])
                wire_kept
              ∙ ap
                  (λ a.
                    asked.wire
                    ++ difficulty_message sender told
                      ∷ notify_message sender (is_iceriver a) id params
                      ∷ [])
                  app;
          stored = job_kept ∙ stored_job big id job;
          judged = diff_kept ∙ stored_diff big id job (kaspa_diff sender told) known;
          marked = refl;
        })

  -- A connected client with an address whose template comes and whose header is written with a hash
  -- of 32 bytes, on a socket that takes every message, and while the counter of jobs has room: it is
  -- told the difficulty that its registration gave, and then the next job in the form of its rig;
  -- the job is stored, is judged by that very difficulty, and counts as sent now.
  pub immediate-IsOffered :
      (now : ℕ) (lane : Lane F R T) (block : Block R T) (hash : List ℕ)
      → is_empty lane.ctx.wallet_addr ≡ false
      → connected lane.ctx ≡ true
      → (fetch_template sender lane).1 ≡ fetched block
      → sender.serialize block ≡ some hash
      → length hash ≡ 32
      → lane.mining.job_counter + 1 < 2 ^ 64
      → let told = (restore_diff sender now lane).1 in
        IsOffered sender
          (is_iceriver lane.ctx.remote_app)
          told
          (kaspa_diff sender told)
          block
          hash
          now
          lane
          (send_immediate_job_to_client sender now lane)
  unfolding send_immediate_job_to_client restore_diff set_stratum_diff fetch_template
      next_template_generation connected
  immediate-IsOffered now lane block hash named up answer written size room =
      let told = (restore_diff sender now lane).1 in
      let asked =
        (fetch_template sender (set_diff sender told (restore_diff sender now lane).0)).0 in
      let minimal = is_iceriver lane.ctx.remote_app in
      rw (named, up, answer)
        (IsOffered-from sender minimal told (kaspa_diff sender told) block hash now asked lane _
          refl refl refl (build-IsOffered told now asked block hash up refl written size room))
