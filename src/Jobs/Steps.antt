-- ===== src/Jobs/Steps.antt =====
-- The steps of a job on a connection whose socket takes every message.
use solo_dual_mode.Prelude.{
  ℕ, ◌+◌, ◌%◌, ◌^◌, ◌<◌, ◌≡◌, refl, ap, ◌∙◌, subst, Bool, true, List, [], ◌∷◌, ◌++◌, some, length,
  arith, ltb, ◌==◌, if◌then◌else◌, inl, inr, nat_key, Option-cases,
}
use mathlib.Core.List.{append_assoc}
use solo_dual_mode.Prelude.Dict.{get-insert_self}
use solo_dual_mode.Rpc.{Json, Message, send}
use solo_dual_mode.Chain.{Block, calculate_target}
use solo_dual_mode.MiningState.{
  MiningState, max_jobs, add_job, store_job, get_job, get_job_diff, set_big_diff,
}
use solo_dual_mode.Hasher.{generate_large_job_params, read_words, from_be_bytes}
use solo_dual_mode.Hasher.Words.{length-read_words}
use solo_dual_mode.Session.{connected, mark_job_sent}
use solo_dual_mode.Jobs.{
  KaspaDiff, Sender, Lane, difficulty_message, transmit, job_params, notify_message, notify,
  store_template,
}

module _ {J D H : Type 0} where
  pub stored_job :
      (s : MiningState J D H) (id : ℕ) (job : J) → get_job (store_job s id job) id ≡ some job
  unfolding get_job store_job
  stored_job s id job = ground (
    arith,
    get-insert_self (id % max_jobs) job s.jobs,
    get-insert_self (id % max_jobs) id s.job_ids,
  )

  pub stored_diff :
      (s : MiningState J D H) (id : ℕ) (job : J) (d : D)
      → s.stratum_diff ≡ some d
      → get_job_diff (store_job s id job) id ≡ some d
  unfolding get_job_diff store_job
  stored_diff s id job d known = rw (known) ground (
    arith,
    get-insert_self (id % max_jobs) d s.job_diffs,
    get-insert_self (id % max_jobs) id s.job_ids,
  )

-- A connection went from `before` to `after` and was given a job for a block: it is told a
-- difficulty, then the job, and the job is kept under the difficulty `in_force`.
pub record IsOffered {F R T : Type 0} (sender : Sender F R T) (minimal : Bool) (told : F)
    (in_force : KaspaDiff F) (block : Block R T) (hash : List ℕ) (now : ℕ)
    (before after : Lane F R T) : Type 0 where
  pub id : ℕ
  pub params : List (Json F)
  pub next : id ≡ before.mining.job_counter + 1
  pub formed :
      job_params sender after.mining.use_big_job before.ctx.remote_app id hash
        block.header.timestamp
      ≡ some params
  pub sent :
      after.wire
      ≡ before.wire ++ difficulty_message sender told ∷ notify_message sender minimal id params ∷ []
  pub stored : get_job after.mining id ≡ some (record { block = block; pre_pow_hash = hash })
  pub judged : get_job_diff after.mining id ≡ some in_force
  pub marked : after.ctx.last_job_sent_at ≡ some now

-- A job depends on the rig, the messages and the number of jobs before it alone.
pub IsOffered-from :
    {F R T : Type 0} (sender : Sender F R T) (minimal : Bool) (told : F) (in_force : KaspaDiff F)
    (block : Block R T) (hash : List ℕ) (now : ℕ) (before before' after : Lane F R T)
    → before.ctx.remote_app ≡ before'.ctx.remote_app
    → before.wire ≡ before'.wire
    → before.mining.job_counter ≡ before'.mining.job_counter
    → IsOffered sender minimal told in_force block hash now before after
    → IsOffered sender minimal told in_force block hash now before' after
IsOffered-from sender minimal told in_force block hash now before before' after app wire count o =
    record {
      id = o.id;
      params = o.params;
      next = o.next ∙ ap (λ n. n + 1) count;
      formed =
          subst
            (λ a.
              job_params sender after.mining.use_big_job a o.id hash block.header.timestamp
              ≡ some o.params)
            app o.formed;
      sent =
          o.sent
          ∙ ap
              (λ w.
                w
                ++ difficulty_message sender told
                  ∷ notify_message sender minimal o.id o.params
                  ∷ [])
              wire;
      stored = o.stored;
      judged = o.judged;
      marked = o.marked;
    }

module _ {F R T : Type 0} (sender : Sender F R T) where
  pub store_ok :
      (block : Block R T) (hash : List ℕ) (lane : Lane F R T)
      → sender.serialize block ≡ some hash
      → lane.mining.job_counter + 1 < 2 ^ 64
      → let id = lane.mining.job_counter + 1 in
        let big = set_big_diff lane.mining (calculate_target block.header.bits) in
        store_template sender block lane ≡ (
          record lane { mining = store_job big id (record { block = block; pre_pow_hash = hash }) },
          some (id, hash),
        )
  unfolding store_template add_job set_big_diff
  store_ok block hash lane written room =
      let enough : ltb (lane.mining.job_counter + 1) (2 ^ 64) ≡ true = ground (arith, room) in
      rw (written, enough, store_template) refl

  pub params_total :
      (use_big_job : Bool) (app : List ℕ) (id : ℕ) (hash : List ℕ) (timestamp : ℕ)
      → length hash ≡ 32
      → (params : List (Json F)) × (job_params sender use_big_job app id hash timestamp
          ≡ some params)
  unfolding job_params generate_large_job_params
  params_total use_big_job app id hash timestamp size =
      let full : (length (read_words from_be_bytes 4 hash) == 4) ≡ true =
        ground (arith, length-read_words from_be_bytes 4 hash size) in
      elim (Option-cases (job_params sender use_big_job app id hash timestamp)) [
        | inr found ↦ found
        | inl none_found ↦ absurd (ground (arith, full, none_found))
      ]

  module _ (takes_all : (n : ℕ) → sender.accepts n ≡ true) where
    pub transmit_ok :
        (m : Message F) (lane : Lane F R T)
        → connected lane.ctx ≡ true
        → transmit sender m lane ≡ (record lane { wire = lane.wire ++ m ∷ [] }, true)
    unfolding transmit send
    transmit_ok m lane up = rw (up, takes_all (length lane.wire)) refl

    pub notify_ok :
        (minimal : Bool) (id : ℕ) (hash : List ℕ) (timestamp now : ℕ) (params : List (Json F))
        (lane : Lane F R T)
        → connected lane.ctx ≡ true
        → job_params sender lane.mining.use_big_job lane.ctx.remote_app id hash timestamp
          ≡ some params
        → notify sender minimal id hash timestamp now lane ≡ record lane {
          wire = lane.wire ++ notify_message sender minimal id params ∷ [];
          ctx = mark_job_sent now lane.ctx;
        }
    unfolding notify
    notify_ok minimal id hash timestamp now params lane up given =
        rw (given, transmit_ok (notify_message sender minimal id params) lane up, notify) refl

    -- A message and then a job, whose form depends on the rig's name.
    pub told_ok :
        (m : Message F) (test : List ℕ → Bool) (id : ℕ) (hash : List ℕ) (timestamp now : ℕ)
        (params : List (Json F)) (lane : Lane F R T)
        → connected lane.ctx ≡ true
        → job_params sender lane.mining.use_big_job lane.ctx.remote_app id hash timestamp
          ≡ some params
        → let t = transmit sender m lane in
          (if t.1 then notify sender (test t.0.ctx.remote_app) id hash timestamp now t.0 else t.0)
          ≡ record lane {
            wire = lane.wire ++ m ∷ notify_message sender (test lane.ctx.remote_app) id params ∷ [];
            ctx = mark_job_sent now lane.ctx;
          }
    told_ok m test id hash timestamp now params lane up given =
        let minimal = test lane.ctx.remote_app in
        rw (transmit_ok m lane up) (
          notify_ok minimal id hash timestamp now params
            (record lane { wire = lane.wire ++ m ∷ [] }) up given
          ∙ ap (λ w. record lane { wire = w; ctx = mark_job_sent now lane.ctx })
              (append_assoc lane.wire (m ∷ []) (notify_message sender minimal id params ∷ [])))
