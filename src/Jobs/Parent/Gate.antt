-- ===== src/Jobs/Parent/Gate.antt =====
-- What the jobs of the other handlers leave as it is: the rig's name and the time of the last parent.
use solo_dual_mode.Prelude.{
  ℕ, ◌≡◌, refl, ap, ◌∙◌, Bool, true, false, ◌||◌, not, List, Option, none, some, ltb, if◌then◌else◌,
  Bool-cases, Option-cases, inl, inr,
}
use solo_dual_mode.Text.{is_empty}
use solo_dual_mode.Rpc.{Message, send}
use solo_dual_mode.Chain.{Block, calculate_target}
use solo_dual_mode.MiningState.{set_last_header, set_big_diff, add_job}
use solo_dual_mode.Session.{
  StratumContext, connected, disconnect, mark_job_sent, next_template_generation,
}
use solo_dual_mode.Jobs.{
  KaspaDiff, Template, fetched, malformed, failed, Sender, Lane, difficulty_message, diff_or,
  transmit, job_params, notify_message, notify, set_diff, initialize, fetch_template,
  store_template, restore_diff,
}
use solo_dual_mode.Jobs.Handlers.{
  readied, offer_immediate, build_immediate, send_immediate_job_to_client, recover_diff,
  change_diff, follow_diff, adjust_diff, offer_block, build_block, client_timeout, new_block,
}

abbrev pub gate : StratumContext → List ℕ × Option ℕ
gate ctx = (ctx.remote_app, ctx.last_parent_job_at)

-- What two alternatives have in common.
pub choice :
    {A B : Type 0} (f : A → B) (b : Bool) (x y : A) (z : B)
    → f x ≡ z
    → f y ≡ z
    → f (if b then x else y) ≡ z
choice f true x y z p q = p
choice f false x y z p q = q

module _ {F R T : Type 0} (sender : Sender F R T) where
  pub transmit_same :
      (m : Message F) (lane : Lane F R T) → (transmit sender m lane).0.ctx ≡ lane.ctx
  unfolding transmit
  transmit_same m lane = elim (Bool-cases (connected lane.ctx)) [
    | inr down ↦ rw (down) refl
    | inl up ↦ elim (Option-cases (send sender.accepts m lane.wire)) [
      | inl refused ↦ rw (up, refused) refl
      | inr (wire, taken) ↦ rw (up, taken) refl
    ]
  ]

  gate-notify :
      (minimal : Bool) (id : ℕ) (hash : List ℕ) (timestamp now : ℕ) (lane : Lane F R T)
      → gate (notify sender minimal id hash timestamp now lane).ctx ≡ gate lane.ctx
  unfolding mark_job_sent notify
  gate-notify minimal id hash timestamp now lane =
      elim (Option-cases
        (job_params sender lane.mining.use_big_job lane.ctx.remote_app id hash timestamp)) [
          | inl refused ↦ rw (refused, notify) refl
          | inr (params, given) ↦
              let t = transmit sender (notify_message sender minimal id params) lane in
              let same = ap gate (transmit_same (notify_message sender minimal id params) lane) in
              rw (given, notify)
                (choice (λ l. gate l.ctx) t.1 (record t.0 { ctx = mark_job_sent now t.0.ctx }) t.0 _
                  same same)
        ]

  pub stored_same :
      (block : Block R T) (lane : Lane F R T) → (store_template sender block lane).0.ctx ≡ lane.ctx
  unfolding store_template
  stored_same block lane = elim (Option-cases (sender.serialize block)) [
    | inl refused ↦ rw (refused, store_template) refl
    | inr (hash, written) ↦
        let big = set_big_diff lane.mining (calculate_target block.header.bits) in
        elim (Option-cases (add_job big (record { block = block; pre_pow_hash = hash }))) [
          | inl full ↦ rw (written, full, store_template) refl
          | inr (stored, added) ↦ rw (written, added, store_template) refl
        ]
  ]

  change_gate :
      (diff : F) (now : ℕ) (lane : Lane F R T)
      → gate (change_diff sender diff now lane).0.ctx ≡ gate lane.ctx
  unfolding change_diff
  change_gate diff now lane =
      let t = transmit sender (difficulty_message sender diff) (set_diff sender diff lane) in
      let same =
        ap gate (transmit_same (difficulty_message sender diff) (set_diff sender diff lane)) in
      choice (λ l. gate l.ctx) t.1 _ t.0 _ same same

  follow_gate :
      (now : ℕ) (lane : Lane F R T) (diff : Option (KaspaDiff F))
      → gate (follow_diff sender now lane diff).0.ctx ≡ gate lane.ctx
  unfolding recover_diff
  follow_gate now lane none = refl
  follow_gate now lane (some d) =
      let r = recover_diff sender d.diff_value now lane in
      elim (Bool-cases (sender.ops.eq r.1 d.diff_value)) [
        | inl equal ↦ rw (equal) refl
        | inr moved ↦ rw (moved) (change_gate r.1 now r.0)
      ]

  adjust_gate :
      (diff : F) (now : ℕ) (lane : Lane F R T)
      → gate (adjust_diff sender diff now lane).0.ctx ≡ gate lane.ctx
  unfolding adjust_diff initialize
  adjust_gate diff now lane =
      choice {A = Lane F R T × Bool} (λ p. gate p.0.ctx) lane.mining.initialized _ _ _
        (follow_gate now lane lane.mining.stratum_diff)
        (ap gate (transmit_same (difficulty_message sender diff) (initialize sender diff lane)))

  gate-offer_block :
      (now id : ℕ) (hash : List ℕ) (timestamp : ℕ) (lane : Lane F R T)
      → gate (offer_block sender now id hash timestamp lane).ctx ≡ gate lane.ctx
  unfolding offer_block restore_diff
  gate-offer_block now id hash timestamp lane =
      let r = restore_diff sender now lane in
      let a = adjust_diff sender r.1 now r.0 in
      let same = adjust_gate r.1 now r.0 in
      choice (λ l. gate l.ctx) a.1 _ a.0 _ (gate-notify _ id hash timestamp now a.0 ∙ same) same

  gate-build_block :
      (now : ℕ) (answer : Template (Block R T)) (lane : Lane F R T)
      → gate (build_block sender now answer lane).ctx ≡ gate lane.ctx
  unfolding build_block disconnect
  gate-build_block now failed lane = refl
  gate-build_block now malformed lane = refl
  gate-build_block now (fetched block) lane =
      let s = store_template sender block lane in
      elim (Option-cases s.1) [
        | inl none_stored ↦ rw (none_stored, build_block) (ap gate (stored_same block lane))
        | inr ((id, hash), stored) ↦
            rw (stored, build_block)
              (gate-offer_block now id hash block.header.timestamp s.0
                ∙ ap gate (stored_same block lane))
      ]

  pub gate-new_block :
      (now : ℕ) (lane : Lane F R T) → gate (new_block sender now lane).ctx ≡ gate lane.ctx
  unfolding new_block fetch_template next_template_generation disconnect
  gate-new_block now lane =
      let asked = (fetch_template sender lane).0 in
      let built : gate (build_block sender now (fetch_template sender lane).1 asked).ctx
          ≡ gate lane.ctx =
        gate-build_block now (fetch_template sender lane).1 asked in
      choice (λ l. gate l.ctx) (not (connected lane.ctx)) lane _ _ refl
        (choice (λ l. gate l.ctx) (is_empty lane.ctx.wallet_addr) _
          (build_block sender now (fetch_template sender lane).1 asked) _
          (choice (λ l. gate l.ctx) (ltb client_timeout _)
            (record lane { ctx = disconnect lane.ctx }) lane _ refl refl)
          built)

  gate-offer_immediate :
      (diff : F) (now id : ℕ) (hash : List ℕ) (timestamp : ℕ) (lane : Lane F R T)
      → gate (offer_immediate sender diff now id hash timestamp lane).ctx ≡ gate lane.ctx
  unfolding offer_immediate initialize
  gate-offer_immediate diff now id hash timestamp lane =
      let ready = readied sender diff lane in
      let m = difficulty_message sender (diff_or sender diff ready.mining.stratum_diff) in
      let t = transmit sender m ready in
      let same =
        ap gate (transmit_same m ready)
        ∙ choice (λ l. gate l.ctx) lane.mining.initialized lane (initialize sender diff lane) _ refl
            refl in
      choice (λ l. gate l.ctx) t.1 _ t.0 _ (gate-notify _ id hash timestamp now t.0 ∙ same) same

  gate-build_immediate :
      (diff : F) (now : ℕ) (answer : Template (Block R T)) (lane : Lane F R T)
      → gate (build_immediate sender diff now answer lane).ctx ≡ gate lane.ctx
  unfolding build_immediate disconnect
  gate-build_immediate diff now failed lane = refl
  gate-build_immediate diff now malformed lane = refl
  gate-build_immediate diff now (fetched block) lane =
      let seen : Lane F R T = record lane { mining = set_last_header lane.mining block.header } in
      let s = store_template sender block seen in
      elim (Option-cases s.1) [
        | inl none_stored ↦ rw (none_stored, build_immediate) (ap gate (stored_same block seen))
        | inr ((id, hash), stored) ↦
            rw (stored, build_immediate)
              (gate-offer_immediate diff now id hash block.header.timestamp s.0
                ∙ ap gate (stored_same block seen))
      ]

  pub immediate_gate :
      (now : ℕ) (lane : Lane F R T)
      → gate (send_immediate_job_to_client sender now lane).ctx ≡ gate lane.ctx
  unfolding send_immediate_job_to_client fetch_template next_template_generation restore_diff
  immediate_gate now lane =
      let r = restore_diff sender now lane in
      let f = fetch_template sender (set_diff sender r.1 r.0) in
      choice (λ l. gate l.ctx) (is_empty lane.ctx.wallet_addr || not (connected lane.ctx)) lane _ _
        refl (gate-build_immediate r.1 now f.1 f.0)
