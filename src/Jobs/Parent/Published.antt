-- ===== src/Jobs/Parent/Published.antt =====
-- What a refresh that ends does to the gate and the permit.
use solo_dual_mode.Prelude.{
  ℕ, ◌≡◌, refl, ap, Bool, true, false, List, Option, none, some, arith, if◌then◌else◌, Bool-cases,
  Option-cases, inl, inr,
}
use solo_dual_mode.Miner.{is_iceriver}
use solo_dual_mode.Chain.{Block, committed_h_fc}
use solo_dual_mode.MiningState.{Job, add_job, latest_job}
use solo_dual_mode.Session.{StratumContext, mark_job_sent, mark_parent_job_sent}
use solo_dual_mode.Jobs.{Sender, Lane, job_params, notify_message, transmit}
use solo_dual_mode.Jobs.Parent.{
  Parents, Refresher, is_free, publish_parent, offer_parent, finish_refresh,
}
use solo_dual_mode.Jobs.Parent.Gate.{gate, transmit_same}

-- The gate after a publication, or after none.
abbrev pub gate_after : ℕ → Bool → StratumContext → List ℕ × Option ℕ
gate_after now sent ctx = (ctx.remote_app, if sent then some now else ctx.last_parent_job_at)

module _ {F R T Hash : Type 0} (sender : Sender F R T) (parents : Parents R T Hash) where
  publish_gate :
      (now : ℕ) (parent : Block R T) (hash : List ℕ) (lane : Lane F R T)
      → let p = publish_parent sender parents now parent hash lane in
        gate p.0.ctx ≡ gate_after now p.1 lane.ctx
  unfolding publish_parent mark_job_sent mark_parent_job_sent
  publish_gate now parent hash lane =
      let job : Job (Block R T) (List ℕ) = record { block = parent; pre_pow_hash = hash } in
      elim (Option-cases (add_job lane.mining job)) [
        | inl full ↦ rw (full, publish_parent) refl
        | inr ((id, mining), added) ↦
            let stored : Lane F R T = record lane { mining = mining } in
            elim (Option-cases (
              job_params sender mining.use_big_job lane.ctx.remote_app id hash
                parent.header.timestamp)) [
                  | inl refused ↦ rw (added, refused, publish_parent) refl
                  | inr (params, given) ↦
                      let m = notify_message sender (is_iceriver lane.ctx.remote_app) id params in
                      let same = transmit_same sender m stored in
                      elim (Bool-cases (transmit sender m stored).1) [
                        | inl sent ↦
                            rw (added, given, sent, publish_parent)
                              (ap (λ ctx. (ctx.remote_app, some now)) same)
                        | inr kept ↦ rw (added, given, kept, publish_parent) (ap gate same)
                      ]
                ]
      ]

  offer_gate :
      (now : ℕ) (expected : Option Hash) (parent : Block R T) (lane : Lane F R T)
      → let p = offer_parent sender parents now expected parent lane in
        gate p.0.ctx ≡ gate_after now p.1 lane.ctx
  unfolding offer_parent
  offer_gate now expected parent lane = elim (Option-cases (latest_job lane.mining)) [
    | inl none_stored ↦ rw (none_stored, offer_parent) refl
    | inr ((id, job), known) ↦ elim (Option-cases (sender.serialize parent)) [
      | inl refused ↦ rw (known, refused, offer_parent) refl
      | inr (hash, written) ↦
          elim (Bool-cases (parents.same (committed_h_fc parents.consensus job.block) expected)) [
            | inl current ↦
                rw (known, written, current, offer_parent) (publish_gate now parent hash lane)
            | inr obsolete ↦ rw (known, written, obsolete, offer_parent) refl
          ]
    ]
  ]

  pub finish_gate :
      (now : ℕ) (free : Bool) (r : Refresher F R T Hash)
      → let p = finish_refresh sender parents now free r in
        (gate p.0.lane.ctx ≡ gate_after now p.1 r.lane.ctx)
        × (p.0.pending ≡ none)
        × (p.1 ≡ true → is_free r.pending ≡ false)
  unfolding finish_refresh
  finish_gate now free r = elim (Option-cases r.pending) [
    | inl idle ↦ rw (idle, finish_refresh) (refl, idle, λ h. absurd (ground (arith, h)))
    | inr ((old, expected), held) ↦
        let payee = if parents.paid_pool old then none else r.lane.kas_payout in
        elim (Option-cases (parents.refresh old payee)) [
          | inl error ↦ rw (held, error, finish_refresh) (refl, refl, λ h. refl)
          | inr (answer, answered) ↦ elim (Option-cases answer) [
            | inl nothing ↦ rw (held, answered, nothing, finish_refresh) (refl, refl, λ h. refl)
            | inr (parent, found) ↦ elim (Bool-cases free) [
              | inl unlocked ↦
                  rw (held, answered, found, unlocked, finish_refresh)
                    (offer_gate now expected parent r.lane, refl, λ h. refl)
              | inr shut ↦ rw (held, answered, found, shut, finish_refresh) (refl, refl, λ h. refl)
            ]
          ]
        ]
  ]
