-- ===== src/Submit/Accounts/Loop.antt =====
-- The booking of one attempt and of the whole loop.
use solo_dual_mode.Prelude.{
  ℕ, zero, suc, ◌+◌, ◌-◌, ◌/◌, ltb, ◌≡◌, refl, ◌∙◌, ap, subst, Bool, true, false, Option, none,
  some, Key, inl, inr, Option-cases, Bool-cases, leb, ◌==◌, if◌then◌else◌,
}
use solo_dual_mode.MiningState.{Job}
use solo_dual_mode.Chain.{Block, with_nonce}
use solo_dual_mode.Api.{submit_block, submit_parent_then_claim_zkas}
use solo_dual_mode.Submit.{Shares, emit_if, refresh_job, disconnect, block_found, emit}
use solo_dual_mode.Submit.Settle.{Context, Verdict, valid_share, announce, block_hash, mint, settle}
use solo_dual_mode.Submit.Walk.Search.{proceed}
use solo_dual_mode.Submit.Walk.{
  Walked, decided, Previous, stop, underflow, try, walk, weigh, pool_target, attempt, previous,
}
use solo_dual_mode.Submit.Accounts.{
  booked, noted, Accounts, Accounts-after, report-Accounts, emit_if-lem,
}

module _ {F N K R T Hash : Type 0} ⦃name : Key N⦄ ⦃submission : Key K⦄ ⦃hash : Key Hash⦄
    (ctx : Context F N K R T Hash) (k : K) where
  -- The booking of a result that is no panic.
  abbrev Booked : Shares F N K R T Hash → Option (Shares F N K R T Hash × Option Verdict) → Type 0
  Booked s none = Unit
  Booked s (some (s', verdict)) = Accounts ctx k s s' verdict

  announce-lem :
      (job_block block : Block R T) (s : Shares F N K R T Hash)
      → let s' = announce ctx job_block block s in
        (s'.stats ≡ s.stats) × (s'.guard ≡ s.guard) × (s'.overall ≡ s.overall)
  unfolding announce
  announce-lem job_block block s =
      let age = (ctx.current_time_ms - job_block.header.timestamp) / 1000 in
      let fresh = emit refresh_job s in
      let (a, b, c) = emit_if-lem ctx k (ltb 10 age) disconnect fresh in
      let (a', b', c') =
        emit_if-lem ctx k ctx.identity_ok (block_found (block_hash ctx s.api job_block block))
          (emit_if (ltb 10 age) disconnect fresh) in
      (a' ∙ a, b' ∙ b, c' ∙ c)

  Booked-after :
      (s t : Shares F N K R T Hash) (o : Option (Shares F N K R T Hash × Option Verdict))
      → t.stats ≡ s.stats
      → t.guard ≡ s.guard
      → t.overall ≡ s.overall
      → Booked t o
      → Booked s o
  Booked-after s t none stats guard overall b = tt
  Booked-after s t (some (s', verdict)) stats guard overall b =
      Accounts-after ctx k s t s' verdict stats guard overall b

  mint-Booked :
      (job_block block : Block R T) (s : Shares F N K R T Hash)
      → Booked s (decided (mint ctx k job_block block s))
  unfolding mint
  mint-Booked job_block block s =
      let t = announce ctx job_block block s in
      let (stats, guard, overall) = announce-lem job_block block s in
      elim (Option-cases
        (submit_block ctx.consensus ctx.node t.api block ctx.sent_at ctx.failed_at)) [
          | inl panic ↦ rw (panic, mint) tt
          | inr ((api, result), sent) ↦
              rw (sent, mint)
                (Accounts-after ctx k s (record t { api = api }) _ _ stats guard overall
                  (report-Accounts ctx k (block_hash ctx s.api job_block block) result
                    (record t { api = api })))
        ]

  settle-Booked :
      (job_block : Block R T) (nonce : ℕ) (meets : Bool) (s : Shares F N K R T Hash)
      → Booked s (decided (settle ctx k job_block nonce meets s))
  unfolding settle
  settle-Booked job_block nonce false s = record { guard = refl; overall = refl; worker = refl }
  settle-Booked job_block nonce true s =
      let block = with_nonce nonce job_block in
      let (api, outcome, claimed) =
        submit_parent_then_claim_zkas ctx.consensus ctx.node s.api block job_block true in
      elim (Bool-cases claimed) [
        | inr lost ↦ rw (lost, settle) (record { guard = refl; overall = refl; worker = refl })
        | inl won ↦
            rw (won, settle)
              (Booked-after s (record s { api = api }) _ refl refl refl
                (mint-Booked job_block block (record s { api = api })))
      ]

  pool-Accounts :
      (s : Shares F N K R T Hash) (b : Bool)
      → Accounts ctx k s s (if b then some valid_share else none)
  pool-Accounts s true = record { guard = refl; overall = refl; worker = refl }
  pool-Accounts s false = record { guard = refl; overall = refl; worker = refl }

  attempt-Booked :
      (nonce id : ℕ) (job : Job (Block R T) Hash) (s : Shares F N K R T Hash)
      → Booked s (attempt ctx k nonce s id job)
  unfolding attempt
  attempt-Booked nonce id job s =
      let (value, meets, solved) = weigh ctx s.api job.block nonce in
      elim (Bool-cases solved) [
        | inl is_block ↦ rw (is_block, attempt) (settle-Booked job.block nonce meets s)
        | inr is_share ↦ rw (is_share, attempt) (pool-Accounts s (leb value (pool_target ctx id)))
      ]

  abbrev pub WalkedFrom : Shares F N K R T Hash → Option (Walked F N K R T Hash) → Type 0
  WalkedFrom s none = Unit
  WalkedFrom s (some w) = Accounts ctx k s w.shares w.verdict

  WalkedFrom-after :
      (s t : Shares F N K R T Hash) (o : Option (Walked F N K R T Hash))
      → Accounts ctx k s t none
      → WalkedFrom t o
      → WalkedFrom s o
  WalkedFrom-after s t none a w = tt
  WalkedFrom-after s t (some w) a b = record {
    guard = b.guard ∙ ap (noted ctx k w.verdict) a.guard;
    overall = b.overall ∙ ap (booked w.verdict) a.overall;
    worker = b.worker ∙ ap (booked w.verdict) a.worker;
  }

  proceed-Accounts :
      (nonce fuel : ℕ) (s : Shares F N K R T Hash) (job_id attempts current : ℕ)
      (job : Job (Block R T) Hash) (invalid : Bool) (p : Previous (Job (Block R T) Hash))
      → ((prev : Job (Block R T) Hash)
          → WalkedFrom s (walk ctx k nonce fuel s job_id (attempts + 1) (current - 1) prev invalid))
      → WalkedFrom s (proceed ctx k nonce fuel s job_id attempts current job invalid p)
  proceed-Accounts nonce fuel s job_id attempts current job invalid stop rest = record {
    guard = refl;
    overall = refl;
    worker = refl;
  }
  proceed-Accounts nonce fuel s job_id attempts current job invalid underflow rest = tt
  proceed-Accounts nonce fuel s job_id attempts current job invalid (try prev) rest = rest prev

  pub walk-Accounts :
      (nonce fuel : ℕ) (s : Shares F N K R T Hash) (job_id attempts current : ℕ)
      (job : Job (Block R T) Hash) (invalid : Bool)
      → WalkedFrom s (walk ctx k nonce fuel s job_id attempts current job invalid)
  unfolding walk
  walk-Accounts nonce zero s job_id attempts current job invalid = tt
  walk-Accounts nonce (suc fuel) s job_id attempts current job invalid =
      let a = attempt-Booked nonce current job s in
      elim (Option-cases (attempt ctx k nonce s current job)) [
        | inl panic ↦ rw (panic, walk) tt
        | inr ((s', some verdict), done) ↦ rw (done, walk) (subst (Booked s) done a)
        | inr ((s', none), missed) ↦
            rw (missed, walk)
              (WalkedFrom-after s s' _ (subst (Booked s) missed a) (
                proceed-Accounts nonce fuel s' job_id attempts current job
                  (if current == job_id then true else invalid)
                  (previous ctx job_id attempts current)
                  (λ prev.
                    walk-Accounts nonce fuel s' job_id (attempts + 1) (current - 1) prev
                      (if current == job_id then true else invalid))))
      ]
