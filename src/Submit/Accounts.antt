-- ===== src/Submit/Accounts.antt =====
-- How one submission is booked: what each verdict does to the duplicate guard and to the counters
-- of the worker and of all workers.
pub mod Loop
use solo_dual_mode.Prelude.{
  ℕ, zero, suc, ◌+◌, ◌-◌, ◌/◌, ltb, ◌≡◌, refl, ◌∙◌, ap, subst, Bool, true, false, Option, none,
  some, Key, inl, inr, Option-cases, Bool-cases, leb, ◌==◌, if◌then◌else◌,
}
use solo_dual_mode.Prelude.Dict.{Dict, get, get-insert_self}
use solo_dual_mode.Guard.DuplicateSubmit
use solo_dual_mode.Guard.DuplicateSubmit.{DuplicateSubmitGuard, DuplicateSubmitOutcome, set_outcome}
use solo_dual_mode.MiningState.{Job}
use solo_dual_mode.Chain.{Block, with_nonce}
use solo_dual_mode.Api.{
  KaspaApi, SubmitResult, ok, err, no_pending, err_duplicate_block, failed_to_submit, submit_block,
  submit_parent_then_claim_zkas,
}
use solo_dual_mode.Api
use solo_dual_mode.Submit.{
  ShareRejectReason, WorkStats, Shares, emit_if, Effect, refresh_job, disconnect, block_found,
  share_rejected, stale, bad_pow, emit,
}
use solo_dual_mode.Submit.Settle.{
  seed_diff, new_stats, Context, Verdict, valid_share, stale_block, bad_block, one_invalid,
  one_stale, count_in, reject_share, conclude, get_create_stats, report, announce, block_hash, mint,
  settle,
}
use solo_dual_mode.Submit.Walk.Search.{proceed}
use solo_dual_mode.Submit.Walk.{
  Walked, decided, Previous, stop, underflow, try, walk, weigh, pool_target, attempt, previous,
}

-- Shares found, stale and invalid.
abbrev pub counts : {F : Type 0} → WorkStats F → ℕ × ℕ × ℕ
counts stats = (stats.shares_found, stats.stale_shares, stats.invalid_shares)

-- What a verdict of the loop books by itself: only a refused block is booked there.
abbrev pub booked : Option Verdict → ℕ × ℕ × ℕ → ℕ × ℕ × ℕ
booked (some stale_block) (f, s, i) = (f, suc s, i)
booked (some bad_block) (f, s, i) = (f, s, suc i)
booked (some valid_share) n = n
booked none n = n

module _ {F N K R T Hash : Type 0} ⦃name : Key N⦄ (ctx : Context F N K R T Hash) where
  abbrev new_worker : WorkStats F
  new_worker = seed_diff ctx.float ctx.mining.stratum_diff (new_stats ctx.float ctx.done_at)

  -- The worker's counters, which are new ones if there are none yet.
  abbrev pub own : Dict N (WorkStats F) → WorkStats F
  own stats = elim (get ctx.stats_key stats) [ some stats ↦ stats | none ↦ new_worker ]

module _ {F N K R T Hash : Type 0} ⦃name : Key N⦄ ⦃submission : Key K⦄ ⦃hash : Key Hash⦄
    (ctx : Context F N K R T Hash) (k : K) where
  abbrev pub noted : Option Verdict → DuplicateSubmitGuard K → DuplicateSubmitGuard K
  noted (some stale_block) g = set_outcome g k ctx.done_at DuplicateSubmit.stale
  noted (some bad_block) g = set_outcome g k ctx.done_at DuplicateSubmit.bad
  noted (some valid_share) g = g
  noted none g = g

  pub record Accounts (s s' : Shares F N K R T Hash) (verdict : Option Verdict) : Type 0 where
    pub guard : s'.guard ≡ noted verdict s.guard
    pub overall : counts s'.overall ≡ booked verdict (counts s.overall)
    pub worker : counts (own ctx s'.stats) ≡ booked verdict (counts (own ctx s.stats))

  own-get_create_stats :
      (s : Shares F N K R T Hash)
      → (own ctx (get_create_stats ctx s).0.stats ≡ own ctx s.stats)
        × ((get_create_stats ctx s).1 ≡ own ctx s.stats)
        × ((get_create_stats ctx s).0.guard ≡ s.guard)
        × ((get_create_stats ctx s).0.overall ≡ s.overall)
  unfolding get_create_stats
  own-get_create_stats s = elim (Option-cases (get ctx.stats_key s.stats)) [
    | inl fresh ↦
        let put = get-insert_self ctx.stats_key (new_worker ctx) s.stats in
        rw (fresh, get_create_stats, own) (rw (put, own) (refl, refl, refl, refl))
    | inr (stats, held) ↦ rw (held, get_create_stats, own) (rw (held, own) (refl, refl, refl, refl))
  ]

  pub count_in-lem :
      (one all : WorkStats F → WorkStats F) (s : Shares F N K R T Hash)
      → (own ctx (count_in ctx one all s).stats ≡ one (own ctx s.stats))
        × ((count_in ctx one all s).guard ≡ s.guard)
        × ((count_in ctx one all s).overall ≡ all s.overall)
  unfolding count_in
  count_in-lem one all s =
      let (same, value, guard, overall) = own-get_create_stats s in
      let (s', stats) = get_create_stats ctx s in
      let put = get-insert_self ctx.stats_key (one stats) s'.stats in
      (rw (put, own) (ap one value), guard, ap all overall)

  pub emit_if-lem :
      (b : Bool) (e : Effect F Hash) (s : Shares F N K R T Hash)
      → ((emit_if b e s).stats ≡ s.stats)
        × ((emit_if b e s).guard ≡ s.guard)
        × ((emit_if b e s).overall ≡ s.overall)
  emit_if-lem true e s = (refl, refl, refl)
  emit_if-lem false e s = (refl, refl, refl)

  pub refused-lem :
      (reason : ShareRejectReason) (one : WorkStats F → WorkStats F) (s : Shares F N K R T Hash)
      → let s' = reject_share ctx reason (count_in ctx one one s) in
        (own ctx s'.stats ≡ one (own ctx s.stats))
        × (s'.guard ≡ s.guard)
        × (s'.overall ≡ one s.overall)
  unfolding reject_share
  refused-lem reason one s =
      let (worker, guard, overall) = count_in-lem one one s in
      let (stats', guard', overall') =
        emit_if-lem ctx.identity_ok (share_rejected reason) (count_in ctx one one s) in
      (ap (own ctx) stats' ∙ worker, guard' ∙ guard, overall' ∙ overall)

  pub report-Accounts :
      (found : Hash) (result : SubmitResult) (s : Shares F N K R T Hash)
      → Accounts s (report ctx k found result s).0 (some (report ctx k found result s).1)
  unfolding report conclude
  report-Accounts found (ok Api.rejected_by_node) s = record {
    guard = refl;
    overall = refl;
    worker = refl;
  }
  report-Accounts found (ok Api.accepted) s =
      let (same, value, guard, overall) = own-get_create_stats s in
      record { guard = guard; overall = ap counts overall; worker = ap counts same }
  report-Accounts found (err err_duplicate_block) s =
      let (worker, guard, overall) =
        refused-lem stale one_stale (conclude ctx k DuplicateSubmit.stale s) in
      record { guard = guard; overall = ap counts overall; worker = ap counts worker }
  report-Accounts found (err no_pending) s =
      let (worker, guard, overall) = refused-lem bad_pow one_invalid s in
      record {
        guard = ap (λ g. set_outcome g k ctx.done_at DuplicateSubmit.bad) guard;
        overall = ap counts overall;
        worker = ap counts worker;
      }
  report-Accounts found (err failed_to_submit) s =
      let (worker, guard, overall) = refused-lem bad_pow one_invalid s in
      record {
        guard = ap (λ g. set_outcome g k ctx.done_at DuplicateSubmit.bad) guard;
        overall = ap counts overall;
        worker = ap counts worker;
      }

  -- A change of the effects and the chains before a verdict is not booked.
  pub Accounts-after :
      (s t s' : Shares F N K R T Hash) (verdict : Option Verdict)
      → t.stats ≡ s.stats
      → t.guard ≡ s.guard
      → t.overall ≡ s.overall
      → Accounts t s' verdict
      → Accounts s s' verdict
  Accounts-after s t s' verdict stats guard overall a = record {
    guard = a.guard ∙ ap (noted verdict) guard;
    overall = a.overall ∙ ap (λ w. booked verdict (counts w)) overall;
    worker = a.worker ∙ ap (λ w. booked verdict (counts (own ctx w))) stats;
  }
