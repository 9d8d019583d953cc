-- ===== src/Submit/Handle/Outcome.antt =====
-- What a submission amounts to: how it is counted, and what a repetition of it is told.
use solo_dual_mode.Prelude.{
  ℕ, suc, ◌≡◌, refl, ◌∙◌, ap, subst, false, Option, none, some, Key, inl, inr, Option-cases,
  Bool-cases, if◌then◌else◌,
}
use solo_dual_mode.Guard.DuplicateSubmit
use solo_dual_mode.Guard.DuplicateSubmit.{
  DuplicateSubmitGuard, DuplicateSubmitOutcome, low_diff, in_flight, set_outcome, check,
}
use solo_dual_mode.MiningState.{Job, get_job}
use solo_dual_mode.Submit.Walk.Total.{walk-total}
use solo_dual_mode.Chain.{Block}
use solo_dual_mode.Submit.{Shares, share_credited, low_difficulty}
use solo_dual_mode.Submit.Settle.{
  Context, Verdict, valid_share, stale_block, bad_block, one_invalid, count_in, conclude,
}
use solo_dual_mode.Submit.Walk.{Walked, walk, job_diff, max_compat_job_attempts}
use solo_dual_mode.Submit.Accounts.{counts, own, Accounts, count_in-lem, refused-lem, emit_if-lem}
use solo_dual_mode.Submit.Accounts.Loop.{WalkedFrom, walk-Accounts}
use solo_dual_mode.Submit.Handle.{
  Reply, success, job_not_found, low_difficulty_share, unknown_problem, reply_again, credit,
  refuse_weak, finish, judge, submit_once, hash_of, diff_of, one_found, one_found_overall,
}

-- The counters after a submission that got a reply: shares found, stale and invalid.
unfoldable pub tally : Reply → ℕ × ℕ × ℕ → ℕ × ℕ × ℕ
tally success (f, s, i) = (suc f, s, i)
tally job_not_found (f, s, i) = (f, suc s, i)
tally low_difficulty_share (f, s, i) = (f, s, suc i)
tally unknown_problem (f, s, i) = (f, s, suc i)
tally _ n = n

-- The outcome that the guard keeps for a reply.
unfoldable pub kept : Reply → DuplicateSubmitOutcome
kept success = DuplicateSubmit.accepted
kept job_not_found = DuplicateSubmit.stale
kept low_difficulty_share = low_diff
kept _ = DuplicateSubmit.bad

module _ {F N K R T Hash : Type 0} ⦃name : Key N⦄ ⦃submission : Key K⦄ ⦃hash : Key Hash⦄
    (ctx : Context F N K R T Hash) (k : K) where
  pub record Judged (s s' : Shares F N K R T Hash) (reply : Reply) : Type 0 where
    pub guard : s'.guard ≡ set_outcome s.guard k ctx.done_at (kept reply)
    pub overall : counts s'.overall ≡ tally reply (counts s.overall)
    pub worker : counts (own ctx s'.stats) ≡ tally reply (counts (own ctx s.stats))
    pub answered : reply_again (kept reply) ≡ reply

  refuse_weak-Judged :
      (s : Shares F N K R T Hash) → Judged s (refuse_weak ctx k s).0 (refuse_weak ctx k s).1
  unfolding refuse_weak conclude tally kept reply_again
  refuse_weak-Judged s =
      let (worker, guard, overall) = refused-lem ctx k low_difficulty one_invalid s in
      record {
        guard = ap (λ g. set_outcome g k ctx.done_at low_diff) guard;
        overall = ap counts overall;
        worker = ap counts worker;
        answered = refl;
      }

  credit-Judged :
      (id : ℕ) (s : Shares F N K R T Hash) → Judged s (credit ctx k id s).0 (credit ctx k id s).1
  unfolding credit conclude tally kept reply_again
  credit-Judged id s =
      let diff = job_diff ctx id in
      let one = one_found ctx (hash_of ctx.float diff) in
      let all = one_found_overall ctx in
      let assigned = diff_of ctx.float diff in
      let (worker, guard, overall) = count_in-lem ctx k one all s in
      let (stats', guard', overall') =
        emit_if-lem ctx k (if ctx.identity_ok then ctx.difficulty_ok assigned else false)
          (share_credited assigned) (count_in ctx one all s) in
      record {
        guard = ap (λ g. set_outcome g k ctx.done_at DuplicateSubmit.accepted) (guard' ∙ guard);
        overall = ap counts (overall' ∙ overall);
        worker = ap counts (ap (own ctx) stats' ∙ worker);
        answered = refl;
      }

  Judged-after :
      (s t s' : Shares F N K R T Hash) (reply : Reply)
      → Accounts ctx k s t none
      → Judged t s' reply
      → Judged s s' reply
  Judged-after s t s' reply a j = record {
    guard = j.guard ∙ ap (λ g. set_outcome g k ctx.done_at (kept reply)) a.guard;
    overall = j.overall ∙ ap (tally reply) a.overall;
    worker = j.worker ∙ ap (tally reply) a.worker;
    answered = j.answered;
  }

  refused-Judged :
      (s t : Shares F N K R T Hash)
      → Accounts ctx k s t (some stale_block)
      → Judged s t job_not_found
  unfolding tally kept reply_again
  refused-Judged s t a = record {
    guard = a.guard;
    overall = a.overall;
    worker = a.worker;
    answered = refl;
  }

  failed-Judged :
      (s t : Shares F N K R T Hash)
      → Accounts ctx k s t (some bad_block)
      → Judged s t unknown_problem
  unfolding tally kept reply_again
  failed-Judged s t a = record {
    guard = a.guard;
    overall = a.overall;
    worker = a.worker;
    answered = refl;
  }

  finish-Judged :
      (s : Shares F N K R T Hash) (w : Walked F N K R T Hash) (verdict : Option Verdict)
      → w.verdict ≡ verdict
      → Accounts ctx k s w.shares verdict
      → Judged s (finish ctx k w).0 (finish ctx k w).1
  unfolding finish
  finish-Judged s w (some stale_block) e a = rw (e, finish) (refused-Judged s w.shares a)
  finish-Judged s w (some bad_block) e a = rw (e, finish) (failed-Judged s w.shares a)
  finish-Judged s w (some valid_share) e a =
      rw (e, finish)
        (Judged-after s w.shares _ _
          (record { guard = a.guard; overall = a.overall; worker = a.worker })
          (credit-Judged w.current_job_id w.shares))
  finish-Judged s w none e a = elim (Bool-cases w.invalid_share) [
    | inl weak ↦ rw (e, weak, finish) (Judged-after s w.shares _ _ a (refuse_weak-Judged w.shares))
    | inr good ↦
        rw (e, good, finish)
          (Judged-after s w.shares _ _ a (credit-Judged w.current_job_id w.shares))
  ]

  abbrev JudgedAs : Shares F N K R T Hash → Option (Shares F N K R T Hash × Reply) → Type 0
  JudgedAs s none = Unit
  JudgedAs s (some (s', reply)) = Judged s s' reply

  judge-Judged :
      (nonce job_id : ℕ) (job : Job (Block R T) Hash) (s : Shares F N K R T Hash)
      → JudgedAs s (judge ctx k nonce job_id job s)
  unfolding judge
  judge-Judged nonce job_id job s =
      let a = walk-Accounts ctx k nonce max_compat_job_attempts s job_id 0 job_id job false in
      elim (Option-cases (walk ctx k nonce max_compat_job_attempts s job_id 0 job_id job false)) [
        | inl panic ↦ rw (panic, judge) tt
        | inr (w, walked) ↦
            rw (walked, judge)
              (finish-Judged s w w.verdict refl (subst (WalkedFrom ctx k s) walked a))
      ]

  -- The handler decides every submission of a stored job, without a panic and within the loop's
  -- bound, and counts it exactly once, for the worker and for all workers, as the reply says: as
  -- found if it is accepted, as stale if its block was sent before, and as invalid otherwise; and
  -- the duplicate guard keeps the outcome that stands for the same reply. No job may have the
  -- number 0.
  pub judge_once :
      (nonce job_id : ℕ) (job : Job (Block R T) Hash) (s : Shares F N K R T Hash)
      → get_job ctx.mining 0 ≡ none
      → get_job ctx.mining job_id ≡ some job
      → (s' : Shares F N K R T Hash) × (reply : Reply) × (judge ctx k nonce job_id job s
          ≡ some (s', reply))
        × Judged s s' reply
  unfolding judge
  judge_once nonce job_id job s no_zero held =
      let (w, walked) = walk-total ctx k nonce s job_id job no_zero held in
      let result = finish ctx k w in
      let e : judge ctx k nonce job_id job s ≡ some result = rw (walked, judge) refl in
      (result.0, result.1, e, subst (JudgedAs s) e (judge-Judged nonce job_id job s))

  pub submit_once-new :
      (nonce job_id : ℕ) (job : Job (Block R T) Hash) (s : Shares F N K R T Hash)
      → (check s.guard k ctx.checked_at).1 ≡ none
      → submit_once ctx k nonce job_id job s
        ≡ judge ctx k nonce job_id job (record s { guard = (check s.guard k ctx.checked_at).0 })
  unfolding submit_once
  submit_once-new nonce job_id job s fresh = rw (fresh, submit_once) refl

  pub submit_once-known :
      (nonce job_id : ℕ) (job : Job (Block R T) Hash) (s : Shares F N K R T Hash)
      (outcome : DuplicateSubmitOutcome)
      → (check s.guard k ctx.checked_at).1 ≡ some outcome
      → submit_once ctx k nonce job_id job s
        ≡ some (record s { guard = (check s.guard k ctx.checked_at).0 }, reply_again outcome)
  unfolding submit_once
  submit_once-known nonce job_id job s outcome seen = rw (seen, submit_once) refl
