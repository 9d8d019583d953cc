-- ===== src/Submit/Handle/Again.antt =====
-- A submission that is repeated.
use solo_dual_mode.Prelude.{ℕ, ◌+◌, ◌≤◌, ◌<◌, ◌≡◌, ◌∙◌, ap, List, ◌∷◌, none, some, Key, arith, All}
use solo_dual_mode.Guard.DuplicateSubmit.{DuplicateSubmitOutcome, in_flight, check}
use solo_dual_mode.Guard.DuplicateSubmit.Invariant.{IsValid, Call, settles, run, step}
use solo_dual_mode.Guard.DuplicateSubmit.Once.{settled_all, checks_in, check_once}
use solo_dual_mode.Guard.DuplicateSubmit.Memory.{settled}
use solo_dual_mode.MiningState.{Job, get_job}
use solo_dual_mode.Chain.{Block}
use solo_dual_mode.Submit.{Shares}
use solo_dual_mode.Submit.Settle.{Context}
use solo_dual_mode.Submit.Handle.{Reply, submit_once}
use solo_dual_mode.Submit.Handle.Outcome.{kept, judge_once, submit_once-new, submit_once-known}

settled_self :
    {K : Type 0} ⦃key : Key K⦄ (k : K) (o now : DuplicateSubmitOutcome)
    → settled k (settles k o) now ≡ o
settled_self k o now = ground arith

module _ {F N K R T Hash : Type 0} ⦃name : Key N⦄ ⦃submission : Key K⦄ ⦃hash : Key Hash⦄
    (ctx later : Context F N K R T Hash) (k : K) where
  -- A submission that is new to a valid guard is judged, and when it is repeated within the guard's
  -- time to live it gets the same reply again and changes nothing but the guard, which is pruned:
  -- whatever other submissions the guard has seen in between, within that time and fewer than its
  -- limit, as long as no settlement of this one changes its outcome.
  pub submit_again :
      (nonce job_id : ℕ) (job : Job (Block R T) Hash) (s : Shares F N K R T Hash)
      (cs : List (ℕ × Call K))
      → IsValid s.guard
      → (check s.guard k ctx.checked_at).1 ≡ none
      → get_job ctx.mining 0 ≡ none
      → get_job ctx.mining job_id ≡ some job
      → ctx.checked_at ≤ ctx.done_at
      → ctx.done_at ≤ ctx.checked_at + s.guard.ttl
      → later.checked_at ≤ ctx.checked_at + s.guard.ttl
      → All (λ c. (ctx.checked_at ≤ c.0) × (c.0 ≤ ctx.checked_at + s.guard.ttl)) cs
      → checks_in cs < s.guard.max_entries
      → ((o : DuplicateSubmitOutcome) → settled_all k cs o ≡ o)
      → (s' : Shares F N K R T Hash) × (reply : Reply) × (submit_once ctx k nonce job_id job s
          ≡ some (s', reply))
        × ((t : Shares F N K R T Hash)
            → t.guard ≡ run cs s'.guard
            → submit_once later k nonce job_id job t
              ≡ some (record t { guard = (check t.guard k later.checked_at).0 }, reply))
  unfolding run step settled_all checks_in
  submit_again nonce job_id job s cs valid fresh no_zero held order done live times few same =
      let first = (check s.guard k ctx.checked_at).0 in
      let (s', reply, judged, j) =
        judge_once ctx k nonce job_id job (record s { guard = first }) no_zero held in
      let mine : ℕ × Call K = (ctx.done_at, settles k (kept reply)) in
      let seen =
        check_once s.guard k ctx.checked_at later.checked_at (mine ∷ cs) valid fresh
          ((order, done), times) (omega (arith, few)) live in
      let outcome =
        ap (settled_all k cs) (settled_self k (kept reply) in_flight) ∙ same (kept reply) in
      (
        s',
        reply,
        submit_once-new ctx k nonce job_id job s fresh ∙ judged,
        λ t e.
            let replayed : t.guard ≡ run (mine ∷ cs) first = e ∙ ap (run cs) j.guard in
            let known : (check t.guard k later.checked_at).1 ≡ some (kept reply) =
              ap (λ g. (check g k later.checked_at).1) replayed ∙ seen ∙ ap some outcome in
            submit_once-known later k nonce job_id job t (kept reply) known
            ∙ ap (λ r. some (record t { guard = (check t.guard k later.checked_at).0 }, r))
                j.answered,
      )
