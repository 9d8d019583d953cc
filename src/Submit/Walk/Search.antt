-- ===== src/Submit/Walk/Search.antt =====
-- The loop over the jobs as a search of a list: the named job and the stored jobs before it.
use solo_dual_mode.Prelude.{
  ℕ, zero, suc, ◌+◌, ◌-◌, ◌≤◌, ◌<◌, ◌≡◌, refl, ap, subst, ◌∙◌, sym, Bool, true, false, List, [],
  ◌∷◌, Option, none, some, Key, ◌==◌, if◌then◌else◌, arith, inl, inr, Option-cases, Bool-cases,
}
use solo_dual_mode.MiningState.{Job, MiningState, get_job}
use solo_dual_mode.Chain.{Block}
use solo_dual_mode.Submit.{Shares}
use solo_dual_mode.Submit.Settle.{Context}
use solo_dual_mode.Submit.Walk.{
  Walked, Previous, stop, underflow, try, previous, attempt, walk, is_exhausted,
  max_compat_job_attempts,
}

-- The jobs that the nonce may be meant for: from the given one downwards while they are stored, at
-- most `n`.
unfoldable pub candidates : {J D H : Type 0} → MiningState J D H → ℕ → ℕ → J → List (ℕ × J)
candidates mining zero id job = []
candidates mining (suc n) id job =
    (id, job)
    ∷ elim (get_job mining (id - 1)) [ none ↦ [] | some prev ↦ candidates mining n (id - 1) prev ]

-- The candidates after the first.
abbrev earlier : {J D H : Type 0} → MiningState J D H → ℕ → ℕ → List (ℕ × J)
earlier mining n id = elim (get_job mining (id - 1)) [
  | none ↦ []
  | some prev ↦ candidates mining n (id - 1) prev
]

held-positive :
    {J D H : Type 0} (mining : MiningState J D H) (id : ℕ) (job : J)
    → get_job mining 0 ≡ none
    → get_job mining id ≡ some job
    → 1 ≤ id
held-positive mining zero job no_zero held = absurd (ground (arith, no_zero, held))
held-positive mining (suc id) job no_zero held = omega arith

module _ {F N K R T Hash : Type 0} (ctx : Context F N K R T Hash) where
  -- In at most eight attempts the slots are never gone around, and job 1 has no stored job before
  -- it.
  previous-within :
      (job_id attempts current : ℕ)
      → get_job ctx.mining 0 ≡ none
      → 1 ≤ current
      → attempts + current ≡ job_id
      → attempts < 7
      → previous ctx job_id attempts current
        ≡ elim (get_job ctx.mining (current - 1)) [ none ↦ stop | some prev ↦ try prev ]
  unfolding previous is_exhausted
  previous-within job_id attempts current no_zero pos same few = elim (Bool-cases (current == 1)) [
    | inl one ↦
        let first : current - 1 ≡ 0 = ground (arith, one) in
        let gone = ap (get_job ctx.mining) first ∙ no_zero in rw gone (ground (arith, one))
    | inr more ↦ ground (arith, more, pos, same, few)
  ]

  previous-last :
      (job_id attempts current : ℕ) → attempts ≡ 7 → previous ctx job_id attempts current ≡ stop
  unfolding previous is_exhausted
  previous-last job_id attempts current seven = ground (arith, seven)

module _ {F N K R T Hash : Type 0} ⦃name : Key N⦄ ⦃submission : Key K⦄ ⦃hash : Key Hash⦄
    (ctx : Context F N K R T Hash) (k : K) (nonce : ℕ) where
  -- The first job that decides; `last` is the one before the list.
  unfoldable pub first_verdict :
      Shares F N K R T Hash
      → ℕ × Job (Block R T) Hash
      → List (ℕ × Job (Block R T) Hash)
      → Option (Walked F N K R T Hash)
  first_verdict s last [] = some (record {
    shares = s;
    current_job_id = last.0;
    current_job = last.1;
    invalid_share = true;
    verdict = none;
  })
  first_verdict s last (c ∷ cs) = elim (attempt ctx k nonce s c.0 c.1) [
    | none ↦ none
    | some (s', some verdict) ↦ some (record {
      shares = s';
      current_job_id = c.0;
      current_job = c.1;
      invalid_share = false;
      verdict = some verdict;
    })
    | some (s', none) ↦ first_verdict s' c cs
  ]

  -- The loop's last step.
  abbrev pub proceed :
      ℕ
      → Shares F N K R T Hash
      → ℕ
      → ℕ
      → ℕ
      → Job (Block R T) Hash
      → Bool
      → Previous (Job (Block R T) Hash)
      → Option (Walked F N K R T Hash)
  proceed fuel s job_id attempts current job invalid stop = some (record {
    shares = s;
    current_job_id = current;
    current_job = job;
    invalid_share = invalid;
    verdict = none;
  })
  proceed fuel s job_id attempts current job invalid underflow = none
  proceed fuel s job_id attempts current job invalid (try prev) =
      walk ctx k nonce fuel s job_id (attempts + 1) (current - 1) prev invalid

  -- The loop after a job that did not decide, if the rest of the loop is right.
  walk-on :
      (fuel : ℕ) (s : Shares F N K R T Hash) (job_id attempts current : ℕ)
      (job : Job (Block R T) Hash)
      → get_job ctx.mining 0 ≡ none
      → 1 ≤ current
      → attempts + current ≡ job_id
      → suc fuel + attempts ≡ 8
      → ((prev : Job (Block R T) Hash)
          → get_job ctx.mining (current - 1) ≡ some prev
          → 1 ≤ fuel
          → walk ctx k nonce fuel s job_id (attempts + 1) (current - 1) prev true
            ≡ first_verdict s (current, job) (candidates ctx.mining fuel (current - 1) prev))
      → proceed fuel s job_id attempts current job true (previous ctx job_id attempts current)
        ≡ first_verdict s (current, job) (earlier ctx.mining fuel current)
  unfolding candidates first_verdict
  walk-on zero s job_id attempts current job no_zero pos same fits rest =
      let ends = previous-last ctx job_id attempts current (omega (arith, fits)) in
      elim (Option-cases (get_job ctx.mining (current - 1))) [
        | inl gone ↦ rw (ends, gone, earlier, proceed, first_verdict) refl
        | inr (prev, held) ↦ rw (ends, held, earlier, proceed, first_verdict) refl
      ]
  walk-on (suc fuel) s job_id attempts current job no_zero pos same fits rest =
      let goes =
        previous-within ctx job_id attempts current no_zero pos same (omega (arith, fits)) in
      elim (Option-cases (get_job ctx.mining (current - 1))) [
        | inl gone ↦ rw (goes, gone, earlier, proceed, first_verdict) refl
        | inr (prev, held) ↦ rw (goes, held, earlier, proceed) (rest prev held (omega arith))
      ]

  walk-from :
      (fuel : ℕ) (s : Shares F N K R T Hash) (job_id attempts current : ℕ)
      (job : Job (Block R T) Hash) (invalid : Bool) (last : ℕ × Job (Block R T) Hash)
      → get_job ctx.mining 0 ≡ none
      → 1 ≤ current
      → attempts + current ≡ job_id
      → fuel + attempts ≡ 8
      → 1 ≤ fuel
      → (if current == job_id then true else invalid) ≡ true
      → walk ctx k nonce fuel s job_id attempts current job invalid
        ≡ first_verdict s last (candidates ctx.mining fuel current job)
  unfolding walk first_verdict candidates
  walk-from zero s job_id attempts current job invalid last no_zero pos same fits some_fuel flag =
      absurd (omega (arith, some_fuel))
  walk-from (suc fuel) s job_id attempts current job invalid last no_zero pos same fits some_fuel
        flag =
      elim (Option-cases (attempt ctx k nonce s current job)) [
        | inl panic ↦ rw (panic, walk, first_verdict, candidates) refl
        | inr ((s', some verdict), decided) ↦ rw (decided, walk, first_verdict, candidates) refl
        | inr ((s', none), missed) ↦
            rw (missed, walk, first_verdict, candidates)
              (subst
                (λ b.
                  proceed fuel s' job_id attempts current job b
                    (previous ctx job_id attempts current)
                  ≡ first_verdict s' (current, job) (earlier ctx.mining fuel current))
                (sym flag)
                (walk-on fuel s' job_id attempts current job no_zero pos same fits
                  (λ prev held some_more.
                    walk-from fuel s' job_id (attempts + 1) (current - 1) prev true (current, job)
                      no_zero (held-positive ctx.mining (current - 1) prev no_zero held)
                      (omega (arith, same, pos)) (omega (arith, fits)) some_more (ground arith))))
      ]

  -- With its bound of eight attempts the loop always has enough fuel and ends with the first of the
  -- candidates that decides the submission: the named job and the stored jobs before it without a
  -- gap, at most eight in all. If none decides, it ends at the last candidate with the share marked
  -- as invalid. This holds for any stored job, when no job has the number 0.
  pub walk_search :
      (s : Shares F N K R T Hash) (job_id : ℕ) (job : Job (Block R T) Hash)
      → get_job ctx.mining 0 ≡ none
      → get_job ctx.mining job_id ≡ some job
      → walk ctx k nonce max_compat_job_attempts s job_id 0 job_id job false
        ≡ first_verdict s (job_id, job) (candidates ctx.mining 8 job_id job)
  walk_search s job_id job no_zero held =
      walk-from 8 s job_id 0 job_id job false (job_id, job) no_zero
        (held-positive ctx.mining job_id job no_zero held) (omega arith) (omega arith) (omega arith)
        (ground arith)
