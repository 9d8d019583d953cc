-- ===== src/Guard/BlockSubmit/Invariant.antt =====
-- Every marked hash is queued, and the memory stays bounded.
use solo_dual_mode.Prelude.{
  ℕ, suc, ◌≤◌, ◌≡◌, refl, List, [], ◌∷◌, arith, Key, Option-cases, inl, inr,
}
use solo_dual_mode.Prelude.Dict.{
  get, size, insert-IsDict, remove-IsDict, size-insert, size-remove-le,
}
use solo_dual_mode.Prelude.Fifo.{Covers-push, Covers-remove}
use solo_dual_mode.Guard.Loops.{Sound, drop_stale-Sound, drop_excess-Sound, drop_excess-le}
use solo_dual_mode.Guard.BlockSubmit.{BlockSubmitGuard, instant, new, prune, mark, try_mark, remove}

-- The hashes marked are distinct, and each is queued.
abbrev pub IsValid : {K : Type 0} ⦃key : Key K⦄ → BlockSubmitGuard K → Type 0
IsValid g = Sound g.order g.entries

pub data Call (K : Type 0) : Type 0 where
  marks : K → Call K
  removes : K → Call K

module _ {K : Type 0} ⦃key : Key K⦄ where
  pub prune-IsValid : (g : BlockSubmitGuard K) (now : ℕ) → IsValid g → IsValid (prune g now)
  unfolding prune
  prune-IsValid g now v =
      drop_excess-Sound g.max_entries _ _ (drop_stale-Sound instant g.ttl now g.order g.entries v)

  size-prune-le :
      (g : BlockSubmitGuard K) (now : ℕ) → IsValid g → size (prune g now).entries ≤ g.max_entries
  unfolding prune
  size-prune-le g now v =
      drop_excess-le g.max_entries _ _ (drop_stale-Sound instant g.ttl now g.order g.entries v)

  mark-IsValid : (g : BlockSubmitGuard K) (k : K) (now : ℕ) → IsValid g → IsValid (mark g k now).0
  unfolding mark
  mark-IsValid g k now v = elim (Option-cases (get k g.entries)) [
    | inr (ts, old) ↦ rw (old, mark) v
    | inl fresh ↦
        rw (fresh, mark)
          (record {
            distinct = insert-IsDict k now g.entries v.distinct;
            covered = Covers-push k now g.order g.entries v.covered;
          })
  ]

  remove-IsValid : (g : BlockSubmitGuard K) (k : K) (now : ℕ) → IsValid g → IsValid (remove g k now)
  unfolding remove
  remove-IsValid g k now v =
      let g' = prune g now in
      let v' = prune-IsValid g now v in
      record {
        distinct = remove-IsDict k g'.entries v'.distinct;
        covered = Covers-remove k g'.order g'.entries v'.covered;
      }

  unfoldable pub step : ℕ × Call K → BlockSubmitGuard K → BlockSubmitGuard K
  step (now, marks k) g = (try_mark g k now).0
  step (now, removes k) g = remove g k now

  unfoldable pub run : List (ℕ × Call K) → BlockSubmitGuard K → BlockSubmitGuard K
  run [] g = g
  run (c ∷ cs) g = run cs (step c g)

  pub step-IsValid : (c : ℕ × Call K) (g : BlockSubmitGuard K) → IsValid g → IsValid (step c g)
  unfolding step try_mark
  step-IsValid (now, marks k) g v = mark-IsValid (prune g now) k now (prune-IsValid g now v)
  step-IsValid (now, removes k) g v = remove-IsValid g k now v

  pub step_limits :
      (c : ℕ × Call K) (g : BlockSubmitGuard K)
      → ((step c g).max_entries ≡ g.max_entries) × ((step c g).ttl ≡ g.ttl)
  unfolding step try_mark mark remove prune
  step_limits (now, marks k) g = ground arith
  step_limits (now, removes k) g = ground arith

  mark-size :
      (g : BlockSubmitGuard K) (k : K) (now : ℕ)
      → size (mark g k now).0.entries ≤ suc (size g.entries)
  unfolding mark
  mark-size g k now = ground (arith, size-insert k now g.entries)

  step-size :
      (c : ℕ × Call K) (g : BlockSubmitGuard K)
      → IsValid g
      → size (step c g).entries ≤ suc g.max_entries
  unfolding step try_mark remove
  step-size (now, marks k) g v = omega (arith, size-prune-le g now v, mark-size (prune g now) k now)
  step-size (now, removes k) g v =
      omega (arith, size-prune-le g now v, size-remove-le k (prune g now).entries)

  run_bounded :
      (cs : List (ℕ × Call K)) (g : BlockSubmitGuard K)
      → IsValid g
      → size g.entries ≤ suc g.max_entries
      → IsValid (run cs g) × (size (run cs g).entries ≤ suc g.max_entries)
  unfolding run
  run_bounded [] g v small = (v, small)
  run_bounded (c ∷ cs) g v small =
      let same = (step_limits c g).0 in
      let (v', small') =
        run_bounded cs (step c g) (step-IsValid c g v) (rw same (step-size c g v)) in
      (v', omega arith)

  -- After any sequence of timed marks and removals of a new guard, the marked hashes are distinct,
  -- each of them is queued, and there are at most one more of them than the limit.
  pub run-new-IsValid :
      (ttl max_entries : ℕ) (cs : List (ℕ × Call K))
      → let g = run cs (new ttl max_entries) in IsValid g × (size g.entries ≤ suc max_entries)
  unfolding new
  run-new-IsValid ttl max_entries cs =
      run_bounded cs (new ttl max_entries) (record { distinct = tt; covered = refl }) (omega arith)
