-- ===== src/Guard/DuplicateSubmit/Invariant.antt =====
-- The queue and the map of the guard stay in step, and the memory stays bounded.
use solo_dual_mode.Prelude.{
  ℕ, suc, ◌≤◌, ◌≡◌, refl, List, [], ◌∷◌, arith, length, length-append, Key, Option-cases, inl, inr,
}
use solo_dual_mode.Prelude.Dict.{get, size, insert-IsDict, size-insert}
use solo_dual_mode.Prelude.Fifo.{Covers-push, Covers-overwrite}
use solo_dual_mode.Guard.Loops.{
  Sound, drop_stale-Sound, drop_stale-size, drop_excess-Sound, drop_excess-size, drop_excess-le,
}
use solo_dual_mode.Guard.DuplicateSubmit.{
  DuplicateSubmitGuard, DuplicateSubmitOutcome, in_flight, ts_of, outcome_of, new, prune, lookup,
  push_inflight, insert_inflight, overwrite, set_outcome, check,
}

-- Each entry has its key in the queue exactly once.
pub record IsValid {K : Type 0} ⦃key : Key K⦄ (g : DuplicateSubmitGuard K) : Type 0 where
  pub sound : Sound g.order g.entries
  pub synced : length g.order ≡ size g.entries

-- Calls on the guard with the time of each.
pub data Call (K : Type 0) : Type 0 where
  checks : K → Call K
  settles : K → DuplicateSubmitOutcome → Call K

module _ {K : Type 0} ⦃key : Key K⦄ where
  pub prune-IsValid : (g : DuplicateSubmitGuard K) (now : ℕ) → IsValid g → IsValid (prune g now)
  unfolding prune
  prune-IsValid g now v =
      let s = drop_stale-Sound ts_of g.ttl now g.order g.entries v.sound in
      let e = drop_stale-size ts_of g.ttl now g.order g.entries v.sound v.synced in
      record {
        sound = drop_excess-Sound g.max_entries _ _ s;
        synced = drop_excess-size g.max_entries _ _ s e;
      }

  pub size-prune-le :
      (g : DuplicateSubmitGuard K) (now : ℕ)
      → IsValid g
      → size (prune g now).entries ≤ g.max_entries
  unfolding prune
  size-prune-le g now v =
      drop_excess-le g.max_entries _ _ (drop_stale-Sound ts_of g.ttl now g.order g.entries v.sound)

  pub prune_max : (g : DuplicateSubmitGuard K) (now : ℕ) → (prune g now).max_entries ≡ g.max_entries
  unfolding prune
  prune_max g now = refl

  pub prune_ttl : (g : DuplicateSubmitGuard K) (now : ℕ) → (prune g now).ttl ≡ g.ttl
  unfolding prune
  prune_ttl g now = refl

  push_inflight-IsValid :
      (g : DuplicateSubmitGuard K) (k : K) (now : ℕ) → IsValid g → IsValid (push_inflight g k now)
  unfolding push_inflight
  push_inflight-IsValid g k now v = elim (Option-cases (get k g.entries)) [
    | inl fresh ↦
        rw (fresh, push_inflight)
          (record {
            sound = record {
              distinct = insert-IsDict k _ g.entries v.sound.distinct;
              covered = Covers-push k _ g.order g.entries v.sound.covered;
            };
            synced = ground (
              arith,
              length-append g.order (k ∷ []),
              size-insert k (record { ts = now; outcome = in_flight }) g.entries,
              v.synced,
            );
          })
    | inr (e, old) ↦ rw (old, push_inflight) v
  ]

  overwrite-IsValid :
      (g : DuplicateSubmitGuard K) (k : K) (now : ℕ) (outcome : DuplicateSubmitOutcome)
      → IsValid g
      → IsValid (overwrite g k now outcome)
  unfolding overwrite
  overwrite-IsValid g k now outcome v = elim (Option-cases (get k g.entries)) [
    | inl fresh ↦ rw (fresh, overwrite) v
    | inr (e, old) ↦
        rw (old, overwrite)
          (record {
            sound = record {
              distinct = insert-IsDict k _ g.entries v.sound.distinct;
              covered = Covers-overwrite k _ e g.order g.entries old v.sound.covered;
            };
            synced =
                ground (
                  arith,
                  size-insert k (record { ts = now; outcome = outcome }) g.entries,
                  v.synced,
                );
          })
  ]

  pub check-IsValid :
      (g : DuplicateSubmitGuard K) (k : K) (now : ℕ) → IsValid g → IsValid (check g k now).0
  unfolding check lookup insert_inflight
  check-IsValid g k now v =
      let v' = prune-IsValid g now v in
      let v'' = push_inflight-IsValid (prune (prune g now) now) k now (prune-IsValid _ now v') in
      elim (Option-cases (outcome_of (get k (prune g now).entries))) [
        | inl fresh ↦ rw (fresh, check) v''
        | inr (o, seen) ↦ rw (seen, check) v'
      ]

  pub set_outcome-IsValid :
      (g : DuplicateSubmitGuard K) (k : K) (now : ℕ) (outcome : DuplicateSubmitOutcome)
      → IsValid g
      → IsValid (set_outcome g k now outcome)
  unfolding set_outcome
  set_outcome-IsValid g k now outcome v =
      overwrite-IsValid (prune g now) k now outcome (prune-IsValid g now v)

  unfoldable pub step : ℕ × Call K → DuplicateSubmitGuard K → DuplicateSubmitGuard K
  step (now, checks k) g = (check g k now).0
  step (now, settles k outcome) g = set_outcome g k now outcome

  unfoldable pub run : List (ℕ × Call K) → DuplicateSubmitGuard K → DuplicateSubmitGuard K
  run [] g = g
  run (c ∷ cs) g = run cs (step c g)

  pub step-IsValid : (c : ℕ × Call K) (g : DuplicateSubmitGuard K) → IsValid g → IsValid (step c g)
  unfolding step
  step-IsValid (now, checks k) g v = check-IsValid g k now v
  step-IsValid (now, settles k outcome) g v = set_outcome-IsValid g k now outcome v

  -- The limits never change.
  pub step_limits :
      (c : ℕ × Call K) (g : DuplicateSubmitGuard K)
      → ((step c g).max_entries ≡ g.max_entries) × ((step c g).ttl ≡ g.ttl)
  unfolding step check lookup insert_inflight push_inflight set_outcome overwrite prune
  step_limits (now, checks k) g = ground arith
  step_limits (now, settles k outcome) g = ground arith

  push_inflight-size :
      (g : DuplicateSubmitGuard K) (k : K) (now : ℕ)
      → size (push_inflight g k now).entries ≤ suc (size g.entries)
  unfolding push_inflight
  push_inflight-size g k now =
      ground (arith, size-insert k (record { ts = now; outcome = in_flight }) g.entries)

  overwrite-size :
      (g : DuplicateSubmitGuard K) (k : K) (now : ℕ) (outcome : DuplicateSubmitOutcome)
      → size (overwrite g k now outcome).entries ≡ size g.entries
  unfolding overwrite
  overwrite-size g k now outcome =
      ground (arith, size-insert k (record { ts = now; outcome = outcome }) g.entries)

  -- Each call leaves at most one entry above the limit.
  step-size :
      (c : ℕ × Call K) (g : DuplicateSubmitGuard K)
      → IsValid g
      → size (step c g).entries ≤ suc g.max_entries
  unfolding step check lookup insert_inflight set_outcome
  step-size (now, checks k) g v =
      let g' = prune g now in
      ground (
        arith,
        size-prune-le g now v,
        size-prune-le g' now (prune-IsValid g now v),
        prune_max g now,
        push_inflight-size (prune g' now) k now,
      )
  step-size (now, settles k outcome) g v =
      ground (arith, size-prune-le g now v, overwrite-size (prune g now) k now outcome)

  run_bounded :
      (cs : List (ℕ × Call K)) (g : DuplicateSubmitGuard K)
      → IsValid g
      → size g.entries ≤ suc g.max_entries
      → IsValid (run cs g) × (size (run cs g).entries ≤ suc g.max_entries)
  unfolding run
  run_bounded [] g v small = (v, small)
  run_bounded (c ∷ cs) g v small =
      let same = (step_limits c g).0 in
      let (v', small') =
        run_bounded cs (step c g) (step-IsValid c g v) (rw same (step-size c g v)) in
      (v', omega arith)

  -- After any sequence of timed checks and settlements of a new guard, the queue holds exactly the
  -- keys of the map, once each, and there are at most one more of them than the limit.
  pub run-new-bounded :
      (ttl max_entries : ℕ) (cs : List (ℕ × Call K))
      → let g = run cs (new ttl max_entries) in
        IsValid g × (size g.entries ≤ suc max_entries) × (length g.order ≤ suc max_entries)
  unfolding new
  run-new-bounded ttl max_entries cs =
      let (v, small) =
        run_bounded cs (new ttl max_entries)
          (record { sound = record { distinct = tt; covered = refl }; synced = refl })
          (omega arith) in
      (v, small, omega (arith, v.synced))
