-- ===== src/Guard/DuplicateSubmit/Once.antt =====
-- A submission that was noted is recognised for the whole time to live.
use solo_dual_mode.Prelude.{
  ℕ, ◌+◌, ◌≤◌, ◌<◌, ◌≡◌, refl, ◌∙◌, List, [], ◌∷◌, none, some, arith, All, Key, Option-cases, inl,
  inr,
}
use solo_dual_mode.Prelude.Dict.{get, get-insert}
use solo_dual_mode.Prelude.Fifo.{behind-push_new, absent-behind}
use solo_dual_mode.Guard.Loops.{drop_stale-get, drop_excess-get}
use solo_dual_mode.Guard.DuplicateSubmit.{
  DuplicateSubmitGuard, DuplicateSubmitEntry, DuplicateSubmitOutcome, in_flight, ts_of, prune,
  lookup, push_inflight, insert_inflight, check,
}
use solo_dual_mode.Guard.DuplicateSubmit.Invariant.{
  IsValid, Call, checks, step, run, prune-IsValid, step-IsValid, step_limits,
}
use solo_dual_mode.Guard.DuplicateSubmit.Memory.{
  Remembers, prune-Remembers, settled, loosen, weight, step-Remembers,
}

module _ {K : Type 0} ⦃key : Key K⦄ where
  -- All that a sequence of calls does to the outcome of a key, and to the number of keys.
  unfoldable pub settled_all :
      K → List (ℕ × Call K) → DuplicateSubmitOutcome → DuplicateSubmitOutcome
  settled_all k [] o = o
  settled_all k (c ∷ cs) o = settled_all k cs (settled k c.1 o)

  unfoldable pub checks_in : List (ℕ × Call K) → ℕ
  checks_in [] = 0
  checks_in (c ∷ cs) = weight c.1 + checks_in cs

  run-Remembers :
      (cs : List (ℕ × Call K)) (g : DuplicateSubmitGuard K) (k : K) (since few : ℕ)
      (o : DuplicateSubmitOutcome)
      → IsValid g
      → All (λ c. (since ≤ c.0) × (c.0 ≤ since + g.ttl)) cs
      → few + checks_in cs < g.max_entries
      → Remembers g k since few o
      → IsValid (run cs g)
        × ((run cs g).max_entries ≡ g.max_entries)
        × ((run cs g).ttl ≡ g.ttl)
        × Remembers (run cs g) k since (few + checks_in cs) (settled_all k cs o)
  unfolding run settled_all checks_in
  run-Remembers [] g k since few o v times fits r = (v, refl, refl, loosen (omega arith) r)
  run-Remembers (c ∷ cs) g k since few o v times fits r =
      let same = step_limits c g in
      let (v', max, ttl, r') =
        run-Remembers cs (step c g) k since (few + weight c.1) (settled k c.1 o)
          (step-IsValid c g v) (rw same.1 times.1) (rw same.0 (omega (arith, fits)))
          (step-Remembers g k since few o c v times.0.0 times.0.1 (omega (arith, fits)) r) in
      (v', max ∙ same.0, ttl ∙ same.1, loosen (omega arith) r')

  pub prune-get :
      (g : DuplicateSubmitGuard K) (k : K) (now : ℕ) (e : DuplicateSubmitEntry)
      → get k (prune g now).entries ≡ some e
      → get k g.entries ≡ some e
  unfolding prune
  prune-get g k now e h =
      drop_stale-get ts_of g.ttl now k e g.order g.entries (drop_excess-get g.max_entries k e _ _ h)

  prune-get-none :
      (g : DuplicateSubmitGuard K) (k : K) (now : ℕ)
      → get k g.entries ≡ none
      → get k (prune g now).entries ≡ none
  prune-get-none g k now h = elim (Option-cases (get k (prune g now).entries)) [
    | inl gone ↦ gone
    | inr (e, left) ↦ absurd (ground (arith, prune-get g k now e left))
  ]

  push_fresh-Remembers :
      (g : DuplicateSubmitGuard K) (k : K) (now : ℕ)
      → IsValid g
      → get k g.entries ≡ none
      → Remembers (push_inflight g k now) k now 0 in_flight
  unfolding push_inflight
  push_fresh-Remembers g k now v h =
      rw (h, push_inflight)
        (record {
          at = now;
          rank = 0;
          held =
              ground (arith, get-insert k k (record { ts = now; outcome = in_flight }) g.entries);
          place =
              behind-push_new k g.order
                (absent-behind k g.order g.entries v.sound.distinct v.sound.covered v.synced h);
          recent = omega arith;
          close = omega arith;
        })

  fresh-Remembers :
      (g : DuplicateSubmitGuard K) (k : K) (now : ℕ)
      → IsValid g
      → (check g k now).1 ≡ none
      → Remembers (check g k now).0 k now 0 in_flight
  unfolding check lookup insert_inflight
  fresh-Remembers g k now v h =
      let g' = prune g now in
      elim (Option-cases (get k g'.entries)) [
        | inr (e, old) ↦ absurd (ground arith)
        | inl fresh ↦
            rw (fresh, check)
              (push_fresh-Remembers (prune g' now) k now
                (prune-IsValid g' now (prune-IsValid g now v)) (prune-get-none g' k now fresh))
      ]

  Remembers-check :
      (g : DuplicateSubmitGuard K) (k : K) (since few now : ℕ) (o : DuplicateSubmitOutcome)
      → IsValid g
      → now ≤ since + g.ttl
      → few < g.max_entries
      → Remembers g k since few o
      → (check g k now).1 ≡ some o
  unfolding check lookup
  Remembers-check g k since few now o v live fits r =
      ground (arith, (prune-Remembers g k since few now o v live fits r).held)

  -- A submission that a valid guard finds new at a time is found again by every check within the
  -- time to live, with the outcome of its last settlement in between, or as in flight if there was
  -- none: whatever other checks and settlements happen in between, within that time and fewer
  -- checks than the limit.
  pub check_once :
      (g : DuplicateSubmitGuard K) (k : K) (since now : ℕ) (cs : List (ℕ × Call K))
      → IsValid g
      → (check g k since).1 ≡ none
      → All (λ c. (since ≤ c.0) × (c.0 ≤ since + g.ttl)) cs
      → checks_in cs < g.max_entries
      → now ≤ since + g.ttl
      → (check (run cs (check g k since).0) k now).1 ≡ some (settled_all k cs in_flight)
  unfolding step
  check_once g k since now cs v h times fits live =
      let first = (check g k since).0 in
      let (max, ttl) = step_limits (since, checks k) g in
      let (v', max', ttl', r) =
        run-Remembers cs first k since 0 in_flight (step-IsValid (since, checks k) g v)
          (rw ttl times) (rw max (omega (arith, fits))) (fresh-Remembers g k since v h) in
      Remembers-check (run cs first) k since (0 + checks_in cs) now _ v' (rw (ttl', ttl) live)
        (rw (max', max) (omega (arith, fits))) r
