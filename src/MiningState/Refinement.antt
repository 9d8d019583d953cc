-- ===== src/MiningState/Refinement.antt =====
-- Every history of calls on a connection's job state, against the list of the published jobs.
use solo_dual_mode.Prelude.{
  ℕ, suc, ◌+◌, ◌%◌, ◌^◌, ◌≤◌, ◌<◌, ◌≡◌, refl, ◌∙◌, true, Bool, List, All, [], ◌∷◌, Option, none,
  some, arith, ite, nat_key, length, ltb, lt→ltb,
}
use solo_dual_mode.Prelude.Dict.{Dict, get, insert, values, get-insert, get-remove}
use solo_dual_mode.MiningState.{
  MiningState, max_jobs, new, add_job, store_job, record_diff, get_job, get_job_diff,
  set_stratum_diff, set_big_diff, set_initialized, set_use_big_job, set_last_header,
}
use solo_dual_mode.MiningState.Ring.{History, retained, slot_entry, exact-slot_entry}

-- The calls that change the state.
pub data Call (J D H : Type 0) : Type 0 where
  adds : J → Call J D H
  assigns : D → Call J D H
  targets : ℕ → Call J D H
  initializes : Bool → Call J D H
  enlarges : Bool → Call J D H
  notes : H → Call J D H

-- What was published, and the difficulty in force.
pub record Published (J D : Type 0) : Type 0 where
  pub history : History J D
  pub current : Option D

module _ {J D H : Type 0} where
  unfoldable pub step : Call J D H → MiningState J D H → Option (MiningState J D H)
  step (adds job) s = elim (add_job s job) [ none ↦ none | some (id, s') ↦ some s' ]
  step (assigns diff) s = some (set_stratum_diff s diff)
  step (targets diff) s = some (set_big_diff s diff)
  step (initializes b) s = some (set_initialized s b)
  step (enlarges b) s = some (set_use_big_job s b)
  step (notes header) s = some (set_last_header s header)

  unfoldable pub run : List (Call J D H) → MiningState J D H → Option (MiningState J D H)
  run [] s = some s
  run (c ∷ cs) s = elim (step c s) [ none ↦ none | some s' ↦ run cs s' ]

  unfoldable pub publish : Call J D H → Published J D → Published J D
  publish (adds job) p = record p { history = (job, p.current) ∷ p.history }
  publish (assigns diff) p = record p { current = some diff }
  publish (targets diff) p = p
  publish (initializes b) p = p
  publish (enlarges b) p = p
  publish (notes header) p = p

  unfoldable pub publish_all : List (Call J D H) → Published J D → Published J D
  publish_all [] p = p
  publish_all (c ∷ cs) p = publish_all cs (publish c p)

module _ {J D : Type 0} where
  abbrev pub entry_id : Option (ℕ × J × Option D) → Option ℕ
  entry_id none = none
  entry_id (some (i, j, d)) = some i

  abbrev pub entry_job : Option (ℕ × J × Option D) → Option J
  entry_job none = none
  entry_job (some (i, j, d)) = some j

  abbrev pub entry_diff : Option (ℕ × J × Option D) → Option D
  entry_diff none = none
  entry_diff (some (i, j, d)) = d

  -- The job, and the difficulty, of a retained entry.
  abbrev pub job_of : Option (J × Option D) → Option J
  job_of none = none
  job_of (some (j, d)) = some j

  abbrev pub diff_of : Option (J × Option D) → Option D
  diff_of none = none
  diff_of (some (j, d)) = d

-- Each slot of the three maps holds the newest published job that falls into it.
pub record Tracks {J D H : Type 0} (s : MiningState J D H) (p : Published J D) : Type 0 where
  pub counted : s.job_counter ≡ length p.history
  pub assigned : s.stratum_diff ≡ p.current
  pub bounded : All (λ v. v ≤ length p.history) (values s.job_ids)
  pub ids : (k : ℕ) → get k s.job_ids ≡ entry_id (slot_entry p.history k)
  pub stored : (k : ℕ) → get k s.jobs ≡ entry_job (slot_entry p.history k)
  pub diffs : (k : ℕ) → get k s.job_diffs ≡ entry_diff (slot_entry p.history k)

abbrev pub nothing : {J D : Type 0} → Published J D
nothing = record { history = []; current = none }

get-record_diff :
    {D : Type 0} (o : Option D) (slot k : ℕ) (diffs : Dict ℕ D)
    → get k (record_diff o slot diffs) ≡ ite (nat_key.dec slot k) o (get k diffs)
get-record_diff none slot k diffs = get-remove slot k diffs
get-record_diff (some d) slot k diffs = get-insert slot k d diffs

at_most_mono : {m n : ℕ} (xs : List ℕ) → m ≤ n → All (λ v. v ≤ m) xs → All (λ v. v ≤ n) xs
at_most_mono [] h a = tt
at_most_mono (x ∷ xs) h a = (omega arith, at_most_mono xs h a.1)

values-insert :
    (n k v : ℕ) (d : Dict ℕ ℕ)
    → v ≤ n
    → All (λ v. v ≤ n) (values d)
    → All (λ v. v ≤ n) (values (insert k v d))
unfolding insert
values-insert n k v [] h a = (h, tt)
values-insert n k v ((j, w) ∷ d) h a = ground (arith, values-insert n k v d h a.1)

module _ {J D H : Type 0} where
  pub new-Tracks : (now : ℕ) → Tracks {H = H} (new now) (nothing {J = J} {D = D})
  unfolding new get slot_entry
  new-Tracks now = record {
    counted = refl;
    assigned = refl;
    bounded = tt;
    ids = λ k. refl;
    stored = λ k. refl;
    diffs = λ k. refl;
  }

  store_job-Tracks :
      (s : MiningState J D H) (p : Published J D) (idx : ℕ) (job : J)
      → Tracks s p
      → idx ≡ suc (length p.history)
      → Tracks (store_job s idx job) (publish {H = H} (adds job) p)
  unfolding store_job publish slot_entry
  store_job-Tracks s p idx job t e = record {
    counted = e;
    assigned = t.assigned;
    bounded =
        values-insert _ (idx % max_jobs) idx s.job_ids (omega arith)
          (at_most_mono (values s.job_ids) (omega arith) t.bounded);
    ids = λ k. ground (arith, get-insert (idx % max_jobs) k idx s.job_ids, t.ids k);
    stored = λ k. ground (arith, get-insert (idx % max_jobs) k job s.jobs, t.stored k);
    diffs = λ k. ground (
      arith,
      get-record_diff s.stratum_diff (idx % max_jobs) k s.job_diffs,
      t.diffs k,
      t.assigned,
    );
  }

  -- The other calls leave the slots alone.
  same_slots-Tracks :
      (s s' : MiningState J D H) (p : Published J D) (current : Option D)
      → s'.job_counter ≡ s.job_counter
      → s'.jobs ≡ s.jobs
      → s'.job_ids ≡ s.job_ids
      → s'.job_diffs ≡ s.job_diffs
      → s'.stratum_diff ≡ current
      → Tracks s p
      → Tracks s' (record p { current = current })
  same_slots-Tracks s s' p current e₁ e₂ e₃ e₄ e₅ t = record {
    counted = e₁ ∙ t.counted;
    assigned = e₅;
    bounded = rw e₃ t.bounded;
    ids = λ k. rw e₃ (t.ids k);
    stored = λ k. rw e₂ (t.stored k);
    diffs = λ k. rw e₄ (t.diffs k);
  }

  step-Tracks :
      (c : Call J D H) (s : MiningState J D H) (p : Published J D)
      → Tracks s p
      → length (publish c p).history < 2 ^ 64
      → (s' : MiningState J D H) × (step c s ≡ some s') × Tracks s' (publish c p)
  unfolding step publish add_job set_stratum_diff set_big_diff set_initialized set_use_big_job
      set_last_header
  step-Tracks (adds job) s p t bound =
      let idx = s.job_counter + 1 in
      let next : idx ≡ suc (length p.history) = omega (arith, t.counted) in
      let small : ltb idx (2 ^ 64) ≡ true = lt→ltb _ _ (omega arith) in
      (store_job s idx job, rw (small, add_job, step), store_job-Tracks s p idx job t next)
  step-Tracks (assigns diff) s p t bound =
      (_, refl, same_slots-Tracks s _ p _ refl refl refl refl refl t)
  step-Tracks (targets diff) s p t bound =
      (_, refl, same_slots-Tracks s _ p _ refl refl refl refl t.assigned t)
  step-Tracks (initializes b) s p t bound =
      (_, refl, same_slots-Tracks s _ p _ refl refl refl refl t.assigned t)
  step-Tracks (enlarges b) s p t bound =
      (_, refl, same_slots-Tracks s _ p _ refl refl refl refl t.assigned t)
  step-Tracks (notes header) s p t bound =
      (_, refl, same_slots-Tracks s _ p _ refl refl refl refl t.assigned t)

  publish_all-grows :
      (cs : List (Call J D H)) (p : Published J D)
      → length p.history ≤ length (publish_all cs p).history
  unfolding publish publish_all
  publish_all-grows [] p = omega arith
  publish_all-grows (adds job ∷ cs) p = omega (arith, publish_all-grows cs (publish (adds job) p))
  publish_all-grows (c ∷ cs) p = omega (arith, publish_all-grows cs (publish c p))

  pub run-Tracks :
      (cs : List (Call J D H)) (s : MiningState J D H) (p : Published J D)
      → Tracks s p
      → length (publish_all cs p).history < 2 ^ 64
      → (s' : MiningState J D H) × (run cs s ≡ some s') × Tracks s' (publish_all cs p)
  unfolding run publish_all
  run-Tracks [] s p t bound = (s, refl, t)
  run-Tracks (c ∷ cs) s p t bound =
      let (s', stepped, t') =
        step-Tracks c s p t (omega (arith, publish_all-grows cs (publish c p))) in
      let (s'', ran, t'') = run-Tracks cs s' (publish c p) t' bound in
      (s'', rw (stepped, run) ran, t'')

module _ {J D H : Type 0} (s : MiningState J D H) (p : Published J D) (t : Tracks s p) where
  pub get_job-retained : (id : ℕ) → get_job s id ≡ job_of (retained p.history id)
  unfolding get_job
  get_job-retained id =
      ground (arith, t.ids (id % max_jobs), t.stored (id % max_jobs), exact-slot_entry p.history id)

  pub get_job_diff-retained : (id : ℕ) → get_job_diff s id ≡ diff_of (retained p.history id)
  unfolding get_job_diff
  get_job_diff-retained id =
      ground (arith, t.ids (id % max_jobs), t.diffs (id % max_jobs), exact-slot_entry p.history id)
