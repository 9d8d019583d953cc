-- ===== src/MiningState/Retention.antt =====
-- What a connection can look up after any history of calls.
use solo_dual_mode.Prelude.{
  ℕ, suc, ◌%◌, ◌≤◌, ◌<◌, ◌^◌, ◌≡◌, ◌≢◌, refl, inl, inr, List, [], ◌∷◌, Option, none, some, arith,
  nat_key, length, All, Option-cases,
}
use solo_dual_mode.Prelude.Dict.{Dict, get, values}
use solo_dual_mode.MiningState.{
  MiningState, max_jobs, max_of, new, get_job, get_job_diff, latest_job,
}
use solo_dual_mode.MiningState.Ring.{History, retained, slot_entry}
use solo_dual_mode.MiningState.Refinement.{
  Call, run, publish_all, nothing, Tracks, new-Tracks, run-Tracks, job_of, diff_of,
  get_job-retained, get_job_diff-retained,
}

max_of-at_most : (n m : ℕ) (xs : List ℕ) → All (λ v. v ≤ n) xs → max_of xs ≡ some m → m ≤ n
unfolding max_of
max_of-at_most n m [] a e = absurd (ground arith)
max_of-at_most n m (x ∷ xs) a e = elim (Option-cases (max_of xs)) [
  | inl none_left ↦ ground arith
  | inr (top, some_left) ↦ ground (arith, max_of-at_most n top xs a.1 some_left)
]

get-max_of-ne_none : (k v : ℕ) (d : Dict ℕ ℕ) → get k d ≡ some v → max_of (values d) ≢ none
unfolding max_of get
get-max_of-ne_none k v [] e = absurd (ground arith)
get-max_of-ne_none k v ((j, w) ∷ d) e = ground arith

get-le-max_of : (k v m : ℕ) (d : Dict ℕ ℕ) → get k d ≡ some v → max_of (values d) ≡ some m → v ≤ m
unfolding max_of get
get-le-max_of k v m [] e f = absurd (ground arith)
get-le-max_of k v m ((j, w) ∷ d) e f = elim (Option-cases (max_of (values d))) [
  | inl none_left ↦ ground (arith, get-max_of-ne_none k v d)
  | inr (top, some_left) ↦ ground (arith, get-le-max_of k v top d)
]

max_of-eq_none : (d : Dict ℕ ℕ) → ((k : ℕ) → get k d ≡ none) → max_of (values d) ≡ none
unfolding max_of get
max_of-eq_none [] h = refl
max_of-eq_none ((j, w) ∷ d) h = absurd (ground (arith, h j))

-- The job with the highest number.
abbrev pub newest : {J D : Type 0} → History J D → Option (ℕ × J)
newest [] = none
newest ((j, d) ∷ h) = some (suc (length h), j)

module _ {J D H : Type 0} where
  latest_job-newest :
      (s : MiningState J D H) (h : History J D) (current : Option D)
      → Tracks s (record { history = h; current = current })
      → latest_job s ≡ newest h
  unfolding latest_job slot_entry retained
  latest_job-newest s [] current t = rw (max_of-eq_none s.job_ids t.ids, latest_job)
  latest_job-newest s ((j, d) ∷ h) current t =
      let n = suc (length h) in
      let held : get (n % max_jobs) s.job_ids ≡ some n = ground (arith, t.ids (n % max_jobs)) in
      let found : get_job s n ≡ some j = ground (arith, get_job-retained s _ t n) in
      elim (Option-cases (max_of (values s.job_ids))) [
        | inl empty ↦ absurd (get-max_of-ne_none (n % max_jobs) n s.job_ids held empty)
        | inr (m, top) ↦
            let same : m ≡ n = omega (
              arith,
              max_of-at_most n m (values s.job_ids) t.bounded top,
              get-le-max_of (n % max_jobs) n m s.job_ids held top,
            ) in
            ground arith
      ]

  -- After any history of calls in which fewer than 2 ^ 64 jobs are published, no call has
  -- panicked; `get_job` and `get_job_diff` answer for the last 300 published numbers with the job
  -- of that number and the difficulty in force when it was published, and for every other number
  -- with nothing; and `latest_job` is the last published job.
  pub retention :
      (cs : List (Call J D H)) (now : ℕ)
      → length (publish_all cs nothing).history < 2 ^ 64
      → (s : MiningState J D H) × (run cs (new now) ≡ some s)
        × ((id : ℕ) → get_job s id ≡ job_of (retained (publish_all cs nothing).history id))
        × ((id : ℕ) → get_job_diff s id ≡ diff_of (retained (publish_all cs nothing).history id))
        × (latest_job s ≡ newest (publish_all cs nothing).history)
  retention cs now bound =
      let (s, ran, t) = run-Tracks cs (new now) nothing (new-Tracks now) bound in
      let p = publish_all cs nothing in
      (
        s,
        ran,
        get_job-retained s p t,
        get_job_diff-retained s p t,
        latest_job-newest s p.history p.current t,
      )
