-- ===== src/MiningState/Tests.antt =====
-- Runs of the job state at concrete inputs, and the instances of its theorems.
use solo_dual_mode.Prelude.{ℕ, ◌≡◌, refl, List, [], ◌∷◌, none, some, arith, nat_key}
use solo_dual_mode.MiningState.{MiningState, new, get_job, get_job_diff, latest_job}
use solo_dual_mode.MiningState.Ring.{retained}
use solo_dual_mode.MiningState.Refinement.{
  Call, adds, assigns, run, publish, publish_all, nothing, job_of, diff_of,
}
use solo_dual_mode.MiningState.Retention.{newest, retention}

-- A job without a difficulty, a difficulty, and two jobs.
abbrev calls : List (Call ℕ ℕ ℕ)
calls = adds 70 ∷ assigns 8192 ∷ adds 71 ∷ adds 72 ∷ []

calls_published :
    (publish_all calls nothing).history ≡ (72, some 8192) ∷ (71, some 8192) ∷ (70, none) ∷ []
unfolding publish publish_all
calls_published = refl

retention_example :
    (s : MiningState ℕ ℕ ℕ) × (run calls (new 5) ≡ some s)
    × ((id : ℕ) → get_job s id ≡ job_of (retained (publish_all calls nothing).history id))
    × ((id : ℕ) → get_job_diff s id ≡ diff_of (retained (publish_all calls nothing).history id))
    × (latest_job s ≡ newest (publish_all calls nothing).history)
unfolding publish publish_all
retention_example = retention calls 5 (omega arith)

retained_example :
    (job_of (retained (publish_all calls nothing).history 2) ≡ some 71)
    × (diff_of (retained (publish_all calls nothing).history 1) ≡ none)
    × (job_of (retained (publish_all calls nothing).history 302) ≡ none)
unfolding publish publish_all retained
retained_example = (refl, refl, refl)
