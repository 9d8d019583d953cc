-- ===== src/MiningState.antt =====
-- bridge-src/bridge/src/mining_state.rs: the jobs that one connection has been given. A job is
-- stored in the slot of its number modulo 300, beside the number itself and the difficulty that was
-- in force when it was published. Each field of the source is its own mutex; the operations take
-- them one call at a time, so a call is a function from the state to the state. `J`, `D` and `H`
-- are the job, difficulty and header types.
pub mod Ring
pub mod Refinement
pub mod Retention
mod Tests
use solo_dual_mode.Prelude.{
  ℕ, ◌+◌, ◌%◌, ◌^◌, Bool, true, false, List, [], ◌∷◌, Option, none, some, ltb, leb, if◌then◌else◌,
  ◌==◌, nat_key,
}
use solo_dual_mode.Prelude.Dict.{Dict, get, insert, remove, values}

abbrev pub max_jobs : ℕ
max_jobs = 300

pub record Job (Block Hash : Type 0) : Type 0 where
  pub block : Block
  pub pre_pow_hash : Hash

pub record MiningState (J D H : Type 0) : Type 0 where
  pub jobs : Dict ℕ J
  pub job_ids : Dict ℕ ℕ
  pub job_diffs : Dict ℕ D
  pub job_counter : ℕ
  pub big_diff : ℕ
  pub initialized : Bool
  pub use_big_job : Bool
  pub connect_time : ℕ
  pub stratum_diff : Option D
  pub job_limit : ℕ
  pub last_header : Option H

-- The greatest number of a list.
unfoldable pub max_of : List ℕ → Option ℕ
max_of [] = none
max_of (x ∷ xs) = elim (max_of xs) [ none ↦ some x | some m ↦ some (if leb x m then m else x) ]

-- The difficulty map after a job goes to a slot: the current difficulty, or no entry.
abbrev pub record_diff : {D : Type 0} → Option D → ℕ → Dict ℕ D → Dict ℕ D
record_diff none slot diffs = remove slot diffs
record_diff (some diff) slot diffs = insert slot diff diffs

module _ {J D H : Type 0} where
  -- `connect_time` is the clock when the connection is made.
  unfoldable pub new : ℕ → MiningState J D H
  new now = record {
    jobs = [];
    job_ids = [];
    job_diffs = [];
    job_counter = 0;
    big_diff = 0;
    initialized = false;
    use_big_job = false;
    connect_time = now;
    stratum_diff = none;
    job_limit = max_jobs;
    last_header = none;
  }

  -- The job goes to the slot of its number, in the three maps.
  unfoldable pub store_job : MiningState J D H → ℕ → J → MiningState J D H
  store_job s idx job =
      let slot = idx % max_jobs in
      record s {
        job_counter = idx;
        jobs = insert slot job s.jobs;
        job_ids = insert slot idx s.job_ids;
        job_diffs = record_diff s.stratum_diff slot s.job_diffs;
      }

  -- `none` is the panic of the counter's overflow check.
  unfoldable pub add_job : MiningState J D H → J → Option (ℕ × MiningState J D H)
  add_job s job =
      let idx = s.job_counter + 1 in
      if ltb idx (2 ^ 64) then some (idx, store_job s idx job) else none

  -- Whether the slot of a number holds that very number.
  abbrev pub holds : MiningState J D H → ℕ → Bool
  holds s id = elim (get (id % max_jobs) s.job_ids) [ none ↦ false | some stored ↦ stored == id ]

  unfoldable pub get_job : MiningState J D H → ℕ → Option J
  get_job s id = if holds s id then get (id % max_jobs) s.jobs else none

  unfoldable pub get_job_id_at_slot : MiningState J D H → ℕ → Option ℕ
  get_job_id_at_slot s slot = get (slot % max_jobs) s.job_ids

  unfoldable pub get_job_diff : MiningState J D H → ℕ → Option D
  get_job_diff s id = if holds s id then get (id % max_jobs) s.job_diffs else none

  unfoldable pub get_stored_job_ids : MiningState J D H → List ℕ
  get_stored_job_ids s = values s.job_ids

  unfoldable pub latest_job : MiningState J D H → Option (ℕ × J)
  unfolding get_stored_job_ids
  latest_job s = elim (max_of (get_stored_job_ids s)) [
    | none ↦ none
    | some id ↦ elim (get_job s id) [ none ↦ none | some job ↦ some (id, job) ]
  ]

  unfoldable pub set_stratum_diff : MiningState J D H → D → MiningState J D H
  set_stratum_diff s diff = record s { stratum_diff = some diff }

  unfoldable pub set_big_diff : MiningState J D H → ℕ → MiningState J D H
  set_big_diff s diff = record s { big_diff = diff }

  unfoldable pub set_initialized : MiningState J D H → Bool → MiningState J D H
  set_initialized s b = record s { initialized = b }

  unfoldable pub set_use_big_job : MiningState J D H → Bool → MiningState J D H
  set_use_big_job s b = record s { use_big_job = b }

  unfoldable pub set_last_header : MiningState J D H → H → MiningState J D H
  set_last_header s header = record s { last_header = some header }
