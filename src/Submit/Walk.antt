-- ===== src/Submit/Walk.antt =====
-- The loop of `handle_submit`: the nonce is tried on the job that the miner named and, while it is
-- not good enough, on the jobs before it, since some rigs name a wrong job.
pub mod Search
pub mod Total
use solo_dual_mode.Prelude.{
  ℕ, zero, suc, ◌+◌, ◌-◌, ◌%◌, Bool, true, false, ◌&&◌, ◌||◌, Option, none, some, Key, leb, ◌==◌,
  if◌then◌else◌,
}
use solo_dual_mode.MiningState.{Job, MiningState, max_jobs, get_job, get_job_diff}
use solo_dual_mode.Chain.{Header, Block, with_nonce, calculate_target}
use solo_dual_mode.Api.{KaspaApi, merged_fc_target}
use solo_dual_mode.Submit.{Difficulty, Shares}
use solo_dual_mode.Submit.Settle.{Context, Verdict, valid_share, settle}

abbrev pub max_compat_job_attempts : ℕ
max_compat_job_attempts = 8

-- The variables of the loop when it ends. `verdict` is what decided it, or `none` if the loop ran
-- out of jobs.
pub record Walked (F N K R T Hash : Type 0) : Type 0 where
  pub shares : Shares F N K R T Hash
  pub current_job_id : ℕ
  pub current_job : Job (Block R T) Hash
  pub invalid_share : Bool
  pub verdict : Option Verdict

-- What the loop does after a job that did not decide.
pub data Previous (J : Type 0) : Type 0 where
  stop underflow : Previous J
  try : J → Previous J

-- A verdict of the branch for a solved block, as one of the loop.
abbrev pub decided :
    {F N K R T Hash : Type 0}
    → Option (Shares F N K R T Hash × Verdict)
    → Option (Shares F N K R T Hash × Option Verdict)
decided none = none
decided (some (s, verdict)) = some (s, some verdict)

abbrev pub difficulty_target : {F : Type 0} → Option (Difficulty F) → ℕ
difficulty_target none = 0
difficulty_target (some diff) = diff.target_value

module _ {F N K R T Hash : Type 0} (ctx : Context F N K R T Hash) where
  -- The difficulty of a job, or else the one in force.
  unfoldable pub job_diff : ℕ → Option (Difficulty F)
  job_diff id = elim (get_job_diff ctx.mining id) [
    | some diff ↦ some diff
    | none ↦ ctx.mining.stratum_diff
  ]

  unfoldable pub pool_target : ℕ → ℕ
  unfolding job_diff
  pool_target id = difficulty_target (job_diff id)

  -- The test that ends the search at job 1 and when it has come around the slots.
  unfoldable pub is_exhausted : ℕ → ℕ → Bool
  is_exhausted job_id current =
      (current == 1) || ((current % max_jobs) == (((job_id % max_jobs) + 1) % max_jobs))

  -- The number before a 0 is a panic.
  unfoldable pub previous : ℕ → ℕ → ℕ → Previous (Job (Block R T) Hash)
  previous job_id attempts current = elim (is_exhausted job_id current) [
    | true ↦ stop
    | false ↦ elim (leb max_compat_job_attempts (attempts + 1)) [
      | true ↦ stop
      | false ↦ elim (current == 0) [
        | true ↦ underflow
        | false ↦ elim (get_job ctx.mining (current - 1)) [
          | none ↦ stop
          | some prev_job ↦ try prev_job
        ]
      ]
    ]
  ]

module _ {F N K R T Hash : Type 0} ⦃hash : Key Hash⦄ (ctx : Context F N K R T Hash) where
  -- Whether the job is merged-mined, and the target of the chain that pays it.
  unfoldable pub network_target : KaspaApi R T Hash → Block R T → Bool × ℕ
  network_target api block = elim (merged_fc_target ctx.consensus ctx.node api block) [
    | none ↦ (false, calculate_target block.header.bits)
    | some target ↦ (true, target)
  ]

  -- The value of the nonce on a block, whether it meets the target of the chain that pays the job,
  -- and whether the solved block is to be settled.
  unfoldable pub weigh : KaspaApi R T Hash → Block R T → ℕ → ℕ × Bool × Bool
  weigh api block nonce =
      let (check_passed, pow_value) =
        ctx.consensus.check_pow (with_nonce nonce block).header nonce in
      let (merged_mode, target) = network_target api block in
      let meets_network_target = leb pow_value target in
      (pow_value, meets_network_target, meets_network_target || (merged_mode && check_passed))

module _ {F N K R T Hash : Type 0} ⦃name : Key N⦄ ⦃submission : Key K⦄ ⦃hash : Key Hash⦄
    (ctx : Context F N K R T Hash) (k : K) (nonce : ℕ) where
  -- One job: a solved block is settled, and otherwise the pool's target decides. `none` is a panic,
  -- and the verdict is `none` for a nonce that is not good enough.
  unfoldable pub attempt :
      Shares F N K R T Hash
      → ℕ
      → Job (Block R T) Hash
      → Option (Shares F N K R T Hash × Option Verdict)
  attempt s id job =
      let (pow_value, meets_network_target, solved) = weigh ctx s.api job.block nonce in
      elim solved [
        | true ↦ decided (settle ctx k job.block nonce meets_network_target s)
        | false ↦ some (s, (if leb pow_value (pool_target ctx id) then some valid_share else none))
      ]

  -- `invalid` is the variable `invalid_share`. The result is `none` for a panic and when the fuel
  -- does not suffice.
  unfoldable pub walk :
      ℕ
      → Shares F N K R T Hash
      → ℕ
      → ℕ
      → ℕ
      → Job (Block R T) Hash
      → Bool
      → Option (Walked F N K R T Hash)
  walk zero s job_id attempts current job invalid = none
  walk (suc fuel) s job_id attempts current job invalid = elim (attempt s current job) [
    | none ↦ none
    | some (s', some verdict) ↦ some (record {
      shares = s';
      current_job_id = current;
      current_job = job;
      invalid_share = false;
      verdict = some verdict;
    })
    | some (s', none) ↦
        let invalid' = if current == job_id then true else invalid in
        elim (previous ctx job_id attempts current) [
          | stop ↦ some (record {
            shares = s';
            current_job_id = current;
            current_job = job;
            invalid_share = invalid';
            verdict = none;
          })
          | underflow ↦ none
          | try prev_job ↦ walk fuel s' job_id (attempts + 1) (current - 1) prev_job invalid'
        ]
  ]
