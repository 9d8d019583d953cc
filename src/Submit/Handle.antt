-- ===== src/Submit/Handle.antt =====
-- The whole of `handle_submit`, from the request to the reply.
pub mod Outcome
pub mod Again
pub mod Total
use solo_dual_mode.Prelude.{
  ℕ, suc, ◌+◌, Bool, true, false, List, [], ◌∷◌, Option, none, some, Key, ltb, leb, length,
  get_elem?, if◌then◌else◌,
}
use solo_dual_mode.MiningState.{Job, get_job, latest_job}
use solo_dual_mode.Guard.DuplicateSubmit
use solo_dual_mode.Guard.DuplicateSubmit.{DuplicateSubmitOutcome, in_flight, low_diff, check}
use solo_dual_mode.Chain.{Block}
use solo_dual_mode.Submit.{
  Difficulty, WorkStats, Shares, share_credited, missing_job, malformed_frame, low_difficulty,
  emit_if,
}
use solo_dual_mode.Submit.Text.{Value, string, parse_job_id, remove_0x, final_nonce, from_str_radix}
use solo_dual_mode.Submit.Settle.{
  Float, Context, Verdict, valid_share, stale_block, bad_block, one_invalid, count_in, reject_share,
  conclude,
}
use solo_dual_mode.Submit.Walk.{Walked, walk, job_diff, max_compat_job_attempts}

-- What the miner is told: success, an error code of the protocol, or the error that the handler
-- returns. A low difficulty is reported only to a request with an identifier.
pub data Reply : Type 0 where
  success job_not_found low_difficulty_share unknown_problem : Reply
  malformed_event bad_job_id job_does_not_exist bad_nonce : Reply

-- The reply to a submission that was seen before.
unfoldable pub reply_again : DuplicateSubmitOutcome → Reply
reply_again DuplicateSubmit.accepted = success
reply_again in_flight = success
reply_again DuplicateSubmit.stale = job_not_found
reply_again low_diff = low_difficulty_share
reply_again DuplicateSubmit.bad = unknown_problem

-- The nonce is the fifth parameter of a long request and the third of a short one.
unfoldable pub nonce_param : List Value → Option (List ℕ)
nonce_param params = elim (get_elem? params (if leb 5 (length params) then 4 else 2)) [
  | none ↦ none
  | some (string text) ↦ some text
  | some _ ↦ none
]

abbrev pub diff_of : {F : Type 0} → Float F → Option (Difficulty F) → F
diff_of float none = float.zero_value
diff_of float (some diff) = diff.diff_value

abbrev pub hash_of : {F : Type 0} → Float F → Option (Difficulty F) → F
hash_of float none = float.zero_value
hash_of float (some diff) = diff.hash_value

module _ {F N K R T Hash : Type 0} (ctx : Context F N K R T Hash) where
  -- The job of a number, or the newest stored one.
  unfoldable pub find_job : ℕ → Option (ℕ × Job (Block R T) Hash)
  find_job job_id = elim (get_job ctx.mining job_id) [
    | some job ↦ some (job_id, job)
    | none ↦ latest_job ctx.mining
  ]

  -- The counters of a valid share of a given weight.
  abbrev pub one_found : F → WorkStats F → WorkStats F
  one_found hash_value stats = record stats {
    shares_found = suc stats.shares_found;
    var_diff_shares_found = suc stats.var_diff_shares_found;
    shares_diff = ctx.float.add stats.shares_diff hash_value;
    last_share = ctx.done_at;
  }

  abbrev pub one_found_overall : WorkStats F → WorkStats F
  one_found_overall stats = record stats { shares_found = suc stats.shares_found }

module _ {F N K R T Hash : Type 0} ⦃name : Key N⦄ ⦃submission : Key K⦄ ⦃hash : Key Hash⦄
    (ctx : Context F N K R T Hash) where
  unfoldable pub refuse_weak : K → Shares F N K R T Hash → Shares F N K R T Hash × Reply
  refuse_weak k s =
      let s' = reject_share ctx low_difficulty (count_in ctx one_invalid one_invalid s) in
      (conclude ctx k low_diff s', low_difficulty_share)

  -- The share counts with the difficulty of the job that decided.
  unfoldable pub credit : K → ℕ → Shares F N K R T Hash → Shares F N K R T Hash × Reply
  credit k id s =
      let diff = job_diff ctx id in
      let s' = count_in ctx (one_found ctx (hash_of ctx.float diff)) (one_found_overall ctx) s in
      let assigned = diff_of ctx.float diff in
      let s'' =
        emit_if (if ctx.identity_ok then ctx.difficulty_ok assigned else false)
          (share_credited assigned) s' in
      (conclude ctx k DuplicateSubmit.accepted s'', success)

  -- What follows the loop. A refused block has been counted and answered in the loop.
  unfoldable pub finish : K → Walked F N K R T Hash → Shares F N K R T Hash × Reply
  finish k w = elim w.verdict [
    | some stale_block ↦ (w.shares, job_not_found)
    | some bad_block ↦ (w.shares, unknown_problem)
    | some valid_share ↦ credit k w.current_job_id w.shares
    | none ↦ if w.invalid_share then refuse_weak k w.shares else credit k w.current_job_id w.shares
  ]

  -- A submission that is seen for the first time. `none` is a panic.
  unfoldable pub judge :
      K
      → ℕ
      → ℕ
      → Job (Block R T) Hash
      → Shares F N K R T Hash
      → Option (Shares F N K R T Hash × Reply)
  judge k nonce job_id job s =
      elim (walk ctx k nonce max_compat_job_attempts s job_id 0 job_id job false) [
        | none ↦ none
        | some walked ↦ some (finish k walked)
      ]

  -- The duplicate check. A submission that is known gets its answer again.
  unfoldable pub submit_once :
      K
      → ℕ
      → ℕ
      → Job (Block R T) Hash
      → Shares F N K R T Hash
      → Option (Shares F N K R T Hash × Reply)
  submit_once k nonce job_id job s =
      let (guard, seen) = check s.guard k ctx.checked_at in
      let s' = record s { guard = guard } in
      elim seen [
        | some outcome ↦ some (s', reply_again outcome)
        | none ↦ judge k nonce job_id job s'
      ]

  -- The nonce of a request for a job. `none` is a panic.
  unfoldable pub submit_nonce :
      List Value
      → ℕ × Job (Block R T) Hash
      → Shares F N K R T Hash
      → Option (Shares F N K R T Hash × Reply)
  submit_nonce params found s = elim (nonce_param params) [
    | none ↦ some (s, bad_nonce)
    | some text ↦ elim (final_nonce ctx.extranonce (remove_0x text)) [
      | none ↦ none
      | some final_nonce_str ↦ elim (from_str_radix final_nonce_str 16) [
        | none ↦ some (s, bad_nonce)
        | some nonce ↦ submit_once (ctx.submit_key found.0 final_nonce_str) nonce found.0 found.1 s
      ]
    ]
  ]

  unfoldable pub handle_submit :
      List Value → Shares F N K R T Hash → Option (Shares F N K R T Hash × Reply)
  handle_submit params s =
      if ltb (length params) 3
      then some (reject_share ctx malformed_frame s, malformed_event)
      else elim (get_elem? params 1) [
        | none ↦ none
        | some value ↦ elim (parse_job_id value) [
          | none ↦ some (s, bad_job_id)
          | some job_id ↦ elim (find_job ctx job_id) [
            | none ↦ some (reject_share ctx missing_job s, job_does_not_exist)
            | some found ↦ submit_nonce params found s
          ]
        ]
      ]
