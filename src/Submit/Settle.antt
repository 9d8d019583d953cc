-- ===== src/Submit/Settle.antt =====
-- The statistics of a submission, and the branch of `handle_submit` for a nonce that clears the
-- network's target.
use solo_dual_mode.Prelude.{
  ℕ, suc, ◌-◌, ◌/◌, Bool, true, false, not, List, Option, none, some, Key, ltb, if◌then◌else◌,
}
use solo_dual_mode.Prelude.Dict.{get, insert}
use solo_dual_mode.Guard.DuplicateSubmit
use solo_dual_mode.Guard.DuplicateSubmit.{DuplicateSubmitOutcome}
use solo_dual_mode.Chain.{Header, Block, Consensus, committed_h_fc, with_nonce}
use solo_dual_mode.Api.{
  Node, KaspaApi, SubmitResult, ok, err, err_duplicate_block, no_pending, failed_to_submit,
  submit_parent_then_claim_zkas, submit_block,
}
use solo_dual_mode.Api
use solo_dual_mode.MiningState.{Job, MiningState}
use solo_dual_mode.Submit.{
  Difficulty, WorkStats, Shares, refresh_job, disconnect, block_found, block_accepted, confirm_blue,
  share_rejected, stale, bad_pow, emit, emit_if, ShareRejectReason,
}

-- Floating-point numbers, as far as the handler computes with them.
pub record Float (F : Type 0) : Type 0 where
  pub zero_value : F
  pub add : F → F → F
  pub is_positive : F → Bool

-- What is fixed during one submission: the connection, the nodes and the times at which the clock
-- is read. `mining` holds the connection's jobs. `identity_ok` is whether the wallet and the worker are accepted as domain values, and
-- `difficulty_ok` the same for a difficulty. `submit_key` joins the worker, the job and the nonce.
pub record Context (F N K R T Hash : Type 0) : Type 0 where
  pub float : Float F
  pub consensus : Consensus R T Hash
  pub node : Node R T
  pub stats_key : N
  pub submit_key : ℕ → List ℕ → K
  pub extranonce : List ℕ
  pub mining : MiningState (Job (Block R T) Hash) (Difficulty F) (Header R)
  pub identity_ok : Bool
  pub difficulty_ok : F → Bool
  pub current_time_ms : ℕ
  pub checked_at : ℕ
  pub sent_at : ℕ
  pub failed_at : ℕ
  pub done_at : ℕ

-- How the loop over the jobs ends with a job that decides the submission.
pub data Verdict : Type 0 where
  valid_share stale_block bad_block : Verdict

module _ {F : Type 0} where
  unfoldable pub new_stats : Float F → ℕ → WorkStats F
  new_stats float now = record {
    shares_found = 0;
    shares_diff = float.zero_value;
    stale_shares = 0;
    invalid_shares = 0;
    last_share = now;
    var_diff_shares_found = 0;
    min_diff = float.zero_value;
  }

  -- A new entry shows the current difficulty, if that is positive.
  unfoldable pub seed_diff : Float F → Option (Difficulty F) → WorkStats F → WorkStats F
  seed_diff float none stats = stats
  seed_diff float (some diff) stats =
      if float.is_positive diff.diff_value
      then record stats { min_diff = diff.diff_value }
      else stats

  abbrev pub one_stale : WorkStats F → WorkStats F
  one_stale stats = record stats { stale_shares = suc stats.stale_shares }

  abbrev pub one_invalid : WorkStats F → WorkStats F
  one_invalid stats = record stats { invalid_shares = suc stats.invalid_shares }

module _ {F N K R T Hash : Type 0} ⦃name : Key N⦄ (ctx : Context F N K R T Hash) where
  unfoldable pub get_create_stats : Shares F N K R T Hash → Shares F N K R T Hash × WorkStats F
  get_create_stats s = elim (get ctx.stats_key s.stats) [
    | some stats ↦ (s, stats)
    | none ↦
        let stats = seed_diff ctx.float ctx.mining.stratum_diff (new_stats ctx.float ctx.done_at) in
        (record s { stats = insert ctx.stats_key stats s.stats }, stats)
  ]

  -- A change of the worker's counters and one of the counters of all.
  unfoldable pub count_in :
      (WorkStats F → WorkStats F)
      → (WorkStats F → WorkStats F)
      → Shares F N K R T Hash
      → Shares F N K R T Hash
  count_in one all s =
      let (s', stats) = get_create_stats s in
      record s' { stats = insert ctx.stats_key (one stats) s'.stats; overall = all s'.overall }

  unfoldable pub reject_share : ShareRejectReason → Shares F N K R T Hash → Shares F N K R T Hash
  reject_share reason s = emit_if ctx.identity_ok (share_rejected reason) s

  module _ ⦃submission : Key K⦄ where
    unfoldable pub conclude :
        K → DuplicateSubmitOutcome → Shares F N K R T Hash → Shares F N K R T Hash
    conclude k outcome s = record s {
      guard = DuplicateSubmit.set_outcome s.guard k ctx.done_at outcome;
    }

    module _ ⦃hash : Key Hash⦄ where
      -- The hash under which a block is known on the chain that pays it.
      unfoldable pub block_hash : KaspaApi R T Hash → Block R T → Block R T → Hash
      block_hash api job_block block =
          let own = ctx.consensus.header_hash block.header in
          if not api.merged_mining
          then own
          else elim (committed_h_fc ctx.consensus job_block) [ none ↦ own | some h_fc ↦ h_fc ]

      -- The match on the result of `submit_block`.
      unfoldable pub report :
          K → Hash → SubmitResult → Shares F N K R T Hash → Shares F N K R T Hash × Verdict
      report k found (ok Api.rejected_by_node) s = (s, valid_share)
      report k found (ok Api.accepted) s = (
        emit (confirm_blue found) (emit (block_accepted found) (get_create_stats s).0),
        valid_share,
      )
      report k found (err err_duplicate_block) s =
          let s' = conclude k DuplicateSubmit.stale s in
          (reject_share stale (count_in one_stale one_stale s'), stale_block)
      report k found (err failure) s =
          let s' = reject_share bad_pow (count_in one_invalid one_invalid s) in
          (conclude k DuplicateSubmit.bad s', bad_block)

      -- The job is refreshed, a rig on a template of more than ten seconds is disconnected, and the
      -- block is announced.
      unfoldable pub announce :
          Block R T → Block R T → Shares F N K R T Hash → Shares F N K R T Hash
      announce job_block block s =
          let age = (ctx.current_time_ms - job_block.header.timestamp) / 1000 in
          let kicked = emit_if (ltb 10 age) disconnect (emit refresh_job s) in
          emit_if ctx.identity_ok (block_found (block_hash s.api job_block block)) kicked

      -- A ZKas block is announced and sent.
      unfoldable pub mint :
          K
          → Block R T
          → Block R T
          → Shares F N K R T Hash
          → Option (Shares F N K R T Hash × Verdict)
      mint k job_block block s =
          let found = block_hash s.api job_block block in
          let s' = announce job_block block s in
          elim (submit_block ctx.consensus ctx.node s'.api block ctx.sent_at ctx.failed_at) [
            | none ↦ none
            | some (api, result) ↦ some (report k found result (record s' { api = api }))
          ]

      -- The branch for a solved block. A nonce that clears only the Kaspa target, and a second
      -- solution of the same ZKas block, are a share and no ZKas block.
      unfoldable pub settle :
          K
          → Block R T
          → ℕ
          → Bool
          → Shares F N K R T Hash
          → Option (Shares F N K R T Hash × Verdict)
      settle k job_block nonce meets_network_target s =
          let block = with_nonce nonce job_block in
          let (api, outcome, claimed_zkas) =
            submit_parent_then_claim_zkas ctx.consensus ctx.node s.api block job_block
              meets_network_target in
          let s' = record s { api = api } in
          elim meets_network_target [
            | false ↦ some (s', valid_share)
            | true ↦ elim claimed_zkas [
              | false ↦ some (s', valid_share)
              | true ↦ mint k job_block block s'
            ]
          ]
