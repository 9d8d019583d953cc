-- ===== src/Api.antt =====
-- bridge-src/bridge/src/kaspaapi.rs: the two chains as the share handler sees them. The state is
-- the pending ZKas blocks and the guard against a block that was sent already, which is one for the
-- whole process. The nodes' answers are the record `Node`, for the time of one call. Each call
-- adds what it sends to the list of sent blocks, in order.
pub mod Settlement
use solo_dual_mode.Prelude.{
  ℕ, Bool, true, false, not, List, [], ◌∷◌, ◌++◌, Option, none, some, Key, if◌then◌else◌,
}
use solo_dual_mode.Guard.BlockSubmit
use solo_dual_mode.Guard.BlockSubmit.{BlockSubmitGuard, try_mark}
use solo_dual_mode.Merged.Pending.{MergedPending, get_block, claim_solution}
use solo_dual_mode.Chain.{
  Header, Block, Consensus, calculate_target, committed_h_fc, assemble_aux_block,
}

pub data NodeReply : Type 0 where
  success reject transport_error : NodeReply

-- What the nodes answer to a block. The ZKas node's transport error is always reported as "Failed
-- to submit block", since `context` puts that text in front of the cause.
pub record Node (R T : Type 0) : Type 0 where
  pub kaspa_client : Option (Block R T → NodeReply)
  pub client : Block R T → NodeReply

pub data MergedParentSubmitOutcome : Type 0 where
  not_merged does_not_clear_kaspa no_kaspa_client accepted rejected transport_error :
      MergedParentSubmitOutcome

pub data BlockSubmitOutcome : Type 0 where
  accepted rejected_by_node : BlockSubmitOutcome

pub data SubmitError : Type 0 where
  -- "merged: no pending ZKas block for the solved parent (stale template)"
  no_pending : SubmitError
  -- "ErrDuplicateBlock: block already submitted"
  err_duplicate_block : SubmitError
  -- "Failed to submit block"
  failed_to_submit : SubmitError

pub data SubmitResult : Type 0 where
  ok : BlockSubmitOutcome → SubmitResult
  err : SubmitError → SubmitResult

-- A block that left for one of the two nodes.
pub data Sent (R T : Type 0) : Type 0 where
  to_kaspa to_zkas : Block R T → Sent R T

pub record KaspaApi (R T Hash : Type 0) : Type 0 where
  pub merged_mining : Bool
  pub pending_fc : MergedPending Hash (Block R T)
  pub submit_guard : BlockSubmitGuard Hash
  pub sent : List (Sent R T)

module _ {R T Hash : Type 0} ⦃key : Key Hash⦄ (c : Consensus R T Hash) (node : Node R T) where
  unfoldable pub merged_fc_target : KaspaApi R T Hash → Block R T → Option ℕ
  merged_fc_target api parent =
      if not api.merged_mining then none else elim (committed_h_fc c parent) [
        | none ↦ none
        | some h_fc ↦ elim (get_block api.pending_fc h_fc) [
          | none ↦ none
          | some fc_block ↦ some (calculate_target fc_block.header.bits)
        ]
      ]

  unfoldable pub claim_network_solution : KaspaApi R T Hash → Block R T → KaspaApi R T Hash × Bool
  claim_network_solution api job_block =
      if not api.merged_mining then (api, true) else elim (committed_h_fc c job_block) [
        | none ↦ (api, true)
        | some h_fc ↦
            let (pending, won) = claim_solution api.pending_fc h_fc in
            (record api { pending_fc = pending }, won)
      ]

  -- The answer of the Kaspa node as an outcome.
  abbrev pub parent_outcome : NodeReply → MergedParentSubmitOutcome
  parent_outcome success = accepted
  parent_outcome reject = rejected
  parent_outcome transport_error = transport_error

  unfoldable pub submit_merged_parent_if_solved :
      KaspaApi R T Hash → Block R T → KaspaApi R T Hash × MergedParentSubmitOutcome
  submit_merged_parent_if_solved api parent =
      if not api.merged_mining
      then (api, not_merged)
      else (if not (c.check_pow parent.header parent.header.nonce).0
          then (api, does_not_clear_kaspa)
          else elim node.kaspa_client [
            | none ↦ (api, no_kaspa_client)
            | some submit_block_call ↦ (
              record api { sent = api.sent ++ to_kaspa parent ∷ [] },
              parent_outcome (submit_block_call parent),
            )
          ])

  -- share_handler.rs, `submit_parent_then_claim_zkas`.
  unfoldable pub submit_parent_then_claim_zkas :
      KaspaApi R T Hash
      → Block R T
      → Block R T
      → Bool
      → KaspaApi R T Hash × MergedParentSubmitOutcome × Bool
  submit_parent_then_claim_zkas api solved_parent job_parent clears_zkas =
      let (api', outcome) = submit_merged_parent_if_solved api solved_parent in
      let (api'', won) = claim_network_solution api' job_parent in
      if clears_zkas then (api'', outcome, won) else (api', outcome, false)

  -- The block that `submit_block` sends: in merged mode the ZKas block with the proof. The outer
  -- `none` is a panic, the inner one the missing ZKas block.
  unfoldable pub block_to_send : KaspaApi R T Hash → Block R T → Option (Option (Block R T))
  block_to_send api block =
      if not api.merged_mining then some (some block) else elim (committed_h_fc c block) [
        | none ↦ some none
        | some h_fc ↦ elim (get_block api.pending_fc h_fc) [
          | none ↦ some none
          | some fc_block ↦ elim (assemble_aux_block c block fc_block) [
            | none ↦ none
            | some aux ↦ some (some aux)
          ]
        ]
      ]

  -- The call of the node on a block that is marked, and what becomes of the mark.
  unfoldable pub send_marked : KaspaApi R T Hash → Block R T → ℕ → KaspaApi R T Hash × SubmitResult
  send_marked api block later =
      let api' = record api { sent = api.sent ++ to_zkas block ∷ [] } in
      elim (node.client block) [
        | success ↦ (api', ok accepted)
        | reject ↦ (api', ok rejected_by_node)
        | transport_error ↦ (
          record api' {
            submit_guard = BlockSubmit.remove api.submit_guard (c.header_hash block.header) later;
          },
          err failed_to_submit,
        )
      ]

  unfoldable pub send_once :
      KaspaApi R T Hash → Block R T → ℕ → ℕ → KaspaApi R T Hash × SubmitResult
  send_once api block now later =
      let (guard, fresh) = try_mark api.submit_guard (c.header_hash block.header) now in
      let api' = record api { submit_guard = guard } in
      let sending = send_marked api' block later in
      if fresh then sending else (api', err err_duplicate_block)

  -- `none` is a panic. The clock is read for the mark and, if the node fails, for its removal.
  unfoldable pub submit_block :
      KaspaApi R T Hash → Block R T → ℕ → ℕ → Option (KaspaApi R T Hash × SubmitResult)
  submit_block api block now later = elim (block_to_send api block) [
    | none ↦ none
    | some none ↦ some (api, err no_pending)
    | some (some sending) ↦ some (send_once api sending now later)
  ]
