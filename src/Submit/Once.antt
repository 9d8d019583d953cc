-- ===== src/Submit/Once.antt =====
-- One ZKas block for one commitment.
use solo_dual_mode.Prelude.{ℕ, ◌+◌, ◌<◌, ◌≡◌, ◌∙◌, ap, true, List, ◌++◌, some, Key, arith}
use solo_dual_mode.Prelude.Fifo.{behind}
use solo_dual_mode.Merged.Pending.{claim_solution}
use solo_dual_mode.Merged.Pending.Invariant.{Call, run}
use solo_dual_mode.Merged.Pending.Lanes.{inserts_in, claim_once}
use solo_dual_mode.Chain.{Block, Consensus, committed_h_fc, with_nonce}
use solo_dual_mode.Api.{KaspaApi, Node, claim_network_solution}
use solo_dual_mode.Api.Settlement.{parent_leg}
use solo_dual_mode.Submit.{Shares}
use solo_dual_mode.Submit.Settle.{Context, Verdict, valid_share, settle}
use solo_dual_mode.Submit.Legs.{parent_first, settle-lost}

claim-committed :
    {R T Hash : Type 0} ⦃key : Key Hash⦄ (c : Consensus R T Hash) (node : Node R T)
    (api : KaspaApi R T Hash) (job : Block R T) (h_fc : Hash)
    → api.merged_mining ≡ true
    → committed_h_fc c job ≡ some h_fc
    → ((claim_network_solution c node api job).1 ≡ (claim_solution api.pending_fc h_fc).1)
      × ((claim_network_solution c node api job).0.pending_fc
          ≡ (claim_solution api.pending_fc h_fc).0)
unfolding claim_network_solution
claim-committed c node api job h_fc merged committed = ground (arith, merged, committed)

module _ {F N K R T Hash : Type 0} ⦃name : Key N⦄ ⦃submission : Key K⦄ ⦃hash : Key Hash⦄
    (ctx later : Context F N K R T Hash) (k k' : K) where
  -- In merged mining, when a nonce that meets the ZKas target has won the claim of its commitment,
  -- every later solved block of the same commitment that meets the target is a valid share that
  -- sends its own Kaspa parent and no ZKas block: whatever has been inserted or claimed in between,
  -- as long as the hashes queued behind the commitment and the insertions are together fewer than
  -- the capacity, and whatever the node answered to the first.
  pub zkas_once :
      (job job' : Block R T) (h_fc : Hash) (nonce nonce' : ℕ) (s : Shares F N K R T Hash)
      (cs : List (Call Hash (Block R T))) (n : ℕ)
      → s.api.merged_mining ≡ true
      → committed_h_fc ctx.consensus job ≡ some h_fc
      → committed_h_fc later.consensus job' ≡ some h_fc
      → behind h_fc s.api.pending_fc.order ≡ some n
      → n + inserts_in cs < s.api.pending_fc.cap
      → (claim_network_solution ctx.consensus ctx.node s.api job).1 ≡ true
      → (s' : Shares F N K R T Hash) × (verdict : Verdict) × (settle ctx k job nonce true s
          ≡ some (s', verdict))
        × ((t : Shares F N K R T Hash)
            → t.api.merged_mining ≡ true
            → t.api.pending_fc ≡ run cs s'.api.pending_fc
            → (api : KaspaApi R T Hash) × (settle later k' job' nonce' true t
                ≡ some (record t { api = api }, valid_share))
              × (api.sent
                  ≡ t.api.sent
                    ++ parent_leg later.consensus later.node t.api.merged_mining
                        (with_nonce nonce' job')))
  zkas_once job job' h_fc nonce nonce' s cs n merged committed committed' place few won =
      let (s', verdict, e, (zkas, sent, small, unmet, unclaimed, pending)) =
        parent_first ctx k job nonce true s in
      let (same, after) = claim-committed ctx.consensus ctx.node s.api job h_fc merged committed in
      let spent = claim_once cs s.api.pending_fc h_fc n place few (ground (arith, same, won)) in
      (
        s',
        verdict,
        e,
        λ t merged' between.
            let (same', after') =
              claim-committed later.consensus later.node t.api job' h_fc merged' committed' in
            let lost =
              same'
              ∙ ap (λ p. (claim_solution p h_fc).1) (between ∙ ap (run cs) (pending ∙ after))
              ∙ spent in
            settle-lost later k' job' nonce' t lost,
      )
