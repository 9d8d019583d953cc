-- ===== src/Submit/Walk/Total.antt =====
-- The loop over the jobs never panics: the block of a committed parent can always be assembled.
use solo_dual_mode.Prelude.{
  ℕ, ◌≡◌, refl, ap, ◌∙◌, Bool, true, false, List, [], ◌∷◌, Option, none, some, Key, inl, inr,
  Option-cases, Bool-cases, arith,
}
use solo_dual_mode.MiningState.{Job, get_job}
use solo_dual_mode.Merged.Pending.{get_block}
use solo_dual_mode.Chain.{Block, Consensus, with_nonce, committed_h_fc, assemble_aux_block}
use solo_dual_mode.Api.{KaspaApi, Node, submit_block, block_to_send, submit_parent_then_claim_zkas}
use solo_dual_mode.Submit.{Shares}
use solo_dual_mode.Submit.Settle.{Context, settle, mint, announce}
use solo_dual_mode.Submit.Walk.{walk, attempt, weigh, max_compat_job_attempts}
use solo_dual_mode.Submit.Walk.Search.{first_verdict, candidates, walk_search}

-- A result that is no panic.
abbrev pub Returns : {A : Type 0} → Option A → Type 0
Returns {A} o = (a : A) × (o ≡ some a)

module _ {R T Hash : Type 0} ⦃key : Key Hash⦄ (c : Consensus R T Hash) (node : Node R T) where
  committed-assembles :
      (parent fc_block : Block R T) (h_fc : Hash) (txs : List T)
      → parent.transactions ≡ txs
      → committed_h_fc c parent ≡ some h_fc
      → Returns (assemble_aux_block c parent fc_block)
  unfolding committed_h_fc assemble_aux_block
  committed-assembles parent fc_block h_fc [] e h = absurd (ground (arith, e, h))
  committed-assembles parent fc_block h_fc (tx ∷ txs) e h = rw (e, assemble_aux_block) (_, refl)

  block_to_send-Returns :
      (api : KaspaApi R T Hash) (block : Block R T) → Returns (block_to_send c node api block)
  unfolding block_to_send
  block_to_send-Returns api block = elim (Bool-cases api.merged_mining) [
    | inr plain ↦ rw (plain, block_to_send) (_, refl)
    | inl merged ↦ elim (Option-cases (committed_h_fc c block)) [
      | inl bare ↦ rw (merged, bare, block_to_send) (_, refl)
      | inr (h_fc, committed) ↦ elim (Option-cases (get_block api.pending_fc h_fc)) [
        | inl gone ↦ rw (merged, committed, gone, block_to_send) (_, refl)
        | inr (fc_block, held) ↦
            let (aux, e) =
              committed-assembles block fc_block h_fc block.transactions refl committed in
            rw (merged, committed, held, e, block_to_send) (_, refl)
      ]
    ]
  ]

  submit_block-Returns :
      (api : KaspaApi R T Hash) (block : Block R T) (now later : ℕ)
      → Returns (submit_block c node api block now later)
  unfolding submit_block
  submit_block-Returns api block now later =
      let (sending, e) = block_to_send-Returns api block in
      elim (Option-cases sending) [
        | inl gone ↦ rw (e ∙ ap some gone, submit_block) (_, refl)
        | inr (sent, held) ↦ rw (e ∙ ap some held, submit_block) (_, refl)
      ]

module _ {F N K R T Hash : Type 0} ⦃name : Key N⦄ ⦃submission : Key K⦄ ⦃hash : Key Hash⦄
    (ctx : Context F N K R T Hash) (k : K) where
  mint-Returns :
      (job_block block : Block R T) (s : Shares F N K R T Hash)
      → Returns (mint ctx k job_block block s)
  unfolding mint
  mint-Returns job_block block s =
      let (r, e) =
        submit_block-Returns ctx.consensus ctx.node (announce ctx job_block block s).api block
          ctx.sent_at ctx.failed_at in
      rw (e, mint) (_, refl)

  pub settle-Returns :
      (job_block : Block R T) (nonce : ℕ) (meets : Bool) (s : Shares F N K R T Hash)
      → Returns (settle ctx k job_block nonce meets s)
  unfolding settle
  settle-Returns job_block nonce false s = (_, refl)
  settle-Returns job_block nonce true s =
      let block = with_nonce nonce job_block in
      let (api, outcome, claimed) =
        submit_parent_then_claim_zkas ctx.consensus ctx.node s.api block job_block true in
      elim (Bool-cases claimed) [
        | inr lost ↦ rw (lost, settle) (_, refl)
        | inl won ↦ rw (won, settle) (mint-Returns job_block block (record s { api = api }))
      ]

  attempt-Returns :
      (nonce id : ℕ) (job : Job (Block R T) Hash) (s : Shares F N K R T Hash)
      → Returns (attempt ctx k nonce s id job)
  unfolding attempt
  attempt-Returns nonce id job s =
      let (value, meets, solved) = weigh ctx s.api job.block nonce in
      elim (Bool-cases solved) [
        | inl is_block ↦
            let (r, e) = settle-Returns job.block nonce meets s in
            rw (is_block, attempt) (rw e (_, refl))
        | inr is_share ↦ rw (is_share, attempt) (_, refl)
      ]

  first_verdict-Returns :
      (nonce : ℕ) (s : Shares F N K R T Hash) (last : ℕ × Job (Block R T) Hash)
      (cs : List (ℕ × Job (Block R T) Hash))
      → Returns (first_verdict ctx k nonce s last cs)
  unfolding first_verdict
  first_verdict-Returns nonce s last [] = (_, refl)
  first_verdict-Returns nonce s last (c ∷ cs) =
      let ((s', verdict), e) = attempt-Returns nonce c.0 c.1 s in
      elim (Option-cases verdict) [
        | inl missed ↦
            rw (e ∙ ap (λ v. some (s', v)) missed, first_verdict)
              (first_verdict-Returns nonce s' c cs)
        | inr (v, done) ↦ rw (e ∙ ap (λ v. some (s', v)) done, first_verdict) (_, refl)
      ]

  pub walk-total :
      (nonce : ℕ) (s : Shares F N K R T Hash) (job_id : ℕ) (job : Job (Block R T) Hash)
      → get_job ctx.mining 0 ≡ none
      → get_job ctx.mining job_id ≡ some job
      → Returns (walk ctx k nonce max_compat_job_attempts s job_id 0 job_id job false)
  walk-total nonce s job_id job no_zero held =
      let (w, e) =
        first_verdict-Returns nonce s (job_id, job) (candidates ctx.mining 8 job_id job) in
      (w, walk_search ctx k nonce s job_id job no_zero held ∙ e)
