-- ===== src/Submit/Legs.antt =====
-- The two legs of a solved block: the Kaspa parent and the ZKas block.
use solo_dual_mode.Prelude.{
  ℕ, ◌≤◌, ◌≡◌, refl, ◌∙◌, sym, ap, subst, Bool, true, false, List, [], ◌++◌, Option, none, some,
  Key, arith, inl, inr, Option-cases, Bool-cases, length, if◌then◌else◌,
}
use solo_dual_mode.Chain.{Block, with_nonce}
use solo_dual_mode.Api.{
  KaspaApi, Sent, SubmitResult, claim_network_solution, submit_merged_parent_if_solved,
  submit_parent_then_claim_zkas, submit_block, ok, err, err_duplicate_block, no_pending,
  failed_to_submit,
}
use solo_dual_mode.Api
use solo_dual_mode.Api.Settlement.{
  parent_leg, parent_leg-lem, claim-lem, ++-nil, AddsOne, Sends, submit_block-Sends,
}
use solo_dual_mode.Submit.Walk.Total.{settle-Returns}
use solo_dual_mode.Submit.{Shares, Effect, emit_if}
use solo_dual_mode.Submit.Settle.{
  Context, Verdict, valid_share, settle, mint, announce, report, block_hash, conclude, reject_share,
  count_in, get_create_stats,
}

module _ {F N K R T Hash : Type 0} ⦃name : Key N⦄ ⦃submission : Key K⦄ ⦃hash : Key Hash⦄
    (ctx : Context F N K R T Hash) (k : K) where
  emit_if-api :
      (b : Bool) (e : Effect F Hash) (s : Shares F N K R T Hash) → (emit_if b e s).api ≡ s.api
  emit_if-api true e s = refl
  emit_if-api false e s = refl

  get_create_stats-api : (s : Shares F N K R T Hash) → (get_create_stats ctx s).0.api ≡ s.api
  unfolding get_create_stats
  get_create_stats-api s = ground arith

  report-api :
      (found : Hash) (result : SubmitResult) (s : Shares F N K R T Hash)
      → (report ctx k found result s).0.api ≡ s.api
  unfolding report conclude reject_share count_in
  report-api found (ok Api.rejected_by_node) s = refl
  report-api found (ok Api.accepted) s = get_create_stats-api s
  report-api found (err err_duplicate_block) s =
      emit_if-api ctx.identity_ok _ _ ∙ get_create_stats-api _
  report-api found (err no_pending) s = emit_if-api ctx.identity_ok _ _ ∙ get_create_stats-api _
  report-api found (err failed_to_submit) s =
      emit_if-api ctx.identity_ok _ _ ∙ get_create_stats-api _

  announce-api :
      (job_block block : Block R T) (s : Shares F N K R T Hash)
      → (announce ctx job_block block s).api ≡ s.api
  unfolding announce
  announce-api job_block block s = emit_if-api ctx.identity_ok _ _ ∙ emit_if-api _ _ _

  -- A result that is no panic has sent at most one block.
  abbrev Minted : Shares F N K R T Hash → Option (Shares F N K R T Hash × Verdict) → Type 0
  Minted s none = Unit
  Minted s (some (s', verdict)) = AddsOne ctx.consensus ctx.node s.api s'.api

  mint-Minted :
      (job_block block : Block R T) (s : Shares F N K R T Hash)
      → Minted s (mint ctx k job_block block s)
  unfolding mint
  mint-Minted job_block block s =
      let t = announce ctx job_block block s in
      let call = submit_block ctx.consensus ctx.node t.api block ctx.sent_at ctx.failed_at in
      let sends = submit_block-Sends ctx.consensus ctx.node t.api block ctx.sent_at ctx.failed_at in
      elim (Option-cases call) [
        | inl panic ↦ rw (panic, mint) tt
        | inr ((api, result), e) ↦
            rw (e, mint)
              (let (leg, sent, small, kept) = subst (Sends ctx.consensus ctx.node t.api) e sends in
                (
                  leg,
                  ap (λ (a : KaspaApi R T Hash). a.sent)
                        (report-api (block_hash ctx s.api job_block block) result
                          (record t { api = api }))
                      ∙ sent
                      ∙ ap (λ (a : KaspaApi R T Hash). a.sent ++ leg)
                          (announce-api job_block block s),
                  small,
                  ap (λ (a : KaspaApi R T Hash). a.pending_fc)
                        (report-api (block_hash ctx s.api job_block block) result
                          (record t { api = api }))
                      ∙ kept
                      ∙ ap (λ (a : KaspaApi R T Hash). a.pending_fc)
                          (announce-api job_block block s),
                ))
      ]

  -- What a settlement sends: the Kaspa leg, and after it at most one ZKas block, which needs that
  -- the ZKas target is met and the claim is won. The pending blocks change by the claim alone.
  abbrev pub Legs :
      Block R T
      → ℕ
      → Bool
      → Shares F N K R T Hash
      → Option (Shares F N K R T Hash × Verdict)
      → Type 0
  Legs job nonce meets s none = Unit
  Legs job nonce meets s (some (s', verdict)) =
      let parent = parent_leg ctx.consensus ctx.node s.api.merged_mining (with_nonce nonce job) in
      (zkas : List (Sent R T)) × (s'.api.sent ≡ (s.api.sent ++ parent) ++ zkas)
      × (length zkas ≤ 1)
      × (meets ≡ false → zkas ≡ [])
      × ((claim_network_solution ctx.consensus ctx.node s.api job).1 ≡ false → zkas ≡ [])
      × (s'.api.pending_fc ≡ (
          if meets
          then (claim_network_solution ctx.consensus ctx.node s.api job).0.pending_fc
          else s.api.pending_fc))

  Legs-won :
      (job : Block R T) (nonce : ℕ) (s t : Shares F N K R T Hash)
      (o : Option (Shares F N K R T Hash × Verdict))
      → t.api.sent
        ≡ s.api.sent ++ parent_leg ctx.consensus ctx.node s.api.merged_mining (with_nonce nonce job)
      → t.api.pending_fc ≡ (claim_network_solution ctx.consensus ctx.node s.api job).0.pending_fc
      → (claim_network_solution ctx.consensus ctx.node s.api job).1 ≡ true
      → Minted t o
      → Legs job nonce true s o
  Legs-won job nonce s t none sent pending won m = tt
  Legs-won job nonce s t (some (s', verdict)) sent pending won (zkas, adds, small, kept) = (
    zkas,
    adds ∙ ap (λ l. l ++ zkas) sent,
    small,
    λ e. absurd (ground (arith, e)),
    λ e. absurd (ground (arith, e, won)),
    kept ∙ pending,
  )

  settle-Legs :
      (job : Block R T) (nonce : ℕ) (meets : Bool) (s : Shares F N K R T Hash)
      → Legs job nonce meets s (settle ctx k job nonce meets s)
  unfolding settle submit_parent_then_claim_zkas
  settle-Legs job nonce false s =
      let block = with_nonce nonce job in
      let (sent, pending, merged) = parent_leg-lem ctx.consensus ctx.node s.api block in
      ([], sent ∙ ++-nil _, omega arith, λ e. refl, λ e. refl, pending)
  settle-Legs job nonce true s =
      let block = with_nonce nonce job in
      let api' = (submit_merged_parent_if_solved ctx.consensus ctx.node s.api block).0 in
      let (sent, pending, merged) = parent_leg-lem ctx.consensus ctx.node s.api block in
      let (quiet, same, won_same) =
        claim-lem ctx.consensus ctx.node s.api api' job pending merged in
      let (api'', won) = claim_network_solution ctx.consensus ctx.node api' job in
      elim (Bool-cases won) [
        | inr lost ↦
            rw (lost, settle) ([], quiet ∙ sent ∙ ++-nil _, omega arith, λ e. refl, λ e. refl, same)
        | inl wins ↦
            rw (wins, settle)
              (Legs-won job nonce s (record s { api = api'' }) _ (quiet ∙ sent) same
                (sym won_same ∙ wins) (mint-Minted job block (record s { api = api'' })))
      ]

  -- A solved block is always settled: its parent goes to the Kaspa node under conditions that the
  -- ZKas blocks have no part in, and before any ZKas block; at most one ZKas block is sent, and
  -- none if the ZKas target is not met or the claim of the commitment is lost. The memory of
  -- pending blocks changes by the claim alone, and only if the ZKas target is met.
  pub parent_first :
      (job : Block R T) (nonce : ℕ) (meets : Bool) (s : Shares F N K R T Hash)
      → (s' : Shares F N K R T Hash) × (verdict : Verdict) × (settle ctx k job nonce meets s
          ≡ some (s', verdict))
        × Legs job nonce meets s (some (s', verdict))
  parent_first job nonce meets s =
      let ((s', verdict), e) = settle-Returns ctx k job nonce meets s in
      (s', verdict, e, subst (Legs job nonce meets s) e (settle-Legs job nonce meets s))

  pub settle-lost :
      (job : Block R T) (nonce : ℕ) (t : Shares F N K R T Hash)
      → (claim_network_solution ctx.consensus ctx.node t.api job).1 ≡ false
      → (api : KaspaApi R T Hash) × (settle ctx k job nonce true t
          ≡ some (record t { api = api }, valid_share))
        × (api.sent
            ≡ t.api.sent
              ++ parent_leg ctx.consensus ctx.node t.api.merged_mining (with_nonce nonce job))
  unfolding settle submit_parent_then_claim_zkas
  settle-lost job nonce t lost =
      let block = with_nonce nonce job in
      let api' = (submit_merged_parent_if_solved ctx.consensus ctx.node t.api block).0 in
      let (sent, pending, merged) = parent_leg-lem ctx.consensus ctx.node t.api block in
      let (quiet, same, won_same) =
        claim-lem ctx.consensus ctx.node t.api api' job pending merged in
      let lost' = won_same ∙ lost in rw (lost', settle) (_, refl, quiet ∙ sent)
