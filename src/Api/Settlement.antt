-- ===== src/Api/Settlement.antt =====
-- What the two legs of a settlement add to the list of sent blocks, and what they leave alone.
use solo_dual_mode.Prelude.{
  ℕ, ◌≤◌, ◌≡◌, refl, ap, Bool, ◌&&◌, List, [], ◌∷◌, ◌++◌, Option, none, some, Key, arith, inl, inr,
  Option-cases, Bool-cases, length, if◌then◌else◌,
}
use solo_dual_mode.Guard.BlockSubmit.{try_mark}
use solo_dual_mode.Chain.{Block, Consensus}
use solo_dual_mode.Api.{
  KaspaApi, Node, NodeReply, success, reject, transport_error, Sent, to_kaspa, to_zkas,
  SubmitResult, submit_merged_parent_if_solved, claim_network_solution, block_to_send, send_marked,
  send_once, submit_block,
}

pub ++-nil : {A : Type 0} (xs : List A) → xs ≡ xs ++ []
++-nil [] = refl
++-nil (x ∷ xs) = ap (x ∷◌) (++-nil xs)

module _ {R T Hash : Type 0} ⦃key : Key Hash⦄ (c : Consensus R T Hash) (node : Node R T) where
  -- What goes to the Kaspa node for a solved parent: nothing of the pending ZKas blocks is read.
  unfoldable pub parent_leg : Bool → Block R T → List (Sent R T)
  parent_leg merged parent =
      if merged && (c.check_pow parent.header parent.header.nonce).0
      then elim node.kaspa_client [ none ↦ [] | some client ↦ to_kaspa parent ∷ [] ]
      else []

  pub parent_leg-lem :
      (api : KaspaApi R T Hash) (parent : Block R T)
      → let api' = (submit_merged_parent_if_solved c node api parent).0 in
        (api'.sent ≡ api.sent ++ parent_leg api.merged_mining parent)
        × (api'.pending_fc ≡ api.pending_fc)
        × (api'.merged_mining ≡ api.merged_mining)
  unfolding submit_merged_parent_if_solved parent_leg
  parent_leg-lem api parent =
      let nothing = ++-nil api.sent in
      elim (Bool-cases api.merged_mining) [
        | inr plain ↦ rw (plain, submit_merged_parent_if_solved, parent_leg) (nothing, refl, refl)
        | inl merged ↦ elim (Bool-cases (c.check_pow parent.header parent.header.nonce).0) [
          | inr weak ↦
              rw (merged, weak, submit_merged_parent_if_solved, parent_leg) (nothing, refl, refl)
          | inl solved ↦ elim (Option-cases node.kaspa_client) [
            | inl alone ↦
                rw (merged, solved, alone, submit_merged_parent_if_solved, parent_leg)
                  (nothing, refl, merged)
            | inr (client, linked) ↦
                rw (merged, solved, linked, submit_merged_parent_if_solved, parent_leg)
                  (refl, refl, merged)
          ]
        ]
      ]

  -- A claim sends nothing, and it reads and changes only the pending blocks.
  pub claim-lem :
      (api api' : KaspaApi R T Hash) (job : Block R T)
      → api'.pending_fc ≡ api.pending_fc
      → api'.merged_mining ≡ api.merged_mining
      → ((claim_network_solution c node api' job).0.sent ≡ api'.sent)
        × ((claim_network_solution c node api' job).0.pending_fc
            ≡ (claim_network_solution c node api job).0.pending_fc)
        × ((claim_network_solution c node api' job).1 ≡ (claim_network_solution c node api job).1)
  unfolding claim_network_solution
  claim-lem api api' job pending merged = ground (arith, pending, merged)

  -- At most one block is sent, and the pending blocks stay.
  abbrev pub AddsOne : KaspaApi R T Hash → KaspaApi R T Hash → Type 0
  AddsOne api api' =
      (leg : List (Sent R T)) × (api'.sent ≡ api.sent ++ leg)
      × (length leg ≤ 1)
      × (api'.pending_fc ≡ api.pending_fc)

  send_marked-AddsOne :
      (api : KaspaApi R T Hash) (block : Block R T) (later : ℕ) (reply : NodeReply)
      → node.client block ≡ reply
      → AddsOne api (send_marked c node api block later).0
  unfolding send_marked
  send_marked-AddsOne api block later success e =
      rw (e, send_marked) (to_zkas block ∷ [], refl, omega arith, refl)
  send_marked-AddsOne api block later reject e =
      rw (e, send_marked) (to_zkas block ∷ [], refl, omega arith, refl)
  send_marked-AddsOne api block later transport_error e =
      rw (e, send_marked) (to_zkas block ∷ [], refl, omega arith, refl)

  send_once-AddsOne :
      (api : KaspaApi R T Hash) (block : Block R T) (now later : ℕ)
      → AddsOne api (send_once c node api block now later).0
  unfolding send_once
  send_once-AddsOne api block now later =
      let (guard, fresh) = try_mark api.submit_guard (c.header_hash block.header) now in
      elim (Bool-cases fresh) [
        | inl marked ↦
            rw (marked, send_once)
              (send_marked-AddsOne (record api { submit_guard = guard }) block later
                (node.client block) refl)
        | inr seen ↦ rw (seen, send_once) ([], ++-nil api.sent, omega arith, refl)
      ]

  -- The same of a result that is no panic.
  abbrev pub Sends : KaspaApi R T Hash → Option (KaspaApi R T Hash × SubmitResult) → Type 0
  Sends api none = Unit
  Sends api (some (api', result)) = AddsOne api api'

  pub submit_block-Sends :
      (api : KaspaApi R T Hash) (block : Block R T) (now later : ℕ)
      → Sends api (submit_block c node api block now later)
  unfolding submit_block
  submit_block-Sends api block now later = elim (Option-cases (block_to_send c node api block)) [
    | inl panic ↦ rw (panic, submit_block) tt
    | inr (none, gone) ↦ rw (gone, submit_block) ([], ++-nil api.sent, omega arith, refl)
    | inr (some sending, held) ↦ rw (held, submit_block) (send_once-AddsOne api sending now later)
  ]
