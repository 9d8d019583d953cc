-- ===== src/Merged/Pending/Lanes.antt =====
-- One lane of `MergedPending` by itself: its block, its payee flag and whether it is solved.
use solo_dual_mode.Prelude.{
  ℕ, suc, ◌+◌, ◌≤◌, ◌<◌, ◌≡◌, refl, ◌∙◌, ap, Bool, true, false, List, [], ◌∷◌, ◌++◌, Option, none,
  some, arith, Key, Option-cases, inl, inr, ite,
}
use solo_dual_mode.Prelude.Dict.{get, insert, contains, get-insert, get-remove}
use solo_dual_mode.Prelude.Fifo.{behind, behind-push, behind-push_new, absent-behind}
use solo_dual_mode.Merged.Pending.{MergedPending, store, flag, insert_with_payee, claim_solution}
use solo_dual_mode.Merged.Pending.Eviction.{IsValid, evict-keeps}
use solo_dual_mode.Merged.Pending.Invariant.{Call, inserts, claims, step, run, step_cap, step_cap}

-- What is known of a hash, as the three collections hold it.
pub record Lane (Block : Type 0) : Type 0 where
  pub block : Option Block
  pub paid : Option (Unit {0})
  pub solved : Option (Unit {0})

abbrev pub mark : Bool → Option (Unit {0})
mark true = some tt
mark false = none

module _ {Hash Block : Type 0} ⦃key : Key Hash⦄ where
  unfoldable pub lane_of : MergedPending Hash Block → Hash → Lane Block
  lane_of p k = record { block = get k p.map; paid = get k p.fee_lane; solved = get k p.solved }

  -- The effect of a call on a stored lane: an insertion of its hash replaces the block and the
  -- payee, a claim solves it.
  unfoldable pub lane_step : Hash → Call Hash Block → Lane Block → Lane Block
  lane_step k (inserts j b paid) l =
      ite (key.dec j k) (record l { block = some b; paid = mark paid }) l
  lane_step k (claims j) l = ite (key.dec j k) (record l { solved = some tt }) l

  unfoldable pub lane_run : Hash → List (Call Hash Block) → Lane Block → Lane Block
  lane_run k [] l = l
  lane_run k (c ∷ cs) l = lane_run k cs (lane_step k c l)

  abbrev pub weight : Call Hash Block → ℕ
  weight (inserts j b paid) = 1
  weight (claims j) = 0

  unfoldable pub inserts_in : List (Call Hash Block) → ℕ
  inserts_in [] = 0
  inserts_in (c ∷ cs) = weight c + inserts_in cs

  -- The hash is stored, and few hashes stand behind it.
  record Standing (p : MergedPending Hash Block) (k : Hash) (few : ℕ) : Type 0 where
    block : Block
    rank : ℕ
    held : get k p.map ≡ some block
    place : behind k p.order ≡ some rank
    close : rank ≤ few

  store-lane :
      (p : MergedPending Hash Block) (k j : Hash) (b : Block) (n : ℕ)
      → behind k p.order ≡ some n
      → suc n < p.cap
      → let p' = store p j b in
        (m : ℕ) × (behind k p'.order ≡ some m)
        × (m ≤ suc n)
        × (get k p'.map ≡ ite (key.dec j k) (some b) (get k p.map))
        × (get k p'.solved ≡ get k p.solved)
        × (get k p'.fee_lane ≡ get k p.fee_lane)
  unfolding store
  store-lane p k j b n place few =
      let p' = record p { map = insert j b p.map } in
      let put = get-insert j k b p.map in
      elim (Option-cases (get j p.map)) [
        | inr (old, seen) ↦ rw (seen, store) (n, place, omega arith, put, refl, refl)
        | inl fresh ↦
            let (placed, block, solved, paid) =
              evict-keeps k (suc n) (p.order ++ j ∷ []) p' (behind-push k j n p.order place) few in
            rw (fresh, store) (suc n, placed, omega arith, block ∙ put, solved, paid)
      ]

  flag-lane :
      (p : MergedPending Hash Block) (k j : Hash) (paid : Bool)
      → let p' = flag p j paid in
        (p'.map ≡ p.map)
        × (p'.order ≡ p.order)
        × (p'.solved ≡ p.solved)
        × (get k p'.fee_lane ≡ ite (key.dec j k) (mark paid) (get k p.fee_lane))
  unfolding flag
  flag-lane p k j true = (refl, refl, refl, get-insert j k tt p.fee_lane)
  flag-lane p k j false = (refl, refl, refl, get-remove j k p.fee_lane)

  step-lane :
      (c : Call Hash Block) (p : MergedPending Hash Block) (k : Hash) (few : ℕ)
      → few + weight c < p.cap
      → Standing p k few
      → Standing (step c p) k (few + weight c)
        × (lane_of (step c p) k ≡ lane_step k c (lane_of p k))
  unfolding step lane_of lane_step insert_with_payee claim_solution contains
  step-lane (inserts j b paid) p k few fits s =
      let (m, placed, close, block, solved, fee) =
        store-lane p k j b s.rank s.place (omega (arith, s.close)) in
      let (same_map, same_order, same_solved, flagged) = flag-lane (store p j b) k j paid in
      (
        record {
          block = ite (key.dec j k) b s.block;
          rank = m;
          held = rw same_map (block ∙ ground (arith, s.held));
          place = rw same_order placed;
          close = omega (arith, close, s.close);
        },
        ground (arith, same_map, same_solved, flagged, block, solved, fee),
      )
  step-lane (claims j) p k few fits s = (
    record {
      block = s.block;
      rank = s.rank;
      held = ground (arith, s.held);
      place = ground (arith, s.place);
      close = omega (arith, s.close);
    },
    ground (arith, s.held, get-insert j k tt p.solved),
  )

  run-lane :
      (cs : List (Call Hash Block)) (p : MergedPending Hash Block) (k : Hash) (few : ℕ)
      → few + inserts_in cs < p.cap
      → Standing p k few
      → lane_of (run cs p) k ≡ lane_run k cs (lane_of p k)
  unfolding run lane_run inserts_in
  run-lane [] p k few fits s = refl
  run-lane (c ∷ cs) p k few fits s =
      let (s', e) = step-lane c p k few (omega (arith, fits)) s in
      let same = step_cap c p in
      run-lane cs (step c p) k (few + weight c) (rw same (omega (arith, fits))) s'
      ∙ ap (lane_run k cs) e

  -- A new block.
  insert-Standing :
      (p : MergedPending Hash Block) (k : Hash) (b : Block) (paid : Bool)
      → IsValid p
      → get k p.map ≡ none
      → Standing (insert_with_payee p k b paid) k 0
        × (lane_of (insert_with_payee p k b paid) k
            ≡ record { block = some b; paid = mark paid; solved = none })
  unfolding insert_with_payee store lane_of
  insert-Standing p k b paid v fresh =
      let p' = record p { map = insert k b p.map } in
      let unqueued =
        absent-behind k p.order p.map v.queued.distinct v.queued.covered v.queued.synced fresh in
      let (placed, block, solved, fee) =
        evict-keeps k 0 (p.order ++ k ∷ []) p' (behind-push_new k p.order unqueued) v.room in
      let (same_map, same_order, same_solved, flagged) = flag-lane (store p k b) k k paid in
      let put = get-insert k k b p.map in
      (
        record {
          block = b;
          rank = 0;
          held = ground (arith, same_map, block, put);
          place = ground (arith, same_order, placed);
          close = omega arith;
        },
        ground (arith, same_map, same_solved, flagged, block, solved, put, v.solved_within k),
      )

  -- When a new block is stored in a valid memory, its block, its payee and its solved mark are
  -- from then on those of a lane by itself, which each later insertion of the same hash and each
  -- claim of it updates and no other call touches, as long as the later insertions are fewer than
  -- the capacity.
  pub lane_refines :
      (cs : List (Call Hash Block)) (p : MergedPending Hash Block) (k : Hash) (b : Block)
      (paid : Bool)
      → IsValid p
      → get k p.map ≡ none
      → inserts_in cs < p.cap
      → lane_of (run cs (insert_with_payee p k b paid)) k
        ≡ lane_run k cs (record { block = some b; paid = mark paid; solved = none })
  unfolding step
  lane_refines cs p k b paid v fresh fits =
      let (s, e) = insert-Standing p k b paid v fresh in
      run-lane cs (insert_with_payee p k b paid) k 0
        (rw (step_cap (inserts k b paid) p) (omega (arith, fits))) s
      ∙ ap (lane_run k cs) e

  lane_run-solved :
      (k : Hash) (cs : List (Call Hash Block)) (l : Lane Block)
      → l.solved ≡ some tt
      → (lane_run k cs l).solved ≡ some tt
  unfolding lane_run lane_step
  lane_run-solved k [] l h = h
  lane_run-solved k (inserts j b paid ∷ cs) l h =
      lane_run-solved k cs (lane_step k (inserts j b paid) l) (ground (arith, h))
  lane_run-solved k (claims j ∷ cs) l h =
      lane_run-solved k cs (lane_step k (claims j) l) (ground (arith, h))

  claimed-Standing :
      (p : MergedPending Hash Block) (k : Hash) (n : ℕ)
      → behind k p.order ≡ some n
      → (claim_solution p k).1 ≡ true
      → Standing (claim_solution p k).0 k n × ((lane_of (claim_solution p k).0 k).solved ≡ some tt)
  unfolding claim_solution contains lane_of
  claimed-Standing p k n place won = elim (Option-cases (get k p.map)) [
    | inl absent ↦ absurd (ground arith)
    | inr (b, held) ↦ (
      record {
        block = b;
        rank = n;
        held = ground (arith, held);
        place = ground (arith, place);
        close = omega arith;
      },
      ground (arith, held, get-insert k k tt p.solved),
    )
  ]

  -- A solution that was claimed with success is refused to every later claim of the same hash,
  -- whatever is inserted or claimed in between, the same hash again included, as long as the hashes
  -- behind it in the queue and the insertions are together fewer than the capacity.
  pub claim_once :
      (cs : List (Call Hash Block)) (p : MergedPending Hash Block) (k : Hash) (n : ℕ)
      → behind k p.order ≡ some n
      → n + inserts_in cs < p.cap
      → (claim_solution p k).1 ≡ true
      → (claim_solution (run cs (claim_solution p k).0) k).1 ≡ false
  unfolding step claim_solution contains lane_of
  claim_once cs p k n place fits won =
      let first = (claim_solution p k).0 in
      let (s, solved) = claimed-Standing p k n place won in
      let e = run-lane cs first k n (rw (step_cap (claims k) p) fits) s in
      let solved' =
        ap (λ (l : Lane Block). l.solved) e ∙ lane_run-solved k cs (lane_of first k) solved in
      ground (arith, solved')
