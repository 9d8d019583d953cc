-- ===== src/Merged/Pending/Invariant.antt =====
-- The queue, the map and the two sets of `MergedPending` stay in step.
use solo_dual_mode.Prelude.{
  ℕ, ◌≡◌, refl, Bool, true, false, List, [], ◌∷◌, ◌++◌, some, arith, Key, length-append,
  Option-cases, inl, inr,
}
use solo_dual_mode.Prelude.Dict.{
  get, insert, remove, contains, get-insert, get-remove, insert-IsDict, size-insert,
}
use solo_dual_mode.Prelude.Fifo.{Covers-push, Covers-overwrite, behind-push_new, absent-behind}
use solo_dual_mode.Merged.Pending.{
  MergedPending, new, evict, store, flag, insert_with_payee, claim_solution,
}
use solo_dual_mode.Merged.Pending.Eviction.{IsValid, insert-Within, evict-IsValid, evict-keeps}

pub data Call (Hash Block : Type 0) : Type 0 where
  inserts : Hash → Block → Bool → Call Hash Block
  claims : Hash → Call Hash Block

module _ {Hash Block : Type 0} ⦃key : Key Hash⦄ where
  pub store-IsValid :
      (p : MergedPending Hash Block) (k : Hash) (b : Block) → IsValid p → IsValid (store p k b)
  unfolding store
  store-IsValid p k b v = elim (Option-cases (get k p.map)) [
    | inr (a, old) ↦
        rw (old, store)
          (record {
            queued = record {
              distinct = insert-IsDict k b p.map v.queued.distinct;
              covered = Covers-overwrite k b a p.order p.map old v.queued.covered;
              synced = ground (arith, size-insert k b p.map, v.queued.synced);
            };
            room = v.room;
            bounded = v.bounded;
            solved_within = insert-Within k b p.solved p.map v.solved_within;
            fee_within = insert-Within k b p.fee_lane p.map v.fee_within;
          })
    | inl fresh ↦
        rw (fresh, store)
          (evict-IsValid (p.order ++ k ∷ []) (record p { map = insert k b p.map })
            (record {
              distinct = insert-IsDict k b p.map v.queued.distinct;
              covered = Covers-push k b p.order p.map v.queued.covered;
              synced =
                  ground
                    (arith, size-insert k b p.map, length-append p.order (k ∷ []), v.queued.synced);
            })
            v.room (insert-Within k b p.solved p.map v.solved_within)
            (insert-Within k b p.fee_lane p.map v.fee_within))
  ]

  -- The stored block can be read back at once.
  pub get-store_self :
      (p : MergedPending Hash Block) (k : Hash) (b : Block)
      → IsValid p
      → get k (store p k b).map ≡ some b
  unfolding store
  get-store_self p k b v =
      let p' = record p { map = insert k b p.map } in
      elim (Option-cases (get k p.map)) [
        | inr (a, old) ↦ rw (old, store) (ground (arith, get-insert k k b p.map))
        | inl fresh ↦
            let unqueued =
              absent-behind k p.order p.map v.queued.distinct v.queued.covered v.queued.synced
                fresh in
            let kept =
              evict-keeps k 0 (p.order ++ k ∷ []) p' (behind-push_new k p.order unqueued) v.room in
            rw (fresh, store) (ground (arith, kept.1, get-insert k k b p.map))
      ]

  flag-IsValid :
      (p : MergedPending Hash Block) (k : Hash) (b : Block) (paid : Bool)
      → IsValid p
      → get k p.map ≡ some b
      → IsValid (flag p k paid)
  unfolding flag
  flag-IsValid p k b true v held = record {
    queued = v.queued;
    room = v.room;
    bounded = v.bounded;
    solved_within = v.solved_within;
    fee_within = λ j h. ground (arith, get-insert k j tt p.fee_lane, v.fee_within j);
  }
  flag-IsValid p k b false v held = record {
    queued = v.queued;
    room = v.room;
    bounded = v.bounded;
    solved_within = v.solved_within;
    fee_within = λ j h. ground (arith, get-remove k j p.fee_lane, v.fee_within j);
  }

  claim-IsValid :
      (p : MergedPending Hash Block) (k : Hash) → IsValid p → IsValid (claim_solution p k).0
  unfolding claim_solution contains
  claim-IsValid p k v = elim (Option-cases (get k p.map)) [
    | inl absent ↦ rw (absent, contains, claim_solution) v
    | inr (b, held) ↦
        rw (held, contains, claim_solution)
          (record {
            queued = v.queued;
            room = v.room;
            bounded = v.bounded;
            solved_within = λ j h. ground (arith, get-insert k j tt p.solved, v.solved_within j);
            fee_within = v.fee_within;
          })
  ]

  unfoldable pub step : Call Hash Block → MergedPending Hash Block → MergedPending Hash Block
  step (inserts k b paid) p = insert_with_payee p k b paid
  step (claims k) p = (claim_solution p k).0

  unfoldable pub run : List (Call Hash Block) → MergedPending Hash Block → MergedPending Hash Block
  run [] p = p
  run (c ∷ cs) p = run cs (step c p)

  pub step-IsValid :
      (c : Call Hash Block) (p : MergedPending Hash Block) → IsValid p → IsValid (step c p)
  unfolding step insert_with_payee
  step-IsValid (inserts k b paid) p v =
      flag-IsValid (store p k b) k b paid (store-IsValid p k b v) (get-store_self p k b v)
  step-IsValid (claims k) p v = claim-IsValid p k v

  run-IsValid :
      (cs : List (Call Hash Block)) (p : MergedPending Hash Block) → IsValid p → IsValid (run cs p)
  unfolding run
  run-IsValid [] p v = v
  run-IsValid (c ∷ cs) p v = run-IsValid cs (step c p) (step-IsValid c p v)

  new-IsValid : (cap : ℕ) → IsValid (new {Hash = Hash} {Block = Block} cap)
  unfolding new get
  new-IsValid cap = record {
    queued = record { distinct = tt; covered = refl; synced = refl };
    room = ground arith;
    bounded = omega arith;
    solved_within = λ k h. refl;
    fee_within = λ k h. refl;
  }

  -- After any sequence of insertions and claims on a new memory, the queue holds exactly the
  -- hashes of the stored blocks, once each and at most as many as the capacity, and only stored
  -- blocks are marked as solved or as paying the pool.
  pub run-new-Queued : (cap : ℕ) (cs : List (Call Hash Block)) → IsValid (run cs (new cap))
  run-new-Queued cap cs = run-IsValid cs (new cap) (new-IsValid cap)

  evict_cap : (order : List Hash) (p : MergedPending Hash Block) → (evict order p).cap ≡ p.cap
  unfolding evict
  evict_cap [] p = refl
  evict_cap (k ∷ order) p =
      let next = record p {
        map = remove k p.map;
        solved = remove k p.solved;
        fee_lane = remove k p.fee_lane;
      } in
      ground (arith, evict_cap order next)

  flag_cap : (p : MergedPending Hash Block) (k : Hash) (paid : Bool) → (flag p k paid).cap ≡ p.cap
  unfolding flag
  flag_cap p k true = refl
  flag_cap p k false = refl

  -- The capacity never changes.
  pub step_cap : (c : Call Hash Block) (p : MergedPending Hash Block) → (step c p).cap ≡ p.cap
  unfolding step insert_with_payee store claim_solution
  step_cap (inserts k b paid) p =
      let p' = record p { map = insert k b p.map } in
      ground (arith, flag_cap (store p k b) k paid, evict_cap (p.order ++ k ∷ []) p')
  step_cap (claims k) p = ground arith
