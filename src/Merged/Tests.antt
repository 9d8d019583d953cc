-- ===== src/Merged/Tests.antt =====
-- Merged mining at concrete inputs, and the instances of its theorems.
use solo_dual_mode.Prelude.{
  ℕ, ◌+◌, ◌*◌, ◌≡◌, refl, true, false, List, [], ◌∷◌, some, none, arith, nat_key, ℕ_discrete,
}
use solo_dual_mode.Prelude.Dict
use solo_dual_mode.Prelude.Fifo.{behind}
use solo_dual_mode.Merged.Pending
use solo_dual_mode.Merged.Pending.{MergedPending, claim_solution, insert_with_payee}
use solo_dual_mode.Merged.Pending.Eviction.{IsValid}
use solo_dual_mode.Merged.Pending.Invariant.{Call, inserts, claims, run, run-new-Queued}
use solo_dual_mode.Merged.Pending.Lanes.{lane_of, lane_run, inserts_in, lane_refines, claim_once}
use solo_dual_mode.Merged.Branch
use solo_dual_mode.Merged.Branch.{coinbase_merkle_branch}
use solo_dual_mode.Merged.Branch.Root.{merkle_root, fold_branch, coinbase_branch_root}
use solo_dual_mode.Merged.FeeWindow.{is_fee_minute, count, fee_minutes}

program : Unit {0}
unfolding Dict.get Dict.insert Dict.remove Dict.contains Pending.new Pending.evict Pending.store
    Pending.flag Pending.insert_with_payee Pending.claim_solution Pending.Invariant.step
    Pending.Invariant.run lane_run inserts_in lane_of ℕ_discrete behind
program = tt

abbrev empty : MergedPending ℕ ℕ
unfolding Pending.new
empty = Pending.new 3

-- Two lanes are served and the first is solved.
abbrev traffic : List (Call ℕ ℕ)
traffic = inserts 7 70 false ∷ inserts 8 80 true ∷ claims 7 ∷ []

abbrev busy : MergedPending ℕ ℕ
unfolding program
busy = run traffic empty

run-new-Queued_example : IsValid (run traffic (Pending.new 3))
unfolding program
run-new-Queued_example = run-new-Queued 3 traffic

lane_refines_example :
    lane_of (run (claims 9 ∷ inserts 9 91 true ∷ []) (insert_with_payee busy 9 90 false)) 9
    ≡ lane_run {Hash = ℕ} 9
        (claims 9 ∷ inserts 9 91 true ∷ [])
        (record { block = some 90; paid = none; solved = none })
unfolding program
lane_refines_example =
    lane_refines (claims 9 ∷ inserts 9 91 true ∷ []) busy 9 90 false (run-new-Queued 3 traffic) refl
      (omega arith)

claim_once_example :
    (claim_solution
      (run
        (inserts 9 90 false ∷ inserts 8 81 true ∷ [])
        (claim_solution (run (inserts 8 80 true ∷ []) empty) 8).0)
      8).1
    ≡ false
unfolding program
claim_once_example =
    claim_once (inserts 9 90 false ∷ inserts 8 81 true ∷ []) (run (inserts 8 80 true ∷ []) empty) 8
      0 refl (omega arith) refl

-- A hash of two numbers that tells their order.
abbrev pair_hash : ℕ → ℕ → ℕ
pair_hash l r = 10 * l + r

five_leaves_branch : coinbase_merkle_branch pair_hash 0 (1 ∷ 2 ∷ 3 ∷ 4 ∷ 5 ∷ []) ≡ 2 ∷ 34 ∷ 500 ∷ []
unfolding coinbase_merkle_branch Branch.leaves Branch.next_power_of_two Branch.grow
    Branch.branch_loop Branch.next_level
five_leaves_branch = refl

coinbase_branch_root_example :
    merkle_root pair_hash 0 (1 ∷ 2 ∷ 3 ∷ 4 ∷ 5 ∷ [])
    ≡ some (fold_branch pair_hash 0 1 (coinbase_merkle_branch pair_hash 0 (1 ∷ 2 ∷ 3 ∷ 4 ∷ 5 ∷ [])))
coinbase_branch_root_example = coinbase_branch_root pair_hash 0 1 (2 ∷ 3 ∷ 4 ∷ 5 ∷ [])

fee_minutes_example : count 60 (is_fee_minute 1 3) ≡ 1
fee_minutes_example = fee_minutes 1 3 (omega arith)
