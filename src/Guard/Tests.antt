-- ===== src/Guard/Tests.antt =====
-- Runs of the two guards at concrete inputs, and the instances of their theorems.
use solo_dual_mode.Prelude.{
  ℕ, ◌≤◌, ◌≡◌, refl, true, false, List, [], ◌∷◌, some, none, arith, length, nat_key, ℕ_discrete,
}
use solo_dual_mode.Prelude.Dict
use solo_dual_mode.Prelude.Dict.{size}
use solo_dual_mode.Prelude.Fifo.{behind}
use solo_dual_mode.Guard.{drop_stale, drop_excess}
use solo_dual_mode.Guard.DuplicateSubmit
use solo_dual_mode.Guard.DuplicateSubmit.{DuplicateSubmitGuard, in_flight, low_diff}
use solo_dual_mode.Guard.DuplicateSubmit.Invariant.{checks, settles}
use solo_dual_mode.Guard.DuplicateSubmit.Once.{settled_all, checks_in}
use solo_dual_mode.Guard.BlockSubmit
use solo_dual_mode.Guard.BlockSubmit.{BlockSubmitGuard}
use solo_dual_mode.Guard.BlockSubmit.Invariant.{marks, removes}
use solo_dual_mode.Guard.BlockSubmit.Once.{marks_in}
use solo_dual_mode.Guard.Remark.{remarked_twice}

program : Unit {0}
unfolding Dict.get Dict.insert Dict.remove drop_stale drop_excess DuplicateSubmit.new
    DuplicateSubmit.prune DuplicateSubmit.lookup DuplicateSubmit.push_inflight
    DuplicateSubmit.insert_inflight DuplicateSubmit.overwrite DuplicateSubmit.set_outcome
    DuplicateSubmit.check DuplicateSubmit.Invariant.step DuplicateSubmit.Invariant.run
    DuplicateSubmit.Once.settled_all DuplicateSubmit.Once.checks_in BlockSubmit.new
    BlockSubmit.prune BlockSubmit.mark BlockSubmit.try_mark BlockSubmit.remove
    BlockSubmit.Invariant.step BlockSubmit.Invariant.run BlockSubmit.Once.marks_in ℕ_discrete behind
program = tt

abbrev guard : DuplicateSubmitGuard ℕ
unfolding DuplicateSubmit.new
guard = DuplicateSubmit.new 180 3

-- Another submission, then the verdict on submission 7.
abbrev traffic : List (ℕ × DuplicateSubmit.Invariant.Call ℕ)
traffic = (20, checks 8) ∷ (30, settles 7 low_diff) ∷ []

check_once_example :
    (DuplicateSubmit.check
      (DuplicateSubmit.Invariant.run traffic (DuplicateSubmit.check guard 7 10).0)
      7
      100).1
    ≡ some (settled_all 7 traffic in_flight)
unfolding program
check_once_example =
    DuplicateSubmit.Once.check_once guard 7 10 100 traffic
      (record { sound = record { distinct = tt; covered = refl }; synced = refl }) refl
      (omega arith) (omega arith) (omega arith)

settled_example : settled_all 7 traffic in_flight ≡ low_diff
unfolding program
settled_example = refl

expired_example : (DuplicateSubmit.check (DuplicateSubmit.check guard 7 10).0 7 191).1 ≡ none
unfolding program
expired_example = refl

run-new-bounded_example :
    let g = DuplicateSubmit.Invariant.run traffic (DuplicateSubmit.new 180 3) in
    DuplicateSubmit.Invariant.IsValid g × (size g.entries ≤ 4) × (length g.order ≤ 4)
run-new-bounded_example = DuplicateSubmit.Invariant.run-new-bounded 180 3 traffic

abbrev marker : BlockSubmitGuard ℕ
unfolding BlockSubmit.new
marker = BlockSubmit.new 600 2

abbrev blocks : List (ℕ × BlockSubmit.Invariant.Call ℕ)
blocks = (20, marks 8) ∷ (30, removes 8) ∷ []

mark_once_example :
    (BlockSubmit.try_mark
      (BlockSubmit.Invariant.run blocks (BlockSubmit.try_mark marker 7 10).0)
      7
      100).1
    ≡ false
unfolding program
mark_once_example =
    BlockSubmit.Once.mark_once marker 7 10 100 blocks (record { distinct = tt; covered = refl })
      refl refl ((omega arith, tt), ((omega arith, omega arith), tt)) (omega arith) (omega arith)

-- Hash 2 was removed from a guard of two that then filled up.
ghost : BlockSubmitGuard ℕ
unfolding program
ghost =
    BlockSubmit.Invariant.run ((5, marks 1) ∷ (5, marks 2) ∷ (5, removes 2) ∷ (5, marks 3) ∷ [])
      marker

remarked_twice_example :
    let once = BlockSubmit.try_mark ghost 2 5 in
    let other = BlockSubmit.try_mark once.0 4 5 in
    let again = BlockSubmit.try_mark other.0 2 5 in
    (once.1 ≡ true) × (other.1 ≡ true) × (again.1 ≡ true)
unfolding ghost
remarked_twice_example = remarked_twice ghost 1 2 4 (3 ∷ []) 5 (record {
  queue = refl;
  distinct = (refl, (refl, tt));
  front = refl;
  removed = refl;
  fresh = refl;
  full = refl;
  differ = omega arith;
})

run-new-IsValid_example :
    let g = BlockSubmit.Invariant.run blocks (BlockSubmit.new 600 2) in
    BlockSubmit.Invariant.IsValid g × (size g.entries ≤ 3)
run-new-IsValid_example = BlockSubmit.Invariant.run-new-IsValid 600 2 blocks
