-- ===== src/Guard/DuplicateSubmit.antt =====
-- bridge-src/bridge/src/share_handler.rs, `DuplicateSubmitGuard`: the memory of the submissions of
-- the last three minutes, with what became of each. `check` is the block of `handle_submit` that
-- looks a submission up and, if it is new, notes it under the same lock.
pub mod Invariant
pub mod Memory
pub mod Once
use solo_dual_mode.Prelude.{ℕ, Bool, true, false, List, [], ◌∷◌, ◌++◌, Option, none, some, Key}
use solo_dual_mode.Prelude.Dict.{Dict, get, insert}
use solo_dual_mode.Guard.{drop_stale, drop_excess}

pub data DuplicateSubmitOutcome : Type 0 where
  in_flight accepted stale low_diff bad : DuplicateSubmitOutcome

pub record DuplicateSubmitEntry : Type 0 where
  pub ts : ℕ
  pub outcome : DuplicateSubmitOutcome

pub record DuplicateSubmitGuard (K : Type 0) : Type 0 where
  pub ttl : ℕ
  pub max_entries : ℕ
  pub entries : Dict K DuplicateSubmitEntry
  pub order : List K

abbrev pub ts_of : DuplicateSubmitEntry → ℕ
ts_of e = e.ts

-- The outcome of an entry.
abbrev pub outcome_of : Option DuplicateSubmitEntry → Option DuplicateSubmitOutcome
outcome_of none = none
outcome_of (some e) = some e.outcome

module _ {K : Type 0} where
  unfoldable pub new : ℕ → ℕ → DuplicateSubmitGuard K
  new ttl max_entries = record { ttl = ttl; max_entries = max_entries; entries = []; order = [] }

module _ {K : Type 0} ⦃key : Key K⦄ where
  unfoldable pub prune : DuplicateSubmitGuard K → ℕ → DuplicateSubmitGuard K
  prune g now =
      let live = drop_stale ts_of g.ttl now g.order g.entries in
      let kept = drop_excess g.max_entries live.0 live.1 in
      record g { entries = kept.1; order = kept.0 }

  unfoldable pub lookup :
      DuplicateSubmitGuard K → K → ℕ → DuplicateSubmitGuard K × Option DuplicateSubmitOutcome
  lookup g k now = let g' = prune g now in (g', outcome_of (get k g'.entries))

  -- The body of `insert_inflight` after `prune`.
  unfoldable pub push_inflight : DuplicateSubmitGuard K → K → ℕ → DuplicateSubmitGuard K
  push_inflight g k now = elim (get k g.entries) [
    | some e ↦ g
    | none ↦ record g {
      entries = insert k (record { ts = now; outcome = in_flight }) g.entries;
      order = g.order ++ k ∷ [];
    }
  ]

  unfoldable pub insert_inflight : DuplicateSubmitGuard K → K → ℕ → DuplicateSubmitGuard K
  insert_inflight g k now = push_inflight (prune g now) k now

  -- The body of `set_outcome` after `prune`.
  unfoldable pub overwrite :
      DuplicateSubmitGuard K → K → ℕ → DuplicateSubmitOutcome → DuplicateSubmitGuard K
  overwrite g k now outcome = elim (get k g.entries) [
    | none ↦ g
    | some e ↦ record g { entries = insert k (record { ts = now; outcome = outcome }) g.entries }
  ]

  unfoldable pub set_outcome :
      DuplicateSubmitGuard K → K → ℕ → DuplicateSubmitOutcome → DuplicateSubmitGuard K
  set_outcome g k now outcome = overwrite (prune g now) k now outcome

  unfoldable pub check :
      DuplicateSubmitGuard K → K → ℕ → DuplicateSubmitGuard K × Option DuplicateSubmitOutcome
  check g k now =
      let (g', seen) = lookup g k now in
      elim seen [ some outcome ↦ (g', some outcome) | none ↦ (insert_inflight g' k now, none) ]
