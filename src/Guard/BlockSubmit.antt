-- ===== src/Guard/BlockSubmit.antt =====
-- bridge-src/bridge/src/kaspaapi.rs, `BlockSubmitGuard`: the hashes of the blocks submitted in the
-- last ten minutes. `submit_block` marks a hash before the call to the node and removes it when the
-- call fails for another reason than a duplicate. `remove` leaves the key in the queue.
pub mod Invariant
pub mod Once
use solo_dual_mode.Prelude.{ℕ, Bool, true, false, List, [], ◌∷◌, ◌++◌, none, some, Key}
use solo_dual_mode.Prelude.Dict
use solo_dual_mode.Prelude.Dict.{Dict, get, insert}
use solo_dual_mode.Guard.{drop_stale, drop_excess}

pub record BlockSubmitGuard (K : Type 0) : Type 0 where
  pub ttl : ℕ
  pub max_entries : ℕ
  pub entries : Dict K ℕ
  pub order : List K

-- An entry is its time.
abbrev pub instant : ℕ → ℕ
instant ts = ts

module _ {K : Type 0} where
  unfoldable pub new : ℕ → ℕ → BlockSubmitGuard K
  new ttl max_entries = record { ttl = ttl; max_entries = max_entries; entries = []; order = [] }

module _ {K : Type 0} ⦃key : Key K⦄ where
  unfoldable pub prune : BlockSubmitGuard K → ℕ → BlockSubmitGuard K
  prune g now =
      let live = drop_stale instant g.ttl now g.order g.entries in
      let kept = drop_excess g.max_entries live.0 live.1 in
      record g { entries = kept.1; order = kept.0 }

  -- The body of `try_mark` after `prune`.
  unfoldable pub mark : BlockSubmitGuard K → K → ℕ → BlockSubmitGuard K × Bool
  mark g hash now = elim (get hash g.entries) [
    | some ts ↦ (g, false)
    | none ↦ (record g { entries = insert hash now g.entries; order = g.order ++ hash ∷ [] }, true)
  ]

  unfoldable pub try_mark : BlockSubmitGuard K → K → ℕ → BlockSubmitGuard K × Bool
  try_mark g hash now = mark (prune g now) hash now

  unfoldable pub remove : BlockSubmitGuard K → K → ℕ → BlockSubmitGuard K
  remove g hash now = let g' = prune g now in record g' { entries = Dict.remove hash g'.entries }
