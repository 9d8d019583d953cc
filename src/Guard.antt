-- ===== src/Guard.antt =====
-- The bridge's two memories of recent submissions. A guard keeps a map from keys to time-stamped
-- entries and the queue of the keys, oldest first. `prune`, the same text in
-- bridge-src/bridge/src/share_handler.rs (DuplicateSubmitGuard) and in
-- bridge-src/bridge/src/kaspaapi.rs (BlockSubmitGuard), first drops entries from the front of the
-- queue while they are missing or older than the time to live, and then while there are too many.
-- `stamp` reads the time of an entry. An `Instant` is a number, and `duration_since` is 0 for a
-- time that lies ahead.
pub mod Loops
pub mod DuplicateSubmit
pub mod BlockSubmit
pub mod Remark
mod Tests
use solo_dual_mode.Prelude.{ℕ, ◌-◌, Bool, true, false, List, [], ◌∷◌, Option, none, some, ltb, Key}
use solo_dual_mode.Prelude.Dict.{Dict, get, remove, size}

-- The loop's `remove`: the front entry is missing or has run out.
abbrev pub is_stale : {E : Type 0} (stamp : E → ℕ) (ttl now : ℕ) → Option E → Bool
is_stale stamp ttl now none = true
is_stale stamp ttl now (some e) = ltb ttl (now - stamp e)

module _ {K E : Type 0} ⦃key : Key K⦄ (stamp : E → ℕ) (ttl now : ℕ) where
  unfoldable pub drop_stale : List K → Dict K E → List K × Dict K E
  drop_stale [] entries = ([], entries)
  drop_stale (front ∷ order) entries = elim (is_stale stamp ttl now (get front entries)) [
    | true ↦ drop_stale order (remove front entries)
    | false ↦ (front ∷ order, entries)
  ]

module _ {K E : Type 0} ⦃key : Key K⦄ (max_entries : ℕ) where
  unfoldable pub drop_excess : List K → Dict K E → List K × Dict K E
  drop_excess [] entries = ([], entries)
  drop_excess (front ∷ order) entries = elim (ltb max_entries (size entries)) [
    | true ↦ drop_excess order (remove front entries)
    | false ↦ (front ∷ order, entries)
  ]
