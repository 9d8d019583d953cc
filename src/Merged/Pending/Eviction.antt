-- ===== src/Merged/Pending/Eviction.antt =====
-- The invariant of `MergedPending`, and the loop that evicts the oldest blocks.
use solo_dual_mode.Prelude.{
  ℕ, ◌≤◌, ◌<◌, ◌≡◌, List, [], ◌∷◌, none, some, arith, Key, length, Bool-cases, inl, inr, ltb,
}
use solo_dual_mode.Prelude.Dict.{
  Dict, get, insert, remove, size, IsDict, get-insert, get-remove, remove-IsDict, size-le-remove,
}
use solo_dual_mode.Prelude.Fifo.{Covers, size-le_of_Covers, behind}
use solo_dual_mode.Merged.Pending.{MergedPending, evict}

-- The queue of a map: each key once.
pub record Queued {Hash Block : Type 0} ⦃key : Key Hash⦄ (order : List Hash) (map : Dict Hash Block)
    : Type 0 where
  pub distinct : IsDict map
  pub covered : Covers order map
  pub synced : length order ≡ size map

-- A set has only keys of the map.
abbrev pub Within :
    {Hash Block : Type 0} ⦃key : Key Hash⦄ → Dict Hash (Unit {0}) → Dict Hash Block → Type 0
Within set map = (k : _) → get k map ≡ none → get k set ≡ none

pub record IsValid {Hash Block : Type 0} ⦃key : Key Hash⦄ (p : MergedPending Hash Block)
    : Type 0 where
  pub queued : Queued p.order p.map
  pub room : 0 < p.cap
  pub bounded : length p.order ≤ p.cap
  pub solved_within : Within p.solved p.map
  pub fee_within : Within p.fee_lane p.map

module _ {Hash Block : Type 0} ⦃key : Key Hash⦄ where
  pub pop-Queued :
      (old : Hash) (order : List Hash) (map : Dict Hash Block)
      → Queued (old ∷ order) map
      → Queued order (remove old map)
  pop-Queued old order map q =
      let d = remove-IsDict old map q.distinct in
      record {
        distinct = d;
        covered = q.covered;
        synced = omega (
          arith,
          q.synced,
          size-le_of_Covers order (remove old map) d q.covered,
          size-le-remove old map q.distinct,
        );
      }

  pub remove-Within :
      (old : Hash) (set : Dict Hash (Unit {0})) (map : Dict Hash Block)
      → Within set map
      → Within (remove old set) (remove old map)
  remove-Within old set map w k h = ground (arith, get-remove old k set, get-remove old k map, w k)

  pub insert-Within :
      (j : Hash) (b : Block) (set : Dict Hash (Unit {0})) (map : Dict Hash Block)
      → Within set map
      → Within set (insert j b map)
  insert-Within j b set map w k h = ground (arith, get-insert j k b map, w k)

  pub evict-IsValid :
      (order : List Hash) (p : MergedPending Hash Block)
      → Queued order p.map
      → 0 < p.cap
      → Within p.solved p.map
      → Within p.fee_lane p.map
      → IsValid (evict order p)
  unfolding evict
  evict-IsValid [] p q room s f = record {
    queued = q;
    room = room;
    bounded = omega arith;
    solved_within = s;
    fee_within = f;
  }
  evict-IsValid (old ∷ order) p q room s f = elim (Bool-cases (ltb p.cap (length (old ∷ order)))) [
    | inl long ↦
        rw (long, evict)
          (evict-IsValid order _ (pop-Queued old order p.map q) room
            (remove-Within old p.solved p.map s) (remove-Within old p.fee_lane p.map f))
    | inr fits ↦
        rw (fits, evict)
          (record {
            queued = q;
            room = room;
            bounded = ground arith;
            solved_within = s;
            fee_within = f;
          })
  ]

  -- A lane with fewer keys than the capacity behind it is not touched.
  pub evict-keeps :
      (k : Hash) (n : ℕ) (order : List Hash) (p : MergedPending Hash Block)
      → behind k order ≡ some n
      → n < p.cap
      → let p' = evict order p in
        (behind k p'.order ≡ some n)
        × (get k p'.map ≡ get k p.map)
        × (get k p'.solved ≡ get k p.solved)
        × (get k p'.fee_lane ≡ get k p.fee_lane)
  unfolding evict behind
  evict-keeps k n [] p b few = absurd (ground arith)
  evict-keeps k n (j ∷ order) p b few =
      let next = record p {
        map = remove j p.map;
        solved = remove j p.solved;
        fee_lane = remove j p.fee_lane;
      } in
      ground (
        arith,
        get-remove j k p.map,
        get-remove j k p.solved,
        get-remove j k p.fee_lane,
        evict-keeps k n order next,
      )
