-- ===== src/Merged/Pending.antt =====
-- bridge-src/bridge/src/merged.rs, `MergedPending`: the ZKas blocks that await a solved parent, by
-- their hash `H_fc`, with the lanes whose parent pays the pool and the lanes that are solved.
pub mod Eviction
pub mod Invariant
pub mod Lanes
use solo_dual_mode.Prelude.{
  ℕ, Bool, true, false, ◌&&◌, not, List, [], ◌∷◌, ◌++◌, Option, none, some, Key, ltb, length,
  if◌then◌else◌,
}
use solo_dual_mode.Prelude.Dict.{Dict, get, insert, remove, contains}

pub record MergedPending (Hash Block : Type 0) : Type 0 where
  pub map : Dict Hash Block
  pub fee_lane : Dict Hash (Unit {0})
  pub order : List Hash
  pub solved : Dict Hash (Unit {0})
  pub cap : ℕ

module _ {Hash Block : Type 0} where
  -- A capacity of 0 is taken for 1.
  unfoldable pub new : ℕ → MergedPending Hash Block
  new cap = record {
    map = [];
    fee_lane = [];
    order = [];
    solved = [];
    cap = if ltb 1 cap then cap else 1;
  }

module _ {Hash Block : Type 0} ⦃key : Key Hash⦄ where
  -- The loop of `insert_with_payee`: while the queue is too long, its front leaves everything.
  unfoldable pub evict : List Hash → MergedPending Hash Block → MergedPending Hash Block
  evict [] p = record p { order = [] }
  evict (old ∷ order) p = elim (ltb p.cap (length (old ∷ order))) [
    | true ↦ evict order (record p {
      map = remove old p.map;
      solved = remove old p.solved;
      fee_lane = remove old p.fee_lane;
    })
    | false ↦ record p { order = old ∷ order }
  ]

  -- The block is stored; a new hash is queued, and the oldest make room.
  unfoldable pub store : MergedPending Hash Block → Hash → Block → MergedPending Hash Block
  store p h_fc fc_block =
      let p' = record p { map = insert h_fc fc_block p.map } in
      elim (get h_fc p.map) [ some old ↦ p' | none ↦ evict (p.order ++ h_fc ∷ []) p' ]

  unfoldable pub flag : MergedPending Hash Block → Hash → Bool → MergedPending Hash Block
  flag p h_fc true = record p { fee_lane = insert h_fc tt p.fee_lane }
  flag p h_fc false = record p { fee_lane = remove h_fc p.fee_lane }

  unfoldable pub insert_with_payee :
      MergedPending Hash Block → Hash → Block → Bool → MergedPending Hash Block
  insert_with_payee p h_fc fc_block paid_pool = flag (store p h_fc fc_block) h_fc paid_pool

  unfoldable pub paid_pool : MergedPending Hash Block → Hash → Bool
  unfolding contains
  paid_pool p h_fc = contains h_fc p.fee_lane

  unfoldable pub get_block : MergedPending Hash Block → Hash → Option Block
  get_block p h_fc = get h_fc p.map

  -- `HashSet::insert` answers whether the element is new.
  unfoldable pub claim_solution : MergedPending Hash Block → Hash → MergedPending Hash Block × Bool
  unfolding contains
  claim_solution p h_fc =
      if contains h_fc p.map
      then (record p { solved = insert h_fc tt p.solved }, not (contains h_fc p.solved))
      else (p, false)

  unfoldable pub is_unsolved : MergedPending Hash Block → Hash → Bool
  unfolding contains
  is_unsolved p h_fc = contains h_fc p.map && not (contains h_fc p.solved)
