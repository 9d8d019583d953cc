-- ===== src/Merged/Branch.antt =====
-- bridge-src/bridge/src/merged.rs, `coinbase_merkle_branch`: the sibling hashes on the way from the
-- coinbase, which is the first transaction, to the Merkle root of the parent's transactions. The
-- hash of a pair of nodes is the argument `merkle_hash`, and `zero_hash` stands for an absent right
-- node. The transactions are given by their hashes.
pub mod Root
use solo_dual_mode.Prelude.{
  ℕ, zero, suc, ◌-◌, ◌*◌, Bool, true, false, List, [], ◌∷◌, ◌++◌, Option, none, some, map, ltb, leb,
  length, replicate,
}

-- `usize::next_power_of_two`: the first of `p`, `2 p`, … that is not below `n`.
unfoldable pub grow : ℕ → ℕ → ℕ → ℕ
grow zero p n = p
grow (suc fuel) p n = elim (ltb p n) [ true ↦ grow fuel (p * 2) n | false ↦ p ]

-- `n` doublings are always enough.
unfoldable pub next_power_of_two : ℕ → ℕ
next_power_of_two n = grow n 1 n

module _ {Hash : Type 0} where
  abbrev pub unwrap_or : Hash → Option Hash → Hash
  unwrap_or default none = default
  unwrap_or default (some h) = h

  -- The leaves, with absent ones up to a power of two.
  unfoldable pub leaves : List Hash → List (Option Hash)
  leaves hashes =
      let level = map some hashes in
      level ++ replicate (next_power_of_two (length level) - length level) none

module _ {Hash : Type 0} (merkle_hash : Hash → Hash → Hash) (zero_hash : Hash) where
  -- The parent of two nodes; without a left node there is none.
  abbrev pub combine : Option Hash → Option Hash → Option Hash
  combine none r = none
  combine (some l) r = some (merkle_hash l (unwrap_or zero_hash r))

  -- The next level: `chunks(2)`, of which the last may be a single node.
  unfoldable pub next_level : List (Option Hash) → List (Option Hash)
  next_level [] = []
  next_level (l ∷ []) = combine l none ∷ []
  next_level (l ∷ r ∷ level) = combine l r ∷ next_level level

  -- The loop, which halves the level each time. The index of the coinbase stays 0, and its sibling
  -- is the node at index 1.
  unfoldable pub branch_loop : ℕ → List (Option Hash) → List Hash
  branch_loop zero level = []
  branch_loop (suc fuel) [] = []
  branch_loop (suc fuel) (l ∷ []) = []
  branch_loop (suc fuel) (l ∷ r ∷ level) =
      unwrap_or zero_hash r ∷ branch_loop fuel (next_level (l ∷ r ∷ level))

  unfoldable pub coinbase_merkle_branch : List Hash → List Hash
  coinbase_merkle_branch hashes = elim (leb (length hashes) 1) [
    | true ↦ []
    | false ↦ branch_loop (length (leaves hashes)) (leaves hashes)
  ]
