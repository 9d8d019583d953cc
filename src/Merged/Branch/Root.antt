-- ===== src/Merged/Branch/Root.antt =====
-- The branch of the coinbase against the Merkle tree read from the top: the root of a tree of depth
-- `d` combines the roots of the first `2 ^ d` leaves and of the rest.
use solo_dual_mode.Prelude.{
  ℕ, zero, suc, ◌+◌, ◌-◌, ◌*◌, ◌^◌, ◌≤◌, ◌≡◌, refl, ap, ap₂, ◌∙◌, List, [], ◌∷◌, ◌++◌, Option, none,
  some, map, arith, length, length-append, length-take, length-drop, length-replicate, take, drop,
  ltb, leb, Bool-cases, inl, inr, replicate, true, false,
}
use native.Mathlib.Nat.{mul_assoc}
use solo_dual_mode.Merged.Branch.{
  grow, next_power_of_two, unwrap_or, leaves, combine, next_level, branch_loop,
  coinbase_merkle_branch,
}

-- The exponent of a power of two: how often `grow` doubles.
unfoldable pub depth : ℕ → ℕ → ℕ → ℕ
depth zero p n = 0
depth (suc fuel) p n = elim (ltb p n) [ true ↦ suc (depth fuel (p * 2) n) | false ↦ 0 ]

-- `n * 2`, by clauses.
abbrev twice : ℕ → ℕ
twice zero = 0
twice (suc n) = suc (suc (twice n))

twice_double : (n : ℕ) → twice n ≡ n * 2
twice_double zero = refl
twice_double (suc n) = omega (arith, twice_double n)

half : (d : ℕ) → 2 ^ suc d ≡ twice (2 ^ d)
half d = omega (arith, twice_double (2 ^ d))

grow-depth : (fuel p n : ℕ) → grow fuel p n ≡ p * 2 ^ depth fuel p n
unfolding grow depth
grow-depth zero p n = ground arith
grow-depth (suc fuel) p n = elim (Bool-cases (ltb p n)) [
  | inl more ↦
      rw (more, grow, depth)
        (ground (arith, grow-depth fuel (p * 2) n, mul_assoc p 2 (2 ^ depth fuel (p * 2) n)))
  | inr done ↦ rw (done, grow, depth) (omega arith)
]

grow-enough : (fuel p n : ℕ) → 1 ≤ p → n ≤ fuel + p → n ≤ grow fuel p n
unfolding grow
grow-enough zero p n pos enough = ground (arith, enough)
grow-enough (suc fuel) p n pos enough = ground (arith, grow-enough fuel (p * 2) n, pos, enough)

depth-small : (fuel p n : ℕ) → 1 ≤ p → depth fuel p n ≤ fuel
unfolding depth
depth-small zero p n pos = ground arith
depth-small (suc fuel) p n pos = ground (arith, depth-small fuel (p * 2) n, pos)

many : (n : ℕ) → leb (suc (suc n)) 1 ≡ false
many n = ground arith

module _ {Hash : Type 0} (merkle_hash : Hash → Hash → Hash) (zero_hash : Hash) where
  first : List (Option Hash) → Option Hash
  first [] = none
  first (x ∷ xs) = x

  unfoldable pub tree_root : ℕ → List (Option Hash) → Option Hash
  unfolding first
  tree_root zero level = first level
  tree_root (suc d) level =
      combine merkle_hash zero_hash (tree_root d (take (2 ^ d) level))
        (tree_root d (drop (2 ^ d) level))

  -- What a verifier does with a branch: the coinbase is a left child on every level.
  unfoldable pub fold_branch : Hash → List Hash → Hash
  fold_branch acc [] = acc
  fold_branch acc (sibling ∷ branch) = fold_branch (merkle_hash acc sibling) branch

  next_level-take :
      (n : ℕ) (level : List (Option Hash))
      → next_level merkle_hash zero_hash (take (twice n) level)
        ≡ take n (next_level merkle_hash zero_hash level)
  unfolding next_level
  next_level-take zero level = refl
  next_level-take (suc n) [] = refl
  next_level-take (suc zero) (l ∷ []) = refl
  next_level-take (suc (suc n)) (l ∷ []) = refl
  next_level-take (suc n) (l ∷ r ∷ level) =
      ap (combine merkle_hash zero_hash l r ∷◌) (next_level-take n level)

  next_level-drop :
      (n : ℕ) (level : List (Option Hash))
      → next_level merkle_hash zero_hash (drop (twice n) level)
        ≡ drop n (next_level merkle_hash zero_hash level)
  unfolding next_level
  next_level-drop zero level = refl
  next_level-drop (suc n) [] = refl
  next_level-drop (suc zero) (l ∷ []) = refl
  next_level-drop (suc (suc n)) (l ∷ []) = refl
  next_level-drop (suc n) (l ∷ r ∷ level) = next_level-drop n level

  length-next_level :
      (n : ℕ) (level : List (Option Hash))
      → length level ≡ n * 2
      → length (next_level merkle_hash zero_hash level) ≡ n
  unfolding next_level
  length-next_level n [] h = omega (arith, h)
  length-next_level n (l ∷ []) h = absurd (omega (arith, h))
  length-next_level n (l ∷ r ∷ level) h =
      omega (arith, length-next_level (n - 1) level (omega (arith, h)), h)

  -- A full tree is the tree of the next level, one less deep.
  tree_root-next_level :
      (d : ℕ) (level : List (Option Hash))
      → length level ≡ 2 ^ suc d
      → tree_root (suc d) level ≡ tree_root d (next_level merkle_hash zero_hash level)
  unfolding tree_root first next_level
  tree_root-next_level zero [] h = refl
  tree_root-next_level zero (l ∷ []) h = refl
  tree_root-next_level zero (l ∷ r ∷ level) h = refl
  tree_root-next_level (suc d) level h =
      let n = 2 ^ suc d in
      let left = tree_root-next_level d (take n level) (omega (arith, length-take n level, h)) in
      let right = tree_root-next_level d (drop n level) (omega (arith, length-drop n level, h)) in
      let even = half d in
      ap₂ (combine merkle_hash zero_hash)
        (left ∙ ap (tree_root d) (rw even (next_level-take (2 ^ d) level)))
        (right ∙ ap (tree_root d) (rw even (next_level-drop (2 ^ d) level)))

  fold-branch_loop :
      (d fuel : ℕ) (leaf : Hash) (level : List (Option Hash))
      → length (some leaf ∷ level) ≡ 2 ^ d
      → d ≤ fuel
      → tree_root d (some leaf ∷ level)
        ≡ some (fold_branch leaf (branch_loop merkle_hash zero_hash fuel (some leaf ∷ level)))
  unfolding tree_root first fold_branch branch_loop next_level
  fold-branch_loop zero zero leaf level full enough = refl
  fold-branch_loop zero (suc fuel) leaf [] full enough = refl
  fold-branch_loop zero (suc fuel) leaf (r ∷ level) full enough = absurd (omega (arith, full))
  fold-branch_loop (suc d) zero leaf level full enough = absurd (omega (arith, enough))
  fold-branch_loop (suc d) (suc fuel) leaf [] full enough = absurd (omega (arith, full))
  fold-branch_loop (suc d) (suc fuel) leaf (r ∷ level) full enough =
      let l = some leaf ∷ r ∷ level in
      tree_root-next_level d l full
      ∙ fold-branch_loop d fuel (merkle_hash leaf (unwrap_or zero_hash r))
          (next_level merkle_hash zero_hash level)
          (length-next_level (2 ^ d) l (omega (arith, full))) (omega (arith, enough))

  -- The leaves are a power of two, and the depth is within the loop's fuel.
  length-pad :
      (level : List (Option Hash))
      → let n = length level in
        let padded = level ++ replicate (next_power_of_two n - n) none in
        (length padded ≡ 2 ^ depth n 1 n) × (depth n 1 n ≤ length padded)
  unfolding next_power_of_two
  length-pad level =
      let n = length level in
      ground (
        arith,
        length-append level (replicate (grow n 1 n - n) none),
        length-replicate {A = Option Hash} (grow n 1 n - n) none,
        grow-depth n 1 n,
        grow-enough n 1 n (omega arith) (omega arith),
        depth-small n 1 n (omega arith),
      )

  -- The Merkle root of a list of transactions, from the top.
  unfoldable pub merkle_root : List Hash → Option Hash
  merkle_root hashes = let n = length (map some hashes) in tree_root (depth n 1 n) (leaves hashes)

  single :
      (coinbase : Hash)
      → merkle_root (coinbase ∷ [])
        ≡ some (fold_branch coinbase (coinbase_merkle_branch merkle_hash zero_hash (coinbase ∷ [])))
  unfolding merkle_root coinbase_merkle_branch leaves tree_root first depth fold_branch
      next_power_of_two grow
  single coinbase = refl

  -- Folding the branch that the source builds over the coinbase's hash gives the root of the tree
  -- of all transactions, for every number of them.
  pub coinbase_branch_root :
      (coinbase : Hash) (others : List Hash)
      → merkle_root (coinbase ∷ others)
        ≡ some (
            fold_branch coinbase (coinbase_merkle_branch merkle_hash zero_hash (coinbase ∷ others)))
  unfolding merkle_root leaves coinbase_merkle_branch
  coinbase_branch_root coinbase [] = single coinbase
  coinbase_branch_root coinbase (tx ∷ others) =
      let level = map some (coinbase ∷ tx ∷ others) in
      let n = length level in
      let (full, enough) = length-pad level in
      let several = many (length others) in
      rw (several, coinbase_merkle_branch)
        (fold-branch_loop (depth n 1 n) (length (leaves (coinbase ∷ tx ∷ others))) coinbase
          (map some (tx ∷ others) ++ replicate (next_power_of_two n - n) none) full enough)
