-- ===== src/MiningState/Ring.antt =====
-- The abstract view of a connection's jobs: the list of all that were ever published, of which the
-- last 300 are retained; and the slots of that list.
use solo_dual_mode.Prelude.{
  ℕ, suc, ◌+◌, ◌-◌, ◌%◌, ◌≤◌, ◌≡◌, ◌&&◌, List, [], ◌∷◌, Option, none, some, arith, ltb, leb,
  if◌then◌else◌, ite, ℕ_discrete, length, get_elem?,
}
use solo_dual_mode.MiningState.{max_jobs}

-- Newest first, each with the difficulty in force: the first of `n` jobs has number `n`.
abbrev pub History : Type 0 → Type 0 → Type 0
History J D = List (J × Option D)

module _ {J D : Type 0} where
  -- The job with a number, if it is one of the last 300.
  unfoldable pub retained : History J D → ℕ → Option (J × Option D)
  retained h id =
      if ltb 0 id && (leb id (length h) && ltb (length h) (id + max_jobs))
      then get_elem? h (length h - id)
      else none

  -- The newest job whose number falls into a slot, with its number.
  unfoldable pub slot_entry : History J D → ℕ → Option (ℕ × J × Option D)
  slot_entry [] k = none
  slot_entry ((j, d) ∷ h) k =
      ite (ℕ_discrete (suc (length h) % max_jobs) k) (some (suc (length h), j, d)) (slot_entry h k)

  abbrev pub exact : ℕ → Option (ℕ × J × Option D) → Option (J × Option D)
  exact id none = none
  exact id (some (i, j, d)) = ite (ℕ_discrete i id) (some (j, d)) none

  get_elem?-older :
      (e : J × Option D) (h : History J D) (id : ℕ)
      → id ≤ length h
      → get_elem? (e ∷ h) (suc (length h) - id) ≡ get_elem? h (length h - id)
  get_elem?-older e h id le =
      let step : suc (length h) - id ≡ suc (length h - id) = omega arith in rw step

  get_elem?-newest :
      (e : J × Option D) (h : History J D) (id : ℕ)
      → id ≡ suc (length h)
      → get_elem? (e ∷ h) (suc (length h) - id) ≡ some e
  get_elem?-newest e h id eq = let first : suc (length h) - id ≡ 0 = omega arith in rw first

  -- Asking the slot for the exact number gives the retained jobs, and never another one.
  pub exact-slot_entry :
      (h : History J D) (id : ℕ) → exact id (slot_entry h (id % max_jobs)) ≡ retained h id
  unfolding slot_entry retained
  exact-slot_entry [] id = ground arith
  exact-slot_entry ((j, d) ∷ h) id =
      ground
        (arith, exact-slot_entry h id, get_elem?-older (j, d) h id, get_elem?-newest (j, d) h id)
