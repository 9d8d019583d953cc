-- ===== src/Guard/Loops.antt =====
-- What the two loops of `prune` keep.
use solo_dual_mode.Prelude.{
  ℕ, ◌-◌, ◌≤◌, ◌<◌, ◌≡◌, List, [], ◌∷◌, some, arith, length, Key, Bool-cases, inl, inr, ltb,
}
use solo_dual_mode.Prelude.Dict.{
  Dict, get, remove, size, IsDict, get-remove, remove-IsDict, size-le-remove,
}
use solo_dual_mode.Prelude.Fifo.{Covers, size-le_of_Covers, behind}
use solo_dual_mode.Guard.{is_stale, drop_stale, drop_excess}

-- A queue and a map that belong together.
pub record Sound {K E : Type 0} ⦃key : Key K⦄ (order : List K) (entries : Dict K E) : Type 0 where
  pub distinct : IsDict entries
  pub covered : Covers order entries

module _ {K E : Type 0} ⦃key : Key K⦄ where
  pop-Sound :
      (k : K) (order : List K) (entries : Dict K E)
      → Sound (k ∷ order) entries
      → Sound order (remove k entries)
  pop-Sound k order entries s = record {
    distinct = remove-IsDict k entries s.distinct;
    covered = s.covered;
  }

  module _ (stamp : E → ℕ) (ttl now : ℕ) where
    pub drop_stale-Sound :
        (order : List K) (entries : Dict K E)
        → Sound order entries
        → let r = drop_stale stamp ttl now order entries in Sound r.0 r.1
    unfolding drop_stale
    drop_stale-Sound [] entries s = s
    drop_stale-Sound (k ∷ order) entries s =
        elim (Bool-cases (is_stale stamp ttl now (get k entries))) [
          | inl old ↦
              rw (old, drop_stale)
                (drop_stale-Sound order (remove k entries) (pop-Sound k order entries s))
          | inr live ↦ rw (live, drop_stale) s
        ]

    -- A live entry stays, with as many keys behind it.
    pub drop_stale-keeps :
        (k : K) (e : E) (n : ℕ) (order : List K) (entries : Dict K E)
        → behind k order ≡ some n
        → get k entries ≡ some e
        → now - stamp e ≤ ttl
        → let r = drop_stale stamp ttl now order entries in
          (behind k r.0 ≡ some n) × (get k r.1 ≡ some e)
    unfolding drop_stale behind
    drop_stale-keeps k e n [] entries b g live = absurd (ground arith)
    drop_stale-keeps k e n (j ∷ order) entries b g live =
        ground (arith, get-remove j k entries, drop_stale-keeps k e n order (remove j entries))

    -- Whatever is left was there before.
    pub drop_stale-get :
        (k : K) (e : E) (order : List K) (entries : Dict K E)
        → get k (drop_stale stamp ttl now order entries).1 ≡ some e
        → get k entries ≡ some e
    unfolding drop_stale
    drop_stale-get k e [] entries g = g
    drop_stale-get k e (j ∷ order) entries g =
        ground (arith, get-remove j k entries, drop_stale-get k e order (remove j entries))

    -- As many keys leave the queue as entries leave the map.
    pub drop_stale-size :
        (order : List K) (entries : Dict K E)
        → Sound order entries
        → length order ≡ size entries
        → let r = drop_stale stamp ttl now order entries in length r.0 ≡ size r.1
    unfolding drop_stale
    drop_stale-size [] entries s e = e
    drop_stale-size (j ∷ order) entries s e =
        let s' = pop-Sound j order entries s in
        ground (
          arith,
          size-le_of_Covers order (remove j entries) s'.distinct s'.covered,
          size-le-remove j entries s.distinct,
          drop_stale-size order (remove j entries) s',
        )

  module _ (max_entries : ℕ) where
    pub drop_excess-Sound :
        (order : List K) (entries : Dict K E)
        → Sound order entries
        → let r = drop_excess max_entries order entries in Sound r.0 r.1
    unfolding drop_excess
    drop_excess-Sound [] entries s = s
    drop_excess-Sound (k ∷ order) entries s = elim (Bool-cases (ltb max_entries (size entries))) [
      | inl full ↦
          rw (full, drop_excess)
            (drop_excess-Sound order (remove k entries) (pop-Sound k order entries s))
      | inr fits ↦ rw (fits, drop_excess) s
    ]

    pub drop_excess-get :
        (k : K) (e : E) (order : List K) (entries : Dict K E)
        → get k (drop_excess max_entries order entries).1 ≡ some e
        → get k entries ≡ some e
    unfolding drop_excess
    drop_excess-get k e [] entries g = g
    drop_excess-get k e (j ∷ order) entries g =
        ground (arith, get-remove j k entries, drop_excess-get k e order (remove j entries))

    pub drop_excess-size :
        (order : List K) (entries : Dict K E)
        → Sound order entries
        → length order ≡ size entries
        → let r = drop_excess max_entries order entries in length r.0 ≡ size r.1
    unfolding drop_excess
    drop_excess-size [] entries s e = e
    drop_excess-size (j ∷ order) entries s e =
        let s' = pop-Sound j order entries s in
        ground (
          arith,
          size-le_of_Covers order (remove j entries) s'.distinct s'.covered,
          size-le-remove j entries s.distinct,
          drop_excess-size order (remove j entries) s',
        )

    -- The map fits afterwards.
    pub drop_excess-le :
        (order : List K) (entries : Dict K E)
        → Sound order entries
        → size (drop_excess max_entries order entries).1 ≤ max_entries
    unfolding drop_excess
    drop_excess-le [] entries s = ground (arith, s.covered)
    drop_excess-le (j ∷ order) entries s =
        ground (arith, drop_excess-le order (remove j entries) (pop-Sound j order entries s))

    -- An entry stays if fewer keys than the limit stand behind it.
    pub drop_excess-keeps :
        (k : K) (e : E) (n : ℕ) (order : List K) (entries : Dict K E)
        → Sound order entries
        → behind k order ≡ some n
        → get k entries ≡ some e
        → n < max_entries
        → let r = drop_excess max_entries order entries in
          (behind k r.0 ≡ some n) × (get k r.1 ≡ some e)
    unfolding drop_excess behind
    drop_excess-keeps k e n [] entries s b g few = absurd (ground arith)
    drop_excess-keeps k e n (j ∷ order) entries s b g few = ground (
      arith,
      get-remove j k entries,
      size-le_of_Covers (j ∷ order) entries s.distinct s.covered,
      drop_excess-keeps k e n order (remove j entries) (pop-Sound j order entries s),
    )
