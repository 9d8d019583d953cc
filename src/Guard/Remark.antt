-- ===== src/Guard/Remark.antt =====
-- bridge-src/bridge/src/kaspaapi.rs, `BlockSubmitGuard`: a hash that is marked again after its
-- removal is queued twice, and the older place counts.
use solo_dual_mode.Prelude.{
  ℕ, suc, ◌≤◌, ◌≡◌, ◌≢◌, refl, true, List, [], ◌∷◌, ◌++◌, some, none, arith, Key,
}
use solo_dual_mode.Prelude.Dict.{
  Dict, get, insert, remove, size, IsDict, get-insert, get-remove, size-insert, size-remove,
  remove-IsDict, insert-IsDict,
}
use solo_dual_mode.Guard.{drop_stale, drop_excess}
use solo_dual_mode.Guard.BlockSubmit.{BlockSubmitGuard, prune, mark, try_mark}

module _ {K : Type 0} ⦃key : Key K⦄ where
  drop_excess_fits :
      (max_entries : ℕ) (order : List K) (entries : Dict K ℕ)
      → size entries ≤ max_entries
      → drop_excess max_entries order entries ≡ (order, entries)
  unfolding drop_excess
  drop_excess_fits max_entries [] entries fits = refl
  drop_excess_fits max_entries (k ∷ order) entries fits = ground arith

  -- With a live entry at the front, a guard within its limit is not touched.
  prune_full :
      (g : BlockSubmitGuard K) (k : K) (now : ℕ) (order : List K)
      → g.order ≡ k ∷ order
      → get k g.entries ≡ some now
      → size g.entries ≤ g.max_entries
      → prune g now ≡ g
  unfolding prune drop_stale drop_excess
  prune_full g k now order queue front fits = ground arith

  -- One entry too many, and the front goes, live as it is.
  prune_over :
      (g : BlockSubmitGuard K) (k : K) (now : ℕ) (order : List K)
      → g.order ≡ k ∷ order
      → IsDict g.entries
      → get k g.entries ≡ some now
      → size g.entries ≡ suc g.max_entries
      → prune g now ≡ record g { entries = remove k g.entries; order = order }
  unfolding prune drop_stale drop_excess
  prune_over g k now order queue distinct front over =
      let removed = size-remove k now g.entries distinct front in
      let kept = drop_excess_fits g.max_entries order (remove k g.entries) (omega arith) in
      ground arith

  push : (g : BlockSubmitGuard K) (k : K) (now : ℕ) → BlockSubmitGuard K
  push g k now = record g { entries = insert k now g.entries; order = g.order ++ k ∷ [] }

  pop : (g : BlockSubmitGuard K) (k : K) (order : List K) → BlockSubmitGuard K
  pop g k order = record g { entries = remove k g.entries; order = order }

  mark_fresh :
      (g : BlockSubmitGuard K) (k : K) (now : ℕ)
      → get k g.entries ≡ none
      → mark g k now ≡ (push g k now, true)
  unfolding mark push
  mark_fresh g k now fresh = rw (fresh, mark)

  try_mark_full :
      (g : BlockSubmitGuard K) (k j : K) (now : ℕ) (order : List K)
      → g.order ≡ k ∷ order
      → get k g.entries ≡ some now
      → size g.entries ≤ g.max_entries
      → get j g.entries ≡ none
      → try_mark g j now ≡ (push g j now, true)
  unfolding try_mark
  try_mark_full g k j now order queue front fits fresh =
      rw (prune_full g k now order queue front fits) (mark_fresh g j now fresh)

  try_mark_over :
      (g : BlockSubmitGuard K) (k j : K) (now : ℕ) (order : List K)
      → g.order ≡ k ∷ order
      → IsDict g.entries
      → get k g.entries ≡ some now
      → size g.entries ≡ suc g.max_entries
      → get j (remove k g.entries) ≡ none
      → try_mark g j now ≡ (push (pop g k order) j now, true)
  unfolding try_mark pop
  try_mark_over g k j now order queue distinct front over fresh =
      rw (prune_over g k now order queue distinct front over)
        (mark_fresh (pop g k order) j now fresh)

-- A full guard with a live hash `a` at the front, behind it the place of a removed hash `h`, and a
-- hash `y` that is new.
pub record Ghost {K : Type 0} ⦃key : Key K⦄ (g : BlockSubmitGuard K) (a h y : K) (rest : List K)
    (now : ℕ) : Type 0 where
  pub queue : g.order ≡ a ∷ h ∷ rest
  pub distinct : IsDict g.entries
  pub front : get a g.entries ≡ some now
  pub removed : get h g.entries ≡ none
  pub fresh : get y g.entries ≡ none
  pub full : size g.entries ≡ g.max_entries
  pub differ : y ≢ h

module _ {K : Type 0} ⦃key : Key K⦄ where
  -- When a full guard has a live hash at its front and behind it the place of a removed hash `h`,
  -- then `h` can be marked, another new hash can be marked, and `h` can be marked once more at the
  -- same instant: the second of the two other marks drops the fresh mark of `h`, which counts by
  -- its old place.
  pub remarked_twice :
      (g : BlockSubmitGuard K) (a h y : K) (rest : List K) (now : ℕ)
      → Ghost g a h y rest now
      → let once = try_mark g h now in
        let other = try_mark once.0 y now in
        let again = try_mark other.0 h now in (once.1 ≡ true) × (other.1 ≡ true) × (again.1 ≡ true)
  unfolding push pop
  remarked_twice g a h y rest now s =
      let g₁ = push g h now in
      let e₁ =
        try_mark_full g a h now (h ∷ rest) s.queue s.front (omega (arith, s.full)) s.removed in
      let g₂ = push (pop g₁ a (h ∷ rest ++ h ∷ [])) y now in
      let front₁ : get a g₁.entries ≡ some now =
        ground (arith, get-insert h a now g.entries, s.front, s.removed) in
      let d₁ : IsDict g₁.entries = insert-IsDict h now g.entries s.distinct in
      let over₁ : size g₁.entries ≡ suc g.max_entries =
        ground (arith, size-insert h now g.entries, s.removed, s.full) in
      let fresh₁ : get y (remove a g₁.entries) ≡ none =
        ground
          (arith, get-remove a y g₁.entries, get-insert h y now g.entries, s.fresh, s.differ) in
      let e₂ = try_mark_over g₁ a y now (h ∷ rest ++ h ∷ []) (rw s.queue) d₁ front₁ over₁ fresh₁ in
      let held₂ : get h g₂.entries ≡ some now = ground (
        arith,
        get-insert y h now (remove a g₁.entries),
        get-remove a h g₁.entries,
        get-insert h h now g.entries,
        s.front,
        s.removed,
        s.differ,
      ) in
      let over₂ : size g₂.entries ≡ suc g.max_entries = ground (
        arith,
        size-insert y now (remove a g₁.entries),
        size-remove a now g₁.entries d₁ front₁,
        fresh₁,
        over₁,
      ) in
      let gone : get h (remove h g₂.entries) ≡ none = ground (arith, get-remove h h g₂.entries) in
      let e₃ =
        try_mark_over g₂ h h now ((rest ++ h ∷ []) ++ y ∷ []) refl
          (insert-IsDict y now _ (remove-IsDict a g₁.entries d₁)) held₂ over₂ gone in
      rw (e₁, e₂, e₃) (refl, refl, refl)
