-- ===== src/Prelude/Dict.antt =====
-- `std::collections::HashMap` and `HashSet`: a finite map as an association list with one entry
-- for each key, and a set as a map to the unit type. The order of the entries is the order of
-- insertion; the code reads it nowhere that the result depends on it.
use Prim.Native.Nat.{ℕ, suc, ◌≤◌}
use mathlib.Core.Path.{◌≡◌, refl}
use mathlib.Core.Logic.{◌≢◌, ite}
use mathlib.Core.Bool.{Bool, true, false}
use mathlib.Core.List.{List, [], ◌∷◌}
use mathlib.Core.Option.{Option, none, some}
use native.Mathlib.Omega.{arith}
use solo_dual_mode.Prelude.Tests.{Key}
use solo_dual_mode.Prelude.Lists.{length}

abbrev pub Dict {ℓ} : Type ℓ → Type ℓ → Type ℓ
Dict K V = List (K × V)

abbrev pub size {ℓ} : {K V : Type ℓ} → Dict K V → ℕ
size d = length d

abbrev pub values {ℓ} : {K V : Type ℓ} → Dict K V → List V
values [] = []
values ((k, v) ∷ d) = v ∷ values d

module _ {ℓ} {K V : Type ℓ} ⦃key : Key K⦄ where
  unfoldable pub get : K → Dict K V → Option V
  get k [] = none
  get k ((j, v) ∷ d) = ite (key.dec j k) (some v) (get k d)

  unfoldable pub insert : K → V → Dict K V → Dict K V
  insert k v [] = (k, v) ∷ []
  insert k v ((j, w) ∷ d) = ite (key.dec j k) ((k, v) ∷ d) ((j, w) ∷ insert k v d)

  unfoldable pub remove : K → Dict K V → Dict K V
  remove k [] = []
  remove k ((j, v) ∷ d) = ite (key.dec j k) (remove k d) ((j, v) ∷ remove k d)

  unfoldable pub contains : K → Dict K V → Bool
  unfolding get
  contains k d = elim (get k d) [ none ↦ false | some v ↦ true ]

  -- No key has two entries.
  abbrev pub IsDict : Dict K V → Type ℓ
  IsDict [] = Unit
  IsDict ((k, v) ∷ d) = (get k d ≡ none) × IsDict d

  pub get-insert :
      (k j : K) (v : V) (d : Dict K V) → get j (insert k v d) ≡ ite (key.dec k j) (some v) (get j d)
  unfolding get insert
  get-insert k j v [] = refl
  get-insert k j v ((i, w) ∷ d) = ground (arith, get-insert k j v d)

  pub get-insert_self : (k : K) (v : V) (d : Dict K V) → get k (insert k v d) ≡ some v
  get-insert_self k v d = ground (arith, get-insert k k v d)

  pub get-remove : (k j : K) (d : Dict K V) → get j (remove k d) ≡ ite (key.dec k j) none (get j d)
  unfolding get remove
  get-remove k j [] = ground arith
  get-remove k j ((i, w) ∷ d) = ground (arith, get-remove k j d)

  pub insert-IsDict : (k : K) (v : V) (d : Dict K V) → IsDict d → IsDict (insert k v d)
  unfolding insert get
  insert-IsDict k v [] h = (refl, tt)
  insert-IsDict k v ((i, w) ∷ d) h = ground (arith, insert-IsDict k v d h.1, get-insert k i v d)

  pub remove-IsDict : (k : K) (d : Dict K V) → IsDict d → IsDict (remove k d)
  unfolding remove
  remove-IsDict k [] h = tt
  remove-IsDict k ((i, w) ∷ d) h = ground (arith, remove-IsDict k d h.1, get-remove k i d)

  -- A removal of an absent key changes nothing.
  pub remove_absent : (k : K) (d : Dict K V) → get k d ≡ none → remove k d ≡ d
  unfolding get remove
  remove_absent k [] h = refl
  remove_absent k ((i, w) ∷ d) h = ground (arith, remove_absent k d)

  pub remove-remove : (k j : K) (d : Dict K V) → remove k (remove j d) ≡ remove j (remove k d)
  unfolding remove
  remove-remove k j [] = refl
  remove-remove k j ((i, w) ∷ d) = ground (arith, remove-remove k j d)

  pub remove-insert_self : (k : K) (v : V) (d : Dict K V) → remove k (insert k v d) ≡ remove k d
  unfolding remove insert
  remove-insert_self k v [] = ground arith
  remove-insert_self k v ((i, w) ∷ d) = ground (arith, remove-insert_self k v d)

  pub remove-insert_ne :
      (k j : K) (v : V) (d : Dict K V) → j ≢ k → remove j (insert k v d) ≡ insert k v (remove j d)
  unfolding remove insert
  remove-insert_ne k j v [] h = ground arith
  remove-insert_ne k j v ((i, w) ∷ d) h = ground (arith, remove-insert_ne k j v d h)

  pub size-remove-le : (k : K) (d : Dict K V) → size (remove k d) ≤ size d
  unfolding remove
  size-remove-le k [] = omega arith
  size-remove-le k ((i, w) ∷ d) = ground (arith, size-remove-le k d)

  pub size-le-remove : (k : K) (d : Dict K V) → IsDict d → size d ≤ suc (size (remove k d))
  unfolding remove
  size-le-remove k [] h = omega arith
  size-le-remove k ((i, w) ∷ d) h = ground (arith, size-le-remove k d h.1, remove_absent k d)

  pub size-remove :
      (k : K) (v : V) (d : Dict K V)
      → IsDict d
      → get k d ≡ some v
      → suc (size (remove k d)) ≡ size d
  unfolding remove get
  size-remove k v [] h e = absurd (ground arith)
  size-remove k v ((i, w) ∷ d) h e = ground (arith, size-remove k v d h.1, remove_absent k d)

  pub size-insert :
      (k : K) (v : V) (d : Dict K V)
      → size (insert k v d) ≡ elim (get k d) [ none ↦ suc (size d) | some w ↦ size d ]
  unfolding insert get
  size-insert k v [] = refl
  size-insert k v ((i, w) ∷ d) = ground (arith, size-insert k v d)
