-- ===== src/Prelude/Fifo.antt =====
-- A map with the queue of its keys, oldest first: the shape of every bounded memory of the bridge.
use Prim.Native.Nat.{ℕ, suc, ◌≤◌}
use mathlib.Core.Path.{◌≡◌, refl, sym, subst}
use mathlib.Core.Logic.{ite}
use mathlib.Core.List.{List, [], ◌∷◌, ◌++◌}
use mathlib.Core.Option.{Option, none, some}
use native.Mathlib.Omega.{arith}
use solo_dual_mode.Prelude.Tests.{Key}
use solo_dual_mode.Prelude.Lists.{length, length-append}
use solo_dual_mode.Prelude.Dict.{
  Dict, get, insert, remove, size, IsDict, get-remove, remove_absent, remove-remove,
  remove-insert_self, remove-insert_ne, remove-IsDict, size-le-remove,
}

module _ {ℓ} {K V : Type ℓ} ⦃key : Key K⦄ where
  -- Every key of the map stands in the queue.
  abbrev pub Covers : List K → Dict K V → Type ℓ
  Covers [] d = d ≡ []
  Covers (k ∷ order) d = Covers order (remove k d)

  pub Covers-remove :
      (k : K) (order : List K) (d : Dict K V) → Covers order d → Covers order (remove k d)
  unfolding remove
  Covers-remove k [] d h = ground arith
  Covers-remove k (j ∷ order) d h =
      ground (arith, remove-remove j k d, Covers-remove k order (remove j d))

  pub size-le_of_Covers :
      (order : List K) (d : Dict K V) → IsDict d → Covers order d → size d ≤ length order
  size-le_of_Covers [] d h c = ground arith
  size-le_of_Covers (k ∷ order) d h c =
      ground
        (arith, size-le-remove k d, size-le_of_Covers order (remove k d) (remove-IsDict k d h) c)

module _ {ℓ} {K : Type ℓ} (V : Type ℓ) ⦃key : Key K⦄ where
  Covers-empty : (order : List K) → Covers {V = V} order []
  unfolding remove
  Covers-empty [] = refl
  Covers-empty (k ∷ order) = Covers-empty order

module _ {ℓ} {K V : Type ℓ} ⦃key : Key K⦄ where
  Covers-append : (order more : List K) (d : Dict K V) → Covers order d → Covers (order ++ more) d
  Covers-append [] more d c = rw c (Covers-empty V more)
  Covers-append (k ∷ order) more d c = Covers-append order more (remove k d) c

  -- A new key goes to the end of the queue.
  pub Covers-push :
      (k : K) (v : V) (order : List K) (d : Dict K V)
      → Covers order d
      → Covers (order ++ k ∷ []) (insert k v d)
  unfolding insert remove
  Covers-push k v [] d c = ground arith
  Covers-push k v (j ∷ order) d c = elim (key.dec j k) [
    | yes e ↦
        rw (e, remove-insert_self k v d) (Covers-append order (k ∷ []) (remove k d) (rw e at c))
    | no ne ↦
        subst (Covers (order ++ k ∷ [])) (sym (remove-insert_ne k j v d ne))
          (Covers-push k v order (remove j d) c)
  ]

  -- An overwritten key keeps its place.
  pub Covers-overwrite :
      (k : K) (v w : V) (order : List K) (d : Dict K V)
      → get k d ≡ some w
      → Covers order d
      → Covers order (insert k v d)
  unfolding get
  Covers-overwrite k v w [] d g c = absurd (ground arith)
  Covers-overwrite k v w (j ∷ order) d g c = elim (key.dec j k) [
    | yes e ↦ rw (e, remove-insert_self k v d) (rw e at c)
    | no ne ↦
        rw (remove-insert_ne k j v d ne)
          (Covers-overwrite k v w order (remove j d) (ground (arith, get-remove j k d)) c)
  ]

module _ {ℓ} {K : Type ℓ} ⦃key : Key K⦄ where
  -- How many keys stand behind the first `k` in the queue.
  unfoldable pub behind : K → List K → Option ℕ
  behind k [] = none
  behind k (j ∷ order) = ite (key.dec j k) (some (length order)) (behind k order)

  pub behind-push_new :
      (k : K) (order : List K) → behind k order ≡ none → behind k (order ++ k ∷ []) ≡ some 0
  unfolding behind
  behind-push_new k [] h = ground arith
  behind-push_new k (j ∷ order) h = ground (arith, behind-push_new k order)

  pub behind-push :
      (k j : K) (n : ℕ) (order : List K)
      → behind k order ≡ some n
      → behind k (order ++ j ∷ []) ≡ some (suc n)
  unfolding behind
  behind-push k j n [] h = absurd (ground arith)
  behind-push k j n (i ∷ order) h =
      ground (arith, length-append order (j ∷ []), behind-push k j n order)

module _ {ℓ} {K V : Type ℓ} ⦃key : Key K⦄ where
  -- A queue in step with its map holds no key that the map lacks.
  pub absent-behind :
      (k : K) (order : List K) (entries : Dict K V)
      → IsDict entries
      → Covers order entries
      → length order ≡ size entries
      → get k entries ≡ none
      → behind k order ≡ none
  unfolding behind
  absent-behind k [] entries d c e g = refl
  absent-behind k (j ∷ order) entries d c e g = ground (
    arith,
    remove_absent j entries,
    size-le_of_Covers order (remove j entries) (remove-IsDict j entries d) c,
    size-le-remove j entries d,
    get-remove j k entries,
    absent-behind k order (remove j entries) (remove-IsDict j entries d) c,
  )
