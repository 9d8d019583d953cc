-- ===== src/Vardiff/Counted.antt =====
-- The count of connections in an entry is the number of connections, closed ones included, whose
-- registration flag is set and whose wallet and worker are the entry's.
pub mod Handlers
pub mod Background
pub mod Runs
use solo_dual_mode.Prelude.{
  ℕ, zero, suc, ◌+◌, ◌-◌, ◌^◌, ◌≤◌, ◌<◌, ◌≡◌, ◌≢◌, refl, ap, sym, subst, ◌∙◌, Bool, true, false,
  ◌&&◌, ◌||◌, not, List, [], ◌∷◌, Option, none, some, arith, ltb, if◌then◌else◌, Key, ite,
  Option-cases, Bool-cases, inl, inr, ◌⊎◌, nat_key,
}
use solo_dual_mode.Prelude.Dict.{
  Dict, get, insert, IsDict, get-insert, insert-IsDict, size, size-insert,
}
use solo_dual_mode.Text.{text_key, text_dec}
use solo_dual_mode.Session.{
  StratumContext, stats_key, claim_vardiff_registration, release_vardiff_registration,
  set_authorized_worker_name, ensure_default_worker_name, disconnect, new,
}
use solo_dual_mode.Vardiff.{
  Double, SessionStats, Stats, new_stats, seeded, get_create_stats, one_more, one_less, restart,
  saturating_add, u32_max, activate_client_vardiff, deactivate_client_vardiff,
  register_client_vardiff, set_client_vardiff, start_client_vardiff, started,
  should_retain_vardiff_stats, prune_stats,
}
use solo_dual_mode.Vardiff.Difficulty.{vardiff_tick, tick_entry, apply_diff}
use solo_dual_mode.Vardiff.Sessions.{
  Bridge, Event, sync_worker_prom_metrics, change_identity, close, on_conn, registering, setting,
  starting, step, run, fresh,
}

-- Whether a connection's registration flag is set, under a key, as a number.
unfoldable pub counts_for : List ℕ → StratumContext → ℕ
counts_for k ctx = if ctx.vardiff_registered then ite (text_key.dec (stats_key ctx) k) 1 0 else 0

-- The connections of a key whose registration flag is set. A connection stays in the list when it is
-- closed.
unfoldable pub registered : List ℕ → Dict ℕ StratumContext → ℕ
registered k [] = 0
registered k ((uid, ctx) ∷ conns) = counts_for k ctx + registered k conns

-- What an entry says where `n` connections have a registration under its key.
abbrev pub Tells : {F : Type 0} → Option (SessionStats F) → ℕ → Type 0
Tells none n = n ≡ 0
Tells (some stats) n = stats.active_connections ≡ n

abbrev pub AllTell : {F : Type 0} → Stats F → (List ℕ → ℕ) → Type 0
AllTell stats n = IsDict stats × ((k : List ℕ) → Tells (get k stats) (n k))

abbrev pub Counted : {F : Type 0} → Bridge F → Type 0
Counted b = AllTell b.stats (λ k. registered k b.conns)

pub counts_for_le : (k : List ℕ) (ctx : StratumContext) → counts_for k ctx ≤ 1
unfolding counts_for
counts_for_le k ctx = ground arith

pub registered_le : (k : List ℕ) (conns : Dict ℕ StratumContext) → registered k conns ≤ size conns
unfolding registered
registered_le k [] = omega arith
registered_le k ((uid, ctx) ∷ conns) = omega (arith, counts_for_le k ctx, registered_le k conns)

-- The connections besides one.
pub counts_for-le-registered :
    (k : List ℕ) (uid : ℕ) (ctx : StratumContext) (conns : Dict ℕ StratumContext)
    → get uid conns ≡ some ctx
    → counts_for k ctx ≤ registered k conns
unfolding registered get
counts_for-le-registered k uid ctx [] h = absurd (ground (arith, h))
counts_for-le-registered k uid ctx ((i, c) ∷ conns) h =
    ground (arith, counts_for-le-registered k uid ctx conns, h)

pub registered-insert :
    (k : List ℕ) (uid : ℕ) (ctx ctx' : StratumContext) (conns : Dict ℕ StratumContext)
    → get uid conns ≡ some ctx
    → registered k (insert uid ctx' conns) + counts_for k ctx
      ≡ registered k conns + counts_for k ctx'
unfolding registered get insert
registered-insert k uid ctx ctx' [] h = absurd (ground (arith, h))
registered-insert k uid ctx ctx' ((i, c) ∷ conns) h =
    ground (arith, registered-insert k uid ctx ctx' conns, h)

pub registered-insert_new :
    (k : List ℕ) (uid : ℕ) (ctx : StratumContext) (conns : Dict ℕ StratumContext)
    → get uid conns ≡ none
    → registered k (insert uid ctx conns) ≡ registered k conns + counts_for k ctx
unfolding registered get insert
registered-insert_new k uid ctx [] h = omega arith
registered-insert_new k uid ctx ((i, c) ∷ conns) h =
    ground (arith, registered-insert_new k uid ctx conns, h)

module _ {F : Type 0} where
  pub Tells-ite :
      {P : Type 0} (d : Dec P) (o o' : Option (SessionStats F)) (n n' : ℕ)
      → Tells o n
      → Tells o' n'
      → Tells (ite d o o') (ite d n n')
  Tells-ite (yes p) o o' n n' t t' = t
  Tells-ite (no np) o o' n n' t t' = t'

  -- One entry is replaced.
  pub insert-AllTell :
      (stats : Stats F) (key : List ℕ) (s : SessionStats F) (n n' : List ℕ → ℕ)
      → AllTell stats n
      → ((k : List ℕ) → n' k ≡ ite (text_key.dec key k) s.active_connections (n k))
      → AllTell (insert key s stats) n'
  insert-AllTell stats key s n n' (dict, tells) at = (
    insert-IsDict key s stats dict,
    λ k.
        rw (get-insert key k s stats, at k)
          (Tells-ite (text_key.dec key k) (some s) (get k stats) s.active_connections (n k) refl
            (tells k)),
  )
