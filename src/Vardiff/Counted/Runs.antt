-- ===== src/Vardiff/Counted/Runs.antt =====
-- The counts hold after any events.
use solo_dual_mode.Prelude.{
  ℕ, suc, ◌+◌, ◌-◌, ◌≤◌, ◌<◌, ◌≡◌, refl, ◌∙◌, false, List, [], ◌∷◌, arith, Option-cases, Bool-cases,
  inl, inr, nat_key,
}
use solo_dual_mode.Prelude.Dict.{get, insert, size, size-insert}
use solo_dual_mode.Text.{text_key}
use solo_dual_mode.Session.{
  StratumContext, vardiff_worker_identity, stats_key, release_vardiff_registration,
  set_authorized_worker_name, ensure_default_worker_name, disconnect, new,
}
use solo_dual_mode.Vardiff.{Double, Stats, u32_max, deactivate_client_vardiff}
use solo_dual_mode.Vardiff.Sessions.{
  Bridge, Event, connects, authorizes, disconnects, registers, sets, starts, prunes, ticks,
  sync_worker_prom_metrics, change_identity, close, on_conn, registering, setting, starting, step,
  run, fresh,
}
use solo_dual_mode.Vardiff.Counted.{
  counts_for, registered, Tells, Counted, registered_le, counts_for-le-registered,
  registered-insert, registered-insert_new,
}
use solo_dual_mode.Vardiff.Counted.Handlers.{
  Handler, Keeps, AllTell-ext, counts_for_none, deactivate-Keeps, set-Keeps, start-Keeps,
  register-Keeps, activate-Keeps,
}
use solo_dual_mode.Vardiff.Counted.Background.{prune-AllTell, tick-AllTell}
use solo_dual_mode.Text.{is_empty}
use solo_dual_mode.Prelude.{length}

deactivated :
    {F : Type 0} (ctx : StratumContext) (now : ℕ) (stats : Stats F)
    → (deactivate_client_vardiff ctx now stats).1.vardiff_registered ≡ false
unfolding deactivate_client_vardiff release_vardiff_registration
deactivated ctx now stats = ground arith

named :
    (name : List ℕ) (ctx : StratumContext)
    → (set_authorized_worker_name name ctx).vardiff_registered ≡ ctx.vardiff_registered
unfolding set_authorized_worker_name ensure_default_worker_name
named name ctx = ground arith

module _ {F : Type 0} where
  close-Keeps : (now : ℕ) → Keeps {F = F} (close now)
  unfolding close disconnect counts_for stats_key vardiff_worker_identity
  close-Keeps now ctx stats rest bound tell = deactivate-Keeps now ctx stats rest bound tell

  on_conn-Counted :
      (handler : Handler F) (uid : ℕ) (b : Bridge F)
      → Keeps handler
      → size b.conns < u32_max
      → Counted b
      → Counted (on_conn handler uid b)
  unfolding on_conn
  on_conn-Counted handler uid b keeps few counted = elim (Option-cases (get uid b.conns)) [
    | inl missing ↦ rw (missing, on_conn) counted
    | inr (ctx, known) ↦
        let rest : List ℕ → ℕ = λ k. registered k b.conns - counts_for k ctx in
        let ctx' = (handler ctx b.stats).1 in
        rw (known, on_conn)
          (AllTell-ext (handler ctx b.stats).0 (λ k. rest k + counts_for k ctx')
            (λ k. registered k (insert uid ctx' b.conns))
            (λ k. omega (
              arith,
              registered-insert k uid ctx ctx' b.conns known,
              counts_for-le-registered k uid ctx b.conns known,
            ))
            (keeps ctx b.stats rest (λ k. omega (arith, registered_le k b.conns, few))
              (AllTell-ext b.stats (λ k. registered k b.conns) (λ k. rest k + counts_for k ctx)
                (λ k. omega (arith, counts_for-le-registered k uid ctx b.conns known)) counted)))
  ]

  size-on_conn :
      (handler : Handler F) (uid : ℕ) (b : Bridge F)
      → size (on_conn handler uid b).conns ≤ size b.conns
  unfolding on_conn
  size-on_conn handler uid b = elim (Option-cases (get uid b.conns)) [
    | inl missing ↦ rw (missing, on_conn) (omega arith)
    | inr (ctx, known) ↦
        rw (known, on_conn) (ground (arith, size-insert uid (handler ctx b.stats).1 b.conns, known))
  ]

module _ {F : Type 0} (ops : Double F) where
  sync-Keeps :
      (current : F) (now : ℕ)
      → Keeps (λ ctx stats. sync_worker_prom_metrics ops ctx current now stats)
  unfolding sync_worker_prom_metrics
  sync-Keeps current now ctx stats rest bound tell = elim (Bool-cases (is_empty ctx.wallet_addr)) [
    | inl unnamed ↦ rw (unnamed, sync_worker_prom_metrics) tell
    | inr authorized ↦
        rw (authorized, sync_worker_prom_metrics)
          (activate-Keeps ops current now ctx stats rest bound tell)
  ]

  identity-Keeps :
      (wallet worker : List ℕ) (current : F) (now : ℕ)
      → Keeps (change_identity ops wallet worker current now)
  unfolding change_identity
  identity-Keeps wallet worker current now ctx stats rest bound tell =
      let ctx1 = (deactivate_client_vardiff ctx now stats).1 in
      let stats1 = (deactivate_client_vardiff ctx now stats).0 in
      let ctx2 = set_authorized_worker_name worker (record ctx1 { wallet_addr = wallet }) in
      let off = deactivated ctx now stats in
      let off2 = named worker (record ctx1 { wallet_addr = wallet }) ∙ off in
      sync-Keeps current now ctx2 stats1 rest bound (
        AllTell-ext stats1 (λ k. rest k + counts_for k ctx1) (λ k. rest k + counts_for k ctx2)
          (λ k. omega (arith, counts_for_none k ctx1 off, counts_for_none k ctx2 off2))
          (deactivate-Keeps now ctx stats rest bound tell))

  connect-Counted :
      (uid port : ℕ) (b : Bridge F) → Counted b → Counted (step ops (connects uid port) b)
  unfolding step new
  connect-Counted uid port b counted = elim (Option-cases (get uid b.conns)) [
    | inr (ctx, known) ↦ rw (known, step) counted
    | inl missing ↦
        rw (missing, step)
          (AllTell-ext b.stats (λ k. registered k b.conns)
            (λ k. registered k (insert uid (new port uid) b.conns))
            (λ k. omega (
              arith,
              registered-insert_new k uid (new port uid) b.conns missing,
              counts_for_none k (new port uid) refl,
            ))
            counted)
  ]

  step-Counted :
      (event : Event F) (b : Bridge F)
      → size b.conns < u32_max
      → Counted b
      → Counted (step ops event b)
  unfolding step
  step-Counted (connects uid port) b few counted = connect-Counted uid port b counted
  step-Counted (authorizes uid wallet worker current now) b few counted =
      on_conn-Counted _ uid b (identity-Keeps wallet worker current now) few counted
  step-Counted (disconnects uid now) b few counted =
      on_conn-Counted _ uid b (close-Keeps now) few counted
  step-Counted (registers uid seed current now) b few counted =
      on_conn-Counted _ uid b (register-Keeps ops seed current now) few counted
  step-Counted (sets uid diff current now) b few counted =
      on_conn-Counted _ uid b (set-Keeps diff current now) few counted
  step-Counted (starts uid now) b few counted =
      on_conn-Counted _ uid b (start-Keeps now) few counted
  step-Counted (prunes now) b few counted = prune-AllTell now b.stats _ counted
  step-Counted (ticks now expected clamp) b few counted =
      tick-AllTell ops now expected clamp b.stats _ counted

  size-step : (event : Event F) (b : Bridge F) → size (step ops event b).conns ≤ suc (size b.conns)
  unfolding step
  size-step (connects uid port) b = ground (arith, size-insert uid (new port uid) b.conns)
  size-step (authorizes uid wallet worker current now) b =
      omega (arith, size-on_conn (change_identity ops wallet worker current now) uid b)
  size-step (disconnects uid now) b = omega (arith, size-on_conn (close now) uid b)
  size-step (registers uid seed current now) b =
      omega (arith, size-on_conn (registering ops seed current now) uid b)
  size-step (sets uid diff current now) b =
      omega (arith, size-on_conn (setting diff current now) uid b)
  size-step (starts uid now) b = omega (arith, size-on_conn (starting {F = F} now) uid b)
  size-step (prunes now) b = omega arith
  size-step (ticks now expected clamp) b = omega arith

  run-Counted :
      (events : List (Event F)) (b : Bridge F)
      → size b.conns + length events < u32_max
      → Counted b
      → Counted (run ops events b)
  unfolding run
  run-Counted [] b few counted = counted
  run-Counted (event ∷ events) b few counted =
      run-Counted events (step ops event b) (omega (arith, few, size-step event b))
        (step-Counted event b (omega (arith, few)) counted)

  -- After fewer than 2 ^ 32 - 1 events, whatever connections open, authorize and authorize again
  -- under other names, close, and whatever the threads do: an entry counts exactly the connections
  -- whose registration flag is set under its wallet and worker, and a worker without an entry has
  -- none. A connection that authorizes once more after it was closed has its flag set again and is
  -- among those counted.
  pub run-fresh-Counted :
      (events : List (Event F))
      → length events < u32_max
      → (k : List ℕ)
      → Tells (get k (run ops events fresh).stats) (registered k (run ops events fresh).conns)
  unfolding registered get
  run-fresh-Counted events few = (run-Counted events fresh (omega (arith, few)) (tt, λ k. refl)).1
