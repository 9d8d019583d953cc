-- ===== src/Vardiff/Counted/Handlers.antt =====
-- The handlers of one connection keep the counts.
use solo_dual_mode.Prelude.{
  ℕ, ◌+◌, ◌<◌, ◌≡◌, refl, subst, ◌∙◌, true, false, List, arith, ite, Option-cases, Bool-cases, inl,
  inr, nat_key,
}
use solo_dual_mode.Prelude.Dict.{get, insert}
use solo_dual_mode.Text.{text_key}
use solo_dual_mode.Session.{
  StratumContext, vardiff_worker_identity, stats_key, claim_vardiff_registration,
  release_vardiff_registration,
}
use solo_dual_mode.Vardiff.{
  Double, SessionStats, Stats, new_stats, seeded, get_create_stats, one_more, one_less, u32_max,
  activate_client_vardiff, deactivate_client_vardiff, register_client_vardiff, set_client_vardiff,
  start_client_vardiff, started,
}
use solo_dual_mode.Vardiff.Sessions.{registering, setting, starting}
use solo_dual_mode.Vardiff.Counted.{counts_for, Tells, AllTell, insert-AllTell}

abbrev pub Handler : Type 0 → Type 0
Handler F = StratumContext → Stats F → Stats F × StratumContext

-- A handler changes the count of an entry as it changes what its connection counts for.
abbrev pub Keeps : {F : Type 0} → Handler F → Type 0
Keeps {F} handler =
    (ctx : StratumContext) (stats : Stats F) (rest : List ℕ → ℕ)
    → ((k : List ℕ) → rest k < u32_max)
    → AllTell stats (λ k. rest k + counts_for k ctx)
    → AllTell (handler ctx stats).0 (λ k. rest k + counts_for k (handler ctx stats).1)

pub AllTell-ext :
    {F : Type 0} (stats : Stats F) (n n' : List ℕ → ℕ)
    → ((k : List ℕ) → n k ≡ n' k)
    → AllTell stats n
    → AllTell stats n'
AllTell-ext stats n n' same (dict, tells) =
    (dict, λ k. subst (λ m. Tells (get k stats) m) (same k) (tells k))

same_count :
    {F : Type 0} (stats : Stats F) (key : List ℕ) (s : SessionStats F) (n : List ℕ → ℕ)
    → AllTell stats n
    → s.active_connections ≡ n key
    → AllTell (insert key s stats) n
same_count stats key s n tell same = insert-AllTell stats key s n n tell (λ k. ground (arith, same))

counts_for_one :
    (k : List ℕ) (ctx : StratumContext)
    → ctx.vardiff_registered ≡ true
    → counts_for k ctx ≡ ite (text_key.dec (stats_key ctx) k) 1 0
unfolding counts_for
counts_for_one k ctx on = ground (arith, on)

pub counts_for_none :
    (k : List ℕ) (ctx : StratumContext) → ctx.vardiff_registered ≡ false → counts_for k ctx ≡ 0
unfolding counts_for
counts_for_none k ctx off = ground (arith, off)

module _ {F : Type 0} where
  pub deactivate-Keeps :
      (now : ℕ) → Keeps {F = F} (λ ctx stats. deactivate_client_vardiff ctx now stats)
  unfolding deactivate_client_vardiff release_vardiff_registration stats_key vardiff_worker_identity
  deactivate-Keeps now ctx stats rest bound tell =
      let ctx' = record ctx { vardiff_registered = false } in
      let key = stats_key ctx in
      elim (Bool-cases ctx.vardiff_registered) [
        | inl on ↦ elim (Option-cases (get key stats)) [
          | inl missing ↦
              let told =
                subst (λ o. Tells o (rest key + counts_for key ctx)) missing (tell.1 key) in
              absurd (ground (arith, told, counts_for_one key ctx on))
          | inr (s, known) ↦
              let told = subst (λ o. Tells o (rest key + counts_for key ctx)) known (tell.1 key) in
              rw (on, known, deactivate_client_vardiff)
                (insert-AllTell stats key (one_less now s) (λ k. rest k + counts_for k ctx)
                  (λ k. rest k + counts_for k ctx') tell
                  (λ k. ground (
                    arith,
                    told,
                    counts_for_one k ctx on,
                    counts_for_one key ctx on,
                    counts_for_none k ctx' refl,
                  )))
        ]
        | inr off ↦
            rw (off, deactivate_client_vardiff)
              (AllTell-ext stats (λ k. rest k + counts_for k ctx) (λ k. rest k + counts_for k ctx')
                (λ k. omega (arith, counts_for_none k ctx off, counts_for_none k ctx' refl)) tell)
      ]

  pub set-Keeps : (diff current : F) (now : ℕ) → Keeps {F = F} (setting diff current now)
  unfolding set_client_vardiff
  set-Keeps diff current now ctx stats rest bound tell =
      elim (Option-cases (get (stats_key ctx) stats)) [
        | inl missing ↦ rw (missing, set_client_vardiff) tell
        | inr (s, known) ↦
            rw (known, set_client_vardiff)
              (same_count stats (stats_key ctx) _ (λ k. rest k + counts_for k ctx) tell
                (subst (λ o. Tells o (rest (stats_key ctx) + counts_for (stats_key ctx) ctx)) known
                  (tell.1 (stats_key ctx))))
      ]

  started_count :
      (now : ℕ) (s : SessionStats F) → (started now s).active_connections ≡ s.active_connections
  started_count now s = ground arith

  pub start-Keeps : (now : ℕ) → Keeps {F = F} (starting now)
  unfolding start_client_vardiff
  start-Keeps now ctx stats rest bound tell = elim (Option-cases (get (stats_key ctx) stats)) [
    | inl missing ↦ rw (missing, start_client_vardiff) tell
    | inr (s, known) ↦
        rw (known, start_client_vardiff)
          (same_count stats (stats_key ctx) (started now s) (λ k. rest k + counts_for k ctx) tell
            (started_count now s
              ∙ subst (λ o. Tells o (rest (stats_key ctx) + counts_for (stats_key ctx) ctx)) known
                  (tell.1 (stats_key ctx))))
  ]

module _ {F : Type 0} (ops : Double F) where
  -- An entry that is looked for, and created if it is missing.
  created :
      (ctx : StratumContext) (current : F) (now : ℕ) (stats : Stats F) (n : List ℕ → ℕ)
      → AllTell stats n
      → AllTell (get_create_stats ops ctx current now stats).0 n
        × ((get_create_stats ops ctx current now stats).1.active_connections ≡ n (stats_key ctx))
  unfolding get_create_stats new_stats
  created ctx current now stats n tell = elim (Option-cases (get (stats_key ctx) stats)) [
    | inl missing ↦
        let told = subst (λ o. Tells o (n (stats_key ctx))) missing (tell.1 (stats_key ctx)) in
        let fresh_count : (seeded ops current (new_stats ops now)).active_connections
            ≡ n (stats_key ctx) =
          ground (arith, told) in
        rw (missing, get_create_stats)
          (same_count stats (stats_key ctx) _ n tell fresh_count, fresh_count)
    | inr (s, known) ↦
        rw (known, get_create_stats)
          (tell, subst (λ o. Tells o (n (stats_key ctx))) known (tell.1 (stats_key ctx)))
  ]

  pub register-Keeps : (seed current : F) (now : ℕ) → Keeps (registering ops seed current now)
  unfolding register_client_vardiff
  register-Keeps seed current now ctx stats rest bound tell =
      let (tell', count) = created ctx current now stats (λ k. rest k + counts_for k ctx) tell in
      same_count (get_create_stats ops ctx current now stats).0 (stats_key ctx) _
        (λ k. rest k + counts_for k ctx) tell' count

  pub activate-Keeps :
      (current : F) (now : ℕ)
      → Keeps (λ ctx stats. activate_client_vardiff ops ctx current now stats)
  unfolding activate_client_vardiff claim_vardiff_registration stats_key vardiff_worker_identity
  activate-Keeps current now ctx stats rest bound tell =
      let ctx' = record ctx { vardiff_registered = true } in
      let key = stats_key ctx' in
      elim (Bool-cases ctx.vardiff_registered) [
        | inl on ↦
            rw (on, activate_client_vardiff)
              (AllTell-ext stats (λ k. rest k + counts_for k ctx) (λ k. rest k + counts_for k ctx')
                (λ k. omega (arith, counts_for_one k ctx on, counts_for_one k ctx' refl)) tell)
        | inr off ↦
            let (tell', count) = created ctx' current now stats rest (
              AllTell-ext stats (λ k. rest k + counts_for k ctx) rest
                (λ k. omega (arith, counts_for_none k ctx off)) tell) in
            let (stats_map', s) = get_create_stats ops ctx' current now stats in
            rw (off, activate_client_vardiff)
              (insert-AllTell (get_create_stats ops ctx' current now stats).0 key
                (one_more now (get_create_stats ops ctx' current now stats).1) rest
                (λ k. rest k + counts_for k ctx') tell'
                (λ k. ground (arith, count, bound k, bound key, counts_for_one k ctx' refl)))
      ]
