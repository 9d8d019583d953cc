-- ===== src/Handshake/Rig.antt =====
-- What a login leaves as it is: the program that the rig named, its extranonce, and whether the
-- connection is being closed.
use solo_dual_mode.Prelude.{
  ℕ, ◌≡◌, refl, ◌∙◌, Bool, false, List, Option, Bool-cases, Option-cases, inl, inr,
}
use solo_dual_mode.Prelude.Dict.{get}
use solo_dual_mode.Text.{is_empty, trim, text_key}
use solo_dual_mode.Session.{
  StratumContext, stats_key, claim_session_open, ensure_default_worker_name,
  set_authorized_worker_name, claim_vardiff_registration, release_vardiff_registration,
}
use solo_dual_mode.Vardiff.{Double, Stats, activate_client_vardiff, deactivate_client_vardiff}
use solo_dual_mode.Vardiff.Sessions.{change_identity, sync_worker_prom_metrics}
use solo_dual_mode.Handshake.{Setup, Client, identified, open_session, logged_in, wallet_or_pool}

abbrev pub rig : StratumContext → List ℕ × List ℕ × Bool
rig ctx = (ctx.remote_app, ctx.extranonce, ctx.disconnecting)

deactivate_rig :
    {F : Type 0} (ctx : StratumContext) (now : ℕ) (stats : Stats F)
    → rig (deactivate_client_vardiff ctx now stats).1 ≡ rig ctx
unfolding deactivate_client_vardiff release_vardiff_registration
deactivate_rig ctx now stats = elim (Bool-cases ctx.vardiff_registered) [
  | inr off ↦ rw (off) refl
  | inl on ↦
      elim (Option-cases (get (stats_key (record ctx { vardiff_registered = false })) stats)) [
        | inl missing ↦ rw (on, missing) refl
        | inr (known, eq) ↦ rw (on, eq) refl
      ]
]

ensure_rig : (ctx : StratumContext) → rig (ensure_default_worker_name ctx) ≡ rig ctx
unfolding ensure_default_worker_name
ensure_rig ctx = elim (Bool-cases (is_empty (trim ctx.worker_name))) [
  | inl empty ↦ rw (empty) refl
  | inr full ↦ rw (full) refl
]

named_rig :
    (name : List ℕ) (ctx : StratumContext) → rig (set_authorized_worker_name name ctx) ≡ rig ctx
unfolding set_authorized_worker_name
named_rig name ctx = ensure_rig _

module _ {F : Type 0} (ops : Double F) where
  sync_rig :
      (ctx : StratumContext) (current : F) (now : ℕ) (stats : Stats F)
      → rig (sync_worker_prom_metrics ops ctx current now stats).1 ≡ rig ctx
  unfolding sync_worker_prom_metrics activate_client_vardiff claim_vardiff_registration
  sync_rig ctx current now stats = elim (Bool-cases (is_empty ctx.wallet_addr)) [
    | inl empty ↦ rw (empty) refl
    | inr full ↦ elim (Bool-cases ctx.vardiff_registered) [
      | inl on ↦ rw (full, on) refl
      | inr off ↦ rw (full, off) refl
    ]
  ]

  change_rig :
      (wallet worker : List ℕ) (current : F) (now : ℕ) (ctx : StratumContext) (stats : Stats F)
      → rig (change_identity ops wallet worker current now ctx stats).1 ≡ rig ctx
  unfolding change_identity
  change_rig wallet worker current now ctx stats =
      sync_rig _ current now _ ∙ named_rig worker _ ∙ deactivate_rig ctx now stats

module _ {F : Type 0} (setup : Setup F) where
  rig-identified :
      (address worker : List ℕ) (current : F) (now : ℕ) (c : Client F)
      → rig (identified setup address worker current now c).ctx ≡ rig c.ctx
  unfolding identified
  rig-identified address worker current now c =
      ensure_rig _
      ∙ change_rig setup.ops (wallet_or_pool setup address) worker current now c.ctx c.stats

  pub rig-logged_in :
      (login : List ℕ) (password : Option (List ℕ)) (current : F) (now : ℕ) (c : Client F)
      → rig (logged_in setup login password current now c).ctx ≡ rig c.ctx
  unfolding open_session claim_session_open
  rig-logged_in login password current now c = rig-identified _ _ current now c
