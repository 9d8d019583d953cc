-- ===== src/Handshake/Told.antt =====
-- How often a rig is told its extranonce, from its subscription to its first job.
use solo_dual_mode.Prelude.{
  ℕ, ◌+◌, ◌≡◌, refl, ap, ◌∙◌, Bool, true, false, ◌&&◌, not, List, [], ◌∷◌, ◌++◌, Option, some,
  arith, Bool-cases, inl, inr, get_elem?, if◌then◌else◌,
}
use solo_dual_mode.Text.{is_empty}
use solo_dual_mode.Rpc.{Scalar, string, Json, scalar}
use solo_dual_mode.Miner.{is_bitmain, is_iceriver, says_iceriver, names_iceriver}
use solo_dual_mode.Extranonce.{assign_extranonce_for_miner, format_extranonce}
use solo_dual_mode.Session.{StratumContext, connected, mark_authorized}
use solo_dual_mode.Handshake.{
  Setup, Client, ◌then_do◌, named_by, extranonce_message, subscribe_response, assigned,
  early_extranonce, identified, open_session, handle_subscribe, late_extranonce, as_str, logged_in,
  handle_authorize, extranonce_params,
}
use solo_dual_mode.Handshake.Rig.{rig-logged_in}
use solo_dual_mode.Handshake.Messages.{
  only_if, common_messages, subscribe_messages, welcome_messages, subscribed, connected-subscribed,
  subscribe_ok, welcome_ok,
}
use solo_dual_mode.Handshake.Tells.{
  carries, tells, tellings, tellings-++, told, bit, tellings-only_if, is_text_same, announced,
}

-- How often a rig is told: by the protocol of the port and by its name.
abbrev pub expected_tellings : Bool → List ℕ → ℕ
expected_tellings true app = if is_bitmain app then 2 else 1
expected_tellings false app =
    if is_bitmain app
    then (if says_iceriver app then 2 else 1)
    else (if says_iceriver app then 1 else (if is_iceriver app then 0 else 1))

module _ {F : Type 0} (setup : Setup F) where
  params_carry :
      (ctx : StratumContext) → carries ctx.extranonce (extranonce_params setup ctx) ≡ true
  unfolding extranonce_params
  params_carry ctx = elim (Bool-cases (is_bitmain ctx.remote_app)) [
    | inl bitmain ↦ rw (bitmain) (ground (arith, is_text_same ctx.extranonce))
    | inr other ↦ rw (other) (ground (arith, is_text_same ctx.extranonce))
  ]

  extranonce_tells :
      (ctx : StratumContext) → tells ctx.extranonce (extranonce_message setup ctx) ≡ true
  unfolding extranonce_message
  extranonce_tells ctx = elim (Bool-cases (names_iceriver ctx.remote_app)) [
    | inl named ↦ rw (named) (ground (arith, announced, params_carry ctx))
    | inr other ↦ rw (other) (ground (arith, announced, params_carry ctx))
  ]

  response_tells :
      (id : Option (Scalar F)) (ctx : StratumContext)
      → tells ctx.extranonce (subscribe_response setup id ctx) ≡ is_bitmain ctx.remote_app
  unfolding subscribe_response
  response_tells id ctx = elim (Bool-cases (is_bitmain ctx.remote_app)) [
    | inl bitmain ↦ rw (bitmain) (ground (arith, is_text_same ctx.extranonce))
    | inr other ↦ rw (other) refl
  ]

  common_tells :
      (b : Bool) (ctx : StratumContext)
      → tellings ctx.extranonce (only_if b (common_messages setup ctx)) ≡ bit b
  unfolding tellings
  common_tells true ctx = ground (arith, announced, is_text_same ctx.extranonce)
  common_tells false ctx = refl

  subscribe_tells :
      (id : Option (Scalar F)) (c : Client F)
      → tellings c.ctx.extranonce (subscribe_messages setup id c)
        ≡ bit (is_bitmain c.ctx.remote_app)
          + bit setup.kaspa_common_protocol
          + bit (early_extranonce setup c)
  unfolding tellings
  subscribe_tells id c =
      let e = c.ctx.extranonce in
      ground (
        arith,
        ap bit (response_tells id c.ctx),
        tellings-++ e (only_if setup.kaspa_common_protocol (common_messages setup c.ctx))
            (only_if (early_extranonce setup c) (extranonce_message setup c.ctx ∷ [])),
        common_tells setup.kaspa_common_protocol c.ctx,
        tellings-only_if e (early_extranonce setup c) _ (extranonce_tells c.ctx),
      )

  welcome_tells :
      (id : Option (Scalar F)) (c : Client F)
      → tellings c.ctx.extranonce (welcome_messages setup id c) ≡ bit (late_extranonce setup c)
  unfolding tellings
  welcome_tells id c = ground (
    arith,
    tellings-only_if c.ctx.extranonce (late_extranonce setup c) _ (extranonce_tells c.ctx),
  )

  extranonce_given :
      (params : List (Json F)) (c : Client F)
      → setup.bitmain_extranonce_enabled ≡ true
      → is_empty (subscribed setup params c).ctx.extranonce ≡ false
  unfolding assigned assign_extranonce_for_miner format_extranonce
  extranonce_given params c on =
      elim (Bool-cases (is_bitmain (named_by setup params c.ctx).remote_app)) [
        | inl bitmain ↦ rw (bitmain, on) refl
        | inr other ↦ rw (other) refl
      ]

  -- The four places where a rig may be told, counted.
  placed :
      (common : Bool) (app extranonce : List ℕ)
      → is_empty extranonce ≡ false
      → bit (is_bitmain app)
          + bit common
          + bit (not common && says_iceriver app && not (is_empty extranonce))
          + bit (
              not (is_empty extranonce)
              && not (is_bitmain app)
              && not (is_iceriver app)
              && not common)
        ≡ expected_tellings common app
  unfolding is_iceriver says_iceriver
  placed true app extranonce given = ground (arith, given)
  placed false app extranonce given = ground (arith, given)

  -- What is sent after the login depends on the rig alone.
  login_late :
      (login : List ℕ) (password : Option (List ℕ)) (current : F) (now : ℕ) (c : Client F)
      → late_extranonce setup (logged_in setup login password current now c)
        ≡ late_extranonce setup c
  login_late login password current now c =
      ap
        (λ r.
          not (is_empty r.1)
          && not (is_bitmain r.0)
          && not (is_iceriver r.0)
          && not setup.kaspa_common_protocol)
        (rig-logged_in setup login password current now c)

  login_connected :
      (login : List ℕ) (password : Option (List ℕ)) (current : F) (now : ℕ) (c : Client F)
      → connected (logged_in setup login password current now c).ctx ≡ connected c.ctx
  unfolding connected
  login_connected login password current now c =
      ap (λ r. not r.2) (rig-logged_in setup login password current now c)

  subscribed_rest :
      (params : List (Json F)) (c : Client F)
      → ((subscribed setup params c).wire ≡ c.wire)
        × ((subscribed setup params c).ctx.remote_app ≡ (named_by setup params c.ctx).remote_app)
  unfolding assigned
  subscribed_rest params c = (refl, refl)

  login_wire :
      (login : List ℕ) (password : Option (List ℕ)) (current : F) (now : ℕ) (c : Client F)
      → (logged_in setup login password current now c).wire ≡ c.wire
  unfolding identified open_session
  login_wire login password current now c = refl

  login_extranonce :
      (login : List ℕ) (password : Option (List ℕ)) (current : F) (now : ℕ) (c : Client F)
      → (logged_in setup login password current now c).ctx.extranonce ≡ c.ctx.extranonce
  login_extranonce login password current now c =
      ap (λ r. r.1) (rig-logged_in setup login password current now c)

  sent_tells :
      (id id' : Option (Scalar F)) (params : List (Json F)) (login : List ℕ)
      (password : Option (List ℕ)) (current : F) (now : ℕ) (c : Client F)
      → setup.bitmain_extranonce_enabled ≡ true
      → let c1 = subscribed setup params c in
        let d1 = record c1 { wire = c1.wire ++ subscribe_messages setup id c1 } in
        let l = logged_in setup login password current now d1 in
        tellings l.ctx.extranonce (l.wire ++ welcome_messages setup id' l)
        ≡ tellings c1.ctx.extranonce c.wire
          + expected_tellings setup.kaspa_common_protocol (named_by setup params c.ctx).remote_app
  sent_tells id id' params login password current now c on =
      let c1 = subscribed setup params c in
      let d1 : Client F = record c1 { wire = c1.wire ++ subscribe_messages setup id c1 } in
      let l = logged_in setup login password current now d1 in
      let common = setup.kaspa_common_protocol in
      let e = l.ctx.extranonce in
      let same : e ≡ c1.ctx.extranonce = login_extranonce login password current now d1 in
      ap (λ w. tellings e (w ++ welcome_messages setup id' l))
        (login_wire login password current now d1)
      ∙ tellings-++ e d1.wire (welcome_messages setup id' l)
      ∙ ap (λ t. tellings t d1.wire + tellings e (welcome_messages setup id' l)) same
      ∙ ap (λ n. n + tellings e (welcome_messages setup id' l))
          (tellings-++ c1.ctx.extranonce c1.wire (subscribe_messages setup id c1))
      ∙ grind (
        arith,
        ap (tellings c1.ctx.extranonce) (subscribed_rest params c).0,
        subscribe_tells id c1,
        welcome_tells id' l,
        ap bit (login_late login password current now d1),
        placed common c1.ctx.remote_app c1.ctx.extranonce (extranonce_given params c on),
        ap (expected_tellings common) (subscribed_rest params c).1,
      )

  module _ (takes_all : (n : ℕ) → setup.accepts n ≡ true) where
    -- A connected rig that subscribes and logs in, on a socket that takes every message, with the
    -- extranonces of Bitmain rigs switched on, gets past both handlers and is told the very
    -- extranonce of its connection, with the size it leaves where a size is sent, this often: on a port of the Kaspa Common protocol twice if its name is a Bitmain
    -- rig's and once otherwise; on another port a Bitmain rig once, and twice if its name says
    -- "iceriver" as well; any other rig once, except that a rig whose name has "icemining" or "icm"
    -- and not "iceriver" is never told.
    pub told_once :
        (id id' : Option (Scalar F)) (params rest : List (Json F)) (login : List ℕ) (current : F)
        (now : ℕ) (c : Client F)
        → setup.bitmain_extranonce_enabled ≡ true
        → connected c.ctx ≡ true
        → told (
            handle_subscribe setup id params c
            then_do handle_authorize setup id' (scalar (string login) ∷ rest) current now)
          ≡ some (
              tellings (subscribed setup params c).ctx.extranonce c.wire
              + expected_tellings setup.kaspa_common_protocol
                  (named_by setup params c.ctx).remote_app)
    unfolding handle_authorize mark_authorized
    told_once id id' params rest login current now c on up =
        let c1 = subscribed setup params c in
        let d1 : Client F = record c1 { wire = c1.wire ++ subscribe_messages setup id c1 } in
        let password = as_str (get_elem? rest 0) in
        let l = logged_in setup login password current now d1 in
        let up' =
          login_connected login password current now d1
          ∙ connected-subscribed setup takes_all params c
          ∙ up in
        ap
          (λ o.
            told (o then_do handle_authorize setup id' (scalar (string login) ∷ rest) current now))
          (subscribe_ok setup takes_all id params c up)
        ∙ ap told (welcome_ok setup takes_all id' now l up')
        ∙ ap some (sent_tells id id' params login password current now c on)
